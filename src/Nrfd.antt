-- ===== src/Nrfd.antt =====
-- The daemon of src/nrfd/manager.c: the devices it knows, the clients that are connected, and what it
-- does with the events of the radio.
pub mod State
pub mod Devices
pub mod Properties
pub mod Clients
pub mod Config
pub mod Radio
pub mod Start
pub mod Starting
pub mod Bus
pub mod Table
pub mod Adding
pub mod Removing
pub mod Zero
pub mod Places
pub mod Connected
pub mod Stopping
pub mod Keys
pub mod Loading
pub mod Registering
pub mod Run
