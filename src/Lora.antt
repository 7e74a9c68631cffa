-- ===== src/Lora.antt =====
-- The LoRa chip SX1272: src/lora/sx127x.c in its configuration for that chip, and the pins, the bus and
-- the clock that src/lora/sx127x_hal_linux.c gives it.
pub mod State
pub mod Access
pub mod Modem
pub mod Transmit
pub mod Receive
pub mod Driver
pub mod Linux
pub mod Chip
pub mod Accesses
pub mod Sending
pub mod Fields
pub mod Listening
pub mod Packets
pub mod Interrupts
pub mod Waiting
pub mod Seeding
