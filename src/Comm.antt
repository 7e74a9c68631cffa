-- ===== src/Comm.antt =====
-- src/hal/comm/comm_nrf24l01.c: the sockets over the radio.
pub mod State
pub mod Errors
pub mod Run
pub mod Pipes
pub mod Control
pub mod Mgmt
pub mod Raw
pub mod Invariant
pub mod Beacon
pub mod Scheduler
pub mod Socket
