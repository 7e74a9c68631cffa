-- ===== src/Serial.antt =====
-- The serial daemon, src/seriald/manager.c, over the serial line of src/hal/comm/comm_serial_linux.c.
pub mod State
pub mod Line
pub mod Manager
pub mod Forwarding
pub mod Failing
