-- ===== src/Chip.antt =====
-- The nRF24L01 radio chip as src/nrf24l01/nrf24l01.c drives it over SPI, and the driver of
-- src/drivers/phy_driver_nrf24.c on top of it.
pub mod Board
pub mod Access
pub mod Setup
pub mod Pipes
pub mod Transmit
pub mod Receive
pub mod Driver
pub mod Spi
pub mod Linux
pub mod Transfers
pub mod Registers
pub mod Tuning
pub mod EnableBits
pub mod Opening
pub mod Mode
pub mod Pipe0
pub mod Waiting
pub mod Sending
pub mod Receiving
pub mod Agreed
pub mod Hearing
pub mod Listening
pub mod Configured
