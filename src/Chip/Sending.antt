-- ===== src/Chip/Sending.antt =====
-- `nrf24l01_write` of src/drivers/phy_driver_nrf24.c: a packet is sent and the chip listens again.
use knot_hal_source.Chip.Board.{Board}
