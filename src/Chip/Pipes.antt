-- ===== src/Chip/Pipes.antt =====
-- The pipes of the chip: `nrf24l01_open_pipe` and `nrf24l01_close_pipe` of
-- src/nrf24l01/nrf24l01.c.
use knot_hal_source.Prelude.{
  ℕ, ◌^◌, ◌==◌, ltb, ◌&&◌, true, false, List, ℤ, pos, negsuc, if◌then◌else◌, bit_and, bit_or, take,
}
use knot_hal_source.Chip.Board.{Board, Act, ◌>>=◌, ◌>>◌, pure, clear, nrf24_addr_size}
use knot_hal_source.Chip.Access.{
  nrf24reg_read, nrf24reg_write, set_address_pipe, nrf24_en_rxaddr, nrf24_rx_addr_p1,
  nrf24_rx_addr_pipe,
}

abbrev pub nrf24_pipe_max : ℕ
nrf24_pipe_max = 5

-- `NRF24_EN_RXADDR_PIPE`
abbrev pub nrf24_en_rxaddr_pipe : ℕ → ℕ
nrf24_en_rxaddr_pipe p = bit_and (2 ^ p) 0b00111111

abbrev pub nrf24_en_rxaddr_p1 : ℕ
nrf24_en_rxaddr_p1 = 0b00000010

module _ {W : Type 0} where
  unfoldable pub hold_pipe0 : List ℕ → Act W (Unit {0})
  hold_pipe0 pipe_addr s =
      (tt, record s { pipe0_address = take nrf24_addr_size pipe_addr; pipe0_open = true })

  unfoldable pub release_pipe0 : Act W (Unit {0})
  release_pipe0 s = (tt, record s { pipe0_open = false })

module _ {W : Type 0} (bd : Board W) (spi_fd : ℤ) where
  unfoldable pub enable_pipe : ℕ → ℕ → List ℕ → Act W (Unit {0})
  enable_pipe value pipe pipe_addr = do
    nrf24reg_write bd spi_fd nrf24_en_rxaddr (bit_or value (nrf24_en_rxaddr_pipe pipe))
    set_address_pipe bd spi_fd (nrf24_rx_addr_pipe pipe) pipe_addr
    if pipe == 0
        then hold_pipe0 pipe_addr
        else if ltb 1 pipe && bit_and value nrf24_en_rxaddr_p1 == 0
        then set_address_pipe bd spi_fd nrf24_rx_addr_p1 pipe_addr
        else pure tt

  unfoldable pub nrf24l01_open_pipe : ℕ → List ℕ → Act W ℤ
  nrf24l01_open_pipe pipe pipe_addr = if ltb nrf24_pipe_max pipe then pure (negsuc 0) else (do
    value ← nrf24reg_read bd spi_fd nrf24_en_rxaddr
    if bit_and value (nrf24_en_rxaddr_pipe pipe) == 0
        then enable_pipe value pipe pipe_addr
        else pure tt
    pure (pos 0))

  unfoldable pub disable_pipe : ℕ → Act W (Unit {0})
  disable_pipe pipe = do
    value ← nrf24reg_read bd spi_fd nrf24_en_rxaddr
    nrf24reg_write bd spi_fd nrf24_en_rxaddr (clear value (nrf24_en_rxaddr_pipe pipe))
    if pipe == 0 then release_pipe0 else pure tt

  unfoldable pub nrf24l01_close_pipe : ℤ → Act W ℤ
  nrf24l01_close_pipe (negsuc n) = pure (negsuc 0)
  nrf24l01_close_pipe (pos pipe) = if ltb nrf24_pipe_max pipe then pure (negsuc 0) else (do
    value ← nrf24reg_read bd spi_fd nrf24_en_rxaddr
    if bit_and value (nrf24_en_rxaddr_pipe pipe) == 0 then pure tt else disable_pipe pipe
    pure (pos 0))
