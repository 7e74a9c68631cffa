-- ===== src/Chip/Receive.antt =====
-- Receiving: `nrf24l01_set_prx`, `nrf24l01_prx_pipe_available` and `nrf24l01_prx_data` of
-- src/nrf24l01/nrf24l01.c.
use knot_hal_source.Prelude.{
  ℕ, ◌/◌, ◌==◌, ltb, Bool, true, false, List, [], ◌∷◌, ℤ, pos, if◌then◌else◌, min, bit_and, bit_or,
  take, get_or, overlay,
}
use knot_hal_source.Chip.Board.{Board, Act, ◌>>=◌, ◌>>◌, pure, world_call, clear}
use knot_hal_source.Chip.Access.{
  nrf24reg_read, nrf24reg_write, command, command_data, set_standby1, set_address_pipe,
  nrf24_config, nrf24_en_rxaddr, nrf24_status, nrf24_fifo_status, nrf24_rx_addr_p0, nrf24_flush_rx,
  nrf24_r_rx_pl_wid, nrf24_r_rx_payload,
}
use knot_hal_source.Chip.Setup.{nrf24_st_rx_dr}
use knot_hal_source.Chip.Pipes.{nrf24_pipe_max}
use knot_hal_source.Chip.Transmit.{nrf24_cfg_prim_rx, nrf24_payload_size}

abbrev pub nrf24_no_pipe : ℕ
nrf24_no_pipe = 0b111

-- `NRF24_ST_RX_P_NO`
abbrev pub nrf24_st_rx_p_no : ℕ → ℕ
nrf24_st_rx_p_no v = bit_and v 0b00001110 / 2

module _ {W : Type 0} (bd : Board W) (spi_fd : ℤ) where
  -- the address of pipe 0, or the pipe off
  unfoldable pub restore_pipe0 : Bool → List ℕ → Act W (Unit {0})
  restore_pipe0 true pipe0_address = set_address_pipe bd spi_fd nrf24_rx_addr_p0 pipe0_address
  restore_pipe0 false pipe0_address = do
    rxaddr ← nrf24reg_read bd spi_fd nrf24_en_rxaddr
    nrf24reg_write bd spi_fd nrf24_en_rxaddr (clear rxaddr 0b00000001)

  unfoldable pub nrf24l01_set_prx : Act W ℤ
  nrf24l01_set_prx s =
      (do
        set_standby1 bd spi_fd
        restore_pipe0 s.pipe0_open s.pipe0_address
        nrf24reg_write bd spi_fd nrf24_status nrf24_st_rx_dr
        config ← nrf24reg_read bd spi_fd nrf24_config
        nrf24reg_write bd spi_fd nrf24_config (bit_or config nrf24_cfg_prim_rx)
        world_call bd.enable
        world_call (bd.delay_us 130)
        pure (pos 0))
        s

  unfoldable pub nrf24l01_prx_pipe_available : Act W ℕ
  nrf24l01_prx_pipe_available = do
    fifo ← nrf24reg_read bd spi_fd nrf24_fifo_status
    if bit_and fifo 0b00000001 == 0
        then (do
          status ← nrf24reg_read bd spi_fd nrf24_status
          pure (
              if ltb nrf24_pipe_max (nrf24_st_rx_p_no status)
              then nrf24_no_pipe
              else nrf24_st_rx_p_no status))
        else pure nrf24_no_pipe

  -- the payload of `rxlen` bytes, cut to `len`
  unfoldable pub take_payload : List ℕ → ℕ → ℕ → Act W (ℕ × List ℕ)
  take_payload pdata len rxlen =
      if ltb nrf24_payload_size rxlen
      then (do command bd spi_fd nrf24_flush_rx; pure (0, pdata))
      else if rxlen == 0
      then pure (0, pdata)
      else (do
        result ← command_data bd spi_fd nrf24_r_rx_payload (take (min len rxlen) pdata)
        pure (min len rxlen, overlay pdata result.0))

  -- The length and the new bytes of `pdata`. `rxlen` is not initialised: `width` is what it holds.
  unfoldable pub nrf24l01_prx_data : ℕ → List ℕ → ℕ → Act W (ℕ × List ℕ)
  nrf24l01_prx_data width pdata len = do
    result ← command_data bd spi_fd nrf24_r_rx_pl_wid (width ∷ [])
    taken ← take_payload pdata len (get_or result.0 0 width)
    nrf24reg_write bd spi_fd nrf24_status nrf24_st_rx_dr
    pure taken
