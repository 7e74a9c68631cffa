-- ===== src/Chip/Transmit.antt =====
-- Sending: `nrf24l01_set_ptx`, `nrf24l01_ptx_data` and `nrf24l01_ptx_wait_datasent` of
-- src/nrf24l01/nrf24l01.c. The wait reads the status until it tells the end, so it runs on fuel,
-- one unit for each reading.
use knot_hal_source.Prelude.{
  ℕ, zero, suc, ◌+◌, ◌*◌, ◌==◌, ltb, ◌||◌, List, ℤ, pos, negsuc, if◌then◌else◌, Option, none, some,
  bit_and, bit_or, take,
}
use knot_hal_source.Chip.Board.{Board, Radio, Act, ◌>>=◌, ◌>>◌, pure, world_call, clear}
use knot_hal_source.Chip.Access.{
  nrf24reg_read, nrf24reg_write, command, command_data, set_standby1, set_address_pipe,
  get_address_pipe, nrf24_config, nrf24_en_aa, nrf24_en_rxaddr, nrf24_setup_retr, nrf24_status,
  nrf24_rx_addr_p0, nrf24_tx_addr, nrf24_flush_tx, nrf24_w_tx_payload,
}
use knot_hal_source.Chip.Setup.{nrf24_st_tx_ds, nrf24_st_max_rt, nrf24_en_aa_mask}
use knot_hal_source.Chip.Pipes.{nrf24_pipe_max}

abbrev pub nrf24_cfg_prim_rx : ℕ
nrf24_cfg_prim_rx = 0b00000001

abbrev pub nrf24_retr_ard : ℕ → ℕ
nrf24_retr_ard v = bit_and (v * 16) 0b11110000

abbrev pub nrf24_retr_arc_mask : ℕ
nrf24_retr_arc_mask = 0b00001111

abbrev pub nrf24_arc : ℕ
nrf24_arc = 15

abbrev pub nrf24_payload_size : ℕ
nrf24_payload_size = 32

-- `ST_TX_FULL`
abbrev pub st_tx_full : ℕ → ℕ
st_tx_full v = bit_and v 0b00000001

module _ {W : Type 0} (bd : Board W) (spi_fd : ℤ) where
  -- the retries by the pipe, if the acknowledgement is on
  unfoldable pub set_retries : ℕ → Act W (Unit {0})
  set_retries pipe = do
    aa ← nrf24reg_read bd spi_fd nrf24_en_aa
    nrf24reg_write bd spi_fd nrf24_setup_retr (
        if bit_and aa nrf24_en_aa_mask == 0
        then 0
        else bit_or (nrf24_retr_ard (pipe + 1)) (bit_and nrf24_arc nrf24_retr_arc_mask))

  -- Pipe 0 listens for the acknowledgement, if there are retries.
  unfoldable pub acknowledge_address : List ℕ → Act W (Unit {0})
  acknowledge_address pipe_addr = do
    retr ← nrf24reg_read bd spi_fd nrf24_setup_retr
    if bit_and retr nrf24_retr_arc_mask == 0 then pure tt else (do
      rxaddr ← nrf24reg_read bd spi_fd nrf24_en_rxaddr
      nrf24reg_write bd spi_fd nrf24_en_rxaddr (bit_or rxaddr 0b00000001)
      set_address_pipe bd spi_fd nrf24_rx_addr_p0 pipe_addr)

  -- the pipe's address for what is sent, and for the acknowledgement
  unfoldable pub set_tx_address : ℕ → Act W (Unit {0})
  set_tx_address pipe = do
    pipe_addr ← get_address_pipe bd spi_fd pipe bd.frame
    acknowledge_address pipe_addr
    set_address_pipe bd spi_fd nrf24_tx_addr pipe_addr

  unfoldable pub nrf24l01_set_ptx : ℕ → Act W ℤ
  nrf24l01_set_ptx pipe = if ltb nrf24_pipe_max pipe then pure (negsuc 0) else (do
    set_standby1 bd spi_fd
    set_retries pipe
    set_tx_address pipe
    nrf24reg_write bd spi_fd nrf24_status (bit_or nrf24_st_tx_ds nrf24_st_max_rt)
    config ← nrf24reg_read bd spi_fd nrf24_config
    nrf24reg_write bd spi_fd nrf24_config (clear config nrf24_cfg_prim_rx)
    pure (pos 0))

  -- The transmission is triggered only if the queue is not full.
  unfoldable pub fire : ℕ → Act W (Unit {0})
  fire st =
      if st == 0
      then (do
        world_call bd.enable
        world_call (bd.delay_us 10)
        set_standby1 bd spi_fd
        world_call (bd.delay_us 120))
      else pure tt

  -- `pdata` points to an array of 32 bytes, and is not null.
  unfoldable pub nrf24l01_ptx_data : List ℕ → ℕ → Act W ℤ
  nrf24l01_ptx_data pdata len =
      if len == 0 || ltb nrf24_payload_size len then pure (negsuc 0) else (do
        result ← command_data bd spi_fd nrf24_w_tx_payload (take len pdata)
        fire (st_tx_full result.1)
        pure (pos (st_tx_full result.1)))

  -- `none` if the fuel does not last.
  unfoldable pub nrf24l01_ptx_wait_datasent : ℕ → Radio W → Option (ℤ × Radio W)
  nrf24l01_ptx_wait_datasent zero s = none
  nrf24l01_ptx_wait_datasent (suc fuel) s =
      let (value, read) = nrf24reg_read bd spi_fd nrf24_status s in
      let rest = nrf24l01_ptx_wait_datasent fuel read in
      if bit_and value nrf24_st_max_rt == 0
      then (if bit_and value nrf24_st_tx_ds == 0 then rest else some (pos 0, read))
      else some (negsuc 0, (command bd spi_fd nrf24_flush_tx read).1)
