-- ===== src/Chip/Access.antt =====
-- The static functions of src/nrf24l01/nrf24l01.c that reach the registers: one SPI transfer each,
-- and the addresses of the pipes. A register's value is taken as the byte; the callers mask the
-- sign of its `int8_t` away.
use knot_hal_source.Prelude.{
  ℕ, ◌+◌, ◌==◌, ◌||◌, Bool, List, [], ◌∷◌, ℤ, if◌then◌else◌, bit_and, bit_or, take, get_or,
  replicate, overlay,
}
use knot_hal_source.Chip.Board.{Board, Act, ◌>>=◌, ◌>>◌, pure, world_call, nrf24_addr_size}

-- The registers and commands of nrf24l01_io.h.
abbrev pub nrf24_config : ℕ
nrf24_config = 0x00

abbrev pub nrf24_en_aa : ℕ
nrf24_en_aa = 0x01

abbrev pub nrf24_en_rxaddr : ℕ
nrf24_en_rxaddr = 0x02

abbrev pub nrf24_setup_aw : ℕ
nrf24_setup_aw = 0x03

abbrev pub nrf24_setup_retr : ℕ
nrf24_setup_retr = 0x04

abbrev pub nrf24_rf_ch : ℕ
nrf24_rf_ch = 0x05

abbrev pub nrf24_rf_setup : ℕ
nrf24_rf_setup = 0x06

abbrev pub nrf24_status : ℕ
nrf24_status = 0x07

abbrev pub nrf24_rx_addr_p0 : ℕ
nrf24_rx_addr_p0 = 0x0a

abbrev pub nrf24_rx_addr_p1 : ℕ
nrf24_rx_addr_p1 = 0x0b

abbrev pub nrf24_tx_addr : ℕ
nrf24_tx_addr = 0x10

abbrev pub nrf24_fifo_status : ℕ
nrf24_fifo_status = 0x17

abbrev pub nrf24_dynpd : ℕ
nrf24_dynpd = 0x1c

abbrev pub nrf24_feature : ℕ
nrf24_feature = 0x1d

abbrev pub nrf24_nop : ℕ
nrf24_nop = 0b11111111

abbrev pub nrf24_flush_tx : ℕ
nrf24_flush_tx = 0b11100001

abbrev pub nrf24_flush_rx : ℕ
nrf24_flush_rx = 0b11100010

abbrev pub nrf24_r_rx_pl_wid : ℕ
nrf24_r_rx_pl_wid = 0b01100000

abbrev pub nrf24_r_rx_payload : ℕ
nrf24_r_rx_payload = 0b01100001

abbrev pub nrf24_w_tx_payload : ℕ
nrf24_w_tx_payload = 0b10100000

abbrev pub nrf24_r_register : ℕ → ℕ
nrf24_r_register r = bit_and r 0b00011111

abbrev pub nrf24_w_register : ℕ → ℕ
nrf24_w_register r = bit_or 0b00100000 (bit_and r 0b00011111)

abbrev pub nrf24_rx_addr_pipe : ℕ → ℕ
nrf24_rx_addr_pipe p = p + nrf24_rx_addr_p0

-- `NRF24_AW_RD`: the length of an address
abbrev pub nrf24_aw_rd : ℕ → ℕ
nrf24_aw_rd b = if bit_and b 0b11 == 0 then 0 else bit_and b 0b11 + 2

-- The registers with an address of up to five bytes.
abbrev pub has_long_address : ℕ → Bool
has_long_address reg = reg == nrf24_tx_addr || reg == nrf24_rx_addr_p0 || reg == nrf24_rx_addr_p1

module _ {W : Type 0} (bd : Board W) (spi_fd : ℤ) where
  -- one transfer, with the new bytes of `rx`
  abbrev pub transfer : List ℕ → List ℕ → Act W (List ℕ)
  transfer tx rx s =
      let (bytes, w) = bd.spi_bus_transfer spi_fd tx rx s.world in (bytes, record s { world = w })

  unfoldable pub nrf24reg_read : ℕ → Act W ℕ
  nrf24reg_read reg = do
    value ← transfer (nrf24_r_register reg ∷ []) (nrf24_nop ∷ [])
    pure (get_or value 0 nrf24_nop)

  unfoldable pub nrf24data_read : ℕ → ℕ → Act W (List ℕ)
  nrf24data_read reg len = transfer (nrf24_r_register reg ∷ []) (replicate len nrf24_nop)

  unfoldable pub nrf24reg_write : ℕ → ℕ → Act W (Unit {0})
  nrf24reg_write reg value = do transfer (nrf24_w_register reg ∷ []) (value ∷ []); pure tt

  unfoldable pub nrf24data_write : ℕ → List ℕ → Act W (Unit {0})
  nrf24data_write reg pd = do transfer (nrf24_w_register reg ∷ []) pd; pure tt

  -- It returns the device's status.
  unfoldable pub command : ℕ → Act W ℕ
  command cmd = do value ← transfer [] (cmd ∷ []); pure (get_or value 0 cmd)

  -- The new bytes of `pd` and the device's status.
  unfoldable pub command_data : ℕ → List ℕ → Act W (List ℕ × ℕ)
  command_data cmd pd = do
    bytes ← transfer (cmd ∷ []) pd
    status ← command nrf24_nop
    pure (bytes, status)

  abbrev pub set_standby1 : Act W (Unit {0})
  set_standby1 = world_call bd.disable

  -- `pipe_addr` points to five bytes.
  unfoldable pub set_address_pipe : ℕ → List ℕ → Act W (Unit {0})
  set_address_pipe reg pipe_addr =
      if has_long_address reg
      then (do
        aw ← nrf24reg_read nrf24_setup_aw
        nrf24data_write reg (take (nrf24_aw_rd aw) (take nrf24_addr_size pipe_addr)))
      else nrf24data_write reg (take 1 (take nrf24_addr_size pipe_addr))

  -- The new bytes of `pipe_addr`.
  unfoldable pub get_address_pipe : ℕ → List ℕ → Act W (List ℕ)
  get_address_pipe pipe pipe_addr = do
    aw ← nrf24reg_read nrf24_setup_aw
    if has_long_address (nrf24_rx_addr_pipe pipe)
        then (do
          bytes ← nrf24data_read (nrf24_rx_addr_pipe pipe) (nrf24_aw_rd aw)
          pure (overlay pipe_addr bytes))
        else (do
          high ← nrf24data_read nrf24_rx_addr_p1 (nrf24_aw_rd aw)
          low ← nrf24data_read (nrf24_rx_addr_pipe pipe) 1
          pure (overlay (overlay pipe_addr high) low))
