-- ===== src/Chip/Setup.antt =====
-- Setting the chip up: `nrf24l01_init`, `nrf24l01_deinit`, `nrf24l01_set_channel` and
-- `nrf24l01_set_standby` of src/nrf24l01/nrf24l01.c.
use knot_hal_source.Prelude.{
  int8, low_byte, ℕ, ◌*◌, ◌-◌, ◌==◌, ltb, ◌||◌, Bool, List, ℤ, pos, negsuc, if◌then◌else◌, bit_and,
  bit_or,
}
use knot_hal_source.Chip.Board.{Board, Act, ◌>>=◌, ◌>>◌, pure, world_call, clear, nrf24_addr_size}
use knot_hal_source.Chip.Access.{
  nrf24reg_read, nrf24reg_write, command, set_standby1, nrf24_config, nrf24_en_aa, nrf24_en_rxaddr,
  nrf24_setup_aw, nrf24_setup_retr, nrf24_rf_ch, nrf24_rf_setup, nrf24_status, nrf24_dynpd,
  nrf24_feature, nrf24_flush_tx, nrf24_flush_rx, nrf24_nop,
}

abbrev pub nrf24_config_rst : ℕ
nrf24_config_rst = 0b00001000

abbrev pub nrf24_config_mask : ℕ
nrf24_config_mask = 0b01111111

abbrev pub nrf24_cfg_mask_rx_dr : ℕ
nrf24_cfg_mask_rx_dr = 0b01000000

abbrev pub nrf24_cfg_mask_tx_ds : ℕ
nrf24_cfg_mask_tx_ds = 0b00100000

abbrev pub nrf24_cfg_mask_max_rt : ℕ
nrf24_cfg_mask_max_rt = 0b00010000

abbrev pub nrf24_cfg_en_crc : ℕ
nrf24_cfg_en_crc = 0b00001000

abbrev pub nrf24_cfg_crco : ℕ
nrf24_cfg_crco = 0b00000100

abbrev pub nrf24_cfg_pwr_up : ℕ
nrf24_cfg_pwr_up = 0b00000010

abbrev pub nrf24_st_rx_dr : ℕ
nrf24_st_rx_dr = 0b01000000

abbrev pub nrf24_st_tx_ds : ℕ
nrf24_st_tx_ds = 0b00100000

abbrev pub nrf24_st_max_rt : ℕ
nrf24_st_max_rt = 0b00010000

-- `value & ~NRF24_STATUS_MASK`, the mask being 0x01110000
abbrev pub clear_status : ℕ → ℕ
clear_status value = bit_and value (0xffffffff - 0x01110000)

-- `NRF24_AW`
abbrev pub nrf24_aw : ℕ → ℕ
nrf24_aw b = if ltb b 3 || ltb 5 b then 0 else bit_and (b - 2) 0b11

abbrev pub nrf24_rf_dr : ℕ → ℕ
nrf24_rf_dr v = bit_and v 0b00101000

abbrev pub nrf24_rf_pwr : ℕ → ℕ
nrf24_rf_pwr v = bit_and (v * 2) 0b00000110

abbrev pub nrf24_ch : ℕ → ℕ
nrf24_ch c = bit_and c 0b01111111

abbrev pub nrf24_channel_default : ℕ
nrf24_channel_default = 10

abbrev pub nrf24_ch_min : ℕ
nrf24_ch_min = 10

abbrev pub nrf24_en_aa_mask : ℕ
nrf24_en_aa_mask = 0b00111111

abbrev pub nrf24_en_rxaddr_mask : ℕ
nrf24_en_rxaddr_mask = 0b00111111

abbrev pub constrain : ℕ → ℕ → ℕ → ℕ
constrain x l h = if ltb x l then l else if ltb h x then h else x

-- `NRF24_CH_MAX_2MBPS` or `NRF24_CH_MAX_1MBPS`
abbrev pub max_channel : ℕ → ℕ
max_channel rf_setup = if nrf24_rf_dr rf_setup == 0b001000 then 54 else 116

module _ {W : Type 0} (bd : Board W) where
  -- The first half of `nrf24l01_init`: power, channel, speed and addresses.
  unfoldable pub init_radio : ℤ → ℕ → Act W (Unit {0})
  init_radio spi_fd tx_pwr = do
    nrf24reg_write bd spi_fd nrf24_config nrf24_config_rst
    world_call (bd.delay_us 5000)
    config ← nrf24reg_read bd spi_fd nrf24_config
    nrf24reg_write bd spi_fd nrf24_config (
        bit_or
          (bit_or
            (bit_or (clear config nrf24_config_mask)
              (bit_or nrf24_cfg_mask_rx_dr nrf24_cfg_mask_tx_ds))
            (bit_or nrf24_cfg_mask_max_rt nrf24_cfg_en_crc))
          (bit_or nrf24_cfg_pwr_up nrf24_cfg_crco))
    rf_ch ← nrf24reg_read bd spi_fd nrf24_rf_ch
    nrf24reg_write bd spi_fd nrf24_rf_ch (clear rf_ch 0b01111111)
    nrf24reg_write bd spi_fd nrf24_rf_ch (nrf24_ch nrf24_channel_default)
    rf_setup ← nrf24reg_read bd spi_fd nrf24_rf_setup
    nrf24reg_write bd spi_fd nrf24_rf_setup
        (bit_or (bit_or (clear rf_setup 0b10111110) (nrf24_rf_dr 0)) (nrf24_rf_pwr tx_pwr))
    aw ← nrf24reg_read bd spi_fd nrf24_setup_aw
    nrf24reg_write bd spi_fd nrf24_setup_aw (bit_or (clear aw 0b11) (nrf24_aw nrf24_addr_size))
    pure tt

  -- Its second half: acknowledgement, pipes, features and what is pending.
  unfoldable pub init_link : ℤ → Act W (Unit {0})
  init_link spi_fd = do
    nrf24reg_write bd spi_fd nrf24_setup_retr 0
    aa ← nrf24reg_read bd spi_fd nrf24_en_aa
    nrf24reg_write bd spi_fd nrf24_en_aa (clear aa nrf24_en_aa_mask)
    rxaddr ← nrf24reg_read bd spi_fd nrf24_en_rxaddr
    nrf24reg_write bd spi_fd nrf24_en_rxaddr (clear rxaddr nrf24_en_rxaddr_mask)
    feature ← nrf24reg_read bd spi_fd nrf24_feature
    nrf24reg_write bd spi_fd nrf24_feature (bit_or (clear feature 0b111) 0b100)
    dynpd ← nrf24reg_read bd spi_fd nrf24_dynpd
    nrf24reg_write bd spi_fd nrf24_dynpd (
        bit_or
          (bit_or (bit_or (clear dynpd 0b111111) (bit_or 0b100000 0b10000)) (bit_or 0b1000 0b100))
          (bit_or 0b10 0b1))
    status ← nrf24reg_read bd spi_fd nrf24_status
    nrf24reg_write bd spi_fd nrf24_status (
        bit_or (bit_or (bit_or (clear_status status) nrf24_st_rx_dr) nrf24_st_tx_ds)
          nrf24_st_max_rt)
    command bd spi_fd nrf24_flush_tx
    command bd spi_fd nrf24_flush_rx
    pure tt

  -- `spi_fd` is an `int8_t`.
  unfoldable pub nrf24l01_init : List ℕ → ℕ → Act W ℤ
  nrf24l01_init dev tx_pwr s =
      let (spi_fd, w) = bd.io_setup dev s.world in
      let opened = record s { world = w } in
      elim (int8 (low_byte spi_fd)) [
        | negsuc e ↦ (negsuc e, opened)
        | pos n ↦ (do init_radio (pos n) tx_pwr; init_link (pos n); pure (pos n)) opened
      ]

  unfoldable pub nrf24l01_deinit : ℤ → Act W ℤ
  nrf24l01_deinit spi_fd = do
    set_standby1 bd spi_fd
    config ← nrf24reg_read bd spi_fd nrf24_config
    nrf24reg_write bd spi_fd nrf24_config (clear config nrf24_cfg_pwr_up)
    world_call (bd.io_reset spi_fd)
    pure (pos 0)

  -- A new channel drops what is pending.
  unfoldable pub retune : ℤ → ℕ → ℕ → Act W (Unit {0})
  retune spi_fd max ch = do
    rf_ch ← nrf24reg_read bd spi_fd nrf24_rf_ch
    if ch == nrf24_ch rf_ch then pure tt else (do
      nrf24reg_write bd spi_fd nrf24_status
          (bit_or (bit_or nrf24_st_rx_dr nrf24_st_tx_ds) nrf24_st_max_rt)
      command bd spi_fd nrf24_flush_tx
      command bd spi_fd nrf24_flush_rx
      nrf24reg_write bd spi_fd nrf24_rf_ch (nrf24_ch (constrain ch nrf24_ch_min max)))

  unfoldable pub set_acknowledge : ℤ → Bool → Act W (Unit {0})
  set_acknowledge spi_fd ack = do
    aa ← nrf24reg_read bd spi_fd nrf24_en_aa
    nrf24reg_write bd spi_fd nrf24_en_aa
        (if ack then bit_or aa nrf24_en_aa_mask else clear aa nrf24_en_aa_mask)

  unfoldable pub nrf24l01_set_channel : ℤ → ℕ → Bool → Act W ℤ
  nrf24l01_set_channel spi_fd ch ack = do
    rf_setup ← nrf24reg_read bd spi_fd nrf24_rf_setup
    if ch == constrain ch nrf24_ch_min (max_channel rf_setup)
        then (do
          set_standby1 bd spi_fd
          retune spi_fd (max_channel rf_setup) ch
          set_acknowledge spi_fd ack
          pure (pos 0))
        else pure (negsuc 0)

  unfoldable pub nrf24l01_set_standby : ℤ → Act W ℤ
  nrf24l01_set_standby spi_fd = do
    set_standby1 bd spi_fd
    status ← command bd spi_fd nrf24_nop
    pure (int8 status)
