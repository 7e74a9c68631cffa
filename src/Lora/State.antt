-- ===== src/Lora/State.antt =====
-- What src/lora/sx127x.c calls (sx127x_hal.h), its static variables, and the registers of sx127x.h.
use knot_hal_source.Prelude.{ℕ, ◌*◌, ◌/◌, List, ℤ, pos, replicate}

-- The functions of the board over a world of their own.
pub record Wires (W : Type 0) : Type 0 where
  pub hal_pin_nss : ℕ → W → W
  pub hal_spi : ℕ → W → ℕ × W
  pub hal_pin_rxtx : ℕ → W → W
  pub hal_pin_rst : ℕ → W → W
  pub hal_ticks : W → ℕ × W
  pub hal_wait_until : ℕ → W → W
  pub hal_disable_irqs : W → W
  pub hal_enable_irqs : W → W

-- The members of `struct lmic_t` that the file uses. The times, `rssi` and `snr` are bit patterns of 32
-- and of 8 bits.
pub record Lmic : Type 0 where
  pub txend : ℕ
  pub rxtime : ℕ
  pub freq : ℕ
  pub rssi : ℕ
  pub snr : ℕ
  pub rxsyms : ℕ
  pub txpow : ℤ
  pub ih : ℕ
  pub sf : ℕ
  pub bw : ℕ
  pub cr : ℕ
  pub no_crc : ℕ

pub record Lora (W : Type 0) : Type 0 where
  pub lmic : Lmic
  pub randbuf : List ℕ
  pub world : W

abbrev pub initial_lora : {W : Type 0} → W → Lora W
initial_lora w = record {
  lmic = record {
    txend = 0;
    rxtime = 0;
    freq = 0;
    rssi = 0;
    snr = 0;
    rxsyms = 0;
    txpow = pos 0;
    ih = 0;
    sf = 0;
    bw = 0;
    cr = 0;
    no_crc = 0;
  };
  randbuf = replicate 16 0;
  world = w;
}

-- `us2osticks` and `ms2osticks`
abbrev pub us2osticks : ℕ → ℕ
us2osticks us = us * 32768 / 1_000_000

abbrev pub ms2osticks : ℕ → ℕ
ms2osticks ms = ms * 32768 / 1000

abbrev pub reg_fifo : ℕ
reg_fifo = 0x00

abbrev pub reg_op_mode : ℕ
reg_op_mode = 0x01

abbrev pub reg_frf_msb : ℕ
reg_frf_msb = 0x06

abbrev pub reg_frf_mid : ℕ
reg_frf_mid = 0x07

abbrev pub reg_frf_lsb : ℕ
reg_frf_lsb = 0x08

abbrev pub reg_pa_config : ℕ
reg_pa_config = 0x09

abbrev pub reg_pa_ramp : ℕ
reg_pa_ramp = 0x0a

abbrev pub reg_lna : ℕ
reg_lna = 0x0c

abbrev pub lora_reg_fifo_addr_ptr : ℕ
lora_reg_fifo_addr_ptr = 0x0d

abbrev pub lora_reg_fifo_tx_base_addr : ℕ
lora_reg_fifo_tx_base_addr = 0x0e

abbrev pub lora_reg_fifo_rx_current_addr : ℕ
lora_reg_fifo_rx_current_addr = 0x10

abbrev pub lora_reg_irq_flags_mask : ℕ
lora_reg_irq_flags_mask = 0x11

abbrev pub lora_reg_irq_flags : ℕ
lora_reg_irq_flags = 0x12

abbrev pub lora_reg_rx_nb_bytes : ℕ
lora_reg_rx_nb_bytes = 0x13

abbrev pub lora_reg_pkt_snr_value : ℕ
lora_reg_pkt_snr_value = 0x19

abbrev pub lora_reg_pkt_rssi_value : ℕ
lora_reg_pkt_rssi_value = 0x1a

abbrev pub lora_reg_modem_config1 : ℕ
lora_reg_modem_config1 = 0x1d

abbrev pub lora_reg_modem_config2 : ℕ
lora_reg_modem_config2 = 0x1e

abbrev pub lora_reg_symb_timeout_lsb : ℕ
lora_reg_symb_timeout_lsb = 0x1f

abbrev pub lora_reg_payload_length : ℕ
lora_reg_payload_length = 0x22

abbrev pub lora_reg_payload_max_length : ℕ
lora_reg_payload_max_length = 0x23

abbrev pub lora_reg_rssi_wideband : ℕ
lora_reg_rssi_wideband = 0x2c

abbrev pub fsk_reg_payload_length : ℕ
fsk_reg_payload_length = 0x32

abbrev pub lora_reg_sync_word : ℕ
lora_reg_sync_word = 0x39

abbrev pub fsk_reg_irq_flags1 : ℕ
fsk_reg_irq_flags1 = 0x3e

abbrev pub fsk_reg_irq_flags2 : ℕ
fsk_reg_irq_flags2 = 0x3f

abbrev pub reg_dio_mapping1 : ℕ
reg_dio_mapping1 = 0x40

-- the modes of RegOpMode
abbrev pub opmode_lora_bit : ℕ
opmode_lora_bit = 0x80

abbrev pub opmode_sleep : ℕ
opmode_sleep = 0x00

abbrev pub opmode_standby : ℕ
opmode_standby = 0x01

abbrev pub opmode_tx : ℕ
opmode_tx = 0x03

abbrev pub opmode_rx : ℕ
opmode_rx = 0x05

abbrev pub opmode_rx_single : ℕ
opmode_rx_single = 0x06

-- the bits of the interrupts
abbrev pub irq_lora_rxtout : ℕ
irq_lora_rxtout = 0x80

abbrev pub irq_lora_rxdone : ℕ
irq_lora_rxdone = 0x40

abbrev pub irq_lora_txdone : ℕ
irq_lora_txdone = 0x08

-- the functions of the pins DIO0, DIO1 and DIO2
abbrev pub map_dio0_lora_rxdone : ℕ
map_dio0_lora_rxdone = 0x00

abbrev pub map_dio0_lora_txdone : ℕ
map_dio0_lora_txdone = 0x40

abbrev pub map_dio1_lora_rxtout : ℕ
map_dio1_lora_rxtout = 0x00

abbrev pub map_dio1_lora_nop : ℕ
map_dio1_lora_nop = 0x30

abbrev pub map_dio2_lora_nop : ℕ
map_dio2_lora_nop = 0xc0

abbrev pub map_dio0_fsk_ready : ℕ
map_dio0_fsk_ready = 0x00

abbrev pub map_dio1_fsk_nop : ℕ
map_dio1_fsk_nop = 0x30

abbrev pub map_dio2_fsk_txnop : ℕ
map_dio2_fsk_txnop = 0x04

abbrev pub map_dio2_fsk_timeout : ℕ
map_dio2_fsk_timeout = 0x08

abbrev pub lora_mac_preamble : ℕ
lora_mac_preamble = 0x34

abbrev pub lna_rx_gain : ℕ
lna_rx_gain = 0x23

abbrev pub rxmode_single : ℕ
rxmode_single = 0

abbrev pub rxmode_rssi : ℕ
rxmode_rssi = 2
