-- ===== src/Lora/Transmit.antt =====
-- Sending, in src/lora/sx127x.c.
use knot_hal_source.Prelude.{ℕ, ◌+◌, ◌-◌, ◌%◌, ◌==◌, List, [], ◌∷◌, if◌then◌else◌, bit_and, bit_or}
use knot_hal_source.Lora.State.{
  Wires, Lmic, Lora, reg_fifo, reg_op_mode, reg_pa_ramp, lora_reg_fifo_addr_ptr,
  lora_reg_fifo_tx_base_addr, lora_reg_irq_flags_mask, lora_reg_irq_flags, lora_reg_payload_length,
  lora_reg_sync_word, fsk_reg_payload_length, reg_dio_mapping1, opmode_standby, opmode_tx,
  irq_lora_txdone, map_dio0_lora_txdone, map_dio1_lora_nop, map_dio2_lora_nop, map_dio0_fsk_ready,
  map_dio1_fsk_nop, map_dio2_fsk_txnop, lora_mac_preamble,
}
use knot_hal_source.Lora.Access.{write_reg, read_reg, write_buf, write_regs, opmode, opmode_lora}
use knot_hal_source.Lora.Modem.{config_lora_modem, config_channel, config_power}

-- the interrupts and the length
abbrev pub packet_writes : ℕ → List (ℕ × ℕ)
packet_writes len =
    (lora_reg_sync_word, lora_mac_preamble)
    ∷ (reg_dio_mapping1, bit_or (bit_or map_dio0_lora_txdone map_dio1_lora_nop) map_dio2_lora_nop)
    ∷ (lora_reg_irq_flags, 0xff)
    ∷ (lora_reg_irq_flags_mask, 255 - irq_lora_txdone)
    ∷ (lora_reg_fifo_tx_base_addr, 0x00)
    ∷ (lora_reg_fifo_addr_ptr, 0x00)
    ∷ (lora_reg_payload_length, len % 256)
    ∷ []

module _ {W : Type 0} (hal : Wires W) where
  -- `buffer` holds at least `len` bytes.
  unfoldable pub txfsk : Lmic → List ℕ → ℕ → W → W
  txfsk lm buffer len w =
      let standby = opmode hal opmode_standby (write_reg hal reg_op_mode 0x10 w) in
      let shaped =
        write_regs hal
          ((0x02, 0x02)
            ∷ (0x03, 0x80)
            ∷ (0x04, 0x01)
            ∷ (0x05, 0x99)
            ∷ (0x25, 0x00)
            ∷ (0x26, 0x05)
            ∷ (0x27, 0x12)
            ∷ (0x30, 0xd0)
            ∷ (0x31, 0x40)
            ∷ (0x28, 0xc1)
            ∷ (0x29, 0x94)
            ∷ (0x2a, 0xc1)
            ∷ [])
          standby in
      let tuned = config_power hal lm (config_channel hal lm shaped) in
      let sized =
        write_regs hal
          ((
            reg_dio_mapping1,
            bit_or (bit_or map_dio0_fsk_ready map_dio1_fsk_nop) map_dio2_fsk_txnop,
          )
            ∷ (fsk_reg_payload_length, (len + 1) % 256)
            ∷ (reg_fifo, len % 256)
            ∷ [])
          tuned in
      opmode hal opmode_tx (hal.hal_pin_rxtx 1 (write_buf hal reg_fifo buffer len sized))

  -- the ramp-up time of the amplifier
  unfoldable pub config_ramp : W → W
  config_ramp w =
      let (ramp, seen) = read_reg hal reg_pa_ramp w in
      write_reg hal reg_pa_ramp (bit_or (bit_and ramp 0xf0) 0x08) seen

  -- the end of `txlora`, once the settings are made
  unfoldable pub launch : List ℕ → ℕ → W → W
  launch buffer len w =
      let sized = write_regs hal (packet_writes len) w in
      opmode hal opmode_tx (hal.hal_pin_rxtx 1 (write_buf hal reg_fifo buffer len sized))

  unfoldable pub txlora : Lmic → List ℕ → ℕ → W → W
  txlora lm buffer len w =
      let standby = opmode hal opmode_standby (opmode_lora hal w) in
      let tuned = config_channel hal lm (config_lora_modem hal lm standby) in
      launch buffer len (config_power hal lm (config_ramp tuned))

  unfoldable pub starttx : Lmic → List ℕ → ℕ → W → W
  starttx lm buffer len = if lm.sf == 0 then txfsk lm buffer len else txlora lm buffer len

  unfoldable pub radio_tx : List ℕ → ℕ → Lora W → Lora W
  radio_tx buffer len s = record s {
    world = hal.hal_enable_irqs (starttx s.lmic buffer len (hal.hal_disable_irqs s.world));
  }
