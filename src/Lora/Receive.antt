-- ===== src/Lora/Receive.antt =====
-- Receiving, in src/lora/sx127x.c.
use knot_hal_source.Prelude.{
  ℕ, ◌-◌, ◌==◌, Option, none, some, List, [], ◌∷◌, if◌then◌else◌, bit_or, get_elem?,
}
use knot_hal_source.Lora.State.{
  Wires, Lmic, Lora, reg_lna, lora_reg_irq_flags_mask, lora_reg_irq_flags, lora_reg_modem_config1,
  lora_reg_modem_config2, lora_reg_symb_timeout_lsb, lora_reg_payload_max_length,
  lora_reg_sync_word, reg_dio_mapping1, opmode_standby, opmode_rx, opmode_rx_single,
  irq_lora_rxtout, irq_lora_rxdone, map_dio0_lora_rxdone, map_dio1_lora_rxtout, map_dio2_lora_nop,
  map_dio0_fsk_ready, map_dio1_fsk_nop, map_dio2_fsk_timeout, lora_mac_preamble, lna_rx_gain,
  rxmode_single, rxmode_rssi,
}
use knot_hal_source.Lora.Access.{write_regs, opmode, opmode_lora, opmode_fsk}
use knot_hal_source.Lora.Modem.{config_lora_modem, config_channel}

-- `rxlorairqmask`, by the mode
abbrev pub rxlorairqmask : List ℕ
rxlorairqmask = bit_or irq_lora_rxdone irq_lora_rxtout ∷ irq_lora_rxdone ∷ 0x00 ∷ []

-- the gain, the lengths and the interrupts
abbrev pub rx_writes : ℕ → Lmic → List (ℕ × ℕ)
rx_writes mask lm =
    (reg_lna, lna_rx_gain)
    ∷ (lora_reg_payload_max_length, 64)
    ∷ (lora_reg_symb_timeout_lsb, lm.rxsyms)
    ∷ (lora_reg_sync_word, lora_mac_preamble)
    ∷ (
      reg_dio_mapping1,
      bit_or (bit_or map_dio0_lora_rxdone map_dio1_lora_rxtout) map_dio2_lora_nop,
    )
    ∷ (lora_reg_irq_flags, 0xff)
    ∷ (lora_reg_irq_flags_mask, 255 - mask)
    ∷ []

module _ {W : Type 0} (hal : Wires W) where
  -- the settings of the modem: fixed ones for the noise
  unfoldable pub config_rx : ℕ → Lmic → W → W
  config_rx rxmode lm =
      if rxmode == rxmode_rssi
      then write_regs hal ((lora_reg_modem_config1, 0x0a) ∷ (lora_reg_modem_config2, 0x74) ∷ [])
      else (λ w. config_channel hal lm (config_lora_modem hal lm w))

  -- the end of `rxlora`, once the modem is set
  unfoldable pub listen : ℕ → ℕ → Lmic → W → W
  listen rxmode mask lm w =
      let ready = hal.hal_pin_rxtx 0 (write_regs hal (rx_writes mask lm) w) in
      if rxmode == rxmode_single
      then opmode hal opmode_rx_single (hal.hal_wait_until lm.rxtime ready)
      else opmode hal opmode_rx ready

  -- `none` is an access outside of the table of the masks.
  unfoldable pub rxlora : ℕ → Lmic → W → Option W
  rxlora rxmode lm w =
      let standby = opmode hal opmode_standby (opmode_lora hal w) in
      elim (get_elem? rxlorairqmask rxmode) [
        | none ↦ none
        | some mask ↦ some (listen rxmode mask lm (config_rx rxmode lm standby))
      ]

  unfoldable pub rxfsk : Lmic → W → W
  rxfsk lm w =
      let standby = opmode hal opmode_standby (opmode_fsk hal w) in
      let shaped =
        write_regs hal
          ((reg_lna, lna_rx_gain)
            ∷ (0x0d, 0x1e)
            ∷ (0x12, 0x0b)
            ∷ (0x13, 0x12)
            ∷ (0x1f, 0xaa)
            ∷ (0x27, 0x12)
            ∷ (0x30, 0xd8)
            ∷ (0x31, 0x40)
            ∷ (0x28, 0xc1)
            ∷ (0x29, 0x94)
            ∷ (0x2a, 0xc1)
            ∷ (0x21, 0xff)
            ∷ (0x02, 0x02)
            ∷ (0x03, 0x80)
            ∷ (0x04, 0x01)
            ∷ (0x05, 0x99)
            ∷ (
              reg_dio_mapping1,
              bit_or (bit_or map_dio0_fsk_ready map_dio1_fsk_nop) map_dio2_fsk_timeout,
            )
            ∷ [])
          (config_channel hal lm standby) in
      opmode hal opmode_rx (hal.hal_wait_until lm.rxtime (hal.hal_pin_rxtx 0 shaped))

  unfoldable pub startrx : ℕ → Lmic → W → Option W
  startrx rxmode lm w = if lm.sf == 0 then some (rxfsk lm w) else rxlora rxmode lm w

  unfoldable pub radio_rx : ℕ → Lora W → Option (Lora W)
  radio_rx rxmode s = elim (startrx rxmode s.lmic (hal.hal_disable_irqs s.world)) [
    | none ↦ none
    | some w ↦ some (record s { world = hal.hal_enable_irqs w })
  ]
