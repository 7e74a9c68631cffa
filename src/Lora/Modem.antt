-- ===== src/Lora/Modem.antt =====
-- The values that src/lora/sx127x.c computes for the modem, the channel and the power.
use knot_hal_source.Prelude.{
  ℕ, ◌+◌, ◌-◌, ◌*◌, ◌/◌, ◌%◌, ◌^◌, ◌==◌, ltb, ◌&&◌, ◌||◌, [], ◌∷◌, ◌++◌, ℤ, pos, negsuc,
  if◌then◌else◌, bit_or,
}
use knot_hal_source.Lora.State.{
  Wires, Lmic, lora_reg_payload_length, lora_reg_modem_config1, lora_reg_modem_config2, reg_frf_msb,
  reg_frf_mid, reg_frf_lsb, reg_pa_config,
}
use knot_hal_source.Lora.Access.{write_regs}

-- the bits of the coding rate; another rate has none
abbrev pub coding_bits : ℕ → ℕ
coding_bits cr =
    if cr == 0
    then 0x08
    else if cr == 1
    then 0x10
    else if cr == 2
    then 0x18
    else if cr == 3
    then 0x20
    else 0

-- SF11 and SF12 in the bandwidth of 125 kHz
abbrev pub is_slow : Lmic → ℕ
is_slow lm = if (lm.sf == 5 || lm.sf == 6) && lm.bw == 0 then 0x01 else 0

unfoldable pub modem_config1 : Lmic → ℕ
modem_config1 lm =
    bit_or
      (bit_or (bit_or (bit_or ((lm.bw * 64) % 256) (coding_bits lm.cr)) (is_slow lm))
        (if lm.no_crc == 0 then 0x02 else 0))
      (if lm.ih == 0 then 0 else 0x04)

-- The spreading factor counts from zero, which is FSK; `sf - 1` is taken modulo 256.
unfoldable pub modem_config2 : Lmic → ℕ
modem_config2 lm = bit_or ((0x70 + (lm.sf + 255) * 16) % 256) 0x04

unfoldable pub frf_of : ℕ → ℕ
frf_of freq = freq * 2 ^ 19 / 32_000_000

-- The power is kept within 2 and 17 dBm.
unfoldable pub power_of : ℤ → ℕ
power_of (pos n) = if ltb 17 n then 17 else if ltb n 2 then 2 else n
power_of (negsuc n) = 2

module _ {W : Type 0} (hal : Wires W) where
  unfoldable pub config_lora_modem : Lmic → W → W
  config_lora_modem lm = write_regs hal (
      (if lm.ih == 0 then [] else (lora_reg_payload_length, lm.ih) ∷ [])
      ++ ((lora_reg_modem_config1, modem_config1 lm)
          ∷ (lora_reg_modem_config2, modem_config2 lm)
          ∷ []))

  unfoldable pub config_channel : Lmic → W → W
  config_channel lm =
      let frf = frf_of lm.freq in
      write_regs hal (
        (reg_frf_msb, frf / 2 ^ 16 % 256)
        ∷ (reg_frf_mid, frf / 2 ^ 8 % 256)
        ∷ (reg_frf_lsb, frf % 256)
        ∷ [])

  unfoldable pub config_power : Lmic → W → W
  config_power lm = write_regs hal ((reg_pa_config, bit_or 0x80 (power_of lm.txpow - 2)) ∷ [])
