-- ===== src/Lora/Fields.antt =====
-- The settings, read back from the registers that src/lora/sx127x.c computes for them.
use knot_hal_source.Prelude.{
  ℕ, ◌+◌, ◌*◌, ◌/◌, ◌%◌, ◌^◌, ◌≤◌, ◌<◌, ◌≡◌, refl, arith, ◌==◌, ◌&&◌, ◌||◌, Bool, true, inl, inr,
  Bool-cases, ℤ, pos, negsuc, if◌then◌else◌, bit_or, passes, passes-at,
}
use knot_hal_source.Lora.State.{Lmic}
use knot_hal_source.Lora.Modem.{
  coding_bits, is_slow, modem_config1, modem_config2, frf_of, power_of,
}

-- ModemConfig1 of the parts, and their fields by the data sheet
abbrev config_of : ℕ → ℕ → ℕ → ℕ → ℕ → ℕ
config_of bw cr slow crc ih =
    bit_or
      (bit_or (bit_or (bit_or ((bw * 64) % 256) (coding_bits cr)) slow)
        (if crc == 0 then 0x02 else 0))
      (if ih == 0 then 0 else 0x04)

abbrev has_fields : ℕ → ℕ → ℕ → ℕ → ℕ → ℕ → Bool
has_fields config bw cr slow crc ih =
    config / 64 == bw
    && config / 8 % 8 == cr + 1
    && config / 4 % 2 == (if ih == 0 then 0 else 1)
    && config / 2 % 2 == (if crc == 0 then 1 else 0)
    && config % 2 == slow

abbrev config_test : ℕ → Bool
config_test n =
    has_fields (config_of (n % 4) (n / 4 % 4) (n / 16 % 2) (n / 32 % 2) (n / 64 % 2)) (n % 4)
      (n / 4 % 4) (n / 16 % 2) (n / 32 % 2) (n / 64 % 2)

config_table : passes config_test 128 ≡ true
unfolding passes
config_table = refl

config_fields :
    (bw cr slow crc ih : ℕ)
    → bw < 4
    → cr < 4
    → slow < 2
    → crc < 2
    → ih < 2
    → has_fields (config_of bw cr slow crc ih) bw cr slow crc ih ≡ true
config_fields bw cr slow crc ih a b c d e =
    let n : ℕ = bw + 4 * cr + 16 * slow + 32 * crc + 64 * ih in
    let f = passes-at config_test 128 n (omega arith) config_table in
    let p : n % 4 ≡ bw = omega arith in
    let q : n / 4 % 4 ≡ cr = omega arith in
    let r : n / 16 % 2 ≡ slow = omega arith in
    let s : n / 32 % 2 ≡ crc = omega arith in
    let t : n / 64 % 2 ≡ ih = omega arith in rw (p, q, r, s, t) at f

field_equations :
    (config bw cr slow crc ih : ℕ)
    → has_fields config bw cr slow crc ih ≡ true
    → (config / 64 ≡ bw)
      × (config / 8 % 8 ≡ cr + 1)
      × (config / 4 % 2 ≡ (if ih == 0 then 0 else 1))
      × (config / 2 % 2 ≡ (if crc == 0 then 1 else 0))
      × (config % 2 ≡ slow)
field_equations config bw cr slow crc ih h =
    (ground arith, ground arith, ground arith, ground arith, ground arith)

abbrev factor_test : ℕ → Bool
factor_test sf =
    sf == 0
    || bit_or ((0x70 + (sf + 255) * 16) % 256) 0x04 / 16 == sf + 6
      && bit_or ((0x70 + (sf + 255) * 16) % 256) 0x04 % 16 == 4

factor_table : passes factor_test 7 ≡ true
unfolding passes
factor_table = refl

-- For one of the three bandwidths and of the four coding rates, the fields of ModemConfig1 are, from the
-- highest bit: the bandwidth; the coding rate, counted from one; the implicit header, where a length is
-- given; the checksum, where it is not turned off; and the optimisation for low rates, for SF11 and SF12
-- at 125 kHz. ModemConfig2 has the number of the spreading factor, from 7 to 12, in its upper half.
pub modem_config_fields :
    (lm : Lmic)
    → lm.bw < 4
    → lm.cr < 4
    → 0 < lm.sf
    → lm.sf < 7
    → (modem_config1 lm / 64 ≡ lm.bw)
      × (modem_config1 lm / 8 % 8 ≡ lm.cr + 1)
      × (modem_config1 lm / 4 % 2 ≡ (if lm.ih == 0 then 0 else 1))
      × (modem_config1 lm / 2 % 2 ≡ (if lm.no_crc == 0 then 1 else 0))
      × (modem_config1 lm % 2 ≡ (if (lm.sf == 5 || lm.sf == 6) && lm.bw == 0 then 1 else 0))
      × (modem_config2 lm / 16 ≡ lm.sf + 6)
      × (modem_config2 lm % 16 ≡ 4)
unfolding modem_config1 modem_config2
modem_config_fields lm hb hc low high =
    let factor = passes-at factor_test 7 lm.sf high factor_table in
    let number : modem_config2 lm / 16 ≡ lm.sf + 6 = ground arith in
    let rest : modem_config2 lm % 16 ≡ 4 = ground arith in
    let slow : is_slow lm < 2 = ground arith in
    let with = λ (crc ih : ℕ) (c : crc < 2) (i : ih < 2).
      field_equations (config_of lm.bw lm.cr (is_slow lm) crc ih) lm.bw lm.cr (is_slow lm) crc ih
        (config_fields lm.bw lm.cr (is_slow lm) crc ih hb hc slow c i) in
    elim (Bool-cases (lm.no_crc == 0)) [
      | inl e ↦ elim (Bool-cases (lm.ih == 0)) [
        | inl f ↦
            let (p, q, r, s, t) = with 0 0 (omega arith) (omega arith) in
            rw (e, f) (p, q, r, s, t, number, rest)
        | inr f ↦
            let (p, q, r, s, t) = with 0 1 (omega arith) (omega arith) in
            rw (e, f) (p, q, r, s, t, number, rest)
      ]
      | inr e ↦ elim (Bool-cases (lm.ih == 0)) [
        | inl f ↦
            let (p, q, r, s, t) = with 1 0 (omega arith) (omega arith) in
            rw (e, f) (p, q, r, s, t, number, rest)
        | inr f ↦
            let (p, q, r, s, t) = with 1 1 (omega arith) (omega arith) in
            rw (e, f) (p, q, r, s, t, number, rest)
      ]
    ]

-- The number in the frequency registers is the frequency in steps of 32 MHz / 2 ^ 19, rounded down.
frf_of_floor :
    (freq : ℕ)
    → (frf_of freq * 32_000_000 ≤ freq * 2 ^ 19) × (freq * 2 ^ 19 < (frf_of freq + 1) * 32_000_000)
unfolding frf_of
frf_of_floor freq = omega arith

-- The power stays within 2 and 17 dBm, and is the one asked for wherever that is in the range.
power_of_clamp :
    (txpow : ℤ)
    → (2 ≤ power_of txpow)
      × (power_of txpow ≤ 17)
      × ((n : ℕ) → txpow ≡ pos n → 2 ≤ n → n ≤ 17 → power_of txpow ≡ n)
unfolding power_of
power_of_clamp (pos k) = (ground arith, ground arith, λ n e. ground arith)
power_of_clamp (negsuc k) = (ground arith, ground arith, λ n e. ground arith)
