-- ===== src/Lora/Sending.antt =====
-- What `radio_tx` of src/lora/sx127x.c makes of the chip.
use knot_hal_source.Prelude.{
  ℕ, ◌+◌, ◌*◌, ◌-◌, ◌/◌, ◌^◌, ◌%◌, ◌≤◌, ◌<◌, ◌≡◌, ◌≢◌, refl, ap, ◌∙◌, arith, ◌==◌, false, inl, inr,
  Bool-cases, List, [], ◌∷◌, if◌then◌else◌, bit_and, bit_or, length, take, take-all, take-overlay,
}
use knot_hal_source.Lora.State.{Wires, Lmic, Lora}
use knot_hal_source.Lora.Access.{write_buf, write_reg, read_reg, write_regs, opmode, opmode_lora}
use knot_hal_source.Lora.Modem.{
  modem_config1, modem_config2, frf_of, power_of, config_lora_modem, config_channel, config_power,
}
use knot_hal_source.Lora.Transmit.{config_ramp, packet_writes, launch, txlora, starttx, radio_tx}
use knot_hal_source.Lora.Chip.{IsSx1272, update, all_stored}
use knot_hal_source.Lora.Accesses.{
  write_reg-stored, read_reg-value, read_reg-keeps, write_regs-stored, opmode-stored, opmode-memory,
  write_buf-loads, write_buf-moves,
}

-- The registers of a chip that sends `len` bytes as the settings say.
pub record IsSending (lm : Lmic) (len : ℕ) (regs : ℕ → ℕ) : Type 0 where
  pub mode : regs 0x01 ≡ 0x83
  pub modem1 : regs 0x1d ≡ modem_config1 lm
  pub modem2 : regs 0x1e ≡ modem_config2 lm
  pub channel : regs 0x06 * 65536 + regs 0x07 * 256 + regs 0x08 ≡ frf_of lm.freq
  pub power : regs 0x09 ≡ bit_or 0x80 (power_of lm.txpow - 2)
  pub sync_word : regs 0x39 ≡ 0x34
  pub mapping : regs 0x40 ≡ 0xf0
  pub mask : regs 0x11 ≡ 0xf7
  pub payload : regs 0x22 ≡ len

-- The settings alone
record IsPrepared (lm : Lmic) (regs : ℕ → ℕ) : Type 0 where
  mode : regs 0x01 ≡ 0x81
  modem1 : regs 0x1d ≡ modem_config1 lm
  modem2 : regs 0x1e ≡ modem_config2 lm
  channel : regs 0x06 * 65536 + regs 0x07 * 256 + regs 0x08 ≡ frf_of lm.freq
  power : regs 0x09 ≡ bit_or 0x80 (power_of lm.txpow - 2)

-- Below 1024 MHz the three bytes are the whole number.
pub frf_bytes :
    (freq : ℕ)
    → freq < 1_024_000_000
    → frf_of freq / 2 ^ 16 % 256 * 65536 + frf_of freq / 2 ^ 8 % 256 * 256 + frf_of freq % 256
      ≡ frf_of freq
unfolding frf_of
frf_bytes freq h = let small : freq * 2 ^ 19 / 32_000_000 < 2 ^ 24 = omega arith in omega arith

abbrev length_set : Lmic → (ℕ → ℕ) → ℕ → ℕ
length_set lm regs = if lm.ih == 0 then regs else update 0x22 lm.ih regs

module _ {W : Type 0} {hal : Wires W} {reg : W → ℕ → ℕ} {memory : W → List ℕ}
    (chip : IsSx1272 hal reg memory) where
  pub config_lora_modem-stored :
      (lm : Lmic) (w : W)
      → 128 ≤ reg w 1
      → reg (config_lora_modem hal lm w)
        ≡ update 0x1e (modem_config2 lm) (update 0x1d (modem_config1 lm) (length_set lm (reg w)))
  unfolding config_lora_modem
  config_lora_modem-stored lm w lora = elim (Bool-cases (lm.ih == 0)) [
    | inl e ↦ rw (config_lora_modem, e) (write_regs-stored chip _ w refl lora)
    | inr e ↦ rw (config_lora_modem, e) (write_regs-stored chip _ w refl lora)
  ]

  pub config_lora_modem-mode :
      (lm : Lmic) (w : W) → 128 ≤ reg w 1 → reg (config_lora_modem hal lm w) 1 ≡ reg w 1
  config_lora_modem-mode lm w lora = elim (Bool-cases (lm.ih == 0)) [
    | inl e ↦ rw (config_lora_modem-stored lm w lora, e) refl
    | inr e ↦ rw (config_lora_modem-stored lm w lora, e) refl
  ]

  pub opmode_lora-entered :
      (w : W) → reg w 1 % 8 ≡ 0 → reg (opmode_lora hal w) ≡ update 1 0x80 (reg w)
  unfolding opmode_lora write_reg
  opmode_lora-entered w asleep = chip.enters w asleep

  pub config_channel-stored :
      (lm : Lmic) (w : W)
      → 128 ≤ reg w 1
      → reg (config_channel hal lm w)
        ≡ all_stored
            ((0x06, frf_of lm.freq / 2 ^ 16 % 256)
              ∷ (0x07, frf_of lm.freq / 2 ^ 8 % 256)
              ∷ (0x08, frf_of lm.freq % 256)
              ∷ [])
            (reg w)
  unfolding config_channel
  config_channel-stored lm w lora = write_regs-stored chip _ w refl lora

  config_ramp-stored :
      (w : W)
      → 128 ≤ reg w 1
      → reg (config_ramp hal w) ≡ update 0x0a (bit_or (bit_and (reg w 0x0a) 0xf0) 0x08) (reg w)
  unfolding config_ramp
  config_ramp-stored w lora =
      let old = read_reg-value chip 0x0a w (omega arith) lora refl in
      let seen = read_reg-keeps chip 0x0a w (omega arith) (omega arith) in
      let still : 128 ≤ reg (read_reg hal 0x0a w).1 1 = rw seen lora in
      rw (config_ramp, old)
        (write_reg-stored chip 0x0a (bit_or (bit_and (reg w 0x0a) 0xf0) 0x08)
            (read_reg hal 0x0a w).1 (omega arith) (omega arith) still (λ e. absurd (omega arith))
          ∙ ap (update 0x0a (bit_or (bit_and (reg w 0x0a) 0xf0) 0x08)) seen)

  config_power-stored :
      (lm : Lmic) (w : W)
      → 128 ≤ reg w 1
      → reg (config_power hal lm w) ≡ update 0x09 (bit_or 0x80 (power_of lm.txpow - 2)) (reg w)
  unfolding config_power
  config_power-stored lm w lora = write_regs-stored chip _ w refl lora

  -- A mode of LoRa, from the mode `old`
  pub opmode_from :
      (old mode new : ℕ) (w : W)
      → reg w 1 ≡ old
      → bit_or (bit_and old (255 - 7)) mode ≡ new
      → 128 ≤ old
      → 128 ≤ new
      → reg (opmode hal mode w) ≡ update 1 new (reg w)
  opmode_from old mode new w e f lora stays =
      let here : bit_or (bit_and (reg w 1) (255 - 7)) mode ≡ new = rw e f in
      let g = opmode-stored chip mode w (rw e lora) (rw here stays) in rw here at g

  -- In standby, with the settings made.
  prepared :
      (lm : Lmic) (w : W)
      → reg w 1 % 8 ≡ 0
      → lm.freq < 1_024_000_000
      → IsPrepared lm (
          reg (
            config_power hal lm (
              config_ramp hal (
                config_channel hal lm
                  (config_lora_modem hal lm (opmode hal 1 (opmode_lora hal w)))))))
  prepared lm w asleep band =
      let entered = opmode_lora-entered w asleep in
      let first : reg (opmode_lora hal w) 1 ≡ 0x80 = rw entered refl in
      let standby = opmode_from 0x80 1 0x81 _ first refl (omega arith) (omega arith) in
      let w1 = opmode hal 1 (opmode_lora hal w) in
      let a : reg w1 1 ≡ 0x81 = rw standby refl in
      let w2 = config_lora_modem hal lm w1 in
      let modem = config_lora_modem-stored lm w1 (rw a (omega arith)) in
      let b : reg w2 1 ≡ 0x81 = config_lora_modem-mode lm w1 (rw a (omega arith)) ∙ a in
      let w3 = config_channel hal lm w2 in
      let tuned = config_channel-stored lm w2 (rw b (omega arith)) in
      let c : reg w3 1 ≡ 0x81 = rw tuned b in
      let w4 = config_ramp hal w3 in
      let ramped = config_ramp-stored w3 (rw c (omega arith)) in
      let d : reg w4 1 ≡ 0x81 = rw ramped c in
      let powered = config_power-stored lm w4 (rw d (omega arith)) in
      record {
        mode = rw powered d;
        modem1 = rw (powered, ramped, tuned, modem) refl;
        modem2 = rw (powered, ramped, tuned, modem) refl;
        channel = rw (powered, ramped, tuned) (frf_bytes lm.freq band);
        power = rw powered refl;
      }

  -- From the settings to the transmission: the interrupts, the length, the bytes, and the mode.
  loaded :
      (lm : Lmic) (buffer : List ℕ) (w : W)
      → IsPrepared lm (reg w)
      → length buffer < 256
      → IsSending lm (length buffer) (reg (launch hal buffer (length buffer) w))
        × (take (length buffer) (memory (launch hal buffer (length buffer) w)) ≡ buffer)
  unfolding launch
  loaded lm buffer w p short =
      let len = length buffer in
      let small : len % 256 ≡ len = omega arith in
      let all : take (len % 256) buffer ≡ buffer = rw small (take-all len buffer (omega arith)) in
      let lora : 128 ≤ reg w 1 = rw p.mode (omega arith) in
      let w1 = write_regs hal (packet_writes len) w in
      let sized = write_regs-stored chip (packet_writes len) w refl lora in
      let a : reg w1 1 ≡ 0x81 = rw sized p.mode in
      let start : reg w1 0x0d ≡ 0 = rw sized refl in
      let fits : reg w1 0x0d + length (take (len % 256) buffer) ≤ 256 =
        rw (start, all) (omega arith) in
      let w2 = write_buf hal 0 buffer len w1 in
      let (pointer, moved) = write_buf-moves chip buffer len w1 (rw a (omega arith)) in
      let filled = write_buf-loads chip buffer len w1 (rw a (omega arith)) fits in
      let w3 = hal.hal_pin_rxtx 1 w2 in
      let b : reg w3 1 ≡ 0x81 = rw (chip.antenna, moved) a in
      let sent = opmode_from 0x81 3 0x83 w3 b refl (omega arith) (omega arith) in
      let big : length (memory w1) ≡ 256 = chip.room w1 in
      (
        record {
          mode = rw sent refl;
          modem1 = rw (sent, chip.antenna, moved, sized) p.modem1;
          modem2 = rw (sent, chip.antenna, moved, sized) p.modem2;
          channel = rw (sent, chip.antenna, moved, sized) p.channel;
          power = rw (sent, chip.antenna, moved, sized) p.power;
          sync_word = rw (sent, chip.antenna, moved, sized) refl;
          mapping = rw (sent, chip.antenna, moved, sized) refl;
          mask = rw (sent, chip.antenna, moved, sized) refl;
          payload = rw (sent, chip.antenna, moved, sized) small;
        },
        rw (opmode-memory chip 3 w3, chip.antenna_memory, filled, start, all)
            (take-overlay (memory w1) buffer (omega arith)),
      )

  -- On a chip as the data sheet describes it, asleep, for a LoRa spreading factor, a frequency below 1024
  -- MHz and a message of up to 255 bytes: `radio_tx` leaves the chip in transmission, with the modem,
  -- the channel and the power of the settings, the length of the message, and the message at the start
  -- of its memory; only the interrupt of TxDone is let through, but the pins are mapped with 0xf0, which
  -- puts DIO0 on its last function in place of TxDone. The settings are not changed.
  pub radio_tx-IsSending :
      (buffer : List ℕ) (s : Lora W)
      → s.lmic.sf ≢ 0
      → length buffer < 256
      → s.lmic.freq < 1_024_000_000
      → reg s.world 1 % 8 ≡ 0
      → IsSending s.lmic (length buffer) (reg (radio_tx hal buffer (length buffer) s).world)
        × (take (length buffer) (memory (radio_tx hal buffer (length buffer) s).world) ≡ buffer)
        × ((radio_tx hal buffer (length buffer) s).lmic ≡ s.lmic)
  unfolding radio_tx starttx txlora launch
  radio_tx-IsSending buffer s lora short band asleep =
      let modem : (s.lmic.sf == 0) ≡ false = ground arith in
      let w = hal.hal_disable_irqs s.world in
      let still : reg w 1 % 8 ≡ 0 = rw (chip.disables s.world) asleep in
      let (sending, kept) = loaded s.lmic buffer _ (prepared s.lmic w still band) short in
      rw (starttx, modem, chip.enables, chip.enables_memory) (sending, kept, refl)
