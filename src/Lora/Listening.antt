-- ===== src/Lora/Listening.antt =====
-- What `radio_rx` of src/lora/sx127x.c makes of the chip.
use knot_hal_source.Prelude.{
  ℕ, zero, suc, ◌+◌, ◌*◌, ◌-◌, ◌%◌, ◌≤◌, ◌<◌, ◌≡◌, ◌≢◌, refl, ap, ◌∙◌, arith, ◌==◌, false, inl, inr,
  Bool-cases, some, List, [], ◌∷◌, if◌then◌else◌, get_elem?,
}
use knot_hal_source.Lora.State.{Wires, Lmic, Lora}
use knot_hal_source.Lora.Access.{write_regs, opmode, opmode_lora}
use knot_hal_source.Lora.Modem.{modem_config1, modem_config2, frf_of, config_lora_modem}
use knot_hal_source.Lora.Receive.{
  rxlorairqmask, config_rx, rx_writes, listen, rxlora, startrx, radio_rx,
}
use knot_hal_source.Lora.Chip.{IsSx1272, update, all_stored}
use knot_hal_source.Lora.Accesses.{write_regs-stored}
use knot_hal_source.Lora.Sending.{
  config_lora_modem-stored, config_lora_modem-mode, config_channel-stored, opmode_lora-entered,
  opmode_from, frf_bytes,
}

-- The registers of a chip that listens: for one packet until a time, for any packet, or to the noise.
pub record IsListening (rxmode : ℕ) (lm : Lmic) (regs : ℕ → ℕ) : Type 0 where
  pub mode : regs 0x01 ≡ (if rxmode == 0 then 0x86 else 0x85)
  pub modem1 : regs 0x1d ≡ (if rxmode == 2 then 0x0a else modem_config1 lm)
  pub modem2 : regs 0x1e ≡ (if rxmode == 2 then 0x74 else modem_config2 lm)
  pub channel : rxmode ≢ 2 → regs 0x06 * 65536 + regs 0x07 * 256 + regs 0x08 ≡ frf_of lm.freq
  pub symbols : regs 0x1f ≡ lm.rxsyms
  pub sync_word : regs 0x39 ≡ 0x34
  pub longest : regs 0x23 ≡ 64
  pub mapping : regs 0x40 ≡ 0xc0
  pub mask : regs 0x11 ≡ (if rxmode == 0 then 0x3f else if rxmode == 1 then 0xbf else 0xff)

-- The settings alone, in standby
record IsTuned (rxmode : ℕ) (lm : Lmic) (regs : ℕ → ℕ) : Type 0 where
  mode : regs 0x01 ≡ 0x81
  modem1 : regs 0x1d ≡ (if rxmode == 2 then 0x0a else modem_config1 lm)
  modem2 : regs 0x1e ≡ (if rxmode == 2 then 0x74 else modem_config2 lm)
  channel : rxmode ≢ 2 → regs 0x06 * 65536 + regs 0x07 * 256 + regs 0x08 ≡ frf_of lm.freq

module _ {W : Type 0} {hal : Wires W} {reg : W → ℕ → ℕ} {memory : W → List ℕ}
    (chip : IsSx1272 hal reg memory) where
  config_rx-IsTuned :
      (rxmode : ℕ) (lm : Lmic) (w : W)
      → reg w 1 ≡ 0x81
      → lm.freq < 1_024_000_000
      → IsTuned rxmode lm (reg (config_rx hal rxmode lm w))
  unfolding config_rx
  config_rx-IsTuned rxmode lm w a band =
      let lora : 128 ≤ reg w 1 = rw a (omega arith) in
      elim (Bool-cases (rxmode == 2)) [
        | inl e ↦
            let fixed = write_regs-stored chip ((0x1d, 0x0a) ∷ (0x1e, 0x74) ∷ []) w refl lora in
            record {
              mode = rw (config_rx, e, fixed) a;
              modem1 = rw (config_rx, e, fixed) refl;
              modem2 = rw (config_rx, e, fixed) refl;
              channel = λ other. absurd (ground arith);
            }
        | inr e ↦
            let modem = config_lora_modem-stored chip lm w lora in
            let b : reg (config_lora_modem hal lm w) 1 ≡ 0x81 =
              config_lora_modem-mode chip lm w lora ∙ a in
            let tuned =
              config_channel-stored chip lm (config_lora_modem hal lm w) (rw b (omega arith)) in
            record {
              mode = rw (config_rx, e, tuned) b;
              modem1 = rw (config_rx, e, tuned, modem) refl;
              modem2 = rw (config_rx, e, tuned, modem) refl;
              channel = λ other. rw (config_rx, e, tuned) (frf_bytes lm.freq band);
            }
      ]

  -- The last writes, on settings that are made
  finished :
      (rxmode mask new : ℕ) (lm : Lmic) (w u : W)
      → IsTuned rxmode lm (reg w)
      → 255 - mask ≡ (if rxmode == 0 then 0x3f else if rxmode == 1 then 0xbf else 0xff)
      → new ≡ (if rxmode == 0 then 0x86 else 0x85)
      → reg u ≡ update 1 new (all_stored (rx_writes mask lm) (reg w))
      → IsListening rxmode lm (reg u)
  finished rxmode mask new lm w u p m n e = record {
    mode = rw e n;
    modem1 = rw e p.modem1;
    modem2 = rw e p.modem2;
    channel = λ other. rw e (p.channel other);
    symbols = rw e refl;
    sync_word = rw e refl;
    longest = rw e refl;
    mapping = rw e refl;
    mask = rw e m;
  }

  -- From the settings to the reception
  listen-IsListening :
      (rxmode mask : ℕ) (lm : Lmic) (w : W)
      → IsTuned rxmode lm (reg w)
      → 255 - mask ≡ (if rxmode == 0 then 0x3f else if rxmode == 1 then 0xbf else 0xff)
      → IsListening rxmode lm (reg (listen hal rxmode mask lm w))
  unfolding listen
  listen-IsListening rxmode mask lm w p m =
      let w1 = write_regs hal (rx_writes mask lm) w in
      let sized = write_regs-stored chip (rx_writes mask lm) w refl (rw p.mode (omega arith)) in
      let w2 = hal.hal_pin_rxtx 0 w1 in
      let switched : reg w2 ≡ all_stored (rx_writes mask lm) (reg w) = chip.antenna 0 w1 ∙ sized in
      let b : reg w2 1 ≡ 0x81 = rw switched p.mode in
      elim (Bool-cases (rxmode == 0)) [
        | inl e ↦
            let waited : reg (hal.hal_wait_until lm.rxtime w2) ≡ reg w2 =
              chip.waits lm.rxtime w2 (rw b refl) in
            let c : reg (hal.hal_wait_until lm.rxtime w2) 1 ≡ 0x81 = rw waited b in
            let on =
              opmode_from chip 0x81 6 0x86 (hal.hal_wait_until lm.rxtime w2) c refl (omega arith)
                (omega arith) in
            finished rxmode mask 0x86 lm w _ p m (rw e refl)
              (rw (listen, e) (on ∙ ap (update 1 0x86) (waited ∙ switched)))
        | inr e ↦
            let on = opmode_from chip 0x81 5 0x85 w2 b refl (omega arith) (omega arith) in
            finished rxmode mask 0x85 lm w _ p m (rw e refl)
              (rw (listen, e) (on ∙ ap (update 1 0x85) switched))
      ]

  mask_of :
      (rxmode : ℕ)
      → rxmode < 3
      → (mask : ℕ) × (get_elem? rxlorairqmask rxmode ≡ some mask)
        × (255 - mask ≡ (if rxmode == 0 then 0x3f else if rxmode == 1 then 0xbf else 0xff))
  mask_of zero h = (0xc0, refl, refl)
  mask_of (suc zero) h = (0x40, refl, refl)
  mask_of (suc (suc zero)) h = (0, refl, refl)
  mask_of (suc (suc (suc n))) h = absurd (omega arith)

  -- On a chip as the data sheet describes it, asleep, for a LoRa spreading factor, a frequency below 1024
  -- MHz and one of the three modes: `radio_rx` leaves the chip listening, for one packet in the mode of
  -- single packets and for any otherwise, with the modem and the channel of the settings, or with the
  -- fixed modem where it listens to the noise, for packets of up to 64 bytes; the interrupts that the mode
  -- needs are let through, but the pins are mapped with 0xc0, which puts DIO0 on its last function in
  -- place of RxDone. The settings are not changed.
  pub radio_rx-IsListening :
      (rxmode : ℕ) (s : Lora W)
      → rxmode < 3
      → s.lmic.sf ≢ 0
      → s.lmic.freq < 1_024_000_000
      → reg s.world 1 % 8 ≡ 0
      → (t : Lora W) × (radio_rx hal rxmode s ≡ some t)
        × (t.lmic ≡ s.lmic)
        × IsListening rxmode s.lmic (reg t.world)
  unfolding radio_rx startrx rxlora
  radio_rx-IsListening rxmode s known lora band asleep =
      let modem : (s.lmic.sf == 0) ≡ false = ground arith in
      let (mask, at, m) = mask_of rxmode known in
      let w = hal.hal_disable_irqs s.world in
      let still : reg w 1 % 8 ≡ 0 = rw (chip.disables s.world) asleep in
      let entered = opmode_lora-entered chip w still in
      let first : reg (opmode_lora hal w) 1 ≡ 0x80 = rw entered refl in
      let standby = opmode_from chip 0x80 1 0x81 _ first refl (omega arith) (omega arith) in
      let w1 = opmode hal 1 (opmode_lora hal w) in
      let a : reg w1 1 ≡ 0x81 = rw standby refl in
      let p = config_rx-IsTuned rxmode s.lmic w1 a band in
      let end = listen hal rxmode mask s.lmic (config_rx hal rxmode s.lmic w1) in
      let on = listen-IsListening rxmode mask s.lmic (config_rx hal rxmode s.lmic w1) p m in
      (
        record s { world = hal.hal_enable_irqs end },
        rw (radio_rx, startrx, modem, rxlora, at) refl,
        refl,
        rw (chip.enables end) on,
      )
