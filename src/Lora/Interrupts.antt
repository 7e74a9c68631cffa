-- ===== src/Lora/Interrupts.antt =====
-- The interrupts of the LoRa modem: `radio_irq_handler` of src/lora/sx127x.c.
use knot_hal_source.Prelude.{
  ℕ, ◌+◌, ◌-◌, ◌≤◌, ◌<◌, ◌≡◌, refl, ◌∙◌, arith, ◌==◌, ltb, ◌⊎◌, ◌&&◌, not, true, false, inl, inr,
  Bool-cases, List, [], ◌∷◌, bit_and, bit_or, length, passes, passes-at,
}
use knot_hal_source.Prelude.Outcome.{done, bad_access}
use knot_hal_source.Lora.State.{Wires, Lora}
use knot_hal_source.Lora.Access.{read_reg, write_regs, opmode}
use knot_hal_source.Lora.Driver.{Received, back, lora_flags, lora_interrupt, radio_irq_handler}
use knot_hal_source.Lora.Chip.{IsSx1272}
use knot_hal_source.Lora.Accesses.{read_reg-value, read_reg-keeps, write_regs-stored, opmode-stored}
use knot_hal_source.Lora.Packets.{
  IsWithin, told, flagged, at_packet, lora_rxdone-done, lora_rxdone-long,
}

-- the modes of LoRa
modes :
    passes
      (λ k. not (bit_and (128 + k) 0x80 == 0) && bit_or (bit_and (128 + k) (255 - 7)) 0 == 128)
      8
    ≡ true
unfolding passes
modes = refl

mode_facts :
    (mode : ℕ)
    → 128 ≤ mode
    → mode < 136
    → ((bit_and mode 0x80 == 0) ≡ false) × (bit_or (bit_and mode (255 - 7)) 0 ≡ 128)
mode_facts mode low high =
    let same : 128 + (mode - 128) ≡ mode = omega arith in
    let fact =
      passes-at
        (λ k. not (bit_and (128 + k) 0x80 == 0) && bit_or (bit_and (128 + k) (255 - 7)) 0 == 128) 8
        (mode - 128) (omega arith) modes in
    let here : (not (bit_and mode 0x80 == 0) && bit_or (bit_and mode (255 - 7)) 0 == 128) ≡ true =
      rw same at fact in
    (ground arith, ground arith)

module _ {W : Type 0} {hal : Wires W} {reg : W → ℕ → ℕ} {memory : W → List ℕ}
    (chip : IsSx1272 hal reg memory) (r : Received) where
  lora_flags-done :
      (flags now : ℕ) (s : Lora W)
      → 128 ≤ reg s.world 1
      → bit_and (reg s.world 0x1d) 4 ≡ 0
      → s.lmic.sf < 7
      → ((got : Received) × (t : Lora W) × (lora_flags hal flags now r s ≡ done got t)
          × IsWithin r got
          × (reg t.world 1 ≡ reg s.world 1))
        ⊎ ((lora_flags hal flags now r s ≡ bad_access) × (length r.buffer < told hal s.world))
  unfolding lora_flags
  lora_flags-done flags now s lora explicit factor =
      let same : IsWithin r r = record { size = refl; inside = inl refl } in
      elim (Bool-cases (bit_and flags 0x08 == 0)) [
        | inl no_tx ↦ elim (Bool-cases (bit_and flags 0x40 == 0)) [
          | inl no_rx ↦ elim (Bool-cases (bit_and flags 0x80 == 0)) [
            | inl e ↦ inl (r, s, rw (lora_flags, no_tx, no_rx, e) refl, same, refl)
            | inr e ↦ inl (
              record r { len_buffer = 0 },
              s,
              rw (lora_flags, no_tx, no_rx, e) refl,
              record { size = refl; inside = inr (omega arith) },
              refl,
            )
          ]
          | inr rx ↦ elim (Bool-cases (ltb (length r.buffer) (told hal s.world))) [
            | inl long ↦
                let over : length r.buffer < told hal s.world = ground arith in
                inr (
                  rw (lora_flags, no_tx, rx)
                      (lora_rxdone-long chip r now s lora explicit factor over),
                  over,
                )
            | inr short ↦
                let fits : told hal s.world ≤ length r.buffer = ground arith in
                let (got, t, e, within, mode) =
                  lora_rxdone-done chip r now s lora explicit factor fits in
                inl (got, t, rw (lora_flags, no_tx, rx) e, within, mode)
          ]
        ]
        | inr tx ↦ inl (
          r,
          record s { lmic = record s.lmic { txend = back now 1 } },
          rw (lora_flags, tx) refl,
          same,
          refl,
        )
      ]

  lora_interrupt-done :
      (now : ℕ) (s : Lora W)
      → 128 ≤ reg s.world 1
      → bit_and (reg s.world 0x1d) 4 ≡ 0
      → s.lmic.sf < 7
      → ((got : Received) × (t : Lora W) × (lora_interrupt hal now r s ≡ done got t)
          × IsWithin r got
          × (reg t.world 1 ≡ reg s.world 1)
          × (reg t.world 0x11 ≡ 0xff))
        ⊎ ((lora_interrupt hal now r s ≡ bad_access)
            × (length r.buffer < told hal (flagged hal s.world)))
  unfolding lora_interrupt
  lora_interrupt-done now s lora explicit factor =
      let flags = (read_reg hal 0x12 s.world).0 in
      let w = flagged hal s.world in
      let same : reg w ≡ reg s.world =
        read_reg-keeps chip 0x12 s.world (omega arith) (omega arith) in
      elim (lora_flags-done flags now (record s { world = w }) (rw same lora) (rw same explicit)
        factor) [
          | inr (e, over) ↦ inr (rw (lora_interrupt, e) refl, over)
          | inl (got, t, e, within, mode) ↦
              let still : reg t.world 1 ≡ reg s.world 1 = rw mode (rw same refl) in
              let masked =
                write_regs-stored chip ((0x11, 0xff) ∷ (0x12, 0xff) ∷ []) t.world refl
                  (rw still lora) in
              inl (
                got,
                record t { world = write_regs hal ((0x11, 0xff) ∷ (0x12, 0xff) ∷ []) t.world },
                rw (lora_interrupt, e) refl,
                within,
                rw masked still,
                rw masked refl,
              )
        ]

  radio_irq_handler-lora :
      (s : Lora W) (got : Received) (t : Lora W)
      → (bit_and (read_reg hal 1 (hal.hal_ticks s.world).1).0 0x80 == 0) ≡ false
      → lora_interrupt hal
          (hal.hal_ticks s.world).0
          r
          (record s { world = (read_reg hal 1 (hal.hal_ticks s.world).1).1 })
        ≡ done got t
      → radio_irq_handler hal r s ≡ done got (record t { world = opmode hal 0 t.world })
  unfolding radio_irq_handler
  radio_irq_handler-lora s got t is_lora e = rw (radio_irq_handler, is_lora, e) refl

  radio_irq_handler-long :
      (s : Lora W)
      → (bit_and (read_reg hal 1 (hal.hal_ticks s.world).1).0 0x80 == 0) ≡ false
      → lora_interrupt hal
          (hal.hal_ticks s.world).0
          r
          (record s { world = (read_reg hal 1 (hal.hal_ticks s.world).1).1 })
        ≡ bad_access
      → radio_irq_handler hal r s ≡ bad_access
  unfolding radio_irq_handler
  radio_irq_handler-long s is_lora e = rw (radio_irq_handler, is_lora, e) refl

  -- On a chip as the data sheet describes it, in LoRa mode, with explicit headers and with a spreading
  -- factor that the table of the corrections has, and whatever the flags are: `radio_irq_handler`
  -- returns with the chip asleep in LoRa mode, all interrupts masked, and the buffer of its size, with a
  -- length within it or the one from before; or the packet leads it outside of the buffer, and then
  -- the chip tells of more bytes than the buffer has, which nothing compares with its size.
  pub radio_irq_handler-sleeps :
      (s : Lora W)
      → 128 ≤ reg s.world 1
      → reg s.world 1 < 136
      → bit_and (reg s.world 0x1d) 4 ≡ 0
      → s.lmic.sf < 7
      → ((got : Received) × (t : Lora W) × (radio_irq_handler hal r s ≡ done got t)
          × IsWithin r got
          × (reg t.world 1 ≡ 0x80)
          × (reg t.world 0x11 ≡ 0xff))
        ⊎ ((radio_irq_handler hal r s ≡ bad_access)
            × (length r.buffer < told hal (at_packet hal s.world)))
  unfolding radio_irq_handler
  radio_irq_handler-sleeps s lora high explicit factor =
      let now = (hal.hal_ticks s.world).0 in
      let w1 = (hal.hal_ticks s.world).1 in
      let timed : reg w1 ≡ reg s.world = chip.ticks s.world in
      let mode = read_reg-value chip 1 w1 (omega arith) (rw timed lora) refl in
      let w2 = (read_reg hal 1 w1).1 in
      let same : reg w2 ≡ reg s.world =
        read_reg-keeps chip 1 w1 (omega arith) (omega arith) ∙ timed in
      let (in_lora, sleeps) = mode_facts (reg s.world 1) lora high in
      let is_lora : (bit_and (reg w1 1) 0x80 == 0) ≡ false = rw timed in_lora in
      let here : (bit_and (read_reg hal 1 w1).0 0x80 == 0) ≡ false = rw mode is_lora in
      elim (lora_interrupt-done now (record s { world = w2 }) (rw same lora) (rw same explicit)
        factor) [
          | inr (e, over) ↦ inr (radio_irq_handler-long s here e, over)
          | inl (got, t, e, within, kept, masked) ↦
              let still : reg t.world 1 ≡ reg s.world 1 = rw kept (rw same refl) in
              let asleep : bit_or (bit_and (reg t.world 1) (255 - 7)) 0 ≡ 128 = rw still sleeps in
              let off = opmode-stored chip 0 t.world (rw still lora) (rw asleep (omega arith)) in
              inl (
                got,
                record t { world = opmode hal 0 t.world },
                radio_irq_handler-lora s got t here e,
                within,
                rw off asleep,
                rw off masked,
              )
        ]
