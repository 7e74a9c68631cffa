-- ===== src/Lora/Packets.antt =====
-- A packet that the chip tells of, in `radio_irq_handler` of src/lora/sx127x.c.
use knot_hal_source.Prelude.{
  ℕ, ◌+◌, ◌-◌, ◌%◌, ◌≤◌, ◌<◌, ◌≡◌, ◌⊎◌, refl, ◌∙◌, arith, ◌==◌, ltb, true, false, inl, inr,
  Bool-cases, some, List, if◌then◌else◌, bit_and, get_elem?, get_elem?_of_lt, length,
  length-overlay, overlay,
}
use knot_hal_source.Prelude.Outcome.{done, bad_access}
use knot_hal_source.Lora.State.{Wires, Lmic, Lora}
use knot_hal_source.Lora.Access.{write_reg, read_reg, read_buf}
use knot_hal_source.Lora.Driver.{
  Received, lora_rxdone_fixup, back, take_packet, packet_length, fetch_packet, lora_rxdone,
}
use knot_hal_source.Lora.Chip.{IsSx1272}
use knot_hal_source.Lora.Accesses.{write_reg-stored, read_reg-value, read_reg-keeps, read_buf-moves}

-- The length that the chip tells, after a reading of the configuration
abbrev pub told : {W : Type 0} → Wires W → W → ℕ
told hal w = (read_reg hal 0x13 (read_reg hal 0x1d w).1).0

-- The world after the flags are read, and after the clock, the mode and the flags are
abbrev pub flagged : {W : Type 0} → Wires W → W → W
flagged hal w = (read_reg hal 0x12 w).1

abbrev pub at_packet : {W : Type 0} → Wires W → W → W
at_packet hal w = flagged hal (read_reg hal 1 (hal.hal_ticks w).1).1

-- What comes back: the buffer keeps its size, and the length is within it unless nothing was told.
pub record IsWithin (r got : Received) : Type 0 where
  pub size : length got.buffer ≡ length r.buffer
  pub inside : (got.len_buffer ≡ r.len_buffer) ⊎ (got.len_buffer ≤ length r.buffer)

fixup_of :
    (lm : Lmic)
    → lm.sf < 7
    → (fixup : ℕ) × ((if lm.bw == 0 then get_elem? lora_rxdone_fixup lm.sf else some 0)
        ≡ some fixup)
fixup_of lm h = elim (Bool-cases (lm.bw == 0)) [
  | inl e ↦ rw e (get_elem?_of_lt lora_rxdone_fixup lm.sf h)
  | inr e ↦ (0, rw e refl)
]

module _ {W : Type 0} {hal : Wires W} {reg : W → ℕ → ℕ} {memory : W → List ℕ}
    (chip : IsSx1272 hal reg memory) (r : Received) where
  take_packet-done :
      (len : ℕ) (w : W)
      → len ≤ length r.buffer
      → 128 ≤ reg w 1
      → (got : Received) × (u : W) × (take_packet hal len r w ≡ done got u)
        × IsWithin r got
        × (reg u 1 ≡ reg w 1)
  unfolding take_packet
  take_packet-done len w h lora =
      let short : ltb (length r.buffer) len ≡ false = ground arith in
      let (pointer, moved) = read_buf-moves chip len w lora in
      (
        record { buffer = overlay r.buffer (read_buf hal 0 len w).0; len_buffer = len },
        (read_buf hal 0 len w).1,
        rw (take_packet, short) refl,
        record { size = length-overlay r.buffer (read_buf hal 0 len w).0; inside = inr h },
        rw moved refl,
      )

  packet_length-explicit :
      (w : W)
      → 128 ≤ reg w 1
      → bit_and (reg w 0x1d) 4 ≡ 0
      → packet_length hal w ≡ read_reg hal 0x13 (read_reg hal 0x1d w).1
  unfolding packet_length
  packet_length-explicit w lora explicit =
      let header = read_reg-value chip 0x1d w (omega arith) lora refl in
      let asked : (bit_and (reg w 0x1d) 4 == 0) ≡ true = rw explicit refl in
      rw (packet_length, header, asked) refl

  fetch_packet-done :
      (w : W)
      → 128 ≤ reg w 1
      → bit_and (reg w 0x1d) 4 ≡ 0
      → told hal w ≤ length r.buffer
      → (got : Received) × (u : W) × (fetch_packet hal r w ≡ done got u)
        × IsWithin r got
        × (reg u 1 ≡ reg w 1)
  unfolding fetch_packet
  fetch_packet-done w lora explicit fits =
      let sized = packet_length-explicit w lora explicit in
      let w1 = (read_reg hal 0x1d w).1 in
      let w2 = (read_reg hal 0x13 w1).1 in
      let w3 = (read_reg hal 0x10 w2).1 in
      let same : reg w3 ≡ reg w =
        read_reg-keeps chip 0x10 w2 (omega arith) (omega arith)
        ∙ read_reg-keeps chip 0x13 w1 (omega arith) (omega arith)
        ∙ read_reg-keeps chip 0x1d w (omega arith) (omega arith) in
      let at = (read_reg hal 0x10 w2).0 in
      let set =
        write_reg-stored chip 0x0d at w3 (omega arith) (omega arith) (rw same lora)
          (λ e. absurd (omega arith)) in
      let kept : reg (write_reg hal 0x0d at w3) 1 ≡ reg w 1 = rw (set, same) refl in
      let (got, u, e, within, mode) =
        take_packet-done (read_reg hal 0x13 w1).0 (write_reg hal 0x0d at w3) fits (rw kept lora) in
      (got, u, rw (fetch_packet, sized) e, within, mode ∙ kept)

  pub lora_rxdone-done :
      (now : ℕ) (s : Lora W)
      → 128 ≤ reg s.world 1
      → bit_and (reg s.world 0x1d) 4 ≡ 0
      → s.lmic.sf < 7
      → told hal s.world ≤ length r.buffer
      → (got : Received) × (t : Lora W) × (lora_rxdone hal now r s ≡ done got t)
        × IsWithin r got
        × (reg t.world 1 ≡ reg s.world 1)
  unfolding lora_rxdone
  lora_rxdone-done now s lora explicit factor fits =
      let (fixup, at) = fixup_of s.lmic factor in
      let (got, u, e, within, mode) = fetch_packet-done s.world lora explicit fits in
      let w1 = (read_reg hal 0x19 u).1 in
      let same : reg (read_reg hal 0x1a w1).1 ≡ reg u =
        read_reg-keeps chip 0x1a w1 (omega arith) (omega arith)
        ∙ read_reg-keeps chip 0x19 u (omega arith) (omega arith) in
      (
        got,
        record s {
          lmic = record s.lmic {
            rxtime = back now fixup;
            snr = (read_reg hal 0x19 u).0;
            rssi = ((read_reg hal 0x1a w1).0 + (256 - 61)) % 256;
          };
          world = (read_reg hal 0x1a w1).1;
        },
        rw (lora_rxdone, at, e) refl,
        within,
        rw same mode,
      )

  fetch_packet-long :
      (w : W)
      → 128 ≤ reg w 1
      → bit_and (reg w 0x1d) 4 ≡ 0
      → length r.buffer < told hal w
      → fetch_packet hal r w ≡ bad_access
  unfolding fetch_packet take_packet
  fetch_packet-long w lora explicit over =
      let long : ltb (length r.buffer) (told hal w) ≡ true = ground arith in
      rw (packet_length-explicit w lora explicit, long) refl

  pub lora_rxdone-long :
      (now : ℕ) (s : Lora W)
      → 128 ≤ reg s.world 1
      → bit_and (reg s.world 0x1d) 4 ≡ 0
      → s.lmic.sf < 7
      → length r.buffer < told hal s.world
      → lora_rxdone hal now r s ≡ bad_access
  unfolding lora_rxdone
  lora_rxdone-long now s lora explicit factor over =
      let (fixup, at) = fixup_of s.lmic factor in
      rw (lora_rxdone, at, fetch_packet-long s.world lora explicit over) refl
