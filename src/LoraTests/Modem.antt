-- ===== src/LoraTests/Modem.antt =====
-- A LoRa chip as the data sheet describes it: its registers, its memory of 256 bytes, and the bus.
use knot_hal_source.Prelude.{
  ℕ, zero, suc, ◌+◌, ◌-◌, ◌%◌, ◌≤◌, ◌<◌, ◌≡◌, refl, sym, ap, ◌∙◌, arith, ◌==◌, ltb, Bool-cases, inl,
  inr, true, false, List, [], ◌∷◌, if◌then◌else◌, replicate, length, length-set, set, write_at,
}
use knot_hal_source.Lora.State.{Wires}
use knot_hal_source.Lora.Chip.{IsSx1272, update, stored, clocked}

-- where the bus stands: between two accesses, before the address, and after it
pub data Phase : Type 0 where
  idle ready : Phase
  reads puts : ℕ → Phase

pub record Part : Type 0 where
  pub phase : Phase
  pub regs : ℕ → ℕ
  pub fifo : List ℕ
  pub full : length fifo ≡ 256

abbrev pub holding : Phase → (ℕ → ℕ) → (fifo : List ℕ) → length fifo ≡ 256 → Part
holding phase regs fifo full = record { phase = phase; regs = regs; fifo = fifo; full = full }

-- what the part answers: three bytes have come in
abbrev pub told_by : ℕ → (ℕ → ℕ) → ℕ
told_by a regs = if a == 0x13 then 3 else regs a

abbrev pub advance : (ℕ → ℕ) → ℕ → ℕ
advance regs = update 0x0d ((regs 0x0d + 1) % 256) regs

abbrev pub shift_in : Phase → ℕ → Part → Part
shift_in idle byte w = w
shift_in ready byte w = record w { phase = if ltb byte 128 then reads byte else puts (byte - 128) }
shift_in (reads a) byte w = if a == 0 then record w { regs = advance w.regs } else w
shift_in (puts a) byte w =
    if a == 0
    then record w {
      regs = advance w.regs;
      fifo = set w.fifo (w.regs 0x0d) byte;
      full = length-set w.fifo (w.regs 0x0d) byte ∙ w.full;
    }
    else record w { regs = stored a byte w.regs }

abbrev pub shift_out : Phase → Part → ℕ
shift_out (reads a) w = told_by a w.regs
shift_out _ w = 0

abbrev pub sx1272 : Wires Part
sx1272 = record {
  hal_pin_nss = λ level w. record w { phase = if level == 0 then ready else idle };
  hal_spi = λ byte w. (shift_out w.phase w, shift_in w.phase byte w);
  hal_pin_rxtx = λ level w. w;
  hal_pin_rst = λ level w. w;
  hal_ticks = λ w. (1000, w);
  hal_wait_until = λ time w. w;
  hal_disable_irqs = λ w. w;
  hal_enable_irqs = λ w. w;
}

update_self : (regs : ℕ → ℕ) → regs ≡ update 0x0d (regs 0x0d) regs
update_self regs =
    let each : (r : ℕ) → regs r ≡ update 0x0d (regs 0x0d) regs r = λ r.
      elim (Bool-cases (0x0d == r)) [
        | inl e ↦ let same : r ≡ 0x0d = ground (arith, e) in rw (e, same) refl
        | inr e ↦ rw e refl
      ] in
    λ i r. each r i

update_twice : (p q : ℕ) (regs : ℕ → ℕ) → update 0x0d p (update 0x0d q regs) ≡ update 0x0d p regs
update_twice p q regs =
    let each : (r : ℕ) → update 0x0d p (update 0x0d q regs) r ≡ update 0x0d p regs r =
      λ r. ground arith in
    λ i r. each r i

fetched :
    (n : ℕ) (regs : ℕ → ℕ) (fifo : List ℕ) (full : length fifo ≡ 256)
    → (p : ℕ) × ((clocked sx1272 (replicate n 0) (holding (reads 0) regs fifo full)).regs
        ≡ update 0x0d p regs)
fetched zero regs fifo full = (regs 0x0d, update_self regs)
fetched (suc n) regs fifo full =
    let (p, f) = fetched n (advance regs) fifo full in
    (p, f ∙ update_twice p ((regs 0x0d + 1) % 256) regs)

write_at-nil : (xs : List ℕ) (k : ℕ) → write_at xs k [] ≡ xs
write_at-nil xs zero = refl
write_at-nil [] (suc k) = refl
write_at-nil (x ∷ xs) (suc k) = ap (◌∷◌ x) (write_at-nil xs k)

write_at_step :
    (xs : List ℕ) (k b : ℕ) (bytes : List ℕ)
    → write_at (set xs k b) (suc k) bytes ≡ write_at xs k (b ∷ bytes)
write_at_step [] zero b [] = refl
write_at_step [] zero b (c ∷ bytes) = refl
write_at_step [] (suc k) b bytes = refl
write_at_step (x ∷ xs) zero b bytes = refl
write_at_step (x ∷ xs) (suc k) b bytes = ap (◌∷◌ x) (write_at_step xs k b bytes)

moved :
    (bytes : List ℕ) (regs : ℕ → ℕ) (fifo : List ℕ) (full : length fifo ≡ 256)
    → (p : ℕ) × ((clocked sx1272 bytes (holding (puts 0) regs fifo full)).regs ≡ update 0x0d p regs)
moved [] regs fifo full = (regs 0x0d, update_self regs)
moved (b ∷ bytes) regs fifo full =
    let kept = length-set fifo (regs 0x0d) b ∙ full in
    let (p, f) = moved bytes (advance regs) (set fifo (regs 0x0d) b) kept in
    (p, f ∙ update_twice p ((regs 0x0d + 1) % 256) regs)

loaded :
    (bytes : List ℕ) (k : ℕ) (regs : ℕ → ℕ) (fifo : List ℕ) (full : length fifo ≡ 256)
    → (k < 256 → regs 0x0d ≡ k)
    → k + length bytes ≤ 256
    → (clocked sx1272 bytes (holding (puts 0) regs fifo full)).fifo ≡ write_at fifo k bytes
loaded [] k regs fifo full at h = sym (write_at-nil fifo k)
loaded (b ∷ bytes) k regs fifo full at h =
    let here : regs 0x0d ≡ k = at (omega arith) in
    let kept = length-set fifo (regs 0x0d) b ∙ full in
    loaded bytes (suc k) (advance regs) (set fifo (regs 0x0d) b) kept
      (λ more. let same : (k + 1) % 256 ≡ suc k = omega arith in rw here same) (omega arith)
    ∙ ap (λ i. write_at (set fifo i b) (suc k) bytes) here
    ∙ write_at_step fifo k b bytes

pub sx1272-IsSx1272 : IsSx1272 sx1272 (λ w. w.regs) (λ w. w.fifo)
sx1272-IsSx1272 = record {
  enters = λ w h. refl;
  stores = λ a byte w p h lora k.
      let put : ltb (128 + a) 128 ≡ false = ground arith in
      let same : 128 + a - 128 ≡ a = omega arith in
      let other : (a == 0) ≡ false = ground arith in rw (put, same, other) refl;
  answers = λ a w h lora plain.
      let get : ltb a 128 ≡ true = ground arith in
      let other : (a == 0x13) ≡ false = ground arith in rw (get, other) refl;
  reads_keep = λ a w p h.
      let get : ltb a 128 ≡ true = ground arith in
      let other : (a == 0) ≡ false = ground arith in rw (get, other) refl;
  loads = λ bytes w lora h. loaded bytes (w.regs 0x0d) w.regs w.fifo w.full (λ inside. refl) h;
  moves = λ bytes w lora. moved bytes w.regs w.fifo w.full;
  room = λ w. w.full;
  remembers = λ a byte w p h other. elim (Bool-cases (ltb a 128)) [
    | inl e ↦ let nonzero : (a == 0) ≡ false = ground arith in rw (e, nonzero) refl
    | inr e ↦ let nonzero : (a - 128 == 0) ≡ false = ground (arith, e) in rw (e, nonzero) refl
  ];
  antenna = λ level w. refl;
  antenna_memory = λ level w. refl;
  waits = λ time w h. refl;
  ticks = λ w. refl;
  fetches = λ n w lora. fetched n w.regs w.fifo w.full;
  disables = λ w. refl;
  enables = λ w. refl;
  enables_memory = λ w. refl;
}
