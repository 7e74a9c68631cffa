-- ===== src/Nrfd/Table.antt =====
-- The slots of the known devices of src/nrfd/manager.c, counted: those that hold a device, and those that
-- hold a given address.
use knot_hal_source.Prelude.{
  ℕ, zero, suc, ◌+◌, ◌≤◌, ◌<◌, ◌≡◌, ◌≢◌, refl, ap, ◌∙◌, arith, ◌==◌, false, inl, inr, Bool-cases,
  Option, none, some, List, [], ◌∷◌, pos, if◌then◌else◌, get_elem?, set, length,
}
use knot_hal_source.Comm.Errors.{eperm}
use knot_hal_source.Nrfd.State.{Known}
use knot_hal_source.Nrfd.Devices.{
  found, free_slot, scan_known, slot_or, first_free, check_permission,
}

unfoldable pub tally : {A : Type 0} → (A → ℕ) → List A → ℕ
tally f [] = 0
tally f (x ∷ xs) = f x + tally f xs

pub tally-set :
    {A : Type 0} (f : A → ℕ) (xs : List A) (i : ℕ) (old new : A)
    → get_elem? xs i ≡ some old
    → tally f (set xs i new) + f old ≡ tally f xs + f new
unfolding tally
tally-set f [] i old new e = cc
tally-set f (x ∷ xs) zero old new e = let g : x ≡ old = ground arith in rw g (omega arith)
tally-set f (x ∷ xs) (suc i) old new e = omega (arith, tally-set f xs i old new e)

-- 1 for a slot that holds a device, and for one that holds this address
abbrev pub held : Known → ℕ
held k = if k.addr == 0 then 0 else 1

abbrev pub named : ℕ → Known → ℕ
named mac k = if k.addr == mac then 1 else 0

pub held-le-length : (slots : List Known) → tally held slots ≤ length slots
unfolding tally
held-le-length [] = omega arith
held-le-length (k ∷ slots) = ground (arith, held-le-length slots)

-- the first slot without a device, or the length
unfoldable pub first_empty : List Known → ℕ
first_empty [] = 0
first_empty (k ∷ slots) = let rest = first_empty slots in if k.addr == 0 then 0 else suc rest

pub first_empty-free :
    (slots : List Known)
    → tally held slots < length slots
    → (k : Known) × (get_elem? slots (first_empty slots) ≡ some k) × (k.addr ≡ 0)
unfolding tally first_empty
first_empty-free [] h = absurd (omega arith)
first_empty-free (k ∷ slots) h = elim (Bool-cases (k.addr == 0)) [
  | inl e ↦ rw e (k, refl, ground arith)
  | inr e ↦ rw e (first_empty-free slots (ground arith))
]

pub check_permission-tally :
    (mac : ℕ) (slots : List Known)
    → check_permission mac slots ≡ (if tally (named mac) slots == 0 then eperm else pos 0)
unfolding tally check_permission
check_permission-tally mac [] = refl
check_permission-tally mac (k ∷ slots) = ground (arith, check_permission-tally mac slots)

pub named-le-held :
    (mac : ℕ) (slots : List Known) → mac ≢ 0 → tally (named mac) slots ≤ tally held slots
unfolding tally
named-le-held mac [] h = omega arith
named-le-held mac (k ∷ slots) h = ground (arith, named-le-held mac slots h)

-- What the loop of `add_known_device` finds, where the count of the devices is right.
pub scan_known-found :
    (mac left : ℕ) (free : Option ℕ) (i : ℕ) (slots : List Known)
    → mac ≢ 0
    → left ≡ tally held slots
    → tally (named mac) slots ≢ 0
    → scan_known mac left free i slots ≡ found
unfolding tally scan_known
scan_known-found mac zero free i slots h c e = absurd (omega (arith, named-le-held mac slots h))
scan_known-found mac (suc left) free i [] h c e = absurd (e refl)
scan_known-found mac (suc left) free i (k ∷ slots) h c e = ground (
  arith,
  scan_known-found mac left free (suc i) slots,
  scan_known-found mac (suc left) (first_free free i) (suc i) slots,
)

first_free-slot : (free : Option ℕ) (i j : ℕ) → slot_or (first_free free i) j ≡ slot_or free i
first_free-slot none i j = refl
first_free-slot (some p) i j = refl

empty_first : (slots : List Known) → tally held slots ≡ 0 → first_empty slots ≡ 0
unfolding tally first_empty
empty_first [] h = refl
empty_first (k ∷ slots) h = ground arith

pub scan_known-free :
    (mac left : ℕ) (free : Option ℕ) (i : ℕ) (slots : List Known)
    → mac ≢ 0
    → left ≡ tally held slots
    → tally (named mac) slots ≡ 0
    → scan_known mac left free i slots ≡ free_slot (slot_or free (i + first_empty slots))
unfolding tally scan_known first_empty
scan_known-free mac zero free i slots h c e =
    let z : i + first_empty slots ≡ i = omega (arith, empty_first slots) in rw z refl
scan_known-free mac (suc left) free i [] h c e = absurd (omega arith)
scan_known-free mac (suc left) free i (k ∷ slots) h c e = elim (Bool-cases (k.addr == 0)) [
  | inl z ↦
      let other : (k.addr == mac) ≡ false = ground arith in
      let here : i + 0 ≡ i = omega arith in
      rw (other, z, here)
        (scan_known-free mac (suc left) (first_free free i) (suc i) slots h (ground arith)
            (ground arith)
          ∙ ap free_slot (first_free-slot free i _))
  | inr n ↦
      let other : (k.addr == mac) ≡ false = ground arith in
      let later : suc i + first_empty slots ≡ i + suc (first_empty slots) = omega arith in
      rw (other, n)
        (scan_known-free mac left free (suc i) slots h (ground arith) (ground arith)
          ∙ ap (λ j. free_slot (slot_or free j)) later)
]
