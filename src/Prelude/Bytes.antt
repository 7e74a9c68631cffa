-- ===== src/Prelude/Bytes.antt =====
-- Memory areas as lists of bytes: `memcpy` into an area, a part of one, and their comparison.
use Prim.Native.Nat.{ℕ, zero, suc, ◌+◌, ◌≤◌}
use mathlib.Core.Path.{◌≡◌, refl, ap, ◌∙◌}
use mathlib.Core.Bool.{Bool, true, false, ◌&&◌}
use mathlib.Core.List.{List, [], ◌∷◌, ◌++◌}
use native.Mathlib.Omega.{arith}
use knot_hal_source.Prelude.Tests.{◌==◌}
use knot_hal_source.Prelude.Lists.{length, take, drop, set}

-- `memcpy (dst, src, n)` at the start of an area. Bytes past its end are lost: a caller for which
-- that could happen tests for it first.
abbrev pub overlay : List ℕ → List ℕ → List ℕ
overlay dst [] = dst
overlay [] (b ∷ src) = []
overlay (a ∷ dst) (b ∷ src) = b ∷ overlay dst src

-- `memcpy (dst + off, src, n)`
abbrev pub write_at : List ℕ → ℕ → List ℕ → List ℕ
write_at dst zero src = overlay dst src
write_at [] (suc off) src = []
write_at (a ∷ dst) (suc off) src = a ∷ write_at dst off src

-- the `n` bytes from `off` on
abbrev pub slice : ℕ → ℕ → List ℕ → List ℕ
slice off n buf = take n (drop off buf)

-- `memcmp`, and the comparison of two addresses that a union shows as `uint64_t`
abbrev pub bytes_eq : List ℕ → List ℕ → Bool
bytes_eq [] [] = true
bytes_eq [] (b ∷ ys) = false
bytes_eq (a ∷ xs) [] = false
bytes_eq (a ∷ xs) (b ∷ ys) = a == b && bytes_eq xs ys

pub length-overlay : (dst src : List ℕ) → length (overlay dst src) ≡ length dst
length-overlay [] [] = refl
length-overlay (a ∷ dst) [] = refl
length-overlay [] (b ∷ src) = refl
length-overlay (a ∷ dst) (b ∷ src) = ap suc (length-overlay dst src)

pub length-write_at :
    (dst : List ℕ) (off : ℕ) (src : List ℕ) → length (write_at dst off src) ≡ length dst
length-write_at dst zero src = length-overlay dst src
length-write_at [] (suc off) src = refl
length-write_at (a ∷ dst) (suc off) src = ap suc (length-write_at dst off src)

pub take-overlay :
    (dst src : List ℕ) → length src ≤ length dst → take (length src) (overlay dst src) ≡ src
take-overlay [] [] h = refl
take-overlay (a ∷ dst) [] h = refl
take-overlay [] (b ∷ src) h = absurd (omega arith)
take-overlay (a ∷ dst) (b ∷ src) h = ap (◌∷◌ b) (take-overlay dst src (omega arith))

-- What stands before the written part and the written part itself.
pub take-write_at :
    (dst : List ℕ) (off : ℕ) (src : List ℕ) (n : ℕ)
    → off + length src ≤ length dst
    → n ≡ off + length src
    → take n (write_at dst off src) ≡ take off dst ++ src
take-write_at dst zero src n h e =
    let e' : n ≡ length src = omega arith in rw e' (take-overlay dst src (omega arith))
take-write_at [] (suc off) src n h e = absurd (omega arith)
take-write_at (a ∷ dst) (suc off) src zero h e = absurd (omega arith)
take-write_at (a ∷ dst) (suc off) src (suc n) h e =
    ap (◌∷◌ a) (take-write_at dst off src n (omega arith) (omega arith))

pub bytes_eq_refl : (xs : List ℕ) → bytes_eq xs xs ≡ true
bytes_eq_refl [] = refl
bytes_eq_refl (a ∷ xs) = ground (arith, bytes_eq_refl xs)

pub bytes_eq→eq : (xs ys : List ℕ) → bytes_eq xs ys ≡ true → xs ≡ ys
bytes_eq→eq [] [] h = refl
bytes_eq→eq [] (b ∷ ys) h = cc
bytes_eq→eq (a ∷ xs) [] h = cc
bytes_eq→eq (a ∷ xs) (b ∷ ys) h = ground (arith, bytes_eq→eq xs ys)

-- What a write leaves of the bytes before it and after it, and what stands in its place
take-write_at_before :
    (dst : List ℕ) (n off : ℕ) (src : List ℕ) → n ≤ off → take n (write_at dst off src) ≡ take n dst
take-write_at_before dst zero off src h = refl
take-write_at_before dst (suc n) zero src h = absurd (omega arith)
take-write_at_before [] (suc n) (suc off) src h = refl
take-write_at_before (a ∷ dst) (suc n) (suc off) src h =
    ap (◌∷◌ a) (take-write_at_before dst n off src (omega arith))

pub slice-write_at_before :
    (i n : ℕ) (dst : List ℕ) (off : ℕ) (src : List ℕ)
    → i + n ≤ off
    → slice i n (write_at dst off src) ≡ slice i n dst
slice-write_at_before zero n dst off src h = take-write_at_before dst n off src (omega arith)
slice-write_at_before (suc i) n dst zero src h = absurd (omega arith)
slice-write_at_before (suc i) n [] (suc off) src h = refl
slice-write_at_before (suc i) n (a ∷ dst) (suc off) src h =
    slice-write_at_before i n dst off src (omega arith)

drop-overlay : (dst src : List ℕ) (i : ℕ) → length src ≤ i → drop i (overlay dst src) ≡ drop i dst
drop-overlay [] [] i h = refl
drop-overlay [] (b ∷ src) i h = refl
drop-overlay (a ∷ dst) [] i h = refl
drop-overlay (a ∷ dst) (b ∷ src) zero h = absurd (omega arith)
drop-overlay (a ∷ dst) (b ∷ src) (suc i) h = drop-overlay dst src i (omega arith)

drop-write_at_after :
    (dst : List ℕ) (off : ℕ) (src : List ℕ) (i : ℕ)
    → off + length src ≤ i
    → drop i (write_at dst off src) ≡ drop i dst
drop-write_at_after dst zero src i h = drop-overlay dst src i (omega arith)
drop-write_at_after [] (suc off) src i h = refl
drop-write_at_after (a ∷ dst) (suc off) src zero h = absurd (omega arith)
drop-write_at_after (a ∷ dst) (suc off) src (suc i) h =
    drop-write_at_after dst off src i (omega arith)

pub slice-write_at_after :
    (i n : ℕ) (dst : List ℕ) (off : ℕ) (src : List ℕ)
    → off + length src ≤ i
    → slice i n (write_at dst off src) ≡ slice i n dst
slice-write_at_after i n dst off src h = ap (take n) (drop-write_at_after dst off src i h)

pub slice-write_at_self :
    (n : ℕ) (dst : List ℕ) (off : ℕ) (src : List ℕ)
    → n ≡ length src
    → off + n ≤ length dst
    → slice off n (write_at dst off src) ≡ src
slice-write_at_self n dst zero src e h = rw e (take-overlay dst src (omega arith))
slice-write_at_self n [] (suc off) src e h = absurd (omega arith)
slice-write_at_self n (a ∷ dst) (suc off) src e h =
    slice-write_at_self n dst off src e (omega arith)

-- a byte is a write of one
pub set-eq-write_at : (xs : List ℕ) (i v : ℕ) → set xs i v ≡ write_at xs i (v ∷ [])
set-eq-write_at [] zero v = refl
set-eq-write_at [] (suc i) v = refl
set-eq-write_at (x ∷ xs) zero v = refl
set-eq-write_at (x ∷ xs) (suc i) v = ap (◌∷◌ x) (set-eq-write_at xs i v)

pub slice-set_before :
    (i n : ℕ) (xs : List ℕ) (j v : ℕ) → i + n ≤ j → slice i n (set xs j v) ≡ slice i n xs
slice-set_before i n xs j v h =
    ap (slice i n) (set-eq-write_at xs j v) ∙ slice-write_at_before i n xs j (v ∷ []) h
