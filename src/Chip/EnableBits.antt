-- ===== src/Chip/EnableBits.antt =====
-- The bits of EN_RXADDR of the chip, by looking at each value.
use knot_hal_source.Prelude.{
  ℕ, ◌≤◌, ◌<◌, ◌≡◌, refl, arith, ◌==◌, ==_iff, ltb, Bool, true, if◌then◌else◌, passes, passes-at,
  bit_and, bit_or,
}
use knot_hal_source.Comm.Pipes.Bits.{bit}
use knot_hal_source.Chip.Board.{clear}
use knot_hal_source.Chip.Pipes.{nrf24_en_rxaddr_pipe}

-- a table over the values of EN_RXADDR, the pipes and the bits
all_pipes : (ℕ → ℕ → ℕ → Bool) → Bool
all_pipes test = passes (λ p. passes (λ j. passes (λ v. test v p j) 64) 6) 6

all_pipes-at :
    (test : ℕ → ℕ → ℕ → Bool)
    → all_pipes test ≡ true
    → (v p j : ℕ) → v < 64
    → p ≤ 5
    → j < 6
    → test v p j ≡ true
unfolding all_pipes
all_pipes-at test table v p j hv hp hj =
    passes-at (λ v. test v p j) 64 v hv
      (passes-at (λ j. passes (λ v. test v p j) 64) 6 j hj
        (passes-at (λ p. passes (λ j. passes (λ v. test v p j) 64) 6) 6 p (omega arith) table))

-- EN_RXADDR with the pipe on, and off.
abbrev pub with_pipe : ℕ → ℕ → ℕ
with_pipe v p =
    if bit_and v (nrf24_en_rxaddr_pipe p) == 0 then bit_or v (nrf24_en_rxaddr_pipe p) else v

abbrev pub without_pipe : ℕ → ℕ → ℕ
without_pipe v p =
    if bit_and v (nrf24_en_rxaddr_pipe p) == 0 then v else clear v (nrf24_en_rxaddr_pipe p)

pub bit-with_pipe :
    (v p j : ℕ) → v < 64 → p ≤ 5 → j < 6 → bit (with_pipe v p) j ≡ (if j == p then 1 else bit v j)
unfolding all_pipes passes
bit-with_pipe v p j hv hp hj = (==_iff _ _).0 (
    all_pipes-at (λ v p j. bit (with_pipe v p) j == (if j == p then 1 else bit v j)) refl v p j hv
      hp hj)

pub bit-without_pipe :
    (v p j : ℕ)
    → v < 64
    → p ≤ 5
    → j < 6
    → bit (without_pipe v p) j ≡ (if j == p then 0 else bit v j)
unfolding all_pipes passes
bit-without_pipe v p j hv hp hj = (==_iff _ _).0 (
    all_pipes-at (λ v p j. bit (without_pipe v p) j == (if j == p then 0 else bit v j)) refl v p j
      hv hp hj)

pub with_pipe_small : (v p : ℕ) → v < 64 → p ≤ 5 → with_pipe v p < 64
unfolding all_pipes passes
with_pipe_small v p hv hp =
    let t : ltb (with_pipe v p) 64 ≡ true =
      all_pipes-at (λ v p j. ltb (with_pipe v p) 64) refl v p 0 hv hp (omega arith) in
    ground arith

pub without_pipe_small : (v p : ℕ) → v < 64 → p ≤ 5 → without_pipe v p < 64
unfolding all_pipes passes
without_pipe_small v p hv hp =
    let t : ltb (without_pipe v p) 64 ≡ true =
      all_pipes-at (λ v p j. ltb (without_pipe v p) 64) refl v p 0 hv hp (omega arith) in
    ground arith

-- Bit 0, by the test that opening and closing make.
pub with_pipe_first :
    (v p : ℕ)
    → v < 64
    → p ≤ 5
    → bit (with_pipe v p) 0 ≡ (
        if bit_and v (nrf24_en_rxaddr_pipe p) == 0
        then (if p == 0 then 1 else bit v 0)
        else bit v 0)
unfolding all_pipes passes
with_pipe_first v p hv hp = (==_iff _ _).0 (
    all_pipes-at
      (λ v p j. bit (with_pipe v p) 0 == (
        if bit_and v (nrf24_en_rxaddr_pipe p) == 0
        then (if p == 0 then 1 else bit v 0)
        else bit v 0))
      refl v p 0 hv hp (omega arith))

pub without_pipe_first :
    (v p : ℕ)
    → v < 64
    → p ≤ 5
    → bit (without_pipe v p) 0
      ≡ (if bit_and v (nrf24_en_rxaddr_pipe p) == 0 then bit v 0 else if p == 0 then 0 else bit v 0)
unfolding all_pipes passes
without_pipe_first v p hv hp = (==_iff _ _).0 (
    all_pipes-at
      (λ v p j. bit (without_pipe v p) 0 == (
        if bit_and v (nrf24_en_rxaddr_pipe p) == 0 then bit v 0 else if p == 0 then 0 else bit v 0))
      refl v p 0 hv hp (omega arith))

-- Off after on is as before, where the pipe was off.
pub without-with : (v p : ℕ) → v < 64 → p ≤ 5 → bit v p ≡ 0 → without_pipe (with_pipe v p) p ≡ v
unfolding all_pipes passes
without-with v p hv hp off =
    let t : (if bit v p == 0 then without_pipe (with_pipe v p) p == v else true) ≡ true =
      all_pipes-at (λ v p j. if bit v p == 0 then without_pipe (with_pipe v p) p == v else true)
        refl v p 0 hv hp (omega arith) in
    ground (arith, t)
