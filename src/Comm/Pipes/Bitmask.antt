-- ===== src/Comm/Pipes/Bitmask.antt =====
-- The bitmask of the assigned pipes, and the array of the peers that it stands for.
use knot_hal_source.Prelude.{
  ℕ, zero, suc, ◌+◌, ◌*◌, ◌%◌, ◌^◌, ◌<◌, ◌≡◌, ◌⊎◌, inl, inr, refl, ap, ◌∙◌, Option-cases, Option,
  none, some, List, [], ◌∷◌, arith, length, get_elem?, set,
}
use knot_hal_source.Comm.Pipes.Bits.{bit}
use knot_hal_source.Comm.State.{Peer}
use knot_hal_source.Comm.Pipes.{find_free}

-- The bit of a pipe, if it is assigned.
abbrev pub pipe_bit : Option ℕ → ℕ
pipe_bit none = 0
pipe_bit (some k) = 2 ^ k

abbrev pub mask_of : List Peer → ℕ
mask_of [] = 0
mask_of (p ∷ ps) = pipe_bit p.pipe + mask_of ps

-- Each peer has no pipe, or the pipe that goes with its place.
abbrev pub InPlace : ℕ → List Peer → Type 0
InPlace i [] = Unit {0}
InPlace i (p ∷ ps) = ((p.pipe ≡ none) ⊎ (p.pipe ≡ some (suc i))) × InPlace (suc i) ps

-- The bitmask of pipe 0 and of the assigned pipes, for five peers in their places.
pub record IsAssigned (mask : ℕ) (ps : List Peer) : Type 0 where
  pub count : length ps ≡ 5
  pub places : InPlace 0 ps
  pub bits : mask ≡ 1 + mask_of ps

pipe_bit_cases :
    (p : Peer) (k : ℕ)
    → (p.pipe ≡ none) ⊎ (p.pipe ≡ some k)
    → (pipe_bit p.pipe ≡ 0) ⊎ (pipe_bit p.pipe ≡ 2 ^ k)
pipe_bit_cases p k (inl e) = inl (ap pipe_bit e)
pipe_bit_cases p k (inr e) = inr (ap pipe_bit e)

abbrev bit_of : Option Peer → ℕ
bit_of none = 0
bit_of (some p) = pipe_bit p.pipe

abbrev Bits : Peer → Peer → Peer → Peer → Peer → Type 0
Bits a b c d e =
    let m = 1 + mask_of (a ∷ b ∷ c ∷ d ∷ e ∷ []) in
    (m < 64)
    × (bit m 1 * 2 ≡ pipe_bit a.pipe)
    × (bit m 2 * 4 ≡ pipe_bit b.pipe)
    × (bit m 3 * 8 ≡ pipe_bit c.pipe)
    × (bit m 4 * 16 ≡ pipe_bit d.pipe)
    × (bit m 5 * 32 ≡ pipe_bit e.pipe)

-- The bits of five peers in their places do not run into one another.
bit_five : (a b c d e : Peer) → InPlace 0 (a ∷ b ∷ c ∷ d ∷ e ∷ []) → Bits a b c d e
bit_five a b c d e (ha, (hb, (hc, (hd, (he, u))))) = omega (
  arith,
  pipe_bit_cases a 1 ha,
  pipe_bit_cases b 2 hb,
  pipe_bit_cases c 3 hc,
  pipe_bit_cases d 4 hd,
  pipe_bit_cases e 5 he,
)

pub bit_at :
    (ps : List Peer) (j : ℕ) (p : Peer)
    → length ps ≡ 5
    → InPlace 0 ps
    → get_elem? ps j ≡ some p
    → (1 + mask_of ps < 64)
      × (pipe_bit p.pipe ≡ 0 → bit (1 + mask_of ps) (suc j) ≡ 0)
      × (pipe_bit p.pipe ≡ 2 ^ suc j → bit (1 + mask_of ps) (suc j) ≡ 1)
bit_at (a ∷ b ∷ c ∷ d ∷ e ∷ []) j p n v h = let bits = bit_five a b c d e v in go bits j h
  where
    go :
        Bits a b c d e
        → (j : ℕ) → get_elem? (a ∷ b ∷ c ∷ d ∷ e ∷ []) j ≡ some p
        → let m = 1 + mask_of (a ∷ b ∷ c ∷ d ∷ e ∷ []) in
          (m < 64)
          × (pipe_bit p.pipe ≡ 0 → bit m (suc j) ≡ 0)
          × (pipe_bit p.pipe ≡ 2 ^ suc j → bit m (suc j) ≡ 1)
    go bits zero h =
        (bits.0, omega (arith, bits.1 ∙ ap bit_of h), omega (arith, bits.1 ∙ ap bit_of h))
    go bits (suc zero) h =
        (bits.0, omega (arith, bits.2 ∙ ap bit_of h), omega (arith, bits.2 ∙ ap bit_of h))
    go bits (suc (suc zero)) h =
        (bits.0, omega (arith, bits.3 ∙ ap bit_of h), omega (arith, bits.3 ∙ ap bit_of h))
    go bits (suc (suc (suc zero))) h =
        (bits.0, omega (arith, bits.4 ∙ ap bit_of h), omega (arith, bits.4 ∙ ap bit_of h))
    go bits (suc (suc (suc (suc zero)))) h =
        (bits.0, omega (arith, bits.5 ∙ ap bit_of h), omega (arith, bits.5 ∙ ap bit_of h))
    go bits (suc (suc (suc (suc (suc j))))) h = cc
bit_at (a ∷ b ∷ c ∷ d ∷ e ∷ x ∷ ps) j p n v h = absurd (omega arith)
bit_at [] j p n v h = absurd (omega arith)
bit_at (a ∷ []) j p n v h = absurd (omega arith)
bit_at (a ∷ b ∷ []) j p n v h = absurd (omega arith)
bit_at (a ∷ b ∷ c ∷ []) j p n v h = absurd (omega arith)
bit_at (a ∷ b ∷ c ∷ d ∷ []) j p n v h = absurd (omega arith)

-- Bit 0, the management pipe's, is set.
pub odd_mask :
    (ps : List Peer)
    → length ps ≡ 5
    → InPlace 0 ps
    → (1 + mask_of ps < 64) × ((1 + mask_of ps) % 2 ≡ 1)
odd_mask (a ∷ b ∷ c ∷ d ∷ e ∷ []) n (ha, (hb, (hc, (hd, (he, u))))) =
    let bits = bit_five a b c d e (ha, (hb, (hc, (hd, (he, u))))) in
    (
      bits.0,
      omega (
        arith,
        pipe_bit_cases a 1 ha,
        pipe_bit_cases b 2 hb,
        pipe_bit_cases c 3 hc,
        pipe_bit_cases d 4 hd,
        pipe_bit_cases e 5 he,
      ),
    )
odd_mask (a ∷ b ∷ c ∷ d ∷ e ∷ x ∷ ps) n v = absurd (omega arith)
odd_mask [] n v = absurd (omega arith)
odd_mask (a ∷ []) n v = absurd (omega arith)
odd_mask (a ∷ b ∷ []) n v = absurd (omega arith)
odd_mask (a ∷ b ∷ c ∷ []) n v = absurd (omega arith)
odd_mask (a ∷ b ∷ c ∷ d ∷ []) n v = absurd (omega arith)

-- A peer in its place is replaced by one with the pipe of that place, or without a pipe.
pub InPlace-set :
    (i j : ℕ) (ps : List Peer) (q : Peer)
    → InPlace i ps
    → (q.pipe ≡ none) ⊎ (q.pipe ≡ some (suc (i + j)))
    → InPlace i (set ps j q)
InPlace-set i j [] q v h = tt
InPlace-set i zero (p ∷ ps) q v h = let e : i + zero ≡ i = omega arith in ((rw e at h), v.1)
InPlace-set i (suc j) (p ∷ ps) q v h =
    let e : i + suc j ≡ suc i + j = omega arith in (v.0, InPlace-set (suc i) j ps q v.1 (rw e at h))

pub mask_of-set :
    (ps : List Peer) (j : ℕ) (p q : Peer)
    → get_elem? ps j ≡ some p
    → mask_of (set ps j q) + pipe_bit p.pipe ≡ mask_of ps + pipe_bit q.pipe
mask_of-set [] j p q h = cc
mask_of-set (x ∷ ps) zero p q h =
    let e : pipe_bit x.pipe ≡ pipe_bit p.pipe = ap bit_of h in omega arith
mask_of-set (x ∷ ps) (suc j) p q h = omega (arith, mask_of-set ps j p q h)

pub find_free-some :
    (i : ℕ) (ps : List Peer) (k : ℕ)
    → find_free i ps ≡ some k
    → (j : ℕ) × (p : Peer) × (k ≡ i + j) × (get_elem? ps j ≡ some p) × (p.pipe ≡ none)
unfolding find_free
find_free-some i [] k h = cc
find_free-some i (p ∷ ps) k h = elim (Option-cases p.pipe) [
  | inl e ↦ (0, p, ground arith, refl, e)
  | inr (a, e) ↦
      let (j, q, n, f, g) = find_free-some (suc i) ps k (rw (e, find_free) at h) in
      (suc j, q, omega arith, f, g)
]

abbrev pub all_bits : ℕ → ℕ → ℕ
all_bits i zero = 0
all_bits i (suc n) = 2 ^ suc i + all_bits (suc i) n

pub find_free-none :
    (i : ℕ) (ps : List Peer)
    → InPlace i ps
    → find_free i ps ≡ none
    → mask_of ps ≡ all_bits i (length ps)
unfolding find_free
find_free-none i [] v h = refl
find_free-none i (p ∷ ps) v h = ground (arith, find_free-none (suc i) ps v.1)

pub InPlace-at :
    (i j : ℕ) (ps : List Peer) {p : Peer}
    → InPlace i ps
    → get_elem? ps j ≡ some p
    → (p.pipe ≡ none) ⊎ (p.pipe ≡ some (suc (i + j)))
InPlace-at i j [] v h = cc
InPlace-at i zero (x ∷ ps) v h = let e : i + zero ≡ i = omega arith in rw e (ground arith)
InPlace-at i (suc j) (x ∷ ps) v h =
    let e : i + suc j ≡ suc i + j = omega arith in rw e (InPlace-at (suc i) j ps v.1 h)
