-- ===== src/Nrfd/Places.antt =====
-- The places of the clients of src/nrfd/manager.c, counted, and how one is filled and cleared.
use knot_hal_source.Prelude.{
  ℕ, suc, ◌+◌, ◌%◌, ◌≤◌, ◌≡◌, ◌⊎◌, refl, ap, ◌∙◌, arith, ◌==◌, ◌&&◌, true, false, inl, inr,
  Bool-cases, some, List, [], ◌∷◌, pos, if◌then◌else◌, get_elem?, set, length, length-set,
}
use knot_hal_source.Comm.Errors.{einval, eusers}
use knot_hal_source.Nrfd.State.{Client, unused}
use knot_hal_source.Nrfd.Clients.{is_used, get_peer, get_peer_index}
use knot_hal_source.Nrfd.Table.{tally, tally-set}

-- 1 for a place with a client, and for one with the client of this address
abbrev pub taken : Client → ℕ
taken p = if is_used p then 1 else 0

abbrev pub serving : ℕ → Client → ℕ
serving mac p = if is_used p && p.mac == mac then 1 else 0

-- Five places, counted, and no address twice.
pub record IsClients (peers : List Client) (count : ℕ) : Type 0 where
  pub places : length peers ≡ 5
  pub counted : count ≡ tally taken peers
  pub distinct : (mac : ℕ) → tally (serving mac) peers ≤ 1

taken-le-length : (ps : List Client) → tally taken ps ≤ length ps
unfolding tally
taken-le-length [] = omega arith
taken-le-length (p ∷ ps) = ground (arith, taken-le-length ps)

pub serving-le-taken : (mac : ℕ) (ps : List Client) → tally (serving mac) ps ≤ tally taken ps
unfolding tally
serving-le-taken mac [] = omega arith
serving-le-taken mac (p ∷ ps) = ground (arith, serving-le-taken mac ps)

pub get_peer-at :
    (mac i : ℕ) (ps : List Client)
    → ((get_peer mac i ps ≡ einval) × (tally (serving mac) ps ≡ 0))
      ⊎ ((j : ℕ) × (p : Client) × (get_peer mac i ps ≡ pos (i + j))
          × (get_elem? ps j ≡ some p)
          × ((is_used p && p.mac == mac) ≡ true))
unfolding get_peer tally
get_peer-at mac i [] = inl (refl, refl)
get_peer-at mac i (p ∷ ps) = elim (Bool-cases (is_used p && p.mac == mac)) [
  | inl e ↦ let here : i ≡ i + 0 = omega arith in rw e (inr (0, p, ap pos here, refl, e))
  | inr e ↦ rw e (elim (get_peer-at mac (suc i) ps) [
    | inl absent ↦ inl (absent.0, omega (arith, absent.1))
    | inr (j, q, found, at, same) ↦
        let later : suc i + j ≡ i + suc j = omega arith in
        inr (suc j, q, found ∙ ap pos later, at, same)
  ])
]

pub get_peer_index-at :
    (i : ℕ) (ps : List Client)
    → (get_peer_index i ps ≡ eusers)
      ⊎ ((j : ℕ) × (p : Client) × (get_peer_index i ps ≡ pos (i + j))
          × (get_elem? ps j ≡ some p)
          × (is_used p ≡ false))
unfolding get_peer_index
get_peer_index-at i [] = inl refl
get_peer_index-at i (p ∷ ps) = elim (Bool-cases (is_used p)) [
  | inr e ↦ let here : i ≡ i + 0 = omega arith in rw e (inr (0, p, ap pos here, refl, e))
  | inl e ↦ rw e (elim (get_peer_index-at (suc i) ps) [
    | inl absent ↦ inl absent
    | inr (j, q, found, at, free) ↦
        let later : suc i + j ≡ i + suc j = omega arith in
        inr (suc j, q, found ∙ ap pos later, at, free)
  ])
]

-- A client in a free place.
pub filled-IsClients :
    (j : ℕ) (old new : Client) (ps : List Client) (count : ℕ)
    → get_elem? ps j ≡ some old
    → is_used old ≡ false
    → is_used new ≡ true
    → tally (serving new.mac) ps ≡ 0
    → IsClients ps count
    → IsClients (set ps j new) ((count + 1) % 256)
filled-IsClients j old new ps count at free used fresh ok =
    let all = tally-set taken ps j old new at in
    let few = taken-le-length ps in
    record {
      places = length-set ps j new ∙ ok.places;
      counted = ground (arith, ok.counted, ok.places, all, few);
      distinct = λ mac. ground (arith, tally-set (serving mac) ps j old new at, ok.distinct mac);
    }

-- A client leaves.
pub cleared-IsClients :
    (j : ℕ) (old : Client) (ps : List Client) (count : ℕ)
    → get_elem? ps j ≡ some old
    → is_used old ≡ true
    → IsClients ps count
    → IsClients (set ps j (record old { socket_fd = unused; kwatch = 0 })) ((count + 255) % 256)
cleared-IsClients j old ps count at used ok =
    let new : Client = record old { socket_fd = unused; kwatch = 0 } in
    let all = tally-set taken ps j old new at in
    let few = taken-le-length ps in
    record {
      places = length-set ps j new ∙ ok.places;
      counted = ground (arith, ok.counted, ok.places, all, few);
      distinct = λ mac. ground (arith, tally-set (serving mac) ps j old new at, ok.distinct mac);
    }

-- The address of the client that leaves is served no more.
pub cleared-serving :
    (j mac : ℕ) (old : Client) (ps : List Client) (count : ℕ)
    → get_elem? ps j ≡ some old
    → (is_used old && old.mac == mac) ≡ true
    → IsClients ps count
    → tally (serving mac) (set ps j (record old { socket_fd = unused; kwatch = 0 })) ≡ 0
cleared-serving j mac old ps count at used ok = ground (
  arith,
  tally-set (serving mac) ps j old (record old { socket_fd = unused; kwatch = 0 }) at,
  ok.distinct mac,
)
