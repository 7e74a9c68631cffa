-- ===== src/Nrfd/Stopping.antt =====
-- The end of src/nrfd/manager.c: `close_clients` leaves no client.
use knot_hal_source.Prelude.{
  ℕ, zero, suc, ◌+◌, ◌≡◌, refl, sym, ap, ◌∙◌, arith, inl, inr, Bool-cases, some, List, [], ◌∷◌,
  get_elem?, set, take, take-all, get_elem?-set_self, lt_of_get_elem?, get_elem?_of_lt,
}
use knot_hal_source.Nrfd.State.{Client, Daemon, Services, unused}
use knot_hal_source.Nrfd.Clients.{is_used, kwatch_io_destroy, close_clients}
use knot_hal_source.Nrfd.Table.{tally}
use knot_hal_source.Nrfd.Places.{taken}
use knot_hal_source.Nrfd.Connected.{Served, kwatch_io_destroy-Served}

-- A place that is left leaves the ones before it alone.
take-set : (ps : List Client) (i : ℕ) (p : Client) → take i (set ps i p) ≡ take i ps
take-set [] i p = refl
take-set (q ∷ ps) zero p = refl
take-set (q ∷ ps) (suc i) p = ap (◌∷◌ q) (take-set ps i p)

-- the places before `i`, and the next one
tally-take-suc :
    (ps : List Client) (i : ℕ) (p : Client)
    → get_elem? ps i ≡ some p
    → tally taken (take (suc i) ps) ≡ tally taken (take i ps) + taken p
unfolding tally
tally-take-suc [] i p e = cc
tally-take-suc (q ∷ ps) zero p e = let g : q ≡ p = ground arith in rw g (omega arith)
tally-take-suc (q ∷ ps) (suc i) p e = omega (arith, tally-take-suc ps i p e)

module _ {W : Type 0} (sv : Services W) where
  destroyed-free :
      (i : ℕ) (p : Client) (d : Daemon W)
      → get_elem? d.peers i ≡ some p
      → tally taken (take i d.peers) ≡ 0
      → tally taken (take (suc i) (kwatch_io_destroy sv i d).peers) ≡ 0
  unfolding kwatch_io_destroy
  destroyed-free i p d at free =
      let gone : Client = record p { socket_fd = unused; kwatch = 0 } in
      let there = get_elem?-set_self d.peers i gone (lt_of_get_elem? d.peers i p at) in
      let split = tally-take-suc (set d.peers i gone) i gone there in
      let before : tally taken (take i (set d.peers i gone)) ≡ 0 =
        ap (tally taken) (take-set d.peers i gone) ∙ free in
      rw (kwatch_io_destroy, at) (split ∙ omega arith)

  close_clients-free :
      (i n : ℕ) (d : Daemon W)
      → i + n ≡ 5
      → tally taken (take i d.peers) ≡ 0
      → Served d
      → Served (close_clients sv i n d) × (tally taken (close_clients sv i n d).peers ≡ 0)
  unfolding close_clients
  close_clients-free i zero d all free ok =
      (ok, ap (tally taken) (sym (take-all i d.peers (omega (arith, ok.places)))) ∙ free)
  close_clients-free i (suc n) d all free ok =
      let (p, at) = get_elem?_of_lt d.peers i (omega (arith, ok.places)) in
      elim (Bool-cases (is_used p)) [
        | inl e ↦
            rw (close_clients, at, e)
              (close_clients-free (suc i) n (kwatch_io_destroy sv i d) (omega arith)
                (destroyed-free i p d at free) (kwatch_io_destroy-Served sv i p d at e ok))
        | inr e ↦
            rw (close_clients, at, e)
              (close_clients-free (suc i) n d (omega arith)
                (ground (arith, tally-take-suc d.peers i p at)) ok)
      ]

  -- From places in order, `close_clients` leaves no client, and the count at zero.
  pub close_clients-none :
      (d : Daemon W)
      → Served d
      → (tally taken (close_clients sv 0 5 d).peers ≡ 0)
        × ((close_clients sv 0 5 d).count_clients ≡ 0)
  unfolding tally
  close_clients-none d ok =
      let (served, free) = close_clients-free 0 5 d (omega arith) refl ok in
      (free, served.counted ∙ free)
