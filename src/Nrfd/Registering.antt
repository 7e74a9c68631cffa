-- ===== src/Nrfd/Registering.antt =====
-- What `on_bus_acquired` of src/nrfd/manager.c registers.
use knot_hal_source.Prelude.{
  get_elem?_of_lt, some-eq, ℕ, zero, suc, ◌+◌, ◌≤◌, ◌<◌, ◌≡◌, ◌≢◌, ◌∙◌, sym, refl, arith, some,
  Bool-cases, inl, inr, length, get_elem?, set, get_elem?-set_self, get_elem?-set_ne, length-set,
  ◌==◌, false,
}
use knot_hal_source.Nrfd.State.{Known, Daemon, Services}
use knot_hal_source.Nrfd.Bus.{register_known, on_bus_acquired}

-- The slots from `k` to `m` have an object on D-Bus, and the others are as they were.
pub record IsRegistered {W : Type 0} (k m : ℕ) (d t : Daemon W) : Type 0 where
  pub inside :
      (j : ℕ)
      → k ≤ j
      → j < m
      → (p : Known) → get_elem? t.known_peers j ≡ some p
      → p.registration_id ≢ 0
  pub before : (j : ℕ) → j < k → get_elem? t.known_peers j ≡ get_elem? d.known_peers j
  pub after : (j : ℕ) → m ≤ j → get_elem? t.known_peers j ≡ get_elem? d.known_peers j

module _ {W : Type 0} (sv : Services W)
    (answers : (i : ℕ) (w : W) → (sv.register_object i w).0 ≢ 0) where
  register_known-IsRegistered :
      (n k m : ℕ) (d : Daemon W)
      → k + n ≡ m
      → m ≤ length d.known_peers
      → (t : Daemon W) × (register_known sv n k d ≡ some t) × IsRegistered k m d t
  unfolding register_known
  register_known-IsRegistered zero k m d s h = (
    d,
    refl,
    record {
      inside = λ j a b p e. absurd (omega arith);
      before = λ j a. refl;
      after = λ j a. refl;
    },
  )
  register_known-IsRegistered (suc n) k m d s h =
      let (id, w) = sv.register_object k d.world in
      let accepted : (id == 0) ≡ false = ground (arith, answers k d.world) in
      let (p, g) = get_elem?_of_lt d.known_peers k (omega arith) in
      let object = record p { registration_id = id } in
      let slots = set d.known_peers k object in
      let (t, e, r) =
        register_known-IsRegistered n (suc k) m (record d { known_peers = slots; world = w })
          (omega arith) (omega (arith, length-set d.known_peers k object)) in
      let here : get_elem? t.known_peers k ≡ some object =
        r.before k (omega arith) ∙ get_elem?-set_self d.known_peers k object (omega arith) in
      let other : (j : ℕ) → k ≢ j → get_elem? slots j ≡ get_elem? d.known_peers j =
        λ j f. get_elem?-set_ne d.known_peers object f in
      (
        t,
        rw (register_known, accepted, g) e,
        record {
          inside = λ j a b q f. elim (Bool-cases (j == k)) [
            | inl same ↦
                let at : j ≡ k = ground arith in
                let known : object ≡ q = some-eq object q (sym here ∙ rw at at f) in
                rw (← known) (answers k d.world)
            | inr differ ↦ r.inside j (ground arith) b q f
          ];
          before = λ j a. r.before j (omega arith) ∙ other j (omega arith);
          after = λ j a. r.after j a ∙ other j (omega arith);
        },
      )

  -- If the bus takes the object of the adapter and the object of each device, and there are no more
  -- known devices than slots, then `on_bus_acquired` stays within the slots and gives each of the first
  -- slots, as many as devices are known, an object on D-Bus; the other slots are as they were.
  pub on_bus_acquired-IsRegistered :
      (d : Daemon W)
      → (sv.register_adapter d.world).0 ≢ 0
      → d.known_peers_size ≤ length d.known_peers
      → (t : Daemon W) × (on_bus_acquired sv d ≡ some t) × IsRegistered 0 d.known_peers_size d t
  unfolding on_bus_acquired
  on_bus_acquired-IsRegistered d adapter h =
      let (id, w) = sv.register_adapter d.world in
      let accepted : (id == 0) ≡ false = ground arith in
      let (t, e, r) =
        register_known-IsRegistered d.known_peers_size 0 d.known_peers_size (record d { world = w })
          (omega arith) h in
      (
        t,
        rw (on_bus_acquired, accepted) e,
        record { inside = r.inside; before = r.before; after = r.after },
      )
