-- ===== src/Nrfd/Bus.antt =====
-- The service on D-Bus of src/nrfd/manager.c: what it registers when the bus is there, and its end.
use knot_hal_source.Prelude.{
  ℕ, zero, suc, ◌==◌, ◌≡◌, arith, Option, none, some, Option-cases, Bool-cases, inl, inr, [],
  if◌then◌else◌, get_elem?, set,
}
use knot_hal_source.Nrfd.State.{Daemon, Services}
use knot_hal_source.Nrfd.Radio.{radio_stop}
use knot_hal_source.Nrfd.Starting.{SameClients}

module _ {W : Type 0} (sv : Services W) where
  -- `n` rounds of the loop over the known devices, from slot `k` on. A slot whose object the bus refuses
  -- is tried again in the next round. `none` is an access outside of the slots.
  unfoldable pub register_known : ℕ → ℕ → Daemon W → Option (Daemon W)
  register_known zero k d = some d
  register_known (suc n) k d =
      let (id, w) = sv.register_object k d.world in
      let rest = register_known n in
      if id == 0 then rest k (record d { world = w }) else (elim (get_elem? d.known_peers k) [
        | none ↦ none
        | some p ↦ rest (suc k) (record d {
          known_peers = set d.known_peers k (record p { registration_id = id });
          world = w;
        })
      ])

  -- Without the object of the adapter the process ends, which is `none` as well.
  unfoldable pub on_bus_acquired : Daemon W → Option (Daemon W)
  on_bus_acquired d =
      let (id, w) = sv.register_adapter d.world in
      if id == 0 then none else register_known d.known_peers_size 0 (record d { world = w })

  unfoldable pub manager_stop : Daemon W → Daemon W
  manager_stop d =
      let stopped = radio_stop sv (record d { world = sv.unown_name d.world }) in
      record stopped { peer_bcast_table = [] }

  register_known-clients :
      (n k : ℕ) (d t : Daemon W) → register_known n k d ≡ some t → SameClients t d
  unfolding register_known
  register_known-clients zero k d t e = (ground arith, ground arith)
  register_known-clients (suc n) k d t e =
      let (id, w) = sv.register_object k d.world in
      elim (Bool-cases (id == 0)) [
        | inl f ↦
            register_known-clients n k (record d { world = w }) t (rw (register_known, f) at e)
        | inr f ↦ elim (Option-cases (get_elem? d.known_peers k)) [
          | inl g ↦
              let never : none ≡ some t = rw (register_known, f, g) at e in absurd (ground arith)
          | inr (p, g) ↦
              register_known-clients n (suc k)
                (record d {
                  known_peers = set d.known_peers k (record p { registration_id = id });
                  world = w;
                })
                t (rw (register_known, f, g) at e)
        ]
      ]

  pub on_bus_acquired-clients : (d t : Daemon W) → on_bus_acquired d ≡ some t → SameClients t d
  unfolding on_bus_acquired
  on_bus_acquired-clients d t e =
      let (id, w) = sv.register_adapter d.world in
      elim (Bool-cases (id == 0)) [
        | inl f ↦ let never : none ≡ some t = rw (on_bus_acquired, f) at e in absurd (ground arith)
        | inr f ↦
            register_known-clients d.known_peers_size 0 (record d { world = w }) t
              (rw (on_bus_acquired, f) at e)
      ]
