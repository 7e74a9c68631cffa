-- ===== src/Nrfd/Removing.antt =====
-- `remove_known_device` of src/nrfd/manager.c, and adding and removing a device.
use knot_hal_source.Prelude.{
  ℕ, suc, ◌+◌, ◌-◌, ◌%◌, ◌^◌, ◌≡◌, ◌≢◌, ◌⊎◌, refl, ap, ◌∙◌, arith, ◌==◌, ◌&&◌, Bool, true, inl, inr,
  Bool-cases, none, some, List, [], ◌∷◌, if◌then◌else◌, get_elem?, set, length-set,
}
use knot_hal_source.Comm.Errors.{eperm}
use knot_hal_source.Nrfd.State.{Known, Daemon, Services}
use knot_hal_source.Nrfd.Devices.{
  nrf24_str2mac, write_file, remove_known_device, check_permission, find_known,
}
use knot_hal_source.Nrfd.Table.{
  tally, tally-set, held, named, held-le-length, check_permission-tally,
}
use knot_hal_source.Nrfd.Adding.{IsTable}

-- The slot that `remove_known_device` finds.
find_known-at :
    (mac i : ℕ) (slots : List Known)
    → ((find_known mac i slots ≡ none) × (tally (named mac) slots ≡ 0))
      ⊎ ((j : ℕ) × (k : Known) × (find_known mac i slots ≡ some (i + j, k))
          × (get_elem? slots j ≡ some k)
          × (k.addr ≡ mac))
unfolding find_known tally
find_known-at mac i [] = inl (refl, refl)
find_known-at mac i (k ∷ slots) = elim (Bool-cases (k.addr == mac)) [
  | inl e ↦
      let here : i ≡ i + 0 = omega arith in
      rw e (inr (0, k, ap (λ j. some (j, k)) here, refl, ground arith))
  | inr e ↦ rw e (elim (find_known-at mac (suc i) slots) [
    | inl absent ↦ inl (absent.0, omega (arith, absent.1))
    | inr (j, k', found, at, same) ↦
        let later : suc i + j ≡ i + suc j = omega arith in
        inr (suc j, k', found ∙ ap (λ l. some (l, k')) later, at, same)
  ])
]

module _ {W : Type 0} (sv : Services W) where
  abbrev pub IsRemoved : ℕ → ℕ → Daemon W → Bool × Daemon W → Type 0
  IsRemoved m n d r =
      IsTable r.1
      × (check_permission n r.1.known_peers
          ≡ (if r.0 && n == m then eperm else check_permission n d.known_peers))

  freed-IsRemoved :
      (m n j : ℕ) (w : W) (d : Daemon W) (k : Known)
      → get_elem? d.known_peers j ≡ some k
      → k.addr ≡ m
      → m ≢ 0
      → n ≢ 0
      → IsTable d
      → IsRemoved m n d (
        true,
        record d {
          known_peers = set d.known_peers j (record k { addr = 0 });
          known_peers_size = (d.known_peers_size + (2 ^ 32 - 1)) % 2 ^ 32;
          world = w;
        },
      )
  freed-IsRemoved m n j w d k at same given other ok =
      let freed : Known = record k { addr = 0 } in
      let counted = tally-set held d.known_peers j k freed at in
      let here = tally-set (named n) d.known_peers j k freed at in
      let few = held-le-length d.known_peers in
      (
        record {
          slots = length-set d.known_peers j freed ∙ ok.slots;
          size = ground (arith, ok.size, ok.slots, counted, few);
          distinct =
              λ l nz. ground (arith, tally-set (named l) d.known_peers j k freed at, ok.distinct l);
        },
        rw
            (
              check_permission-tally n (set d.known_peers j freed),
              check_permission-tally n d.known_peers,
            )
            (ground (arith, here, ok.distinct n)),
      )

  -- With an address other than zero, and with the slots in order, `remove_known_device` leaves them in
  -- order. On success the address is no longer permitted; the permission of every other address is
  -- as it was.
  pub remove_known_device-IsRemoved :
      (mac : List ℕ) (m n : ℕ) (d : Daemon W)
      → nrf24_str2mac sv mac ≡ some m
      → m ≢ 0
      → n ≢ 0
      → IsTable d
      → IsRemoved m n d (remove_known_device sv mac d)
  unfolding remove_known_device
  remove_known_device-IsRemoved mac m n d parsed given other ok =
      elim (find_known-at m 0 d.known_peers) [
        | inl absent ↦ rw (remove_known_device, parsed, absent.0) (ok, refl)
        | inr (j, k, found, at, same) ↦
            let slot : 0 + j ≡ j = omega arith in
            elim (Bool-cases (sv.unregister_object k.registration_id d.world).0) [
              | inl gone ↦
                  rw (remove_known_device, parsed, found, gone, slot)
                    (freed-IsRemoved m n j
                      (write_file sv mac none none
                        (sv.unregister_object k.registration_id d.world).1).1
                      d k at same given other ok)
              | inr kept ↦
                  rw (remove_known_device, parsed, found, kept)
                    (record { slots = ok.slots; size = ok.size; distinct = ok.distinct }, refl)
            ]
      ]
