-- ===== src/Nrfd/Adding.antt =====
-- `add_known_device` and `remove_known_device` of src/nrfd/manager.c keep the slots of the known devices in
-- order, and permit just what was added.
use knot_hal_source.Prelude.{
  ℕ, ◌+◌, ◌≤◌, ◌<◌, ◌≡◌, ◌≢◌, ◌⊎◌, refl, ◌∙◌, arith, ◌==◌, ltb, ◌&&◌, Bool, true, false, inl, inr,
  Bool-cases, none, some, List, pos, if◌then◌else◌, get_elem?, set, length, length-set,
}
use knot_hal_source.Comm.Errors.{eperm}
use knot_hal_source.Nrfd.State.{Known, Daemon, Services}
use knot_hal_source.Nrfd.Devices.{
  nrf24_str2mac, write_file, new_device_object, store_device, insert_device, add_known_device,
  check_permission,
}
use knot_hal_source.Nrfd.Table.{
  tally, tally-set, held, named, first_empty, first_empty-free, check_permission-tally,
  scan_known-found, scan_known-free,
}

-- The slots are five, as many hold a device as the count says, and no two the same.
pub record IsTable {W : Type 0} (d : Daemon W) : Type 0 where
  pub slots : length d.known_peers ≡ 5
  pub size : d.known_peers_size ≡ tally held d.known_peers
  pub distinct : (mac : ℕ) → mac ≢ 0 → tally (named mac) d.known_peers ≤ 1

known_permitted :
    (slots : List Known) (m n : ℕ)
    → (tally (named m) slots == 0) ≡ false
    → (if tally (named n) slots == 0 then eperm else pos 0)
      ≡ (if true && n == m then pos 0 else if tally (named n) slots == 0 then eperm else pos 0)
known_permitted slots m n known = elim (Bool-cases (n == m)) [
  | inl same ↦ let e : n ≡ m = ground arith in rw (e, known) (ground arith)
  | inr other ↦ rw other refl
]

module _ {W : Type 0} (sv : Services W) where
  -- an empty slot taken
  stored-IsTable :
      (i id m : ℕ) (mac key name : List ℕ) (w : W) (d : Daemon W) (k : Known)
      → get_elem? d.known_peers i ≡ some k
      → k.addr ≡ 0
      → m ≢ 0
      → tally (named m) d.known_peers ≡ 0
      → tally held d.known_peers < 5
      → IsTable d
      → IsTable (store_device sv i id m mac key name w d)
  unfolding store_device
  stored-IsTable i id m mac key name w d k at empty new fresh room ok =
      let stored : Known = record {
        addr = m;
        registration_id = id;
        alias = name;
        status = false;
      } in
      record {
        slots = length-set d.known_peers i stored ∙ ok.slots;
        size = ground (arith, ok.size, tally-set held d.known_peers i k stored at);
        distinct = λ n other.
            ground (arith, tally-set (named n) d.known_peers i k stored at, ok.distinct n);
      }

  -- What the call answers: the slots stay in order, and on success the address is permitted besides
  -- those that were.
  abbrev pub IsAdded : ℕ → ℕ → Daemon W → Bool × Daemon W → Type 0
  IsAdded m n d r =
      IsTable r.1
      × (check_permission n r.1.known_peers
          ≡ (if r.0 && n == m then pos 0 else check_permission n d.known_peers))

  refused-IsAdded :
      (m n : ℕ) (w : W) (d : Daemon W) → IsTable d → IsAdded m n d (false, record d { world = w })
  refused-IsAdded m n w d ok =
      (record { slots = ok.slots; size = ok.size; distinct = ok.distinct }, refl)

  known-IsAdded :
      (m n : ℕ) (w : W) (d : Daemon W)
      → (tally (named m) d.known_peers == 0) ≡ false
      → IsTable d
      → IsAdded m n d (true, record d { world = w })
  known-IsAdded m n w d known ok = (
    record { slots = ok.slots; size = ok.size; distinct = ok.distinct },
    rw (check_permission-tally n d.known_peers) (known_permitted d.known_peers m n known),
  )

  stored-IsAdded :
      (m n i id : ℕ) (mac key name : List ℕ) (w : W) (d : Daemon W) (k : Known)
      → get_elem? d.known_peers i ≡ some k
      → k.addr ≡ 0
      → m ≢ 0
      → n ≢ 0
      → tally (named m) d.known_peers ≡ 0
      → tally held d.known_peers < 5
      → IsTable d
      → IsAdded m n d (true, store_device sv i id m mac key name w d)
  unfolding store_device
  stored-IsAdded m n i id mac key name w d k at empty new other fresh room ok =
      let stored : Known = record {
        addr = m;
        registration_id = id;
        alias = name;
        status = false;
      } in
      (
        stored-IsTable i id m mac key name w d k at empty new fresh room ok,
        rw
            (
              check_permission-tally n (set d.known_peers i stored),
              check_permission-tally n d.known_peers,
            )
            (ground (arith, tally-set (named n) d.known_peers i k stored at)),
      )

  insert_device-IsAdded :
      (m n : ℕ) (mac key name : List ℕ) (d : Daemon W)
      → m ≢ 0
      → n ≢ 0
      → tally (named m) d.known_peers ≡ 0
      → IsTable d
      → (r : Bool × Daemon W) × (insert_device sv (first_empty d.known_peers) m mac key name d
          ≡ some r)
        × IsAdded m n d r
        × ((r.0 ≡ true)
            ⊎ (5 ≤ d.known_peers_size)
            ⊎ ((sv.register_object (first_empty d.known_peers) d.world).0 ≡ 0))
  unfolding insert_device new_device_object
  insert_device-IsAdded m n mac key name d new other fresh ok =
      elim (Bool-cases (ltb d.known_peers_size 5)) [
        | inr full ↦
            rw full ((false, d), refl, refused-IsAdded m n d.world d ok, inr (inl (ground arith)))
        | inl room ↦
            let few : tally held d.known_peers < 5 = ground (arith, ok.size) in
            let (k, at, empty) = first_empty-free d.known_peers (omega (arith, ok.slots)) in
            let (id, w) = sv.register_object (first_empty d.known_peers) d.world in
            elim (Bool-cases (id == 0)) [
              | inl failed ↦
                  rw (room, failed)
                    (
                      (false, record d { world = w }),
                      refl,
                      refused-IsAdded m n w d ok,
                      inr (inr (ground arith)),
                    )
              | inr given ↦
                  rw (room, given, at)
                    (
                      (
                        true,
                        store_device sv (first_empty d.known_peers) id m mac key name w
                            (record d { world = w }),
                      ),
                      refl,
                      stored-IsAdded m n (first_empty d.known_peers) id mac key name w
                          (record d { world = w }) k at empty new other fresh few
                          (record { slots = ok.slots; size = ok.size; distinct = ok.distinct }),
                      inl refl,
                    )
            ]
      ]

  -- With an address other than zero, and with the slots in order, `add_known_device` never reads
  -- outside of the slots and leaves them in order: five, counted, no address twice. It fails only if
  -- five devices are known or D-Bus gives no object for a free slot. On success the address is
  -- permitted; the permission of every other address is as it was.
  pub add_known_device-IsAdded :
      (mac key name : List ℕ) (m n : ℕ) (d : Daemon W)
      → nrf24_str2mac sv mac ≡ some m
      → m ≢ 0
      → n ≢ 0
      → IsTable d
      → (r : Bool × Daemon W) × (add_known_device sv mac key name d ≡ some r)
        × IsAdded m n d r
        × ((r.0 ≡ true)
            ⊎ (5 ≤ d.known_peers_size)
            ⊎ ((sv.register_object (first_empty d.known_peers) d.world).0 ≡ 0))
  unfolding add_known_device
  add_known_device-IsAdded mac key name m n d parsed new other ok =
      elim (Bool-cases (tally (named m) d.known_peers == 0)) [
        | inl fresh ↦
            let here : 0 + first_empty d.known_peers ≡ first_empty d.known_peers = omega arith in
            rw
              (
                add_known_device,
                parsed,
                scan_known-free m d.known_peers_size none 0 d.known_peers new ok.size
                    (ground arith),
                here,
              )
              (insert_device-IsAdded m n mac key name d new other (ground arith) ok)
        | inr known ↦
            let updated = record d { world = (write_file sv mac (some key) none d.world).1 } in
            rw
              (
                add_known_device,
                parsed,
                scan_known-found m d.known_peers_size none 0 d.known_peers new ok.size
                    (ground arith),
              )
              (
                (true, updated),
                refl,
                known-IsAdded m n (write_file sv mac (some key) none d.world).1 d known ok,
                inl refl,
              )
      ]
