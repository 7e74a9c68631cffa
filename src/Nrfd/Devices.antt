-- ===== src/Nrfd/Devices.antt =====
-- The devices that the daemon of src/nrfd/manager.c knows: `add_known_device`, `remove_known_device`,
-- `check_permission`, and the file that keeps them. `none` is an access outside of the array.
use knot_hal_source.Prelude.{
  ℕ, zero, suc, ◌+◌, ◌-◌, ◌%◌, ◌^◌, ◌==◌, ltb, Bool, true, false, Option, none, some, List, [], ◌∷◌,
  ◌++◌, ℤ, pos, bytes_eq, if◌then◌else◌, get_elem?, set,
}
use knot_hal_source.Comm.Errors.{eperm, einval}
use knot_hal_source.Nrfd.State.{Known, Daemon, Node, Services, max_peers}

-- `nrf24_str2mac`: all eight bytes must be there.
unfoldable pub nrf24_str2mac : {W : Type 0} → Services W → List ℕ → Option ℕ
nrf24_str2mac sv str = let (rc, mac) = sv.scan_mac str in if rc == 8 then some mac else none

-- The elements whose address is not `addr`; `none` if one before them has no address.
unfoldable pub without_node : List ℕ → List Node → Option (List Node)
without_node addr [] = some []
without_node addr (node ∷ nodes) = elim node.node_mac [
  | none ↦ none
  | some mac ↦ elim (without_node addr nodes) [
    | none ↦ none
    | some rest ↦ some (if bytes_eq mac addr then rest else node ∷ rest)
  ]
]

module _ {W : Type 0} (sv : Services W) where
  -- `write_file` with the array of the file. Without a key and a name it removes the device, without
  -- a name it does nothing, and otherwise it adds the device.
  unfoldable pub write_keys : List ℕ → Option (List ℕ) → Option (List ℕ) → List Node → W → ℤ × W
  write_keys addr none none keys w = elim (without_node addr keys) [
    | none ↦ (einval, w)
    | some rest ↦ (pos 0, sv.save_keys rest w)
  ]
  write_keys addr (some key) none keys w = (pos 0, w)
  write_keys addr key (some name) keys w = (
    pos 0,
    sv.save_keys (keys ++ (record { node_mac = some addr; node_name = some name } ∷ [])) w,
  )

  unfoldable pub write_file : List ℕ → Option (List ℕ) → Option (List ℕ) → W → ℤ × W
  write_file addr key name w = elim (sv.load_keys w) [
    | none ↦ (einval, w)
    | some none ↦ (einval, w)
    | some (some keys) ↦ write_keys addr key name keys w
  ]

-- the first slot with the address, from index `i` on
unfoldable pub find_known : ℕ → ℕ → List Known → Option (ℕ × Known)
find_known mac i [] = none
find_known mac i (k ∷ slots) = if k.addr == mac then some (i, k) else find_known mac (suc i) slots

-- What the loop of `add_known_device` finds.
pub data Scan : Type 0 where
  found : Scan
  free_slot : ℕ → Scan
  outside : Scan

-- The slot to take: the first empty one that was passed, or the one where the loop stopped.
abbrev pub slot_or : Option ℕ → ℕ → ℕ
slot_or none i = i
slot_or (some p) i = p

abbrev pub first_free : Option ℕ → ℕ → Option ℕ
first_free none i = some i
first_free (some p) i = some p

-- The slots from `i` on, with `left` devices still to be passed (`known_peers_size - alloc_pos`).
unfoldable pub scan_known : ℕ → ℕ → Option ℕ → ℕ → List Known → Scan
scan_known mac zero free i slots = free_slot (slot_or free i)
scan_known mac (suc left) free i [] = outside
scan_known mac (suc left) free i (k ∷ slots) =
    let passed = scan_known mac left free (suc i) slots in
    let skipped = scan_known mac (suc left) (first_free free i) (suc i) slots in
    if k.addr == mac then found else if k.addr == 0 then skipped else passed

module _ {W : Type 0} (sv : Services W) where
  -- `new_device_object` gives the slot the number of the object, if there is one.
  unfoldable pub new_device_object : ℕ → Daemon W → Option (Bool × ℕ × Daemon W)
  new_device_object i d =
      let (id, w) = sv.register_object i d.world in
      if id == 0
      then some (false, 0, record d { world = w })
      else (elim (get_elem? d.known_peers i) [
        | none ↦ none
        | some k ↦ some (true, id, record d { world = w })
      ])

  -- The device in the slot at `i`.
  unfoldable pub store_device : ℕ → ℕ → ℕ → List ℕ → List ℕ → List ℕ → W → Daemon W → Daemon W
  store_device i id new_dev mac key name w d = record d {
    known_peers =
        set d.known_peers i
          (record { addr = new_dev; registration_id = id; alias = name; status = false });
    known_peers_size = (d.known_peers_size + 1) % 2 ^ 32;
    world = (write_file sv mac (some key) (some name) w).1;
  }

  unfoldable pub insert_device :
      ℕ → ℕ → List ℕ → List ℕ → List ℕ → Daemon W → Option (Bool × Daemon W)
  insert_device i new_dev mac key name d =
      if ltb d.known_peers_size max_peers
      then (elim (new_device_object i d) [
        | none ↦ none
        | some r ↦
            if r.0
            then some (true, store_device i r.1 new_dev mac key name r.2.world r.2)
            else some (false, r.2)
      ])
      else some (false, d)

  unfoldable pub add_known_device : List ℕ → List ℕ → List ℕ → Daemon W → Option (Bool × Daemon W)
  add_known_device mac key name d = elim (nrf24_str2mac sv mac) [
    | none ↦ some (false, d)
    | some new_dev ↦ elim (scan_known new_dev d.known_peers_size none 0 d.known_peers) [
      | found ↦ some (true, record d { world = (write_file sv mac (some key) none d.world).1 })
      | free_slot i ↦ insert_device i new_dev mac key name d
      | outside ↦ none
    ]
  ]

  -- The alias is freed and not read again.
  unfoldable pub remove_known_device : List ℕ → Daemon W → Bool × Daemon W
  remove_known_device mac d = elim (nrf24_str2mac sv mac) [
    | none ↦ (false, d)
    | some dev ↦ elim (find_known dev 0 d.known_peers) [
      | none ↦ (false, d)
      | some (i, k) ↦
          let (gone, w) = sv.unregister_object k.registration_id d.world in
          if gone
          then (
            true,
            record d {
              known_peers = set d.known_peers i (record k { addr = 0 });
              known_peers_size = (d.known_peers_size + (2 ^ 32 - 1)) % 2 ^ 32;
              world = (write_file sv mac none none w).1;
            },
          )
          else (false, record d { world = w })
    ]
  ]

-- Is the address in a slot?
unfoldable pub check_permission : ℕ → List Known → ℤ
check_permission mac [] = eperm
check_permission mac (k ∷ slots) = if mac == k.addr then pos 0 else check_permission mac slots
