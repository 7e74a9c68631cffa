-- ===== src/Nrfd/Keys.antt =====
-- The file of devices of src/nrfd/manager.c: what `write_file` adds, it removes again.
use knot_hal_source.Prelude.{
  ℕ, ◌≡◌, refl, arith, not, Bool, true, false, Option, none, some, List, [], ◌∷◌, ◌++◌, ◌&&◌, pos,
  bytes_eq, bytes_eq_refl,
}
use knot_hal_source.Nrfd.State.{Node, Services}
use knot_hal_source.Nrfd.Devices.{without_node, write_keys, write_file}

-- Every node has an address, and another one than this.
abbrev pub lacks : List ℕ → Node → Bool
lacks addr node = elim node.node_mac [ none ↦ false | some mac ↦ not (bytes_eq mac addr) ]

unfoldable pub all_lack : List ℕ → List Node → Bool
all_lack addr [] = true
all_lack addr (node ∷ nodes) = lacks addr node && all_lack addr nodes

without_node-append :
    (addr : List ℕ) (name : Option (List ℕ)) (keys : List Node)
    → all_lack addr keys ≡ true
    → without_node addr (keys ++ (record { node_mac = some addr; node_name = name } ∷ []))
      ≡ some keys
unfolding without_node all_lack
without_node-append addr name [] h = rw (bytes_eq_refl addr) refl
without_node-append addr name (node ∷ keys) h = ground (arith, without_node-append addr name keys)

module _ {W : Type 0} (sv : Services W) where
  write_file-added :
      (addr key name : List ℕ) (keys : List Node) (w : W)
      → sv.load_keys w ≡ some (some keys)
      → write_file sv addr (some key) (some name) w ≡ (
        pos 0,
        sv.save_keys (keys ++ (record { node_mac = some addr; node_name = some name } ∷ [])) w,
      )
  unfolding write_file write_keys
  write_file-added addr key name keys w loaded = rw (write_file, loaded) refl

  write_file-removed :
      (addr : List ℕ) (keys rest : List Node) (w : W)
      → sv.load_keys w ≡ some (some keys)
      → without_node addr keys ≡ some rest
      → write_file sv addr none none w ≡ (pos 0, sv.save_keys rest w)
  unfolding write_file write_keys
  write_file-removed addr keys rest w loaded found = rw (write_file, loaded, write_keys, found) refl

  -- On a file that holds what was last written to it, and where no node has the address or lacks
  -- one, adding the device and removing it succeed and leave the nodes of before.
  pub write_file-remove_added :
      (addr key name : List ℕ) (keys : List Node) (w : W)
      → ((nodes : List Node) (v : W) → sv.load_keys (sv.save_keys nodes v) ≡ some (some nodes))
      → sv.load_keys w ≡ some (some keys)
      → all_lack addr keys ≡ true
      → ((write_file sv addr (some key) (some name) w).0 ≡ pos 0)
        × ((write_file sv addr none none (write_file sv addr (some key) (some name) w).1).0 ≡ pos 0)
        × (sv.load_keys
              (write_file sv addr none none (write_file sv addr (some key) (some name) w).1).1
            ≡ some (some keys))
  write_file-remove_added addr key name keys w kept loaded lacking =
      let longer = keys ++ (record { node_mac = some addr; node_name = some name } ∷ []) in
      rw
        (
          write_file-added addr key name keys w loaded,
          write_file-removed addr longer keys (sv.save_keys longer w) (kept longer w)
              (without_node-append addr (some name) keys lacking),
        )
        (refl, refl, kept keys (sv.save_keys longer w))
