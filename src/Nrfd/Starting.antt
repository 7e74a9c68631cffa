-- ===== src/Nrfd/Starting.antt =====
-- The start of the daemon of src/nrfd/manager.c connects no client.
use knot_hal_source.Prelude.{
  ℕ, ◌≡◌, refl, arith, ◌==◌, Bool-cases, Option-cases, inl, inr, Option, none, some, List, [], ◌∷◌,
  pos, suc, is_neg, take,
}
use knot_hal_source.Nrfd.State.{Daemon, Node, Services}
use knot_hal_source.Nrfd.Devices.{nrf24_str2mac}
use knot_hal_source.Nrfd.Radio.{radio_init}
use knot_hal_source.Nrfd.Config.{started, parse_node, parse_nodes, new_file}
use knot_hal_source.Nrfd.Start.{
  parse_config, gen_save_mac, start_services, start_known, manager_start,
}
use knot_hal_source.Nrfd.Table.{tally}
use knot_hal_source.Nrfd.Connected.{Served}

-- The clients of two states are the same.
abbrev pub SameClients : {W : Type 0} → Daemon W → Daemon W → Type 0
SameClients t d = (t.peers ≡ d.peers) × (t.count_clients ≡ d.count_clients)

pub Served-by : {W : Type 0} (t d : Daemon W) → SameClients t d → Served d → Served t
Served-by t d (peers, count) ok = rw (peers, count) ok

SameClients-trans :
    {W : Type 0} (a b c : Daemon W) → SameClients a b → SameClients b c → SameClients a c
SameClients-trans a b c (peers, count) (more, counts) = (cc, cc)

module _ {W : Type 0} (sv : Services W) where
  parse_node-clients :
      (i : ℕ) (nodes : List Node) (d : Daemon W) → SameClients (parse_node sv i nodes d).1 d
  unfolding parse_node
  parse_node-clients i [] d = (refl, refl)
  parse_node-clients i (node ∷ nodes) d = elim (Option-cases node.node_mac) [
    | inl e ↦ rw (parse_node, e) (refl, refl)
    | inr (str, is) ↦ elim (Option-cases (nrf24_str2mac sv str)) [
      | inl e ↦ rw (parse_node, is, e) (refl, refl)
      | inr (mac, reads) ↦ elim (Option-cases node.node_name) [
        | inl e ↦ rw (parse_node, is, reads, e) (refl, refl)
        | inr (name, named) ↦ rw (parse_node, is, reads, named) (parse_node-clients (suc i) nodes _)
      ]
    ]
  ]

  new_file-clients : (d : Daemon W) → SameClients (new_file sv d).1 d
  unfolding new_file
  new_file-clients d = (ground arith, ground arith)

  parse_nodes-clients : (d : Daemon W) → SameClients (parse_nodes sv d).1 d
  unfolding parse_nodes
  parse_nodes-clients d =
      let new = new_file-clients d in
      let new = new_file-clients d in
      elim (Option-cases (sv.load_keys d.world)) [
        | inl e ↦ rw (parse_nodes, e) new
        | inr (none, is) ↦ rw (parse_nodes, is) new
        | inr (some nodes, is) ↦ rw (parse_nodes, is) (parse_node-clients 0 (take 5 nodes) d)
      ]

  radio_init-clients : (mac : ℕ) (d : Daemon W) → SameClients (radio_init sv mac d).1 d
  unfolding radio_init
  radio_init-clients mac d = (ground arith, ground arith)

  start_services-clients :
      (host : Option (List ℕ)) (mac : ℕ) (d : Daemon W)
      → SameClients (start_services sv host mac d).1 d
  unfolding start_services radio_init
  start_services-clients none mac d = (ground arith, ground arith)
  start_services-clients (some host) mac d = (ground arith, ground arith)

  started-Served : (w : W) → Served (started w)
  unfolding tally
  started-Served w = record { places = refl; counted = refl; distinct = λ mac. omega arith }

  start_known-clients :
      (config file : List ℕ) (host : Option (List ℕ)) (mac : ℕ) (d : Daemon W)
      → SameClients (start_known sv config file host mac d).1 d
  unfolding start_known
  start_known-clients config file host mac d =
      let (err, known) = parse_nodes sv d in
      let (saved, new_mac, w) = gen_save_mac sv config file mac known.world in
      let found = parse_nodes-clients d in
      let on : (m : ℕ) (v : W)
          → SameClients (start_services sv host m (record known { world = v })).1 d =
        λ m v.
          SameClients-trans (start_services sv host m (record known { world = v })).1 known d
            (start_services-clients host m (record known { world = v })) found in
      elim (Bool-cases (is_neg err)) [
        | inl e ↦ rw e found
        | inr e ↦ elim (Bool-cases (mac == 0)) [
          | inl f ↦ elim (Bool-cases (is_neg saved)) [
            | inl g ↦ rw (e, f, g) found
            | inr g ↦ rw (e, f, g) (on new_mac w)
          ]
          | inr f ↦ rw (e, f) (on mac known.world)
        ]
      ]

  manager_start-clients :
      (file : List ℕ) (host : Option (List ℕ)) (w : W)
      → SameClients (manager_start sv file host w).1 (started w)
  unfolding manager_start
  manager_start-clients file host w = elim (Option-cases (sv.load_file file w)) [
    | inl e ↦ rw (manager_start, e) (refl, refl)
    | inr (config, is) ↦
        let (err, set) =
          parse_config sv config (record { cfg_channel = pos 10; cfg_dbm = pos 0; mac = 0 }) in
        elim (Bool-cases (is_neg err)) [
          | inl e ↦ rw (manager_start, is, e) (refl, refl)
          | inr e ↦
              rw (manager_start, is, e) (start_known-clients config file host set.mac (started w))
        ]
  ]

  pub manager_start-Served :
      (file : List ℕ) (host : Option (List ℕ)) (w : W) (d : Daemon W)
      → manager_start sv file host w ≡ (pos 0, d)
      → Served d
  manager_start-Served file host w d e =
      let (peers, count) = manager_start-clients file host w in
      Served-by d (started w) (rw e at peers, rw e at count) (started-Served w)
