-- ===== src/Nrfd/Config.antt =====
-- The configuration of the daemon, in src/nrfd/manager.c: the file of devices, the power and the channel.
use knot_hal_source.Prelude.{
  ℕ, suc, ◌+◌, ltb, false, none, some, List, [], ◌∷◌, ℤ, pos, negsuc, eq_ℤ, if◌then◌else◌, set,
  take, replicate,
}
use knot_hal_source.Comm.Errors.{einval}
use knot_hal_source.Nrfd.State.{Known, Client, Daemon, Node, Services, max_peers, unused}
use knot_hal_source.Nrfd.Devices.{nrf24_str2mac}

-- `dbm_int2rfpwr`
unfoldable pub dbm_int2rfpwr : ℤ → ℕ
dbm_int2rfpwr dbm =
    if eq_ℤ dbm (pos 0)
    then 0b11
    else if eq_ℤ dbm (negsuc 5)
    then 0b10
    else if eq_ℤ dbm (negsuc 11)
    then 0b01
    else if eq_ℤ dbm (negsuc 17)
    then 0b00
    else 0b11

-- the channel and the power of `manager_start`: the arguments, or what the file has
unfoldable pub choose_channel : ℤ → ℤ → ℤ
choose_channel (pos n) cfg_channel = if ltb 125 n then cfg_channel else pos n
choose_channel (negsuc n) cfg_channel = cfg_channel

unfoldable pub choose_dbm : ℤ → ℤ → ℤ
choose_dbm dbm cfg_dbm = if eq_ℤ dbm (negsuc 254) then cfg_dbm else dbm

-- `memset (&adapter, 0, …)`, the clients that are not connected, and no device in sight
abbrev pub no_device : Known
no_device = record { addr = 0; registration_id = 0; alias = []; status = false }

abbrev pub no_client : Client
no_client = record { mac = 0; socket_fd = unused; ksock = pos 0; kwatch = 0 }

abbrev pub started : {W : Type 0} → W → Daemon W
started w = record {
  mgmtfd = pos 0;
  adapter_mac = 0;
  powered = false;
  known_peers = replicate max_peers no_device;
  known_peers_size = 0;
  peers = replicate max_peers no_client;
  count_clients = 0;
  peer_bcast_table = [];
  world = w;
}

module _ {W : Type 0} (sv : Services W) where
  -- The nodes of the file into the slots from `i` on, until one is not in order.
  unfoldable pub parse_node : ℕ → List Node → Daemon W → ℤ × Daemon W
  parse_node i [] d = (pos 0, d)
  parse_node i (node ∷ nodes) d =
      let rest = parse_node (suc i) nodes in
      elim node.node_mac [
        | none ↦ (einval, d)
        | some str ↦ elim (nrf24_str2mac sv str) [
          | none ↦ (einval, d)
          | some mac ↦
              let counted = record d {
                known_peers = set d.known_peers i (record no_device { addr = mac });
                known_peers_size = d.known_peers_size + 1;
              } in
              elim node.node_name [
                | none ↦ (einval, counted)
                | some name ↦ rest (record counted {
                  known_peers =
                      set counted.known_peers i (record no_device { addr = mac; alias = name });
                })
              ]
        ]
      ]

  -- A file that cannot be read, or has no array, is written anew.
  unfoldable pub new_file : Daemon W → ℤ × Daemon W
  new_file d =
      if sv.can_write d.world
      then (pos 0, record d { world = sv.save_keys [] d.world })
      else (einval, d)

  -- At most `max_peers` nodes.
  unfoldable pub parse_nodes : Daemon W → ℤ × Daemon W
  parse_nodes d = elim (sv.load_keys d.world) [
    | some (some nodes) ↦ parse_node 0 (take max_peers nodes) d
    | some none ↦ new_file d
    | none ↦ new_file d
  ]
