-- ===== src/NrfdTests.antt =====
-- A system for the daemon, some of its states, and the theorems on it at them.
use knot_hal_source.Prelude.{
  ℕ, ◌+◌, ◌≤◌, ◌≡◌, ◌⊎◌, refl, true, false, Bool, none, some, List, [], ◌∷◌, pos, negsuc, is_neg,
  arith, replicate, map, take,
}
use knot_hal_source.Nrfd.State.{Known, Client, Daemon, Node, Services}
use knot_hal_source.Nrfd.Config.{started, no_device, no_client, parse_nodes, parse_node}
use knot_hal_source.Nrfd.Devices.{
  add_known_device, remove_known_device, nrf24_str2mac, write_file, check_permission,
}
use knot_hal_source.Nrfd.Clients
use knot_hal_source.Nrfd.Clients.{evt_presence, close_clients, timeout_iterator}
use knot_hal_source.Nrfd.Radio.{read_idle, radio_init}
use knot_hal_source.Nrfd.Start.{
  manager_start, parse_config, parse_mac, start_known, start_services, gen_save_mac,
}
use knot_hal_source.Nrfd.Table.{tally, first_empty}
use knot_hal_source.Nrfd.Adding.{IsTable, IsAdded, add_known_device-IsAdded}
use knot_hal_source.Nrfd.Removing.{IsRemoved, remove_known_device-IsRemoved}
use knot_hal_source.Nrfd.Zero.{add_known_device-after_zero}
use knot_hal_source.Nrfd.Places.{serving}
use knot_hal_source.Nrfd.Connected.{Served, evt_presence-Served, evt_disconnected-Served}
use knot_hal_source.Nrfd.Keys.{all_lack, write_file-remove_added}
use knot_hal_source.Nrfd.Loading.{node_of, slot_of, parse_nodes_loads}
use knot_hal_source.Nrfd.Run.{start, later, idle, timeout, Reach-Served}

-- The world is the file of devices. An address is read from one byte, and D-Bus numbers its objects.
abbrev scan_byte : List ℕ → ℕ × ℕ
scan_byte [] = (0, 0)
scan_byte (b ∷ str) = (8, b)

abbrev services : Services (List Node)
services = record {
  scan_mac = scan_byte;
  print_mac = λ mac. mac ∷ [];
  make_valid = some;
  load_keys = λ w. some (some w);
  can_write = λ w. true;
  save_keys = λ nodes w. nodes;
  register_object = λ i w. (i + 1, w);
  register_adapter = λ w. (9, w);
  unregister_object = λ id w. (true, w);
  hal_comm_init = λ name mac w. (pos 0, w);
  hal_comm_deinit = λ w. w;
  hal_comm_socket = λ raw w. (pos 1, w);
  hal_comm_close = λ fd w. w;
  hal_comm_connect = λ fd mac w. (pos 0, w);
  hal_comm_read = λ fd w. (negsuc 10, [], w);
  hal_comm_write = λ fd bytes w. (pos 0, w);
  has_host = λ w. false;
  open_socket = λ tcp w. (pos 9, w);
  set_no_delay = λ fd w. (pos 0, w);
  connect = λ fd w. (pos 0, w);
  close = λ fd w. w;
  write = λ fd bytes w. (pos 0, w);
  add_watch = λ i fd w. (7, w);
  hal_time_ms = λ w. (1000, w);
  load_file = λ file w. some [];
  parse_json = λ config.
      some (some (record { channel = none; tx_power = none; radio_mac = some (some (7 ∷ [])) }));
  save_mac = λ config file mac w. w;
  hal_getrandom = λ w. (7, w);
  own_name = λ mac w. w;
  unown_name = λ w. w;
  resolve = λ host w. (pos 0, w);
  frame = replicate 256 0;
}

-- one known device, 42
abbrev slots : List Known
slots =
    record { addr = 42; registration_id = 1; alias = []; status = false } ∷ replicate 4 no_device

abbrev serving_one : List Client
serving_one =
    record { mac = 42; socket_fd = pos 1; ksock = pos 9; kwatch = 7 } ∷ replicate 4 no_client

abbrev knowing : Daemon (List Node)
knowing = record (started {W = List Node} []) { known_peers = slots; known_peers_size = 1 }

knowing-IsTable : IsTable knowing
unfolding tally
knowing-IsTable = record { slots = refl; size = refl; distinct = λ mac other. ground arith }

add_known_device-IsAdded_example :
    (r : Bool × Daemon (List Node)) × (add_known_device services (43 ∷ []) [] [] knowing ≡ some r)
    × IsAdded services 43 43 knowing r
    × ((r.0 ≡ true) ⊎ (5 ≤ 1) ⊎ ((services.register_object (first_empty slots) []).0 ≡ 0))
unfolding nrf24_str2mac
add_known_device-IsAdded_example =
    add_known_device-IsAdded services (43 ∷ []) [] [] 43 43 knowing refl (omega arith) (omega arith)
      knowing-IsTable

remove_known_device-IsRemoved_example :
    IsRemoved services 42 42 knowing (remove_known_device services (42 ∷ []) knowing)
unfolding nrf24_str2mac
remove_known_device-IsRemoved_example =
    remove_known_device-IsRemoved services (42 ∷ []) 42 42 knowing refl (omega arith) (omega arith)
      knowing-IsTable

add_known_device-after_zero_example :
    (d : Daemon (List Node)) × (add_known_device services (0 ∷ []) [] [] (started [])
      ≡ some (true, d))
    × (add_known_device services (5 ∷ []) [] [] d ≡ none)
unfolding nrf24_str2mac
add_known_device-after_zero_example =
    add_known_device-after_zero services (0 ∷ []) (5 ∷ []) [] [] 5 [] refl refl (omega arith)
      (omega arith)

knowing-Served : Served knowing
unfolding tally
knowing-Served = record { places = refl; counted = refl; distinct = λ mac. omega arith }

evt_presence-Served_example :
    Served (evt_presence services 42 (84 ∷ []) knowing).1
    × (((evt_presence services 42 (84 ∷ []) knowing).1.peers ≡ knowing.peers)
        ⊎ ((is_neg (check_permission 42 slots) ≡ false)
            × (tally (serving 42) knowing.peers ≡ 0)
            × (tally (serving 42) (evt_presence services 42 (84 ∷ []) knowing).1.peers ≡ 1)))
evt_presence-Served_example = evt_presence-Served services 42 (84 ∷ []) knowing knowing-Served

abbrev busy : Daemon (List Node)
busy = record knowing { peers = serving_one; count_clients = 1 }

busy-Served : Served busy
unfolding tally
busy-Served = record { places = refl; counted = refl; distinct = λ mac. ground arith }

evt_disconnected-Served_example :
    Served (Clients.evt_disconnected services 42 busy).1
    × (tally (serving 42) (Clients.evt_disconnected services 42 busy).1.peers ≡ 0)
evt_disconnected-Served_example = evt_disconnected-Served services 42 busy busy-Served

abbrev booted : Daemon (List Node)
booted = (manager_start services [] none []).1

boots : manager_start services [] none [] ≡ (pos 0, booted)
unfolding manager_start parse_config parse_mac start_known parse_nodes parse_node start_services
    radio_init nrf24_str2mac gen_save_mac
boots = refl

Reach-Served_example : Served (timeout_iterator services (read_idle services booted))
Reach-Served_example =
    Reach-Served services (
      later (later (start [] none booted boots) (idle booted))
        (timeout (read_idle services booted)))

abbrev other_node : Node
other_node = record { node_mac = some (41 ∷ []); node_name = none }

write_file-remove_added_example :
    ((write_file services (42 ∷ []) (some []) (some (84 ∷ [])) (other_node ∷ [])).0 ≡ pos 0)
    × ((write_file services
          (42 ∷ [])
          none
          none
          (write_file services (42 ∷ []) (some []) (some (84 ∷ [])) (other_node ∷ [])).1).0
        ≡ pos 0)
    × (some (
          some
            (write_file services
              (42 ∷ [])
              none
              none
              (write_file services (42 ∷ []) (some []) (some (84 ∷ [])) (other_node ∷ [])).1).1)
        ≡ some (some (other_node ∷ [])))
unfolding all_lack
write_file-remove_added_example =
    write_file-remove_added services (42 ∷ []) [] (84 ∷ []) (other_node ∷ []) (other_node ∷ [])
      (λ nodes v. refl) refl refl

-- seven devices in the file, of which five get a slot
abbrev filed : List (ℕ × List ℕ)
filed = (7, 97 ∷ []) ∷ (9, []) ∷ (3, 98 ∷ []) ∷ (4, []) ∷ (5, []) ∷ (6, []) ∷ (8, []) ∷ []

parse_nodes_loads_example : parse_nodes services (started (map (node_of services) filed)) ≡ (
  pos 0,
  record (started (map (node_of services) filed)) {
    known_peers = map slot_of (take 5 filed);
    known_peers_size = 5;
  },
)
unfolding nrf24_str2mac
parse_nodes_loads_example =
    parse_nodes_loads services filed (map (node_of services) filed) (λ i device e. refl) refl
