-- ===== src/Nrfd/State.antt =====
-- The static variables of src/nrfd/manager.c, and what it calls: json-c, GLib with D-Bus, the sockets of
-- the system, and hal/comm.h.
use knot_hal_source.Prelude.{ℕ, Option, List, ℤ, Bool, negsuc}

-- a slot of `adapter.known_peers`; an address is the `uint64_t` of its union
pub record Known : Type 0 where
  pub addr : ℕ
  pub registration_id : ℕ
  pub alias : List ℕ
  pub status : Bool

-- `struct peer`
pub record Client : Type 0 where
  pub mac : ℕ
  pub socket_fd : ℤ
  pub ksock : ℤ
  pub kwatch : ℕ

-- an entry of `peer_bcast_table`, with its key
pub record Beacon : Type 0 where
  pub key : List ℕ
  pub name : List ℕ
  pub last_beacon : ℕ

pub record Daemon (W : Type 0) : Type 0 where
  pub mgmtfd : ℤ
  pub adapter_mac : ℕ
  pub powered : Bool
  pub known_peers : List Known
  pub known_peers_size : ℕ
  pub peers : List Client
  pub count_clients : ℕ
  pub peer_bcast_table : List Beacon
  pub world : W

-- an element of the array "keys" of the file of devices: its members "mac" and "name"
pub record Node : Type 0 where
  pub node_mac : Option (List ℕ)
  pub node_name : Option (List ℕ)

-- the configuration file: its object "radio" with the members "channel", "TxPower" and "mac", which may
-- be null
pub record RadioConfig : Type 0 where
  pub channel : Option ℤ
  pub tx_power : Option ℤ
  pub radio_mac : Option (Option (List ℕ))

-- The calls over a world of their own. `scan_mac` and `print_mac` are `sscanf` and `sprintf` with the
-- format of an address: the number of bytes read with the address, and the string.
-- `load_keys` is the file of devices, if it can be read, and its array "keys", if there is one.
-- `load_file` reads a file to its end, `parse_json` is the configuration if it is one, `save_mac`
-- writes it with another address, `own_name` starts the service on D-Bus and
-- `unown_name` ends it, and `resolve` looks the
-- host up and sets the address that `has_host` tells of. `make_valid` is `g_utf8_make_valid`.
-- `hal_comm_socket` opens a raw socket for `true`, and one for management otherwise. `frame` is what
-- the 256 bytes of an uninitialised buffer hold. A negative descriptor is an error of the system.
pub record Services (W : Type 0) : Type 0 where
  pub scan_mac : List ℕ → ℕ × ℕ
  pub print_mac : ℕ → List ℕ
  pub make_valid : List ℕ → Option (List ℕ)
  pub load_keys : W → Option (Option (List Node))
  pub can_write : W → Bool
  pub save_keys : List Node → W → W
  pub register_object : ℕ → W → ℕ × W
  pub register_adapter : W → ℕ × W
  pub unregister_object : ℕ → W → Bool × W
  pub hal_comm_init : List ℕ → ℕ → W → ℤ × W
  pub hal_comm_deinit : W → W
  pub hal_comm_socket : Bool → W → ℤ × W
  pub hal_comm_close : ℤ → W → W
  pub hal_comm_connect : ℤ → ℕ → W → ℤ × W
  pub hal_comm_read : ℤ → W → ℤ × List ℕ × W
  pub hal_comm_write : ℤ → List ℕ → W → ℤ × W
  pub has_host : W → Bool
  pub open_socket : Bool → W → ℤ × W
  pub set_no_delay : ℤ → W → ℤ × W
  pub connect : ℤ → W → ℤ × W
  pub close : ℤ → W → W
  pub write : ℤ → List ℕ → W → ℤ × W
  pub add_watch : ℕ → ℤ → W → ℕ × W
  pub hal_time_ms : W → ℕ × W
  pub load_file : List ℕ → W → Option (List ℕ)
  pub parse_json : List ℕ → Option (Option RadioConfig)
  pub save_mac : List ℕ → List ℕ → List ℕ → W → W
  pub hal_getrandom : W → ℕ × W
  pub own_name : ℕ → W → W
  pub unown_name : W → W
  pub resolve : List ℕ → W → ℤ × W
  pub frame : List ℕ

abbrev pub max_peers : ℕ
max_peers = 5

-- no socket
abbrev pub unused : ℤ
unused = negsuc 0
