-- ===== src/Nrfd/Clients.antt =====
-- The clients of the daemon of src/nrfd/manager.c: `peers`, their connection on an event of presence,
-- their end, and what passes between the radio and the sockets to knotd.
use knot_hal_source.Prelude.{
  int8, low_byte, ℕ, zero, suc, ◌+◌, ◌%◌, ◌==◌, ltb, not, ◌&&◌, Bool, true, false, Option, none,
  some, List, [], ◌∷◌, ℤ, pos, negsuc, is_neg, eq_ℤ, bytes_eq, if◌then◌else◌, get_elem?, set,
}
use knot_hal_source.Comm.Errors.{eperm, einval, eusers}
use knot_hal_source.Nrfd.State.{Known, Client, Beacon, Daemon, Services, max_peers, unused}
use knot_hal_source.Nrfd.Devices.{check_permission}
use knot_hal_source.Clock.{hal_timeout}

abbrev pub is_used : Client → Bool
is_used p = not (eq_ℤ p.socket_fd unused)

-- the first client of the address, from index `i` on
unfoldable pub get_peer : ℕ → ℕ → List Client → ℤ
get_peer mac i [] = einval
get_peer mac i (p ∷ ps) = if is_used p && p.mac == mac then pos i else get_peer mac (suc i) ps

-- the first free place, from index `i` on
unfoldable pub get_peer_index : ℕ → List Client → ℤ
get_peer_index i [] = eusers
get_peer_index i (p ∷ ps) = if is_used p then get_peer_index (suc i) ps else pos i

-- `status` of the first slot with the address
unfoldable pub mark_connected : ℕ → List Known → List Known
mark_connected mac [] = []
mark_connected mac (k ∷ slots) =
    if mac == k.addr then record k { status = true } ∷ slots else k ∷ mark_connected mac slots

unfoldable pub lookup_beacon : List ℕ → List Beacon → Option Beacon
lookup_beacon key [] = none
lookup_beacon key (b ∷ bs) = if bytes_eq key b.key then some b else lookup_beacon key bs

unfoldable pub remove_beacon : List ℕ → List Beacon → List Beacon
remove_beacon key [] = []
remove_beacon key (b ∷ bs) =
    if bytes_eq key b.key then remove_beacon key bs else b ∷ remove_beacon key bs

unfoldable pub touch_beacon : List ℕ → ℕ → List Beacon → List Beacon
touch_beacon key now [] = []
touch_beacon key now (b ∷ bs) =
    if bytes_eq key b.key then record b { last_beacon = now } ∷ bs else b ∷ touch_beacon key now bs

module _ {W : Type 0} (sv : Services W) where
  unfoldable pub unix_connect : W → ℤ × W
  unix_connect w =
      let (sock, opened) = sv.open_socket false w in
      elim sock [
        | negsuc e ↦ (negsuc e, opened)
        | pos n ↦
            let (err, tried) = sv.connect (pos n) opened in
            if is_neg err then (err, tried) else (pos n, tried)
      ]

  unfoldable pub tcp_connect : W → ℤ × W
  tcp_connect w =
      let (sock, opened) = sv.open_socket true w in
      elim sock [
        | negsuc e ↦ (negsuc e, opened)
        | pos n ↦
            let (option, set_up) = sv.set_no_delay (pos n) opened in
            let (err, tried) = sv.connect (pos n) set_up in
            if is_neg option
            then (option, sv.close (pos n) set_up)
            else if is_neg err
            then (err, tried)
            else (pos n, tried)
      ]

  unfoldable pub connect_knotd : W → ℤ × W
  connect_knotd w = if sv.has_host w then tcp_connect w else unix_connect w

  -- the name of a device that is new in the table
  unfoldable pub beacon_name : List ℕ → List ℕ
  beacon_name name = elim (sv.make_valid name) [ none ↦ unknown_name | some valid ↦ valid ]
    where
      unknown_name : List ℕ
      unknown_name = 0x75 ∷ 0x6e ∷ 0x6b ∷ 0x6e ∷ 0x6f ∷ 0x77 ∷ 0x6e ∷ []

  -- The first part of `evt_presence`: the time of the device's last presence.
  unfoldable pub note_presence : ℕ → List ℕ → Daemon W → Daemon W
  note_presence mac name d =
      let key = sv.print_mac mac in
      let (now, w) = sv.hal_time_ms d.world in
      record d {
        peer_bcast_table = elim (lookup_beacon key d.peer_bcast_table) [
          | some b ↦ touch_beacon key now d.peer_bcast_table
          | none ↦
              record { key = key; name = beacon_name name; last_beacon = now } ∷ d.peer_bcast_table
        ];
        world = w;
      }

  -- The place at `i` with its two sockets and the watch. The socket of knotd is cut to an `int8_t`, and
  -- that of the radio is one of the few that the stack hands out.
  unfoldable pub attach_client : ℕ → ℕ → ℤ → ℤ → Daemon W → Daemon W
  attach_client i mac nsk sock d =
      let ksock = int8 (low_byte sock) in
      let (kwatch, w) = sv.add_watch i ksock d.world in
      record d {
        peers =
            set d.peers i (record { mac = mac; socket_fd = nsk; ksock = ksock; kwatch = kwatch });
        count_clients = (d.count_clients + 1) % 256;
        known_peers = mark_connected mac d.known_peers;
        peer_bcast_table = remove_beacon (sv.print_mac mac) d.peer_bcast_table;
        world = w;
      }

  -- The sockets of a new client at `i`.
  unfoldable pub accept_client : ℕ → ℕ → Daemon W → ℤ × Daemon W
  accept_client i mac d =
      let (nsk, opened) = sv.hal_comm_socket true d.world in
      let (sock, connected) = connect_knotd opened in
      if is_neg nsk
      then (nsk, record d { world = opened })
      else if is_neg sock
      then (sock, record d { world = sv.hal_comm_close nsk connected })
      else (pos i, attach_client i mac nsk sock (record d { world = connected }))

  -- the request to the client at the place
  unfoldable pub send_connect_to : ℤ → ℕ → Daemon W → ℤ × Daemon W
  send_connect_to (negsuc e) mac d = (negsuc e, d)
  send_connect_to (pos i) mac d = elim (get_elem? d.peers i) [
    | none ↦ (einval, d)
    | some p ↦
        let (r, w) = sv.hal_comm_connect p.socket_fd mac d.world in (r, record d { world = w })
  ]

  -- The place of the client, a new one if it has none.
  unfoldable pub place_client : ℕ → Daemon W → ℤ × Daemon W
  place_client mac d = elim (get_peer mac 0 d.peers) [
    | pos i ↦ (pos i, d)
    | negsuc e ↦ elim (get_peer_index 0 d.peers) [
      | negsuc e ↦ (negsuc e, d)
      | pos i ↦ accept_client i mac d
    ]
  ]

  unfoldable pub evt_presence : ℕ → List ℕ → Daemon W → ℤ × Daemon W
  evt_presence mac name d =
      let noted = note_presence mac name d in
      let placed = place_client mac noted in
      if is_neg (check_permission mac noted.known_peers)
      then (eperm, noted)
      else if ltb noted.count_clients max_peers
      then send_connect_to placed.0 mac placed.1
      else (eusers, noted)

  -- `kwatch_io_destroy`, which GLib calls when a watch is removed, for the client at `i`
  unfoldable pub kwatch_io_destroy : ℕ → Daemon W → Daemon W
  kwatch_io_destroy i d = elim (get_elem? d.peers i) [
    | none ↦ d
    | some p ↦ record d {
      peers = set d.peers i (record p { socket_fd = unused; kwatch = 0 });
      count_clients = (d.count_clients + 255) % 256;
      world = sv.close p.ksock (sv.hal_comm_close p.socket_fd d.world);
    }
  ]

  unfoldable pub evt_disconnected : ℕ → Daemon W → ℤ × Daemon W
  evt_disconnected mac d =
      if d.count_clients == 0 then (einval, d) else (elim (get_peer mac 0 d.peers) [
        | negsuc e ↦ (negsuc e, d)
        | pos i ↦ (pos 0, kwatch_io_destroy i d)
      ])

  -- The watch of the client at `i`, with the bytes that knotd sent; `none` if the socket is gone or
  -- the read fails with an error. A read that ends with another status and without an error is not
  -- modelled: the log then follows a null pointer.
  unfoldable pub kwatch_io_read : ℕ → Option (List ℕ) → Daemon W → Bool × Daemon W
  kwatch_io_read i none d = (false, kwatch_io_destroy i d)
  kwatch_io_read i (some buffer) d = elim (get_elem? d.peers i) [
    | none ↦ (true, d)
    | some p ↦ (true, record d { world = (sv.hal_comm_write p.socket_fd buffer d.world).1 })
  ]

  -- one message of a client, handed on to knotd
  unfoldable pub client_read : Client → W → W
  client_read p w =
      let (rx, buffer, taken) = sv.hal_comm_read p.socket_fd w in
      if is_used p then (if is_neg rx then taken else (sv.write p.ksock buffer taken).1) else w

  unfoldable pub clients_read_from : List Client → W → W
  clients_read_from [] w = w
  clients_read_from (p ∷ ps) w = clients_read_from ps (client_read p w)

  unfoldable pub clients_read : Daemon W → Daemon W
  clients_read d =
      if d.count_clients == 0 then d else record d { world = clients_read_from d.peers d.world }

  -- `close_clients` from index `i` on, for `n` places
  unfoldable pub close_clients : ℕ → ℕ → Daemon W → Daemon W
  close_clients i zero d = d
  close_clients i (suc n) d =
      let rest = close_clients (suc i) n in
      elim (get_elem? d.peers i) [
        | none ↦ rest d
        | some p ↦ if is_used p then rest (kwatch_io_destroy i d) else rest d
      ]

-- `check_timeout` in `timeout_iterator`: a device that was silent for ten seconds leaves the table.
abbrev pub bcast_timeout : ℕ
bcast_timeout = 10000

module _ {W : Type 0} (sv : Services W) where
  unfoldable pub remove_silent : List Beacon → W → List Beacon × W
  remove_silent [] w = ([], w)
  remove_silent (b ∷ bs) w =
      let (now, told) = sv.hal_time_ms w in
      let (kept, after_rest) = remove_silent bs told in
      (if hal_timeout now b.last_beacon bcast_timeout then kept else b ∷ kept, after_rest)

  unfoldable pub timeout_iterator : Daemon W → Daemon W
  timeout_iterator d =
      let (kept, w) = remove_silent d.peer_bcast_table d.world in
      record d { peer_bcast_table = kept; world = w }
