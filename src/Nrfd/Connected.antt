-- ===== src/Nrfd/Connected.antt =====
-- The events of src/nrfd/manager.c keep the places of the clients in order.
use knot_hal_source.Prelude.{
  ℕ, ◌+◌, ◌≡◌, ◌⊎◌, refl, ap, ◌∙◌, arith, ◌==◌, ltb, not, true, false, inl, inr, Bool-cases, Option,
  none, some, List, ℤ, pos, negsuc, is_neg, eq_ℤ, int8, low_byte, get_elem?,
}
use knot_hal_source.Nrfd.State.{Client, Daemon, Services, unused}
use knot_hal_source.Nrfd.Devices.{check_permission}
use knot_hal_source.Nrfd.Clients.{
  is_used, get_peer, connect_knotd, note_presence, attach_client, accept_client, send_connect_to,
  place_client, evt_presence, kwatch_io_destroy, evt_disconnected, kwatch_io_read,
}
use knot_hal_source.Nrfd.Table.{tally, tally-set}
use knot_hal_source.Nrfd.Places.{
  IsClients, serving, serving-le-taken, get_peer-at, get_peer_index-at, filled-IsClients,
  cleared-IsClients, cleared-serving,
}

abbrev pub Served : {W : Type 0} → Daemon W → Type 0
Served d = IsClients d.peers d.count_clients

-- The clients are as they were, or this address is one of them now.
abbrev pub Joined : {W : Type 0} → ℕ → Daemon W → Daemon W → Type 0
Joined mac d t =
    ((t.peers ≡ d.peers) × (t.count_clients ≡ d.count_clients))
    ⊎ ((tally (serving mac) d.peers ≡ 0) × (tally (serving mac) t.peers ≡ 1))

not_negative-used : (fd : ℤ) → is_neg fd ≡ false → not (eq_ℤ fd unused) ≡ true
not_negative-used (pos n) e = refl
not_negative-used (negsuc n) e = cc

module _ {W : Type 0} (sv : Services W) where
  accept_client-Served :
      (j mac : ℕ) (d : Daemon W) (free : Client)
      → get_elem? d.peers j ≡ some free
      → is_used free ≡ false
      → tally (serving mac) d.peers ≡ 0
      → Served d
      → Served (accept_client sv j mac d).1 × Joined mac d (accept_client sv j mac d).1
  unfolding accept_client attach_client
  accept_client-Served j mac d free at unused_place fresh ok =
      let nsk = sv.hal_comm_socket true d.world in
      let sock = connect_knotd sv nsk.1 in
      elim (Bool-cases (is_neg nsk.0)) [
        | inl e ↦ rw e (ok, inl (refl, refl))
        | inr e ↦ elim (Bool-cases (is_neg sock.0)) [
          | inl f ↦ rw (e, f) (ok, inl (refl, refl))
          | inr f ↦
              let new : Client = record {
                mac = mac;
                socket_fd = nsk.0;
                ksock = int8 (low_byte sock.0);
                kwatch = (sv.add_watch j (int8 (low_byte sock.0)) sock.1).0;
              } in
              let used = not_negative-used nsk.0 e in
              rw (e, f)
                (
                  filled-IsClients j free new d.peers d.count_clients at unused_place used fresh ok,
                  inr (fresh, ground (arith, tally-set (serving mac) d.peers j free new at)),
                )
        ]
      ]

  place_client-Served :
      (mac : ℕ) (d : Daemon W)
      → Served d
      → Served (place_client sv mac d).1 × Joined mac d (place_client sv mac d).1
  unfolding place_client
  place_client-Served mac d ok = elim (get_peer-at mac 0 d.peers) [
    | inr (j, p, found, at, same) ↦ rw (place_client, found) (ok, inl (refl, refl))
    | inl absent ↦ elim (get_peer_index-at 0 d.peers) [
      | inl full ↦ rw (place_client, absent.0, full) (ok, inl (refl, refl))
      | inr (j, p, found, at, free) ↦
          let here : 0 + j ≡ j = omega arith in
          rw (place_client, absent.0, found, here)
            (accept_client-Served j mac d p at free absent.1 ok)
    ]
  ]

  send_connect_to-peers :
      (i : ℤ) (mac : ℕ) (d : Daemon W)
      → ((send_connect_to sv i mac d).1.peers ≡ d.peers)
        × ((send_connect_to sv i mac d).1.count_clients ≡ d.count_clients)
  unfolding send_connect_to
  send_connect_to-peers (negsuc e) mac d = (refl, refl)
  send_connect_to-peers (pos i) mac d = ground arith

  -- After the request to the client, the places are those of before.
  requested :
      (i : ℤ) (mac : ℕ) (d t : Daemon W)
      → Served t × Joined mac d t
      → Served (send_connect_to sv i mac t).1 × Joined mac d (send_connect_to sv i mac t).1
  requested i mac d t (ok, joined) =
      let (peers, count) = send_connect_to-peers i mac t in rw (peers, count) (ok, joined)

  -- With the places of the clients in order (five, as many taken as counted, no address twice), a
  -- presence event leaves them in order, whether it is refused, fails half-way or connects. The
  -- clients are as they were, or the sender, who has permission, is one of them now and was
  -- not before.
  pub evt_presence-Served :
      (mac : ℕ) (name : List ℕ) (d : Daemon W)
      → Served d
      → Served (evt_presence sv mac name d).1
        × (((evt_presence sv mac name d).1.peers ≡ d.peers)
            ⊎ ((is_neg (check_permission mac d.known_peers) ≡ false)
                × (tally (serving mac) d.peers ≡ 0)
                × (tally (serving mac) (evt_presence sv mac name d).1.peers ≡ 1)))
  unfolding evt_presence note_presence
  evt_presence-Served mac name d ok =
      let noted = note_presence sv mac name d in
      let placed = place_client sv mac noted in
      let end = requested placed.0 mac noted placed.1 (place_client-Served mac noted ok) in
      elim (Bool-cases (is_neg (check_permission mac d.known_peers))) [
        | inl e ↦ rw e (ok, inl refl)
        | inr e ↦ elim (Bool-cases (ltb d.count_clients 5)) [
          | inr full ↦ rw (e, full) (ok, inl refl)
          | inl room ↦
              rw (e, room)
                (end.0, elim end.1 [ inl same ↦ inl same.0 | inr new ↦ inr (refl, new.0, new.1) ])
        ]
      ]

  pub kwatch_io_destroy-Served :
      (j : ℕ) (p : Client) (d : Daemon W)
      → get_elem? d.peers j ≡ some p
      → is_used p ≡ true
      → Served d
      → Served (kwatch_io_destroy sv j d)
  unfolding kwatch_io_destroy
  kwatch_io_destroy-Served j p d at used ok =
      rw (kwatch_io_destroy, at) (cleared-IsClients j p d.peers d.count_clients at used ok)

  -- From places in order, a disconnection leaves them in order, and the address is a client no more.
  pub evt_disconnected-Served :
      (mac : ℕ) (d : Daemon W)
      → Served d
      → Served (evt_disconnected sv mac d).1
        × (tally (serving mac) (evt_disconnected sv mac d).1.peers ≡ 0)
  unfolding evt_disconnected kwatch_io_destroy
  evt_disconnected-Served mac d ok = elim (Bool-cases (d.count_clients == 0)) [
    | inl e ↦
        let none_served = serving-le-taken mac d.peers in
        rw (evt_disconnected, e) (ok, ground (arith, ok.counted, none_served))
    | inr e ↦ elim (get_peer-at mac 0 d.peers) [
      | inl absent ↦ rw (evt_disconnected, e, absent.0) (ok, absent.1)
      | inr (j, p, found, at, same) ↦
          let here : 0 + j ≡ j = omega arith in
          let there : get_peer mac 0 d.peers ≡ pos j = found ∙ ap pos here in
          rw (evt_disconnected, kwatch_io_destroy, e, there, at)
            (
              cleared-IsClients j p d.peers d.count_clients at (ground arith) ok,
              cleared-serving j mac p d.peers d.count_clients at same ok,
            )
    ]
  ]

  pub kwatch_io_read-Served :
      (j : ℕ) (buffer : Option (List ℕ)) (p : Client) (d : Daemon W)
      → get_elem? d.peers j ≡ some p
      → is_used p ≡ true
      → Served d
      → Served (kwatch_io_read sv j buffer d).1
  unfolding kwatch_io_read
  kwatch_io_read-Served j none p d at used ok = kwatch_io_destroy-Served j p d at used ok
  kwatch_io_read-Served j (some buffer) p d at used ok = rw (kwatch_io_read, at) ok
