-- ===== src/Nrfd/Radio.antt =====
-- The radio under the daemon of src/nrfd/manager.c: its start, its events, and its end.
use knot_hal_source.Prelude.{
  ℕ, ◌+◌, ◌*◌, ◌==◌, false, List, [], ◌∷◌, ℤ, pos, negsuc, is_neg, if◌then◌else◌, bit_and, slice,
  drop, overlay,
}
use knot_hal_source.Link.{evt_opcode, evt_bcast_presence, evt_disconnected}
use knot_hal_source.Nrfd.State.{Daemon, Services, max_peers}
use knot_hal_source.Nrfd.Clients
use knot_hal_source.Nrfd.Clients.{evt_presence, clients_read, close_clients}

abbrev pub eproto : ℤ
eproto = negsuc 70

-- the `uint64_t` of an address
unfoldable pub uint64 : List ℕ → ℕ
uint64 [] = 0
uint64 (b ∷ bytes) = b + 256 * uint64 bytes

-- The bytes before the first zero. The buffer is taken to hold one.
unfoldable pub c_string : List ℕ → List ℕ
c_string [] = []
c_string (b ∷ bytes) = let rest = c_string bytes in if b == 0 then [] else b ∷ rest

module _ {W : Type 0} (sv : Services W) where
  -- the part of `mgmt_read` after its reading
  unfoldable pub mgmt_event : List ℕ → Daemon W → ℤ × Daemon W
  mgmt_event buffer d =
      if bit_and (evt_opcode buffer) 0x0200 == 0
      then (eproto, d)
      else if evt_opcode buffer == evt_bcast_presence
      then (pos 0, (evt_presence sv (uint64 (slice 3 8 buffer)) (c_string (drop 11 buffer)) d).1)
      else if evt_opcode buffer == evt_disconnected
      then (pos 0, (Clients.evt_disconnected sv (uint64 (slice 3 8 buffer)) d).1)
      else (pos 0, d)

  unfoldable pub mgmt_read : Daemon W → ℤ × Daemon W
  mgmt_read d =
      let (rbytes, bytes, w) = sv.hal_comm_read d.mgmtfd d.world in
      let seen = record d { world = w } in
      if is_neg rbytes then (rbytes, seen) else mgmt_event (overlay sv.frame bytes) seen

  unfoldable pub read_idle : Daemon W → Daemon W
  read_idle d = clients_read sv (mgmt_read d).1

  -- The arguments for the channel and the power are not used.
  unfoldable pub radio_init : ℕ → Daemon W → ℤ × Daemon W
  radio_init mac d =
      let (err, ready) = sv.hal_comm_init (0x4e ∷ 0x52 ∷ 0x46 ∷ 0x30 ∷ []) mac d.world in
      let (fd, opened) = sv.hal_comm_socket false ready in
      if is_neg err
      then (err, record d { world = ready })
      else if is_neg fd
      then (fd, record d { mgmtfd = fd; world = sv.hal_comm_deinit opened })
      else (pos 0, record d { mgmtfd = fd; world = opened })

  unfoldable pub radio_stop : Daemon W → Daemon W
  radio_stop d =
      let closed = close_clients sv 0 max_peers d in
      record closed { world = sv.hal_comm_deinit (sv.hal_comm_close closed.mgmtfd closed.world) }
