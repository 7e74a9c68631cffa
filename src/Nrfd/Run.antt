-- ===== src/Nrfd/Run.antt =====
-- The daemon of src/nrfd/manager.c at work: its main loop calls one handler at a time.
use knot_hal_source.Prelude.{
  ℕ, ◌≡◌, refl, arith, ◌==◌, Bool, Bool-cases, inl, inr, true, Option, some, List, pos, is_neg,
  bit_and, slice, drop, overlay, get_elem?,
}
use knot_hal_source.Nrfd.State.{Client, Daemon, Services}
use knot_hal_source.Nrfd.Devices.{
  add_known_device, remove_known_device, insert_device, new_device_object, store_device,
}
use knot_hal_source.Nrfd.Clients.{is_used, kwatch_io_read, clients_read, timeout_iterator}
use knot_hal_source.Link.{evt_opcode}
use knot_hal_source.Nrfd.Radio.{uint64, c_string, mgmt_event, mgmt_read, read_idle}
use knot_hal_source.Nrfd.Start.{manager_start}
use knot_hal_source.Nrfd.Bus.{on_bus_acquired, on_bus_acquired-clients}
use knot_hal_source.Nrfd.Starting.{SameClients, Served-by, manager_start-Served}
use knot_hal_source.Nrfd.Connected.{
  Served, evt_presence-Served, evt_disconnected-Served, kwatch_io_read-Served,
}

-- One handler of the main loop. GLib calls the watch of a place only while there is one.
pub data Step {W : Type 0} (sv : Services W) : Daemon W → Daemon W → Type 0 where
  watch :
      (j : ℕ) (p : Client) (buffer : Option (List ℕ)) (d : Daemon W)
      → get_elem? d.peers j ≡ some p
      → is_used p ≡ true
      → Step sv d (kwatch_io_read sv j buffer d).1
  idle : (d : Daemon W) → Step sv d (read_idle sv d)
  timeout : (d : Daemon W) → Step sv d (timeout_iterator sv d)
  addition :
      (mac key name : List ℕ) (d : Daemon W) (r : Bool × Daemon W)
      → add_known_device sv mac key name d ≡ some r
      → Step sv d r.1
  acquired : (d t : Daemon W) → on_bus_acquired sv d ≡ some t → Step sv d t
  removal : (mac : List ℕ) (d : Daemon W) → Step sv d (remove_known_device sv mac d).1

-- What the daemon may have become since its start.
pub data Reach {W : Type 0} (sv : Services W) (w : W) : Daemon W → Type 0 where
  start :
      (file : List ℕ) (host : Option (List ℕ)) (d : Daemon W)
      → manager_start sv file host w ≡ (pos 0, d)
      → Reach sv w d
  later : {d t : Daemon W} → Reach sv w d → Step sv d t → Reach sv w t

module _ {W : Type 0} (sv : Services W) where
  remove_known_device-clients :
      (mac : List ℕ) (d : Daemon W) → SameClients (remove_known_device sv mac d).1 d
  unfolding remove_known_device
  remove_known_device-clients mac d = (ground arith, ground arith)

  clients_read-clients : (d : Daemon W) → SameClients (clients_read sv d) d
  unfolding clients_read
  clients_read-clients d = (ground arith, ground arith)

  add_known_device-clients :
      (mac key name : List ℕ) (d : Daemon W) (r : Bool × Daemon W)
      → add_known_device sv mac key name d ≡ some r
      → SameClients r.1 d
  unfolding add_known_device insert_device new_device_object store_device
  add_known_device-clients mac key name d r e = (ground arith, ground arith)

  mgmt_event-Served :
      (buffer : List ℕ) (d : Daemon W) → Served d → Served (mgmt_event sv buffer d).1
  unfolding mgmt_event
  mgmt_event-Served buffer d ok =
      let mac = uint64 (slice 3 8 buffer) in
      let connected = (evt_presence-Served sv mac (c_string (drop 11 buffer)) d ok).0 in
      let ended = (evt_disconnected-Served sv mac d ok).0 in
      elim (Bool-cases (bit_and (evt_opcode buffer) 0x0200 == 0)) [
        | inl e ↦ rw e ok
        | inr e ↦ elim (Bool-cases (evt_opcode buffer == 0x0205)) [
          | inl f ↦ rw (e, f) connected
          | inr f ↦ elim (Bool-cases (evt_opcode buffer == 0x0202)) [
            | inl g ↦ rw (e, f, g) ended
            | inr g ↦ rw (e, f, g) ok
          ]
        ]
      ]

  read_idle-Served : (d : Daemon W) → Served d → Served (read_idle sv d)
  unfolding read_idle mgmt_read
  read_idle-Served d ok =
      let (rbytes, bytes, w) = sv.hal_comm_read d.mgmtfd d.world in
      let seen = record d { world = w } in
      elim (Bool-cases (is_neg rbytes)) [
        | inl e ↦ rw e (Served-by (clients_read sv seen) seen (clients_read-clients seen) ok)
        | inr e ↦
            let t = (mgmt_event sv (overlay sv.frame bytes) seen).1 in
            rw e (
              Served-by (clients_read sv t) t (clients_read-clients t)
                (mgmt_event-Served (overlay sv.frame bytes) seen ok))
      ]

  timeout_iterator-Served : (d : Daemon W) → Served d → Served (timeout_iterator sv d)
  unfolding timeout_iterator
  timeout_iterator-Served d ok = Served-by (timeout_iterator sv d) d (refl, refl) ok

  -- Every handler keeps the places of the clients in order.
  Step-Served : {d t : Daemon W} → Step sv d t → Served d → Served t
  Step-Served (watch j p buffer d at used) ok = kwatch_io_read-Served sv j buffer p d at used ok
  Step-Served (idle d) ok = read_idle-Served d ok
  Step-Served (timeout d) ok = timeout_iterator-Served d ok
  Step-Served (addition mac key name d r e) ok =
      Served-by r.1 d (add_known_device-clients mac key name d r e) ok
  Step-Served (acquired d t e) ok = Served-by t d (on_bus_acquired-clients sv d t e) ok
  Step-Served (removal mac d) ok =
      Served-by (remove_known_device sv mac d).1 d (remove_known_device-clients mac d) ok

  -- Once the daemon has started, and whatever events of the radio, data of knotd, timeouts and
  -- requests on D-Bus come, in whatever order: the daemon has five places for clients, counts those
  -- that are taken, and serves no address at two of them.
  pub Reach-Served : {w : W} {d : Daemon W} → Reach sv w d → Served d
  Reach-Served {w} (start file host d e) = manager_start-Served sv file host w d e
  Reach-Served (later r step) = Step-Served step (Reach-Served r)
