-- ===== src/Comm/Socket/Handshake.antt =====
-- The connect request that `hal_comm_connect` builds, as `read_mgmt` reads it at the other side.
use knot_hal_source.Prelude.{
  ℕ, ◌+◌, ◌≤◌, ◌≡◌, refl, ap, ◌∙◌, List, [], ◌∷◌, pos, arith, true, bytes_eq, bytes_eq_refl, length,
  length-set, length-write_at, length-take, length-drop, drop, set, slice, write_at,
  slice-write_at_before, slice-write_at_self, slice-set_before,
}
use knot_hal_source.Link.{
  set_mgmt_type, pdu_type_connect_req, connect_src, connect_dst, connect_aa, connect_channel,
  mgmt_connect_size, evt_opcode, set_evt_opcode, evt_connected, evt_cn_src, evt_cn_dst, evt_cn_aa,
}
use knot_hal_source.Comm.State.{Hal, Mgmt, mgmt_size}
use knot_hal_source.Comm.Run.{Platform, ok}
use knot_hal_source.Comm.Mgmt.{connected_event, read_connect_req}
use knot_hal_source.Comm.Scheduler.{channel_raw}
use knot_hal_source.Comm.Socket.{connect_pdu, access_address}

-- The request's members, and the same members of an event
members_at :
    (i : ℕ) (b src dst aa : List ℕ) (v : ℕ)
    → length src ≡ 8
    → length dst ≡ 8
    → length aa ≡ 5
    → i + 22 ≤ length b
    → let p = write_at (set (write_at (write_at b i src) (i + 8) dst) (i + 16) v) (i + 17) aa in
      (slice i 8 p ≡ src) × (slice (i + 8) 8 p ≡ dst) × (slice (i + 17) 5 p ≡ aa)
members_at i b src dst aa v hs hd ha fits =
    let w = write_at b i src in
    let x = write_at w (i + 8) dst in
    let y = set x (i + 16) v in
    let lw = length-write_at b i src in
    let lx = length-write_at w (i + 8) dst in
    let ly = length-set x (i + 16) v in
    (
      slice-write_at_before i 8 y (i + 17) aa (omega arith)
          ∙ slice-set_before i 8 x (i + 16) v (omega arith)
          ∙ slice-write_at_before i 8 w (i + 8) dst (omega arith)
          ∙ slice-write_at_self 8 b i src (omega arith) (omega arith),
      slice-write_at_before (i + 8) 8 y (i + 17) aa (omega arith)
          ∙ slice-set_before (i + 8) 8 x (i + 16) v (omega arith)
          ∙ slice-write_at_self 8 w (i + 8) dst (omega arith) (omega arith),
      slice-write_at_self 5 y (i + 17) aa (omega arith) (omega arith),
    )

length-access_address : (mac : List ℕ) (n : ℕ) → length mac ≡ 8 → length (access_address mac n) ≡ 5
length-access_address mac n h =
    length-set (slice 3 5 mac) 0 _ ∙ omega (arith, length-take 5 (drop 3 mac), length-drop 3 mac)

opcode_of :
    (b x y z : List ℕ) (v : ℕ)
    → 3 ≤ length b
    → evt_opcode (
        write_at
          (set (write_at (write_at (set (set_evt_opcode evt_connected b) 2 0) 3 x) 11 y) 19 v)
          20
          z)
      ≡ evt_connected
opcode_of [] x y z v h = absurd (omega arith)
opcode_of (a ∷ []) x y z v h = absurd (omega arith)
opcode_of (a ∷ c ∷ []) x y z v h = absurd (omega arith)
opcode_of (a ∷ c ∷ e ∷ b) x y z v h = refl

module _ {W : Type 0} (pf : Platform W) (s : Hal W) (src b : List ℕ) (n : ℕ) where
  -- A connect request that names this side as its destination is taken, and leaves the event of a
  -- connection, ready to be read: its source is the sender's address, its destination is this side's
  -- address, and its access address is the one that the sender's stack derives for the socket.
  pub read_connect_req-connect_pdu :
      length src ≡ 8
      → length s.mac_local ≡ 8
      → length b ≡ mgmt_size
      → length s.mgmt.buffer_rx ≡ mgmt_size
      → (m : Mgmt) × (read_connect_req pf
            (1 + mgmt_connect_size)
            (connect_pdu src s.mac_local n b)
            s
          ≡ ok (pos (1 + mgmt_connect_size)) (record s { mgmt = m }))
        × (m.len_rx ≡ 25)
        × (evt_opcode m.buffer_rx ≡ evt_connected)
        × (evt_cn_src m.buffer_rx ≡ src)
        × (evt_cn_dst m.buffer_rx ≡ s.mac_local)
        × (evt_cn_aa m.buffer_rx ≡ access_address src n)
  unfolding read_connect_req connected_event
  read_connect_req-connect_pdu hs hd hb area =
      let p = connect_pdu src s.mac_local n b in
      let aa = access_address src n in
      let la = length-access_address src n hs in
      let t = set_mgmt_type pdu_type_connect_req b in
      let lt : length t ≡ 32 = length-set b 0 _ ∙ hb in
      let (ps, pd, pa) = members_at 1 t src s.mac_local aa channel_raw hs hd la (omega arith) in
      let e : bytes_eq (connect_dst p) s.mac_local ≡ true =
        ap (λ x. bytes_eq x s.mac_local) pd ∙ bytes_eq_refl s.mac_local in
      let h = set (set_evt_opcode evt_connected s.mgmt.buffer_rx) 2 0 in
      let lh : length h ≡ 32 = length-set _ 2 0 ∙ length-set _ 1 _ ∙ length-set _ 0 _ ∙ area in
      let (es, ed, ea) =
        members_at 3 h (connect_src p) (connect_dst p) (connect_aa p) (connect_channel p)
          (ap length ps ∙ hs) (ap length pd ∙ hd) (ap length pa ∙ la) (omega arith) in
      (
        connected_event p s.mgmt,
        rw e,
        refl,
        opcode_of s.mgmt.buffer_rx (connect_src p) (connect_dst p) (connect_aa p)
            (connect_channel p) (omega arith),
        es ∙ ps,
        ed ∙ pd,
        ea ∙ pa,
      )
