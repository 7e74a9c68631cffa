-- ===== src/Comm/Invariant/Control.antt =====
-- The control packets, the data pipes and the beacon keep the state valid.
use knot_hal_source.Prelude.{
  ltb, inl, inr, Bool-cases, none, ap, sym, ℕ, zero, suc, ◌+◌, ◌≤◌, ◌<◌, ◌≡◌, refl, ◌∙◌, not, ◌&&◌,
  ◌||◌, bytes_eq, ◌*◌, ◌%◌, List, pos, arith, ◌==◌, length, length-set, length-write_at, set,
}
use knot_hal_source.Link.{
  keepalive_timeout_ms, keepalive_send_ms, lid, lid_control, lid_data_frag, lid_data_end,
  ctrl_opcode, ctrl_src_addr, ctrl_dst_addr, op_keepalive_req, op_keepalive_rsp, op_disconnect,
}
use knot_hal_source.Clock.{hal_timeout}
use knot_hal_source.Comm.State.{Hal, Peer, Mgmt}
use knot_hal_source.Comm.Run.{Platform, peer_at, peer_at-set, pure, ◌>>◌}
use knot_hal_source.Comm.Control.{write_disconnect, write_keepalive, check_keepalive}
use knot_hal_source.Comm.Raw.{
  receive_data, disconnected_event, raw_control, raw_packet, read_raw_loop, read_raw,
  reset_keepalive,
}
use knot_hal_source.Comm.Raw.Receive.{
  IsSound, receive_data-IsSound, receive_data-Taken, reset_keepalive-IsSound,
}
use knot_hal_source.Comm.Invariant.{
  Hazard, short_packet, IsDriver, IsSocket, IsMgmt, IsValid, IsSound-at, socket_peer,
}
use knot_hal_source.Comm.Invariant.Rules.{
  Ensures-taken, Ensures, done, Ensures-some, Ensures-if, Ensures-read, Kept, Keeps, keeps_then,
  keeps_from, Kept-refl, Kept-trans, Kept-world, Kept-peer, Kept-mgmt,
}

pub disconnected_event-IsMgmt :
    (mac : List ℕ) (m : Mgmt) → IsMgmt m → IsMgmt (disconnected_event mac m)
unfolding disconnected_event
disconnected_event-IsMgmt mac m v = record {
  rx_area = length-write_at _ 3 mac ∙ length-set _ 1 _ ∙ length-set _ 0 _ ∙ v.rx_area;
  tx_area = v.tx_area;
  rx_fits = omega arith;
  tx_fits = v.tx_fits;
}

-- The keepalive count and anchor are no part of the invariant.
same_lengths : (p : Peer) (k : ℕ) → IsSound p → IsSound (record p { keepalive = k })
same_lengths p k v = omega arith

anchored : (p : Peer) (t : ℕ) → IsSound p → IsSound (record p { keepalive_anchor = t })
anchored p t v = omega arith

-- A packet that is not taken has a single byte.
single :
    (p : Peer) (ilen : ℕ) (pl : List ℕ)
    → IsSound p
    → length pl ≡ 32
    → 1 ≤ ilen
    → ilen ≤ 32
    → receive_data p ilen pl ≡ none
    → ilen ≡ 1
single p ilen pl v area lo hi e = elim (Bool-cases (ltb ilen 2)) [
  | inl small ↦ ground arith
  | inr big ↦
      let (r, found, _) = receive_data-IsSound p ilen pl v area (ground arith) hi in
      absurd (ground (arith, sym e ∙ found))
]

module _ {W : Type 0} (pf : Platform W) (pending : W → ℕ) (d : IsDriver pf pending) where
  pub write_disconnect-Keeps :
      (n : ℕ) (dst src : List ℕ) → Keeps (Hazard pf) pending (write_disconnect pf n dst src)
  unfolding write_disconnect
  write_disconnect-Keeps n dst src s v = done (Kept-world s _ v (d.write_adds _ _ _ _ _ v.opened))

  pub write_keepalive-Keeps :
      (n op : ℕ) (dst src : List ℕ) → Keeps (Hazard pf) pending (write_keepalive pf n op dst src)
  unfolding write_keepalive
  write_keepalive-Keeps n op dst src s v = done (Kept-world s _ v (d.write_adds _ _ _ _ _ v.opened))

  pub check_keepalive-Keeps :
      (n : ℕ) → IsSocket n → Keeps (Hazard pf) pending (check_keepalive pf n)
  unfolding check_keepalive
  check_keepalive-Keeps n h s v = Ensures-some (peer_at n s.peers) _ _ (socket_peer n s h v) λ p e.
      let now : ℕ = (pf.time_ms s.world).0 in
      let k = Kept-world s (pf.time_ms s.world).1 v (d.time_adds s.world) in
      let l =
        Kept-peer n _ (record p { keepalive = (p.keepalive + 1) % 256 }) k.valid e refl
          (same_lengths p _ (IsSound-at n s v e)) in
      Ensures-if (hal_timeout now p.keepalive_anchor keepalive_timeout_ms) _ _ _ (λ _. done k)
        λ _.
          Ensures-if (p.keepalive == 0) _ _ _ (λ _. done k)
            λ _.
              Ensures-if
                (not (hal_timeout now p.keepalive_anchor (p.keepalive * keepalive_send_ms))) _ _ _
                (λ _. done k)
                λ _. keeps_from (Kept-trans k l) (write_keepalive-Keeps n _ _ _ _ l.valid)

  pub raw_control-Keeps :
      (n : ℕ) (pl : List ℕ) → IsSocket n → Keeps (Hazard pf) pending (raw_control pf n pl)
  unfolding raw_control
  raw_control-Keeps n pl h s v = Ensures-some (peer_at n s.peers) _ _ (socket_peer n s h v) λ p e.
      Ensures-if
        ((ctrl_opcode pl == op_keepalive_req)
          && (bytes_eq (ctrl_src_addr pl) p.mac && bytes_eq (ctrl_dst_addr pl) s.mac_local))
        _ _ _
        (λ _. keeps_then (write_keepalive-Keeps n _ _ _ s v) λ a t k. done (Kept-refl t k.valid))
        λ _.
          Ensures-if (ctrl_opcode pl == op_keepalive_rsp) _ _ _
            (λ _. done (
              Kept-peer n s (reset_keepalive p) v e (ground arith)
                (reset_keepalive-IsSound p (IsSound-at n s v e))))
            λ _.
              Ensures-if ((ctrl_opcode pl == op_disconnect) && (s.mgmt.len_rx == 0)) _ _ _
                (λ _. done (
                  Kept-mgmt s _ v
                    (disconnected_event-IsMgmt (ctrl_src_addr pl) s.mgmt v.mgmt_sound)))
                λ _. done (Kept-refl s v)

  pub raw_packet-Keeps :
      (n ilen : ℕ) (pl : List ℕ)
      → IsSocket n
      → length pl ≡ 32
      → (ilen ≡ 1 → Hazard pf)
      → 1 ≤ ilen
      → ilen ≤ 32
      → Keeps (Hazard pf) pending (raw_packet pf n ilen pl)
  unfolding raw_packet
  raw_packet-Keeps n ilen pl h area short lo hi s v =
      Ensures-some (peer_at n s.peers) _ _ (socket_peer n s h v) λ p e.
        let now : ℕ = (pf.time_ms s.world).0 in
        let q : Peer = record p { keepalive_anchor = now } in
        let sq = anchored p now (IsSound-at n s v e) in
        let k0 = Kept-world s (pf.time_ms s.world).1 v (d.time_adds s.world) in
        let k = Kept-trans k0 (Kept-peer n _ q k0.valid e refl sq) in
        Ensures-if (lid pl == lid_control) _ _ _
          (λ _. keeps_from k (raw_control-Keeps n pl h _ k.valid))
          λ _.
            Ensures-if ((lid pl == lid_data_frag) || (lid pl == lid_data_end)) _ _ _
              (λ _.
                Ensures-taken (receive_data q ilen pl) _ _
                  (λ none_is. short (single q ilen pl sq area lo hi none_is))
                  λ r f.
                    let l = receive_data-Taken q ilen pl sq f in
                    done
                      (Kept-trans k (Kept-peer n _ r k.valid (peer_at-set n s.peers q e) l.1 l.0)))
              λ _. done k

  -- The loop ends: each round takes away one of the packets.
  pub read_raw_loop-Keeps :
      (fuel n : ℕ) (pl : List ℕ) (s : Hal W)
      → IsSocket n
      → length pl ≡ 32
      → pending s.world < fuel
      → IsValid s
      → Ensures (Hazard pf) (λ _ t. Kept pending s t) (read_raw_loop pf fuel n pl s)
  unfolding read_raw_loop
  read_raw_loop-Keeps zero n pl s h area fits v = elim fits [ ]
  read_raw_loop-Keeps (suc fuel) n pl s h area fits v =
      let w : W = (pf.phy_read s.driver_index n pl s.world).2 in
      let pl' : List ℕ = (pf.phy_read s.driver_index n pl s.world).1 in
      let k = Kept-world s w v (d.read_adds s.driver_index n pl s.world v.opened) in
      let area' = d.read_area s.driver_index n pl s.world v.opened area in
      Ensures-read (pf.phy_read s.driver_index n pl s.world).0 (pure (pos 0))
        (λ k. raw_packet pf n (suc k) pl' >> read_raw_loop pf fuel n pl') (λ _. pure (pos 0))
        (record s { world = w }) (done k)
        (λ b e. keeps_from k (
          keeps_then
            (raw_packet-Keeps n (suc b) pl' h area'
              (λ one. short_packet s.driver_index n pl s.world v.opened h.low (e ∙ ap pos one))
              (omega arith) (d.read_length s.driver_index n pl s.world (suc b) v.opened e) _
              k.valid)
            λ _ t l.
              read_raw_loop-Keeps fuel n pl' t h area'
                (omega (arith, l.fewer, d.read_drains s.driver_index n pl s.world b v.opened e))
                l.valid))
        λ _. done k

  -- On a driver as described by `IsDriver`, from a valid state, which has the driver open, at one of
  -- the five sockets and with more fuel than packets that the driver has left: `read_raw` takes packets
  -- until there is none, and ends in a valid state, with the state of `running` and the bitmask as
  -- they were and no more packets left than before. It faults only if the open driver can hand over a
  -- packet that overruns a buffer: one of a single byte on a data pipe, or a presence packet of more than 30.
  pub read_raw-Keeps :
      (fuel n : ℕ) (s : Hal W)
      → IsSocket n
      → pending s.world < fuel
      → IsValid s
      → Ensures (Hazard pf) (λ _ t. Kept pending s t) (read_raw pf fuel n s)
  unfolding read_raw
  read_raw-Keeps fuel n s h fits v =
      read_raw_loop-Keeps fuel n (set pf.frame 0 0) s h (length-set pf.frame 0 0 ∙ d.frame_area)
        fits v
