-- ===== src/Comm/Invariant/Management.antt =====
-- The management pipe keeps the state valid.
use knot_hal_source.Prelude.{
  ◌<◌, leb, inl, inr, Bool-cases, false, ℕ, suc, ◌+◌, ◌-◌, ◌≤◌, ◌≡◌, ◌∙◌, not, bytes_eq, List,
  arith, ◌==◌, ltb, ==_iff, length, length-set, length-write_at, set, write_at, slice, is_neg,
}
use knot_hal_source.Link.{
  mgmt_type, pdu_type_presence, pdu_type_connect_req, presence_mac, connect_dst, connect_src,
  connect_aa, mgmt_connect_size, set_evt_opcode, evt_bcast_presence,
}
use knot_hal_source.Comm.Errors.{eagain}
use knot_hal_source.Comm.State.{Mgmt}
use knot_hal_source.Comm.Run.{Platform, pure}
use knot_hal_source.Comm.Mgmt.{
  connected_event, write_mgmt, read_presence, read_connect_req, mgmt_packet, read_mgmt,
}
use knot_hal_source.Comm.Invariant.{Hazard, long_presence, IsDriver, IsMgmt}
use knot_hal_source.Comm.Invariant.Rules.{
  overrun, done, Ensures-if, Ensures-read, Ensures-memcpy, Keeps, keeps_from, Kept-refl, Kept-world,
  Kept-mgmt, Kept-trans,
}

connected_event-IsMgmt : (p : List ℕ) (m : Mgmt) → IsMgmt m → IsMgmt (connected_event p m)
unfolding connected_event
connected_event-IsMgmt p m v = record {
  rx_area =
      length-write_at _ 20 (connect_aa p)
      ∙ length-set _ 19 _
      ∙ length-write_at _ 11 (connect_dst p)
      ∙ length-write_at _ 3 (connect_src p)
      ∙ length-set _ 2 _
      ∙ length-set _ 1 _
      ∙ length-set _ 0 _
      ∙ v.rx_area;
  tx_area = v.tx_area;
  rx_fits = omega arith;
  tx_fits = v.tx_fits;
}

-- The buffer of an event, with an address behind its header
pub length-head :
    (op i : ℕ) (b a : List ℕ) → length (write_at (set (set_evt_opcode op b) 2 i) 3 a) ≡ length b
length-head op i b a =
    length-write_at _ 3 a ∙ length-set _ 2 i ∙ length-set _ 1 _ ∙ length-set b 0 _

module _ {W : Type 0} (pf : Platform W) (pending : W → ℕ) (d : IsDriver pf pending) where
  pub write_mgmt-Keeps : Keeps (Hazard pf) pending (write_mgmt pf)
  unfolding write_mgmt
  write_mgmt-Keeps s v =
      Ensures-if (s.mgmt.len_tx == 0) _ _ _ (λ _. done (Kept-refl s v))
        λ _.
          Ensures-memcpy pf.frame 0 s.mgmt.buffer_tx 0 s.mgmt.len_tx _ _
            (omega (arith, d.frame_area, v.mgmt_sound.tx_fits))
            (omega (arith, v.mgmt_sound.tx_area, v.mgmt_sound.tx_fits))
            (let payload = write_at pf.frame 0 (slice 0 s.mgmt.len_tx s.mgmt.buffer_tx) in
              let r = pf.phy_write s.driver_index 0 payload s.mgmt.len_tx s.world in
              let k =
                Kept-world s r.1 v
                  (d.write_adds s.driver_index 0 payload s.mgmt.len_tx s.world v.opened) in
              Ensures-if (is_neg r.0) _ _ _ (λ _. done k)
                λ _. done (
                  Kept-trans k (
                    Kept-mgmt _ (record s.mgmt { len_tx = 0 }) k.valid
                      (record {
                        rx_area = v.mgmt_sound.rx_area;
                        tx_area = v.mgmt_sound.tx_area;
                        rx_fits = v.mgmt_sound.rx_fits;
                        tx_fits = omega arith;
                      }))))

  read_presence-Keeps :
      (ilen : ℕ) (p : List ℕ)
      → (30 < ilen → Hazard pf)
      → length p ≡ 32
      → Keeps (Hazard pf) pending (read_presence pf ilen p)
  unfolding read_presence
  read_presence-Keeps ilen p h area s v =
      Ensures-if s.listen _ _ _ (λ _. done (Kept-refl s v))
        λ _.
          Ensures-if (ltb ilen 9) _ _ _ (λ _. done (Kept-refl s v))
            λ e.
              let low : 9 ≤ ilen = ground arith in
              let head =
                write_at (set (set_evt_opcode evt_bcast_presence s.mgmt.buffer_rx) 2 0) 3
                  (presence_mac p) in
              let l : length head ≡ 32 =
                length-head evt_bcast_presence 0 s.mgmt.buffer_rx (presence_mac p)
                ∙ v.mgmt_sound.rx_area in
              elim (Bool-cases (ltb 30 ilen)) [
                | inl long ↦
                    let past : leb (11 + (ilen - 8 - 1)) (length head) ≡ false = ground arith in
                    rw past (overrun (h (ground arith)))
                | inr short ↦
                    let room : ilen ≤ 30 = ground arith in
                    Ensures-memcpy head 11 p 9 (ilen - 8 - 1) _ _ (omega arith) (omega arith) (
                      done (
                        Kept-mgmt s _ v (record {
                          rx_area = length-write_at head 11 _ ∙ l;
                          tx_area = v.mgmt_sound.tx_area;
                          rx_fits = omega arith;
                          tx_fits = v.mgmt_sound.tx_fits;
                        })))
              ]

  read_connect_req-Keeps :
      (ilen : ℕ) (p : List ℕ) → Keeps (Hazard pf) pending (read_connect_req pf ilen p)
  unfolding read_connect_req
  read_connect_req-Keeps ilen p s v =
      Ensures-if (not (ilen == 1 + mgmt_connect_size)) _ _ _ (λ _. done (Kept-refl s v))
        λ _.
          Ensures-if (not (bytes_eq (connect_dst p) s.mac_local)) _ _ _ (λ _. done (Kept-refl s v))
            λ _. done (Kept-mgmt s _ v (connected_event-IsMgmt p s.mgmt v.mgmt_sound))

  mgmt_packet-Keeps :
      (ilen : ℕ) (p : List ℕ)
      → (mgmt_type p ≡ pdu_type_presence → 30 < ilen → Hazard pf)
      → length p ≡ 32
      → Keeps (Hazard pf) pending (mgmt_packet pf ilen p)
  unfolding mgmt_packet
  mgmt_packet-Keeps ilen p h area s v =
      Ensures-if (not (s.mgmt.len_rx == 0)) _ _ _ (λ _. done (Kept-refl s v))
        λ _.
          Ensures-if (mgmt_type p == pdu_type_presence) _ _ _
            (λ e. read_presence-Keeps ilen p (h ((==_iff _ _).0 e)) area s v)
            λ _.
              Ensures-if (mgmt_type p == pdu_type_connect_req) _ _ _
                (λ _. read_connect_req-Keeps ilen p s v) λ _. done (Kept-refl s v)

  pub read_mgmt-Keeps : Keeps (Hazard pf) pending (read_mgmt pf)
  unfolding read_mgmt
  read_mgmt-Keeps s v =
      let pl : List ℕ = set pf.frame 0 0 in
      let w : W = (pf.phy_read s.driver_index 0 pl s.world).2 in
      let pl' : List ℕ = (pf.phy_read s.driver_index 0 pl s.world).1 in
      let k = Kept-world s w v (d.read_adds s.driver_index 0 pl s.world v.opened) in
      let area =
        d.read_area s.driver_index 0 pl s.world v.opened (length-set pf.frame 0 0 ∙ d.frame_area) in
      Ensures-read (pf.phy_read s.driver_index 0 pl s.world).0 (pure eagain)
        (λ n. mgmt_packet pf (suc n) pl') (λ _. pure eagain) (record s { world = w }) (done k)
        (λ n e. keeps_from k (
          mgmt_packet-Keeps (suc n) pl'
            (λ kind long. long_presence s.driver_index pl s.world (suc n) v.opened e long kind) area
            _ k.valid))
        λ _. done k
