-- ===== src/Comm/Invariant/Lifecycle.antt =====
-- The stack is started and stopped, and a socket is connected, in a valid state.
use knot_hal_source.Prelude.{
  ℕ, ◌+◌, ◌<◌, ◌≡◌, refl, ◌∙◌, not, List, ℤ, negsuc, is_neg, eq_ℤ, arith, ◌==◌, length, length-set,
  length-write_at,
}
use knot_hal_source.Link.{mgmt_connect_size}
use knot_hal_source.Comm.State.{Hal}
use knot_hal_source.Comm.Run.{Platform, peer_at}
use knot_hal_source.Comm.Socket.{
  hal_comm_init, hal_comm_deinit, number, connect_pdu, send_connect, hal_comm_connect,
}
use knot_hal_source.Comm.Invariant.{
  Hazard, Rests, IsDriver, IsSocket, IsValid, IsSound-at, socket_peer,
}
use knot_hal_source.Comm.Invariant.Rules.{
  Ensures, done, Ensures-some, Ensures-if, Kept-refl, Kept-trans, Kept-peer, Kept-mgmt,
}
use knot_hal_source.Comm.Invariant.Beacon.{tick}
use knot_hal_source.Comm.Invariant.Socket.{
  Sits, Lives, lives, after_running, no_pipes, all_fresh, fresh_mgmt-IsMgmt,
}
use knot_hal_source.Comm.Invariant.Connection.{named}

named_local :
    {W : Type 0} (s : Hal W) (i : ℤ) (mac : List ℕ) (w : W)
    → Rests s
    → length mac ≡ 8
    → Rests (record s { driver_index = i; mac_local = mac; world = w })
named_local s i mac w v h = record {
  pipes = v.pipes;
  sound = v.sound;
  mgmt_sound = v.mgmt_sound;
  mac_area = h;
  index_low = v.index_low;
  index_high = v.index_high;
  opened = v.opened;
}

module _ {W : Type 0} (pf : Platform W) (pending : W → ℕ) (d : IsDriver pf pending) where
  send_connect-Lives :
      (n : ℕ) (addr : List ℕ) (s : Hal W)
      → IsSocket n
      → length addr ≡ 8
      → IsValid s
      → Ensures (Hazard pf) (λ _ t. Lives pending s t) (send_connect pf n addr s)
  unfolding send_connect
  send_connect-Lives n addr s h area v =
      let m = v.mgmt_sound in
      let b = connect_pdu s.mac_local addr n s.mgmt.buffer_tx in
      let size : length b ≡ 32 =
        length-write_at _ 18 _
        ∙ length-set _ 17 _
        ∙ length-write_at _ 9 _
        ∙ length-write_at _ 1 _
        ∙ length-set _ 0 _
        ∙ m.tx_area in
      Ensures-if (not (s.mgmt.len_tx == 0)) _ _ _ (λ _. done (lives pending (Kept-refl s v)))
        λ _.
          let k =
            Kept-mgmt s (record s.mgmt { buffer_tx = b }) v
              (record {
                rx_area = m.rx_area;
                tx_area = size;
                rx_fits = m.rx_fits;
                tx_fits = m.tx_fits;
              }) in
          Ensures-some (peer_at n s.peers) _ _ (socket_peer n s h v) λ p e.
            let l = tick pf pending d _ k.valid in
            let o =
              Kept-peer {pending = pending} n _
                (record p { mac = addr; keepalive = 1; keepalive_anchor = (pf.time_ms s.world).0 })
                l.valid e refl (named p addr 1 (pf.time_ms s.world).0 (IsSound-at n s v e) area) in
            done (
              lives pending (
                Kept-trans k (
                  Kept-trans l (
                    Kept-trans o (
                      Kept-mgmt _ (record s.mgmt { buffer_tx = b; len_tx = 1 + mgmt_connect_size })
                        o.valid
                        (record {
                          rx_area = m.rx_area;
                          tx_area = size;
                          rx_fits = m.rx_fits;
                          tx_fits = omega arith;
                        }))))))

  pub hal_comm_connect-Lives :
      (fuel : ℕ) (sockfd : ℤ) (addr : List ℕ) (s : Hal W)
      → IsSocket (number sockfd)
      → length addr ≡ 8
      → IsValid s
      → pending s.world < fuel
      → Ensures (Hazard pf) (λ _ t. Lives pending s t) (hal_comm_connect pf fuel sockfd addr s)
  unfolding hal_comm_connect
  hal_comm_connect-Lives fuel sockfd addr s h area v fits =
      after_running pf pending d fuel s _ v fits
        λ t w. send_connect-Lives (number sockfd) addr t h area w

  pub hal_comm_init-Sits :
      (path mac : List ℕ) (s : Hal W)
      → length mac ≡ 8
      → Rests s
      → Ensures (Hazard pf) (λ _ t. Sits pending s t) (hal_comm_init pf path mac s)
  unfolding hal_comm_init
  hal_comm_init-Sits path mac s area v =
      let r = pf.phy_open path s.world in
      Ensures-if (not (eq_ℤ s.driver_index (negsuc 0))) _ _ _
        (λ _. done (record { rests = v; fewer = omega arith }))
        λ _.
          Ensures-if (is_neg r.0) _ _ _
            (λ _. done (record {
              rests = named_local s r.0 s.mac_local r.1 v v.mac_area;
              fewer = d.open_adds path s.world;
            }))
            λ _. done (record {
              rests = named_local s r.0 mac r.1 v area;
              fewer = d.open_adds path s.world;
            })

  pub hal_comm_deinit-Sits :
      (s : Hal W) → Rests s → Ensures (Hazard pf) (λ _ t. Sits pending s t) (hal_comm_deinit pf s)
  unfolding hal_comm_deinit
  hal_comm_deinit-Sits s v =
      let r = pf.phy_close s.driver_index s.world in
      let fewer = d.close_adds s.driver_index s.world in
      Ensures-if (eq_ℤ s.driver_index (negsuc 0)) _ _ _
        (λ _. done (record { rests = v; fewer = omega arith }))
        λ _.
          Ensures-if (is_neg r.0) _ _ _
            (λ _. done (record {
              rests = named_local s s.driver_index s.mac_local r.1 v v.mac_area;
              fewer = fewer;
            }))
            λ _. done (record {
              rests = record {
                pipes = no_pipes;
                sound = all_fresh;
                mgmt_sound = fresh_mgmt-IsMgmt;
                mac_area = v.mac_area;
                index_low = v.index_low;
                index_high = v.index_high;
                opened = v.opened;
              };
              fewer = fewer;
            })
