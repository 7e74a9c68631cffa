-- ===== src/Comm/Invariant/Connection.antt =====
-- Sockets are opened, accepted and closed in a valid state.
use knot_hal_source.Prelude.{
  ℕ, ◌%◌, ◌<◌, ◌≡◌, inl, inr, refl, false, not, ◌||◌, Option-cases, Option, none, some, List, ℤ,
  pos, negsuc, eq_ℤ, arith, ◌==◌, bytes_eq, length-take, length-drop, drop, length,
}
use knot_hal_source.Link.{evt_cn_aa, evt_cn_src, evt_opcode, evt_connected, evt_cn_dst}
use knot_hal_source.Comm.State.{Hal, Peer, zero_mac}
use knot_hal_source.Comm.Run.{Platform, Run, peer_at, set_pipe, reset_pipe, Command}
use knot_hal_source.Comm.Pipes.{set_bit}
use knot_hal_source.Comm.Pipes.Bits.{bit, set_bit_lem}
use knot_hal_source.Comm.Pipes.Bitmask.{odd_mask}
use knot_hal_source.Comm.Raw.Receive.{IsSound}
use knot_hal_source.Comm.Socket.{
  open_pipe, socket_mgmt, socket_raw, hal_comm_socket, is_raw_socket, number, close_pipe,
  hal_comm_close, hal_comm_listen, accept_peer, take_connection, hal_comm_accept, pf_nrf24,
  proto_mgmt, proto_raw, aa_pipe0, access_address,
}
use knot_hal_source.Comm.Invariant.{
  Hazard, Rests, IsDriver, IsSocket, IsValid, IsSound-at, socket_peer,
}
use knot_hal_source.Comm.Invariant.Rules.{
  Ensures, done, Ensures-bind, Ensures-some, Ensures-if, Ensures-weaken, Kept, keeps_then,
  Kept-refl, Kept-world, Kept-peer, Kept-mgmt,
}
use knot_hal_source.Comm.Invariant.Control.{write_disconnect-Keeps}
use knot_hal_source.Comm.Invariant.Scheduler.{
  release_pipe-Stays, unsupervised, update_raw_timeout-Keeps, bit_of_pipe,
}
use knot_hal_source.Comm.Invariant.Beacon.{tick}
use knot_hal_source.Comm.Invariant.Socket.{
  Sits, raw_number, Lives, lives, Lives-trans, alloc_pipe-Lives, after_running,
}

set_zero : (m : ℕ) → m < 64 → m % 2 ≡ 1 → set_bit m 0 ≡ m
set_zero m h e = rw (set_bit_lem m 0 h (omega arith)) (ground arith)

deaf : {W : Type 0} (s : Hal W) → IsValid s → IsValid (record s { listen = false })
deaf s v = record {
  pipes = v.pipes;
  sound = v.sound;
  mgmt_sound = v.mgmt_sound;
  mac_area = v.mac_area;
  index_low = v.index_low;
  index_high = v.index_high;
  opened = v.opened;
}

-- Bit 0 of the bitmask is always set.
small_mask : {W : Type 0} (s : Hal W) → IsValid s → (s.pipe_bitmask < 64) × (s.pipe_bitmask % 2 ≡ 1)
small_mask s v =
    let o = odd_mask s.peers v.pipes.count v.pipes.places in
    (omega (arith, o.0, v.pipes.bits), omega (arith, o.1, v.pipes.bits))

pub named :
    (p : Peer) (mac : List ℕ) (k t : ℕ)
    → IsSound p
    → length mac ≡ 8
    → IsSound (record p { mac = mac; keepalive = k; keepalive_anchor = t })
named p mac k t v h = omega arith

module _ {W : Type 0} (pending : W → ℕ) where
  pub hal_comm_listen-Sits :
      {H : Type 0} (s : Hal W) → Rests s → Ensures H (λ _ t. Sits pending s t) (hal_comm_listen s)
  unfolding hal_comm_listen
  hal_comm_listen-Sits s v = done (record {
    rests = record {
      pipes = rw (set_zero s.pipe_bitmask (small_mask _ v).0 (small_mask _ v).1) v.pipes;
      sound = v.sound;
      mgmt_sound = v.mgmt_sound;
      mac_area = v.mac_area;
      index_low = v.index_low;
      index_high = v.index_high;
      opened = v.opened;
    };
    fewer = omega arith;
  })

module _ {W : Type 0} (pf : Platform W) (pending : W → ℕ) (d : IsDriver pf pending) where
  ioctl-Kept :
      (c : Command) (s : Hal W)
      → IsValid s
      → Kept pending s (record s { world = pf.phy_ioctl s.driver_index c s.world })
  ioctl-Kept c s v = Kept-world s _ v (d.ioctl_adds s.driver_index c s.world v.opened)

  open_pipe-Lives :
      (n : ℕ) (aa : List ℕ) (s : Hal W)
      → IsValid s
      → Ensures (Hazard pf) (λ _ t. Lives pending s t) (open_pipe pf n aa s)
  unfolding open_pipe
  open_pipe-Lives n aa s v = done (lives pending (ioctl-Kept (set_pipe n aa) s v))

  mgmt_open :
      (s : Hal W)
      → IsValid s
      → Ensures
          (Hazard pf)
          (λ _ t. Lives pending s t)
          (open_pipe pf 0 aa_pipe0 (record s { mgmt = record s.mgmt { pipe = some 0 } }))
  mgmt_open s v =
      let m = v.mgmt_sound in
      let k =
        Kept-mgmt s (record s.mgmt { pipe = some 0 }) v
          (record {
            rx_area = m.rx_area;
            tx_area = m.tx_area;
            rx_fits = m.rx_fits;
            tx_fits = m.tx_fits;
          }) in
      Ensures-weaken (open_pipe-Lives 0 aa_pipe0 _ k.valid)
        λ _ _ l. Lives-trans pending (lives pending k) l

  mgmt_cases :
      {A : Type 0} {Q : A → Hal W → Type 0} (o : Option ℕ) (a : Hal W → Run W A)
      (b : ℕ → Hal W → Run W A) (s : Hal W)
      → Ensures (Hazard pf) Q (a s)
      → ((k : ℕ) → Ensures (Hazard pf) Q (b k s))
      → Ensures (Hazard pf) Q ((elim o as (λ _. Hal W → Run W A) [ none ↦ a | some k ↦ b k ]) s)
  mgmt_cases none a b s f g = f
  mgmt_cases (some k) a b s f g = g k

  -- the pipe that `alloc_pipe` gives, or the error
  pipe_cases :
      {A : Type 0} {Q : A → Hal W → Type 0} (r : ℤ) (a b : ℕ → Hal W → Run W A) (s : Hal W)
      → ((n : ℕ) → Ensures (Hazard pf) Q (a n s))
      → ((n : ℕ) → r ≡ pos n → Ensures (Hazard pf) Q (b n s))
      → Ensures
          (Hazard pf)
          Q
          ((elim r as (λ _. Hal W → Run W A) [ negsuc n ↦ a n | pos n ↦ b n ]) s)
  pipe_cases (negsuc n) a b s f g = f n
  pipe_cases (pos n) a b s f g = g n refl

  pub hal_comm_socket-Lives :
      (domain protocol : ℕ) (s : Hal W)
      → IsValid s
      → Ensures (Hazard pf) (λ _ t. Lives pending s t) (hal_comm_socket pf domain protocol s)
  unfolding hal_comm_socket socket_mgmt socket_raw
  hal_comm_socket-Lives domain protocol s v =
      let same : Lives pending s s = lives pending (Kept-refl s v) in
      Ensures-if (not (domain == pf_nrf24)) _ _ _ (λ _. done same)
        λ _.
          Ensures-if (eq_ℤ s.driver_index (negsuc 0)) _ _ _ (λ _. done same)
            λ _.
              Ensures-if (protocol == proto_mgmt) _ _ _
                (λ _. mgmt_cases s.mgmt.pipe _ _ s (mgmt_open s v) (λ _. done same))
                λ _.
                  Ensures-if (protocol == proto_raw) _ _ _
                    (λ _. mgmt_cases s.mgmt.pipe _ _ s (mgmt_open s v) λ _.
                      Ensures-bind (alloc_pipe-Lives pending s v) λ r t k.
                        pipe_cases r _ _ t (λ _. done k.0)
                          λ n e.
                            Ensures-weaken
                              (open_pipe-Lives n (access_address s.mac_local n) t k.0.valid)
                              λ _ _ l. Lives-trans pending k.0 l)
                    λ _. done same

  close_pipe-Lives :
      (n : ℕ) (s : Hal W)
      → IsSocket n
      → IsValid s
      → bit s.pipe_bitmask n ≡ 1
      → Ensures (Hazard pf) (λ _ t. Lives pending s t) (close_pipe pf n s)
  unfolding close_pipe
  close_pipe-Lives n s h v on = Ensures-some (peer_at n s.peers) _ _ (socket_peer n s h v) λ p _.
      Ensures-bind {Q = λ _ t. Kept pending s t}
        (Ensures-if (bytes_eq s.mac_local zero_mac) _ _ s (λ _. done (Kept-refl s v))
          λ _.
            keeps_then (write_disconnect-Keeps pf pending d n p.mac s.mac_local s v)
              λ _ t k. done (Kept-refl t k.valid))
        λ _ t k. Ensures-bind (release_pipe-Stays pf pending n t h k.valid (rw k.mask on)) λ _ u l.
          let w = ioctl-Kept (reset_pipe n) u l.valid in
          Ensures-bind (update_raw_timeout-Keeps pf pending _ w.valid) λ _ x m.
            Ensures-some (peer_at n x.peers) _ _ (socket_peer n x h m.valid) λ q f.
              let o =
                Kept-peer {pending = pending} n x (record q { keepalive = 0 }) m.valid f refl
                  (unsupervised q (IsSound-at n x m.valid f)) in
              done (record {
                valid = o.valid;
                fewer = omega (arith, k.fewer, l.fewer, w.fewer, m.fewer, o.fewer);
              })

  pub hal_comm_close-Lives :
      (sockfd : ℤ) (s : Hal W)
      → IsValid s
      → Ensures (Hazard pf) (λ _ t. Lives pending s t) (hal_comm_close pf sockfd s)
  unfolding hal_comm_close
  hal_comm_close-Lives sockfd s v =
      let same : Lives pending s s = lives pending (Kept-refl s v) in
      Ensures-if (eq_ℤ s.driver_index (negsuc 0)) _ _ _ (λ _. done same)
        λ _.
          Ensures-if (is_raw_socket sockfd) _ _ _
            (λ e.
              let h : IsSocket (number sockfd) = raw_number sockfd false (ground arith) in
              Ensures-some (peer_at (number sockfd) s.peers) _ _ (socket_peer (number sockfd) s h v)
                λ p f. elim (Option-cases p.pipe) [
                  | inl g ↦ rw g (done same)
                  | inr (k, g) ↦ rw g (
                      Ensures-bind
                        (close_pipe-Lives (number sockfd) s h v
                          (bit_of_pipe s (number sockfd) k p v h f g))
                        λ _ _ l. done l)
                ])
            λ _. done same

  accept_peer-Lives :
      (n : ℕ) (b : List ℕ) (s : Hal W)
      → IsSocket n
      → length b ≡ 32
      → IsValid s
      → Ensures (Hazard pf) (λ _ t. Lives pending s t) (accept_peer pf n b s)
  unfolding accept_peer
  accept_peer-Lives n b s h area v =
      let w : IsValid (record s { listen = false }) = deaf s v in
      let x = ioctl-Kept (set_pipe n (evt_cn_aa b)) _ w in
      Ensures-bind (update_raw_timeout-Keeps pf pending _ x.valid) λ _ t k.
        Ensures-some (peer_at n t.peers) _ _ (socket_peer n t h k.valid) λ p f.
          let l = tick pf pending d t k.valid in
          let o =
            Kept-peer {pending = pending} n _
              (record p {
                mac = evt_cn_src b;
                keepalive = 0;
                keepalive_anchor = (pf.time_ms t.world).0;
              })
              l.valid f refl
              (named p (evt_cn_src b) 0 (pf.time_ms t.world).0 (IsSound-at n t k.valid f)
                (omega (arith, length-take 8 (drop 3 b), length-drop 3 b))) in
          done
            (record { valid = o.valid; fewer = omega (arith, x.fewer, k.fewer, l.fewer, o.fewer) })

  take_connection-Lives :
      (b addr : List ℕ) (s : Hal W)
      → length b ≡ 32
      → IsValid s
      → Ensures (Hazard pf) (λ _ t. Lives pending s t) (take_connection pf b addr s)
  unfolding take_connection
  take_connection-Lives b addr s area v =
      Ensures-if (not (evt_opcode b == evt_connected) || not (bytes_eq (evt_cn_dst b) s.mac_local))
        _ _ _ (λ _. done (lives pending (Kept-refl s v)))
        λ _. Ensures-bind (alloc_pipe-Lives pending s v) λ r t k.
          pipe_cases r _ _ t (λ _. done k.0)
            λ n e.
              Ensures-bind (accept_peer-Lives n b t (k.1 n e) area k.0.valid)
                λ _ u l. done (Lives-trans pending k.0 l)

  pub hal_comm_accept-Lives :
      (fuel : ℕ) (addr : List ℕ) (s : Hal W)
      → IsValid s
      → pending s.world < fuel
      → Ensures (Hazard pf) (λ _ t. Lives pending s t) (hal_comm_accept pf fuel addr s)
  unfolding hal_comm_accept
  hal_comm_accept-Lives fuel addr s v fits = after_running pf pending d fuel s _ v fits λ t w.
      let m = w.mgmt_sound in
      Ensures-if (t.mgmt.len_rx == 0) _ _ _ (λ _. done (lives pending (Kept-refl t w)))
        λ _.
          let k =
            Kept-mgmt t (record t.mgmt { len_rx = 0 }) w
              (record {
                rx_area = m.rx_area;
                tx_area = m.tx_area;
                rx_fits = omega arith;
                tx_fits = m.tx_fits;
              }) in
          Ensures-weaken (take_connection-Lives t.mgmt.buffer_rx addr _ m.rx_area k.valid)
            λ _ _ l. Lives-trans pending (lives pending k) l
