-- ===== src/Comm/Invariant/Scheduler.antt =====
-- The steps of `running` keep the state valid.
use knot_hal_source.Prelude.{
  ℕ, zero, suc, ◌+◌, ◌-◌, ◌^◌, ◌%◌, ◌≤◌, ◌<◌, ◌≡◌, inl, inr, refl, sym, ap, ◌∙◌, none, some, List,
  ℤ, [], ◌∷◌, pos, negsuc, eq_ℤ, arith, true, false, is_neg, Bool-cases, Option-cases, ◌==◌, ◌&&◌,
  get_elem?, take,
}
use knot_hal_source.Comm.Errors.{etimedout, eagain}
use knot_hal_source.Comm.State.{Hal, Peer}
use knot_hal_source.Comm.Run.{Platform, ok, peer_at, peer_at-suc, reset_pipe}
use knot_hal_source.Comm.Pipes.{update_raw_timeout}
use knot_hal_source.Comm.Pipes.Bits.{bit}
use knot_hal_source.Comm.Pipes.Bitmask.{InPlace-at, bit_at, pipe_bit}
use knot_hal_source.Comm.Pipes.Alloc.{clr_bit-IsAssigned}
use knot_hal_source.Comm.Raw.{write_raw, disconnected_event}
use knot_hal_source.Comm.Raw.Receive.{IsSound}
use knot_hal_source.Comm.Raw.Fragments.{fragments}
use knot_hal_source.Comm.Raw.Transmit.{transmit, sent, write_raw-eq-transmit}
use knot_hal_source.Comm.Scheduler.{release_pipe, drop_silent, serve_peer}
use knot_hal_source.Comm.Invariant.{
  Hazard, IsDriver, IsSocket, IsValid, IsSound-at, socket_peer, AllSound-set,
}
use knot_hal_source.Comm.Invariant.Rules.{
  Ensures, done, Ensures-bind, Ensures-some, Ensures-if, Ensures-weaken, Kept, Keeps, Stays,
  Kept-refl, Kept-trans, Kept-world, Kept-peer, Kept-mgmt, Kept-times, stays, Stays-trans,
  Stays-then,
}
use knot_hal_source.Comm.Invariant.Control.{
  check_keepalive-Keeps, read_raw-Keeps, disconnected_event-IsMgmt,
}

-- The pipe, the count and the anchor are no part of what a peer's buffers need.
released : (p : Peer) → IsSound p → IsSound (record p { pipe = none })
released p v = omega arith

pub unsupervised : (p : Peer) → IsSound p → IsSound (record p { keepalive = 0 })
unsupervised p v = omega arith

emptied : (p : Peer) → IsSound p → IsSound (record p { len_tx = 0; seqnumber_tx = 0 })
emptied p v = omega arith

-- The pipe of a peer is assigned where its bit is set.
pipe_of :
    {W : Type 0} (s : Hal W) (j : ℕ) (p : Peer)
    → IsValid s
    → get_elem? s.peers j ≡ some p
    → bit s.pipe_bitmask (suc j) ≡ 1
    → p.pipe ≡ some (suc j)
pipe_of s j p v e on =
    let z : suc (0 + j) ≡ suc j = omega arith in
    let (_, off, _) = bit_at s.peers j p v.pipes.count v.pipes.places e in
    elim (InPlace-at 0 j s.peers v.pipes.places e) [
      | inl h ↦ absurd (omega (arith, off (ap pipe_bit h), rw v.pipes.bits at on))
      | inr h ↦ h ∙ ap some z
    ]

pub bit_of_pipe :
    {W : Type 0} (s : Hal W) (n k : ℕ) (p : Peer)
    → IsValid s
    → IsSocket n
    → peer_at n s.peers ≡ some p
    → p.pipe ≡ some k
    → bit s.pipe_bitmask n ≡ 1
bit_of_pipe s zero k p v h e f = elim h.low [ ]
bit_of_pipe s (suc j) k p v h e f =
    let g = sym (peer_at-suc j s.peers) ∙ e in
    let (_, _, on) = bit_at s.peers j p v.pipes.count v.pipes.places g in
    let z : suc (0 + j) ≡ suc j = omega arith in
    elim (InPlace-at 0 j s.peers v.pipes.places g) as (λ _. bit s.pipe_bitmask (suc j) ≡ 1) [
      | inl h ↦ cc
      | inr h ↦ rw v.pipes.bits (on (ap pipe_bit h ∙ ap (λ i. 2 ^ i) z))
    ]

module _ {W : Type 0} (pf : Platform W) (pending : W → ℕ) where
  pub release_pipe-Stays :
      (n : ℕ) (s : Hal W)
      → IsSocket n
      → IsValid s
      → bit s.pipe_bitmask n ≡ 1
      → Ensures (Hazard pf) (λ _ t. Stays pending s t) (release_pipe pf n s)
  unfolding release_pipe
  release_pipe-Stays zero s h v on = elim h.low [ ]
  release_pipe-Stays (suc j) s h v on =
      Ensures-some (peer_at (suc j) s.peers) _ _ (socket_peer (suc j) s h v) λ p e.
        let g = sym (peer_at-suc j s.peers) ∙ e in
        let f = pipe_of s j p v g on in
        let q : Peer = record p { pipe = none } in
        let (_, w) = clr_bit-IsAssigned s.pipe_bitmask s.peers j p q v.pipes g f refl in
        let k : suc j - 1 ≡ j = omega arith in
        rw (f, k)
          (done (record {
            valid = record {
              pipes = w;
              sound = AllSound-set s.peers j v.sound (released p (IsSound-at (suc j) s v e));
              mgmt_sound = v.mgmt_sound;
              mac_area = v.mac_area;
              index_low = v.index_low;
              index_high = v.index_high;
              opened = v.opened;
            };
            same = refl;
            fewer = omega arith;
          }))

  pub update_raw_timeout-Keeps : Keeps (Hazard pf) pending update_raw_timeout
  unfolding update_raw_timeout
  update_raw_timeout-Keeps s v = done (Kept-times s _ s.rt_stamp _ v)

module _ {W : Type 0} (pf : Platform W) (pending : W → ℕ) (d : IsDriver pf pending) where
  drop_silent-Stays :
      (n : ℕ) (s : Hal W)
      → IsSocket n
      → IsValid s
      → bit s.pipe_bitmask n ≡ 1
      → Ensures (Hazard pf) (λ _ t. Stays pending s t) (drop_silent pf n s)
  unfolding drop_silent
  drop_silent-Stays n s h v on = Stays-then (check_keepalive-Keeps pf pending d n h s v) λ r t k.
      Ensures-if (eq_ℤ r etimedout && (t.mgmt.len_rx == 0)) _ _ _
        (λ _. Ensures-some (peer_at n t.peers) _ _ (socket_peer n t h k.valid) λ p e.
          let m =
            Kept-mgmt t (disconnected_event p.mac t.mgmt) k.valid
              (disconnected_event-IsMgmt p.mac t.mgmt k.valid.mgmt_sound) in
          Ensures-bind
            (release_pipe-Stays pf pending n _ h m.valid
              (let x : bit t.pipe_bitmask n ≡ 1 = rw k.mask on in x))
            λ _ u l. Ensures-some (peer_at n u.peers) _ _ (socket_peer n u h l.valid) λ q f.
              let o =
                Kept-peer n u (record q { keepalive = 0 }) l.valid f refl
                  (unsupervised q (IsSound-at n u l.valid f)) in
              let w =
                Kept-world _ (pf.phy_ioctl u.driver_index (reset_pipe n) u.world) o.valid
                  (d.ioctl_adds u.driver_index (reset_pipe n) u.world l.valid.opened) in
              Ensures-weaken (update_raw_timeout-Keeps pf pending _ w.valid) λ _ _ x.
                Stays-trans (stays m) (Stays-trans l (stays (Kept-trans o (Kept-trans w x)))))
        λ _. done (stays (Kept-refl t k.valid))

  transmit_adds :
      (k : ℤ) (n : ℕ) (ps : List (List ℕ × ℕ)) (w : W)
      → is_neg k ≡ false
      → pending (transmit pf k n ps w).1 ≤ pending w
  unfolding transmit
  transmit_adds k n [] w h = omega arith
  transmit_adds k n ((packet, b) ∷ ps) w h =
      after (pf.phy_write k n packet b (pf.delay_us 512 w)) (λ u. transmit_adds k n ps u h)
        (omega (arith, d.write_adds k n packet b (pf.delay_us 512 w) h, d.delay_adds 512 w))
    where
      after :
          (r : ℤ × W)
          → ((u : W) → pending (transmit pf k n ps u).1 ≤ pending u)
          → pending r.1 ≤ pending w
          → pending
              (elim r.0 as (λ _. ℤ × W) [
                | pos i ↦ transmit pf k n ps r.1
                | negsuc e ↦ (negsuc e, r.1)
              ]).1
            ≤ pending w
      after (pos i, u) rest h = omega (arith, rest u)
      after (negsuc i, u) rest h = h

  sent-Kept :
      (n : ℕ) (s : Hal W) (p : Peer) (z : ℤ × W)
      → IsValid s
      → peer_at n s.peers ≡ some p
      → pending z.1 ≤ pending s.world
      → Ensures (Hazard pf) (λ _ t. Kept pending s t) (sent pf n p s z)
  sent-Kept n s p (r, w) v e h =
      let k =
        Kept-peer n s (record p { len_tx = 0; seqnumber_tx = 0 }) v e refl
          (emptied p (IsSound-at n s v e)) in
      let l = Kept-trans k (Kept-world _ w k.valid h) in
      elim r as (λ r. Ensures (Hazard pf) (λ _ t. Kept pending s t) (sent pf n p s (r, w))) [
        | pos i ↦ done l
        | negsuc i ↦ done l
      ]

  write_raw-idle :
      (n : ℕ) (s : Hal W) (p : Peer)
      → peer_at n s.peers ≡ some p
      → (p.len_tx == 0) ≡ true
      → write_raw pf n s ≡ ok eagain s
  unfolding write_raw
  write_raw-idle n s p e z = rw (e, z)

  pub write_raw-Keeps : (n : ℕ) → IsSocket n → Keeps (Hazard pf) pending (write_raw pf n)
  write_raw-Keeps n h s v =
      let (p, e) = socket_peer n s h v in
      let q = IsSound-at n s v e in
      elim (Bool-cases (p.len_tx == 0)) [
        | inl z ↦ rw (write_raw-idle n s p e z) (done (Kept-refl s v))
        | inr some_bytes ↦
            rw
              (write_raw-eq-transmit pf n s p e d.frame_area q.tx_area (ground arith) q.tx_fits
                q.tx_ready)
              (sent-Kept n s p _ v e (
                transmit_adds s.driver_index n (fragments 5 0 (take p.len_tx p.buffer_tx) pf.frame)
                  s.world v.opened))
      ]

  pub serve_peer-Stays :
      (fuel n : ℕ) (s : Hal W)
      → IsSocket n
      → pending s.world < fuel
      → IsValid s
      → Ensures (Hazard pf) (λ _ t. Stays pending s t) (serve_peer pf fuel n s)
  unfolding serve_peer
  serve_peer-Stays fuel n s h fits v =
      Ensures-some (peer_at n s.peers) _ _ (socket_peer n s h v) λ p e. elim (Option-cases p.pipe) [
        | inl f ↦ rw f (done (stays (Kept-refl s v)))
        | inr (k, f) ↦
            let on = bit_of_pipe s n k p v h e f in
            rw f (
              Stays-then (read_raw-Keeps pf pending d fuel n s h fits v) λ _ t l.
                Stays-then (write_raw-Keeps n h t l.valid) λ _ u m.
                  let w = Kept-world u (pf.time_ms u.world).1 m.valid (d.time_adds u.world) in
                  let x =
                    Kept-times _ u.raw_timeout ((pf.time_ms u.world).0 % 256) u.rt_offset w.valid in
                  Ensures-weaken
                    (drop_silent-Stays n _ h x.valid
                      (let y : bit u.pipe_bitmask n ≡ 1 = rw (m.mask, l.mask) on in y))
                    λ _ _ z. Stays-trans (stays (Kept-trans w x)) z)
      ]
