-- ===== src/Comm/Invariant/Beacon.antt =====
-- The beacon of a thing that listens keeps the state valid.
use knot_hal_source.Prelude.{
  ℕ, ◌≡◌, ◌∙◌, arith, is_neg, bytes_eq, length, length-set, length-write_at, write_at, slice,
}
use knot_hal_source.Link.{set_mgmt_type, pdu_type_presence}
use knot_hal_source.Clock.{hal_timeout}
use knot_hal_source.Comm.State.{
  Hal, Presence, presence, burst_window, standby, timeout_interval, zero_mac,
}
use knot_hal_source.Comm.Run.{Platform, Run, set_standby}
use knot_hal_source.Comm.Beacon.{
  thing_name, name_len, window_bcast, burst_bcast, interval_bcast, send_presence, end_burst,
  end_interval, presence_connect,
}
use knot_hal_source.Comm.Invariant.{Hazard, IsDriver, IsValid}
use knot_hal_source.Comm.Invariant.Rules.{
  Ensures, done, Ensures-if, Ensures-memcpy, Kept, Keeps, Kept-refl, Kept-trans, Kept-world,
  Kept-presence,
}

-- the cases of `presence_connect`
presence_cases :
    {W H : Type 0} {Q : Hal W → Type 0} (x : Presence) (a b c e : Hal W → Run W (Unit {0}))
    (s : Hal W)
    → Ensures H (λ _ t. Q t) (a s)
    → Ensures H (λ _ t. Q t) (b s)
    → Ensures H (λ _ t. Q t) (c s)
    → Ensures H (λ _ t. Q t) (e s)
    → Ensures H
        (λ _ t. Q t)
        ((elim x as (λ _. Hal W → Run W (Unit {0})) [
          | presence ↦ a
          | burst_window ↦ b
          | standby ↦ c
          | timeout_interval ↦ e
        ])
          s)
presence_cases presence a b c e s f g h i = f
presence_cases burst_window a b c e s f g h i = g
presence_cases standby a b c e s f g h i = h
presence_cases timeout_interval a b c e s f g h i = i

module _ {W : Type 0} (pf : Platform W) (pending : W → ℕ) (d : IsDriver pf pending) where
  -- a reading of the clock
  pub tick : (s : Hal W) → IsValid s → Kept pending s (record s { world = (pf.time_ms s.world).1 })
  tick s v = Kept-world s (pf.time_ms s.world).1 v (d.time_adds s.world)

  send_presence-Keeps : Keeps (Hazard pf) pending (send_presence pf)
  unfolding send_presence name_len
  send_presence-Keeps s v =
      let header = write_at (set_mgmt_type pdu_type_presence pf.frame) 1 s.mac_local in
      let payload = write_at header 9 (slice 0 10 thing_name) in
      let l : length header ≡ 32 =
        length-write_at _ 1 s.mac_local ∙ length-set pf.frame 0 _ ∙ d.frame_area in
      let r = pf.phy_write s.driver_index 0 payload 19 s.world in
      let k = Kept-world s r.1 v (d.write_adds s.driver_index 0 payload 19 s.world v.opened) in
      Ensures-if (bytes_eq s.mac_local zero_mac) _ _ _ (λ _. done (Kept-refl s v))
        λ _. Ensures-memcpy header 9 thing_name 0 10 _ _ (omega arith) (omega arith) (
          Ensures-if (is_neg r.0) _ _ _ (λ _. done k)
            λ _.
              let same = done (
                Kept-trans k
                  (Kept-presence _ burst_window s.previous_state s.presence_start k.valid)) in
              let l = Kept-trans k (tick _ k.valid) in
              presence_cases s.previous_state _ _ _ _ _ same same same (
                done (
                  Kept-trans l
                    (Kept-presence _ burst_window s.previous_state (pf.time_ms r.1).0 l.valid))))

  end_burst-Keeps : Keeps (Hazard pf) pending (end_burst pf)
  unfolding end_burst
  end_burst-Keeps s v =
      let k = tick s v in
      let l = Kept-trans k (tick _ k.valid) in
      Ensures-if (hal_timeout (pf.time_ms s.world).0 s.presence_start window_bcast) _ _ _
        (λ _. done (Kept-trans k (Kept-presence _ standby burst_window s.presence_start k.valid)))
        λ _.
          Ensures-if
            (hal_timeout (pf.time_ms (pf.time_ms s.world).1).0 s.presence_start burst_bcast) _ _ _
            (λ _.
              done (Kept-trans l (Kept-presence _ presence burst_window s.presence_start l.valid)))
            λ _. done (
              Kept-trans l (Kept-presence _ s.presence_state burst_window s.presence_start l.valid))

  end_interval-Keeps : Keeps (Hazard pf) pending (end_interval pf)
  unfolding end_interval
  end_interval-Keeps s v =
      let k = tick s v in
      Ensures-if (hal_timeout (pf.time_ms s.world).0 s.presence_start interval_bcast) _ _ _
        (λ _.
          done (Kept-trans k (Kept-presence _ presence timeout_interval s.presence_start k.valid)))
        λ _. done (
          Kept-trans k (Kept-presence _ s.presence_state timeout_interval s.presence_start k.valid))

  pub presence_connect-Keeps : Keeps (Hazard pf) pending (presence_connect pf)
  unfolding presence_connect
  presence_connect-Keeps s v =
      let k =
        Kept-world s (pf.phy_ioctl s.driver_index set_standby s.world) v
          (d.ioctl_adds s.driver_index set_standby s.world v.opened) in
      presence_cases s.presence_state _ _ _ _ s (send_presence-Keeps s v) (end_burst-Keeps s v)
        (done (
          Kept-trans k
            (Kept-presence _ timeout_interval s.previous_state s.presence_start k.valid)))
        (end_interval-Keeps s v)
