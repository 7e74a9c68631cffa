-- ===== src/Comm/Invariant/Running.antt =====
-- A call of `running` ends, in a valid state, with one of the turns between the channels.
use knot_hal_source.Prelude.{ℕ, ◌≤◌, ◌<◌, ◌≡◌, ◌⊎◌, inl, inr, refl, ◌∙◌, true, false, Bool, arith}
use knot_hal_source.Clock.{hal_timeout}
use knot_hal_source.Comm.State.{Hal, Running, start_mgmt, mgmt, start_raw, raw}
use knot_hal_source.Comm.Run.{Platform, Run, set_channel}
use knot_hal_source.Comm.Scheduler.{
  has_peers, has_free_pipe, leave_raw, next_index, leave_mgmt, run_mgmt, run_raw, enter, running,
  mgmt_timeout, channel_mgmt, channel_raw,
}
use knot_hal_source.Comm.Invariant.{Hazard, IsDriver, IsSocket, IsValid}
use knot_hal_source.Comm.Invariant.Rules.{
  Ensures, done, Ensures-bind, Ensures-if, Ensures-weaken, Kept, Kept-refl, Kept-trans, Kept-world,
}
use knot_hal_source.Comm.Invariant.Management.{read_mgmt-Keeps, write_mgmt-Keeps}
use knot_hal_source.Comm.Invariant.Scheduler.{serve_peer-Stays}
use knot_hal_source.Comm.Invariant.Beacon.{tick, presence_connect-Keeps}

-- The turns: which state of `running` follows which, and what must hold of the bitmask.
pub data Turn {W : Type 0} (s t : Hal W) : Type 0 where
  enter_mgmt : s.running_state ≡ start_mgmt → t.running_state ≡ mgmt → Turn s t
  in_mgmt : s.running_state ≡ mgmt → t.running_state ≡ mgmt → Turn s t
  quit_mgmt :
      s.running_state ≡ mgmt
      → t.running_state ≡ start_raw
      → has_peers t.pipe_bitmask ≡ true
      → Turn s t
  enter_raw : s.running_state ≡ start_raw → t.running_state ≡ raw → Turn s t
  in_raw : s.running_state ≡ raw → t.running_state ≡ raw → Turn s t
  quit_raw :
      s.running_state ≡ raw
      → t.running_state ≡ start_mgmt
      → has_free_pipe s.pipe_bitmask ≡ true
      → Turn s t

pub record Ran {W : Type 0} (pending : W → ℕ) (s t : Hal W) : Type 0 where
  pub valid : IsValid t
  pub turn : Turn s t
  pub fewer : pending t.world ≤ pending s.world

-- The state of `running`, its start and the next socket, which is one of the five
turned :
    {W : Type 0} (s : Hal W) (r : Running) (n i : ℕ)
    → IsValid s
    → IsSocket i
    → IsValid (record s { running_state = r; running_start = n; sock_index = i })
turned s r n i v h = record {
  pipes = v.pipes;
  sound = v.sound;
  mgmt_sound = v.mgmt_sound;
  mac_area = v.mac_area;
  index_low = h.low;
  index_high = h.high;
  opened = v.opened;
}

index_of : {W : Type 0} (s : Hal W) → IsValid s → IsSocket s.sock_index
index_of s v = record { low = v.index_low; high = v.index_high }

next_index-IsSocket : (i : ℕ) → IsSocket i → IsSocket (next_index i)
next_index-IsSocket i h = record { low = ground arith; high = ground arith }

-- What `leave_raw` and `leave_mgmt` do: they go on to the state `r`, or they leave all as it is.
record Left {W : Type 0} (pending : W → ℕ) (r : Running) (c : Bool) (s t : Hal W) : Type 0 where
  valid : IsValid t
  mask : t.pipe_bitmask ≡ s.pipe_bitmask
  next : (t.running_state ≡ s.running_state) ⊎ ((t.running_state ≡ r) × (c ≡ true))
  fewer : pending t.world ≤ pending s.world

-- the cases of `running`
running_cases :
    {W H : Type 0} {Q : Hal W → Type 0} (x : Running) (a b c e : Hal W → Run W (Unit {0}))
    (s : Hal W)
    → (x ≡ start_mgmt → Ensures H (λ _ t. Q t) (a s))
    → (x ≡ mgmt → Ensures H (λ _ t. Q t) (b s))
    → (x ≡ start_raw → Ensures H (λ _ t. Q t) (c s))
    → (x ≡ raw → Ensures H (λ _ t. Q t) (e s))
    → Ensures H
        (λ _ t. Q t)
        ((elim x as (λ _. Hal W → Run W (Unit {0})) [
          | start_mgmt ↦ a
          | mgmt ↦ b
          | start_raw ↦ c
          | raw ↦ e
        ])
          s)
running_cases start_mgmt a b c e s f g h i = f refl
running_cases mgmt a b c e s f g h i = g refl
running_cases start_raw a b c e s f g h i = h refl
running_cases raw a b c e s f g h i = i refl

module _ {W : Type 0} (pf : Platform W) (pending : W → ℕ) (d : IsDriver pf pending) where
  remains : {r : Running} {c : Bool} {s t : Hal W} → Kept pending s t → Left pending r c s t
  remains k = record { valid = k.valid; mask = k.mask; next = inl k.same; fewer = k.fewer }

  goes_on :
      {c : Bool} (s t : Hal W) (r : Running)
      → Kept pending s t
      → c ≡ true
      → Left pending r c s (record t { running_state = r })
  goes_on s t r k e = record {
    valid = turned t r t.running_start t.sock_index k.valid (index_of t k.valid);
    mask = k.mask;
    next = inr (refl, e);
    fewer = k.fewer;
  }

  leave_raw-Left :
      (s : Hal W)
      → IsValid s
      → Ensures
          (Hazard pf)
          (λ _ t. Left pending start_mgmt (has_free_pipe s.pipe_bitmask) s t)
          (leave_raw pf s)
  unfolding leave_raw
  leave_raw-Left s v =
      let k = tick pf pending d s v in
      let l = Kept-trans k (tick pf pending d _ k.valid) in
      Ensures-if (has_free_pipe s.pipe_bitmask) _ _ _
        (λ free.
          Ensures-if (hal_timeout (pf.time_ms s.world).0 s.running_start s.raw_timeout) _ _ _
            (λ _.
              Ensures-if (hal_timeout (pf.time_ms (pf.time_ms s.world).1).0 s.rt_stamp s.rt_offset)
                _ _ _ (λ _. done (goes_on s _ start_mgmt l free)) λ _. done (remains l))
            λ _. done (remains k))
        λ _. done (remains (Kept-refl s v))

  leave_mgmt-Left :
      (s : Hal W)
      → IsValid s
      → Ensures
          (Hazard pf)
          (λ _ t. Left pending start_raw (has_peers s.pipe_bitmask) s t)
          (leave_mgmt pf s)
  unfolding leave_mgmt
  leave_mgmt-Left s v =
      let k = tick pf pending d s v in
      Ensures-if (has_peers s.pipe_bitmask) _ _ _
        (λ peers.
          Ensures-if (hal_timeout (pf.time_ms s.world).0 s.running_start mgmt_timeout) _ _ _
            (λ _. done (goes_on s _ start_raw k peers)) λ _. done (remains k))
        λ _. done (remains (Kept-refl s v))

  run_mgmt-Ran :
      (s : Hal W)
      → IsValid s
      → s.running_state ≡ mgmt
      → Ensures (Hazard pf) (λ _ t. Ran pending s t) (run_mgmt pf s)
  unfolding run_mgmt
  run_mgmt-Ran s v e = Ensures-bind (read_mgmt-Keeps pf pending d s v) λ _ t k.
      Ensures-bind (write_mgmt-Keeps pf pending d t k.valid) λ _ u l.
        Ensures-bind {Q = λ _ x. Kept pending u x}
          (Ensures-if u.listen _ _ u (λ _. presence_connect-Keeps pf pending d u l.valid)
            λ _. done (Kept-refl u l.valid))
          λ _ x m. Ensures-weaken (leave_mgmt-Left x m.valid) λ _ y n. record {
            valid = n.valid;
            turn = elim n.next [
              | inl f ↦ in_mgmt e (f ∙ m.same ∙ l.same ∙ k.same ∙ e)
              | inr (f, g) ↦ quit_mgmt e f (rw n.mask g)
            ];
            fewer = omega (arith, n.fewer, m.fewer, l.fewer, k.fewer);
          }

  run_raw-Ran :
      (fuel : ℕ) (s : Hal W)
      → IsValid s
      → pending s.world < fuel
      → s.running_state ≡ raw
      → Ensures (Hazard pf) (λ _ t. Ran pending s t) (run_raw pf fuel s)
  unfolding run_raw
  run_raw-Ran fuel s v fits e = Ensures-bind (leave_raw-Left s v) λ _ t k.
      Ensures-bind
        (serve_peer-Stays pf pending d fuel t.sock_index t (index_of t k.valid)
          (omega (arith, k.fewer)) k.valid)
        λ _ u l. done (record {
          valid =
              turned u u.running_state u.running_start (next_index u.sock_index) l.valid
                (next_index-IsSocket u.sock_index (index_of u l.valid));
          turn = elim k.next [
            | inl f ↦ in_raw e (l.same ∙ f ∙ e)
            | inr (f, g) ↦ quit_raw e (l.same ∙ f) g
          ];
          fewer = omega (arith, k.fewer, l.fewer);
        })

  enter-Ran :
      (s : Hal W) (channel : ℕ) (ack : Bool) (r : Running)
      → IsValid s
      → ((t : Hal W) → t.running_state ≡ r → Turn s t)
      → Ensures (Hazard pf) (λ _ t. Ran pending s t) (enter pf channel ack r s)
  unfolding enter
  enter-Ran s channel ack r v f =
      let c = set_channel channel ack in
      let k =
        Kept-world s (pf.phy_ioctl s.driver_index c s.world) v
          (d.ioctl_adds s.driver_index c s.world v.opened) in
      let l = Kept-trans k (tick pf pending d _ k.valid) in
      done (record {
        valid = turned _ r _ s.sock_index l.valid (index_of s v);
        turn = f _ refl;
        fewer = l.fewer;
      })

  -- On a driver as described by `IsDriver`, from a valid state, which has the driver open, and with more fuel
  -- than packets that the driver has left, a call of `running` ends in a valid state, with one of the
  -- turns between the channels: it goes from the start of a channel into the channel, leaves the
  -- management channel only if a peer has a pipe, and leaves the data channel only if a pipe was
  -- free. It faults only if the open driver can hand over a packet that overruns a buffer: one of a
  -- single byte on a data pipe, or a presence packet of more than 30.
  pub running-Ran :
      (fuel : ℕ) (s : Hal W)
      → IsValid s
      → pending s.world < fuel
      → Ensures (Hazard pf) (λ _ t. Ran pending s t) (running pf fuel s)
  unfolding running
  running-Ran fuel s v fits =
      running_cases s.running_state _ _ _ _ s
        (λ e. enter-Ran s channel_mgmt false mgmt v (λ _ f. enter_mgmt e f))
        (λ e. run_mgmt-Ran s v e) (λ e. enter-Ran s channel_raw true raw v (λ _ f. enter_raw e f))
        λ e. run_raw-Ran fuel s v fits e
