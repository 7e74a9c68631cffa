-- ===== src/Comm/Invariant/Session.antt =====
-- Any sequence of calls of hal/comm.h, made on the state that the initialisers leave.
use knot_hal_source.Prelude.{refl, ℕ, ◌≤◌, ◌<◌, ◌≡◌, List, [], ◌∷◌, ℤ, arith, length, is_neg, false}
use knot_hal_source.Comm.State.{Hal, initial}
use knot_hal_source.Comm.Run.{Platform, Run, ok, fault, out_of_fuel, and_then, M, ◌>>=◌, ◌>>◌, pure}
use knot_hal_source.Comm.Socket.{
  hal_comm_init, hal_comm_deinit, hal_comm_socket, hal_comm_close, hal_comm_read, hal_comm_write,
  hal_comm_listen, hal_comm_accept, hal_comm_connect, number,
}
use knot_hal_source.Comm.Invariant.{Hazard, Rests, IsDriver, IsSocket, IsValid}
use knot_hal_source.Comm.Invariant.Rules.{Ensures, done, overrun, Ensures-bind, Ensures-weaken}
use knot_hal_source.Comm.Invariant.Socket.{
  Sits, Lives, initial-Rests, hal_comm_read-Lives, hal_comm_write-Lives,
}
use knot_hal_source.Comm.Invariant.Connection.{
  hal_comm_socket-Lives, hal_comm_close-Lives, hal_comm_listen-Sits, hal_comm_accept-Lives,
}
use knot_hal_source.Comm.Invariant.Lifecycle.{
  hal_comm_init-Sits, hal_comm_deinit-Sits, hal_comm_connect-Lives,
}

-- A call with its arguments
pub data Call : Type 0 where
  init : List ℕ → List ℕ → Call
  deinit : Call
  socket : ℕ → ℕ → Call
  close : ℤ → Call
  read : ℤ → ℕ → Call
  write : ℤ → List ℕ → ℕ → Call
  listen : Call
  accept : List ℕ → Call
  connect : ℤ → List ℕ → Call

-- What the functions leave to the caller: addresses have 8 bytes, the bytes to be written are there,
-- and only a socket of the data channel is connected.
abbrev pub IsCall : Call → Type 0
IsCall (init path mac) = length mac ≡ 8
IsCall deinit = Unit {0}
IsCall (socket domain protocol) = Unit {0}
IsCall (close sockfd) = Unit {0}
IsCall (read sockfd count) = Unit {0}
IsCall (write sockfd buffer count) = count ≤ length buffer
IsCall listen = Unit {0}
IsCall (accept addr) = Unit {0}
IsCall (connect sockfd addr) = IsSocket (number sockfd) × (length addr ≡ 8)

-- All but `init`, `deinit` and `listen` use the driver without a look at its index, so they are left
-- for when it is open.
abbrev pub Ready : {W : Type 0} → Call → Hal W → Type 0
Ready (init path mac) s = Unit {0}
Ready deinit s = Unit {0}
Ready listen s = Unit {0}
Ready (socket domain protocol) s = is_neg s.driver_index ≡ false
Ready (close sockfd) s = is_neg s.driver_index ≡ false
Ready (read sockfd count) s = is_neg s.driver_index ≡ false
Ready (write sockfd buffer count) s = is_neg s.driver_index ≡ false
Ready (accept addr) s = is_neg s.driver_index ≡ false
Ready (connect sockfd addr) s = is_neg s.driver_index ≡ false

module _ {W : Type 0} (pf : Platform W) where
  unfoldable pub perform : ℕ → Call → M W (Unit {0})
  perform fuel (init path mac) = do r ← hal_comm_init pf path mac; pure tt
  perform fuel deinit = do r ← hal_comm_deinit pf; pure tt
  perform fuel (socket domain protocol) = do r ← hal_comm_socket pf domain protocol; pure tt
  perform fuel (close sockfd) = do r ← hal_comm_close pf sockfd; pure tt
  perform fuel (read sockfd count) = do r ← hal_comm_read pf fuel sockfd count; pure tt
  perform fuel (write sockfd buffer count) = do
    r ← hal_comm_write pf fuel sockfd buffer count
    pure tt
  perform fuel listen = do r ← hal_comm_listen; pure tt
  perform fuel (accept addr) = do r ← hal_comm_accept pf fuel addr; pure tt
  perform fuel (connect sockfd addr) = do r ← hal_comm_connect pf fuel sockfd addr; pure tt

  unfoldable pub session : ℕ → List Call → M W (Unit {0})
  session fuel [] = pure tt
  session fuel (c ∷ cs) = perform fuel c >> session fuel cs

module _ {W : Type 0} (pf : Platform W) where
  -- Each call is ready where the calls before it leave the state.
  abbrev pub AllReady : ℕ → List Call → Hal W → Type 0
  AllReady fuel [] s = Unit {0}
  AllReady fuel (c ∷ cs) s = IsCall c × Ready c s × (elim (perform pf fuel c s) as (λ _. Type 0) [
    | ok _ t ↦ AllReady fuel cs t
    | fault ↦ Unit {0}
    | out_of_fuel ↦ Unit {0}
  ])

opened_IsValid : {W : Type 0} (s : Hal W) → Rests s → is_neg s.driver_index ≡ false → IsValid s
opened_IsValid s v h = record {
  pipes = v.pipes;
  sound = v.sound;
  mgmt_sound = v.mgmt_sound;
  mac_area = v.mac_area;
  index_low = v.index_low;
  index_high = v.index_high;
  opened = h;
}

sits : {W : Type 0} {pending : W → ℕ} {s t : Hal W} → Lives pending s t → Sits pending s t
sits l = record {
  rests = record {
    pipes = l.valid.pipes;
    sound = l.valid.sound;
    mgmt_sound = l.valid.mgmt_sound;
    mac_area = l.valid.mac_area;
    index_low = l.valid.index_low;
    index_high = l.valid.index_high;
    opened = refl;
  };
  fewer = l.fewer;
}

-- what is left of a run, where the state that it ends in has the property `P`
Ensures-next :
    {W H : Type 0} {Q R : Unit {0} → Hal W → Type 0} {P : Hal W → Type 0} {r : Run W (Unit {0})}
    (k : Unit {0} → Hal W → Run W (Unit {0}))
    → Ensures H Q r
    → (elim r as (λ _. Type 0) [ ok _ t ↦ P t | fault ↦ Unit {0} | out_of_fuel ↦ Unit {0} ])
    → ((t : Hal W) → Q tt t → P t → Ensures H R (k tt t))
    → Ensures H R (and_then r k)
Ensures-next k (done h) p f = f _ h p
Ensures-next k (overrun x) p f = overrun x

module _ {W : Type 0} (pf : Platform W) (pending : W → ℕ) (d : IsDriver pf pending) where
  perform-Sits :
      (fuel : ℕ) (c : Call) (s : Hal W)
      → IsCall c
      → Ready c s
      → Rests s
      → pending s.world < fuel
      → Ensures (Hazard pf) (λ _ t. Sits pending s t) (perform pf fuel c s)
  unfolding perform
  perform-Sits fuel (init path mac) s h o v fits =
      Ensures-bind (hal_comm_init-Sits pf pending d path mac s h v) λ _ _ l. done l
  perform-Sits fuel deinit s h o v fits =
      Ensures-bind (hal_comm_deinit-Sits pf pending d s v) λ _ _ l. done l
  perform-Sits fuel listen s h o v fits =
      Ensures-bind (hal_comm_listen-Sits pending s v) λ _ _ l. done l
  perform-Sits fuel (socket domain protocol) s h o v fits =
      Ensures-bind (hal_comm_socket-Lives pf pending d domain protocol s (opened_IsValid s v o))
        λ _ _ l. done (sits l)
  perform-Sits fuel (close sockfd) s h o v fits =
      Ensures-bind (hal_comm_close-Lives pf pending d sockfd s (opened_IsValid s v o))
        λ _ _ l. done (sits l)
  perform-Sits fuel (read sockfd count) s h o v fits =
      Ensures-bind
        (hal_comm_read-Lives pf pending d fuel sockfd count s (opened_IsValid s v o) fits)
        λ _ _ l. done (sits l)
  perform-Sits fuel (write sockfd buffer count) s h o v fits =
      Ensures-bind
        (hal_comm_write-Lives pf pending d fuel sockfd buffer count s h (opened_IsValid s v o) fits)
        λ _ _ l. done (sits l)
  perform-Sits fuel (accept addr) s h o v fits =
      Ensures-bind (hal_comm_accept-Lives pf pending d fuel addr s (opened_IsValid s v o) fits)
        λ _ _ l. done (sits l)
  perform-Sits fuel (connect sockfd addr) s h o v fits =
      Ensures-bind
        (hal_comm_connect-Lives pf pending d fuel sockfd addr s h.0 h.1 (opened_IsValid s v o) fits)
        λ _ _ l. done (sits l)

  session-Sits :
      (fuel : ℕ) (cs : List Call) (s : Hal W)
      → AllReady pf fuel cs s
      → Rests s
      → pending s.world < fuel
      → Ensures (Hazard pf) (λ _ t. Sits pending s t) (session pf fuel cs s)
  unfolding session
  session-Sits fuel [] s h v fits = done (record { rests = v; fewer = omega arith })
  session-Sits fuel (c ∷ cs) s (h, o, next) v fits =
      Ensures-next {P = AllReady pf fuel cs} _ (perform-Sits fuel c s h o v fits) next λ t l p.
        Ensures-weaken (session-Sits fuel cs t p l.rests (omega (arith, l.fewer)))
          λ _ _ m. record { rests = m.rests; fewer = omega (arith, l.fewer, m.fewer) }

  -- On a driver that keeps `IsDriver` while it is open, from the state that the initialisers leave,
  -- a sequence of calls of hal/comm.h is made, each with the arguments that its function leaves to
  -- the caller, and a call other than init, deinit and listen only where the calls before it leave
  -- the driver open. The sequence comes to its end as soon as the fuel exceeds the number of packets that
  -- the driver has to hand over, in a state in which the bitmask is that of the assigned pipes, each
  -- peer has no pipe or that of its place, and every length and offset fits in its buffer. Only one
  -- thing can lead it outside of a buffer: an open driver that can hand over a packet of one byte on a
  -- data pipe, or a presence packet of more than 30 bytes on pipe 0.
  pub session-IsValid :
      (fuel : ℕ) (cs : List Call) (w : W)
      → AllReady pf fuel cs (initial w)
      → pending w < fuel
      → Ensures (Hazard pf) (λ _ t. Rests t) (session pf fuel cs (initial w))
  session-IsValid fuel cs w h fits =
      Ensures-weaken (session-Sits fuel cs (initial w) h (initial-Rests w) fits) λ _ _ l. l.rests
