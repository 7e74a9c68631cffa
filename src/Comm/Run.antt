-- ===== src/Comm/Run.antt =====
-- What the functions of comm_nrf24l01.c call and do not implement, and how they run: each takes
-- the state and returns a value with the new state. An access to memory outside of the object is a
-- fault. A loop over incoming packets takes fuel.
use knot_hal_source.Prelude.{
  ℕ, zero, suc, ◌+◌, ◌-◌, ◌≡◌, sym, ◌∙◌, arith, false, List, Option, none, some, Bool, ℤ, ◌==◌, leb,
  if◌then◌else◌, length, get_elem?, get_elem?-set_self, lt_of_get_elem?, set, slice, write_at,
}
use knot_hal_source.Comm.State.{Hal, Peer, Mgmt}

-- `enum nrf24_cmds` with its arguments; the others are not used by this file.
pub data Command : Type 0 where
  set_pipe : ℕ → List ℕ → Command
  reset_pipe : ℕ → Command
  set_channel : ℕ → Bool → Command
  set_standby : Command

-- The driver (phy_driver.c), the clock and the stack, over a world of their own. `phy_read` takes
-- the driver, the pipe and the payload's old bytes, and returns the length or an error with the
-- payload's new bytes. `frame` is what an uninitialised payload on the stack holds.
pub record Platform (W : Type 0) : Type 0 where
  pub phy_open : List ℕ → W → ℤ × W
  pub phy_close : ℤ → W → ℤ × W
  pub phy_read : ℤ → ℕ → List ℕ → W → ℤ × List ℕ × W
  pub phy_write : ℤ → ℕ → List ℕ → ℕ → W → ℤ × W
  pub phy_ioctl : ℤ → Command → W → W
  pub time_ms : W → ℕ × W
  pub delay_us : ℕ → W → W
  pub frame : List ℕ

pub data Run (W A : Type 0) : Type 0 where
  ok : A → Hal W → Run W A
  fault : Run W A
  out_of_fuel : Run W A

abbrev pub M : Type 0 → Type 0 → Type 0
M W A = Hal W → Run W A

-- `peers[sockfd - 1]`
abbrev pub peer_at : ℕ → List Peer → Option Peer
peer_at sockfd ps = if sockfd == 0 then none else get_elem? ps (sockfd - 1)

pub peer_at-suc : (n : ℕ) (ps : List Peer) → peer_at (suc n) ps ≡ get_elem? ps n
peer_at-suc n ps =
    let t : (suc n == 0) ≡ false = ground arith in let k : suc n - 1 ≡ n = omega arith in rw (t, k)

-- A peer that was stored is read back, and stands where there was one.
pub peer_at-set :
    (n : ℕ) (ps : List Peer) {p : Peer} (q : Peer)
    → peer_at n ps ≡ some p
    → peer_at n (set ps (n - 1) q) ≡ some q
peer_at-set zero ps q e = cc
peer_at-set (suc n) ps {p = p} q e =
    let k : suc n - 1 ≡ n = omega arith in
    rw (peer_at-suc, k)
      (get_elem?-set_self ps n q (lt_of_get_elem? ps n p (sym (peer_at-suc n ps) ∙ e)))

module _ {W : Type 0} where
  abbrev pub and_then : {A B : Type 0} → Run W A → (A → Hal W → Run W B) → Run W B
  and_then (ok a s) k = k a s
  and_then fault k = fault
  and_then out_of_fuel k = out_of_fuel

  infixl 5 ◌>>=◌ ◌>>◌
  abbrev pub ◌>>=◌ : {A B : Type 0} → (Hal W → Run W A) → (A → Hal W → Run W B) → Hal W → Run W B
  (m >>= k) s = and_then (m s) k

  abbrev pub ◌>>◌ : {A B : Type 0} → (Hal W → Run W A) → (Hal W → Run W B) → Hal W → Run W B
  (m >> k) s = and_then (m s) (λ _. k)

  abbrev pub pure : {A : Type 0} → A → Hal W → Run W A
  pure = ok

  abbrev pub get : Hal W → Run W (Hal W)
  get s = ok s s

  abbrev pub modify : (Hal W → Hal W) → Hal W → Run W (Unit {0})
  modify f s = ok tt (f s)

  abbrev pub from_option : {A : Type 0} → Option A → Hal W → Run W A
  from_option none s = fault
  from_option (some a) s = ok a s

  abbrev pub load_peer : ℕ → Hal W → Run W Peer
  load_peer sockfd s = from_option (peer_at sockfd s.peers) s

  abbrev pub store_peer : ℕ → Peer → Hal W → Run W (Unit {0})
  store_peer sockfd p s = ok tt (record s { peers = set s.peers (sockfd - 1) p })

  abbrev pub store_mgmt : Mgmt → Hal W → Run W (Unit {0})
  store_mgmt m s = ok tt (record s { mgmt = m })

  -- `memcpy` of `n` bytes, from an offset of one object to an offset of another
  abbrev pub memcpy : List ℕ → ℕ → List ℕ → ℕ → ℕ → Hal W → Run W (List ℕ)
  memcpy dst to src from n s =
      if leb (to + n) (length dst)
      then (if leb (from + n) (length src)
          then ok (write_at dst to (slice from n src)) s
          else fault)
      else fault

module _ {W : Type 0} (pf : Platform W) where
  abbrev pub hal_time_ms : Hal W → Run W ℕ
  hal_time_ms s = let (t, w) = pf.time_ms s.world in ok t (record s { world = w })

  abbrev pub hal_delay_us : ℕ → Hal W → Run W (Unit {0})
  hal_delay_us n s = ok tt (record s { world = pf.delay_us n s.world })

  -- `phy_write (driverIndex, &p, len)`
  abbrev pub write_pack : ℕ → List ℕ → ℕ → Hal W → Run W ℤ
  write_pack pipe payload len s =
      let (r, w) = pf.phy_write s.driver_index pipe payload len s.world in
      ok r (record s { world = w })

  -- `phy_read (driverIndex, &p, NRF24_MTU)`
  abbrev pub read_pack : ℕ → List ℕ → Hal W → Run W (ℤ × List ℕ)
  read_pack pipe payload s =
      let (r, bytes, w) = pf.phy_read s.driver_index pipe payload s.world in
      ok (r, bytes) (record s { world = w })

  abbrev pub ioctl : Command → Hal W → Run W (Unit {0})
  ioctl c s = ok tt (record s { world = pf.phy_ioctl s.driver_index c s.world })
