-- ===== src/Comm/Invariant.antt =====
-- What holds of the state between the calls of comm_nrf24l01.c, and what the code relies on of the
-- driver.
pub mod Rules
pub mod Control
pub mod Management
pub mod Scheduler
pub mod Beacon
pub mod Running
pub mod Socket
pub mod Connection
pub mod Lifecycle
pub mod Session
use knot_hal_source.Prelude.{
  ℕ, zero, suc, ◌+◌, ◌-◌, ◌≤◌, ◌<◌, ◌≡◌, ◌⊎◌, inl, inr, refl, sym, ap, ◌∙◌, Bool, true, false,
  Option, none, some, List, [], ◌∷◌, ℤ, pos, negsuc, arith, ◌==◌, if◌then◌else◌, length, length-set,
  get_elem?, get_elem?_of_lt, set, is_neg,
}
use knot_hal_source.Link.{mgmt_type, pdu_type_presence}
use knot_hal_source.Comm.State.{Hal, Peer, Mgmt, mgmt_size}
use knot_hal_source.Comm.Run.{
  Platform, Command, Run, ok, and_then, from_option, peer_at, peer_at-suc,
}
use knot_hal_source.Comm.Pipes.Bitmask.{
  IsAssigned, InPlace, mask_of, pipe_bit, InPlace-set, InPlace-at, mask_of-set,
}
use knot_hal_source.Comm.Raw.Receive.{IsSound}

-- What the code relies on of an open driver, the clock and the stack. A payload has 32 bytes, and no
-- packet is longer. `pending` bounds the packets that the driver still has to hand over: reading
-- one takes it away, and no call adds to them.
pub record IsDriver {W : Type 0} (pf : Platform W) (pending : W → ℕ) : Type 0 where
  pub frame_area : length pf.frame ≡ 32
  pub read_area :
      (d : ℤ) (pipe : ℕ) (pl : List ℕ) (w : W)
      → is_neg d ≡ false
      → length pl ≡ 32
      → length (pf.phy_read d pipe pl w).1 ≡ 32
  pub read_length :
      (d : ℤ) (pipe : ℕ) (pl : List ℕ) (w : W) (n : ℕ)
      → is_neg d ≡ false
      → (pf.phy_read d pipe pl w).0 ≡ pos n
      → n ≤ 32
  pub read_drains :
      (d : ℤ) (pipe : ℕ) (pl : List ℕ) (w : W) (n : ℕ)
      → is_neg d ≡ false
      → (pf.phy_read d pipe pl w).0 ≡ pos (suc n)
      → pending (pf.phy_read d pipe pl w).2 < pending w
  pub read_adds :
      (d : ℤ) (pipe : ℕ) (pl : List ℕ) (w : W)
      → is_neg d ≡ false
      → pending (pf.phy_read d pipe pl w).2 ≤ pending w
  pub open_adds : (path : List ℕ) (w : W) → pending (pf.phy_open path w).1 ≤ pending w
  pub close_adds : (d : ℤ) (w : W) → pending (pf.phy_close d w).1 ≤ pending w
  pub write_adds :
      (d : ℤ) (pipe : ℕ) (pl : List ℕ) (n : ℕ) (w : W)
      → is_neg d ≡ false
      → pending (pf.phy_write d pipe pl n w).1 ≤ pending w
  pub ioctl_adds :
      (d : ℤ) (c : Command) (w : W) → is_neg d ≡ false → pending (pf.phy_ioctl d c w) ≤ pending w
  pub time_adds : (w : W) → pending (pf.time_ms w).1 ≤ pending w
  pub delay_adds : (n : ℕ) (w : W) → pending (pf.delay_us n w) ≤ pending w

-- The packets that overrun a buffer: one of a single byte on a data pipe, and a presence packet of 31 or 32
-- bytes, whose event is two bytes longer. It is an open driver that hands them over.
pub data Hazard {W : Type 0} (pf : Platform W) : Type 0 where
  short_packet :
      (d : ℤ) (pipe : ℕ) (pl : List ℕ) (w : W)
      → is_neg d ≡ false
      → 1 ≤ pipe
      → (pf.phy_read d pipe pl w).0 ≡ pos 1
      → Hazard pf
  long_presence :
      (d : ℤ) (pl : List ℕ) (w : W) (n : ℕ)
      → is_neg d ≡ false
      → (pf.phy_read d 0 pl w).0 ≡ pos n
      → 30 < n
      → mgmt_type (pf.phy_read d 0 pl w).1 ≡ pdu_type_presence
      → Hazard pf

pub record IsMgmt (m : Mgmt) : Type 0 where
  pub rx_area : length m.buffer_rx ≡ mgmt_size
  pub tx_area : length m.buffer_tx ≡ mgmt_size
  pub rx_fits : m.len_rx ≤ mgmt_size
  pub tx_fits : m.len_tx ≤ mgmt_size

abbrev pub AllSound : List Peer → Type 0
AllSound [] = Unit {0}
AllSound (p ∷ ps) = IsSound p × AllSound ps

-- The driver is open, and the peers, the bitmask and the lengths go together.
pub record IsValid {W : Type 0} (s : Hal W) : Type 0 where
  pub pipes : IsAssigned s.pipe_bitmask s.peers
  pub sound : AllSound s.peers
  pub mgmt_sound : IsMgmt s.mgmt
  pub mac_area : length s.mac_local ≡ 8
  pub index_low : 1 ≤ s.sock_index
  pub index_high : s.sock_index ≤ 5
  pub opened : is_neg s.driver_index ≡ false

-- What holds between the calls of hal/comm.h: all of this, but the driver may be closed.
abbrev pub Rests : {W : Type 0} → Hal W → Type 0
Rests s = IsValid (record s { driver_index = pos 0 })

AllSound-at :
    (ps : List Peer) (i : ℕ) {p : Peer} → AllSound ps → get_elem? ps i ≡ some p → IsSound p
AllSound-at [] i v e = cc
AllSound-at (x ∷ ps) zero v e = ground arith
AllSound-at (x ∷ ps) (suc i) v e = AllSound-at ps i v.1 e

pub AllSound-set :
    (ps : List Peer) (i : ℕ) {q : Peer} → AllSound ps → IsSound q → AllSound (set ps i q)
AllSound-set [] i v h = tt
AllSound-set (x ∷ ps) zero v h = (h, v.1)
AllSound-set (x ∷ ps) (suc i) v h = (v.0, AllSound-set ps i v.1 h)

-- A peer that keeps its pipe is stored.
pub store-IsAssigned :
    (mask : ℕ) (ps : List Peer) (n : ℕ) {p : Peer} (q : Peer)
    → IsAssigned mask ps
    → peer_at n ps ≡ some p
    → q.pipe ≡ p.pipe
    → IsAssigned mask (set ps (n - 1) q)
store-IsAssigned mask ps zero q v e h = cc
store-IsAssigned mask ps (suc n) {p} q v e h =
    let found : get_elem? ps n ≡ some p = sym (peer_at-suc n ps) ∙ e in
    let k : suc n - 1 ≡ n = omega arith in
    rw k (record {
      count = length-set ps n q ∙ v.count;
      places = InPlace-set 0 n ps q v.places (rw h (InPlace-at 0 n ps v.places found));
      bits = omega (arith, v.bits, mask_of-set ps n p q found, ap pipe_bit h);
    })

-- A socket of the data channel
pub record IsSocket (n : ℕ) : Type 0 where
  pub low : 1 ≤ n
  pub high : n ≤ 5

peer_of :
    (n : ℕ) (ps : List Peer) → IsSocket n → length ps ≡ 5 → (p : Peer) × (peer_at n ps ≡ some p)
peer_of zero ps h l = elim h.low [ ]
peer_of (suc n) ps h l =
    let (p, e) = get_elem?_of_lt ps n (omega arith) in (p, peer_at-suc n ps ∙ e)

module _ {W : Type 0} where
  pub IsSound-at :
      (n : ℕ) (s : Hal W) {p : Peer} → IsValid s → peer_at n s.peers ≡ some p → IsSound p
  IsSound-at zero s v e = cc
  IsSound-at (suc n) s v e = AllSound-at s.peers n v.sound (sym (peer_at-suc n s.peers) ∙ e)

  pub socket_peer :
      (n : ℕ) (s : Hal W) → IsSocket n → IsValid s → (p : Peer) × (peer_at n s.peers ≡ some p)
  socket_peer n s h v = peer_of n s.peers h v.pipes.count

  pub store-IsValid :
      (n : ℕ) (s : Hal W) {p : Peer} (q : Peer)
      → IsValid s
      → peer_at n s.peers ≡ some p
      → q.pipe ≡ p.pipe
      → IsSound q
      → IsValid (record s { peers = set s.peers (n - 1) q })
  store-IsValid n s q v e h w = record {
    pipes = store-IsAssigned s.pipe_bitmask s.peers n q v.pipes e h;
    sound = AllSound-set s.peers (n - 1) v.sound w;
    mgmt_sound = v.mgmt_sound;
    mac_area = v.mac_area;
    index_low = v.index_low;
    index_high = v.index_high;
    opened = v.opened;
  }

  pub mgmt-IsValid : (s : Hal W) (m : Mgmt) → IsValid s → IsMgmt m → IsValid (record s { mgmt = m })
  mgmt-IsValid s m v h = record {
    pipes = v.pipes;
    sound = v.sound;
    mgmt_sound = h;
    mac_area = v.mac_area;
    index_low = v.index_low;
    index_high = v.index_high;
    opened = v.opened;
  }
