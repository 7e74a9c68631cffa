-- ===== src/Comm/Mgmt/Presence.antt =====
-- The event of a presence packet: when it fits, and what it holds.
use knot_hal_source.Prelude.{
  ℕ, ◌+◌, ◌-◌, ◌≤◌, ◌<◌, ◌≡◌, ◌∙◌, ◌++◌, length-take, length-drop, List, pos, arith, true, false,
  leb, ltb, le→leb, length, length-write_at, length-set, set, slice, write_at, take, take-write_at,
  drop,
}
use knot_hal_source.Link.{presence_mac, set_evt_opcode, evt_bcast_presence}
use knot_hal_source.Comm.State.{Hal, mgmt_size}
use knot_hal_source.Comm.Run.{Platform, ok, fault}
use knot_hal_source.Comm.Mgmt.{read_presence}

-- the header of the event and the address
abbrev pub event_head : List ℕ → List ℕ → List ℕ
event_head b p = write_at (set (set_evt_opcode evt_bcast_presence b) 2 0) 3 (presence_mac p)

length-event_head : (b p : List ℕ) → length (event_head b p) ≡ length b
length-event_head b p =
    length-write_at _ 3 (presence_mac p) ∙ length-set _ 2 0 ∙ length-set _ 1 _ ∙ length-set b 0 _

module _ {W : Type 0} (pf : Platform W) (s : Hal W) (ilen : ℕ) (p : List ℕ) where
  -- A thing that does not listen turns a presence packet of 9 to 30 bytes into an event: the address,
  -- and behind it all that follows the address in the packet.
  pub read_presence_fits :
      s.listen ≡ false
      → length s.mgmt.buffer_rx ≡ mgmt_size
      → length p ≡ 32
      → 9 ≤ ilen
      → ilen ≤ 30
      → (b : List ℕ) × (read_presence pf ilen p s
          ≡ ok
              (pos ilen)
              (record s { mgmt = record s.mgmt { buffer_rx = b; len_rx = ilen - 1 + 3 } }))
        × (take (ilen - 1 + 3) b
            ≡ take 11 (event_head s.mgmt.buffer_rx p) ++ slice 9 (ilen - 8 - 1) p)
  unfolding read_presence
  read_presence_fits quiet area size lo hi =
      let head = event_head s.mgmt.buffer_rx p in
      let l : length head ≡ 32 = length-event_head s.mgmt.buffer_rx p ∙ area in
      let a : ltb ilen 9 ≡ false = ground arith in
      let x : leb (11 + (ilen - 8 - 1)) (length head) ≡ true = le→leb _ _ (omega arith) in
      let y : leb (9 + (ilen - 8 - 1)) (length p) ≡ true = le→leb _ _ (omega arith) in
      let c : length (slice 9 (ilen - 8 - 1) p) ≡ ilen - 8 - 1 =
        omega (arith, length-take (ilen - 8 - 1) (drop 9 p), length-drop 9 p) in
      (
        write_at head 11 (slice 9 (ilen - 8 - 1) p),
        rw (quiet, a, x, y),
        take-write_at head 11 (slice 9 (ilen - 8 - 1) p) (ilen - 1 + 3) (omega arith) (omega arith),
      )

  -- A presence packet of 31 or 32 bytes does not fit: its event is two bytes longer than the packet,
  -- and `memcpy` leaves the 32 bytes of the buffer.
  pub read_presence_overflows :
      s.listen ≡ false
      → length s.mgmt.buffer_rx ≡ mgmt_size
      → 30 < ilen
      → read_presence pf ilen p s ≡ fault
  unfolding read_presence
  read_presence_overflows quiet area h =
      let head = event_head s.mgmt.buffer_rx p in
      let l : length head ≡ 32 = length-event_head s.mgmt.buffer_rx p ∙ area in
      let a : ltb ilen 9 ≡ false = ground arith in
      let x : leb (11 + (ilen - 8 - 1)) (length head) ≡ false = ground arith in rw (quiet, a, x)
