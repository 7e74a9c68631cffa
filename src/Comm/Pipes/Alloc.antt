-- ===== src/Comm/Pipes/Alloc.antt =====
-- `alloc_pipe` and `new_raw_time` keep the bitmask, the peers and the times together.
use knot_hal_source.Prelude.{
  ℕ, suc, ◌+◌, ◌-◌, ◌^◌, ◌≤◌, ◌<◌, ◌≡◌, ◌⊎◌, inl, inr, refl, ap, ◌∙◌, none, some, Option-cases,
  List, pos, negsuc, arith, ◌==◌, if◌then◌else◌, length-set, lt_of_get_elem?, get_elem?, set,
}
use knot_hal_source.Comm.State.{Hal, Peer, fresh_peer}
use knot_hal_source.Comm.Run.{ok}
use knot_hal_source.Comm.Pipes.{
  set_bit, clr_bit, offset_of, find_free, alloc_pipe, update_raw_timeout,
}
use knot_hal_source.Comm.Pipes.Bits.{bit, set_bit_lem, clr_bit_lem, sum_windows_lem, windows}
use knot_hal_source.Comm.Pipes.Bitmask.{
  IsAssigned, mask_of, pipe_bit, bit_at, InPlace-set, mask_of-set, find_free-some, find_free-none,
  all_bits,
}

-- Writing a peer with the pipe of its place sets its bit; the bit was clear.
set_bit-IsAssigned :
    (mask : ℕ) (ps : List Peer) (j : ℕ) (p q : Peer)
    → IsAssigned mask ps
    → get_elem? ps j ≡ some p
    → p.pipe ≡ none
    → q.pipe ≡ some (j + 1)
    → (set_bit mask (j + 1) ≡ mask + 2 ^ (j + 1)) × IsAssigned (set_bit mask (j + 1)) (set ps j q)
set_bit-IsAssigned mask ps j p q v h e f =
    let n : j < 5 = omega (arith, lt_of_get_elem? ps j p h, v.count) in
    let (small, clear_of, _) = bit_at ps j p v.count v.places h in
    let c : suc j ≡ j + 1 = omega arith in
    let clear : bit mask (j + 1) ≡ 0 = rw (v.bits, ← c) (clear_of (ap pipe_bit e)) in
    let b : set_bit mask (j + 1) ≡ mask + 2 ^ (j + 1) =
      set_bit_lem mask (j + 1) (omega (arith, v.bits)) (omega arith) ∙ rw clear refl in
    let place : q.pipe ≡ some (suc (0 + j)) =
      let d : j + 1 ≡ suc (0 + j) = omega arith in f ∙ ap some d in
    (
      b,
      record {
        count = length-set ps j q ∙ v.count;
        places = InPlace-set 0 j ps q v.places (inr place);
        bits = omega (arith, b, v.bits, mask_of-set ps j p q h, ap pipe_bit e, ap pipe_bit f);
      },
    )

-- Where the bitmask and five peers go together, taking the pipe away from a peer that has one
-- clears its bit, which was set, and no other; the bitmask and the peers go together again.
pub clr_bit-IsAssigned :
    (mask : ℕ) (ps : List Peer) (j : ℕ) (p q : Peer)
    → IsAssigned mask ps
    → get_elem? ps j ≡ some p
    → p.pipe ≡ some (suc j)
    → q.pipe ≡ none
    → (clr_bit mask (suc j) + 2 ^ suc j ≡ mask) × IsAssigned (clr_bit mask (suc j)) (set ps j q)
clr_bit-IsAssigned mask ps j p q v h e f =
    let n : j < 5 = omega (arith, lt_of_get_elem? ps j p h, v.count) in
    let (small, _, set_of) = bit_at ps j p v.count v.places h in
    let on : bit mask (suc j) ≡ 1 = rw v.bits (set_of (ap pipe_bit e)) in
    let b : clr_bit mask (suc j) ≡ mask - 2 ^ suc j =
      clr_bit_lem mask (suc j) (omega (arith, v.bits)) (omega arith) ∙ rw on refl in
    let m : mask_of (set ps j q) + 2 ^ suc j ≡ mask_of ps =
      omega (arith, mask_of-set ps j p q h, ap pipe_bit e, ap pipe_bit f) in
    (
      omega (arith, b, v.bits, m),
      record {
        count = length-set ps j q ∙ v.count;
        places = InPlace-set 0 j ps q v.places (inl f);
        bits = omega (arith, b, v.bits, m);
      },
    )

module _ {W : Type 0} (s : Hal W) where
  -- `alloc_pipe` fails, with -1 and the state as it was, only if the bitmask is full. Otherwise it
  -- finds a peer that has no pipe, resets it, gives it the pipe that goes with its place, sets just
  -- the bit of that pipe, and changes nothing else; the peers and the bitmask go together again.
  pub alloc_pipe-IsAssigned :
      IsAssigned s.pipe_bitmask s.peers
      → ((alloc_pipe s ≡ ok (negsuc 0) s) × (s.pipe_bitmask ≡ 63))
        ⊎ ((j : ℕ) × (p : Peer) × (get_elem? s.peers j ≡ some p)
            × (p.pipe ≡ none)
            × (let t = record s {
              peers = set s.peers j (fresh_peer (some (j + 1)));
              pipe_bitmask = s.pipe_bitmask + 2 ^ (j + 1);
            } in
                (alloc_pipe s ≡ ok (pos (j + 1)) t) × IsAssigned t.pipe_bitmask t.peers))
  unfolding alloc_pipe
  alloc_pipe-IsAssigned v = elim (Option-cases (find_free 0 s.peers)) [
    | inl e ↦ inl (
      rw (e, alloc_pipe),
      omega (arith, v.bits, find_free-none 0 s.peers v.places e ∙ ap (all_bits 0) v.count),
    )
    | inr (i, e) ↦
        let (j, p, k, h, free) = find_free-some 0 s.peers i e in
        let i=j : i ≡ j = omega arith in
        let (b, w) =
          set_bit-IsAssigned s.pipe_bitmask s.peers j p (fresh_peer (some (j + 1))) v h free refl in
        inr (j, p, h, free, (rw (e, alloc_pipe, i=j, b), rw b at w))
  ]

  -- The time on the data channel is the sum of the windows of the assigned pipes, or the default of
  -- 10 ms if none is; it stays within 10 and 111 ms, and the pause before leaving within 32 ms.
  pub update_raw_timeout_lem :
      s.pipe_bitmask < 64
      → (t : Hal W) × (update_raw_timeout s ≡ ok tt t)
        × (t.raw_timeout ≡ (if windows s.pipe_bitmask == 0 then 10 else windows s.pipe_bitmask))
        × (10 ≤ t.raw_timeout)
        × (t.raw_timeout ≤ 111)
        × (t.rt_offset ≤ 32)
        × (t.rt_offset ≤ t.raw_timeout)
  unfolding update_raw_timeout offset_of
  update_raw_timeout_lem h =
      let w = sum_windows_lem s.pipe_bitmask h in
      (
        record s {
          rt_offset = offset_of (windows s.pipe_bitmask);
          raw_timeout = if windows s.pipe_bitmask == 0 then 10 else windows s.pipe_bitmask;
        },
        rw w,
        refl,
        ground arith,
        ground arith,
        ground arith,
        ground arith,
      )
