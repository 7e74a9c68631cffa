-- ===== src/Comm/Pipes.antt =====
-- The pipes of comm_nrf24l01.c: the bitmask of those that are assigned, their allocation, and the
-- time that they are given on the data channel.
pub mod Bits
pub mod Bitmask
pub mod Alloc
use knot_hal_source.Prelude.{
  ℕ, suc, ◌+◌, ◌-◌, ◌/◌, ◌%◌, ◌^◌, ◌≡◌, Bool, true, false, not, Option, none, some, List, [], ◌∷◌,
  ℤ, pos, negsuc, ◌==◌, ltb, if◌then◌else◌, bit_and, bit_or, set,
}
use knot_hal_source.Comm.State.{Hal, Peer, fresh_peer, raw_timeout_default}
use knot_hal_source.Comm.Run.{Run, ok, M, ◌>>=◌, ◌>>◌, pure, get, modify}

-- `SET_BIT`, `CLR_BIT` and `CHK_BIT` on a `uint8_t`
unfoldable pub set_bit : ℕ → ℕ → ℕ
set_bit val idx = bit_or val (2 ^ idx)

unfoldable pub clr_bit : ℕ → ℕ → ℕ
clr_bit val idx = bit_and val (255 - 2 ^ idx)

unfoldable pub chk_bit : ℕ → ℕ → Bool
chk_bit val idx = not (bit_and val (2 ^ idx) == 0)

abbrev pub pipe_raw_bitmask : ℕ
pipe_raw_bitmask = 0b00111110

-- `PIPE1_WINDOW` to `PIPE5_WINDOW`, added to a `uint8_t`
add_window : ℕ → ℕ → ℕ → ℕ → ℕ
add_window mask idx window time = if chk_bit mask idx then (time + window) % 256 else time

unfoldable pub sum_windows : ℕ → ℕ
unfolding add_window chk_bit
sum_windows mask =
    add_window mask 5 30
      (add_window mask 4 26 (add_window mask 3 22 (add_window mask 2 18 (add_window mask 1 15 0))))

unfoldable pub offset_of : ℕ → ℕ
offset_of new_time = if ltb 20 (new_time / 3) then new_time / 3 - 5 else new_time / 3

module _ {W : Type 0} where
  -- `raw_timeout = new_raw_time ()`, which sets `rt_offset` too
  unfoldable pub update_raw_timeout : M W (Unit {0})
  update_raw_timeout s =
      let new_time = sum_windows s.pipe_bitmask in
      ok tt (record s {
        rt_offset = offset_of new_time;
        raw_timeout = if new_time == 0 then raw_timeout_default else new_time;
      })

-- the first peer of the array without a pipe, from index `i` on
unfoldable pub find_free : ℕ → List Peer → Option ℕ
find_free i [] = none
find_free i (p ∷ ps) = elim p.pipe [ none ↦ some i | some k ↦ find_free (suc i) ps ]

module _ {W : Type 0} where
  unfoldable pub alloc_pipe : M W ℤ
  alloc_pipe s = elim (find_free 0 s.peers) [
    | none ↦ ok (negsuc 0) s
    | some i ↦ ok (pos (i + 1)) (record s {
      peers = set s.peers i (fresh_peer (some (i + 1)));
      pipe_bitmask = set_bit s.pipe_bitmask (i + 1);
    })
  ]
