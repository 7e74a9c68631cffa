-- ===== src/Tests.antt =====
-- A radio with packets to be handed over, some states of the stack, and the theorems at them.
use knot_hal_source.Prelude.{
  ℕ, zero, suc, ◌+◌, ◌%◌, ◌^◌, ◌≤◌, ◌<◌, ◌≡◌, ◌↔◌, ◌⊎◌, inr, refl, ap, true, none, some, List, [],
  ◌∷◌, ℤ, pos, negsuc, arith, ◌==◌, if◌then◌else◌, length, replicate, set, take, get_elem?,
}
use knot_hal_source.Clock.{hal_timeout, u32_mod}
use knot_hal_source.Clock.Laws.{timeout_fires}
use knot_hal_source.Comm.State.{Hal, Peer, Mgmt, raw, fresh_peer, initial}
use knot_hal_source.Comm.Run.{Platform, ok, fault}
use knot_hal_source.Comm.Pipes.{
  alloc_pipe, update_raw_timeout, find_free, set_bit, clr_bit, chk_bit, sum_windows, offset_of,
}
use knot_hal_source.Comm.Control.{write_disconnect}
use knot_hal_source.Comm.Pipes.Bits.{windows}
use knot_hal_source.Comm.Pipes.Bitmask.{IsAssigned}
use knot_hal_source.Comm.Pipes.Alloc.{alloc_pipe-IsAssigned, update_raw_timeout_lem}
use knot_hal_source.Comm.Mgmt.{read_presence, read_connect_req}
use knot_hal_source.Comm.Mgmt.Presence.{read_presence_overflows}
use knot_hal_source.Comm.Raw.{receive_data, read_raw, write_raw}
use knot_hal_source.Comm.Raw.Receive.{IsSound, receive_data-IsSound, receive_data_short}
use knot_hal_source.Comm.Raw.Fragments.{deliver, fragments}
use knot_hal_source.Comm.Raw.Message.{fragments_arrive}
use knot_hal_source.Comm.Raw.Transmit.{transmit, sent, write_raw-eq-transmit}
use knot_hal_source.Comm.Scheduler.{running, enter, release_pipe}
use knot_hal_source.Phy.{Driver, Phy, find_driver, phy_open, phy_close}
use knot_hal_source.Phy.Count.{phy_close-phy_open_first}
use knot_hal_source.Comm.Socket.{
  number, connect_pdu, access_address, hal_comm_init, hal_comm_socket, socket_mgmt, socket_raw,
  open_pipe, hal_comm_listen, hal_comm_read, read_socket, close_pipe, hal_comm_close,
  hal_comm_deinit,
}
use knot_hal_source.Comm.Socket.Handshake.{read_connect_req-connect_pdu}
use knot_hal_source.Link.{evt_opcode, evt_connected, evt_cn_src, evt_cn_dst, evt_cn_aa}
use knot_hal_source.Comm.Invariant.{Hazard, IsDriver, IsSocket, Rests}
use knot_hal_source.Comm.Invariant.Rules.{Ensures, Kept}
use knot_hal_source.Comm.Invariant.Control.{read_raw-Keeps}
use knot_hal_source.Comm.Invariant.Running.{Ran, running-Ran}
use knot_hal_source.Comm.Invariant.Socket.{fresh_peer-IsSound, initial-Rests, no_pipes}
use knot_hal_source.Comm.Invariant.Session.{
  Call, init, deinit, socket, close, read, listen, session, session-IsValid, perform,
}

-- The world is the number of packets left. Each has 12 bytes, and its first byte is 1.
abbrev radio_read : ℤ → ℕ → List ℕ → ℕ → ℤ × List ℕ × ℕ
radio_read d pipe pl zero = (pos 0, pl, 0)
radio_read d pipe pl (suc w) = (pos 12, replicate 32 1, w)

abbrev radio : Platform ℕ
radio = record {
  phy_open = λ path w. (pos 0, w);
  phy_close = λ d w. (pos 0, w);
  phy_read = radio_read;
  phy_write = λ d pipe pl n w. (pos n, w);
  phy_ioctl = λ d c w. w;
  time_ms = λ w. (5000, w);
  delay_us = λ n w. w;
  frame = replicate 32 0;
}

abbrev left : ℕ → ℕ
left w = w

reads_area :
    (d : ℤ) (pipe : ℕ) (pl : List ℕ) (w : ℕ)
    → length pl ≡ 32
    → length (radio_read d pipe pl w).1 ≡ 32
reads_area d pipe pl zero h = h
reads_area d pipe pl (suc w) h = refl

reads_length :
    (d : ℤ) (pipe : ℕ) (pl : List ℕ) (w n : ℕ) → (radio_read d pipe pl w).0 ≡ pos n → n ≤ 30
reads_length d pipe pl zero n e = omega (arith, ap number e)
reads_length d pipe pl (suc w) n e = omega (arith, ap number e)

reads_drain :
    (d : ℤ) (pipe : ℕ) (pl : List ℕ) (w n : ℕ)
    → (radio_read d pipe pl w).0 ≡ pos (suc n)
    → (radio_read d pipe pl w).2 < w
reads_drain d pipe pl zero n e = absurd (omega (arith, ap number e))
reads_drain d pipe pl (suc w) n e = omega arith

reads_add : (d : ℤ) (pipe : ℕ) (pl : List ℕ) (w : ℕ) → (radio_read d pipe pl w).2 ≤ w
reads_add d pipe pl zero = omega arith
reads_add d pipe pl (suc w) = omega arith

radio-IsDriver : IsDriver radio left
radio-IsDriver = record {
  frame_area = refl;
  read_area = λ d pipe pl w on. reads_area d pipe pl w;
  read_length = λ d pipe pl w n on e. omega (arith, reads_length d pipe pl w n e);
  read_drains = λ d pipe pl w n on. reads_drain d pipe pl w n;
  read_adds = λ d pipe pl w on. reads_add d pipe pl w;
  open_adds = λ path w. omega arith;
  close_adds = λ d w. omega arith;
  write_adds = λ d pipe pl n w on. omega arith;
  ioctl_adds = λ d c w on. omega arith;
  time_adds = λ w. omega arith;
  delay_adds = λ n w. omega arith;
}

abbrev start_state : Hal ℕ
start_state = initial 2

abbrev open_state : Hal ℕ
open_state = record start_state { driver_index = pos 0 }

abbrev blank : List ℕ
blank = replicate 32 0

-- 40 bytes: two packets
abbrev message : List ℕ
message = replicate 40 7

abbrev idle_peer : Peer
idle_peer = fresh_peer (some 1)

abbrev waiting_peer : Peer
waiting_peer = record idle_peer { buffer_tx = replicate 128 7; len_tx = 40 }

abbrev with_peer : Peer → Hal ℕ
with_peer p = record start_state {
  peers = set (replicate 5 (fresh_peer none)) 0 p;
  pipe_bitmask = 3;
}

fragments_arrive_example :
    (q : Peer) × (deliver idle_peer blank (fragments 5 0 message blank) ≡ some q)
    × (q.len_rx ≡ length message)
    × (take q.len_rx q.buffer_rx ≡ message)
    × (q.seqnumber_rx ≡ 0)
    × (q.offset_rx ≡ 0)
fragments_arrive_example =
    fragments_arrive idle_peer message blank blank refl refl refl refl (omega arith) (omega arith)

write_raw-eq-transmit_example :
    write_raw radio 1 (with_peer waiting_peer)
    ≡ sent radio 1 waiting_peer
        (with_peer waiting_peer)
        (transmit radio (negsuc 0) 1 (fragments 5 0 (take 40 (replicate 128 7)) blank) 2)
write_raw-eq-transmit_example =
    write_raw-eq-transmit radio 1 (with_peer waiting_peer) waiting_peer refl refl refl (omega arith)
      (omega arith) refl

abbrev mac_a : List ℕ
mac_a = 1 ∷ 2 ∷ 3 ∷ 4 ∷ 5 ∷ 6 ∷ 7 ∷ 8 ∷ []

abbrev calls : List Call
calls =
    init [] mac_a ∷ socket 1 1 ∷ socket 1 0 ∷ listen ∷ read (pos 0) 32 ∷ close (pos 1) ∷ deinit ∷ []

IsSocket-one : IsSocket 1
IsSocket-one = record { low = omega arith; high = omega arith }

session-IsValid_example :
    Ensures (Hazard radio) (λ _ t. Rests t) (session radio 3 calls start_state)
unfolding perform hal_comm_init hal_comm_socket socket_mgmt socket_raw open_pipe alloc_pipe
    find_free set_bit chk_bit hal_comm_listen hal_comm_read running enter read_socket close_pipe
    hal_comm_close write_disconnect release_pipe clr_bit update_raw_timeout sum_windows offset_of
    hal_comm_deinit
session-IsValid_example =
    session-IsValid radio left radio-IsDriver 3 calls 2
      (refl, tt, (tt, refl, (tt, refl, (tt, tt, (tt, refl, (tt, refl, (tt, tt, tt)))))))
      (omega arith)

running-Ran_example :
    Ensures (Hazard radio) (λ _ t. Ran left open_state t) (running radio 3 open_state)
running-Ran_example =
    running-Ran radio left radio-IsDriver 3 open_state (initial-Rests 2) (omega arith)

read_raw-Keeps_example :
    Ensures (Hazard radio) (λ _ t. Kept left open_state t) (read_raw radio 3 1 open_state)
read_raw-Keeps_example =
    read_raw-Keeps radio left radio-IsDriver 3 1 open_state IsSocket-one (omega arith)
      (initial-Rests 2)

receive_data-IsSound_example :
    (q : Peer) × (receive_data idle_peer 12 (replicate 32 1) ≡ some q) × IsSound q
receive_data-IsSound_example =
    receive_data-IsSound idle_peer 12 (replicate 32 1) (fresh_peer-IsSound (some 1)) refl
      (omega arith) (omega arith)

receive_data_short_example : receive_data idle_peer 1 (replicate 32 1) ≡ none
receive_data_short_example =
    receive_data_short idle_peer (replicate 32 1) (fresh_peer-IsSound (some 1)) refl refl (inr refl)

alloc_pipe-IsAssigned_example :
    ((alloc_pipe start_state ≡ ok (negsuc 0) start_state) × (start_state.pipe_bitmask ≡ 63))
    ⊎ ((j : ℕ) × (p : Peer) × (get_elem? (replicate 5 (fresh_peer none)) j ≡ some p)
        × (p.pipe ≡ none)
        × (let t = record start_state {
          peers = set (replicate 5 (fresh_peer none)) j (fresh_peer (some (j + 1)));
          pipe_bitmask = 1 + 2 ^ (j + 1);
        } in
            (alloc_pipe start_state ≡ ok (pos (j + 1)) t) × IsAssigned t.pipe_bitmask t.peers))
alloc_pipe-IsAssigned_example = alloc_pipe-IsAssigned start_state no_pipes

update_raw_timeout_lem_example :
    (t : Hal ℕ) × (update_raw_timeout (with_peer idle_peer) ≡ ok tt t)
    × (t.raw_timeout ≡ (if windows 3 == 0 then 10 else windows 3))
    × (10 ≤ t.raw_timeout)
    × (t.raw_timeout ≤ 111)
    × (t.rt_offset ≤ 32)
    × (t.rt_offset ≤ t.raw_timeout)
update_raw_timeout_lem_example = update_raw_timeout_lem (with_peer idle_peer) (omega arith)

read_presence_overflows_example : read_presence radio 31 (replicate 32 1) start_state ≡ fault
read_presence_overflows_example =
    read_presence_overflows radio start_state 31 (replicate 32 1) refl refl (omega arith)

timeout_fires_example :
    (hal_timeout ((4_294_967_290 + 10) % u32_mod) 4_294_967_290 10 ≡ true)
    ↔ ((4_294_967_290 + 10 < u32_mod) × (10 ≤ 10) ⊎ (u32_mod ≤ 4_294_967_290 + 10) × (10 + 1 ≤ 10))
timeout_fires_example = timeout_fires 4_294_967_290 10 10 (omega arith) (omega arith)

-- A driver that counts its openings
abbrev counting : ℕ → ℤ → Driver ℕ
counting users fd = record {
  name = 78 ∷ [];
  pathname = 47 ∷ [];
  open_device = λ path w. (pos 3, w + 1);
  close_device = λ fd w. w;
  read = λ fd buffer len w. (pos 0, buffer, w);
  write = λ fd buffer len w. (pos len, w);
  ioctl = λ fd cmd arg w. (pos 0, w);
  ref_open = users;
  fd = fd;
}

abbrev drivers : ℕ → ℤ → Phy ℕ
drivers users fd = record { driver_ops = counting users fd ∷ []; world = 5 }

phy_close-phy_open_first_example :
    (t : Phy ℕ) × (phy_open (78 ∷ []) (drivers 0 (negsuc 0)) ≡ some (pos 0, t))
    × (t.world ≡ 6)
    × (phy_close (pos 0) t
        ≡ some (
          pos 0,
          record (drivers 0 (negsuc 0)) {
            world = (counting 0 (negsuc 0)).close_device (pos 3) t.world;
          },
        ))
unfolding find_driver
phy_close-phy_open_first_example =
    phy_close-phy_open_first (drivers 0 (negsuc 0)) (78 ∷ []) 0 (counting 0 (negsuc 0)) 3 refl refl
      refl refl refl

-- the clock shows 5000
abbrev busy_state : Hal ℕ
busy_state = record (with_peer idle_peer) { running_state = raw; rt_stamp = 136; rt_offset = 32 }

abbrev mac_b : List ℕ
mac_b = 11 ∷ 12 ∷ 13 ∷ 14 ∷ 15 ∷ 16 ∷ 17 ∷ 18 ∷ []

abbrev thing_state : Hal ℕ
thing_state = record start_state { mac_local = mac_a }

read_connect_req-connect_pdu_example :
    (m : Mgmt) × (read_connect_req radio 31 (connect_pdu mac_b mac_a 1 blank) thing_state
      ≡ ok (pos 31) (record thing_state { mgmt = m }))
    × (m.len_rx ≡ 25)
    × (evt_opcode m.buffer_rx ≡ evt_connected)
    × (evt_cn_src m.buffer_rx ≡ mac_b)
    × (evt_cn_dst m.buffer_rx ≡ mac_a)
    × (evt_cn_aa m.buffer_rx ≡ access_address mac_b 1)
read_connect_req-connect_pdu_example =
    read_connect_req-connect_pdu radio thing_state mac_b blank 1 refl refl refl refl
