-- ===== src/Comm/Raw.antt =====
-- The data pipes of comm_nrf24l01.c: `write_raw` and `read_raw`.
pub mod Receive
pub mod Fragments
pub mod Message
pub mod Transmit
use knot_hal_source.Prelude.{
  ℕ, zero, suc, ◌+◌, ◌-◌, ◌%◌, ◌^◌, min, List, Option, none, some, ℤ, pos, negsuc, is_neg, not,
  ◌&&◌, ◌||◌, true, false, ◌==◌, ltb, leb, if◌then◌else◌, bytes_eq, set, slice, write_at, length,
}
use knot_hal_source.Link.{
  lid, nseq, set_lid, set_nseq, lid_data_frag, lid_data_end, lid_control, nrf24_pw_msg_size,
  data_hdr_size, ctrl_opcode, ctrl_src_addr, ctrl_dst_addr, op_keepalive_req, op_keepalive_rsp,
  op_disconnect, set_evt_opcode, evt_disconnected, evt_disconnected_size, header_size,
}
use knot_hal_source.Comm.Errors.{eagain, einval}
use knot_hal_source.Comm.State.{Peer, Mgmt, data_size}
use knot_hal_source.Comm.Run.{
  Platform, M, out_of_fuel, ◌>>=◌, ◌>>◌, pure, get, from_option, load_peer, store_peer, store_mgmt,
  memcpy, hal_time_ms, hal_delay_us, write_pack, read_pack,
}
use knot_hal_source.Comm.Control.{write_keepalive}

-- `size_t` of the Raspberry Pi
abbrev pub size_mod : ℕ
size_mod = 2 ^ 32

-- A data packet of `ilen` bytes, as the peer takes it. `none` is a `memcpy` outside of the
-- payload or of the buffer.
unfoldable pub copy_data : Peer → ℕ → List ℕ → Option Peer
copy_data p plen pl =
    if leb (p.offset_rx + plen) (length p.buffer_rx) && leb (2 + plen) (length pl)
    then some (record p {
      buffer_rx = write_at p.buffer_rx p.offset_rx (slice 2 plen pl);
      offset_rx = p.offset_rx + plen;
      seqnumber_rx = (p.seqnumber_rx + 1) % 256;
    })
    else none

unfoldable pub finish_data : List ℕ → Peer → Peer
finish_data pl p =
    if lid pl == lid_data_end
    then record p { len_rx = p.offset_rx; seqnumber_rx = 0; offset_rx = 0 }
    else p

-- `plen`, before and after it is limited to the room in the buffer
abbrev pub payload_length : ℕ → ℕ
payload_length ilen = (ilen + size_mod - data_hdr_size) % size_mod

abbrev pub limited_length : ℕ → ℕ → ℕ
limited_length offset plen =
    if ltb data_size ((offset + plen) % size_mod)
    then (data_size + size_mod - offset) % size_mod
    else plen

unfoldable pub accept_data : Peer → ℕ → List ℕ → Option Peer
accept_data p ilen pl =
    if (lid pl == lid_data_frag) && ltb (payload_length ilen) nrf24_pw_msg_size
    then some p
    else elim (copy_data p (limited_length p.offset_rx (payload_length ilen)) pl) [
      | none ↦ none
      | some q ↦ some (finish_data pl q)
    ]

abbrev pub reset_keepalive : Peer → Peer
reset_keepalive p = if p.keepalive == 0 then p else record p { keepalive = 1 }

abbrev pub reset_sequence : ℕ → Peer → Peer
reset_sequence n p = if n == 0 then record p { offset_rx = 0; seqnumber_rx = 0 } else p

-- in the sequence: the packet with the number that the peer waits for
unfoldable pub sequence_data : Peer → ℕ → List ℕ → Option Peer
sequence_data p ilen pl =
    if ltb p.seqnumber_rx (nseq pl)
    then some p
    else if ltb (nseq pl) p.seqnumber_rx
    then some p
    else accept_data p ilen pl

unfoldable pub receive_data : Peer → ℕ → List ℕ → Option Peer
receive_data p ilen pl =
    if not (p.len_rx == 0)
    then some (reset_keepalive p)
    else sequence_data (reset_sequence (nseq pl) (reset_keepalive p)) ilen pl

-- The event of a disconnection. The index of the header is left.
unfoldable pub disconnected_event : List ℕ → Mgmt → Mgmt
disconnected_event mac m = record m {
  buffer_rx = write_at (set_evt_opcode evt_disconnected m.buffer_rx) 3 mac;
  len_rx = header_size + evt_disconnected_size;
}

module _ {W : Type 0} where
  -- The next packet, with `left` bytes still to be sent, over what the payload held.
  unfoldable pub data_packet : Peer → ℕ → List ℕ → M W (List ℕ)
  data_packet p left payload =
      let kind = if ltb nrf24_pw_msg_size left then lid_data_frag else lid_data_end in
      memcpy (set_nseq p.seqnumber_tx (set_lid kind payload)) 2 p.buffer_tx (p.len_tx - left)
        (min left nrf24_pw_msg_size)

module _ {W : Type 0} (pf : Platform W) where
  unfoldable pub write_raw_loop : ℕ → ℕ → ℕ → List ℕ → M W ℤ
  write_raw_loop zero sockfd left payload = λ s. out_of_fuel
  write_raw_loop (suc fuel) sockfd zero payload = do
    p ← load_peer sockfd
    store_peer sockfd (record p { len_tx = 0; seqnumber_tx = 0 })
    pure (pos p.len_tx)
  write_raw_loop (suc fuel) sockfd (suc left) payload = do
    hal_delay_us pf 512
    p ← load_peer sockfd
    packet ← data_packet p (suc left) payload
    err ← write_pack pf sockfd packet (min (suc left) nrf24_pw_msg_size + data_hdr_size)
    if is_neg err
        then (do store_peer sockfd (record p { len_tx = 0; seqnumber_tx = 0 }); pure err)
        else (do
          store_peer sockfd (record p { seqnumber_tx = (p.seqnumber_tx + 1) % 256 })
          write_raw_loop fuel sockfd (suc left - min (suc left) nrf24_pw_msg_size) packet)

  -- Every round sends a byte at least, so the length is enough fuel.
  unfoldable pub write_raw : ℕ → M W ℤ
  unfolding write_raw_loop
  write_raw sockfd = do
    p ← load_peer sockfd
    if p.len_tx == 0
        then pure eagain
        else if ltb data_size p.len_tx
        then pure einval
        else write_raw_loop (suc p.len_tx) sockfd p.len_tx pf.frame

  unfoldable pub raw_control : ℕ → List ℕ → M W (Unit {0})
  raw_control sockfd pl = do
    s ← get
    p ← load_peer sockfd
    if (ctrl_opcode pl == op_keepalive_req)
          && (bytes_eq (ctrl_src_addr pl) p.mac && bytes_eq (ctrl_dst_addr pl) s.mac_local)
        then (do err ← write_keepalive pf sockfd op_keepalive_rsp p.mac s.mac_local; pure tt)
        else if ctrl_opcode pl == op_keepalive_rsp
        then store_peer sockfd (reset_keepalive p)
        else if (ctrl_opcode pl == op_disconnect) && (s.mgmt.len_rx == 0)
        then store_mgmt (disconnected_event (ctrl_src_addr pl) s.mgmt)
        else pure tt

  unfoldable pub raw_packet : ℕ → ℕ → List ℕ → M W (Unit {0})
  unfolding raw_control
  raw_packet sockfd ilen pl = do
    time_ms ← hal_time_ms pf
    p ← load_peer sockfd
    let anchored = record p { keepalive_anchor = time_ms }
    store_peer sockfd anchored
    if lid pl == lid_control
        then raw_control sockfd pl
        else if (lid pl == lid_data_frag) || (lid pl == lid_data_end)
        then (do q ← from_option (receive_data anchored ilen pl); store_peer sockfd q)
        else pure tt

  -- Each round takes one packet from the driver.
  unfoldable pub read_raw_loop : ℕ → ℕ → List ℕ → M W ℤ
  read_raw_loop zero sockfd payload = λ s. out_of_fuel
  read_raw_loop (suc fuel) sockfd payload = do
    r ← read_pack pf sockfd payload
    elim r.0 [
      | pos zero ↦ pure (pos 0)
      | pos (suc n) ↦ (raw_packet sockfd (suc n) r.1 >> read_raw_loop fuel sockfd r.1)
      | negsuc n ↦ pure (pos 0)
    ]

  unfoldable pub read_raw : ℕ → ℕ → M W ℤ
  unfolding read_raw_loop
  read_raw fuel sockfd = read_raw_loop fuel sockfd (set pf.frame 0 0)
