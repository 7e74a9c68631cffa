-- ===== src/Comm/Socket.antt =====
-- The functions of hal/comm.h as comm_nrf24l01.c implements them.
pub mod Transfer
pub mod Handshake
use knot_hal_source.Prelude.{
  ℕ, zero, suc, ◌+◌, ◌%◌, min, Bool, true, false, not, ◌&&◌, ◌||◌, none, some, List, [], ◌∷◌, ℤ,
  pos, negsuc, is_neg, eq_ℤ, ◌==◌, ltb, leb, if◌then◌else◌, bytes_eq, replicate, set, slice, take,
  write_at,
}
use knot_hal_source.Link.{
  set_mgmt_type, pdu_type_connect_req, mgmt_connect_size, evt_opcode, evt_connected, evt_cn_src,
  evt_cn_dst, evt_cn_aa,
}
use knot_hal_source.Comm.Errors.{eperm, eagain, ebusy, einval, eusers}
use knot_hal_source.Comm.State.{
  start_mgmt, presence, timeout_interval, data_size, zero_mac, fresh_peer, fresh_mgmt,
  connection_counter,
}
use knot_hal_source.Comm.Run.{
  ok, Platform, M, ◌>>=◌, ◌>>◌, pure, get, modify, load_peer, store_peer, store_mgmt, memcpy,
  hal_time_ms, ioctl, set_pipe, reset_pipe,
}
use knot_hal_source.Comm.Pipes.{set_bit, alloc_pipe, update_raw_timeout}
use knot_hal_source.Comm.Control.{write_disconnect}
use knot_hal_source.Comm.Scheduler.{running, release_pipe, channel_raw}

abbrev pub pf_nrf24 : ℕ
pf_nrf24 = 1

abbrev pub proto_raw : ℕ
proto_raw = 0

abbrev pub proto_mgmt : ℕ
proto_mgmt = 1

-- `aa_pipe0`
abbrev pub aa_pipe0 : List ℕ
aa_pipe0 = 0x8D ∷ 0xD9 ∷ 0xBE ∷ 0x96 ∷ 0xDE ∷ []

-- The access address of a pipe: the last five bytes of the address, the first of them the pipe.
abbrev pub access_address : List ℕ → ℕ → List ℕ
access_address mac pipe = set (slice 3 5 mac) 0 (pipe % 256)

-- `sockfd >= 1 && sockfd <= 5`
abbrev pub is_raw_socket : ℤ → Bool
is_raw_socket (negsuc n) = false
is_raw_socket (pos n) = leb 1 n && leb n 5

abbrev pub number : ℤ → ℕ
number (negsuc n) = 0
number (pos n) = n

-- The connect request, over what the buffer held before: its last member is left.
abbrev pub connect_pdu : List ℕ → List ℕ → ℕ → List ℕ → List ℕ
connect_pdu src dst sockfd b =
    write_at
      (set (write_at (write_at (set_mgmt_type pdu_type_connect_req b) 1 src) 9 dst) 17 channel_raw)
      18 (access_address src sockfd)

module _ {W : Type 0} where
  unfoldable pub hal_comm_listen : M W ℤ
  hal_comm_listen s =
      ok (pos 0) (record s { listen = true; pipe_bitmask = set_bit s.pipe_bitmask 0 })

module _ {W : Type 0} (pf : Platform W) where
  unfoldable pub hal_comm_init : List ℕ → List ℕ → M W ℤ
  hal_comm_init pathname mac = do
    s ← get
    if not (eq_ℤ s.driver_index (negsuc 0)) then pure eperm else (do
      let r = pf.phy_open pathname s.world
      modify (λ t. record t { driver_index = r.0; world = r.1 })
      if is_neg r.0
          then pure r.0
          else (do modify (λ t. record t { mac_local = mac }); pure (pos 0)))

  unfoldable pub hal_comm_deinit : M W ℤ
  hal_comm_deinit = do
    s ← get
    if eq_ℤ s.driver_index (negsuc 0) then pure eperm else (do
      let r = pf.phy_close s.driver_index s.world
      modify (λ t. record t { world = r.1 })
      if is_neg r.0 then pure r.0 else (do
        modify (λ t. record t {
          driver_index = negsuc 0;
          peers = replicate connection_counter (fresh_peer none);
          mgmt = fresh_mgmt;
          pipe_bitmask = 1;
          running_state = start_mgmt;
          presence_state = presence;
          previous_state = timeout_interval;
        })
        pure r.0))

  -- `ap.pipe = retval; phy_ioctl (driverIndex, NRF24_CMD_SET_PIPE, &ap);`
  unfoldable pub open_pipe : ℕ → List ℕ → M W ℤ
  open_pipe pipe aa = do ioctl pf (set_pipe pipe aa); pure (pos pipe)

  unfoldable pub socket_mgmt : M W ℤ
  unfolding open_pipe
  socket_mgmt = do
    s ← get
    elim s.mgmt.pipe [
      | none ↦ (do store_mgmt (record s.mgmt { pipe = some 0 }); open_pipe 0 aa_pipe0)
      | some k ↦ pure eusers
    ]

  unfoldable pub socket_raw : M W ℤ
  unfolding open_pipe
  socket_raw = do
    s ← get
    elim s.mgmt.pipe [
      | none ↦ (do store_mgmt (record s.mgmt { pipe = some 0 }); open_pipe 0 aa_pipe0)
      | some k ↦ (do
        r ← alloc_pipe
        elim r [
          | negsuc n ↦ pure eusers
          | pos pipe ↦ open_pipe pipe (access_address s.mac_local pipe)
        ])
    ]

  unfoldable pub hal_comm_socket : ℕ → ℕ → M W ℤ
  unfolding socket_mgmt socket_raw
  hal_comm_socket domain protocol = do
    s ← get
    if not (domain == pf_nrf24)
        then pure eperm
        else if eq_ℤ s.driver_index (negsuc 0)
        then pure eperm
        else if protocol == proto_mgmt
        then socket_mgmt
        else if protocol == proto_raw
        then socket_raw
        else pure einval

  unfoldable pub close_pipe : ℕ → M W (Unit {0})
  close_pipe sockfd = do
    s ← get
    p ← load_peer sockfd
    if bytes_eq s.mac_local zero_mac
        then pure tt
        else (do err ← write_disconnect pf sockfd p.mac s.mac_local; pure tt)
    release_pipe pf sockfd
    ioctl pf (reset_pipe sockfd)
    update_raw_timeout
    q ← load_peer sockfd
    store_peer sockfd (record q { keepalive = 0 })

  unfoldable pub hal_comm_close : ℤ → M W ℤ
  unfolding close_pipe
  hal_comm_close sockfd = do
    s ← get
    if eq_ℤ s.driver_index (negsuc 0)
        then pure eperm
        else if is_raw_socket sockfd
        then (do
          p ← load_peer (number sockfd)
          elim p.pipe [
            | none ↦ pure (pos 0)
            | some k ↦ (close_pipe (number sockfd) >> pure (pos 0))
          ])
        else pure (pos 0)

  -- What was read stands beside the result.
  unfoldable pub read_socket : ℕ → ℕ → M W (ℤ × List ℕ)
  read_socket zero count = do
    s ← get
    if s.mgmt.len_rx == 0 then pure (eagain, []) else (do
      bytes ← memcpy (replicate count 0) 0 s.mgmt.buffer_rx 0 (min count s.mgmt.len_rx)
      store_mgmt (record s.mgmt { len_rx = 0 })
      pure (pos (min count s.mgmt.len_rx), take (min count s.mgmt.len_rx) bytes))
  read_socket (suc n) count = do
    p ← load_peer (suc n)
    if p.len_rx == 0 then pure (eagain, []) else (do
      bytes ← memcpy (replicate count 0) 0 p.buffer_rx 0 (min count p.len_rx)
      store_peer (suc n) (record p { len_rx = 0 })
      pure (pos (min count p.len_rx), take (min count p.len_rx) bytes))

  unfoldable pub hal_comm_read : ℕ → ℤ → ℕ → M W (ℤ × List ℕ)
  hal_comm_read fuel sockfd count = do
    running pf fuel
    if is_neg sockfd || (ltb 5 (number sockfd) || count == 0)
        then pure (einval, [])
        else read_socket (number sockfd) count

  unfoldable pub write_socket : ℕ → List ℕ → ℕ → M W ℤ
  write_socket sockfd buffer count = do
    p ← load_peer sockfd
    if not (p.len_tx == 0) then pure ebusy else (do
      bytes ← memcpy p.buffer_tx 0 buffer 0 count
      store_peer sockfd (record p { buffer_tx = bytes; len_tx = count })
      pure (pos count))

  unfoldable pub hal_comm_write : ℕ → ℤ → List ℕ → ℕ → M W ℤ
  hal_comm_write fuel sockfd buffer count = do
    running pf fuel
    if not (is_raw_socket sockfd) || (count == 0 || ltb data_size count)
        then pure einval
        else write_socket (number sockfd) buffer count

  -- The pipe of an accepted peer, from the event `b`
  unfoldable pub accept_peer : ℕ → List ℕ → M W (Unit {0})
  accept_peer pipe b = do
    modify (λ s. record s { listen = false })
    ioctl pf (set_pipe pipe (evt_cn_aa b))
    update_raw_timeout
    p ← load_peer pipe
    now ← hal_time_ms pf
    store_peer pipe (record p { mac = evt_cn_src b; keepalive = 0; keepalive_anchor = now })

  unfoldable pub take_connection : List ℕ → List ℕ → M W (ℤ × List ℕ)
  unfolding accept_peer
  take_connection b addr = do
    s ← get
    if not (evt_opcode b == evt_connected) || not (bytes_eq (evt_cn_dst b) s.mac_local)
        then pure (eagain, addr)
        else (do
          r ← alloc_pipe
          elim r [
            | negsuc n ↦ pure (eusers, addr)
            | pos pipe ↦ (accept_peer pipe b >> pure (pos pipe, evt_cn_src b))
          ])

  -- `addr` is what the caller's address holds: the new one stands beside the result.
  unfoldable pub hal_comm_accept : ℕ → List ℕ → M W (ℤ × List ℕ)
  unfolding take_connection
  hal_comm_accept fuel addr = do
    running pf fuel
    s ← get
    if s.mgmt.len_rx == 0
        then pure (eagain, addr)
        else (do store_mgmt (record s.mgmt { len_rx = 0 }); take_connection s.mgmt.buffer_rx addr)

  -- No test of `sockfd`: `peers[sockfd - 1]` is a fault where it names no peer.
  unfoldable pub send_connect : ℕ → List ℕ → M W ℤ
  send_connect sockfd addr = do
    s ← get
    if not (s.mgmt.len_tx == 0) then pure ebusy else (do
      store_mgmt
          (record s.mgmt { buffer_tx = connect_pdu s.mac_local addr sockfd s.mgmt.buffer_tx })
      p ← load_peer sockfd
      now ← hal_time_ms pf
      store_peer sockfd (record p { mac = addr; keepalive_anchor = now; keepalive = 1 })
      t ← get
      store_mgmt (record t.mgmt { len_tx = 1 + mgmt_connect_size })
      pure (pos 0))

  unfoldable pub hal_comm_connect : ℕ → ℤ → List ℕ → M W ℤ
  unfolding send_connect
  hal_comm_connect fuel sockfd addr = do running pf fuel; send_connect (number sockfd) addr
