-- ===== src/Comm/Mgmt.antt =====
-- The management pipe of comm_nrf24l01.c: `write_mgmt` and `read_mgmt`.
pub mod Presence
use knot_hal_source.Prelude.{
  ℕ, zero, suc, ◌+◌, ◌-◌, List, ℤ, pos, negsuc, is_neg, not, ◌==◌, ltb, if◌then◌else◌, bytes_eq,
  set, write_at,
}
use knot_hal_source.Link.{
  mgmt_type, pdu_type_presence, pdu_type_connect_req, presence_mac, connect_src, connect_dst,
  connect_channel, connect_aa, mgmt_connect_size, set_evt_opcode, evt_bcast_presence, evt_connected,
  evt_connected_size, header_size,
}
use knot_hal_source.Comm.Errors.{eagain, ebusy, einval}
use knot_hal_source.Comm.State.{Mgmt}
use knot_hal_source.Comm.Run.{
  Platform, M, ◌>>=◌, ◌>>◌, pure, get, store_mgmt, memcpy, write_pack, read_pack,
}

-- The event of a connect request.
unfoldable pub connected_event : List ℕ → Mgmt → Mgmt
connected_event p m = record m {
  buffer_rx =
      write_at
        (set
          (write_at
            (write_at (set (set_evt_opcode evt_connected m.buffer_rx) 2 0) 3 (connect_src p)) 11
            (connect_dst p))
          19 (connect_channel p))
        20 (connect_aa p);
  len_rx = header_size + evt_connected_size;
}

module _ {W : Type 0} (pf : Platform W) where
  unfoldable pub write_mgmt : M W ℤ
  write_mgmt = do
    s ← get
    if s.mgmt.len_tx == 0 then pure eagain else (do
      payload ← memcpy pf.frame 0 s.mgmt.buffer_tx 0 s.mgmt.len_tx
      err ← write_pack pf 0 payload s.mgmt.len_tx
      if is_neg err then pure err else (do store_mgmt (record s.mgmt { len_tx = 0 }); pure err))

  -- A presence packet `p` of `ilen` bytes: the event's name is what follows the address.
  unfoldable pub read_presence : ℕ → List ℕ → M W ℤ
  read_presence ilen p = do
    s ← get
    if s.listen then pure eagain else if ltb ilen 9 then pure einval else (do
      let head = set (set_evt_opcode evt_bcast_presence s.mgmt.buffer_rx) 2 0
      buffer ← memcpy (write_at head 3 (presence_mac p)) 11 p 9 (ilen - 8 - 1)
      store_mgmt (record s.mgmt { buffer_rx = buffer; len_rx = ilen - 1 + header_size })
      pure (pos ilen))

  unfoldable pub read_connect_req : ℕ → List ℕ → M W ℤ
  unfolding connected_event
  read_connect_req ilen p = do
    s ← get
    if not (ilen == 1 + mgmt_connect_size)
        then pure einval
        else if not (bytes_eq (connect_dst p) s.mac_local)
        then pure eagain
        else (do store_mgmt (connected_event p s.mgmt); pure (pos ilen))

  -- A packet that was read, of `ilen` bytes
  unfoldable pub mgmt_packet : ℕ → List ℕ → M W ℤ
  unfolding read_presence read_connect_req
  mgmt_packet ilen p = do
    s ← get
    if not (s.mgmt.len_rx == 0)
        then pure ebusy
        else if mgmt_type p == pdu_type_presence
        then read_presence ilen p
        else if mgmt_type p == pdu_type_connect_req
        then read_connect_req ilen p
        else pure einval

  unfoldable pub read_mgmt : M W ℤ
  unfolding mgmt_packet
  read_mgmt = do
    r ← read_pack pf 0 (set pf.frame 0 0)
    elim r.0 [
      | pos zero ↦ pure eagain
      | pos (suc n) ↦ mgmt_packet (suc n) r.1
      | negsuc n ↦ pure eagain
    ]
