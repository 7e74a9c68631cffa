-- ===== src/Comm/Control.antt =====
-- The control packets of comm_nrf24l01.c: disconnection and keepalive.
use knot_hal_source.Prelude.{ℕ, ◌+◌, ◌*◌, ◌%◌, List, ℤ, pos, negsuc, ◌==◌, not, if◌then◌else◌}
use knot_hal_source.Link.{
  ctrl_pdu, ctrl_pdu_size, op_disconnect, op_keepalive_req, keepalive_send_ms, keepalive_timeout_ms,
}
use knot_hal_source.Clock.{hal_timeout}
use knot_hal_source.Comm.Errors.{etimedout}
use knot_hal_source.Comm.Run.{
  Platform, M, ◌>>=◌, ◌>>◌, pure, get, load_peer, store_peer, hal_time_ms, write_pack,
}

-- `if (err < 0) return err; return 0;`
abbrev pub or_zero : ℤ → ℤ
or_zero (pos n) = pos 0
or_zero (negsuc n) = negsuc n

module _ {W : Type 0} (pf : Platform W) where
  unfoldable pub write_disconnect : ℕ → List ℕ → List ℕ → M W ℤ
  write_disconnect sockfd dst src = do
    err ← write_pack pf sockfd (ctrl_pdu op_disconnect src dst pf.frame) ctrl_pdu_size
    pure (or_zero err)

  unfoldable pub write_keepalive : ℕ → ℕ → List ℕ → List ℕ → M W ℤ
  write_keepalive sockfd keepalive_op dst src = do
    err ← write_pack pf sockfd (ctrl_pdu keepalive_op src dst pf.frame) ctrl_pdu_size
    pure (or_zero err)

  -- `keepalive` is a `uint8_t`.
  unfoldable pub check_keepalive : ℕ → M W ℤ
  check_keepalive sockfd = do
    time_ms ← hal_time_ms pf
    p ← load_peer sockfd
    if hal_timeout time_ms p.keepalive_anchor keepalive_timeout_ms
        then pure etimedout
        else if p.keepalive == 0
        then pure (pos 0)
        else if not (hal_timeout time_ms p.keepalive_anchor (p.keepalive * keepalive_send_ms))
        then pure (pos 0)
        else (do
          store_peer sockfd (record p { keepalive = (p.keepalive + 1) % 256 })
          s ← get
          write_keepalive sockfd op_keepalive_req p.mac s.mac_local)
