-- ===== src/Comm/Scheduler.antt =====
-- `running` of comm_nrf24l01.c: one step of the background procedures, made by every call of the
-- sockets. It takes turns between the management channel and the data channel.
use knot_hal_source.Prelude.{
  ℕ, ◌+◌, ◌%◌, Bool, true, false, not, ◌&&◌, none, some, eq_ℤ, ◌==◌, ltb, if◌then◌else◌, bit_and,
}
use knot_hal_source.Clock.{hal_timeout}
use knot_hal_source.Comm.Errors.{etimedout}
use knot_hal_source.Comm.State.{Running, start_mgmt, mgmt, start_raw, raw, connection_counter}
use knot_hal_source.Comm.Run.{
  Platform, M, fault, ◌>>=◌, ◌>>◌, pure, get, modify, load_peer, store_peer, store_mgmt,
  hal_time_ms, ioctl, set_channel, reset_pipe,
}
use knot_hal_source.Comm.Pipes.{clr_bit, pipe_raw_bitmask, update_raw_timeout}
use knot_hal_source.Comm.Control.{check_keepalive}
use knot_hal_source.Comm.Mgmt.{read_mgmt, write_mgmt}
use knot_hal_source.Comm.Raw.{read_raw, write_raw, disconnected_event}
use knot_hal_source.Comm.Beacon.{presence_connect}

abbrev pub mgmt_timeout : ℕ
mgmt_timeout = 10

-- `channel_mgmt` and `channel_raw`
abbrev pub channel_mgmt : ℕ
channel_mgmt = 76

abbrev pub channel_raw : ℕ
channel_raw = 22

unfoldable pub has_peers : ℕ → Bool
has_peers mask = not (bit_and mask pipe_raw_bitmask == 0)

unfoldable pub has_free_pipe : ℕ → Bool
has_free_pipe mask = not (bit_and mask pipe_raw_bitmask == pipe_raw_bitmask)

abbrev pub next_index : ℕ → ℕ
next_index i = if ltb connection_counter (i + 1) then 1 else i + 1

module _ {W : Type 0} (pf : Platform W) where
  -- `CLR_BIT`, `pipe = -1`: the pipe of this peer is given back.
  unfoldable pub release_pipe : ℕ → M W (Unit {0})
  release_pipe sockfd = do
    p ← load_peer sockfd
    elim p.pipe [
      | none ↦ (λ s. fault)
      | some k ↦ (do
        modify (λ s. record s { pipe_bitmask = clr_bit s.pipe_bitmask k })
        store_peer sockfd (record p { pipe = none }))
    ]

  -- A peer that has been silent for too long is disconnected, once its event can be delivered.
  unfoldable pub drop_silent : ℕ → M W (Unit {0})
  unfolding release_pipe
  drop_silent sockfd = do
    r ← check_keepalive pf sockfd
    s ← get
    if eq_ℤ r etimedout && (s.mgmt.len_rx == 0)
        then (do
          p ← load_peer sockfd
          store_mgmt (disconnected_event p.mac s.mgmt)
          release_pipe sockfd
          q ← load_peer sockfd
          store_peer sockfd (record q { keepalive = 0 })
          ioctl pf (reset_pipe sockfd)
          update_raw_timeout)
        else pure tt

  -- back to the management channel, if there is a pipe left to connect
  unfoldable pub leave_raw : M W (Unit {0})
  leave_raw = do
    s ← get
    if has_free_pipe s.pipe_bitmask
        then (do
          now ← hal_time_ms pf
          if hal_timeout now s.running_start s.raw_timeout
              then (do
                later ← hal_time_ms pf
                if hal_timeout later s.rt_stamp s.rt_offset
                    then modify (λ t. record t { running_state = start_mgmt })
                    else pure tt)
              else pure tt)
        else pure tt

  -- `rt_stamp` is a `uint8_t`.
  unfoldable pub serve_peer : ℕ → ℕ → M W (Unit {0})
  unfolding drop_silent
  serve_peer fuel sockfd = do
    p ← load_peer sockfd
    elim p.pipe [
      | none ↦ pure tt
      | some k ↦ (do
        r ← read_raw pf fuel sockfd
        w ← write_raw pf sockfd
        now ← hal_time_ms pf
        modify (λ s. record s { rt_stamp = now % 256 })
        drop_silent sockfd)
    ]

  unfoldable pub leave_mgmt : M W (Unit {0})
  leave_mgmt = do
    s ← get
    if has_peers s.pipe_bitmask
        then (do
          now ← hal_time_ms pf
          if hal_timeout now s.running_start mgmt_timeout
              then modify (λ t. record t { running_state = start_raw })
              else pure tt)
        else pure tt

  unfoldable pub run_mgmt : M W (Unit {0})
  unfolding leave_mgmt
  run_mgmt = do
    r ← read_mgmt pf
    w ← write_mgmt pf
    s ← get
    if s.listen then presence_connect pf else pure tt
    leave_mgmt

  unfoldable pub run_raw : ℕ → M W (Unit {0})
  unfolding leave_raw serve_peer
  run_raw fuel = do
    leave_raw
    s ← get
    serve_peer fuel s.sock_index
    modify (λ t. record t { sock_index = next_index t.sock_index })

  unfoldable pub enter : ℕ → Bool → Running → M W (Unit {0})
  enter channel ack next = do
    ioctl pf (set_channel channel ack)
    now ← hal_time_ms pf
    modify (λ t. record t { running_start = now; running_state = next })

  unfoldable pub running : ℕ → M W (Unit {0})
  unfolding run_mgmt run_raw enter
  running fuel = do
    s ← get
    elim s.running_state [
      | start_mgmt ↦ enter channel_mgmt false mgmt
      | mgmt ↦ run_mgmt
      | start_raw ↦ enter channel_raw true raw
      | raw ↦ run_raw fuel
    ]
