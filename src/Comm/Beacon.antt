-- ===== src/Comm/Beacon.antt =====
-- `presence_connect` of comm_nrf24l01.c: a thing that listens announces itself in bursts.
use knot_hal_source.Prelude.{
  ℕ, ◌+◌, ◌-◌, List, [], ◌∷◌, is_neg, ltb, if◌then◌else◌, bytes_eq, length, write_at,
}
use knot_hal_source.Link.{set_mgmt_type, pdu_type_presence}
use knot_hal_source.Clock.{hal_timeout}
use knot_hal_source.Comm.State.{
  presence, burst_window, standby, timeout_interval, zero_mac, mgmt_size,
}
use knot_hal_source.Comm.Run.{
  Platform, M, ◌>>=◌, ◌>>◌, pure, get, modify, memcpy, hal_time_ms, write_pack, ioctl, set_standby,
}

-- `THING_NAME` of hal/config.h, with the byte that ends the string
abbrev pub thing_name : List ℕ
thing_name = b't' ∷ b'h' ∷ b'i' ∷ b'n' ∷ b'g' ∷ b'n' ∷ b'a' ∷ b'm' ∷ b'e' ∷ 0 ∷ []

abbrev pub window_bcast : ℕ
window_bcast = 5

abbrev pub interval_bcast : ℕ
interval_bcast = 60

abbrev pub burst_bcast : ℕ
burst_bcast = window_bcast

-- the sizes of the header and of the address
abbrev presence_len : ℕ
presence_len = 1 + 8

-- The name, cut to what the packet has room for.
unfoldable pub name_len : List ℕ → ℕ
name_len name =
    if ltb mgmt_size (presence_len + length name) then mgmt_size - presence_len else length name

module _ {W : Type 0} (pf : Platform W) where
  unfoldable pub send_presence : M W (Unit {0})
  send_presence = do
    s ← get
    if bytes_eq s.mac_local zero_mac then pure tt else (do
      let header = write_at (set_mgmt_type pdu_type_presence pf.frame) 1 s.mac_local
      payload ← memcpy header presence_len thing_name 0 (name_len thing_name)
      err ← write_pack pf 0 payload (presence_len + name_len thing_name)
      if is_neg err then pure tt else elim s.previous_state [
        | timeout_interval ↦ (do
          start ← hal_time_ms pf
          modify (λ t. record t { presence_start = start; presence_state = burst_window }))
        | _ ↦ modify (λ t. record t { presence_state = burst_window })
      ])

  unfoldable pub end_burst : M W (Unit {0})
  end_burst = do
    s ← get
    now ← hal_time_ms pf
    if hal_timeout now s.presence_start window_bcast
        then modify (λ t. record t { presence_state = standby; previous_state = burst_window })
        else (do
          later ← hal_time_ms pf
          if hal_timeout later s.presence_start burst_bcast
              then modify
                  (λ t. record t { presence_state = presence; previous_state = burst_window })
              else modify (λ t. record t { previous_state = burst_window }))

  unfoldable pub end_interval : M W (Unit {0})
  end_interval = do
    s ← get
    now ← hal_time_ms pf
    if hal_timeout now s.presence_start interval_bcast
        then modify (λ t. record t { presence_state = presence; previous_state = timeout_interval })
        else modify (λ t. record t { previous_state = timeout_interval })

  unfoldable pub presence_connect : M W (Unit {0})
  unfolding send_presence end_burst end_interval
  presence_connect = do
    s ← get
    elim s.presence_state [
      | presence ↦ send_presence
      | burst_window ↦ end_burst
      | standby ↦
          (ioctl pf set_standby >> modify (λ t. record t { presence_state = timeout_interval }))
      | timeout_interval ↦ end_interval
    ]
