-- ===== src/Chip/Receiving.antt =====
-- `nrf24l01_read` of src/drivers/phy_driver_nrf24.c, whatever the chip answers.
use knot_hal_source.Prelude.{
  ℕ, ◌^◌, ◌%◌, ◌≤◌, ◌<◌, ◌≡◌, ◌⊎◌, refl, arith, ◌==◌, ltb, ◌&&◌, ◌||◌, not, Bool, true, inl, inr,
  Bool-cases, List, ℤ, bit_and, length, length-overlay,
}
use knot_hal_source.Chip.Board.{Board, Radio}
use knot_hal_source.Chip.Access.{nrf24reg_read}
use knot_hal_source.Chip.Receive.{nrf24l01_prx_pipe_available, take_payload, nrf24l01_prx_data}
use knot_hal_source.Chip.Driver.{nrf24l01_read}

-- The length fits in the packet and in what was asked for, and the packet's room stays.
abbrev pub IsTaken : ℕ → List ℕ → ℕ × List ℕ → Type 0
IsTaken len payload taken = (taken.0 ≤ 32) × (taken.0 ≤ len) × (length taken.1 ≡ length payload)

-- The packet goes to the pipe asked for, or to one of the six if any is.
abbrev pub serves : ℕ → ℕ → Bool
serves asked pipe = (asked == 7 && ltb pipe 6) || (not (asked == 7) && pipe == asked)

abbrev pub IsPacket : ℕ → ℕ → List ℕ → ℕ × ℕ × List ℕ → Type 0
IsPacket asked len payload r =
    (r.0 ≤ 32)
    × (r.0 ≤ len)
    × (length r.2 ≡ length payload)
    × ((r.0 ≡ 0) ⊎ (serves asked r.1 ≡ true))

served_pipe :
    (asked pipe : ℕ)
    → (pipe ≤ 5) ⊎ (pipe ≡ 7)
    → ((asked == 7 && not (pipe == 7)) || (not (asked == 7) && pipe == asked)) ≡ true
    → serves asked pipe ≡ true
served_pipe asked pipe (inl six) t = ground arith
served_pipe asked pipe (inr none_there) t = ground arith

module _ {W : Type 0} (bd : Board W) (spi_fd : ℤ) where
  take_payload-IsTaken :
      (payload : List ℕ) (len rxlen : ℕ) (s : Radio W)
      → IsTaken len payload (take_payload bd spi_fd payload len rxlen s).0
  unfolding take_payload
  take_payload-IsTaken payload len rxlen s = elim (Bool-cases (ltb 32 rxlen)) [
    | inl e ↦ rw e (omega arith, omega arith, refl)
    | inr e ↦ elim (Bool-cases (rxlen == 0)) [
      | inl z ↦ rw (e, z) (omega arith, omega arith, refl)
      | inr n ↦ rw (e, n) (ground arith, omega arith, length-overlay payload _)
    ]
  ]

  pub prx_data-IsTaken :
      (width : ℕ) (payload : List ℕ) (len : ℕ) (s : Radio W)
      → IsTaken len payload (nrf24l01_prx_data bd spi_fd width payload len s).0
  unfolding nrf24l01_prx_data
  prx_data-IsTaken width payload len s = take_payload-IsTaken payload len _ _

  available_pipe :
      (s : Radio W)
      → ((nrf24l01_prx_pipe_available bd spi_fd s).0 ≤ 5)
        ⊎ ((nrf24l01_prx_pipe_available bd spi_fd s).0 ≡ 7)
  unfolding nrf24l01_prx_pipe_available
  available_pipe s = elim (Bool-cases (bit_and (nrf24reg_read bd spi_fd 0x17 s).0 1 == 0)) [
    | inl e ↦ rw e (ground arith)
    | inr e ↦ rw e (inr refl)
  ]

  -- Whatever the chip answers, `nrf24l01_read` returns a length of 32 bytes at most, and no more than
  -- was asked for, in a packet whose payload keeps its room. A length above zero comes with a
  -- packet for the pipe that was asked for, or for one of the six pipes if 7 was.
  pub read_bounded :
      (width asked : ℕ) (payload : List ℕ) (len : ℕ) (s : Radio W)
      → len < 2 ^ 16
      → IsPacket asked len payload (nrf24l01_read bd spi_fd width asked payload len s).0
  unfolding nrf24l01_read
  read_bounded width asked payload len s small =
      let e : len % 2 ^ 16 ≡ len = omega arith in
      let available = nrf24l01_prx_pipe_available bd spi_fd s in
      let wanted =
        (asked == 7 && not (available.0 == 7)) || (not (asked == 7) && available.0 == asked) in
      elim (Bool-cases wanted) [
        | inl t ↦
            let taken = prx_data-IsTaken width payload len available.1 in
            let served : serves asked available.0 ≡ true =
              served_pipe asked available.0 (available_pipe s) t in
            rw (t, e) (taken.0, taken.1, taken.2, inr served)
        | inr f ↦ rw f (omega arith, omega arith, refl, inl refl)
      ]
