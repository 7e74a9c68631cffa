-- ===== src/Chip/Opening.antt =====
-- `nrf24l01_open_pipe` and `nrf24l01_close_pipe` of src/nrf24l01/nrf24l01.c on the registers.
use knot_hal_source.Prelude.{
  ℕ, ◌+◌, ◌≤◌, ◌<◌, ◌≡◌, refl, ◌∙◌, arith, ◌==◌, ltb, ◌&&◌, false, inl, inr, Bool-cases, List, ℤ,
  pos, if◌then◌else◌, bit_and, bit_or,
}
use knot_hal_source.Comm.Pipes.Bits.{bit}
use knot_hal_source.Chip.Board.{Board, Radio, pure, clear}
use knot_hal_source.Chip.Access.{nrf24reg_read, nrf24reg_write, set_address_pipe}
use knot_hal_source.Chip.Pipes.{
  nrf24_en_rxaddr_pipe, hold_pipe0, release_pipe0, enable_pipe, nrf24l01_open_pipe, disable_pipe,
  nrf24l01_close_pipe,
}
use knot_hal_source.Chip.Registers.{
  IsRegisterFile, update, if_keeps, nrf24reg_read-value, nrf24reg_read-keeps, nrf24reg_write-plain,
  set_address_pipe-keeps,
}
use knot_hal_source.Chip.EnableBits.{
  with_pipe, without_pipe, bit-with_pipe, bit-without_pipe, without-with,
}

module _ {W : Type 0} {bd : Board W} {spi_fd : ℤ} {reg : W → ℕ → ℕ}
    (chip : IsRegisterFile bd spi_fd reg) where
  enable_pipe-regs :
      (v p : ℕ) (a : List ℕ) (s : Radio W)
      → p ≤ 5
      → reg (enable_pipe bd spi_fd v p a s).1.world
        ≡ update 2 (bit_or v (nrf24_en_rxaddr_pipe p)) (reg s.world)
  unfolding enable_pipe hold_pipe0
  enable_pipe-regs v p a s h =
      let written : Radio W =
        (nrf24reg_write bd spi_fd 2 (bit_or v (nrf24_en_rxaddr_pipe p)) s).1 in
      let addressed : Radio W = (set_address_pipe bd spi_fd (p + 10) a written).1 in
      let before : reg addressed.world
          ≡ update 2 (bit_or v (nrf24_en_rxaddr_pipe p)) (reg s.world) =
        set_address_pipe-keeps chip p a written (omega arith)
        ∙ nrf24reg_write-plain chip 2 _ s refl in
      if_keeps (λ t. reg t.world) (p == 0) (hold_pipe0 a) _ addressed before
        (if_keeps (λ t. reg t.world) (ltb 1 p && bit_and v 2 == 0) (set_address_pipe bd spi_fd 11 a)
          (pure tt) addressed (set_address_pipe-keeps chip 1 a addressed (omega arith) ∙ before)
          before)

  pub open_pipe-regs :
      (p : ℕ) (a : List ℕ) (s : Radio W)
      → p ≤ 5
      → (r : ℕ)
      → reg (nrf24l01_open_pipe bd spi_fd p a s).1.world r
        ≡ update 2 (with_pipe (reg s.world 2) p) (reg s.world) r
  unfolding nrf24l01_open_pipe
  open_pipe-regs p a s h r =
      let t : ltb 5 p ≡ false = ground arith in
      let range : 2 < 32 = omega arith in
      rw (t, nrf24reg_read-value chip 2 s refl)
        (elim (Bool-cases (bit_and (reg s.world 2) (nrf24_en_rxaddr_pipe p) == 0)) [
          | inl e ↦ rw (e, enable_pipe-regs _ p a _ h, nrf24reg_read-keeps chip 2) refl
          | inr e ↦ rw (e, nrf24reg_read-keeps chip 2) (ground arith)
        ])

  disable_pipe-regs :
      (p : ℕ) (s : Radio W)
      → reg (disable_pipe bd spi_fd p s).1.world
        ≡ update 2 (clear (reg s.world 2) (nrf24_en_rxaddr_pipe p)) (reg s.world)
  unfolding disable_pipe release_pipe0
  disable_pipe-regs p s =
      let found = nrf24reg_read bd spi_fd 2 s in
      let written : Radio W =
        (nrf24reg_write bd spi_fd 2 (clear found.0 (nrf24_en_rxaddr_pipe p)) found.1).1 in
      let range : 2 < 32 = omega arith in
      let done : reg written.world
          ≡ update 2 (clear (reg s.world 2) (nrf24_en_rxaddr_pipe p)) (reg s.world) =
        rw
          (
            nrf24reg_write-plain chip 2,
            nrf24reg_read-value chip 2 s refl,
            nrf24reg_read-keeps chip 2,
          )
          refl in
      if_keeps (λ t. reg t.world) (p == 0) release_pipe0 (pure tt) written done done

  pub close_pipe-regs :
      (p : ℕ) (s : Radio W)
      → p ≤ 5
      → (r : ℕ)
      → reg (nrf24l01_close_pipe bd spi_fd (pos p) s).1.world r
        ≡ update 2 (without_pipe (reg s.world 2) p) (reg s.world) r
  unfolding nrf24l01_close_pipe
  close_pipe-regs p s h r =
      let t : ltb 5 p ≡ false = ground arith in
      let range : 2 < 32 = omega arith in
      rw (t, nrf24reg_read-value chip 2 s refl)
        (elim (Bool-cases (bit_and (reg s.world 2) (nrf24_en_rxaddr_pipe p) == 0)) [
          | inl e ↦ rw (e, nrf24reg_read-keeps chip 2) (ground arith)
          | inr e ↦ rw (e, disable_pipe-regs, nrf24reg_read-keeps chip 2) refl
        ])

  -- On a chip whose registers hold what is written, with EN_RXADDR below 64, opening one of the six
  -- pipes turns its bit of EN_RXADDR on and leaves the bits of the others and all other
  -- configuration registers.
  pub open_pipe_bit :
      (p : ℕ) (a : List ℕ) (s : Radio W) (j : ℕ)
      → p ≤ 5
      → reg s.world 2 < 64
      → j < 6
      → (bit (reg (nrf24l01_open_pipe bd spi_fd p a s).1.world 2) j
          ≡ (if j == p then 1 else bit (reg s.world 2) j))
        × (reg (nrf24l01_open_pipe bd spi_fd p a s).1.world
            ≡ update 2 (reg (nrf24l01_open_pipe bd spi_fd p a s).1.world 2) (reg s.world))
  open_pipe_bit p a s j hp hv hj = (
    rw (open_pipe-regs p a s hp 2) (bit-with_pipe (reg s.world 2) p j hv hp hj),
    rw (open_pipe-regs p a s hp 2) (λ i r. open_pipe-regs p a s hp r i),
  )

  -- On a chip whose registers hold what is written, with EN_RXADDR below 64, closing one of the six
  -- pipes turns its bit of EN_RXADDR off and leaves the bits of the others and all other
  -- configuration registers.
  close_pipe_bit :
      (p : ℕ) (s : Radio W) (j : ℕ)
      → p ≤ 5
      → reg s.world 2 < 64
      → j < 6
      → (bit (reg (nrf24l01_close_pipe bd spi_fd (pos p) s).1.world 2) j
          ≡ (if j == p then 0 else bit (reg s.world 2) j))
        × (reg (nrf24l01_close_pipe bd spi_fd (pos p) s).1.world
            ≡ update 2 (reg (nrf24l01_close_pipe bd spi_fd (pos p) s).1.world 2) (reg s.world))
  close_pipe_bit p s j hp hv hj = (
    rw (close_pipe-regs p s hp 2) (bit-without_pipe (reg s.world 2) p j hv hp hj),
    rw (close_pipe-regs p s hp 2) (λ i r. close_pipe-regs p s hp r i),
  )

  -- On a chip whose registers hold what is written, with EN_RXADDR below 64, opening one of the six
  -- pipes that was off and closing it leaves every configuration register as it was.
  pub close_pipe-open_pipe :
      (p : ℕ) (a : List ℕ) (s : Radio W)
      → p ≤ 5
      → reg s.world 2 < 64
      → bit (reg s.world 2) p ≡ 0
      → (r : ℕ)
      → reg (nrf24l01_close_pipe bd spi_fd (pos p) (nrf24l01_open_pipe bd spi_fd p a s).1).1.world r
        ≡ reg s.world r
  close_pipe-open_pipe p a s hp hv off r =
      let e : without_pipe (with_pipe (reg s.world 2) p) p ≡ reg s.world 2 =
        without-with (reg s.world 2) p hv hp off in
      rw (close_pipe-regs p _ hp r, open_pipe-regs p a s hp r, open_pipe-regs p a s hp 2, e)
        (ground arith)
