-- ===== src/Chip/Mode.antt =====
-- `nrf24l01_set_ptx` and `nrf24l01_set_prx` of src/nrf24l01/nrf24l01.c on the registers.
use knot_hal_source.Prelude.{
  ℕ, ◌+◌, ◌≤◌, ◌<◌, ◌≡◌, refl, arith, ◌==◌, ltb, Bool, true, false, inl, inr, Bool-cases, List, ℤ,
  if◌then◌else◌, bit_and, bit_or,
}
use knot_hal_source.Chip.Board.{Board, Radio, clear}
use knot_hal_source.Chip.Setup.{nrf24_en_aa_mask}
use knot_hal_source.Chip.Transmit.{
  set_retries, acknowledge_address, set_tx_address, nrf24l01_set_ptx, nrf24_retr_ard,
  nrf24_retr_arc_mask,
}
use knot_hal_source.Chip.Receive.{restore_pipe0, nrf24l01_set_prx}
use knot_hal_source.Chip.Registers.{
  IsRegisterFile, update, nrf24reg_read-value, nrf24reg_read-keeps, nrf24reg_write-plain,
  nrf24reg_write-status, set_address_pipe-keeps, get_address_pipe-keeps,
}

-- SETUP_RETR for sending on the pipe, by EN_AA
abbrev pub retries : ℕ → ℕ → ℕ
retries aa pipe =
    if bit_and aa nrf24_en_aa_mask == 0
    then 0
    else bit_or (nrf24_retr_ard (pipe + 1)) (bit_and 15 nrf24_retr_arc_mask)

-- The registers for sending on the pipe.
abbrev pub sending : ℕ → (ℕ → ℕ) → ℕ → ℕ
sending pipe regs =
    let retried = update 4 (retries (regs 1) pipe) regs in
    let heard =
      if bit_and (retries (regs 1) pipe) nrf24_retr_arc_mask == 0
      then retried
      else update 2 (bit_or (regs 2) 1) retried in
    update 0 (clear (heard 0) 1) heard

-- The registers for receiving.
abbrev pub receiving : Bool → (ℕ → ℕ) → ℕ → ℕ
receiving pipe0_open regs =
    let restored = if pipe0_open then regs else update 2 (clear (regs 2) 1) regs in
    update 0 (bit_or (restored 0) 1) restored

module _ {W : Type 0} {bd : Board W} {spi_fd : ℤ} {reg : W → ℕ → ℕ}
    (chip : IsRegisterFile bd spi_fd reg) where
  set_retries-regs :
      (pipe : ℕ) (s : Radio W)
      → reg (set_retries bd spi_fd pipe s).1.world
        ≡ update 4 (retries (reg s.world 1) pipe) (reg s.world)
  unfolding set_retries
  set_retries-regs pipe s =
      let range : 1 < 32 = omega arith in
      rw
        (nrf24reg_read-value chip 1 s refl, nrf24reg_write-plain chip 4, nrf24reg_read-keeps chip 1)
        refl

  acknowledge_address-regs :
      (pipe_addr : List ℕ) (s : Radio W)
      → reg (acknowledge_address bd spi_fd pipe_addr s).1.world ≡ (
          if bit_and (reg s.world 4) nrf24_retr_arc_mask == 0
          then reg s.world
          else update 2 (bit_or (reg s.world 2) 1) (reg s.world))
  unfolding acknowledge_address
  acknowledge_address-regs a s =
      let range : 4 < 32 = omega arith in
      let range2 : 2 < 32 = omega arith in
      let first : 0 < 7 = omega arith in
      rw (nrf24reg_read-value chip 4 s refl)
        (elim (Bool-cases (bit_and (reg s.world 4) nrf24_retr_arc_mask == 0)) [
          | inl e ↦ rw (e, nrf24reg_read-keeps chip 4) refl
          | inr e ↦
              rw
                (
                  e,
                  set_address_pipe-keeps chip 0,
                  nrf24reg_write-plain chip 2,
                  nrf24reg_read-value chip 2 _ refl,
                  nrf24reg_read-keeps chip 2,
                  nrf24reg_read-keeps chip 4,
                )
                refl
        ])

  pub set_ptx-regs :
      (pipe : ℕ) (s : Radio W)
      → pipe ≤ 5
      → reg (nrf24l01_set_ptx bd spi_fd pipe s).1.world ≡ sending pipe (reg s.world)
  unfolding nrf24l01_set_ptx set_tx_address
  set_ptx-regs pipe s h =
      let t : ltb 5 pipe ≡ false = ground arith in
      let range : 0 < 32 = omega arith in
      let last : 6 < 7 = omega arith in
      rw
        (
          t,
          nrf24reg_write-plain chip 0,
          nrf24reg_read-value chip 0 _ refl,
          nrf24reg_read-keeps chip 0,
          nrf24reg_write-status chip,
          set_address_pipe-keeps chip 6,
          acknowledge_address-regs,
          get_address_pipe-keeps chip,
          set_retries-regs,
          chip.disables,
        )
        refl

  restore_pipe0-regs :
      (on : Bool) (a : List ℕ) (s : Radio W)
      → reg (restore_pipe0 bd spi_fd on a s).1.world
        ≡ (if on then reg s.world else update 2 (clear (reg s.world 2) 1) (reg s.world))
  unfolding restore_pipe0
  restore_pipe0-regs true a s = set_address_pipe-keeps chip 0 a s (omega arith)
  restore_pipe0-regs false a s =
      let range : 2 < 32 = omega arith in
      rw
        (nrf24reg_write-plain chip 2, nrf24reg_read-value chip 2 _ refl, nrf24reg_read-keeps chip 2)
        refl

  pub set_prx-regs :
      (s : Radio W)
      → reg (nrf24l01_set_prx bd spi_fd s).1.world ≡ receiving s.pipe0_open (reg s.world)
  unfolding nrf24l01_set_prx
  set_prx-regs s =
      let range : 0 < 32 = omega arith in
      rw
        (
          chip.delays,
          chip.enables,
          nrf24reg_write-plain chip 0,
          nrf24reg_read-value chip 0 _ refl,
          nrf24reg_read-keeps chip 0,
          nrf24reg_write-status chip,
          restore_pipe0-regs,
          chip.disables,
        )
        refl
