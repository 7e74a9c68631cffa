-- ===== src/Chip/Pipe0.antt =====
-- `pipe0_open` of src/nrf24l01/nrf24l01.c, and bit 0 of a register.
use knot_hal_source.Prelude.{
  ℕ, ◌<◌, ◌≡◌, refl, ap, ◌∙◌, ◌==◌, ltb, ◌&&◌, ◌||◌, Bool, true, List, ℤ, negsuc, if◌then◌else◌,
  passes, passes-at, bit_and, bit_or, take,
}
use knot_hal_source.Comm.Pipes.Bits.{bit}
use knot_hal_source.Chip.Board.{Board, Radio, pure, clear}
use knot_hal_source.Chip.Access.{
  nrf24reg_read, nrf24reg_write, command, command_data, set_address_pipe, get_address_pipe,
  nrf24data_write, nrf24data_read, has_long_address, nrf24_rx_addr_pipe,
}
use knot_hal_source.Chip.Transmit.{
  set_retries, acknowledge_address, set_tx_address, nrf24l01_set_ptx, fire, nrf24l01_ptx_data,
  nrf24_retr_arc_mask,
}
use knot_hal_source.Chip.Registers.{if_keeps}

bit0_table :
    passes
      (λ v.
        if bit v 0 == 1
        then bit_or (clear v 1) 1 == v && bit_or v 1 == v
        else clear (bit_or v 1) 1 == v && clear v 1 == v)
      128
    ≡ true
unfolding passes
bit0_table = refl

pub bit0 :
    (v : ℕ)
    → v < 128
    → (if bit v 0 == 1
        then bit_or (clear v 1) 1 == v && bit_or v 1 == v
        else clear (bit_or v 1) 1 == v && clear v 1 == v)
      ≡ true
bit0 v h =
    passes-at
      (λ v.
        if bit v 0 == 1
        then bit_or (clear v 1) 1 == v && bit_or v 1 == v
        else clear (bit_or v 1) 1 == v && clear v 1 == v)
      128 v h bit0_table

-- The registers of a chip that listens: PRIM_RX and PWR_UP are set, and pipe 0 is on just when the driver opened it.
pub record IsListening (pipe0_open : Bool) (regs : ℕ → ℕ) : Type 0 where
  pub config : regs 0 < 128
  pub prim_rx : bit (regs 0) 0 ≡ 1
  pub powered : bit (regs 0) 1 ≡ 1
  pub rxaddr : regs 2 < 64
  pub pipe0 : bit (regs 2) 0 ≡ (if pipe0_open then 1 else 0)

-- The two static variables, which change only where a pipe is opened or closed.
abbrev pub held : {W : Type 0} → Radio W → Bool × List ℕ
held t = (t.pipe0_open, t.pipe0_address)

module _ {W : Type 0} (bd : Board W) (spi_fd : ℤ) where
  pub set_address_pipe-held :
      (r : ℕ) (a : List ℕ) (s : Radio W) → held (set_address_pipe bd spi_fd r a s).1 ≡ held s
  unfolding set_address_pipe nrf24reg_read nrf24data_write
  set_address_pipe-held r a s =
      if_keeps held (has_long_address r) _ (nrf24data_write bd spi_fd r (take 1 (take 5 a))) s refl
        refl

  pub get_address_pipe-held :
      (p : ℕ) (a : List ℕ) (s : Radio W) → held (get_address_pipe bd spi_fd p a s).1 ≡ held s
  unfolding get_address_pipe nrf24reg_read nrf24data_read
  get_address_pipe-held p a s =
      if_keeps held (has_long_address (nrf24_rx_addr_pipe p)) _ _ _ refl refl

  pub acknowledge_address-held :
      (a : List ℕ) (s : Radio W) → held (acknowledge_address bd spi_fd a s).1 ≡ held s
  unfolding acknowledge_address nrf24reg_read nrf24reg_write
  acknowledge_address-held a s =
      if_keeps held (bit_and (nrf24reg_read bd spi_fd 4 s).0 nrf24_retr_arc_mask == 0) (pure tt) _ _
        refl (set_address_pipe-held 0x0a a _)

  pub set_ptx-held : (p : ℕ) (s : Radio W) → held (nrf24l01_set_ptx bd spi_fd p s).1 ≡ held s
  unfolding nrf24l01_set_ptx set_tx_address set_retries nrf24reg_read nrf24reg_write
  set_ptx-held p s =
      if_keeps held (ltb 5 p) (pure (negsuc 0)) _ s refl (
        set_address_pipe-held 0x10 _ _ ∙ acknowledge_address-held _ _ ∙ get_address_pipe-held p _ _)

  pub nrf24reg_read-held : (r : ℕ) (s : Radio W) → held (nrf24reg_read bd spi_fd r s).1 ≡ held s
  unfolding nrf24reg_read
  nrf24reg_read-held r s = refl

  pub command-held : (c : ℕ) (s : Radio W) → held (command bd spi_fd c s).1 ≡ held s
  unfolding command
  command-held c s = refl

  pub fire-held : (st : ℕ) (s : Radio W) → held (fire bd spi_fd st s).1 ≡ held s
  unfolding fire
  fire-held st s = if_keeps held (st == 0) _ (pure tt) s refl refl

  pub ptx_data-held :
      (pd : List ℕ) (len : ℕ) (s : Radio W) → held (nrf24l01_ptx_data bd spi_fd pd len s).1 ≡ held s
  unfolding nrf24l01_ptx_data command_data command
  ptx_data-held pd len s =
      if_keeps held (len == 0 || ltb 32 len) (pure (negsuc 0)) _ s refl (fire-held _ _)

  pub set_address_pipe-pipe0 :
      (r : ℕ) (a : List ℕ) (s : Radio W)
      → (set_address_pipe bd spi_fd r a s).1.pipe0_open ≡ s.pipe0_open
  set_address_pipe-pipe0 r a s = ap (λ h. h.0) (set_address_pipe-held r a s)

  pub nrf24reg_read-pipe0 :
      (r : ℕ) (s : Radio W) → (nrf24reg_read bd spi_fd r s).1.pipe0_open ≡ s.pipe0_open
  nrf24reg_read-pipe0 r s = ap (λ h. h.0) (nrf24reg_read-held r s)

  pub command-pipe0 : (c : ℕ) (s : Radio W) → (command bd spi_fd c s).1.pipe0_open ≡ s.pipe0_open
  command-pipe0 c s = ap (λ h. h.0) (command-held c s)
