-- ===== src/Chip/Registers.antt =====
-- What the proofs ask of the chip: the one-byte configuration registers of the data sheet, which
-- hold what was last written and which no other command changes; and what the functions of
-- src/nrf24l01/nrf24l01.c that reach them do to them.
use knot_hal_source.Prelude.{
  ℕ, ◌+◌, ◌-◌, ◌≤◌, ◌<◌, ◌≡◌, refl, ◌∙◌, arith, ◌==◌, ltb, leb, ◌&&◌, ◌||◌, not, Bool, true, false,
  inl, inr, Bool-cases, List, [], ◌∷◌, ℤ, if◌then◌else◌, passes, passes-at, replicate,
}
use knot_hal_source.Chip.Board.{Board, Radio, Act}
use knot_hal_source.Chip.Access.{
  nrf24reg_read, nrf24reg_write, nrf24data_read, nrf24data_write, command, command_data,
  set_address_pipe, get_address_pipe, nrf24_w_register, nrf24_r_register, nrf24_nop,
  has_long_address, nrf24_rx_addr_pipe,
}

-- CONFIG, EN_AA, EN_RXADDR, SETUP_AW, SETUP_RETR, RF_CH, RF_SETUP, DYNPD and FEATURE
abbrev pub is_plain : ℕ → Bool
is_plain r = leb r 6 || r == 0x1c || r == 0x1d

abbrev pub update : ℕ → ℕ → (ℕ → ℕ) → ℕ → ℕ
update reg value regs r = if reg == r then value else regs r

-- the command that writes a configuration register
abbrev pub writes : ℕ → Bool
writes cmd = leb 32 cmd && ltb cmd 64 && is_plain (cmd - 32)

-- The registers after a transfer of these bytes.
abbrev pub after : List ℕ → List ℕ → (ℕ → ℕ) → ℕ → ℕ
after (cmd ∷ []) (value ∷ []) regs = if writes cmd then update (cmd - 32) value regs else regs
after _ _ regs = regs

pub record IsRegisterFile {W : Type 0} (bd : Board W) (spi_fd : ℤ) (reg : W → ℕ → ℕ) : Type 0 where
  pub reads :
      (r : ℕ)
      → is_plain r ≡ true
      → (w : W) → (bd.spi_bus_transfer spi_fd (r ∷ []) (nrf24_nop ∷ []) w).0 ≡ reg w r ∷ []
  pub transfers :
      (tx rx : List ℕ) (w : W) → reg (bd.spi_bus_transfer spi_fd tx rx w).1 ≡ after tx rx (reg w)
  pub enables : (w : W) → reg (bd.enable w) ≡ reg w
  pub disables : (w : W) → reg (bd.disable w) ≡ reg w
  pub delays : (us : ℕ) (w : W) → reg (bd.delay_us us w) ≡ reg w

plain_commands : passes (λ r. nrf24_r_register r == r && nrf24_w_register r == 32 + r) 32 ≡ true
unfolding passes
plain_commands = refl

module _ (r : ℕ) (plain : is_plain r ≡ true) where
  both : (nrf24_r_register r == r && nrf24_w_register r == 32 + r) ≡ true
  both =
      passes-at (λ r. nrf24_r_register r == r && nrf24_w_register r == 32 + r) 32 r (ground arith)
        plain_commands

  read_command : nrf24_r_register r ≡ r
  read_command = ground (arith, both)

  write_command : nrf24_w_register r ≡ 32 + r
  write_command = ground (arith, both)

after-quiet :
    (cmd : ℕ) (rx : List ℕ) (regs : ℕ → ℕ) → writes cmd ≡ false → after (cmd ∷ []) rx regs ≡ regs
after-quiet cmd [] regs h = refl
after-quiet cmd (x ∷ []) regs h = rw h refl
after-quiet cmd (x ∷ y ∷ rx) regs h = refl

after-plain :
    (r v : ℕ) (regs : ℕ → ℕ)
    → is_plain r ≡ true
    → after (nrf24_w_register r ∷ []) (v ∷ []) regs ≡ update r v regs
after-plain r v regs h =
    let w : writes (32 + r) ≡ true = ground arith in
    let e : 32 + r - 32 ≡ r = omega arith in rw (write_command r h, w, e) refl

quiet_read : (r : ℕ) → is_plain r ≡ true → writes r ≡ false
quiet_read r h = ground arith

-- The registers with an address are not configuration registers.
address_commands : passes (λ k. not (writes (nrf24_w_register (k + 10)))) 7 ≡ true
unfolding passes
address_commands = refl

quiet_address : (k : ℕ) → k < 7 → writes (nrf24_w_register (k + 10)) ≡ false
quiet_address k h =
    let t : not (writes (nrf24_w_register (k + 10))) ≡ true =
      passes-at (λ k. not (writes (nrf24_w_register (k + 10)))) 7 k h address_commands in
    ground arith

quiet_reads : passes (λ k. not (writes (nrf24_r_register k))) 32 ≡ true
unfolding passes
quiet_reads = refl

quiet_address_read : (k : ℕ) → k < 32 → writes (nrf24_r_register k) ≡ false
quiet_address_read k h =
    let t : not (writes (nrf24_r_register k)) ≡ true =
      passes-at (λ k. not (writes (nrf24_r_register k))) 32 k h quiet_reads in
    ground arith

-- Both branches of a test leave the same to be seen.
pub if_keeps :
    {W A B : Type 0} (view : Radio W → B) (test : Bool) (f g : Act W A) (s : Radio W) {seen : B}
    → view (f s).1 ≡ seen
    → view (g s).1 ≡ seen
    → view ((if test then f else g) s).1 ≡ seen
if_keeps view true f g s on off = on
if_keeps view false f g s on off = off

module _ {W : Type 0} {bd : Board W} {spi_fd : ℤ} {reg : W → ℕ → ℕ}
    (chip : IsRegisterFile bd spi_fd reg) where
  quiet_transfer :
      (cmd : ℕ) (rx : List ℕ) (w : W)
      → writes cmd ≡ false
      → reg (bd.spi_bus_transfer spi_fd (cmd ∷ []) rx w).1 ≡ reg w
  quiet_transfer cmd rx w h = chip.transfers (cmd ∷ []) rx w ∙ after-quiet cmd rx (reg w) h

  pub nrf24reg_read-value :
      (r : ℕ) (s : Radio W) → is_plain r ≡ true → (nrf24reg_read bd spi_fd r s).0 ≡ reg s.world r
  unfolding nrf24reg_read
  nrf24reg_read-value r s h = rw (read_command r h, chip.reads r h s.world)

  pub nrf24reg_read-keeps :
      (r : ℕ) (s : Radio W) → r < 32 → reg (nrf24reg_read bd spi_fd r s).1.world ≡ reg s.world
  unfolding nrf24reg_read
  nrf24reg_read-keeps r s h =
      quiet_transfer (nrf24_r_register r) (nrf24_nop ∷ []) s.world (quiet_address_read r h)

  pub nrf24reg_write-plain :
      (r v : ℕ) (s : Radio W)
      → is_plain r ≡ true
      → reg (nrf24reg_write bd spi_fd r v s).1.world ≡ update r v (reg s.world)
  unfolding nrf24reg_write
  nrf24reg_write-plain r v s h =
      chip.transfers (nrf24_w_register r ∷ []) (v ∷ []) s.world ∙ after-plain r v (reg s.world) h

  pub nrf24reg_write-status :
      (v : ℕ) (s : Radio W) → reg (nrf24reg_write bd spi_fd 7 v s).1.world ≡ reg s.world
  unfolding nrf24reg_write
  nrf24reg_write-status v s = chip.transfers (39 ∷ []) (v ∷ []) s.world

  pub nrf24data_write-keeps :
      (k : ℕ) (pd : List ℕ) (s : Radio W)
      → k < 7
      → reg (nrf24data_write bd spi_fd (k + 10) pd s).1.world ≡ reg s.world
  unfolding nrf24data_write
  nrf24data_write-keeps k pd s h =
      quiet_transfer (nrf24_w_register (k + 10)) pd s.world (quiet_address k h)

  pub nrf24data_read-keeps :
      (r len : ℕ) (s : Radio W)
      → r < 32
      → reg (nrf24data_read bd spi_fd r len s).1.world ≡ reg s.world
  unfolding nrf24data_read
  nrf24data_read-keeps r len s h =
      quiet_transfer (nrf24_r_register r) (replicate len nrf24_nop) s.world (quiet_address_read r h)

  pub command-keeps : (cmd : ℕ) (s : Radio W) → reg (command bd spi_fd cmd s).1.world ≡ reg s.world
  unfolding command
  command-keeps cmd s = chip.transfers [] (cmd ∷ []) s.world

  pub command_data-keeps :
      (cmd : ℕ) (pd : List ℕ) (s : Radio W)
      → writes cmd ≡ false
      → reg (command_data bd spi_fd cmd pd s).1.world ≡ reg s.world
  unfolding command_data command
  command_data-keeps cmd pd s h =
      chip.transfers [] (nrf24_nop ∷ []) _ ∙ quiet_transfer cmd pd s.world h

  pub set_address_pipe-keeps :
      (k : ℕ) (a : List ℕ) (s : Radio W)
      → k < 7
      → reg (set_address_pipe bd spi_fd (k + 10) a s).1.world ≡ reg s.world
  unfolding set_address_pipe
  set_address_pipe-keeps k a s h = elim (Bool-cases (has_long_address (k + 10))) [
    | inl e ↦ rw e (nrf24data_write-keeps k _ _ h ∙ nrf24reg_read-keeps _ s (omega arith))
    | inr e ↦ rw e (nrf24data_write-keeps k _ s h)
  ]

  pub get_address_pipe-keeps :
      (pipe : ℕ) (a : List ℕ) (s : Radio W)
      → pipe ≤ 5
      → reg (get_address_pipe bd spi_fd pipe a s).1.world ≡ reg s.world
  unfolding get_address_pipe
  get_address_pipe-keeps pipe a s h =
      elim (Bool-cases (has_long_address (nrf24_rx_addr_pipe pipe))) [
        | inl e ↦
            rw e (nrf24data_read-keeps _ _ _ (omega arith) ∙ nrf24reg_read-keeps _ s (omega arith))
        | inr e ↦ rw e (
            nrf24data_read-keeps _ _ _ (omega arith)
            ∙ nrf24data_read-keeps _ _ _ (omega arith)
            ∙ nrf24reg_read-keeps _ s (omega arith))
      ]
