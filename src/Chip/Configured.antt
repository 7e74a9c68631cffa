-- ===== src/Chip/Configured.antt =====
-- `nrf24l01_init` of src/nrf24l01/nrf24l01.c on the registers.
use knot_hal_source.Prelude.{
  int8, low_byte, map, ℕ, ◌*◌, ◌<◌, ◌≡◌, refl, arith, ◌==◌, ==_iff, true, List, [], ◌∷◌, ℤ, pos,
  passes, passes-at, bit_or,
}
use knot_hal_source.Chip.Board.{Board, Radio, clear}
use knot_hal_source.Chip.Access.{nrf24reg_read, nrf24reg_write}
use knot_hal_source.Chip.Setup.{init_radio, init_link, nrf24l01_init, nrf24_rf_pwr}
use knot_hal_source.Chip.Registers.{
  IsRegisterFile, is_plain, update, nrf24reg_read-value, nrf24reg_read-keeps, nrf24reg_write-plain,
  nrf24reg_write-status, command-keeps,
}

abbrev configured : ℕ → (ℕ → ℕ) → ℕ → ℕ
configured tx_pwr regs =
    let on = update 0 0x7e (update 0 8 regs) in
    let tuned = update 5 10 (update 5 (clear (on 5) 0x7f) on) in
    let fast = update 6 (bit_or (bit_or (clear (tuned 6) 0xbe) 0) (nrf24_rf_pwr tx_pwr)) tuned in
    update 3 (bit_or (clear (fast 3) 3) 3) fast

abbrev linked : (ℕ → ℕ) → ℕ → ℕ
linked regs =
    let quiet = update 4 0 regs in
    let silent = update 1 (clear (quiet 1) 0x3f) quiet in
    let closed = update 2 (clear (silent 2) 0x3f) silent in
    let featured = update 0x1d (bit_or (clear (closed 0x1d) 7) 4) closed in
    update 0x1c (bit_or (bit_or (bit_or (clear (featured 0x1c) 0x3f) 0x30) 0xc) 3) featured

-- The configuration registers, in order.
abbrev pub configuration : (ℕ → ℕ) → List ℕ
configuration regs = map regs (0 ∷ 1 ∷ 2 ∷ 3 ∷ 4 ∷ 5 ∷ 6 ∷ 0x1c ∷ 0x1d ∷ [])

-- The reserved bits are zero.
pub record IsUnreserved (regs : ℕ → ℕ) : Type 0 where
  pub aa : regs 1 < 64
  pub rxaddr : regs 2 < 64
  pub aw : regs 3 < 4
  pub rf_setup : clear (regs 6) 0xbe ≡ 0
  pub dynpd : regs 0x1c < 64
  pub feature : regs 0x1d < 8

cleared :
    (mask size v : ℕ) → v < size → passes (λ v. clear v mask == 0) size ≡ true → clear v mask ≡ 0
cleared mask size v h table = (==_iff _ _).0 (passes-at (λ v. clear v mask == 0) size v h table)

power_table : passes (λ p. bit_or 0 (nrf24_rf_pwr p) == 2 * p) 4 ≡ true
unfolding passes
power_table = refl

module _ {W : Type 0} {bd : Board W} {spi_fd : ℤ} {reg : W → ℕ → ℕ}
    (chip : IsRegisterFile bd spi_fd reg) where
  -- A register that is read and written back changed.
  edit-regs :
      (f : ℕ → ℕ) (r : ℕ) (s : Radio W)
      → is_plain r ≡ true
      → r < 32
      → reg
          (nrf24reg_write bd spi_fd r
            (f (nrf24reg_read bd spi_fd r s).0)
            (nrf24reg_read bd spi_fd r s).1).1.world
        ≡ update r (f (reg s.world r)) (reg s.world)
  edit-regs f r s plain range =
      rw
        (
          nrf24reg_write-plain chip r,
          nrf24reg_read-value chip r s plain,
          nrf24reg_read-keeps chip r,
        )
        refl

  init_radio-regs :
      (tx_pwr : ℕ) (s : Radio W)
      → reg (init_radio bd spi_fd tx_pwr s).1.world ≡ configured tx_pwr (reg s.world)
  unfolding init_radio
  init_radio-regs tx_pwr s =
      rw
        (
          edit-regs (λ v. bit_or (clear v 3) 3) 3 _ refl (omega arith),
          edit-regs (λ v. bit_or (bit_or (clear v 0xbe) 0) (nrf24_rf_pwr tx_pwr)) 6 _ refl
              (omega arith),
          nrf24reg_write-plain chip 5,
          edit-regs (λ v. clear v 0x7f) 5 _ refl (omega arith),
          edit-regs (λ v. bit_or (bit_or (bit_or (clear v 0x7f) 0x60) 0x18) 6) 0 _ refl
              (omega arith),
          chip.delays,
          nrf24reg_write-plain chip 0,
        )
        refl

  init_link-regs : (s : Radio W) → reg (init_link bd spi_fd s).1.world ≡ linked (reg s.world)
  unfolding init_link
  init_link-regs s =
      let status : 7 < 32 = omega arith in
      rw
        (
          command-keeps chip,
          command-keeps chip,
          nrf24reg_write-status chip,
          nrf24reg_read-keeps chip 7,
          edit-regs (λ v. bit_or (bit_or (bit_or (clear v 0x3f) 0x30) 0xc) 3) 0x1c _ refl
              (omega arith),
          edit-regs (λ v. bit_or (clear v 7) 4) 0x1d _ refl (omega arith),
          edit-regs (λ v. clear v 0x3f) 2 _ refl (omega arith),
          edit-regs (λ v. clear v 0x3f) 1 _ refl (omega arith),
          nrf24reg_write-plain chip 4,
        )
        refl

  configuration_of :
      (tx_pwr : ℕ) (regs : ℕ → ℕ)
      → tx_pwr < 4
      → IsUnreserved regs
      → configuration (linked (configured tx_pwr regs))
        ≡ 0x7e ∷ 0 ∷ 0 ∷ 3 ∷ 0 ∷ 10 ∷ 2 * tx_pwr ∷ 0x3f ∷ 4 ∷ []
  unfolding passes
  configuration_of tx_pwr regs low ok =
      let power : bit_or 0 (nrf24_rf_pwr tx_pwr) ≡ 2 * tx_pwr =
        (==_iff _ _).0
          (passes-at (λ p. bit_or 0 (nrf24_rf_pwr p) == 2 * p) 4 tx_pwr low power_table) in
      rw
        (
          cleared 63 64 (regs 1) ok.aa refl,
          cleared 63 64 (regs 2) ok.rxaddr refl,
          cleared 3 4 (regs 3) ok.aw refl,
          ok.rf_setup,
          cleared 63 64 (regs 0x1c) ok.dynpd refl,
          cleared 7 8 (regs 0x1d) ok.feature refl,
          power,
        )
        refl

-- On a chip whose registers hold what is written and whose reserved bits are zero, `nrf24l01_init` with one
-- of the four powers returns the descriptor, cut to eight bits and not negative, and leaves the chip in standby with CRC, no
-- acknowledgement, no pipe, addresses of five bytes, no retries, channel 10, one megabit at that
-- power, and payloads of any length on all pipes.
pub init_configures :
    {W : Type 0} {bd : Board W} {n : ℕ} {reg : W → ℕ → ℕ} (chip : IsRegisterFile bd (pos n) reg)
    (dev : List ℕ) (tx_pwr : ℕ) (s : Radio W)
    → int8 (low_byte (bd.io_setup dev s.world).0) ≡ pos n
    → tx_pwr < 4
    → IsUnreserved (reg (bd.io_setup dev s.world).1)
    → ((nrf24l01_init bd dev tx_pwr s).0 ≡ pos n)
      × (configuration (reg (nrf24l01_init bd dev tx_pwr s).1.world)
          ≡ 0x7e ∷ 0 ∷ 0 ∷ 3 ∷ 0 ∷ 10 ∷ 2 * tx_pwr ∷ 0x3f ∷ 4 ∷ [])
unfolding nrf24l01_init
init_configures chip dev tx_pwr s found low ok =
    rw (nrf24l01_init, found, init_link-regs chip, init_radio-regs chip)
      (refl, configuration_of chip tx_pwr _ low ok)
