-- ===== src/Chip/Waiting.antt =====
-- `nrf24l01_ptx_wait_datasent` of src/nrf24l01/nrf24l01.c ends once the status tells so.
use knot_hal_source.Prelude.{
  ℕ, zero, suc, ◌<◌, ◌≡◌, ◌⊎◌, refl, ◌∙◌, arith, ◌==◌, ◌||◌, not, Bool, true, inl, inr, Bool-cases,
  some, ℤ, pos, negsuc, bit_and,
}
use knot_hal_source.Chip.Board.{Board, Radio}
use knot_hal_source.Chip.Access.{nrf24reg_read, command}
use knot_hal_source.Chip.Transmit.{nrf24l01_ptx_wait_datasent}
use knot_hal_source.Chip.Registers.{IsRegisterFile, nrf24reg_read-keeps, command-keeps}
use knot_hal_source.Chip.Pipe0.{held, nrf24reg_read-held, command-held}

module _ {W : Type 0} (bd : Board W) (spi_fd : ℤ) where
  -- The state after this many readings of the status.
  abbrev pub polled : ℕ → Radio W → Radio W
  polled zero s = s
  polled (suc k) s = polled k (nrf24reg_read bd spi_fd 7 s).1

  -- Reading the status now tells that the transmission has ended.
  abbrev pub has_ended : Radio W → Bool
  has_ended s =
      not (bit_and (nrf24reg_read bd spi_fd 7 s).0 0b00010000 == 0)
      || not (bit_and (nrf24reg_read bd spi_fd 7 s).0 0b00100000 == 0)

-- What the wait leaves: one of its two results, the registers and the two static variables as they were.
pub record IsSettled {W : Type 0} (reg : W → ℕ → ℕ) (s : Radio W) (r : ℤ × Radio W) : Type 0 where
  pub result : (r.0 ≡ pos 0) ⊎ (r.0 ≡ negsuc 0)
  pub registers : reg r.1.world ≡ reg s.world
  pub statics : held r.1 ≡ held s

module _ {W : Type 0} {bd : Board W} {spi_fd : ℤ} {reg : W → ℕ → ℕ}
    (chip : IsRegisterFile bd spi_fd reg) where
  read-kept : (s : Radio W) → reg (nrf24reg_read bd spi_fd 7 s).1.world ≡ reg s.world
  read-kept s = nrf24reg_read-keeps chip 7 s (omega arith)

  -- A reading that tells nothing leaves the end to a later one.
  wait_later :
      (fuel k : ℕ) (s : Radio W)
      → k < suc fuel
      → has_ended bd spi_fd (polled bd spi_fd k s) ≡ true
      → (bit_and (nrf24reg_read bd spi_fd 7 s).0 0b00010000 == 0) ≡ true
      → (bit_and (nrf24reg_read bd spi_fd 7 s).0 0b00100000 == 0) ≡ true
      → ((j : ℕ)
          → j < fuel
          → has_ended bd spi_fd (polled bd spi_fd j (nrf24reg_read bd spi_fd 7 s).1) ≡ true
          → (r : ℤ × Radio W) × (nrf24l01_ptx_wait_datasent bd spi_fd fuel
                (nrf24reg_read bd spi_fd 7 s).1
              ≡ some r)
            × IsSettled reg (nrf24reg_read bd spi_fd 7 s).1 r)
      → (r : ℤ × Radio W) × (nrf24l01_ptx_wait_datasent bd spi_fd fuel
            (nrf24reg_read bd spi_fd 7 s).1
          ≡ some r)
        × IsSettled reg s r
  wait_later fuel zero s h e on waiting rest = absurd (ground arith)
  wait_later fuel (suc k) s h e on waiting rest =
      let (r, eq, ok) = rest k (omega arith) e in
      (
        r,
        eq,
        record {
          result = ok.result;
          registers = ok.registers ∙ read-kept s;
          statics = ok.statics ∙ nrf24reg_read-held bd spi_fd 7 s;
        },
      )

  pub wait_ends :
      (fuel k : ℕ) (s : Radio W)
      → k < fuel
      → has_ended bd spi_fd (polled bd spi_fd k s) ≡ true
      → (r : ℤ × Radio W) × (nrf24l01_ptx_wait_datasent bd spi_fd fuel s ≡ some r)
        × IsSettled reg s r
  unfolding nrf24l01_ptx_wait_datasent
  wait_ends zero k s h e = absurd (omega arith)
  wait_ends (suc fuel) k s h e =
      elim (Bool-cases (bit_and (nrf24reg_read bd spi_fd 7 s).0 0b00010000 == 0)) [
        | inl on ↦ elim (Bool-cases (bit_and (nrf24reg_read bd spi_fd 7 s).0 0b00100000 == 0)) [
          | inl waiting ↦
              let later =
                wait_later fuel k s h e on waiting
                  (λ j. wait_ends fuel j (nrf24reg_read bd spi_fd 7 s).1) in
              rw (on, waiting) later
          | inr sent ↦
              rw (on, sent)
                (
                  (pos 0, (nrf24reg_read bd spi_fd 7 s).1),
                  refl,
                  record {
                    result = inl refl;
                    registers = read-kept s;
                    statics = nrf24reg_read-held bd spi_fd 7 s;
                  },
                )
        ]
        | inr failed ↦ rw failed (
          (negsuc 0, (command bd spi_fd 0b11100001 (nrf24reg_read bd spi_fd 7 s).1).1),
          refl,
          record {
            result = inr refl;
            registers = command-keeps chip 0b11100001 _ ∙ read-kept s;
            statics = command-held bd spi_fd 0b11100001 _ ∙ nrf24reg_read-held bd spi_fd 7 s;
          },
        )
      ]
