-- ===== src/Lora/Chip.antt =====
-- What the proofs ask of the chip, after its data sheet: an access is an address and then bytes, between
-- the two levels of NSS. In LoRa mode the configuration registers hold what was last written, and the
-- FIFO is a memory of 256 bytes, filled from where FifoAddrPtr points. The view of the registers is that
-- of LoRa mode, which is entered in sleep mode.
use knot_hal_source.Prelude.{
  ℕ, ◌+◌, ◌%◌, ◌≤◌, ◌<◌, ◌≡◌, ◌≢◌, ◌==◌, ltb, leb, ◌&&◌, ◌||◌, Bool, true, List, [], ◌∷◌,
  if◌then◌else◌, length, replicate, write_at,
}
use mathlib.Core.List.{foldl}
use knot_hal_source.Lora.State.{Wires}

-- The registers that hold what is written: not the FIFO, the flags, and what the chip only tells.
abbrev pub is_config : ℕ → Bool
is_config a =
    ltb 0 a && ltb a 0x10
    || a == 0x11
    || ltb 0x1c a && ltb a 0x25
    || leb 0x26 a && ltb a 0x28
    || a == 0x31
    || a == 0x33
    || a == 0x37
    || a == 0x39
    || a == 0x40
    || a == 0x41
    || a == 0x5a

abbrev pub update : ℕ → ℕ → (ℕ → ℕ) → ℕ → ℕ
update a byte regs r = if a == r then byte else regs r

-- the registers after a write of one byte
abbrev pub stored : ℕ → ℕ → (ℕ → ℕ) → ℕ → ℕ
stored a byte regs = if is_config a then update a byte regs else regs

abbrev pub all_stored : List (ℕ × ℕ) → (ℕ → ℕ) → ℕ → ℕ
all_stored [] regs = regs
all_stored ((a, byte) ∷ rest) regs = all_stored rest (stored a byte regs)

module _ {W : Type 0} (hal : Wires W) where
  -- the bytes on the bus, one after the other
  abbrev pub clocked : List ℕ → W → W
  clocked bytes w = foldl (λ u byte. (hal.hal_spi byte u).1) w bytes

  -- an access that sends these bytes after the address
  abbrev pub access : ℕ → List ℕ → W → W
  access address bytes w =
      hal.hal_pin_nss 1 (clocked bytes (hal.hal_spi address (hal.hal_pin_nss 0 w)).1)

  -- what the chip answers to a byte after the address
  abbrev pub answer : ℕ → W → ℕ
  answer address w = (hal.hal_spi 0 (hal.hal_spi address (hal.hal_pin_nss 0 w)).1).0

pub record IsSx1272 {W : Type 0} (hal : Wires W) (reg : W → ℕ → ℕ) (memory : W → List ℕ)
    : Type 0 where
  pub enters :
      (w : W) → reg w 1 % 8 ≡ 0 → reg (access hal 0x81 (0x80 ∷ []) w) ≡ update 1 0x80 (reg w)
  pub stores :
      (a byte : ℕ) (w : W)
      → 0 < a
      → a < 128
      → 128 ≤ reg w 1
      → (a ≡ 1 → 128 ≤ byte)
      → reg (access hal (128 + a) (byte ∷ []) w) ≡ stored a byte (reg w)
  pub answers :
      (a : ℕ) (w : W) → a < 128 → 128 ≤ reg w 1 → is_config a ≡ true → answer hal a w ≡ reg w a
  pub reads_keep : (a : ℕ) (w : W) → 0 < a → a < 128 → reg (access hal a (0 ∷ []) w) ≡ reg w
  pub loads :
      (bytes : List ℕ) (w : W)
      → 128 ≤ reg w 1
      → reg w 0x0d + length bytes ≤ 256
      → memory (access hal 128 bytes w) ≡ write_at (memory w) (reg w 0x0d) bytes
  pub moves :
      (bytes : List ℕ) (w : W)
      → 128 ≤ reg w 1
      → (pointer : ℕ) × (reg (access hal 128 bytes w) ≡ update 0x0d pointer (reg w))
  pub room : (w : W) → length (memory w) ≡ 256
  pub remembers :
      (a byte : ℕ) (w : W)
      → 0 < a
      → a < 256
      → a ≢ 128
      → memory (access hal a (byte ∷ []) w) ≡ memory w
  pub antenna : (level : ℕ) (w : W) → reg (hal.hal_pin_rxtx level w) ≡ reg w
  pub antenna_memory : (level : ℕ) (w : W) → memory (hal.hal_pin_rxtx level w) ≡ memory w
  pub waits : (time : ℕ) (w : W) → reg w 1 % 8 ≡ 1 → reg (hal.hal_wait_until time w) ≡ reg w
  pub ticks : (w : W) → reg (hal.hal_ticks w).1 ≡ reg w
  pub fetches :
      (n : ℕ) (w : W)
      → 128 ≤ reg w 1
      → (pointer : ℕ) × (reg (access hal 0 (replicate n 0) w) ≡ update 0x0d pointer (reg w))
  pub disables : (w : W) → reg (hal.hal_disable_irqs w) ≡ reg w
  pub enables : (w : W) → reg (hal.hal_enable_irqs w) ≡ reg w
  pub enables_memory : (w : W) → memory (hal.hal_enable_irqs w) ≡ memory w
