-- ===== src/Lora/Accesses.antt =====
-- What the functions of src/lora/sx127x.c that reach the registers do to such a chip.
use knot_hal_source.Prelude.{
  ℕ, ◌+◌, zero, suc, ◌%◌, ◌-◌, ◌≤◌, ◌<◌, ◌≡◌, refl, ap, ◌∙◌, arith, ◌==◌, ltb, ◌&&◌, not, Bool,
  true, List, [], ◌∷◌, bit_and, bit_or, passes, passes-at, length, replicate, take, write_at,
}
use knot_hal_source.Lora.State.{Wires}
use knot_hal_source.Lora.Access.{
  write_reg, read_reg, send_bytes, take_bytes, read_buf, write_buf, write_regs, opmode,
}
use knot_hal_source.Lora.Chip.{IsSx1272, update, stored, all_stored, clocked, is_config}

commands : passes (λ a. bit_or a 0x80 == 128 + a && bit_and a 0x7f == a) 128 ≡ true
unfolding passes
commands = refl

both : (a : ℕ) → a < 128 → (bit_or a 0x80 == 128 + a && bit_and a 0x7f == a) ≡ true
both a h = passes-at (λ a. bit_or a 0x80 == 128 + a && bit_and a 0x7f == a) 128 a h commands

write_address : (a : ℕ) → a < 128 → bit_or a 0x80 ≡ 128 + a
write_address a h = ground (arith, both a h)

read_address : (a : ℕ) → a < 128 → bit_and a 0x7f ≡ a
read_address a h = ground (arith, both a h)

-- the registers that a run of writes may reach in LoRa mode: not that of the
-- mode, nor the FIFO
abbrev pub may_run : List (ℕ × ℕ) → Bool
may_run [] = true
may_run ((a, byte) ∷ rest) = ltb 0 a && ltb a 128 && not (a == 1) && may_run rest

pub all_stored-mode :
    (writes : List (ℕ × ℕ)) (regs : ℕ → ℕ)
    → may_run writes ≡ true
    → all_stored writes regs 1 ≡ regs 1
all_stored-mode [] regs h = refl
all_stored-mode ((a, byte) ∷ rest) regs h =
    let same : stored a byte regs 1 ≡ regs 1 = ground arith in
    all_stored-mode rest (stored a byte regs) (ground arith) ∙ same

send_bytes-clocked :
    {W : Type 0} (hal : Wires W) (bytes : List ℕ) (w : W)
    → send_bytes hal bytes w ≡ clocked hal bytes w
unfolding send_bytes
send_bytes-clocked hal [] w = refl
send_bytes-clocked hal (b ∷ bytes) w = send_bytes-clocked hal bytes (hal.hal_spi b w).1

take_bytes-clocked :
    {W : Type 0} (hal : Wires W) (n : ℕ) (w : W)
    → ((take_bytes hal n w).1 ≡ clocked hal (replicate n 0) w) × (length (take_bytes hal n w).0 ≡ n)
unfolding take_bytes
take_bytes-clocked hal zero w = (refl, refl)
take_bytes-clocked hal (suc n) w =
    let (world, size) = take_bytes-clocked hal n (hal.hal_spi 0 w).1 in (world, ap suc size)

module _ {W : Type 0} {hal : Wires W} {reg : W → ℕ → ℕ} {memory : W → List ℕ}
    (chip : IsSx1272 hal reg memory) where
  pub write_reg-stored :
      (a byte : ℕ) (w : W)
      → 0 < a
      → a < 128
      → 128 ≤ reg w 1
      → (a ≡ 1 → 128 ≤ byte)
      → reg (write_reg hal a byte w) ≡ stored a byte (reg w)
  unfolding write_reg
  write_reg-stored a byte w p h lora k =
      rw (write_reg, write_address a h) (chip.stores a byte w p h lora k)

  write_reg-memory :
      (a byte : ℕ) (w : W) → 0 < a → a < 128 → memory (write_reg hal a byte w) ≡ memory w
  unfolding write_reg
  write_reg-memory a byte w p h =
      rw (write_reg, write_address a h)
        (chip.remembers (128 + a) byte w (omega arith) (omega arith) (omega arith))

  pub read_reg-value :
      (a : ℕ) (w : W)
      → a < 128
      → 128 ≤ reg w 1
      → is_config a ≡ true
      → (read_reg hal a w).0 ≡ reg w a
  unfolding read_reg
  read_reg-value a w h lora plain = rw (read_reg, read_address a h) (chip.answers a w h lora plain)

  pub read_reg-keeps : (a : ℕ) (w : W) → 0 < a → a < 128 → reg (read_reg hal a w).1 ≡ reg w
  unfolding read_reg
  read_reg-keeps a w p h = rw (read_reg, read_address a h) (chip.reads_keep a w p h)

  read_reg-memory : (a : ℕ) (w : W) → 0 < a → a < 128 → memory (read_reg hal a w).1 ≡ memory w
  unfolding read_reg
  read_reg-memory a w p h =
      rw (read_reg, read_address a h) (chip.remembers a 0 w p (omega arith) (omega arith))

  pub write_regs-stored :
      (writes : List (ℕ × ℕ)) (w : W)
      → may_run writes ≡ true
      → 128 ≤ reg w 1
      → reg (write_regs hal writes w) ≡ all_stored writes (reg w)
  unfolding write_regs
  write_regs-stored [] w h lora = refl
  write_regs-stored ((a, byte) ∷ rest) w h lora =
      let one =
        write_reg-stored a byte w (ground arith) (ground arith) lora (λ e. absurd (ground arith)) in
      let same : stored a byte (reg w) 1 ≡ reg w 1 = ground arith in
      let still : 128 ≤ reg (write_reg hal a byte w) 1 = rw (one, same) lora in
      write_regs-stored rest (write_reg hal a byte w) (ground arith) still
      ∙ ap (all_stored rest) one

  pub write_regs-memory :
      (writes : List (ℕ × ℕ)) (w : W)
      → may_run writes ≡ true
      → memory (write_regs hal writes w) ≡ memory w
  unfolding write_regs
  write_regs-memory [] w h = refl
  write_regs-memory ((a, byte) ∷ rest) w h =
      write_regs-memory rest (write_reg hal a byte w) (ground arith)
      ∙ write_reg-memory a byte w (ground arith) (ground arith)

  pub opmode-stored :
      (mode : ℕ) (w : W)
      → 128 ≤ reg w 1
      → 128 ≤ bit_or (bit_and (reg w 1) (255 - 7)) mode
      → reg (opmode hal mode w) ≡ update 1 (bit_or (bit_and (reg w 1) (255 - 7)) mode) (reg w)
  unfolding opmode
  opmode-stored mode w lora stays =
      let old = read_reg-value 1 w (omega arith) lora refl in
      let seen = read_reg-keeps 1 w (omega arith) (omega arith) in
      let still : 128 ≤ reg (read_reg hal 1 w).1 1 = rw seen lora in
      rw (opmode, old)
        (write_reg-stored 1 (bit_or (bit_and (reg w 1) (255 - 7)) mode) (read_reg hal 1 w).1
            (omega arith) (omega arith) still (λ e. stays)
          ∙ ap (update 1 (bit_or (bit_and (reg w 1) (255 - 7)) mode)) seen)

  pub opmode-memory : (mode : ℕ) (w : W) → memory (opmode hal mode w) ≡ memory w
  unfolding opmode
  opmode-memory mode w =
      write_reg-memory 1 _ _ (omega arith) (omega arith)
      ∙ read_reg-memory 1 w (omega arith) (omega arith)

  -- A run of writes leaves the mode.
  pub write_regs-mode :
      (writes : List (ℕ × ℕ)) (w : W)
      → may_run writes ≡ true
      → 128 ≤ reg w 1
      → reg (write_regs hal writes w) 1 ≡ reg w 1
  write_regs-mode writes w h lora =
      rw (write_regs-stored writes w h lora) (all_stored-mode writes (reg w) h)

  pub write_buf-loads :
      (buffer : List ℕ) (len : ℕ) (w : W)
      → 128 ≤ reg w 1
      → reg w 0x0d + length (take (len % 256) buffer) ≤ 256
      → memory (write_buf hal 0 buffer len w)
        ≡ write_at (memory w) (reg w 0x0d) (take (len % 256) buffer)
  unfolding write_buf
  write_buf-loads buffer len w lora fits =
      rw (write_buf, send_bytes-clocked hal) (chip.loads (take (len % 256) buffer) w lora fits)

  pub write_buf-moves :
      (buffer : List ℕ) (len : ℕ) (w : W)
      → 128 ≤ reg w 1
      → (pointer : ℕ) × (reg (write_buf hal 0 buffer len w) ≡ update 0x0d pointer (reg w))
  unfolding write_buf
  write_buf-moves buffer len w lora =
      let (pointer, moved) = chip.moves (take (len % 256) buffer) w lora in
      (pointer, rw (write_buf, send_bytes-clocked hal) moved)

  pub read_buf-moves :
      (len : ℕ) (w : W)
      → 128 ≤ reg w 1
      → (pointer : ℕ) × (reg (read_buf hal 0 len w).1 ≡ update 0x0d pointer (reg w))
  unfolding read_buf
  read_buf-moves len w lora =
      let moved = (take_bytes-clocked hal (len % 256) (hal.hal_spi 0 (hal.hal_pin_nss 0 w)).1).0 in
      let (pointer, fetched) = chip.fetches (len % 256) w lora in (pointer, rw moved fetched)
