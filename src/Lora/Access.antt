-- ===== src/Lora/Access.antt =====
-- The functions of src/lora/sx127x.c that reach the registers of the chip: one selection of the chip for
-- each, and a byte at a time over the bus.
use knot_hal_source.Prelude.{ℕ, zero, suc, ◌-◌, ◌%◌, List, [], ◌∷◌, bit_and, bit_or, take}
use knot_hal_source.Lora.State.{Wires, reg_op_mode, opmode_lora_bit}

module _ {W : Type 0} (hal : Wires W) where
  unfoldable pub write_reg : ℕ → ℕ → W → W
  write_reg addr byte w =
      let selected = hal.hal_pin_nss 0 w in
      let addressed = (hal.hal_spi (bit_or addr 0x80) selected).1 in
      hal.hal_pin_nss 1 (hal.hal_spi byte addressed).1

  unfoldable pub read_reg : ℕ → W → ℕ × W
  read_reg addr w =
      let selected = hal.hal_pin_nss 0 w in
      let addressed = (hal.hal_spi (bit_and addr 0x7f) selected).1 in
      let (val, answered) = hal.hal_spi 0x00 addressed in (val, hal.hal_pin_nss 1 answered)

  -- the loops of `writeBuf` and `readBuf`
  unfoldable pub send_bytes : List ℕ → W → W
  send_bytes [] w = w
  send_bytes (b ∷ bytes) w = send_bytes bytes (hal.hal_spi b w).1

  unfoldable pub take_bytes : ℕ → W → List ℕ × W
  take_bytes zero w = ([], w)
  take_bytes (suc n) w =
      let (b, taken) = hal.hal_spi 0x00 w in
      let (bytes, rest) = take_bytes n taken in (b ∷ bytes, rest)

  -- The length is a `uint8_t`.
  unfoldable pub write_buf : ℕ → List ℕ → ℕ → W → W
  write_buf addr buf len w =
      let selected = hal.hal_pin_nss 0 w in
      let addressed = (hal.hal_spi (bit_or addr 0x80) selected).1 in
      hal.hal_pin_nss 1 (send_bytes (take (len % 256) buf) addressed)

  unfoldable pub read_buf : ℕ → ℕ → W → List ℕ × W
  read_buf addr len w =
      let selected = hal.hal_pin_nss 0 w in
      let addressed = (hal.hal_spi (bit_and addr 0x7f) selected).1 in
      let (bytes, taken) = take_bytes (len % 256) addressed in (bytes, hal.hal_pin_nss 1 taken)

  -- a run of `writeReg`
  unfoldable pub write_regs : List (ℕ × ℕ) → W → W
  write_regs [] w = w
  write_regs ((addr, byte) ∷ rest) w = write_regs rest (write_reg addr byte w)

  unfoldable pub opmode : ℕ → W → W
  opmode mode w =
      let (old, seen) = read_reg reg_op_mode w in
      write_reg reg_op_mode (bit_or (bit_and old (255 - 7)) mode) seen

  unfoldable pub opmode_lora : W → W
  opmode_lora = write_reg reg_op_mode opmode_lora_bit

  unfoldable pub opmode_fsk : W → W
  opmode_fsk = write_reg reg_op_mode 0
