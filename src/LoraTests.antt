-- ===== src/LoraTests.antt =====
-- The theorems of the LoRa chip, at the chip of LoraTests.Modem and at one that only makes noise.
mod Modem
use knot_hal_source.Prelude.{
  ℕ, zero, suc, ◌+◌, ◌-◌, ◌/◌, ◌%◌, ◌≤◌, ◌<◌, ◌≡◌, ◌⊎◌, refl, sym, ap, ◌∙◌, arith, ◌==◌, ltb, not,
  Bool, Bool-cases, inl, inr, true, false, some, List, [], ◌∷◌, pos, if◌then◌else◌, replicate,
  length, length-set, get_elem?, set, take, write_at,
}
use knot_hal_source.Prelude.Outcome.{done, bad_access}
use knot_hal_source.Lora.State.{Wires, Lmic, Lora, initial_lora}
use knot_hal_source.Lora.Access.{read_reg, write_reg, write_regs, opmode, opmode_lora}
use knot_hal_source.Lora.Modem.{modem_config1, modem_config2}
use knot_hal_source.Lora.Transmit.{radio_tx}
use knot_hal_source.Lora.Receive.{radio_rx, config_rx, listen}
use knot_hal_source.Lora.Driver.{Received, pause, reset_radio, radio_init, radio_irq_handler}
use knot_hal_source.Lora.Chip.{IsSx1272, update, stored, clocked}
use knot_hal_source.Lora.Sending.{IsSending, radio_tx-IsSending}
use knot_hal_source.Lora.Listening.{IsListening, radio_rx-IsListening}
use knot_hal_source.Lora.Packets.{IsWithin, told, at_packet}
use knot_hal_source.Lora.Interrupts.{radio_irq_handler-sleeps}
use knot_hal_source.Lora.Fields.{modem_config_fields}
use knot_hal_source.Lora.Seeding.{Draws, DrawsBytes, radio_init-ends}
use knot_hal_source.LoraTests.Modem.{Part, idle, holding, sx1272, sx1272-IsSx1272}

abbrev settings : Lmic
settings = record (initial_lora tt).lmic { freq = 915_000_000; txpow = pos 14; sf = 1; rxsyms = 5 }

abbrev chip_at : ℕ → Lora Part
chip_at mode = record {
  lmic = settings;
  randbuf = replicate 16 0;
  world =
      holding idle (λ r. if r == 1 then mode else if r == 0x12 then 0x40 else 0) (replicate 256 0)
        refl;
}

abbrev greeting : List ℕ
greeting = 1 ∷ 2 ∷ 3 ∷ []

radio_tx-IsSending_example :
    IsSending settings 3 (radio_tx sx1272 greeting 3 (chip_at 0)).world.regs
    × (take 3 (radio_tx sx1272 greeting 3 (chip_at 0)).world.fifo ≡ greeting)
    × ((radio_tx sx1272 greeting 3 (chip_at 0)).lmic ≡ settings)
radio_tx-IsSending_example =
    radio_tx-IsSending sx1272-IsSx1272 greeting (chip_at 0) (λ e. absurd (omega (arith, e)))
      (omega arith) (omega arith) refl

radio_rx-IsListening_example :
    (t : Lora Part) × (radio_rx sx1272 0 (chip_at 0) ≡ some t)
    × (t.lmic ≡ settings)
    × IsListening 0 settings t.world.regs
radio_rx-IsListening_example =
    radio_rx-IsListening sx1272-IsSx1272 0 (chip_at 0) (omega arith)
      (λ e. absurd (omega (arith, e))) (omega arith) refl

abbrev room_for_four : Received
room_for_four = record { buffer = replicate 4 0; len_buffer = 0 }

radio_irq_handler-sleeps_example :
    ((got : Received) × (t : Lora Part) × (radio_irq_handler sx1272 room_for_four (chip_at 0x86)
        ≡ done got t)
      × IsWithin room_for_four got
      × (t.world.regs 1 ≡ 0x80)
      × (t.world.regs 0x11 ≡ 0xff))
    ⊎ ((radio_irq_handler sx1272 room_for_four (chip_at 0x86) ≡ bad_access)
        × (4 < told sx1272 (at_packet sx1272 (chip_at 0x86).world)))
radio_irq_handler-sleeps_example =
    radio_irq_handler-sleeps sx1272-IsSx1272 room_for_four (chip_at 0x86) (omega arith)
      (omega arith) refl (omega arith)

modem_config_fields_example :
    (modem_config1 settings / 64 ≡ 0)
    × (modem_config1 settings / 8 % 8 ≡ 1)
    × (modem_config1 settings / 4 % 2 ≡ 0)
    × (modem_config1 settings / 2 % 2 ≡ 1)
    × (modem_config1 settings % 2 ≡ 0)
    × (modem_config2 settings / 16 ≡ 7)
    × (modem_config2 settings % 16 ≡ 4)
modem_config_fields_example =
    modem_config_fields settings (omega arith) (omega arith) (omega arith) (omega arith)

-- A chip that receives, and whose noise alternates.
record Noise : Type 0 where
  first : Bool
  address : ℕ
  high : Bool

abbrev clock_in : ℕ → Noise → ℕ × Noise
clock_in byte w =
    if w.first
    then (0, record w { first = false; address = byte })
    else if w.address == 0x2c
    then (if w.high then 1 else 0, record w { high = not w.high })
    else (5, w)

abbrev noise : Wires Noise
noise = record {
  hal_pin_nss = λ level w. record w { first = level == 0 };
  hal_spi = clock_in;
  hal_pin_rxtx = λ level w. w;
  hal_pin_rst = λ level w. w;
  hal_ticks = λ w. (0, w);
  hal_wait_until = λ time w. w;
  hal_disable_irqs = λ w. w;
  hal_enable_irqs = λ w. w;
}

abbrev noise_at : Bool → ℕ → Noise
noise_at first address = record { first = first; address = address; high = true }

all_ones :
    (n : ℕ) (first : Bool) (address : ℕ)
    → Draws noise 1 (replicate (suc n) true) (noise_at first address) (noise_at false 0x2c)
unfolding read_reg
all_ones zero first address = (0, omega arith, tt, refl, refl, refl)
all_ones (suc n) first address = (0, omega arith, tt, refl, refl, all_ones n false 0x2c)

abbrev eight_ones : List Bool
eight_ones = replicate 8 true

full_bytes :
    (n : ℕ) (first : Bool) (address : ℕ)
    → DrawsBytes noise 1
        (replicate (suc n) eight_ones)
        (noise_at first address)
        (noise_at false 0x2c)
full_bytes zero first address = (refl, noise_at false 0x2c, all_ones 7 first address, refl)
full_bytes (suc n) first address =
    (refl, noise_at false 0x2c, all_ones 7 first address, full_bytes n false 0x2c)

abbrev before_start : Lora Noise
before_start = initial_lora (noise_at false 0)

radio_init-ends_example :
    radio_init noise 1 before_start
    ≡ done tt (record before_start {
      randbuf = 16 ∷ replicate 15 255;
      world = opmode noise 0 (noise_at false 0x2c);
    })
unfolding read_reg write_reg write_regs opmode opmode_lora config_rx listen pause reset_radio
radio_init-ends_example =
    radio_init-ends noise 1 0 (replicate 15 eight_ones) (noise_at false 0x2c) before_start
      (omega arith) tt refl (full_bytes 14 false 1) refl refl
