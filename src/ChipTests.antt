-- ===== src/ChipTests.antt =====
-- A chip of plain registers and an SPI bus, and the theorems on the driver of the chip at them.
use knot_hal_source.Prelude.{
  ℕ, ◌+◌, ◌≡◌, refl, Bool, true, false, List, [], ◌∷◌, pos, arith, ◌==◌, if◌then◌else◌, replicate,
}
use knot_hal_source.Chip.Board.{Board, Radio, powered_on}
use knot_hal_source.Chip.Setup.{nrf24l01_init}
use knot_hal_source.Chip.Pipes.{nrf24l01_open_pipe, nrf24l01_close_pipe}
use knot_hal_source.Chip.Driver.{nrf24l01_read, nrf24l01_ioctl, set_channel}
use knot_hal_source.Chip.Registers.{IsRegisterFile, after, update}
use knot_hal_source.Chip.Configured.{configuration, init_configures}
use knot_hal_source.Chip.Opening.{close_pipe-open_pipe}
use knot_hal_source.Chip.Pipe0.{IsListening}
use knot_hal_source.Chip.Hearing.{IsReceiver, Hears, after_address}
use knot_hal_source.Chip.Receiving.{IsPacket, read_bounded}
use knot_hal_source.Chip.Listening.{ioctl_listens}
use knot_hal_source.Chip.Spi.{System}

-- The registers, the CE pin and the address of pipe 0.
record ChipWorld : Type 0 where
  regs : ℕ → ℕ
  ce : Bool
  address : List ℕ

-- The status always tells that the data is sent.
abbrev answer : List ℕ → List ℕ → (ℕ → ℕ) → List ℕ
answer (r ∷ []) (v ∷ []) regs = (if r == 7 then 0x2e else regs r) ∷ []
answer _ rx regs = rx

abbrev chip : Board ChipWorld
chip = record {
  io_setup = λ dev w. (pos 3, w);
  io_reset = λ fd w. w;
  enable = λ w. record w { ce = true };
  disable = λ w. record w { ce = false };
  delay_us = λ us w. w;
  spi_bus_transfer = λ fd tx rx w. (
    answer tx rx w.regs,
    record { regs = after tx rx w.regs; ce = w.ce; address = after_address tx rx w.address },
  );
  frame = replicate 5 0;
}

chip-IsRegisterFile : IsRegisterFile chip (pos 3) (λ w. w.regs)
chip-IsRegisterFile = record {
  reads = λ r plain w. ground arith;
  transfers = λ tx rx w. refl;
  enables = λ w. refl;
  disables = λ w. refl;
  delays = λ us w. refl;
}

chip-IsReceiver : IsReceiver chip (pos 3) (λ w. w.ce) (λ w. w.address)
chip-IsReceiver = record {
  enables = λ w. refl;
  disables = λ w. refl;
  ce_delays = λ us w. refl;
  transfers = λ tx rx w. refl;
  address_enables = λ w. refl;
  address_delays = λ us w. refl;
}

-- CONFIG listens, EN_AA is on, pipes 0 and 1 are on, five bytes for an address, channel 10.
abbrev registers : ℕ → ℕ
registers = update 0 0x7f (update 1 0x3f (update 2 3 (update 3 3 (update 5 10 (λ r. 0)))))

abbrev chip_with : (ℕ → ℕ) → ChipWorld
chip_with regs = record { regs = regs; ce = true; address = replicate 5 8 }

abbrev listening : Radio ChipWorld
listening = record { pipe0_open = true; pipe0_address = replicate 5 8; world = chip_with registers }

close_pipe-open_pipe_example :
    (nrf24l01_close_pipe chip
        (pos 3)
        (pos 4)
        (nrf24l01_open_pipe chip (pos 3) 4 (replicate 5 9) listening).1).1.world.regs
      2
    ≡ 3
close_pipe-open_pipe_example =
    close_pipe-open_pipe chip-IsRegisterFile 4 (replicate 5 9) listening (omega arith) (omega arith)
      refl 2

read_bounded_example :
    IsPacket 7 20 (replicate 32 1) (nrf24l01_read chip (pos 3) 0 7 (replicate 32 1) 20 listening).0
read_bounded_example = read_bounded chip (pos 3) 0 7 (replicate 32 1) 20 listening (omega arith)

abbrev tuned : Radio ChipWorld
tuned = (nrf24l01_ioctl chip (pos 3) (set_channel 76 true) listening).1

ioctl_listens_example :
    IsListening tuned.pipe0_open tuned.world.regs
    × Hears (λ w. w.ce) (λ w. w.address) tuned.world.regs tuned tuned
ioctl_listens_example =
    ioctl_listens chip-IsRegisterFile chip-IsReceiver (set_channel 76 true) listening refl
      (record { config = omega arith; powered = refl; rxaddr = omega arith; pipe0 = refl })

-- A system that answers with the number of bytes, and with an errno of 0.
abbrev system : System ℕ
system = record {
  open_device = λ dev w. (pos 3, w);
  close_device = λ fd w. w;
  set_speed = λ fd w. w;
  max_speed = λ fd w. (pos 0, w);
  configure = λ fd w. w;
  message = λ fd parts w. (pos 2, (0x2e ∷ []) ∷ (7 ∷ []) ∷ [], w + 1);
  malloc = λ n w. (true, w);
  errno = λ w. 11;
}

init_configures_example :
    ((nrf24l01_init chip (47 ∷ []) 3 (powered_on (chip_with (λ r. 0)))).0 ≡ pos 3)
    × (configuration (nrf24l01_init chip (47 ∷ []) 3 (powered_on (chip_with (λ r. 0)))).1.world.regs
        ≡ 0x7e ∷ 0 ∷ 0 ∷ 3 ∷ 0 ∷ 10 ∷ 6 ∷ 0x3f ∷ 4 ∷ [])
init_configures_example =
    init_configures chip-IsRegisterFile (47 ∷ []) 3 (powered_on (chip_with (λ r. 0))) refl
      (omega arith)
      (record {
        aa = omega arith;
        rxaddr = omega arith;
        aw = omega arith;
        rf_setup = refl;
        dynpd = omega arith;
        feature = omega arith;
      })
