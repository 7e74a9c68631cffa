-- ===== src/Chip/Linux.antt =====
-- The pins of the chip on a Raspberry Pi, src/nrf24l01/nrf24l01_io_linux.c, and the board that they and the
-- SPI bus make.
use knot_hal_source.Prelude.{
  ℕ, ◌-◌, ◌*◌, ◌^◌, Bool, List, ℤ, is_neg, if◌then◌else◌, bit_and, bit_or,
}
use knot_hal_source.Chip.Board.{Board}
use knot_hal_source.Chip.Spi.{System, Spi, minus, spi_bus_init, spi_bus_deinit, spi_bus_transfer}

-- The registers of the pins by their index behind `gpio`, and the calls that map them. `open_mem` is the
-- open of /dev/mem.
pub record Pins (W : Type 0) : Type 0 where
  pub open_mem : W → ℤ × W
  pub close_mem : ℤ → W → W
  pub mmap : ℤ → W → Bool × W
  pub munmap : W → W
  pub load : ℕ → W → ℕ
  pub store : ℕ → ℕ → W → W
  pub usleep : ℕ → W → W
  pub stack_bytes : List ℕ

abbrev pub ce : ℕ
ce = 25

module _ {W : Type 0} (sys : System W) (pins : Pins W) where
  abbrev pub on_world : (W → W) → Spi W → Spi W
  on_world f s = record s { world = f s.world }

  unfoldable pub delay_us : ℕ → Spi W → Spi W
  delay_us us = on_world (pins.usleep us)

  unfoldable pub enable : Spi W → Spi W
  enable = on_world (λ w. pins.usleep 4 (pins.store 7 (2 ^ ce) w))

  unfoldable pub disable : Spi W → Spi W
  disable = on_world (pins.store 10 (2 ^ ce))

  -- CE as an output: the three bits of the pin in the third register
  unfoldable pub set_output : W → W
  set_output w =
      let input = pins.store 2 (bit_and (pins.load 2 w) (2 ^ 32 - 1 - 7 * 2 ^ 15)) w in
      pins.store 2 (bit_or (pins.load 2 input) (2 ^ 15)) input

  unfoldable pub io_setup : List ℕ → Spi W → ℤ × Spi W
  io_setup dev s =
      let (mem_fd, opened) = pins.open_mem s.world in
      let (mapped, tried) = pins.mmap mem_fd opened in
      let closed = pins.close_mem mem_fd tried in
      if is_neg mem_fd
      then (minus (sys.errno opened), record s { world = opened })
      else if mapped
      then spi_bus_init sys dev
          (disable (record s { world = set_output (pins.store 10 (2 ^ ce) closed) }))
      else (minus (sys.errno closed), record s { world = closed })

  unfoldable pub io_reset : ℤ → Spi W → Spi W
  io_reset spi_fd s = spi_bus_deinit sys spi_fd (on_world pins.munmap (disable s))

  -- The board of the driver of the chip; the result of a transfer is dropped.
  abbrev pub linux_board : Board (Spi W)
  linux_board = record {
    io_setup = io_setup;
    io_reset = io_reset;
    enable = enable;
    disable = disable;
    delay_us = delay_us;
    spi_bus_transfer =
        λ fd tx rx s. let (ret, bytes, t) = spi_bus_transfer sys fd tx rx s in (bytes, t);
    frame = pins.stack_bytes;
  }
