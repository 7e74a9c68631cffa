-- ===== src/Gpio/Files.antt =====
-- The static functions of src/hal/gpio/gpio_sysfs.c, which reach the files of a pin. The calls of the
-- system are a record over a world of their own.
use knot_hal_source.Prelude.{
  ℕ, zero, suc, ◌+◌, ◌-◌, ◌*◌, ◌/◌, ◌%◌, ◌^◌, ◌==◌, ltb, ◌||◌, Bool, true, false, List, [], ◌∷◌, ℤ,
  pos, negsuc, eq_ℤ, if◌then◌else◌, get_or, overlay,
}
use knot_hal_source.Prelude.Outcome.{Outcome, done, no_fuel}
use knot_hal_source.Chip.Spi.{minus}

-- A path below /sys/class/gpio; a pin stands in it as `%2d` prints it. The arrays that hold the paths are
-- long enough for a pin of two digits.
pub data File : Type 0 where
  export unexport : File
  pin_directory direction value edge : List ℕ → File

-- `access_file` tells whether `access` gives zero, for writing or for being there. `open_file` is for
-- writing or for reading. `fionread` is what the request stores. `frame` holds the three bytes of an
-- uninitialised array.
pub record Sysfs (W : Type 0) : Type 0 where
  pub access_file : File → Bool → W → Bool × W
  pub open_file : File → Bool → W → ℤ × W
  pub write : ℤ → List ℕ → W → ℤ × W
  pub read : ℤ → ℕ → W → ℤ × List ℕ × W
  pub close : ℤ → W → W
  pub errno : W → ℕ
  pub usleep : ℕ → W → W
  pub fionread : ℤ → W → ℕ × W
  pub frame : List ℕ

abbrev pub failed : ℤ
failed = negsuc 0

abbrev pub eagain : ℤ
eagain = negsuc 10

-- `%2d` of a number below a hundred
abbrev pub print_pin : ℕ → List ℕ
print_pin pin = (if ltb pin 10 then 0x20 else 0x30 + pin / 10) ∷ (0x30 + pin % 10) ∷ []

abbrev pub hal_gpio_input : ℕ
hal_gpio_input = 0

abbrev pub hal_gpio_output : ℕ
hal_gpio_output = 1

module _ {W : Type 0} (sys : Sysfs W) where
  -- open, write, close: the way in which four of the functions set a file
  unfoldable pub write_file : File → List ℕ → W → ℤ × W
  write_file file text w =
      let (fd, opened) = sys.open_file file true w in
      let (written, after_write) = sys.write fd text opened in
      if eq_ℤ fd failed then (minus (sys.errno opened), opened) else (
        if eq_ℤ written failed then minus (sys.errno after_write) else pos 0,
        sys.close fd after_write,
      )

  unfoldable pub gpio_export : ℕ → W → ℤ × W
  gpio_export pin w =
      let (there, looked) = sys.access_file (pin_directory (print_pin pin)) false w in
      if there then (pos 0, looked) else write_file export (print_pin pin) looked

  unfoldable pub gpio_unexport : ℕ → W → ℤ × W
  gpio_unexport pin w = write_file unexport (print_pin pin) w

  -- The pauses grow by 10 ms, until the file can be written.
  unfoldable pub wait_writable : File → ℕ → ℕ → W → W
  wait_writable file zero delay_ms w = w
  wait_writable file (suc rounds) delay_ms w =
      let (ready, looked) = sys.access_file file true w in
      let rest = wait_writable file rounds (delay_ms + 10) (sys.usleep (delay_ms * 1000) looked) in
      if ready then looked else rest

  unfoldable pub gpio_direction : ℕ → ℕ → W → ℤ × W
  gpio_direction pin dir w =
      write_file (direction (print_pin pin))
        (if dir == hal_gpio_input then 0x69 ∷ 0x6e ∷ [] else 0x6f ∷ 0x75 ∷ 0x74 ∷ [])
        (wait_writable (direction (print_pin pin)) 20 0 w)

  unfoldable pub gpio_read : ℕ → W → ℤ × W
  gpio_read pin w =
      let (fd, opened) = sys.open_file (value (print_pin pin)) false w in
      let (got, bytes, seen) = sys.read fd 3 opened in
      let closed = sys.close fd seen in
      let digit = get_or (overlay sys.frame bytes) 0 0 in
      if eq_ℤ fd failed
      then (minus (sys.errno opened), opened)
      else if eq_ℤ got failed
      then (minus (sys.errno closed), closed)
      else (if digit == 0x30 || digit == 0x31 then pos (digit - 0x30) else eagain, closed)

  unfoldable pub gpio_write : ℕ → ℕ → W → ℤ × W
  gpio_write pin level w =
      let (fd, opened) = sys.open_file (value (print_pin pin)) true w in
      let (written, after_write) = sys.write fd ((if level == 0 then 0x30 else 0x31) ∷ []) opened in
      if eq_ℤ fd failed then (minus (sys.errno opened), opened) else (
        if eq_ℤ written (pos 1) then pos 0 else minus (sys.errno after_write),
        sys.close fd after_write,
      )

  -- What `gpio_edge` writes: none, rising, falling, both. Another edge writes nothing.
  unfoldable pub edge_text : ℕ → List ℕ
  edge_text kind =
      if kind == 0
      then 0x6e ∷ 0x6f ∷ 0x6e ∷ 0x65 ∷ []
      else if kind == 1
      then 0x72 ∷ 0x69 ∷ 0x73 ∷ 0x69 ∷ 0x6e ∷ 0x67 ∷ []
      else if kind == 2
      then 0x66 ∷ 0x61 ∷ 0x6c ∷ 0x6c ∷ 0x69 ∷ 0x6e ∷ 0x67 ∷ []
      else 0x62 ∷ 0x6f ∷ 0x74 ∷ 0x68 ∷ []

  unfoldable pub gpio_edge : ℕ → ℕ → W → ℤ × W
  gpio_edge pin kind w =
      let (fd, opened) = sys.open_file (edge (print_pin pin)) true w in
      if ltb kind 4
      then write_file (edge (print_pin pin)) (edge_text kind) w
      else if eq_ℤ fd failed
      then (minus (sys.errno opened), opened)
      else (pos 0, sys.close fd opened)

  -- The loop that clears the file; `n` is an `unsigned int` that is counted down by 1024.
  unfoldable pub clear_file : ℕ → ℤ → ℕ → W → Outcome W (Unit {0})
  clear_file zero fd n w = no_fuel
  clear_file (suc fuel) fd n w =
      let rest =
        clear_file fuel fd ((n + (2 ^ 32 - 1024)) % 2 ^ 32)
          (sys.read fd (if ltb n 1024 then n else 1024) w).2 in
      if n == 0 then done tt w else rest

  unfoldable pub get_gpio_fd : ℕ → ℕ → W → Outcome W ℤ
  get_gpio_fd fuel gpio w =
      let (fd, opened) = sys.open_file (value (print_pin gpio)) false w in
      let (n, asked) = sys.fionread fd opened in
      if eq_ℤ fd failed
      then done (minus (sys.errno opened)) opened
      else (elim (clear_file fuel fd n asked) [
        | done _ cleared ↦ done fd cleared
        | other ↦ no_fuel
      ])
