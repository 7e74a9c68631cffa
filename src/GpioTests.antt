-- ===== src/GpioTests.antt =====
-- The files of a board that exports every pin, or none, and the theorems of src/hal/gpio/gpio_sysfs.c at
-- them.
use knot_hal_source.Prelude.{
  ℕ, zero, suc, ◌<◌, ◌≡◌, refl, arith, inr, Bool, true, false, some, [], ◌∷◌, ℤ, pos, negsuc,
  is_neg, if◌then◌else◌, get_elem?, some-eq, set, replicate, length,
}
use knot_hal_source.Prelude.Outcome.{done, no_fuel}
use knot_hal_source.Gpio.Files.{
  Sysfs, wait_writable, gpio_direction, gpio_export, gpio_unexport, gpio_write, write_file,
  clear_file,
}
use knot_hal_source.Gpio.Pins.{
  Gpio, no_pins, ensure_export, set_direction, hal_gpio_unmap, hal_gpio_pin_mode,
  hal_gpio_digital_write,
}
use knot_hal_source.Gpio.Clearing.{clear_file_loops}
use knot_hal_source.Gpio.Unmapping.{hal_gpio_unmap-off_by_one}
use knot_hal_source.Gpio.Modes.{IsMap, HasMode, hal_gpio_pin_mode-HasMode}
use knot_hal_source.Gpio.Writing.{hal_gpio_digital_write_lem, hal_gpio_digital_write_loops}

-- The world counts what is written. Where `exports` is false, no file can be opened.
abbrev board : Bool → Sysfs ℕ
board exports = record {
  access_file = λ file for_write w. (exports, w);
  open_file = λ file for_write w. (if exports then pos 3 else negsuc 0, w);
  write = λ fd bytes w. (pos (length bytes), suc w);
  read = λ fd size w. (pos 1, 0x31 ∷ [], w);
  close = λ fd w. w;
  errno = λ w. 16;
  usleep = λ us w. w;
  fionread = λ fd w. (1, w);
  frame = 0 ∷ 0 ∷ 0 ∷ [];
}

abbrev fresh : Gpio ℕ
fresh = record { gpio_map = no_pins; world = 0 }

get_elem?-replicate : (n i entry : ℕ) → get_elem? (replicate n 0) i ≡ some entry → entry < 256
get_elem?-replicate zero i entry at = absurd (ground (arith, at))
get_elem?-replicate (suc n) zero entry at =
    let it : 0 ≡ entry = some-eq 0 entry at in rw (← it) (omega arith)
get_elem?-replicate (suc n) (suc i) entry at = get_elem?-replicate n i entry at

no_pins-IsMap : IsMap no_pins
no_pins-IsMap = record { entries = refl; bytes = get_elem?-replicate 28 }

clear_file_loops_example : clear_file (board true) 7 (pos 3) 1 0 ≡ no_fuel
clear_file_loops_example =
    clear_file_loops (board true) 7 (pos 3) 1 0 (λ e. absurd (omega (arith, e)))

hal_gpio_unmap-off_by_one_example :
    hal_gpio_unmap (board true) (record { gpio_map = set no_pins 4 3; world = 0 })
    ≡ done tt (record { gpio_map = no_pins; world = (gpio_unexport (board true) 4 0).1 })
hal_gpio_unmap-off_by_one_example =
    hal_gpio_unmap-off_by_one (board true) 5 3 0 (omega arith) (omega arith) refl

hal_gpio_pin_mode-HasMode_example :
    (err : ℤ) × (t : Gpio ℕ) × (hal_gpio_pin_mode (board true) 5 1 fresh ≡ done err t)
    × IsMap t.gpio_map
    × (is_neg err ≡ false → HasMode 5 1 no_pins t.gpio_map)
hal_gpio_pin_mode-HasMode_example =
    hal_gpio_pin_mode-HasMode (board true) 5 (omega arith) (omega arith) 1 fresh no_pins-IsMap

-- the pin 5, as an output
abbrev driven : Gpio ℕ
driven = record { gpio_map = set no_pins 4 3; world = 1 }

made_output : hal_gpio_pin_mode (board true) 5 1 fresh ≡ done (pos 0) driven
unfolding hal_gpio_pin_mode ensure_export set_direction gpio_export gpio_direction wait_writable
    write_file
made_output = refl

hal_gpio_digital_write_lem_example :
    hal_gpio_digital_write (board true) 2 5 1 fresh
    ≡ done tt (record driven { world = (gpio_write (board true) 5 1 1).1 })
hal_gpio_digital_write_lem_example =
    hal_gpio_digital_write_lem (board true) 5 1 0 0 fresh driven (omega arith) (omega arith)
      no_pins-IsMap refl (inr (pos 0, refl, made_output, refl))

refused : (w : ℕ) → is_neg (gpio_export (board false) 5 w).0 ≡ true
unfolding gpio_export write_file
refused w = refl

hal_gpio_digital_write_loops_example : hal_gpio_digital_write (board false) 9 5 1 fresh ≡ no_fuel
hal_gpio_digital_write_loops_example =
    hal_gpio_digital_write_loops (board false) 5 1 9 0 fresh (omega arith) refused refl refl
