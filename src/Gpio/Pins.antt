-- ===== src/Gpio/Pins.antt =====
-- The functions of hal/gpio_sysfs.h, in src/hal/gpio/gpio_sysfs.c. The static array is part of the state.
use knot_hal_source.Prelude.{
  ℕ, zero, suc, ◌-◌, ◌==◌, ltb, ◌||◌, ◌&&◌, not, Bool, Option, none, List, [], ◌∷◌, ℤ, pos, negsuc,
  is_neg, eq_ℤ, if◌then◌else◌, bit_and, bit_or, get_elem?, set, replicate,
}
use knot_hal_source.Prelude.Outcome.{Outcome, no_fuel, ◌>>=◌, ◌>>◌, pure, checked, done}
use knot_hal_source.Comm.Errors.{einval}
use knot_hal_source.Gpio.Files.{
  Sysfs, gpio_export, gpio_unexport, gpio_direction, gpio_read, gpio_write, gpio_edge, get_gpio_fd,
  hal_gpio_input, hal_gpio_output,
}

abbrev pub highest_gpio : ℕ
highest_gpio = 28

pub record Gpio (W : Type 0) : Type 0 where
  pub gpio_map : List ℕ
  pub world : W

abbrev hal_gpio_low : ℕ
hal_gpio_low = 0

abbrev hal_gpio_high : ℕ
hal_gpio_high = 1

abbrev pub eio : ℤ
eio = negsuc 4

-- the bits of an entry: in use, and an output
abbrev pub is_initialized : ℕ → Bool
is_initialized entry = not (bit_and entry 1 == 0)

abbrev pub is_output : ℕ → Bool
is_output entry = not (bit_and entry 2 == 0)

abbrev pub no_pins : List ℕ
no_pins = replicate highest_gpio 0

-- `gpio_map[gpio-1]`
abbrev pub entry_of : ℕ → List ℕ → Option ℕ
entry_of gpio map = if gpio == 0 then none else get_elem? map (gpio - 1)

module _ {W : Type 0} where
  abbrev pub load_entry : ℕ → Gpio W → Outcome (Gpio W) ℕ
  load_entry gpio s = checked (entry_of gpio s.gpio_map) s

  abbrev pub store_entry : ℕ → ℕ → Gpio W → Outcome (Gpio W) (Unit {0})
  store_entry gpio entry s = done tt (record s { gpio_map = set s.gpio_map (gpio - 1) entry })

  abbrev pub on_world : {A : Type 0} → (W → A × W) → Gpio W → Outcome (Gpio W) A
  on_world f s = let (a, w) = f s.world in done a (record s { world = w })

module _ {W : Type 0} (sys : Sysfs W) where
  unfoldable pub hal_gpio_setup : Gpio W → Outcome (Gpio W) ℤ
  hal_gpio_setup s = done (pos 0) (record s { gpio_map = no_pins })

  -- the entries from index `i` on
  unfoldable pub unexport_from : ℕ → List ℕ → W → W
  unexport_from i [] w = w
  unexport_from i (entry ∷ map) w =
      unexport_from (suc i) map (if is_initialized entry then (gpio_unexport sys i w).1 else w)

  unfoldable pub hal_gpio_unmap : Gpio W → Outcome (Gpio W) (Unit {0})
  hal_gpio_unmap s =
      done tt (record { gpio_map = no_pins; world = unexport_from 0 s.gpio_map s.world })

  -- A pin that is not in use yet is exported.
  unfoldable pub ensure_export : ℕ → ℕ → Gpio W → Outcome (Gpio W) ℤ
  ensure_export gpio entry = if is_initialized entry then pure (pos 0) else (do
    err ← on_world (gpio_export sys gpio)
    if is_neg err then pure err else (do store_entry gpio (bit_or entry 1); pure (pos 0)))

  unfoldable pub set_direction : ℕ → ℕ → Gpio W → Outcome (Gpio W) ℤ
  set_direction gpio mode = do
    err ← on_world (gpio_direction sys gpio mode)
    if is_neg err then pure err else (do
      entry ← load_entry gpio
      store_entry gpio (if mode == hal_gpio_input then bit_and entry 0xfd else bit_or entry 2)
      pure (pos 0))

  unfoldable pub hal_gpio_pin_mode : ℕ → ℕ → Gpio W → Outcome (Gpio W) ℤ
  hal_gpio_pin_mode gpio mode = if ltb highest_gpio gpio then pure einval else (do
    entry ← load_entry gpio
    err ← ensure_export gpio entry
    if is_neg err then pure err else set_direction gpio mode)

  -- The function calls itself until the pin is an output.
  unfoldable pub hal_gpio_digital_write : ℕ → ℕ → ℕ → Gpio W → Outcome (Gpio W) (Unit {0})
  hal_gpio_digital_write zero gpio level = λ s. no_fuel
  hal_gpio_digital_write (suc fuel) gpio level =
      let again = hal_gpio_digital_write fuel gpio level in
      (do
        entry ← load_entry gpio
        if is_output entry && is_initialized entry
            then (do on_world (gpio_write sys gpio level); pure tt)
            else (do hal_gpio_pin_mode gpio hal_gpio_output; again))

  unfoldable pub hal_gpio_digital_read : ℕ → ℕ → Gpio W → Outcome (Gpio W) ℤ
  hal_gpio_digital_read zero gpio = λ s. no_fuel
  hal_gpio_digital_read (suc fuel) gpio =
      let again = hal_gpio_digital_read fuel gpio in
      (do
        entry ← load_entry gpio
        if not (is_output entry) && is_initialized entry
            then (do
              ret ← on_world (gpio_read sys gpio)
              pure (
                  if is_neg ret
                  then ret
                  else if eq_ℤ ret (pos 0)
                  then pos hal_gpio_low
                  else pos hal_gpio_high))
            else (do hal_gpio_pin_mode gpio hal_gpio_input; again))

  unfoldable pub watch : ℕ → ℕ → Gpio W → Outcome (Gpio W) ℤ
  watch fuel gpio s = elim (get_gpio_fd sys fuel gpio s.world) [
    | done fd w ↦ done fd (record s { world = w })
    | other ↦ no_fuel
  ]

  unfoldable pub hal_gpio_get_fd : ℕ → ℕ → ℕ → Gpio W → Outcome (Gpio W) ℤ
  hal_gpio_get_fd fuel gpio kind = do
    entry ← load_entry gpio
    if not (is_initialized entry) || is_output entry then pure eio else (do
      err ← on_world (gpio_edge sys gpio kind)
      if is_neg err then pure err else watch fuel gpio)
