-- ===== src/Gpio/Unmapping.antt =====
-- `hal_gpio_unmap` of src/hal/gpio/gpio_sysfs.c.
use knot_hal_source.Prelude.{
  ℕ, zero, suc, ◌+◌, ◌-◌, ◌≤◌, ◌<◌, ◌≡◌, refl, arith, true, set, replicate,
}
use knot_hal_source.Prelude.Outcome.{done}
use knot_hal_source.Gpio.Files.{Sysfs, gpio_unexport}
use knot_hal_source.Gpio.Pins.{no_pins, is_initialized, unexport_from, hal_gpio_unmap}

module _ {W : Type 0} (sys : Sysfs W) where
  unexport_from-none : (n i : ℕ) (w : W) → unexport_from sys i (replicate n 0) w ≡ w
  unfolding unexport_from
  unexport_from-none zero i w = refl
  unexport_from-none (suc n) i w = unexport_from-none n (suc i) w

  unexport_from-one :
      (n i k entry : ℕ) (w : W)
      → k < n
      → is_initialized entry ≡ true
      → unexport_from sys i (set (replicate n 0) k entry) w ≡ (gpio_unexport sys (i + k) w).1
  unfolding unexport_from
  unexport_from-one zero i k entry w h e = absurd (omega arith)
  unexport_from-one (suc n) i zero entry w h e =
      let same : i + 0 ≡ i = omega arith in rw (e, same) (unexport_from-none n (suc i) _)
  unexport_from-one (suc n) i (suc k) entry w h e =
      let same : i + suc k ≡ suc i + k = omega arith in
      rw same (unexport_from-one n (suc i) k entry w (omega arith) e)

  -- Where one pin is in use, `hal_gpio_unmap` gives back the number below it, and leaves the pin
  -- exported.
  pub hal_gpio_unmap-off_by_one :
      (gpio entry : ℕ) (w : W)
      → 0 < gpio
      → gpio ≤ 28
      → is_initialized entry ≡ true
      → hal_gpio_unmap sys (record { gpio_map = set no_pins (gpio - 1) entry; world = w })
        ≡ done tt (record { gpio_map = no_pins; world = (gpio_unexport sys (gpio - 1) w).1 })
  unfolding hal_gpio_unmap
  hal_gpio_unmap-off_by_one gpio entry w low high e =
      let there : 0 + (gpio - 1) ≡ gpio - 1 = omega arith in
      rw (unexport_from-one 28 0 (gpio - 1) entry w (omega arith) e, there) refl
