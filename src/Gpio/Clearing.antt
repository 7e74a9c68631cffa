-- ===== src/Gpio/Clearing.antt =====
-- The loop of `get_gpio_fd` in src/hal/gpio/gpio_sysfs.c, which clears the file of a pin.
use knot_hal_source.Prelude.{
  ℕ, zero, suc, ◌+◌, ◌-◌, ◌*◌, ◌%◌, ◌^◌, ◌<◌, ◌≡◌, ◌≢◌, refl, arith, ◌==◌, false, ℤ,
}
use knot_hal_source.Prelude.Outcome.{done, no_fuel}
use knot_hal_source.Gpio.Files.{Sysfs, clear_file}

module _ {W : Type 0} (sys : Sysfs W) where
  -- The loop that clears the file ends only for a multiple of 1024: for any other number of bytes that
  -- wait, `n` wraps below zero and never becomes zero.
  pub clear_file_loops :
      (fuel : ℕ) (fd : ℤ) (n : ℕ) (w : W) → n % 1024 ≢ 0 → clear_file sys fuel fd n w ≡ no_fuel
  unfolding clear_file
  clear_file_loops zero fd n w h = refl
  clear_file_loops (suc fuel) fd n w h =
      let nonzero : (n == 0) ≡ false = ground arith in
      rw nonzero (clear_file_loops fuel fd ((n + (2 ^ 32 - 1024)) % 2 ^ 32) _ (omega arith))

  -- For a multiple of 1024, one round for each 1024 bytes and one more are enough.
  clear_file_ends :
      (k fuel : ℕ) (fd : ℤ) (w : W)
      → k < fuel
      → k < 2 ^ 22
      → (t : W) × (clear_file sys fuel fd (1024 * k) w ≡ done tt t)
  unfolding clear_file
  clear_file_ends k zero fd w h b = absurd (omega arith)
  clear_file_ends zero (suc fuel) fd w h b = (w, refl)
  clear_file_ends (suc k) (suc fuel) fd w h b =
      let next : (1024 * suc k + (2 ^ 32 - 1024)) % 2 ^ 32 ≡ 1024 * k = omega arith in
      let nonzero : (1024 * suc k == 0) ≡ false = ground arith in
      rw (nonzero, next) (clear_file_ends k fuel fd _ (omega arith) (omega arith))
