-- ===== src/Gpio/Writing.antt =====
-- `hal_gpio_digital_write` of src/hal/gpio/gpio_sysfs.c: when it ends, and what it then has written.
use knot_hal_source.Prelude.{
  ℕ, zero, suc, ◌≤◌, ◌<◌, ◌≡◌, ◌⊎◌, refl, sym, ◌∙◌, arith, ltb, ◌&&◌, Bool, true, false, inl, inr,
  some, ℤ, is_neg,
}
use knot_hal_source.Prelude.Outcome.{done, no_fuel}
use knot_hal_source.Gpio.Files.{Sysfs, gpio_export, gpio_write}
use knot_hal_source.Gpio.Pins.{
  Gpio, highest_gpio, is_initialized, is_output, entry_of, ensure_export, hal_gpio_pin_mode,
  hal_gpio_digital_write,
}
use knot_hal_source.Gpio.Modes.{IsMap, HasMode, hal_gpio_pin_mode-HasMode}

done-eq : {S A : Type 0} (a b : A) (s t : S) → done a s ≡ done b t → (a ≡ b) × (s ≡ t)
done-eq a b s t e = (cc, cc)

abbrev is_ready : ℕ → Bool
is_ready entry = is_output entry && is_initialized entry

module _ {W : Type 0} (sys : Sysfs W) (gpio level : ℕ) where
  ready_write :
      (fuel entry : ℕ) (s : Gpio W)
      → entry_of gpio s.gpio_map ≡ some entry
      → is_ready entry ≡ true
      → hal_gpio_digital_write sys (suc fuel) gpio level s
        ≡ done tt (record s { world = (gpio_write sys gpio level s.world).1 })
  unfolding hal_gpio_digital_write
  ready_write fuel entry s at ready = rw (hal_gpio_digital_write, at, ready) refl

  -- For a pin from 1 to 28: `hal_gpio_digital_write` writes the level at once if the pin is in use as
  -- an output. If it is not, and making it an output returns no error, then the function calls itself
  -- once more, and writes the level to the pin that is now an output.
  pub hal_gpio_digital_write_lem :
      (fuel entry : ℕ) (s t : Gpio W)
      → 0 < gpio
      → gpio ≤ 28
      → IsMap s.gpio_map
      → entry_of gpio s.gpio_map ≡ some entry
      → ((is_ready entry ≡ true) × (s ≡ t))
        ⊎ ((err : ℤ) × (is_ready entry ≡ false)
            × (hal_gpio_pin_mode sys gpio 1 s ≡ done err t)
            × (is_neg err ≡ false))
      → hal_gpio_digital_write sys (suc (suc fuel)) gpio level s
        ≡ done tt (record t { world = (gpio_write sys gpio level t.world).1 })
  unfolding hal_gpio_digital_write
  hal_gpio_digital_write_lem fuel entry s t low high m at (inl (ready, e)) =
      rw (← e) (ready_write (suc fuel) entry s at ready)
  hal_gpio_digital_write_lem fuel entry s t low high m at (inr (err, other, e, fine)) =
      let (err', t', e', m', mode) = hal_gpio_pin_mode-HasMode sys gpio low high 1 s m in
      let (first, second) = done-eq err err' t t' (sym e ∙ e') in
      let set : HasMode gpio 1 s.gpio_map t'.gpio_map = mode (rw (← first) fine) in
      let at' : entry_of gpio t.gpio_map ≡ some set.entry = rw second set.there in
      let ready : is_ready set.entry ≡ true = rw (set.directed, set.in_use) refl in
      rw (hal_gpio_digital_write, at, other, e) (ready_write fuel set.entry t at' ready)

  ensure_export-refused :
      (entry : ℕ) (s : Gpio W)
      → is_neg (gpio_export sys gpio s.world).0 ≡ true
      → is_initialized entry ≡ false
      → ensure_export sys gpio entry s
        ≡ done
            (gpio_export sys gpio s.world).0
            (record s { world = (gpio_export sys gpio s.world).1 })
  unfolding ensure_export
  ensure_export-refused entry s refused e = rw (ensure_export, e, refused) refl

  hal_gpio_pin_mode-refused :
      (entry : ℕ) (s : Gpio W)
      → gpio ≤ 28
      → is_neg (gpio_export sys gpio s.world).0 ≡ true
      → entry_of gpio s.gpio_map ≡ some entry
      → is_initialized entry ≡ false
      → hal_gpio_pin_mode sys gpio 1 s
        ≡ done
            (gpio_export sys gpio s.world).0
            (record s { world = (gpio_export sys gpio s.world).1 })
  unfolding hal_gpio_pin_mode
  hal_gpio_pin_mode-refused entry s high refused at e =
      let inside : ltb highest_gpio gpio ≡ false = ground arith in
      let ensured = ensure_export-refused entry s refused e in
      rw (hal_gpio_pin_mode, inside, at, ensured, refused) refl

  -- If the system refuses to export the pin, whatever happened before, and the pin is not in use, then
  -- no fuel is enough: the function calls itself for ever.
  pub hal_gpio_digital_write_loops :
      (fuel entry : ℕ) (s : Gpio W)
      → gpio ≤ 28
      → ((w : W) → is_neg (gpio_export sys gpio w).0 ≡ true)
      → entry_of gpio s.gpio_map ≡ some entry
      → is_initialized entry ≡ false
      → hal_gpio_digital_write sys fuel gpio level s ≡ no_fuel
  unfolding hal_gpio_digital_write
  hal_gpio_digital_write_loops zero entry s high refuses at e = refl
  hal_gpio_digital_write_loops (suc fuel) entry s high refuses at e =
      let (err, w) = gpio_export sys gpio s.world in
      let other : is_ready entry ≡ false = ground arith in
      rw
        (
          hal_gpio_digital_write,
          at,
          other,
          hal_gpio_pin_mode-refused entry s high (refuses s.world) at e,
        )
        (hal_gpio_digital_write_loops fuel entry (record s { world = w }) high refuses at e)
