-- ===== src/Gpio/Modes.antt =====
-- `hal_gpio_pin_mode` of src/hal/gpio/gpio_sysfs.c keeps the map of the pins.
use knot_hal_source.Prelude.{
  ℕ, ◌-◌, ◌≤◌, ◌<◌, ◌≡◌, ◌≢◌, refl, sym, ◌∙◌, arith, ◌==◌, ltb, not, ◌&&◌, ◌||◌, Bool, true, false,
  inl, inr, Bool-cases, some, List, ℤ, pos, is_neg, bit_and, bit_or, get_elem?, set, length,
  length-set, get_elem?_of_lt, some-eq, get_elem?-set_self, get_elem?-set_ne, passes, passes-at,
}
use knot_hal_source.Prelude.Outcome.{done}
use knot_hal_source.Gpio.Files.{hal_gpio_input, Sysfs, gpio_export, gpio_direction}
use knot_hal_source.Gpio.Pins.{
  Gpio, highest_gpio, is_initialized, is_output, entry_of, ensure_export, set_direction,
  hal_gpio_pin_mode,
}

-- An entry is a byte, and there are 28.
pub record IsMap (map : List ℕ) : Type 0 where
  pub entries : length map ≡ 28
  pub bytes : (i entry : ℕ) → get_elem? map i ≡ some entry → entry < 256

-- The entry of the pin says that it is in use and has this mode, and no other entry has changed.
pub record HasMode (gpio mode : ℕ) (old map : List ℕ) : Type 0 where
  pub entry : ℕ
  pub there : entry_of gpio map ≡ some entry
  pub in_use : is_initialized entry ≡ true
  pub directed : is_output entry ≡ not (mode == 0)
  pub others : (j : ℕ) → j ≢ gpio - 1 → get_elem? map j ≡ get_elem? old j

pub entry_of-some :
    (gpio : ℕ) (map : List ℕ)
    → 0 < gpio
    → gpio ≤ 28
    → IsMap map
    → (entry : ℕ) × (entry_of gpio map ≡ some entry) × (entry < 256)
entry_of-some gpio map low high m =
    let size = m.entries in
    let (entry, there) = get_elem?_of_lt map (gpio - 1) (omega arith) in
    let nonzero : (gpio == 0) ≡ false = ground arith in
    (entry, rw nonzero there, m.bytes (gpio - 1) entry there)

entry_of-set :
    (gpio entry : ℕ) (map : List ℕ)
    → 0 < gpio
    → gpio ≤ 28
    → IsMap map
    → entry_of gpio (set map (gpio - 1) entry) ≡ some entry
entry_of-set gpio entry map low high m =
    let nonzero : (gpio == 0) ≡ false = ground arith in
    let size = m.entries in rw nonzero (get_elem?-set_self map (gpio - 1) entry (omega arith))

set-IsMap :
    (map : List ℕ) (i entry : ℕ) → i < 28 → entry < 256 → IsMap map → IsMap (set map i entry)
set-IsMap map i entry inside h m = record {
  entries = length-set map i entry ∙ m.entries;
  bytes = λ j e at. elim (Bool-cases (i == j)) [
    | inl same ↦
        let eq : i ≡ j = ground arith in
        let size = m.entries in
        let kept = get_elem?-set_self map i entry (omega arith) in
        let it : entry ≡ e = some-eq entry e (sym kept ∙ rw (← eq) at at) in rw (← it) h
    | inr differ ↦
        let ne : i ≢ j = ground arith in m.bytes j e (sym (get_elem?-set_ne map entry ne) ∙ at)
  ];
}

-- What setting and clearing the bits does to an entry
abbrev entry_test : ℕ → Bool
entry_test e =
    is_initialized (bit_or e 1)
    && ltb (bit_or e 1) 256
    && ltb (bit_or e 2) 256
    && ltb (bit_and e 0xfd) 256
    && is_output (bit_or e 2)
    && not (is_output (bit_and e 0xfd))
    && (not (is_initialized e) || is_initialized (bit_or e 2) && is_initialized (bit_and e 0xfd))

table : passes entry_test 256 ≡ true
unfolding passes
table = refl

record Bits (e : ℕ) : Type 0 where
  used : is_initialized (bit_or e 1) ≡ true
  used_small : bit_or e 1 < 256
  output_small : bit_or e 2 < 256
  input_small : bit_and e 0xfd < 256
  output : is_output (bit_or e 2) ≡ true
  input : is_output (bit_and e 0xfd) ≡ false
  keeps_or : is_initialized e ≡ true → is_initialized (bit_or e 2) ≡ true
  keeps_and : is_initialized e ≡ true → is_initialized (bit_and e 0xfd) ≡ true

entry-Bits : (e : ℕ) → e < 256 → Bits e
entry-Bits e h = let fact : entry_test e ≡ true = passes-at entry_test 256 e h table in ground arith

-- The pin is in use, and no other entry has changed.
record InUse (gpio : ℕ) (old map : List ℕ) : Type 0 where
  entry : ℕ
  there : entry_of gpio map ≡ some entry
  in_use : is_initialized entry ≡ true
  others : (j : ℕ) → j ≢ gpio - 1 → get_elem? map j ≡ get_elem? old j

module _ {W : Type 0} (sys : Sysfs W) (gpio : ℕ) (low : 0 < gpio) (high : gpio ≤ 28) where
  ensure_export-InUse :
      (entry : ℕ) (s : Gpio W)
      → IsMap s.gpio_map
      → entry_of gpio s.gpio_map ≡ some entry
      → entry < 256
      → (err : ℤ) × (t : Gpio W) × (ensure_export sys gpio entry s ≡ done err t)
        × IsMap t.gpio_map
        × (is_neg err ≡ false → InUse gpio s.gpio_map t.gpio_map)
  unfolding ensure_export
  ensure_export-InUse entry s m at h = elim (Bool-cases (is_initialized entry)) [
    | inl e ↦ (
      pos 0,
      s,
      rw (ensure_export, e) refl,
      m,
      λ ok. record { entry = entry; there = at; in_use = e; others = λ j ne. refl },
    )
    | inr e ↦
        let (err, w) = gpio_export sys gpio s.world in
        elim (Bool-cases (is_neg err)) [
          | inl f ↦ (
            err,
            record s { world = w },
            rw (ensure_export, e, f) refl,
            m,
            λ ok. absurd (ground arith),
          )
          | inr f ↦
              let bits = entry-Bits entry h in
              let map = set s.gpio_map (gpio - 1) (bit_or entry 1) in
              (
                pos 0,
                record { gpio_map = map; world = w },
                rw (ensure_export, e, f) refl,
                set-IsMap s.gpio_map (gpio - 1) (bit_or entry 1) (omega arith) bits.used_small m,
                λ ok. record {
                  entry = bit_or entry 1;
                  there = entry_of-set gpio (bit_or entry 1) s.gpio_map low high m;
                  in_use = bits.used;
                  others = λ j ne. get_elem?-set_ne s.gpio_map (bit_or entry 1) (λ e. ne (sym e));
                },
              )
        ]
  ]

  set_direction-HasMode :
      (mode : ℕ) (s : Gpio W)
      → IsMap s.gpio_map
      → (old : List ℕ) → InUse gpio old s.gpio_map
      → (err : ℤ) × (t : Gpio W) × (set_direction sys gpio mode s ≡ done err t)
        × IsMap t.gpio_map
        × (is_neg err ≡ false → HasMode gpio mode old t.gpio_map)
  unfolding set_direction
  set_direction-HasMode mode s m old u =
      let (err, w) = gpio_direction sys gpio mode s.world in
      elim (Bool-cases (is_neg err)) [
        | inl f ↦ (
          err,
          record s { world = w },
          rw (set_direction, f) refl,
          m,
          λ ok. absurd (ground arith),
        )
        | inr f ↦
            let (entry, at, small) = entry_of-some gpio s.gpio_map low high m in
            let same : u.entry ≡ entry = some-eq u.entry entry (sym u.there ∙ at) in
            let used : is_initialized entry ≡ true = rw (← same) u.in_use in
            let bits = entry-Bits entry small in
            let to : ℕ → Gpio W =
              λ e. record { gpio_map = set s.gpio_map (gpio - 1) e; world = w } in
            let stored : (e : ℕ) → e < 256 → IsMap (set s.gpio_map (gpio - 1) e) =
              λ e h. set-IsMap s.gpio_map (gpio - 1) e (omega arith) h m in
            let others : (e j : ℕ)
                → j ≢ gpio - 1
                → get_elem? (set s.gpio_map (gpio - 1) e) j ≡ get_elem? old j =
              λ e j ne. get_elem?-set_ne s.gpio_map e (λ i. ne (sym i)) ∙ u.others j ne in
            elim (Bool-cases (mode == hal_gpio_input)) [
              | inl input ↦ (
                pos 0,
                to (bit_and entry 0xfd),
                rw (set_direction, f, at, input) refl,
                stored (bit_and entry 0xfd) bits.input_small,
                λ ok. record {
                  entry = bit_and entry 0xfd;
                  there = entry_of-set gpio (bit_and entry 0xfd) s.gpio_map low high m;
                  in_use = bits.keeps_and used;
                  directed = rw (input, bits.input) refl;
                  others = others (bit_and entry 0xfd);
                },
              )
              | inr output ↦ (
                pos 0,
                to (bit_or entry 2),
                rw (set_direction, f, at, output) refl,
                stored (bit_or entry 2) bits.output_small,
                λ ok. record {
                  entry = bit_or entry 2;
                  there = entry_of-set gpio (bit_or entry 2) s.gpio_map low high m;
                  in_use = bits.keeps_or used;
                  directed = rw (output, bits.output) refl;
                  others = others (bit_or entry 2);
                },
              )
            ]
      ]

  -- For a pin from 1 to 28, `hal_gpio_pin_mode` never leaves the map of the pins, which stays one of 28
  -- bytes. If it does not return an error, then the entry of the pin says that it is in use and has the
  -- mode, and no other entry has changed.
  pub hal_gpio_pin_mode-HasMode :
      (mode : ℕ) (s : Gpio W)
      → IsMap s.gpio_map
      → (err : ℤ) × (t : Gpio W) × (hal_gpio_pin_mode sys gpio mode s ≡ done err t)
        × IsMap t.gpio_map
        × (is_neg err ≡ false → HasMode gpio mode s.gpio_map t.gpio_map)
  unfolding hal_gpio_pin_mode
  hal_gpio_pin_mode-HasMode mode s m =
      let inside : ltb highest_gpio gpio ≡ false = ground arith in
      let (entry, at, small) = entry_of-some gpio s.gpio_map low high m in
      let (err, t, e, n, u) = ensure_export-InUse entry s m at small in
      elim (Bool-cases (is_neg err)) [
        | inl f ↦
            (err, t, rw (hal_gpio_pin_mode, inside, at, e, f) refl, n, λ ok. absurd (ground arith))
        | inr f ↦
            let (err', t', e', n', h) = set_direction-HasMode mode t n s.gpio_map (u f) in
            (err', t', rw (hal_gpio_pin_mode, inside, at, e, f) e', n', h)
      ]
