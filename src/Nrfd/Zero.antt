-- ===== src/Nrfd/Zero.antt =====
-- The address zero in src/nrfd/manager.c, which marks a free slot, as the address of a device.
use knot_hal_source.Prelude.{
  ℕ, zero, suc, ◌<◌, ◌≡◌, ◌≢◌, refl, arith, ◌==◌, true, false, Option, none, some, List, [], ◌∷◌,
  replicate,
}
use knot_hal_source.Nrfd.State.{Known, Daemon, Services}
use knot_hal_source.Nrfd.Devices.{
  outside, scan_known, first_free, nrf24_str2mac, new_device_object, store_device, insert_device,
  add_known_device,
}
use knot_hal_source.Nrfd.Config.{started, no_device}
use knot_hal_source.Nrfd.Table.{tally, held, named}

-- With more devices counted than held, the loop runs past the slots.
scan_known-outside :
    (mac left : ℕ) (free : Option ℕ) (i : ℕ) (slots : List Known)
    → mac ≢ 0
    → tally held slots < left
    → tally (named mac) slots ≡ 0
    → scan_known mac left free i slots ≡ outside
unfolding tally scan_known
scan_known-outside mac zero free i slots h c e = absurd (omega arith)
scan_known-outside mac (suc left) free i [] h c e = refl
scan_known-outside mac (suc left) free i (k ∷ slots) h c e = ground (
  arith,
  scan_known-outside mac left free (suc i) slots,
  scan_known-outside mac (suc left) (first_free free i) (suc i) slots,
)

no_such : (m : ℕ) → m ≢ 0 → tally (named m) (replicate 5 no_device) ≡ 0
unfolding tally
no_such m other = ground arith

module _ {W : Type 0} (sv : Services W) where
  add_known_device-outside :
      (mac key name : List ℕ) (m : ℕ) (d : Daemon W)
      → nrf24_str2mac sv mac ≡ some m
      → scan_known m d.known_peers_size none 0 d.known_peers ≡ outside
      → add_known_device sv mac key name d ≡ none
  unfolding add_known_device
  add_known_device-outside mac key name m d parsed e = rw (add_known_device, parsed, e) refl

  -- On a daemon that knows no device, and with D-Bus giving the object, adding the device of the
  -- address zero succeeds. To add any other device after that reads outside of the slots.
  pub add_known_device-after_zero :
      (z mac key name : List ℕ) (m : ℕ) (w : W)
      → nrf24_str2mac sv z ≡ some 0
      → nrf24_str2mac sv mac ≡ some m
      → m ≢ 0
      → (sv.register_object 0 w).0 ≢ 0
      → (d : Daemon W) × (add_known_device sv z key name (started w) ≡ some (true, d))
        × (add_known_device sv mac key name d ≡ none)
  unfolding add_known_device insert_device new_device_object store_device scan_known tally
  add_known_device-after_zero z mac key name m w zeroed parsed other given =
      let id = (sv.register_object 0 w).0 in
      let e : (id == 0) ≡ false = ground arith in
      let d : Daemon W =
        store_device sv 0 id 0 z key name (sv.register_object 0 w).1
          (record (started w) { world = (sv.register_object 0 w).1 }) in
      (
        d,
        rw (add_known_device, zeroed, e) refl,
        add_known_device-outside mac key name m d parsed
            (scan_known-outside m 1 none 0 d.known_peers other (omega arith) (no_such m other)),
      )
