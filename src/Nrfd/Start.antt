-- ===== src/Nrfd/Start.antt =====
-- The start of the daemon of src/nrfd/manager.c: the configuration file, the address, and the order in
-- which the parts come up.
use knot_hal_source.Prelude.{
  ℕ, ◌==◌, true, Option, none, some, List, ℤ, pos, negsuc, is_neg, if◌then◌else◌, length,
}
use knot_hal_source.Comm.Errors.{einval}
use knot_hal_source.Nrfd.State.{Daemon, Services}
use knot_hal_source.Nrfd.Devices.{nrf24_str2mac}
use knot_hal_source.Nrfd.Config.{parse_nodes, started}
use knot_hal_source.Nrfd.Radio.{radio_init}

-- What `parse_config` fills in: its three arguments.
pub record Settings : Type 0 where
  pub cfg_channel : ℤ
  pub cfg_dbm : ℤ
  pub mac : ℕ

abbrev pub or_keep : Option ℤ → ℤ → ℤ
or_keep none old = old
or_keep (some new) old = new

module _ {W : Type 0} (sv : Services W) where
  -- the member "mac", if it is a string
  unfoldable pub parse_mac : Option (Option (List ℕ)) → Settings → ℤ × Settings
  parse_mac none set = (pos 0, set)
  parse_mac (some none) set = (pos 0, set)
  parse_mac (some (some str)) set = elim (nrf24_str2mac sv str) [
    | none ↦ (negsuc 0, set)
    | some m ↦ (pos 0, record set { mac = m })
  ]

  unfoldable pub parse_config : List ℕ → Settings → ℤ × Settings
  parse_config config set = elim (sv.parse_json config) [
    | none ↦ (einval, set)
    | some none ↦ (einval, set)
    | some (some radio) ↦ parse_mac radio.radio_mac (record set {
      cfg_channel = or_keep radio.channel set.cfg_channel;
      cfg_dbm = or_keep radio.tx_power set.cfg_dbm;
    })
  ]

  -- A new address into the file, if the file has one to be replaced.
  unfoldable pub save_new_mac : List ℕ → List ℕ → ℕ → W → ℤ × ℕ × W
  save_new_mac config file mac w =
      let (random, drawn) = sv.hal_getrandom w in
      if length (sv.print_mac random) == 23
      then (pos 0, random, sv.save_mac config file (sv.print_mac random) drawn)
      else (negsuc 0, random, drawn)

  unfoldable pub gen_save_mac : List ℕ → List ℕ → ℕ → W → ℤ × ℕ × W
  gen_save_mac config file mac w = elim (sv.parse_json config) [
    | none ↦ (einval, mac, w)
    | some none ↦ (einval, mac, w)
    | some (some radio) ↦ elim radio.radio_mac [
      | none ↦ (pos 0, mac, w)
      | some str ↦ save_new_mac config file mac w
    ]
  ]

  -- The end of `manager_start`: D-Bus, the host, and the radio.
  unfoldable pub start_services : Option (List ℕ) → ℕ → Daemon W → ℤ × Daemon W
  start_services none mac d =
      radio_init sv mac
        (record d { adapter_mac = mac; powered = true; world = sv.own_name mac d.world })
  start_services (some host) mac d =
      let (err, w) = sv.resolve host (sv.own_name mac d.world) in
      let found = record d { adapter_mac = mac; powered = true; world = w } in
      if is_neg err then (err, found) else radio_init sv mac found

  -- Its middle, from the devices of the file and the address on.
  unfoldable pub start_known : List ℕ → List ℕ → Option (List ℕ) → ℕ → Daemon W → ℤ × Daemon W
  start_known config file host mac d =
      let (err, known) = parse_nodes sv d in
      let (saved, new_mac, w) = gen_save_mac config file mac known.world in
      if is_neg err
      then (err, known)
      else if mac == 0
      then (if is_neg saved
          then (saved, record known { adapter_mac = new_mac; powered = true; world = w })
          else start_services host new_mac (record known { world = w }))
      else start_services host mac known

  -- The channel and the power that are chosen have no effect, and are left out.
  unfoldable pub manager_start : List ℕ → Option (List ℕ) → W → ℤ × Daemon W
  manager_start file host w = elim (sv.load_file file w) [
    | none ↦ (negsuc 0, started w)
    | some config ↦
        let (err, set) =
          parse_config config (record { cfg_channel = pos 10; cfg_dbm = pos 0; mac = 0 }) in
        if is_neg err then (err, started w) else start_known config file host set.mac (started w)
  ]
