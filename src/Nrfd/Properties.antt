-- ===== src/Nrfd/Properties.antt =====
-- What src/nrfd/manager.c shows on D-Bus: the properties of the adapter and of the devices, and the calls of
-- the adapter's methods.
use knot_hal_source.Prelude.{ℕ, Bool, Option, none, some, List, get_elem?}
use knot_hal_source.Nrfd.State.{Known, Beacon, Daemon, Services}
use knot_hal_source.Nrfd.Devices.{add_known_device, remove_known_device}

-- A property by its name, and its value.
pub data DeviceProperty : Type 0 where
  mac_property : DeviceProperty
  alias_property : DeviceProperty
  status_property : DeviceProperty
  unknown_device_property : DeviceProperty

pub data AdapterProperty : Type 0 where
  address : AdapterProperty
  powered : AdapterProperty
  unknown_adapter_property : AdapterProperty

pub data Value : Type 0 where
  text : List ℕ → Value
  flag : Bool → Value
  unknown_property : Value

-- A method by its name, with its arguments, and the answer.
pub data Method : Type 0 where
  add_device : List ℕ → List ℕ → List ℕ → Method
  remove_device : List ℕ → Method
  get_broadcasting_devices : Method
  unknown_method : Method

pub data Answer : Type 0 where
  response : Bool → Answer
  devices : List Beacon → Answer
  no_answer : Answer

module _ {W : Type 0} (sv : Services W) where
  unfoldable pub device_value : DeviceProperty → Known → Value
  device_value mac_property k = text (sv.print_mac k.addr)
  device_value alias_property k = text k.alias
  device_value status_property k = flag k.status
  device_value unknown_device_property k = unknown_property

  -- of the device in the slot `dev`
  unfoldable pub handle_device_get_property : ℕ → DeviceProperty → Daemon W → Option Value
  handle_device_get_property dev property d = elim (get_elem? d.known_peers dev) [
    | none ↦ none
    | some k ↦ some (device_value property k)
  ]

  unfoldable pub handle_get_property : AdapterProperty → Daemon W → Value
  handle_get_property address d = text (sv.print_mac d.adapter_mac)
  handle_get_property powered d = flag d.powered
  handle_get_property unknown_adapter_property d = unknown_property

  unfoldable pub handle_set_property : AdapterProperty → Bool → Daemon W → Daemon W
  handle_set_property address value d = d
  handle_set_property powered value d = record d { powered = value }
  handle_set_property unknown_adapter_property value d = d

  unfoldable pub handle_method_call : Method → Daemon W → Option (Answer × Daemon W)
  handle_method_call (add_device mac key name) d = elim (add_known_device sv mac key name d) [
    | none ↦ none
    | some r ↦ some (response r.0, r.1)
  ]
  handle_method_call (remove_device mac) d =
      let r = remove_known_device sv mac d in some (response r.0, r.1)
  handle_method_call get_broadcasting_devices d = some (devices d.peer_bcast_table, d)
  handle_method_call unknown_method d = some (no_answer, d)
