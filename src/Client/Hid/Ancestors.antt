-- ===== src/Client/Hid/Ancestors.antt =====
-- HidHideCLI/src/HID.cpp, the walks from a device to its parents: to the nearest one with a device
-- interface, and to the outermost one of the same base container. What Windows says of a device is
-- a parameter.
pub mod Walks
use hid_hide.Prelude.{
  ℕ, zero, suc, Bool, true, false, not, ◌||◌, Option, none, some, List, [], ◌∷◌, ◌==◌,
  if◌then◌else◌, is_empty, WideString,
}
use hid_hide.Client.MultiString.{c_str}
use hid_hide.Client.DriverAccess.{Outcome, done, thrown}

-- A text property of a device: its buffer, a property without a value, one of another type, or an
-- error.
pub data TextProperty : Type 0 where
  text_property : List ℕ → TextProperty
  empty_property other_property failed_property : TextProperty

-- A GUID property, with CR_NO_SUCH_VALUE apart from the other errors. A GUID is its number.
pub data GuidProperty : Type 0 where
  guid_property : ℕ → GuidProperty
  no_such_value other_guid failed_guid : GuidProperty

-- What the configuration manager and SetupAPI answer about a device instance path.
pub record DeviceTree : Type 0 where
  pub locate : WideString → Bool
  pub get_parent : WideString → Bool
  pub parent_path : WideString → TextProperty
  pub container_id : WideString → GuidProperty
  pub class_devices : WideString → Bool
  pub enumerates : WideString → Bool
  pub container_id_system : ℕ

abbrev pub guid_null : ℕ
guid_null = 0

module _ (t : DeviceTree) where
  -- The last three statements of DeviceInstancePathParentOptional and of DeviceInstancePathParent.
  abbrev pub path_or_empty : TextProperty → WideString
  path_or_empty (text_property buffer) = c_str buffer
  path_or_empty _ = []

  abbrev pub path_or_throw : TextProperty → Outcome WideString
  path_or_throw (text_property buffer) = done (c_str buffer)
  path_or_throw empty_property = done []
  path_or_throw _ = thrown

  -- DeviceInstancePathParentOptional
  unfoldable pub device_instance_path_parent_optional : WideString → WideString
  device_instance_path_parent_optional path =
      if is_empty path || (not (t.locate path) || not (t.get_parent path))
      then []
      else path_or_empty (t.parent_path path)

  -- DeviceInstancePathParent
  unfoldable pub device_instance_path_parent : WideString → Outcome WideString
  device_instance_path_parent path =
      if not (t.locate path) || not (t.get_parent path)
      then thrown
      else path_or_throw (t.parent_path path)

  -- DeviceInstancePathHasDeviceInterface
  unfoldable pub has_device_interface : WideString → Bool
  has_device_interface path = if not (t.class_devices path) then false else t.enumerates path

  -- FindAncestorWithDeviceInterface, the leaf included. `none` is the lack of fuel.
  unfoldable pub find_ancestor : ℕ → WideString → Option WideString
  find_ancestor zero current = none
  find_ancestor (suc fuel) current =
      let rest = find_ancestor fuel (device_instance_path_parent_optional current) in
      if is_empty current
      then some []
      else (if has_device_interface current then some current else rest)

  abbrev pub guid_or_throw : GuidProperty → Outcome ℕ
  guid_or_throw (guid_property id) = done id
  guid_or_throw no_such_value = done guid_null
  guid_or_throw _ = thrown

  -- BaseContainerId
  unfoldable pub base_container_id : WideString → Outcome ℕ
  base_container_id path =
      if is_empty path
      then done guid_null
      else (if not (t.locate path) then thrown else guid_or_throw (t.container_id path))

  -- The loop of BaseContainerDeviceInstancePath.
  unfoldable pub outermost : ℕ → ℕ → WideString → Option (Outcome WideString)
  outermost zero id it = none
  outermost (suc fuel) id it = elim (device_instance_path_parent it) [
    | thrown ↦ some thrown
    | done parent ↦ elim (base_container_id parent) [
      | thrown ↦ some thrown
      | done parent_id ↦ elim (id == parent_id) [
        | true ↦ outermost fuel id parent
        | false ↦ some (done it)
      ]
    ]
  ]

  -- BaseContainerDeviceInstancePath
  unfoldable pub base_container_device_instance_path : ℕ → WideString → Option (Outcome WideString)
  base_container_device_instance_path fuel path = elim (base_container_id path) [
    | thrown ↦ some thrown
    | done id ↦
        if (guid_null == id) || (t.container_id_system == id)
        then some (done [])
        else outermost fuel id path
  ]
