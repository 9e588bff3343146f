-- ===== src/Client/Hid.antt =====
-- HidHideCLI/src/HID.cpp, what is not a call of Windows: which devices are for gaming, how the
-- devices are grouped by their base container, and the name of a group. With it
-- SplitStringAtWhitespaces of HidHideCLI/src/Utils.cpp. StrCmpLogicalW is a parameter, and so are
-- the answers about a device.
pub mod Split
pub mod Groups
pub mod Gaming
pub mod Ancestors
pub mod Model
use hid_hide.Prelude.{
  ℕ, zero, suc, Ordering, Bool, true, false, not, ◌&&◌, ◌||◌, Option, none, some, List, [], ◌∷◌,
  ◌++◌, length, any, ltb, leb, ◌==◌, if◌then◌else◌, is_empty, WideString,
}
use hid_hide.Client.MultiString.{c_str}
use hid_hide.Client.Sets.{compare_text, is_eq}

-- value.find(L' ', begin): what stands before the next blank, and what behind it.
unfoldable pub find_blank : WideString → Option (WideString × WideString)
find_blank [] = none
find_blank (x ∷ s) = elim (x == b' ') [
  | true ↦ some ([], s)
  | false ↦ elim (find_blank s) [ none ↦ none | some (front, rest) ↦ some (x ∷ front, rest) ]
]

-- The loop of SplitStringAtWhitespaces, on the text from `begin` on.
unfoldable pub split_at_blanks : ℕ → List WideString → WideString → Option (List WideString)
split_at_blanks zero result value = none
split_at_blanks (suc fuel) result value = elim (find_blank value) [
  | none ↦ some (if is_empty value then result else result ++ (value ∷ []))
  | some (front, rest) ↦
      split_at_blanks fuel (if is_empty front then result else result ++ (front ∷ [])) rest
]

-- SplitStringAtWhitespaces, with fuel for each character.
unfoldable pub split_string_at_whitespaces : WideString → Option (List WideString)
split_string_at_whitespaces value = split_at_blanks (suc (length value)) [] value

-- HidDeviceInformation
pub record HidDevice : Type 0 where
  pub present : Bool
  pub gaming_device : Bool
  pub symbolic_link : WideString
  pub vendor : WideString
  pub product : WideString
  pub serial_number : WideString
  pub usage : WideString
  pub description : WideString
  pub device_path : WideString
  pub xusb_path : WideString
  pub base_container_path : WideString
  pub base_container_class : WideString
  pub base_container_count : ℕ

-- GamingDevice
abbrev pub is_gaming_device : (vendor_id product_id usage_page usage : ℕ) → Bool
is_gaming_device vendor_id product_id usage_page usage =
    ((vendor_id == 0x28DE) && (product_id == 0x1205))
    || (((vendor_id == 0x28DE) && (product_id == 0x1142))
        || ((usage_page == 0x05) || ((usage_page == 0x01) && ((usage == 0x04) || (usage == 0x05)))))

-- std::multimap::emplace: behind the entries with the same key.
unfoldable pub multi_emplace :
    {A : Type 0} → WideString → A → List (WideString × A) → List (WideString × A)
multi_emplace key a [] = (key, a) ∷ []
multi_emplace key a ((k, b) ∷ entries) = elim (compare_text key k) [
  | Ordering.lt ↦ (key, a) ∷ (k, b) ∷ entries
  | Ordering.eq ↦ (k, b) ∷ multi_emplace key a entries
  | Ordering.gt ↦ (k, b) ∷ multi_emplace key a entries
]

-- The devices by their base container: the lambda in HidDevices.
unfoldable pub by_container :
    List (WideString × HidDevice) → List HidDevice → List (WideString × HidDevice)
by_container entries [] = entries
by_container entries (x ∷ devices) =
    by_container (multi_emplace x.base_container_path x entries) devices

-- The name that the parts of the model make.
unfoldable pub friendly_name : WideString → List WideString → WideString
friendly_name name [] = name
friendly_name name (part ∷ model) =
    friendly_name (if is_empty name then part else name ++ (b' ' ∷ part)) model

-- The description of the last of a list of devices.
unfoldable pub last_description : List HidDevice → WideString
last_description [] = []
last_description (x ∷ []) = x.description
last_description (x ∷ y ∷ devices) = last_description (y ∷ devices)

-- The variables of one round of HidDevices, and the entries that are left.
pub record Container : Type 0 where
  pub gaming_device : Bool
  pub model : List WideString
  pub hid_devices : List HidDevice
  pub rest : List (WideString × HidDevice)

abbrev pub name_of : Container → WideString
name_of c =
    if is_empty (friendly_name [] c.model)
    then last_description c.hid_devices
    else friendly_name [] c.model

abbrev pub Groups : Type 0
Groups = List (WideString × List HidDevice)

module _ (same_logical : WideString → WideString → Bool) where
  -- The loop of MergeModelInformation.
  unfoldable pub merge_parts : List WideString → List WideString → List WideString
  merge_parts model [] = model
  merge_parts model (part ∷ parts) =
      merge_parts
        (if any (λ (value : WideString). same_logical (c_str value) (c_str part)) model
          then model
          else model ++ (part ∷ []))
        parts

  merge_split : List WideString → Option (List WideString) → List WideString
  merge_split model none = model
  merge_split model (some parts) = merge_parts model parts

  -- MergeModelInformation. The split always gives its parts.
  unfoldable pub merge_model_information : List WideString → WideString → List WideString
  unfolding merge_split
  merge_model_information model append = merge_split model (split_string_at_whitespaces append)

  abbrev pub merge_device : List WideString → HidDevice → List WideString
  merge_device model x = merge_model_information (merge_model_information model x.vendor) x.product

  -- The inner loop: the entries with the same container.
  unfoldable pub collect :
      WideString
      → Bool
      → List WideString
      → List HidDevice
      → List (WideString × HidDevice)
      → Container
  collect key gaming model devices [] = record {
    gaming_device = gaming;
    model = model;
    hid_devices = devices;
    rest = [];
  }
  collect key gaming model devices ((k, x) ∷ entries) = elim (is_eq (compare_text k key)) [
    | true ↦
        collect key (gaming || x.gaming_device) (merge_device model x) (devices ++ (x ∷ [])) entries
    | false ↦ record {
      gaming_device = gaming;
      model = model;
      hid_devices = devices;
      rest = (k, x) ∷ entries;
    }
  ]

  -- The two ways to start a round.
  unfoldable pub container_of : WideString → HidDevice → List (WideString × HidDevice) → Container
  container_of [] x entries = record {
    gaming_device = x.gaming_device;
    model = merge_device [] x;
    hid_devices = x ∷ [];
    rest = entries;
  }
  container_of (c ∷ key) x entries =
      collect (c ∷ key) x.gaming_device [] [] ((c ∷ key, x) ∷ entries)

  -- The loop of HidDevices, with fuel for each entry.
  unfoldable pub group_loop : ℕ → Bool → Groups → List (WideString × HidDevice) → Option Groups
  group_loop zero only result entries = none
  group_loop (suc fuel) only result [] = some result
  group_loop (suc fuel) only result ((key, x) ∷ entries) =
      let c = container_of key x entries in
      group_loop fuel only
        (if not only || c.gaming_device
          then multi_emplace (name_of c) c.hid_devices result
          else result)
        c.rest

  -- HidDevices, over the devices that the iteration finds.
  unfoldable pub hid_devices : Bool → List HidDevice → Option Groups
  hid_devices only devices = group_loop (suc (length devices)) only [] (by_container [] devices)
