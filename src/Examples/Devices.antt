-- ===== src/Examples/Devices.antt =====
-- The theorems on the list of devices and on its JSON at two devices of one container, of which one
-- is for gaming, and one that has no container.
use hid_hide.Prelude.{
  arith, ◌≡◌, refl, Bool, true, false, not, if◌then◌else◌, some, List, [], ◌∷◌, WideString, codes,
}
use hid_hide.Client.Sets.{compare_text, is_eq}
use hid_hide.Client.Hid.{HidDevice, Groups, hid_devices}
use hid_hide.Client.Hid.Groups.{count_groups, hid_devices_lem}
use hid_hide.Client.Hid.Gaming.{AllGaming, is_gaming, hid_devices_gaming}
use hid_hide.Client.MultiString.{c_str}
use hid_hide.Client.DriverAccess.{done}
use hid_hide.Client.Hid.Ancestors.{
  DeviceTree, text_property, guid_property, no_such_value, device_instance_path_parent,
  has_device_interface, base_container_id, base_container_device_instance_path,
}
use hid_hide.Client.Hid.Ancestors.Walks.{
  first_with_interface, HasParents, base_container_device_instance_path_lem,
}
use hid_hide.Client.Json.{escape_json}
use hid_hide.Client.Json.RoundTrip.{plain, read_json, read_json-escape_json}

abbrev device : Bool → WideString → WideString → HidDevice
device gaming path container = record {
  present = true;
  gaming_device = gaming;
  symbolic_link = [];
  vendor = codes "Acme";
  product = codes "Acme pad";
  serial_number = [];
  usage = [];
  description = codes "pad";
  device_path = path;
  xusb_path = [];
  base_container_path = container;
  base_container_class = [];
  base_container_count = 0;
}

abbrev three_devices : List HidDevice
three_devices =
    device false (codes "a") (codes "box")
    ∷ device false (codes "b") []
    ∷ device true (codes "c") (codes "box")
    ∷ []

abbrev same_part : WideString → WideString → Bool
same_part a b = is_eq (compare_text a b)

hid_devices_lem_example :
    (groups : Groups) × (hid_devices same_part false three_devices ≡ some groups)
    × (count_groups is_gaming groups ≡ 1)
hid_devices_lem_example = hid_devices_lem same_part is_gaming three_devices

hid_devices_gaming_example :
    (groups : Groups) × (hid_devices same_part true three_devices ≡ some groups)
    × AllGaming groups
    × (count_groups is_gaming groups ≡ 1)
hid_devices_gaming_example = hid_devices_gaming same_part three_devices

read_json-escape_json_example :
    read_json plain (escape_json (b'"' ∷ 31 ∷ b'\\' ∷ 10 ∷ [])) ≡ some (b'"' ∷ 31 ∷ b'\\' ∷ 10 ∷ [])
read_json-escape_json_example = read_json-escape_json (b'"' ∷ 31 ∷ b'\\' ∷ 10 ∷ [])

-- "pad" in "box" in "hub", of which the first two are one container and only "box" has the
-- interface.
abbrev tree : DeviceTree
tree = record {
  locate = λ path. true;
  get_parent = λ path. not (same_part path (codes "hub"));
  parent_path = λ path.
      if same_part path (codes "pad")
      then text_property (codes "box")
      else text_property (codes "hub");
  container_id = λ path. if same_part path (codes "hub") then no_such_value else guid_property 7;
  class_devices = λ path. true;
  enumerates = λ path. same_part path (codes "box");
  container_id_system = 1;
}

first_box : first_with_interface tree (codes "pad" ∷ codes "box" ∷ codes "hub" ∷ []) ≡ codes "box"
unfolding has_device_interface compare_text
first_box = refl

container_of_pad : base_container_id tree (codes "pad") ≡ done 7
unfolding base_container_id compare_text
container_of_pad = refl

container_of_box : base_container_id tree (codes "box") ≡ done 7
unfolding base_container_id compare_text
container_of_box = refl

container_of_hub : base_container_id tree (codes "hub") ≡ done 0
unfolding base_container_id compare_text
container_of_hub = refl

parents_of_pad : HasParents tree (codes "pad") (codes "box" ∷ codes "hub" ∷ [])
unfolding device_instance_path_parent compare_text c_str
parents_of_pad = (refl, (refl, tt))

base_container_device_instance_path_lem_example :
    base_container_device_instance_path tree 2 (codes "pad") ≡ some (done (codes "box"))
base_container_device_instance_path_lem_example =
    base_container_device_instance_path_lem tree 7 0 (codes "box" ∷ []) (codes "hub") (codes "pad")
      container_of_pad (ground arith) (ground arith) parents_of_pad (container_of_box, tt)
      container_of_hub (ground arith)
