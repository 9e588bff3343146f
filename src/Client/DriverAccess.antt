-- ===== src/Client/DriverAccess.antt =====
-- HidHideCLI/src/FilterDriverProxy.cpp, the functions that talk to the driver: DeviceIoControl is
-- a parameter, a THROW_WIN32 is the outcome `thrown`.
use hid_hide.Prelude.{
  ℕ, ◌*◌, ◌/◌, Ordering, Bool, not, List, [], length, ◌==◌, if◌then◌else◌, WideString,
}
use hid_hide.Driver.Requests.{
  ControlCode, get_whitelist_code, set_whitelist_code, get_blacklist_code, set_blacklist_code,
  get_active_code, set_active_code, get_wlinverse_code, set_wlinverse_code,
}
use hid_hide.Client.MultiString.{zeros, string_list_to_multi_string, multi_string_to_string_list}
use hid_hide.Client.Sets.{
  string_list_to_string_set, string_set_to_string_list, string_list_to_path_set,
  path_set_to_string_list,
}

-- The arguments of DeviceIoControl: the lengths of both buffers in bytes, the byte of a buffer of
-- one BOOLEAN, and the characters of a buffer of WCHARs.
pub record Call : Type 0 where
  pub code : ControlCode
  pub input_length : ℕ
  pub output_length : ℕ
  pub flag : ℕ
  pub characters : List ℕ

-- Its result, the size that it reports, and the output buffer after the call.
pub record Answer : Type 0 where
  pub is_ok : Bool
  pub needed : ℕ
  pub flag : ℕ
  pub characters : List ℕ

-- The device behind a handle. `World` is everything that its answers depend on.
pub record Device : Type 1 where
  pub World : Type 0
  pub control : Call → World → Answer × World

pub data Outcome (A : Type 0) : Type 0 where
  done : A → Outcome A
  thrown : Outcome A

-- A call behind another: a throw of the first ends both.
unfoldable pub and_then : {W A B : Type 0} → Outcome A × W → (A → W → Outcome B × W) → Outcome B × W
and_then (thrown, w) next = (thrown, w)
and_then (done a, w) next = next a w

abbrev pub size_of_wchar : ℕ
size_of_wchar = 2

abbrev pub read_flag_call : ControlCode → Call
read_flag_call code = record {
  code = code;
  input_length = 0;
  output_length = 1;
  flag = 0;
  characters = [];
}

abbrev pub write_flag_call : ControlCode → Bool → Call
write_flag_call code active = record {
  code = code;
  input_length = 1;
  output_length = 0;
  flag = if active then 1 else 0;
  characters = [];
}

abbrev pub size_call : ControlCode → Call
size_call code = record {
  code = code;
  input_length = 0;
  output_length = 0;
  flag = 0;
  characters = [];
}

abbrev pub read_list_call : ControlCode → ℕ → Call
read_list_call code count = record {
  code = code;
  input_length = 0;
  output_length = count * size_of_wchar;
  flag = 0;
  characters = zeros count;
}

abbrev pub write_list_call : ControlCode → List ℕ → Call
write_list_call code buffer = record {
  code = code;
  input_length = length buffer * size_of_wchar;
  output_length = 0;
  flag = 0;
  characters = buffer;
}

module _ (d : Device) where
  -- The two throws, and the result, of GetActive and GetInverse.
  unfoldable pub finish_read_flag : Answer × d.World → Outcome Bool × d.World
  finish_read_flag (a, w) =
      if not a.is_ok
      then (thrown, w)
      else (if not (a.needed == 1) then (thrown, w) else (done (not (a.flag == 0)), w))

  -- The throw of the functions that set.
  unfoldable pub finish_write : Answer × d.World → Outcome Unit × d.World
  finish_write (a, w) = if not a.is_ok then (thrown, w) else (done tt, w)

  -- The second call of GetBlacklist and GetWhitelist.
  unfoldable pub finish_read_list : Answer × d.World → Outcome (List WideString) × d.World
  finish_read_list (a, w) =
      if not a.is_ok then (thrown, w) else (done (multi_string_to_string_list a.characters), w)

  -- The first call, for the size, and then the second.
  unfoldable pub read_list : ControlCode → Answer × d.World → Outcome (List WideString) × d.World
  read_list code (a, w) =
      if not a.is_ok
      then (thrown, w)
      else finish_read_list (d.control (read_list_call code (a.needed / size_of_wchar)) w)

  -- The list as a set.
  unfoldable pub as_set :
      (List WideString → List WideString)
      → Outcome (List WideString) × d.World
      → Outcome (List WideString) × d.World
  as_set to_set (done strings, w) = (done (to_set strings), w)
  as_set to_set (thrown, w) = (thrown, w)

  -- ::GetActive
  unfoldable pub get_active : d.World → Outcome Bool × d.World
  get_active w = finish_read_flag (d.control (read_flag_call get_active_code) w)

  -- ::SetActive
  unfoldable pub set_active : Bool → d.World → Outcome Unit × d.World
  set_active active w = finish_write (d.control (write_flag_call set_active_code active) w)

  -- ::GetBlacklist
  unfoldable pub get_blacklist : d.World → Outcome (List WideString) × d.World
  get_blacklist w =
      as_set string_list_to_string_set
        (read_list get_blacklist_code (d.control (size_call get_blacklist_code) w))

  -- ::SetBlacklist
  unfoldable pub set_blacklist : List WideString → d.World → Outcome Unit × d.World
  set_blacklist device_instance_paths w = finish_write (
      d.control
        (write_list_call set_blacklist_code
          (string_list_to_multi_string (string_set_to_string_list device_instance_paths)))
        w)

  -- ::GetWhitelist, over the order of paths
  unfoldable pub get_whitelist :
      (WideString → WideString → Ordering) → d.World → Outcome (List WideString) × d.World
  get_whitelist cmp w =
      as_set (string_list_to_path_set cmp)
        (read_list get_whitelist_code (d.control (size_call get_whitelist_code) w))

  -- ::SetWhitelist
  unfoldable pub set_whitelist : List WideString → d.World → Outcome Unit × d.World
  set_whitelist full_image_names w = finish_write (
      d.control
        (write_list_call set_whitelist_code
          (string_list_to_multi_string (path_set_to_string_list full_image_names)))
        w)

  -- ::GetInverse
  unfoldable pub get_inverse : d.World → Outcome Bool × d.World
  get_inverse w = finish_read_flag (d.control (read_flag_call get_wlinverse_code) w)

  -- ::SetInverse
  unfoldable pub set_inverse : Bool → d.World → Outcome Unit × d.World
  set_inverse inverse w = finish_write (d.control (write_flag_call set_wlinverse_code inverse) w)
