-- ===== src/Driver/Blacklist.antt =====
-- HidHide/src/Logic.c, SplitDeviceData and Blacklisted: is a device hidden from a session?
pub mod Verdict
use hid_hide.Prelude.{
  ℕ, ◌+◌, Bool, true, false, not, ◌&&◌, Option, none, some, List, [], ◌∷◌, take, drop, ltb, ◌==◌,
  if◌then◌else◌, WideString,
}
use hid_hide.Driver.Session.{SessionEntry, Link, held, local_head}

-- The kernel's text routines: RtlCompareUnicodeString without regard to case, zero being `true`,
-- and what RtlUnicodeStringToInteger leaves in a session id that was 0.
pub record TextRoutines : Type 0 where
  pub same : WideString → WideString → Bool
  pub to_integer : WideString → ℕ

-- The loop that looks for the delimiter `!`; 0 when there is none.
unfoldable pub find_delimiter : List ℕ → ℕ → ℕ
find_delimiter [] i = 0
find_delimiter (x ∷ input) i =
    let rest = find_delimiter input (i + 1) in if x == b'!' then i else rest

pub record DeviceData : Type 0 where
  pub device_instance_path : WideString
  pub session_id : ℕ

unfoldable pub split_device_data : TextRoutines → WideString → DeviceData
split_device_data t input =
    let position = find_delimiter input 0 in
    record {
      device_instance_path = if ltb 0 position then take position input else input;
      session_id = if ltb 0 position then t.to_integer (drop (position + 1) input) else 0;
    }

-- A device jailed to a session is not hidden from that session.
abbrev pub hidden_from : ℕ → ℕ → Bool
hidden_from session_id jail_session_id =
    if not (session_id == 0) && (not (jail_session_id == 0) && (session_id == jail_session_id))
    then false
    else true

-- The loop over the persistent blacklist: the verdict of the first entry for the device.
unfoldable pub check_persistent : TextRoutines → List WideString → WideString → ℕ → Option Bool
check_persistent t [] path session_id = none
check_persistent t (filter ∷ filters) path session_id =
    let rest = check_persistent t filters path session_id in
    if t.same (split_device_data t filter).device_instance_path path
    then some (hidden_from session_id (split_device_data t filter).session_id)
    else rest

-- The loop over the session blacklist. `none` is a read of a stack frame that is gone.
unfoldable pub check_session : TextRoutines → List Link → WideString → Option Bool
check_session t [] path = some false
check_session t (local_head ∷ entries) path = none
check_session t (held sbe ∷ entries) path =
    let rest = check_session t entries path in
    if t.same sbe.device_instance_path path then some true else rest

unfoldable pub blacklisted :
    TextRoutines → List WideString → List Link → WideString → ℕ → Option Bool
unfolding check_persistent check_session
blacklisted t filters entries path session_id = elim (check_persistent t filters path session_id) [
  | some verdict ↦ some verdict
  | none ↦ check_session t entries path
]
