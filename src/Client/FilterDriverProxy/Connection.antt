-- ===== src/Client/FilterDriverProxy/Connection.antt =====
-- The handle of HidHideCLI/src/FilterDriverProxy.cpp to the control device of HidHide/src/Logic.c:
-- a call of DeviceIoControl becomes a request of the driver, and its completion the answer. What
-- the I/O manager does in between is not under the repository, and is a parameter.
pub mod Reads
pub mod Writes
pub mod InForce
pub mod Kept
use hid_hide.Prelude.{
  ℕ, ◌^◌, ◌<◌, ◌≡◌, Bool, true, false, Option, none, some, List, [], ◌∷◌, WideString,
}
use hid_hide.Driver.Status.{NtStatus, nt_success}
use hid_hide.Driver.MultiString.{StringCopy}
use hid_hide.Driver.Session.{ListRoutines, EntryAllocation}
use hid_hide.Driver.Framework.{
  Framework, IsRegistry, Property, whitelisted_full_image_names, blacklisted_device_instance_paths,
}
use hid_hide.Driver.Control.{State}
use hid_hide.Driver.Requests.{Request, Completion, Reply, evt_io_device_control}
use hid_hide.Client.DriverAccess.{Call, Answer, Device}
use hid_hide.Client.FilterDriverProxy.Faithful.{Settings}

-- What the requests of one client depend on: the kernel's routines, its process id, what the pool
-- answers, and what the framework answers about the buffers. The length of a buffer is a DWORD.
pub record Channel : Type 0 where
  pub copier : StringCopy
  pub lists : ListRoutines
  pub caller_pid : ℕ
  pub answers : ℕ → EntryAllocation
  pub retrieved : Call → NtStatus
  pub retrieved_fits : (c : Call) → nt_success (retrieved c) ≡ true → c.output_length < 2 ^ 32

abbrev pub request_of : Channel → Call → Request
request_of ch c = record {
  output_length = c.output_length;
  input_length = c.input_length;
  retrieved = ch.retrieved c;
  characters = c.characters;
  first_byte = c.flag;
  caller_pid = ch.caller_pid;
  answers = ch.answers;
}

-- A byte of the output buffer, which stays 0 when it is not written.
abbrev pub byte_of : Option Bool → ℕ
byte_of none = 0
byte_of (some false) = 0
byte_of (some true) = 1

-- A request that nobody completed has no answer that is a success.
abbrev pub is_completed : List Completion → Bool
is_completed [] = false
is_completed (c ∷ completions) = nt_success c.status

abbrev pub information_of : List Completion → ℕ
information_of [] = 0
information_of (c ∷ completions) = c.information

-- The laws of the registry about the two lists that the driver keeps there: one that is not a
-- REG_MULTI_SZ is not said to be one, and what is written to one value changes no other.
pub record KeepsLists (f : Framework) (r : IsRegistry f) : Type 0 where
  pub absent :
      (p : Property) (w : f.World) → r.texts p w ≡ none → (f.query_value p w).is_multi_sz ≡ false
  pub texts-assign_ulong :
      (p q : Property) (n : ℕ) (w : f.World) → r.texts p (f.assign_ulong q n w).1 ≡ r.texts p w
  pub blacklist-assign :
      (b : List ℕ) (w : f.World)
      → r.texts blacklisted_device_instance_paths
          (f.assign_multi_string whitelisted_full_image_names b w).1
        ≡ r.texts blacklisted_device_instance_paths w
  pub whitelist-assign :
      (b : List ℕ) (w : f.World)
      → r.texts whitelisted_full_image_names
          (f.assign_multi_string blacklisted_device_instance_paths b w).1
        ≡ r.texts whitelisted_full_image_names w

module _ (f : Framework) where
  -- A bug check gives no answer that is a success.
  abbrev pub answer_of : State f → Option (Reply f) → Answer × State f
  answer_of s none = (record { is_ok = false; needed = 0; flag = 0; characters = [] }, s)
  answer_of s (some reply) = (
    record {
      is_ok = is_completed reply.completions;
      needed = information_of reply.completions;
      flag = byte_of reply.flag;
      characters = reply.characters;
    },
    reply.state,
  )

  -- The driver as the device behind the handle.
  abbrev pub connected : Channel → Device
  connected ch = record {
    World = State f;
    control =
        λ c s. answer_of s (evt_io_device_control f ch.copier ch.lists c.code (request_of ch c) s);
  }

  -- The texts of a value, none when there is no such value.
  abbrev pub texts_of : Option (List WideString) → List WideString
  texts_of none = []
  texts_of (some items) = items

  -- The settings of the driver: the two booleans that it holds, and the lists that the registry
  -- holds for it.
  abbrev pub settings_of : IsRegistry f → State f → Settings
  settings_of r s = record {
    active = s.control.is_active;
    blacklist = texts_of (r.texts blacklisted_device_instance_paths s.world);
    whitelist = texts_of (r.texts whitelisted_full_image_names s.world);
    inverse = s.control.is_inverse;
  }
