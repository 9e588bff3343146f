-- ===== src/Driver/Control.antt =====
-- HidHide/src/Logic.c, the settings that the control device holds: each is kept in the registry
-- and in the context of the control device, and each setter writes the registry first. A function
-- runs its critical sections under one lock, so each is a function of the whole state.
-- `none` for a result is a use of a framework object that was deleted: a bug check.
pub mod Settings
pub mod Lists
pub mod Live
use hid_hide.Prelude.{
  ℕ, Bool, true, false, not, ◌&&◌, Option, none, some, List, [], ◌∷◌, ◌++◌, xor, if◌then◌else◌,
  WideString,
}
use hid_hide.Driver.Status.{NtStatus, success, nt_success}
use hid_hide.Driver.ProcessTree.{Tree}
use hid_hide.Driver.Session.{Link}
use hid_hide.Driver.Processes.{process_ids_flush}
use hid_hide.Driver.MultiString.{StringCopy, Filled, collection_to_multi_string}
use hid_hide.Driver.Framework.{
  Framework, Property, whitelisted_full_image_names, blacklisted_device_instance_paths,
  whitelisted_inverse,
}
use hid_hide.Driver.Registry.{
  set_boolean_property, set_multi_string_property, CollectionRead, create_collection_for_property,
}

-- CONTROL_DEVICE_CONTEXT. A collection is `none` when its handle is that of a deleted object;
-- `number_of_devices_created` is the bit pattern of an INT32.
pub record ControlContext : Type 0 where
  pub whitelist : Option (List WideString)
  pub blacklist : Option (List WideString)
  pub is_active : Bool
  pub is_inverse : Bool
  pub session_blacklist : List Link
  pub shutdown_pending : Bool
  pub number_of_devices_created : ℕ

-- The events that the driver writes to the event log for its users.
pub data Event : Type 0 where
  enabled disabled : Event
  whitelisted_first : ℕ → ℕ → Event

-- What the driver keeps while its control device lives.
pub record State (f : Framework) : Type 0 where
  pub process_tree : Tree
  pub control : ControlContext
  pub events : List Event
  pub world : f.World

-- The two `if`s behind a change of a boolean.
abbrev pub change_events : Bool → Bool → List Event
change_events old new = if xor old new then (if new then enabled ∷ [] else disabled ∷ []) else []

module _ (f : Framework) where
  unfoldable pub get_active : State f → Bool
  get_active s = s.control.is_active

  unfoldable pub set_active : Bool → State f → NtStatus × State f
  set_active active s =
      let written = set_boolean_property f Property.active active s.world in
      if nt_success written.0
      then (
        success,
        record s {
          control = record (s.control) { is_active = active };
          events = s.events ++ change_events s.control.is_active active;
          world = written.1;
        },
      )
      else (written.0, record s { world = written.1 })

  unfoldable pub get_inverse : State f → Bool
  get_inverse s = s.control.is_inverse

  unfoldable pub set_inverse : Bool → State f → NtStatus × State f
  set_inverse inverse s =
      let written = set_boolean_property f whitelisted_inverse inverse s.world in
      if nt_success written.0
      then (
        success,
        record s {
          control = record (s.control) { is_inverse = inverse };
          events = s.events ++ change_events s.control.is_inverse inverse;
          world = written.1;
        },
      )
      else (written.0, record s { world = written.1 })

  -- SetWhitelist once the registry is written: the old collection is deleted, a new one is read
  -- back, and the evaluations are forgotten if that succeeds.
  unfoldable pub reload_whitelist : State f → CollectionRead f → NtStatus × State f
  reload_whitelist s reread =
      if nt_success reread.status
      then (
        success,
        record s {
          control = record (s.control) { whitelist = reread.collection };
          process_tree = process_ids_flush s.process_tree;
          world = reread.world;
        },
      )
      else (
        reread.status,
        record s {
          control = record (s.control) { whitelist = reread.collection };
          world = reread.world;
        },
      )

  unfoldable pub set_whitelist : List ℕ → State f → Option (NtStatus × State f)
  set_whitelist buffer s =
      let written = set_multi_string_property f whitelisted_full_image_names buffer s.world in
      if nt_success written.0
      then elim s.control.whitelist [
        | none ↦ none
        | some _ ↦ some (
            reload_whitelist s (
              create_collection_for_property f whitelisted_full_image_names
                (f.delete_collection written.1)))
      ]
      else some (written.0, record s { world = written.1 })

  unfoldable pub reload_blacklist : State f → CollectionRead f → NtStatus × State f
  reload_blacklist s reread = (
    if nt_success reread.status then success else reread.status,
    record s {
      control = record (s.control) { blacklist = reread.collection };
      world = reread.world;
    },
  )

  unfoldable pub set_blacklist : List ℕ → State f → Option (NtStatus × State f)
  set_blacklist buffer s =
      let written = set_multi_string_property f blacklisted_device_instance_paths buffer s.world in
      if nt_success written.0
      then elim s.control.blacklist [
        | none ↦ none
        | some _ ↦ some (
            reload_blacklist s (
              create_collection_for_property f blacklisted_device_instance_paths
                (f.delete_collection written.1)))
      ]
      else some (written.0, record s { world = written.1 })

  -- What GetWhitelist and GetBlacklist give: the status, the size needed, the buffer and the world.
  pub record ListRead : Type 0 where
    pub status : NtStatus
    pub needed : ℕ
    pub buffer : List ℕ
    pub world : f.World

  -- The collection read back is written to the buffer and deleted. A successful read has one.
  unfoldable pub fill : StringCopy → Option (List ℕ) → ℕ → CollectionRead f → Option ListRead
  fill c buffer size reread =
      if nt_success reread.status
      then elim reread.collection [
        | none ↦ none
        | some items ↦ elim (collection_to_multi_string c items buffer size) [
          | none ↦ none
          | some filled ↦ some (record {
            status = if nt_success filled.status then success else filled.status;
            needed = filled.needed;
            buffer = filled.buffer;
            world = f.delete_collection reread.world;
          })
        ]
      ]
      else some (record { status = reread.status; needed = 0; buffer = []; world = reread.world })

  unfoldable pub get_whitelist : StringCopy → Option (List ℕ) → ℕ → State f → Option ListRead
  get_whitelist c buffer size s =
      fill c buffer size (create_collection_for_property f whitelisted_full_image_names s.world)

  unfoldable pub get_blacklist : StringCopy → Option (List ℕ) → ℕ → State f → Option ListRead
  get_blacklist c buffer size s =
      fill c buffer size
        (create_collection_for_property f blacklisted_device_instance_paths s.world)
