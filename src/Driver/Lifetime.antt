-- ===== src/Driver/Lifetime.antt =====
-- HidHide/src/Logic.c, the notifications that the driver gets: processes that start and end,
-- devices that come and go, and the shutdown after which the control device is deleted with the
-- last device. `none` for a result is a bug check: the use of the context of a control device that
-- is gone, or of the lock that is its child.
pub mod Ending
pub mod Devices
use hid_hide.Prelude.{
  ℕ, ◌+◌, ◌-◌, ◌%◌, ◌^◌, Bool, true, false, not, ◌&&◌, Option, none, some, List, [], ◌∷◌, ◌==◌,
  if◌then◌else◌, WideString,
}
use hid_hide.Driver.Status.{NtStatus, success, nt_success}
use hid_hide.Driver.ProcessTree.{Tree, Allocation}
use hid_hide.Driver.Processes.{process_id_register, process_id_unregister, process_ids_flush}
use hid_hide.Driver.Session.{SessionEntry, Link, cleanup_for_pid, drain}
use hid_hide.Driver.Framework.{Framework}
use hid_hide.Driver.Control.{State, ControlContext}

-- The state, and whether s_wdfControlDevice is still set.
pub record Machine (f : Framework) : Type 0 where
  pub state : State f
  pub is_present : Bool

-- An INT32 increment as its bit pattern.
abbrev pub minus_one : ℕ
minus_one = 2 ^ 32 - 1

-- The context after the update of its data.
unfoldable pub count_devices : ℕ → ControlContext → ControlContext
count_devices increment c = record c {
  shutdown_pending = if increment == 0 then true else c.shutdown_pending;
  number_of_devices_created = (c.number_of_devices_created + increment) % 2 ^ 32;
}

abbrev pub is_last : ControlContext → Bool
is_last c = (c.number_of_devices_created == 0) && c.shutdown_pending

abbrev drained : ControlContext → Option (List SessionEntry × List Link) → Option ControlContext
drained c none = none
drained c (some (freed, kept)) = some (record c { session_blacklist = kept })

-- OnControlDeviceContextCleanup, which runs as the control device is deleted.
unfoldable pub on_control_device_context_cleanup : ControlContext → Option ControlContext
on_control_device_context_cleanup c = drained c (drain c.session_blacklist)

module _ {f : Framework} where
  abbrev with_control : Machine f → ControlContext → Machine f
  with_control m control = record m { state = record (m.state) { control = control } }

  abbrev cleaned : Machine f → Option (List SessionEntry × List Link) → Option (Machine f)
  cleaned m none = none
  cleaned m (some (freed, kept)) =
      some (with_control m (record (m.state.control) { session_blacklist = kept }))

  -- SessionBlacklistCleanupForPid, which does nothing when the control device is gone.
  unfoldable pub session_blacklist_cleanup : ℕ → Machine f → Option (Machine f)
  session_blacklist_cleanup handle m =
      if m.is_present
      then cleaned m (cleanup_for_pid handle m.state.control.session_blacklist)
      else some m

  -- OnSystemProcessChange. The removal of the registration takes the lock, so it is a bug check once
  -- the control device is gone.
  unfoldable pub on_system_process_change : ℕ → Bool → Machine f → Option (Machine f)
  on_system_process_change handle create m =
      if create
      then some m
      else (if m.is_present
          then session_blacklist_cleanup handle (record m {
            state = record (m.state) {
              process_tree = (process_id_unregister m.state.process_tree handle).1;
            };
          })
          else none)

  -- OnSystemLoadImage: a NULL name is `none`, a NULL process id is 0. The registration takes the
  -- lock.
  unfoldable pub on_system_load_image :
      Allocation → Option WideString → ℕ → Machine f → Option (Machine f)
  on_system_load_image a none handle m = some m
  on_system_load_image a (some name) handle m =
      if handle == 0
      then some m
      else (if m.is_present
          then some (record m {
            state = record (m.state) {
              process_tree = (process_id_register a m.state.process_tree handle name).1;
            };
          })
          else none)

  -- The control device is deleted, once its context is cleaned up.
  abbrev deleted : Machine f → Option ControlContext → Option (Machine f)
  deleted m none = none
  deleted m (some control) = some (record (with_control m control) { is_present = false })

  -- UpdateDataForControlDeviceDeletionAndDeleteControlDeviceWhenNeeded
  unfoldable pub update_data : ℕ → Machine f → Option (Machine f)
  update_data increment m =
      if m.is_present
      then (if is_last (count_devices increment m.state.control)
          then deleted m
              (on_control_device_context_cleanup (count_devices increment m.state.control))
          else some (with_control m (count_devices increment m.state.control)))
      else none

  -- OnDeviceCreate: the status is that of HidHideDeviceInstancePath.
  unfoldable pub on_device_create : NtStatus → Machine f → Option (NtStatus × Machine f)
  on_device_create status m =
      if nt_success status
      then elim (update_data 1 m) [ none ↦ none | some m' ↦ some (success, m') ]
      else some (status, m)

  -- OnDeviceContextCleanup
  unfoldable pub on_device_context_cleanup : Machine f → Option (Machine f)
  on_device_context_cleanup m = update_data minus_one m

  -- OnSystemShutdown. Without the control device, whose lock the flush takes, `update_data` gives
  -- the bug check.
  unfoldable pub on_system_shutdown : Machine f → Option (Machine f)
  on_system_shutdown m = update_data 0 (record m {
    state = record (m.state) { process_tree = process_ids_flush m.state.process_tree };
  })
