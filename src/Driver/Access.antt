-- ===== src/Driver/Access.antt =====
-- HidHide/src/Logic.c, Whitelisted and OnDeviceFileCreate: who may open a device. `none` for a
-- result is a bug check.
pub mod Verdict
use hid_hide.Prelude.{
  ℕ, Bool, true, false, not, xor, ◌&&◌, ◌||◌, Option, none, some, List, [], ◌∷◌, ◌++◌, ◌==◌,
  if◌then◌else◌, WideString,
}
use hid_hide.Driver.Status.{NtStatus, access_denied, nt_success, is_process_in_job}
use hid_hide.Driver.ProcessTree.{Tree, Entry, EvaluationCache, empty, lookup}
use hid_hide.Driver.Processes.{process_handle_to_process_id, Checked, check_full_image_name}
use hid_hide.Driver.Blacklist.{TextRoutines, blacklisted}
use hid_hide.Driver.Framework.{Framework}
use hid_hide.Driver.Control.{State, ControlContext, Event, whitelisted_first}

-- SYSTEM_PID
abbrev pub system_pid : ℕ
system_pid = 4

-- The collection is looked at only for a known process that has no evaluation.
abbrev pub is_unevaluated : Option Entry → Bool
is_unevaluated none = false
is_unevaluated (some e) = elim e.evaluation_cache [ empty ↦ true | _ ↦ false ]

pub record Answer : Type 0 where
  pub granted : Bool
  pub cache_hit : Bool
  pub tree : Tree

abbrev pub answer : Bool → Checked → Answer
answer inverse checked = record {
  granted =
      if inverse then not (is_process_in_job checked.status) else is_process_in_job checked.status;
  cache_hit = checked.cache_hit;
  tree = checked.tree;
}

-- Whitelisted
unfoldable pub whitelisted : TextRoutines → ControlContext → Tree → ℕ → Option Answer
whitelisted t control tree handle = elim control.whitelist [
  | some whitelist ↦
      some (answer control.is_inverse (check_full_image_name t.same whitelist tree handle))
  | none ↦
      if is_unevaluated (lookup tree (process_handle_to_process_id handle))
      then none
      else some (answer control.is_inverse (check_full_image_name t.same [] tree handle))
]

-- What becomes of the request: completed here, or forwarded to the driver below.
pub data Outcome : Type 0 where
  completed : NtStatus → Outcome
  forwarded : Outcome

-- The caller, and what the framework answers: the creation of the buffer for a trace message, the
-- timer of the request, and whether the request was sent, with the status if it was not.
pub record Opening : Type 0 where
  pub handle : ℕ
  pub session : Option ℕ
  pub memory_created : NtStatus
  pub timer_allocated : NtStatus
  pub sent : Bool
  pub send_status : NtStatus

-- PsGetProcessSessionId of the current process; 0 when there is none.
abbrev pub session_id : Option ℕ → ℕ
session_id none = 0
session_id (some n) = n

-- Attach the completion routine and forward the request.
unfoldable pub forward : Opening → Outcome
forward o =
    if nt_success o.timer_allocated
    then (if o.sent then forwarded else completed o.send_status)
    else completed o.timer_allocated

module _ (f : Framework) where
  -- A black-listed device of an active service: the verdict comes from the white-list. The first
  -- time, the path is traced from a buffer that is deleted even when it could not be created.
  unfoldable pub judge : Opening → State f → Option Answer → Option (Outcome × State f)
  judge o s none = none
  judge o s (some a) =
      let s' = record s {
        process_tree = a.tree;
        events =
            if a.granted && not a.cache_hit
            then s.events
              ++ (whitelisted_first (process_handle_to_process_id o.handle) (session_id o.session)
                  ∷ [])
            else s.events;
      } in
      if not a.cache_hit && not (nt_success o.memory_created)
      then none
      else some (if a.granted then forward o else completed access_denied, s')

  -- OnDeviceFileCreate for the device with that instance path.
  unfoldable pub on_device_file_create :
      TextRoutines → WideString → Opening → State f → Option (Outcome × State f)
  on_device_file_create t path o s =
      if not (process_handle_to_process_id o.handle == system_pid) && s.control.is_active
      then elim s.control.blacklist [
        | none ↦ none
        | some filters ↦
            elim (blacklisted t filters s.control.session_blacklist path (session_id o.session)) [
              | none ↦ none
              | some true ↦ judge o s (whitelisted t s.control s.process_tree o.handle)
              | some false ↦ some (forward o, s)
            ]
      ]
      else some (forward o, s)

  -- OnDeviceFileCreateRequestCompletion: the status of the driver below is passed on.
  unfoldable pub on_request_completion : NtStatus → Outcome
  on_request_completion status = completed status
