-- ===== src/Driver/Requests.antt =====
-- HidHide/src/Logic.c, the I/O requests to the control device, and HidHide/src/ControlDevice.c,
-- the callback that completes a request that failed. `none` for a reply is a bug check.
pub mod Completed
pub mod Dangling
pub mod Returns
use hid_hide.Prelude.{
  ℕ, suc, ◌+◌, ◌-◌, ◌*◌, ◌/◌, ◌%◌, Bool, true, false, not, ◌&&◌, ◌||◌, Option, none, some, List, [],
  ◌∷◌, ◌++◌, length, get_elem?, ltb, ◌==◌, if◌then◌else◌, WideString,
}
use hid_hide.Driver.Status.{NtStatus, success, invalid_parameter, nt_success}
use hid_hide.Driver.MultiString.{StringCopy}
use hid_hide.Driver.Session.{
  SessionEntry, Link, ListRoutines, splice, EntryAllocation, Built, build_entries, cleanup_for_pid,
}
use hid_hide.Driver.Framework.{Framework}
use hid_hide.Driver.Control.{
  State, ControlContext, ListRead, get_active, set_active, get_inverse, set_inverse, set_whitelist,
  set_blacklist, get_whitelist, get_blacklist,
}

-- The codes of Shared/HidHideIoctlContract.h.
pub data ControlCode : Type 0 where
  get_whitelist_code set_whitelist_code get_blacklist_code set_blacklist_code : ControlCode
  get_active_code set_active_code get_wlinverse_code set_wlinverse_code : ControlCode
  add_session_blacklist_code clr_session_blacklist_code : ControlCode
  other_code : ControlCode

-- A request: the two lengths in bytes, what WdfRequestRetrieveInputBuffer or
-- WdfRequestRetrieveOutputBuffer answers, the buffer as characters and its first byte, the process
-- id of the caller, and the pool's answers.
pub record Request : Type 0 where
  pub output_length : ℕ
  pub input_length : ℕ
  pub retrieved : NtStatus
  pub characters : List ℕ
  pub first_byte : ℕ
  pub caller_pid : ℕ
  pub answers : ℕ → EntryAllocation

-- A call of WdfRequestComplete or WdfRequestCompleteWithInformation.
pub record Completion : Type 0 where
  pub status : NtStatus
  pub information : ℕ

module _ (f : Framework) where
  -- The status that a handler returns, the completions that it made, and what it wrote to the
  -- output buffer.
  pub record Reply : Type 0 where
    pub status : NtStatus
    pub completions : List Completion
    pub characters : List ℕ
    pub flag : Option Bool
    pub state : State f

  -- An early return with a status, before the request is completed.
  abbrev pub refuse : NtStatus → State f → Reply
  refuse status s = record {
    status = status;
    completions = [];
    characters = [];
    flag = none;
    state = s;
  }

  -- WdfRequestCompleteWithInformation with STATUS_SUCCESS, and the return that follows.
  abbrev pub complete : ℕ → List ℕ → Option Bool → State f → Reply
  complete information characters flag s = record {
    status = success;
    completions = record { status = success; information = information } ∷ [];
    characters = characters;
    flag = flag;
    state = s;
  }

  -- The end of a handler that reads a list.
  unfoldable pub reply_list : State f → Option (ListRead f) → Option Reply
  reply_list s none = none
  reply_list s (some r) =
      if nt_success r.status
      then some (complete (r.needed * 2) r.buffer none (record s { world = r.world }))
      else some (refuse r.status (record s { world = r.world }))

  -- The end of a handler that writes a setting.
  unfoldable pub reply_set : ℕ → Option (NtStatus × State f) → Option Reply
  reply_set information none = none
  reply_set information (some (status, s)) =
      if nt_success status then some (complete information [] none s) else some (refuse status s)

  unfoldable pub on_get_whitelist : StringCopy → Request → State f → Option Reply
  on_get_whitelist c q s =
      if q.input_length == 0
      then (if q.output_length == 0
          then reply_list s (get_whitelist f c none 0 s)
          else (if nt_success q.retrieved
              then reply_list s (get_whitelist f c (some q.characters) (q.output_length / 2) s)
              else some (refuse q.retrieved s)))
      else some (refuse invalid_parameter s)

  unfoldable pub on_set_whitelist : Request → State f → Option Reply
  on_set_whitelist q s =
      if q.output_length == 0
      then (if q.input_length == 0
          then reply_set q.input_length (set_whitelist f (0 ∷ 0 ∷ []) s)
          else (if nt_success q.retrieved
              then reply_set q.input_length (set_whitelist f q.characters s)
              else some (refuse q.retrieved s)))
      else some (refuse invalid_parameter s)

  unfoldable pub on_get_blacklist : StringCopy → Request → State f → Option Reply
  on_get_blacklist c q s =
      if q.input_length == 0
      then (if q.output_length == 0
          then reply_list s (get_blacklist f c none 0 s)
          else (if nt_success q.retrieved
              then reply_list s (get_blacklist f c (some q.characters) (q.output_length / 2) s)
              else some (refuse q.retrieved s)))
      else some (refuse invalid_parameter s)

  unfoldable pub on_set_blacklist : Request → State f → Option Reply
  on_set_blacklist q s =
      if q.output_length == 0
      then (if q.input_length == 0
          then reply_set q.input_length (set_blacklist f (0 ∷ 0 ∷ []) s)
          else (if nt_success q.retrieved
              then reply_set q.input_length (set_blacklist f q.characters s)
              else some (refuse q.retrieved s)))
      else some (refuse invalid_parameter s)

  unfoldable pub on_get_active : Request → State f → Option Reply
  on_get_active q s =
      if not (q.input_length == 0) || not (q.output_length == 1)
      then some (refuse invalid_parameter s)
      else (if nt_success q.retrieved
          then some (complete q.output_length [] (some (get_active f s)) s)
          else some (refuse q.retrieved s))

  unfoldable pub on_set_active : Request → State f → Option Reply
  on_set_active q s =
      if not (q.input_length == 1) || not (q.output_length == 0)
      then some (refuse invalid_parameter s)
      else (if nt_success q.retrieved
          then reply_set q.output_length (some (set_active f (not (q.first_byte == 0)) s))
          else some (refuse q.retrieved s))

  unfoldable pub on_get_inverse : Request → State f → Option Reply
  on_get_inverse q s =
      if not (q.input_length == 0) || not (q.output_length == 1)
      then some (refuse invalid_parameter s)
      else (if nt_success q.retrieved
          then some (complete q.output_length [] (some (get_inverse f s)) s)
          else some (refuse q.retrieved s))

  unfoldable pub on_set_inverse : Request → State f → Option Reply
  on_set_inverse q s =
      if not (q.input_length == 1) || not (q.output_length == 0)
      then some (refuse invalid_parameter s)
      else (if nt_success q.retrieved
          then reply_set q.output_length (some (set_inverse f (not (q.first_byte == 0)) s))
          else some (refuse q.retrieved s))

  abbrev with_session : List Link → State f → State f
  with_session entries s = record s { control = record (s.control) { session_blacklist = entries } }

  -- The commit of the entries built, or their release. An empty local list changes nothing.
  unfoldable pub commit_entries : ListRoutines → Request → State f → Option Built → Option Reply
  commit_entries lists q s none = none
  commit_entries lists q s (some built) =
      if nt_success built.status
      then some (
          complete q.input_length [] none
            (with_session (splice lists s.control.session_blacklist built.entries) s))
      else some (refuse built.status s)

  -- The character at a position of the buffer; a read outside of it gives no NUL.
  abbrev pub is_nul_at : List ℕ → ℕ → Bool
  is_nul_at characters i = elim (get_elem? characters i) [ some x ↦ x == 0 | none ↦ false ]

  -- OnControlDeviceIoAddSessionBlacklist. The loop has fuel for every character of the buffer.
  unfoldable pub on_add_session_blacklist : ListRoutines → Request → State f → Option Reply
  on_add_session_blacklist lists q s =
      if not (q.output_length == 0) || (ltb q.input_length 4 || not (q.input_length % 2 == 0))
      then some (refuse invalid_parameter s)
      else (if nt_success q.retrieved
          then (if is_nul_at q.characters (q.input_length / 2 - 1)
                && is_nul_at q.characters (q.input_length / 2 - 2)
              then commit_entries lists q s (
                  build_entries (suc (length q.characters)) q.answers q.caller_pid q.characters
                    success [])
              else some (refuse invalid_parameter s))
          else some (refuse q.retrieved s))

  abbrev reply_clear : State f → Option (List SessionEntry × List Link) → Option Reply
  reply_clear s none = none
  reply_clear s (some (freed, kept)) = some (complete 0 [] none (with_session kept s))

  unfoldable pub on_clear_session_blacklist : Request → State f → Option Reply
  on_clear_session_blacklist q s =
      if not (q.output_length == 0) || not (q.input_length == 0)
      then some (refuse invalid_parameter s)
      else reply_clear s (cleanup_for_pid q.caller_pid s.control.session_blacklist)

  -- OnControlDeviceIoDeviceControl
  unfoldable pub on_io_device_control :
      StringCopy → ListRoutines → ControlCode → Request → State f → Option Reply
  on_io_device_control c lists get_whitelist_code q s = on_get_whitelist c q s
  on_io_device_control c lists set_whitelist_code q s = on_set_whitelist q s
  on_io_device_control c lists get_blacklist_code q s = on_get_blacklist c q s
  on_io_device_control c lists set_blacklist_code q s = on_set_blacklist q s
  on_io_device_control c lists get_active_code q s = on_get_active q s
  on_io_device_control c lists set_active_code q s = on_set_active q s
  on_io_device_control c lists get_wlinverse_code q s = on_get_inverse q s
  on_io_device_control c lists set_wlinverse_code q s = on_set_inverse q s
  on_io_device_control c lists add_session_blacklist_code q s = on_add_session_blacklist lists q s
  on_io_device_control c lists clr_session_blacklist_code q s = on_clear_session_blacklist q s
  on_io_device_control c lists other_code q s = some (refuse invalid_parameter s)

  -- HidHideControlDeviceEvtIoDeviceControl: a request that failed is completed here.
  unfoldable pub finish_request : Option Reply → Option Reply
  finish_request none = none
  finish_request (some r) =
      if nt_success r.status
      then some r
      else some (record r {
        completions = r.completions ++ (record { status = r.status; information = 0 } ∷ []);
      })

  unfoldable pub evt_io_device_control :
      StringCopy → ListRoutines → ControlCode → Request → State f → Option Reply
  evt_io_device_control c lists code q s = finish_request (on_io_device_control c lists code q s)
