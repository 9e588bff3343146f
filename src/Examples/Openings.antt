-- ===== src/Examples/Openings.antt =====
-- Who may open a device, the end of a process, the control device and its requests, on one process.
use hid_hide.Prelude.{
  ℕ, ◌≡◌, refl, true, false, Option, none, some, List, [], ◌∷◌, arith, if◌then◌else◌,
}
use hid_hide.Driver.Status.{success, nt_success, process_not_in_job, access_denied}
use hid_hide.Driver.ProcessTree.{lookup, insert_node, new_node}
use hid_hide.Driver.Processes.{process_id_register, register_node, check_full_image_name}
use hid_hide.Driver.Processes.Cache.{IsCoherent, check_full_image_name_lem}
use hid_hide.Driver.Session.{
  SessionEntry, held, local_head, splice, build_entries, wcsnlen, new_entry, cleanup_for_pid, drain,
}
use hid_hide.Driver.Control.{State}
use hid_hide.Driver.Access.{completed, Opening, forward, on_device_file_create}
use hid_hide.Driver.Access.Verdict.{is_denied, on_device_file_create_lem}
use hid_hide.Driver.Blacklist.{blacklisted, check_persistent, split_device_data, find_delimiter}
use hid_hide.Driver.Lifetime.{Machine, on_system_process_change}
use hid_hide.Driver.Lifetime.Ending.{on_system_process_change_lem}
use hid_hide.Driver.Lifetime.Devices.{
  Notice, device_created, device_removed, shutdown, run, IsCounted, run-IsCounted,
}
use hid_hide.Driver.Requests.{
  Request, get_active_code, Reply, complete, evt_io_device_control, on_add_session_blacklist,
  commit_entries,
}
use hid_hide.Driver.Session.Build.{entry_of}
use hid_hide.Driver.MultiString.Layout.{multi_string}
use hid_hide.Driver.Requests.Dangling.{on_add_session_blacklist_lem}
use hid_hide.Driver.Requests.Completed.{statuses}
use hid_hide.Driver.Requests.Returns.{IsReady, evt_io_device_control-returns}
use hid_hide.Examples.Desk.{desk, copier, blank}
use hid_hide.Examples.Texts.{
  routines, list_routines, two_texts, two_texts-IsText, allocates, same_text,
}
use hid_hide.Examples.Settings.{quiet, one_process, one_process-IsCoherent}

-- The application "ab" of process 8 is not on an empty whitelist.
check_full_image_name_lem_example :
    ((check_full_image_name same_text [] one_process 8).status ≡ process_not_in_job)
    × ((check_full_image_name same_text [] one_process 8).cache_hit ≡ false)
    × IsCoherent same_text [] (check_full_image_name same_text [] one_process 8).tree
unfolding lookup insert_node process_id_register register_node new_node
check_full_image_name_lem_example =
    check_full_image_name_lem same_text [] one_process 8 one_process-IsCoherent

-- The service is active and hides the device "b".
abbrev guarded : State desk
guarded = record {
  process_tree = one_process;
  control = record quiet { is_active = true; blacklist = some ((98 ∷ []) ∷ []) };
  events = [];
  world = blank;
}

abbrev opening : Opening
opening = record {
  handle = 8;
  session = some 1;
  memory_created = success;
  timer_allocated = success;
  sent = true;
  send_status = success;
}

on_device_file_create_lem_example :
    (s' : State desk) × (on_device_file_create desk routines (98 ∷ []) opening guarded
      ≡ some (
        if is_denied routines ((98 ∷ []) ∷ []) [] [] (98 ∷ []) opening guarded
            then completed access_denied
            else forward opening,
        s',
      ))
    × IsCoherent same_text [] s'.process_tree
    × (s'.control ≡ guarded.control)
on_device_file_create_lem_example =
    on_device_file_create_lem desk routines ((98 ∷ []) ∷ []) [] [] (98 ∷ []) opening guarded refl
      refl refl refl one_process-IsCoherent

-- The policy denies the device to process 8.
denied : is_denied routines ((98 ∷ []) ∷ []) [] [] (98 ∷ []) opening guarded ≡ true
unfolding lookup insert_node process_id_register register_node new_node blacklisted check_persistent
    split_device_data find_delimiter
denied = refl

abbrev entry_for : ℕ → SessionEntry
entry_for pid = record { owner_pid = pid; device_instance_path = 99 ∷ [] }

abbrev machine : Machine desk
machine = record {
  state = record guarded {
    control = record quiet { session_blacklist = held (entry_for 8) ∷ held (entry_for 12) ∷ [] };
  };
  is_present = true;
}

on_system_process_change_lem_example :
    (m' : Machine desk) × (on_system_process_change 8 false machine ≡ some m')
    × (lookup m'.state.process_tree 8 ≡ none)
    × (m'.state.control.session_blacklist ≡ held (entry_for 12) ∷ [])
on_system_process_change_lem_example =
    on_system_process_change_lem machine 8 8 (entry_for 8 ∷ entry_for 12 ∷ [])
      one_process-IsCoherent.ordered refl refl

-- A device comes, the system shuts down, and the device goes.
abbrev notices : List Notice
notices = device_created ∷ shutdown ∷ device_removed ∷ []

run-IsCounted_example : (m' : Machine desk) × (run notices machine ≡ some m') × IsCounted true 0 m'
run-IsCounted_example = run-IsCounted notices false true 0 0 machine (omega arith) refl (record {
  counted = refl;
  pending = refl;
  present = refl;
  entries = entry_for 8 ∷ entry_for 12 ∷ [];
  session = refl;
})

abbrev request : Request
request = record {
  output_length = 1;
  input_length = 0;
  retrieved = success;
  characters = [];
  first_byte = 0;
  caller_pid = 8;
  answers = λ i. record { allocated = true; created = success };
}

guarded-IsReady : IsReady desk request guarded
guarded-IsReady = record {
  whitelist = [];
  whitelist_lives = refl;
  filters = (98 ∷ []) ∷ [];
  blacklist_lives = refl;
  list = [];
  is_held = refl;
  covered = omega arith;
}

evt_io_device_control-returns_example :
    (r : Reply desk) × (evt_io_device_control desk copier list_routines get_active_code request
        guarded
      ≡ some r)
    × (statuses r.completions ≡ r.status ∷ [])
evt_io_device_control-returns_example =
    evt_io_device_control-returns desk copier list_routines get_active_code request guarded
      guarded-IsReady

-- The two texts "ab" and "c" for the session blacklist.
abbrev addition : Request
addition = record {
  output_length = 0;
  input_length = 12;
  retrieved = success;
  characters = multi_string two_texts;
  first_byte = 97;
  caller_pid = 8;
  answers = allocates;
}

abbrev unanswered : Reply desk
unanswered = complete desk 0 [] none guarded

abbrev reply_of : Option (Reply desk) → Reply desk
reply_of none = unanswered
reply_of (some r) = r

abbrev added : Reply desk
added = reply_of (on_add_session_blacklist desk list_routines addition guarded)

adds : on_add_session_blacklist desk list_routines addition guarded ≡ some added
unfolding on_add_session_blacklist commit_entries splice build_entries wcsnlen new_entry
adds = refl

adds_well : nt_success added.status ≡ true
unfolding on_add_session_blacklist commit_entries splice build_entries wcsnlen new_entry
adds_well = refl

on_add_session_blacklist_lem_example :
    (added.state.control ≡ record (guarded.control) {
      session_blacklist =
          local_head ∷ held (entry_of 8 (97 ∷ 98 ∷ [])) ∷ held (entry_of 8 (99 ∷ [])) ∷ [];
    })
    × (cleanup_for_pid 8 added.state.control.session_blacklist ≡ none)
    × (drain added.state.control.session_blacklist ≡ none)
on_add_session_blacklist_lem_example =
    on_add_session_blacklist_lem desk list_routines addition guarded added [] (97 ∷ 98 ∷ [])
      ((99 ∷ []) ∷ []) 8 refl refl two_texts-IsText (λ i. (refl, refl)) adds adds_well
