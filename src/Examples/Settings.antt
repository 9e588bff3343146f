-- ===== src/Examples/Settings.antt =====
-- Reads and writes of the settings over the registry of Desk.
use hid_hide.Prelude.{ℕ, ◌≡◌, ◌⊎◌, refl, true, false, Option, none, some, List, [], ◌∷◌, arith}
use hid_hide.Driver.Status.{NtStatus, success, insufficient_resources, nt_success}
use hid_hide.Driver.ProcessTree.{Tree, leaf, Allocation, lookup}
use hid_hide.Driver.Processes.{process_id_register}
use hid_hide.Driver.Processes.Cache.{IsCoherent, process_id_register-IsCoherent}
use hid_hide.Driver.MultiString.{collection_to_multi_string, write, copy_items, needed_size, finish}
use hid_hide.Driver.MultiString.Layout.{multi_string}
use hid_hide.Client.MultiString.{multi_string_to_string_list, split_loop}
use hid_hide.Driver.Framework.{
  Framework, Property, whitelisted_full_image_names, blacklisted_device_instance_paths,
}
use hid_hide.Driver.Registry.{
  get_boolean_property, set_multi_string_property, create_collection_for_property, query_collection,
  query_texts,
}
use hid_hide.Driver.Registry.Keys.{
  get_boolean_property-open_keys, create_collection_for_property-open_keys,
}
use hid_hide.Driver.Control.{
  State, ControlContext, ListRead, enabled, set_inverse, set_whitelist, reload_whitelist,
  set_blacklist, reload_blacklist, get_blacklist, fill,
}
use hid_hide.Driver.Control.Settings.{set_inverse_lem}
use hid_hide.Driver.Control.Lists.{set_whitelist_success, get_blacklist_client, set_blacklist_twice}
use hid_hide.Examples.Desk.{desk, desk_laws, copier, blank}
use hid_hide.Examples.Texts.{two_texts, two_texts-IsText, same_text}

-- The value is not there, and the key stays open.
get_boolean_property-open_keys_example :
    (get_boolean_property desk Property.active blank).world.keys ≡ 1
get_boolean_property-open_keys_example =
    get_boolean_property-open_keys desk desk_laws Property.active blank

create_collection_for_property-open_keys_example :
    (create_collection_for_property desk whitelisted_full_image_names blank).world.keys ≡ 0
create_collection_for_property-open_keys_example =
    create_collection_for_property-open_keys desk desk_laws whitelisted_full_image_names blank

abbrev pub quiet : ControlContext
quiet = record {
  whitelist = some [];
  blacklist = some [];
  is_active = false;
  is_inverse = false;
  session_blacklist = [];
  shutdown_pending = false;
  number_of_devices_created = 0;
}

abbrev granted : Allocation
granted = record { allocated = true; copied = success; initialised = success }

-- Process 8 runs the application "ab".
abbrev pub one_process : Tree
one_process = (process_id_register granted leaf 8 (97 ∷ 98 ∷ [])).1

leaf-IsCoherent : IsCoherent same_text [] leaf
unfolding lookup
leaf-IsCoherent = record { ordered = tt; current = λ pid e h. cc }

pub one_process-IsCoherent : IsCoherent same_text [] one_process
one_process-IsCoherent =
    process_id_register-IsCoherent same_text [] granted leaf 8 (97 ∷ 98 ∷ []) leaf-IsCoherent

process_id_register-IsCoherent_example : IsCoherent same_text [] one_process
process_id_register-IsCoherent_example =
    process_id_register-IsCoherent same_text [] granted leaf 8 (97 ∷ 98 ∷ []) leaf-IsCoherent

abbrev at_rest : State desk
at_rest = record { process_tree = one_process; control = quiet; events = []; world = blank }

set_inverse_lem_example :
    let (status, s') = set_inverse desk true at_rest in
    ((status ≡ success)
      × (s'.control ≡ record quiet { is_inverse = true })
      × (s'.world.numbers 3 ≡ some 1)
      × (s'.events ≡ enabled ∷ []))
    ⊎ ((nt_success status ≡ false) × (s'.control ≡ quiet) × (s'.events ≡ []))
set_inverse_lem_example = set_inverse_lem desk desk_laws true at_rest

abbrev state_after : {f : Framework} → State f → Option (NtStatus × State f) → State f
state_after s none = s
state_after s (some (status, s')) = s'

abbrev blacklist_set : State desk
blacklist_set = state_after at_rest (set_blacklist desk (multi_string two_texts) at_rest)

blacklist_is_set :
    set_blacklist desk (multi_string two_texts) at_rest ≡ some (success, blacklist_set)
unfolding set_blacklist reload_blacklist set_multi_string_property create_collection_for_property
    query_collection query_texts multi_string_to_string_list split_loop
blacklist_is_set = refl

abbrev whitelist_set : State desk
whitelist_set = state_after at_rest (set_whitelist desk (multi_string two_texts) at_rest)

whitelist_is_set :
    set_whitelist desk (multi_string two_texts) at_rest ≡ some (success, whitelist_set)
unfolding set_whitelist reload_whitelist set_multi_string_property create_collection_for_property
    query_collection query_texts multi_string_to_string_list split_loop
whitelist_is_set = refl

set_whitelist_success_example :
    (whitelist_set.control ≡ record quiet { whitelist = some two_texts })
    × IsCoherent same_text two_texts whitelist_set.process_tree
set_whitelist_success_example =
    set_whitelist_success desk desk_laws same_text [] two_texts at_rest whitelist_set success
      two_texts-IsText one_process-IsCoherent whitelist_is_set refl

-- The registry with the two texts in it, and a client's buffer of six characters.
abbrev filled_desk : State desk
filled_desk = record at_rest { world = record blank { lists = λ i. some two_texts } }

abbrev six : List ℕ
six = 1 ∷ 2 ∷ 3 ∷ 4 ∷ 5 ∷ 6 ∷ []

abbrev read_after : {f : Framework} → ListRead f → Option (ListRead f) → ListRead f
read_after r none = r
read_after r (some r') = r'

abbrev unread : ListRead desk
unread = record { status = success; needed = 0; buffer = []; world = blank }

abbrev blacklist_read : ListRead desk
blacklist_read = read_after unread (get_blacklist desk copier (some six) 6 filled_desk)

blacklist_is_read : get_blacklist desk copier (some six) 6 filled_desk ≡ some blacklist_read
unfolding get_blacklist fill collection_to_multi_string finish copy_items write needed_size
    create_collection_for_property query_collection query_texts
blacklist_is_read = refl

read_well : nt_success blacklist_read.status ≡ true
unfolding get_blacklist fill collection_to_multi_string finish copy_items write needed_size
    create_collection_for_property query_collection query_texts
read_well = refl

get_blacklist_client_example :
    (blacklist_read.needed ≡ 6) × (multi_string_to_string_list blacklist_read.buffer ≡ two_texts)
get_blacklist_client_example =
    get_blacklist_client desk desk_laws copier two_texts six filled_desk blacklist_read
      two_texts-IsText refl refl (omega arith) blacklist_is_read read_well

-- The desk on which no collection can be created.
abbrev poor : Framework
poor = record desk { create_collection = λ w. (insufficient_resources, w) }

abbrev at_risk : State poor
at_risk = record { process_tree = leaf; control = quiet; events = []; world = blank }

abbrev stale : State poor
stale = state_after at_risk (set_blacklist poor (multi_string two_texts) at_risk)

goes_stale :
    set_blacklist poor (multi_string two_texts) at_risk ≡ some (insufficient_resources, stale)
unfolding set_blacklist reload_blacklist set_multi_string_property create_collection_for_property
goes_stale = refl

first_written :
    nt_success
      (set_multi_string_property poor blacklisted_device_instance_paths
        (multi_string two_texts)
        blank).0
    ≡ true
unfolding set_multi_string_property
first_written = refl

second_written :
    nt_success
      (set_multi_string_property poor blacklisted_device_instance_paths (0 ∷ []) stale.world).0
    ≡ true
unfolding set_multi_string_property
second_written = refl

set_blacklist_twice_example :
    (stale.control.blacklist ≡ none) × (set_blacklist poor (0 ∷ []) stale ≡ none)
set_blacklist_twice_example =
    set_blacklist_twice poor (multi_string two_texts) (0 ∷ []) at_risk stale insufficient_resources
      first_written goes_stale refl second_written
