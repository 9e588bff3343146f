-- ===== src/Examples/Connections.antt =====
-- The theorems on an object of a client and the driver together, over a registry in a table.
use hid_hide.Prelude.{
  ◌≡◌, ◌<◌, ◌^◌, refl, true, false, none, some, [], ◌∷◌, codes, arith, ltb, if◌then◌else◌,
}
use hid_hide.Driver.Status.{success, unsuccessful, nt_success}
use hid_hide.Driver.Control.{State}
use hid_hide.Client.MultiString.RoundTrip.{IsText}
use hid_hide.Client.Sets.{
  same_set, compare_text, string_list_to_string_set, string_list_to_path_set, emplace, emplace_all,
  string_set_to_string_list, path_set_to_string_list,
}
use hid_hide.Client.Sets.Order.{compare_text-IsOrder}
use hid_hide.Client.DriverAccess.{Call, done}
use hid_hide.Client.FilterDriverProxy.{apply_configuration_changes, create_proxy}
use hid_hide.Client.FilterDriverProxy.Faithful.{Gives}
use hid_hide.Client.FilterDriverProxy.Applied.{IsWellFormed, HasTexts, Agrees}
use hid_hide.Client.FilterDriverProxy.Changes.{hide, perform}
use hid_hide.Client.FilterDriverProxy.Connection.InForce.{IsInForce}
use hid_hide.Client.FilterDriverProxy.Created.{IsNew}
use hid_hide.Client.FilterDriverProxy.Connection.{Channel, KeepsLists, connected, settings_of}
use hid_hide.Client.FilterDriverProxy.Connected.{
  IsShared, apply_configuration_changes-connected, perform-connected, create_proxy-connected,
}
use hid_hide.Examples.Desk.{desk, desk_laws, copier, blank, put}
use hid_hide.Examples.Texts.{list_routines}
use hid_hide.Examples.Settings.{quiet, one_process}
use hid_hide.Examples.Clients.{wanted, through, b_below_c}

desk_keeps : KeepsLists desk desk_laws
desk_keeps = record {
  absent = λ p w e. rw e refl;
  texts-assign_ulong = λ p q n w. refl;
  blacklist-assign = λ b w. refl;
  whitelist-assign = λ b w. refl;
}

fits :
    (c : Call)
    → nt_success (if ltb c.output_length (2 ^ 32) then success else unsuccessful) ≡ true
    → c.output_length < 2 ^ 32
fits c h = ground arith

abbrev channel : Channel
channel = record {
  copier = copier;
  lists = list_routines;
  caller_pid = 8;
  answers = λ i. record { allocated = true; created = success };
  retrieved = λ c. if ltb c.output_length (2 ^ 32) then success else unsuccessful;
  retrieved_fits = fits;
}

-- The application "a" is on the whitelist.
abbrev started : State desk
started = record {
  process_tree = one_process;
  control = record quiet { whitelist = some (codes "a" ∷ []) };
  events = [];
  world = record blank { lists = put (put (λ i. none) 1 []) 0 (codes "a" ∷ []) };
}

b-IsText : IsText (codes "b")
b-IsText = ((λ e. cc), (omega arith, tt))

c-IsText : IsText (codes "c")
c-IsText = ((λ e. cc), (omega arith, tt))

a-IsText : IsText (codes "a")
a-IsText = ((λ e. cc), (omega arith, tt))

wanted-IsWellFormed : IsWellFormed compare_text wanted
wanted-IsWellFormed = record {
  blacklist_texts = (b-IsText, (c-IsText, tt));
  whitelist_texts = (a-IsText, tt);
  blacklist_ascends = ((b_below_c, tt), (tt, tt));
  whitelist_ascends = (tt, tt);
}

started-IsInForce : IsInForce desk desk_laws desk_keeps started
started-IsInForce = record { blacklist = refl; whitelist = refl }

started-HasTexts : HasTexts (settings_of desk desk_laws started)
started-HasTexts = record { blacklist = tt; whitelist = (a-IsText, tt) }

through-IsWellFormed : IsWellFormed compare_text through
through-IsWellFormed = record {
  blacklist_texts = tt;
  whitelist_texts = (a-IsText, tt);
  blacklist_ascends = tt;
  whitelist_ascends = (tt, tt);
}

same_whitelist :
    same_set compare_text (string_list_to_path_set compare_text (codes "a" ∷ [])) (codes "a" ∷ [])
    ≡ true
unfolding same_set string_list_to_path_set emplace_all emplace compare_text
same_whitelist = refl

same_blacklist : same_set compare_text (string_list_to_string_set []) [] ≡ true
unfolding same_set string_list_to_string_set emplace_all
same_blacklist = refl

through-Agrees : Agrees compare_text through (settings_of desk desk_laws started)
through-Agrees = record {
  whitelist = same_whitelist;
  blacklist = same_blacklist;
  active = refl;
  inverse = refl;
}

perform-connected_example :
    IsShared desk desk_laws desk_keeps channel compare_text compare_text-IsOrder
      (perform (connected desk channel) compare_text (hide (codes "b")) through started)
perform-connected_example =
    perform-connected desk desk_laws desk_keeps channel compare_text compare_text-IsOrder
      (hide (codes "b")) through started refl b-IsText through-IsWellFormed through-Agrees
      started-IsInForce

create_proxy-connected_example :
    let run =
      create_proxy (connected desk channel) compare_text false true (done (codes "b")) started in
    Gives (λ p. IsNew compare_text (codes "b") p (settings_of desk desk_laws run.1)) run.0
create_proxy-connected_example =
    create_proxy-connected desk desk_laws desk_keeps channel compare_text compare_text-IsOrder false
      (codes "b") started refl b-IsText started-HasTexts

abbrev reached : State desk
reached = (apply_configuration_changes (connected desk channel) compare_text wanted started).1

-- The blacklist and the active state are written.
wanted_applied :
    apply_configuration_changes (connected desk channel) compare_text wanted started
    ≡ (done tt, reached)
unfolding apply_configuration_changes hid_hide.Client.FilterDriverProxy.apply_one
    hid_hide.Client.DriverAccess.and_then hid_hide.Client.DriverAccess.get_active
    hid_hide.Client.DriverAccess.set_active hid_hide.Client.DriverAccess.get_blacklist
    hid_hide.Client.DriverAccess.set_blacklist hid_hide.Client.DriverAccess.get_whitelist
    hid_hide.Client.DriverAccess.set_whitelist hid_hide.Client.DriverAccess.get_inverse
    hid_hide.Client.DriverAccess.set_inverse hid_hide.Client.DriverAccess.finish_read_flag
    hid_hide.Client.DriverAccess.finish_read_list hid_hide.Client.DriverAccess.finish_write
    hid_hide.Client.DriverAccess.read_list hid_hide.Client.DriverAccess.as_set
    hid_hide.Client.MultiString.multi_string_to_string_list hid_hide.Client.MultiString.split_loop
    hid_hide.Client.MultiString.string_list_to_multi_string
    hid_hide.Client.MultiString.append_strings hid_hide.Client.MultiString.wcsncpy
    hid_hide.Client.MultiString.c_str hid_hide.Client.MultiString.zeros emplace emplace_all
    compare_text same_set string_list_to_string_set string_set_to_string_list
    string_list_to_path_set path_set_to_string_list hid_hide.Driver.Requests.evt_io_device_control
    hid_hide.Driver.Requests.finish_request hid_hide.Driver.Requests.on_io_device_control
    hid_hide.Driver.Requests.on_get_whitelist hid_hide.Driver.Requests.on_get_blacklist
    hid_hide.Driver.Requests.on_set_blacklist hid_hide.Driver.Requests.on_get_active
    hid_hide.Driver.Requests.on_set_active hid_hide.Driver.Requests.on_get_inverse
    hid_hide.Driver.Requests.reply_list hid_hide.Driver.Requests.reply_set
    hid_hide.Driver.Control.get_whitelist hid_hide.Driver.Control.get_blacklist
    hid_hide.Driver.Control.get_active hid_hide.Driver.Control.get_inverse
    hid_hide.Driver.Control.set_active hid_hide.Driver.Control.set_blacklist
    hid_hide.Driver.Control.reload_blacklist hid_hide.Driver.Control.fill
    hid_hide.Driver.Registry.create_collection_for_property
    hid_hide.Driver.Registry.query_collection hid_hide.Driver.Registry.query_texts
    hid_hide.Driver.Registry.set_multi_string_property hid_hide.Driver.Registry.set_boolean_property
    hid_hide.Driver.MultiString.collection_to_multi_string hid_hide.Driver.MultiString.needed_size
    hid_hide.Driver.MultiString.copy_items hid_hide.Driver.MultiString.write
    hid_hide.Driver.MultiString.finish
wanted_applied = refl

apply_configuration_changes-connected_example :
    Agrees compare_text wanted (settings_of desk desk_laws reached)
    × IsInForce desk desk_laws desk_keeps reached
apply_configuration_changes-connected_example =
    apply_configuration_changes-connected desk desk_laws desk_keeps channel compare_text
      compare_text-IsOrder wanted started reached wanted-IsWellFormed started-HasTexts
      started-IsInForce wanted_applied
