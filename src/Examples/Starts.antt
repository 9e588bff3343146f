-- ===== src/Examples/Starts.antt =====
-- The start of the driver over the registry of Desk, with every setting in it.
use hid_hide.Prelude.{◌≡◌, refl, true, false, some, [], ◌∷◌}
use hid_hide.Driver.Status.{nt_success}
use hid_hide.Driver.Registry.{
  query_boolean, get_boolean_property, query_texts, query_collection,
  create_collection_for_property,
}
use hid_hide.Driver.Control.{ControlContext, enabled}
use hid_hide.Driver.Start.{on_control_device_create, start_active, start_inverse}
use hid_hide.Driver.Start.Restart.{IsSaved, on_control_device_create_lem}
use hid_hide.Examples.Desk.{Desk, desk, desk_laws}
use hid_hide.Examples.Texts.{two_texts, two_texts-IsText}

abbrev filled : Desk
filled = record { keys = 0; numbers = λ i. some 1; lists = λ i. some two_texts }

abbrev before : ControlContext
before = record {
  whitelist = some two_texts;
  blacklist = some two_texts;
  is_active = true;
  is_inverse = true;
  session_blacklist = [];
  shutdown_pending = true;
  number_of_devices_created = 3;
}

before-IsSaved : IsSaved desk desk_laws before filled
before-IsSaved = record {
  whitelist = two_texts;
  whitelist_lives = refl;
  whitelist_texts = two_texts-IsText;
  whitelist_saved = refl;
  blacklist = two_texts;
  blacklist_lives = refl;
  blacklist_texts = two_texts-IsText;
  blacklist_saved = refl;
  active = 1;
  active_saved = refl;
  is_active = refl;
  inverse = 1;
  inverse_saved = refl;
  is_inverse = refl;
}

starts : nt_success (on_control_device_create desk filled).status ≡ true
unfolding on_control_device_create start_active start_inverse create_collection_for_property
    query_collection query_texts get_boolean_property query_boolean
starts = refl

on_control_device_create_lem_example :
    ((on_control_device_create desk filled).control ≡ record before {
      session_blacklist = [];
      shutdown_pending = false;
      number_of_devices_created = 0;
    })
    × ((on_control_device_create desk filled).events ≡ enabled ∷ [])
on_control_device_create_lem_example =
    on_control_device_create_lem desk desk_laws before filled before-IsSaved starts
