-- ===== src/Driver/Start.antt =====
-- HidHide/src/Logic.c, OnControlDeviceCreate: the settings that the driver starts with.
pub mod Restart
use hid_hide.Prelude.{
  Bool, true, false, Option, none, some, List, [], ◌∷◌, if◌then◌else◌, WideString,
}
use hid_hide.Driver.Status.{NtStatus, success, nt_success}
use hid_hide.Driver.Framework.{
  Framework, Property, whitelisted_full_image_names, blacklisted_device_instance_paths,
  whitelisted_inverse,
}
use hid_hide.Driver.Registry.{
  BooleanRead, get_boolean_property, CollectionRead, create_collection_for_property,
}
use hid_hide.Driver.Control.{ControlContext, Event, enabled, disabled}

-- The context of a control device that has just been made: the framework clears it, and the three
-- first statements set the count, the flag and the list head.
abbrev pub cleared : ControlContext
cleared = record {
  whitelist = none;
  blacklist = none;
  is_active = false;
  is_inverse = false;
  session_blacklist = [];
  shutdown_pending = false;
  number_of_devices_created = 0;
}

module _ (f : Framework) where
  -- The status that is returned, the context, the events that were logged, and the world.
  pub record Started : Type 0 where
    pub status : NtStatus
    pub control : ControlContext
    pub events : List Event
    pub world : f.World

  -- The part behind the query of the activity state.
  unfoldable pub start_inverse : ControlContext → BooleanRead f → Started
  start_inverse control active =
      if nt_success active.status
      then (let inverse = get_boolean_property f whitelisted_inverse active.world in
          record {
            status = if nt_success inverse.status then success else inverse.status;
            control = record control { is_active = active.value; is_inverse = inverse.value };
            events = if active.value then enabled ∷ [] else disabled ∷ [];
            world = inverse.world;
          })
      else record {
        status = active.status;
        control = record control { is_active = active.value };
        events = [];
        world = active.world;
      }

  -- The part behind the query of the blacklist.
  unfoldable pub start_active : ControlContext → CollectionRead f → Started
  start_active control blacklist =
      if nt_success blacklist.status
      then start_inverse (record control { blacklist = blacklist.collection })
          (get_boolean_property f Property.active blacklist.world)
      else record {
        status = blacklist.status;
        control = record control { blacklist = blacklist.collection };
        events = [];
        world = blacklist.world;
      }

  -- OnControlDeviceCreate
  unfoldable pub on_control_device_create : f.World → Started
  on_control_device_create w =
      let whitelist = create_collection_for_property f whitelisted_full_image_names w in
      let control : ControlContext = record cleared { whitelist = whitelist.collection } in
      if nt_success whitelist.status
      then start_active control
          (create_collection_for_property f blacklisted_device_instance_paths whitelist.world)
      else record {
        status = whitelist.status;
        control = control;
        events = [];
        world = whitelist.world;
      }
