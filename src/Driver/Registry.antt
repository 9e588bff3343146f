-- ===== src/Driver/Registry.antt =====
-- HidHide/src/Config.c, the functions that read and write the driver's parameters.
pub mod Keys
pub mod RoundTrip
use hid_hide.Prelude.{
  ℕ, Bool, true, false, not, ◌||◌, Option, none, some, List, [], leb, ◌==◌, if◌then◌else◌,
  WideString,
}
use hid_hide.Driver.Status.{
  NtStatus, success, process_in_job, process_not_in_job, object_type_mismatch, nt_success,
  is_object_name_not_found, is_buffer_overflow,
}
use hid_hide.Driver.Framework.{Framework, Property, Access, read, write, ValueInfo}

module _ (f : Framework) where
  -- What a read of a boolean gives: the status, `*value` and the world.
  pub record BooleanRead : Type 0 where
    pub status : NtStatus
    pub value : Bool
    pub world : f.World

  -- What a read of a multi-string gives. The collection is `none` when no live one is left behind
  -- `*value`: it was not created, or it was deleted.
  pub record CollectionRead : Type 0 where
    pub status : NtStatus
    pub collection : Option (List WideString)
    pub world : f.World

  -- The part of HidHideDriverGetBooleanProperty under the open key.
  unfoldable pub query_boolean : f.World → NtStatus × ℕ → BooleanRead
  query_boolean w (status, number) =
      if nt_success status
      then record { status = process_in_job; value = not (number == 0); world = f.close_key w }
      else (if is_object_name_not_found status
          then record { status = process_not_in_job; value = false; world = w }
          else record { status = status; value = false; world = f.close_key w })

  -- HidHideDriverGetBooleanProperty
  unfoldable pub get_boolean_property : Property → f.World → BooleanRead
  get_boolean_property p w =
      let opened = f.open_parameters_key read w in
      if nt_success opened.0
      then query_boolean opened.1 (f.query_ulong p opened.1)
      else record { status = opened.0; value = false; world = opened.1 }

  -- HidHideDriverSetBooleanProperty
  unfoldable pub set_boolean_property : Property → Bool → f.World → NtStatus × f.World
  set_boolean_property p value w =
      let opened = f.open_parameters_key write w in
      let assigned = f.assign_ulong p (if value then 1 else 0) opened.1 in
      if nt_success opened.0
      then (if nt_success assigned.0 then success else assigned.0, f.close_key assigned.1)
      else opened

  -- HidHideDriverSetMultiStringProperty: the buffer is `valueInCharacters` long.
  unfoldable pub set_multi_string_property : Property → List ℕ → f.World → NtStatus × f.World
  set_multi_string_property p value w =
      let opened = f.open_parameters_key write w in
      let assigned = f.assign_multi_string p value opened.1 in
      if nt_success opened.0
      then (if nt_success assigned.0 then success else assigned.0, f.close_key assigned.1)
      else opened

  -- The query proper, once the value is known to be a multi-string that is not empty.
  unfoldable pub query_texts : f.World → NtStatus × List WideString → CollectionRead
  query_texts w (status, items) =
      if nt_success status
      then record { status = process_in_job; collection = some items; world = f.close_key w }
      else record {
        status = status;
        collection = none;
        world = f.delete_collection (f.close_key w);
      }

  -- What WdfRegistryQueryValue says decides how the read goes on. STATUS_BUFFER_OVERFLOW stands
  -- for success, as no buffer was given.
  unfoldable pub query_collection : Property → f.World → ValueInfo → CollectionRead
  query_collection p w info =
      if is_buffer_overflow info.status || nt_success info.status
      then (if info.is_multi_sz
          then (if leb info.size_needed 4
              then record {
                status = process_not_in_job;
                collection = some [];
                world = f.close_key w;
              }
              else query_texts w (f.query_multi_string p w))
          else record {
            status = object_type_mismatch;
            collection = none;
            world = f.delete_collection (f.close_key w);
          })
      else (if is_object_name_not_found info.status
          then record { status = process_not_in_job; collection = some []; world = f.close_key w }
          else record {
            status = info.status;
            collection = none;
            world = f.delete_collection (f.close_key w);
          })

  -- HidHideDriverCreateCollectionForMultiStringProperty
  unfoldable pub create_collection_for_property : Property → f.World → CollectionRead
  create_collection_for_property p w =
      let opened = f.open_parameters_key read w in
      let created = f.create_collection opened.1 in
      if nt_success opened.0
      then (if nt_success created.0
          then query_collection p created.1 (f.query_value p created.1)
          else record { status = created.0; collection = none; world = created.1 })
      else record { status = opened.0; collection = none; world = opened.1 }
