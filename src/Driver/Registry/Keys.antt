-- ===== src/Driver/Registry/Keys.antt =====
-- Which functions of HidHide/src/Config.c close the registry key that they open.
use hid_hide.Prelude.{
  ℕ, ◌+◌, ◌-◌, ◌≡◌, Bool, arith, List, inl, inr, Bool-cases, WideString, if◌then◌else◌, ◌&&◌, not,
}
use hid_hide.Driver.Status.{NtStatus, success, nt_success, is_object_name_not_found}
use hid_hide.Driver.Framework.{Framework, IsRegistry, Property, read, write, ValueInfo}
use hid_hide.Driver.Registry.{
  query_boolean, get_boolean_property, set_boolean_property, set_multi_string_property, query_texts,
  query_collection, create_collection_for_property,
}

module _ (f : Framework) (r : IsRegistry f) where
  -- A write of a boolean leaves as many keys open as it found, on every path.
  pub set_boolean_property-open_keys :
      (p : Property) (value : Bool) (w : f.World)
      → r.open_keys (set_boolean_property f p value w).1 ≡ r.open_keys w
  unfolding set_boolean_property
  set_boolean_property-open_keys p value w =
      let opened = f.open_parameters_key write w in
      let n : ℕ = if value then 1 else 0 in
      elim (Bool-cases (nt_success opened.0)) [
        | inl e ↦
            rw (e, set_boolean_property)
              (omega (
                arith,
                r.opened write w e,
                r.closed (f.assign_ulong p n opened.1).1,
                r.open_keys-assign_ulong p n opened.1,
              ))
        | inr e ↦ rw (e, set_boolean_property) (r.not_opened write w e)
      ]

  -- A write of a multi-string leaves as many keys open as it found, on every path.
  pub set_multi_string_property-open_keys :
      (p : Property) (value : List ℕ) (w : f.World)
      → r.open_keys (set_multi_string_property f p value w).1 ≡ r.open_keys w
  unfolding set_multi_string_property
  set_multi_string_property-open_keys p value w =
      let opened = f.open_parameters_key write w in
      elim (Bool-cases (nt_success opened.0)) [
        | inl e ↦
            rw (e, set_multi_string_property)
              (omega (
                arith,
                r.opened write w e,
                r.closed (f.assign_multi_string p value opened.1).1,
                r.open_keys-assign_multi_string p value opened.1,
              ))
        | inr e ↦ rw (e, set_multi_string_property) (r.not_opened write w e)
      ]

  query_boolean-open_keys :
      (w : f.World) (q : NtStatus × ℕ)
      → r.open_keys (query_boolean f w q).world
        ≡ (if is_object_name_not_found q.0 then r.open_keys w else r.open_keys w - 1)
  unfolding query_boolean
  query_boolean-open_keys w (success, n) = r.closed w
  query_boolean-open_keys w (_, n) = ground (arith, r.closed w)

  -- A read of a boolean closes the key, but for a value that is not there: then the key stays open.
  pub get_boolean_property-open_keys :
      (p : Property) (w : f.World)
      → r.open_keys (get_boolean_property f p w).world ≡ (
          if nt_success (f.open_parameters_key read w).0
            && is_object_name_not_found (f.query_ulong p (f.open_parameters_key read w).1).0
          then r.open_keys w + 1
          else r.open_keys w)
  unfolding get_boolean_property
  get_boolean_property-open_keys p w =
      let opened = f.open_parameters_key read w in
      elim (Bool-cases (nt_success opened.0)) [
        | inl e ↦
            rw (e, get_boolean_property)
              (ground (
                arith,
                r.opened read w e,
                query_boolean-open_keys opened.1 (f.query_ulong p opened.1),
              ))
        | inr e ↦ rw (e, get_boolean_property) (r.not_opened read w e)
      ]

  query_texts-open_keys :
      (w : f.World) (q : NtStatus × List WideString)
      → r.open_keys (query_texts f w q).world ≡ r.open_keys w - 1
  unfolding query_texts
  query_texts-open_keys w q = ground (arith, r.closed w, r.open_keys-delete (f.close_key w))

  query_collection-open_keys :
      (p : Property) (w : f.World) (info : ValueInfo)
      → r.open_keys (query_collection f p w info).world ≡ r.open_keys w - 1
  unfolding query_collection
  query_collection-open_keys p w info = ground (
    arith,
    r.closed w,
    r.open_keys-delete (f.close_key w),
    query_texts-open_keys w (f.query_multi_string p w),
  )

  -- A read of a multi-string closes the key on every path, but for a collection that could not be
  -- created: then the key stays open.
  pub create_collection_for_property-open_keys :
      (p : Property) (w : f.World)
      → r.open_keys (create_collection_for_property f p w).world ≡ (
          if nt_success (f.open_parameters_key read w).0
            && not (nt_success (f.create_collection (f.open_parameters_key read w).1).0)
          then r.open_keys w + 1
          else r.open_keys w)
  unfolding create_collection_for_property
  create_collection_for_property-open_keys p w =
      let opened = f.open_parameters_key read w in
      let created = f.create_collection opened.1 in
      elim (Bool-cases (nt_success opened.0)) [
        | inl e ↦
            rw (e, create_collection_for_property)
              (ground (
                arith,
                r.opened read w e,
                r.open_keys-create opened.1,
                query_collection-open_keys p created.1 (f.query_value p created.1),
              ))
        | inr e ↦ rw (e, create_collection_for_property) (r.not_opened read w e)
      ]
