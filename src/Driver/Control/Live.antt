-- ===== src/Driver/Control/Live.antt =====
-- The reads and writes of the lists end without a use of what is gone.
use hid_hide.Prelude.{
  ℕ, ◌≤◌, ◌≡◌, refl, true, Option, none, some, List, [], length, arith, WideString, Bool-cases,
  Option-cases, inl, inr, if◌then◌else◌,
}
use hid_hide.Driver.Status.{NtStatus, success, nt_success}
use hid_hide.Driver.MultiString.{StringCopy, Filled, collection_to_multi_string}
use hid_hide.Driver.MultiString.Bounds.{collection_to_multi_string_bounds}
use hid_hide.Driver.MultiString.Layout.{collection_to_multi_string_query}
use hid_hide.Driver.Framework.{
  Framework, Property, ValueInfo, read, whitelisted_full_image_names,
  blacklisted_device_instance_paths,
}
use hid_hide.Driver.Registry.{
  query_texts, query_collection, CollectionRead, create_collection_for_property,
}
use hid_hide.Driver.Control.{
  State, ListRead, fill, get_whitelist, get_blacklist, set_whitelist, set_blacklist,
}

-- A buffer that is absent, or at least as long as it is said to be.
abbrev pub IsCovered : Option (List ℕ) → ℕ → Type 0
IsCovered none size = Unit
IsCovered (some buffer) size = size ≤ length buffer

-- A read that succeeded has a collection.
abbrev HasCollection : {f : Framework} → CollectionRead f → Type 0
HasCollection r =
    nt_success r.status ≡ true → (items : List WideString) × (r.collection ≡ some items)

module _ (f : Framework) where
  query_texts-live :
      (w : f.World) (q : NtStatus × List WideString) → HasCollection (query_texts f w q)
  unfolding query_texts
  query_texts-live w (status, items) = elim (Bool-cases (nt_success status)) [
    | inl e ↦ rw (e, query_texts) (λ h. (items, refl))
    | inr e ↦ rw (e, query_texts) (λ h. cc)
  ]

  query_collection-live :
      (p : Property) (w : f.World) (info : ValueInfo) → HasCollection (query_collection f p w info)
  unfolding query_collection
  query_collection-live p w info h = elim (Option-cases (query_collection f p w info).collection) [
    | inr (items, e) ↦ (items, e)
    | inl e ↦ elim (Option-cases (query_texts f w (f.query_multi_string p w)).collection) [
      | inr (items, g) ↦ absurd (ground arith)
      | inl g ↦ absurd (ground (arith, query_texts-live w (f.query_multi_string p w)))
    ]
  ]

  create_collection_for_property-live :
      (p : Property) (w : f.World) → HasCollection (create_collection_for_property f p w)
  unfolding create_collection_for_property
  create_collection_for_property-live p w =
      let opened = f.open_parameters_key read w in
      let created = f.create_collection opened.1 in
      elim (Bool-cases (nt_success opened.0)) [
        | inr e ↦ rw (e, create_collection_for_property) (λ h. cc)
        | inl e ↦ elim (Bool-cases (nt_success created.0)) [
          | inr g ↦ rw (e, g, create_collection_for_property) (λ h. cc)
          | inl g ↦
              rw (e, g, create_collection_for_property)
                (query_collection-live p created.1 (f.query_value p created.1))
        ]
      ]

  fill_live :
      (c : StringCopy) (buffer : Option (List ℕ)) (size : ℕ) (reread : CollectionRead f)
      → IsCovered buffer size
      → HasCollection reread
      → (got : ListRead f) × (fill f c buffer size reread ≡ some got)
  unfolding fill
  fill_live c buffer size reread k live = elim (Bool-cases (nt_success reread.status)) [
    | inr e ↦ (
      record { status = reread.status; needed = 0; buffer = []; world = reread.world },
      rw (e, fill) refl,
    )
    | inl e ↦
        let (items, held_items) = live e in
        let (filled, run) = covered buffer items k in
        (
          record {
            status = if nt_success filled.status then success else filled.status;
            needed = filled.needed;
            buffer = filled.buffer;
            world = f.delete_collection reread.world;
          },
          rw (e, fill) (rw (held_items, fill) (rw (run, fill) refl)),
        )
  ]
    where
      covered :
          (b : Option (List ℕ)) (items : List WideString)
          → IsCovered b size
          → (filled : Filled) × (collection_to_multi_string c items b size ≡ some filled)
      covered none items h = (_, collection_to_multi_string_query c items size)
      covered (some buffer) items h = collection_to_multi_string_bounds c items buffer size h

  pub get_whitelist_live :
      (c : StringCopy) (buffer : Option (List ℕ)) (size : ℕ) (s : State f)
      → IsCovered buffer size
      → (got : ListRead f) × (get_whitelist f c buffer size s ≡ some got)
  unfolding get_whitelist
  get_whitelist_live c buffer size s k =
      fill_live c buffer size
        (create_collection_for_property f whitelisted_full_image_names s.world) k
        (create_collection_for_property-live whitelisted_full_image_names s.world)

  pub get_blacklist_live :
      (c : StringCopy) (buffer : Option (List ℕ)) (size : ℕ) (s : State f)
      → IsCovered buffer size
      → (got : ListRead f) × (get_blacklist f c buffer size s ≡ some got)
  unfolding get_blacklist
  get_blacklist_live c buffer size s k =
      fill_live c buffer size
        (create_collection_for_property f blacklisted_device_instance_paths s.world) k
        (create_collection_for_property-live blacklisted_device_instance_paths s.world)

  pub set_whitelist_live :
      (b : List ℕ) (s : State f) (whitelist : List WideString)
      → s.control.whitelist ≡ some whitelist
      → (done : NtStatus × State f) × (set_whitelist f b s ≡ some done)
  unfolding set_whitelist
  set_whitelist_live b s whitelist h = elim (Option-cases (set_whitelist f b s)) [
    | inr (done, e) ↦ (done, e)
    | inl e ↦ absurd (ground arith)
  ]

  pub set_blacklist_live :
      (b : List ℕ) (s : State f) (filters : List WideString)
      → s.control.blacklist ≡ some filters
      → (done : NtStatus × State f) × (set_blacklist f b s ≡ some done)
  unfolding set_blacklist
  set_blacklist_live b s filters h = elim (Option-cases (set_blacklist f b s)) [
    | inr (done, e) ↦ (done, e)
    | inl e ↦ absurd (ground arith)
  ]
