-- ===== src/Driver/Registry/RoundTrip.antt =====
-- What HidHide/src/Config.c writes to the registry is what it reads from it.
use hid_hide.Prelude.{
  ℕ, ◌*◌, ◌≡◌, refl, ◌∙◌, Bool, true, false, arith, not, ◌==◌, some, List, [], ◌∷◌, All, length,
  length-append, leb, WideString, if◌then◌else◌, Bool-cases, inl, inr,
}
use hid_hide.Driver.Status.{success, process_in_job, nt_success}
use hid_hide.Driver.MultiString.Layout.{terminated, multi_string}
use hid_hide.Client.MultiString.RoundTrip.{IsText}
use hid_hide.Driver.Framework.{Framework, IsRegistry, Property, read, write}
use hid_hide.Driver.Registry.{
  query_boolean, get_boolean_property, set_boolean_property, set_multi_string_property, query_texts,
  query_collection, create_collection_for_property,
}

-- A multi-string with a text in it is longer than two terminators.
long :
    (x : WideString) (items : List WideString)
    → IsText x
    → leb (2 * length (multi_string (x ∷ items))) 4 ≡ false
long [] items t = absurd (t.0 refl)
long (c ∷ x) items t = ground (
  arith,
  length-append (terminated ((c ∷ x) ∷ items)) (0 ∷ []),
  length-append x (0 ∷ terminated items),
)

module _ (f : Framework) (r : IsRegistry f) where
  query_collection-texts :
      (p : Property) (items : List WideString) (w : f.World)
      → All IsText items
      → r.texts p w ≡ some items
      → (nt_success (query_collection f p w (f.query_value p w)).status ≡ true)
        × ((query_collection f p w (f.query_value p w)).collection ≡ some items)
  unfolding query_collection query_texts
  query_collection-texts p [] w t s =
      rw (r.query_value-texts p [] w s, query_collection) (refl, refl)
  query_collection-texts p (x ∷ items) w t s =
      let big : leb (2 * length (multi_string (x ∷ items))) 4 ≡ false = long x items t.0 in
      rw (r.query_value-texts p (x ∷ items) w s, query_collection)
        (rw (big, r.query_multi_string-texts p (x ∷ items) w s, query_texts) (refl, refl))

  -- What a successful write leaves in the registry.
  pub number-set_boolean_property :
      (p : Property) (value : Bool) (w : f.World)
      → nt_success (set_boolean_property f p value w).0 ≡ true
      → r.number p (set_boolean_property f p value w).1 ≡ some (if value then 1 else 0)
  unfolding set_boolean_property
  number-set_boolean_property p value w h =
      let opened = f.open_parameters_key write w in
      let n : ℕ = if value then 1 else 0 in
      let assigned = f.assign_ulong p n opened.1 in
      elim (Bool-cases (nt_success opened.0)) [
        | inr e ↦ let refused : nt_success opened.0 ≡ true = rw (e, set_boolean_property) at h in cc
        | inl e ↦ elim (Bool-cases (nt_success assigned.0)) [
          | inr g ↦
              let refused : nt_success assigned.0 ≡ true = rw (e, g, set_boolean_property) at h in
              cc
          | inl g ↦
              rw (e, set_boolean_property)
                (r.number-close p assigned.1 ∙ r.number-assign p n opened.1 g)
        ]
      ]

  pub texts-set_multi_string_property :
      (p : Property) (items : List WideString) (w : f.World)
      → All IsText items
      → nt_success (set_multi_string_property f p (multi_string items) w).0 ≡ true
      → r.texts p (set_multi_string_property f p (multi_string items) w).1 ≡ some items
  unfolding set_multi_string_property
  texts-set_multi_string_property p items w t h =
      let opened = f.open_parameters_key write w in
      let assigned = f.assign_multi_string p (multi_string items) opened.1 in
      elim (Bool-cases (nt_success opened.0)) [
        | inr e ↦
            let refused : nt_success opened.0 ≡ true = rw (e, set_multi_string_property) at h in cc
        | inl e ↦ elim (Bool-cases (nt_success assigned.0)) [
          | inr g ↦
              let refused : nt_success assigned.0 ≡ true =
                rw (e, g, set_multi_string_property) at h in
              cc
          | inl g ↦
              rw (e, set_multi_string_property)
                (r.texts-close p assigned.1 ∙ r.texts-assign p items opened.1 t g)
        ]
      ]

  pub get_boolean_property-number :
      (p : Property) (n : ℕ) (w : f.World)
      → r.number p w ≡ some n
      → nt_success (f.open_parameters_key read w).0 ≡ true
      → ((get_boolean_property f p w).status ≡ process_in_job)
        × ((get_boolean_property f p w).value ≡ not (n == 0))
  unfolding get_boolean_property query_boolean
  get_boolean_property-number p n w s h =
      let opened = f.open_parameters_key read w in
      let answer : f.query_ulong p opened.1 ≡ (success, n) =
        r.query_ulong-number p n opened.1 (r.number-open p read w ∙ s) in
      rw (h, get_boolean_property) (rw (answer, query_boolean) (refl, refl))

  -- A boolean that was written successfully reads as the value written, when the key can be
  -- opened again.
  pub get_boolean_property-set_boolean_property :
      (p : Property) (value : Bool) (w : f.World)
      → nt_success (set_boolean_property f p value w).0 ≡ true
      → nt_success (f.open_parameters_key read (set_boolean_property f p value w).1).0 ≡ true
      → ((get_boolean_property f p (set_boolean_property f p value w).1).status ≡ process_in_job)
        × ((get_boolean_property f p (set_boolean_property f p value w).1).value ≡ value)
  get_boolean_property-set_boolean_property p value w h k =
      let after = (set_boolean_property f p value w).1 in
      let (status, got) =
        get_boolean_property-number p (if value then 1 else 0) after
          (number-set_boolean_property p value w h) k in
      (status, got ∙ same value)
    where
      same : (b : Bool) → not ((if b then 1 else 0) == 0) ≡ b
      same true = refl
      same false = refl

  -- A read of texts that are in the registry gives them, if the key opens and a collection can be
  -- created.
  pub create_collection-texts :
      (p : Property) (items : List WideString) (w : f.World)
      → All IsText items
      → r.texts p w ≡ some items
      → nt_success (f.open_parameters_key read w).0 ≡ true
      → nt_success (f.create_collection (f.open_parameters_key read w).1).0 ≡ true
      → (nt_success (create_collection_for_property f p w).status ≡ true)
        × ((create_collection_for_property f p w).collection ≡ some items)
  unfolding create_collection_for_property
  create_collection-texts p items w t s h k =
      let opened = f.open_parameters_key read w in
      let created = f.create_collection opened.1 in
      rw (h, k, create_collection_for_property)
        (query_collection-texts p items created.1 t
          (r.texts-create p opened.1 ∙ (r.texts-open p read w ∙ s)))
