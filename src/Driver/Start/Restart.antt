-- ===== src/Driver/Start/Restart.antt =====
-- The settings in the registry are in force when the driver has started.
use hid_hide.Prelude.{
  ℕ, ◌≡◌, sym, ◌∙◌, true, false, not, ◌==◌, some, List, [], ◌∷◌, All, if◌then◌else◌, WideString,
  arith, Bool-cases, inl, inr,
}
use hid_hide.Driver.Status.{NtStatus, nt_success}
use hid_hide.Client.MultiString.RoundTrip.{IsText}
use hid_hide.Driver.Framework.{
  Framework, IsRegistry, Property, ValueInfo, Access, read, whitelisted_full_image_names,
  blacklisted_device_instance_paths, whitelisted_inverse,
}
use hid_hide.Driver.Registry.{
  query_boolean, get_boolean_property, query_texts, query_collection,
  create_collection_for_property,
}
use hid_hide.Driver.Registry.RoundTrip.{get_boolean_property-number}
use hid_hide.Driver.Control.{ControlContext, enabled, disabled}
use hid_hide.Driver.Control.Lists.{create_collection-success}
use hid_hide.Driver.Start.{start_inverse, start_active, on_control_device_create}

module _ (f : Framework) {X : Type 0} (g : f.World → X) where
  -- What neither opening and closing the key nor making and deleting a collection changes.
  pub record IsKept : Type 0 where
    pub opens : (a : Access) (w : f.World) → g (f.open_parameters_key a w).1 ≡ g w
    pub closes : (w : f.World) → g (f.close_key w) ≡ g w
    pub creates : (w : f.World) → g (f.create_collection w).1 ≡ g w
    pub deletes : (w : f.World) → g (f.delete_collection w) ≡ g w

  module _ (k : IsKept) where
    query_texts-kept :
        (w : f.World) (q : NtStatus × List WideString) → g (query_texts f w q).world ≡ g w
    unfolding query_texts
    query_texts-kept w (status, items) = ground (arith, k.closes w, k.deletes (f.close_key w))

    query_collection-kept :
        (p : Property) (w : f.World) (info : ValueInfo)
        → g (query_collection f p w info).world ≡ g w
    unfolding query_collection
    query_collection-kept p w info = ground (
      arith,
      k.closes w,
      k.deletes (f.close_key w),
      query_texts-kept w (f.query_multi_string p w),
    )

    -- A read of a list keeps it.
    pub create_collection_for_property-kept :
        (p : Property) (w : f.World) → g (create_collection_for_property f p w).world ≡ g w
    unfolding create_collection_for_property
    create_collection_for_property-kept p w =
        let opened = f.open_parameters_key read w in
        let created = f.create_collection opened.1 in
        ground (
          arith,
          k.opens read w,
          k.creates opened.1,
          query_collection-kept p created.1 (f.query_value p created.1),
        )

    query_boolean-kept : (w : f.World) (q : NtStatus × ℕ) → g (query_boolean f w q).world ≡ g w
    unfolding query_boolean
    query_boolean-kept w (status, n) = ground (arith, k.closes w)

    -- A read of a boolean keeps it.
    get_boolean_property-kept :
        (p : Property) (w : f.World) → g (get_boolean_property f p w).world ≡ g w
    unfolding get_boolean_property
    get_boolean_property-kept p w =
        let opened = f.open_parameters_key read w in
        ground (arith, k.opens read w, query_boolean-kept opened.1 (f.query_ulong p opened.1))

module _ (f : Framework) (r : IsRegistry f) where
  -- The registry holds the settings of a control device.
  pub record IsSaved (control : ControlContext) (w : f.World) : Type 0 where
    pub whitelist : List WideString
    pub whitelist_lives : control.whitelist ≡ some whitelist
    pub whitelist_texts : All IsText whitelist
    pub whitelist_saved : r.texts whitelisted_full_image_names w ≡ some whitelist
    pub blacklist : List WideString
    pub blacklist_lives : control.blacklist ≡ some blacklist
    pub blacklist_texts : All IsText blacklist
    pub blacklist_saved : r.texts blacklisted_device_instance_paths w ≡ some blacklist
    pub active : ℕ
    pub active_saved : r.number Property.active w ≡ some active
    pub is_active : control.is_active ≡ not (active == 0)
    pub inverse : ℕ
    pub inverse_saved : r.number whitelisted_inverse w ≡ some inverse
    pub is_inverse : control.is_inverse ≡ not (inverse == 0)

  pub texts-IsKept : (p : Property) → IsKept f (r.texts p)
  texts-IsKept p = record {
    opens = λ a w. r.texts-open p a w;
    closes = λ w. r.texts-close p w;
    creates = λ w. r.texts-create p w;
    deletes = λ w. r.texts-delete p w;
  }

  number-IsKept : (p : Property) → IsKept f (r.number p)
  number-IsKept p = record {
    opens = λ a w. r.number-open p a w;
    closes = λ w. r.number-close p w;
    creates = λ w. r.number-create p w;
    deletes = λ w. r.number-delete p w;
  }

  -- A boolean that is in the registry is read, whenever the read succeeds.
  get_boolean_property-success :
      (p : Property) (n : ℕ) (w : f.World)
      → r.number p w ≡ some n
      → nt_success (get_boolean_property f p w).status ≡ true
      → (get_boolean_property f p w).value ≡ not (n == 0)
  get_boolean_property-success p n w s h =
      elim (Bool-cases (nt_success (f.open_parameters_key read w).0)) [
        | inl e ↦ (get_boolean_property-number f r p n w s e).1
        | inr e ↦
            let no : false ≡ true =
              sym e ∙ (unfold get_boolean_property in (rw (e, get_boolean_property) at h)) in
            cc
      ]

  -- When the control device is created anew and no read fails, the settings are those that the
  -- registry holds of the control device before; the session blacklist is empty, no device is
  -- counted and no shutdown is pending. The event says whether the service is active.
  pub on_control_device_create_lem :
      (control : ControlContext) (w : f.World)
      → IsSaved control w
      → nt_success (on_control_device_create f w).status ≡ true
      → ((on_control_device_create f w).control ≡ record control {
        session_blacklist = [];
        shutdown_pending = false;
        number_of_devices_created = 0;
      })
        × ((on_control_device_create f w).events
            ≡ (if control.is_active then enabled ∷ [] else disabled ∷ []))
  unfolding on_control_device_create start_active start_inverse
  on_control_device_create_lem control w s h =
      let wl = create_collection_for_property f whitelisted_full_image_names w in
      let bl = create_collection_for_property f blacklisted_device_instance_paths wl.world in
      let act = get_boolean_property f Property.active bl.world in
      let inv = get_boolean_property f whitelisted_inverse act.world in
      let kept_lists = λ (p : Property).
        create_collection_for_property-kept f (r.texts p) (texts-IsKept p)
          whitelisted_full_image_names w in
      let kept_number = λ (p : Property).
        create_collection_for_property-kept f (r.number p) (number-IsKept p)
          blacklisted_device_instance_paths wl.world
        ∙ create_collection_for_property-kept f (r.number p) (number-IsKept p)
            whitelisted_full_image_names w in
      let inverse_kept =
        get_boolean_property-kept f (r.number whitelisted_inverse)
          (number-IsKept whitelisted_inverse) Property.active bl.world in
      elim (Bool-cases (nt_success wl.status)) [
        | inr n1 ↦ absurd (ground arith)
        | inl n1 ↦ elim (Bool-cases (nt_success bl.status)) [
          | inr n2 ↦ absurd (ground arith)
          | inl n2 ↦ elim (Bool-cases (nt_success act.status)) [
            | inr n3 ↦ absurd (ground arith)
            | inl n3 ↦ elim (Bool-cases (nt_success inv.status)) [
              | inr n4 ↦ absurd (ground arith)
              | inl n4 ↦
                  let whitelist : wl.collection ≡ control.whitelist =
                    create_collection-success f r whitelisted_full_image_names s.whitelist w
                      s.whitelist_texts s.whitelist_saved n1
                    ∙ sym s.whitelist_lives in
                  let blacklist : bl.collection ≡ control.blacklist =
                    create_collection-success f r blacklisted_device_instance_paths s.blacklist
                      wl.world s.blacklist_texts
                      (kept_lists blacklisted_device_instance_paths ∙ s.blacklist_saved) n2
                    ∙ sym s.blacklist_lives in
                  let active : act.value ≡ control.is_active =
                    get_boolean_property-success Property.active s.active bl.world
                      (kept_number Property.active ∙ s.active_saved) n3
                    ∙ sym s.is_active in
                  let inverse : inv.value ≡ control.is_inverse =
                    get_boolean_property-success whitelisted_inverse s.inverse act.world
                      (inverse_kept ∙ (kept_number whitelisted_inverse ∙ s.inverse_saved)) n4
                    ∙ sym s.is_inverse in
                  rw (n1, n2, n3)
                    (
                      (λ i. record {
                        whitelist = whitelist i;
                        blacklist = blacklist i;
                        is_active = active i;
                        is_inverse = inverse i;
                        session_blacklist = [];
                        shutdown_pending = false;
                        number_of_devices_created = 0;
                      }),
                      (λ i. if active i then enabled ∷ [] else disabled ∷ []),
                    )
            ]
          ]
        ]
      ]
