-- ===== src/Client/FilterDriverProxy/Connection/Writes.antt =====
-- What a client writes to the driver of HidHide/src/Logic.c.
use hid_hide.Prelude.{
  ℕ, ◌*◌, ◌≡◌, refl, ◌∙◌, Bool, true, false, not, List, [], ◌∷◌, All, length, length-append, ◌==◌,
  if◌then◌else◌, arith, Bool-cases, Option-cases, inl, inr, WideString,
}
use hid_hide.Driver.Status.{nt_success}
use hid_hide.Driver.MultiString.Layout.{terminated, multi_string}
use hid_hide.Client.MultiString.RoundTrip.{IsText}
use hid_hide.Driver.Framework.{
  Framework, IsRegistry, Property, write, whitelisted_full_image_names,
  blacklisted_device_instance_paths, whitelisted_inverse,
}
use hid_hide.Driver.Registry.{
  set_boolean_property, set_multi_string_property, create_collection_for_property,
}
use hid_hide.Driver.Registry.RoundTrip.{texts-set_multi_string_property}
use hid_hide.Driver.Start.Restart.{create_collection_for_property-kept, texts-IsKept}
use hid_hide.Driver.Control.{
  State, set_whitelist, set_blacklist, set_active, set_inverse, reload_whitelist, reload_blacklist,
}
use hid_hide.Driver.Requests.{
  evt_io_device_control, finish_request, on_io_device_control, reply_set, on_set_active,
  on_set_inverse, on_set_whitelist, on_set_blacklist, set_active_code, set_wlinverse_code,
  set_blacklist_code, set_whitelist_code,
}
use hid_hide.Client.DriverAccess.{write_flag_call, write_list_call}
use hid_hide.Client.FilterDriverProxy.Faithful.{Writes}
use hid_hide.Client.FilterDriverProxy.Connection.{
  Channel, KeepsLists, connected, texts_of, settings_of,
}

pub flag_lem : (b : Bool) → not ((if b then 1 else 0) == 0) ≡ b
flag_lem true = refl
flag_lem false = refl

module _ (f : Framework) (r : IsRegistry f) (k : KeepsLists f r) where
  -- A boolean that is written leaves the lists.
  pub texts-set_boolean_property :
      (p q : Property) (b : Bool) (w : f.World)
      → r.texts p (set_boolean_property f q b w).1 ≡ r.texts p w
  unfolding set_boolean_property
  texts-set_boolean_property p q b w =
      let opened = f.open_parameters_key write w in
      let n : ℕ = if b then 1 else 0 in
      let assigned = f.assign_ulong q n opened.1 in
      let same_open = r.texts-open p write w in
      elim (Bool-cases (nt_success opened.0)) [
        | inr e ↦ rw e same_open
        | inl e ↦
            rw e (r.texts-close p assigned.1 ∙ (k.texts-assign_ulong p q n opened.1 ∙ same_open))
      ]

  -- A list that is written leaves a list that its assignment leaves.
  pub texts-set_other :
      (p q : Property) (buffer : List ℕ) (w : f.World)
      → ((w : f.World) → r.texts p (f.assign_multi_string q buffer w).1 ≡ r.texts p w)
      → r.texts p (set_multi_string_property f q buffer w).1 ≡ r.texts p w
  unfolding set_multi_string_property
  texts-set_other p q buffer w same =
      let opened = f.open_parameters_key write w in
      let assigned = f.assign_multi_string q buffer opened.1 in
      let same_open = r.texts-open p write w in
      elim (Bool-cases (nt_success opened.0)) [
        | inr e ↦ rw e same_open
        | inl e ↦ rw e (r.texts-close p assigned.1 ∙ (same opened.1 ∙ same_open))
      ]

  -- The rest of a setter leaves the lists as they were written.
  pub texts-reread :
      (p q : Property) (w : f.World)
      → r.texts p (create_collection_for_property f q (f.delete_collection w)).world ≡ r.texts p w
  texts-reread p q w =
      create_collection_for_property-kept f (r.texts p) (texts-IsKept f r p) q
        (f.delete_collection w)
      ∙ r.texts-delete p w

  module _ (ch : Channel) where
    pub active-Writes :
        (b : Bool) (s : State f)
        → Writes
            (settings_of f r)
            (record (settings_of f r s) { active = b })
            ((connected f ch).control (write_flag_call set_active_code b) s)
    unfolding evt_io_device_control on_io_device_control on_set_active reply_set finish_request
        set_active
    active-Writes b s =
        let call = write_flag_call set_active_code b in
        let written = set_boolean_property f Property.active b s.world in
        let kept = λ (p : Property). texts-set_boolean_property p Property.active b s.world in
        elim (Bool-cases (nt_success (ch.retrieved call))) [
          | inr e ↦ rw (e, e) (λ ok. absurd (ground arith))
          | inl e ↦
              rw (e, flag_lem b)
                (elim (Bool-cases (nt_success written.0)) [
                  | inr g ↦ rw (g, g, g) (λ ok. absurd (ground arith))
                  | inl g ↦ rw (g) (λ ok i. record {
                    active = b;
                    blacklist = texts_of f (kept blacklisted_device_instance_paths i);
                    whitelist = texts_of f (kept whitelisted_full_image_names i);
                    inverse = s.control.is_inverse;
                  })
                ])
        ]

    pub inverse-Writes :
        (b : Bool) (s : State f)
        → Writes
            (settings_of f r)
            (record (settings_of f r s) { inverse = b })
            ((connected f ch).control (write_flag_call set_wlinverse_code b) s)
    unfolding evt_io_device_control on_io_device_control on_set_inverse reply_set finish_request
        set_inverse
    inverse-Writes b s =
        let call = write_flag_call set_wlinverse_code b in
        let written = set_boolean_property f whitelisted_inverse b s.world in
        let kept = λ (p : Property). texts-set_boolean_property p whitelisted_inverse b s.world in
        elim (Bool-cases (nt_success (ch.retrieved call))) [
          | inr e ↦ rw (e, e) (λ ok. absurd (ground arith))
          | inl e ↦
              rw (e, flag_lem b)
                (elim (Bool-cases (nt_success written.0)) [
                  | inr g ↦ rw (g, g, g) (λ ok. absurd (ground arith))
                  | inl g ↦ rw (g) (λ ok i. record {
                    active = s.control.is_active;
                    blacklist = texts_of f (kept blacklisted_device_instance_paths i);
                    whitelist = texts_of f (kept whitelisted_full_image_names i);
                    inverse = b;
                  })
                ])
        ]

    pub blacklist-Writes :
        (strings : List WideString) (s : State f)
        → All IsText strings
        → Writes
            (settings_of f r)
            (record (settings_of f r s) { blacklist = strings })
            ((connected f ch).control (write_list_call set_blacklist_code (multi_string strings)) s)
    unfolding evt_io_device_control on_io_device_control on_set_blacklist reply_set finish_request
        set_blacklist reload_blacklist
    blacklist-Writes strings s t =
        let buffer = multi_string strings in
        let call = write_list_call set_blacklist_code buffer in
        let written =
          set_multi_string_property f blacklisted_device_instance_paths buffer s.world in
        let reread =
          create_collection_for_property f blacklisted_device_instance_paths
            (f.delete_collection written.1) in
        let asked : (length buffer * 2 == 0) ≡ false =
          ground (arith, length-append (terminated strings) (0 ∷ [])) in
        elim (Bool-cases (nt_success (ch.retrieved call))) [
          | inr e ↦ rw (asked, e, e) (λ ok. absurd (ground arith))
          | inl e ↦
              rw (asked, e)
                (elim (Bool-cases (nt_success written.0)) [
                  | inr g ↦ rw (g, g, g) (λ ok. absurd (ground arith))
                  | inl g ↦ elim (Option-cases s.control.blacklist) [
                    | inl gone ↦ rw (g, gone) (λ ok. absurd (ground arith))
                    | inr (old, lives) ↦ elim (Bool-cases (nt_success reread.status)) [
                      | inr n ↦ rw (g, lives, n, n, n) (λ ok. absurd (ground arith))
                      | inl n ↦
                          rw (g, lives, n)
                            (λ ok i. record {
                              active = s.control.is_active;
                              blacklist = texts_of f (
                                  (texts-reread blacklisted_device_instance_paths
                                        blacklisted_device_instance_paths written.1
                                      ∙ texts-set_multi_string_property f r
                                          blacklisted_device_instance_paths strings s.world t g)
                                    i);
                              whitelist = texts_of f (
                                  (texts-reread whitelisted_full_image_names
                                        blacklisted_device_instance_paths written.1
                                      ∙ texts-set_other whitelisted_full_image_names
                                          blacklisted_device_instance_paths buffer s.world
                                          (k.whitelist-assign buffer))
                                    i);
                              inverse = s.control.is_inverse;
                            })
                    ]
                  ]
                ])
        ]

    pub whitelist-Writes :
        (strings : List WideString) (s : State f)
        → All IsText strings
        → Writes
            (settings_of f r)
            (record (settings_of f r s) { whitelist = strings })
            ((connected f ch).control (write_list_call set_whitelist_code (multi_string strings)) s)
    unfolding evt_io_device_control on_io_device_control on_set_whitelist reply_set finish_request
        set_whitelist reload_whitelist
    whitelist-Writes strings s t =
        let buffer = multi_string strings in
        let call = write_list_call set_whitelist_code buffer in
        let written = set_multi_string_property f whitelisted_full_image_names buffer s.world in
        let reread =
          create_collection_for_property f whitelisted_full_image_names
            (f.delete_collection written.1) in
        let asked : (length buffer * 2 == 0) ≡ false =
          ground (arith, length-append (terminated strings) (0 ∷ [])) in
        elim (Bool-cases (nt_success (ch.retrieved call))) [
          | inr e ↦ rw (asked, e, e) (λ ok. absurd (ground arith))
          | inl e ↦
              rw (asked, e)
                (elim (Bool-cases (nt_success written.0)) [
                  | inr g ↦ rw (g, g, g) (λ ok. absurd (ground arith))
                  | inl g ↦ elim (Option-cases s.control.whitelist) [
                    | inl gone ↦ rw (g, gone) (λ ok. absurd (ground arith))
                    | inr (old, lives) ↦ elim (Bool-cases (nt_success reread.status)) [
                      | inr n ↦ rw (g, lives, n, n, n) (λ ok. absurd (ground arith))
                      | inl n ↦
                          rw (g, lives, n)
                            (λ ok i. record {
                              active = s.control.is_active;
                              blacklist = texts_of f (
                                  (texts-reread blacklisted_device_instance_paths
                                        whitelisted_full_image_names written.1
                                      ∙ texts-set_other blacklisted_device_instance_paths
                                          whitelisted_full_image_names buffer s.world
                                          (k.blacklist-assign buffer))
                                    i);
                              whitelist = texts_of f (
                                  (texts-reread whitelisted_full_image_names
                                        whitelisted_full_image_names written.1
                                      ∙ texts-set_multi_string_property f r
                                          whitelisted_full_image_names strings s.world t g)
                                    i);
                              inverse = s.control.is_inverse;
                            })
                    ]
                  ]
                ])
        ]
