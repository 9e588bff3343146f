-- ===== src/Client/FilterDriverProxy/Connection/InForce.antt =====
-- The lists that the driver of HidHide/src/Logic.c judges by are those that its registry holds for
-- clients, after each write of a client that succeeds.
use hid_hide.Prelude.{
  ◌*◌, ◌≡◌, sym, ◌∙◌, Bool, true, false, List, [], ◌∷◌, All, length, length-append, ◌==◌, arith,
  Bool-cases, Option-cases, inl, inr, WideString,
}
use hid_hide.Driver.Status.{nt_success}
use hid_hide.Driver.MultiString.Layout.{terminated, multi_string}
use hid_hide.Client.MultiString.RoundTrip.{IsText}
use hid_hide.Driver.Framework.{
  Framework, IsRegistry, Property, whitelisted_full_image_names, blacklisted_device_instance_paths,
  whitelisted_inverse,
}
use hid_hide.Driver.Registry.{
  set_boolean_property, set_multi_string_property, create_collection_for_property,
}
use hid_hide.Driver.Registry.RoundTrip.{texts-set_multi_string_property}
use hid_hide.Driver.Control.{
  State, set_whitelist, set_blacklist, set_active, set_inverse, reload_whitelist, reload_blacklist,
}
use hid_hide.Driver.Requests.{
  evt_io_device_control, finish_request, on_io_device_control, reply_set, on_set_active,
  on_set_inverse, on_set_whitelist, on_set_blacklist, set_active_code, set_wlinverse_code,
  set_blacklist_code, set_whitelist_code,
}
use hid_hide.Client.DriverAccess.{Answer, write_flag_call, write_list_call}
use hid_hide.Driver.Control.Lists.{reread}
use hid_hide.Client.FilterDriverProxy.Connection.Writes.{
  flag_lem, texts-set_boolean_property, texts-set_other, texts-reread,
}
use hid_hide.Client.FilterDriverProxy.Connection.{Channel, KeepsLists, connected}

module _ (f : Framework) (r : IsRegistry f) (k : KeepsLists f r) where
  -- The control device holds the lists of the registry.
  pub record IsInForce (s : State f) : Type 0 where
    pub blacklist : s.control.blacklist ≡ r.texts blacklisted_device_instance_paths s.world
    pub whitelist : s.control.whitelist ≡ r.texts whitelisted_full_image_names s.world

  abbrev Enforces : Answer × State f → Type 0
  Enforces (a, s) = a.is_ok ≡ true → IsInForce s

  module _ (ch : Channel) where
    pub active-Enforces :
        (b : Bool) (s : State f)
        → IsInForce s
        → Enforces ((connected f ch).control (write_flag_call set_active_code b) s)
    unfolding evt_io_device_control on_io_device_control on_set_active reply_set finish_request
        set_active
    active-Enforces b s h =
        let call = write_flag_call set_active_code b in
        let written = set_boolean_property f Property.active b s.world in
        let kept = λ (p : Property). texts-set_boolean_property f r k p Property.active b s.world in
        elim (Bool-cases (nt_success (ch.retrieved call))) [
          | inr e ↦ rw (e, e) (λ ok. absurd (ground arith))
          | inl e ↦
              rw (e, flag_lem b)
                (elim (Bool-cases (nt_success written.0)) [
                  | inr g ↦ rw (g, g, g) (λ ok. absurd (ground arith))
                  | inl g ↦ rw g (λ ok. record {
                    blacklist = h.blacklist ∙ sym (kept blacklisted_device_instance_paths);
                    whitelist = h.whitelist ∙ sym (kept whitelisted_full_image_names);
                  })
                ])
        ]

    pub inverse-Enforces :
        (b : Bool) (s : State f)
        → IsInForce s
        → Enforces ((connected f ch).control (write_flag_call set_wlinverse_code b) s)
    unfolding evt_io_device_control on_io_device_control on_set_inverse reply_set finish_request
        set_inverse
    inverse-Enforces b s h =
        let call = write_flag_call set_wlinverse_code b in
        let written = set_boolean_property f whitelisted_inverse b s.world in
        let kept =
          λ (p : Property). texts-set_boolean_property f r k p whitelisted_inverse b s.world in
        elim (Bool-cases (nt_success (ch.retrieved call))) [
          | inr e ↦ rw (e, e) (λ ok. absurd (ground arith))
          | inl e ↦
              rw (e, flag_lem b)
                (elim (Bool-cases (nt_success written.0)) [
                  | inr g ↦ rw (g, g, g) (λ ok. absurd (ground arith))
                  | inl g ↦ rw g (λ ok. record {
                    blacklist = h.blacklist ∙ sym (kept blacklisted_device_instance_paths);
                    whitelist = h.whitelist ∙ sym (kept whitelisted_full_image_names);
                  })
                ])
        ]

    pub blacklist-Enforces :
        (strings : List WideString) (s : State f)
        → All IsText strings
        → IsInForce s
        → Enforces
            ((connected f ch).control (write_list_call set_blacklist_code (multi_string strings)) s)
    unfolding evt_io_device_control on_io_device_control on_set_blacklist reply_set finish_request
        set_blacklist reload_blacklist
    blacklist-Enforces strings s t h =
        let buffer = multi_string strings in
        let call = write_list_call set_blacklist_code buffer in
        let written =
          set_multi_string_property f blacklisted_device_instance_paths buffer s.world in
        let again =
          create_collection_for_property f blacklisted_device_instance_paths
            (f.delete_collection written.1) in
        let asked : (length buffer * 2 == 0) ≡ false =
          ground (arith, length-append (terminated strings) (0 ∷ [])) in
        elim (Bool-cases (nt_success (ch.retrieved call))) [
          | inr e ↦ rw (asked, e, e) (λ ok. absurd (ground arith))
          | inl e ↦
              rw (asked, e)
                (elim (Bool-cases (nt_success written.0)) [
                  | inr g ↦ rw (g, g, g) (λ ok. absurd (ground arith))
                  | inl g ↦ elim (Option-cases s.control.blacklist) [
                    | inl gone ↦ rw (g, gone) (λ ok. absurd (ground arith))
                    | inr (old, lives) ↦ elim (Bool-cases (nt_success again.status)) [
                      | inr n ↦ rw (g, lives, n, n, n) (λ ok. absurd (ground arith))
                      | inl n ↦
                          rw (g, lives, n)
                            (λ ok. record {
                              blacklist =
                                  reread f r blacklisted_device_instance_paths strings s.world t g n
                                  ∙ sym (
                                      texts-reread f r k blacklisted_device_instance_paths
                                        blacklisted_device_instance_paths written.1
                                      ∙ texts-set_multi_string_property f r
                                          blacklisted_device_instance_paths strings s.world t g);
                              whitelist =
                                  h.whitelist
                                  ∙ sym (
                                      texts-reread f r k whitelisted_full_image_names
                                        blacklisted_device_instance_paths written.1
                                      ∙ texts-set_other f r k whitelisted_full_image_names
                                          blacklisted_device_instance_paths buffer s.world
                                          (k.whitelist-assign buffer));
                            })
                    ]
                  ]
                ])
        ]

    pub whitelist-Enforces :
        (strings : List WideString) (s : State f)
        → All IsText strings
        → IsInForce s
        → Enforces
            ((connected f ch).control (write_list_call set_whitelist_code (multi_string strings)) s)
    unfolding evt_io_device_control on_io_device_control on_set_whitelist reply_set finish_request
        set_whitelist reload_whitelist
    whitelist-Enforces strings s t h =
        let buffer = multi_string strings in
        let call = write_list_call set_whitelist_code buffer in
        let written = set_multi_string_property f whitelisted_full_image_names buffer s.world in
        let again =
          create_collection_for_property f whitelisted_full_image_names
            (f.delete_collection written.1) in
        let asked : (length buffer * 2 == 0) ≡ false =
          ground (arith, length-append (terminated strings) (0 ∷ [])) in
        elim (Bool-cases (nt_success (ch.retrieved call))) [
          | inr e ↦ rw (asked, e, e) (λ ok. absurd (ground arith))
          | inl e ↦
              rw (asked, e)
                (elim (Bool-cases (nt_success written.0)) [
                  | inr g ↦ rw (g, g, g) (λ ok. absurd (ground arith))
                  | inl g ↦ elim (Option-cases s.control.whitelist) [
                    | inl gone ↦ rw (g, gone) (λ ok. absurd (ground arith))
                    | inr (old, lives) ↦ elim (Bool-cases (nt_success again.status)) [
                      | inr n ↦ rw (g, lives, n, n, n) (λ ok. absurd (ground arith))
                      | inl n ↦
                          rw (g, lives, n)
                            (λ ok. record {
                              blacklist =
                                  h.blacklist
                                  ∙ sym (
                                      texts-reread f r k blacklisted_device_instance_paths
                                        whitelisted_full_image_names written.1
                                      ∙ texts-set_other f r k blacklisted_device_instance_paths
                                          whitelisted_full_image_names buffer s.world
                                          (k.blacklist-assign buffer));
                              whitelist =
                                  reread f r whitelisted_full_image_names strings s.world t g n
                                  ∙ sym (
                                      texts-reread f r k whitelisted_full_image_names
                                        whitelisted_full_image_names written.1
                                      ∙ texts-set_multi_string_property f r
                                          whitelisted_full_image_names strings s.world t g);
                            })
                    ]
                  ]
                ])
        ]
