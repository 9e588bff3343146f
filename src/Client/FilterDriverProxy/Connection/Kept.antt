-- ===== src/Client/FilterDriverProxy/Connection/Kept.antt =====
-- The lists that the driver of HidHide/src/Logic.c judges by are those that its registry holds for
-- clients, whatever a client reads or writes.
use hid_hide.Prelude.{
  ℕ, ◌/◌, Option, none, some, if◌then◌else◌, ◌*◌, ◌≡◌, sym, ◌∙◌, List, ◌==◌, Bool-cases,
  Option-cases, inl, inr,
}
use hid_hide.Driver.Status.{nt_success, success}
use hid_hide.Driver.MultiString.{StringCopy, collection_to_multi_string}
use hid_hide.Driver.Start.Restart.{create_collection_for_property-kept, texts-IsKept}
use hid_hide.Driver.Framework.{
  Framework, IsRegistry, Property, whitelisted_full_image_names, blacklisted_device_instance_paths,
}
use hid_hide.Driver.Registry.{create_collection_for_property}
use hid_hide.Driver.Control.{fill, ListRead, get_whitelist, get_blacklist, State}
use hid_hide.Driver.Requests.{
  reply_list, on_get_active, on_get_inverse, on_get_whitelist, on_get_blacklist, get_active_code,
  get_wlinverse_code, get_blacklist_code, get_whitelist_code, evt_io_device_control, finish_request,
  on_io_device_control,
}
use hid_hide.Client.DriverAccess.{read_flag_call, size_call, read_list_call}
use hid_hide.Client.MultiString.{zeros}
use hid_hide.Client.FilterDriverProxy.Upheld.{IsUpheld}
use hid_hide.Client.FilterDriverProxy.Connection.{answer_of, Channel, KeepsLists, connected}
use hid_hide.Client.FilterDriverProxy.Connection.InForce.{
  IsInForce, active-Enforces, inverse-Enforces, blacklist-Enforces, whitelist-Enforces,
}

module _ (f : Framework) (r : IsRegistry f) (k : KeepsLists f r) where
  kept-IsInForce :
      (s : State f) (w : f.World)
      → ((p : Property) → r.texts p w ≡ r.texts p s.world)
      → IsInForce f r k s
      → IsInForce f r k (record s { world = w })
  kept-IsInForce s w same h = record {
    blacklist = h.blacklist ∙ sym (same blacklisted_device_instance_paths);
    whitelist = h.whitelist ∙ sym (same whitelisted_full_image_names);
  }

  filled-IsInForce :
      (s : State f) (got : ListRead f)
      → ((p : Property) → r.texts p got.world ≡ r.texts p s.world)
      → IsInForce f r k s
      → IsInForce f r k (answer_of f s (finish_request f (reply_list f s (some got)))).1
  unfolding finish_request reply_list
  filled-IsInForce s got same h = elim (Bool-cases (nt_success got.status)) [
    | inl e ↦ rw e (kept-IsInForce s got.world same h)
    | inr e ↦ rw (e, e) (kept-IsInForce s got.world same h)
  ]

  -- A handler that reads a list changes neither of them.
  reply_list-IsInForce :
      (c : StringCopy) (p : Property) (buffer : Option (List ℕ)) (size : ℕ) (s : State f)
      → IsInForce f r k s
      → IsInForce f r k
          (answer_of f s (
            finish_request f (
              reply_list f s
                (fill f c buffer size (create_collection_for_property f p s.world))))).1
  unfolding finish_request reply_list fill
  reply_list-IsInForce c p buffer size s h =
      let reread = create_collection_for_property f p s.world in
      let kept = λ (q : Property).
        create_collection_for_property-kept f (r.texts q) (texts-IsKept f r q) p s.world in
      let freed = λ (q : Property). r.texts-delete q reread.world ∙ kept q in
      elim (Bool-cases (nt_success reread.status)) [
        | inr e ↦ rw (e, reply_list, e, finish_request, e) (kept-IsInForce s reread.world kept h)
        | inl e ↦ elim (Option-cases reread.collection) [
          | inl n ↦ rw (e, n) h
          | inr (items, n) ↦ elim (Option-cases (collection_to_multi_string c items buffer size)) [
            | inl m ↦ rw (e, n, m) h
            | inr (filled, m) ↦
                rw (e, n, m)
                  (filled-IsInForce s
                    (record {
                      status = if nt_success filled.status then success else filled.status;
                      needed = filled.needed;
                      buffer = filled.buffer;
                      world = f.delete_collection reread.world;
                    })
                    freed h)
          ]
        ]
      ]

  module _ (ch : Channel) where
    active_read-IsInForce :
        (s : State f)
        → IsInForce f r k s
        → IsInForce f r k ((connected f ch).control (read_flag_call get_active_code) s).1
    unfolding evt_io_device_control on_io_device_control on_get_active finish_request
    active_read-IsInForce s h =
        elim (Bool-cases (nt_success (ch.retrieved (read_flag_call get_active_code)))) [
          | inl e ↦ rw e h
          | inr e ↦ rw (e, e) h
        ]

    inverse_read-IsInForce :
        (s : State f)
        → IsInForce f r k s
        → IsInForce f r k ((connected f ch).control (read_flag_call get_wlinverse_code) s).1
    unfolding evt_io_device_control on_io_device_control on_get_inverse finish_request
    inverse_read-IsInForce s h =
        elim (Bool-cases (nt_success (ch.retrieved (read_flag_call get_wlinverse_code)))) [
          | inl e ↦ rw e h
          | inr e ↦ rw (e, e) h
        ]

    blacklist_size-IsInForce :
        (s : State f)
        → IsInForce f r k s
        → IsInForce f r k ((connected f ch).control (size_call get_blacklist_code) s).1
    unfolding evt_io_device_control on_io_device_control on_get_blacklist get_blacklist
    blacklist_size-IsInForce s h =
        reply_list-IsInForce ch.copier blacklisted_device_instance_paths none 0 s h

    blacklist_read-IsInForce :
        (n : ℕ) (s : State f)
        → IsInForce f r k s
        → IsInForce f r k ((connected f ch).control (read_list_call get_blacklist_code n) s).1
    unfolding evt_io_device_control on_io_device_control on_get_blacklist get_blacklist
        finish_request
    blacklist_read-IsInForce n s h =
        let call = read_list_call get_blacklist_code n in
        elim (Bool-cases (n * 2 == 0)) [
          | inl e ↦
              rw e (reply_list-IsInForce ch.copier blacklisted_device_instance_paths none 0 s h)
          | inr e ↦ elim (Bool-cases (nt_success (ch.retrieved call))) [
            | inr g ↦ rw (e, g, g) h
            | inl g ↦
                rw (e, g)
                  (reply_list-IsInForce ch.copier blacklisted_device_instance_paths (some (zeros n))
                    (n * 2 / 2) s h)
          ]
        ]

    whitelist_size-IsInForce :
        (s : State f)
        → IsInForce f r k s
        → IsInForce f r k ((connected f ch).control (size_call get_whitelist_code) s).1
    unfolding evt_io_device_control on_io_device_control on_get_whitelist get_whitelist
    whitelist_size-IsInForce s h =
        reply_list-IsInForce ch.copier whitelisted_full_image_names none 0 s h

    whitelist_read-IsInForce :
        (n : ℕ) (s : State f)
        → IsInForce f r k s
        → IsInForce f r k ((connected f ch).control (read_list_call get_whitelist_code n) s).1
    unfolding evt_io_device_control on_io_device_control on_get_whitelist get_whitelist
        finish_request
    whitelist_read-IsInForce n s h =
        let call = read_list_call get_whitelist_code n in
        elim (Bool-cases (n * 2 == 0)) [
          | inl e ↦ rw e (reply_list-IsInForce ch.copier whitelisted_full_image_names none 0 s h)
          | inr e ↦ elim (Bool-cases (nt_success (ch.retrieved call))) [
            | inr g ↦ rw (e, g, g) h
            | inl g ↦
                rw (e, g)
                  (reply_list-IsInForce ch.copier whitelisted_full_image_names (some (zeros n))
                    (n * 2 / 2) s h)
          ]
        ]

    -- The driver judges by the lists that it answers clients with.
    pub connected-IsUpheld : IsUpheld (connected f ch) (IsInForce f r k)
    connected-IsUpheld = record {
      reads_active = active_read-IsInForce;
      reads_inverse = inverse_read-IsInForce;
      sizes_blacklist = blacklist_size-IsInForce;
      sizes_whitelist = whitelist_size-IsInForce;
      reads_blacklist = blacklist_read-IsInForce;
      reads_whitelist = whitelist_read-IsInForce;
      writes_active = active-Enforces f r k ch;
      writes_inverse = inverse-Enforces f r k ch;
      writes_blacklist = λ strings t s. blacklist-Enforces f r k ch strings s t;
      writes_whitelist = λ strings t s. whitelist-Enforces f r k ch strings s t;
    }
