-- ===== src/Client/FilterDriverProxy/Connection/Reads.antt =====
-- What a client reads from the driver of HidHide/src/Logic.c.
use hid_hide.Prelude.{
  ℕ, zero, suc, ◌*◌, ◌/◌, ◌^◌, ◌≡◌, ◌<◌, refl, ap, ◌∙◌, Bool, true, false, not, Option, none, some,
  List, [], ◌∷◌, ◌++◌, All, length, length-append, drop, ◌==◌, arith, Bool-cases, Option-cases, inl,
  inr, WideString,
}
use mathlib.Core.List.{append-nil}
use hid_hide.Driver.Status.{nt_success, success}
use hid_hide.Driver.MultiString.{StringCopy, collection_to_multi_string}
use hid_hide.Driver.MultiString.Layout.{
  terminated, multi_string, collection_to_multi_string_fits, collection_to_multi_string_query,
}
use hid_hide.Client.MultiString.{zeros}
use hid_hide.Client.MultiString.RoundTrip.{IsText}
use hid_hide.Driver.Framework.{
  Framework, IsRegistry, Property, read, ValueInfo, whitelisted_full_image_names,
  blacklisted_device_instance_paths,
}
use hid_hide.Driver.Registry.{query_collection, create_collection_for_property}
use hid_hide.Driver.Start.Restart.{create_collection_for_property-kept, texts-IsKept}
use hid_hide.Driver.Control.{State, fill, get_whitelist, get_blacklist, get_active, get_inverse}
use hid_hide.Driver.Control.Lists.{create_collection-success, drop-length}
use hid_hide.Driver.Requests.{
  evt_io_device_control, finish_request, on_io_device_control, reply_list, on_get_active,
  on_get_inverse, on_get_whitelist, on_get_blacklist, get_active_code, get_wlinverse_code,
  get_blacklist_code, get_whitelist_code,
}
use hid_hide.Client.DriverAccess.{read_flag_call, size_call, read_list_call}
use hid_hide.Client.FilterDriverProxy.Faithful.{Reads}
use hid_hide.Client.FilterDriverProxy.Connection.{
  Channel, KeepsLists, answer_of, connected, texts_of, settings_of, byte_of,
}

byte_of_lem : (b : Bool) → not (byte_of (some b) == 0) ≡ b
byte_of_lem true = refl
byte_of_lem false = refl

length-zeros : (n : ℕ) → length (zeros n) ≡ n
unfolding zeros
length-zeros zero = refl
length-zeros (suc n) = ap suc (length-zeros n)

-- A buffer of the size that was reported is filled with the whole multi-string.
filled_whole :
    (c : StringCopy) (items : List WideString) (n : ℕ)
    → n ≡ length (multi_string items)
    → n * 2 < 2 ^ 32
    → collection_to_multi_string c items (some (zeros n)) (n * 2 / 2)
      ≡ some (record {
        status = success;
        needed = length (multi_string items);
        buffer = multi_string items;
      })
filled_whole c items n e b =
    let long : length (zeros n) ≡ n = length-zeros n in
    let half : n * 2 / 2 ≡ length (zeros n) = omega arith in
    let rest = drop-length (zeros n) (length (multi_string items)) (omega arith) in
    let whole : multi_string items ++ drop (length (multi_string items)) (zeros n)
        ≡ multi_string items =
      ap (λ (x : List ℕ). multi_string items ++ x) rest ∙ append-nil (multi_string items) in
    ap (λ (size : ℕ). collection_to_multi_string c items (some (zeros n)) size) half
    ∙ collection_to_multi_string_fits c items (zeros n) (omega arith) (omega arith)
    ∙ (λ i.
        some (record { status = success; needed = length (multi_string items); buffer = whole i }))

module _ (f : Framework) (r : IsRegistry f) (k : KeepsLists f r) where
  -- A value that is not a list of texts is read as no texts, or not at all.
  query_collection-absent :
      (p : Property) (w : f.World) (info : ValueInfo)
      → info.is_multi_sz ≡ false
      → nt_success (query_collection f p w info).status ≡ true
      → (query_collection f p w info).collection ≡ some []
  unfolding query_collection
  query_collection-absent p w info n h = ground arith

  create_collection-absent :
      (p : Property) (w : f.World)
      → r.texts p w ≡ none
      → nt_success (create_collection_for_property f p w).status ≡ true
      → (create_collection_for_property f p w).collection ≡ some []
  unfolding create_collection_for_property
  create_collection-absent p w n h =
      let opened = f.open_parameters_key read w in
      let created = f.create_collection opened.1 in
      let no = k.absent p created.1 (r.texts-create p opened.1 ∙ (r.texts-open p read w ∙ n)) in
      ground (arith, query_collection-absent p created.1 (f.query_value p created.1) no)

  -- A read of a list of texts that succeeds gives the list.
  create_collection-texts_of :
      (p : Property) (w : f.World)
      → All IsText (texts_of f (r.texts p w))
      → nt_success (create_collection_for_property f p w).status ≡ true
      → (create_collection_for_property f p w).collection ≡ some (texts_of f (r.texts p w))
  create_collection-texts_of p w t h = elim (Option-cases (r.texts p w)) [
    | inl e ↦ rw e (create_collection-absent p w e h)
    | inr (items, e) ↦ rw e (create_collection-success f r p items w (rw e at t) e h)
  ]

  -- Only the control device and the registry matter.
  same_settings :
      (s s' : State f)
      → s'.control ≡ s.control
      → ((p : Property) → r.texts p s'.world ≡ r.texts p s.world)
      → settings_of f r s' ≡ settings_of f r s
  same_settings s s' e same = λ i. record {
    active = (e i).is_active;
    blacklist = texts_of f (same blacklisted_device_instance_paths i);
    whitelist = texts_of f (same whitelisted_full_image_names i);
    inverse = (e i).is_inverse;
  }

  -- A handler that reads a list changes no setting, and answers what was written to the buffer.
  reply_list-Reads :
      (c : StringCopy) (p : Property) (buffer : Option (List ℕ)) (size : ℕ) (s : State f)
      (needed : ℕ) (written : List ℕ)
      → All IsText (texts_of f (r.texts p s.world))
      → collection_to_multi_string c (texts_of f (r.texts p s.world)) buffer size
        ≡ some (record { status = success; needed = needed; buffer = written })
      → Reads
          (settings_of f r)
          (λ a. (a.needed ≡ needed * 2) × (a.characters ≡ written))
          s
          (answer_of f s (
            finish_request f
              (reply_list f s (fill f c buffer size (create_collection_for_property f p s.world)))))
  unfolding finish_request reply_list fill
  reply_list-Reads c p buffer size s needed written t h =
      let reread = create_collection_for_property f p s.world in
      let kept = λ (q : Property).
        create_collection_for_property-kept f (r.texts q) (texts-IsKept f r q) p s.world in
      let freed = λ (q : Property). r.texts-delete q reread.world ∙ kept q in
      elim (Bool-cases (nt_success reread.status)) [
        | inr e ↦
            rw (e, reply_list, e, finish_request, e)
              (
                same_settings s (record s { world = reread.world }) refl kept,
                λ ok. absurd (ground arith),
              )
        | inl e ↦
            let got = create_collection-texts_of p s.world t e in
            rw (e, got, h)
              (
                same_settings s (record s { world = f.delete_collection reread.world }) refl freed,
                λ ok. (refl, refl),
              )
      ]

  module _ (ch : Channel) where
    pub active-Reads :
        (s : State f)
        → Reads
            (settings_of f r)
            (λ a. not (a.flag == 0) ≡ s.control.is_active)
            s
            ((connected f ch).control (read_flag_call get_active_code) s)
    unfolding evt_io_device_control on_io_device_control on_get_active get_active finish_request
    active-Reads s =
        elim (Bool-cases (nt_success (ch.retrieved (read_flag_call get_active_code)))) [
          | inl e ↦ rw e (refl, λ ok. byte_of_lem s.control.is_active)
          | inr e ↦ rw (e, e) (refl, λ ok. absurd (ground arith))
        ]

    pub inverse-Reads :
        (s : State f)
        → Reads
            (settings_of f r)
            (λ a. not (a.flag == 0) ≡ s.control.is_inverse)
            s
            ((connected f ch).control (read_flag_call get_wlinverse_code) s)
    unfolding evt_io_device_control on_io_device_control on_get_inverse get_inverse finish_request
    inverse-Reads s =
        elim (Bool-cases (nt_success (ch.retrieved (read_flag_call get_wlinverse_code)))) [
          | inl e ↦ rw e (refl, λ ok. byte_of_lem s.control.is_inverse)
          | inr e ↦ rw (e, e) (refl, λ ok. absurd (ground arith))
        ]

    pub sizes_blacklist :
        (s : State f)
        → All IsText (settings_of f r s).blacklist
        → Reads
            (settings_of f r)
            (λ a. a.needed / 2 ≡ length (multi_string (settings_of f r s).blacklist))
            s
            ((connected f ch).control (size_call get_blacklist_code) s)
    unfolding evt_io_device_control on_io_device_control on_get_blacklist get_blacklist
    sizes_blacklist s t =
        let items = (settings_of f r s).blacklist in
        let (same, got) =
          reply_list-Reads ch.copier blacklisted_device_instance_paths none 0 s
            (length (multi_string items)) [] t
            (collection_to_multi_string_query ch.copier items 0) in
        (same, λ ok. omega (arith, (got ok).0))

    pub blacklist-Reads :
        (s : State f) (n : ℕ)
        → All IsText (settings_of f r s).blacklist
        → n ≡ length (multi_string (settings_of f r s).blacklist)
        → Reads
            (settings_of f r)
            (λ a. a.characters ≡ multi_string (settings_of f r s).blacklist)
            s
            ((connected f ch).control (read_list_call get_blacklist_code n) s)
    unfolding evt_io_device_control on_io_device_control on_get_blacklist get_blacklist
        finish_request
    blacklist-Reads s n t e =
        let items = (settings_of f r s).blacklist in
        let call = read_list_call get_blacklist_code n in
        let asked : (n * 2 == 0) ≡ false =
          ground (arith, length-append (terminated items) (0 ∷ [])) in
        elim (Bool-cases (nt_success (ch.retrieved call))) [
          | inr refused ↦ rw (asked, refused, refused) (refl, λ ok. absurd (ground arith))
          | inl fits ↦
              let (same, got) =
                reply_list-Reads ch.copier blacklisted_device_instance_paths (some (zeros n))
                  (n * 2 / 2) s (length (multi_string items)) (multi_string items) t
                  (filled_whole ch.copier items n e (ch.retrieved_fits call fits)) in
              rw (asked, fits) (same, λ ok. (got ok).1)
        ]

    pub sizes_whitelist :
        (s : State f)
        → All IsText (settings_of f r s).whitelist
        → Reads
            (settings_of f r)
            (λ a. a.needed / 2 ≡ length (multi_string (settings_of f r s).whitelist))
            s
            ((connected f ch).control (size_call get_whitelist_code) s)
    unfolding evt_io_device_control on_io_device_control on_get_whitelist get_whitelist
    sizes_whitelist s t =
        let items = (settings_of f r s).whitelist in
        let (same, got) =
          reply_list-Reads ch.copier whitelisted_full_image_names none 0 s
            (length (multi_string items)) [] t
            (collection_to_multi_string_query ch.copier items 0) in
        (same, λ ok. omega (arith, (got ok).0))

    pub whitelist-Reads :
        (s : State f) (n : ℕ)
        → All IsText (settings_of f r s).whitelist
        → n ≡ length (multi_string (settings_of f r s).whitelist)
        → Reads
            (settings_of f r)
            (λ a. a.characters ≡ multi_string (settings_of f r s).whitelist)
            s
            ((connected f ch).control (read_list_call get_whitelist_code n) s)
    unfolding evt_io_device_control on_io_device_control on_get_whitelist get_whitelist
        finish_request
    whitelist-Reads s n t e =
        let items = (settings_of f r s).whitelist in
        let call = read_list_call get_whitelist_code n in
        let asked : (n * 2 == 0) ≡ false =
          ground (arith, length-append (terminated items) (0 ∷ [])) in
        elim (Bool-cases (nt_success (ch.retrieved call))) [
          | inr refused ↦ rw (asked, refused, refused) (refl, λ ok. absurd (ground arith))
          | inl fits ↦
              let (same, got) =
                reply_list-Reads ch.copier whitelisted_full_image_names (some (zeros n)) (n * 2 / 2)
                  s (length (multi_string items)) (multi_string items) t
                  (filled_whole ch.copier items n e (ch.retrieved_fits call fits)) in
              rw (asked, fits) (same, λ ok. (got ok).1)
        ]
