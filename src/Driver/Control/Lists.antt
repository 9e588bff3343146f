-- ===== src/Driver/Control/Lists.antt =====
-- The two lists of the control device.
use hid_hide.Prelude.{
  ℕ, zero, suc, ◌≡◌, ◌≤◌, refl, sym, ap, ◌∙◌, Bool, true, false, none, some, List, [], ◌∷◌, ◌++◌,
  All, arith, length, drop, Bool-cases, inl, inr, WideString,
}
use mathlib.Core.List.{append-nil}
use hid_hide.Driver.Status.{NtStatus, nt_success}
use hid_hide.Driver.MultiString.{StringCopy, max_cch}
use hid_hide.Driver.MultiString.Layout.{multi_string, collection_to_multi_string_fits}
use hid_hide.Client.MultiString.{multi_string_to_string_list}
use hid_hide.Client.MultiString.RoundTrip.{IsText, multi_string_to_string_list_lem}
use hid_hide.Driver.Framework.{
  Framework, IsRegistry, Property, ValueInfo, read, blacklisted_device_instance_paths,
  whitelisted_full_image_names,
}
use hid_hide.Driver.Registry.{
  set_multi_string_property, query_texts, query_collection, create_collection_for_property,
}
use hid_hide.Driver.Registry.RoundTrip.{texts-set_multi_string_property, create_collection-texts}
use hid_hide.Driver.Processes.{process_ids_flush}
use hid_hide.Driver.Processes.Cache.{IsCoherent, flush-IsCoherent}
use hid_hide.Driver.Control.{
  State, ListRead, reload_blacklist, set_blacklist, reload_whitelist, set_whitelist, fill,
  get_blacklist,
}

pub drop-length : (xs : List ℕ) (n : ℕ) → length xs ≡ n → drop n xs ≡ []
drop-length [] zero h = refl
drop-length [] (suc n) h = refl
drop-length (x ∷ xs) zero h = absurd (omega arith)
drop-length (x ∷ xs) (suc n) h = drop-length xs n (omega arith)

module _ (f : Framework) (r : IsRegistry f) where
  -- A read that succeeds gives the texts of the registry.
  pub create_collection-success :
      (p : Property) (items : List WideString) (w : f.World)
      → All IsText items
      → r.texts p w ≡ some items
      → nt_success (create_collection_for_property f p w).status ≡ true
      → (create_collection_for_property f p w).collection ≡ some items
  create_collection-success p items w t s h =
      elim (Bool-cases (nt_success (f.open_parameters_key read w).0)) [
        | inr e ↦
            let no : false ≡ true =
              sym e
              ∙ (unfold create_collection_for_property in
                  (rw (e, create_collection_for_property) at h)) in
            cc
        | inl e ↦
            elim (Bool-cases
              (nt_success (f.create_collection (f.open_parameters_key read w).1).0)) [
                | inr g ↦
                    let no : false ≡ true =
                      sym g
                      ∙ (unfold create_collection_for_property in
                          (rw (e, g, create_collection_for_property) at h)) in
                    cc
                | inl g ↦ (create_collection-texts f r p items w t s e g).1
              ]
      ]

  pub reread :
      (p : Property) (items : List WideString) (w : f.World)
      → All IsText items
      → nt_success (set_multi_string_property f p (multi_string items) w).0 ≡ true
      → nt_success
          (create_collection_for_property f p
            (f.delete_collection (set_multi_string_property f p (multi_string items) w).1)).status
        ≡ true
      → (create_collection_for_property f p
          (f.delete_collection (set_multi_string_property f p (multi_string items) w).1)).collection
        ≡ some items
  reread p items w t h k =
      let written = set_multi_string_property f p (multi_string items) w in
      create_collection-success p items (f.delete_collection written.1) t
        (r.texts-delete p written.1 ∙ texts-set_multi_string_property f r p items w t h) k

  -- SetBlacklist with a multi-string, when it succeeds, puts its texts into force, and leaves the
  -- other settings and the session blacklist as they were.
  pub set_blacklist_success :
      (items : List WideString) (s s' : State f) (status : NtStatus)
      → All IsText items
      → set_blacklist f (multi_string items) s ≡ some (status, s')
      → nt_success status ≡ true
      → s'.control ≡ record (s.control) { blacklist = some items }
  unfolding set_blacklist reload_blacklist
  set_blacklist_success items s s' status t h k =
      let written =
        set_multi_string_property f blacklisted_device_instance_paths (multi_string items)
          s.world in
      elim (Bool-cases (nt_success written.0)) [
        | inr e ↦ ground arith
        | inl e ↦ ground (arith, reread blacklisted_device_instance_paths items s.world t e)
      ]

  -- SetWhitelist with a multi-string, when it succeeds, puts its texts into force, and every cached
  -- evaluation agrees with them: with `same` any comparison of names, what was current for the old
  -- list is current for the new one.
  pub set_whitelist_success :
      (same : WideString → WideString → Bool) (old items : List WideString) (s s' : State f)
      (status : NtStatus)
      → All IsText items
      → IsCoherent same old s.process_tree
      → set_whitelist f (multi_string items) s ≡ some (status, s')
      → nt_success status ≡ true
      → (s'.control ≡ record (s.control) { whitelist = some items })
        × IsCoherent same items s'.process_tree
  unfolding set_whitelist reload_whitelist
  set_whitelist_success same old items s s' status t c h k =
      let written =
        set_multi_string_property f whitelisted_full_image_names (multi_string items) s.world in
      let flushed = flush-IsCoherent same old items s.process_tree c in
      elim (Bool-cases (nt_success written.0)) [
        | inr e ↦ absurd (ground arith)
        | inl e ↦
            let fact = reread whitelisted_full_image_names items s.world t e in
            let tree : s'.process_tree ≡ process_ids_flush s.process_tree = ground arith in
            (ground (arith, fact), rw tree flushed)
      ]

  -- The client that asks for the blacklist with a buffer of the size reported reads the texts of
  -- the registry.
  pub get_blacklist_client :
      (c : StringCopy) (items : List WideString) (buffer : List ℕ) (s : State f) (got : ListRead f)
      → All IsText items
      → r.texts blacklisted_device_instance_paths s.world ≡ some items
      → length buffer ≡ length (multi_string items)
      → length buffer ≤ max_cch
      → get_blacklist f c (some buffer) (length buffer) s ≡ some got
      → nt_success got.status ≡ true
      → (got.needed ≡ length buffer) × (multi_string_to_string_list got.buffer ≡ items)
  unfolding get_blacklist fill
  get_blacklist_client c items buffer s got t x n m h k =
      let read_back = create_collection_for_property f blacklisted_device_instance_paths s.world in
      elim (Bool-cases (nt_success read_back.status)) [
        | inr e ↦ absurd (ground arith)
        | inl e ↦
            let texts : read_back.collection ≡ some items =
              create_collection-success blacklisted_device_instance_paths items s.world t x e in
            let filled = collection_to_multi_string_fits c items buffer (omega arith) m in
            let whole : multi_string items ++ drop (length (multi_string items)) buffer
                ≡ multi_string items =
              ap (λ (rest : List ℕ). multi_string items ++ rest)
                (drop-length buffer (length (multi_string items)) (omega arith))
              ∙ append-nil (multi_string items) in
            let same_buffer : got.buffer ≡ multi_string items = ground (arith, filled, whole) in
            (ground (arith, filled), rw same_buffer (multi_string_to_string_list_lem items t))
      ]

query_texts-failed :
    (f : Framework) (w : f.World) (q : NtStatus × List WideString)
    → nt_success (query_texts f w q).status ≡ false
    → (query_texts f w q).collection ≡ none
unfolding query_texts
query_texts-failed f w (status, items) h = elim (Bool-cases (nt_success status)) [
  | inl e ↦ let no : true ≡ false = rw (e, query_texts) at h in cc
  | inr e ↦ rw (e, query_texts) refl
]

query_collection-failed :
    (f : Framework) (p : Property) (w : f.World) (info : ValueInfo)
    → nt_success (query_collection f p w info).status ≡ false
    → (query_collection f p w info).collection ≡ none
unfolding query_collection
query_collection-failed f p w info h =
    ground (arith, query_texts-failed f w (f.query_multi_string p w))

-- A read that fails leaves no collection behind.
create_collection_for_property-failed :
    (f : Framework) (p : Property) (w : f.World)
    → nt_success (create_collection_for_property f p w).status ≡ false
    → (create_collection_for_property f p w).collection ≡ none
unfolding create_collection_for_property
create_collection_for_property-failed f p w h =
    let opened = f.open_parameters_key read w in
    let created = f.create_collection opened.1 in
    elim (Bool-cases (nt_success opened.0)) [
      | inr e ↦ rw (e, create_collection_for_property) refl
      | inl e ↦ elim (Bool-cases (nt_success created.0)) [
        | inr g ↦ rw (e, g, create_collection_for_property) refl
        | inl g ↦
            rw (e, g, create_collection_for_property)
              (query_collection-failed f p created.1 (f.query_value p created.1)
                (rw (e, g, create_collection_for_property) at h))
      ]
    ]

module _ (f : Framework) where
  -- A SetBlacklist that fails after its write to the registry leaves the handle of a deleted
  -- collection in force. The next SetBlacklist that gets as far as the registry deletes it again.
  pub set_blacklist_twice :
      (first second : List ℕ) (s s' : State f) (status : NtStatus)
      → nt_success (set_multi_string_property f blacklisted_device_instance_paths first s.world).0
        ≡ true
      → set_blacklist f first s ≡ some (status, s')
      → nt_success status ≡ false
      → nt_success (set_multi_string_property f blacklisted_device_instance_paths second s'.world).0
        ≡ true
      → (s'.control.blacklist ≡ none) × (set_blacklist f second s' ≡ none)
  unfolding set_blacklist reload_blacklist
  set_blacklist_twice first second s s' status w h k w' =
      let written = set_multi_string_property f blacklisted_device_instance_paths first s.world in
      let gone =
        create_collection_for_property-failed f blacklisted_device_instance_paths
          (f.delete_collection written.1) in
      let stale : s'.control.blacklist ≡ none = ground (arith, gone) in (stale, ground arith)
