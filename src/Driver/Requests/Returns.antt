-- ===== src/Driver/Requests/Returns.antt =====
-- A request to a control device in good order is answered.
use hid_hide.Prelude.{
  ◌≢◌, ℕ, suc, ◌/◌, ◌≤◌, ◌≡◌, refl, not, ◌==◌, Option, none, some, List, [], ◌∷◌, map, length,
  arith, WideString, Option-cases, inl, inr,
}
use hid_hide.Driver.Status.{NtStatus, success}
use hid_hide.Driver.MultiString.{StringCopy}
use hid_hide.Driver.Session.{SessionEntry, held, ListRoutines, Built, build_entries}
use hid_hide.Driver.Session.Build.{build_entries_total}
use hid_hide.Driver.Session.Cleanup.{cleanup_for_pid_lem}
use hid_hide.Driver.Framework.{Framework}
use hid_hide.Driver.Control.{
  State, ListRead, get_whitelist, get_blacklist, set_whitelist, set_blacklist, set_active,
  set_inverse,
}
use hid_hide.Driver.Control.Live.{
  get_whitelist_live, get_blacklist_live, set_whitelist_live, set_blacklist_live,
}
use hid_hide.Driver.Requests.{
  Request, ControlCode, get_whitelist_code, set_whitelist_code, get_blacklist_code,
  set_blacklist_code, get_active_code, set_active_code, get_wlinverse_code, set_wlinverse_code,
  add_session_blacklist_code, clr_session_blacklist_code, other_code, Reply, reply_list, reply_set,
  on_get_whitelist, on_set_whitelist, on_get_blacklist, on_set_blacklist, on_get_active,
  on_set_active, on_get_inverse, on_set_inverse, commit_entries, on_add_session_blacklist,
  on_clear_session_blacklist, on_io_device_control, finish_request, evt_io_device_control,
}
use hid_hide.Driver.Requests.Completed.{statuses, evt_io_device_control-completes}

-- Both collections live, the session blacklist is a list of entries, and the buffer of the request
-- has the characters of its output length.
pub record IsReady (f : Framework) (q : Request) (s : State f) : Type 0 where
  pub whitelist : List WideString
  pub whitelist_lives : s.control.whitelist ≡ some whitelist
  pub filters : List WideString
  pub blacklist_lives : s.control.blacklist ≡ some filters
  pub list : List SessionEntry
  pub is_held : s.control.session_blacklist ≡ map held list
  pub covered : q.output_length / 2 ≤ length q.characters

is_some : {A : Type 0} (o : Option A) → (a : A) × (o ≡ some a) → o ≢ none
is_some o (a, e) = λ h. cc

module _ (f : Framework) where
  reply_list-returns : (s : State f) (o : Option (ListRead f)) → o ≢ none → reply_list f s o ≢ none
  unfolding reply_list
  reply_list-returns s none h = absurd (h refl)
  reply_list-returns s (some r) h = ground arith

  reply_set-returns : (n : ℕ) (o : Option (NtStatus × State f)) → o ≢ none → reply_set f n o ≢ none
  unfolding reply_set
  reply_set-returns n none h = absurd (h refl)
  reply_set-returns n (some (status, s)) h = ground arith

  on_get_whitelist-returns :
      (c : StringCopy) (q : Request) (s : State f)
      → q.output_length / 2 ≤ length q.characters
      → on_get_whitelist f c q s ≢ none
  unfolding on_get_whitelist
  on_get_whitelist-returns c q s k =
      let size = get_whitelist_live f c none 0 s tt in
      let whole = get_whitelist_live f c (some q.characters) (q.output_length / 2) s k in
      ground (
        arith,
        reply_list-returns s (get_whitelist f c none 0 s) (is_some _ size),
        reply_list-returns s (get_whitelist f c (some q.characters) (q.output_length / 2) s)
            (is_some _ whole),
      )

  on_get_blacklist-returns :
      (c : StringCopy) (q : Request) (s : State f)
      → q.output_length / 2 ≤ length q.characters
      → on_get_blacklist f c q s ≢ none
  unfolding on_get_blacklist
  on_get_blacklist-returns c q s k =
      let size = get_blacklist_live f c none 0 s tt in
      let whole = get_blacklist_live f c (some q.characters) (q.output_length / 2) s k in
      ground (
        arith,
        reply_list-returns s (get_blacklist f c none 0 s) (is_some _ size),
        reply_list-returns s (get_blacklist f c (some q.characters) (q.output_length / 2) s)
            (is_some _ whole),
      )

  on_set_whitelist-returns :
      (q : Request) (s : State f) (whitelist : List WideString)
      → s.control.whitelist ≡ some whitelist
      → on_set_whitelist f q s ≢ none
  unfolding on_set_whitelist
  on_set_whitelist-returns q s whitelist h = ground (
    arith,
    reply_set-returns q.input_length (set_whitelist f (0 ∷ 0 ∷ []) s)
        (is_some _ (set_whitelist_live f (0 ∷ 0 ∷ []) s whitelist h)),
    reply_set-returns q.input_length (set_whitelist f q.characters s)
        (is_some _ (set_whitelist_live f q.characters s whitelist h)),
  )

  on_set_blacklist-returns :
      (q : Request) (s : State f) (filters : List WideString)
      → s.control.blacklist ≡ some filters
      → on_set_blacklist f q s ≢ none
  unfolding on_set_blacklist
  on_set_blacklist-returns q s filters h = ground (
    arith,
    reply_set-returns q.input_length (set_blacklist f (0 ∷ 0 ∷ []) s)
        (is_some _ (set_blacklist_live f (0 ∷ 0 ∷ []) s filters h)),
    reply_set-returns q.input_length (set_blacklist f q.characters s)
        (is_some _ (set_blacklist_live f q.characters s filters h)),
  )

  on_get_active-returns : (q : Request) (s : State f) → on_get_active f q s ≢ none
  unfolding on_get_active
  on_get_active-returns q s = ground arith

  on_set_active-returns : (q : Request) (s : State f) → on_set_active f q s ≢ none
  unfolding on_set_active
  on_set_active-returns q s =
      let done = set_active f (not (q.first_byte == 0)) s in
      ground (arith, reply_set-returns q.output_length (some done) (λ h. cc))

  on_get_inverse-returns : (q : Request) (s : State f) → on_get_inverse f q s ≢ none
  unfolding on_get_inverse
  on_get_inverse-returns q s = ground arith

  on_set_inverse-returns : (q : Request) (s : State f) → on_set_inverse f q s ≢ none
  unfolding on_set_inverse
  on_set_inverse-returns q s =
      let done = set_inverse f (not (q.first_byte == 0)) s in
      ground (arith, reply_set-returns q.output_length (some done) (λ h. cc))

  commit_entries-returns :
      (lists : ListRoutines) (q : Request) (s : State f) (o : Option Built)
      → o ≢ none
      → commit_entries f lists q s o ≢ none
  unfolding commit_entries
  commit_entries-returns lists q s none h = absurd (h refl)
  commit_entries-returns lists q s (some built) h = ground arith

  on_add_session_blacklist-returns :
      (lists : ListRoutines) (q : Request) (s : State f)
      → on_add_session_blacklist f lists q s ≢ none
  unfolding on_add_session_blacklist
  on_add_session_blacklist-returns lists q s = ground (
    arith,
    commit_entries-returns lists q s
        (build_entries (suc (length q.characters)) q.answers q.caller_pid q.characters success [])
        (build_entries_total (suc (length q.characters)) q.answers q.caller_pid q.characters success
          [] (omega arith)),
  )

  on_clear_session_blacklist-returns :
      (q : Request) (s : State f) (list : List SessionEntry)
      → s.control.session_blacklist ≡ map held list
      → on_clear_session_blacklist f q s ≢ none
  unfolding on_clear_session_blacklist
  on_clear_session_blacklist-returns q s list h =
      rw (h, on_clear_session_blacklist, cleanup_for_pid_lem q.caller_pid list) (ground arith)

  on_io_device_control-returns :
      (c : StringCopy) (lists : ListRoutines) (code : ControlCode) (q : Request) (s : State f)
      → IsReady f q s
      → on_io_device_control f c lists code q s ≢ none
  unfolding on_io_device_control
  on_io_device_control-returns c lists get_whitelist_code q s k =
      on_get_whitelist-returns c q s k.covered
  on_io_device_control-returns c lists set_whitelist_code q s k =
      on_set_whitelist-returns q s k.whitelist k.whitelist_lives
  on_io_device_control-returns c lists get_blacklist_code q s k =
      on_get_blacklist-returns c q s k.covered
  on_io_device_control-returns c lists set_blacklist_code q s k =
      on_set_blacklist-returns q s k.filters k.blacklist_lives
  on_io_device_control-returns c lists get_active_code q s k = on_get_active-returns q s
  on_io_device_control-returns c lists set_active_code q s k = on_set_active-returns q s
  on_io_device_control-returns c lists get_wlinverse_code q s k = on_get_inverse-returns q s
  on_io_device_control-returns c lists set_wlinverse_code q s k = on_set_inverse-returns q s
  on_io_device_control-returns c lists add_session_blacklist_code q s k =
      on_add_session_blacklist-returns lists q s
  on_io_device_control-returns c lists clr_session_blacklist_code q s k =
      on_clear_session_blacklist-returns q s k.list k.is_held
  on_io_device_control-returns c lists other_code q s k = λ h. cc

  finish_request-returns :
      (o : Option (Reply f)) → o ≢ none → (r : Reply f) × (finish_request f o ≡ some r)
  unfolding finish_request
  finish_request-returns none h = absurd (h refl)
  finish_request-returns (some x) h = elim (Option-cases (finish_request f (some x))) [
    | inr (r, e) ↦ (r, e)
    | inl e ↦ absurd (ground arith)
  ]

  -- A request is answered and completed exactly once, with the status that its handler returned,
  -- whatever its code, its lengths and what the framework and the pool answer, while both
  -- collections live, the session blacklist is a list of entries, and the buffer is as long as the
  -- output length says.
  pub evt_io_device_control-returns :
      (c : StringCopy) (lists : ListRoutines) (code : ControlCode) (q : Request) (s : State f)
      → IsReady f q s
      → (r : Reply f) × (evt_io_device_control f c lists code q s ≡ some r)
        × (statuses r.completions ≡ r.status ∷ [])
  unfolding evt_io_device_control
  evt_io_device_control-returns c lists code q s k =
      let (r, e) =
        finish_request-returns (on_io_device_control f c lists code q s)
          (on_io_device_control-returns c lists code q s k) in
      (r, e, evt_io_device_control-completes f c lists code q s r e)
