-- ===== src/Driver/Requests/Completed.antt =====
-- Every request to the control device is completed once.
use hid_hide.Prelude.{
  ℕ, suc, ◌/◌, not, ◌==◌, ◌≡◌, refl, Option, none, some, List, [], ◌∷◌, ◌++◌, length, arith,
  if◌then◌else◌, Bool-cases, inl, inr, ap, ◌∙◌,
}
use hid_hide.Driver.Status.{NtStatus, nt_success, success}
use hid_hide.Driver.MultiString.{StringCopy}
use hid_hide.Driver.Session.{
  ListRoutines, SessionEntry, Link, cleanup_for_pid, Built, build_entries,
}
use hid_hide.Driver.Framework.{Framework}
use hid_hide.Driver.Control.{
  State, ListRead, get_whitelist, get_blacklist, set_whitelist, set_blacklist, set_active,
  set_inverse,
}
use hid_hide.Driver.Requests.{
  Request, ControlCode, get_whitelist_code, set_whitelist_code, get_blacklist_code,
  set_blacklist_code, get_active_code, set_active_code, get_wlinverse_code, set_wlinverse_code,
  add_session_blacklist_code, clr_session_blacklist_code, other_code, Completion, Reply,
  reply_clear, reply_list, reply_set, on_get_whitelist, on_set_whitelist, on_get_blacklist,
  on_set_blacklist, on_get_active, on_set_active, on_get_inverse, on_set_inverse, commit_entries,
  on_add_session_blacklist, on_clear_session_blacklist, on_io_device_control, finish_request,
  evt_io_device_control,
}

-- The statuses with which a request was completed.
abbrev pub statuses : List Completion → List NtStatus
statuses [] = []
statuses (c ∷ completions) = c.status ∷ statuses completions

module _ (f : Framework) where
  abbrev made : Option (Reply f) → List NtStatus
  made none = []
  made (some r) = statuses r.completions

  -- What a handler must have completed: its own status if that is a success, else nothing.
  abbrev due : Option (Reply f) → List NtStatus
  due none = []
  due (some r) = if nt_success r.status then r.status ∷ [] else []

  made-reply_list :
      (s : State f) (r : Option (ListRead f)) → made (reply_list f s r) ≡ due (reply_list f s r)
  unfolding reply_list
  made-reply_list s none = refl
  made-reply_list s (some r) = elim (Bool-cases (nt_success r.status)) [
    | inl e ↦ rw (e, reply_list) refl
    | inr e ↦ rw (e, reply_list) (rw e)
  ]

  made-reply_set :
      (n : ℕ) (r : Option (NtStatus × State f)) → made (reply_set f n r) ≡ due (reply_set f n r)
  unfolding reply_set
  made-reply_set n none = refl
  made-reply_set n (some (status, s)) = elim (Bool-cases (nt_success status)) [
    | inl e ↦ rw (e, reply_set) refl
    | inr e ↦ rw (e, reply_set) (rw e)
  ]

  made-commit_entries :
      (lists : ListRoutines) (q : Request) (s : State f) (b : Option Built)
      → made (commit_entries f lists q s b) ≡ due (commit_entries f lists q s b)
  unfolding commit_entries
  made-commit_entries lists q s none = refl
  made-commit_entries lists q s (some b) = elim (Bool-cases (nt_success b.status)) [
    | inl e ↦ rw (e, commit_entries) refl
    | inr e ↦ rw (e, commit_entries) (rw e)
  ]

  made-on_get_whitelist :
      (c : StringCopy) (q : Request) (s : State f)
      → made (on_get_whitelist f c q s) ≡ due (on_get_whitelist f c q s)
  unfolding on_get_whitelist
  made-on_get_whitelist c q s = ground (
    arith,
    made-reply_list s (get_whitelist f c none 0 s),
    made-reply_list s (get_whitelist f c (some q.characters) (q.output_length / 2) s),
  )

  made-on_set_whitelist :
      (q : Request) (s : State f) → made (on_set_whitelist f q s) ≡ due (on_set_whitelist f q s)
  unfolding on_set_whitelist
  made-on_set_whitelist q s = ground (
    arith,
    made-reply_set q.input_length (set_whitelist f (0 ∷ 0 ∷ []) s),
    made-reply_set q.input_length (set_whitelist f q.characters s),
  )

  made-on_get_blacklist :
      (c : StringCopy) (q : Request) (s : State f)
      → made (on_get_blacklist f c q s) ≡ due (on_get_blacklist f c q s)
  unfolding on_get_blacklist
  made-on_get_blacklist c q s = ground (
    arith,
    made-reply_list s (get_blacklist f c none 0 s),
    made-reply_list s (get_blacklist f c (some q.characters) (q.output_length / 2) s),
  )

  made-on_set_blacklist :
      (q : Request) (s : State f) → made (on_set_blacklist f q s) ≡ due (on_set_blacklist f q s)
  unfolding on_set_blacklist
  made-on_set_blacklist q s = ground (
    arith,
    made-reply_set q.input_length (set_blacklist f (0 ∷ 0 ∷ []) s),
    made-reply_set q.input_length (set_blacklist f q.characters s),
  )

  made-on_get_active :
      (q : Request) (s : State f) → made (on_get_active f q s) ≡ due (on_get_active f q s)
  unfolding on_get_active
  made-on_get_active q s = ground arith

  made-on_set_active :
      (q : Request) (s : State f) → made (on_set_active f q s) ≡ due (on_set_active f q s)
  unfolding on_set_active
  made-on_set_active q s =
      ground
        (arith, made-reply_set q.output_length (some (set_active f (not (q.first_byte == 0)) s)))

  made-on_get_inverse :
      (q : Request) (s : State f) → made (on_get_inverse f q s) ≡ due (on_get_inverse f q s)
  unfolding on_get_inverse
  made-on_get_inverse q s = ground arith

  made-on_set_inverse :
      (q : Request) (s : State f) → made (on_set_inverse f q s) ≡ due (on_set_inverse f q s)
  unfolding on_set_inverse
  made-on_set_inverse q s =
      ground
        (arith, made-reply_set q.output_length (some (set_inverse f (not (q.first_byte == 0)) s)))

  made-on_add_session_blacklist :
      (lists : ListRoutines) (q : Request) (s : State f)
      → made (on_add_session_blacklist f lists q s) ≡ due (on_add_session_blacklist f lists q s)
  unfolding on_add_session_blacklist
  made-on_add_session_blacklist lists q s = ground (
    arith,
    made-commit_entries lists q s
        (build_entries (suc (length q.characters)) q.answers q.caller_pid q.characters success []),
  )

  made-reply_clear :
      (s : State f) (o : Option (List SessionEntry × List Link))
      → made (reply_clear f s o) ≡ due (reply_clear f s o)
  made-reply_clear s none = refl
  made-reply_clear s (some (freed, kept)) = refl

  made-on_clear_session_blacklist :
      (q : Request) (s : State f)
      → made (on_clear_session_blacklist f q s) ≡ due (on_clear_session_blacklist f q s)
  unfolding on_clear_session_blacklist
  made-on_clear_session_blacklist q s =
      ground (arith, made-reply_clear s (cleanup_for_pid q.caller_pid s.control.session_blacklist))

  made-on_io_device_control :
      (c : StringCopy) (lists : ListRoutines) (code : ControlCode) (q : Request) (s : State f)
      → made (on_io_device_control f c lists code q s)
        ≡ due (on_io_device_control f c lists code q s)
  unfolding on_io_device_control
  made-on_io_device_control c lists get_whitelist_code q s = made-on_get_whitelist c q s
  made-on_io_device_control c lists set_whitelist_code q s = made-on_set_whitelist q s
  made-on_io_device_control c lists get_blacklist_code q s = made-on_get_blacklist c q s
  made-on_io_device_control c lists set_blacklist_code q s = made-on_set_blacklist q s
  made-on_io_device_control c lists get_active_code q s = made-on_get_active q s
  made-on_io_device_control c lists set_active_code q s = made-on_set_active q s
  made-on_io_device_control c lists get_wlinverse_code q s = made-on_get_inverse q s
  made-on_io_device_control c lists set_wlinverse_code q s = made-on_set_inverse q s
  made-on_io_device_control c lists add_session_blacklist_code q s =
      made-on_add_session_blacklist lists q s
  made-on_io_device_control c lists clr_session_blacklist_code q s =
      made-on_clear_session_blacklist q s
  made-on_io_device_control c lists other_code q s = refl

  statuses-append : (xs ys : List Completion) → statuses (xs ++ ys) ≡ statuses xs ++ statuses ys
  statuses-append [] ys = refl
  statuses-append (x ∷ xs) ys = ap (◌∷◌ x.status) (statuses-append xs ys)

  finish_request-made :
      (r : Reply f) (o : Option (Reply f))
      → made o ≡ due o
      → finish_request f o ≡ some r
      → statuses r.completions ≡ r.status ∷ []
  unfolding finish_request
  finish_request-made r none h e = cc
  finish_request-made r (some x) h e = elim (Bool-cases (nt_success x.status)) [
    | inl k ↦
        let same : some x ≡ some r = rw (k, finish_request) at e in
        let one : statuses x.completions ≡ x.status ∷ [] = h ∙ rw k refl in ground arith
    | inr k ↦
        let none_made : statuses x.completions ≡ [] = h ∙ rw k refl in
        let last : Completion = record { status = x.status; information = 0 } in
        let all : statuses (x.completions ++ (last ∷ [])) ≡ x.status ∷ [] =
          statuses-append x.completions (last ∷ []) ∙ rw none_made refl in
        let same : some (record x { completions = x.completions ++ (last ∷ []) }) ≡ some r =
          rw (k, finish_request) at e in
        ground arith
  ]

  -- A request that does not end in a bug check is completed exactly once, whatever its code, its
  -- lengths and the outcome, and with the status that the handler returned.
  pub evt_io_device_control-completes :
      (c : StringCopy) (lists : ListRoutines) (code : ControlCode) (q : Request) (s : State f)
      (r : Reply f)
      → evt_io_device_control f c lists code q s ≡ some r
      → statuses r.completions ≡ r.status ∷ []
  unfolding evt_io_device_control
  evt_io_device_control-completes c lists code q s r e =
      finish_request-made r (on_io_device_control f c lists code q s)
        (made-on_io_device_control c lists code q s) e
