-- ===== src/Driver/Access/Verdict.antt =====
-- Exactly who is denied a device.
use hid_hide.Prelude.{
  map, ℕ, ◌≡◌, refl, Bool, true, false, not, Option, none, some, List, [], WideString, arith, ◌==◌,
  if◌then◌else◌, Bool-cases, inl, inr, ◌&&◌, ◌++◌, ◌∷◌,
}
use hid_hide.Driver.Status.{nt_success, access_denied, is_process_in_job}
use hid_hide.Driver.ProcessTree.{Tree, Entry, lookup}
use hid_hide.Driver.Processes.{process_handle_to_process_id, check_full_image_name}
use hid_hide.Driver.Processes.Cache.{IsCoherent, is_listed, verdict, check_full_image_name_lem}
use hid_hide.Driver.Blacklist.{TextRoutines, blacklisted}
use hid_hide.Driver.Blacklist.Verdict.{is_hidden, blacklisted-held}
use hid_hide.Driver.Session.{SessionEntry, held}
use hid_hide.Driver.Framework.{Framework}
use hid_hide.Driver.Control.{State, ControlContext, whitelisted_first}
use hid_hide.Driver.Access.{
  system_pid, Answer, answer, whitelisted, completed, Opening, session_id, forward, judge,
  on_device_file_create,
}

-- Is the application of a process on the whitelist? A process that is not registered is not.
abbrev pub is_trusted : TextRoutines → List WideString → Option Entry → Bool
is_trusted t whitelist none = false
is_trusted t whitelist (some e) = is_listed t.same whitelist e.full_image_name

-- The policy: a device is denied to a process that is not the system's, while the service is
-- active, if the device is on a blacklist for the session, and the application is not on the
-- whitelist; or is on it, if the whitelist is inverted.
abbrev pub is_denied :
    {f : Framework}
    → TextRoutines
    → List WideString
    → List WideString
    → List SessionEntry
    → WideString
    → Opening
    → State f
    → Bool
is_denied t filters whitelist entries path o s =
    not (process_handle_to_process_id o.handle == system_pid)
    && (s.control.is_active
        && (is_hidden t filters entries path (session_id o.session)
            && (if s.control.is_inverse
                then is_trusted t whitelist
                    (lookup s.process_tree (process_handle_to_process_id o.handle))
                else not (
                    is_trusted t whitelist
                      (lookup s.process_tree (process_handle_to_process_id o.handle))))))

module _ (f : Framework) where
  verdict_trusted :
      (t : TextRoutines) (whitelist : List WideString) (known : Option Entry)
      → is_process_in_job (verdict t.same whitelist known) ≡ is_trusted t whitelist known
  verdict_trusted t whitelist none = refl
  verdict_trusted t whitelist (some e) = ground arith

  granted_lem :
      (t : TextRoutines) (whitelist : List WideString) (inverse : Bool) (tree : Tree) (handle : ℕ)
      → IsCoherent t.same whitelist tree
      → (answer inverse (check_full_image_name t.same whitelist tree handle)).granted ≡ (
          if inverse
          then not (is_trusted t whitelist (lookup tree (process_handle_to_process_id handle)))
          else is_trusted t whitelist (lookup tree (process_handle_to_process_id handle)))
  granted_lem t whitelist inverse tree handle c =
      let known = lookup tree (process_handle_to_process_id handle) in
      let facts = check_full_image_name_lem t.same whitelist tree handle c in
      rw (facts.0, verdict_trusted t whitelist known)

  whitelisted_live :
      (t : TextRoutines) (whitelist : List WideString) (control : ControlContext) (tree : Tree)
      (handle : ℕ)
      → control.whitelist ≡ some whitelist
      → whitelisted t control tree handle
        ≡ some (answer control.is_inverse (check_full_image_name t.same whitelist tree handle))
  unfolding whitelisted
  whitelisted_live t whitelist control tree handle h = ground arith

  -- The state after a judgement.
  judged : Opening → State f → Answer → State f
  judged o s a = record s {
    process_tree = a.tree;
    events =
        if a.granted && not a.cache_hit
        then s.events
          ++ (whitelisted_first (process_handle_to_process_id o.handle) (session_id o.session) ∷ [])
        else s.events;
  }

  judge_lem :
      (o : Opening) (s : State f) (a : Answer)
      → nt_success o.memory_created ≡ true
      → judge f o s (some a)
        ≡ some (if a.granted then forward o else completed access_denied, judged o s a)
  unfolding judge judged
  judge_lem o s a hm = elim (Bool-cases a.cache_hit) [
    | inl e ↦ rw (e, judge) refl
    | inr e ↦ rw (e, hm, judge) refl
  ]

  -- The outcome is the policy's, with or without a cached evaluation, and the cache stays current:
  -- a request is completed with STATUS_ACCESS_DENIED when the policy denies, and handed on as
  -- `forward` says otherwise. This holds while both collections live, the session blacklist is a list
  -- of entries, and the trace buffer can be created.
  pub on_device_file_create_lem :
      (t : TextRoutines) (filters whitelist : List WideString) (entries : List SessionEntry)
      (path : WideString) (o : Opening) (s : State f)
      → s.control.blacklist ≡ some filters
      → s.control.whitelist ≡ some whitelist
      → s.control.session_blacklist ≡ map held entries
      → nt_success o.memory_created ≡ true
      → IsCoherent t.same whitelist s.process_tree
      → (s' : State f) × (on_device_file_create f t path o s
          ≡ some (
            if is_denied t filters whitelist entries path o s
                then completed access_denied
                else forward o,
            s',
          ))
        × IsCoherent t.same whitelist s'.process_tree
        × (s'.control ≡ s.control)
  unfolding on_device_file_create
  on_device_file_create_lem t filters whitelist entries path o s hb hw hs hm c =
      elim (Bool-cases (process_handle_to_process_id o.handle == system_pid)) [
        | inl e ↦ (s, ground arith, c, refl)
        | inr e ↦ elim (Bool-cases s.control.is_active) [
          | inr g ↦ (s, ground arith, c, refl)
          | inl g ↦
              let seen : blacklisted t filters s.control.session_blacklist path
                    (session_id o.session)
                  ≡ some (is_hidden t filters entries path (session_id o.session)) =
                rw hs (blacklisted-held t filters entries path (session_id o.session)) in
              elim (Bool-cases (is_hidden t filters entries path (session_id o.session))) [
                | inr h ↦ (s, ground (arith, seen), c, refl)
                | inl h ↦
                    let a =
                      answer s.control.is_inverse
                        (check_full_image_name t.same whitelist s.process_tree o.handle) in
                    let policy =
                      granted_lem t whitelist s.control.is_inverse s.process_tree o.handle c in
                    (
                      judged o s a,
                      ground (
                        arith,
                        seen,
                        whitelisted_live t whitelist s.control s.process_tree o.handle hw,
                        judge_lem o s a hm,
                        policy,
                      ),
                      unfold judged in
                          (check_full_image_name_lem t.same whitelist s.process_tree o.handle c).2,
                      unfold judged in refl,
                    )
              ]
        ]
      ]
