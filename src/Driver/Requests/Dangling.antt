-- ===== src/Driver/Requests/Dangling.antt =====
-- What a request that adds entries to the session blacklist leaves behind.
use hid_hide.Prelude.{
  ℕ, suc, ◌<◌, ◌≡◌, sym, ap, ◌∙◌, true, none, some, List, [], ◌∷◌, ◌++◌, map, All, length, arith,
  WideString,
}
use mathlib.Core.List.{append-nil}
use hid_hide.Driver.Status.{success, nt_success}
use hid_hide.Driver.MultiString.Layout.{multi_string}
use hid_hide.Client.MultiString.RoundTrip.{IsText}
use hid_hide.Driver.Session.{
  SessionEntry, Link, held, local_head, ListRoutines, splice, Built, build_entries, cleanup_for_pid,
  drain,
}
use hid_hide.Driver.Session.Build.{AllSucceed, entry_of, build_entries-multi_string}
use hid_hide.Driver.Session.Cleanup.{dangling_lem}
use hid_hide.Driver.Framework.{Framework}
use hid_hide.Driver.Control.{State}
use hid_hide.Driver.Requests.{Request, Reply, commit_entries, on_add_session_blacklist}

splice_lem :
    (lists : ListRoutines) (list : List Link) (sbe : SessionEntry) (entries : List SessionEntry)
    → splice lists list (sbe ∷ entries) ≡ list ++ (local_head ∷ map held (sbe ∷ entries))
unfolding splice
splice_lem lists list sbe entries = lists.appended list (local_head ∷ held sbe ∷ map held entries)

module _ (f : Framework) where
  commit_entries-splice :
      (lists : ListRoutines) (q : Request) (s : State f) (built : Built) (r : Reply f)
      → commit_entries f lists q s (some built) ≡ some r
      → nt_success r.status ≡ true
      → r.state.control ≡ record (s.control) {
        session_blacklist = splice lists s.control.session_blacklist built.entries;
      }
  unfolding commit_entries
  commit_entries-splice lists q s built r h k = ground arith

  on_add_session_blacklist-commits :
      (lists : ListRoutines) (q : Request) (s : State f) (r : Reply f)
      → on_add_session_blacklist f lists q s ≡ some r
      → nt_success r.status ≡ true
      → commit_entries f lists q s
          (build_entries (suc (length q.characters)) q.answers q.caller_pid q.characters success [])
        ≡ some r
  unfolding on_add_session_blacklist
  on_add_session_blacklist-commits lists q s r h k = ground arith

  -- A request with one text or more that succeeds puts an entry of each text on the session
  -- blacklist, in their order, behind the list head of its own stack frame, and changes no other
  -- setting. From then on, neither the clean-up for a process nor the drain at driver unload can
  -- walk the list: both read the stack frame that is gone.
  pub on_add_session_blacklist_lem :
      (lists : ListRoutines) (q : Request) (s : State f) (r : Reply f) (list : List SessionEntry)
      (text : WideString) (texts : List WideString) (pid : ℕ)
      → s.control.session_blacklist ≡ map held list
      → q.characters ≡ multi_string (text ∷ texts)
      → All IsText (text ∷ texts)
      → AllSucceed q.answers
      → on_add_session_blacklist f lists q s ≡ some r
      → nt_success r.status ≡ true
      → (r.state.control ≡ record (s.control) {
        session_blacklist =
            map held list ++ (local_head ∷ map held (map (entry_of q.caller_pid) (text ∷ texts)));
      })
        × (cleanup_for_pid pid r.state.control.session_blacklist ≡ none)
        × (drain r.state.control.session_blacklist ≡ none)
  on_add_session_blacklist_lem lists q s r list text texts pid e c t a h k =
      let entries = map (entry_of q.caller_pid) (text ∷ texts) in
      let built : Built = record { status = success; entries = entries } in
      let long : length (multi_string (text ∷ texts) ++ []) < suc (length q.characters) =
        rw (append-nil (multi_string (text ∷ texts)), c) (omega arith) in
      let run : build_entries (suc (length q.characters)) q.answers q.caller_pid q.characters
            success []
          ≡ some built =
        ap
          (λ (x : List ℕ).
            build_entries (suc (length q.characters)) q.answers q.caller_pid x success [])
          (c ∙ sym (append-nil (multi_string (text ∷ texts))))
        ∙ build_entries-multi_string (suc (length q.characters)) q.answers q.caller_pid
            (text ∷ texts) [] [] a t long in
      let committed = rw run at (on_add_session_blacklist-commits lists q s r h k) in
      let spliced : splice lists s.control.session_blacklist entries
          ≡ map held list ++ (local_head ∷ map held entries) =
        rw e (
          splice_lem lists (map held list) (entry_of q.caller_pid text)
            (map (entry_of q.caller_pid) texts)) in
      let control =
        commit_entries-splice lists q s built r committed k
        ∙ (λ i. record (s.control) { session_blacklist = spliced i }) in
      let (cleaned, drained) = dangling_lem pid list (map held entries) in
      (control, rw control cleaned, rw control drained)
