-- ===== src/Driver/Processes/Cache.antt =====
-- The evaluation cache of the processes agrees with the whitelist.
use hid_hide.Prelude.{
  ℕ, ◌<◌, ◌≡◌, ◌≢◌, refl, ap, subst, ◌∙◌, sym, inl, inr, Bool-cases, Option-cases, Bool, true,
  false, Option, none, some, List, WideString, any, arith, ◌==◌, if◌then◌else◌,
}
use hid_hide.Driver.Status.{NtStatus, nt_success, success, process_in_job, process_not_in_job}
use hid_hide.Driver.ProcessTree.{
  Tree, leaf, node, Entry, EvaluationCache, empty, found, not_found, Allocation, lookup,
  insert_node, new_node,
}
use hid_hide.Driver.ProcessTree.Order.{
  AllIds, IsOrdered, insert_node-IsOrdered, delete_node-IsOrdered, flush_evaluation_cache-IsOrdered,
}
use hid_hide.Driver.ProcessTree.Lookup.{
  insert_node_lem, delete_node_lem, lookup-flush_evaluation_cache, lookup-pid, flushed,
}
use hid_hide.Driver.Processes.{
  process_handle_to_process_id, register_node, process_ids_flush, process_id_register,
  process_id_unregister, set_evaluation_cache, check_entry, check_full_image_name,
}

module _ (same : WideString → WideString → Bool) (whitelist : List WideString) where
  -- Is an image name on the whitelist?
  abbrev pub is_listed : WideString → Bool
  is_listed name = any (λ entry. same entry name) whitelist

  -- What an entry remembers of the whitelist holds of it.
  abbrev pub IsCurrent : EvaluationCache → Bool → Type 0
  IsCurrent empty listed = Unit
  IsCurrent found listed = listed ≡ true
  IsCurrent not_found listed = listed ≡ false

  -- The tree is ordered, and every entry that it answers with is current.
  pub record IsCoherent (tree : Tree) : Type 0 where
    pub ordered : IsOrdered tree
    pub current :
        (pid : ℕ) (e : Entry)
        → lookup tree pid ≡ some e
        → IsCurrent e.evaluation_cache (is_listed e.full_image_name)

new_node_lem :
    (a : Allocation) (pid : ℕ) (name : WideString) (n : Entry)
    → (new_node a pid name).1 ≡ some n
    → (n.pid ≡ pid) × (n.evaluation_cache ≡ empty) × (n.full_image_name ≡ name)
unfolding new_node
new_node_lem a pid name n h = ground arith

AllIds-set :
    (P : ℕ → Type 0) (t : Tree) (pid : ℕ) (c : EvaluationCache)
    → AllIds P t
    → AllIds P (set_evaluation_cache t pid c)
unfolding set_evaluation_cache
AllIds-set P leaf pid c a = tt
AllIds-set P (node l e r) pid c a = ground (arith, AllIds-set P l pid c, AllIds-set P r pid c)

set_evaluation_cache-IsOrdered :
    (t : Tree) (pid : ℕ) (c : EvaluationCache)
    → IsOrdered t
    → IsOrdered (set_evaluation_cache t pid c)
unfolding set_evaluation_cache
set_evaluation_cache-IsOrdered leaf pid c s = tt
set_evaluation_cache-IsOrdered (node l e r) pid c s = ground (
  arith,
  set_evaluation_cache-IsOrdered l pid c,
  set_evaluation_cache-IsOrdered r pid c,
  AllIds-set (λ k. k < e.pid) l pid c,
  AllIds-set (λ k. e.pid < k) r pid c,
)

abbrev with_cache : EvaluationCache → Option Entry → Option Entry
with_cache c none = none
with_cache c (some e) = some (record e { evaluation_cache = c })

lookup-set_self :
    (t : Tree) (pid : ℕ) (c : EvaluationCache)
    → lookup (set_evaluation_cache t pid c) pid ≡ with_cache c (lookup t pid)
unfolding lookup set_evaluation_cache
lookup-set_self leaf pid c = refl
lookup-set_self (node l e r) pid c =
    ground (arith, lookup-set_self l pid c, lookup-set_self r pid c)

lookup-set_ne :
    (t : Tree) (pid q : ℕ) (c : EvaluationCache)
    → q ≢ pid
    → lookup (set_evaluation_cache t pid c) q ≡ lookup t q
unfolding lookup set_evaluation_cache
lookup-set_ne leaf pid q c h = refl
lookup-set_ne (node l e r) pid q c h =
    ground (arith, lookup-set_ne l pid q c h, lookup-set_ne r pid q c h)

module _ (same : WideString → WideString → Bool) (whitelist : List WideString) where
  insert_node-IsCoherent :
      (tree : Tree) (n : Entry)
      → lookup tree n.pid ≡ none
      → n.evaluation_cache ≡ empty
      → IsCoherent same whitelist tree
      → IsCoherent same whitelist (insert_node tree n).1
  insert_node-IsCoherent tree n new fresh c = record {
    ordered = insert_node-IsOrdered tree n c.ordered;
    current = λ q e h. elim (Bool-cases (q == n.pid)) [
      | inl hit ↦
          let answer = (insert_node_lem tree n q).1 in
          let same_entry : n ≡ e = ground arith in
          subst
            (λ (x : Entry).
              IsCurrent same whitelist x.evaluation_cache
                (is_listed same whitelist x.full_image_name))
            same_entry (rw fresh tt)
      | inr miss ↦ let answer = (insert_node_lem tree n q).1 in c.current q e (ground arith)
    ];
  }

  register_node-IsCoherent :
      (a : Allocation) (tree : Tree) (pid : ℕ) (name : WideString) (made : NtStatus × Option Entry)
      → new_node a pid name ≡ made
      → lookup tree pid ≡ none
      → IsCoherent same whitelist tree
      → IsCoherent same whitelist (register_node tree made).1
  unfolding register_node
  register_node-IsCoherent a tree pid name (status, none) h new c = c
  register_node-IsCoherent a tree pid name (status, some n) h new c =
      elim (Bool-cases (nt_success (insert_node tree n).0)) [
        | inr refused ↦ rw refused c
        | inl inserted ↦
            let facts = new_node_lem a pid name n (ap (λ (m : NtStatus × Option Entry). m.1) h) in
            rw inserted (insert_node-IsCoherent tree n (rw (facts.0) new) facts.1 c)
      ]

  -- A registration, whatever the pool answers, keeps the tree ordered and the cache current.
  pub process_id_register-IsCoherent :
      (a : Allocation) (tree : Tree) (handle : ℕ) (name : WideString)
      → IsCoherent same whitelist tree
      → IsCoherent same whitelist (process_id_register a tree handle name).1
  unfolding process_id_register
  process_id_register-IsCoherent a tree handle name c =
      elim (Option-cases (lookup tree (process_handle_to_process_id handle))) [
        | inr (e, known) ↦ rw (known, process_id_register) c
        | inl new ↦
            rw (new, process_id_register)
              (register_node-IsCoherent a tree (process_handle_to_process_id handle) name
                (new_node a (process_handle_to_process_id handle) name) refl new c)
      ]

  -- The removal of a process keeps the tree ordered and the cache current for those that stay.
  pub process_id_unregister-IsCoherent :
      (tree : Tree) (handle : ℕ)
      → IsCoherent same whitelist tree
      → IsCoherent same whitelist (process_id_unregister tree handle).1
  unfolding process_id_unregister
  process_id_unregister-IsCoherent tree handle c = record {
    ordered = delete_node-IsOrdered tree (process_handle_to_process_id handle) c.ordered;
    current = λ q e h. ground (
      arith,
      c.current q e,
      (delete_node_lem tree (process_handle_to_process_id handle) q c.ordered).2,
    );
  }

  -- The verdict on a process, if `o` is known of it.
  abbrev pub verdict : Option Entry → NtStatus
  verdict none = success
  verdict (some e) =
      if is_listed same whitelist e.full_image_name then process_in_job else process_not_in_job

  abbrev pub remembered : Option Entry → Bool
  remembered none = false
  remembered (some e) = elim e.evaluation_cache [ empty ↦ false | _ ↦ true ]

  set-IsCoherent :
      (tree : Tree) (e : Entry) (pid : ℕ) (c : EvaluationCache)
      → lookup tree pid ≡ some e
      → IsCurrent same whitelist c (is_listed same whitelist e.full_image_name)
      → IsCoherent same whitelist tree
      → IsCoherent same whitelist (set_evaluation_cache tree e.pid c)
  set-IsCoherent tree e pid c h k coherent = record {
    ordered = set_evaluation_cache-IsOrdered tree e.pid c coherent.ordered;
    current = λ q x found_x. elim (Bool-cases (q == e.pid)) [
      | inl hit ↦
          let here : lookup (set_evaluation_cache tree e.pid c) e.pid
              ≡ with_cache c (lookup tree e.pid) =
            lookup-set_self tree e.pid c in
          let id : e.pid ≡ pid = lookup-pid tree pid {e = e} h in
          let same_entry : record e { evaluation_cache = c } ≡ x = ground arith in
          subst
            (λ (y : Entry).
              IsCurrent same whitelist y.evaluation_cache
                (is_listed same whitelist y.full_image_name))
            same_entry k
      | inr miss ↦
          coherent.current q x (sym (lookup-set_ne tree e.pid q c (ground arith)) ∙ found_x)
    ];
  }

  check_entry_lem :
      (tree : Tree) (e : Entry) (pid : ℕ) (c : EvaluationCache)
      → e.evaluation_cache ≡ c
      → lookup tree pid ≡ some e
      → IsCoherent same whitelist tree
      → ((check_entry same whitelist tree e).status ≡ verdict (some e))
        × ((check_entry same whitelist tree e).cache_hit ≡ remembered (some e))
        × IsCoherent same whitelist (check_entry same whitelist tree e).tree
  unfolding check_entry
  check_entry_lem tree e pid found k h coherent =
      let now : is_listed same whitelist e.full_image_name ≡ true =
        rw k at (coherent.current pid e h) in
      rw (k, now, check_entry) (refl, refl, coherent)
  check_entry_lem tree e pid not_found k h coherent =
      let now : is_listed same whitelist e.full_image_name ≡ false =
        rw k at (coherent.current pid e h) in
      rw (k, now, check_entry) (refl, refl, coherent)
  check_entry_lem tree e pid empty k h coherent =
      elim (Bool-cases (is_listed same whitelist e.full_image_name)) [
        | inl now ↦
            rw (k, now, check_entry) (refl, refl, set-IsCoherent tree e pid found h now coherent)
        | inr now ↦
            rw (k, now, check_entry)
              (refl, refl, set-IsCoherent tree e pid not_found h now coherent)
      ]

  -- On an ordered tree whose cache is current for the whitelist, the check answers as if there were
  -- no cache, says whether it used it, and leaves the tree ordered and the cache current.
  pub check_full_image_name_lem :
      (tree : Tree) (handle : ℕ)
      → IsCoherent same whitelist tree
      → let checked = check_full_image_name same whitelist tree handle in
        let known = lookup tree (process_handle_to_process_id handle) in
        (checked.status ≡ verdict known)
        × (checked.cache_hit ≡ remembered known)
        × IsCoherent same whitelist checked.tree
  unfolding check_full_image_name
  check_full_image_name_lem tree handle c =
      elim (Option-cases (lookup tree (process_handle_to_process_id handle))) [
        | inl e ↦ rw (e, check_full_image_name) (refl, refl, c)
        | inr (x, e) ↦
            rw (e, check_full_image_name)
              (check_entry_lem tree x (process_handle_to_process_id handle) x.evaluation_cache refl
                e c)
      ]

-- After a flush the cache is current for any whitelist.
pub flush-IsCoherent :
    (same : WideString → WideString → Bool) (old new : List WideString) (tree : Tree)
    → IsCoherent same old tree
    → IsCoherent same new (process_ids_flush tree)
unfolding process_ids_flush
flush-IsCoherent same old new tree c = record {
  ordered = flush_evaluation_cache-IsOrdered tree c.ordered;
  current = λ pid e h.
      flushed_current (lookup tree pid) e (sym (lookup-flush_evaluation_cache tree pid) ∙ h);
}
  where
    flushed_current :
        (o : Option Entry) (e : Entry)
        → flushed o ≡ some e
        → IsCurrent same new e.evaluation_cache (is_listed same new e.full_image_name)
    flushed_current none e h = cc
    flushed_current (some x) e h =
        let same_entry : record x { evaluation_cache = empty } ≡ e = ground arith in
        subst
          (λ (y : Entry).
            IsCurrent same new y.evaluation_cache (is_listed same new y.full_image_name))
          same_entry tt
