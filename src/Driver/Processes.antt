-- ===== src/Driver/Processes.antt =====
-- HidHide/src/Config.c, the functions over the tree of processes. Each runs under the lock from
-- its first look at the tree to its last write.
pub mod Cache
use hid_hide.Prelude.{
  ℕ, ◌%◌, ◌^◌, compare, Ordering, Bool, true, false, Option, none, some, List, WideString, any,
  if◌then◌else◌,
}
use hid_hide.Driver.Status.{NtStatus, success, process_in_job, process_not_in_job, nt_success}
use hid_hide.Driver.ProcessTree.{
  Tree, leaf, node, Entry, EvaluationCache, empty, found, not_found, Allocation, Change, lookup,
  insert_node, delete_node, new_node, cleanup, flush_evaluation_cache,
}

-- PROCESS_HANDLE_TO_PROCESS_ID
abbrev pub process_handle_to_process_id : ℕ → ℕ
process_handle_to_process_id handle = handle % 2 ^ 32

-- The rest of HidHideProcessIdRegister after BstNewNode. A node that cannot be inserted is freed.
unfoldable pub register_node : Tree → NtStatus × Option Entry → NtStatus × Tree
register_node tree (status, none) = (status, tree)
register_node tree (status, some n) =
    if nt_success (insert_node tree n).0
    then (success, (insert_node tree n).1)
    else ((insert_node tree n).0, tree)

-- HidHideProcessIdRegister
unfoldable pub process_id_register : Allocation → Tree → ℕ → WideString → NtStatus × Tree
process_id_register a tree handle name = elim (lookup tree (process_handle_to_process_id handle)) [
  | some e ↦ (process_in_job, tree)
  | none ↦ register_node tree (new_node a (process_handle_to_process_id handle) name)
]

-- HidHideProcessIdUnregister
unfoldable pub process_id_unregister : Tree → ℕ → NtStatus × Tree
process_id_unregister tree handle =
    let change = delete_node tree (process_handle_to_process_id handle) in
    (if nt_success change.status then success else change.status, change.tree)

-- The write to `node->evaluationCache` through the pointer that BstLookup returned.
unfoldable pub set_evaluation_cache : Tree → ℕ → EvaluationCache → Tree
set_evaluation_cache leaf pid cache = leaf
set_evaluation_cache (node l e r) pid cache = elim (compare e.pid pid) [
  | Ordering.lt ↦ node l e (set_evaluation_cache r pid cache)
  | Ordering.gt ↦ node (set_evaluation_cache l pid cache) e r
  | Ordering.eq ↦ node l (record e { evaluation_cache = cache }) r
]

pub record Checked : Type 0 where
  pub status : NtStatus
  pub cache_hit : Bool
  pub tree : Tree

-- The part of the check that follows a successful lookup.
unfoldable pub check_entry :
    (WideString → WideString → Bool) → List WideString → Tree → Entry → Checked
unfolding set_evaluation_cache
check_entry same whitelist tree e = elim e.evaluation_cache [
  | found ↦ record { status = process_in_job; cache_hit = true; tree = tree }
  | not_found ↦ record { status = process_not_in_job; cache_hit = true; tree = tree }
  | empty ↦
      if any (λ name. same name e.full_image_name) whitelist
      then record {
        status = process_in_job;
        cache_hit = false;
        tree = set_evaluation_cache tree e.pid found;
      }
      else record {
        status = process_not_in_job;
        cache_hit = false;
        tree = set_evaluation_cache tree e.pid not_found;
      }
]

-- HidHideProcessIdCheckFullImageNameAgainstWhitelist. `same` is RtlCompareUnicodeString without
-- regard to case.
unfoldable pub check_full_image_name :
    (WideString → WideString → Bool) → List WideString → Tree → ℕ → Checked
check_full_image_name same whitelist tree handle =
    elim (lookup tree (process_handle_to_process_id handle)) [
      | none ↦ record { status = success; cache_hit = false; tree = tree }
      | some e ↦ check_entry same whitelist tree e
    ]

-- HidHideProcessIdsCleanup and HidHideProcessIdsFlushWhitelistEvaluationCache
unfoldable pub process_ids_cleanup : Tree → Tree
process_ids_cleanup tree = (cleanup tree).1

unfoldable pub process_ids_flush : Tree → Tree
process_ids_flush tree = flush_evaluation_cache tree
