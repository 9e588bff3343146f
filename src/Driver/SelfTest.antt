-- ===== src/Driver/SelfTest.antt =====
-- HidHide/src/Config.c, HidHideVerifyInternalConsistency: the test of the tree of processes that
-- the driver runs when it is loaded.
pub mod Passes
use hid_hide.Prelude.{
  ℕ, ◌+◌, Bool, true, false, not, Option, none, some, List, [], ◌∷◌, WideString, ◌==◌,
  if◌then◌else◌,
}
use hid_hide.Driver.Status.{
  NtStatus, success, unsuccessful, nt_success, is_process_in_job, is_process_not_in_job,
  is_already_initialized,
}
use hid_hide.Driver.ProcessTree.{
  Tree, leaf, node, Entry, Allocation, new_node, insert_node, lookup, add_count, delete_node,
  cleanup,
}

-- s_testPattern
abbrev pub test_pattern : List ℕ
test_pattern = 5 ∷ 11 ∷ 15 ∷ 10 ∷ 8 ∷ 9 ∷ 3 ∷ 4 ∷ 1 ∷ 2 ∷ []

abbrev pub is_leaf : Tree → Bool
is_leaf leaf = true
is_leaf (node l e r) = false

abbrev pub is_found : Option Entry → Bool
is_found none = false
is_found (some e) = true

-- A test that is made when the status is still a success.
abbrev pub next : NtStatus → Bool → NtStatus
next status ok = if nt_success status then (if ok then success else unsuccessful) else status

-- The tests of one round, once the node is made and inserted; `again` is the second insertion.
unfoldable pub inserted : Tree → ℕ → NtStatus → NtStatus
inserted tree pid again =
    next (next (next success (not (is_leaf tree))) (is_found (lookup tree pid)))
      (is_already_initialized again)

-- One round: the tests and the tree after it. The text of the node is empty. A node that cannot
-- be inserted is freed.
unfoldable pub test_node : Tree → ℕ → NtStatus × Option Entry → NtStatus × Tree
test_node tree pid (status, none) = (status, tree)
test_node tree pid (status, some n) =
    let tree' = (insert_node tree n).1 in
    if nt_success (insert_node tree n).0
    then (inserted tree' pid (insert_node tree' n).0, (insert_node tree' n).1)
    else ((insert_node tree n).0, tree')

abbrev pub round : Allocation → ℕ → Tree → NtStatus × Tree
round a pid tree =
    if is_found (lookup tree pid)
    then (unsuccessful, tree)
    else test_node tree pid (new_node a pid [])

-- The loop over the test pattern, with the pool's answers numbered by its rounds.
unfoldable pub test_insertions : (ℕ → Allocation) → ℕ → List ℕ → Tree → NtStatus × Tree
test_insertions answers index [] tree = (success, tree)
test_insertions answers index (pid ∷ pids) tree =
    let rest = test_insertions answers (index + 1) pids (round (answers index) pid tree).1 in
    if nt_success (round (answers index) pid tree).0 then rest else round (answers index) pid tree

-- Is a branch there, with that number of nodes?
abbrev pub has_count : Tree → ℕ → Bool
has_count leaf n = false
has_count (node l e r) n = add_count (node l e r) 0 == n

abbrev pub left_of : Tree → Tree
left_of leaf = leaf
left_of (node l e r) = l

abbrev pub right_of : Tree → Tree
right_of leaf = leaf
right_of (node l e r) = r

-- The tests on the tree without its root, and the release of the nodes if they succeed.
unfoldable pub test_deleted : NtStatus → Tree → NtStatus × Tree
test_deleted status tree =
    let counted = next (next status (has_count (left_of tree) 7)) (has_count (right_of tree) 1) in
    if nt_success counted
    then (next counted (is_leaf (cleanup tree).1), (cleanup tree).1)
    else (counted, tree)

-- The two deletions of the process id 5.
unfoldable pub test_deletions : NtStatus → Tree → NtStatus × Tree
unfolding test_deleted
test_deletions status tree =
    let first = delete_node tree 5 in
    let second = delete_node first.tree 5 in
    if nt_success status
    then (if is_process_in_job first.status
        then test_deleted (next success (is_process_not_in_job second.status)) second.tree
        else (unsuccessful, first.tree))
    else (status, tree)

unfoldable pub test_counts : NtStatus × Tree → NtStatus × Tree
unfolding test_deletions
test_counts (status, tree) =
    test_deletions (next (next status (has_count (left_of tree) 4)) (has_count (right_of tree) 5))
      tree

-- The status, and the tree that is left in memory.
unfoldable pub verify_internal_consistency : (ℕ → Allocation) → NtStatus × Tree
unfolding test_insertions test_counts
verify_internal_consistency answers = test_counts (test_insertions answers 0 test_pattern leaf)
