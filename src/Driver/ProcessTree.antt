-- ===== src/Driver/ProcessTree.antt =====
-- HidHide/src/Config.c, the Bst functions: the binary tree that maps a process id to the full
-- image name of its executable. A pointer to a node is the tree that hangs there, NULL is `leaf`,
-- and a write through a pointer to a pointer is the new tree that a function returns.
-- A function that calls ExFreePoolWithTag also returns the nodes freed, in their order.
pub mod Order
pub mod Lookup
pub mod Entries
use hid_hide.Prelude.{
  ℕ, ◌+◌, compare, Ordering, Bool, Option, none, some, List, [], ◌∷◌, ◌++◌, WideString,
  if◌then◌else◌,
}
use hid_hide.Driver.Status.{
  NtStatus, success, process_in_job, process_not_in_job, already_initialized, invalid_parameter,
  no_memory, nt_success,
}

-- EvaluationCacheEmpty, EvaluationCacheFound, EvaluationCacheNotFound
pub data EvaluationCache : Type 0 where
  empty found not_found : EvaluationCache

-- The payload of a PROCESSIDTREE. `fullImageName` and the UNICODE_STRING that refers to it are
-- one text.
pub record Entry : Type 0 where
  pub pid : ℕ
  pub full_image_name : WideString
  pub evaluation_cache : EvaluationCache

pub data Tree : Type 0 where
  leaf : Tree
  node : Tree → Entry → Tree → Tree

-- The outcome of a change: the status, the nodes freed and the new tree.
pub record Change : Type 0 where
  pub status : NtStatus
  pub freed : List Entry
  pub tree : Tree

unfoldable pub insert_node : Tree → Entry → NtStatus × Tree
insert_node leaf n = (success, node leaf n leaf)
insert_node (node l e r) n = elim (compare n.pid e.pid) [
  | Ordering.lt ↦ ((insert_node l n).0, node (insert_node l n).1 e r)
  | Ordering.gt ↦ ((insert_node r n).0, node l e (insert_node r n).1)
  | Ordering.eq ↦ (already_initialized, node l e r)
]

-- BstInsert with the validation of its two pointers, `none` for NULL.
unfoldable pub bst_insert : Option Tree → Option Entry → NtStatus × Option Tree
unfolding insert_node
bst_insert none n = (invalid_parameter, none)
bst_insert (some t) none = (invalid_parameter, some t)
bst_insert (some t) (some n) = ((insert_node t n).0, some (insert_node t n).1)

-- The loop that finds the lowest node of the right branch and attaches the left tree to it.
unfoldable pub attach_lowest : Tree → Tree → Tree
attach_lowest left leaf = left
attach_lowest left (node leaf e r) = node left e r
attach_lowest left (node (node ll le lr) e r) = node (attach_lowest left (node ll le lr)) e r

-- What takes the place of a matched node: the three cases of BstDelete.
unfoldable pub detach : Tree → Tree → Tree
unfolding attach_lowest
detach leaf right = right
detach (node ll le lr) leaf = node ll le lr
detach (node ll le lr) (node rl re rr) = attach_lowest (node ll le lr) (node rl re rr)

unfoldable pub delete_node : Tree → ℕ → Change
unfolding detach
delete_node leaf pid = record { status = process_not_in_job; freed = []; tree = leaf }
delete_node (node l e r) pid = elim (compare pid e.pid) [
  | Ordering.lt ↦ record (delete_node l pid) { tree = node (delete_node l pid).tree e r }
  | Ordering.gt ↦ record (delete_node r pid) { tree = node l e (delete_node r pid).tree }
  | Ordering.eq ↦ record { status = process_in_job; freed = e ∷ []; tree = detach l r }
]

unfoldable pub lookup : Tree → ℕ → Option Entry
lookup leaf pid = none
lookup (node l e r) pid = elim (compare e.pid pid) [
  | Ordering.lt ↦ lookup r pid
  | Ordering.gt ↦ lookup l pid
  | Ordering.eq ↦ some e
]

-- BstAddCount: the count is passed by reference.
unfoldable pub add_count : Tree → ℕ → ℕ
add_count leaf count = count
add_count (node l e r) count = add_count r (add_count l (count + 1))

-- BstCleanup: both subtrees are cleaned up before the node is freed.
unfoldable pub cleanup : Tree → List Entry × Tree
cleanup leaf = ([], leaf)
cleanup (node l e r) = ((cleanup l).0 ++ ((cleanup r).0 ++ (e ∷ [])), leaf)

unfoldable pub flush_evaluation_cache : Tree → Tree
flush_evaluation_cache leaf = leaf
flush_evaluation_cache (node l e r) =
    node (flush_evaluation_cache l) (record e { evaluation_cache = empty })
      (flush_evaluation_cache r)

-- What the pool and the string routines answer to one call of BstNewNode.
pub record Allocation : Type 0 where
  pub allocated : Bool
  pub copied : NtStatus
  pub initialised : NtStatus

-- BstNewNode. The copy keeps the text, as STRSAFE_NO_TRUNCATION makes a text that does not fit
-- a failure.
unfoldable pub new_node : Allocation → ℕ → WideString → NtStatus × Option Entry
new_node a pid name =
    if a.allocated
    then (if nt_success a.copied
        then (if nt_success a.initialised then (success, some made) else (a.initialised, none))
        else (a.copied, none))
    else (no_memory, none)
  where
    made : Entry
    made = record { pid = pid; full_image_name = name; evaluation_cache = empty }
