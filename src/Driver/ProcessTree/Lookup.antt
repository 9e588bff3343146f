-- ===== src/Driver/ProcessTree/Lookup.antt =====
-- What BstLookup answers after a change of the tree.
use hid_hide.Prelude.{
  ℕ, ◌<◌, ◌≡◌, refl, ◌≢◌, Option, none, some, arith, ◌==◌, if◌then◌else◌, ltb, Bool-cases, inl, inr,
  List, [], ◌∷◌,
}
use hid_hide.Driver.Status.{
  NtStatus, success, process_in_job, process_not_in_job, already_initialized,
}
use hid_hide.Driver.ProcessTree.{
  Tree, leaf, node, Entry, empty, insert_node, attach_lowest, detach, delete_node, lookup,
  flush_evaluation_cache,
}
use hid_hide.Driver.ProcessTree.Order.{AllIds, AllIds-imp, IsOrdered}

-- An entry found has the process id that was asked for.
pub lookup-pid : (t : Tree) (pid : ℕ) {e : Entry} → lookup t pid ≡ some e → e.pid ≡ pid
unfolding lookup
lookup-pid leaf pid h = cc
lookup-pid (node l e r) pid {e = x} h =
    ground (arith, lookup-pid l pid {e = x}, lookup-pid r pid {e = x})

-- The answer to the registration of a process id for which `o` is known.
abbrev pub insert_status : Option Entry → NtStatus
insert_status none = success
insert_status (some e) = already_initialized

abbrev pub first_registered : Option Entry → Entry → Entry
first_registered none n = n
first_registered (some e) n = e

insert_node-status : (t : Tree) (n : Entry) → (insert_node t n).0 ≡ insert_status (lookup t n.pid)
unfolding lookup insert_node
insert_node-status leaf n = refl
insert_node-status (node l e r) n = ground (arith, insert_node-status l n, insert_node-status r n)

lookup-insert_node_self :
    (t : Tree) (n : Entry)
    → lookup (insert_node t n).1 n.pid ≡ some (first_registered (lookup t n.pid) n)
unfolding lookup insert_node
lookup-insert_node_self leaf n = ground arith
lookup-insert_node_self (node l e r) n =
    ground (arith, lookup-insert_node_self l n, lookup-insert_node_self r n)

lookup-insert_node_ne :
    (t : Tree) (n : Entry) (pid : ℕ) → pid ≢ n.pid → lookup (insert_node t n).1 pid ≡ lookup t pid
unfolding lookup insert_node
lookup-insert_node_ne leaf n pid h = ground arith
lookup-insert_node_ne (node l e r) n pid h =
    ground (arith, lookup-insert_node_ne l n pid h, lookup-insert_node_ne r n pid h)

-- BstInsert registers a process id that is not registered and refuses one that is; either way
-- the process id then reads as its first registration, and every other one as before.
pub insert_node_lem :
    (t : Tree) (n : Entry) (pid : ℕ)
    → ((insert_node t n).0 ≡ insert_status (lookup t n.pid))
      × (lookup (insert_node t n).1 pid
          ≡ (if pid == n.pid then some (first_registered (lookup t n.pid) n) else lookup t pid))
insert_node_lem t n pid = (
  insert_node-status t n,
  elim (Bool-cases (pid == n.pid)) [
    | inl e ↦ let same : pid ≡ n.pid = ground arith in rw e (rw same (lookup-insert_node_self t n))
    | inr e ↦ rw e (lookup-insert_node_ne t n pid (ground arith))
  ],
)

-- A refused node leaves the tree as it was, node for node.
pub insert_node_refused :
    (t : Tree) (n : Entry) {e : Entry}
    → lookup t n.pid ≡ some e
    → insert_node t n ≡ (already_initialized, t)
unfolding lookup insert_node
insert_node_refused leaf n h = cc
insert_node_refused (node l e r) n {e = x} h =
    ground (arith, insert_node_refused l n {e = x}, insert_node_refused r n {e = x})

-- A process id that stands nowhere in the tree is not found.
pub lookup_absent : (t : Tree) (pid : ℕ) → AllIds (λ k. k ≢ pid) t → lookup t pid ≡ none
unfolding lookup
lookup_absent leaf pid a = refl
lookup_absent (node l e r) pid a = ground (arith, lookup_absent l pid, lookup_absent r pid)

lookup_above : (t : Tree) (k pid : ℕ) → AllIds (λ x. x < k) t → ¬ (pid < k) → lookup t pid ≡ none
lookup_above t k pid a h = lookup_absent t pid (AllIds-imp (λ x c e. omega arith) t a)

lookup_below : (t : Tree) (k pid : ℕ) → AllIds (λ x. k < x) t → ¬ (k < pid) → lookup t pid ≡ none
lookup_below t k pid a h = lookup_absent t pid (AllIds-imp (λ x c e. omega arith) t a)

-- The left tree, hung under the lowest node of the right one, is found below the threshold `k`,
-- and the right one elsewhere.
lookup-attach_lowest :
    (k : ℕ) (l t : Tree) (pid : ℕ)
    → AllIds (λ x. x < k) l
    → AllIds (λ x. k < x) t
    → lookup (attach_lowest l t) pid ≡ (if ltb pid k then lookup l pid else lookup t pid)
unfolding lookup attach_lowest
lookup-attach_lowest k l leaf pid a b = ground (arith, lookup_above l k pid a)
lookup-attach_lowest k l (node leaf e r) pid a b =
    ground (arith, lookup_above l k pid a, lookup_below r k pid b.2)
lookup-attach_lowest k l (node (node ll le lr) e r) pid a b =
    ground (arith, lookup-attach_lowest k l (node ll le lr) pid a b.0, lookup_below r k pid b.2)

lookup-detach :
    (l : Tree) (e : Entry) (r : Tree) (pid : ℕ)
    → IsOrdered (node l e r)
    → lookup (detach l r) pid ≡ (if ltb pid e.pid then lookup l pid else lookup r pid)
unfolding detach
lookup-detach leaf e r pid s =
    ground (arith, lookup_below r e.pid pid s.1, lookup_absent leaf pid tt)
lookup-detach (node ll le lr) e leaf pid s =
    ground (arith, lookup_above (node ll le lr) e.pid pid s.0, lookup_absent leaf pid tt)
lookup-detach (node ll le lr) e (node rl re rr) pid s =
    lookup-attach_lowest e.pid (node ll le lr) (node rl re rr) pid s.0 s.1

-- The answer to the removal of a process id for which `o` is known, and the node that it frees.
abbrev pub delete_status : Option Entry → NtStatus
delete_status none = process_not_in_job
delete_status (some e) = process_in_job

abbrev pub freed_by : Option Entry → List Entry
freed_by none = []
freed_by (some e) = e ∷ []

delete_node-status :
    (t : Tree) (pid : ℕ)
    → ((delete_node t pid).status ≡ delete_status (lookup t pid))
      × ((delete_node t pid).freed ≡ freed_by (lookup t pid))
unfolding lookup delete_node
delete_node-status leaf pid = (refl, refl)
delete_node-status (node l e r) pid =
    ground (arith, delete_node-status l pid, delete_node-status r pid)

lookup-delete_node :
    (t : Tree) (pid q : ℕ)
    → IsOrdered t
    → lookup (delete_node t pid).tree q ≡ (if q == pid then none else lookup t q)
unfolding lookup delete_node
lookup-delete_node leaf pid q s = ground arith
lookup-delete_node (node l e r) pid q s = ground (
  arith,
  lookup-delete_node l pid q,
  lookup-delete_node r pid q,
  lookup-detach l e r q s,
  lookup_above l e.pid q s.0,
  lookup_below r e.pid q s.1,
)

-- BstDelete frees the node of the process id and no other: the process id is then unknown, and
-- every other one reads as before. A process id that is not registered is answered so.
pub delete_node_lem :
    (t : Tree) (pid q : ℕ)
    → IsOrdered t
    → ((delete_node t pid).status ≡ delete_status (lookup t pid))
      × ((delete_node t pid).freed ≡ freed_by (lookup t pid))
      × (lookup (delete_node t pid).tree q ≡ (if q == pid then none else lookup t q))
delete_node_lem t pid q s =
    ((delete_node-status t pid).0, (delete_node-status t pid).1, lookup-delete_node t pid q s)

-- The entry as BstFlushEvaluationCache leaves it.
abbrev pub flushed : Option Entry → Option Entry
flushed none = none
flushed (some e) = some (record e { evaluation_cache = empty })

-- A flush forgets every evaluation and nothing else.
pub lookup-flush_evaluation_cache :
    (t : Tree) (pid : ℕ) → lookup (flush_evaluation_cache t) pid ≡ flushed (lookup t pid)
unfolding lookup flush_evaluation_cache
lookup-flush_evaluation_cache leaf pid = refl
lookup-flush_evaluation_cache (node l e r) pid =
    ground (arith, lookup-flush_evaluation_cache l pid, lookup-flush_evaluation_cache r pid)
