-- ===== src/Driver/ProcessTree/Order.antt =====
-- The search-tree invariant of HidHide/src/Config.c, and that its changes keep it.
use hid_hide.Prelude.{ℕ, ◌<◌, arith}
use hid_hide.Driver.ProcessTree.{
  Tree, leaf, node, Entry, insert_node, attach_lowest, detach, delete_node, flush_evaluation_cache,
}

-- Every process id of the tree satisfies `P`.
abbrev pub AllIds : (ℕ → Type 0) → Tree → Type 0
AllIds P leaf = Unit
AllIds P (node l e r) = AllIds P l × P e.pid × AllIds P r

-- Lower process ids stand to the left, higher ones to the right, and none stands twice.
abbrev pub IsOrdered : Tree → Type 0
IsOrdered leaf = Unit
IsOrdered (node l e r) =
    AllIds (λ k. k < e.pid) l × AllIds (λ k. e.pid < k) r × IsOrdered l × IsOrdered r

pub AllIds-imp : {P Q : ℕ → Type 0} → ((k : ℕ) → P k → Q k) → (t : Tree) → AllIds P t → AllIds Q t
AllIds-imp f leaf a = tt
AllIds-imp f (node l e r) a = (AllIds-imp f l a.0, f e.pid a.1, AllIds-imp f r a.2)

pub AllIds-insert_node :
    (P : ℕ → Type 0) (t : Tree) (n : Entry) → P n.pid → AllIds P t → AllIds P (insert_node t n).1
unfolding insert_node
AllIds-insert_node P leaf n p a = (tt, p, tt)
AllIds-insert_node P (node l e r) n p a =
    ground (arith, AllIds-insert_node P l n, AllIds-insert_node P r n)

-- BstInsert keeps the tree ordered, whatever it answers.
pub insert_node-IsOrdered : (t : Tree) (n : Entry) → IsOrdered t → IsOrdered (insert_node t n).1
unfolding insert_node
insert_node-IsOrdered leaf n s = (tt, tt, tt, tt)
insert_node-IsOrdered (node l e r) n s = ground (
  arith,
  insert_node-IsOrdered l n,
  insert_node-IsOrdered r n,
  AllIds-insert_node (λ k. k < e.pid) l n,
  AllIds-insert_node (λ k. e.pid < k) r n,
)

pub AllIds-attach_lowest :
    (P : ℕ → Type 0) (l t : Tree) → AllIds P l → AllIds P t → AllIds P (attach_lowest l t)
unfolding attach_lowest
AllIds-attach_lowest P l leaf a b = a
AllIds-attach_lowest P l (node leaf e r) a b = (a, b.1, b.2)
AllIds-attach_lowest P l (node (node ll le lr) e r) a b =
    (AllIds-attach_lowest P l (node ll le lr) a b.0, b.1, b.2)

attach_lowest-IsOrdered :
    (k : ℕ) (l t : Tree)
    → AllIds (λ x. x < k) l
    → AllIds (λ x. k < x) t
    → IsOrdered l
    → IsOrdered t
    → IsOrdered (attach_lowest l t)
unfolding attach_lowest
attach_lowest-IsOrdered k l leaf a b s u = s
attach_lowest-IsOrdered k l (node leaf e r) a b s u =
    (AllIds-imp (λ x h. let c : k < e.pid = b.1 in omega arith) l a, u.1, s, u.3)
attach_lowest-IsOrdered k l (node (node ll le lr) e r) a b s u = (
  AllIds-attach_lowest (λ x. x < e.pid) l (node ll le lr)
      (AllIds-imp (λ x h. let c : k < e.pid = b.1 in omega arith) l a) u.0,
  u.1,
  attach_lowest-IsOrdered k l (node ll le lr) a b.0 s u.2,
  u.3,
)

detach-IsOrdered :
    (l : Tree) (e : Entry) (r : Tree) → IsOrdered (node l e r) → IsOrdered (detach l r)
unfolding detach
detach-IsOrdered leaf e r s = s.3
detach-IsOrdered (node ll le lr) e leaf s = s.2
detach-IsOrdered (node ll le lr) e (node rl re rr) s =
    attach_lowest-IsOrdered e.pid (node ll le lr) (node rl re rr) s.0 s.1 s.2 s.3

pub AllIds-detach : (P : ℕ → Type 0) (l r : Tree) → AllIds P l → AllIds P r → AllIds P (detach l r)
unfolding detach
AllIds-detach P leaf r a b = b
AllIds-detach P (node ll le lr) leaf a b = a
AllIds-detach P (node ll le lr) (node rl re rr) a b =
    AllIds-attach_lowest P (node ll le lr) (node rl re rr) a b

pub AllIds-delete_node :
    (P : ℕ → Type 0) (t : Tree) (pid : ℕ) → AllIds P t → AllIds P (delete_node t pid).tree
unfolding delete_node
AllIds-delete_node P leaf pid a = tt
AllIds-delete_node P (node l e r) pid a =
    ground (arith, AllIds-delete_node P l pid, AllIds-delete_node P r pid, AllIds-detach P l r)

-- BstDelete keeps the tree ordered, in each of its three ways to detach a node.
pub delete_node-IsOrdered : (t : Tree) (pid : ℕ) → IsOrdered t → IsOrdered (delete_node t pid).tree
unfolding delete_node
delete_node-IsOrdered leaf pid s = tt
delete_node-IsOrdered (node l e r) pid s = ground (
  arith,
  delete_node-IsOrdered l pid,
  delete_node-IsOrdered r pid,
  detach-IsOrdered l e r,
  AllIds-delete_node (λ k. k < e.pid) l pid,
  AllIds-delete_node (λ k. e.pid < k) r pid,
)

AllIds-flush : (P : ℕ → Type 0) (t : Tree) → AllIds P t → AllIds P (flush_evaluation_cache t)
unfolding flush_evaluation_cache
AllIds-flush P leaf a = tt
AllIds-flush P (node l e r) a = (AllIds-flush P l a.0, a.1, AllIds-flush P r a.2)

pub flush_evaluation_cache-IsOrdered :
    (t : Tree) → IsOrdered t → IsOrdered (flush_evaluation_cache t)
unfolding flush_evaluation_cache
flush_evaluation_cache-IsOrdered leaf s = tt
flush_evaluation_cache-IsOrdered (node l e r) s = (
  AllIds-flush (λ k. k < e.pid) l s.0,
  AllIds-flush (λ k. e.pid < k) r s.1,
  flush_evaluation_cache-IsOrdered l s.2,
  flush_evaluation_cache-IsOrdered r s.3,
)
