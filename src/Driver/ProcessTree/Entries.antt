-- ===== src/Driver/ProcessTree/Entries.antt =====
-- The nodes of the tree as a list, lowest process id first: what is counted and what is freed.
use mathlib.Core.List.{Perm, append_assoc, append-nil, perm_append_singleton}
use mathlib.Core.List.Perm
use hid_hide.Prelude.{
  ℕ, ◌+◌, ◌≡◌, refl, sym, ap, ◌∙◌, List, [], ◌∷◌, ◌++◌, arith, length, length-append, inl, inr,
  compare-cases,
}
use hid_hide.Driver.ProcessTree.{
  Tree, leaf, node, Entry, attach_lowest, detach, delete_node, add_count, cleanup,
}

abbrev pub entries : Tree → List Entry
entries leaf = []
entries (node l e r) = entries l ++ (e ∷ entries r)

pub entries-attach_lowest : (l t : Tree) → entries (attach_lowest l t) ≡ entries l ++ entries t
unfolding attach_lowest
entries-attach_lowest l leaf = sym (append-nil (entries l))
entries-attach_lowest l (node leaf e r) = refl
entries-attach_lowest l (node (node ll le lr) e r) =
    ap (λ (x : List Entry). x ++ (e ∷ entries r)) (entries-attach_lowest l (node ll le lr))
    ∙ append_assoc (entries l) (entries (node ll le lr)) (e ∷ entries r)

pub entries-detach : (l r : Tree) → entries (detach l r) ≡ entries l ++ entries r
unfolding detach
entries-detach leaf r = refl
entries-detach (node ll le lr) leaf = sym (append-nil (entries (node ll le lr)))
entries-detach (node ll le lr) (node rl re rr) =
    entries-attach_lowest (node ll le lr) (node rl re rr)

-- The second list stands in one place of the first, and the third is what is left without it.
abbrev pub IsRemoval : List Entry → List Entry → List Entry → Type 0
IsRemoval before freed after =
    (xs : List Entry) × (ys : List Entry) × (before ≡ xs ++ (freed ++ ys)) × (after ≡ xs ++ ys)

IsRemoval-left :
    (before freed after rest : List Entry)
    → IsRemoval before freed after
    → IsRemoval (before ++ rest) freed (after ++ rest)
IsRemoval-left before freed after rest (xs, ys, p, q) =
    (xs, ys ++ rest, rw p (simp append_assoc), rw q (simp append_assoc))

IsRemoval-right :
    (before freed after rest : List Entry)
    → IsRemoval before freed after
    → IsRemoval (rest ++ before) freed (rest ++ after)
IsRemoval-right before freed after rest (xs, ys, p, q) =
    (rest ++ xs, ys, rw p (simp append_assoc), rw q (simp append_assoc))

-- What BstDelete frees is taken out of one place of the tree's order, and all other nodes stay, in
-- their order.
pub delete_node-IsRemoval :
    (t : Tree) (pid : ℕ)
    → IsRemoval (entries t) (delete_node t pid).freed (entries (delete_node t pid).tree)
unfolding delete_node
delete_node-IsRemoval leaf pid = ([], [], refl, refl)
delete_node-IsRemoval (node l e r) pid = elim (compare-cases pid e.pid) [
  | inl h ↦
      rw (h, delete_node)
        (IsRemoval-left (entries l) _ _ (e ∷ entries r) (delete_node-IsRemoval l pid))
  | inr (inl h) ↦
      rw (h, delete_node)
        (IsRemoval-right (e ∷ entries r) _ _ (entries l)
          (IsRemoval-right (entries r) _ _ (e ∷ []) (delete_node-IsRemoval r pid)))
  | inr (inr h) ↦ rw (h, delete_node) (entries l, entries r, refl, entries-detach l r)
]

-- BstAddCount adds the number of nodes to the count.
pub add_count_lem : (t : Tree) (count : ℕ) → add_count t count ≡ count + length (entries t)
unfolding add_count
add_count_lem leaf count = omega arith
add_count_lem (node l e r) count = omega (
  arith,
  add_count_lem l (count + 1),
  add_count_lem r (add_count l (count + 1)),
  length-append (entries l) (e ∷ entries r),
)

-- BstCleanup frees each node once and leaves no tree.
pub cleanup_lem : (t : Tree) → Perm (cleanup t).0 (entries t) × ((cleanup t).1 ≡ leaf)
unfolding cleanup
cleanup_lem leaf = (Perm.nil, refl)
cleanup_lem (node l e r) = (
  Perm.trans
      (Perm.append (cleanup_lem l).0
        (Perm.trans (perm_append_singleton e (cleanup r).0) (Perm.cons e (cleanup_lem r).0)))
      Perm.rfl,
  refl,
)
