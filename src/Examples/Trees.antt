-- ===== src/Examples/Trees.antt =====
-- The tree of processes at the pattern of HidHideVerifyInternalConsistency.
use hid_hide.Prelude.{true, ℕ, ◌≡◌, refl, none, some, List, [], ◌∷◌, arith}
use hid_hide.Driver.Status.{success, process_in_job, already_initialized}
use hid_hide.Driver.ProcessTree.{
  Tree, leaf, Entry, empty, insert_node, delete_node, lookup, add_count,
}
use hid_hide.Driver.ProcessTree.{Allocation}
use hid_hide.Driver.ProcessTree.Order.{IsOrdered}
use hid_hide.Driver.ProcessTree.Lookup.{insert_node_lem, delete_node_lem}

abbrev entry : ℕ → Entry
entry pid = record { pid = pid; full_image_name = []; evaluation_cache = empty }

abbrev insert_all : List ℕ → Tree → Tree
insert_all [] t = t
insert_all (pid ∷ pids) t = insert_all pids (insert_node t (entry pid)).1

-- s_testPattern
abbrev pattern_tree : Tree
unfolding insert_node
pattern_tree = insert_all (5 ∷ 11 ∷ 15 ∷ 10 ∷ 8 ∷ 9 ∷ 3 ∷ 4 ∷ 1 ∷ 2 ∷ []) leaf

pattern_counts : add_count pattern_tree 0 ≡ 10
unfolding pattern_tree add_count
pattern_counts = refl

pattern-IsOrdered : IsOrdered pattern_tree
unfolding pattern_tree
pattern-IsOrdered = omega arith

insert_node_lem_example :
    ((insert_node pattern_tree (entry 8)).0 ≡ already_initialized)
    × (lookup (insert_node pattern_tree (entry 8)).1 8 ≡ some (entry 8))
unfolding pattern_tree lookup
insert_node_lem_example = insert_node_lem pattern_tree (entry 8) 8

delete_node_lem_example :
    ((delete_node pattern_tree 5).status ≡ process_in_job)
    × ((delete_node pattern_tree 5).freed ≡ entry 5 ∷ [])
    × (lookup (delete_node pattern_tree 5).tree 5 ≡ none)
unfolding pattern_tree lookup
delete_node_lem_example = delete_node_lem pattern_tree 5 5 pattern-IsOrdered

abbrev allocates : ℕ → Allocation
allocates i = record { allocated = true; copied = success; initialised = success }
