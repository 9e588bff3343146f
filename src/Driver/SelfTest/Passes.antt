-- ===== src/Driver/SelfTest/Passes.antt =====
-- The test of the tree succeeds whenever the pool does.
use hid_hide.Prelude.{ℕ, ◌≡◌, true, none, List, [], ◌∷◌}
use hid_hide.Driver.Status.{nt_success}
use hid_hide.Driver.ProcessTree.{Tree, Entry, empty, Allocation, insert_node, lookup}

-- The pool and the string routines succeed for every node.
abbrev pub AllAllocate : (ℕ → Allocation) → Type 0
AllAllocate answers =
    (i : ℕ)
    → ((answers i).allocated ≡ true)
      × (nt_success (answers i).copied ≡ true)
      × (nt_success (answers i).initialised ≡ true)

abbrev fresh : ℕ → Entry
fresh pid = record { pid = pid; full_image_name = []; evaluation_cache = empty }

abbrev insert_all : List ℕ → Tree → Tree
insert_all [] tree = tree
insert_all (pid ∷ pids) tree = insert_all pids (insert_node tree (fresh pid)).1

-- Each process id is unknown when its turn comes.
abbrev IsFresh : List ℕ → Tree → Type 0
IsFresh [] tree = Unit
IsFresh (pid ∷ pids) tree = (lookup tree pid ≡ none) × IsFresh pids (insert_node tree (fresh pid)).1
