-- ===== src/Driver/Session/Cleanup.antt =====
-- What is left of the session blacklist when a process ends or clears its entries.
use hid_hide.Prelude.{
  ℕ, ◌≡◌, refl, Bool, not, none, some, List, [], ◌∷◌, ◌++◌, map, keep, ◌==◌, Bool-cases, inl, inr,
}
use hid_hide.Driver.Session.{SessionEntry, Link, held, local_head, cleanup_for_pid, drain}

abbrev pub owned_by : ℕ → SessionEntry → Bool
owned_by process_id sbe = sbe.owner_pid == process_id

-- Over a list of entries the cleanup frees those of the process and keeps those of the others,
-- each in order.
pub cleanup_for_pid_lem :
    (process_id : ℕ) (list : List SessionEntry)
    → cleanup_for_pid process_id (map held list)
      ≡ some (
        keep (owned_by process_id) list,
        map held (keep (λ sbe. not (owned_by process_id sbe)) list),
      )
unfolding cleanup_for_pid
cleanup_for_pid_lem process_id [] = refl
cleanup_for_pid_lem process_id (sbe ∷ rest) = elim (Bool-cases (sbe.owner_pid == process_id)) [
  | inl e ↦ rw (cleanup_for_pid_lem process_id rest) (rw e refl)
  | inr e ↦ rw (cleanup_for_pid_lem process_id rest) (rw e refl)
]

-- The drain at driver unload frees every entry once.
pub drain_lem : (list : List SessionEntry) → drain (map held list) ≡ some (list, [])
unfolding drain
drain_lem [] = refl
drain_lem (sbe ∷ rest) = rw (drain_lem rest) refl

-- A list with a stack frame's head in it can neither be cleaned up nor drained.
pub dangling_lem :
    (process_id : ℕ) (list : List SessionEntry) (rest : List Link)
    → (cleanup_for_pid process_id (map held list ++ (local_head ∷ rest)) ≡ none)
      × (drain (map held list ++ (local_head ∷ rest)) ≡ none)
unfolding cleanup_for_pid drain
dangling_lem process_id [] rest = (refl, refl)
dangling_lem process_id (sbe ∷ list) rest =
    let (cleaned, drained) = dangling_lem process_id list rest in (rw cleaned refl, rw drained refl)
