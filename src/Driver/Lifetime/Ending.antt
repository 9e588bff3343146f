-- ===== src/Driver/Lifetime/Ending.antt =====
-- What remains of a process that ended.
use hid_hide.Prelude.{
  map, List, some, refl, ℕ, ◌≡◌, true, false, not, none, keep, arith, ◌==◌, if◌then◌else◌,
}
use hid_hide.Driver.ProcessTree.{lookup}
use hid_hide.Driver.ProcessTree.Order.{IsOrdered}
use hid_hide.Driver.ProcessTree.Lookup.{delete_node_lem}
use hid_hide.Driver.Processes.{process_handle_to_process_id, process_id_unregister}
use hid_hide.Driver.Session.{SessionEntry, held}
use hid_hide.Driver.Session.Cleanup.{owned_by, cleanup_for_pid_lem}
use hid_hide.Driver.Framework.{Framework}
use hid_hide.Driver.Lifetime.{Machine, session_blacklist_cleanup, on_system_process_change}

module _ {f : Framework} where
  -- When a process ends while the control device is there and the session blacklist is a list of
  -- entries, its registration is removed and that of every other process id stays, and the session
  -- blacklist loses exactly the entries of the process.
  pub on_system_process_change_lem :
      (m : Machine f) (handle pid : ℕ) (entries : List SessionEntry)
      → IsOrdered m.state.process_tree
      → m.is_present ≡ true
      → m.state.control.session_blacklist ≡ map held entries
      → (m' : Machine f) × (on_system_process_change handle false m ≡ some m')
        × (lookup m'.state.process_tree pid ≡ (
            if pid == process_handle_to_process_id handle
            then none
            else lookup m.state.process_tree pid))
        × (m'.state.control.session_blacklist
            ≡ map held (keep (λ sbe. not (owned_by handle sbe)) entries))
  unfolding on_system_process_change session_blacklist_cleanup process_id_unregister
  on_system_process_change_lem m handle pid entries s p h =
      let tree = (process_id_unregister m.state.process_tree handle).1 in
      let kept = map held (keep (λ sbe. not (owned_by handle sbe)) entries) in
      let control = record (m.state.control) { session_blacklist = kept } in
      (
        record m { state = record (m.state) { process_tree = tree; control = control } },
        rw (p, session_blacklist_cleanup, h, cleanup_for_pid_lem handle entries) refl,
        ground (
          arith,
          delete_node_lem m.state.process_tree (process_handle_to_process_id handle) pid s,
        ),
        refl,
      )
