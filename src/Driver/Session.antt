-- ===== src/Driver/Session.antt =====
-- HidHide/src/Logic.c, the session blacklist: entries that live as long as the process that
-- registered them. The doubly linked LIST_ENTRY list is the list of its entries in order.
pub mod Build
pub mod Cleanup
use hid_hide.Prelude.{
  ℕ, zero, suc, ◌+◌, ◌*◌, ◌/◌, ◌%◌, ◌^◌, Bool, true, false, Option, none, some, List, [], ◌∷◌, ◌++◌,
  length, take, drop, ltb, ◌==◌, ◌≡◌, map, if◌then◌else◌, WideString,
}
use hid_hide.Driver.Status.{
  NtStatus, success, invalid_parameter, insufficient_resources, nt_success,
}

-- SESSION_BLACKLIST_ENTRY
pub record SessionEntry : Type 0 where
  pub owner_pid : ℕ
  pub device_instance_path : WideString

-- What the pool and WdfStringCreate answer for one entry.
pub record EntryAllocation : Type 0 where
  pub allocated : Bool
  pub created : NtStatus

-- The characters before the first NUL, all of them when there is none.
unfoldable pub wcsnlen : List ℕ → ℕ
wcsnlen [] = 0
wcsnlen (x ∷ s) = elim (x == 0) [ true ↦ 0 | false ↦ suc (wcsnlen s) ]

-- The entry made of the `len` characters at `current`. UNICODE_STRING.Length is a USHORT.
unfoldable pub new_entry : ℕ → List ℕ → ℕ → SessionEntry
new_entry caller_pid current len = record {
  owner_pid = caller_pid;
  device_instance_path = take (len * 2 % 2 ^ 16 / 2) current;
}

pub record Built : Type 0 where
  pub status : NtStatus
  pub entries : List SessionEntry

-- The loop that builds the local list. `todo` is the buffer from `current` on, and the answers are
-- numbered by the entries built. `none` means that the fuel ran out.
unfoldable pub build_entries :
    ℕ → (ℕ → EntryAllocation) → ℕ → List ℕ → NtStatus → List SessionEntry → Option Built
build_entries zero answers caller_pid todo status local = none
build_entries (suc fuel) answers caller_pid [] status local =
    some (record { status = status; entries = local })
build_entries (suc fuel) answers caller_pid (x ∷ todo) status local = elim (x == 0) [
  | true ↦ some (record { status = status; entries = local })
  | false ↦ elim (ltb (wcsnlen (x ∷ todo)) (suc (length todo))) [
    | false ↦ some (record { status = invalid_parameter; entries = local })
    | true ↦ elim (answers (length local)).allocated [
      | false ↦ some (record { status = insufficient_resources; entries = local })
      | true ↦ elim (nt_success (answers (length local)).created) [
        | false ↦ some (record { status = (answers (length local)).created; entries = local })
        | true ↦
            build_entries fuel answers caller_pid (drop (suc (wcsnlen (x ∷ todo))) (x ∷ todo))
              (answers (length local)).created
              (local ++ (new_entry caller_pid (x ∷ todo) (wcsnlen (x ∷ todo)) ∷ []))
      ]
    ]
  ]
]

-- A node of the list in the context: an entry, or the list head of a request's stack frame, which
-- is gone when the request has returned.
pub data Link : Type 0 where
  held : SessionEntry → Link
  local_head : Link

-- AppendTailList of the kernel: the nodes of the circular list that its second argument points
-- into, from that node on, come behind those of the first list.
pub record ListRoutines : Type 0 where
  pub append_tail_list : List Link → List Link → List Link
  pub appended : (list ring : List Link) → append_tail_list list ring ≡ list ++ ring

-- The splice of the local list. What is passed to AppendTailList is the local head itself, and
-- the circular list from there on is the head and then the entries.
unfoldable pub splice : ListRoutines → List Link → List SessionEntry → List Link
splice lists list [] = list
splice lists list (sbe ∷ entries) =
    lists.append_tail_list list (local_head ∷ held sbe ∷ map held entries)

abbrev pub sort_out :
    Bool
    → SessionEntry
    → Option (List SessionEntry × List Link)
    → Option (List SessionEntry × List Link)
sort_out is_freed sbe none = none
sort_out is_freed sbe (some (freed, kept)) =
    some (if is_freed then (sbe ∷ freed, kept) else (freed, held sbe ∷ kept))

-- SessionBlacklistCleanupForPid: the entries freed, and those that stay. `none` is a read of a
-- stack frame that is gone.
unfoldable pub cleanup_for_pid : ℕ → List Link → Option (List SessionEntry × List Link)
cleanup_for_pid process_id [] = some ([], [])
cleanup_for_pid process_id (local_head ∷ rest) = none
cleanup_for_pid process_id (held sbe ∷ rest) =
    sort_out (sbe.owner_pid == process_id) sbe (cleanup_for_pid process_id rest)

-- OnControlDeviceContextCleanup: every entry is freed and the list is left empty.
unfoldable pub drain : List Link → Option (List SessionEntry × List Link)
drain [] = some ([], [])
drain (local_head ∷ rest) = none
drain (held sbe ∷ rest) = sort_out true sbe (drain rest)
