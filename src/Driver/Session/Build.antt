-- ===== src/Driver/Session/Build.antt =====
-- The entries that one request adds to the session blacklist.
use hid_hide.Prelude.{
  ℕ, zero, suc, ◌+◌, ◌*◌, ◌/◌, ◌%◌, ◌^◌, ◌≤◌, ◌<◌, ◌≡◌, ◌≢◌, refl, sym, ap, ◌∙◌, true, none, some,
  List, [], ◌∷◌, ◌++◌, map, length, length-append, length-drop, take, drop, take_all, drop-append,
  All, ◌==◌, arith, WideString, inl, inr, Bool-cases,
}
use mathlib.Core.List.{append_assoc, append-nil}
use hid_hide.Driver.Status.{NtStatus, success}
use hid_hide.Driver.MultiString.Layout.{multi_string}
use hid_hide.Client.MultiString.RoundTrip.{IsText}
use hid_hide.Driver.Session.{SessionEntry, EntryAllocation, wcsnlen, new_entry, build_entries}

-- A buffer whose last character is NUL.
abbrev pub IsClosed : List ℕ → Type 0
IsClosed [] = Unit
IsClosed (x ∷ []) = x ≡ 0
IsClosed (x ∷ y ∷ s) = IsClosed (y ∷ s)

IsClosed-drop : (n : ℕ) (s : List ℕ) → IsClosed s → IsClosed (drop n s)
IsClosed-drop zero s h = h
IsClosed-drop (suc n) [] h = tt
IsClosed-drop (suc n) (x ∷ []) h = IsClosed-drop n [] tt
IsClosed-drop (suc n) (x ∷ y ∷ s) h = IsClosed-drop n (y ∷ s) h

-- A text in a closed buffer has its terminator within the buffer.
wcsnlen-IsClosed : (x : ℕ) (s : List ℕ) → IsClosed (x ∷ s) → wcsnlen (x ∷ s) < suc (length s)
unfolding wcsnlen
wcsnlen-IsClosed x [] h = ground arith
wcsnlen-IsClosed x (y ∷ s) h = ground (arith, wcsnlen-IsClosed y s h)

-- The answers for which every allocation succeeds.
abbrev pub AllSucceed : (ℕ → EntryAllocation) → Type 0
AllSucceed answers = (i : ℕ) → ((answers i).allocated ≡ true) × ((answers i).created ≡ success)

-- The loop ends within the number of characters, whatever the buffer holds.
pub build_entries_total :
    (fuel : ℕ) (answers : ℕ → EntryAllocation) (caller_pid : ℕ) (todo : List ℕ) (status : NtStatus)
    (local : List SessionEntry)
    → length todo < fuel
    → build_entries fuel answers caller_pid todo status local ≢ none
unfolding build_entries
build_entries_total zero answers caller_pid todo status local h = elim h [ ]
build_entries_total (suc fuel) answers caller_pid [] status local h = ground arith
build_entries_total (suc fuel) answers caller_pid (x ∷ todo) status local h = ground (
  arith,
  length-drop (wcsnlen (x ∷ todo)) todo,
  build_entries_total fuel answers caller_pid (drop (suc (wcsnlen (x ∷ todo))) (x ∷ todo))
      (answers (length local)).created
      (local ++ (new_entry caller_pid (x ∷ todo) (wcsnlen (x ∷ todo)) ∷ [])),
)

-- One round of the loop, with a text that is terminated and no allocation refused.
build_entries_step :
    (fuel : ℕ) (answers : ℕ → EntryAllocation) (caller_pid x : ℕ) (todo : List ℕ)
    (status : NtStatus) (local : List SessionEntry)
    → AllSucceed answers
    → x ≢ 0
    → wcsnlen (x ∷ todo) < suc (length todo)
    → build_entries (suc fuel) answers caller_pid (x ∷ todo) status local
      ≡ build_entries fuel answers caller_pid
          (drop (suc (wcsnlen (x ∷ todo))) (x ∷ todo))
          success
          (local ++ (new_entry caller_pid (x ∷ todo) (wcsnlen (x ∷ todo)) ∷ []))
unfolding build_entries
build_entries_step fuel answers caller_pid x todo status local a n t =
    ground (arith, a (length local))

-- With a closed buffer and no allocation refused, the loop is never stopped by an error: its test
-- for a text without a terminator does not fire.
pub build_entries_succeeds :
    (fuel : ℕ) (answers : ℕ → EntryAllocation) (caller_pid : ℕ) (todo : List ℕ)
    (local : List SessionEntry)
    → AllSucceed answers
    → IsClosed todo
    → length todo < fuel
    → (entries : List SessionEntry) × (build_entries fuel answers caller_pid todo success local
        ≡ some (record { status = success; entries = entries }))
unfolding build_entries
build_entries_succeeds zero answers caller_pid todo local a c h = absurd (omega arith)
build_entries_succeeds (suc fuel) answers caller_pid [] local a c h = (local, refl)
build_entries_succeeds (suc fuel) answers caller_pid (x ∷ todo) local a c h =
    elim (Bool-cases (x == 0)) [
      | inl e ↦ (local, rw (e, build_entries))
      | inr e ↦
          let (entries, run) =
            build_entries_succeeds fuel answers caller_pid
              (drop (suc (wcsnlen (x ∷ todo))) (x ∷ todo))
              (local ++ (new_entry caller_pid (x ∷ todo) (wcsnlen (x ∷ todo)) ∷ [])) a
              (IsClosed-drop (suc (wcsnlen (x ∷ todo))) (x ∷ todo) c)
              (omega (arith, length-drop (wcsnlen (x ∷ todo)) todo)) in
          (
            entries,
            build_entries_step fuel answers caller_pid x todo success local a (ground arith)
                  (wcsnlen-IsClosed x todo c)
                ∙ run,
          )
    ]

wcsnlen-text :
    (s : WideString) (rest : List ℕ)
    → All (λ (x : ℕ). x ≢ 0) s
    → wcsnlen (s ++ (0 ∷ rest)) ≡ length s
unfolding wcsnlen
wcsnlen-text [] rest h = refl
wcsnlen-text (x ∷ s) rest h = ground (arith, wcsnlen-text s rest)

-- The entry that the driver makes of a text: the length of its path is kept in 16 bits.
abbrev pub entry_of : ℕ → WideString → SessionEntry
entry_of caller_pid s = record {
  owner_pid = caller_pid;
  device_instance_path = take (length s * 2 % 2 ^ 16 / 2) s;
}

take-append : (n : ℕ) (s rest : List ℕ) → n ≤ length s → take n (s ++ rest) ≡ take n s
take-append zero s rest h = refl
take-append (suc n) [] rest h = absurd (omega arith)
take-append (suc n) (x ∷ s) rest h = ap (◌∷◌ x) (take-append n s rest (omega arith))

new_entry-text :
    (caller_pid : ℕ) (s : WideString) (rest : List ℕ)
    → new_entry caller_pid (s ++ rest) (length s) ≡ entry_of caller_pid s
unfolding new_entry
new_entry-text caller_pid s rest =
    let path : take (length s * 2 % 2 ^ 16 / 2) (s ++ rest) ≡ take (length s * 2 % 2 ^ 16 / 2) s =
      take-append (length s * 2 % 2 ^ 16 / 2) s rest (omega arith) in
    λ i. record { owner_pid = caller_pid; device_instance_path = path i }

-- A path of at most 32767 characters is kept whole.
pub entry_of_short :
    (caller_pid : ℕ) (s : WideString)
    → length s < 2 ^ 15
    → entry_of caller_pid s ≡ record { owner_pid = caller_pid; device_instance_path = s }
entry_of_short caller_pid s h =
    let long : length s * 2 % 2 ^ 16 / 2 ≡ length s = omega arith in
    let whole : take (length s * 2 % 2 ^ 16 / 2) s ≡ s =
      rw long (ap (take (length s)) (sym (append-nil s)) ∙ take_all s []) in
    λ i. record { owner_pid = caller_pid; device_instance_path = whole i }

build_entries_text :
    (fuel : ℕ) (answers : ℕ → EntryAllocation) (caller_pid x : ℕ) (s : WideString) (rest : List ℕ)
    (local : List SessionEntry)
    → AllSucceed answers
    → All (λ (y : ℕ). y ≢ 0) (x ∷ s)
    → build_entries (suc fuel) answers caller_pid (x ∷ (s ++ (0 ∷ rest))) success local
      ≡ build_entries fuel answers caller_pid rest success
          (local ++ (entry_of caller_pid (x ∷ s) ∷ []))
build_entries_text fuel answers caller_pid x s rest local a t =
    let len : wcsnlen (x ∷ (s ++ (0 ∷ rest))) ≡ length (x ∷ s) = wcsnlen-text (x ∷ s) rest t in
    let behind : drop (suc (length (x ∷ s))) (x ∷ (s ++ (0 ∷ rest))) ≡ rest =
      drop-append (x ∷ s) (0 ∷ rest) 1 (suc (length (x ∷ s))) (omega arith) in
    let entry : new_entry caller_pid (x ∷ (s ++ (0 ∷ rest))) (length (x ∷ s))
        ≡ entry_of caller_pid (x ∷ s) =
      new_entry-text caller_pid (x ∷ s) (0 ∷ rest) in
    build_entries_step fuel answers caller_pid x (s ++ (0 ∷ rest)) success local a t.0
      (omega (arith, len, length-append s (0 ∷ rest)))
    ∙ rw (len, entry)
        (λ i.
          build_entries fuel answers caller_pid (behind i) success
            (local ++ (entry_of caller_pid (x ∷ s) ∷ [])))

-- On a multi-string of texts that are not empty and hold no NUL, with fuel for more rounds than the
-- buffer has characters, and when no allocation from the pool and no WdfStringCreate fails, the
-- loop makes one entry of each text, in their order, and stops at the end of the multi-string,
-- whatever follows there.
pub build_entries-multi_string :
    (fuel : ℕ) (answers : ℕ → EntryAllocation) (caller_pid : ℕ) (strings : List WideString)
    (rest : List ℕ) (local : List SessionEntry)
    → AllSucceed answers
    → All IsText strings
    → length (multi_string strings ++ rest) < fuel
    → build_entries fuel answers caller_pid (multi_string strings ++ rest) success local
      ≡ some (record { status = success; entries = local ++ map (entry_of caller_pid) strings })
build_entries-multi_string zero answers caller_pid strings rest local a t h = absurd (omega arith)
build_entries-multi_string (suc fuel) answers caller_pid [] rest local a t h =
    unfold build_entries in
    ap (λ (l : List SessionEntry). some (record { status = success; entries = l }))
      (sym (append-nil local))
build_entries-multi_string (suc fuel) answers caller_pid ([] ∷ strings) rest local a t h =
    absurd (t.0.0 refl)
build_entries-multi_string (suc fuel) answers caller_pid ((x ∷ s) ∷ strings) rest local a t h =
    let todo : List ℕ = multi_string strings ++ rest in
    let whole : multi_string ((x ∷ s) ∷ strings) ++ rest ≡ x ∷ (s ++ (0 ∷ todo)) =
      simp append_assoc in
    let long : length (multi_string ((x ∷ s) ∷ strings) ++ rest)
        ≡ suc (length s + suc (length todo)) =
      ap length whole ∙ ap suc (length-append s (0 ∷ todo)) in
    rw whole (
      build_entries_text fuel answers caller_pid x s todo local a t.0.1
      ∙ build_entries-multi_string fuel answers caller_pid strings rest
          (local ++ (entry_of caller_pid (x ∷ s) ∷ [])) a t.1 (omega arith)
      ∙ (λ i. some (record {
        status = success;
        entries =
            append_assoc local (entry_of caller_pid (x ∷ s) ∷ [])
              (map (entry_of caller_pid) strings) i;
      })))
