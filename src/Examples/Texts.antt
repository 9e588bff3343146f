-- ===== src/Examples/Texts.antt =====
-- Multi-strings, the session blacklist and the two blacklists on short texts.
use hid_hide.Prelude.{
  ◌++◌, ℕ, ◌≡◌, ◌≢◌, refl, Bool, true, false, none, some, List, [], ◌∷◌, WideString, arith, All,
  ◌-◌, if◌then◌else◌, ◌==◌,
}
use hid_hide.Driver.Status.{success}
use hid_hide.Driver.MultiString.{collection_to_multi_string}
use hid_hide.Driver.MultiString.{Filled}
use hid_hide.Driver.MultiString.Bounds.{collection_to_multi_string_bounds}
use hid_hide.Client.MultiString.{string_list_to_multi_string, multi_string_to_string_list}
use hid_hide.Client.MultiString.RoundTrip.{
  IsText, multi_string_to_string_list-string_list_to_multi_string,
}
use hid_hide.Client.MultiString.Empty.{multi_string_to_string_list-filled}
use hid_hide.Driver.Session.{SessionEntry, ListRoutines, EntryAllocation, build_entries}
use hid_hide.Driver.Session.Build.{build_entries-multi_string, build_entries_total, entry_of}
use hid_hide.Driver.Blacklist.{TextRoutines}
use hid_hide.Examples.Desk.{copier}

-- "ab" and "c"
abbrev pub two_texts : List WideString
two_texts = (97 ∷ 98 ∷ []) ∷ (99 ∷ []) ∷ []

pub two_texts-IsText : All IsText two_texts
two_texts-IsText =
    (((λ e. cc), (omega arith, (omega arith, tt))), (((λ e. cc), (omega arith, tt)), tt))

multi_string_to_string_list-string_list_to_multi_string_example :
    multi_string_to_string_list (string_list_to_multi_string two_texts) ≡ two_texts
multi_string_to_string_list-string_list_to_multi_string_example =
    multi_string_to_string_list-string_list_to_multi_string two_texts two_texts-IsText

-- The empty text in front is lost.
multi_string_to_string_list-filled_example :
    multi_string_to_string_list (string_list_to_multi_string ([] ∷ two_texts)) ≡ two_texts
multi_string_to_string_list-filled_example =
    multi_string_to_string_list-filled ([] ∷ two_texts)
      (tt, ((omega arith, (omega arith, tt)), ((omega arith, tt), tt)))

-- The vector that a client sends for the two texts.
sent : string_list_to_multi_string two_texts ≡ 97 ∷ 98 ∷ 0 ∷ 99 ∷ 0 ∷ 0 ∷ []
unfolding string_list_to_multi_string
sent = refl

-- Seven characters, one more than the two texts need.
abbrev seven : List ℕ
seven = 1 ∷ 2 ∷ 3 ∷ 4 ∷ 5 ∷ 6 ∷ 7 ∷ []

collection_to_multi_string_bounds_example :
    (filled : Filled) × (collection_to_multi_string copier two_texts (some seven) 6 ≡ some filled)
collection_to_multi_string_bounds_example =
    collection_to_multi_string_bounds copier two_texts seven 6 (omega arith)

abbrev pub allocates : ℕ → EntryAllocation
allocates i = record { allocated = true; created = success }

build_entries-multi_string_example :
    build_entries 8 allocates 4 (97 ∷ 98 ∷ 0 ∷ 99 ∷ 0 ∷ 0 ∷ 7 ∷ []) success []
    ≡ some (record {
      status = success;
      entries = entry_of 4 (97 ∷ 98 ∷ []) ∷ entry_of 4 (99 ∷ []) ∷ [];
    })
build_entries-multi_string_example =
    build_entries-multi_string 8 allocates 4 two_texts (7 ∷ []) [] (λ i. (refl, refl))
      two_texts-IsText (omega arith)

build_entries_total_example : build_entries 3 allocates 4 (97 ∷ 98 ∷ []) success [] ≢ none
build_entries_total_example =
    build_entries_total 3 allocates 4 (97 ∷ 98 ∷ []) success [] (omega arith)

abbrev registered : ℕ → WideString → SessionEntry
registered pid path = record { owner_pid = pid; device_instance_path = path }

abbrev pub same_text : WideString → WideString → Bool
same_text [] [] = true
same_text [] (y ∷ t) = false
same_text (x ∷ s) [] = false
same_text (x ∷ s) (y ∷ t) = if x == y then same_text s t else false

-- The first code unit as a decimal digit.
abbrev digit : WideString → ℕ
digit [] = 0
digit (x ∷ s) = x - 48

abbrev pub routines : TextRoutines
routines = record { same = same_text; to_integer = digit }

-- "a", "b!2", "b"
abbrev filters : List WideString
filters = (97 ∷ []) ∷ (98 ∷ 33 ∷ 50 ∷ []) ∷ (98 ∷ []) ∷ []

-- A splice that follows the documentation of the kernel.
abbrev pub list_routines : ListRoutines
list_routines = record {
  append_tail_list = λ list ring. list ++ ring;
  appended = λ list ring. refl;
}
