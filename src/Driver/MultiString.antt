-- ===== src/Driver/MultiString.antt =====
-- HidHide/src/Config.c, HidHideCollectionToMultiString: a collection of texts is written into a
-- caller's buffer as a multi-string, each text with a terminator and one more at the end.
-- A buffer is its UTF-16 code units; `none` for the result is a write outside of the buffer.
pub mod Layout
pub mod Bounds
use hid_hide.Prelude.{
  ℕ, ◌+◌, ◌-◌, ◌≤◌, ◌<◌, ◌≡◌, Bool, true, false, Option, none, some, List, [], ◌∷◌, ◌++◌, length,
  take, drop, leb, ltb, WideString, if◌then◌else◌,
}
use hid_hide.Driver.Status.{NtStatus, success, buffer_too_small, nt_success}

-- RtlStringCchCopyUnicodeStringEx with STRSAFE_NO_TRUNCATION: what it answers for a destination
-- of that many characters. When it succeeds it has written the text and a terminator.
-- NTSTRSAFE_MAX_CCH is the largest destination that it accepts.
abbrev pub max_cch : ℕ
max_cch = 2_147_483_647

pub record StringCopy : Type 0 where
  pub copy_status : ℕ → WideString → NtStatus
  pub copy_fits :
      (size : ℕ) (s : WideString) → length s < size → size ≤ max_cch → copy_status size s ≡ success
  pub copy_overflows :
      (size : ℕ) (s : WideString) → size ≤ length s → nt_success (copy_status size s) ≡ false

-- Store code units at a position of the buffer.
unfoldable pub write : List ℕ → ℕ → List ℕ → Option (List ℕ)
write buffer pos s =
    if leb (pos + length s) (length buffer)
    then some (take pos buffer ++ (s ++ drop (pos + length s) buffer))
    else none

-- The first loop: the size needed for each text, its terminator included.
unfoldable pub needed_size : List WideString → ℕ → ℕ
needed_size [] needed = needed
needed_size (s ∷ items) needed = needed_size items (needed + length s + 1)

-- The outcome of the second loop: `pos` is where `buffer` points to at its end.
pub record Cursor : Type 0 where
  pub status : NtStatus
  pub buffer : List ℕ
  pub pos : ℕ

-- The second loop. `size` is bufferSizeInCharacters: what remains from `pos` on.
unfoldable pub copy_items : StringCopy → List WideString → List ℕ → ℕ → ℕ → Option Cursor
unfolding write
copy_items c [] buffer pos size = some (record { status = success; buffer = buffer; pos = pos })
copy_items c (s ∷ items) buffer pos size = elim (nt_success (c.copy_status size s)) [
  | false ↦ some (record { status = c.copy_status size s; buffer = buffer; pos = pos })
  | true ↦ elim (write buffer pos (s ++ (0 ∷ []))) [
    | none ↦ none
    | some buffer' ↦ copy_items c items buffer' (pos + length s + 1) (size - length s - 1)
  ]
]

pub record Filled : Type 0 where
  pub status : NtStatus
  pub needed : ℕ
  pub buffer : List ℕ

-- The multi-string terminator.
unfoldable pub finish : ℕ → Option Cursor → Option Filled
unfolding write
finish needed none = none
finish needed (some c) = elim (nt_success c.status) [
  | false ↦ some (record { status = c.status; needed = needed; buffer = c.buffer })
  | true ↦ elim (write c.buffer c.pos (0 ∷ [])) [
    | none ↦ none
    | some b ↦ some (record { status = success; needed = needed; buffer = b })
  ]
]

-- `buffer` is `none` for NULL: then only the size is reported.
unfoldable pub collection_to_multi_string :
    StringCopy → List WideString → Option (List ℕ) → ℕ → Option Filled
unfolding needed_size copy_items finish
collection_to_multi_string c items none size =
    some (record { status = success; needed = needed_size items 0 + 1; buffer = [] })
collection_to_multi_string c items (some buffer) size =
    if ltb size (needed_size items 0 + 1)
    then some
        (record { status = buffer_too_small; needed = needed_size items 0 + 1; buffer = buffer })
    else finish (needed_size items 0 + 1) (copy_items c items buffer 0 size)
