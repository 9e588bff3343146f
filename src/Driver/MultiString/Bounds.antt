-- ===== src/Driver/MultiString/Bounds.antt =====
-- HidHideCollectionToMultiString never writes outside of its buffer.
use hid_hide.Prelude.{
  ℕ, zero, suc, ◌+◌, ◌-◌, ◌≤◌, ◌<◌, ◌≡◌, refl, true, some, List, [], ◌∷◌, ◌++◌, length,
  length-append, length-drop, take, drop, leb, ltb, WideString, arith, Bool-cases, inl, inr,
}
use hid_hide.Driver.Status.{success, buffer_too_small, nt_success}
use hid_hide.Driver.MultiString.{
  StringCopy, write, needed_size, Cursor, copy_items, Filled, finish, collection_to_multi_string,
}
use hid_hide.Driver.MultiString.Layout.{
  terminated, terminate, length-terminate, length-terminated, needed_size_lem,
}

length-take : (n : ℕ) (xs : List ℕ) → n ≤ length xs → length (take n xs) ≡ n
length-take zero xs h = refl
length-take (suc n) [] h = absurd (omega arith)
length-take (suc n) (x ∷ xs) h = omega (arith, length-take n xs (omega arith))

-- A write within the buffer leaves its length.
write_fits :
    (buffer : List ℕ) (pos : ℕ) (s : List ℕ)
    → pos + length s ≤ length buffer
    → (b : List ℕ) × (write buffer pos s ≡ some b) × (length b ≡ length buffer)
unfolding write
write_fits buffer pos s h =
    let fits : leb (pos + length s) (length buffer) ≡ true = ground arith in
    (
      take pos buffer ++ (s ++ drop (pos + length s) buffer),
      rw fits refl,
      omega (
        arith,
        length-append (take pos buffer) (s ++ drop (pos + length s) buffer),
        length-append s (drop (pos + length s) buffer),
        length-take pos buffer (omega arith),
        length-drop (pos + length s) buffer,
      ),
    )

-- The second loop, with room for the texts and a terminator: whatever the copies answer, every
-- write is within the buffer and there is room for the terminator behind them.
copy_items_bounds :
    (c : StringCopy) (items : List WideString) (buffer : List ℕ) (pos size : ℕ)
    → length (terminated items) < size
    → pos + size ≤ length buffer
    → (cur : Cursor) × (copy_items c items buffer pos size ≡ some cur)
      × (cur.pos < length cur.buffer)
unfolding copy_items
copy_items_bounds c [] buffer pos size h k = (_, refl, omega arith)
copy_items_bounds c (s ∷ items) buffer pos size h k =
    elim (Bool-cases (nt_success (c.copy_status size s))) [
      | inr e ↦ (
        record { status = c.copy_status size s; buffer = buffer; pos = pos },
        rw (e, copy_items) refl,
        omega arith,
      )
      | inl e ↦
          let long = length-terminated s items in
          let (b, written, same) =
            write_fits buffer pos (terminate s) (omega (arith, length-terminate s, long)) in
          let (cur, run, room) =
            copy_items_bounds c items b (pos + length s + 1) (size - length s - 1)
              (omega (arith, long)) (omega (arith, long, same)) in
          (cur, rw (e, copy_items, written) run, room)
    ]

finish_bounds :
    (needed : ℕ) (cur : Cursor)
    → cur.pos < length cur.buffer
    → (filled : Filled) × (finish needed (some cur) ≡ some filled)
unfolding finish
finish_bounds needed cur h = elim (Bool-cases (nt_success cur.status)) [
  | inr e ↦
      (record { status = cur.status; needed = needed; buffer = cur.buffer }, rw (e, finish) refl)
  | inl e ↦
      let (b, written, same) = write_fits cur.buffer cur.pos (0 ∷ []) (omega arith) in
      (
        record { status = success; needed = needed; buffer = b },
        rw (e, finish) (rw (written, finish) refl),
      )
]

-- With a buffer of at least the size given, no write is out of bounds, whatever the texts are and
-- whatever their copies answer.
pub collection_to_multi_string_bounds :
    (c : StringCopy) (items : List WideString) (buffer : List ℕ) (size : ℕ)
    → size ≤ length buffer
    → (filled : Filled) × (collection_to_multi_string c items (some buffer) size ≡ some filled)
unfolding collection_to_multi_string
collection_to_multi_string_bounds c items buffer size h =
    elim (Bool-cases (ltb size (needed_size items 0 + 1))) [
      | inl e ↦ (
        record { status = buffer_too_small; needed = needed_size items 0 + 1; buffer = buffer },
        rw e refl,
      )
      | inr e ↦
          let enough : length (terminated items) < size = ground (arith, needed_size_lem items 0) in
          let (cur, run, room) = copy_items_bounds c items buffer 0 size enough (omega arith) in
          let (filled, ended) = finish_bounds (needed_size items 0 + 1) cur room in
          (filled, rw (e, run) ended)
    ]
