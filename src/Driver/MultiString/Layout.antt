-- ===== src/Driver/MultiString/Layout.antt =====
-- What the buffer holds after HidHideCollectionToMultiString.
use hid_hide.Prelude.{
  ℕ, ◌+◌, ◌-◌, ◌≤◌, ◌<◌, ◌≡◌, refl, sym, ap, ◌∙◌, true, false, none, some, List, [], ◌∷◌, ◌++◌,
  length, length-append, length-drop, drop-append, drop-drop, take, drop, take_all, leb, ltb,
  WideString, arith,
}
use mathlib.Core.List.{append_assoc}
use hid_hide.Driver.Status.{success, buffer_too_small}
use hid_hide.Driver.MultiString.{
  StringCopy, max_cch, write, needed_size, copy_items, finish, collection_to_multi_string,
}

-- The texts of a multi-string, each with its terminator.
abbrev pub terminated : List WideString → List ℕ
terminated [] = []
terminated (s ∷ items) = s ++ (0 ∷ terminated items)

-- A multi-string: the terminated texts and one more terminator.
abbrev pub multi_string : List WideString → List ℕ
multi_string items = terminated items ++ (0 ∷ [])

pub needed_size_lem :
    (items : List WideString) (n : ℕ) → needed_size items n ≡ n + length (terminated items)
unfolding needed_size
needed_size_lem [] n = omega arith
needed_size_lem (s ∷ items) n =
    omega (arith, needed_size_lem items (n + length s + 1), length-append s (0 ∷ terminated items))

-- A write right behind a prefix of the buffer.
write_at :
    (done tail s : List ℕ) (pos : ℕ)
    → pos ≡ length done
    → length s ≤ length tail
    → write (done ++ tail) pos s ≡ some (done ++ (s ++ drop (length s) tail))
unfolding write
write_at done tail s pos e h = rw (fits, front, back)
  where
    fits : leb (pos + length s) (length (done ++ tail)) ≡ true
    fits = ground (arith, length-append done tail)

    front : take pos (done ++ tail) ≡ done
    front = rw e (take_all done tail)

    back : drop (pos + length s) (done ++ tail) ≡ drop (length s) tail
    back = drop-append done tail (length s) (pos + length s) (omega arith)

pub length-terminated :
    (s : WideString) (items : List WideString)
    → length (terminated (s ∷ items)) ≡ length s + 1 + length (terminated items)
length-terminated s items = omega (arith, length-append s (0 ∷ terminated items))

abbrev pub terminate : WideString → List ℕ
terminate s = s ++ (0 ∷ [])

pub length-terminate : (s : WideString) → length (terminate s) ≡ length s + 1
length-terminate s = omega (arith, length-append s (0 ∷ []))

-- One round of the second loop, started behind a prefix.
copy_items_step :
    (c : StringCopy) (s : WideString) (items : List WideString) (done tail : List ℕ) (pos size : ℕ)
    → pos ≡ length done
    → size ≡ length tail
    → size ≤ max_cch
    → length s < size
    → copy_items c (s ∷ items) (done ++ tail) pos size
      ≡ copy_items c items
          ((done ++ terminate s) ++ drop (length (terminate s)) tail)
          (pos + length s + 1)
          (size - length s - 1)
unfolding copy_items
copy_items_step c s items done tail pos size e f m h =
    rw (c.copy_fits size s h m, copy_items) (rw (written, copy_items))
  where
    written :
        write (done ++ tail) pos (terminate s)
        ≡ some ((done ++ terminate s) ++ drop (length (terminate s)) tail)
    written =
        write_at done tail (terminate s) pos e (omega (arith, length-terminate s))
        ∙ ap some (sym (append_assoc done (terminate s) (drop (length (terminate s)) tail)))

regroup :
    (s : WideString) (items : List WideString) (done tail : List ℕ)
    → (done ++ terminate s)
        ++ (terminated items ++ drop (length (terminated items)) (drop (length (terminate s)) tail))
      ≡ done ++ (terminated (s ∷ items) ++ drop (length (terminated (s ∷ items))) tail)
regroup s items done tail =
    rw
      (drop-drop (length (terminate s)) (length (terminated items))
        (length (terminated (s ∷ items))) tail
        (omega (arith, length-terminate s, length-terminated s items)))
      (simp append_assoc)

-- The second loop, started behind a prefix: it succeeds, writes the terminated texts there and
-- leaves what follows them.
copy_items_lem :
    (c : StringCopy) (items : List WideString) (done tail : List ℕ) (pos size : ℕ)
    → pos ≡ length done
    → size ≡ length tail
    → size ≤ max_cch
    → length (terminated items) < size
    → copy_items c items (done ++ tail) pos size
      ≡ some (record {
        status = success;
        buffer = done ++ (terminated items ++ drop (length (terminated items)) tail);
        pos = pos + length (terminated items);
      })
copy_items_lem c [] done tail pos size e f m h =
    let same : pos ≡ pos + 0 = omega arith in
    unfold copy_items in
    λ i. some (record { status = success; buffer = done ++ tail; pos = same i })
copy_items_lem c (s ∷ items) done tail pos size e f m h =
    let long : length (terminated (s ∷ items)) ≡ length s + 1 + length (terminated items) =
      length-terminated s items in
    let short : length (terminate s) ≡ length s + 1 = length-terminate s in
    let same : pos + length s + 1 + length (terminated items)
        ≡ pos + length (terminated (s ∷ items)) =
      omega arith in
    copy_items_step c s items done tail pos size e f m (omega arith)
    ∙ copy_items_lem c items (done ++ terminate s) (drop (length (terminate s)) tail)
        (pos + length s + 1) (size - length s - 1) (omega (arith, length-append done (terminate s)))
        (omega (arith, length-drop (length (terminate s)) tail)) (omega arith) (omega arith)
    ∙ (λ i. some (record { status = success; buffer = regroup s items done tail i; pos = same i }))

length-multi_string :
    (items : List WideString) → length (multi_string items) ≡ length (terminated items) + 1
length-multi_string items = length-append (terminated items) (0 ∷ [])

-- The size that the first loop reports is the size of the multi-string.
pub needed_size-multi_string :
    (items : List WideString) → needed_size items 0 + 1 ≡ length (multi_string items)
needed_size-multi_string items = omega (arith, needed_size_lem items 0, length-multi_string items)

write_terminator :
    (items : List WideString) (buffer : List ℕ)
    → length (multi_string items) ≤ length buffer
    → write
        (terminated items ++ drop (length (terminated items)) buffer)
        (length (terminated items))
        (0 ∷ [])
      ≡ some (multi_string items ++ drop (length (multi_string items)) buffer)
write_terminator items buffer h =
    let n : ℕ = length (terminated items) in
    let room : 1 ≤ length (drop n buffer) =
      omega (arith, length-drop n buffer, length-multi_string items) in
    let rest : drop 1 (drop n buffer) ≡ drop (length (multi_string items)) buffer =
      drop-drop n 1 (length (multi_string items)) buffer (length-multi_string items) in
    write_at (terminated items) (drop n buffer) (0 ∷ []) n refl room
    ∙ ap (λ (x : List ℕ). some (terminated items ++ (0 ∷ x))) rest
    ∙ ap some (sym (append_assoc (terminated items) (0 ∷ []) _))

-- A buffer that is large enough, and no larger than the string routines accept, is filled with
-- the multi-string from its start on; what follows stays as it was, and no write is out of bounds.
pub collection_to_multi_string_fits :
    (c : StringCopy) (items : List WideString) (buffer : List ℕ)
    → length (multi_string items) ≤ length buffer
    → length buffer ≤ max_cch
    → collection_to_multi_string c items (some buffer) (length buffer)
      ≡ some (record {
        status = success;
        needed = length (multi_string items);
        buffer = multi_string items ++ drop (length (multi_string items)) buffer;
      })
unfolding collection_to_multi_string
collection_to_multi_string_fits c items buffer h m =
    rw (enough, copied, finish) (rw (last, finish, needed_size-multi_string items))
  where
    enough : ltb (length buffer) (needed_size items 0 + 1) ≡ false
    enough = ground (arith, needed_size-multi_string items)

    same : 0 + length (terminated items) ≡ length (terminated items)
    same = omega arith

    copied :
        copy_items c items buffer 0 (length buffer)
        ≡ some (record {
          status = success;
          buffer = terminated items ++ drop (length (terminated items)) buffer;
          pos = length (terminated items);
        })
    copied =
        copy_items_lem c items [] buffer 0 (length buffer) refl refl m
          (omega (arith, length-multi_string items))
        ∙ (λ i. some (record {
          status = success;
          buffer = terminated items ++ drop (length (terminated items)) buffer;
          pos = same i;
        }))

    last :
        write
          (terminated items ++ drop (length (terminated items)) buffer)
          (length (terminated items))
          (0 ∷ [])
        ≡ some (multi_string items ++ drop (length (multi_string items)) buffer)
    last = write_terminator items buffer h

-- A buffer that is too small is left alone, and the size needed is reported all the same.
pub collection_to_multi_string_short :
    (c : StringCopy) (items : List WideString) (buffer : List ℕ) (size : ℕ)
    → size < length (multi_string items)
    → collection_to_multi_string c items (some buffer) size
      ≡ some (record {
        status = buffer_too_small;
        needed = length (multi_string items);
        buffer = buffer;
      })
unfolding collection_to_multi_string
collection_to_multi_string_short c items buffer size h = rw (short, needed_size-multi_string items)
  where
    short : ltb size (needed_size items 0 + 1) ≡ true
    short = ground (arith, needed_size-multi_string items)

-- Without a buffer only the size is reported.
pub collection_to_multi_string_query :
    (c : StringCopy) (items : List WideString) (size : ℕ)
    → collection_to_multi_string c items none size
      ≡ some (record { status = success; needed = length (multi_string items); buffer = [] })
unfolding collection_to_multi_string
collection_to_multi_string_query c items size = rw (needed_size-multi_string items)
