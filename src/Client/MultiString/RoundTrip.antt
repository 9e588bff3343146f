-- ===== src/Client/MultiString/RoundTrip.antt =====
-- What a client reads back from a multi-string.
use hid_hide.Prelude.{
  is_empty, ℕ, suc, ◌+◌, ◌-◌, ◌≡◌, ◌≢◌, refl, sym, ap, ◌∙◌, false, List, [], ◌∷◌, ◌++◌, length,
  take, drop, ◌==◌, All, arith, WideString, length-append, take_all, drop-append,
}
use mathlib.Core.List.{append_assoc, append-nil}
use hid_hide.Driver.MultiString.Layout.{terminated, multi_string}
use hid_hide.Client.MultiString.{
  c_str, wcsncpy, append_strings, string_list_to_multi_string, split_loop,
  multi_string_to_string_list,
}

-- A text that a multi-string can hold: not empty, and with no NUL in it.
abbrev pub IsText : WideString → Type 0
IsText s = (s ≢ []) × All (λ (x : ℕ). x ≢ 0) s

c_str_lem : (s : WideString) → All (λ (x : ℕ). x ≢ 0) s → c_str s ≡ s
unfolding c_str
c_str_lem [] h = refl
c_str_lem (x ∷ s) h = ground (arith, c_str_lem s)

wcsncpy_lem : (s : WideString) → All (λ (x : ℕ). x ≢ 0) s → wcsncpy (length s + 1) s ≡ s ++ (0 ∷ [])
unfolding wcsncpy
wcsncpy_lem s h = let one : length s + 1 - length s ≡ 1 = omega arith in rw (c_str_lem s h, one)

append_strings_lem :
    (strings : List WideString) (result : List ℕ)
    → All (λ (s : WideString). All (λ (x : ℕ). x ≢ 0) s) strings
    → append_strings result strings ≡ result ++ terminated strings
unfolding append_strings
append_strings_lem [] result h = sym (append-nil result)
append_strings_lem (s ∷ strings) result h =
    append_strings_lem strings (result ++ wcsncpy (length s + 1) s) h.1
    ∙ rw (wcsncpy_lem s h.0) (simp append_assoc)

-- StringListToMultiString builds the multi-string of texts without a NUL.
pub string_list_to_multi_string_lem :
    (strings : List WideString)
    → All (λ (s : WideString). All (λ (x : ℕ). x ≢ 0) s) strings
    → string_list_to_multi_string strings ≡ multi_string strings
unfolding string_list_to_multi_string
string_list_to_multi_string_lem strings h =
    ap (λ (x : List ℕ). x ++ (0 ∷ [])) (append_strings_lem strings [] h)

-- The loop passes over a text.
pub split_loop_text :
    (v s rest : List ℕ) (index start : ℕ) (result : List WideString)
    → All (λ (x : ℕ). x ≢ 0) s
    → split_loop v (s ++ rest) index start result
      ≡ split_loop v rest (index + length s) start result
unfolding split_loop
split_loop_text v [] rest index start result h =
    let same : index ≡ index + 0 = omega arith in λ i. split_loop v rest (same i) start result
split_loop_text v (x ∷ s) rest index start result h =
    let same : index + 1 + length s ≡ index + suc (length s) = omega arith in
    let other : (x == 0) ≡ false = ground (arith, h.0) in
    rw (other, split_loop) (split_loop_text v s rest (index + 1) start result h.1 ∙ rw same)

is_empty_ne : (s : WideString) → s ≢ [] → is_empty s ≡ false
is_empty_ne [] n = absurd (n refl)
is_empty_ne (x ∷ s) n = refl

-- At the terminator of a text that started behind `done` the text is taken over.
pub split_loop_end :
    (done s rest : List ℕ) (index start : ℕ) (result : List WideString)
    → start ≡ length done
    → index ≡ length done + length s
    → s ≢ []
    → split_loop (done ++ (s ++ (0 ∷ rest))) (0 ∷ rest) index start result
      ≡ split_loop (done ++ (s ++ (0 ∷ rest))) rest (index + 1) (index + 1) (result ++ (s ∷ []))
unfolding split_loop
split_loop_end done s rest index start result p q n = rw (text, is_empty_ne s n)
  where
    here : drop start (done ++ (s ++ (0 ∷ rest))) ≡ s ++ (0 ∷ rest)
    here = drop-append done (s ++ (0 ∷ rest)) 0 start (omega arith)

    long : index - start ≡ length s
    long = omega arith

    text : take (index - start) (drop start (done ++ (s ++ (0 ∷ rest)))) ≡ s
    text = rw (here, long) (take_all s (0 ∷ rest))

-- The loop over the terminated texts, and over the terminator of the multi-string.
split_loop_lem :
    (done : List ℕ) (strings : List WideString) (index start : ℕ) (result : List WideString)
    → All IsText strings
    → start ≡ length done
    → index ≡ length done
    → split_loop (done ++ multi_string strings) (multi_string strings) index start result
      ≡ result ++ strings
unfolding split_loop
split_loop_lem done [] index start result h p q =
    let nothing : index - start ≡ 0 = omega arith in rw nothing (sym (append-nil result))
split_loop_lem done (s ∷ strings) index start result h p q =
    let m : List ℕ = multi_string strings in
    let done' : List ℕ = done ++ (s ++ (0 ∷ [])) in
    let front : multi_string (s ∷ strings) ≡ s ++ (0 ∷ m) =
      append_assoc s (0 ∷ terminated strings) (0 ∷ []) in
    let whole : done ++ (s ++ (0 ∷ m)) ≡ done' ++ m = simp append_assoc in
    let long : length done' ≡ length done + length s + 1 =
      omega (arith, length-append done (s ++ (0 ∷ [])), length-append s (0 ∷ [])) in
    let v : List ℕ = done ++ (s ++ (0 ∷ m)) in
    let behind : ℕ = index + length s + 1 in
    (λ i. split_loop (done ++ front i) (front i) index start result)
    ∙ split_loop_text v s (0 ∷ m) index start result h.0.1
    ∙ split_loop_end done s m (index + length s) start result p (omega arith) h.0.0
    ∙ (λ i. split_loop (whole i) m behind behind (result ++ (s ∷ [])))
    ∙ split_loop_lem done' strings behind behind (result ++ (s ∷ [])) h.1 (omega arith)
        (omega arith)
    ∙ append_assoc result (s ∷ []) strings

-- A client reads back the texts of a multi-string, all of them and in their order.
pub multi_string_to_string_list_lem :
    (strings : List WideString)
    → All IsText strings
    → multi_string_to_string_list (multi_string strings) ≡ strings
unfolding multi_string_to_string_list
multi_string_to_string_list_lem strings h = split_loop_lem [] strings 0 0 [] h refl refl

pub IsText-codes :
    (strings : List WideString)
    → All IsText strings
    → All (λ (s : WideString). All (λ (x : ℕ). x ≢ 0) s) strings
IsText-codes [] h = tt
IsText-codes (s ∷ strings) h = (h.0.1, IsText-codes strings h.1)

-- MultiStringToStringList undoes StringListToMultiString on texts that are not empty and hold no
-- NUL.
pub multi_string_to_string_list-string_list_to_multi_string :
    (strings : List WideString)
    → All IsText strings
    → multi_string_to_string_list (string_list_to_multi_string strings) ≡ strings
multi_string_to_string_list-string_list_to_multi_string strings h =
    ap multi_string_to_string_list
      (string_list_to_multi_string_lem strings (IsText-codes strings h))
    ∙ multi_string_to_string_list_lem strings h
