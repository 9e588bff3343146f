-- ===== src/Client/MultiString/Empty.antt =====
-- HidHideCLI/src/Utils.cpp: what a multi-string makes of empty texts.
use hid_hide.Prelude.{
  is_empty, ℕ, ◌+◌, ◌-◌, ◌≡◌, ◌≢◌, refl, sym, ap, ◌∙◌, not, List, [], ◌∷◌, ◌++◌, length, keep, All,
  arith, WideString, length-append,
}
use mathlib.Core.List.{append_assoc, append-nil}
use hid_hide.Driver.MultiString.Layout.{terminated, multi_string}
use hid_hide.Client.MultiString.{
  split_loop, string_list_to_multi_string, multi_string_to_string_list,
}
use hid_hide.Client.MultiString.RoundTrip.{
  split_loop_text, split_loop_end, string_list_to_multi_string_lem,
}

abbrev pub filled : List WideString → List WideString
filled strings = keep (λ s. not (is_empty s)) strings

-- A terminator right behind another is passed over.
split_loop_empty :
    (v rest : List ℕ) (index start : ℕ) (result : List WideString)
    → index - start ≡ 0
    → split_loop v (0 ∷ rest) index start result ≡ split_loop v rest (index + 1) (index + 1) result
unfolding split_loop
split_loop_empty v rest index start result h = rw h refl

-- The loop over the terminated texts, empty ones among them, and over the last terminator.
split_loop-filled :
    (done : List ℕ) (strings : List WideString) (index start : ℕ) (result : List WideString)
    → All (λ (s : WideString). All (λ (x : ℕ). x ≢ 0) s) strings
    → start ≡ length done
    → index ≡ length done
    → split_loop (done ++ multi_string strings) (multi_string strings) index start result
      ≡ result ++ filled strings
unfolding split_loop
split_loop-filled done [] index start result h p q =
    let nothing : index - start ≡ 0 = omega arith in rw nothing (sym (append-nil result))
split_loop-filled done ([] ∷ strings) index start result h p q =
    let m : List ℕ = multi_string strings in
    let nothing : index - start ≡ 0 = omega arith in
    let whole : done ++ (0 ∷ m) ≡ (done ++ (0 ∷ [])) ++ m = simp append_assoc in
    let long : length (done ++ (0 ∷ [])) ≡ length done + 1 =
      omega (arith, length-append done (0 ∷ [])) in
    split_loop_empty (done ++ (0 ∷ m)) m index start result nothing
    ∙ (λ i. split_loop (whole i) m (index + 1) (index + 1) result)
    ∙ split_loop-filled (done ++ (0 ∷ [])) strings (index + 1) (index + 1) result h.1 (omega arith)
        (omega arith)
split_loop-filled done ((x ∷ s) ∷ strings) index start result h p q =
    let text : WideString = x ∷ s in
    let m : List ℕ = multi_string strings in
    let done' : List ℕ = done ++ (text ++ (0 ∷ [])) in
    let front : multi_string (text ∷ strings) ≡ text ++ (0 ∷ m) =
      append_assoc text (0 ∷ terminated strings) (0 ∷ []) in
    let whole : done ++ (text ++ (0 ∷ m)) ≡ done' ++ m = simp append_assoc in
    let long : length done' ≡ length done + length text + 1 =
      omega (arith, length-append done (text ++ (0 ∷ [])), length-append text (0 ∷ [])) in
    let v : List ℕ = done ++ (text ++ (0 ∷ m)) in
    let behind : ℕ = index + length text + 1 in
    (λ i. split_loop (done ++ front i) (front i) index start result)
    ∙ split_loop_text v text (0 ∷ m) index start result h.0
    ∙ split_loop_end done text m (index + length text) start result p (omega arith) (λ e. cc)
    ∙ (λ i. split_loop (whole i) m behind behind (result ++ (text ∷ [])))
    ∙ split_loop-filled done' strings behind behind (result ++ (text ∷ [])) h.1 (omega arith)
        (omega arith)
    ∙ append_assoc result (text ∷ []) (filled strings)

-- Of any texts without a NUL, written by StringListToMultiString, MultiStringToStringList gives
-- back exactly those that are not empty, in their order: an empty text is lost.
pub multi_string_to_string_list-filled :
    (strings : List WideString)
    → All (λ (s : WideString). All (λ (x : ℕ). x ≢ 0) s) strings
    → multi_string_to_string_list (string_list_to_multi_string strings) ≡ filled strings
unfolding multi_string_to_string_list
multi_string_to_string_list-filled strings h =
    ap multi_string_to_string_list (string_list_to_multi_string_lem strings h)
    ∙ split_loop-filled [] strings 0 0 [] h refl refl
