-- ===== src/Client/Hid/Split.antt =====
-- SplitStringAtWhitespaces ends, and what its parts are.
use hid_hide.Prelude.{
  ℕ, zero, suc, ◌<◌, ◌≡◌, refl, none, some, List, [], ◌∷◌, ◌++◌, length, All, All-append, is_empty,
  ◌==◌, if◌then◌else◌, WideString, arith, Option-cases, inl, inr, false,
}
use hid_hide.Client.Hid.{find_blank, split_at_blanks, split_string_at_whitespaces}

-- A part: not empty, and without a blank.
abbrev pub IsPart : WideString → Type 0
IsPart s = (is_empty s ≡ false) × All (λ (x : ℕ). (x == b' ') ≡ false) s

find_blank-some :
    (s front rest : WideString)
    → find_blank s ≡ some (front, rest)
    → All (λ (x : ℕ). (x == b' ') ≡ false) front × (length rest < length s)
unfolding find_blank
find_blank-some [] front rest h = absurd (ground arith)
find_blank-some (x ∷ s) front rest h = elim (Option-cases (find_blank s)) [
  | inl e ↦ ground arith
  | inr ((f, r), e) ↦ ground (arith, find_blank-some s f r e)
]

find_blank-none : (s : WideString) → find_blank s ≡ none → All (λ (x : ℕ). (x == b' ') ≡ false) s
unfolding find_blank
find_blank-none [] h = tt
find_blank-none (x ∷ s) h = ground (arith, find_blank-none s)

IsPart-unless_empty :
    (s : WideString) (result : List WideString)
    → All (λ (x : ℕ). (x == b' ') ≡ false) s
    → All IsPart result
    → All IsPart (if is_empty s then result else result ++ (s ∷ []))
IsPart-unless_empty [] result a h = h
IsPart-unless_empty (x ∷ s) result a h = All-append IsPart result ((x ∷ s) ∷ []) h ((refl, a), tt)

split_at_blanks_total :
    (fuel : ℕ) (result : List WideString) (value : WideString)
    → length value < fuel
    → All IsPart result
    → (parts : List WideString) × (split_at_blanks fuel result value ≡ some parts)
      × All IsPart parts
unfolding split_at_blanks
split_at_blanks_total zero result value l h = absurd (omega arith)
split_at_blanks_total (suc fuel) result value l h = elim (Option-cases (find_blank value)) [
  | inl e ↦ (
    if is_empty value then result else result ++ (value ∷ []),
    rw (split_at_blanks, e) refl,
    IsPart-unless_empty value result (find_blank-none value e) h,
  )
  | inr ((front, rest), e) ↦
      let (plain, short) = find_blank-some value front rest e in
      let (parts, run, all) =
        split_at_blanks_total fuel (if is_empty front then result else result ++ (front ∷ [])) rest
          (omega arith) (IsPart-unless_empty front result plain h) in
      (parts, rw (split_at_blanks, e) run, all)
]

-- A text is split by a loop that ends, into parts that are not empty and hold no blank.
pub split_string_at_whitespaces_lem :
    (value : WideString)
    → (parts : List WideString) × (split_string_at_whitespaces value ≡ some parts)
      × All IsPart parts
unfolding split_string_at_whitespaces
split_string_at_whitespaces_lem value =
    split_at_blanks_total (suc (length value)) [] value (omega arith) tt
