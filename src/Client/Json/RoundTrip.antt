-- ===== src/Client/Json/RoundTrip.antt =====
-- A JSON reader gets back every text that escape_json has written.
use hid_hide.Prelude.{
  ℕ, zero, suc, ◌+◌, ◌-◌, ◌*◌, ◌/◌, ◌%◌, ◌<◌, ◌≡◌, refl, ap, subst, ltb→lt, ◌∙◌, true, false,
  Option, none, some, [], ◌∷◌, ◌++◌, ltb, ◌==◌, if◌then◌else◌, WideString, arith, Bool-cases, inl,
  inr,
}
use hid_hide.Client.Json.{backslash, json_quote, hex_digit, escape_character, escape_json}

-- Where a reader of a JSON string stands: in the text, behind a backslash, or in the digits of a
-- \u with the number of digits to come and their value so far.
pub data Reader : Type 0 where
  plain escaped : Reader
  digits : ℕ → ℕ → Reader

abbrev pub cons : ℕ → Option WideString → Option WideString
cons x none = none
cons x (some s) = some (x ∷ s)

-- The value of a hexadecimal digit.
abbrev pub digit_value : ℕ → Option ℕ
digit_value x =
    if ltb x b'0'
    then none
    else (if ltb x (b'9' + 1)
        then some (x - b'0')
        else (if ltb x b'a'
            then none
            else (if ltb x (b'f' + 1) then some (x - b'a' + 10) else none)))

-- The letter behind a backslash.
abbrev pub letter_value : ℕ → Option ℕ
letter_value x =
    if x == json_quote
    then some json_quote
    else (if x == backslash
        then some backslash
        else (if x == b'b'
            then some 8
            else (if x == b'f'
                then some 12
                else (if x == b'n'
                    then some 10
                    else (if x == b'r' then some 13 else (if x == b't' then some 9 else none))))))

-- The text that the inside of a JSON string stands for: no quote and no control character in it.
unfoldable pub read_json : Reader → WideString → Option WideString
read_json plain [] = some []
read_json escaped [] = none
read_json (digits n v) [] = none
read_json plain (x ∷ s) = elim (x == backslash) [
  | true ↦ read_json escaped s
  | false ↦ elim (x == json_quote) [
    | true ↦ none
    | false ↦ elim (ltb x 32) [ true ↦ none | false ↦ cons x (read_json plain s) ]
  ]
]
read_json escaped (x ∷ s) = elim (x == b'u') [
  | true ↦ read_json (digits 3 0) s
  | false ↦ elim (letter_value x) [ none ↦ none | some c ↦ cons c (read_json plain s) ]
]
read_json (digits zero v) (x ∷ s) = elim (digit_value x) [
  | none ↦ none
  | some d ↦ cons (v * 16 + d) (read_json plain s)
]
read_json (digits (suc n) v) (x ∷ s) = elim (digit_value x) [
  | none ↦ none
  | some d ↦ read_json (digits n (v * 16 + d)) s
]

digit_value-hex_digit : (d : ℕ) → d < 16 → digit_value (hex_digit d) ≡ some d
digit_value-hex_digit d l = ground arith

read_json-digit :
    (n v d x : ℕ) (s : WideString)
    → digit_value x ≡ some d
    → read_json (digits (suc n) v) (x ∷ s) ≡ read_json (digits n (v * 16 + d)) s
unfolding read_json
read_json-digit n v d x s e = rw (read_json, e) refl

read_json-last_digit :
    (v d x : ℕ) (s : WideString)
    → digit_value x ≡ some d
    → read_json (digits 0 v) (x ∷ s) ≡ cons (v * 16 + d) (read_json plain s)
unfolding read_json
read_json-last_digit v d x s e = rw (read_json, e) refl

-- The digits of a control character.
read_json-digits :
    (c : ℕ) (s : WideString)
    → c < 32
    → read_json (digits 1 0) (hex_digit (c / 16) ∷ hex_digit (c % 16) ∷ s)
      ≡ cons c (read_json plain s)
read_json-digits c s l =
    let high = digit_value-hex_digit (c / 16) (omega arith) in
    let low = digit_value-hex_digit (c % 16) (omega arith) in
    let whole : (0 * 16 + c / 16) * 16 + c % 16 ≡ c = omega arith in
    read_json-digit 0 0 (c / 16) (hex_digit (c / 16)) (hex_digit (c % 16) ∷ s) high
    ∙ read_json-last_digit (0 * 16 + c / 16) (c % 16) (hex_digit (c % 16)) s low
    ∙ (λ i. cons (whole i) (read_json plain s))

read_json-plain :
    (c : ℕ) (s : WideString)
    → (c == json_quote) ≡ false
    → (c == backslash) ≡ false
    → ltb c 32 ≡ false
    → read_json plain (c ∷ s) ≡ cons c (read_json plain s)
unfolding read_json
read_json-plain c s n1 n2 l = rw (read_json, n2, n1, l) refl

-- What is to be shown of a character.
abbrev IsRestored : WideString → ℕ → Type 0
IsRestored s c = read_json plain (escape_character c ++ s) ≡ cons c (read_json plain s)

IsRestored-case :
    (s : WideString) (c k : ℕ)
    → IsRestored s k
    → ((c == k) ≡ false → IsRestored s c)
    → IsRestored s c
IsRestored-case s c k h f = elim (Bool-cases (c == k)) [
  | inl e ↦ let same : k ≡ c = ground arith in subst (IsRestored s) same h
  | inr e ↦ f e
]

read_json-escape_character : (c : ℕ) (s : WideString) → IsRestored s c
unfolding read_json escape_character
read_json-escape_character c s = IsRestored-case s c json_quote refl (λ n1.
    IsRestored-case s c backslash refl (λ n2. IsRestored-case s c 8 refl (λ n3.
      IsRestored-case s c 12 refl (λ n4. IsRestored-case s c 10 refl (λ n5.
        IsRestored-case s c 13 refl (λ n6. IsRestored-case s c 9 refl (λ n7.
          elim (Bool-cases (ltb c 32)) [
            | inl l ↦ rw (n1, n2, n3, n4, n5, n6, n7, l) (read_json-digits c s (ltb→lt c 32 l))
            | inr l ↦
                let same : escape_character c ≡ c ∷ [] = rw (n1, n2, n3, n4, n5, n6, n7, l) refl in
                ap (λ (x : WideString). read_json plain (x ++ s)) same ∙ read_json-plain c s n1 n2 l
          ])))))))

-- The text between the quotes of a JSON string that escape_json wrote is read back as it was,
-- whatever its characters.
pub read_json-escape_json : (s : WideString) → read_json plain (escape_json s) ≡ some s
unfolding escape_json read_json
read_json-escape_json [] = refl
read_json-escape_json (c ∷ s) =
    read_json-escape_character c (escape_json s) ∙ ap (cons c) (read_json-escape_json s)
