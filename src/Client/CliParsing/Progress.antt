-- ===== src/Client/CliParsing/Progress.antt =====
-- The parser ends on every text: each round takes at least one character.
use hid_hide.Prelude.{
  is_empty, ℕ, zero, suc, ◌≤◌, ◌<◌, ◌≡◌, ◌≢◌, refl, Bool, false, not, ◌&&◌, Option, none, some,
  List, [], ◌∷◌, ◌++◌, length, ◌==◌, WideString, arith, Bool-cases, Option-cases, inl, inr,
}
use hid_hide.Client.CliParsing.{
  Args, quote, has_dashes, strip_dashes, find_quote, trim_start, trim_last, trim_end, trim,
  extract_keyword, extract_quoted, extract_string, extract_args, extract_command, extract_loop,
  extract_commands,
}

length-strip_dashes-le : (s : WideString) → length (strip_dashes s) ≤ length s
length-strip_dashes-le [] = omega arith
length-strip_dashes-le (x ∷ []) = omega arith
length-strip_dashes-le (x ∷ y ∷ s) = ground arith

length-find_quote :
    (s front rest : WideString) → find_quote s ≡ some (front, rest) → length rest < length s
unfolding find_quote
length-find_quote [] front rest h = cc
length-find_quote (x ∷ s) front rest h = elim (Option-cases (find_quote s)) [
  | inl e ↦ ground arith
  | inr ((f, r), e) ↦ ground (arith, length-find_quote s f r e)
]

module _ (is_space : ℕ → Bool) where
  length-trim_start-le : (s : WideString) → length (trim_start is_space s) ≤ length s
  unfolding trim_start
  length-trim_start-le [] = omega arith
  length-trim_start-le (x ∷ s) = ground (arith, length-trim_start-le s)

  length-trim_last-le : (x : ℕ) (s : WideString) → length (trim_last is_space x s) ≤ suc (length s)
  length-trim_last-le x [] = ground arith
  length-trim_last-le x (y ∷ s) = omega arith

  length-trim_end-le : (s : WideString) → length (trim_end is_space s) ≤ length s
  unfolding trim_end
  length-trim_end-le [] = omega arith
  length-trim_end-le (x ∷ s) =
      omega (arith, length-trim_last-le x (trim_end is_space s), length-trim_end-le s)

  pub length-trim-le : (s : WideString) → length (trim is_space s) ≤ length s
  unfolding trim
  length-trim-le s =
      omega (arith, length-trim_end-le (trim_start is_space s), length-trim_start-le s)

  length-extract_keyword-le : (s : WideString) → length (extract_keyword is_space s).1 ≤ length s
  unfolding extract_keyword
  length-extract_keyword-le [] = omega arith
  length-extract_keyword-le (x ∷ s) = ground (arith, length-extract_keyword-le s)

  length-extract_keyword-lt :
      (x : ℕ) (s : WideString) → length (extract_keyword is_space (x ∷ s)).1 < suc (length s)
  unfolding extract_keyword
  length-extract_keyword-lt x s = ground (arith, length-extract_keyword-le s)

  length-extract_quoted :
      (value s : WideString) (found : Option (WideString × WideString))
      → find_quote s ≡ found
      → (is_empty (extract_quoted is_space value found).0
          && not (is_empty (extract_quoted is_space value found).1))
        ≡ false
      → value ≢ []
      → length (extract_quoted is_space value found).1 < suc (length s)
  unfolding extract_quoted
  length-extract_quoted [] s found f h n = absurd (n refl)
  length-extract_quoted (v ∷ value) s none f h n = cc
  length-extract_quoted (v ∷ value) s (some (front, [])) f h n = omega arith
  length-extract_quoted (v ∷ value) s (some (front, y ∷ rest)) f h n =
      ground (arith, length-find_quote s front (y ∷ rest) f)

  -- An argument that is not a syntax error takes a character.
  length-extract_string :
      (value : WideString)
      → is_empty value ≡ false
      → (is_empty (extract_string is_space value).0
          && not (is_empty (extract_string is_space value).1))
        ≡ false
      → length (extract_string is_space value).1 < length value
  unfolding extract_string
  length-extract_string [] n h = cc
  length-extract_string (x ∷ s) n h = elim (Bool-cases (x == quote)) [
    | inl e ↦
        rw (e, extract_string)
          (length-extract_quoted (x ∷ s) s (find_quote s) refl (rw (e, extract_string) at h)
            (λ k. cc))
    | inr e ↦ rw (e, extract_string) (length-extract_keyword-lt x s)
  ]

  length-extract_quoted-le :
      (value s : WideString) (found : Option (WideString × WideString))
      → find_quote s ≡ found
      → length s ≤ length value
      → length (extract_quoted is_space value found).1 ≤ length value
  unfolding extract_quoted
  length-extract_quoted-le value s none f h = omega arith
  length-extract_quoted-le value s (some (front, [])) f h = omega arith
  length-extract_quoted-le value s (some (front, y ∷ rest)) f h =
      ground (arith, length-find_quote s front (y ∷ rest) f)

  length-kept : (value : WideString) → length (extract_string is_space value).1 ≤ length value
  unfolding extract_string
  length-kept [] = omega arith
  length-kept (x ∷ s) = ground (
    arith,
    length-extract_quoted-le (x ∷ s) s (find_quote s) refl (omega arith),
    length-extract_keyword-lt x s,
  )

  -- The loop over the arguments ends, and leaves no more than it was given.
  extract_args_total :
      (fuel : ℕ) (args : Args) (value : WideString)
      → length value < fuel
      → (done : Args) × (rest : WideString) × (extract_args is_space fuel args value
          ≡ some (done, rest))
        × (length rest ≤ length value)
  unfolding extract_args
  extract_args_total zero args value h = absurd (omega arith)
  extract_args_total (suc fuel) args value h =
      let v : WideString = trim is_space value in
      let shorter = length-trim-le value in
      elim (Bool-cases (is_empty v)) [
        | inl e ↦ (args, v, rw (e, extract_args) refl, shorter)
        | inr e ↦ elim (Bool-cases (has_dashes v)) [
          | inl d ↦ (args, v, rw (e, extract_args, d) refl, shorter)
          | inr d ↦
              let arg : WideString = (extract_string is_space v).0 in
              let next : WideString = (extract_string is_space v).1 in
              elim (Bool-cases (is_empty arg && not (is_empty next))) [
                | inl k ↦ (
                  [],
                  next,
                  rw (e, extract_args, d, k) refl,
                  omega (arith, shorter, length-kept v),
                )
                | inr k ↦
                    let less = length-extract_string v e k in
                    let (done, rest, run, le) =
                      extract_args_total fuel (args ++ (arg ∷ [])) next
                        (omega (arith, less, shorter)) in
                    (done, rest, rw (e, extract_args, d, k) run, omega (arith, le, less, shorter))
              ]
        ]
      ]

  -- The keyword of a text that is not empty and begins with no whitespace takes a character.
  extract_command_total :
      (value : WideString)
      → is_empty value ≡ false
      → (command : Args) × (rest : WideString) × (extract_command is_space value
          ≡ some (command, rest))
        × (length rest < length value)
  unfolding extract_command
  extract_command_total value n =
      let keyword = extract_keyword is_space (strip_dashes value) in
      let (command, rest, run, le) =
        extract_args_total (suc (length keyword.1)) (keyword.0 ∷ []) keyword.1 (omega arith) in
      (command, rest, run, omega (arith, le, taken value n))
    where
      taken :
          (s : WideString)
          → is_empty s ≡ false
          → length (extract_keyword is_space (strip_dashes s)).1 < length s
      taken [] k = cc
      taken (x ∷ []) k = length-extract_keyword-lt x []
      taken (x ∷ y ∷ s) k =
          ground (arith, length-extract_keyword-lt x (y ∷ s), length-extract_keyword-le s)

  extract_loop_total :
      (fuel : ℕ) (result : List Args) (value : WideString)
      → length value < fuel
      → (commands : List Args) × (rest : WideString) × (extract_loop is_space fuel result value
          ≡ some (commands, rest))
  unfolding extract_loop
  extract_loop_total zero result value h = absurd (omega arith)
  extract_loop_total (suc fuel) result value h =
      let v : WideString = trim is_space value in
      elim (Bool-cases (is_empty v)) [
        | inl e ↦ (result, v, rw (e, extract_loop) refl)
        | inr e ↦
            let (command, rest, run, less) = extract_command_total v e in
            elim (Bool-cases (is_empty command && not (is_empty rest))) [
              | inl k ↦ ([], rest, rw (e, extract_loop, run, k) refl)
              | inr k ↦
                  let (commands, left, whole) =
                    extract_loop_total fuel (result ++ (command ∷ [])) rest
                      (omega (arith, less, length-trim-le value)) in
                  (commands, left, rw (e, extract_loop, run, k) whole)
            ]
      ]

  -- Every command line is taken apart: the loops of ExtractCommands and ExtractCommand end.
  pub extract_commands_total :
      (value : WideString)
      → (commands : List Args) × (rest : WideString) × (extract_commands is_space value
          ≡ some (commands, rest))
  unfolding extract_commands
  extract_commands_total value = extract_loop_total (suc (length value)) [] value (omega arith)
