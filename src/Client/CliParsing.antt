-- ===== src/Client/CliParsing.antt =====
-- HidHideCLI/src/CliParsing.cpp: a command line is taken apart into commands with arguments. A text
-- that a function takes by reference is the second part of its result. `is_space` is iswspace.
pub mod Progress
pub mod Filled
pub mod RoundTrip
use hid_hide.Prelude.{
  is_empty, ℕ, zero, suc, Bool, true, false, not, ◌&&◌, Option, none, some, List, [], ◌∷◌, ◌++◌,
  length, ◌==◌, if◌then◌else◌, WideString,
}

abbrev pub quote : ℕ
quote = b'"'

abbrev pub dash : ℕ
dash = b'-'

-- Args, and std::vector<Args>
abbrev pub Args : Type 0
Args = List WideString

-- L"--" == value.substr(0, 2)
abbrev pub has_dashes : WideString → Bool
has_dashes [] = false
has_dashes (x ∷ []) = false
has_dashes (x ∷ y ∷ s) = (x == dash) && (y == dash)

abbrev pub strip_dashes : WideString → WideString
strip_dashes [] = []
strip_dashes (x ∷ []) = x ∷ []
strip_dashes (x ∷ y ∷ s) = if (x == dash) && (y == dash) then s else x ∷ y ∷ s

-- value.find(L'"', 1): what stands before the next quote, and what behind it.
unfoldable pub find_quote : WideString → Option (WideString × WideString)
find_quote [] = none
find_quote (x ∷ s) = elim (x == quote) [
  | true ↦ some ([], s)
  | false ↦ elim (find_quote s) [ none ↦ none | some (front, rest) ↦ some (x ∷ front, rest) ]
]

module _ (is_space : ℕ → Bool) where
  unfoldable pub trim_start : WideString → WideString
  trim_start [] = []
  trim_start (x ∷ s) = let rest = trim_start s in if is_space x then rest else x ∷ s

  abbrev pub trim_last : ℕ → WideString → WideString
  trim_last x [] = if is_space x then [] else x ∷ []
  trim_last x (y ∷ s) = x ∷ y ∷ s

  -- Whitespace behind the last character that is none.
  unfoldable pub trim_end : WideString → WideString
  trim_end [] = []
  trim_end (x ∷ s) = trim_last x (trim_end s)

  unfoldable pub trim : WideString → WideString
  trim value = trim_end (trim_start value)

  -- ExtractKeyword
  unfoldable pub extract_keyword : WideString → WideString × WideString
  extract_keyword [] = ([], [])
  extract_keyword (x ∷ s) =
      if is_space x then ([], s) else (x ∷ (extract_keyword s).0, (extract_keyword s).1)

  -- The part of ExtractString behind a quote. On a syntax error the text stays as it was.
  unfoldable pub extract_quoted :
      WideString → Option (WideString × WideString) → WideString × WideString
  extract_quoted value none = ([], value)
  extract_quoted value (some (front, [])) = (front, [])
  extract_quoted value (some (front, y ∷ rest)) = if is_space y then (front, rest) else ([], value)

  -- ExtractString
  unfoldable pub extract_string : WideString → WideString × WideString
  extract_string [] = ([], [])
  extract_string (x ∷ s) =
      if x == quote then extract_quoted (x ∷ s) (find_quote s) else extract_keyword (x ∷ s)

  -- The loop of ExtractCommand on the trimmed text. `none` means that the fuel ran out.
  unfoldable pub extract_args : ℕ → Args → WideString → Option (Args × WideString)
  extract_args zero args value = none
  extract_args (suc fuel) args value = elim (is_empty (trim value)) [
    | true ↦ some (args, trim value)
    | false ↦ elim (has_dashes (trim value)) [
      | true ↦ some (args, trim value)
      | false ↦
          elim (is_empty (extract_string (trim value)).0
            && not (is_empty (extract_string (trim value)).1)) [
              | true ↦ some ([], (extract_string (trim value)).1)
              | false ↦
                  extract_args fuel (args ++ ((extract_string (trim value)).0 ∷ []))
                    (extract_string (trim value)).1
            ]
    ]
  ]

  -- ExtractCommand, with fuel for each character.
  unfoldable pub extract_command : WideString → Option (Args × WideString)
  extract_command value =
      let keyword = extract_keyword (strip_dashes value) in
      extract_args (suc (length keyword.1)) (keyword.0 ∷ []) keyword.1

  -- The loop of ExtractCommands.
  unfoldable pub extract_loop : ℕ → List Args → WideString → Option (List Args × WideString)
  extract_loop zero result value = none
  extract_loop (suc fuel) result value = elim (is_empty (trim value)) [
    | true ↦ some (result, trim value)
    | false ↦ elim (extract_command (trim value)) [
      | none ↦ none
      | some (command, rest) ↦ elim (is_empty command && not (is_empty rest)) [
        | true ↦ some ([], rest)
        | false ↦ extract_loop fuel (result ++ (command ∷ [])) rest
      ]
    ]
  ]

  -- ExtractCommands
  unfoldable pub extract_commands : WideString → Option (List Args × WideString)
  extract_commands value = extract_loop (suc (length value)) [] value
