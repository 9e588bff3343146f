-- ===== src/Client/CliParsing/Filled.antt =====
-- What ExtractCommands may be relied on for: a command is never empty.
use hid_hide.Prelude.{
  is_empty, ℕ, zero, suc, ◌≡◌, refl, sym, Bool, false, not, ◌&&◌, Option, none, some, List, [], ◌∷◌,
  ◌++◌, length, WideString, All, All-append, arith, Bool-cases, Option-cases, inl, inr,
}
use hid_hide.Client.CliParsing.{
  Args, has_dashes, strip_dashes, trim, extract_keyword, extract_string, extract_args,
  extract_command, extract_loop, extract_commands,
}
use hid_hide.Client.CliParsing.Progress.{extract_commands_total}

abbrev pub IsFilled : Args → Type 0
IsFilled command = is_empty command ≡ false

is_empty-append : (args : Args) (a : WideString) → is_empty (args ++ (a ∷ [])) ≡ false
is_empty-append [] a = refl
is_empty-append (x ∷ args) a = refl

module _ (is_space : ℕ → Bool) where
  -- ExtractCommand answers with no command only when it leaves text, which is the syntax error.
  extract_args-IsFilled :
      (fuel : ℕ) (args : Args) (value : WideString) (done : Args) (rest : WideString)
      → IsFilled args
      → extract_args is_space fuel args value ≡ some (done, rest)
      → (is_empty done && not (is_empty rest)) ≡ false
      → IsFilled done
  unfolding extract_args
  extract_args-IsFilled zero args value done rest f h k = cc
  extract_args-IsFilled (suc fuel) args value done rest f h k =
      let v : WideString = trim is_space value in
      elim (Bool-cases (is_empty v)) [
        | inl e ↦ ground arith
        | inr e ↦ elim (Bool-cases (has_dashes v)) [
          | inl d ↦ ground arith
          | inr d ↦
              let arg : WideString = (extract_string is_space v).0 in
              let next : WideString = (extract_string is_space v).1 in
              elim (Bool-cases (is_empty arg && not (is_empty next))) [
                | inl w ↦ ground arith
                | inr w ↦
                    extract_args-IsFilled fuel (args ++ (arg ∷ [])) next done rest
                      (is_empty-append args arg) (rw (e, extract_args, d, w) at h) k
              ]
        ]
      ]

  extract_loop-IsFilled :
      (fuel : ℕ) (result : List Args) (value : WideString) (commands : List Args)
      (rest : WideString)
      → All IsFilled result
      → extract_loop is_space fuel result value ≡ some (commands, rest)
      → All IsFilled commands × ((is_empty rest ≡ false) → commands ≡ [])
  unfolding extract_loop extract_command
  extract_loop-IsFilled zero result value commands rest f h = cc
  extract_loop-IsFilled (suc fuel) result value commands rest f h =
      let v : WideString = trim is_space value in
      elim (Bool-cases (is_empty v)) [
        | inl e ↦
            let same : ◌≡◌ {A = Option (List Args × WideString)} (some (result, v))
                (some (commands, rest)) =
              rw (e, extract_loop) at h in
            let same_commands : result ≡ commands = cc in
            (rw (← same_commands) f, λ n. absurd (ground arith))
        | inr e ↦ elim (Option-cases (extract_command is_space v)) [
          | inl g ↦
              let stuck : ◌≡◌ {A = Option (List Args × WideString)} none (some (commands, rest)) =
                rw (e, extract_loop, g) at h in
              cc
          | inr ((command, next), g) ↦ elim (Bool-cases (is_empty command && not (is_empty next))) [
            | inl w ↦
                let same : ◌≡◌ {A = Option (List Args × WideString)} (some ([], next))
                    (some (commands, rest)) =
                  rw (e, extract_loop, g, w) at h in
                let none_left : [] ≡ commands = cc in (rw (← none_left) tt, λ n. sym none_left)
            | inr w ↦
                let keyword = extract_keyword is_space (strip_dashes v) in
                let filled =
                  extract_args-IsFilled (suc (length keyword.1)) (keyword.0 ∷ []) keyword.1 command
                    next refl g w in
                extract_loop-IsFilled fuel (result ++ (command ∷ [])) next commands rest
                  (All-append IsFilled result (command ∷ []) f (filled, tt))
                  (rw (e, extract_loop, g, w) at h)
          ]
        ]
      ]

  -- Every command line is taken apart, by loops that end, into commands of which none is empty;
  -- and if text is left, which is the sign of a syntax error, there is no command.
  pub extract_commands_lem :
      (value : WideString)
      → (commands : List Args) × (rest : WideString) × (extract_commands is_space value
          ≡ some (commands, rest))
        × All IsFilled commands
        × ((is_empty rest ≡ false) → commands ≡ [])
  unfolding extract_commands
  extract_commands_lem value =
      let (commands, rest, run) = extract_commands_total is_space value in
      let (filled, left) =
        extract_loop-IsFilled (suc (length value)) [] value commands rest tt run in
      (commands, rest, run, filled, left)
