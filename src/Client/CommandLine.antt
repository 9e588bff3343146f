-- ===== src/Client/CommandLine.antt =====
-- HidHideCLI/src/Utils.cpp, CommandLineArguments: the command line behind the name of the program.
-- `is_space` is std::isspace, which Trim of that file asks; GetCommandLineW is the argument.
use hid_hide.Prelude.{ℕ, Bool, none, some, [], ◌∷◌, ◌==◌, if◌then◌else◌, WideString}
use hid_hide.Client.CliParsing.{quote, find_quote, trim_start, trim_end}
use hid_hide.Client.DriverAccess.{Outcome, done, thrown}
use hid_hide.Client.Hid.{find_blank}

module _ (is_space : ℕ → Bool) where
  -- Trim
  unfoldable pub trim_text : WideString → WideString
  trim_text value = trim_end is_space (trim_start is_space value)

  -- A program between quotes. Without the second quote, erase(0, npos + 1) takes nothing away.
  unfoldable pub behind_quotes : WideString → WideString
  behind_quotes s = elim (find_quote s) [
    | none ↦ trim_text (quote ∷ s)
    | some (program, rest) ↦ trim_text rest
  ]

  -- A program up to the first blank. Without a blank, erase(0, npos) takes all.
  unfoldable pub behind_blank : WideString → WideString
  behind_blank s = elim (find_blank s) [
    | none ↦ trim_text []
    | some (program, rest) ↦ trim_text (b' ' ∷ rest)
  ]

  -- CommandLineArguments: at(0) throws on an empty command line.
  unfoldable pub command_line_arguments : WideString → Outcome WideString
  command_line_arguments [] = thrown
  command_line_arguments (x ∷ s) =
      if x == quote then done (behind_quotes s) else done (behind_blank (x ∷ s))
