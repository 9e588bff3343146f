-- ===== src/Client/CliParsing/RoundTrip.antt =====
-- A command line that is written out is read back.
use hid_hide.Prelude.{
  is_empty, ℕ, zero, suc, ◌<◌, ◌≡◌, ◌≢◌, refl, ◌∙◌, Bool, true, false, ◌||◌, map, ◌≤◌, some, List,
  [], ◌∷◌, ◌++◌, length, length-append, WideString, All, arith,
}
use mathlib.Core.List.{append_assoc, append-nil}
use hid_hide.Client.CliParsing.{
  Args, quote, dash, has_dashes, strip_dashes, find_quote, trim_start, trim_last, trim_end, trim,
  extract_keyword, extract_quoted, extract_string, extract_args, extract_command, extract_loop,
  extract_commands,
}

-- What the parser asks of iswspace: a blank is whitespace, a quote and a dash are not.
pub record IsSpaceTest (is_space : ℕ → Bool) : Type 0 where
  pub blank : is_space b' ' ≡ true
  pub not_quote : is_space quote ≡ false
  pub not_dash : is_space dash ≡ false

-- A text, a blank, and what follows; no blank at the end of the line.
abbrev pub followed : WideString → WideString → WideString
followed text [] = text
followed text (x ∷ rest) = text ++ (b' ' ∷ x ∷ rest)

abbrev pub quoted : WideString → WideString
quoted arg = quote ∷ (arg ++ (quote ∷ []))

abbrev pub write_args : List WideString → WideString → WideString
write_args [] rest = rest
write_args (arg ∷ args) rest = followed (quoted arg) (write_args args rest)

pub record Command : Type 0 where
  pub keyword : WideString
  pub args : List WideString

abbrev pub write_commands : List Command → WideString
write_commands [] = []
write_commands (c ∷ commands) =
    followed (dash ∷ dash ∷ c.keyword) (write_args c.args (write_commands commands))

abbrev pub args_of : Command → Args
args_of c = c.keyword ∷ c.args

-- A keyword without whitespace, and arguments that are not empty and hold no quote.
pub record IsWritable (is_space : ℕ → Bool) (c : Command) : Type 0 where
  pub keyword_plain : All (λ (x : ℕ). is_space x ≡ false) c.keyword
  pub args_filled : All (λ (a : WideString). (a ≢ []) × All (λ (x : ℕ). x ≢ quote) a) c.args

find_quote-quoted :
    (arg rest : WideString)
    → All (λ (x : ℕ). x ≢ quote) arg
    → find_quote (arg ++ (quote ∷ rest)) ≡ some (arg, rest)
unfolding find_quote
find_quote-quoted [] rest h = refl
find_quote-quoted (x ∷ arg) rest h = ground (arith, find_quote-quoted arg rest)

module _ (is_space : ℕ → Bool) (t : IsSpaceTest is_space) where
  -- A text that neither begins nor ends with whitespace.
  abbrev IsNeat : WideString → Type 0
  IsNeat s = (trim_start is_space s ≡ s) × (trim_end is_space s ≡ s)

  trim-IsNeat : (s : WideString) → IsNeat s → trim is_space s ≡ s
  unfolding trim
  trim-IsNeat s (a, b) = rw a b

  trim_end-append :
      (s : WideString) (x : ℕ) (rest : WideString)
      → trim_end is_space (x ∷ rest) ≡ x ∷ rest
      → trim_end is_space (s ++ (x ∷ rest)) ≡ s ++ (x ∷ rest)
  unfolding trim_end
  trim_end-append [] x rest h = h
  trim_end-append (y ∷ []) x rest h = rw h refl
  trim_end-append (y ∷ z ∷ s) x rest h = rw (trim_end-append (z ∷ s) x rest h) refl

  trim_end_last :
      (s : WideString) (x : ℕ)
      → is_space x ≡ false
      → trim_end is_space (s ++ (x ∷ [])) ≡ s ++ (x ∷ [])
  unfolding trim_end
  trim_end_last s x h = trim_end-append s x [] (rw h refl)

  trim_end-followed :
      (text rest : WideString)
      → trim_end is_space text ≡ text
      → trim_end is_space rest ≡ rest
      → trim_end is_space (followed text rest) ≡ followed text rest
  trim_end-followed text [] h k = h
  trim_end-followed text (x ∷ rest) h k =
      let blank : trim_end is_space (b' ' ∷ x ∷ rest) ≡ b' ' ∷ x ∷ rest =
        trim_end-append (b' ' ∷ []) x rest k in
      trim_end-append text b' ' (x ∷ rest) blank

  trim_end_plain :
      (s : WideString) → All (λ (x : ℕ). is_space x ≡ false) s → trim_end is_space s ≡ s
  unfolding trim_end
  trim_end_plain [] h = refl
  trim_end_plain (x ∷ s) h = rw (trim_end_plain s h.1) (last s)
    where
      last : (r : WideString) → trim_last is_space x r ≡ x ∷ r
      last [] = rw h.0 refl
      last (y ∷ r) = refl

  trim_start_kept :
      (x : ℕ) (s : WideString) → is_space x ≡ false → trim_start is_space (x ∷ s) ≡ x ∷ s
  unfolding trim_start
  trim_start_kept x s h = rw h refl

  followed-IsNeat :
      (x : ℕ) (text rest : WideString)
      → is_space x ≡ false
      → trim_end is_space (x ∷ text) ≡ x ∷ text
      → IsNeat rest
      → IsNeat (followed (x ∷ text) rest)
  followed-IsNeat x text rest h k n = (start rest, trim_end-followed (x ∷ text) rest k n.1)
    where
      start : (r : WideString) → trim_start is_space (followed (x ∷ text) r) ≡ followed (x ∷ text) r
      start [] = trim_start_kept x text h
      start (y ∷ r) = trim_start_kept x (text ++ (b' ' ∷ y ∷ r)) h

  write_args-IsNeat :
      (args : List WideString) (rest : WideString) → IsNeat rest → IsNeat (write_args args rest)
  write_args-IsNeat [] rest n = n
  write_args-IsNeat (arg ∷ args) rest n =
      followed-IsNeat quote (arg ++ (quote ∷ [])) (write_args args rest) t.not_quote
        (trim_end_last (quote ∷ arg) quote t.not_quote) (write_args-IsNeat args rest n)

  write_commands-IsNeat :
      (commands : List Command)
      → All (IsWritable is_space) commands
      → IsNeat (write_commands commands)
  unfolding trim_start trim_end
  write_commands-IsNeat [] h = (refl, refl)
  write_commands-IsNeat (c ∷ commands) h =
      followed-IsNeat dash (dash ∷ c.keyword) (write_args c.args (write_commands commands))
        t.not_dash
        (trim_end_plain (dash ∷ dash ∷ c.keyword) (t.not_dash, (t.not_dash, h.0.keyword_plain)))
        (write_args-IsNeat c.args (write_commands commands) (write_commands-IsNeat commands h.1))

  extract_keyword-followed :
      (keyword rest : WideString)
      → All (λ (x : ℕ). is_space x ≡ false) keyword
      → extract_keyword is_space (followed keyword rest) ≡ (keyword, rest)
  unfolding extract_keyword
  extract_keyword-followed [] [] h = refl
  extract_keyword-followed [] (y ∷ rest) h = rw t.blank refl
  extract_keyword-followed (x ∷ keyword) [] h =
      rw (h.0, extract_keyword-followed keyword [] h.1) refl
  extract_keyword-followed (x ∷ keyword) (y ∷ rest) h =
      rw (h.0, extract_keyword-followed keyword (y ∷ rest) h.1) refl

  extract_string-followed :
      (arg rest : WideString)
      → All (λ (x : ℕ). x ≢ quote) arg
      → extract_string is_space (followed (quoted arg) rest) ≡ (arg, rest)
  unfolding extract_string extract_quoted
  extract_string-followed arg [] h = rw (find_quote-quoted arg [] h) refl
  extract_string-followed arg (y ∷ rest) h =
      let whole : (arg ++ (quote ∷ [])) ++ (b' ' ∷ y ∷ rest) ≡ arg ++ (quote ∷ b' ' ∷ y ∷ rest) =
        append_assoc arg (quote ∷ []) (b' ' ∷ y ∷ rest) in
      rw (whole, find_quote-quoted arg (b' ' ∷ y ∷ rest) h, t.blank) refl

  length-followed : (text rest : WideString) → length rest < suc (length (followed text rest))
  length-followed text [] = omega arith
  length-followed text (y ∷ rest) = omega (arith, length-append text (b' ' ∷ y ∷ rest))

  length-quoted : (arg rest : WideString) → length rest < length (followed (quoted arg) rest)
  length-quoted arg [] = omega arith
  length-quoted arg (y ∷ rest) =
      omega (arith, length-append (arg ++ (quote ∷ [])) (b' ' ∷ y ∷ rest))

  -- What may follow the arguments of a command: the end, or the dashes of the next one.
  abbrev EndsArgs : WideString → Type 0
  EndsArgs rest = (is_empty rest || has_dashes rest) ≡ true

  extract_args_stop :
      (fuel : ℕ) (done : Args) (value : WideString)
      → trim is_space value ≡ value
      → EndsArgs value
      → extract_args is_space (suc fuel) done value ≡ some (done, value)
  unfolding extract_args
  extract_args_stop fuel done value n e = ground arith

  extract_args_next :
      (fuel : ℕ) (done : Args) (value arg next : WideString)
      → trim is_space value ≡ value
      → (is_empty value || has_dashes value) ≡ false
      → extract_string is_space value ≡ (arg, next)
      → is_empty arg ≡ false
      → extract_args is_space (suc fuel) done value
        ≡ extract_args is_space fuel (done ++ (arg ∷ [])) next
  unfolding extract_args
  extract_args_next fuel done value arg next n e s f = ground arith

  quoted_goes_on :
      (arg rest : WideString)
      → (is_empty (followed (quoted arg) rest) || has_dashes (followed (quoted arg) rest)) ≡ false
  quoted_goes_on [] [] = refl
  quoted_goes_on [] (y ∷ rest) = refl
  quoted_goes_on (x ∷ arg) [] = refl
  quoted_goes_on (x ∷ arg) (y ∷ rest) = refl

  is_empty-false : (arg : WideString) → arg ≢ [] → is_empty arg ≡ false
  is_empty-false [] h = absurd (h refl)
  is_empty-false (x ∷ arg) h = refl

  extract_args-write_args :
      (fuel : ℕ) (done args : Args) (rest : WideString)
      → length (write_args args rest) < fuel
      → All (λ (a : WideString). (a ≢ []) × All (λ (x : ℕ). x ≢ quote) a) args
      → IsNeat rest
      → EndsArgs rest
      → extract_args is_space fuel done (write_args args rest) ≡ some (done ++ args, rest)
  extract_args-write_args zero done args rest f h n e = absurd (omega arith)
  extract_args-write_args (suc fuel) done [] rest f h n e =
      extract_args_stop fuel done rest (trim-IsNeat rest n) e ∙ rw (append-nil done) refl
  extract_args-write_args (suc fuel) done (arg ∷ args) rest f h n e =
      let more : WideString = write_args args rest in
      extract_args_next fuel done (followed (quoted arg) more) arg more
        (trim-IsNeat (followed (quoted arg) more) (write_args-IsNeat (arg ∷ args) rest n))
        (quoted_goes_on arg more) (extract_string-followed arg more h.0.1)
        (is_empty-false arg h.0.0)
      ∙ extract_args-write_args fuel (done ++ (arg ∷ [])) args rest
          (omega (arith, length-quoted arg more)) h.1 n e
      ∙ (λ i. some (append_assoc done (arg ∷ []) args i, rest))

  strip_dashes-followed :
      (keyword rest : WideString)
      → strip_dashes (followed (dash ∷ dash ∷ keyword) rest) ≡ followed keyword rest
  strip_dashes-followed keyword [] = refl
  strip_dashes-followed keyword (y ∷ rest) = refl

  extract_command-followed :
      (keyword : WideString) (args : Args) (rest : WideString)
      → All (λ (x : ℕ). is_space x ≡ false) keyword
      → All (λ (a : WideString). (a ≢ []) × All (λ (x : ℕ). x ≢ quote) a) args
      → IsNeat rest
      → EndsArgs rest
      → extract_command is_space (followed (dash ∷ dash ∷ keyword) (write_args args rest))
        ≡ some (keyword ∷ args, rest)
  unfolding extract_command
  extract_command-followed keyword args rest k h n e =
      let more : WideString = write_args args rest in
      rw (strip_dashes-followed keyword more, extract_keyword-followed keyword more k)
        (extract_args-write_args (suc (length more)) (keyword ∷ []) args rest (omega arith) h n e)

  extract_loop_next :
      (fuel : ℕ) (result : List Args) (value rest : WideString) (command : Args)
      → trim is_space value ≡ value
      → is_empty value ≡ false
      → extract_command is_space value ≡ some (command, rest)
      → is_empty command ≡ false
      → extract_loop is_space (suc fuel) result value
        ≡ extract_loop is_space fuel (result ++ (command ∷ [])) rest
  unfolding extract_loop
  extract_loop_next fuel result value rest command n e c f = ground arith

  write_commands_ends : (commands : List Command) → EndsArgs (write_commands commands)
  write_commands_ends [] = refl
  write_commands_ends (c ∷ commands) = dashes (write_args c.args (write_commands commands))
    where
      dashes : (rest : WideString) → EndsArgs (followed (dash ∷ dash ∷ c.keyword) rest)
      dashes [] = refl
      dashes (y ∷ rest) = refl

  length-command :
      (keyword rest : WideString) → length rest < length (followed (dash ∷ dash ∷ keyword) rest)
  length-command keyword [] = omega arith
  length-command keyword (y ∷ rest) = omega (arith, length-append keyword (b' ' ∷ y ∷ rest))

  length-write_args-le :
      (args : List WideString) (rest : WideString) → length rest ≤ length (write_args args rest)
  length-write_args-le [] rest = omega arith
  length-write_args-le (arg ∷ args) rest =
      omega (arith, length-write_args-le args rest, length-quoted arg (write_args args rest))

  is_empty-followed : (x : ℕ) (text rest : WideString) → is_empty (followed (x ∷ text) rest) ≡ false
  is_empty-followed x text [] = refl
  is_empty-followed x text (y ∷ rest) = refl

  extract_loop-write_commands :
      (fuel : ℕ) (result : List Args) (commands : List Command)
      → length (write_commands commands) < fuel
      → All (IsWritable is_space) commands
      → extract_loop is_space fuel result (write_commands commands)
        ≡ some (result ++ map args_of commands, [])
  unfolding extract_loop trim trim_start trim_end
  extract_loop-write_commands zero result commands f h = absurd (omega arith)
  extract_loop-write_commands (suc fuel) result [] f h = rw (append-nil result) refl
  extract_loop-write_commands (suc fuel) result (c ∷ commands) f h =
      let rest : WideString = write_commands commands in
      let line : WideString = write_commands (c ∷ commands) in
      extract_loop_next fuel result line rest (args_of c)
        (trim-IsNeat line (write_commands-IsNeat (c ∷ commands) h))
        (is_empty-followed dash (dash ∷ c.keyword) (write_args c.args rest))
        (extract_command-followed c.keyword c.args rest h.0.keyword_plain h.0.args_filled
          (write_commands-IsNeat commands h.1) (write_commands_ends commands))
        refl
      ∙ extract_loop-write_commands fuel (result ++ (args_of c ∷ [])) commands
          (omega (
            arith,
            length-command c.keyword (write_args c.args rest),
            length-write_args-le c.args rest,
          ))
          h.1
      ∙ (λ i. some (append_assoc result (args_of c ∷ []) (map args_of commands) i, []))

  -- A line of commands, each with two dashes and its arguments in quotes, is taken apart into these
  -- commands with nothing left, if no keyword holds whitespace and no argument is empty or holds a
  -- quote: an argument may hold blanks and dashes.
  pub extract_commands-write_commands :
      (commands : List Command)
      → All (IsWritable is_space) commands
      → extract_commands is_space (write_commands commands) ≡ some (map args_of commands, [])
  unfolding extract_commands
  extract_commands-write_commands commands h =
      extract_loop-write_commands (suc (length (write_commands commands))) [] commands (omega arith)
        h
