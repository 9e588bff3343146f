-- ===== src/Client/Commands/Listing.antt =====
-- What DevList writes, and what its output does when it is given back.
use hid_hide.Prelude.{
  ◌≡◌, ◌≢◌, sym, ap, ◌∙◌, List, [], ◌∷◌, ◌++◌, some, All, WideString, codes, Bool, false, ℕ,
}
use mathlib.Core.List.{append_assoc, append-nil}
use hid_hide.Client.CliParsing.{quote, extract_commands}
use hid_hide.Client.CliParsing.RoundTrip.{
  IsSpaceTest, Command, write_commands, IsWritable, extract_commands-write_commands,
}
use hid_hide.Client.DriverAccess.{Device, done, and_then}
use hid_hide.Client.Commands.{Platform, Interpreter, dev_list_loop, dev_list}
use hid_hide.Client.Json.{endl}

-- The command that hides a device.
abbrev pub hide_command : WideString → Command
hide_command device = record { keyword = codes "dev-hide"; args = device ∷ [] }

-- A line for each device.
abbrev pub hide_script : List WideString → WideString
hide_script [] = []
hide_script (device ∷ devices) =
    (write_commands (hide_command device ∷ []) ++ endl) ++ hide_script devices

-- A device instance path that can stand between quotes.
abbrev pub IsQuotable : WideString → Type 0
IsQuotable s = (s ≢ []) × All (λ (x : ℕ). x ≢ quote) s

hide_command-IsWritable :
    (is_space : ℕ → Bool) (device : WideString)
    → All (λ (x : ℕ). is_space x ≡ false) (codes "dev-hide")
    → IsQuotable device
    → IsWritable is_space (hide_command device)
hide_command-IsWritable is_space device plain q = record {
  keyword_plain = plain;
  args_filled = (q, tt);
}

module _ (h : Platform) (d : Device) where
  dev_list_loop_lem :
      (devices : List WideString) (s : Interpreter h d)
      → dev_list_loop h d devices s
        ≡ (done tt, record s { output = s.output ++ hide_script devices })
  unfolding dev_list_loop and_then
  dev_list_loop_lem [] s = λ i. (done tt, record s { output = sym (append-nil s.output) i })
  dev_list_loop_lem (device ∷ devices) s =
      let line : WideString = write_commands (hide_command device ∷ []) ++ endl in
      let same : codes "--dev-hide " ++ (quote ∷ (device ++ (quote ∷ endl))) ≡ line =
        ap (λ (x : WideString). codes "--dev-hide " ++ (quote ∷ x))
          (sym (append_assoc device (quote ∷ []) endl)) in
      (λ i. dev_list_loop h d devices (record s { output = s.output ++ same i }))
      ∙ dev_list_loop_lem devices (record s { output = s.output ++ line })
      ∙ (λ i. (done tt, record s { output = append_assoc s.output line (hide_script devices) i }))

  All-extract_commands :
      (devices : List WideString)
      → IsSpaceTest h.is_space
      → All (λ (x : ℕ). h.is_space x ≡ false) (codes "dev-hide")
      → All IsQuotable devices
      → All
          (λ (device : WideString).
            extract_commands h.is_space (write_commands (hide_command device ∷ []))
            ≡ some ((codes "dev-hide" ∷ device ∷ []) ∷ [], []))
          devices
  All-extract_commands [] t plain q = tt
  All-extract_commands (device ∷ devices) t plain q = (
    extract_commands-write_commands h.is_space t (hide_command device ∷ [])
        (hide_command-IsWritable h.is_space device plain q.0, tt),
    All-extract_commands devices t plain q.1,
  )

  -- DevList writes a line for each hidden device, in the order of the set, and every line is parsed
  -- back as the one command that hides that device, when the paths are not empty and hold no quote
  -- and iswspace is as usual on the characters of the command.
  pub dev_list_lem :
      (s : Interpreter h d)
      → IsSpaceTest h.is_space
      → All (λ (x : ℕ). h.is_space x ≡ false) (codes "dev-hide")
      → All IsQuotable s.proxy.blacklist
      → (dev_list h d s
          ≡ (done tt, record s { output = s.output ++ hide_script s.proxy.blacklist }))
        × All
            (λ (device : WideString).
              extract_commands h.is_space (write_commands (hide_command device ∷ []))
              ≡ some ((codes "dev-hide" ∷ device ∷ []) ∷ [], []))
            s.proxy.blacklist
  unfolding dev_list
  dev_list_lem s t plain q =
      (dev_list_loop_lem s.proxy.blacklist s, All-extract_commands s.proxy.blacklist t plain q)
