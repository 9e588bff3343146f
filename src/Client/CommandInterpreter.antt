-- ===== src/Client/CommandInterpreter.antt =====
-- HidHideCLI/src/CommandInterpreter.cpp, and the table of commands and the help text of
-- HidHideCLI/src/Commands.cpp: from a command line to the changes that reach the driver.
pub mod Effects
pub mod Restore
use hid_hide.Prelude.{
  is_empty, ℕ, zero, suc, ◌+◌, ◌-◌, Bool, true, false, not, ◌&&◌, ◌||◌, Option, none, some, List,
  [], ◌∷◌, ◌++◌, length, ltb, if◌then◌else◌, WideString, codes,
}
use hid_hide.Client.Sets.{compare_text, is_eq}
use hid_hide.Client.CliParsing.{Args, extract_commands}
use hid_hide.Client.DriverAccess.{Device, Outcome, done, thrown, and_then}
use hid_hide.Client.FilterDriverProxy.{Proxy, apply_configuration_changes}
use hid_hide.Client.Volume.{after}
use hid_hide.Client.Commands.{
  CommandId, app_list_id, app_reg_id, app_unreg_id, app_clean_id, inv_off_id, inv_on_id,
  inv_state_id, cancel_id, cloak_off_id, cloak_on_id, cloak_state_id, cloak_toggle_id, dev_all_id,
  dev_gaming_id, dev_hide_id, dev_list_id, dev_unhide_id, help_id, version_id, StringId,
  command_not_recognized, syntax_error, dialog_application, console_guidance, help_guidance,
  syntax_no_arguments, syntax_app_path, syntax_dev_inst_path, description_of, Platform,
  val_no_arguments, val_one_device_instance_path, val_one_fully_qualified_executable_path,
  Interpreter, Step, print, from, version, cancel, app_clean, app_reg, app_unreg, app_list,
  dev_hide, dev_unhide, dev_list, dev_print, cloak, cloak_toggle, cloak_state, inv, inv_state,
}
use hid_hide.Client.Json.{endl}

-- An entry of the map: the keyword, the syntax and the method.
pub record Registered : Type 0 where
  pub keyword : WideString
  pub syntax : StringId
  pub command : CommandId

abbrev registered : WideString → StringId → CommandId → Registered
registered keyword syntax command = record { keyword = keyword; syntax = syntax; command = command }

-- m_RegisteredCommands, a std::map, in the order of its keys.
abbrev pub registered_commands : List Registered
registered_commands =
    registered (codes "app-clean") syntax_no_arguments app_clean_id
    ∷ registered (codes "app-list") syntax_no_arguments app_list_id
    ∷ registered (codes "app-reg") syntax_app_path app_reg_id
    ∷ registered (codes "app-unreg") syntax_app_path app_unreg_id
    ∷ registered (codes "cancel") syntax_no_arguments cancel_id
    ∷ registered (codes "cloak-off") syntax_no_arguments cloak_off_id
    ∷ registered (codes "cloak-on") syntax_no_arguments cloak_on_id
    ∷ registered (codes "cloak-state") syntax_no_arguments cloak_state_id
    ∷ registered (codes "cloak-toggle") syntax_no_arguments cloak_toggle_id
    ∷ registered (codes "dev-all") syntax_no_arguments dev_all_id
    ∷ registered (codes "dev-gaming") syntax_no_arguments dev_gaming_id
    ∷ registered (codes "dev-hide") syntax_dev_inst_path dev_hide_id
    ∷ registered (codes "dev-list") syntax_no_arguments dev_list_id
    ∷ registered (codes "dev-unhide") syntax_dev_inst_path dev_unhide_id
    ∷ registered (codes "help") syntax_no_arguments help_id
    ∷ registered (codes "inv-off") syntax_no_arguments inv_off_id
    ∷ registered (codes "inv-on") syntax_no_arguments inv_on_id
    ∷ registered (codes "inv-state") syntax_no_arguments inv_state_id
    ∷ registered (codes "version") syntax_no_arguments version_id
    ∷ []

-- m_RegisteredCommands.find
unfoldable pub find_command : WideString → List Registered → Option CommandId
find_command keyword [] = none
find_command keyword (r ∷ commands) =
    if is_eq (compare_text r.keyword keyword) then some r.command else find_command keyword commands

-- std::max_element of the sizes
unfoldable pub max_size : (Registered → ℕ) → List Registered → ℕ
max_size size [] = 0
max_size size (r ∷ commands) =
    let rest = max_size size commands in if ltb rest (size r) then size r else rest

-- std::setw(n) << L" ", which writes one blank at least.
unfoldable pub setw_blank : ℕ → WideString
setw_blank zero = codes " "
setw_blank (suc zero) = codes " "
setw_blank (suc (suc n)) = 32 ∷ setw_blank (suc n)

module _ (h : Platform) where
  -- CommandSize, SyntaxSize
  abbrev pub command_size : Registered → ℕ
  command_size r = length r.keyword

  abbrev pub syntax_size : Registered → ℕ
  syntax_size r = length (h.string_table r.syntax)

  -- MaxCommandSize, MaxSyntaxSize
  unfoldable pub max_command_size : ℕ
  max_command_size = max_size command_size registered_commands

  unfoldable pub max_syntax_size : ℕ
  max_syntax_size = max_size syntax_size registered_commands

  -- The loop of Help.
  unfoldable pub help_lines : List Registered → WideString
  help_lines [] = []
  help_lines (r ∷ commands) =
      codes "--"
      ++ (r.keyword
          ++ (setw_blank (1 + max_command_size - command_size r)
              ++ (h.string_table r.syntax
                  ++ (setw_blank (1 + max_syntax_size - syntax_size r)
                      ++ (h.string_table (description_of r.command)
                          ++ (endl ++ help_lines commands))))))

  -- The validation that the table binds to a command.
  unfoldable pub validate : CommandId → Args → Outcome WideString
  validate app_reg_id args = val_one_fully_qualified_executable_path h args
  validate app_unreg_id args = val_one_fully_qualified_executable_path h args
  validate dev_hide_id args = val_one_device_instance_path h args
  validate dev_unhide_id args = val_one_device_instance_path h args
  validate _ args = val_no_arguments h args

  module _ (d : Device) where
    -- Help
    unfoldable pub help : Interpreter h d → Step h d Unit
    help s =
        print h d
          (endl
            ++ (help_lines registered_commands
                ++ (endl ++ (h.string_table help_guidance ++ (endl ++ endl)))))
          s

    -- The method that the table binds to a command.
    unfoldable pub execute : CommandId → Args → Interpreter h d → Step h d Unit
    execute app_list_id args s = app_list h d s
    execute app_reg_id args s = app_reg h d args s
    execute app_unreg_id args s = app_unreg h d args s
    execute app_clean_id args s = app_clean h d s
    execute inv_off_id args s = inv h d false s
    execute inv_on_id args s = inv h d true s
    execute inv_state_id args s = inv_state h d s
    execute cancel_id args s = cancel h d s
    execute cloak_off_id args s = cloak h d false s
    execute cloak_on_id args s = cloak h d true s
    execute cloak_state_id args s = cloak_state h d s
    execute cloak_toggle_id args s = cloak_toggle h d s
    execute dev_all_id args s = dev_print h d false s
    execute dev_gaming_id args s = dev_print h d true s
    execute dev_hide_id args s = dev_hide h d args s
    execute dev_list_id args s = dev_list h d s
    execute dev_unhide_id args s = dev_unhide h d args s
    execute help_id args s = help s
    execute version_id args s = version h d s

    -- command.at(0)
    unfoldable pub keyword_of : Args → Outcome WideString
    keyword_of [] = thrown
    keyword_of (keyword ∷ args) = done keyword

    -- What ExecuteCommands does with the command that it found.
    unfoldable pub execute_found : Option CommandId → Args → Interpreter h d → Step h d WideString
    execute_found none command s = (done (h.string_table command_not_recognized), s)
    execute_found (some id) command s = and_then (from h d (validate id command) s) (λ result s'.
        if is_empty result
        then and_then (execute id command s') (λ u s''. (done [], s''))
        else (done result, s'))

    -- The body of the loop of ExecuteCommands, before the next command.
    unfoldable pub execute_command : Args → Interpreter h d → Step h d WideString
    execute_command command s =
        and_then (from h d (keyword_of command) s)
          (λ keyword s'. execute_found (find_command keyword registered_commands) command s')

    -- ExecuteCommands: the first error message ends it.
    unfoldable pub execute_commands : List Args → Interpreter h d → Step h d WideString
    execute_commands [] s = (done [], s)
    execute_commands (command ∷ commands) s =
        and_then (execute_command command s)
          (λ result s'. if is_empty result then execute_commands commands s' else (done result, s'))

    -- What Start does with the commands of a line. The parser ends on every line: `none` is its
    -- fuel, which is enough.
    unfoldable pub run_line :
        Option (List Args × WideString) → Interpreter h d → Step h d WideString
    run_line none s = (thrown, s)
    run_line (some (commands, line)) s =
        if is_empty line
        then execute_commands commands s
        else (done (h.string_table syntax_error), s)

    -- The end of Start: ApplyConfigurationChanges.
    unfoldable pub apply : Interpreter h d → Step h d Unit
    apply s =
        let r = apply_configuration_changes d h.volumes.compare_path s.proxy s.world in
        (r.0, record s { world = r.1 })

    abbrev pub prompt : Bool → Interpreter h d → Interpreter h d
    prompt true s = record s { output = s.output ++ codes "$ " }
    prompt false s = s

    -- The loop of Start: the line that it works on, and the lines that wcin still has.
    unfoldable pub start_loop :
        Bool → Bool → WideString → List WideString → Interpreter h d → Step h d Unit
    start_loop interactive script line [] s =
        and_then (run_line (extract_commands h.is_space line) s) (λ message s'.
          if not (is_empty message) && not interactive
          then (done tt, s')
          else (if s'.cancel then (done tt, s') else apply (prompt interactive s')))
    start_loop interactive script line (next ∷ lines) s =
        and_then (run_line (extract_commands h.is_space line) s) (λ message s'.
          if not (is_empty message) && not interactive
          then (done tt, s')
          else (if s'.cancel
              then (done tt, s')
              else (if interactive || script
                  then start_loop interactive script next lines (prompt interactive s')
                  else apply s')))

    -- Start
    unfoldable pub start :
        Bool → Bool → WideString → List WideString → Interpreter h d → Step h d Unit
    start interactive script line lines s = start_loop interactive script line lines (
        if interactive
        then record s {
          output =
              s.output
              ++ (endl
                  ++ (h.string_table dialog_application
                      ++ (endl ++ (h.string_table console_guidance ++ (endl ++ endl)))));
        }
        else s)
