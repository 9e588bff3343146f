-- ===== src/Client/Commands.antt =====
-- HidHideCLI/src/Commands.cpp: the validation of arguments and the commands that show or change a
-- setting. The file system, the string table and the devices that are found are parameters.
pub mod Listing
use hid_hide.Prelude.{
  is_empty, ℕ, ◌<◌, Bool, true, false, not, Option, none, some, List, [], ◌∷◌, ◌++◌, length,
  get_elem?, ltb, ◌==◌, if◌then◌else◌, WideString, codes,
}
use hid_hide.Client.Sets.{is_eq}
use hid_hide.Client.CliParsing.{Args, quote}
use hid_hide.Client.DriverAccess.{Device, Outcome, done, thrown, and_then}
use hid_hide.Client.FilterDriverProxy.{
  Proxy, Run, proxy_set_active, proxy_set_inverse, blacklist_add_entry, blacklist_del_entry,
  whitelist_add_entry, whitelist_del_entry,
}
use hid_hide.Client.Hid.{HidDevice, Groups, hid_devices}
use hid_hide.Client.Json.{endl, write_groups}
use hid_hide.Client.Volume.{
  Volumes, after, file_name_to_full_image_name, full_image_name_to_file_name,
}

-- The commands, by the method that is bound to them.
pub data CommandId : Type 0 where
  app_list_id app_reg_id app_unreg_id app_clean_id inv_off_id inv_on_id inv_state_id : CommandId
  cancel_id cloak_off_id cloak_on_id cloak_state_id cloak_toggle_id dev_all_id : CommandId
  dev_gaming_id dev_hide_id dev_list_id dev_unhide_id help_id version_id : CommandId

-- The identifiers of the string table.
pub data StringId : Type 0 where
  wrong_number_of_arguments dev_inst_path_too_long not_a_fully_qualified_path : StringId
  not_an_executable not_on_a_volume command_not_recognized syntax_error : StringId
  dialog_application console_guidance help_guidance : StringId
  syntax_no_arguments syntax_app_path syntax_dev_inst_path : StringId
  description_of : CommandId → StringId

-- What the commands ask of Windows and of the build.
pub record Platform : Type 0 where
  pub volumes : Volumes
  pub is_space : ℕ → Bool
  pub string_table : StringId → WideString
  pub is_relative : WideString → Bool
  pub extension : WideString → WideString
  pub exists : WideString → Outcome Bool
  pub found_devices : Outcome (List HidDevice)
  pub same_logical : WideString → WideString → Bool
  pub decimal : ℕ → WideString
  pub product_version : WideString
  pub max_device_id_len : ℕ

abbrev pub dot_exe : WideString
dot_exe = codes ".exe"

abbrev pub dot_com : WideString
dot_com = codes ".com"

abbrev pub dot_bin : WideString
dot_bin = codes ".bin"

-- args.at(1)
unfoldable pub at_one : Args → Outcome WideString
at_one args = elim (get_elem? args 1) [ none ↦ thrown | some arg ↦ done arg ]

module _ (h : Platform) where
  -- operator== of two paths
  abbrev pub same_path : WideString → WideString → Bool
  same_path a b = is_eq (h.volumes.compare_path a b)

  -- FileIsAnApplication
  unfoldable pub file_is_an_application : WideString → Bool
  file_is_an_application file_name =
      if same_path dot_exe (h.extension file_name)
      then true
      else (if same_path dot_com (h.extension file_name)
          then true
          else same_path dot_bin (h.extension file_name))

  -- ValNoArguments
  unfoldable pub val_no_arguments : Args → Outcome WideString
  val_no_arguments args =
      if length args == 1 then done [] else done (h.string_table wrong_number_of_arguments)

  -- ValOneDeviceInstancePath
  unfoldable pub val_one_device_instance_path : Args → Outcome WideString
  val_one_device_instance_path args =
      if not (length args == 2)
      then done (h.string_table wrong_number_of_arguments)
      else after (at_one args) (λ path.
        if ltb h.max_device_id_len (length path)
        then done (h.string_table dev_inst_path_too_long)
        else done [])

  -- ValOneFullyQualifiedExecutablePath
  unfoldable pub val_one_fully_qualified_executable_path : Args → Outcome WideString
  val_one_fully_qualified_executable_path args =
      if not (length args == 2)
      then done (h.string_table wrong_number_of_arguments)
      else after (at_one args) (λ file_name.
        if h.is_relative file_name
        then done (h.string_table not_a_fully_qualified_path)
        else (if not (file_is_an_application file_name)
            then done (h.string_table not_an_executable)
            else after (file_name_to_full_image_name h.volumes file_name) (λ full_image_name.
              if is_empty full_image_name then done (h.string_table not_on_a_volume) else done [])))

  module _ (d : Device) where
    -- The object, with what it has written to wcout.
    pub record Interpreter : Type 0 where
      pub proxy : Proxy
      pub cancel : Bool
      pub output : WideString
      pub world : d.World

    abbrev pub Step : Type 0 → Type 0
    Step A = Outcome A × Interpreter

    abbrev pub print : WideString → Interpreter → Step Unit
    print text s = (done tt, record s { output = s.output ++ text })

    -- A call of the proxy.
    abbrev pub call : Run d → Interpreter → Step Unit
    call r s = (r.outcome, record s { proxy = r.proxy; world = r.world })

    abbrev pub from : {A : Type 0} → Outcome A → Interpreter → Step A
    from o s = (o, s)

    -- Version
    unfoldable pub version : Interpreter → Step Unit
    version s = print (h.product_version ++ endl) s

    -- Cancel
    unfoldable pub cancel : Interpreter → Step Unit
    cancel s = (done tt, record s { cancel = true })

    -- The loop of AppClean, over the list as it was at its start.
    unfoldable pub app_clean_loop : List WideString → Interpreter → Step Unit
    app_clean_loop [] s = (done tt, s)
    app_clean_loop (name ∷ names) s =
        and_then (from (after (full_image_name_to_file_name h.volumes name) h.exists) s)
          (λ found s'.
            and_then
              (if not found
                then call (whitelist_del_entry d h.volumes.compare_path name s'.proxy s'.world) s'
                else (done tt, s'))
              (λ u s''. app_clean_loop names s''))

    -- AppClean
    unfoldable pub app_clean : Interpreter → Step Unit
    app_clean s = app_clean_loop s.proxy.whitelist s

    -- AppReg
    unfoldable pub app_reg : Args → Interpreter → Step Unit
    app_reg args s =
        and_then (from (after (at_one args) (file_name_to_full_image_name h.volumes)) s)
          (λ name s'. call (whitelist_add_entry d h.volumes.compare_path name s'.proxy s'.world) s')

    -- AppUnreg
    unfoldable pub app_unreg : Args → Interpreter → Step Unit
    app_unreg args s =
        and_then (from (after (at_one args) (file_name_to_full_image_name h.volumes)) s)
          (λ name s'. call (whitelist_del_entry d h.volumes.compare_path name s'.proxy s'.world) s')

    -- The loop of AppList.
    unfoldable pub app_list_loop : List WideString → Interpreter → Step Unit
    app_list_loop [] s = (done tt, s)
    app_list_loop (name ∷ names) s =
        and_then (from (full_image_name_to_file_name h.volumes name) s) (λ file_name s'.
          and_then (print (codes "--app-reg " ++ (quote ∷ (file_name ++ (quote ∷ endl)))) s')
            (λ u s''. app_list_loop names s''))

    -- AppList
    unfoldable pub app_list : Interpreter → Step Unit
    app_list s = app_list_loop s.proxy.whitelist s

    -- DevHide
    unfoldable pub dev_hide : Args → Interpreter → Step Unit
    dev_hide args s =
        and_then (from (at_one args) s)
          (λ path s'. call (blacklist_add_entry d path s'.proxy s'.world) s')

    -- DevUnhinde
    unfoldable pub dev_unhide : Args → Interpreter → Step Unit
    dev_unhide args s =
        and_then (from (at_one args) s)
          (λ path s'. call (blacklist_del_entry d path s'.proxy s'.world) s')

    -- The loop of DevList.
    unfoldable pub dev_list_loop : List WideString → Interpreter → Step Unit
    dev_list_loop [] s = (done tt, s)
    dev_list_loop (device ∷ devices) s =
        and_then (print (codes "--dev-hide " ++ (quote ∷ (device ++ (quote ∷ endl)))) s)
          (λ u s'. dev_list_loop devices s')

    -- DevList
    unfoldable pub dev_list : Interpreter → Step Unit
    dev_list s = dev_list_loop s.proxy.blacklist s

    -- HidDevices over what the iteration of the devices finds, which may throw. `none` is the fuel
    -- of its loop, which is enough.
    unfoldable pub devices_of : Bool → Outcome (List HidDevice) → Outcome Groups
    devices_of gaming_only thrown = thrown
    devices_of gaming_only (done devices) = elim (hid_devices h.same_logical gaming_only devices) [
      | none ↦ thrown
      | some groups ↦ done groups
    ]

    -- DevGaming, and DevAll with `false`.
    unfoldable pub dev_print : Bool → Interpreter → Step Unit
    dev_print gaming_only s =
        and_then (from (devices_of gaming_only h.found_devices) s)
          (λ groups s'. print (write_groups h.decimal groups ++ endl) s')

    -- CloakOn and CloakOff
    unfoldable pub cloak : Bool → Interpreter → Step Unit
    cloak active s = call (proxy_set_active d active s.proxy s.world) s

    -- CloakToggle
    unfoldable pub cloak_toggle : Interpreter → Step Unit
    cloak_toggle s = call (proxy_set_active d (not s.proxy.active) s.proxy s.world) s

    -- CloakState
    unfoldable pub cloak_state : Interpreter → Step Unit
    cloak_state s =
        print ((if s.proxy.active then codes "--cloak-on" else codes "--cloak-off") ++ endl) s

    -- InvOn and InvOff
    unfoldable pub inv : Bool → Interpreter → Step Unit
    inv inverse s = call (proxy_set_inverse d inverse s.proxy s.world) s

    -- InvState
    unfoldable pub inv_state : Interpreter → Step Unit
    inv_state s =
        print ((if s.proxy.inverse then codes "--inv-on" else codes "--inv-off") ++ endl) s
