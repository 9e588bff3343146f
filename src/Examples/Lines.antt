-- ===== src/Examples/Lines.antt =====
-- The theorems on paths, on command lines and on the command interpreter at small inputs: two
-- volumes, of which the first has a device name that begins the other's.
use hid_hide.Prelude.{
  ℕ, ◌≡◌, refl, Bool, true, false, some, List, [], ◌∷◌, ◌++◌, map, ◌==◌, if◌then◌else◌, All,
  WideString, codes, is_empty, arith,
}
use hid_hide.Client.MultiString.{multi_string_to_string_list, split_loop, c_str}
use hid_hide.Client.Sets.{emplace, emplace_all, compare_text, is_eq, string_list_to_path_set}
use hid_hide.Client.CliParsing.{Args, extract_commands}
use hid_hide.Client.CliParsing.Filled.{IsFilled, extract_commands_lem}
use hid_hide.Client.CliParsing.RoundTrip.{
  IsSpaceTest, Command, write_commands, args_of, extract_commands-write_commands,
}
use hid_hide.Client.DriverAccess.{done}
use hid_hide.Client.Volume.{
  Volumes, path_names, is_prefix, after, volume_mount_points, mount_points_of,
  dos_device_name_for_volume_name, volume_name_for_volume_mount_point, find_volume_mount_point,
  iterate_all_volume_mount_points, iterate_from_first, iterate_volumes, iterate_mount_points,
  keep_longest, file_name_to_full_image_name, full_image_name_to_file_name,
}
use hid_hide.Client.Volume.First.{full_image_name_to_file_name_lem}
use hid_hide.Client.Volume.RoundTrip.{
  BeatsAll, find_volume_mount_point_lem, full_image_name_to_file_name-file_name_to_full_image_name,
}
use hid_hide.Client.Commands.{Platform, Interpreter, dev_list}
use hid_hide.Client.Commands.Listing.{hide_command, hide_script, dev_list_lem}
use hid_hide.Client.CommandInterpreter.{execute_commands, start}
use hid_hide.Client.CommandInterpreter.Effects.{IsDeferred, start-IsDeferred}
use hid_hide.Client.CommandInterpreter.Restore.{execute_commands-restores}
use hid_hide.Examples.Clients.{willing, bare, wanted, b_below_c}

abbrev same : WideString → WideString → Bool
same a b = is_eq (compare_text a b)

abbrev volume_1 : WideString
volume_1 = codes "//?/1/"

abbrev volume_2 : WideString
volume_2 = codes "//?/2/"

abbrev ends_with_slash : WideString → Bool
ends_with_slash [] = false
ends_with_slash (x ∷ []) = x == b'/'
ends_with_slash (x ∷ y ∷ s) = ends_with_slash (y ∷ s)

abbrev two_volumes : Volumes
two_volumes = record {
  names = volume_1 ∷ volume_2 ∷ [];
  is_complete = true;
  query_dos_device = λ name.
      if same name (codes "1")
      then some (codes "D1" ++ (0 ∷ []))
      else some (codes "D12" ++ (0 ∷ []));
  query_path_names = λ name.
      if same name volume_1
      then path_names (codes "C/" ++ (0 ∷ 0 ∷ []))
      else path_names (codes "E/" ++ (0 ∷ 0 ∷ []));
  query_volume_name = λ mount.
      if same mount (codes "C/") then some (volume_1 ++ (0 ∷ [])) else some (volume_2 ++ (0 ∷ []));
  compare_path = compare_text;
  append = λ a b. if ends_with_slash a then a ++ b else a ++ (b'/' ∷ b);
}

mounts_of_1 : volume_mount_points two_volumes volume_1 ≡ done (codes "C/" ∷ [])
unfolding volume_mount_points mount_points_of compare_text multi_string_to_string_list split_loop
    string_list_to_path_set emplace_all emplace
mounts_of_1 = refl

device_of_1 : dos_device_name_for_volume_name two_volumes volume_1 ≡ done (codes "D1")
unfolding dos_device_name_for_volume_name compare_text c_str
device_of_1 = refl

-- A file of the second volume is taken to the first one.
full_image_name_to_file_name_lem_example :
    full_image_name_to_file_name two_volumes (codes "D12/x") ≡ done (codes "C//x")
full_image_name_to_file_name_lem_example =
    full_image_name_to_file_name_lem two_volumes [] (volume_2 ∷ []) volume_1 (codes "C/")
      (codes "D1") [] b'2' (codes "/x") refl tt mounts_of_1 refl device_of_1

found_mount : find_volume_mount_point two_volumes (codes "C/x") ≡ done (codes "C/")
unfolding find_volume_mount_point iterate_all_volume_mount_points iterate_from_first iterate_volumes
    iterate_mount_points keep_longest is_prefix volume_mount_points mount_points_of compare_text
    multi_string_to_string_list split_loop string_list_to_path_set emplace_all emplace
found_mount = refl

find_volume_mount_point_lem_example :
    (is_prefix (codes "C/") (codes "C/x") ≡ true)
    × All (BeatsAll two_volumes (codes "C/x") (codes "C/")) two_volumes.names
find_volume_mount_point_lem_example =
    find_volume_mount_point_lem two_volumes (codes "C/x") (codes "C/") found_mount

name_of_mount : volume_name_for_volume_mount_point two_volumes (codes "C/") ≡ done volume_1
unfolding volume_name_for_volume_mount_point compare_text c_str
name_of_mount = refl

full_image_name_to_file_name-file_name_to_full_image_name_example :
    after
      (file_name_to_full_image_name two_volumes (codes "C/x"))
      (full_image_name_to_file_name two_volumes)
    ≡ done (codes "C/x")
full_image_name_to_file_name-file_name_to_full_image_name_example =
    full_image_name_to_file_name-file_name_to_full_image_name two_volumes [] (volume_2 ∷ [])
      volume_1 (codes "C/") (codes "D1") [] b'/' (codes "x") found_mount refl name_of_mount refl
      mounts_of_1 device_of_1 tt refl refl

abbrev is_blank : ℕ → Bool
is_blank x = x == b' '

is_blank-IsSpaceTest : IsSpaceTest is_blank
is_blank-IsSpaceTest = record { blank = refl; not_quote = refl; not_dash = refl }

extract_commands_lem_example :
    (commands : List Args) × (rest : WideString) × (extract_commands is_blank (codes "--dev-hide b")
      ≡ some (commands, rest))
    × All IsFilled commands
    × ((is_empty rest ≡ false) → commands ≡ [])
extract_commands_lem_example = extract_commands_lem is_blank (codes "--dev-hide b")

abbrev two_commands : List Command
two_commands = hide_command (codes "b") ∷ record { keyword = codes "cloak-on"; args = [] } ∷ []

extract_commands-write_commands_example :
    extract_commands is_blank (write_commands two_commands) ≡ some (map args_of two_commands, [])
extract_commands-write_commands_example =
    extract_commands-write_commands is_blank is_blank-IsSpaceTest two_commands (
      record {
        keyword_plain = (refl, (refl, (refl, (refl, (refl, (refl, (refl, (refl, tt))))))));
        args_filled = (((λ e. cc), (omega arith, tt)), tt);
      },
      (
        record {
          keyword_plain = (refl, (refl, (refl, (refl, (refl, (refl, (refl, (refl, tt))))))));
          args_filled = tt;
        },
        tt,
      ),
    )

abbrev machine : Platform
machine = record {
  volumes = two_volumes;
  is_space = is_blank;
  string_table = λ id. codes "text";
  is_relative = λ path. false;
  extension = λ path. codes ".exe";
  exists = λ path. done true;
  found_devices = done [];
  same_logical = same;
  decimal = λ n. codes "0";
  product_version = codes "1";
  max_device_id_len = 200;
}

abbrev fresh : Interpreter machine willing
fresh = record { proxy = wanted; cancel = false; output = []; world = bare }

start-IsDeferred_example :
    IsDeferred machine willing bare
      (start machine willing false true (codes "--cloak-off") (codes "--cancel" ∷ []) fresh)
start-IsDeferred_example =
    start-IsDeferred machine willing false true (codes "--cloak-off") (codes "--cancel" ∷ []) fresh
      refl

dev_list_lem_example :
    (dev_list machine willing fresh
      ≡ (done tt, record fresh { output = [] ++ hide_script (codes "b" ∷ codes "c" ∷ []) }))
    × All
        (λ (device : WideString).
          extract_commands is_blank (write_commands (hide_command device ∷ []))
          ≡ some ((codes "dev-hide" ∷ device ∷ []) ∷ [], []))
        (codes "b" ∷ codes "c" ∷ [])
dev_list_lem_example =
    dev_list_lem machine willing fresh is_blank-IsSpaceTest
      (refl, (refl, (refl, (refl, (refl, (refl, (refl, (refl, tt))))))))
      (((λ e. cc), (omega arith, tt)), (((λ e. cc), (omega arith, tt)), tt))

abbrev emptied : Interpreter machine willing
emptied = record fresh { proxy = record wanted { blacklist = [] } }

execute_commands-restores_example :
    execute_commands machine willing
      (map (λ (device : WideString). codes "dev-hide" ∷ device ∷ []) (codes "b" ∷ codes "c" ∷ []))
      emptied
    ≡ (
      done [],
      record emptied { proxy = record emptied.proxy { blacklist = codes "b" ∷ codes "c" ∷ [] } },
    )
execute_commands-restores_example =
    execute_commands-restores machine willing (codes "b" ∷ codes "c" ∷ []) emptied refl refl
      ((b_below_c, tt), (tt, tt)) (omega arith, (omega arith, tt))
