-- ===== src/Client/Volume.antt =====
-- HidHideCLI/src/Volume.cpp: from the name of a file to the full image name that the driver uses,
-- and back. The Windows calls and the operator / of std::filesystem::path are parameters.
pub mod First
pub mod RoundTrip
use hid_hide.Prelude.{
  is_empty, ℕ, suc, ◌+◌, ◌-◌, Ordering, Bool, true, false, ◌&&◌, Option, none, some, List, [], ◌∷◌,
  ◌++◌, length, take, drop, ◌==◌, ltb, if◌then◌else◌, WideString,
}
use hid_hide.Client.MultiString.{c_str, multi_string_to_string_list}
use hid_hide.Client.Sets.{string_list_to_path_set}
use hid_hide.Client.DriverAccess.{Outcome, done, thrown}

-- The result of GetVolumePathNamesForVolumeNameW: the buffer, ERROR_MORE_DATA, or another error.
pub data PathNames : Type 0 where
  path_names : List ℕ → PathNames
  more_data : PathNames
  path_names_failed : PathNames

-- What Windows answers: the volume names that FindFirstVolumeW and FindNextVolumeW give in turn and
-- whether the last call ends with ERROR_NO_MORE_FILES; the buffer of QueryDosDeviceW and of
-- GetVolumeNameForVolumeMountPointW, `none` on an error; and the order and the operator / of
-- paths.
pub record Volumes : Type 0 where
  pub names : List WideString
  pub is_complete : Bool
  pub query_dos_device : WideString → Option (List ℕ)
  pub query_path_names : WideString → PathNames
  pub query_volume_name : WideString → Option (List ℕ)
  pub compare_path : WideString → WideString → Ordering
  pub append : WideString → WideString → WideString

-- 0 == prefix.compare(0, npos, s, 0, prefix.size())
unfoldable pub is_prefix : WideString → WideString → Bool
is_prefix [] s = true
is_prefix (x ∷ prefix) [] = false
is_prefix (x ∷ prefix) (y ∷ s) = (x == y) && is_prefix prefix s

-- A buffer as a text, or the throw of a call that failed.
abbrev pub text_of : Option (List ℕ) → Outcome WideString
text_of none = thrown
text_of (some buffer) = done (c_str buffer)

abbrev pub after : {A B : Type 0} → Outcome A → (A → Outcome B) → Outcome B
after thrown next = thrown
after (done a) next = next a

-- A step of an iteration: the captured variable after it, and whether to go on.
abbrev pub Callback : Type 0 → Type 0
Callback S = WideString → WideString → S → Outcome (S × Bool)

module _ (v : Volumes) where
  -- DosDeviceNameForVolumeName: substr throws when the name has less than four characters.
  unfoldable pub dos_device_name_for_volume_name : WideString → Outcome WideString
  dos_device_name_for_volume_name volume_name =
      if ltb (length volume_name) 4
      then thrown
      else text_of (v.query_dos_device (take (length volume_name - 5) (drop 4 volume_name)))

  unfoldable pub mount_points_of : PathNames → Outcome (List WideString)
  mount_points_of (path_names buffer) =
      done (string_list_to_path_set v.compare_path (multi_string_to_string_list buffer))
  mount_points_of more_data = done []
  mount_points_of path_names_failed = thrown

  -- VolumeMountPoints
  unfoldable pub volume_mount_points : WideString → Outcome (List WideString)
  unfolding mount_points_of
  volume_mount_points volume_name = mount_points_of (v.query_path_names volume_name)

  module _ {S : Type 0} (callback : Callback S) where
    -- The inner loop of IterateAllVolumeMountPointsForFileStorage.
    unfoldable pub iterate_mount_points : WideString → List WideString → S → Outcome (S × Bool)
    iterate_mount_points volume_name [] s = done (s, true)
    iterate_mount_points volume_name (mount_point ∷ mount_points) s =
        elim (callback volume_name mount_point s) [
          | thrown ↦ thrown
          | done (s', false) ↦ done (s', false)
          | done (s', true) ↦ iterate_mount_points volume_name mount_points s'
        ]

    -- The outer loop.
    unfoldable pub iterate_volumes : List WideString → S → Outcome S
    iterate_volumes [] s = if v.is_complete then done s else thrown
    iterate_volumes (volume_name ∷ names) s =
        elim (after (volume_mount_points volume_name)
          (λ mount_points. iterate_mount_points volume_name mount_points s)) [
            | thrown ↦ thrown
            | done (s', false) ↦ done s'
            | done (s', true) ↦ iterate_volumes names s'
          ]

    -- FindFirstVolumeW fails when there is no volume.
    unfoldable pub iterate_from_first : List WideString → S → Outcome S
    iterate_from_first [] s = thrown
    iterate_from_first (volume_name ∷ names) s = iterate_volumes (volume_name ∷ names) s

    -- IterateAllVolumeMountPointsForFileStorage
    unfoldable pub iterate_all_volume_mount_points : S → Outcome S
    iterate_all_volume_mount_points s = iterate_from_first v.names s

  -- The lambda of FindVolumeMountPointForFullyQualifiedFileName.
  unfoldable pub keep_longest : WideString → Callback WideString
  keep_longest file_name volume_name mount_point result =
      if is_prefix mount_point file_name && ltb (length result) (length mount_point)
      then done (mount_point, true)
      else done (result, true)

  -- FindVolumeMountPointForFullyQualifiedFileName
  unfoldable pub find_volume_mount_point : WideString → Outcome WideString
  find_volume_mount_point file_name = iterate_all_volume_mount_points (keep_longest file_name) []

  -- The lambda of FindVolumeMountPointAndDosDeviceNameForFullImageName.
  unfoldable pub stop_at_first : WideString → Callback (WideString × WideString)
  stop_at_first full_image_name volume_name mount_point result =
      after (dos_device_name_for_volume_name volume_name) (λ dos_device_name.
        if is_prefix dos_device_name full_image_name
        then done ((mount_point, dos_device_name), false)
        else done (result, true))

  -- FindVolumeMountPointAndDosDeviceNameForFullImageName
  unfoldable pub find_volume_mount_point_and_dos_device_name :
      WideString → Outcome (WideString × WideString)
  find_volume_mount_point_and_dos_device_name full_image_name =
      iterate_all_volume_mount_points (stop_at_first full_image_name) ([], [])

  -- VolumeNameForVolumeMountPoint
  unfoldable pub volume_name_for_volume_mount_point : WideString → Outcome WideString
  volume_name_for_volume_mount_point mount_point = text_of (v.query_volume_name mount_point)

  -- FileNameToFullImageName: empty when no volume stores the file.
  unfoldable pub file_name_to_full_image_name : WideString → Outcome WideString
  file_name_to_full_image_name file_name = after (find_volume_mount_point file_name) (λ mount_point.
      if is_empty mount_point
      then done []
      else after (volume_name_for_volume_mount_point mount_point) (λ volume_name.
        after (dos_device_name_for_volume_name volume_name) (λ dos_device_name.
          done (v.append dos_device_name (drop (length mount_point) file_name)))))

  -- FullImageNameToFileName: the last substr throws when nothing follows the device name.
  unfoldable pub full_image_name_to_file_name : WideString → Outcome WideString
  full_image_name_to_file_name full_image_name =
      after (find_volume_mount_point_and_dos_device_name full_image_name)
        (λ (mount_point, dos_device_name).
          if is_empty mount_point
          then done []
          else (if ltb (length full_image_name) (length dos_device_name + 1)
              then thrown
              else done (v.append mount_point (drop (length dos_device_name + 1) full_image_name))))
