-- ===== src/Client/Volume/First.antt =====
-- Which volume FullImageNameToFileName takes.
use hid_hide.Prelude.{
  is_empty, ℕ, ◌+◌, ◌≡◌, refl, ap, ◌∙◌, true, false, List, [], ◌∷◌, ◌++◌, subst, length, drop, ltb,
  WideString, arith, length-append, drop-append,
}
use mathlib.Core.List.{append-nil}
use hid_hide.Client.DriverAccess.{done, thrown}
use hid_hide.Client.Volume.{
  Volumes, is_prefix, dos_device_name_for_volume_name, volume_mount_points, iterate_mount_points,
  iterate_volumes, iterate_all_volume_mount_points, iterate_from_first, stop_at_first,
  find_volume_mount_point_and_dos_device_name, full_image_name_to_file_name,
}

pub is_prefix-append : (s t : WideString) → is_prefix s (s ++ t) ≡ true
unfolding is_prefix
is_prefix-append [] t = refl
is_prefix-append (x ∷ s) t = ground (arith, is_prefix-append s t)

-- The volumes `front` have no mount point, or a device name that the full image name does not
-- begin with.
abbrev pub Passed : Volumes → WideString → List WideString → Type 0
Passed v name [] = Unit
Passed v name (volume ∷ front) =
    ((mounts : List WideString) × (device : WideString) × (volume_mount_points v volume
        ≡ done mounts)
      × (dos_device_name_for_volume_name v volume ≡ done device)
      × (is_prefix device name ≡ false))
    × Passed v name front

iterate_from_first_lem :
    (v : Volumes) (name : WideString) (r : WideString × WideString) (front : List WideString)
    (volume : WideString) (rest : List WideString)
    → iterate_volumes v (stop_at_first v name) (front ++ (volume ∷ rest)) ([], []) ≡ done r
    → iterate_from_first v (stop_at_first v name) (front ++ (volume ∷ rest)) ([], []) ≡ done r
unfolding iterate_from_first
iterate_from_first_lem v name r [] volume rest h = h
iterate_from_first_lem v name r (x ∷ front) volume rest h = h

module _ (v : Volumes) where
  iterate_mount_points_passed :
      (name volume device : WideString) (mounts : List WideString)
      (result : WideString × WideString)
      → dos_device_name_for_volume_name v volume ≡ done device
      → is_prefix device name ≡ false
      → iterate_mount_points v (stop_at_first v name) volume mounts result ≡ done (result, true)
  unfolding iterate_mount_points stop_at_first
  iterate_mount_points_passed name volume device [] result e n = refl
  iterate_mount_points_passed name volume device (m ∷ mounts) result e n =
      rw (iterate_mount_points, stop_at_first, e, n)
        (iterate_mount_points_passed name volume device mounts result e n)

  iterate_volumes-Passed :
      (name : WideString) (front rest : List WideString) (result : WideString × WideString)
      → Passed v name front
      → iterate_volumes v (stop_at_first v name) (front ++ rest) result
        ≡ iterate_volumes v (stop_at_first v name) rest result
  unfolding iterate_volumes
  iterate_volumes-Passed name [] rest result p = refl
  iterate_volumes-Passed name (volume ∷ front) rest result ((mounts, device, m, e, n), p) =
      let step = iterate_mount_points_passed name volume device mounts result e n in
      rw (iterate_volumes, m, step) (iterate_volumes-Passed name front rest result p)

  iterate_volumes-first :
      (name volume mount device : WideString) (mounts rest : List WideString)
      (result : WideString × WideString)
      → volume_mount_points v volume ≡ done (mount ∷ mounts)
      → dos_device_name_for_volume_name v volume ≡ done device
      → is_prefix device name ≡ true
      → iterate_volumes v (stop_at_first v name) (volume ∷ rest) result ≡ done (mount, device)
  unfolding iterate_volumes iterate_mount_points stop_at_first
  iterate_volumes-first name volume mount device mounts rest result m e n =
      rw (iterate_volumes, m, iterate_mount_points, stop_at_first, e, n) refl

  -- What the iteration over all volumes finds.
  find_lem :
      (name : WideString) (front rest : List WideString) (volume mount device : WideString)
      (mounts : List WideString)
      → v.names ≡ front ++ (volume ∷ rest)
      → Passed v name front
      → volume_mount_points v volume ≡ done (mount ∷ mounts)
      → dos_device_name_for_volume_name v volume ≡ done device
      → is_prefix device name ≡ true
      → find_volume_mount_point_and_dos_device_name v name ≡ done (mount, device)
  unfolding find_volume_mount_point_and_dos_device_name iterate_all_volume_mount_points
  find_lem name front rest volume mount device mounts names p m e n =
      ap (λ (x : List WideString). iterate_from_first v (stop_at_first v name) x ([], [])) names
      ∙ iterate_from_first_lem v name (mount, device) front volume rest
          (iterate_volumes-Passed name front (volume ∷ rest) ([], []) p
            ∙ iterate_volumes-first name volume mount device mounts rest ([], []) m e n)

  -- FullImageNameToFileName takes the first volume whose device name the full image name begins
  -- with, and the first mount point of that volume. It drops one character behind the device name
  -- and appends the others, whatever that one character is: no separator is asked for, so that a
  -- file on \Device\HarddiskVolume12 is looked for on \Device\HarddiskVolume1.
  pub full_image_name_to_file_name_lem :
      (front rest : List WideString) (volume mount device : WideString) (mounts : List WideString)
      (c : ℕ) (tail : WideString)
      → v.names ≡ front ++ (volume ∷ rest)
      → Passed v (device ++ (c ∷ tail)) front
      → volume_mount_points v volume ≡ done (mount ∷ mounts)
      → is_empty mount ≡ false
      → dos_device_name_for_volume_name v volume ≡ done device
      → full_image_name_to_file_name v (device ++ (c ∷ tail)) ≡ done (v.append mount tail)
  unfolding full_image_name_to_file_name
  full_image_name_to_file_name_lem front rest volume mount device mounts c tail names p m n e =
      let name = device ++ (c ∷ tail) in
      let found =
        find_lem name front rest volume mount device mounts names p m e
          (is_prefix-append device (c ∷ tail)) in
      let long : ltb (length name) (length device + 1) ≡ false =
        ground (arith, length-append device (c ∷ tail)) in
      let behind : drop (length device + 1) name ≡ tail =
        drop-append device (c ∷ tail) 1 (length device + 1) (omega arith) in
      rw (found, n, long, behind) refl

  -- A full image name that is the device name of a volume makes FullImageNameToFileName throw.
  pub full_image_name_to_file_name_throws :
      (front rest : List WideString) (volume mount device : WideString) (mounts : List WideString)
      → v.names ≡ front ++ (volume ∷ rest)
      → Passed v device front
      → volume_mount_points v volume ≡ done (mount ∷ mounts)
      → is_empty mount ≡ false
      → dos_device_name_for_volume_name v volume ≡ done device
      → full_image_name_to_file_name v device ≡ thrown
  unfolding full_image_name_to_file_name
  full_image_name_to_file_name_throws front rest volume mount device mounts names p m n e =
      let found = find_lem device front rest volume mount device mounts names p m e (
        subst (λ (x : WideString). is_prefix device x ≡ true) (append-nil device)
          (is_prefix-append device [])) in
      let short : ltb (length device) (length device + 1) ≡ true = ground arith in
      rw (found, n, short) refl
