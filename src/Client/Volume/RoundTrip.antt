-- ===== src/Client/Volume/RoundTrip.antt =====
-- The longest mount point, and what becomes of a file name that is taken to its full image name and
-- back.
use hid_hide.Prelude.{
  is_empty, ◌⊎◌, ℕ, ◌≤◌, ◌≡◌, refl, sym, ap, ◌∙◌, subst, true, false, List, [], ◌∷◌, ◌++◌, length,
  drop, ltb, All, WideString, arith, Bool-cases, inl, inr, drop_all,
}
use hid_hide.Client.DriverAccess.{Outcome, done, thrown}
use hid_hide.Client.Volume.{
  Volumes, is_prefix, after, volume_mount_points, iterate_mount_points, iterate_volumes,
  iterate_from_first, iterate_all_volume_mount_points, keep_longest, find_volume_mount_point,
  volume_name_for_volume_mount_point, dos_device_name_for_volume_name, file_name_to_full_image_name,
  full_image_name_to_file_name,
}
use hid_hide.Client.Volume.First.{Passed, full_image_name_to_file_name_lem}

-- `best` is no shorter than a mount point that could store the file.
abbrev pub Beats : WideString → WideString → WideString → Type 0
Beats file_name best mount = is_prefix mount file_name ≡ true → length mount ≤ length best

Outcome-cases : {A : Type 0} (o : Outcome A) → (o ≡ thrown) ⊎ ((a : A) × (o ≡ done a))
Outcome-cases thrown = inl refl
Outcome-cases (done a) = inr (a, refl)

module _ (v : Volumes) where
  -- ... and than every mount point of a volume.
  abbrev pub BeatsAll : WideString → WideString → WideString → Type 0
  BeatsAll file_name best volume =
      (mounts : List WideString)
      → volume_mount_points v volume ≡ done mounts
      → All (Beats file_name best) mounts

  -- From one result of the iteration to a later one.
  record Improves (file_name result best : WideString) : Type 0 where
    pub longer : length result ≤ length best
    pub stored : is_prefix result file_name ≡ true → is_prefix best file_name ≡ true

  Improves-refl : (file_name result : WideString) → Improves file_name result result
  Improves-refl file_name result = record { longer = omega arith; stored = λ h. h }

  Improves-trans :
      (file_name a b c : WideString)
      → Improves file_name a b
      → Improves file_name b c
      → Improves file_name a c
  Improves-trans file_name a b c f g =
      let l = f.longer in
      let k = g.longer in record { longer = omega arith; stored = λ h. g.stored (f.stored h) }

  keep_longest_lem :
      (file_name volume mount result : WideString)
      → (best : WideString) × (keep_longest v file_name volume mount result ≡ done (best, true))
        × Beats file_name best mount
        × Improves file_name result best
  unfolding keep_longest
  keep_longest_lem file_name volume mount result = elim (Bool-cases (is_prefix mount file_name)) [
    | inr n ↦ (result, rw n refl, (λ h. absurd (ground arith)), Improves-refl file_name result)
    | inl n ↦ elim (Bool-cases (ltb (length result) (length mount))) [
      | inl k ↦ (
        mount,
        rw (n, k) refl,
        (λ h. omega arith),
        record { longer = ground arith; stored = λ h. n },
      )
      | inr k ↦ (result, rw (n, k) refl, (λ h. ground arith), Improves-refl file_name result)
    ]
  ]

  iterate_mount_points-longest :
      (file_name volume : WideString) (mounts : List WideString) (result : WideString)
      → (best : WideString) × (iterate_mount_points v
            (keep_longest v file_name)
            volume
            mounts
            result
          ≡ done (best, true))
        × All (Beats file_name best) mounts
        × Improves file_name result best
  unfolding iterate_mount_points
  iterate_mount_points-longest file_name volume [] result =
      (result, refl, tt, Improves-refl file_name result)
  iterate_mount_points-longest file_name volume (mount ∷ mounts) result =
      let (one, e, b, i) = keep_longest_lem file_name volume mount result in
      let (best, e', all, i') = iterate_mount_points-longest file_name volume mounts one in
      let l = i'.longer in
      (
        best,
        rw (iterate_mount_points, e) e',
        ((λ h. let k = b h in omega arith), all),
        Improves-trans file_name result one best i i',
      )

  done_inj : {A : Type 0} (d a b : A) → Outcome.done a ≡ Outcome.done b → a ≡ b
  done_inj d a b e = ap (λ o. elim o [ thrown ↦ d | done x ↦ x ]) e

  BeatsAll-here :
      (file_name best volume : WideString) (mounts : List WideString)
      → volume_mount_points v volume ≡ done mounts
      → All (Beats file_name best) mounts
      → BeatsAll file_name best volume
  BeatsAll-here file_name best volume mounts e h mounts' e' =
      subst (All (Beats file_name best)) (done_inj [] mounts mounts' (sym e ∙ e')) h

  All-longer :
      (file_name one best : WideString) (mounts : List WideString)
      → length one ≤ length best
      → All (Beats file_name one) mounts
      → All (Beats file_name best) mounts
  All-longer file_name one best [] l h = tt
  All-longer file_name one best (m ∷ mounts) l h =
      ((λ p. let k = h.0 p in omega arith), All-longer file_name one best mounts l h.1)

  iterate_volumes-longest :
      (file_name : WideString) (names : List WideString) (result best : WideString)
      → iterate_volumes v (keep_longest v file_name) names result ≡ done best
      → All (BeatsAll file_name best) names × Improves file_name result best
  unfolding iterate_volumes
  iterate_volumes-longest file_name [] result best e =
      let same : result ≡ best = ground (arith, done_inj result result best) in
      (tt, subst (Improves file_name result) same (Improves-refl file_name result))
  iterate_volumes-longest file_name (volume ∷ names) result best e =
      elim (Outcome-cases (volume_mount_points v volume)) [
        | inl n ↦ absurd (ground arith)
        | inr (mounts, n) ↦
            let (one, e1, all, i) = iterate_mount_points-longest file_name volume mounts result in
            let (rest, j) =
              iterate_volumes-longest file_name names one best (rw (iterate_volumes, n, e1) at e) in
            (
              (
                BeatsAll-here file_name best volume mounts n
                    (All-longer file_name one best mounts j.longer all),
                rest,
              ),
              Improves-trans file_name result one best i j,
            )
      ]

  iterate_from_first-longest :
      (file_name : WideString) (names : List WideString) (best : WideString)
      → iterate_from_first v (keep_longest v file_name) names [] ≡ done best
      → All (BeatsAll file_name best) names × Improves file_name [] best
  unfolding iterate_from_first
  iterate_from_first-longest file_name [] best e = absurd (ground arith)
  iterate_from_first-longest file_name (n ∷ names) best e =
      iterate_volumes-longest file_name (n ∷ names) [] best e

  -- The mount point that a file name is taken to is a front of that file name, and no mount point
  -- of any volume that is a front of it is longer.
  pub find_volume_mount_point_lem :
      (file_name best : WideString)
      → find_volume_mount_point v file_name ≡ done best
      → (is_prefix best file_name ≡ true) × All (BeatsAll file_name best) v.names
  unfolding find_volume_mount_point iterate_all_volume_mount_points is_prefix
  find_volume_mount_point_lem file_name best e =
      let (all, i) = iterate_from_first-longest file_name v.names best e in (i.stored refl, all)

  -- A file name comes back from its full image name when its longest mount point is the first one
  -- of its volume, the volumes before it pass the full image name, and the operator / puts the
  -- separator behind the device name only.
  pub full_image_name_to_file_name-file_name_to_full_image_name :
      (front rest : List WideString) (volume mount device : WideString) (mounts : List WideString)
      (separator : ℕ) (tail : WideString)
      → find_volume_mount_point v (mount ++ tail) ≡ done mount
      → is_empty mount ≡ false
      → volume_name_for_volume_mount_point v mount ≡ done volume
      → v.names ≡ front ++ (volume ∷ rest)
      → volume_mount_points v volume ≡ done (mount ∷ mounts)
      → dos_device_name_for_volume_name v volume ≡ done device
      → Passed v (device ++ (separator ∷ tail)) front
      → v.append device tail ≡ device ++ (separator ∷ tail)
      → v.append mount tail ≡ mount ++ tail
      → after (file_name_to_full_image_name v (mount ++ tail)) (full_image_name_to_file_name v)
        ≡ done (mount ++ tail)
  unfolding file_name_to_full_image_name
  full_image_name_to_file_name-file_name_to_full_image_name front rest volume mount device mounts
        separator tail found n named names m e p joined joined' =
      let behind : drop (length mount) (mount ++ tail) ≡ tail = drop_all mount tail in
      rw (found, n, named, e, behind, joined)
        (full_image_name_to_file_name_lem v front rest volume mount device mounts separator tail
            names p m n e
          ∙ ap done joined')
