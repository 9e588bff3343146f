-- ===== src/Client/Hid/Gaming.antt =====
-- HidDevices with its filter shows the groups with a gaming device, and every gaming device.
use hid_hide.Prelude.{
  ℕ, zero, suc, ◌+◌, ◌<◌, ◌≡◌, refl, Bool, true, false, ◌||◌, some, List, [], ◌∷◌, ◌++◌, length,
  All, WideString, arith, Bool-cases, inl, inr,
}
use hid_hide.Client.Sets.{compare_text, is_eq}
use hid_hide.Client.Hid.{
  HidDevice, multi_emplace, by_container, collect, container_of, merge_device, name_of, Groups,
  group_loop, hid_devices,
}
use hid_hide.Client.Hid.Groups.{
  count, count_entries, count_groups, count-append, count_groups-multi_emplace,
  count_entries-by_container, length-by_container, compare_text_self, container_of-IsShare,
}

abbrev pub is_gaming : HidDevice → Bool
is_gaming x = x.gaming_device

-- The flag says whether there is a gaming device.
abbrev IsFlag : Bool → List HidDevice → Type 0
IsFlag gaming devices =
    (gaming ≡ true → 0 < count is_gaming devices) × (gaming ≡ false → count is_gaming devices ≡ 0)

IsFlag-append :
    (gaming : Bool) (devices : List HidDevice) (x : HidDevice)
    → IsFlag gaming devices
    → IsFlag (gaming || x.gaming_device) (devices ++ (x ∷ []))
IsFlag-append gaming devices x h =
    let c = count-append is_gaming devices (x ∷ []) in ground (arith, c, h.0, h.1)

IsFlag-one : (x : HidDevice) → IsFlag x.gaming_device (x ∷ [])
IsFlag-one x = ground arith

-- The groups that the filter keeps.
abbrev pub AllGaming : Groups → Type 0
AllGaming groups = All (λ (g : WideString × List HidDevice). 0 < count is_gaming g.1) groups

AllGaming-multi_emplace :
    (name : WideString) (devices : List HidDevice) (groups : Groups)
    → 0 < count is_gaming devices
    → AllGaming groups
    → AllGaming (multi_emplace name devices groups)
unfolding multi_emplace
AllGaming-multi_emplace name devices [] c h = (c, tt)
AllGaming-multi_emplace name devices ((k, ys) ∷ groups) c h =
    ground (arith, AllGaming-multi_emplace name devices groups)

module _ (same_logical : WideString → WideString → Bool) where
  collect-IsFlag :
      (key : WideString) (gaming : Bool) (model : List WideString) (devices : List HidDevice)
      (entries : List (WideString × HidDevice))
      → IsFlag gaming devices
      → let c = collect same_logical key gaming model devices entries in
        IsFlag c.gaming_device c.hid_devices
  unfolding collect
  collect-IsFlag key gaming model devices [] h = h
  collect-IsFlag key gaming model devices ((k, x) ∷ entries) h =
      elim (Bool-cases (is_eq (compare_text k key))) [
        | inr n ↦ rw (collect, n) h
        | inl n ↦
            rw (collect, n)
              (collect-IsFlag key (gaming || x.gaming_device) (merge_device same_logical model x)
                (devices ++ (x ∷ [])) entries (IsFlag-append gaming devices x h))
      ]

  container_of-IsFlag :
      (key : WideString) (x : HidDevice) (entries : List (WideString × HidDevice))
      → let c = container_of same_logical key x entries in IsFlag c.gaming_device c.hid_devices
  unfolding container_of collect
  container_of-IsFlag [] x entries = IsFlag-one x
  container_of-IsFlag (c ∷ key) x entries =
      let one : IsFlag (x.gaming_device || x.gaming_device) (x ∷ []) = ground arith in
      rw (collect, compare_text_self (c ∷ key))
        (collect-IsFlag (c ∷ key) (x.gaming_device || x.gaming_device)
          (merge_device same_logical [] x) (x ∷ []) entries one)

  group_loop_gaming :
      (fuel : ℕ) (result : Groups) (entries : List (WideString × HidDevice))
      → length entries < fuel
      → AllGaming result
      → (groups : Groups) × (group_loop same_logical fuel true result entries ≡ some groups)
        × AllGaming groups
        × (count_groups is_gaming groups
            ≡ count_groups is_gaming result + count_entries is_gaming entries)
  unfolding group_loop
  group_loop_gaming zero result entries l h = absurd (omega arith)
  group_loop_gaming (suc fuel) result [] l h = (result, refl, h, omega arith)
  group_loop_gaming (suc fuel) result ((key, x) ∷ entries) l h =
      let c = container_of same_logical key x entries in
      let share = container_of-IsShare same_logical is_gaming key x entries in
      let s = share.shorter in
      let k = share.counted in
      let flag = container_of-IsFlag key x entries in
      let added = multi_emplace (name_of c) c.hid_devices result in
      elim (Bool-cases c.gaming_device) [
        | inl g ↦
            let (groups, run, all, total) =
              group_loop_gaming fuel added c.rest (omega arith)
                (AllGaming-multi_emplace (name_of c) c.hid_devices result (flag.0 g) h) in
            (
              groups,
              rw (group_loop, g) run,
              all,
              omega (arith, count_groups-multi_emplace is_gaming (name_of c) c.hid_devices result),
            )
        | inr g ↦
            let none_here = flag.1 g in
            let (groups, run, all, total) = group_loop_gaming fuel result c.rest (omega arith) h in
            (groups, rw (group_loop, g) run, all, omega arith)
      ]

  -- With the filter, HidDevices ends with groups that each have a gaming device, and as many gaming
  -- devices stand in them as were found.
  pub hid_devices_gaming :
      (devices : List HidDevice)
      → (groups : Groups) × (hid_devices same_logical true devices ≡ some groups)
        × AllGaming groups
        × (count_groups is_gaming groups ≡ count is_gaming devices)
  unfolding hid_devices
  hid_devices_gaming devices =
      let (groups, run, all, total) =
        group_loop_gaming (suc (length devices)) [] (by_container [] devices)
          (omega (arith, length-by_container [] devices)) tt in
      (groups, run, all, omega (arith, count_entries-by_container is_gaming [] devices))
