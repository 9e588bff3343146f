-- ===== src/Client/Hid/Groups.antt =====
-- HidDevices puts every device in one group.
use hid_hide.Prelude.{
  ℕ, zero, suc, ◌+◌, ◌≤◌, ◌<◌, ◌≡◌, refl, Bool, true, false, ◌||◌, some, List, [], ◌∷◌, ◌++◌,
  length, if◌then◌else◌, WideString, arith, Bool-cases, inl, inr,
}
use hid_hide.Client.Sets.{compare_text, is_eq}
use hid_hide.Client.Sets.Order.{compare_text-IsOrder}
use hid_hide.Client.Hid.{
  HidDevice, multi_emplace, by_container, Container, collect, container_of, merge_device, name_of,
  Groups, group_loop, hid_devices,
}

module _ (p : HidDevice → Bool) where
  -- How many devices of a list pass a test.
  abbrev pub count : List HidDevice → ℕ
  count [] = 0
  count (x ∷ devices) = (if p x then 1 else 0) + count devices

  abbrev pub count_entries : List (WideString × HidDevice) → ℕ
  count_entries [] = 0
  count_entries ((key, x) ∷ entries) = (if p x then 1 else 0) + count_entries entries

  abbrev pub count_groups : Groups → ℕ
  count_groups [] = 0
  count_groups ((name, devices) ∷ groups) = count devices + count_groups groups

  pub count-append : (xs ys : List HidDevice) → count (xs ++ ys) ≡ count xs + count ys
  count-append [] ys = omega arith
  count-append (x ∷ xs) ys = omega (arith, count-append xs ys)

  count_entries-multi_emplace :
      (key : WideString) (x : HidDevice) (entries : List (WideString × HidDevice))
      → count_entries (multi_emplace key x entries) ≡ (if p x then 1 else 0) + count_entries entries
  unfolding multi_emplace
  count_entries-multi_emplace key x [] = refl
  count_entries-multi_emplace key x ((k, y) ∷ entries) =
      ground (arith, count_entries-multi_emplace key x entries)

  pub count_groups-multi_emplace :
      (name : WideString) (devices : List HidDevice) (groups : Groups)
      → count_groups (multi_emplace name devices groups) ≡ count devices + count_groups groups
  unfolding multi_emplace
  count_groups-multi_emplace name devices [] = refl
  count_groups-multi_emplace name devices ((k, ys) ∷ groups) =
      ground (arith, count_groups-multi_emplace name devices groups)

  pub count_entries-by_container :
      (entries : List (WideString × HidDevice)) (devices : List HidDevice)
      → count_entries (by_container entries devices) ≡ count_entries entries + count devices
  unfolding by_container
  count_entries-by_container entries [] = omega arith
  count_entries-by_container entries (x ∷ devices) = omega (
    arith,
    count_entries-by_container (multi_emplace x.base_container_path x entries) devices,
    count_entries-multi_emplace x.base_container_path x entries,
  )

length-multi_emplace :
    (key : WideString) (x : HidDevice) (entries : List (WideString × HidDevice))
    → length (multi_emplace key x entries) ≡ suc (length entries)
unfolding multi_emplace
length-multi_emplace key x [] = refl
length-multi_emplace key x ((k, y) ∷ entries) = ground (arith, length-multi_emplace key x entries)

pub length-by_container :
    (entries : List (WideString × HidDevice)) (devices : List HidDevice)
    → length (by_container entries devices) ≡ length entries + length devices
unfolding by_container
length-by_container entries [] = omega arith
length-by_container entries (x ∷ devices) = omega (
  arith,
  length-by_container (multi_emplace x.base_container_path x entries) devices,
  length-multi_emplace x.base_container_path x entries,
)

pub compare_text_self : (s : WideString) → is_eq (compare_text s s) ≡ true
compare_text_self s = rw (compare_text-IsOrder.cmp_refl s) refl

module _ (same_logical : WideString → WideString → Bool) where
  -- What a round takes from the entries: nothing is lost, and the rest is no longer.
  pub record IsShare (p : HidDevice → Bool) (n total : ℕ) (c : Container) : Type 0 where
    pub shorter : length c.rest ≤ n
    pub counted : count p c.hid_devices + count_entries p c.rest ≡ total

  collect-IsShare :
      (p : HidDevice → Bool) (key : WideString) (gaming : Bool) (model : List WideString)
      (devices : List HidDevice) (entries : List (WideString × HidDevice))
      → IsShare p
          (length entries)
          (count p devices + count_entries p entries)
          (collect same_logical key gaming model devices entries)
  unfolding collect
  collect-IsShare p key gaming model devices [] = record { shorter = omega arith; counted = refl }
  collect-IsShare p key gaming model devices ((k, x) ∷ entries) =
      elim (Bool-cases (is_eq (compare_text k key))) [
        | inr n ↦ rw (collect, n) (record { shorter = omega arith; counted = refl })
        | inl n ↦
            let r =
              collect-IsShare p key (gaming || x.gaming_device) (merge_device same_logical model x)
                (devices ++ (x ∷ [])) entries in
            let s = r.shorter in
            let c = r.counted in
            rw (collect, n)
              (record {
                shorter = omega arith;
                counted = omega (arith, count-append p devices (x ∷ []));
              })
      ]

  pub container_of-IsShare :
      (p : HidDevice → Bool) (key : WideString) (x : HidDevice)
      (entries : List (WideString × HidDevice))
      → IsShare p
          (length entries)
          (count_entries p ((key, x) ∷ entries))
          (container_of same_logical key x entries)
  unfolding container_of collect
  container_of-IsShare p [] x entries = record { shorter = omega arith; counted = omega arith }
  container_of-IsShare p (c ∷ key) x entries =
      let r =
        collect-IsShare p (c ∷ key) (x.gaming_device || x.gaming_device)
          (merge_device same_logical [] x) (x ∷ []) entries in
      let s = r.shorter in
      let k = r.counted in
      rw (collect, compare_text_self (c ∷ key))
        (record { shorter = omega arith; counted = omega arith })

  group_loop_total :
      (p : HidDevice → Bool) (fuel : ℕ) (result : Groups) (entries : List (WideString × HidDevice))
      → length entries < fuel
      → (groups : Groups) × (group_loop same_logical fuel false result entries ≡ some groups)
        × (count_groups p groups ≡ count_groups p result + count_entries p entries)
  unfolding group_loop
  group_loop_total p zero result entries l = absurd (omega arith)
  group_loop_total p (suc fuel) result [] l = (result, refl, omega arith)
  group_loop_total p (suc fuel) result ((key, x) ∷ entries) l =
      let c = container_of same_logical key x entries in
      let share = container_of-IsShare p key x entries in
      let s = share.shorter in
      let k = share.counted in
      let (groups, run, total) =
        group_loop_total p fuel (multi_emplace (name_of c) c.hid_devices result) c.rest
          (omega arith) in
      (groups, run, omega (arith, count_groups-multi_emplace p (name_of c) c.hid_devices result))

  -- Without the filter, HidDevices ends with groups in which every device stands as often as it was
  -- found: whatever is asked of a device, as many devices of the groups as of those found pass.
  pub hid_devices_lem :
      (p : HidDevice → Bool) (devices : List HidDevice)
      → (groups : Groups) × (hid_devices same_logical false devices ≡ some groups)
        × (count_groups p groups ≡ count p devices)
  unfolding hid_devices
  hid_devices_lem p devices =
      let (groups, run, total) =
        group_loop_total p (suc (length devices)) [] (by_container [] devices)
          (omega (arith, length-by_container [] devices)) in
      (groups, run, omega (arith, count_entries-by_container p [] devices))
