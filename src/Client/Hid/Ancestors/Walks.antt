-- ===== src/Client/Hid/Ancestors/Walks.antt =====
-- Where the walks to the parents of a device end.
use hid_hide.Prelude.{
  ℕ, zero, suc, ◌<◌, ◌≡◌, refl, true, false, ◌||◌, some, List, [], ◌∷◌, ◌++◌, All, length, ◌==◌,
  if◌then◌else◌, is_empty, WideString, arith,
}
use hid_hide.Client.DriverAccess.{done}
use hid_hide.Client.Hid.Ancestors.{
  DeviceTree, guid_null, device_instance_path_parent_optional, device_instance_path_parent,
  has_device_interface, base_container_id, outermost, base_container_device_instance_path,
}

module _ (t : DeviceTree) where
  -- A device and its ancestors, up to the one without a parent.
  abbrev pub IsLine : List WideString → WideString → Type 0
  IsLine [] current = is_empty current ≡ true
  IsLine (path ∷ line) current =
      (path ≡ current)
      × (is_empty current ≡ false)
      × IsLine line (device_instance_path_parent_optional t current)

  -- The first device of a list that has the interface.
  abbrev pub first_with_interface : List WideString → WideString
  first_with_interface [] = []
  first_with_interface (path ∷ line) =
      let rest = first_with_interface line in if has_device_interface t path then path else rest

  -- The parents of a device, in order from the nearest, as far as the list goes.
  abbrev pub HasParents : WideString → List WideString → Type 0
  HasParents path [] = Unit
  HasParents path (parent ∷ line) =
      (device_instance_path_parent t path ≡ done parent) × HasParents parent line

  abbrev pub IsInContainer : ℕ → WideString → Type 0
  IsInContainer id path = base_container_id t path ≡ done id

  -- The last device of a line that starts with the first argument.
  abbrev pub last : WideString → List WideString → WideString
  last path [] = path
  last path (parent ∷ line) = last parent line

  outermost_lem :
      (fuel id other : ℕ) (inside : List WideString) (outside path : WideString)
      → HasParents path (inside ++ (outside ∷ []))
      → All (IsInContainer id) inside
      → IsInContainer other outside
      → (id == other) ≡ false
      → length inside < fuel
      → outermost t fuel id path ≡ some (done (last path inside))
  unfolding outermost
  outermost_lem zero id other inside outside path h a o n l = absurd (omega arith)
  outermost_lem (suc fuel) id other [] outside path h a o n l = rw (outermost, h.0, o, n) refl
  outermost_lem (suc fuel) id other (parent ∷ inside) outside path h a o n l =
      let same : (id == id) ≡ true = ground arith in
      rw (outermost, h.0, a.0, same)
        (outermost_lem fuel id other inside outside parent h.1 a.1 o n (omega arith))

  -- Take a device whose container id can be read and is neither GUID_NULL nor that of the system,
  -- and its parents from the nearest on, all of which can be found and have a container id, up to
  -- the first with another id. BaseContainerDeviceInstancePath ends and gives the last device before
  -- that one: the outermost in an unbroken line of devices of the container, or the device itself.
  pub base_container_device_instance_path_lem :
      (id other : ℕ) (inside : List WideString) (outside path : WideString)
      → IsInContainer id path
      → ¬ id ≡ guid_null
      → ¬ id ≡ t.container_id_system
      → HasParents path (inside ++ (outside ∷ []))
      → All (IsInContainer id) inside
      → IsInContainer other outside
      → ¬ other ≡ id
      → base_container_device_instance_path t (suc (length inside)) path
        ≡ some (done (last path inside))
  unfolding base_container_device_instance_path
  base_container_device_instance_path_lem id other inside outside path e n s h a o d =
      let known : ((guid_null == id) || (t.container_id_system == id)) ≡ false = ground arith in
      rw (base_container_device_instance_path, e, known)
        (outermost_lem (suc (length inside)) id other inside outside path h a o (ground arith)
          (omega arith))
