-- ===== src/Driver/Framework.antt =====
-- What the driver calls of the kernel and of the driver framework, as a record of functions over
-- an abstract world: the registry key with the driver's parameters, and framework objects.
use hid_hide.Prelude.{
  ℕ, ◌+◌, ◌-◌, ◌*◌, ◌≡◌, Bool, true, false, Option, some, List, WideString, length, All,
}
use hid_hide.Driver.Status.{NtStatus, success, nt_success}
use hid_hide.Driver.MultiString.Layout.{multi_string}
use hid_hide.Client.MultiString.RoundTrip.{IsText}

-- The values under HKLM\SYSTEM\CurrentControlSet\Services\HidHide\Parameters.
pub data Property : Type 0 where
  whitelisted_full_image_names blacklisted_device_instance_paths : Property
  active whitelisted_inverse : Property

-- STANDARD_RIGHTS_READ and STANDARD_RIGHTS_WRITE
pub data Access : Type 0 where
  read write : Access

-- WdfRegistryQueryValue without a buffer: the size needed in bytes, and whether the value is a
-- REG_MULTI_SZ.
pub record ValueInfo : Type 0 where
  pub status : NtStatus
  pub size_needed : ℕ
  pub is_multi_sz : Bool

pub record Framework : Type 1 where
  pub World : Type 0
  pub open_parameters_key : Access → World → NtStatus × World
  pub close_key : World → World
  pub query_ulong : Property → World → NtStatus × ℕ
  pub query_value : Property → World → ValueInfo
  pub query_multi_string : Property → World → NtStatus × List WideString
  pub assign_ulong : Property → ℕ → World → NtStatus × World
  pub assign_multi_string : Property → List ℕ → World → NtStatus × World
  pub create_collection : World → NtStatus × World
  pub delete_collection : World → World

-- How the registry keeps what it is given, and how open keys are counted. A value that is there
-- can be read; a failed call changes nothing that is observed here.
pub record IsRegistry (f : Framework) : Type 0 where
  pub open_keys : f.World → ℕ
  pub number : Property → f.World → Option ℕ
  pub texts : Property → f.World → Option (List WideString)
  pub opened :
      (a : Access) (w : f.World)
      → nt_success (f.open_parameters_key a w).0 ≡ true
      → open_keys (f.open_parameters_key a w).1 ≡ open_keys w + 1
  pub not_opened :
      (a : Access) (w : f.World)
      → nt_success (f.open_parameters_key a w).0 ≡ false
      → open_keys (f.open_parameters_key a w).1 ≡ open_keys w
  pub closed : (w : f.World) → open_keys (f.close_key w) ≡ open_keys w - 1
  pub open_keys-assign_ulong :
      (p : Property) (n : ℕ) (w : f.World) → open_keys (f.assign_ulong p n w).1 ≡ open_keys w
  pub open_keys-assign_multi_string :
      (p : Property) (b : List ℕ) (w : f.World)
      → open_keys (f.assign_multi_string p b w).1 ≡ open_keys w
  pub open_keys-create : (w : f.World) → open_keys (f.create_collection w).1 ≡ open_keys w
  pub open_keys-delete : (w : f.World) → open_keys (f.delete_collection w) ≡ open_keys w
  pub number-open :
      (p : Property) (a : Access) (w : f.World)
      → number p (f.open_parameters_key a w).1 ≡ number p w
  pub number-close : (p : Property) (w : f.World) → number p (f.close_key w) ≡ number p w
  pub number-create : (p : Property) (w : f.World) → number p (f.create_collection w).1 ≡ number p w
  pub number-delete : (p : Property) (w : f.World) → number p (f.delete_collection w) ≡ number p w
  pub number-assign :
      (p : Property) (n : ℕ) (w : f.World)
      → nt_success (f.assign_ulong p n w).0 ≡ true
      → number p (f.assign_ulong p n w).1 ≡ some n
  pub query_ulong-number :
      (p : Property) (n : ℕ) (w : f.World) → number p w ≡ some n → f.query_ulong p w ≡ (success, n)
  pub texts-open :
      (p : Property) (a : Access) (w : f.World) → texts p (f.open_parameters_key a w).1 ≡ texts p w
  pub texts-close : (p : Property) (w : f.World) → texts p (f.close_key w) ≡ texts p w
  pub texts-create : (p : Property) (w : f.World) → texts p (f.create_collection w).1 ≡ texts p w
  pub texts-delete : (p : Property) (w : f.World) → texts p (f.delete_collection w) ≡ texts p w
  pub texts-assign :
      (p : Property) (items : List WideString) (w : f.World)
      → All IsText items
      → nt_success (f.assign_multi_string p (multi_string items) w).0 ≡ true
      → texts p (f.assign_multi_string p (multi_string items) w).1 ≡ some items
  pub query_value-texts :
      (p : Property) (items : List WideString) (w : f.World)
      → texts p w ≡ some items
      → f.query_value p w ≡ record {
        status = success;
        size_needed = 2 * length (multi_string items);
        is_multi_sz = true;
      }
  pub query_multi_string-texts :
      (p : Property) (items : List WideString) (w : f.World)
      → texts p w ≡ some items
      → f.query_multi_string p w ≡ (success, items)
