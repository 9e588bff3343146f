-- ===== src/Client/Hid/Model.antt =====
-- HidHideCLI/src/HID.cpp, Usage and HidModelInfo: the record of a device from what Windows and the
-- device itself answer.
use hid_hide.Prelude.{
  ℕ, zero, suc, ◌+◌, ◌-◌, Bool, false, ◌&&◌, Option, none, some, List, [], ◌∷◌, ◌++◌, length, leb,
  ◌==◌, if◌then◌else◌, WideString,
}
use hid_hide.Client.MultiString.{c_str}
use hid_hide.Client.DriverAccess.{Outcome, done, thrown}
use hid_hide.Client.Volume.{after}
use hid_hide.Client.Hid.{HidDevice, is_gaming_device}

-- The fields of HIDP_CAPS and of HIDD_ATTRIBUTES that the code reads.
pub record Capabilities : Type 0 where
  pub usage_page : ℕ
  pub usage : ℕ

pub record Attributes : Type 0 where
  pub vendor_id : ℕ
  pub product_id : ℕ

-- CreateFileW on the symbolic link: a handle, or the error that the switch tells apart.
pub data Opened : Type 0 where
  opened error_access_denied error_sharing_violation error_file_not_found : Opened
  error_path_not_found error_gen_failure other_error : Opened

-- HidD_GetPreparsedData
pub data Preparsed : Type 0 where
  preparsed not_connected preparsed_failed : Preparsed

-- What is asked of one device, the results of the functions that only call Windows or walk to a
-- parent included; `hex` is how a stream writes a number with std::hex and
-- std::uppercase, and LoadStringW is `none` when it returns 0.
pub record Answers : Type 0 where
  pub present : Outcome Bool
  pub description : Outcome WideString
  pub xusb_path : WideString
  pub base_container_path : Outcome WideString
  pub device_class : WideString → Outcome WideString
  pub device_count : WideString → Outcome ℕ
  pub create_file : Opened
  pub get_preparsed : Preparsed
  pub get_caps : Option Capabilities
  pub get_attributes : Option Attributes
  pub get_product : Option (List ℕ)
  pub get_manufacturer : Option (List ℕ)
  pub get_serial_number : Option (List ℕ)
  pub attribute_denied : WideString
  pub attribute_absent : WideString
  pub load_string : ℕ → Option WideString
  pub hex : ℕ → WideString

abbrev pub or_else : Option WideString → WideString → WideString
or_else none s = s
or_else (some t) s = t

-- std::setfill(L'0') and std::setw(4), which hold for the next output only.
abbrev pub fill_zeros : ℕ → WideString → WideString
fill_zeros zero s = s
fill_zeros (suc n) s = b'0' ∷ fill_zeros n s

abbrev pub text_or_empty : Option (List ℕ) → WideString
text_or_empty none = []
text_or_empty (some buffer) = c_str buffer

abbrev pub or_throw : {A : Type 0} → Option A → Outcome A
or_throw none = thrown
or_throw (some a) = done a

module _ (q : Answers) where
  abbrev pub setw4 : WideString → WideString
  setw4 s = fill_zeros (4 - length s) s

  abbrev pub page_and_usage : Option WideString → Capabilities → WideString
  page_and_usage (some page) c = setw4 page ++ (b' ' ∷ q.hex c.usage)
  page_and_usage none c = setw4 (q.hex c.usage_page) ++ (b' ' ∷ q.hex c.usage)

  -- Usage
  unfoldable pub usage_text : Capabilities → WideString
  usage_text c =
      or_else
        (if (c.usage_page == 0x01) && leb c.usage 0xFF
          then q.load_string (0x1100 + c.usage)
          else none)
        (or_else
          (if (c.usage_page == 0x0C) && leb c.usage 0xFF
            then q.load_string (0x1200 + c.usage)
            else none)
          (page_and_usage
            (if leb c.usage_page 0xFF then q.load_string (0x1000 + c.usage_page) else none) c))

  -- The part of HidModelInfo behind the attributes.
  unfoldable pub with_attributes : Capabilities → Attributes → HidDevice → HidDevice
  with_attributes c a result = record result {
    product = text_or_empty q.get_product;
    vendor = text_or_empty q.get_manufacturer;
    serial_number = text_or_empty q.get_serial_number;
    usage = usage_text c;
    gaming_device = is_gaming_device a.vendor_id a.product_id c.usage_page c.usage;
  }

  -- The part behind HidD_GetPreparsedData.
  unfoldable pub with_preparsed : Preparsed → HidDevice → Outcome HidDevice
  with_preparsed preparsed_failed result = thrown
  with_preparsed not_connected result = done result
  with_preparsed preparsed result =
      after (or_throw q.get_caps)
        (λ c. after (or_throw q.get_attributes) (λ a. done (with_attributes c a result)))

  -- The part behind CreateFileW, with the switch over its errors.
  unfoldable pub with_handle : Opened → HidDevice → Outcome HidDevice
  with_handle opened result = with_preparsed q.get_preparsed result
  with_handle error_access_denied result = done (record result { usage = q.attribute_denied })
  with_handle error_sharing_violation result = done (record result { usage = q.attribute_denied })
  with_handle error_file_not_found result = done (record result { usage = q.attribute_absent })
  with_handle error_path_not_found result = done result
  with_handle error_gen_failure result = done result
  with_handle other_error result = thrown

  -- HidModelInfo
  unfoldable pub hid_model_info : WideString → WideString → Outcome HidDevice
  hid_model_info path link = after q.present (λ present. after q.description (λ description.
      after q.base_container_path (λ container. after (q.device_class container) (λ class_guid.
        after (q.device_count container) (λ count. with_handle q.create_file (record {
          present = present;
          gaming_device = false;
          symbolic_link = link;
          vendor = [];
          product = [];
          serial_number = [];
          usage = [];
          description = description;
          device_path = path;
          xusb_path = q.xusb_path;
          base_container_path = container;
          base_container_class = class_guid;
          base_container_count = count;
        }))))))
