-- ===== src/Client/Json.antt =====
-- HidHideCLI/src/Commands.cpp: the devices as JSON. `decimal` is how a stream writes a size_t.
pub mod RoundTrip
use hid_hide.Prelude.{
  ℕ, ◌+◌, ◌-◌, ◌/◌, ◌%◌, Bool, true, false, List, [], ◌∷◌, ◌++◌, ltb, ◌==◌, if◌then◌else◌,
  WideString, codes,
}
use hid_hide.Client.Hid.{HidDevice, Groups}

-- std::endl
abbrev pub endl : WideString
endl = 10 ∷ []

abbrev pub backslash : ℕ
backslash = b'\\'

abbrev pub json_quote : ℕ
json_quote = b'"'

-- A digit as std::hex writes it.
abbrev pub hex_digit : ℕ → ℕ
hex_digit d = if ltb d 10 then b'0' + d else b'a' + (d - 10)

-- The switch of escape_json: four hexadecimal digits for any other control character.
unfoldable pub escape_character : ℕ → WideString
escape_character c =
    if c == json_quote
    then backslash ∷ json_quote ∷ []
    else (if c == backslash
        then backslash ∷ backslash ∷ []
        else (if c == 8
            then backslash ∷ b'b' ∷ []
            else (if c == 12
                then backslash ∷ b'f' ∷ []
                else (if c == 10
                    then backslash ∷ b'n' ∷ []
                    else (if c == 13
                        then backslash ∷ b'r' ∷ []
                        else (if c == 9
                            then backslash ∷ b't' ∷ []
                            else (if ltb c 32
                                then backslash
                                  ∷ b'u'
                                  ∷ b'0'
                                  ∷ b'0'
                                  ∷ hex_digit (c / 16)
                                  ∷ hex_digit (c % 16)
                                  ∷ []
                                else c ∷ [])))))))

-- escape_json
unfoldable pub escape_json : WideString → WideString
escape_json [] = []
escape_json (c ∷ s) = escape_character c ++ escape_json s

-- std::boolalpha
abbrev pub boolalpha : Bool → WideString
boolalpha true = codes "true"
boolalpha false = codes "false"

-- "name" : "text" ,
abbrev pub text_member : WideString → WideString → WideString
text_member name text =
    (json_quote ∷ (name ++ (json_quote ∷ codes " : ")))
    ++ (json_quote ∷ (escape_json text ++ (json_quote ∷ (codes " ," ++ endl))))

-- "name" : true ,
abbrev pub flag_member : WideString → Bool → WideString
flag_member name flag =
    (json_quote ∷ (name ++ (json_quote ∷ codes " : "))) ++ (boolalpha flag ++ (codes " ," ++ endl))

module _ (decimal : ℕ → WideString) where
  -- operator<< of HidDeviceInformation
  unfoldable pub write_device : HidDevice → WideString
  write_device x =
      codes "{ "
      ++ (flag_member (codes "present") x.present
          ++ (flag_member (codes "gamingDevice") x.gaming_device
              ++ (text_member (codes "symbolicLink") x.symbolic_link
                  ++ (text_member (codes "vendor") x.vendor
                      ++ (text_member (codes "product") x.product
                          ++ (text_member (codes "serialNumber") x.serial_number
                              ++ (text_member (codes "usage") x.usage
                                  ++ (text_member (codes "description") x.description
                                      ++ (text_member (codes "deviceInstancePath") x.device_path
                                          ++ (text_member (codes "xusbDeviceInstancePath")
                                                x.xusb_path
                                              ++ (text_member
                                                    (codes "baseContainerDeviceInstancePath")
                                                    x.base_container_path
                                                  ++ (text_member (codes "baseContainerClassGuid")
                                                        x.base_container_class
                                                      ++ ((json_quote
                                                            ∷ (codes "baseContainerDeviceCount"
                                                            ++ (json_quote ∷ codes " : ")))
                                                          ++ (decimal x.base_container_count
                                                            ++ codes " }"))))))))))))))

  -- The loop over the devices of a container.
  unfoldable pub write_device_items : Bool → List HidDevice → WideString
  write_device_items first [] = []
  write_device_items first (x ∷ devices) =
      (if first then [] else codes "," ++ endl)
      ++ (write_device x ++ (codes " " ++ write_device_items false devices))

  -- operator<< of a list of devices
  unfoldable pub write_devices : List HidDevice → WideString
  write_devices devices = codes " [" ++ (endl ++ (write_device_items true devices ++ codes "] "))

  -- The loop over the containers.
  unfoldable pub write_group_items : Bool → Groups → WideString
  write_group_items first [] = []
  write_group_items first ((name, devices) ∷ groups) =
      (if first then [] else codes "," ++ endl)
      ++ ((codes "{ "
            ++ ((json_quote ∷ (codes "friendlyName" ++ (json_quote ∷ codes " : ")))
                ++ (json_quote
                    ∷ (escape_json name
                        ++ (json_quote
                            ∷ (codes " , "
                                ++ ((json_quote ∷ (codes "devices" ++ (json_quote ∷ codes " :")))
                                    ++ (write_devices devices ++ codes "} "))))))))
          ++ write_group_items false groups)

  -- operator<< of the containers
  unfoldable pub write_groups : Groups → WideString
  write_groups groups = codes " [ " ++ (write_group_items true groups ++ (codes "] " ++ endl))
