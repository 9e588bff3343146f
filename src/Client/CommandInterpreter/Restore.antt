-- ===== src/Client/CommandInterpreter/Restore.antt =====
-- The commands that DevList writes put the devices back on the blacklist.
use hid_hide.Prelude.{
  ◌≤◌, ◌≡◌, refl, ap, ◌∙◌, Bool, false, some, List, [], ◌∷◌, length, ltb, map, if◌then◌else◌,
  WideString, All, arith, codes, Bool-cases, inl, inr,
}
use hid_hide.Client.Sets.{emplace, emplace_all, compare_text}
use hid_hide.Client.Sets.Order.{compare_text-IsOrder}
use hid_hide.Client.Sets.Laws.{IsAscending, emplace_all_lem}
use hid_hide.Client.DriverAccess.{Device, done, and_then, set_blacklist}
use hid_hide.Client.FilterDriverProxy.{Proxy, Run, run_of, unchanged, blacklist_add_entry}
use hid_hide.Client.Commands.{
  Platform, Interpreter, at_one, val_one_device_instance_path, dev_hide, dev_hide_id,
}
use hid_hide.Client.CommandInterpreter.{
  registered_commands, find_command, validate, execute, keyword_of, execute_found, execute_command,
  execute_commands,
}

found_dev_hide : find_command (codes "dev-hide") registered_commands ≡ some dev_hide_id
unfolding find_command compare_text
found_dev_hide = refl

module _ (h : Platform) (d : Device) where
  abbrev hidden : WideString → Interpreter h d → Interpreter h d
  hidden device s = record s {
    proxy = record s.proxy { blacklist = (emplace compare_text device s.proxy.blacklist).0 };
  }

  validate_dev_hide :
      (device : WideString)
      → length device ≤ h.max_device_id_len
      → validate h dev_hide_id (codes "dev-hide" ∷ device ∷ []) ≡ done []
  unfolding validate val_one_device_instance_path at_one
  validate_dev_hide device l =
      let short : ltb h.max_device_id_len (length device) ≡ false = ground arith in rw short refl

  blacklist_add_entry-cached :
      (device : WideString) (p : Proxy) (w : d.World)
      → p.write_through ≡ false
      → blacklist_add_entry d device p w ≡ record {
        outcome = done tt;
        proxy = record p { blacklist = (emplace compare_text device p.blacklist).0 };
        world = w;
      }
  unfolding blacklist_add_entry
  blacklist_add_entry-cached device p w k =
      elim (Bool-cases (emplace compare_text device p.blacklist).1) [
        | inl n ↦ rw n (ap chosen k)
        | inr n ↦ rw n refl
      ]
    where
      chosen : Bool → Run d
      chosen through =
          if through
          then run_of d (record p { blacklist = (emplace compare_text device p.blacklist).0 })
              (set_blacklist d (emplace compare_text device p.blacklist).0 w)
          else unchanged d (record p { blacklist = (emplace compare_text device p.blacklist).0 }) w

  execute_command_dev_hide :
      (device : WideString) (s : Interpreter h d)
      → s.proxy.write_through ≡ false
      → length device ≤ h.max_device_id_len
      → execute_command h d (codes "dev-hide" ∷ device ∷ []) s ≡ (done [], hidden device s)
  unfolding execute_command execute_found execute dev_hide keyword_of and_then at_one
  execute_command_dev_hide device s k l =
      let valid = validate_dev_hide device l in
      let added = blacklist_add_entry-cached device s.proxy s.world k in
      rw (found_dev_hide, valid, added) refl

  executed :
      (devices : List WideString) (s : Interpreter h d)
      → s.proxy.write_through ≡ false
      → All (λ (device : WideString). length device ≤ h.max_device_id_len) devices
      → execute_commands h d
          (map (λ (device : WideString). codes "dev-hide" ∷ device ∷ []) devices)
          s
        ≡ (
          done [],
          record s {
            proxy = record s.proxy {
              blacklist = emplace_all compare_text s.proxy.blacklist devices;
            };
          },
        )
  unfolding execute_commands and_then emplace_all
  executed [] s k l = refl
  executed (device ∷ devices) s k l =
      rw (execute_command_dev_hide device s k l.0) (executed devices (hidden device s) k l.1)

  -- On a proxy without write-through and with an empty blacklist, the commands that hide the
  -- devices of a set, none longer than MAX_DEVICE_ID_LEN, end without an error, with that set as
  -- the blacklist and nothing else changed.
  pub execute_commands-restores :
      (devices : List WideString) (s : Interpreter h d)
      → s.proxy.write_through ≡ false
      → s.proxy.blacklist ≡ []
      → IsAscending compare_text devices
      → All (λ (device : WideString). length device ≤ h.max_device_id_len) devices
      → execute_commands h d
          (map (λ (device : WideString). codes "dev-hide" ∷ device ∷ []) devices)
          s
        ≡ (done [], record s { proxy = record s.proxy { blacklist = devices } })
  execute_commands-restores devices s k e a l =
      executed devices s k l
      ∙ (λ i. (
        done [],
        record s { proxy = record s.proxy { blacklist = emplace_all compare_text (e i) devices } },
      ))
      ∙ (λ i. (
        done [],
        record s {
          proxy = record s.proxy {
            blacklist = emplace_all_lem compare_text compare_text-IsOrder devices a i;
          };
        },
      ))
