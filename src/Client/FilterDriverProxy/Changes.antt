-- ===== src/Client/FilterDriverProxy/Changes.antt =====
-- The methods of FilterDriverProxy that change a setting: with write-through the driver follows
-- the object, and without it nothing reaches the driver.
use hid_hide.Prelude.{◌≡◌, Ordering, Bool, false, List, All, WideString, arith}
use hid_hide.Client.MultiString.RoundTrip.{IsText}
use hid_hide.Client.Sets.{emplace, erase, compare_text}
use hid_hide.Client.Sets.Order.{IsOrder, compare_text-IsOrder}
use hid_hide.Client.Sets.Laws.{
  IsAscending, emplace-IsAscending, erase-IsAscending, All-emplace, All-erase,
}
use hid_hide.Client.DriverAccess.{Device, done}
use hid_hide.Client.FilterDriverProxy.{
  Proxy, Run, proxy_set_active, proxy_set_blacklist, blacklist_add_entry, blacklist_del_entry,
  proxy_set_inverse, proxy_set_whitelist, whitelist_add_entry, whitelist_del_entry,
}
use hid_hide.Client.FilterDriverProxy.Applied.{IsWellFormed}

-- A call of a method that changes a setting.
pub data Change : Type 0 where
  to_active to_inverse : Bool → Change
  to_blacklist to_whitelist : List WideString → Change
  hide unhide register unregister : WideString → Change

-- The sets and the texts that a client passes are such that a multi-string can hold them.
abbrev pub IsProper : (WideString → WideString → Ordering) → Change → Type 0
IsProper cmp (to_blacklist s) = All IsText s × IsAscending compare_text s
IsProper cmp (to_whitelist s) = All IsText s × IsAscending cmp s
IsProper cmp (hide path) = IsText path
IsProper cmp (register name) = IsText name
IsProper cmp _ = Unit

module _ (d : Device) (cmp : WideString → WideString → Ordering) where
  abbrev pub perform : Change → Proxy → d.World → Run d
  perform (to_active b) p w = proxy_set_active d b p w
  perform (to_inverse b) p w = proxy_set_inverse d b p w
  perform (to_blacklist s) p w = proxy_set_blacklist d s p w
  perform (to_whitelist s) p w = proxy_set_whitelist d cmp s p w
  perform (hide path) p w = blacklist_add_entry d path p w
  perform (unhide path) p w = blacklist_del_entry d path p w
  perform (register name) p w = whitelist_add_entry d cmp name p w
  perform (unregister name) p w = whitelist_del_entry d cmp name p w

  -- Without write-through no change reaches the driver, and none throws.
  pub perform_cached :
      (c : Change) (p : Proxy) (w : d.World)
      → p.write_through ≡ false
      → ((perform c p w).outcome ≡ done tt)
        × ((perform c p w).world ≡ w)
        × ((perform c p w).proxy.write_through ≡ false)
  unfolding proxy_set_active proxy_set_inverse proxy_set_blacklist proxy_set_whitelist
      blacklist_add_entry blacklist_del_entry whitelist_add_entry whitelist_del_entry
  perform_cached (to_active b) p w k = ground arith
  perform_cached (to_inverse b) p w k = ground arith
  perform_cached (to_blacklist s) p w k = ground arith
  perform_cached (to_whitelist s) p w k = ground arith
  perform_cached (hide path) p w k = ground arith
  perform_cached (unhide path) p w k = ground arith
  perform_cached (register name) p w k = ground arith
  perform_cached (unregister name) p w k = ground arith

  with_blacklist :
      (p : Proxy) (s : List WideString)
      → All IsText s
      → IsAscending compare_text s
      → IsWellFormed cmp p
      → IsWellFormed cmp (record p { blacklist = s })
  with_blacklist p s t a ok = record {
    blacklist_texts = t;
    whitelist_texts = ok.whitelist_texts;
    blacklist_ascends = a;
    whitelist_ascends = ok.whitelist_ascends;
  }

  with_whitelist :
      (p : Proxy) (s : List WideString)
      → All IsText s
      → IsAscending cmp s
      → IsWellFormed cmp p
      → IsWellFormed cmp (record p { whitelist = s })
  with_whitelist p s t a ok = record {
    blacklist_texts = ok.blacklist_texts;
    whitelist_texts = t;
    blacklist_ascends = ok.blacklist_ascends;
    whitelist_ascends = a;
  }

  with_active :
      (p : Proxy) (b : Bool) → IsWellFormed cmp p → IsWellFormed cmp (record p { active = b })
  with_active p b ok = record {
    blacklist_texts = ok.blacklist_texts;
    whitelist_texts = ok.whitelist_texts;
    blacklist_ascends = ok.blacklist_ascends;
    whitelist_ascends = ok.whitelist_ascends;
  }

  with_inverse :
      (p : Proxy) (b : Bool) → IsWellFormed cmp p → IsWellFormed cmp (record p { inverse = b })
  with_inverse p b ok = record {
    blacklist_texts = ok.blacklist_texts;
    whitelist_texts = ok.whitelist_texts;
    blacklist_ascends = ok.blacklist_ascends;
    whitelist_ascends = ok.whitelist_ascends;
  }

  -- The sets of the object stay ascending, and keep texts only, whatever the driver answers.
  pub perform-IsWellFormed :
      (o : IsOrder cmp) (c : Change) (p : Proxy) (w : d.World)
      → IsProper cmp c
      → IsWellFormed cmp p
      → IsWellFormed cmp (perform c p w).proxy
  unfolding proxy_set_active proxy_set_inverse proxy_set_blacklist proxy_set_whitelist
      blacklist_add_entry blacklist_del_entry whitelist_add_entry whitelist_del_entry
  perform-IsWellFormed o (to_active b) p w q ok = ground (arith, with_active p b ok)
  perform-IsWellFormed o (to_inverse b) p w q ok = ground (arith, with_inverse p b ok)
  perform-IsWellFormed o (to_blacklist s) p w q ok = ground (arith, with_blacklist p s q.0 q.1 ok)
  perform-IsWellFormed o (to_whitelist s) p w q ok = ground (arith, with_whitelist p s q.0 q.1 ok)
  perform-IsWellFormed o (hide path) p w q ok = ground (
    arith,
    with_blacklist p (emplace compare_text path p.blacklist).0
        (All-emplace compare_text compare_text-IsOrder IsText path p.blacklist q ok.blacklist_texts)
        (emplace-IsAscending compare_text compare_text-IsOrder path p.blacklist
          ok.blacklist_ascends)
        ok,
  )
  perform-IsWellFormed o (unhide path) p w q ok = ground (
    arith,
    with_blacklist p (erase compare_text path p.blacklist)
        (All-erase compare_text compare_text-IsOrder IsText path p.blacklist ok.blacklist_texts)
        (erase-IsAscending compare_text compare_text-IsOrder path p.blacklist ok.blacklist_ascends)
        ok,
  )
  perform-IsWellFormed o (register name) p w q ok = ground (
    arith,
    with_whitelist p (emplace cmp name p.whitelist).0
        (All-emplace cmp o IsText name p.whitelist q ok.whitelist_texts)
        (emplace-IsAscending cmp o name p.whitelist ok.whitelist_ascends) ok,
  )
  perform-IsWellFormed o (unregister name) p w q ok = ground (
    arith,
    with_whitelist p (erase cmp name p.whitelist)
        (All-erase cmp o IsText name p.whitelist ok.whitelist_texts)
        (erase-IsAscending cmp o name p.whitelist ok.whitelist_ascends) ok,
  )
