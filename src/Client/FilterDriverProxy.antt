-- ===== src/Client/FilterDriverProxy.antt =====
-- HidHideCLI/src/FilterDriverProxy.cpp, the class FilterDriverProxy: the settings of the driver as
-- a client holds them, and how they get to the driver.
pub mod Faithful
pub mod Applied
pub mod Changes
pub mod WriteThrough
pub mod Created
pub mod Connection
pub mod Connected
pub mod Upheld
use hid_hide.Prelude.{
  is_empty, Ordering, Bool, true, false, not, ◌&&◌, ◌||◌, List, [], ◌∷◌, if◌then◌else◌, WideString,
}
use hid_hide.Client.Sets.{emplace, contains, erase, same_set, compare_text}
use hid_hide.Client.DriverAccess.{
  Device, Outcome, done, thrown, and_then, get_active, set_active, get_blacklist, set_blacklist,
  get_whitelist, set_whitelist, get_inverse, set_inverse,
}

-- The members of the class but the handle.
pub record Proxy : Type 0 where
  pub write_through : Bool
  pub active : Bool
  pub blacklist : List WideString
  pub whitelist : List WideString
  pub inverse : Bool

-- operator!= of bool
abbrev pub differs : Bool → Bool → Bool
differs true b = not b
differs false b = b

-- The object once the application itself is on the whitelist, or off the inverse whitelist.
abbrev pub enrolled : (WideString → WideString → Ordering) → WideString → Proxy → Proxy
enrolled cmp name p = record p {
  whitelist = if p.inverse then erase cmp name p.whitelist else (emplace cmp name p.whitelist).0;
}

module _ (d : Device) where
  -- A method that returns nothing: whether it threw, and the object and the world after it.
  pub record Run : Type 0 where
    pub outcome : Outcome Unit
    pub proxy : Proxy
    pub world : d.World

  abbrev pub run_of : Proxy → Outcome Unit × d.World → Run
  run_of p (outcome, w) = record { outcome = outcome; proxy = p; world = w }

  abbrev pub unchanged : Proxy → d.World → Run
  unchanged p w = record { outcome = done tt; proxy = p; world = w }

  -- SetActive
  unfoldable pub proxy_set_active : Bool → Proxy → d.World → Run
  proxy_set_active active p w =
      if differs p.active active
      then (if p.write_through
          then run_of (record p { active = active }) (set_active d active w)
          else unchanged (record p { active = active }) w)
      else unchanged p w

  -- SetBlacklist
  unfoldable pub proxy_set_blacklist : List WideString → Proxy → d.World → Run
  proxy_set_blacklist paths p w =
      if not (same_set compare_text p.blacklist paths)
      then (if p.write_through
          then run_of (record p { blacklist = paths }) (set_blacklist d paths w)
          else unchanged (record p { blacklist = paths }) w)
      else unchanged p w

  -- BlacklistAddEntry
  unfoldable pub blacklist_add_entry : WideString → Proxy → d.World → Run
  blacklist_add_entry path p w =
      let blacklist = (emplace compare_text path p.blacklist).0 in
      if (emplace compare_text path p.blacklist).1
      then (if p.write_through
          then run_of (record p { blacklist = blacklist }) (set_blacklist d blacklist w)
          else unchanged (record p { blacklist = blacklist }) w)
      else unchanged (record p { blacklist = blacklist }) w

  -- BlacklistDelEntry
  unfoldable pub blacklist_del_entry : WideString → Proxy → d.World → Run
  blacklist_del_entry path p w =
      let blacklist = erase compare_text path p.blacklist in
      if contains compare_text path p.blacklist
      then (if p.write_through
          then run_of (record p { blacklist = blacklist }) (set_blacklist d blacklist w)
          else unchanged (record p { blacklist = blacklist }) w)
      else unchanged p w

  -- SetInverse
  unfoldable pub proxy_set_inverse : Bool → Proxy → d.World → Run
  proxy_set_inverse inverse p w =
      if differs p.inverse inverse
      then (if p.write_through
          then run_of (record p { inverse = inverse }) (set_inverse d inverse w)
          else unchanged (record p { inverse = inverse }) w)
      else unchanged p w

  -- One line of ApplyConfigurationChanges: write what differs from what the driver has. A throw
  -- ends the function.
  unfoldable pub apply_one :
      {A : Type 0}
      → (A → Bool)
      → (d.World → Outcome A × d.World)
      → (d.World → Outcome Unit × d.World)
      → Outcome Unit × d.World
      → Outcome Unit × d.World
  apply_one is_new read write r =
      and_then r (λ u w. and_then (read w) (λ a w'. if is_new a then write w' else (done tt, w')))

  module _ (cmp : WideString → WideString → Ordering) where
    -- SetWhitelist
    unfoldable pub proxy_set_whitelist : List WideString → Proxy → d.World → Run
    proxy_set_whitelist names p w =
        if not (same_set cmp p.whitelist names)
        then (if p.write_through
            then run_of (record p { whitelist = names }) (set_whitelist d names w)
            else unchanged (record p { whitelist = names }) w)
        else unchanged p w

    -- WhitelistAddEntry
    unfoldable pub whitelist_add_entry : WideString → Proxy → d.World → Run
    whitelist_add_entry name p w =
        let whitelist = (emplace cmp name p.whitelist).0 in
        if (emplace cmp name p.whitelist).1
        then (if p.write_through
            then run_of (record p { whitelist = whitelist }) (set_whitelist d whitelist w)
            else unchanged (record p { whitelist = whitelist }) w)
        else unchanged (record p { whitelist = whitelist }) w

    -- WhitelistDelEntry
    unfoldable pub whitelist_del_entry : WideString → Proxy → d.World → Run
    whitelist_del_entry name p w =
        let whitelist = erase cmp name p.whitelist in
        if contains cmp name p.whitelist
        then (if p.write_through
            then run_of (record p { whitelist = whitelist }) (set_whitelist d whitelist w)
            else unchanged (record p { whitelist = whitelist }) w)
        else unchanged p w

    -- ApplyConfigurationChanges, which leaves the members as they are.
    unfoldable pub apply_configuration_changes : Proxy → d.World → Outcome Unit × d.World
    apply_configuration_changes p w =
        if p.write_through
        then (thrown, w)
        else apply_one (λ b. differs b p.inverse) (get_inverse d) (set_inverse d p.inverse)
            (apply_one (λ b. differs b p.active) (get_active d) (set_active d p.active)
              (apply_one (λ s. not (same_set compare_text s p.blacklist)) (get_blacklist d)
                (set_blacklist d p.blacklist)
                (apply_one (λ s. not (same_set cmp s p.whitelist)) (get_whitelist d cmp)
                  (set_whitelist d p.whitelist) (done tt, w))))

    -- The body of the constructor.
    unfoldable pub enrol : Proxy → Outcome WideString → d.World → Outcome Proxy × d.World
    enrol p thrown w = (thrown, w)
    enrol p (done name) w =
        if is_empty name
        then (done p, w)
        else (if (if p.inverse
              then contains cmp name p.whitelist
              else (emplace cmp name p.whitelist).1)
            then and_then (set_whitelist d (enrolled cmp name p).whitelist w)
                (λ u w'. (done (enrolled cmp name p), w'))
            else (done (enrolled cmp name p), w))

    -- The constructor: whether the device could be opened, and the full image name of the
    -- application, which may be empty.
    unfoldable pub create_proxy :
        Bool → Bool → Outcome WideString → d.World → Outcome Proxy × d.World
    create_proxy write_through is_open name w =
        if not is_open
        then (thrown, w)
        else and_then (get_active d w) (λ active w1. and_then (get_blacklist d w1) (λ blacklist w2.
          and_then (get_whitelist d cmp w2) (λ whitelist w3.
            and_then (get_inverse d w3) (λ inverse w4.
              enrol
                (record {
                  write_through = write_through;
                  active = active;
                  blacklist = blacklist;
                  whitelist = whitelist;
                  inverse = inverse;
                })
                name w4))))
