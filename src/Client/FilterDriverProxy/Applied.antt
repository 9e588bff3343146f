-- ===== src/Client/FilterDriverProxy/Applied.antt =====
-- FilterDriverProxy::ApplyConfigurationChanges makes the driver agree with the object.
use hid_hide.Prelude.{
  ◌≡◌, refl, sym, ◌∙◌, subst, Ordering, Bool, true, false, not, List, All, if◌then◌else◌,
  WideString, arith, Bool-cases, inl, inr,
}
use hid_hide.Client.MultiString.RoundTrip.{IsText}
use hid_hide.Client.Sets.{
  same_set, compare_text, string_list_to_string_set, string_list_to_path_set,
}
use hid_hide.Client.Sets.Order.{IsOrder, compare_text-IsOrder}
use hid_hide.Client.Sets.Laws.{
  IsAscending, same_set_refl, string_list_to_string_set_lem, string_list_to_path_set_lem,
}
use hid_hide.Client.DriverAccess.{
  Device, Outcome, done, thrown, and_then, get_active, set_active, get_blacklist, set_blacklist,
  get_whitelist, set_whitelist, get_inverse, set_inverse,
}
use hid_hide.Client.FilterDriverProxy.{Proxy, differs, apply_one, apply_configuration_changes}
use hid_hide.Client.FilterDriverProxy.Faithful.{
  Settings, Gives, IsFaithful, Asks, Makes, get_active-Asks, set_active-Makes, get_inverse-Asks,
  set_inverse-Makes, get_blacklist-Asks, set_blacklist-Makes, get_whitelist-Asks,
  set_whitelist-Makes,
}

-- The lists of the driver hold texts that a multi-string can hold.
pub record HasTexts (s : Settings) : Type 0 where
  pub blacklist : All IsText s.blacklist
  pub whitelist : All IsText s.whitelist

module _ (cmp : WideString → WideString → Ordering) where
  -- The sets of the object are ascending, as a std::set is, and hold texts.
  pub record IsWellFormed (p : Proxy) : Type 0 where
    pub blacklist_texts : All IsText p.blacklist
    pub whitelist_texts : All IsText p.whitelist
    pub blacklist_ascends : IsAscending compare_text p.blacklist
    pub whitelist_ascends : IsAscending cmp p.whitelist

  abbrev pub AgreesOnWhitelist : Proxy → Settings → Type 0
  AgreesOnWhitelist p s = same_set cmp (string_list_to_path_set cmp s.whitelist) p.whitelist ≡ true

  abbrev pub AgreesOnBlacklist : Proxy → Settings → Type 0
  AgreesOnBlacklist p s =
      same_set compare_text (string_list_to_string_set s.blacklist) p.blacklist ≡ true

  -- The driver has the settings of the object, the lists as sets.
  pub record Agrees (p : Proxy) (s : Settings) : Type 0 where
    pub whitelist : AgreesOnWhitelist p s
    pub blacklist : AgreesOnBlacklist p s
    pub active : s.active ≡ p.active
    pub inverse : s.inverse ≡ p.inverse

  -- What has been settled after each line of ApplyConfigurationChanges.
  abbrev Settled1 : Proxy → Settings → Type 0
  Settled1 p s = AgreesOnWhitelist p s × All IsText s.blacklist

  abbrev Settled2 : Proxy → Settings → Type 0
  Settled2 p s = AgreesOnWhitelist p s × AgreesOnBlacklist p s

  abbrev Settled3 : Proxy → Settings → Type 0
  Settled3 p s = Settled2 p s × (s.active ≡ p.active)

  pub whitelist_written :
      (o : IsOrder cmp) (p : Proxy) (s : Settings)
      → IsAscending cmp p.whitelist
      → AgreesOnWhitelist p (record s { whitelist = p.whitelist })
  whitelist_written o p s a =
      rw (string_list_to_path_set_lem cmp o p.whitelist a) (same_set_refl cmp o p.whitelist)

  pub blacklist_written :
      (p : Proxy) (s : Settings)
      → IsAscending compare_text p.blacklist
      → AgreesOnBlacklist p (record s { blacklist = p.blacklist })
  blacklist_written p s a =
      rw (string_list_to_string_set_lem p.blacklist a)
        (same_set_refl compare_text compare_text-IsOrder p.blacklist)

not-false : (b : Bool) → not b ≡ false → b ≡ true
not-false true h = refl
not-false false h = absurd (ground arith)

same_of_differs : (a b : Bool) → differs a b ≡ false → a ≡ b
same_of_differs true true h = refl
same_of_differs true false h = absurd (ground arith)
same_of_differs false true h = absurd (ground arith)
same_of_differs false false h = refl

module _ (d : Device) (settings : d.World → Settings) where
  -- A line of ApplyConfigurationChanges brings `P` to `P'` if the value that is read tells whether
  -- `P'` holds already, and the write makes it hold.
  apply_one_lem :
      {A : Type 0} (P P' : Settings → Type 0) (Q : A → d.World → Type 0) (is_new : A → Bool)
      (read : d.World → Outcome A × d.World) (write : d.World → Outcome Unit × d.World)
      (update : Settings → Settings) (r : Outcome Unit × d.World)
      → Gives (λ u. P (settings r.1)) r.0
      → ((w : d.World) → P (settings w) → Asks d settings (λ a. Q a w) w (read w))
      → ((a : A) (w : d.World) → P (settings w) → Q a w → is_new a ≡ false → P' (settings w))
      → ((w : d.World) → Makes d settings (update (settings w)) (write w))
      → ((s : Settings) → P s → P' (update s))
      → Gives
          (λ u. P' (settings (apply_one d is_new read write r).1))
          (apply_one d is_new read write r).0
  unfolding apply_one and_then
  apply_one_lem {A = A} P P' Q is_new read write update (thrown, w) h asks same makes made = tt
  apply_one_lem {A = A} P P' Q is_new read write update (done u, w) h asks same makes made =
      behind (read w) (asks w h)
    where
      written :
          (r' : Outcome Unit × d.World) (w' : d.World)
          → P (settings w')
          → Makes d settings (update (settings w')) r'
          → Gives (λ u. P' (settings r'.1)) r'.0
      written (thrown, w'') w' k m = tt
      written (done u, w'') w' k m = subst P' (sym m) (made (settings w') k)

      behind :
          (r' : Outcome A × d.World)
          → Asks d settings (λ a. Q a w) w r'
          → let r'' = and_then r' (λ a w'. if is_new a then write w' else (done tt, w')) in
            Gives (λ u. P' (settings r''.1)) r''.0
      behind (thrown, w') a = tt
      behind (done x, w') a = elim (Bool-cases (is_new x)) [
        | inl k ↦ rw k (written (write w') w' (subst P (sym a.0) h) (makes w'))
        | inr k ↦ rw k (subst P' (sym a.0) (same x w h a.1 k))
      ]

  module _ (cmp : WideString → WideString → Ordering) where
    -- When ApplyConfigurationChanges ends without a throw, a driver that keeps what is relied on
    -- has the settings of the object, each list as the same set. The texts of the driver and of
    -- the object must be not empty and without a NUL, and the sets of the object ascending.
    pub apply_configuration_changes-Agrees :
        (o : IsOrder cmp) (faithful : IsFaithful d settings) (p : Proxy) (w w' : d.World)
        → IsWellFormed cmp p
        → HasTexts (settings w)
        → apply_configuration_changes d cmp p w ≡ (done tt, w')
        → Agrees cmp p (settings w')
    unfolding apply_configuration_changes
    apply_configuration_changes-Agrees o faithful p w w' ok t e =
        elim (Bool-cases p.write_through) [
          | inl k ↦ absurd (ground arith)
          | inr k ↦
              let e' : r4 ≡ (done tt, w') = ground arith in
              subst (λ (r : Outcome Unit × d.World). Gives (λ u. Agrees cmp p (settings r.1)) r.0)
                e' line4
        ]
      where
        r1 : Outcome Unit × d.World
        r1 =
            apply_one d (λ s. not (same_set cmp s p.whitelist)) (get_whitelist d cmp)
              (set_whitelist d p.whitelist) (done tt, w)

        r2 : Outcome Unit × d.World
        r2 =
            apply_one d (λ s. not (same_set compare_text s p.blacklist)) (get_blacklist d)
              (set_blacklist d p.blacklist) r1

        r3 : Outcome Unit × d.World
        r3 = apply_one d (λ b. differs b p.active) (get_active d) (set_active d p.active) r2

        r4 : Outcome Unit × d.World
        r4 = apply_one d (λ b. differs b p.inverse) (get_inverse d) (set_inverse d p.inverse) r3

        line1 : Gives (λ u. Settled1 cmp p (settings r1.1)) r1.0
        line1 =
            apply_one_lem HasTexts (Settled1 cmp p)
              (λ a w1. a ≡ string_list_to_path_set cmp (settings w1).whitelist)
              (λ s. not (same_set cmp s p.whitelist)) (get_whitelist d cmp)
              (set_whitelist d p.whitelist) (λ s. record s { whitelist = p.whitelist }) (done tt, w)
              t (λ w1 h. get_whitelist-Asks d settings faithful cmp w1 h.whitelist)
              (λ a w1 h q n. (
                subst (λ (x : List WideString). same_set cmp x p.whitelist ≡ true) q
                    (not-false (same_set cmp a p.whitelist) n),
                h.blacklist,
              ))
              (λ w1. set_whitelist-Makes d settings faithful p.whitelist w1 ok.whitelist_texts)
              (λ s h. (whitelist_written cmp o p s ok.whitelist_ascends, h.blacklist))

        line2 : Gives (λ u. Settled2 cmp p (settings r2.1)) r2.0
        line2 =
            apply_one_lem (Settled1 cmp p) (Settled2 cmp p)
              (λ a w1. a ≡ string_list_to_string_set (settings w1).blacklist)
              (λ s. not (same_set compare_text s p.blacklist)) (get_blacklist d)
              (set_blacklist d p.blacklist) (λ s. record s { blacklist = p.blacklist }) r1 line1
              (λ w1 h. get_blacklist-Asks d settings faithful w1 h.1)
              (λ a w1 h q n. (
                h.0,
                subst (λ (x : List WideString). same_set compare_text x p.blacklist ≡ true) q
                    (not-false (same_set compare_text a p.blacklist) n),
              ))
              (λ w1. set_blacklist-Makes d settings faithful p.blacklist w1 ok.blacklist_texts)
              (λ s h. (h.0, blacklist_written cmp p s ok.blacklist_ascends))

        line3 : Gives (λ u. Settled3 cmp p (settings r3.1)) r3.0
        line3 =
            apply_one_lem (Settled2 cmp p) (Settled3 cmp p) (λ a w1. a ≡ (settings w1).active)
              (λ b. differs b p.active) (get_active d) (set_active d p.active)
              (λ s. record s { active = p.active }) r2 line2
              (λ w1 h. get_active-Asks d settings faithful w1)
              (λ a w1 h q n. (h, sym q ∙ same_of_differs a p.active n))
              (λ w1. set_active-Makes d settings faithful p.active w1) (λ s h. (h, refl))

        line4 : Gives (λ u. Agrees cmp p (settings r4.1)) r4.0
        line4 =
            apply_one_lem (Settled3 cmp p) (Agrees cmp p) (λ a w1. a ≡ (settings w1).inverse)
              (λ b. differs b p.inverse) (get_inverse d) (set_inverse d p.inverse)
              (λ s. record s { inverse = p.inverse }) r3 line3
              (λ w1 h. get_inverse-Asks d settings faithful w1)
              (λ a w1 h q n. record {
                whitelist = h.0.0;
                blacklist = h.0.1;
                active = h.1;
                inverse = sym q ∙ same_of_differs a p.inverse n;
              })
              (λ w1. set_inverse-Makes d settings faithful p.inverse w1)
              (λ s h. record { whitelist = h.0.0; blacklist = h.0.1; active = h.1; inverse = refl })
