-- ===== src/Client/FilterDriverProxy/Created.antt =====
-- The constructor of FilterDriverProxy: the object starts as the driver is, with the application
-- itself on the whitelist, or off the inverse whitelist.
use hid_hide.Prelude.{
  is_empty, ◌≡◌, refl, sym, ◌∙◌, subst, Ordering, Bool, true, false, not, List, All, if◌then◌else◌,
  WideString, Bool-cases, inl, inr,
}
use hid_hide.Client.MultiString.RoundTrip.{IsText}
use hid_hide.Client.Sets.{
  emplace, contains, compare_text, string_list_to_string_set, string_list_to_path_set,
}
use hid_hide.Client.Sets.Order.{IsOrder, compare_text-IsOrder}
use hid_hide.Client.Sets.Laws.{
  IsAscending, emplace-IsAscending, erase-IsAscending, All-emplace, All-erase, emplace_old,
  erase_absent, contains-emplace, contains-erase, same_set_refl,
  string_list_to_string_set-IsAscending, string_list_to_path_set-IsAscending,
  All-string_list_to_string_set, All-string_list_to_path_set,
}
use hid_hide.Client.DriverAccess.{
  Device, Outcome, done, thrown, and_then, get_blacklist, get_whitelist, set_whitelist, get_inverse,
}
use hid_hide.Client.FilterDriverProxy.{Proxy, enrolled, enrol, create_proxy}
use hid_hide.Client.FilterDriverProxy.Faithful.{
  Settings, Gives, IsFaithful, Asks, get_active-Asks, get_inverse-Asks, get_blacklist-Asks,
  get_whitelist-Asks,
}
use hid_hide.Client.FilterDriverProxy.Applied.{IsWellFormed, Agrees, HasTexts}
use hid_hide.Client.FilterDriverProxy.WriteThrough.{set_whitelist-Follows}

module _ {W A B : Type 0} (settings : W → Settings) where
  -- A read that gives what `P` says, and then a step that makes `Q` of it.
  Gives-and_then :
      (P : A → Settings → Type 0) (Q : B → Settings → Type 0) (r : Outcome A × W)
      (next : A → W → Outcome B × W)
      → Gives (λ a. P a (settings r.1)) r.0
      → ((a : A) (w : W) → P a (settings w) → Gives (λ b. Q b (settings (next a w).1)) (next a w).0)
      → Gives (λ b. Q b (settings (and_then r next).1)) (and_then r next).0
  unfolding and_then
  Gives-and_then P Q (thrown, w) next h k = tt
  Gives-and_then P Q (done a, w) next h k = k a w h

Asks-Gives :
    {W A : Type 0} (settings : W → Settings) (s : Settings) (P : A → Type 0) (r : Outcome A × W)
    → settings r.1 ≡ s
    → Gives P r.0
    → Gives (λ a. P a × (settings r.1 ≡ s)) r.0
Asks-Gives settings s P (thrown, w) e h = tt
Asks-Gives settings s P (done a, w) e h = (h, e)

module _ (cmp : WideString → WideString → Ordering) where
  -- What the constructor promises of its object.
  abbrev pub IsNew : WideString → Proxy → Settings → Type 0
  IsNew name p s =
      IsWellFormed cmp p × Agrees cmp p s × (contains cmp name p.whitelist ≡ not p.inverse)

module _ (d : Device) (settings : d.World → Settings) (cmp : WideString → WideString → Ordering)
    (o : IsOrder cmp) (faithful : IsFaithful d settings) where
  is_listed :
      (name : WideString) (p : Proxy)
      → IsWellFormed cmp p
      → contains cmp name (enrolled cmp name p).whitelist ≡ not p.inverse
  is_listed name p ok = elim (Bool-cases p.inverse) [
    | inl k ↦ rw k (contains-erase cmp o name p.whitelist ok.whitelist_ascends)
    | inr k ↦ rw k (contains-emplace cmp o name p.whitelist)
  ]

  enrolled_texts :
      (name : WideString) (p : Proxy)
      → IsText name
      → IsWellFormed cmp p
      → All IsText (enrolled cmp name p).whitelist
  enrolled_texts name p t ok = elim (Bool-cases p.inverse) [
    | inl k ↦ rw k (All-erase cmp o IsText name p.whitelist ok.whitelist_texts)
    | inr k ↦ rw k (All-emplace cmp o IsText name p.whitelist t ok.whitelist_texts)
  ]

  enrolled_ascends :
      (name : WideString) (p : Proxy)
      → IsWellFormed cmp p
      → IsAscending cmp (enrolled cmp name p).whitelist
  enrolled_ascends name p ok = elim (Bool-cases p.inverse) [
    | inl k ↦ rw k (erase-IsAscending cmp o name p.whitelist ok.whitelist_ascends)
    | inr k ↦ rw k (emplace-IsAscending cmp o name p.whitelist ok.whitelist_ascends)
  ]

  enrolled-IsWellFormed :
      (name : WideString) (p : Proxy)
      → IsText name
      → IsWellFormed cmp p
      → IsWellFormed cmp (enrolled cmp name p)
  enrolled-IsWellFormed name p t ok = record {
    blacklist_texts = ok.blacklist_texts;
    whitelist_texts = enrolled_texts name p t ok;
    blacklist_ascends = ok.blacklist_ascends;
    whitelist_ascends = enrolled_ascends name p ok;
  }

  -- The test of the constructor that decides about the call.
  abbrev is_changed : WideString → Proxy → Bool
  is_changed name p =
      if p.inverse then contains cmp name p.whitelist else (emplace cmp name p.whitelist).1

  enrolled_same :
      (name : WideString) (p : Proxy)
      → is_changed name p ≡ false
      → (enrolled cmp name p).whitelist ≡ p.whitelist
  enrolled_same name p h = elim (Bool-cases p.inverse) [
    | inl k ↦ rw k (erase_absent cmp o name p.whitelist (rw k at h))
    | inr k ↦ rw k (emplace_old cmp o name p.whitelist (rw k at h))
  ]

  enrol-IsNew :
      (name : WideString) (p : Proxy) (w : d.World)
      → is_empty name ≡ false
      → IsText name
      → IsWellFormed cmp p
      → Agrees cmp p (settings w)
      → Gives
          (λ p'. IsNew cmp name p' (settings (enrol d cmp p (done name) w).1))
          (enrol d cmp p (done name) w).0
  unfolding enrol
  enrol-IsNew name p w n t ok h =
      let p' : Proxy = enrolled cmp name p in
      let ok' = enrolled-IsWellFormed name p t ok in
      let listed = is_listed name p ok in
      rw n (elim (Bool-cases (is_changed name p)) [
        | inl k ↦ rw k (
            Gives-and_then settings (λ (u : Unit {0}) s. Agrees cmp p' s) (IsNew cmp name)
              (set_whitelist d p'.whitelist w) (λ u w'. (done p', w'))
              (set_whitelist-Follows d settings cmp o faithful p p'.whitelist w
                (enrolled_texts name p t ok) (enrolled_ascends name p ok) h)
              (λ u w' a. (ok', a, listed)))
        | inr k ↦ rw k (
          ok',
          subst (λ (s : List WideString). Agrees cmp (record p { whitelist = s }) (settings w))
              (sym (enrolled_same name p k)) h,
          listed,
        )
      ])

  -- The members as the driver has them.
  abbrev read_proxy : Bool → Settings → Proxy
  read_proxy write_through s = record {
    write_through = write_through;
    active = s.active;
    blacklist = string_list_to_string_set s.blacklist;
    whitelist = string_list_to_path_set cmp s.whitelist;
    inverse = s.inverse;
  }

  read_proxy-IsWellFormed :
      (t : Bool) (s : Settings) → HasTexts s → IsWellFormed cmp (read_proxy t s)
  read_proxy-IsWellFormed t s h = record {
    blacklist_texts = All-string_list_to_string_set IsText s.blacklist h.blacklist;
    whitelist_texts = All-string_list_to_path_set IsText cmp o s.whitelist h.whitelist;
    blacklist_ascends = string_list_to_string_set-IsAscending s.blacklist;
    whitelist_ascends = string_list_to_path_set-IsAscending cmp o s.whitelist;
  }

  read_proxy-Agrees : (t : Bool) (s : Settings) → Agrees cmp (read_proxy t s) s
  read_proxy-Agrees t s = record {
    whitelist = same_set_refl cmp o (string_list_to_path_set cmp s.whitelist);
    blacklist =
        same_set_refl compare_text compare_text-IsOrder (string_list_to_string_set s.blacklist);
    active = refl;
    inverse = refl;
  }

  -- Every read of the constructor gives a value and leaves the settings as they were.
  abbrev Read : {A : Type 0} → Settings → A → A → Settings → Type 0
  Read s0 x a s = (a ≡ x) × (s ≡ s0)

  Asks-Read :
      {A : Type 0} (x : A) (s0 : Settings) (w : d.World) (r : Outcome A × d.World)
      → settings w ≡ s0
      → Asks d settings (λ a. a ≡ x) w r
      → Gives (λ a. Read s0 x a (settings r.1)) r.0
  Asks-Read x s0 w (thrown, w') e h = tt
  Asks-Read x s0 w (done a, w') e h = (h.1, h.0 ∙ e)

  -- The constructor with a full image name that is not empty, unless it throws: the object has
  -- ascending sets of texts, it agrees with the driver, and it has the application on the
  -- whitelist exactly if the whitelist is not inverse. The driver must keep what is relied on and
  -- hold only texts that are not empty and have no NUL.
  pub create_proxy-IsNew :
      (write_through : Bool) (name : WideString) (w : d.World)
      → is_empty name ≡ false
      → IsText name
      → HasTexts (settings w)
      → let r = create_proxy d cmp write_through true (done name) w in
        Gives (λ p. IsNew cmp name p (settings r.1)) r.0
  unfolding create_proxy
  create_proxy-IsNew t name w n text h =
      let s0 = settings w in
      Gives-and_then settings (Read s0 s0.active) (IsNew cmp name) _ _
        (Asks-Read s0.active s0 w _ refl (get_active-Asks d settings faithful w))
        (λ active w1 k1.
          Gives-and_then settings (Read s0 (string_list_to_string_set s0.blacklist))
            (IsNew cmp name) _ _ (Asks-Read _ s0 w1 _ k1.1 (asked_blacklist w1 k1.1))
            (λ blacklist w2 k2.
              Gives-and_then settings (Read s0 (string_list_to_path_set cmp s0.whitelist))
                (IsNew cmp name) _ _ (Asks-Read _ s0 w2 _ k2.1 (asked_whitelist w2 k2.1))
                (λ whitelist w3 k3.
                  Gives-and_then settings (Read s0 s0.inverse) (IsNew cmp name) _ _
                    (Asks-Read _ s0 w3 _ k3.1 (asked_inverse w3 k3.1))
                    (λ inverse w4 k4.
                      let same : read_proxy t s0 ≡ record {
                        write_through = t;
                        active = active;
                        blacklist = blacklist;
                        whitelist = whitelist;
                        inverse = inverse;
                      } =
                        λ i. record {
                          write_through = t;
                          active = sym k1.0 i;
                          blacklist = sym k2.0 i;
                          whitelist = sym k3.0 i;
                          inverse = sym k4.0 i;
                        } in
                      enrol-IsNew name _ w4 n text
                        (subst (IsWellFormed cmp) same (read_proxy-IsWellFormed t s0 h))
                        (subst (Agrees cmp _) (sym k4.1) (
                          subst (λ (p : Proxy). Agrees cmp p s0) same (read_proxy-Agrees t s0)))))))
    where
      s0 : Settings
      s0 = settings w

      asked_blacklist :
          (w1 : d.World)
          → settings w1 ≡ s0
          → Asks d settings
              (λ a. a ≡ string_list_to_string_set s0.blacklist)
              w1
              (get_blacklist d w1)
      asked_blacklist w1 e =
          subst
            (λ (s : Settings).
              Asks d settings (λ a. a ≡ string_list_to_string_set s.blacklist) w1
                (get_blacklist d w1))
            e
            (get_blacklist-Asks d settings faithful w1
              (subst (λ (s : Settings). All IsText s.blacklist) (sym e) h.blacklist))

      asked_whitelist :
          (w1 : d.World)
          → settings w1 ≡ s0
          → Asks d settings
              (λ a. a ≡ string_list_to_path_set cmp s0.whitelist)
              w1
              (get_whitelist d cmp w1)
      asked_whitelist w1 e =
          subst
            (λ (s : Settings).
              Asks d settings (λ a. a ≡ string_list_to_path_set cmp s.whitelist) w1
                (get_whitelist d cmp w1))
            e
            (get_whitelist-Asks d settings faithful cmp w1
              (subst (λ (s : Settings). All IsText s.whitelist) (sym e) h.whitelist))

      asked_inverse :
          (w1 : d.World)
          → settings w1 ≡ s0
          → Asks d settings (λ a. a ≡ s0.inverse) w1 (get_inverse d w1)
      asked_inverse w1 e =
          subst (λ (s : Settings). Asks d settings (λ a. a ≡ s.inverse) w1 (get_inverse d w1)) e
            (get_inverse-Asks d settings faithful w1)
