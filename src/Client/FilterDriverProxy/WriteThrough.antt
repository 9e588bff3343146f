-- ===== src/Client/FilterDriverProxy/WriteThrough.antt =====
-- FilterDriverProxy with write-through: what a method changes reaches the driver at once.
use hid_hide.Prelude.{
  ◌≡◌, refl, sym, subst, Ordering, Bool, true, false, not, List, All, if◌then◌else◌, WideString,
  arith,
}
use hid_hide.Client.MultiString.RoundTrip.{IsText}
use hid_hide.Client.Sets.{emplace, contains, erase, same_set, compare_text}
use hid_hide.Client.Sets.Order.{IsOrder, compare_text-IsOrder}
use hid_hide.Client.Sets.Laws.{
  IsAscending, emplace-IsAscending, erase-IsAscending, All-emplace, All-erase, emplace_old,
}
use hid_hide.Client.DriverAccess.{
  Device, Outcome, done, thrown, set_active, set_blacklist, set_whitelist, set_inverse,
  write_flag_call, finish_write,
}
use hid_hide.Driver.Requests.{set_active_code}
use hid_hide.Client.FilterDriverProxy.{
  Proxy, Run, run_of, unchanged, differs, proxy_set_active, proxy_set_blacklist,
  blacklist_add_entry, blacklist_del_entry, proxy_set_inverse, proxy_set_whitelist,
  whitelist_add_entry, whitelist_del_entry,
}
use hid_hide.Client.FilterDriverProxy.Faithful.{
  Settings, Gives, IsFaithful, Makes, set_active-Makes, set_inverse-Makes, set_blacklist-Makes,
  set_whitelist-Makes,
}
use hid_hide.Client.FilterDriverProxy.Applied.{
  IsWellFormed, Agrees, whitelist_written, blacklist_written,
}
use hid_hide.Client.FilterDriverProxy.Changes.{
  Change, to_active, to_inverse, to_blacklist, to_whitelist, hide, unhide, register, unregister,
  IsProper, perform,
}

module _ (d : Device) (settings : d.World → Settings)
    (cmp : WideString → WideString → Ordering) where
  -- Unless the method threw, the driver has the settings of the object.
  abbrev pub Follows : Run d → Type 0
  Follows r = Gives (λ u. Agrees cmp r.proxy (settings r.world)) r.outcome

  after_write :
      (p : Proxy) (s : Settings) (r : Outcome Unit × d.World)
      → Makes d settings s r
      → Agrees cmp p s
      → Follows (run_of d p r)
  after_write p s (thrown, w) m a = tt
  after_write p s (done u, w) m a = subst (Agrees cmp p) (sym m) a

  -- The two tests of every method.
  chosen :
      (changed through : Bool) (written cached same : Run d)
      → through ≡ true
      → (changed ≡ true → Follows written)
      → (changed ≡ false → Follows same)
      → Follows (if changed then (if through then written else cached) else same)
  chosen true through written cached same k f g = rw k (f refl)
  chosen false through written cached same k f g = g refl

  module _ (o : IsOrder cmp) (faithful : IsFaithful d settings) where
    set_blacklist-Follows :
        (p : Proxy) (s : List WideString) (w : d.World)
        → All IsText s
        → IsAscending compare_text s
        → Agrees cmp p (settings w)
        → Follows (run_of d (record p { blacklist = s }) (set_blacklist d s w))
    set_blacklist-Follows p s w t a h =
        after_write (record p { blacklist = s }) (record (settings w) { blacklist = s })
          (set_blacklist d s w) (set_blacklist-Makes d settings faithful s w t)
          (record {
            whitelist = h.whitelist;
            blacklist = blacklist_written cmp (record p { blacklist = s }) (settings w) a;
            active = h.active;
            inverse = h.inverse;
          })

    pub set_whitelist-Follows :
        (p : Proxy) (s : List WideString) (w : d.World)
        → All IsText s
        → IsAscending cmp s
        → Agrees cmp p (settings w)
        → Follows (run_of d (record p { whitelist = s }) (set_whitelist d s w))
    set_whitelist-Follows p s w t a h =
        after_write (record p { whitelist = s }) (record (settings w) { whitelist = s })
          (set_whitelist d s w) (set_whitelist-Makes d settings faithful s w t)
          (record {
            whitelist = whitelist_written cmp o (record p { whitelist = s }) (settings w) a;
            blacklist = h.blacklist;
            active = h.active;
            inverse = h.inverse;
          })

    set_active-Follows :
        (p : Proxy) (b : Bool) (w : d.World)
        → Agrees cmp p (settings w)
        → Follows (run_of d (record p { active = b }) (set_active d b w))
    set_active-Follows p b w h =
        after_write (record p { active = b }) (record (settings w) { active = b })
          (set_active d b w) (set_active-Makes d settings faithful b w)
          (record {
            whitelist = h.whitelist;
            blacklist = h.blacklist;
            active = refl;
            inverse = h.inverse;
          })

    set_inverse-Follows :
        (p : Proxy) (b : Bool) (w : d.World)
        → Agrees cmp p (settings w)
        → Follows (run_of d (record p { inverse = b }) (set_inverse d b w))
    set_inverse-Follows p b w h =
        after_write (record p { inverse = b }) (record (settings w) { inverse = b })
          (set_inverse d b w) (set_inverse-Makes d settings faithful b w)
          (record {
            whitelist = h.whitelist;
            blacklist = h.blacklist;
            active = h.active;
            inverse = refl;
          })

    old_blacklist :
        (path : WideString) (p : Proxy) (s : Settings)
        → Agrees cmp p s
        → (emplace compare_text path p.blacklist).1 ≡ false
        → Agrees cmp (record p { blacklist = (emplace compare_text path p.blacklist).0 }) s
    old_blacklist path p s h k =
        subst (λ (b : List WideString). Agrees cmp (record p { blacklist = b }) s)
          (sym (emplace_old compare_text compare_text-IsOrder path p.blacklist k)) h

    old_whitelist :
        (name : WideString) (p : Proxy) (s : Settings)
        → Agrees cmp p s
        → (emplace cmp name p.whitelist).1 ≡ false
        → Agrees cmp (record p { whitelist = (emplace cmp name p.whitelist).0 }) s
    old_whitelist name p s h k =
        subst (λ (b : List WideString). Agrees cmp (record p { whitelist = b }) s)
          (sym (emplace_old cmp o name p.whitelist k)) h

    -- An object with write-through that agrees with a driver that keeps what is relied on agrees
    -- with it after each method that does not throw. The texts of the object and those that the
    -- method is given must be not empty and without a NUL, and the sets ascending.
    pub perform-Agrees :
        (c : Change) (p : Proxy) (w : d.World)
        → p.write_through ≡ true
        → IsProper cmp c
        → IsWellFormed cmp p
        → Agrees cmp p (settings w)
        → Follows (perform d cmp c p w)
    unfolding proxy_set_active proxy_set_inverse proxy_set_blacklist proxy_set_whitelist
        blacklist_add_entry blacklist_del_entry whitelist_add_entry whitelist_del_entry
    perform-Agrees (to_active b) p w k q ok h =
        chosen (differs p.active b) p.write_through _ _ _ k (λ n. set_active-Follows p b w h)
          (λ n. h)
    perform-Agrees (to_inverse b) p w k q ok h =
        chosen (differs p.inverse b) p.write_through _ _ _ k (λ n. set_inverse-Follows p b w h)
          (λ n. h)
    perform-Agrees (to_blacklist s) p w k q ok h =
        chosen (not (same_set compare_text p.blacklist s)) p.write_through _ _ _ k
          (λ n. set_blacklist-Follows p s w q.0 q.1 h) (λ n. h)
    perform-Agrees (to_whitelist s) p w k q ok h =
        chosen (not (same_set cmp p.whitelist s)) p.write_through _ _ _ k
          (λ n. set_whitelist-Follows p s w q.0 q.1 h) (λ n. h)
    perform-Agrees (hide path) p w k q ok h =
        let s = (emplace compare_text path p.blacklist).0 in
        let t =
          All-emplace compare_text compare_text-IsOrder IsText path p.blacklist q
            ok.blacklist_texts in
        let a =
          emplace-IsAscending compare_text compare_text-IsOrder path p.blacklist
            ok.blacklist_ascends in
        chosen (emplace compare_text path p.blacklist).1 p.write_through _ _ _ k
          (λ n. set_blacklist-Follows p s w t a h) (old_blacklist path p (settings w) h)
    perform-Agrees (unhide path) p w k q ok h =
        let s = erase compare_text path p.blacklist in
        let t =
          All-erase compare_text compare_text-IsOrder IsText path p.blacklist ok.blacklist_texts in
        let a =
          erase-IsAscending compare_text compare_text-IsOrder path p.blacklist
            ok.blacklist_ascends in
        chosen (contains compare_text path p.blacklist) p.write_through _ _ _ k
          (λ n. set_blacklist-Follows p s w t a h) (λ n. h)
    perform-Agrees (register name) p w k q ok h =
        let s = (emplace cmp name p.whitelist).0 in
        let t = All-emplace cmp o IsText name p.whitelist q ok.whitelist_texts in
        let a = emplace-IsAscending cmp o name p.whitelist ok.whitelist_ascends in
        chosen (emplace cmp name p.whitelist).1 p.write_through _ _ _ k
          (λ n. set_whitelist-Follows p s w t a h) (old_whitelist name p (settings w) h)
    perform-Agrees (unregister name) p w k q ok h =
        let s = erase cmp name p.whitelist in
        let t = All-erase cmp o IsText name p.whitelist ok.whitelist_texts in
        let a = erase-IsAscending cmp o name p.whitelist ok.whitelist_ascends in
        chosen (contains cmp name p.whitelist) p.write_through _ _ _ k
          (λ n. set_whitelist-Follows p s w t a h) (λ n. h)

module _ (d : Device) where
  set_active_refused :
      (b : Bool) (w : d.World)
      → (d.control (write_flag_call set_active_code b) w).0.is_ok ≡ false
      → (set_active d b w).0 ≡ thrown
  unfolding set_active finish_write
  set_active_refused b w h = ground arith

  -- A SetActive with write-through that throws leaves the object with the new state, which the
  -- driver refused. The call that tries again succeeds and never asks the driver.
  pub proxy_set_active_refused :
      (b : Bool) (p : Proxy) (w : d.World)
      → p.write_through ≡ true
      → p.active ≡ not b
      → (d.control (write_flag_call set_active_code b) w).0.is_ok ≡ false
      → let r = proxy_set_active d b p w in
        (r.outcome ≡ thrown)
        × ((w' : d.World) → proxy_set_active d b r.proxy w' ≡ unchanged d r.proxy w')
  unfolding proxy_set_active
  proxy_set_active_refused true p w k n f =
      let t = set_active_refused true w f in rw (k, n) (t, λ w'. refl)
  proxy_set_active_refused false p w k n f =
      let t = set_active_refused false w f in rw (k, n) (t, λ w'. refl)
