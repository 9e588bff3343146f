-- ===== src/Client/FilterDriverProxy/Upheld.antt =====
-- HidHideCLI/src/FilterDriverProxy.cpp: a property of the world behind the handle that every read,
-- and every write that succeeds, upholds is upheld by the methods that do not throw.
use hid_hide.Prelude.{
  ℕ, ◌/◌, ◌≡◌, Ordering, Bool, true, false, not, List, All, if◌then◌else◌, WideString, arith,
  Bool-cases, inl, inr,
}
use hid_hide.Driver.MultiString.Layout.{multi_string}
use hid_hide.Driver.Requests.{
  ControlCode, get_whitelist_code, set_whitelist_code, get_blacklist_code, set_blacklist_code,
  get_active_code, set_active_code, get_wlinverse_code, set_wlinverse_code,
}
use hid_hide.Client.MultiString.RoundTrip.{IsText, IsText-codes, string_list_to_multi_string_lem}
use hid_hide.Client.Sets.{
  emplace, contains, erase, same_set, compare_text, string_list_to_string_set,
  string_list_to_path_set,
}
use hid_hide.Client.Sets.Order.{IsOrder, compare_text-IsOrder}
use hid_hide.Client.Sets.Laws.{
  string_set_to_string_list_lem, path_set_to_string_list_lem, All-emplace, All-erase,
}
use hid_hide.Client.DriverAccess.{
  Call, Answer, Device, Outcome, done, thrown, and_then, read_flag_call, write_flag_call, size_call,
  read_list_call, write_list_call, finish_read_flag, finish_write, finish_read_list, read_list,
  as_set, get_active, set_active, get_blacklist, set_blacklist, get_whitelist, set_whitelist,
  get_inverse, set_inverse,
}
use hid_hide.Client.FilterDriverProxy.{
  Proxy, Run, differs, apply_one, apply_configuration_changes, proxy_set_active,
  proxy_set_blacklist, blacklist_add_entry, blacklist_del_entry, proxy_set_inverse,
  proxy_set_whitelist, whitelist_add_entry, whitelist_del_entry,
}
use hid_hide.Client.FilterDriverProxy.Faithful.{Gives}
use hid_hide.Client.FilterDriverProxy.Applied.{IsWellFormed}
use hid_hide.Client.FilterDriverProxy.Changes.{
  Change, to_active, to_inverse, to_blacklist, to_whitelist, hide, unhide, register, unregister,
  IsProper, perform,
}

module _ (d : Device) (I : d.World → Type 0) where
  abbrev pub Reading : Call → Type 0
  Reading c = (w : d.World) → I w → I (d.control c w).1

  abbrev pub Writing : Call → Type 0
  Writing c = (w : d.World) → I w → (d.control c w).0.is_ok ≡ true → I (d.control c w).1

  pub record IsUpheld : Type 0 where
    pub reads_active : Reading (read_flag_call get_active_code)
    pub reads_inverse : Reading (read_flag_call get_wlinverse_code)
    pub sizes_blacklist : Reading (size_call get_blacklist_code)
    pub sizes_whitelist : Reading (size_call get_whitelist_code)
    pub reads_blacklist : (n : ℕ) → Reading (read_list_call get_blacklist_code n)
    pub reads_whitelist : (n : ℕ) → Reading (read_list_call get_whitelist_code n)
    pub writes_active : (b : Bool) → Writing (write_flag_call set_active_code b)
    pub writes_inverse : (b : Bool) → Writing (write_flag_call set_wlinverse_code b)
    pub writes_blacklist :
        (s : List WideString)
        → All IsText s
        → Writing (write_list_call set_blacklist_code (multi_string s))
    pub writes_whitelist :
        (s : List WideString)
        → All IsText s
        → Writing (write_list_call set_whitelist_code (multi_string s))

  -- The world after a call that did not throw.
  abbrev pub After : {A : Type 0} → Outcome A × d.World → Type 0
  After (o, w) = Gives (λ a. I w) o

  finish_write-After :
      (r : Answer × d.World) → (r.0.is_ok ≡ true → I r.1) → After (finish_write d r)
  unfolding finish_write
  finish_write-After (a, w) h = ground arith

  finish_read_flag-I : (r : Answer × d.World) → I r.1 → I (finish_read_flag d r).1
  unfolding finish_read_flag
  finish_read_flag-I (a, w) h = ground arith

  finish_read_list-I : (r : Answer × d.World) → I r.1 → I (finish_read_list d r).1
  unfolding finish_read_list
  finish_read_list-I (a, w) h = ground arith

  as_set-I :
      (to_set : List WideString → List WideString) (r : Outcome (List WideString) × d.World)
      → I r.1
      → I (as_set d to_set r).1
  unfolding as_set
  as_set-I to_set (done s, w) h = h
  as_set-I to_set (thrown, w) h = h

  read_list-I :
      (code : ControlCode) (r : Answer × d.World)
      → ((n : ℕ) → Reading (read_list_call code n))
      → I r.1
      → I (read_list d code r).1
  unfolding read_list
  read_list-I code (a, w) next h =
      let n : ℕ = a.needed / 2 in
      elim (Bool-cases a.is_ok) [
        | inr e ↦ rw e h
        | inl e ↦ rw e (finish_read_list-I (d.control (read_list_call code n) w) (next n w h))
      ]

  -- A line of ApplyConfigurationChanges.
  apply_one-After :
      {A : Type 0} (is_new : A → Bool) (read : d.World → Outcome A × d.World)
      (write : d.World → Outcome Unit × d.World) (r : Outcome Unit × d.World)
      → After r
      → ((w : d.World) → I w → I (read w).1)
      → ((w : d.World) → I w → After (write w))
      → After (apply_one d is_new read write r)
  unfolding apply_one and_then
  apply_one-After is_new read write (thrown, w) h reads writes = tt
  apply_one-After {A = A} is_new read write (done u, w) h reads writes = behind (read w) (reads w h)
    where
      behind :
          (r : Outcome A × d.World)
          → I r.1
          → After (and_then r (λ a w'. if is_new a then write w' else (done tt, w')))
      behind (thrown, w') i = tt
      behind (done x, w') i = elim (Bool-cases (is_new x)) [
        | inl e ↦ rw e (writes w' i)
        | inr e ↦ rw e i
      ]

  -- The two tests of every method.
  chosen :
      (changed through : Bool) (written cached same : Run d)
      → through ≡ true
      → After (written.outcome, written.world)
      → After (same.outcome, same.world)
      → let r = if changed then (if through then written else cached) else same in
        After (r.outcome, r.world)
  chosen true through written cached same k f g = rw k f
  chosen false through written cached same k f g = g

  module _ (u : IsUpheld) where
    set_blacklist-After :
        (s : List WideString) (w : d.World) → All IsText s → I w → After (set_blacklist d s w)
    unfolding set_blacklist
    set_blacklist-After s w t i =
        rw (string_set_to_string_list_lem s, string_list_to_multi_string_lem s (IsText-codes s t))
          (finish_write-After (d.control (write_list_call set_blacklist_code (multi_string s)) w)
            (u.writes_blacklist s t w i))

    set_whitelist-After :
        (s : List WideString) (w : d.World) → All IsText s → I w → After (set_whitelist d s w)
    unfolding set_whitelist
    set_whitelist-After s w t i =
        rw (path_set_to_string_list_lem s, string_list_to_multi_string_lem s (IsText-codes s t))
          (finish_write-After (d.control (write_list_call set_whitelist_code (multi_string s)) w)
            (u.writes_whitelist s t w i))

    set_active-After : (b : Bool) (w : d.World) → I w → After (set_active d b w)
    unfolding set_active
    set_active-After b w i =
        finish_write-After (d.control (write_flag_call set_active_code b) w) (u.writes_active b w i)

    set_inverse-After : (b : Bool) (w : d.World) → I w → After (set_inverse d b w)
    unfolding set_inverse
    set_inverse-After b w i =
        finish_write-After (d.control (write_flag_call set_wlinverse_code b) w)
          (u.writes_inverse b w i)

    get_active-I : (w : d.World) → I w → I (get_active d w).1
    unfolding get_active
    get_active-I w i =
        finish_read_flag-I (d.control (read_flag_call get_active_code) w) (u.reads_active w i)

    get_inverse-I : (w : d.World) → I w → I (get_inverse d w).1
    unfolding get_inverse
    get_inverse-I w i =
        finish_read_flag-I (d.control (read_flag_call get_wlinverse_code) w) (u.reads_inverse w i)

    get_blacklist-I : (w : d.World) → I w → I (get_blacklist d w).1
    unfolding get_blacklist
    get_blacklist-I w i =
        let first = d.control (size_call get_blacklist_code) w in
        as_set-I string_list_to_string_set (read_list d get_blacklist_code first)
          (read_list-I get_blacklist_code first u.reads_blacklist (u.sizes_blacklist w i))

    module _ (cmp : WideString → WideString → Ordering) where
      get_whitelist-I : (w : d.World) → I w → I (get_whitelist d cmp w).1
      unfolding get_whitelist
      get_whitelist-I w i =
          let first = d.control (size_call get_whitelist_code) w in
          as_set-I (string_list_to_path_set cmp) (read_list d get_whitelist_code first)
            (read_list-I get_whitelist_code first u.reads_whitelist (u.sizes_whitelist w i))

      -- ApplyConfigurationChanges upholds it, for an object with texts that a multi-string can
      -- hold.
      pub apply_configuration_changes-After :
          (p : Proxy) (w : d.World)
          → IsWellFormed cmp p
          → I w
          → After (apply_configuration_changes d cmp p w)
      unfolding apply_configuration_changes
      apply_configuration_changes-After p w ok i = elim (Bool-cases p.write_through) [
        | inl e ↦ rw e tt
        | inr e ↦ rw e (
            apply_one-After _ _ _ _
              (apply_one-After _ _ _ _
                (apply_one-After _ _ _ _
                  (apply_one-After _ _ _ (done tt, w) i get_whitelist-I
                    (λ w' j. set_whitelist-After p.whitelist w' ok.whitelist_texts j))
                  get_blacklist-I (λ w' j. set_blacklist-After p.blacklist w' ok.blacklist_texts j))
                get_active-I (set_active-After p.active))
              get_inverse-I (set_inverse-After p.inverse))
      ]

      -- Each method of an object with write-through upholds it, for texts that a multi-string can
      -- hold.
      pub perform-After :
          (o : IsOrder cmp) (c : Change) (p : Proxy) (w : d.World)
          → p.write_through ≡ true
          → IsProper cmp c
          → IsWellFormed cmp p
          → I w
          → let r = perform d cmp c p w in After (r.outcome, r.world)
      unfolding proxy_set_active proxy_set_inverse proxy_set_blacklist proxy_set_whitelist
          blacklist_add_entry blacklist_del_entry whitelist_add_entry whitelist_del_entry
      perform-After o (to_active b) p w k q ok i =
          chosen (differs p.active b) p.write_through _ _ _ k (set_active-After b w i) i
      perform-After o (to_inverse b) p w k q ok i =
          chosen (differs p.inverse b) p.write_through _ _ _ k (set_inverse-After b w i) i
      perform-After o (to_blacklist s) p w k q ok i =
          chosen (not (same_set compare_text p.blacklist s)) p.write_through _ _ _ k
            (set_blacklist-After s w q.0 i) i
      perform-After o (to_whitelist s) p w k q ok i =
          chosen (not (same_set cmp p.whitelist s)) p.write_through _ _ _ k
            (set_whitelist-After s w q.0 i) i
      perform-After o (hide path) p w k q ok i =
          let s = (emplace compare_text path p.blacklist).0 in
          let t =
            All-emplace compare_text compare_text-IsOrder IsText path p.blacklist q
              ok.blacklist_texts in
          chosen (emplace compare_text path p.blacklist).1 p.write_through _ _ _ k
            (set_blacklist-After s w t i) i
      perform-After o (unhide path) p w k q ok i =
          let s = erase compare_text path p.blacklist in
          let t =
            All-erase compare_text compare_text-IsOrder IsText path p.blacklist
              ok.blacklist_texts in
          chosen (contains compare_text path p.blacklist) p.write_through _ _ _ k
            (set_blacklist-After s w t i) i
      perform-After o (register name) p w k q ok i =
          let s = (emplace cmp name p.whitelist).0 in
          let t = All-emplace cmp o IsText name p.whitelist q ok.whitelist_texts in
          chosen (emplace cmp name p.whitelist).1 p.write_through _ _ _ k
            (set_whitelist-After s w t i) i
      perform-After o (unregister name) p w k q ok i =
          let s = erase cmp name p.whitelist in
          let t = All-erase cmp o IsText name p.whitelist ok.whitelist_texts in
          chosen (contains cmp name p.whitelist) p.write_through _ _ _ k
            (set_whitelist-After s w t i) i
