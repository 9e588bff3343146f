-- ===== src/Client/FilterDriverProxy/Faithful.antt =====
-- What a client relies on of the driver behind the handle, and what the reads and the writes of the
-- client do over it.
use hid_hide.Prelude.{
  ℕ, ◌/◌, ◌≡◌, sym, ap, ◌∙◌, Ordering, Bool, true, not, List, length, ◌==◌, All, WideString, arith,
  Bool-cases, inl, inr, subst,
}
use hid_hide.Driver.MultiString.Layout.{multi_string}
use hid_hide.Driver.Requests.{
  ControlCode, get_whitelist_code, set_whitelist_code, get_blacklist_code, set_blacklist_code,
  get_active_code, set_active_code, get_wlinverse_code, set_wlinverse_code,
}
use hid_hide.Client.MultiString.RoundTrip.{
  IsText, IsText-codes, string_list_to_multi_string_lem, multi_string_to_string_list_lem,
}
use hid_hide.Client.Sets.{string_list_to_string_set, string_list_to_path_set}
use hid_hide.Client.Sets.Laws.{string_set_to_string_list_lem, path_set_to_string_list_lem}
use hid_hide.Client.DriverAccess.{
  Answer, Device, Outcome, done, thrown, read_flag_call, write_flag_call, size_call, read_list_call,
  write_list_call, finish_read_flag, finish_write, finish_read_list, read_list, as_set, get_active,
  set_active, get_blacklist, set_blacklist, get_whitelist, set_whitelist, get_inverse, set_inverse,
}

-- The settings that the driver holds, the lists in its own order.
pub record Settings : Type 0 where
  pub active : Bool
  pub blacklist : List WideString
  pub whitelist : List WideString
  pub inverse : Bool

-- The result of a call, unless it threw.
abbrev pub Gives : {A : Type 0} → (A → Type 0) → Outcome A → Type 0
Gives P thrown = Unit
Gives P (done a) = P a

-- A read that changes nothing, with what it answers when it succeeds.
abbrev pub Reads : {W : Type 0} → (W → Settings) → (Answer → Type 0) → W → Answer × W → Type 0
Reads settings P w (a, w') = (settings w' ≡ settings w) × (a.is_ok ≡ true → P a)

-- A write that makes the settings `s` when it succeeds.
abbrev pub Writes : {W : Type 0} → (W → Settings) → Settings → Answer × W → Type 0
Writes settings s (a, w') = a.is_ok ≡ true → settings w' ≡ s

pub record IsFaithful (d : Device) (settings : d.World → Settings) : Type 0 where
  pub reads_active :
      (w : d.World)
      → Reads settings
          (λ a. not (a.flag == 0) ≡ (settings w).active)
          w
          (d.control (read_flag_call get_active_code) w)
  pub reads_inverse :
      (w : d.World)
      → Reads settings
          (λ a. not (a.flag == 0) ≡ (settings w).inverse)
          w
          (d.control (read_flag_call get_wlinverse_code) w)
  pub sizes_blacklist :
      (w : d.World)
      → All IsText (settings w).blacklist
      → Reads settings
          (λ a. a.needed / 2 ≡ length (multi_string (settings w).blacklist))
          w
          (d.control (size_call get_blacklist_code) w)
  pub reads_blacklist :
      (w : d.World) (n : ℕ)
      → All IsText (settings w).blacklist
      → n ≡ length (multi_string (settings w).blacklist)
      → Reads settings
          (λ a. a.characters ≡ multi_string (settings w).blacklist)
          w
          (d.control (read_list_call get_blacklist_code n) w)
  pub sizes_whitelist :
      (w : d.World)
      → All IsText (settings w).whitelist
      → Reads settings
          (λ a. a.needed / 2 ≡ length (multi_string (settings w).whitelist))
          w
          (d.control (size_call get_whitelist_code) w)
  pub reads_whitelist :
      (w : d.World) (n : ℕ)
      → All IsText (settings w).whitelist
      → n ≡ length (multi_string (settings w).whitelist)
      → Reads settings
          (λ a. a.characters ≡ multi_string (settings w).whitelist)
          w
          (d.control (read_list_call get_whitelist_code n) w)
  pub writes_active :
      (active : Bool) (w : d.World)
      → Writes settings
          (record (settings w) { active = active })
          (d.control (write_flag_call set_active_code active) w)
  pub writes_inverse :
      (inverse : Bool) (w : d.World)
      → Writes settings
          (record (settings w) { inverse = inverse })
          (d.control (write_flag_call set_wlinverse_code inverse) w)
  pub writes_blacklist :
      (strings : List WideString) (w : d.World)
      → All IsText strings
      → Writes settings
          (record (settings w) { blacklist = strings })
          (d.control (write_list_call set_blacklist_code (multi_string strings)) w)
  pub writes_whitelist :
      (strings : List WideString) (w : d.World)
      → All IsText strings
      → Writes settings
          (record (settings w) { whitelist = strings })
          (d.control (write_list_call set_whitelist_code (multi_string strings)) w)

module _ (d : Device) (settings : d.World → Settings) where
  -- A read of the client that changes nothing and gives a value with `P`.
  abbrev pub Asks : {A : Type 0} → (A → Type 0) → d.World → Outcome A × d.World → Type 0
  Asks P w (o, w') = (settings w' ≡ settings w) × Gives P o

  -- A write of the client that makes the settings `s` unless it throws.
  abbrev pub Makes : Settings → Outcome Unit × d.World → Type 0
  Makes s (o, w') = Gives (λ u. settings w' ≡ s) o

  finish_read_flag-Asks :
      (b : Bool) (w : d.World) (r : Answer × d.World)
      → Reads settings (λ a. not (a.flag == 0) ≡ b) w r
      → Asks (λ x. x ≡ b) w (finish_read_flag d r)
  unfolding finish_read_flag
  finish_read_flag-Asks b w (a, w') h = ground arith

  finish_write-Makes :
      (s : Settings) (r : Answer × d.World) → Writes settings s r → Makes s (finish_write d r)
  unfolding finish_write
  finish_write-Makes s (a, w') h = ground arith

  finish_read_list-Asks :
      (strings : List WideString) (w : d.World) (r : Answer × d.World)
      → All IsText strings
      → Reads settings (λ a. a.characters ≡ multi_string strings) w r
      → Asks (λ x. x ≡ strings) w (finish_read_list d r)
  unfolding finish_read_list
  finish_read_list-Asks strings w (a, w') t h =
      ground (arith, multi_string_to_string_list_lem strings t)

  read_list-Asks :
      (code : ControlCode) (strings : List WideString) (w : d.World) (r : Answer × d.World)
      → All IsText strings
      → Reads settings (λ a. a.needed / 2 ≡ length (multi_string strings)) w r
      → ((w' : d.World) (n : ℕ)
          → settings w' ≡ settings w
          → n ≡ length (multi_string strings)
          → Reads settings
              (λ a. a.characters ≡ multi_string strings)
              w'
              (d.control (read_list_call code n) w'))
      → Asks (λ x. x ≡ strings) w (read_list d code r)
  unfolding read_list
  read_list-Asks code strings w (a, w') t (same, sized) next = elim (Bool-cases a.is_ok) [
    | inr k ↦ rw k (same, tt)
    | inl k ↦
        let n : ℕ = a.needed / 2 in
        let (same', gives) =
          finish_read_list-Asks strings w' (d.control (read_list_call code n) w') t
            (next w' n same (sized k)) in
        rw k (same' ∙ same, gives)
  ]

  as_set-Asks :
      (to_set : List WideString → List WideString) (strings : List WideString) (w : d.World)
      (r : Outcome (List WideString) × d.World)
      → Asks (λ x. x ≡ strings) w r
      → Asks (λ x. x ≡ to_set strings) w (as_set d to_set r)
  unfolding as_set
  as_set-Asks to_set strings w (done x, w') h = (h.0, ap to_set h.1)
  as_set-Asks to_set strings w (thrown, w') h = h

  module _ (faithful : IsFaithful d settings) where
    pub get_active-Asks : (w : d.World) → Asks (λ x. x ≡ (settings w).active) w (get_active d w)
    unfolding get_active
    get_active-Asks w =
        finish_read_flag-Asks (settings w).active w (d.control (read_flag_call get_active_code) w)
          (faithful.reads_active w)

    pub get_inverse-Asks : (w : d.World) → Asks (λ x. x ≡ (settings w).inverse) w (get_inverse d w)
    unfolding get_inverse
    get_inverse-Asks w =
        finish_read_flag-Asks (settings w).inverse w
          (d.control (read_flag_call get_wlinverse_code) w) (faithful.reads_inverse w)

    pub set_active-Makes :
        (active : Bool) (w : d.World)
        → Makes (record (settings w) { active = active }) (set_active d active w)
    unfolding set_active
    set_active-Makes active w =
        finish_write-Makes (record (settings w) { active = active })
          (d.control (write_flag_call set_active_code active) w) (faithful.writes_active active w)

    pub set_inverse-Makes :
        (inverse : Bool) (w : d.World)
        → Makes (record (settings w) { inverse = inverse }) (set_inverse d inverse w)
    unfolding set_inverse
    set_inverse-Makes inverse w =
        finish_write-Makes (record (settings w) { inverse = inverse })
          (d.control (write_flag_call set_wlinverse_code inverse) w)
          (faithful.writes_inverse inverse w)

    pub get_blacklist-Asks :
        (w : d.World)
        → All IsText (settings w).blacklist
        → Asks (λ x. x ≡ string_list_to_string_set (settings w).blacklist) w (get_blacklist d w)
    unfolding get_blacklist
    get_blacklist-Asks w t =
        let first = d.control (size_call get_blacklist_code) w in
        as_set-Asks string_list_to_string_set (settings w).blacklist w
          (read_list d get_blacklist_code first)
          (read_list-Asks get_blacklist_code (settings w).blacklist w first t
            (faithful.sizes_blacklist w t)
            (λ w' n same e.
              subst
                (λ (b : List WideString).
                  Reads settings (λ a. a.characters ≡ multi_string b) w'
                    (d.control (read_list_call get_blacklist_code n) w'))
                (λ i. (same i).blacklist)
                (faithful.reads_blacklist w' n
                  (subst (λ (b : Settings). All IsText b.blacklist) (sym same) t)
                  (e ∙ (λ i. length (multi_string (sym same i).blacklist))))))

    pub get_whitelist-Asks :
        (cmp : WideString → WideString → Ordering) (w : d.World)
        → All IsText (settings w).whitelist
        → Asks
            (λ x. x ≡ string_list_to_path_set cmp (settings w).whitelist)
            w
            (get_whitelist d cmp w)
    unfolding get_whitelist
    get_whitelist-Asks cmp w t =
        let first = d.control (size_call get_whitelist_code) w in
        as_set-Asks (string_list_to_path_set cmp) (settings w).whitelist w
          (read_list d get_whitelist_code first)
          (read_list-Asks get_whitelist_code (settings w).whitelist w first t
            (faithful.sizes_whitelist w t)
            (λ w' n same e.
              subst
                (λ (b : List WideString).
                  Reads settings (λ a. a.characters ≡ multi_string b) w'
                    (d.control (read_list_call get_whitelist_code n) w'))
                (λ i. (same i).whitelist)
                (faithful.reads_whitelist w' n
                  (subst (λ (b : Settings). All IsText b.whitelist) (sym same) t)
                  (e ∙ (λ i. length (multi_string (sym same i).whitelist))))))

    pub set_blacklist-Makes :
        (s : List WideString) (w : d.World)
        → All IsText s
        → Makes (record (settings w) { blacklist = s }) (set_blacklist d s w)
    unfolding set_blacklist
    set_blacklist-Makes s w t =
        rw (string_set_to_string_list_lem s, string_list_to_multi_string_lem s (IsText-codes s t))
          (finish_write-Makes (record (settings w) { blacklist = s })
            (d.control (write_list_call set_blacklist_code (multi_string s)) w)
            (faithful.writes_blacklist s w t))

    pub set_whitelist-Makes :
        (s : List WideString) (w : d.World)
        → All IsText s
        → Makes (record (settings w) { whitelist = s }) (set_whitelist d s w)
    unfolding set_whitelist
    set_whitelist-Makes s w t =
        rw (path_set_to_string_list_lem s, string_list_to_multi_string_lem s (IsText-codes s t))
          (finish_write-Makes (record (settings w) { whitelist = s })
            (d.control (write_list_call set_whitelist_code (multi_string s)) w)
            (faithful.writes_whitelist s w t))
