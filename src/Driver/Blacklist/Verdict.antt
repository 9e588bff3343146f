-- ===== src/Driver/Blacklist/Verdict.antt =====
-- What the two blacklists say together.
use hid_hide.Prelude.{
  ℕ, suc, ◌+◌, ◌≡◌, ◌≢◌, refl, ap, ◌∙◌, inl, inr, Bool, true, false, none, some, List, [], ◌∷◌,
  ◌++◌, map, length, take, drop, take_all, drop-append, All, any, ltb, lt→ltb, if◌then◌else◌, arith,
  WideString, Bool-cases, Option-cases,
}
use hid_hide.Driver.Session.{SessionEntry, Link, held, local_head}
use hid_hide.Driver.Blacklist.{
  TextRoutines, find_delimiter, split_device_data, check_persistent, check_session, blacklisted,
}

-- No entry of the persistent blacklist is for the device.
abbrev pub NotFiltered : TextRoutines → List WideString → WideString → Type 0
NotFiltered t filters path =
    All (λ filter. t.same (split_device_data t filter).device_instance_path path ≡ false) filters

find_delimiter_lem :
    (path rest : List ℕ) (i : ℕ)
    → All (λ (x : ℕ). x ≢ b'!') path
    → find_delimiter (path ++ (b'!' ∷ rest)) i ≡ i + length path
unfolding find_delimiter
find_delimiter_lem [] rest i h = ground arith
find_delimiter_lem (x ∷ path) rest i h = ground (arith, find_delimiter_lem path rest (i + 1))

find_delimiter_none :
    (path : List ℕ) (i : ℕ) → All (λ (x : ℕ). x ≢ b'!') path → find_delimiter path i ≡ 0
unfolding find_delimiter
find_delimiter_none [] i h = refl
find_delimiter_none (x ∷ path) i h = ground (arith, find_delimiter_none path (i + 1))

-- An entry `path!session` is taken apart at its delimiter; an entry without one is a path for
-- every session.
pub split_device_data_lem :
    (t : TextRoutines) (path session : WideString)
    → path ≢ []
    → All (λ (x : ℕ). x ≢ b'!') path
    → (split_device_data t (path ++ (b'!' ∷ session))
        ≡ record { device_instance_path = path; session_id = t.to_integer session })
      × (split_device_data t path ≡ record { device_instance_path = path; session_id = 0 })
unfolding split_device_data
split_device_data_lem t [] session n h = absurd (n refl)
split_device_data_lem t (x ∷ path) session n h =
    let at : find_delimiter (x ∷ (path ++ (b'!' ∷ session))) 0 ≡ suc (length path) =
      find_delimiter_lem (x ∷ path) session 0 h ∙ omega arith in
    let nowhere : find_delimiter (x ∷ path) 0 ≡ 0 = find_delimiter_none (x ∷ path) 0 h in
    let front : take (suc (length path)) (x ∷ (path ++ (b'!' ∷ session))) ≡ x ∷ path =
      take_all (x ∷ path) (b'!' ∷ session) in
    let back : drop (suc (length path) + 1) (x ∷ (path ++ (b'!' ∷ session))) ≡ session =
      drop-append (x ∷ path) (b'!' ∷ session) 1 (suc (length path) + 1) (omega arith) in
    let positive : ltb 0 (suc (length path)) ≡ true = lt→ltb 0 (suc (length path)) (omega arith) in
    (
      rw (at, split_device_data, positive)
          (λ i. record { device_instance_path = front i; session_id = t.to_integer (back i) }),
      rw (nowhere, split_device_data),
    )

check_persistent-none :
    (t : TextRoutines) (filters : List WideString) (path : WideString) (session_id : ℕ)
    → NotFiltered t filters path
    → check_persistent t filters path session_id ≡ none
unfolding check_persistent
check_persistent-none t [] path session_id b = refl
check_persistent-none t (f ∷ filters) path session_id b =
    rw b.0 (check_persistent-none t filters path session_id b.1)

-- Is an entry of the session blacklist for the device?
abbrev pub is_registered : TextRoutines → WideString → SessionEntry → Bool
is_registered t path sbe = t.same sbe.device_instance_path path

-- Both blacklists together, over a session blacklist of entries: the verdict of the first
-- persistent entry for the device, and if there is none, whether a session entry is for it.
abbrev pub is_hidden : TextRoutines → List WideString → List SessionEntry → WideString → ℕ → Bool
is_hidden t filters entries path session_id = elim (check_persistent t filters path session_id) [
  | some verdict ↦ verdict
  | none ↦ any (is_registered t path) entries
]

check_session-held :
    (t : TextRoutines) (entries : List SessionEntry) (path : WideString)
    → check_session t (map held entries) path ≡ some (any (is_registered t path) entries)
unfolding check_session
check_session-held t [] path = refl
check_session-held t (sbe ∷ entries) path =
    elim (Bool-cases (t.same sbe.device_instance_path path)) [
      | inl e ↦ rw e refl
      | inr e ↦ rw (e, check_session-held t entries path) refl
    ]

pub blacklisted-held :
    (t : TextRoutines) (filters : List WideString) (entries : List SessionEntry) (path : WideString)
    (session_id : ℕ)
    → blacklisted t filters (map held entries) path session_id
      ≡ some (is_hidden t filters entries path session_id)
unfolding blacklisted
blacklisted-held t filters entries path session_id =
    elim (Option-cases (check_persistent t filters path session_id)) [
      | inl e ↦ rw (e, blacklisted, is_hidden) (check_session-held t entries path)
      | inr (verdict, e) ↦ rw (e, blacklisted, is_hidden) refl
    ]

any-append :
    (p : SessionEntry → Bool) (xs ys : List SessionEntry)
    → any p (xs ++ ys) ≡ (if any p xs then true else any p ys)
any-append p [] ys = refl
any-append p (x ∷ xs) ys = ground (arith, any-append p xs ys)

any-none :
    (p : SessionEntry → Bool) (list : List SessionEntry)
    → All (λ (sbe : SessionEntry). p sbe ≡ false) list
    → any p list ≡ false
any-none p [] n = refl
any-none p (sbe ∷ list) n = rw n.0 (any-none p list n.1)

-- A device for which neither blacklist has an entry is hidden from nobody.
pub blacklisted_unknown :
    (t : TextRoutines) (filters : List WideString) (entries : List SessionEntry) (path : WideString)
    (session_id : ℕ)
    → NotFiltered t filters path
    → All (λ (sbe : SessionEntry). is_registered t path sbe ≡ false) entries
    → blacklisted t filters (map held entries) path session_id ≡ some false
blacklisted_unknown t filters entries path session_id b n =
    blacklisted-held t filters entries path session_id
    ∙ rw (check_persistent-none t filters path session_id b, is_hidden)
        (ap some (any-none (is_registered t path) entries n))

-- A session blacklist with a stack frame's head in it has no verdict on a device that no entry
-- before that head and no persistent entry is for.
pub blacklisted-local_head :
    (t : TextRoutines) (filters : List WideString) (entries : List SessionEntry) (rest : List Link)
    (path : WideString) (session_id : ℕ)
    → NotFiltered t filters path
    → All (λ (sbe : SessionEntry). is_registered t path sbe ≡ false) entries
    → blacklisted t filters (map held entries ++ (local_head ∷ rest)) path session_id ≡ none
unfolding blacklisted
blacklisted-local_head t filters entries rest path session_id b n =
    rw (check_persistent-none t filters path session_id b, blacklisted) (lost entries n)
  where
    lost :
        (list : List SessionEntry)
        → All (λ (sbe : SessionEntry). is_registered t path sbe ≡ false) list
        → check_session t (map held list ++ (local_head ∷ rest)) path ≡ none
    lost [] n = unfold check_session in refl
    lost (sbe ∷ list) n = unfold check_session in rw n.0 (lost list n.1)
