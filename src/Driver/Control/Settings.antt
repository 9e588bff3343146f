-- ===== src/Driver/Control/Settings.antt =====
-- The two boolean settings of the control device.
use hid_hide.Prelude.{
  ◌≡◌, refl, ◌⊎◌, Bool, true, false, some, List, [], ◌∷◌, ◌++◌, if◌then◌else◌, Bool-cases, inl, inr,
}
use mathlib.Core.List.{append-nil}
use hid_hide.Driver.Status.{success, nt_success}
use hid_hide.Driver.Framework.{Framework, IsRegistry, Property, whitelisted_inverse}
use hid_hide.Driver.Registry.{set_boolean_property}
use hid_hide.Driver.Registry.RoundTrip.{number-set_boolean_property}
use hid_hide.Driver.Control.{
  State, Event, enabled, disabled, change_events, set_active, set_inverse,
}

-- The event that tells of a boolean which is now on or off, behind the log: none when the boolean
-- is as it was.
abbrev pub Tells : Bool → Bool → List Event → List Event → Type 0
Tells false true log log' = log' ≡ log ++ (enabled ∷ [])
Tells true false log log' = log' ≡ log ++ (disabled ∷ [])
Tells false false log log' = log' ≡ log
Tells true true log log' = log' ≡ log

change_events-Tells :
    (old new : Bool) (log : List Event) → Tells old new log (log ++ change_events old new)
unfolding mathlib.Core.Bool.xor
change_events-Tells false true log = refl
change_events-Tells true false log = refl
change_events-Tells false false log = append-nil log
change_events-Tells true true log = append-nil log

module _ (f : Framework) (r : IsRegistry f) where
  -- SetActive either succeeds, and then the context and the registry hold the new value, all other
  -- settings are as they were, and a change from off to on is logged as enabled, one from on to off
  -- as disabled, and no change as nothing; or it fails, and then context and log are as
  -- they were.
  pub set_active_lem :
      (active : Bool) (s : State f)
      → let (status, s') = set_active f active s in
        ((status ≡ success)
          × (s'.control ≡ record (s.control) { is_active = active })
          × (r.number Property.active s'.world ≡ some (if active then 1 else 0))
          × Tells s.control.is_active active s.events s'.events)
        ⊎ ((nt_success status ≡ false) × (s'.control ≡ s.control) × (s'.events ≡ s.events))
  unfolding set_active
  set_active_lem active s =
      let written = set_boolean_property f Property.active active s.world in
      elim (Bool-cases (nt_success written.0)) [
        | inl e ↦
            let kept = number-set_boolean_property f r Property.active active s.world e in
            rw (e, set_active)
              (inl (refl, refl, kept, change_events-Tells s.control.is_active active s.events))
        | inr e ↦ rw (e, set_active) (inr (e, refl, refl))
      ]

  -- SetInverse either succeeds, and then the context and the registry hold the new value, all other
  -- settings are as they were, and the log gets the event that the service was enabled for a change
  -- from off to on, the event that it was disabled for one from on to off, and nothing for no
  -- change; or it fails, and then context and log are as they were.
  pub set_inverse_lem :
      (inverse : Bool) (s : State f)
      → let (status, s') = set_inverse f inverse s in
        ((status ≡ success)
          × (s'.control ≡ record (s.control) { is_inverse = inverse })
          × (r.number whitelisted_inverse s'.world ≡ some (if inverse then 1 else 0))
          × Tells s.control.is_inverse inverse s.events s'.events)
        ⊎ ((nt_success status ≡ false) × (s'.control ≡ s.control) × (s'.events ≡ s.events))
  unfolding set_inverse
  set_inverse_lem inverse s =
      let written = set_boolean_property f whitelisted_inverse inverse s.world in
      elim (Bool-cases (nt_success written.0)) [
        | inl e ↦
            let kept = number-set_boolean_property f r whitelisted_inverse inverse s.world e in
            rw (e, set_inverse)
              (inl (refl, refl, kept, change_events-Tells s.control.is_inverse inverse s.events))
        | inr e ↦ rw (e, set_inverse) (inr (e, refl, refl))
      ]
