-- ===== src/Driver/Lifetime/Devices.antt =====
-- The notices in any order: the control device is deleted with the last device after a shutdown,
-- and never before.
use hid_hide.Prelude.{
  ℕ, ◌+◌, ◌%◌, ◌^◌, ◌<◌, ◌≡◌, refl, ◌∙◌, Bool, true, false, not, ◌&&◌, Option, none, some, List, [],
  ◌∷◌, map, arith, length, ◌==◌, suc, zero, if◌then◌else◌, Bool-cases, inl, inr,
}
use hid_hide.Driver.Status.{success}
use hid_hide.Driver.Processes.{process_ids_flush}
use hid_hide.Driver.Framework.{Framework}
use hid_hide.Driver.Session.{SessionEntry, held}
use hid_hide.Driver.Session.Cleanup.{drain_lem}
use hid_hide.Driver.Lifetime.{
  Machine, minus_one, count_devices, update_data, on_control_device_context_cleanup,
  on_device_create, on_device_context_cleanup, on_system_shutdown,
}

-- What can happen to the control device: a device comes, a device goes, or the system shuts down.
pub data Notice : Type 0 where
  device_created device_removed shutdown : Notice

-- Whether a shutdown has come, and how many devices there are, after a sequence of notices. No
-- device goes that is not there, and nothing comes once a shutdown has come and no device is left.
abbrev pub after_notices : List Notice → Bool → ℕ → Option (Bool × ℕ)
after_notices [] seen n = some (seen, n)
after_notices (notice ∷ notices) true zero = none
after_notices (device_created ∷ notices) true (suc n) = after_notices notices true (suc (suc n))
after_notices (device_created ∷ notices) false n = after_notices notices false (suc n)
after_notices (device_removed ∷ notices) true (suc n) = after_notices notices true n
after_notices (device_removed ∷ notices) false zero = none
after_notices (device_removed ∷ notices) false (suc n) = after_notices notices false n
after_notices (shutdown ∷ notices) true (suc n) = after_notices notices true (suc n)
after_notices (shutdown ∷ notices) false n = after_notices notices true n

module _ {f : Framework} where
  -- What the driver does on a notice. A device that comes has an instance path.
  unfoldable pub notified : Notice → Machine f → Option (Machine f)
  notified device_created m = elim (on_device_create success m) [
    | none ↦ none
    | some (status, m') ↦ some m'
  ]
  notified device_removed m = on_device_context_cleanup m
  notified shutdown m = on_system_shutdown m

  unfoldable pub run : List Notice → Machine f → Option (Machine f)
  run [] m = some m
  run (n ∷ notices) m = elim (notified n m) [ none ↦ none | some m' ↦ run notices m' ]

  -- With `n` devices, and with `seen` telling whether a shutdown has come.
  pub record IsCounted (seen : Bool) (n : ℕ) (m : Machine f) : Type 0 where
    pub counted : m.state.control.number_of_devices_created ≡ n
    pub pending : m.state.control.shutdown_pending ≡ seen
    pub present : m.is_present ≡ not (seen && (n == 0))
    pub entries : List SessionEntry
    pub session : m.state.control.session_blacklist ≡ map held entries

  update_data-IsCounted :
      (increment n k : ℕ) (seen seen' : Bool) (m : Machine f)
      → (seen && (n == 0)) ≡ false
      → (n + increment) % 2 ^ 32 ≡ k
      → (if increment == 0 then true else seen) ≡ seen'
      → IsCounted seen n m
      → (m' : Machine f) × (update_data increment m ≡ some m') × IsCounted seen' k m'
  unfolding update_data count_devices on_control_device_context_cleanup
  update_data-IsCounted increment n k seen seen' m live e g c =
      let present : m.is_present ≡ true = rw live at c.present in
      let control = m.state.control in
      let same : (control.number_of_devices_created + increment) % 2 ^ 32 ≡ k = rw c.counted e in
      let told : (if increment == 0 then true else control.shutdown_pending) ≡ seen' =
        rw c.pending g in
      elim (Bool-cases ((k == 0) && seen')) [
        | inl last ↦ (
          record m {
            state = record (m.state) {
              control = record (count_devices increment control) { session_blacklist = [] };
            };
            is_present = false;
          },
          rw (present, same, told, last, c.session, drain_lem c.entries) refl,
          record {
            counted = same;
            pending = told;
            present = ground arith;
            entries = [];
            session = refl;
          },
        )
        | inr more ↦ (
          record m { state = record (m.state) { control = count_devices increment control } },
          rw (present, same, told, more) refl,
          record {
            counted = same;
            pending = told;
            present = present ∙ ground arith;
            entries = c.entries;
            session = c.session;
          },
        )
      ]

  device_created-IsCounted :
      (n k : ℕ) (seen : Bool) (m : Machine f)
      → (seen && (n == 0)) ≡ false
      → (n + 1) % 2 ^ 32 ≡ k
      → IsCounted seen n m
      → (m' : Machine f) × (notified device_created m ≡ some m') × IsCounted seen k m'
  unfolding notified on_device_create
  device_created-IsCounted n k seen m live e c =
      let (m', h, c') = update_data-IsCounted 1 n k seen seen m live e refl c in
      (m', rw (notified, on_device_create, h) refl, c')

  device_removed-IsCounted :
      (n k : ℕ) (seen : Bool) (m : Machine f)
      → (seen && (n == 0)) ≡ false
      → (n + minus_one) % 2 ^ 32 ≡ k
      → IsCounted seen n m
      → (m' : Machine f) × (notified device_removed m ≡ some m') × IsCounted seen k m'
  unfolding notified on_device_context_cleanup
  device_removed-IsCounted n k seen m live e c =
      update_data-IsCounted minus_one n k seen seen m live e refl c

  shutdown-IsCounted :
      (n : ℕ) (seen : Bool) (m : Machine f)
      → (seen && (n == 0)) ≡ false
      → n < 2 ^ 32
      → IsCounted seen n m
      → (m' : Machine f) × (notified shutdown m ≡ some m') × IsCounted true n m'
  unfolding notified on_system_shutdown
  shutdown-IsCounted n seen m live b c =
      update_data-IsCounted 0 n n seen true
        (record m {
          state = record (m.state) { process_tree = process_ids_flush m.state.process_tree };
        })
        live (omega arith) refl
        (record {
          counted = c.counted;
          pending = c.pending;
          present = c.present;
          entries = c.entries;
          session = c.session;
        })

  then_run :
      (notice : Notice) (notices : List Notice) (seen seen' : Bool) (n k : ℕ) (m : Machine f)
      → (m₁ : Machine f) × (notified notice m ≡ some m₁) × IsCounted seen n m₁
      → ((m₁ : Machine f)
          → IsCounted seen n m₁
          → (m' : Machine f) × (run notices m₁ ≡ some m') × IsCounted seen' k m')
      → (m' : Machine f) × (run (notice ∷ notices) m ≡ some m') × IsCounted seen' k m'
  unfolding run
  then_run notice notices seen seen' n k m (m₁, e, c) next =
      let (m', h, c') = next m₁ c in (m', rw (e, run) h, c')

  -- Start from a state whose count of devices is right, with a session blacklist of entries, a
  -- shutdown pending exactly if one has come, and the control device gone exactly if a shutdown has
  -- come and no device is left. Take any sequence of notices in which no device goes that is not
  -- there, and nothing comes once a shutdown has come and no device is left, where devices and
  -- notices together are fewer than 2 ^ 32 and every device that comes has an instance path. Then
  -- the driver takes every notice without a bug check, and the same holds at the end, for the
  -- devices and the shutdown that the notices tell of.
  pub run-IsCounted :
      (notices : List Notice) (seen seen' : Bool) (n k : ℕ) (m : Machine f)
      → n + length notices < 2 ^ 32
      → after_notices notices seen n ≡ some (seen', k)
      → IsCounted seen n m
      → (m' : Machine f) × (run notices m ≡ some m') × IsCounted seen' k m'
  unfolding run
  run-IsCounted [] seen seen' n k m b d c = (
    m,
    refl,
    record {
      counted = ground arith;
      pending = ground arith;
      present = ground arith;
      entries = c.entries;
      session = c.session;
    },
  )
  run-IsCounted (notice ∷ notices) true seen' zero k m b d c = cc
  run-IsCounted (device_created ∷ notices) true seen' (suc n) k m b d c =
      then_run device_created notices true seen' (suc (suc n)) k m
        (device_created-IsCounted (suc n) (suc (suc n)) true m (ground arith) (omega arith) c)
        (λ m₁. run-IsCounted notices true seen' (suc (suc n)) k m₁ (omega arith) d)
  run-IsCounted (device_created ∷ notices) false seen' n k m b d c =
      then_run device_created notices false seen' (suc n) k m
        (device_created-IsCounted n (suc n) false m refl (omega arith) c)
        (λ m₁. run-IsCounted notices false seen' (suc n) k m₁ (omega arith) d)
  run-IsCounted (device_removed ∷ notices) true seen' (suc n) k m b d c =
      then_run device_removed notices true seen' n k m
        (device_removed-IsCounted (suc n) n true m (ground arith) (omega arith) c)
        (λ m₁. run-IsCounted notices true seen' n k m₁ (omega arith) d)
  run-IsCounted (device_removed ∷ notices) false seen' zero k m b d c = cc
  run-IsCounted (device_removed ∷ notices) false seen' (suc n) k m b d c =
      then_run device_removed notices false seen' n k m
        (device_removed-IsCounted (suc n) n false m refl (omega arith) c)
        (λ m₁. run-IsCounted notices false seen' n k m₁ (omega arith) d)
  run-IsCounted (shutdown ∷ notices) true seen' (suc n) k m b d c =
      then_run shutdown notices true seen' (suc n) k m
        (shutdown-IsCounted (suc n) true m (ground arith) (omega arith) c)
        (λ m₁. run-IsCounted notices true seen' (suc n) k m₁ (omega arith) d)
  run-IsCounted (shutdown ∷ notices) false seen' n k m b d c =
      then_run shutdown notices true seen' n k m (shutdown-IsCounted n false m refl (omega arith) c)
        (λ m₁. run-IsCounted notices true seen' n k m₁ (omega arith) d)
