-- ===== src/Examples/Desk.antt =====
-- A framework whose calls all succeed, over a registry that is a pair of tables.
use hid_hide.Prelude.{
  ℕ, ◌+◌, ◌-◌, ◌*◌, ◌≡◌, refl, true, false, Option, none, some, List, [], WideString, length, ◌==◌,
  ==_iff, ltb, ◌<◌, ◌≤◌, if◌then◌else◌, arith, All, ap,
}
use hid_hide.Driver.Status.{NtStatus, success, object_name_not_found, nt_success, buffer_overflow}
use hid_hide.Driver.MultiString.{StringCopy, max_cch}
use hid_hide.Driver.MultiString.Layout.{multi_string}
use hid_hide.Client.MultiString.{multi_string_to_string_list}
use hid_hide.Client.MultiString.RoundTrip.{IsText, multi_string_to_string_list_lem}
use hid_hide.Driver.Framework.{
  Framework, IsRegistry, Property, ValueInfo, whitelisted_full_image_names,
  blacklisted_device_instance_paths, whitelisted_inverse,
}

pub record Desk : Type 0 where
  pub keys : ℕ
  pub numbers : ℕ → Option ℕ
  pub lists : ℕ → Option (List WideString)

abbrev pub id_of : Property → ℕ
id_of whitelisted_full_image_names = 0
id_of blacklisted_device_instance_paths = 1
id_of Property.active = 2
id_of whitelisted_inverse = 3

abbrev pub put : {A : Type 0} → (ℕ → Option A) → ℕ → A → ℕ → Option A
put table i a j = if j == i then some a else table j

abbrev number_answer : Option ℕ → NtStatus × ℕ
number_answer none = (object_name_not_found, 0)
number_answer (some n) = (success, n)

abbrev info_answer : Option (List WideString) → ValueInfo
info_answer none = record { status = object_name_not_found; size_needed = 0; is_multi_sz = false }
info_answer (some items) = record {
  status = success;
  size_needed = 2 * length (multi_string items);
  is_multi_sz = true;
}

abbrev texts_answer : Option (List WideString) → NtStatus × List WideString
texts_answer none = (object_name_not_found, [])
texts_answer (some items) = (success, items)

abbrev pub desk : Framework
desk = record {
  World = Desk;
  open_parameters_key = λ a w. (success, record w { keys = w.keys + 1 });
  close_key = λ w. record w { keys = w.keys - 1 };
  query_ulong = λ p w. number_answer (w.numbers (id_of p));
  query_value = λ p w. info_answer (w.lists (id_of p));
  query_multi_string = λ p w. texts_answer (w.lists (id_of p));
  assign_ulong = λ p n w. (success, record w { numbers = put w.numbers (id_of p) n });
  assign_multi_string = λ p b w.
      (success, record w { lists = put w.lists (id_of p) (multi_string_to_string_list b) });
  create_collection = λ w. (success, w);
  delete_collection = λ w. w;
}

pub put_self : {A : Type 0} (table : ℕ → Option A) (i : ℕ) (a : A) → put table i a i ≡ some a
put_self table i a = rw ((==_iff i i).1 refl) refl

pub texts_assigned :
    (p : Property) (items : List WideString) (w : Desk)
    → All IsText items
    → put w.lists (id_of p) (multi_string_to_string_list (multi_string items)) (id_of p)
      ≡ some items
texts_assigned p items w t =
    rw (multi_string_to_string_list_lem items t) (put_self w.lists (id_of p) items)

-- A key of this registry always opens.
pub never : {A : Type 0} → true ≡ false → A
never h = cc

abbrev pub desk_laws : IsRegistry desk
desk_laws = record {
  open_keys = λ w. w.keys;
  number = λ p w. w.numbers (id_of p);
  texts = λ p w. w.lists (id_of p);
  opened = λ a w h. refl;
  not_opened = λ a w h. never h;
  closed = λ w. refl;
  open_keys-assign_ulong = λ p n w. refl;
  open_keys-assign_multi_string = λ p b w. refl;
  open_keys-create = λ w. refl;
  open_keys-delete = λ w. refl;
  number-open = λ p a w. refl;
  number-close = λ p w. refl;
  number-create = λ p w. refl;
  number-delete = λ p w. refl;
  number-assign = λ p n w h. put_self w.numbers (id_of p) n;
  query_ulong-number = λ p n w h. ap number_answer h;
  texts-open = λ p a w. refl;
  texts-close = λ p w. refl;
  texts-create = λ p w. refl;
  texts-delete = λ p w. refl;
  texts-assign = λ p items w t h. texts_assigned p items w t;
  query_value-texts = λ p items w h. ap info_answer h;
  query_multi_string-texts = λ p items w h. ap texts_answer h;
}

-- A copy that fails when the text does not fit.
abbrev copied : ℕ → WideString → NtStatus
copied size s = if ltb (length s) size then success else buffer_overflow

pub copied_fits :
    (size : ℕ) (s : WideString) → length s < size → size ≤ max_cch → copied size s ≡ success
copied_fits size s h m = ground arith

pub copied_overflows :
    (size : ℕ) (s : WideString) → size ≤ length s → nt_success (copied size s) ≡ false
copied_overflows size s h = ground arith

abbrev pub copier : StringCopy
copier = record { copy_status = copied; copy_fits = copied_fits; copy_overflows = copied_overflows }

-- A registry with no value in it.
abbrev pub blank : Desk
blank = record { keys = 0; numbers = λ i. none; lists = λ i. none }
