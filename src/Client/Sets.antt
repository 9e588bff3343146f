-- ===== src/Client/Sets.antt =====
-- HidHideCLI/src/Utils.cpp, sets of texts: a std::set is the list of its elements in ascending
-- order, over the comparison of its element type, which is a parameter.
pub mod Order
pub mod Laws
use hid_hide.Prelude.{compare, Ordering, Bool, true, false, ◌&&◌, List, [], ◌∷◌, ◌++◌, WideString}

abbrev pub is_eq : Ordering → Bool
is_eq Ordering.eq = true
is_eq _ = false

module _ {ℓ} {A : Type ℓ} (cmp : A → A → Ordering) where
  -- std::set::emplace, with the flag that says whether the element is new.
  unfoldable pub emplace : A → List A → List A × Bool
  emplace x [] = (x ∷ [], true)
  emplace x (y ∷ s) = elim (cmp x y) [
    | Ordering.lt ↦ (x ∷ y ∷ s, true)
    | Ordering.eq ↦ (y ∷ s, false)
    | Ordering.gt ↦ (y ∷ (emplace x s).0, (emplace x s).1)
  ]

  -- std::set::find, as a test
  unfoldable pub contains : A → List A → Bool
  contains x [] = false
  contains x (y ∷ s) = elim (cmp x y) [
    | Ordering.lt ↦ false
    | Ordering.eq ↦ true
    | Ordering.gt ↦ contains x s
  ]

  -- std::set::erase
  unfoldable pub erase : A → List A → List A
  erase x [] = []
  erase x (y ∷ s) = elim (cmp x y) [
    | Ordering.lt ↦ y ∷ s
    | Ordering.eq ↦ s
    | Ordering.gt ↦ y ∷ erase x s
  ]

  -- operator== of two sets
  unfoldable pub same_set : List A → List A → Bool
  same_set [] [] = true
  same_set [] (y ∷ t) = false
  same_set (x ∷ s) [] = false
  same_set (x ∷ s) (y ∷ t) = is_eq (cmp x y) && same_set s t

  -- The loop of StringListToStringSet and StringListToPathSet.
  unfoldable pub emplace_all : List A → List A → List A
  emplace_all result [] = result
  emplace_all result (x ∷ strings) = emplace_all (emplace x result).0 strings

-- The order of std::wstring
unfoldable pub compare_text : WideString → WideString → Ordering
compare_text [] [] = Ordering.eq
compare_text [] (y ∷ t) = Ordering.lt
compare_text (x ∷ s) [] = Ordering.gt
compare_text (x ∷ s) (y ∷ t) = elim (compare x y) [
  | Ordering.lt ↦ Ordering.lt
  | Ordering.gt ↦ Ordering.gt
  | Ordering.eq ↦ compare_text s t
]

-- StringListToStringSet
unfoldable pub string_list_to_string_set : List WideString → List WideString
string_list_to_string_set strings = emplace_all compare_text [] strings

-- StringSetToStringList: a set is iterated in its order.
unfoldable pub string_set_to_string_list : List WideString → List WideString
string_set_to_string_list [] = []
string_set_to_string_list (x ∷ strings) = x ∷ string_set_to_string_list strings

-- StringListToPathSet, over the order of std::filesystem::path
unfoldable pub string_list_to_path_set :
    (WideString → WideString → Ordering) → List WideString → List WideString
string_list_to_path_set cmp paths = emplace_all cmp [] paths

-- PathSetToStringList
unfoldable pub path_set_to_string_list : List WideString → List WideString
path_set_to_string_list [] = []
path_set_to_string_list (path ∷ paths) = path ∷ path_set_to_string_list paths
