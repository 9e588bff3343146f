-- ===== src/Client/Sets/Laws.antt =====
-- Ascending lists are sets: what is in them after an insertion or a removal, and that two of them
-- with the same elements are the same list.
use hid_hide.Prelude.{
  Ordering, ◌≡◌, refl, sym, ◌∙◌, ap, true, false, not, List, [], ◌∷◌, ◌++◌, arith, All, WideString,
}
use mathlib.Core.List.{append-nil, append_assoc}
use hid_hide.Client.Sets.{
  emplace, contains, erase, same_set, emplace_all, compare_text, string_list_to_string_set,
  string_set_to_string_list, string_list_to_path_set, path_set_to_string_list,
}
use hid_hide.Client.Sets.Order.{IsOrder, compare_text-IsOrder}

module _ {ℓ} {A : Type ℓ} (cmp : A → A → Ordering) where
  -- Strictly ascending: every element is below all that follow it.
  abbrev pub IsAscending : List A → Type ℓ
  IsAscending [] = Unit
  IsAscending (x ∷ s) = All (λ (y : A). cmp x y ≡ Ordering.lt) s × IsAscending s

module _ {A : Type 0} (cmp : A → A → Ordering) (o : IsOrder cmp) where
  All-below :
      (x y : A) (s : List A)
      → cmp x y ≡ Ordering.lt
      → All (λ (z : A). cmp y z ≡ Ordering.lt) s
      → All (λ (z : A). cmp x z ≡ Ordering.lt) s
  All-below x y [] h a = tt
  All-below x y (z ∷ s) h a = (o.lt_trans x y z h a.0, All-below x y s h a.1)

  pub All-emplace :
      (P : A → Type 0) (x : A) (s : List A) → P x → All P s → All P (emplace cmp x s).0
  unfolding emplace
  All-emplace P x [] h a = (h, tt)
  All-emplace P x (y ∷ s) h a = ground (arith, All-emplace P x s)

  pub emplace-IsAscending :
      (x : A) (s : List A) → IsAscending cmp s → IsAscending cmp (emplace cmp x s).0
  unfolding emplace
  emplace-IsAscending x [] a = (tt, tt)
  emplace-IsAscending x (y ∷ s) a = ground (
    arith,
    emplace-IsAscending x s,
    All-below x y s,
    All-emplace (λ (z : A). cmp y z ≡ Ordering.lt) x s,
    o.lt_of_gt x y,
  )

  pub All-erase : (P : A → Type 0) (x : A) (s : List A) → All P s → All P (erase cmp x s)
  unfolding erase
  All-erase P x [] a = tt
  All-erase P x (y ∷ s) a = ground (arith, All-erase P x s)

  pub erase-IsAscending : (x : A) (s : List A) → IsAscending cmp s → IsAscending cmp (erase cmp x s)
  unfolding erase
  erase-IsAscending x [] a = tt
  erase-IsAscending x (y ∷ s) a =
      ground (arith, erase-IsAscending x s, All-erase (λ (z : A). cmp y z ≡ Ordering.lt) x s)

  -- An element is in the set once it has been inserted.
  pub contains-emplace : (x : A) (s : List A) → contains cmp x (emplace cmp x s).0 ≡ true
  unfolding emplace contains
  contains-emplace x [] = ground (arith, o.cmp_refl x)
  contains-emplace x (y ∷ s) = ground (arith, o.cmp_refl x, contains-emplace x s)

  contains_below :
      (x : A) (s : List A) → All (λ (z : A). cmp x z ≡ Ordering.lt) s → contains cmp x s ≡ false
  unfolding contains
  contains_below x [] a = refl
  contains_below x (y ∷ s) a = ground (arith, a.0)

  All-equal :
      (x y : A) (s : List A)
      → cmp x y ≡ Ordering.eq
      → All (λ (z : A). cmp y z ≡ Ordering.lt) s
      → All (λ (z : A). cmp x z ≡ Ordering.lt) s
  All-equal x y [] h a = tt
  All-equal x y (z ∷ s) h a = (o.eq_lt x y z h a.0, All-equal x y s h a.1)

  -- An element is not in the set once it has been removed.
  pub contains-erase :
      (x : A) (s : List A) → IsAscending cmp s → contains cmp x (erase cmp x s) ≡ false
  unfolding erase contains
  contains-erase x [] a = refl
  contains-erase x (y ∷ s) a =
      ground (arith, contains-erase x s, contains_below x s, All-equal x y s)

  -- An insertion that is not new, and a removal of what is not there, leave the set as it was.
  pub emplace_old : (x : A) (s : List A) → (emplace cmp x s).1 ≡ false → (emplace cmp x s).0 ≡ s
  unfolding emplace
  emplace_old x [] h = ground arith
  emplace_old x (y ∷ s) h = ground (arith, emplace_old x s)

  pub erase_absent : (x : A) (s : List A) → contains cmp x s ≡ false → erase cmp x s ≡ s
  unfolding erase contains
  erase_absent x [] h = refl
  erase_absent x (y ∷ s) h = ground (arith, erase_absent x s)

  pub emplace_flag : (x : A) (s : List A) → (emplace cmp x s).1 ≡ not (contains cmp x s)
  unfolding emplace contains
  emplace_flag x [] = refl
  emplace_flag x (y ∷ s) = ground (arith, emplace_flag x s)

  pub same_set_refl : (s : List A) → same_set cmp s s ≡ true
  unfolding same_set
  same_set_refl [] = refl
  same_set_refl (x ∷ s) = ground (arith, o.cmp_refl x, same_set_refl s)

  emplace_last :
      (x : A) (s : List A)
      → All (λ (y : A). cmp y x ≡ Ordering.lt) s
      → (emplace cmp x s).0 ≡ s ++ (x ∷ [])
  unfolding emplace
  emplace_last x [] a = refl
  emplace_last x (y ∷ s) a = ground (arith, emplace_last x s, lt_gt)
    where
      lt_gt : cmp x y ≡ Ordering.gt
      lt_gt = o.gt_of_lt y x a.0

  -- The elements in front are below a new element that is below all the others.
  abbrev Below : List A → List A → Type 0
  Below [] s = Unit
  Below (x ∷ result) s = All (λ (y : A). cmp x y ≡ Ordering.lt) s × Below result s

  Below-nil : (result : List A) → Below result []
  Below-nil [] = tt
  Below-nil (x ∷ result) = (tt, Below-nil result)

  Below-first :
      (result : List A) (x : A) (s : List A)
      → Below result (x ∷ s)
      → All (λ (y : A). cmp y x ≡ Ordering.lt) result
  Below-first [] x s h = tt
  Below-first (y ∷ result) x s h = (h.0.0, Below-first result x s h.1)

  Below-rest :
      (result : List A) (x : A) (s : List A)
      → All (λ (y : A). cmp x y ≡ Ordering.lt) s
      → Below result (x ∷ s)
      → Below (result ++ (x ∷ [])) s
  Below-rest [] x s a h = (a, tt)
  Below-rest (y ∷ result) x s a h = (h.0.1, Below-rest result x s a h.1)

  emplace_all-append :
      (result s : List A)
      → IsAscending cmp s
      → Below result s
      → emplace_all cmp result s ≡ result ++ s
  unfolding emplace_all
  emplace_all-append result [] a h = sym (append-nil result)
  emplace_all-append result (x ∷ s) a h = rw (emplace_last x result (Below-first result x s h)) (
      emplace_all-append (result ++ (x ∷ [])) s a.1 (Below-rest result x s a.0 h)
      ∙ append_assoc result (x ∷ []) s)

  -- Inserting the elements of a set in their order gives that set.
  pub emplace_all_lem : (s : List A) → IsAscending cmp s → emplace_all cmp [] s ≡ s
  emplace_all_lem s a = emplace_all-append [] s a tt

  pub All-emplace_all :
      (P : A → Type 0) (result s : List A)
      → All P result
      → All P s
      → All P (emplace_all cmp result s)
  unfolding emplace_all
  All-emplace_all P result [] h a = h
  All-emplace_all P result (x ∷ s) h a =
      All-emplace_all P (emplace cmp x result).0 s (All-emplace P x result a.0 h) a.1

  pub emplace_all-IsAscending :
      (result s : List A) → IsAscending cmp result → IsAscending cmp (emplace_all cmp result s)
  unfolding emplace_all
  emplace_all-IsAscending result [] a = a
  emplace_all-IsAscending result (x ∷ s) a =
      emplace_all-IsAscending (emplace cmp x result).0 s (emplace-IsAscending x result a)

pub string_set_to_string_list_lem : (s : List WideString) → string_set_to_string_list s ≡ s
unfolding string_set_to_string_list
string_set_to_string_list_lem [] = refl
string_set_to_string_list_lem (x ∷ s) = ap (◌∷◌ x) (string_set_to_string_list_lem s)

-- A set of texts that is written out as a list and read back is the set that it was.
pub string_list_to_string_set-string_set_to_string_list :
    (s : List WideString)
    → IsAscending compare_text s
    → string_list_to_string_set (string_set_to_string_list s) ≡ s
unfolding string_list_to_string_set
string_list_to_string_set-string_set_to_string_list s a =
    ap (emplace_all compare_text []) (string_set_to_string_list_lem s)
    ∙ emplace_all_lem compare_text compare_text-IsOrder s a

pub path_set_to_string_list_lem : (s : List WideString) → path_set_to_string_list s ≡ s
unfolding path_set_to_string_list
path_set_to_string_list_lem [] = refl
path_set_to_string_list_lem (x ∷ s) = ap (◌∷◌ x) (path_set_to_string_list_lem s)

pub string_list_to_path_set_lem :
    (cmp : WideString → WideString → Ordering) (o : IsOrder cmp) (s : List WideString)
    → IsAscending cmp s
    → string_list_to_path_set cmp s ≡ s
unfolding string_list_to_path_set
string_list_to_path_set_lem cmp o s a = emplace_all_lem cmp o s a

pub string_list_to_string_set_lem :
    (s : List WideString) → IsAscending compare_text s → string_list_to_string_set s ≡ s
unfolding string_list_to_string_set
string_list_to_string_set_lem s a = emplace_all_lem compare_text compare_text-IsOrder s a

-- A list of texts as a set is ascending, and holds what the list holds.
pub string_list_to_string_set-IsAscending :
    (s : List WideString) → IsAscending compare_text (string_list_to_string_set s)
unfolding string_list_to_string_set
string_list_to_string_set-IsAscending s =
    emplace_all-IsAscending compare_text compare_text-IsOrder [] s tt

pub string_list_to_path_set-IsAscending :
    (cmp : WideString → WideString → Ordering) (o : IsOrder cmp) (s : List WideString)
    → IsAscending cmp (string_list_to_path_set cmp s)
unfolding string_list_to_path_set
string_list_to_path_set-IsAscending cmp o s = emplace_all-IsAscending cmp o [] s tt

pub All-string_list_to_string_set :
    (P : WideString → Type 0) (s : List WideString) → All P s → All P (string_list_to_string_set s)
unfolding string_list_to_string_set
All-string_list_to_string_set P s h = All-emplace_all compare_text compare_text-IsOrder P [] s tt h

pub All-string_list_to_path_set :
    (P : WideString → Type 0) (cmp : WideString → WideString → Ordering) (o : IsOrder cmp)
    (s : List WideString)
    → All P s
    → All P (string_list_to_path_set cmp s)
unfolding string_list_to_path_set
All-string_list_to_path_set P cmp o s h = All-emplace_all cmp o P [] s tt h
