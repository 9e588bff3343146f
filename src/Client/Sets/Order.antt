-- ===== src/Client/Sets/Order.antt =====
-- What a comparison must do, and that the comparison of texts does it.
use hid_hide.Prelude.{Ordering, ◌≡◌, [], ◌∷◌, WideString, arith}
use hid_hide.Client.Sets.{compare_text}

pub record IsOrder {ℓ} {A : Type ℓ} (cmp : A → A → Ordering) : Type ℓ where
  pub cmp_refl : (a : A) → cmp a a ≡ Ordering.eq
  pub lt_of_gt : (a b : A) → cmp a b ≡ Ordering.gt → cmp b a ≡ Ordering.lt
  pub gt_of_lt : (a b : A) → cmp a b ≡ Ordering.lt → cmp b a ≡ Ordering.gt
  pub lt_trans : (a b c : A) → cmp a b ≡ Ordering.lt → cmp b c ≡ Ordering.lt → cmp a c ≡ Ordering.lt
  pub eq_lt : (a b c : A) → cmp a b ≡ Ordering.eq → cmp b c ≡ Ordering.lt → cmp a c ≡ Ordering.lt

compare_text_refl : (s : WideString) → compare_text s s ≡ Ordering.eq
unfolding compare_text
compare_text_refl [] = ground arith
compare_text_refl (x ∷ s) = ground (arith, compare_text_refl s)

pub eq_of_compare_text : (s t : WideString) → compare_text s t ≡ Ordering.eq → s ≡ t
unfolding compare_text
eq_of_compare_text [] [] h = ground arith
eq_of_compare_text [] (y ∷ t) h = ground arith
eq_of_compare_text (x ∷ s) [] h = ground arith
eq_of_compare_text (x ∷ s) (y ∷ t) h = ground (arith, eq_of_compare_text s t)

compare_text_flip :
    (s t : WideString)
    → ((compare_text s t ≡ Ordering.gt) → compare_text t s ≡ Ordering.lt)
      × ((compare_text s t ≡ Ordering.lt) → compare_text t s ≡ Ordering.gt)
unfolding compare_text
compare_text_flip [] [] = ground arith
compare_text_flip [] (y ∷ t) = ground arith
compare_text_flip (x ∷ s) [] = ground arith
compare_text_flip (x ∷ s) (y ∷ t) = ground (arith, compare_text_flip s t)

compare_text_trans :
    (s t u : WideString)
    → compare_text s t ≡ Ordering.lt
    → compare_text t u ≡ Ordering.lt
    → compare_text s u ≡ Ordering.lt
unfolding compare_text
compare_text_trans [] [] u h k = ground arith
compare_text_trans [] (y ∷ t) [] h k = ground arith
compare_text_trans [] (y ∷ t) (z ∷ u) h k = ground arith
compare_text_trans (x ∷ s) [] u h k = ground arith
compare_text_trans (x ∷ s) (y ∷ t) [] h k = ground arith
compare_text_trans (x ∷ s) (y ∷ t) (z ∷ u) h k = ground (arith, compare_text_trans s t u)

pub compare_text-IsOrder : IsOrder compare_text
compare_text-IsOrder = record {
  cmp_refl = compare_text_refl;
  lt_of_gt = λ s t h. (compare_text_flip s t).0 h;
  gt_of_lt = λ s t h. (compare_text_flip s t).1 h;
  lt_trans = compare_text_trans;
  eq_lt = λ s t u h k. rw (eq_of_compare_text s t h) k;
}
