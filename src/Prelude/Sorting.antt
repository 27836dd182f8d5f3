-- ===== src/Prelude/Sorting.antt =====
-- Rows in the order of a key, as `order_by` gives them: a stable insertion sort.
use mathlib.Core.Path.{◌≡◌, refl}
use mathlib.Core.Bool.{Bool, ◌&&◌}
use mathlib.Core.List.{List, [], ◌∷◌}
use native.Mathlib.Omega.{arith}
use displayfab_smart_factory.Prelude.Tests.{if◌then◌else◌}
use displayfab_smart_factory.Prelude.Lists.{all_of, count_where}

module _ {ℓ} {A : Type ℓ} where
  -- behind the rows that come before it or tie with it; `le x y` is "x may stand before y"
  unfoldable pub insert_by : (A → A → Bool) → A → List A → List A
  insert_by le x [] = x ∷ []
  insert_by le x (y ∷ ys) = let rest = insert_by le x ys in if le x y then x ∷ y ∷ ys else y ∷ rest

  unfoldable pub sort_by : (A → A → Bool) → List A → List A
  sort_by le [] = []
  sort_by le (x ∷ xs) = insert_by le x (sort_by le xs)

  all_of-insert_by :
      (q : A → Bool) (le : A → A → Bool) (x : A) (xs : List A)
      → all_of q (insert_by le x xs) ≡ (q x && all_of q xs)
  unfolding all_of insert_by
  all_of-insert_by q le x [] = refl
  all_of-insert_by q le x (y ∷ ys) = ground (arith, all_of-insert_by q le x ys)

  pub all_of-sort_by :
      (q : A → Bool) (le : A → A → Bool) (xs : List A) → all_of q (sort_by le xs) ≡ all_of q xs
  unfolding all_of sort_by
  all_of-sort_by q le [] = refl
  all_of-sort_by q le (x ∷ xs) =
      ground (arith, all_of-insert_by q le x (sort_by le xs), all_of-sort_by q le xs)

  count_where-insert_by :
      (q : A → Bool) (le : A → A → Bool) (x : A) (xs : List A)
      → count_where q (insert_by le x xs) ≡ count_where q (x ∷ xs)
  unfolding count_where insert_by
  count_where-insert_by q le x [] = refl
  count_where-insert_by q le x (y ∷ ys) = ground (arith, count_where-insert_by q le x ys)

  pub count_where-sort_by :
      (q : A → Bool) (le : A → A → Bool) (xs : List A)
      → count_where q (sort_by le xs) ≡ count_where q xs
  unfolding count_where sort_by
  count_where-sort_by q le [] = refl
  count_where-sort_by q le (x ∷ xs) =
      ground (arith, count_where-insert_by q le x (sort_by le xs), count_where-sort_by q le xs)
