-- ===== src/Prelude/Queries.antt =====
-- More laws of the queries: on rows that are appended, and on queries that all rows pass.
use mathlib.Core.Path.{◌≡◌, refl, ap}
use mathlib.Core.Logic.{inl, inr}
use mathlib.Core.Bool.{Bool, true, false, ◌&&◌}
use mathlib.Core.Option.{Option, none, some}
use mathlib.Core.List.{List, [], ◌∷◌, ◌++◌, map}
use native.Mathlib.Omega.{arith}
use Prim.Native.String.{String}
use displayfab_smart_factory.Prelude.Tests.{Bool-cases, is_some}
use displayfab_smart_factory.Prelude.Equality.{◌==◌, string_eq}
use displayfab_smart_factory.Prelude.Lists.{find_first, update_where, all_of, any_of, contains}

module _ {ℓ} {A : Type ℓ} where
  -- the first of two answers
  abbrev pub or_else : Option A → Option A → Option A
  or_else none later = later
  or_else (some a) later = some a

  pub find_first-append :
      (p : A → Bool) (xs ys : List A)
      → find_first p (xs ++ ys) ≡ or_else (find_first p xs) (find_first p ys)
  unfolding find_first
  find_first-append p [] ys = refl
  find_first-append p (x ∷ xs) ys = ground (arith, find_first-append p xs ys)

  pub append-empty : (xs : List A) → xs ++ [] ≡ xs
  append-empty [] = refl
  append-empty (x ∷ xs) = ap (λ ys. x ∷ ys) (append-empty xs)

  pub all_of-append :
      (p : A → Bool) (xs ys : List A) → all_of p (xs ++ ys) ≡ (all_of p xs && all_of p ys)
  unfolding all_of
  all_of-append p [] ys = refl
  all_of-append p (x ∷ xs) ys = ground (arith, all_of-append p xs ys)

  pub all_of-update_where :
      (p q : A → Bool) (f : A → A) (xs : List A)
      → ((x : A) → p (f x) ≡ p x)
      → all_of p (update_where q f xs) ≡ all_of p xs
  unfolding all_of update_where
  all_of-update_where p q f [] h = refl
  all_of-update_where p q f (x ∷ xs) h = ground (arith, h x, all_of-update_where p q f xs h)

  -- a weaker test
  pub all_of-weaken :
      (p q : A → Bool) (xs : List A)
      → ((x : A) → p x ≡ true → q x ≡ true)
      → all_of p xs ≡ true
      → all_of q xs ≡ true
  unfolding all_of
  all_of-weaken p q [] h a = refl
  all_of-weaken p q (x ∷ xs) h a = ground (arith, h x, all_of-weaken p q xs h)

  pub all_of-find_first :
      (p q : A → Bool) (xs : List A) (x : A)
      → all_of p xs ≡ true
      → find_first q xs ≡ some x
      → p x ≡ true
  unfolding all_of find_first
  all_of-find_first p q [] x a h = absurd (cc)
  all_of-find_first p q (y ∷ xs) x a h = ground (arith, all_of-find_first p q xs x)

  -- some row passes the one test, and so the other
  pub any_of-all_of :
      (p q : A → Bool) (xs : List A)
      → all_of p xs ≡ true
      → any_of q xs ≡ true
      → (x : A) × (p x ≡ true) × (q x ≡ true)
  unfolding all_of any_of
  any_of-all_of p q [] a h = absurd (cc)
  any_of-all_of p q (x ∷ xs) a h = elim (Bool-cases (q x)) [
    | inl t ↦ (x, ground arith, t)
    | inr f ↦ any_of-all_of p q xs (ground arith) (ground arith)
  ]

  pub is_some-update_where :
      (p q : A → Bool) (f : A → A) (xs : List A)
      → ((x : A) → p (f x) ≡ p x)
      → is_some (find_first p (update_where q f xs)) ≡ is_some (find_first p xs)
  unfolding find_first update_where
  is_some-update_where p q f [] h = refl
  is_some-update_where p q f (x ∷ xs) h = ground (arith, h x, is_some-update_where p q f xs h)

  -- the ids of a table are the keys that are found
  pub contains-map :
      (g : A → String) (xs : List A) (k : String)
      → contains (map g xs) k ≡ is_some (find_first (λ x. g x == k) xs)
  unfolding contains find_first
  contains-map g [] k = refl
  contains-map g (x ∷ xs) k = ground (arith, contains-map g xs k)

  -- no row of a list passes a test that none with the key passes
  pub any_of-none :
      (p q : A → Bool) (xs : List A)
      → ((x : A) → p x ≡ true → q x ≡ true)
      → any_of q xs ≡ false
      → any_of p xs ≡ false
  unfolding any_of
  any_of-none p q [] h a = refl
  any_of-none p q (x ∷ xs) h a = ground (arith, h x, any_of-none p q xs h)

  -- rows of which no one passes
  pub any_of-all_of-not :
      (a p : A → Bool) (xs : List A)
      → ((x : A) → a x ≡ true → p x ≡ false)
      → all_of a xs ≡ true
      → any_of p xs ≡ false
  unfolding any_of all_of
  any_of-all_of-not a p [] h k = refl
  any_of-all_of-not a p (x ∷ xs) h k = ground (arith, h x, any_of-all_of-not a p xs h)

  pub any_of-find_first :
      (p : A → Bool) (xs : List A) → find_first p xs ≡ none → any_of p xs ≡ false
  unfolding any_of find_first
  any_of-find_first p [] h = refl
  any_of-find_first p (x ∷ xs) h = ground (arith, any_of-find_first p xs)
