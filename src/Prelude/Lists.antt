-- ===== src/Prelude/Lists.antt =====
-- Tables as lists of rows: the queries and updates of the program, and their laws.
use Prim.Native.Nat.{ℕ, zero, suc, ◌+◌}
use mathlib.Core.Path.{◌≡◌, refl, ap, subst}
use mathlib.Core.Logic.{◌≢◌, inl, inr}
use mathlib.Core.Bool.{Bool, true, false, ◌&&◌, ◌||◌}
use mathlib.Core.Option.{Option, none, some}
use mathlib.Core.List.{List, [], ◌∷◌, ◌++◌}
use native.Mathlib.Omega.{arith}
use Prim.Native.String.{String}
use displayfab_smart_factory.Prelude.Tests.{if◌then◌else◌, Bool-cases}
use displayfab_smart_factory.Prelude.Equality.{◌==◌, Eq, string_eq}

module _ {ℓ} {A : Type ℓ} where
  abbrev pub length : List A → ℕ
  length [] = 0
  length (x ∷ xs) = suc (length xs)

  -- `query.filter(p).all()`
  unfoldable pub select : (A → Bool) → List A → List A
  select p [] = []
  select p (x ∷ xs) = let rest = select p xs in if p x then x ∷ rest else rest

  -- `query.filter(p).first()`, and `db.get` with the test on the primary key
  unfoldable pub find_first : (A → Bool) → List A → Option A
  find_first p [] = none
  find_first p (x ∷ xs) = let rest = find_first p xs in if p x then some x else rest

  -- an assignment to the fields of the rows that pass `p`
  unfoldable pub update_where : (A → Bool) → (A → A) → List A → List A
  update_where p f [] = []
  update_where p f (x ∷ xs) = (if p x then f x else x) ∷ update_where p f xs

  -- `sum(1 for x in xs if p(x))`
  unfoldable pub count_where : (A → Bool) → List A → ℕ
  count_where p [] = 0
  count_where p (x ∷ xs) = if p x then suc (count_where p xs) else count_where p xs

  unfoldable pub all_of : (A → Bool) → List A → Bool
  all_of p [] = true
  all_of p (x ∷ xs) = p x && all_of p xs

  unfoldable pub any_of : (A → Bool) → List A → Bool
  any_of p [] = false
  any_of p (x ∷ xs) = p x || any_of p xs

module _ {ℓ} {A : Type ℓ} where
  abbrev pub get_elem? : List A → ℕ → Option A
  get_elem? [] i = none
  get_elem? (x ∷ xs) zero = some x
  get_elem? (x ∷ xs) (suc i) = get_elem? xs i

  abbrev pub get_or : Option A → A → A
  get_or none d = d
  get_or (some a) d = a

  abbrev pub map_option {κ} : {B : Type κ} → (A → B) → Option A → Option B
  map_option f none = none
  map_option f (some a) = some (f a)

  abbrev pub option_to_list : Option A → List A
  option_to_list none = []
  option_to_list (some a) = a ∷ []

-- `d.get(k)` of a dictionary that is written out
module _ {ℓ} {V : Type ℓ} where
  unfoldable pub lookup : String → List (String × V) → Option V
  lookup k [] = none
  lookup k ((j, v) ∷ m) = let rest = lookup k m in if j == k then some v else rest

pub lookup-ne {ℓ} :
    {V : Type ℓ} ⦃e : Eq V⦄ (k : String) (v : V) (m : List (String × V))
    → any_of (λ row. row.1 == v) m ≡ false
    → lookup k m ≢ some v
unfolding lookup any_of
lookup-ne k v [] h e = cc
lookup-ne k v ((j, w) ∷ m) h e = ground (arith, lookup-ne k v m)

-- `x in xs`, and `xs.index(x)` with `none` where Python raises
unfoldable pub contains : List String → String → Bool
contains [] s = false
contains (x ∷ xs) s = x == s || contains xs s

abbrev pub next_index : Option ℕ → Option ℕ
next_index none = none
next_index (some i) = some (suc i)

unfoldable pub index_of : List String → String → Option ℕ
index_of [] s = none
index_of (x ∷ xs) s = let rest = next_index (index_of xs s) in if x == s then some 0 else rest

pub get_elem?-index_of :
    (xs : List String) (s : String) (i : ℕ) → index_of xs s ≡ some i → get_elem? xs i ≡ some s
unfolding index_of
get_elem?-index_of [] s i h = cc
get_elem?-index_of (x ∷ xs) s zero h = ground arith
get_elem?-index_of (x ∷ xs) s (suc i) h = ground (arith, get_elem?-index_of xs s i)

module _ {ℓ} {A : Type ℓ} where
  pub length-append : (xs ys : List A) → length (xs ++ ys) ≡ length xs + length ys
  length-append [] ys = omega arith
  length-append (x ∷ xs) ys = omega (arith, length-append xs ys)

  pub any_of-append :
      (p : A → Bool) (xs ys : List A) → any_of p (xs ++ ys) ≡ (any_of p xs || any_of p ys)
  unfolding any_of
  any_of-append p [] ys = refl
  any_of-append p (x ∷ xs) ys = ground (arith, any_of-append p xs ys)

  pub length-update_where :
      (p : A → Bool) (f : A → A) (xs : List A) → length (update_where p f xs) ≡ length xs
  unfolding update_where
  length-update_where p f [] = refl
  length-update_where p f (x ∷ xs) = ap suc (length-update_where p f xs)

  -- an update that the query does not look at maps the row that is found
  pub find_first-update_where :
      (p q : A → Bool) (f : A → A) (xs : List A)
      → ((x : A) → p (f x) ≡ p x)
      → find_first p (update_where q f xs)
        ≡ map_option (λ x. if q x then f x else x) (find_first p xs)
  unfolding find_first update_where
  find_first-update_where p q f [] h = refl
  find_first-update_where p q f (x ∷ xs) h = ground (arith, h x, find_first-update_where p q f xs h)

  pub find_first_sound :
      (p : A → Bool) (xs : List A) (x : A) → find_first p xs ≡ some x → p x ≡ true
  unfolding find_first
  find_first_sound p [] x h = cc
  find_first_sound p (y ∷ xs) x h = ground (arith, find_first_sound p xs x)

  pub count_where-append :
      (p : A → Bool) (xs ys : List A)
      → count_where p (xs ++ ys) ≡ count_where p xs + count_where p ys
  unfolding count_where
  count_where-append p [] ys = omega arith
  count_where-append p (x ∷ xs) ys = ground (arith, count_where-append p xs ys)

  pub any_of-select :
      (p q : A → Bool) (xs : List A) → any_of p (select q xs) ≡ any_of (λ x. q x && p x) xs
  unfolding any_of select
  any_of-select p q [] = refl
  any_of-select p q (x ∷ xs) = ground (arith, any_of-select p q xs)

module _ {ℓ κ} {V : Type ℓ} (P : V → Type κ) where
  -- every value of the dictionary has the property
  abbrev pub AllValues : List (String × V) → Type κ
  AllValues [] = Unit
  AllValues ((j, w) ∷ m) = P w × AllValues m

  pub lookup-AllValues :
      (k : String) (v : V) (m : List (String × V)) → AllValues m → lookup k m ≡ some v → P v
  unfolding lookup
  lookup-AllValues k v [] h e = absurd (cc)
  lookup-AllValues k v ((j, w) ∷ m) h e = elim (Bool-cases (j == k)) [
    | inl t ↦ subst P (ground arith) h.0
    | inr f ↦ lookup-AllValues k v m h.1 (ground arith)
  ]

module _ {ℓ} {A : Type ℓ} (p q : A → Bool) (f : A → A) where
  -- an update of what the test does not look at
  pub any_of-update_where :
      (xs : List A) → ((x : A) → p (f x) ≡ p x) → any_of p (update_where q f xs) ≡ any_of p xs
  unfolding any_of update_where
  any_of-update_where [] h = refl
  any_of-update_where (x ∷ xs) h = ground (arith, h x, any_of-update_where xs h)

  -- an update of rows that count neither before nor after
  pub count_where-update_where :
      (r : A → Bool) (xs : List A)
      → ((x : A) → p (f x) ≡ true → r x ≡ true)
      → ((x : A) → p x ≡ true → r x ≡ true)
      → any_of (λ x. q x && r x) xs ≡ false
      → count_where p (update_where q f xs) ≡ count_where p xs
  unfolding any_of update_where count_where
  count_where-update_where r [] h j k = refl
  count_where-update_where r (x ∷ xs) h j k =
      ground (arith, h x, j x, count_where-update_where r xs h j)
