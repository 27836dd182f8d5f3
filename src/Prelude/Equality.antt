-- ===== src/Prelude/Equality.antt =====
-- One operator `==` for every type whose equality the program tests, by a decision.
use Prim.Native.Nat.{ℕ}
use Prim.Native.String.{String}
use mathlib.Core.Path.{◌≡◌, refl}
use mathlib.Core.Logic.{◌↔◌}
use mathlib.Core.Bool.{Bool, true, false, not}
use mathlib.Core.Option.{Option, none, some}
use native.Mathlib.Omega.{arith}
use native.Mathlib.Decide.{ℕ_discrete}
use text.Mathlib.Text.{◌==◌ as text_eq}
use text.Mathlib.TextEquality.{eq_iff}

pub record Eq {ℓ} (A : Type ℓ) : Type ℓ where
  pub dec : Discrete A

module _ {ℓ} {P : Type ℓ} where
  abbrev pub holds : Dec P → Bool
  holds (yes p) = true
  holds (no p) = false

infix 50 ◌==◌ ◌/=◌
abbrev pub ◌==◌ {ℓ} : {A : Type ℓ} ⦃e : Eq A⦄ → A → A → Bool
◌==◌ ⦃e⦄ a b = holds (e.dec a b)

abbrev pub ◌/=◌ {ℓ} : {A : Type ℓ} ⦃e : Eq A⦄ → A → A → Bool
◌/=◌ ⦃e⦄ a b = not (holds (e.dec a b))

pub false_of_iff : (P : Type 0) → (false ≡ true) ↔ P → ¬ P
false_of_iff P h p = cc (h.1 p)

unfoldable pub dec_of_iff : (P : Type 0) (b : Bool) → (b ≡ true) ↔ P → Dec P
dec_of_iff P true h = yes (h.0 refl)
dec_of_iff P false h = no (false_of_iff P h)

unfoldable pub String-discrete : Discrete String
unfolding dec_of_iff
String-discrete s t = dec_of_iff (s ≡ t) (text_eq s t) (eq_iff s t)

unfoldable pub Option_String-discrete : Discrete (Option String)
unfolding String-discrete
Option_String-discrete = hlevel String-discrete

unfoldable pub nat_discrete : Discrete ℕ
unfolding ℕ_discrete
nat_discrete = ℕ_discrete

instance abbrev pub string_eq : Eq String
string_eq = record { dec = String-discrete }

instance abbrev pub option_string_eq : Eq (Option String)
option_string_eq = record { dec = Option_String-discrete }

instance abbrev pub nat_eq : Eq ℕ
nat_eq = record { dec = nat_discrete }

-- Two literals that the text comparison tells apart are different.
pub texts_differ : (s t : String) → text_eq s t ≡ false → ¬ (s ≡ t)
texts_differ s t h p = cc (h, (eq_iff s t).1 p)

pub ==_refl {ℓ} : {A : Type ℓ} ⦃e : Eq A⦄ (a : A) → (a == a) ≡ true
==_refl a = ground arith

-- Python's truth of an optional text: `None` and `""` are false.
abbrev pub truthy : Option String → Bool
truthy none = false
truthy (some s) = s /= ""
