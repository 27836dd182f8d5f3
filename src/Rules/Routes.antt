-- ===== src/Rules/Routes.antt =====
-- What `next_operation` and `allowed_next_steps` of rules.py say about the order of the steps.
use displayfab_smart_factory.Prelude.{
  ◌↔◌, Bool-cases, is_some, ◌==◌, ℕ, zero, suc, String, Option, none, some, List, [], ◌∷◌, ◌≡◌,
  refl, ap, ◌⊎◌, inl, inr, true, arith, lookup, index_of, get_elem?, get_elem?-index_of, contains,
  length, Option-cases, holds, string_eq, String-discrete, if◌then◌else◌,
}
use displayfab_smart_factory.Rules.{
  normalize_step, alias, route_for, oled_route, lcd_route, next_operation, next_position,
  operation_at, allowed_next_steps, allowed_from, last_given,
}

-- the step before a step of a route
abbrev before : List String → Option ℕ → Option String
before route none = none
before route (some zero) = none
before route (some (suc i)) = get_elem? route i

unfoldable pub previous_step : List String → String → Option String
previous_step route step = before route (index_of route step)

abbrev IsRoute : List String → Type 0
IsRoute route = (i : ℕ) (s : String) → get_elem? route i ≡ some s → index_of route s ≡ some i

moved :
    (route : List String) (i : ℕ) {s t : String}
    → index_of route s ≡ some i
    → some s ≡ some t
    → index_of route t ≡ some i
moved route i e h = cc

-- a step stands in the route at one place
oled_positions : IsRoute oled_route
unfolding index_of String-discrete
oled_positions zero s h = moved oled_route 0 refl h
oled_positions (suc zero) s h = moved oled_route 1 refl h
oled_positions (suc (suc zero)) s h = moved oled_route 2 refl h
oled_positions (suc (suc (suc zero))) s h = moved oled_route 3 refl h
oled_positions (suc (suc (suc (suc zero)))) s h = moved oled_route 4 refl h
oled_positions (suc (suc (suc (suc (suc i))))) s h = cc

lcd_positions : IsRoute lcd_route
unfolding index_of String-discrete
lcd_positions zero s h = moved lcd_route 0 refl h
lcd_positions (suc zero) s h = moved lcd_route 1 refl h
lcd_positions (suc (suc zero)) s h = moved lcd_route 2 refl h
lcd_positions (suc (suc (suc zero))) s h = moved lcd_route 3 refl h
lcd_positions (suc (suc (suc (suc i)))) s h = cc

pub IsRoute-positions : (p : String) → IsRoute (route_for p)
unfolding route_for
IsRoute-positions p =
    elim (String-discrete p "LCD") as (λ d. IsRoute (if holds d then lcd_route else oled_route)) [
      | yes _ ↦ lcd_positions
      | no _ ↦ oled_positions
    ]

allowed_from_before :
    (route : List String)
    → IsRoute route
    → (last : Option String) (step : String) → contains (allowed_from route last) step ≡ true
    → (previous_step route step ≡ none) ⊎ (last ≡ some step) ⊎ ((last ≡ previous_step route step))
unfolding allowed_from previous_step contains
allowed_from_before route r none step h = ground (arith, r 0 step)
allowed_from_before route r (some last) step h = elim (Option-cases (index_of route last)) [
  | inl e ↦ ground (arith, r 0 step)
  | inr (i, e) ↦ ground (arith, r (suc i) step, get_elem?-index_of route last i)
]

pub allowed_next_steps-before :
    (p : String) (last : Option String) (step : String)
    → contains (allowed_next_steps p last) step ≡ true
    → (previous_step (route_for p) step ≡ none)
      ⊎ (normalize_step last ≡ some step)
      ⊎ (normalize_step last ≡ previous_step (route_for p) step)
unfolding allowed_next_steps
allowed_next_steps-before p last step h =
    allowed_from_before (route_for p) (IsRoute-positions p) (normalize_step last) step h

-- where the last step stands in the route
abbrev place : List String → Option String → Option ℕ
place route none = none
place route (some last) = index_of route last

-- The step starts the route, which the glass has not begun, or it is a step of the route and the
-- glass's last one, or the glass's last step is the one before it in the route.
abbrev pub MayFollow : List String → Option String → String → Type 0
MayFollow route last step =
    ((place route last ≡ none) × (get_elem? route 0 ≡ some step))
    ⊎ ((is_some (index_of route step) ≡ true) × (last ≡ some step))
    ⊎ ((before_it : String) × (last ≡ some before_it) × (previous_step route step ≡ some before_it))

allowed_from-MayFollow :
    (route : List String)
    → IsRoute route
    → (last : Option String) (step : String) → contains (allowed_from route last) step ≡ true
    → MayFollow route last step
unfolding allowed_from previous_step contains
allowed_from-MayFollow route r none step h = inl (refl, ground arith)
allowed_from-MayFollow route r (some last) step h = elim (Option-cases (index_of route last)) [
  | inl e ↦ inl (e, ground arith)
  | inr (i, e) ↦ elim (Bool-cases (last == step)) [
    | inl t ↦
        (let same : last ≡ step = ground arith in inr (inl (rw (← same) (rw e refl), ap some same)))
    | inr n ↦
        inr (inr (last, refl, ground (arith, r (suc i) step, get_elem?-index_of route last i e)))
  ]
]

previous_step-some :
    (route : List String) (step k : String)
    → previous_step route step ≡ some k
    → (i : ℕ) × (index_of route step ≡ some (suc i)) × (get_elem? route i ≡ some k)
unfolding previous_step
previous_step-some route step k b = elim (Option-cases (index_of route step)) [
  | inl n ↦ absurd (ground arith)
  | inr (zero, n) ↦ absurd (ground arith)
  | inr (suc i, n) ↦ (i, n, ground arith)
]

MayFollow-allowed_from :
    (route : List String)
    → IsRoute route
    → (last : Option String) (step : String) → MayFollow route last step
    → contains (allowed_from route last) step ≡ true
unfolding allowed_from previous_step contains
MayFollow-allowed_from route r none step (inl (e, g)) = ground arith
MayFollow-allowed_from route r (some last) step (inl (e, g)) = ground arith
MayFollow-allowed_from route r none step (inr (inl (s, e))) = absurd (cc)
MayFollow-allowed_from route r (some last) step (inr (inl (s, e))) =
    elim (Option-cases (index_of route last)) [ inl n ↦ ground arith | inr (i, n) ↦ ground arith ]
MayFollow-allowed_from route r none step (inr (inr (k, e, b))) = absurd (cc)
MayFollow-allowed_from route r (some last) step (inr (inr (k, e, b))) =
    let same : last ≡ k = cc in
    let (i, at, back) = previous_step-some route step k b in
    let here : index_of route last ≡ some i = rw same (r i k back) in
    ground (arith, here, get_elem?-index_of route step (suc i) at)

-- Whatever the product text, the last step and the step are, `allowed_next_steps` lets the step pass
-- exactly when it starts the product's route and the last step is not in the route, or it is a step
-- of the route that the glass repeats, or the glass's last step is the one before it in the route.
pub allowed_next_steps-previous_step :
    (p : String) (last : Option String) (step : String)
    → (contains (allowed_next_steps p last) step ≡ true)
      ↔ MayFollow (route_for p) (normalize_step last) step
unfolding allowed_next_steps
allowed_next_steps-previous_step p last step = (
  allowed_from-MayFollow (route_for p) (IsRoute-positions p) (normalize_step last) step,
  MayFollow-allowed_from (route_for p) (IsRoute-positions p) (normalize_step last) step,
)

next_position-allowed :
    (route : List String) (last : Option String) (step : String)
    → get_elem? route (next_position route last) ≡ some step
    → contains (allowed_from route last) step ≡ true
unfolding next_position allowed_from contains
next_position-allowed route none step h = ground arith
next_position-allowed route (some last) step h = elim (Option-cases (index_of route last)) [
  | inl e ↦ ground arith
  | inr (i, e) ↦ ground arith
]

allowed_from-empty :
    (p : String) → allowed_from (route_for p) (some (alias "")) ≡ allowed_from (route_for p) none
unfolding allowed_from route_for alias lookup index_of String-discrete
allowed_from-empty p =
    elim (String-discrete p "LCD")
      as (λ d.
        let route = if holds d then lcd_route else oled_route in
        allowed_from route (some (alias "")) ≡ allowed_from route none) [
          | yes _ ↦ refl
          | no _ ↦ refl
        ]

-- The step to which the host sends a glass is one that the sequence check lets pass, whatever the
-- product and the last step are.
pub next_operation-allowed :
    (p : String) (last : Option String) (step : String)
    → (next_operation p last).0 ≡ some step
    → contains (allowed_next_steps p last) step ≡ true
unfolding next_operation allowed_next_steps operation_at
next_operation-allowed p none step h = next_position-allowed (route_for p) none step h
next_operation-allowed p (some last) step h = elim (String-discrete last "") [
  | yes e ↦
      let start : contains (allowed_from (route_for p) none) step ≡ true =
        next_position-allowed (route_for p) none step (ground arith) in
      rw e (rw allowed_from-empty start)
  | no n ↦ next_position-allowed (route_for p) (some (alias last)) step (ground arith)
]

-- the host's loop over a glass: each operation that it names is done and becomes the last step
unfoldable pub itinerary :
    (Option String → Option String × Option String) → ℕ → Option String → List String
itinerary next zero last = []
itinerary next (suc n) last = elim (next last).0 [
  | none ↦ []
  | some step ↦ step ∷ itinerary next n (some step)
]

-- From a glass with no history the host names the steps of the product's route, each once and in
-- order, and then stops: one more round than the route is long adds nothing.
pub itinerary-next_operation :
    (p : String) → itinerary (next_operation p) (suc (length (route_for p))) none ≡ route_for p
unfolding itinerary next_operation operation_at next_position alias lookup index_of String-discrete
    route_for
itinerary-next_operation p =
    elim (String-discrete p "LCD")
      as (λ d.
        let route = if holds d then lcd_route else oled_route in
        itinerary (λ last. operation_at route (next_position route (last_given last)))
          (suc (length route)) none
        ≡ route) [ yes _ ↦ refl | no _ ↦ refl ]
