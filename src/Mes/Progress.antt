-- ===== src/Mes/Progress.antt =====
-- The counts of the board fall along the route.
use displayfab_smart_factory.Prelude.{
  ◌≤◌, String, some, Bool, true, ◌&&◌, ◌||◌, not, List, [], ◌∷◌, ◌≡◌, refl, inl, inr, ◌∙◌, arith,
  select, all_of, any_of, count_where, all_of-weaken, any_of-none, any_of-find_first, ◌==◌, ◌/=◌,
  string_eq, Option-cases, Bool-cases,
}
use displayfab_smart_factory.Rules.{route_for, alias}
use displayfab_smart_factory.Rules.Routes.{previous_step}
use displayfab_smart_factory.Models.{Lot, Panel, Db}
use displayfab_smart_factory.Models.Tables.{get_lot, get_panel}
use displayfab_smart_factory.Dispatch.{by_slot}
use displayfab_smart_factory.Ingestion.History.{is_step, has_done, product_of}
use displayfab_smart_factory.Line.Links.{is_plain}
use displayfab_smart_factory.Line.Kept.{IsKept}
use displayfab_smart_factory.LineRunner.Ends.{all_of-select, all_of-by_slot}
use displayfab_smart_factory.Mes.{step_done, done_count}

module _ {A : Type 0} where
  count_where-le :
      (p q : A → Bool) (xs : List A)
      → all_of (λ x. not (p x) || q x) xs ≡ true
      → count_where p xs ≤ count_where q xs
  unfolding all_of count_where
  count_where-le p q [] h = omega arith
  count_where-le p q (x ∷ xs) h = ground (arith, count_where-le p q xs)

  -- every row finds itself
  all_of-any_of :
      (r : A → A → Bool) (xs : List A)
      → ((x : A) → r x x ≡ true)
      → all_of (λ x. any_of (r x) xs) xs ≡ true
  unfolding all_of any_of
  all_of-any_of r [] h = refl
  all_of-any_of r (y ∷ ys) h =
      let rest =
        all_of-weaken (λ x. any_of (r x) ys) (λ x. any_of (r x) (y ∷ ys)) ys (λ x t. ground arith)
          (all_of-any_of r ys h) in
      ground (arith, h y, rest)

  any_of-weaken :
      (p q : A → Bool) (xs : List A)
      → ((x : A) → p x ≡ true → q x ≡ true)
      → any_of p xs ≡ true
      → any_of q xs ≡ true
  unfolding any_of
  any_of-weaken p q [] h t = t
  any_of-weaken p q (x ∷ xs) h t = ground (arith, h x, any_of-weaken p q xs h)

  -- a query that an all-true query implies row by row
  any_of-implies :
      (p q : A → Bool) (xs : List A)
      → all_of p xs ≡ true
      → any_of q xs ≡ true
      → any_of (λ x. p x && q x) xs ≡ true
  unfolding all_of any_of
  any_of-implies p q [] h t = t
  any_of-implies p q (x ∷ xs) h t = ground (arith, any_of-implies p q xs)

abbrev is_row : Panel → Panel → Bool
is_row p q = q.id == p.id && q.lot_id == p.lot_id

module _ {F : Type 0} (db : Db F) (k : IsKept db) where
  step_done-has_done :
      (id step : String)
      → alias step ≡ step
      → step_done db id step ≡ true
      → has_done id step db ≡ true
  unfolding step_done
  step_done-has_done id step plain h =
      any_of-weaken (λ e. e.panel_id == id && e.process_step == step) (is_step id step)
        db.process_events (λ e t. ground (arith, plain)) h

  has_done-step_done : (id step : String) → has_done id step db ≡ true → step_done db id step ≡ true
  unfolding step_done
  has_done-step_done id step h =
      any_of-weaken (λ e. is_plain e && is_step id step e)
        (λ e. e.panel_id == id && e.process_step == step) db.process_events (λ e t. ground arith)
        (any_of-implies is_plain (is_step id step) db.process_events k.linked.named h)

  -- the lot in which the table finds a glass of this id
  row_product :
      (lot : Lot) (p : Panel)
      → get_lot lot.id db ≡ some lot
      → p.lot_id ≡ lot.id
      → any_of (is_row p) db.panels ≡ true
      → product_of p.id db ≡ some lot.product_type
  unfolding product_of get_panel get_lot
  row_product lot p known mine here = elim (Option-cases (get_panel p.id db)) [
    | inl n ↦ absurd (
        cc (
          here,
          any_of-none (is_row p) (λ (q : Panel). q.id == p.id) db.panels (λ q t. ground arith)
              (any_of-find_first (λ (q : Panel). q.id == p.id) db.panels n),
        ))
    | inr (q, n) ↦ elim (Bool-cases (q.lot_id == p.lot_id)) [
      | inl t ↦ ground arith
      | inr f ↦ absurd (
          cc (
            here,
            any_of-none (is_row p) (λ x. x.id == p.id && x.lot_id /= q.lot_id) db.panels
                (λ x t. ground arith) (k.complete.keyed p.id q n),
          ))
    ]
  ]

  -- Where the line keeps its promises, the board never shows more glass of a lot behind a step than
  -- behind the step before it in the route of the lot's product.
  pub done_count-previous_step :
      (lot : Lot) (step before : String)
      → get_lot lot.id db ≡ some lot
      → previous_step (route_for lot.product_type) step ≡ some before
      → alias step ≡ step
      → done_count db lot step ≤ done_count db lot before
  unfolding done_count
  done_count-previous_step lot step before known is_before plain =
      let mine = select (λ (p : Panel). p.lot_id == lot.id) db.panels in
      let test : Panel → Bool = λ p. not (step_done db p.id step) || step_done db p.id before in
      count_where-le (λ p. step_done db p.id step) (λ p. step_done db p.id before) (by_slot mine)
        (all_of-by_slot test mine
          ∙ all_of-select test (λ p. p.lot_id == lot.id) db.panels
          ∙ all_of-weaken (λ p. any_of (is_row p) db.panels)
              (λ p. not (p.lot_id == lot.id) || test p) db.panels
              (λ p here. elim (Bool-cases (p.lot_id == lot.id)) [
                | inr f ↦ ground arith
                | inl t ↦ elim (Bool-cases (step_done db p.id step)) [
                  | inr f ↦ ground arith
                  | inl d ↦
                      let made = row_product lot p known (ground arith) here in
                      let first = has_done-step_done p.id before (
                        k.sound.traced p.id lot.product_type step before made is_before
                          (step_done-has_done p.id step plain d)) in
                      ground arith
                ]
              ])
              (all_of-any_of is_row db.panels (λ p. ground arith)))
