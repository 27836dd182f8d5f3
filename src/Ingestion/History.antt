-- ===== src/Ingestion/History.antt =====
-- The history of a glass in the table of process events, and what one more event adds to it.
use displayfab_smart_factory.Prelude.{
  String, Option, none, some, Bool, true, ◌&&◌, List, [], ◌∷◌, ◌≡◌, inl, inr, refl, sym, ap, ◌∙◌,
  arith, subst, any_of, any_of-select, select, ◌==◌, string_eq, find_first, find_first-update_where,
  update_where, map_option, if◌then◌else◌, Option-cases,
}
use displayfab_smart_factory.Rules.{alias, normalize_step}
use displayfab_smart_factory.Rules.Aliases.{alias-alias}
use displayfab_smart_factory.Models.{Lot, Panel, ProcessEvent, Db}
use displayfab_smart_factory.Models.Tables.{get_lot, get_panel}
use displayfab_smart_factory.Validation.Guards.{latest_event, last_step, step_of}

abbrev pub product_of_lot : Option Lot → Option String
product_of_lot none = none
product_of_lot (some lot) = some lot.product_type

abbrev pub product_of_panel : Option Panel → List Lot → Option String
product_of_panel none lots = none
product_of_panel (some panel) lots =
    product_of_lot (find_first (λ row. row.id == panel.lot_id) lots)

module _ {F : Type 0} where
  -- an event of the glass at the step, whatever alias it was stored with
  abbrev pub is_step : String → String → ProcessEvent F → Bool
  is_step panel_id step e = e.panel_id == panel_id && alias e.process_step == step

  abbrev pub has_done : String → String → Db F → Bool
  has_done panel_id step db = any_of (is_step panel_id step) db.process_events

  -- what the glass is made into: the product of its lot
  unfoldable pub product_of : String → Db F → Option String
  product_of panel_id db = product_of_panel (get_panel panel_id db) db.lots

  latest_event-any_of :
      (p : ProcessEvent F → Bool) (es : List (ProcessEvent F)) (e : ProcessEvent F)
      → latest_event es ≡ some e
      → p e ≡ true
      → any_of p es ≡ true
  unfolding latest_event any_of
  latest_event-any_of p [] e h t = cc
  latest_event-any_of p (x ∷ es) e h t = ground (arith, latest_event-any_of p es e)

  last_of_step :
      (panel_id step : String) (es : List (ProcessEvent F))
      → normalize_step (step_of (latest_event es)) ≡ some step
      → any_of (λ e. alias e.process_step == step) es ≡ true
  last_of_step panel_id step es h = elim (Option-cases (latest_event es)) [
    | inl n ↦ absurd (ground arith)
    | inr (e, n) ↦
        let same : alias e.process_step ≡ step =
          (let twice : some (alias (alias e.process_step)) ≡ some step =
              subst (λ o. normalize_step (step_of o) ≡ some step) n h in
            cc (twice, alias-alias e.process_step)) in
        latest_event-any_of (λ x. alias x.process_step == step) es e n (ground arith)
  ]

  pub last_step-has_done :
      (panel_id step : String) (db : Db F)
      → normalize_step (last_step panel_id db) ≡ some step
      → has_done panel_id step db ≡ true
  unfolding last_step
  last_step-has_done panel_id step db h =
      sym (
        any_of-select (λ (e : ProcessEvent F). alias e.process_step == step)
          (λ e. e.panel_id == panel_id) db.process_events)
      ∙ last_of_step panel_id step
          (select (λ (e : ProcessEvent F). e.panel_id == panel_id) db.process_events) h

  -- the product of a glass stands through changes of the states of glass and lots
  pub product_of-update :
      (q : Panel → Bool) (r : Lot → Bool) (f : Panel → Panel) (g : Lot → Lot) (db db' : Db F)
      → ((p : Panel) → ((f p).id ≡ p.id) × ((f p).lot_id ≡ p.lot_id))
      → ((l : Lot) → ((g l).id ≡ l.id) × ((g l).product_type ≡ l.product_type))
      → db'.panels ≡ update_where q f db.panels
      → db'.lots ≡ update_where r g db.lots
      → (panel_id : String) → product_of panel_id db' ≡ product_of panel_id db
  unfolding product_of get_panel get_lot
  product_of-update q r f g db db' hf hg e h panel_id =
      let found_lot : (id : String)
          → product_of_lot (get_lot id db') ≡ product_of_lot (get_lot id db) =
        λ id.
          rw
            (
              h,
              find_first-update_where (λ (l : Lot). l.id == id) r g db.lots
                  (λ l. ap (λ i. i == id) (hg l).0),
            )
            (elim (get_lot id db)
              as (λ o.
                product_of_lot (map_option (λ l. if r l then g l else l) o) ≡ product_of_lot o) [
                  | none ↦ refl
                  | some l ↦ ground (arith, (hg l).1)
                ]) in
      let found_panel : get_panel panel_id db'
          ≡ map_option (λ p. if q p then f p else p) (get_panel panel_id db) =
        ap (find_first (λ p. p.id == panel_id)) e
        ∙ find_first-update_where (λ (p : Panel). p.id == panel_id) q f db.panels
            (λ p. ap (λ i. i == panel_id) (hf p).0) in
      ap (λ o. product_of_panel o db'.lots) found_panel
      ∙ (elim (get_panel panel_id db)
          as (λ o.
            product_of_panel (map_option (λ p. if q p then f p else p) o) db'.lots
            ≡ product_of_panel o db.lots) [
              | none ↦ refl
              | some p ↦ ground (arith, (hf p).1, found_lot p.lot_id)
            ])
