-- ===== src/Ingestion/Traceability.antt =====
-- The history of the glass as ingestion keeps it: no step is skipped, and no event is stored twice.
use displayfab_smart_factory.Prelude.{
  String, Option, none, some, true, false, ◌||◌, List, [], ◌∷◌, ◌++◌, ◌≡◌, ◌⊎◌, inl, inr, refl, sym,
  ap, ◌∙◌, arith, any_of, any_of-append, ◌==◌, string_eq, Bool-cases, find_first_sound, get_or,
}
use displayfab_smart_factory.Rules.{alias, route_for}
use displayfab_smart_factory.Rules.Aliases.{alias-alias}
use displayfab_smart_factory.Rules.Routes.{previous_step, allowed_next_steps-before}
use displayfab_smart_factory.Models.{Lot, Panel, ProcessEvent, Db}
use displayfab_smart_factory.Models.Tables.{get_lot, get_panel, set_lot, set_panel}
use displayfab_smart_factory.Schemas.{EquipmentEventIn}
use displayfab_smart_factory.Env.{Env}
use displayfab_smart_factory.Validation.Guards.{Named, last_step}
use displayfab_smart_factory.Validation.Admission.{Admitted}
use displayfab_smart_factory.Validation.Conditions.{Names}
use displayfab_smart_factory.Ingestion.Steps.{Outcome}
use displayfab_smart_factory.Ingestion.Settle.{settled_lot}
use displayfab_smart_factory.Ingestion.{overflows, ingest_event}
use displayfab_smart_factory.Ingestion.Growth.{
  Unchanged, Stored, Effect, with_status, ingest-Effect,
}
use displayfab_smart_factory.Ingestion.History.{
  is_step, has_done, product_of, product_of-update, last_step-has_done,
}

module _ {F : Type 0} where
  -- every glass that did a step did the step before it in the route of its product
  abbrev pub IsTraced : Db F → Type 0
  IsTraced db =
      (panel_id product step before : String)
      → product_of panel_id db ≡ some product
      → previous_step (route_for product) step ≡ some before
      → has_done panel_id step db ≡ true
      → has_done panel_id before db ≡ true

  -- no two stored events have the same fingerprint
  abbrev pub AreDistinct : List (ProcessEvent F) → Type 0
  AreDistinct [] = Unit
  AreDistinct (e ∷ es) = (any_of (λ x. x.fingerprint == e.fingerprint) es ≡ false) × AreDistinct es

  pub record IsSound (db : Db F) : Type 0 where
    pub traced : IsTraced db
    pub distinct : AreDistinct db.process_events

  AreDistinct-append :
      (es : List (ProcessEvent F)) (e : ProcessEvent F)
      → AreDistinct es
      → any_of (λ x. x.fingerprint == e.fingerprint) es ≡ false
      → AreDistinct (es ++ e ∷ [])
  unfolding any_of
  AreDistinct-append [] e d h = (refl, tt)
  AreDistinct-append (x ∷ es) e d h =
      let rest = AreDistinct-append es e d.1 (ground arith) in
      (
        ground (
          arith,
          d.0,
          any_of-append (λ (y : ProcessEvent F). y.fingerprint == x.fingerprint) es (e ∷ []),
        ),
        rest,
      )

  pub Unchanged-IsSound : (db db' : Db F) → Unchanged db db' → IsSound db → IsSound db'
  unfolding product_of get_panel get_lot
  Unchanged-IsSound db db' u s = record {
    traced = λ i p t b. rw (u.panels, u.lots, u.process_events) (s.traced i p t b);
    distinct = rw u.process_events s.distinct;
  }

  module _ (env : Env F) (payload : EquipmentEventIn F) where
    pub named_alias : (n : Named) → Names payload n → alias n.step ≡ n.step
    named_alias n h = ground (arith, alias-alias (get_or payload.process_step ""))

    product_of-Admitted :
        (db : Db F) (a : Admitted env payload db)
        → product_of a.panel.id db ≡ some a.lot.product_type
    unfolding product_of get_panel get_lot
    product_of-Admitted db a =
        let same_panel =
          find_first_sound (λ (row : Panel). row.id == a.fields.panel_id) db.panels a.panel
            a.panel_known in
        let same_lot =
          find_first_sound (λ (row : Lot). row.id == a.fields.lot_id) db.lots a.lot a.lot_known in
        ground (arith, same_panel, same_lot, a.panel_known, a.lot_known, a.panel_in_lot)

    -- the step of an admitted event starts the route, or is done already, or follows one that is
    Admitted-order :
        (db : Db F) (a : Admitted env payload db) (before : String)
        → previous_step (route_for a.lot.product_type) a.fields.step ≡ some before
        → (has_done a.panel.id a.fields.step db ≡ true) ⊎ (has_done a.panel.id before db ≡ true)
    Admitted-order db a before h =
        elim (allowed_next_steps-before a.lot.product_type (last_step a.panel.id db) a.fields.step
          a.in_order) [
            | inl n ↦ absurd (cc)
            | inr (inl n) ↦ inl (last_step-has_done a.panel.id a.fields.step db n)
            | inr (inr n) ↦ inr (last_step-has_done a.panel.id before db (n ∙ h))
          ]

    module _ (db db' : Db F) (w : Stored env payload db db') where
      kept :
          (panel_id step : String)
          → has_done panel_id step db ≡ true
          → has_done panel_id step db' ≡ true
      kept panel_id step h =
          rw (w.grown, any_of-append (is_step panel_id step) db.process_events (w.event ∷ []))
            (ground arith)

      stored_product : (panel_id : String) → product_of panel_id db' ≡ product_of panel_id db
      unfolding set_panel set_lot
      stored_product =
          product_of-update (λ p. p.id == w.admitted.panel.id) (λ l. l.id == w.admitted.lot.id)
            (with_status w.settled.panel_status) (settled_lot w.target w.settled) db db'
            (λ p. (refl, refl)) (λ l. (refl, refl)) w.panels w.lots

      is_new_step :
          (panel_id step : String)
          → has_done panel_id step db ≡ false
          → has_done panel_id step db' ≡ true
          → (w.admitted.panel.id ≡ panel_id) × (w.admitted.fields.step ≡ step)
      unfolding any_of
      is_new_step panel_id step n h =
          let here : (has_done panel_id step db || (is_step panel_id step w.event || false))
              ≡ true =
            sym (any_of-append (is_step panel_id step) db.process_events (w.event ∷ []))
            ∙ rw (← w.grown) h in
          ground
            (arith, named_alias w.admitted.fields w.admitted.complete, w.event_panel, w.event_step)

      stored-IsTraced : IsTraced db → IsTraced db'
      stored-IsTraced s panel_id product step before is_product is_before h =
          let was : product_of panel_id db ≡ some product =
            sym (stored_product panel_id) ∙ is_product in
          elim (Bool-cases (has_done panel_id step db)) [
            | inl t ↦ kept panel_id before (s panel_id product step before was is_before t)
            | inr n ↦
                let (same_panel, same_step) = is_new_step panel_id step n h in
                let same_product : some w.admitted.lot.product_type ≡ some product =
                  sym (product_of-Admitted db w.admitted)
                  ∙ ap (λ i. product_of i db) same_panel
                  ∙ was in
                elim (Admitted-order db w.admitted before (ground arith)) [
                  | inl d ↦ absurd (ground arith)
                  | inr d ↦ kept panel_id before (ground arith)
                ]
          ]

      stored-IsSound : IsSound db → IsSound db'
      stored-IsSound s = record {
        traced = stored-IsTraced s.traced;
        distinct = rw w.grown (
            AreDistinct-append db.process_events w.event s.distinct
              (rw w.event_digest w.admitted.new));
      }

    module _ (request_id event_id : String) (db : Db F) where
      abbrev pub SoundAfter : Option (Outcome × Db F) → Type 0
      SoundAfter none = overflows payload db ≡ true
      SoundAfter (some (o, db')) = IsSound db'

      Effect-SoundAfter :
          (r : Option (Outcome × Db F)) → Effect env payload db r → IsSound db → SoundAfter r
      Effect-SoundAfter none e s = e
      Effect-SoundAfter (some (o, db')) (inl u) s = Unchanged-IsSound db db' u s
      Effect-SoundAfter (some (o, db')) (inr w) s = stored-IsSound db db' w s

      -- Ingestion keeps the history of the glass whole. Where every glass that did a step of its product's
      -- route did the step before it, and no two process events have one fingerprint, so it is after any
      -- event, heartbeat or process, accepted, rejected or forced to fail; and the event is answered,
      -- unless it is one of a known equipment whose timestamp has no UTC.
      pub ingest-IsSound : IsSound db → SoundAfter (ingest_event env payload request_id event_id db)
      ingest-IsSound = Effect-SoundAfter _ (ingest-Effect env payload request_id event_id db)
