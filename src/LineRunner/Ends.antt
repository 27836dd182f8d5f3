-- ===== src/LineRunner/Ends.antt =====
-- What a run that ends well leaves.
use displayfab_smart_factory.Line.Run.{overflows-naive}
use displayfab_smart_factory.Prelude.{
  ℕ, zero, suc, String, Option, none, some, Bool, true, false, ◌||◌, not, List, [], ◌∷◌, ◌++◌, ◌≡◌,
  ◌≢◌, inl, inr, refl, arith, truthy, subst, select, all_of, all_of-weaken, ◌&&◌, ◌==◌, string_eq,
  Option-cases, Bool-cases, some-injective, ap, ◌∙◌,
}
use displayfab_smart_factory.Enums.{LotStatus, lot_status_eq, panel_status_eq}
use displayfab_smart_factory.Rules.{
  next_operation, next_position, oled_route, lcd_route, last_given, route_for,
}
use displayfab_smart_factory.Rules.Equipments.{oled_fits, lcd_fits}
use displayfab_smart_factory.Models.{Lot, Panel, WorkOrder, Db}
use displayfab_smart_factory.Models.Tables.{get_lot, get_recipe, get_work_order}
use displayfab_smart_factory.Validation.Conditions.{no_empty_step}
use displayfab_smart_factory.Validation.Guards.{last_step}
use displayfab_smart_factory.Schemas.{EquipmentEventIn}
use displayfab_smart_factory.Env.{Env}
use displayfab_smart_factory.Adapter.{accept_push}
use displayfab_smart_factory.Ingestion.{ingest_event, collect_push}
use displayfab_smart_factory.Ingestion.Growth.{Unchanged, UnchangedAfter, heartbeat-UnchangedAfter}
use displayfab_smart_factory.Line.{act}
use displayfab_smart_factory.HostPrep.{
  Uuids, wake_event, wake_equipment, prepare_line, line_equipment,
}
use displayfab_smart_factory.LineRunner.{
  Round, RunOut, RunResult, is_ok, Job, at_end, next_move, do_step, result_row, wake_all, finish,
  run_rounds, run_released, run_work_order, conditions_of,
}
use displayfab_smart_factory.LineRunner.Runs.{Move-cases}
use displayfab_smart_factory.Dispatch.{
  is_passed_over, insert_slot, by_slot, panel_dispatch, course, first_waiting, lot_dispatch,
  DispatchOut,
}

module _ {A : Type 0} where
  pub all_of-select :
      (q p : A → Bool) (xs : List A) → all_of q (select p xs) ≡ all_of (λ x. not (p x) || q x) xs
  unfolding all_of select
  all_of-select q p [] = refl
  all_of-select q p (x ∷ xs) = ground (arith, all_of-select q p xs)

all_of-insert_slot :
    (q : Panel → Bool) (p : Panel) (xs : List Panel)
    → all_of q (insert_slot p xs) ≡ (q p && all_of q xs)
unfolding all_of insert_slot
all_of-insert_slot q p [] = refl
all_of-insert_slot q p (x ∷ xs) = ground (arith, all_of-insert_slot q p xs)

pub all_of-by_slot : (q : Panel → Bool) (xs : List Panel) → all_of q (by_slot xs) ≡ all_of q xs
unfolding all_of by_slot
all_of-by_slot q [] = refl
all_of-by_slot q (x ∷ xs) = ground (arith, all_of-insert_slot q x (by_slot xs), all_of-by_slot q xs)

-- a step of a route is no empty text
no_empty_operation : (p : String) (last : Option String) → (next_operation p last).0 ≢ some ""
unfolding next_operation route_for
no_empty_operation p last h = elim (Bool-cases (p == "LCD")) [
  | inl t ↦
      (let (e, g, fits) = lcd_fits (next_position lcd_route (last_given last)) "" (ground arith) in
        no_empty_step e fits.does_step)
  | inr f ↦
      (let (e, g, fits) =
          oled_fits (next_position oled_route (last_given last)) "" (ground arith) in
        no_empty_step e fits.does_step)
]

module _ {F : Type 0} where
  -- the glass has failed or is scrapped, or is done
  abbrev pub is_over : Lot → Db F → Panel → Bool
  is_over lot db p = is_passed_over p || (panel_dispatch lot p db).done

  first_waiting-all_of :
      (lot : Lot) (ps : List Panel) (db : Db F)
      → first_waiting lot ps db ≡ none
      → all_of (is_over lot db) ps ≡ true
  unfolding first_waiting all_of
  first_waiting-all_of lot [] db h = refl
  first_waiting-all_of lot (p ∷ ps) db h = ground (arith, first_waiting-all_of lot ps db)

  -- a glass that the dispatch finds has a step to do
  first_waiting-go :
      (lot : Lot) (ps : List Panel) (db : Db F) (info : DispatchOut)
      → first_waiting lot ps db ≡ some info
      → (info.done ≡ false) × (truthy info.next_step ≡ true)
  unfolding first_waiting panel_dispatch course
  first_waiting-go lot [] db info h = absurd (cc)
  first_waiting-go lot (p ∷ ps) db info h = ground (
    arith,
    first_waiting-go lot ps db info,
    no_empty_operation lot.product_type (last_step p.id db),
  )

  -- every glass of the lot has failed, is scrapped, or is done
  abbrev pub all_over : Lot → Db F → Bool
  all_over lot db = all_of (λ p. not (p.lot_id == lot.id) || is_over lot db p) db.panels

  -- the lot is not held, and none of its glass has anything to do
  pub record IsOver (lot_id : String) (db : Db F) : Type 0 where
    pub lot : Lot
    pub known : get_lot lot_id db ≡ some lot
    pub not_held : lot.status ≢ LotStatus.hold
    pub over : all_over lot db ≡ true

  at_end-IsOver : (lot_id : String) (db : Db F) → next_move lot_id db ≡ at_end → IsOver lot_id db
  unfolding next_move lot_dispatch
  at_end-IsOver lot_id db h = elim (Option-cases (get_lot lot_id db)) [
    | inl n ↦ absurd (ground arith)
    | inr (lot, n) ↦
        let ps = select (λ (p : Panel). p.lot_id == lot.id) db.panels in
        elim (Option-cases (first_waiting lot (by_slot ps) db)) [
          | inr (info, m) ↦
              absurd (let go = first_waiting-go lot (by_slot ps) db info m in ground arith)
          | inl m ↦ record {
            lot = lot;
            known = n;
            not_held = λ e. ground arith;
            over = ground (
              arith,
              all_of-select (is_over lot db) (λ p. p.lot_id == lot.id) db.panels,
              all_of-by_slot (is_over lot db) ps,
              first_waiting-all_of lot (by_slot ps) db m,
            );
          }
        ]
  ]

  last_step-Unchanged :
      (db db' : Db F) → Unchanged db db' → (id : String) → last_step id db' ≡ last_step id db
  unfolding last_step
  last_step-Unchanged db db' u id = rw u.process_events refl

  done-Unchanged :
      (db db' : Db F)
      → Unchanged db db'
      → (lot : Lot) (p : Panel) → (panel_dispatch lot p db').done ≡ (panel_dispatch lot p db).done
  unfolding panel_dispatch course
  done-Unchanged db db' u lot p = ground (arith, last_step-Unchanged db db' u p.id)

  Unchanged-IsOver :
      (lot_id : String) (db db' : Db F) → Unchanged db db' → IsOver lot_id db → IsOver lot_id db'
  unfolding get_lot
  Unchanged-IsOver lot_id db db' u o = record {
    lot = o.lot;
    known = rw u.lots o.known;
    not_held = o.not_held;
    over =
        ap (all_of (λ p. not (p.lot_id == o.lot.id) || is_over o.lot db' p)) u.panels
        ∙ all_of-weaken (λ p. not (p.lot_id == o.lot.id) || is_over o.lot db p)
            (λ p. not (p.lot_id == o.lot.id) || is_over o.lot db' p) db.panels
            (λ p t. rw (done-Unchanged db db' u o.lot p) t) o.over;
  }

  Unchanged-trans : (a b c : Db F) → Unchanged a b → Unchanged b c → Unchanged a c
  Unchanged-trans a b c h k = record {
    lots = k.lots ∙ h.lots;
    panels = k.panels ∙ h.panels;
    process_events = k.process_events ∙ h.process_events;
  }

  accept_push-Unchanged :
      (payload : EquipmentEventIn F) (event_id : String) (db : Db F)
      → Unchanged db (accept_push payload event_id db)
  unfolding accept_push
  accept_push-Unchanged payload event_id db = record {
    lots = ground arith;
    panels = ground arith;
    process_events = ground arith;
  }

  wake_equipment-Unchanged :
      (env : Env F) (u : Uuids) (id : String) (db db' : Db F)
      → wake_equipment env u id db ≡ some db'
      → Unchanged db db'
  unfolding wake_equipment act collect_push
  wake_equipment-Unchanged env u id db db' h =
      let beat = wake_event env id in
      let pushed = accept_push beat u.event_id db in
      let clear = overflows-naive beat db env.now refl in
      let clear_then = overflows-naive beat pushed env.now refl in
      let after = heartbeat-UnchangedAfter env beat u.request_id u.event_id pushed refl in
      elim (Option-cases (ingest_event env beat u.request_id u.event_id pushed)) [
        | inl n ↦
            let raised = subst (UnchangedAfter env beat u.request_id u.event_id pushed) n after in
            absurd (cc)
        | inr ((o, d), n) ↦
            let same : d ≡ db' = ground arith in
            subst (Unchanged db) same (
              Unchanged-trans db pushed d (accept_push-Unchanged beat u.event_id db)
                (subst (UnchangedAfter env beat u.request_id u.event_id pushed) n after))
      ]

  wake_all-Unchanged :
      (env : Env F) (uuid4 : String → Uuids) (ids : List String) (db db' : Db F)
      → wake_all env uuid4 ids db ≡ some db'
      → Unchanged db db'
  unfolding wake_all
  wake_all-Unchanged env uuid4 [] db db' h =
      subst (Unchanged db) (some-injective _ _ h)
        (record { lots = refl; panels = refl; process_events = refl })
  wake_all-Unchanged env uuid4 (id ∷ ids) db db' h =
      elim (Option-cases (wake_equipment env (uuid4 id) id db)) [
        | inl n ↦ absurd (ground arith)
        | inr (d, n) ↦
            Unchanged-trans db d db' (wake_equipment-Unchanged env (uuid4 id) id db d n)
              (wake_all-Unchanged env uuid4 ids d db' (ground arith))
      ]

  -- where a run ends well, the glass of its lot is over
  abbrev OverIfOk : String → Option (RunOut × Db F) → Type 0
  OverIfOk lot_id none = Unit
  OverIfOk lot_id (some (out, db)) = is_ok out ≡ true → IsOver lot_id db

  finish-OverIfOk :
      (job : Job F) (round : Round F) (results : List RunResult) (db : Db F)
      → IsOver job.lot_id db
      → OverIfOk job.lot_id (finish job round results db)
  unfolding finish
  finish-OverIfOk job round results db o =
      elim (Option-cases (wake_all round.ready round.uuid4 line_equipment db)) [
        | inl n ↦ rw (n, finish) tt
        | inr (db', n) ↦
            rw (n, finish)
              (λ ok.
                Unchanged-IsOver job.lot_id db db'
                  (wake_all-Unchanged round.ready round.uuid4 line_equipment db db' n) o)
      ]

  run_rounds-OverIfOk :
      (job : Job F) (rounds : ℕ → Round F) (left i : ℕ) (results : List RunResult) (db : Db F)
      → OverIfOk job.lot_id (run_rounds job rounds left i results db)
  unfolding run_rounds
  run_rounds-OverIfOk job rounds zero i results db = λ ok. absurd (cc)
  run_rounds-OverIfOk job rounds (suc left) i results db =
      elim (Move-cases (next_move job.lot_id db)) [
        | inl n ↦ rw (n, run_rounds) (λ ok. absurd (cc))
        | inr (inl (r, n)) ↦ rw (n, run_rounds) (λ ok. absurd (cc))
        | inr (inr (inl n)) ↦
            rw (n, run_rounds)
              (finish-OverIfOk job (rounds i) results db (at_end-IsOver job.lot_id db n))
        | inr (inr (inr (info, n))) ↦
            rw (n, run_rounds)
              (elim (Option-cases (do_step job (rounds i) i info db)) [
                | inl m ↦ rw (m, run_rounds) tt
                | inr ((o, db'), m) ↦
                    rw (m, run_rounds)
                      (elim (Bool-cases o.accepted) [
                        | inr f ↦ rw (f, run_rounds) (λ ok. absurd (cc))
                        | inl t ↦
                            rw (t, run_rounds)
                              (run_rounds-OverIfOk job rounds left (suc i)
                                (results ++ result_row info o ∷ []) db')
                      ])
              ])
      ]

  -- Where the run of a released order ends well, at its end the lot of the order is there and not held,
  -- and every glass of the lot has failed its inspection, is scrapped, or has no step left to do.
  pub run_work_order-IsOver :
      (env : Env F) (uuid4 : String → Uuids) (rounds : ℕ → Round F)
      (work_order_id inspect_result lot_id : String) (order : WorkOrder) (db db' : Db F)
      (out : RunOut)
      → get_work_order work_order_id db ≡ some order
      → order.lot_id ≡ some lot_id
      → run_work_order env uuid4 rounds work_order_id inspect_result db ≡ some (out, db')
      → is_ok out ≡ true
      → IsOver lot_id db'
  unfolding run_work_order run_released
  run_work_order-IsOver env uuid4 rounds work_order_id inspect_result lot_id order db db' out known
        given h =
      elim (Bool-cases (truthy order.lot_id)) [
        | inr f ↦ λ ok. absurd (ground arith)
        | inl t ↦ elim (Option-cases (prepare_line env uuid4 order.recipe_id db)) [
          | inl m ↦ absurd (ground arith)
          | inr (db1, m) ↦
              let job : Job F = record {
                order = order;
                lot_id = lot_id;
                inspect_result = inspect_result;
                conditions = conditions_of env.float (get_recipe order.recipe_id db);
              } in
              let ran : run_rounds job rounds 80 0 [] db1 ≡ some (out, db') = ground arith in
              subst (OverIfOk lot_id) ran (run_rounds-OverIfOk job rounds 80 0 [] db1)
        ]
      ]
