-- ===== src/LineRunner/Runs.antt =====
-- A run of an order never raises, and keeps what the line promises.
use displayfab_smart_factory.Prelude.{
  ℕ, zero, suc, ◌+◌, ◌≤◌, String, Option, none, some, true, ◌||◌, List, [], ◌∷◌, ◌++◌, ◌≡◌, ◌⊎◌,
  inl, inr, refl, subst, arith, truthy, is_some, select, length, length-append, ◌==◌, string_eq,
  Option-cases, Bool-cases, if◌then◌else◌,
}
use displayfab_smart_factory.Enums.{lot_status_eq, PanelStatus, panel_status_eq}
use displayfab_smart_factory.Rules.{
  route_for, oled_route, lcd_route, next_operation, next_position, last_given,
}
use displayfab_smart_factory.Rules.Equipments.{oled_fits, lcd_fits}
use displayfab_smart_factory.Models.{Lot, Panel, Db}
use displayfab_smart_factory.Models.Tables.{get_lot, get_work_order}
use displayfab_smart_factory.Env.{Env}
use displayfab_smart_factory.Ingestion.Steps.{Outcome}
use displayfab_smart_factory.Ingestion.{collect_push}
use displayfab_smart_factory.Dispatch.{
  DispatchOut, picked, course, panel_dispatch, first_waiting, last_panel, lot_dispatch, by_slot,
}
use displayfab_smart_factory.Validation.Guards.{last_step}
use displayfab_smart_factory.HostPrep.{Uuids, wake_equipment, recipe_step, line_equipment}
use displayfab_smart_factory.HostPrep.Kept.{
  wake_equipment-IsKept, prepare_equipment-IsKept, prepare_line-IsKept,
}
use displayfab_smart_factory.Line.{state_of}
use displayfab_smart_factory.Line.Kept.{IsKept}
use displayfab_smart_factory.Line.Run.{KeptAfter, overflows-naive, push-IsKept}
use displayfab_smart_factory.LineRunner.{
  Round, RunOut, RunResult, status_of_order, finished, no_order, not_released, no_lot, lot_held,
  rejected, results_of, Move, lost, stop_on, at_end, go, Job, step_report, next_move, do_step,
  result_row, wake_all, finish, run_rounds, run_released, run_work_order,
}

-- an operation of a route has an equipment, whatever the product is
next_operation-equipment :
    (p : String) (last : Option String) (step : String)
    → (next_operation p last).0 ≡ some step
    → is_some (next_operation p last).1 ≡ true
unfolding next_operation route_for
next_operation-equipment p last step h = elim (Bool-cases (p == "LCD")) [
  | inl t ↦
      (let (e, g, fits) =
          lcd_fits (next_position lcd_route (last_given last)) step (ground arith) in
        ground arith)
  | inr f ↦
      (let (e, g, fits) =
          oled_fits (next_position oled_route (last_given last)) step (ground arith) in
        ground arith)
]

abbrev IsSent : DispatchOut → Type 0
IsSent info = truthy info.next_step ≡ true → is_some info.next_equipment_id ≡ true

pub Move-cases :
    (m : Move)
    → (m ≡ lost)
      ⊎ ((r : Option String) × (m ≡ stop_on r))
      ⊎ (m ≡ at_end)
      ⊎ ((info : DispatchOut) × (m ≡ go info))
Move-cases lost = inl refl
Move-cases (stop_on r) = inr (inl (r, refl))
Move-cases at_end = inr (inr (inl refl))
Move-cases (go info) = inr (inr (inr (info, refl)))

module _ {F : Type 0} where
  picked-equipment :
      (step : String) (equipment_id : Option String) (db : Db F)
      → is_some equipment_id ≡ true
      → is_some (picked (some step, equipment_id) db) ≡ true
  unfolding picked
  picked-equipment step equipment_id db h = ground arith

  panel_dispatch-IsSent :
      (lot : Lot) (panel : Panel) (db : Db F) → IsSent (panel_dispatch lot panel db)
  unfolding panel_dispatch course
  panel_dispatch-IsSent lot panel db h =
      elim (Option-cases (next_operation lot.product_type (last_step panel.id db)).0) [
        | inl n ↦ ground arith
        | inr (step, n) ↦
            let e = next_operation-equipment lot.product_type (last_step panel.id db) step n in
            let p =
              picked-equipment step (next_operation lot.product_type (last_step panel.id db)).1 db
                e in
            ground arith
      ]

  -- a dispatch that is found is that of a glass
  first_waiting-panel :
      (lot : Lot) (ps : List Panel) (db : Db F) (info : DispatchOut)
      → first_waiting lot ps db ≡ some info
      → (p : Panel) × (info ≡ panel_dispatch lot p db)
  unfolding first_waiting
  first_waiting-panel lot [] db info h = absurd (cc)
  first_waiting-panel lot (p ∷ ps) db info h =
      elim (Bool-cases (p.status == PanelStatus.fail || p.status == PanelStatus.scrap)) [
        | inl t ↦ first_waiting-panel lot ps db info (ground arith)
        | inr f ↦ elim (Bool-cases (panel_dispatch lot p db).done) [
          | inl t ↦ first_waiting-panel lot ps db info (ground arith)
          | inr g ↦ (p, ground arith)
        ]
      ]

  lot_dispatch-IsSent :
      (lot : Lot) (db : Db F) (info : DispatchOut) → lot_dispatch lot db ≡ some info → IsSent info
  unfolding lot_dispatch
  lot_dispatch-IsSent lot db info h =
      let ps = by_slot (select (λ (p : Panel). p.lot_id == lot.id) db.panels) in
      elim (Option-cases (first_waiting lot ps db)) [
        | inr (i, n) ↦
            (let (p, e) = first_waiting-panel lot ps db i n in
              let same : info ≡ panel_dispatch lot p db = ground arith in
              rw same (panel_dispatch-IsSent lot p db))
        | inl n ↦ elim (Option-cases (last_panel ps)) [
          | inl m ↦ absurd (ground arith)
          | inr (p, m) ↦
              (let same : info ≡ panel_dispatch lot p db = ground arith in
                rw same (panel_dispatch-IsSent lot p db))
        ]
      ]

  -- a round has an equipment to go to
  pub next_move-equipment :
      (lot_id : String) (db : Db F) (info : DispatchOut)
      → next_move lot_id db ≡ go info
      → is_some info.next_equipment_id ≡ true
  unfolding next_move
  next_move-equipment lot_id db info h = elim (Option-cases (get_lot lot_id db)) [
    | inl n ↦ absurd (ground arith)
    | inr (lot, n) ↦ elim (Option-cases (lot_dispatch lot db)) [
      | inl m ↦ absurd (ground arith)
      | inr (i, m) ↦ (let s = lot_dispatch-IsSent lot db i m in ground (arith, s))
    ]
  ]

  -- the step of a round is answered, and keeps the promises
  do_step-IsKept :
      (job : Job F) (round : Round F) (i : ℕ) (info : DispatchOut) (db : Db F)
      → is_some info.next_equipment_id ≡ true
      → IsKept db
      → (o : Outcome) × (db' : Db F) × (do_step job round i info db ≡ some (o, db')) × IsKept db'
  unfolding do_step step_report
  do_step-IsKept job round i info db e k = elim (Option-cases info.next_equipment_id) [
    | inl n ↦ absurd (ground arith)
    | inr (id, n) ↦
        let (db1, p, k1) =
          prepare_equipment-IsKept round.ready (round.uuid4 id) id
            (if recipe_step info.next_step then some job.order.recipe_id else none) db k in
        let pushed =
          push-IsKept round.env (step_report job round i info id) round.request_id round.event_id
            db1 (overflows-naive (step_report job round i info id) db1 _ refl) k1 in
        elim (Option-cases (
          collect_push round.env (step_report job round i info id) round.request_id round.event_id
            db1)) [
              | inl m ↦ absurd (subst (λ r. KeptAfter (state_of r)) m pushed)
              | inr ((o, db'), m) ↦ (
                o,
                db',
                rw (n, do_step) (rw (p, do_step) m),
                subst (λ r. KeptAfter (state_of r)) m pushed,
              )
            ]
  ]

  wake_all-IsKept :
      (env : Env F) (uuid4 : String → Uuids) (ids : List String) (db : Db F)
      → IsKept db
      → (db' : Db F) × (wake_all env uuid4 ids db ≡ some db') × IsKept db'
  unfolding wake_all
  wake_all-IsKept env uuid4 [] db k = (db, refl, k)
  wake_all-IsKept env uuid4 (id ∷ ids) db k =
      let woken = wake_equipment-IsKept env (uuid4 id) id db k in
      elim (Option-cases (wake_equipment env (uuid4 id) id db)) [
        | inl n ↦ absurd (subst KeptAfter n woken)
        | inr (db1, n) ↦
            (let (db', e, k') = wake_all-IsKept env uuid4 ids db1 (subst KeptAfter n woken) in
              (db', rw (n, wake_all) e, k'))
      ]

  -- an answer, with at most so many results, and a database that is kept
  pub record Ran (limit : ℕ) (r : Option (RunOut × Db F)) : Type 0 where
    pub out : RunOut
    pub db : Db F
    pub answer : r ≡ some (out, db)
    pub within : length (results_of out) ≤ limit
    pub kept : IsKept db

  finish-Ran :
      (job : Job F) (round : Round F) (results : List RunResult) (db : Db F) (limit : ℕ)
      → length results ≤ limit
      → IsKept db
      → Ran limit (finish job round results db)
  unfolding finish
  finish-Ran job round results db limit w k =
      let (db', e, k') = wake_all-IsKept round.ready round.uuid4 line_equipment db k in
      record {
        out = finished (status_of_order (get_work_order job.order.id db)) results;
        db = db';
        answer = rw (e, finish) refl;
        within = w;
        kept = k';
      }

  run_rounds-Ran :
      (job : Job F) (rounds : ℕ → Round F) (left i : ℕ) (results : List RunResult) (db : Db F)
      (limit : ℕ)
      → length results + left ≤ limit
      → IsKept db
      → Ran limit (run_rounds job rounds left i results db)
  unfolding run_rounds
  run_rounds-Ran job rounds zero i results db limit w k = record {
    out = _;
    db = db;
    answer = refl;
    within = omega arith;
    kept = k;
  }
  run_rounds-Ran job rounds (suc left) i results db limit w k =
      elim (Move-cases (next_move job.lot_id db)) [
        | inl n ↦
            rw (n, run_rounds)
              (record {
                out = no_lot results;
                db = db;
                answer = refl;
                within = omega arith;
                kept = k;
              })
        | inr (inl (r, n)) ↦
            rw (n, run_rounds)
              (record {
                out = lot_held r results;
                db = db;
                answer = refl;
                within = omega arith;
                kept = k;
              })
        | inr (inr (inl n)) ↦
            rw (n, run_rounds) (finish-Ran job (rounds i) results db limit (omega arith) k)
        | inr (inr (inr (info, n))) ↦
            let (o, db', e, k') =
              do_step-IsKept job (rounds i) i info db (next_move-equipment job.lot_id db info n)
                k in
            let row = result_row info o in
            let longer = length-append results (row ∷ []) in
            rw (n, run_rounds)
              (rw (e, run_rounds)
                (elim (Bool-cases o.accepted) [
                  | inl t ↦
                      rw (t, run_rounds)
                        (run_rounds-Ran job rounds left (suc i) (results ++ row ∷ []) db' limit
                          (omega arith) k')
                  | inr f ↦
                      rw (f, run_rounds)
                        (record {
                          out = rejected o.reason (results ++ row ∷ []);
                          db = db';
                          answer = refl;
                          within = omega arith;
                          kept = k';
                        })
                ]))
      ]

  -- From a database that keeps the promises of the line, a run of any order, with any clocks, answers:
  -- it raises nothing, it has at most 80 results, and its end keeps the promises.
  pub run_work_order-Ran :
      (env : Env F) (uuid4 : String → Uuids) (rounds : ℕ → Round F)
      (work_order_id inspect_result : String) (db : Db F)
      → IsKept db
      → Ran 80 (run_work_order env uuid4 rounds work_order_id inspect_result db)
  unfolding run_work_order run_released
  run_work_order-Ran env uuid4 rounds work_order_id inspect_result db k =
      elim (Option-cases (get_work_order work_order_id db)) [
        | inl n ↦
            rw (n, run_work_order)
              (record { out = no_order; db = db; answer = refl; within = omega arith; kept = k })
        | inr (order, n) ↦
            rw (n, run_work_order)
              (elim (Bool-cases (truthy order.lot_id)) [
                | inr f ↦
                    rw (f, run_work_order)
                      (record {
                        out = not_released;
                        db = db;
                        answer = refl;
                        within = omega arith;
                        kept = k;
                      })
                | inl t ↦
                    let (db', e, k') = prepare_line-IsKept env uuid4 order.recipe_id db k in
                    rw (t, run_work_order)
                      (rw (e, run_released)
                        (run_rounds-Ran _ rounds 80 0 [] db' 80 (omega arith) k'))
              ])
      ]
