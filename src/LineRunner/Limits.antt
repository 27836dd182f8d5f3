-- ===== src/LineRunner/Limits.antt =====
-- How far ahead of the clock a run may report.
use displayfab_smart_factory.Prelude.{
  ℕ, zero, suc, ◌+◌, ◌<◌, ◌≤◌, String, Option, none, some, true, false, List, [], ◌∷◌, ◌++◌, ◌≡◌,
  inl, inr, refl, arith, truthy, length, length-append, ltb, subst, get_or, Option-cases,
  Bool-cases, if◌then◌else◌,
}
use displayfab_smart_factory.Enums.{EventType}
use displayfab_smart_factory.Models.{Db}
use displayfab_smart_factory.Models.Tables.{get_recipe, get_work_order}
use displayfab_smart_factory.Schemas.{EquipmentEventIn, as_naive_utc, utc_of}
use displayfab_smart_factory.Env.{Env, seconds}
use displayfab_smart_factory.Adapter.{accept_push}
use displayfab_smart_factory.Ingestion.Steps.{Outcome}
use displayfab_smart_factory.Ingestion.{collect_push}
use displayfab_smart_factory.Ingestion.Acceptance.{accepted_iff-Admitted}
use displayfab_smart_factory.Dispatch.{DispatchOut}
use displayfab_smart_factory.HostPrep.{
  Uuids, prepare_equipment, prepare_line, recipe_step, line_equipment,
}
use displayfab_smart_factory.LineRunner.{
  Round, RunOut, RunResult, is_ok, results_of, Job, step_report, next_move, do_step, result_row,
  finish, wake_all, run_rounds, run_released, run_work_order, conditions_of,
}
use displayfab_smart_factory.LineRunner.Runs.{Move-cases}

module _ {F : Type 0} where
  -- a report from further ahead than is tolerated is not accepted
  future_rejected :
      (env : Env F) (payload : EquipmentEventIn F) (request_id event_id : String) (db db' : Db F)
      (o : Outcome)
      → payload.event_type ≡ EventType.process
      → payload.force_db_failure ≡ false
      → env.now + seconds env.settings.future_event_tolerance_sec < utc_of payload.timestamp
      → collect_push env payload request_id event_id db ≡ some (o, db')
      → o.accepted ≡ false
  unfolding collect_push
  future_rejected env payload request_id event_id db db' o is_process unforced late h =
      elim (Bool-cases o.accepted) [
        | inr f ↦ f
        | inl t ↦
            let d = if payload.force_db_failure then db else accept_push payload event_id db in
            let a =
              (accepted_iff-Admitted env payload d request_id event_id is_process unforced).0
                (rw h t) in
            absurd (omega (arith, a.timely.2, late))
      ]

  -- each report is ingested less than a second after it was written, under the given tolerance
  abbrev pub IsFast : (ℕ → Round F) → ℕ → Type 0
  IsFast rounds tolerance =
      (i : ℕ)
      → ((rounds i).env.now < (rounds i).stamp + seconds 1)
        × ((rounds i).env.settings.future_event_tolerance_sec ≤ tolerance)

  do_step-late :
      (job : Job F) (rounds : ℕ → Round F) (tolerance i : ℕ) (info : DispatchOut) (db db' : Db F)
      (o : Outcome)
      → IsFast rounds tolerance
      → tolerance < i
      → do_step job (rounds i) i info db ≡ some (o, db')
      → o.accepted ≡ false
  unfolding do_step step_report utc_of as_naive_utc
  do_step-late job rounds tolerance i info db db' o fast late h =
      elim (Option-cases info.next_equipment_id) [
        | inl n ↦ absurd (ground arith)
        | inr (id, n) ↦
            let given = if recipe_step info.next_step then some job.order.recipe_id else none in
            elim (Option-cases
              (prepare_equipment (rounds i).ready ((rounds i).uuid4 id) id given db)) [
                | inl m ↦ absurd (ground arith)
                | inr (db1, m) ↦
                    let (now, tolerated) = fast i in
                    future_rejected (rounds i).env (step_report job (rounds i) i info id)
                      (rounds i).request_id (rounds i).event_id db1 db' o refl refl
                      (omega (arith, now, tolerated, late)) (ground arith)
              ]
      ]

  abbrev IfOk : ℕ → Option (RunOut × Db F) → Type 0
  IfOk limit none = Unit
  IfOk limit (some (out, db)) = is_ok out ≡ true → length (results_of out) ≤ limit

  finish-IfOk :
      (job : Job F) (round : Round F) (results : List RunResult) (db : Db F) (limit : ℕ)
      → length results ≤ limit
      → IfOk limit (finish job round results db)
  unfolding finish
  finish-IfOk job round results db limit w =
      elim (Option-cases (wake_all round.ready round.uuid4 line_equipment db)) [
        | inl n ↦ rw (n, finish) tt
        | inr (db', n) ↦ rw (n, finish) (λ ok. w)
      ]

  run_rounds-IfOk :
      (job : Job F) (rounds : ℕ → Round F) (tolerance left i : ℕ) (results : List RunResult)
      (db : Db F)
      → IsFast rounds tolerance
      → length results ≤ i
      → i ≤ suc tolerance
      → IfOk (suc tolerance) (run_rounds job rounds left i results db)
  unfolding run_rounds
  run_rounds-IfOk job rounds tolerance zero i results db fast w b = λ ok. absurd (cc)
  run_rounds-IfOk job rounds tolerance (suc left) i results db fast w b =
      elim (Move-cases (next_move job.lot_id db)) [
        | inl n ↦ rw (n, run_rounds) (λ ok. absurd (cc))
        | inr (inl (r, n)) ↦ rw (n, run_rounds) (λ ok. absurd (cc))
        | inr (inr (inl n)) ↦
            rw (n, run_rounds) (finish-IfOk job (rounds i) results db (suc tolerance) (omega arith))
        | inr (inr (inr (info, n))) ↦
            rw (n, run_rounds)
              (elim (Option-cases (do_step job (rounds i) i info db)) [
                | inl m ↦ rw (m, run_rounds) tt
                | inr ((o, db'), m) ↦
                    let row = result_row info o in
                    let longer = length-append results (row ∷ []) in
                    rw (m, run_rounds)
                      (elim (Bool-cases o.accepted) [
                        | inr f ↦ rw (f, run_rounds) (λ ok. absurd (cc))
                        | inl t ↦
                            let soon : i ≤ tolerance = elim (Bool-cases (ltb tolerance i)) [
                              | inl l ↦ absurd (
                                  cc (
                                    t,
                                    do_step-late job rounds tolerance i info db db' o fast
                                        (ground arith) m,
                                  ))
                              | inr l ↦ ground arith
                            ] in
                            rw (t, run_rounds)
                              (run_rounds-IfOk job rounds tolerance left (suc i)
                                (results ++ row ∷ []) db' fast (omega arith) (omega arith))
                      ])
              ])
      ]

  -- Where every report of a run is ingested less than a second after it was written, a run that ends well
  -- has at most one result more than the tolerance of early reports has seconds: the time stamps of
  -- the reports run ahead of the clock by a second in every round.
  pub run_work_order-IfOk :
      (env : Env F) (uuid4 : String → Uuids) (rounds : ℕ → Round F) (tolerance : ℕ)
      (work_order_id inspect_result : String) (db db' : Db F) (out : RunOut)
      → IsFast rounds tolerance
      → run_work_order env uuid4 rounds work_order_id inspect_result db ≡ some (out, db')
      → is_ok out ≡ true
      → length (results_of out) ≤ suc tolerance
  unfolding run_work_order run_released
  run_work_order-IfOk env uuid4 rounds tolerance work_order_id inspect_result db db' out fast h =
      elim (Option-cases (get_work_order work_order_id db)) [
        | inl n ↦ ground arith
        | inr (order, n) ↦ elim (Bool-cases (truthy order.lot_id)) [
          | inr f ↦ ground arith
          | inl t ↦ elim (Option-cases (prepare_line env uuid4 order.recipe_id db)) [
            | inl m ↦ absurd (ground arith)
            | inr (db1, m) ↦
                let job : Job F = record {
                  order = order;
                  lot_id = get_or order.lot_id "";
                  inspect_result = inspect_result;
                  conditions = conditions_of env.float (get_recipe order.recipe_id db);
                } in
                let ran : run_rounds job rounds 80 0 [] db1 ≡ some (out, db') = ground arith in
                subst (IfOk (suc tolerance)) ran (
                  run_rounds-IfOk job rounds tolerance 80 0 [] db1 fast (omega arith) (omega arith))
          ]
        ]
      ]
