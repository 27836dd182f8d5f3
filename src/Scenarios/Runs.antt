-- ===== src/Scenarios/Runs.antt =====
-- How every scenario ends, and that it keeps what the line promises.
use displayfab_smart_factory.Prelude.{
  ℕ, suc, String, Option, none, some, Bool, true, false, List, [], ◌∷◌, ◌≡◌, inl, inr, refl, subst,
  contains, is_some, get_or, length, not, ◌⊎◌, Option-cases, Bool-cases, ◌==◌, string_eq,
  if◌then◌else◌,
}
use displayfab_smart_factory.Numerals.{strip_prefix}
use displayfab_smart_factory.Models.{Panel, WorkOrder, Db}
use displayfab_smart_factory.Models.Tables.{get_equipment, set_equipment}
use displayfab_smart_factory.Schemas.{EquipmentEventIn}
use displayfab_smart_factory.Env.{Env}
use displayfab_smart_factory.Ingestion.{overflows, collect_push}
use displayfab_smart_factory.Commands.Tidy.{execute_command-Tidy}
use displayfab_smart_factory.Enums.{CommandType}
use displayfab_smart_factory.WorkOrders.{
  WorkOrderError, Created, created, refused, create_and_release,
}
use displayfab_smart_factory.WorkOrders.Release.{create_and_release-Released}
use displayfab_smart_factory.HostPrep.{order, line_equipment}
use displayfab_smart_factory.HostPrep.Kept.{prepare_line-IsKept}
use displayfab_smart_factory.Line.{state_of, ordered}
use displayfab_smart_factory.Line.Kept.{
  IsKept, Unchanged-IsKept, tidy-IsKept, mark_offline_equipment-IsKept,
}
use displayfab_smart_factory.Line.Arrivals.{create_and_release-IsKept}
use displayfab_smart_factory.Line.Run.{KeptAfter, overflows-naive, push-IsKept}
use displayfab_smart_factory.LineRunner.Runs.{run_work_order-Ran}
use displayfab_smart_factory.Demo.{
  DemoRun, Stage, Attempt, returned, raised, crashed, attempt_of, run_ordered, run_demo,
}
use displayfab_smart_factory.Scenarios.Scripts.{
  Task, report, pick_recipe, Script, script_of, mismatch_tasks,
}
use displayfab_smart_factory.Scenarios.{
  Call, Show, ScenarioOut, catalog, demo_of, wait_panel, ingest, process, idle_heartbeat, run_tasks,
  run_heartbeats, demo_comm_loss, demo_alive, run_mismatch, demo_recipe_mismatch, run_script,
  run_glass, run_beats, run_scenario,
}

Created-cases :
    {A : Type 0} (c : Created A)
    → ((e : WorkOrderError) × (c ≡ refused e)) ⊎ ((a : A) × (c ≡ created a))
Created-cases (refused e) = inl (e, refl)
Created-cases (created a) = inr (a, refl)

module _ {F : Type 0} where
  -- there is an answer, with a database that keeps the promises
  abbrev pub Answers {ℓ} : {A : Type ℓ} → Option (A × Db F) → Type 0
  Answers none = ⊥
  Answers (some (a, db)) = IsKept db

  pub answered {ℓ} :
      {A : Type ℓ} (r : Option (A × Db F))
      → Answers r
      → (a : A) × (db : Db F) × (r ≡ some (a, db)) × IsKept db
  answered none k = absurd k
  answered (some (a, db)) k = (a, db, refl, k)

  -- the error is that of an order of the demos, which the database refuses
  abbrev pub RefusesOrder : Env F → WorkOrderError → Db F → Type 0
  RefusesOrder env e db =
      (create_and_release env "OLED" (some "RCP-OLED-A01") 1 db ≡ refused e)
      ⊎ (create_and_release env "LCD" (some "RCP-LCD-C01") 1 db ≡ refused e)

  -- a result, or the error of a refused order, and a database that keeps the promises
  abbrev pub Ended {ℓ} : {A : Type ℓ} → Env F → Attempt A F → Type 0
  Ended env (returned a db) = IsKept db
  Ended env (raised e db) = IsKept db × RefusesOrder env e db
  Ended env crashed = ⊥

  attempt_of-Ended {ℓ} :
      {A : Type ℓ} (env : Env F) (r : Option (A × Db F)) → Answers r → Ended env (attempt_of r)
  attempt_of-Ended env none k = k
  attempt_of-Ended env (some (a, db)) k = k

  ingest-Answers :
      (call : Call F) (payload : EquipmentEventIn F) (db : Db F)
      → overflows payload db ≡ false
      → IsKept db
      → Answers (ingest call payload db)
  unfolding ingest
  ingest-Answers call payload db f k =
      let pushed = push-IsKept call.env payload call.request_id call.event_id db f k in
      elim (Option-cases (collect_push call.env payload call.request_id call.event_id db)) [
        | inl m ↦ absurd (subst (λ r. KeptAfter (state_of r)) m pushed)
        | inr ((o, db'), m) ↦ rw (m, ingest) (subst (λ r. KeptAfter (state_of r)) m pushed)
      ]

  module _ (s : Show F) where
    run_tasks-Answers :
        (lot_id panel_id : String) (i : ℕ) (tasks : List (Task F)) (db : Db F)
        → IsKept db
        → Answers (run_tasks s lot_id panel_id i tasks db)
    unfolding run_tasks
    run_tasks-Answers lot_id panel_id i [] db k = k
    run_tasks-Answers lot_id panel_id i (report step ∷ rest) db k =
        let (row, db1, e, k1) = answered _ (
          ingest-Answers (s.calls i) (process (s.calls i) i lot_id panel_id step) db
            (overflows-naive _ db _ refl) k) in
        let (rows, db2, e', k2) =
          answered _ (run_tasks-Answers lot_id panel_id (suc i) rest db1 k1) in
        rw (e, run_tasks) (rw (e', run_tasks) k2)
    run_tasks-Answers lot_id panel_id i (pick_recipe equipment_id recipe_id ∷ rest) db k =
        run_tasks-Answers lot_id panel_id i rest _ (
          tidy-IsKept db _
            (execute_command-Tidy (s.command_env i)
              (order CommandType.select_recipe equipment_id (some recipe_id)) db (s.command_id i))
            k)

    run_heartbeats-Answers :
        (i : ℕ) (ids : List String) (db : Db F) → IsKept db → Answers (run_heartbeats s i ids db)
    unfolding run_heartbeats
    run_heartbeats-Answers i [] db k = k
    run_heartbeats-Answers i (id ∷ rest) db k =
        let (row, db1, e, k1) = answered _ (
          ingest-Answers (s.calls i) (idle_heartbeat (s.calls i) id) db
            (overflows-naive _ db _ refl) k) in
        let (rows, db2, e', k2) = answered _ (run_heartbeats-Answers (suc i) rest db1 k1) in
        rw (e, run_heartbeats) (rw (e', run_heartbeats) k2)

    run_beats-Answers : (db : Db F) → IsKept db → Answers (run_beats s db)
    unfolding run_beats
    run_beats-Answers db k =
        let (rows, db', e, k') = answered _ (run_heartbeats-Answers 0 line_equipment db k) in
        rw (e, run_beats) k'

    run_script-Answers :
        (script : Option (Script F)) (db : Db F) → IsKept db → Answers (run_script s script db)
    unfolding run_script
    run_script-Answers none db k = k
    run_script-Answers (some script) db k = elim (Option-cases (wait_panel script.lot_id db)) [
      | inl n ↦ rw (n, run_script) k
      | inr (panel, n) ↦
          let (rows, db', e, k') =
            answered _ (run_tasks-Answers panel.lot_id panel.id 0 script.tasks db k) in
          rw (n, run_script) (rw (e, run_script) k')
    ]

    run_glass-Answers :
        (scenario_id : String) (db : Db F) → IsKept db → Answers (run_glass s scenario_id db)
    unfolding run_glass
    run_glass-Answers scenario_id db k =
        let (db1, e, k1) =
          prepare_line-IsKept s.stage.env s.stage.uuid4
            (if is_some (strip_prefix "lcd" scenario_id) then "RCP-LCD-C01" else "RCP-OLED-A01") db
            k in
        rw (e, run_glass) (run_script-Answers (script_of s.stage.env.float scenario_id) db1 k1)

    demo_alive-Answers : (db : Db F) → IsKept db → Answers (demo_alive s db)
    unfolding demo_alive
    demo_alive-Answers db k =
        let (db1, e, k1) = prepare_line-IsKept s.stage.env s.stage.uuid4 "RCP-OLED-A01" db k in
        rw (e, demo_alive) k1

    demo_comm_loss-Answers : (db : Db F) → IsKept db → Answers (demo_comm_loss s db)
    unfolding demo_comm_loss set_equipment
    demo_comm_loss-Answers db k =
        let (db1, e, k1) = prepare_line-IsKept s.stage.env s.stage.uuid4 "RCP-OLED-A01" db k in
        rw (e, demo_comm_loss)
          (elim (Bool-cases (is_some (get_equipment "PROC-01" db1))) [
            | inr f ↦ rw (f, demo_comm_loss) k1
            | inl t ↦
                rw (t, demo_comm_loss)
                  (mark_offline_equipment-IsKept s.offline_env _ (
                    Unchanged-IsKept db1 _
                      (record { lots = refl; panels = refl; process_events = refl }) k1))
          ])

    run_mismatch-Answers :
        (row : WorkOrder) (panels : List Panel) (db : Db F)
        → length panels ≡ 1
        → IsKept db
        → Answers (run_mismatch s row panels db)
    unfolding run_mismatch
    run_mismatch-Answers row [] db n k = absurd (cc)
    run_mismatch-Answers row (p ∷ ps) db n k =
        let (rows, db', e, k') = answered _ (
          run_tasks-Answers (get_or row.lot_id "") p.id 0 (mismatch_tasks s.stage.env.float) db
            k) in
        rw (e, run_mismatch) k'

    demo_recipe_mismatch-Ended :
        (db : Db F) → IsKept db → Ended s.stage.release_env (demo_recipe_mismatch s db)
    unfolding demo_recipe_mismatch
    demo_recipe_mismatch-Ended db k =
        let (db1, e, k1) = prepare_line-IsKept s.stage.env s.stage.uuid4 "RCP-OLED-A01" db k in
        let k2 =
          create_and_release-IsKept s.stage.release_env "OLED" (some "RCP-OLED-A01") 1 db1 k1 in
        rw (e, demo_recipe_mismatch)
          (elim (Created-cases
            (create_and_release s.stage.release_env "OLED" (some "RCP-OLED-A01") 1 db1)) [
              | inl (why, n) ↦ rw (n, demo_recipe_mismatch) (k1, inl n)
              | inr (((row, panels), db2), n) ↦
                  let made =
                    create_and_release-Released s.stage.release_env "OLED" (some "RCP-OLED-A01") 1
                      db1 row panels db2 n in
                  rw (n, demo_recipe_mismatch)
                    (attempt_of-Ended s.stage.release_env _ (
                      run_mismatch-Answers row panels db2 made.quantity
                        (subst (λ c. IsKept (ordered db1 c)) n k2)))
            ])

  run_ordered-Answers :
      (stage : Stage F) (inspect_result : String) (row : WorkOrder) (panels : List Panel)
      (db : Db F)
      → IsKept db
      → Answers (run_ordered stage inspect_result row panels db)
  unfolding run_ordered
  run_ordered-Answers stage inspect_result row panels db k =
      let r =
        run_work_order-Ran stage.run_env stage.run_uuid4 stage.rounds row.id inspect_result db k in
      rw (r.answer, run_ordered) r.kept

  run_demo-Ended :
      (stage : Stage F) (product_type recipe_id inspect_result : String) (db : Db F)
      → ((e : WorkOrderError) (db1 : Db F)
          → create_and_release stage.release_env product_type (some recipe_id) 1 db1 ≡ refused e
          → RefusesOrder stage.release_env e db1)
      → IsKept db
      → Ended stage.release_env (run_demo stage product_type recipe_id inspect_result db)
  unfolding run_demo
  run_demo-Ended stage product_type recipe_id inspect_result db side k =
      let (db1, e, k1) = prepare_line-IsKept stage.env stage.uuid4 recipe_id db k in
      let k2 = create_and_release-IsKept stage.release_env product_type (some recipe_id) 1 db1 k1 in
      rw (e, run_demo)
        (elim (Created-cases
          (create_and_release stage.release_env product_type (some recipe_id) 1 db1)) [
            | inl (why, n) ↦ rw (n, run_demo) (k1, side why db1 n)
            | inr (((row, panels), db2), n) ↦
                rw (n, run_demo)
                  (attempt_of-Ended stage.release_env _ (
                    run_ordered-Answers stage inspect_result row panels db2
                      (subst (λ c. IsKept (ordered db1 c)) n k2)))
          ])

  demo_of-Ended : (env : Env F) (r : Attempt DemoRun F) → Ended env r → Ended env (demo_of r)
  demo_of-Ended env (returned out db) k = k
  demo_of-Ended env (raised e db) k = k
  demo_of-Ended env crashed k = k

  choice-Ended :
      (env : Env F) (b : Bool) (x y : Attempt ScenarioOut F)
      → Ended env x
      → Ended env y
      → Ended env (if b then x else y)
  choice-Ended env true x y h k = h
  choice-Ended env false x y h k = k

  oled_demo-Ended :
      (s : Show F) (inspect_result : String) (db : Db F)
      → IsKept db
      → Ended s.stage.release_env
          (demo_of (run_demo s.stage "OLED" "RCP-OLED-A01" inspect_result db))
  oled_demo-Ended s inspect_result db k =
      demo_of-Ended s.stage.release_env _
        (run_demo-Ended s.stage "OLED" "RCP-OLED-A01" inspect_result db (λ e d n. inl n) k)

  lcd_demo-Ended :
      (s : Show F) (db : Db F)
      → IsKept db
      → Ended s.stage.release_env (demo_of (run_demo s.stage "LCD" "RCP-LCD-C01" "PASS" db))
  lcd_demo-Ended s db k =
      demo_of-Ended s.stage.release_env _
        (run_demo-Ended s.stage "LCD" "RCP-LCD-C01" "PASS" db (λ e d n. inr n) k)

  -- From a database that keeps the promises of the line, every scenario, under any id and with any
  -- clocks, returns its answer or raises the `WorkOrderError` of its own order, and the database at
  -- its end keeps them. It raises only where that database refuses one of the two orders of the demos,
  -- with that error; no other error comes.
  pub run_scenario-IsKept :
      (s : Show F) (scenario_id : String) (db : Db F)
      → IsKept db
      → Ended s.stage.release_env (run_scenario s scenario_id db)
  unfolding run_scenario
  run_scenario-IsKept s scenario_id db k =
      let env = s.stage.release_env in
      choice-Ended env (not (contains catalog scenario_id)) _ _ k (
        choice-Ended env (scenario_id == "demo_oled_pass") _ _ (oled_demo-Ended s "PASS" db k) (
          choice-Ended env (scenario_id == "demo_oled_fail") _ _ (oled_demo-Ended s "FAIL" db k) (
            choice-Ended env (scenario_id == "demo_lcd_pass") _ _ (lcd_demo-Ended s db k) (
              choice-Ended env (scenario_id == "demo_comm_loss") _ _
                (attempt_of-Ended env _ (demo_comm_loss-Answers s db k))
                (choice-Ended env (scenario_id == "demo_alive") _ _
                  (attempt_of-Ended env _ (demo_alive-Answers s db k))
                  (choice-Ended env (scenario_id == "demo_recipe_mismatch") _ _
                    (demo_recipe_mismatch-Ended s db k)
                    (choice-Ended env (scenario_id == "heartbeat") _ _
                      (attempt_of-Ended env _ (run_beats-Answers s db k))
                      (attempt_of-Ended env _ (run_glass-Answers s scenario_id db k)))))))))
