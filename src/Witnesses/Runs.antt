-- ===== src/Witnesses/Runs.antt =====
-- The theorems on runs of the line at work: orders, scenarios, the autopilot, resets and replays.
use displayfab_smart_factory.Prelude.{
  ℕ, ◌+◌, ◌≤◌, String, Option, none, some, true, List, [], ◌∷◌, ◌≡◌, refl, arith, any_of, all_of,
  Option, Option-cases, inl, inr, sym, ◌∙◌, length, select, find_first, String-discrete,
}
use displayfab_smart_factory.Enums.{
  PanelStatus, WorkOrderStatus, LotStatus-discrete, PanelStatus-discrete,
}
use displayfab_smart_factory.Models.{Panel, WorkOrder, Db}
use displayfab_smart_factory.Models.Tables.{
  get_equipment, get_lot, get_panel, get_recipe, get_work_order,
}
use displayfab_smart_factory.Schemas.{EquipmentEventIn, Datetime, as_naive_utc, utc_of}
use displayfab_smart_factory.WorkOrders.{WorkOrderError, create_and_release}
use displayfab_smart_factory.HostPrep.{
  Uuids, line_equipment, prepare_equipment, prepare_all, prepare_line,
}
use displayfab_smart_factory.Dispatch.{
  lot_dispatch, by_slot, insert_slot, panel_dispatch, course, first_waiting, last_panel,
}
use displayfab_smart_factory.Validation.Guards.{last_step, latest_event}
use displayfab_smart_factory.Line.{ordered}
use displayfab_smart_factory.Line.Kept.{IsKept, Unchanged-IsKept}
use displayfab_smart_factory.Line.Arrivals.{create_and_release-IsKept}
use displayfab_smart_factory.Maintenance.{ResetOut, reset_demo_data}
use displayfab_smart_factory.Maintenance.Reset.{
  IsReset, reset_demo_data-IsReset, reset_demo_data-reset_demo_data,
}
use displayfab_smart_factory.LineRunner.{
  Round, RunOut, RunResult, Job, conditions_of, is_ok, results_of, next_move, finish, wake_all,
  run_rounds, run_released, run_work_order,
}
use displayfab_smart_factory.LineRunner.Runs.{Ran, run_work_order-Ran}
use displayfab_smart_factory.LineRunner.Ends.{IsOver, run_work_order-IsOver}
use displayfab_smart_factory.LineRunner.Limits.{run_work_order-IfOk}
use displayfab_smart_factory.Demo.{Stage}
use displayfab_smart_factory.Scenarios.{Show, run_scenario}
use displayfab_smart_factory.Scenarios.Runs.{Ended, run_scenario-IsKept}
use displayfab_smart_factory.Replay.{
  RawOps, ReplayCall, ReplayIn, Replayed, replayed, replay_events,
}
use displayfab_smart_factory.Replay.Counts.{replay_events-IsKept}
use displayfab_smart_factory.Pilot.{PilotSettings, Jobs, started, ticks, autopilot}
use displayfab_smart_factory.Pilot.Schedule.{ticks-resets}
use displayfab_smart_factory.Pilot.Alive.{autopilot-IsKept}
use displayfab_smart_factory.Samples.{lab, small_line, line_with_recipe, load_event}
use displayfab_smart_factory.Witnesses.{small_line-IsKept}

reset_demo_data-IsReset_example :
    (out : ResetOut) × (db' : Db ℕ) × (reset_demo_data lab.float small_line ≡ some (out, db'))
    × IsReset small_line db'
reset_demo_data-IsReset_example = reset_demo_data-IsReset lab.float small_line

abbrev first_reset :
    (out : ResetOut) × (db' : Db ℕ) × (reset_demo_data lab.float small_line ≡ some (out, db'))
    × IsReset small_line db'
first_reset = reset_demo_data-IsReset lab.float small_line

reset_demo_data-reset_demo_data_example :
    (again : ResetOut) × (reset_demo_data lab.float first_reset.1 ≡ some (again, first_reset.1))
reset_demo_data-reset_demo_data_example =
    reset_demo_data-reset_demo_data lab.float small_line first_reset.1 first_reset.0 first_reset.2

abbrev uuids : String → Uuids
uuids id = record { request_id = "r"; event_id = "e"; start_id = "s"; select_id = "c" }

abbrev rounds : ℕ → Round ℕ
rounds i = record {
  ready = lab;
  uuid4 = uuids;
  stamp = 1000000000;
  env = lab;
  request_id = "r";
  event_id = "e";
}

abbrev with_order : Db ℕ
with_order = ordered small_line (create_and_release lab "OLED" none 1 small_line)

run_work_order-Ran_example :
    Ran 80 (run_work_order lab uuids rounds "WO-20260101-001" "PASS" with_order)
run_work_order-Ran_example =
    run_work_order-Ran lab uuids rounds "WO-20260101-001" "PASS" with_order
      (create_and_release-IsKept lab "OLED" none 1 small_line small_line-IsKept)

-- a line without machines, whose only order has its glass COMPLETE
abbrev done_order : WorkOrder
done_order = record {
  id = "WO-1";
  product_type = "OLED";
  recipe_id = "RCP-OLED-A01";
  qty = 1;
  status = WorkOrderStatus.done;
  lot_id = some "LOT-1";
  cassette_id = some "CST-1";
  created_at = 1;
}

abbrev done_glass : Panel
done_glass = record { id = "PNL-1"; lot_id = "LOT-1"; slot_no = 1; status = PanelStatus.complete }

abbrev done_line : Db ℕ
done_line = record small_line {
  equipment = [];
  panels = done_glass ∷ [];
  work_orders = done_order ∷ [];
}

abbrev done_run : Option (RunOut × Db ℕ)
done_run = run_work_order lab uuids rounds "WO-1" "PASS" done_line

done_line-IsKept : IsKept done_line
unfolding get_panel get_lot find_first any_of all_of String-discrete
done_line-IsKept = record {
  sound = record { traced = λ i p s b _ _ h. absurd (cc); distinct = tt };
  complete = record { keyed = λ i p h. ground arith; finished = λ i l h c. absurd (ground arith) };
  linked = record { lots = refl; glass = refl; named = refl };
}

abbrev done_job : Job ℕ
done_job = record {
  order = done_order;
  lot_id = "LOT-1";
  inspect_result = "PASS";
  conditions = conditions_of lab.float none;
}

done_run-finish : done_run ≡ finish done_job (rounds 0) [] done_line
unfolding run_work_order run_released get_work_order get_recipe find_first String-discrete
    prepare_line prepare_all prepare_equipment get_equipment run_rounds next_move get_lot
    LotStatus-discrete lot_dispatch by_slot insert_slot select PanelStatus-discrete panel_dispatch
    course first_waiting last_panel last_step latest_event
done_run-finish = refl

finish-is_ok :
    (job : Job ℕ) (round : Round ℕ) (results : List RunResult) (db db' : Db ℕ) (out : RunOut)
    → finish job round results db ≡ some (out, db')
    → is_ok out ≡ true
unfolding finish
finish-is_ok job round results db db' out h =
    elim (Option-cases (wake_all round.ready round.uuid4 line_equipment db)) [
      | inl n ↦ absurd (ground arith)
      | inr (d, n) ↦ ground arith
    ]

abbrev ran : Ran 80 done_run
ran = run_work_order-Ran lab uuids rounds "WO-1" "PASS" done_line done_line-IsKept

ran_ok : is_ok ran.out ≡ true
ran_ok =
    finish-is_ok done_job (rounds 0) [] done_line ran.db ran.out (sym done_run-finish ∙ ran.answer)

run_work_order-IsOver_example : IsOver "LOT-1" ran.db
unfolding get_work_order find_first String-discrete
run_work_order-IsOver_example =
    run_work_order-IsOver lab uuids rounds "WO-1" "PASS" "LOT-1" done_order done_line ran.db ran.out
      refl refl ran.answer ran_ok

run_work_order-IfOk_example : length (results_of ran.out) ≤ 6
run_work_order-IfOk_example =
    run_work_order-IfOk lab uuids rounds 5 "WO-1" "PASS" done_line ran.db ran.out
      (λ i. (omega arith, omega arith)) ran.answer ran_ok

abbrev stage : Stage ℕ
stage = record {
  env = lab;
  uuid4 = uuids;
  release_env = lab;
  run_env = lab;
  run_uuid4 = uuids;
  rounds = rounds;
}

abbrev show : ℕ → Show ℕ
show n = record {
  stage = stage;
  offline_env = lab;
  calls = λ i. record { stamp = 1000000000; env = lab; request_id = "r"; event_id = "e" };
  command_env = λ i. lab;
  command_id = λ i. "c";
}

line_with_recipe-IsKept : IsKept line_with_recipe
line_with_recipe-IsKept =
    Unchanged-IsKept small_line line_with_recipe
      (record { lots = refl; panels = refl; process_events = refl }) small_line-IsKept

run_scenario-IsKept_example : Ended lab (run_scenario (show 0) "demo_oled_pass" line_with_recipe)
run_scenario-IsKept_example =
    run_scenario-IsKept (show 0) "demo_oled_pass" line_with_recipe line_with_recipe-IsKept

abbrev pilot_settings : PilotSettings
pilot_settings = record {
  demo_heartbeat_sec = 6;
  demo_run_interval_sec = 30;
  demo_reset_minutes = 60;
}

autopilot-IsKept_example :
    (log : List WorkOrderError) × (db' : Db ℕ) × (autopilot pilot_settings show show 700 0 started
        line_with_recipe
      ≡ some (log, db'))
    × IsKept db'
autopilot-IsKept_example =
    autopilot-IsKept pilot_settings show show 700 0 started line_with_recipe line_with_recipe-IsKept

ticks-resets_example : any_of (λ (j : Jobs). j.resets) (ticks pilot_settings 600 started) ≡ true
ticks-resets_example = ticks-resets pilot_settings 599 started (omega arith)

abbrev own_events : RawOps (EquipmentEventIn ℕ) ℕ
own_events = record {
  with_lot_id = λ id e. record e { lot_id = some id };
  with_panel_id = λ id e. record e { panel_id = some id };
  with_timestamp = λ t e. record e { timestamp = Datetime.naive t };
  lot_id = λ e. e.lot_id;
  panel_id = λ e. e.panel_id;
  parse = λ e. some (record e { timestamp = Datetime.naive (utc_of e.timestamp) });
}

abbrev as_given : ReplayIn
as_given = record { refresh_timestamps = true; lot_id = none; panel_id = none }

abbrev replay_calls : ℕ → ReplayCall ℕ
replay_calls i = record { stamp = 1000000000; env = lab; request_id = "r"; event_id = "e" }

replay_events-IsKept_example :
    (out : Replayed) × (db' : Db ℕ) × (replay_events own_events as_given replay_calls
        (load_event ∷ load_event ∷ [])
        small_line
      ≡ some (replayed out, db'))
    × (out.count ≡ 2)
    × (out.accepted + out.rejected ≡ out.count)
    × IsKept db'
unfolding as_naive_utc
replay_events-IsKept_example =
    replay_events-IsKept own_events as_given replay_calls (λ r. (_, refl, refl)) load_event
      (load_event ∷ []) small_line small_line-IsKept
