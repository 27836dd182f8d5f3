-- ===== src/Scenarios.antt =====
-- backend/app/services/scenarios.py: the scripts of the lab. Titles and explanations are left out.
-- The scripts that the source writes out as code stand here as lists of tasks, which `run_tasks` goes
-- through: the i-th report of a script is stamped i seconds ahead.
pub mod Scripts
pub mod Runs
use displayfab_smart_factory.Prelude.{
  ℕ, zero, suc, ◌+◌, ◌-◌, String, Option, none, some, Bool, true, false, ◌&&◌, not, List, [], ◌∷◌,
  map, contains, is_some, get_or, select, ◌==◌, string_eq, if◌then◌else◌,
}
use displayfab_smart_factory.Enums.{
  AlarmCode, CommandType, EquipmentStatus, EventType, LotStatus, PanelStatus, panel_status_eq,
}
use displayfab_smart_factory.Numerals.{strip_prefix}
use displayfab_smart_factory.Models.{Alarm, Lot, Panel, WorkOrder, Db}
use displayfab_smart_factory.Models.Tables.{get_equipment, get_lot, set_equipment}
use displayfab_smart_factory.Schemas.{EquipmentEventIn, CommandIn, Datetime}
use displayfab_smart_factory.Env.{FloatOps, Env, seconds}
use displayfab_smart_factory.Ingestion.Steps.{Outcome}
use displayfab_smart_factory.Ingestion.{collect_push}
use displayfab_smart_factory.Commands.{execute_command}
use displayfab_smart_factory.Offline.{mark_offline_equipment}
use displayfab_smart_factory.Dispatch.{by_slot}
use displayfab_smart_factory.WorkOrders.{WorkOrderError, created, refused, create_and_release}
use displayfab_smart_factory.HostPrep.{order, line_equipment, prepare_line}
use displayfab_smart_factory.Demo.{
  DemoRun, Stage, Attempt, returned, raised, crashed, attempt_of, run_demo,
}
use Scripts.{Step, Task, report, pick_recipe, Script, script_of, mismatch_tasks}

-- one call of `_ingest`: the clock when the event is written, and while it is ingested
pub record Call (F : Type 0) : Type 0 where
  pub stamp : ℕ
  pub env : Env F
  pub request_id : String
  pub event_id : String

pub record Ingested : Type 0 where
  pub accepted : Bool
  pub reason : Option String
  pub lot_status : Option LotStatus
  pub event_id : String
  pub alarms : List AlarmCode
  pub equipment_id : String
  pub process_step : Option String

pub record Mismatch : Type 0 where
  pub order : WorkOrder
  pub panel_ids : List String
  pub lot : Option Lot
  pub results : List Ingested

-- The answer of a scenario; `ok` is false in the first four cases.
pub data ScenarioOut : Type 0 where
  unknown not_implemented no_equipment no_glass : ScenarioOut
  demo : DemoRun → ScenarioOut
  comm_loss : List String → ScenarioOut
  alive : ScenarioOut
  mismatch : Mismatch → ScenarioOut
  heartbeats : List Ingested → ScenarioOut
  glass_ran : String → List Ingested → ScenarioOut

abbrev pub catalog : List String
catalog =
    "demo_oled_pass" ∷ "demo_oled_fail" ∷ "demo_lcd_pass" ∷ "demo_comm_loss" ∷ "demo_alive"
    ∷ "demo_recipe_mismatch" ∷ "oled_happy" ∷ "lcd_happy" ∷ "lcd_into_oled_evap"
    ∷ "oled_recipe_mismatch" ∷ "oled_skip_encap" ∷ "oled_inspect_fail" ∷ "heartbeat" ∷ []

-- what a scenario takes from outside
pub record Show (F : Type 0) : Type 0 where
  pub stage : Stage F
  pub offline_env : Env F
  pub calls : ℕ → Call F
  -- the clock and the uuid of a command of a script, by the number of reports before it
  pub command_env : ℕ → Env F
  pub command_id : ℕ → String

module _ {F : Type 0} where
  unfoldable pub wait_panel : String → Db F → Option Panel
  wait_panel lot_id db =
      elim (by_slot (select (λ p. p.lot_id == lot_id && p.status == PanelStatus.wait) db.panels)) [
        | [] ↦ none
        | p ∷ rest ↦ some p
      ]

  unfoldable pub ingest : Call F → EquipmentEventIn F → Db F → Option (Ingested × Db F)
  ingest call payload db = elim (collect_push call.env payload call.request_id call.event_id db) [
    | none ↦ none
    | some (o, db') ↦ some (
      record {
        accepted = o.accepted;
        reason = o.reason;
        lot_status = o.lot_status;
        event_id = call.event_id;
        alarms = map (λ (a : Alarm). a.alarm_code) o.alarms;
        equipment_id = payload.equipment_id;
        process_step = payload.process_step;
      },
      db',
    )
  ]

  -- `_process`, stamped so many seconds ahead
  abbrev pub process : Call F → ℕ → String → String → Step F → EquipmentEventIn F
  process call offset lot_id panel_id step = record {
    equipment_id = step.equipment_id;
    event_type = EventType.process;
    lot_id = some lot_id;
    panel_id = some panel_id;
    process_step = some step.process_step;
    recipe_id = some step.recipe_id;
    equipment_status = EquipmentStatus.run;
    chamber_temperature = some step.chamber_temperature;
    vacuum_pressure = some step.vacuum_pressure;
    cycle_time_sec = step.cycle_time_sec;
    timestamp = Datetime.naive (call.stamp + seconds offset);
    inspect_result = step.inspect_result;
    force_db_failure = false;
  }

  abbrev pub idle_heartbeat : Call F → String → EquipmentEventIn F
  idle_heartbeat call equipment_id = record {
    equipment_id = equipment_id;
    event_type = EventType.heartbeat;
    lot_id = none;
    panel_id = none;
    process_step = none;
    recipe_id = none;
    equipment_status = EquipmentStatus.idle;
    chamber_temperature = none;
    vacuum_pressure = none;
    cycle_time_sec = none;
    timestamp = Datetime.naive (call.stamp + seconds 0);
    inspect_result = none;
    force_db_failure = false;
  }

  -- the tasks of a script on one glass; `i` counts the reports
  unfoldable pub run_tasks :
      Show F → String → String → ℕ → List (Task F) → Db F → Option (List Ingested × Db F)
  run_tasks s lot_id panel_id i [] db = some ([], db)
  run_tasks s lot_id panel_id i (report step ∷ rest) db =
      elim (ingest (s.calls i) (process (s.calls i) i lot_id panel_id step) db) [
        | none ↦ none
        | some (row, db') ↦ elim (run_tasks s lot_id panel_id (suc i) rest db') [
          | none ↦ none
          | some (rows, db'') ↦ some (row ∷ rows, db'')
        ]
      ]
  run_tasks s lot_id panel_id i (pick_recipe equipment_id recipe_id ∷ rest) db =
      run_tasks s lot_id panel_id i rest
        (execute_command (s.command_env i) (s.command_id i)
          (order CommandType.select_recipe equipment_id (some recipe_id)) db).1

  unfoldable pub run_heartbeats : Show F → ℕ → List String → Db F → Option (List Ingested × Db F)
  run_heartbeats s i [] db = some ([], db)
  run_heartbeats s i (id ∷ rest) db = elim (ingest (s.calls i) (idle_heartbeat (s.calls i) id) db) [
    | none ↦ none
    | some (row, db') ↦ elim (run_heartbeats s (suc i) rest db') [
      | none ↦ none
      | some (rows, db'') ↦ some (row ∷ rows, db'')
    ]
  ]

  abbrev pub demo_of : Attempt DemoRun F → Attempt ScenarioOut F
  demo_of (returned out db) = returned (demo out) db
  demo_of (raised e db) = raised e db
  demo_of crashed = crashed

  unfoldable pub demo_comm_loss : Show F → Db F → Option (ScenarioOut × Db F)
  demo_comm_loss s db = elim (prepare_line s.stage.env s.stage.uuid4 "RCP-OLED-A01" db) [
    | none ↦ none
    | some db1 ↦
        if is_some (get_equipment "PROC-01" db1)
        then (let (changed, db2) = mark_offline_equipment s.offline_env (
              set_equipment "PROC-01"
                (λ row. record row { last_seen_at = some (s.stage.release_env.now - seconds 30) })
                db1) in
            some (comm_loss changed, db2))
        else some (no_equipment, db1)
  ]

  unfoldable pub demo_alive : Show F → Db F → Option (ScenarioOut × Db F)
  demo_alive s db = elim (prepare_line s.stage.env s.stage.uuid4 "RCP-OLED-A01" db) [
    | none ↦ none
    | some db' ↦ some (alive, db')
  ]

  -- `_demo_recipe_mismatch` behind the release of its order
  unfoldable pub run_mismatch : Show F → WorkOrder → List Panel → Db F → Option (ScenarioOut × Db F)
  run_mismatch s row panels db = elim (map (λ (p : Panel). p.id) panels) [
    | [] ↦ none
    | panel_id ∷ rest ↦
        elim (run_tasks s (get_or row.lot_id "") panel_id 0 (mismatch_tasks s.stage.env.float) db) [
          | none ↦ none
          | some (rows, db') ↦ some (
            mismatch (record {
              order = row;
              panel_ids = panel_id ∷ rest;
              lot = get_lot (get_or row.lot_id "") db';
              results = rows;
            }),
            db',
          )
        ]
  ]

  unfoldable pub demo_recipe_mismatch : Show F → Db F → Attempt ScenarioOut F
  demo_recipe_mismatch s db = elim (prepare_line s.stage.env s.stage.uuid4 "RCP-OLED-A01" db) [
    | none ↦ crashed
    | some db1 ↦ elim (create_and_release s.stage.release_env "OLED" (some "RCP-OLED-A01") 1 db1) [
      | refused e ↦ raised e db1
      | created ((row, panels), db2) ↦ attempt_of (run_mismatch s row panels db2)
    ]
  ]

  unfoldable pub run_script : Show F → Option (Script F) → Db F → Option (ScenarioOut × Db F)
  run_script s none db = some (not_implemented, db)
  run_script s (some script) db = elim (wait_panel script.lot_id db) [
    | none ↦ some (no_glass, db)
    | some panel ↦ elim (run_tasks s panel.lot_id panel.id 0 script.tasks db) [
      | none ↦ none
      | some (rows, db') ↦ some (glass_ran panel.id rows, db')
    ]
  ]

  -- `run_scenario` behind the branches that return early
  unfoldable pub run_glass : Show F → String → Db F → Option (ScenarioOut × Db F)
  run_glass s scenario_id db =
      elim (prepare_line s.stage.env s.stage.uuid4
        (if is_some (strip_prefix "lcd" scenario_id) then "RCP-LCD-C01" else "RCP-OLED-A01") db) [
          | none ↦ none
          | some db' ↦ run_script s (script_of s.stage.env.float scenario_id) db'
        ]

  unfoldable pub run_beats : Show F → Db F → Option (ScenarioOut × Db F)
  run_beats s db = elim (run_heartbeats s 0 line_equipment db) [
    | none ↦ none
    | some (rows, db') ↦ some (heartbeats rows, db')
  ]

  unfoldable pub run_scenario : Show F → String → Db F → Attempt ScenarioOut F
  run_scenario s scenario_id db =
      if not (contains catalog scenario_id)
      then returned unknown db
      else if scenario_id == "demo_oled_pass"
      then demo_of (run_demo s.stage "OLED" "RCP-OLED-A01" "PASS" db)
      else if scenario_id == "demo_oled_fail"
      then demo_of (run_demo s.stage "OLED" "RCP-OLED-A01" "FAIL" db)
      else if scenario_id == "demo_lcd_pass"
      then demo_of (run_demo s.stage "LCD" "RCP-LCD-C01" "PASS" db)
      else if scenario_id == "demo_comm_loss"
      then attempt_of (demo_comm_loss s db)
      else if scenario_id == "demo_alive"
      then attempt_of (demo_alive s db)
      else if scenario_id == "demo_recipe_mismatch"
      then demo_recipe_mismatch s db
      else if scenario_id == "heartbeat"
      then attempt_of (run_beats s db)
      else attempt_of (run_glass s scenario_id db)
