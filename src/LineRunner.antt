-- ===== src/LineRunner.antt =====
-- backend/app/services/line_runner.py: an order is run through the line, glass by glass and step by
-- step. What one round of the loop takes from outside stands in a `Round`: the clock while it makes
-- the equipment ready, while it writes the report, and while the report is ingested, and the uuids.
pub mod Runs
pub mod Ends
pub mod Limits
use displayfab_smart_factory.Prelude.{
  ℕ, zero, suc, ◌+◌, ◌*◌, String, Option, none, some, Bool, true, false, ◌||◌, not, List, [], ◌∷◌,
  ◌++◌, map, map_option, truthy, get_or, lookup, ◌==◌, string_eq, if◌then◌else◌,
}
use displayfab_smart_factory.Enums.{
  AlarmCode, EquipmentStatus, EventType, LotStatus, ProcessStep, step_value, WorkOrderStatus,
  lot_status_eq,
}
use displayfab_smart_factory.Rules.{ideal_cycle_table}
use displayfab_smart_factory.Models.{Alarm, Recipe, WorkOrder, Db}
use displayfab_smart_factory.Models.Tables.{get_lot, get_recipe, get_work_order}
use displayfab_smart_factory.Schemas.{EquipmentEventIn, Datetime}
use displayfab_smart_factory.Env.{FloatOps, Env, seconds}
use displayfab_smart_factory.Ingestion.Steps.{Outcome}
use displayfab_smart_factory.Ingestion.{collect_push}
use displayfab_smart_factory.Dispatch.{DispatchOut, lot_dispatch}
use displayfab_smart_factory.HostPrep.{
  Uuids, wake_equipment, prepare_equipment, prepare_line, recipe_step, line_equipment,
}

pub record Round (F : Type 0) : Type 0 where
  pub ready : Env F
  pub uuid4 : String → Uuids
  -- `utcnow()` when the report is written
  pub stamp : ℕ
  pub env : Env F
  pub request_id : String
  pub event_id : String

pub record RunResult : Type 0 where
  pub accepted : Bool
  pub reason : Option String
  pub lot_status : Option LotStatus
  pub panel_id : String
  pub process_step : Option String
  pub equipment_id : String
  pub alarms : List AlarmCode

-- The answer: `ok` is true in the first case only, the others are told apart by their `error`.
pub data RunOut : Type 0 where
  finished : Option WorkOrderStatus → List RunResult → RunOut
  no_order not_released : RunOut
  no_lot : List RunResult → RunOut
  lot_held : Option String → List RunResult → RunOut
  rejected : Option String → List RunResult → RunOut
  step_limit : List RunResult → RunOut

abbrev pub is_ok : RunOut → Bool
is_ok (finished status results) = true
is_ok _ = false

abbrev pub results_of : RunOut → List RunResult
results_of (finished status results) = results
results_of no_order = []
results_of not_released = []
results_of (no_lot results) = results
results_of (lot_held reason results) = results
results_of (rejected reason results) = results
results_of (step_limit results) = results

abbrev pub status_of_order : Option WorkOrder → Option WorkOrderStatus
status_of_order none = none
status_of_order (some order) = some order.status

-- what the lot asks of the next round
pub data Move : Type 0 where
  lost : Move
  stop_on : Option String → Move
  at_end : Move
  go : DispatchOut → Move

-- the conditions that the recipe asks for
pub record Conditions (F : Type 0) : Type 0 where
  pub temperature : F
  pub pressure : F

pub record Job (F : Type 0) : Type 0 where
  pub order : WorkOrder
  pub lot_id : String
  pub inspect_result : String
  pub conditions : Conditions F

abbrev pub result_row : DispatchOut → Outcome → RunResult
result_row info outcome = record {
  accepted = outcome.accepted;
  reason = outcome.reason;
  lot_status = outcome.lot_status;
  panel_id = info.panel_id;
  process_step = info.next_step;
  equipment_id = get_or info.next_equipment_id "";
  alarms = map (λ (a : Alarm). a.alarm_code) outcome.alarms;
}

module _ {F : Type 0} where
  unfoldable pub conditions_of : FloatOps F → Option (Recipe F) → Conditions F
  conditions_of float none = record {
    temperature = float.literal 1184 1;
    pressure = float.literal 41 4;
  }
  conditions_of float (some recipe) = record {
    temperature =
        float.round
          (float.div (float.add recipe.expected_temperature_min recipe.expected_temperature_max)
            (float.literal 2 0))
          2;
    pressure =
        float.round
          (float.div (float.add recipe.expected_pressure_min recipe.expected_pressure_max)
            (float.literal 2 0))
          5;
  }

  -- `CYCLE.get(step)`
  abbrev pub cycle_time : FloatOps F → Option String → Option F
  cycle_time float step =
      map_option (λ n. float.literal (n * 10) 1)
        (get_or (lookup (get_or step "") ideal_cycle_table) none)

  unfoldable pub next_move : String → Db F → Move
  next_move lot_id db = elim (get_lot lot_id db) [
    | none ↦ lost
    | some lot ↦
        if lot.status == LotStatus.hold
        then stop_on lot.hold_reason
        else elim (lot_dispatch lot db) [
          | none ↦ at_end
          | some info ↦ if info.done || not (truthy info.next_step) then at_end else go info
        ]
  ]

  -- the report of round `i`
  unfoldable pub step_report : Job F → Round F → ℕ → DispatchOut → String → EquipmentEventIn F
  step_report job round i info equipment_id = record {
    equipment_id = equipment_id;
    event_type = EventType.process;
    lot_id = some info.lot_id;
    panel_id = some info.panel_id;
    process_step = info.next_step;
    recipe_id = some job.order.recipe_id;
    equipment_status = EquipmentStatus.run;
    chamber_temperature = some job.conditions.temperature;
    vacuum_pressure = some job.conditions.pressure;
    cycle_time_sec = cycle_time round.env.float info.next_step;
    timestamp = Datetime.naive (round.stamp + seconds i);
    inspect_result =
        if get_or info.next_step "" == step_value ProcessStep.inspect
        then some job.inspect_result
        else none;
    force_db_failure = false;
  }

  -- `none` where the request is no valid event, as it names no equipment
  unfoldable pub do_step : Job F → Round F → ℕ → DispatchOut → Db F → Option (Outcome × Db F)
  do_step job round i info db = elim info.next_equipment_id [
    | none ↦ none
    | some equipment_id ↦
        elim (prepare_equipment round.ready (round.uuid4 equipment_id) equipment_id
          (if recipe_step info.next_step then some job.order.recipe_id else none) db) [
            | none ↦ none
            | some db' ↦
                collect_push round.env (step_report job round i info equipment_id) round.request_id
                  round.event_id db'
          ]
  ]

  unfoldable pub wake_all : Env F → (String → Uuids) → List String → Db F → Option (Db F)
  wake_all env uuid4 [] db = some db
  wake_all env uuid4 (id ∷ rest) db = elim (wake_equipment env (uuid4 id) id db) [
    | none ↦ none
    | some db' ↦ wake_all env uuid4 rest db'
  ]

  unfoldable pub finish : Job F → Round F → List RunResult → Db F → Option (RunOut × Db F)
  finish job round results db = elim (wake_all round.ready round.uuid4 line_equipment db) [
    | none ↦ none
    | some db' ↦ some (finished (status_of_order (get_work_order job.order.id db)) results, db')
  ]

  -- the loop, from round `i` on, with so many rounds left
  unfoldable pub run_rounds :
      Job F → (ℕ → Round F) → ℕ → ℕ → List RunResult → Db F → Option (RunOut × Db F)
  run_rounds job rounds zero i results db = some (step_limit results, db)
  run_rounds job rounds (suc left) i results db = elim (next_move job.lot_id db) [
    | lost ↦ some (no_lot results, db)
    | stop_on reason ↦ some (lot_held reason results, db)
    | at_end ↦ finish job (rounds i) results db
    | go info ↦ elim (do_step job (rounds i) i info db) [
      | none ↦ none
      | some (outcome, db') ↦ elim outcome.accepted [
        | true ↦ run_rounds job rounds left (suc i) (results ++ result_row info outcome ∷ []) db'
        | false ↦ some (rejected outcome.reason (results ++ result_row info outcome ∷ []), db')
      ]
    ]
  ]

  unfoldable pub run_released :
      Env F
      → (String → Uuids)
      → (ℕ → Round F)
      → String
      → WorkOrder
      → String
      → Db F
      → Option (RunOut × Db F)
  run_released env uuid4 rounds inspect_result order lot_id db =
      elim (prepare_line env uuid4 order.recipe_id db) [
        | none ↦ none
        | some db' ↦
            run_rounds
              (record {
                order = order;
                lot_id = lot_id;
                inspect_result = inspect_result;
                conditions = conditions_of env.float (get_recipe order.recipe_id db);
              })
              rounds 80 0 [] db'
      ]

  unfoldable pub run_work_order :
      Env F → (String → Uuids) → (ℕ → Round F) → String → String → Db F → Option (RunOut × Db F)
  run_work_order env uuid4 rounds work_order_id inspect_result db =
      elim (get_work_order work_order_id db) [
        | none ↦ some (no_order, db)
        | some order ↦
            if truthy order.lot_id
            then run_released env uuid4 rounds inspect_result order (get_or order.lot_id "") db
            else some (not_released, db)
      ]
