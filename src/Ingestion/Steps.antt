-- ===== src/Ingestion/Steps.antt =====
-- The parts of `ingest_event`, in the order in which it goes through them.
use displayfab_smart_factory.Prelude.{
  ℕ, suc, String, Option, none, some, Bool, true, ◌&&◌, List, [], ◌∷◌, ◌++◌, truthy, is_some, ◌==◌,
  ◌/=◌, string_eq, option_string_eq, nat_eq, if◌then◌else◌,
}
use Prim.Native.String.{◌++◌ as append}
use displayfab_smart_factory.Enums.{
  AlarmCode, AlarmSeverity, ConnectionStatus, EquipmentStatus, LotStatus, ProcessStep, EventType,
  InspectResult, DowntimeReason, alarm_code_value, step_value, inspect_value, equipment_status_eq,
  lot_status_eq, panel_status_eq,
}
use displayfab_smart_factory.Models.{Equipment, Lot, Panel, ProcessEvent, Alarm, Change, Db}
use displayfab_smart_factory.Models.Tables.{get_equipment, get_recipe, set_equipment}
use displayfab_smart_factory.Schemas.{EquipmentEventIn, utc_of}
use displayfab_smart_factory.Env.{Env}
use displayfab_smart_factory.Fingerprint.{event_fingerprint}
use displayfab_smart_factory.Alarms.{AlarmRequest, create_alarm, resolve_open_alarms}
use displayfab_smart_factory.Downtime.{close_downtime}
use displayfab_smart_factory.Journal.{record_state_change, write_event_log}
use displayfab_smart_factory.Validation.Guards.{CheckResult}

pub record Outcome : Type 0 where
  pub accepted : Bool
  pub reason : Option String
  pub alarms : List Alarm
  pub lot_status : Option LotStatus

-- the rows that a PROCESS event names, as they are before it, with its normalised step
pub record Target : Type 0 where
  pub equipment : Equipment
  pub lot : Lot
  pub panel : Panel
  pub step : String

-- `hold` and `hold_reason` after the loop over the checks: the last one that holds gives the reason
unfoldable pub hold_from : Option String → List CheckResult → Option String
hold_from reason [] = reason
hold_from reason (c ∷ rest) =
    hold_from (if c.hold_lot then some (alarm_code_value c.code) else reason) rest

-- `hold_reason` after the inspection is looked at too
unfoldable pub hold_of : Bool → List CheckResult → Option String
unfolding hold_from
hold_of inspect_fail checks =
    if inspect_fail then some (alarm_code_value AlarmCode.inspect_fail) else hold_from none checks

abbrev pub target_alarm : Target → String → AlarmCode → Option AlarmSeverity → AlarmRequest
target_alarm t event_id code severity = record {
  code = code;
  equipment_id = some t.equipment.id;
  lot_id = some t.lot.id;
  panel_id = some t.panel.id;
  event_id = some event_id;
  severity = severity;
}

abbrev pub seen : ℕ → Equipment → Equipment
seen now row = record row { connection_status = ConnectionStatus.online; last_seen_at = some now }

module _ {F : Type 0} where
  abbrev pub event_alarm :
      EquipmentEventIn F → String → AlarmCode → Option String → Option AlarmSeverity → AlarmRequest
  event_alarm payload event_id code equipment_id severity = record {
    code = code;
    equipment_id = equipment_id;
    lot_id = payload.lot_id;
    panel_id = payload.panel_id;
    event_id = some event_id;
    severity = severity;
  }

  -- any event of a known equipment shows that it is connected
  unfoldable pub mark_seen : Env F → EquipmentEventIn F → Db F → Db F
  mark_seen env payload db = elim (get_equipment payload.equipment_id db) [
    | none ↦ db
    | some eq ↦ close_downtime env eq.id (DowntimeReason.communication_loss ∷ []) (
        resolve_open_alarms env eq.id AlarmCode.communication_loss
          (set_equipment eq.id (seen env.now) db))
  ]

  -- Only a reported IDLE is taken over.
  unfoldable pub heartbeat_received :
      Env F → EquipmentEventIn F → String → String → Equipment → Db F → Db F
  heartbeat_received env payload request_id event_id eq db =
      let status =
        if payload.equipment_status == EquipmentStatus.idle
        then EquipmentStatus.idle
        else eq.equipment_status in
      write_event_log env event_id request_id payload true none (
        record_state_change env eq.id (Change.equipment_change eq.equipment_status status)
          "heartbeat" (some event_id)
          (set_equipment eq.id (λ row. record row { equipment_status = status }) db))

  abbrev known_recipe : Option String → Db F → Option String
  known_recipe none db = none
  known_recipe (some recipe_id) db =
      if recipe_id /= "" && is_some (get_recipe recipe_id db) then some recipe_id else none

  abbrev pub event_row :
      Env F → EquipmentEventIn F → String → String → Target → Db F → ProcessEvent F
  event_row env payload request_id event_id t db = record {
    id = db.serial;
    event_id = event_id;
    request_id = request_id;
    event_type = EventType.process;
    fingerprint = event_fingerprint env payload;
    equipment_id = t.equipment.id;
    lot_id = t.lot.id;
    panel_id = t.panel.id;
    recipe_id = known_recipe payload.recipe_id db;
    process_step = t.step;
    equipment_status = payload.equipment_status;
    cycle_time_sec = payload.cycle_time_sec;
    event_timestamp = utc_of payload.timestamp;
    received_at = env.now;
    inspect_result = payload.inspect_result;
  }

  -- the PROCESS row and its sensor reading
  unfoldable pub store_event : Env F → EquipmentEventIn F → String → String → Target → Db F → Db F
  store_event env payload request_id event_id t db = record db {
    process_events = db.process_events ++ event_row env payload request_id event_id t db ∷ [];
    sensor_readings =
        db.sensor_readings
        ++ record {
          process_event_id = db.serial;
          equipment_id = t.equipment.id;
          chamber_temperature = payload.chamber_temperature;
          vacuum_pressure = payload.vacuum_pressure;
          recorded_at = utc_of payload.timestamp;
        }
          ∷ [];
    serial = suc db.serial;
  }

  abbrev reported_recipe : EquipmentEventIn F → Lot → Option String
  reported_recipe payload lot =
      if truthy payload.recipe_id then payload.recipe_id else some lot.expected_recipe_id

  -- the equipment takes over the reported status, the lot and the recipe
  unfoldable pub occupy : Env F → EquipmentEventIn F → String → Target → Db F → Db F
  occupy env payload event_id t db =
      record_state_change env t.equipment.id
        (Change.equipment_change t.equipment.equipment_status payload.equipment_status)
        (append "process " t.step) (some event_id)
        (set_equipment t.equipment.id
          (λ row. record row {
            equipment_status = payload.equipment_status;
            current_lot_id = some t.lot.id;
            current_recipe_id = reported_recipe payload t.lot;
          })
          db)

  -- one alarm for each check
  unfoldable pub raise_checks :
      Env F → String → Target → List CheckResult → Db F → List Alarm × Db F
  raise_checks env event_id t [] db = ([], db)
  raise_checks env event_id t (c ∷ rest) db =
      let (alarm, db') = create_alarm env (target_alarm t event_id c.code c.severity) db in
      let (alarms, db'') = raise_checks env event_id t rest db' in (alarm ∷ alarms, db'')

  unfoldable pub is_inspect_fail : EquipmentEventIn F → String → Bool
  is_inspect_fail payload step =
      step == step_value ProcessStep.inspect
      && payload.inspect_result == some (inspect_value InspectResult.fail)

  unfoldable pub raise_inspect_fail : Env F → String → Target → Bool → Db F → List Alarm × Db F
  raise_inspect_fail env event_id t inspect_fail db =
      let (alarm, db') =
        create_alarm env (target_alarm t event_id AlarmCode.inspect_fail none) db in
      if inspect_fail then (alarm ∷ [], db') else ([], db)
