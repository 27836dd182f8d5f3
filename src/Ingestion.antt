-- ===== src/Ingestion.antt =====
-- backend/app/services/event_ingestion.py and collector.py: what an event does to the database. Each
-- handler ends in one commit, so a handler is one step from database to database; `none` is the
-- `OverflowError` of a timestamp, or the `AssertionError` of a row that is missing behind the
-- validation; the request then ends with nothing committed. Log lines and what is published
-- on the event bus are left out.
pub mod Dispatched
pub mod Steps
pub mod Settle
pub mod Frames
pub mod Acceptance
pub mod Answers
pub mod Audit
pub mod Rejection
pub mod Presence
pub mod Growth
pub mod History
pub mod Traceability
pub mod Completion
pub mod Maintenance
use displayfab_smart_factory.Prelude.{
  String, Option, none, some, Bool, true, false, List, [], ◌∷◌, ◌++◌, truthy, get_or, is_some, not,
  ◌&&◌, if◌then◌else◌,
}
use displayfab_smart_factory.Enums.{AlarmCode, LotStatus, EventType, alarm_code_value}
use displayfab_smart_factory.Rules.{normalize_step}
use displayfab_smart_factory.Models.{Equipment, Lot, Panel, Db}
use displayfab_smart_factory.Models.Tables.{get_equipment, get_lot, get_panel}
use displayfab_smart_factory.Schemas.{EquipmentEventIn, as_naive_utc}
use displayfab_smart_factory.Env.{Env}
use displayfab_smart_factory.Alarms.{create_alarm}
use displayfab_smart_factory.Journal.{write_event_log}
use displayfab_smart_factory.Adapter.{accept_push}
use displayfab_smart_factory.Validation.Guards.{CheckResult}
use displayfab_smart_factory.Validation.{validate_event}
use Steps.{
  Outcome, Target, event_alarm, mark_seen, heartbeat_received, store_event, occupy, raise_checks,
  raise_inspect_fail, hold_of, is_inspect_fail,
}
use Settle.{settle, settle_event}

abbrev known_id : Option Equipment → Option String
known_id none = none
known_id (some eq) = some eq.id

abbrev status_of : Option Lot → Option LotStatus
status_of none = none
status_of (some lot) = some lot.status

abbrev pub heartbeat_outcome : Outcome
heartbeat_outcome = record { accepted = true; reason = none; alarms = []; lot_status = none }

-- `next((c for c in checks if c.reject), None)`
unfoldable pub first_reject : List CheckResult → Option CheckResult
first_reject [] = none
first_reject (c ∷ rest) = let later = first_reject rest in if c.reject then some c else later

module _ {F : Type 0} where
  unfoldable pub forced_failure :
      Env F → EquipmentEventIn F → String → String → Db F → Outcome × Db F
  forced_failure env payload request_id event_id db =
      let known = known_id (get_equipment payload.equipment_id db) in
      let reason = some (alarm_code_value AlarmCode.db_write_failure) in
      let (alarm, db') =
        create_alarm env (event_alarm payload event_id AlarmCode.db_write_failure known none) db in
      (
        record { accepted = false; reason = reason; alarms = alarm ∷ []; lot_status = none },
        write_event_log env event_id request_id payload false reason db',
      )

  unfoldable pub reject_event :
      Env F → EquipmentEventIn F → String → String → CheckResult → Db F → Outcome × Db F
  reject_event env payload request_id event_id c db =
      let reason = some (alarm_code_value c.code) in
      let known = known_id (get_equipment payload.equipment_id db) in
      let (alarm, db') =
        create_alarm env (event_alarm payload event_id c.code known c.severity) db in
      let db'' = write_event_log env event_id request_id payload false reason db' in
      (
        record {
          accepted = false;
          reason = reason;
          alarms = alarm ∷ [];
          lot_status =
              if truthy payload.lot_id
              then status_of (get_lot (get_or payload.lot_id "") db'')
              else none;
        },
        db'',
      )

  -- the rows behind the validation; `assert` that they are there
  unfoldable pub target_of : EquipmentEventIn F → Db F → Option Target
  target_of payload db = elim (get_equipment payload.equipment_id db) [
    | none ↦ none
    | some eq ↦ elim (get_lot (get_or payload.lot_id "") db) [
      | none ↦ none
      | some lot ↦ elim (get_panel (get_or payload.panel_id "") db) [
        | none ↦ none
        | some panel ↦ elim (normalize_step payload.process_step) [
          | none ↦ none
          | some step ↦ some (record { equipment = eq; lot = lot; panel = panel; step = step })
        ]
      ]
    ]
  ]

  unfoldable pub accept_event :
      Env F
      → EquipmentEventIn F
      → String
      → String
      → List CheckResult
      → Target
      → Db F
      → Outcome × Db F
  accept_event env payload request_id event_id checks t db =
      let inspect_fail = is_inspect_fail payload t.step in
      let hold = hold_of inspect_fail checks in
      let stored =
        occupy env payload event_id t (store_event env payload request_id event_id t db) in
      let (alarms, db') = raise_checks env event_id t checks stored in
      let (more, db'') = raise_inspect_fail env event_id t inspect_fail db' in
      (
        record {
          accepted = true;
          reason = none;
          alarms = alarms ++ more;
          lot_status = some (settle t hold inspect_fail db'').lot_status;
        },
        write_event_log env event_id request_id payload true none
            (settle_event env event_id t hold inspect_fail db''),
      )

  abbrev pub accept_target :
      Env F
      → EquipmentEventIn F
      → String
      → String
      → List CheckResult
      → Option Target
      → Db F
      → Option (Outcome × Db F)
  accept_target env payload request_id event_id checks none db = none
  accept_target env payload request_id event_id checks (some t) db =
      some (accept_event env payload request_id event_id checks t db)

  -- a heartbeat that is not rejected comes from a known equipment
  unfoldable pub heartbeat_event :
      Env F → EquipmentEventIn F → String → String → Db F → Outcome × Db F
  heartbeat_event env payload request_id event_id db = (
    heartbeat_outcome,
    elim (get_equipment payload.equipment_id db) [
      | none ↦ write_event_log env event_id request_id payload true none db
      | some eq ↦ heartbeat_received env payload request_id event_id eq db
    ],
  )

  abbrev judged :
      EventType
      → Env F
      → EquipmentEventIn F
      → String
      → String
      → List CheckResult
      → Option CheckResult
      → Db F
      → Option (Outcome × Db F)
  judged EventType.heartbeat env payload request_id event_id checks none db =
      some (heartbeat_event env payload request_id event_id db)
  judged EventType.process env payload request_id event_id checks none db =
      accept_target env payload request_id event_id checks (target_of payload db) db
  judged _ env payload request_id event_id checks (some c) db =
      some (reject_event env payload request_id event_id c db)

  abbrev judged_checks :
      Env F
      → EquipmentEventIn F
      → String
      → String
      → Option (List CheckResult)
      → Db F
      → Option (Outcome × Db F)
  judged_checks env payload request_id event_id none db = none
  judged_checks env payload request_id event_id (some checks) db =
      judged payload.event_type env payload request_id event_id checks (first_reject checks) db

  unfoldable pub ingest_event :
      Env F → EquipmentEventIn F → String → String → Db F → Option (Outcome × Db F)
  unfolding heartbeat_event
  ingest_event env payload request_id event_id db =
      if payload.force_db_failure
      then some (forced_failure env payload request_id event_id db)
      else judged_checks env payload request_id event_id (validate_event env payload db)
          (mark_seen env payload db)

  -- A known equipment's event raises where its timestamp has no UTC, unless it is a forced failure.
  unfoldable pub overflows : EquipmentEventIn F → Db F → Bool
  overflows payload db =
      not (is_some (as_naive_utc payload.timestamp))
      && (not payload.force_db_failure && is_some (get_equipment payload.equipment_id db))

  -- collector.py. Where `as_naive_utc` raises, it does so in `accept_push` already: nothing is committed.
  unfoldable pub collect_push :
      Env F → EquipmentEventIn F → String → String → Db F → Option (Outcome × Db F)
  collect_push env payload request_id event_id db =
      ingest_event env payload request_id event_id
        (if payload.force_db_failure then db else accept_push payload event_id db)
