-- ===== src/Ingestion/Rejection.antt =====
-- What a rejected event leaves behind.
use displayfab_smart_factory.Prelude.{
  String, Option, none, some, false, List, [], ◌∷◌, ◌++◌, ◌≡◌, ◌⊎◌, inl, inr, refl, arith,
  Option-cases, length, subst, length-update_where,
}
use displayfab_smart_factory.Enums.{AlarmCode, alarm_code_value}
use displayfab_smart_factory.Models.{Alarm, Db}
use displayfab_smart_factory.Models.Tables.{get_equipment, set_equipment}
use displayfab_smart_factory.Schemas.{EquipmentEventIn}
use displayfab_smart_factory.Env.{Env}
use displayfab_smart_factory.Alarms.{create_alarm, new_alarm, resolve_open_alarms}
use displayfab_smart_factory.Downtime.{close_downtime}
use displayfab_smart_factory.Journal.{write_event_log}
use displayfab_smart_factory.Validation.Guards.{rejection}
use displayfab_smart_factory.Ingestion.Steps.{Outcome, mark_seen}
use displayfab_smart_factory.Ingestion.Frames.{SameLine, mark_seen-SameLine}
use displayfab_smart_factory.Ingestion.Answers.{
  Answer, overflowed, forced, stopped, beat, stored, ingest-Answer,
}
use displayfab_smart_factory.Ingestion.{
  ingest_event, forced_failure, reject_event, heartbeat_event, accept_event,
}

module _ {F : Type 0} (env : Env F) (payload : EquipmentEventIn F) where
  pub record Rejected (db : Db F) (o : Outcome) (db' : Db F) : Type 0 where
    pub line : SameLine db db'
    pub equipment :
        (db'.equipment ≡ db.equipment) ⊎ (db'.equipment ≡ (mark_seen env payload db).equipment)
    pub alarm : Alarm
    pub raised : o.alarms ≡ alarm ∷ []
    pub why : o.reason ≡ some (alarm_code_value alarm.alarm_code)
    pub older : List Alarm
    pub stored_last : db'.alarms ≡ older ++ alarm ∷ []
    pub as_many : length older ≡ length db.alarms

  abbrev IfRejected : Db F → Option (Outcome × Db F) → Type 0
  IfRejected db none = Unit
  IfRejected db (some (o, db')) = o.accepted ≡ false → Rejected db o db'

  module _ (request_id event_id : String) (db : Db F) where
    length-alarms-mark_seen : length (mark_seen env payload db).alarms ≡ length db.alarms
    unfolding mark_seen close_downtime resolve_open_alarms set_equipment
    length-alarms-mark_seen = elim (Option-cases (get_equipment payload.equipment_id db)) [
      | inl e ↦ rw (e, mark_seen) refl
      | inr (eq, e) ↦ rw (e, mark_seen) (length-update_where _ _ _)
    ]

    forced_Rejected : IfRejected db (some (forced_failure env payload request_id event_id db))
    unfolding forced_failure write_event_log create_alarm new_alarm
    forced_Rejected h = record {
      line = ground arith;
      equipment = inl refl;
      alarm = _;
      raised = refl;
      why = refl;
      older = db.alarms;
      stored_last = refl;
      as_many = refl;
    }

    reject_Rejected :
        (c : AlarmCode)
        → IfRejected db (
            some (
              reject_event env payload request_id event_id
                (rejection c)
                (mark_seen env payload db)))
    unfolding reject_event write_event_log create_alarm new_alarm
    reject_Rejected c h =
        let kept = mark_seen-SameLine env payload db in
        record {
          line = record {
            lots = kept.lots;
            panels = kept.panels;
            work_orders = kept.work_orders;
            process_events = kept.process_events;
            sensor_readings = kept.sensor_readings;
            recipes = kept.recipes;
          };
          equipment = inr refl;
          alarm = _;
          raised = refl;
          why = refl;
          older = (mark_seen env payload db).alarms;
          stored_last = refl;
          as_many = length-alarms-mark_seen;
        }

    Answer-Rejected :
        (r : Option (Outcome × Db F))
        → Answer env payload request_id event_id db r
        → IfRejected db r
    unfolding heartbeat_event accept_event
    Answer-Rejected _ (forced f) = forced_Rejected
    Answer-Rejected _ (overflowed h) = tt
    Answer-Rejected _ (stopped c u s) = reject_Rejected c
    Answer-Rejected _ (beat u b s) = λ h. cc
    Answer-Rejected _ (stored u p a) = λ h. cc

    -- An event that is not accepted changes no lot, glass, order, process event, sensor reading or
    -- recipe. It raises one alarm, which is stored behind the others and has the code that the answer
    -- names, and at most marks its equipment as seen.
    pub ingest-Rejected :
        (o : Outcome) (db' : Db F)
        → ingest_event env payload request_id event_id db ≡ some (o, db')
        → o.accepted ≡ false
        → Rejected db o db'
    ingest-Rejected o db' e =
        subst (IfRejected db) e
          (Answer-Rejected _ (ingest-Answer env payload request_id event_id db))
