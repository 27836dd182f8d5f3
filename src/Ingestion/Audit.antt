-- ===== src/Ingestion/Audit.antt =====
-- What every answer of `ingest_event` leaves behind: one line in the event log, and for a rejected
-- event nothing but that line, one alarm, and the equipment marked as seen.
use displayfab_smart_factory.Prelude.{
  String, Option, none, some, Bool, true, false, [], ◌∷◌, ◌++◌, ◌≡◌, ◌↔◌, subst, refl, arith, ap,
  ◌∙◌,
}
use displayfab_smart_factory.Enums.{AlarmCode, alarm_code_value}
use displayfab_smart_factory.Models.{EventLog, Db}
use displayfab_smart_factory.Models.Tables.{set_equipment}
use displayfab_smart_factory.Schemas.{EquipmentEventIn}
use displayfab_smart_factory.Env.{Env}
use displayfab_smart_factory.Alarms.{create_alarm}
use displayfab_smart_factory.Journal.{record_state_change, write_event_log}
use displayfab_smart_factory.Validation.Guards.{rejection}
use displayfab_smart_factory.Ingestion.Steps.{
  Outcome, Target, mark_seen, heartbeat_received, store_event, hold_of, is_inspect_fail,
}
use displayfab_smart_factory.Ingestion.Frames.{
  event_logs-mark_seen, event_logs-occupy, event_logs-raise_checks, event_logs-raise_inspect_fail,
  event_logs-settle_event,
}
use displayfab_smart_factory.Ingestion.Answers.{
  Answer, overflowed, forced, stopped, beat, stored, seen_target, ingest-Answer,
  ingest_of_overflows,
}
use displayfab_smart_factory.Validation.Admission.{Admitted, warnings}
use displayfab_smart_factory.Ingestion.{
  overflows, ingest_event, forced_failure, reject_event, heartbeat_event, accept_event,
}

module _ {F : Type 0} (env : Env F) (payload : EquipmentEventIn F)
    (request_id event_id : String) where
  -- The answer `r` to an event has added one line to the log, which says the same; there is none only
  -- where the timestamp raises.
  abbrev pub Logged : Db F → Option (Outcome × Db F) → Type 0
  Logged db none = overflows payload db ≡ true
  Logged db (some (o, db')) =
      (row : EventLog) × (db'.event_logs ≡ db.event_logs ++ row ∷ [])
      × (row.accepted ≡ o.accepted)
      × (row.reason ≡ o.reason)
      × (row.event_id ≡ event_id)

  abbrev log_line : Bool → Option String → EventLog
  log_line accepted reason = record {
    event_id = event_id;
    request_id = request_id;
    event_type = payload.event_type;
    accepted = accepted;
    reason = reason;
    equipment_id = payload.equipment_id;
    lot_id = payload.lot_id;
    panel_id = payload.panel_id;
    process_step = payload.process_step;
    created_at = env.now;
  }

  module _ (db : Db F) where
    forced-Logged : Logged db (some (forced_failure env payload request_id event_id db))
    unfolding forced_failure write_event_log create_alarm
    forced-Logged = (
      log_line false (some (alarm_code_value AlarmCode.db_write_failure)),
      refl,
      refl,
      refl,
      refl,
    )

    reject-Logged :
        (c : AlarmCode)
        → Logged db (
            some (
              reject_event env payload request_id event_id
                (rejection c)
                (mark_seen env payload db)))
    unfolding reject_event write_event_log create_alarm
    reject-Logged c = (
      log_line false (some (alarm_code_value c)),
      rw (event_logs-mark_seen env payload db) refl,
      refl,
      refl,
      refl,
    )

    beat-Logged :
        Logged db
          (some (heartbeat_event env payload request_id event_id (mark_seen env payload db)))
    unfolding heartbeat_event heartbeat_received write_event_log record_state_change set_equipment
    beat-Logged = (
      log_line true none,
      ground (arith, event_logs-mark_seen env payload db),
      ground arith,
      ground arith,
      ground arith,
    )

    event_logs-store_event :
        (t : Target) (db : Db F)
        → (store_event env payload request_id event_id t db).event_logs ≡ db.event_logs
    unfolding store_event
    event_logs-store_event t db = refl

    stored-Logged :
        (a : Admitted env payload db)
        → Logged db (
            some (
              accept_event env payload request_id event_id
                (warnings env payload a.lot db)
                (seen_target env payload request_id event_id db a)
                (mark_seen env payload db)))
    unfolding accept_event write_event_log
    stored-Logged a =
        let t = seen_target env payload request_id event_id db a in
        let checks = warnings env payload a.lot db in
        let failed = is_inspect_fail payload t.step in
        (
          log_line true none,
          ap (λ logs. logs ++ log_line true none ∷ [])
              (event_logs-settle_event env event_id t (hold_of failed checks) failed _
                ∙ event_logs-raise_inspect_fail env event_id t failed _
                ∙ event_logs-raise_checks env event_id t checks _
                ∙ event_logs-occupy env payload event_id t _
                ∙ event_logs-store_event t _
                ∙ event_logs-mark_seen env payload db),
          refl,
          refl,
          refl,
        )

    Answer-Logged :
        (r : Option (Outcome × Db F)) → Answer env payload request_id event_id db r → Logged db r
    Answer-Logged _ (forced f) = forced-Logged
    Answer-Logged _ (overflowed h) = h
    Answer-Logged _ (stopped c u h) = reject-Logged c
    Answer-Logged _ (beat u b h) = beat-Logged
    Answer-Logged _ (stored u p a) = stored-Logged a

    -- Every event, heartbeat or process, accepted, rejected or forced to fail, is answered, and leaves
    -- exactly one more line in the event log; the line has the event's id and the answer's verdict and
    -- reason. The one exception is an event of a known equipment that is not a forced failure and
    -- whose timestamp has no UTC between `datetime.min` and `datetime.max`: it raises.
    pub ingest-Logged :
        Logged db (ingest_event env payload request_id event_id db)
        × ((ingest_event env payload request_id event_id db ≡ none) ↔ (overflows payload db ≡ true))
    ingest-Logged =
        let logged = Answer-Logged _ (ingest-Answer env payload request_id event_id db) in
        (
          logged,
          (λ n. subst (Logged db) n logged, ingest_of_overflows env payload request_id event_id db),
        )
