-- ===== src/Ingestion/Answers.antt =====
-- The four ways in which `ingest_event` answers, and the one in which it raises. No `assert` fails.
use displayfab_smart_factory.Prelude.{
  String, Option, none, some, true, false, List, [], ◌≡◌, ◌⊎◌, inl, inr, refl, sym, subst, arith,
  Bool-cases, Option-cases,
}
use displayfab_smart_factory.Enums.{AlarmCode, EventType}
use displayfab_smart_factory.Models.{Db}
use displayfab_smart_factory.Models.Tables.{get_equipment}
use displayfab_smart_factory.Schemas.{EquipmentEventIn, as_naive_utc}
use displayfab_smart_factory.Env.{Env}
use displayfab_smart_factory.Validation.{checked_event}
use displayfab_smart_factory.Validation.Raising.{validate_process-overflow}
use displayfab_smart_factory.Validation.Guards.{
  pass, stop, overflow, CheckResult, rejection, known_equipment, check_timestamp,
}
use displayfab_smart_factory.Validation.Admission.{Admitted, warnings, Admitted-of_pass}
use displayfab_smart_factory.Ingestion.Steps.{Outcome, Target, mark_seen, seen}
use displayfab_smart_factory.Ingestion.Acceptance.{
  checked-cases, validate_of_pass, ingest-Admitted, ingest_stopped, ingest_overflow,
}
use displayfab_smart_factory.Ingestion.{
  first_reject, overflows, ingest_event, forced_failure, reject_event, heartbeat_event,
  accept_event,
}

module _ {F : Type 0} (env : Env F) (payload : EquipmentEventIn F) (request_id event_id : String)
    (db : Db F) where
  -- the target of an admitted event, whose equipment has been marked as seen
  abbrev pub seen_target : Admitted env payload db → Target
  seen_target a = record {
    equipment = seen env.now a.equipment;
    lot = a.lot;
    panel = a.panel;
    step = a.fields.step;
  }

  pub data Answer : Option (Outcome × Db F) → Type 0 where
    forced :
        payload.force_db_failure ≡ true
        → Answer (some (forced_failure env payload request_id event_id db))
    stopped :
        (c : AlarmCode)
        → payload.force_db_failure ≡ false
        → checked_event env payload db ≡ stop c
        → Answer (
            some (
              reject_event env payload request_id event_id
                (rejection c)
                (mark_seen env payload db)))
    beat :
        payload.force_db_failure ≡ false
        → payload.event_type ≡ EventType.heartbeat
        → checked_event env payload db ≡ pass []
        → Answer (some (heartbeat_event env payload request_id event_id (mark_seen env payload db)))
    stored :
        payload.force_db_failure ≡ false
        → payload.event_type ≡ EventType.process
        → (a : Admitted env payload db)
        → Answer (
            some (
              accept_event env payload request_id event_id
                (warnings env payload a.lot db)
                (seen_target a)
                (mark_seen env payload db)))
    overflowed : overflows payload db ≡ true → Answer none

  -- only the timestamp of a known equipment raises
  overflows_of_checked :
      payload.force_db_failure ≡ false
      → checked_event env payload db ≡ overflow
      → overflows payload db ≡ true
  unfolding checked_event overflows check_timestamp known_equipment
  overflows_of_checked u h = elim (Option-cases (get_equipment payload.equipment_id db)) [
    | inl n ↦ absurd (ground arith)
    | inr (eq, n) ↦ elim (Option-cases (as_naive_utc payload.timestamp)) [
      | inl m ↦ ground arith
      | inr (t, m) ↦ absurd (ground (arith, validate_process-overflow env payload eq db))
    ]
  ]

  checked_of_overflows : overflows payload db ≡ true → checked_event env payload db ≡ overflow
  unfolding checked_event overflows check_timestamp known_equipment
  checked_of_overflows o = elim (Option-cases (get_equipment payload.equipment_id db)) [
    | inl n ↦ absurd (ground arith)
    | inr (eq, n) ↦ ground arith
  ]

  unforced_of_overflows : overflows payload db ≡ true → payload.force_db_failure ≡ false
  unfolding overflows
  unforced_of_overflows o = ground arith

  -- such an event is not answered
  pub ingest_of_overflows :
      overflows payload db ≡ true → ingest_event env payload request_id event_id db ≡ none
  ingest_of_overflows o =
      ingest_overflow env payload db request_id event_id (checked_of_overflows o)
        (unforced_of_overflows o)

  type-cases : (t : EventType) → (t ≡ EventType.heartbeat) ⊎ (t ≡ EventType.process)
  type-cases EventType.heartbeat = inl refl
  type-cases EventType.process = inr refl

  pass_of_heartbeat :
      (rs : List CheckResult)
      → payload.event_type ≡ EventType.heartbeat
      → checked_event env payload db ≡ pass rs
      → rs ≡ []
  unfolding checked_event
  pass_of_heartbeat rs is_beat h = ground arith

  ingest_forced :
      payload.force_db_failure ≡ true
      → ingest_event env payload request_id event_id db
        ≡ some (forced_failure env payload request_id event_id db)
  unfolding ingest_event
  ingest_forced h = ground arith

  pub ingest_beat :
      payload.force_db_failure ≡ false
      → payload.event_type ≡ EventType.heartbeat
      → checked_event env payload db ≡ pass []
      → ingest_event env payload request_id event_id db
        ≡ some (heartbeat_event env payload request_id event_id (mark_seen env payload db))
  unfolding ingest_event first_reject
  ingest_beat unforced is_beat h = simp (is_beat, unforced, validate_of_pass env payload db [] h)

  pub ingest-Answer : Answer (ingest_event env payload request_id event_id db)
  ingest-Answer = elim (Bool-cases payload.force_db_failure) [
    | inl f ↦ subst Answer (sym (ingest_forced f)) (forced f)
    | inr u ↦ elim (checked-cases (checked_event env payload db)) [
      | inl (c, h) ↦
          subst Answer (sym (ingest_stopped env payload db request_id event_id c h u))
            (stopped c u h)
      | inr (inl h) ↦
          subst Answer (sym (ingest_overflow env payload db request_id event_id h u))
            (overflowed (overflows_of_checked u h))
      | inr (inr (rs, h)) ↦ elim (type-cases payload.event_type) [
        | inl b ↦
            let h' : checked_event env payload db ≡ pass [] = rw (← pass_of_heartbeat rs b h) h in
            subst Answer (sym (ingest_beat u b h')) (beat u b h')
        | inr p ↦
            let a = (Admitted-of_pass env payload db rs p h).0 in
            subst Answer (sym (ingest-Admitted env payload db request_id event_id a p u))
              (stored u p a)
      ]
    ]
  ]
