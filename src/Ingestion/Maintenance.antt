-- ===== src/Ingestion/Maintenance.antt =====
-- A heartbeat in the middle of a maintenance.
use displayfab_smart_factory.Prelude.{
  String, any_of, some, Bool, true, false, List, [], ◌∷◌, ◌≡◌, refl, ap, ◌∙◌, arith, count_where,
  update_where, string_eq, ◌&&◌, Option-cases, inl, inr,
}
use displayfab_smart_factory.Enums.{
  DowntimeReason, EquipmentStatus, EventType, downtime_reason_eq, equipment_status_eq,
}
use displayfab_smart_factory.Models.{Equipment, EquipmentDowntime, Db}
use displayfab_smart_factory.Models.Tables.{
  get_equipment, set_equipment, get_equipment-set_equipment,
}
use displayfab_smart_factory.Schemas.{EquipmentEventIn}
use displayfab_smart_factory.Env.{Env}
use displayfab_smart_factory.Alarms.{resolve_open_alarms}
use displayfab_smart_factory.Downtime.{is_running, is_running_for, is_named, ended, close_downtime}
use displayfab_smart_factory.Journal.{record_state_change, write_event_log}
use displayfab_smart_factory.Validation.{checked_event}
use displayfab_smart_factory.Validation.Guards.{pass}
use displayfab_smart_factory.Validation.Conditions.{IsTimely, timestamp_iff, equipment_iff}
use displayfab_smart_factory.Ingestion.Steps.{mark_seen, seen, heartbeat_received}
use displayfab_smart_factory.Ingestion.Acceptance.{equipment-mark_seen}
use displayfab_smart_factory.Ingestion.Answers.{ingest_beat}
use displayfab_smart_factory.Ingestion.{ingest_event, heartbeat_event, heartbeat_outcome}

count_where-same :
    {A : Type 0} (p q : A → Bool) (f : A → A) (xs : List A)
    → ((x : A) → q x ≡ true → p (f x) ≡ p x)
    → count_where p (update_where q f xs) ≡ count_where p xs
unfolding count_where update_where
count_where-same p q f [] h = refl
count_where-same p q f (x ∷ xs) h = ground (arith, h x, count_where-same p q f xs h)

module _ {F : Type 0} (env : Env F) (payload : EquipmentEventIn F) where
  maintenance-mark_seen :
      (id : String) (db : Db F)
      → count_where
          (is_running_for id DowntimeReason.maintenance)
          (mark_seen env payload db).downtime
        ≡ count_where (is_running_for id DowntimeReason.maintenance) db.downtime
  unfolding mark_seen close_downtime resolve_open_alarms set_equipment is_named any_of
  maintenance-mark_seen id db = elim (Option-cases (get_equipment payload.equipment_id db)) [
    | inl n ↦ rw (n, mark_seen) refl
    | inr (eq, n) ↦
        rw (n, mark_seen)
          (count_where-same (is_running_for id DowntimeReason.maintenance)
            (λ (row : EquipmentDowntime).
              is_running eq.id row && is_named (DowntimeReason.communication_loss ∷ []) row.reason)
            (ended env.now) db.downtime (λ row h. ground arith))
  ]

  -- the state that the heartbeat leaves, from the one in which its equipment is marked as seen
  heartbeat-idle :
      (request_id event_id : String) (d : Db F) (eq : Equipment)
      → payload.equipment_status ≡ EquipmentStatus.idle
      → get_equipment payload.equipment_id d ≡ some eq
      → ((heartbeat_event env payload request_id event_id d).1.downtime ≡ d.downtime)
        × (get_equipment payload.equipment_id (heartbeat_event env payload request_id event_id d).1
            ≡ some (record eq { equipment_status = EquipmentStatus.idle }))
  unfolding heartbeat_event heartbeat_received write_event_log record_state_change get_equipment
      set_equipment
  heartbeat-idle request_id event_id d eq idle n =
      let again =
        get_equipment-set_equipment payload.equipment_id eq.id
          (λ row. record row { equipment_status = EquipmentStatus.idle }) d (λ row. refl) in
      (ground arith, ground arith)

  -- A timely heartbeat that reports IDLE sets its equipment to IDLE whatever it was, so also in the
  -- middle of a maintenance, and leaves as many maintenance downtimes of it running as there were.
  pub heartbeat-leaves_maintenance :
      (request_id event_id : String) (db : Db F) (eq : Equipment)
      → payload.force_db_failure ≡ false
      → payload.event_type ≡ EventType.heartbeat
      → payload.equipment_status ≡ EquipmentStatus.idle
      → IsTimely env payload
      → get_equipment payload.equipment_id db ≡ some eq
      → (db' : Db F) × (row : Equipment) × (ingest_event env payload request_id event_id db
          ≡ some (heartbeat_outcome, db'))
        × (get_equipment payload.equipment_id db' ≡ some row)
        × (row.equipment_status ≡ EquipmentStatus.idle)
        × (count_where (is_running_for eq.id DowntimeReason.maintenance) db'.downtime
            ≡ count_where (is_running_for eq.id DowntimeReason.maintenance) db.downtime)
  unfolding checked_event heartbeat_event
  heartbeat-leaves_maintenance request_id event_id db eq unforced is_beat idle timely found =
      let passed : checked_event env payload db ≡ pass [] =
        simp ((equipment_iff payload db eq).1 found, (timestamp_iff env payload).1 timely, is_beat)
          refl in
      let (same, now) =
        heartbeat-idle request_id event_id (mark_seen env payload db) (seen env.now eq) idle
          (equipment-mark_seen env payload db eq found) in
      (
        (heartbeat_event env payload request_id event_id (mark_seen env payload db)).1,
        _,
        ingest_beat env payload request_id event_id db unforced is_beat passed,
        now,
        refl,
        ap (count_where (is_running_for eq.id DowntimeReason.maintenance)) same
            ∙ maintenance-mark_seen eq.id db,
      )
