-- ===== src/Ingestion/Acceptance.antt =====
-- Which events `ingest_event` accepts, and which it rejects or raises on.
use displayfab_smart_factory.Prelude.{
  String, Option, none, some, Bool, true, false, List, [], ◌∷◌, ◌≡◌, ◌↔◌, ◌⊎◌, inl, inr, refl,
  arith, string_eq,
}
use displayfab_smart_factory.Enums.{AlarmCode, EventType}
use displayfab_smart_factory.Models.{Equipment, Lot, Db}
use displayfab_smart_factory.Models.Tables.{
  get_equipment, get_lot, get_panel, set_equipment, get_equipment-set_equipment,
}
use displayfab_smart_factory.Schemas.{EquipmentEventIn}
use displayfab_smart_factory.Env.{Env}
use displayfab_smart_factory.Alarms.{resolve_open_alarms}
use displayfab_smart_factory.Downtime.{close_downtime}
use displayfab_smart_factory.Validation.{validate_event, checked_event}
use displayfab_smart_factory.Validation.Guards.{
  Checked, pass, stop, overflow, CheckResult, rejection,
}
use displayfab_smart_factory.Validation.Warnings.{
  recipe_warnings, temperature_warnings, pressure_warnings,
}
use displayfab_smart_factory.Validation.Admission.{
  Admitted, warnings, Admitted-of_pass, pass_of_Admitted,
}
use displayfab_smart_factory.Ingestion.Steps.{Outcome, mark_seen, seen}
use displayfab_smart_factory.Ingestion.{
  first_reject, target_of, ingest_event, reject_event, accept_event,
}

pub checked-cases :
    (m : Checked (List CheckResult))
    → ((c : AlarmCode) × (m ≡ stop c)) ⊎ (m ≡ overflow) ⊎ ((rs : List CheckResult) × (m ≡ pass rs))
checked-cases (pass rs) = inr (inr (rs, refl))
checked-cases (stop c) = inl (c, refl)
checked-cases overflow = inr (inl refl)

module _ {F : Type 0} where
  abbrev pub is_accepted : Option (Outcome × Db F) → Bool
  is_accepted none = false
  is_accepted (some (o, db)) = o.accepted

  first_reject-warnings :
      (env : Env F) (payload : EquipmentEventIn F) (lot : Lot) (db : Db F)
      → first_reject (warnings env payload lot db) ≡ none
  unfolding first_reject recipe_warnings temperature_warnings pressure_warnings
  first_reject-warnings env payload lot db = ground arith

  module _ (env : Env F) (payload : EquipmentEventIn F) (db : Db F) where
    lots-mark_seen : (mark_seen env payload db).lots ≡ db.lots
    unfolding mark_seen close_downtime resolve_open_alarms set_equipment
    lots-mark_seen = ground arith

    panels-mark_seen : (mark_seen env payload db).panels ≡ db.panels
    unfolding mark_seen close_downtime resolve_open_alarms set_equipment
    panels-mark_seen = ground arith

    pub equipment-mark_seen :
        (eq : Equipment)
        → get_equipment payload.equipment_id db ≡ some eq
        → get_equipment payload.equipment_id (mark_seen env payload db) ≡ some (seen env.now eq)
    unfolding mark_seen close_downtime resolve_open_alarms get_equipment set_equipment
    equipment-mark_seen eq h =
        rw (h, mark_seen)
          (ground (
            arith,
            get_equipment-set_equipment payload.equipment_id eq.id (seen env.now) db (λ row. refl),
          ))

    target-mark_seen :
        (a : Admitted env payload db)
        → target_of payload (mark_seen env payload db)
          ≡ some (record {
            equipment = seen env.now a.equipment;
            lot = a.lot;
            panel = a.panel;
            step = a.fields.step;
          })
    unfolding target_of get_lot get_panel
    target-mark_seen a = ground (
      arith,
      equipment-mark_seen a.equipment a.equipment_known,
      lots-mark_seen,
      panels-mark_seen,
      a.lot_known,
      a.panel_known,
      a.complete,
    )

    -- what the validation's answer is to `ingest_event`
    pub validate_of_pass :
        (results : List CheckResult)
        → checked_event env payload db ≡ pass results
        → validate_event env payload db ≡ some results
    unfolding validate_event
    validate_of_pass results h = rw h refl

    validate_of_stop :
        (c : AlarmCode)
        → checked_event env payload db ≡ stop c
        → validate_event env payload db ≡ some (rejection c ∷ [])
    unfolding validate_event
    validate_of_stop c h = rw h refl

    validate_of_overflow :
        checked_event env payload db ≡ overflow → validate_event env payload db ≡ none
    unfolding validate_event
    validate_of_overflow h = rw h refl

    -- an admitted event is accepted, with the target that the validation looked at
    pub ingest-Admitted :
        (request_id event_id : String) (a : Admitted env payload db)
        → payload.event_type ≡ EventType.process
        → payload.force_db_failure ≡ false
        → ingest_event env payload request_id event_id db
          ≡ some (
              accept_event env payload request_id event_id
                (warnings env payload a.lot db)
                (record {
                  equipment = seen env.now a.equipment;
                  lot = a.lot;
                  panel = a.panel;
                  step = a.fields.step;
                })
                (mark_seen env payload db))
    unfolding ingest_event
    ingest-Admitted request_id event_id a is_process unforced = simp (
      is_process,
      unforced,
      validate_of_pass _ (pass_of_Admitted env payload db a is_process),
      first_reject-warnings env payload a.lot db,
      target-mark_seen a,
    )

    -- an event at which the validation stops is rejected with the code of the first check that fails
    pub ingest_stopped :
        (request_id event_id : String) (c : AlarmCode)
        → checked_event env payload db ≡ stop c
        → payload.force_db_failure ≡ false
        → ingest_event env payload request_id event_id db
          ≡ some (
              reject_event env payload request_id event_id (rejection c) (mark_seen env payload db))
    unfolding ingest_event first_reject
    ingest_stopped request_id event_id c h unforced = simp (unforced, validate_of_stop c h)

    -- an event whose timestamp has no UTC raises
    pub ingest_overflow :
        (request_id event_id : String)
        → checked_event env payload db ≡ overflow
        → payload.force_db_failure ≡ false
        → ingest_event env payload request_id event_id db ≡ none
    unfolding ingest_event
    ingest_overflow request_id event_id h unforced = simp (unforced, validate_of_overflow h)

    -- A PROCESS event that is not a forced failure is accepted exactly when it meets every condition
    -- of the line: a known equipment that is connected or was never seen, runs, does the step or is
    -- listed for none, takes the product, has the recipe and is free, a timely report that is not a
    -- repetition and whose timestamp has a UTC, a glass of the named lot that is not scrapped, a step
    -- that `allowed_next_steps` lists, which may be the last one again, and a lot that is not held.
    pub accepted_iff-Admitted :
        (request_id event_id : String)
        → payload.event_type ≡ EventType.process
        → payload.force_db_failure ≡ false
        → (is_accepted (ingest_event env payload request_id event_id db) ≡ true)
          ↔ Admitted env payload db
    unfolding reject_event accept_event
    accepted_iff-Admitted request_id event_id is_process unforced = (
      λ h. elim (checked-cases (checked_event env payload db)) [
        | inl (c, stopped) ↦ absurd (cc (h, ingest_stopped request_id event_id c stopped unforced))
        | inr (inl raised) ↦ absurd (cc (h, ingest_overflow request_id event_id raised unforced))
        | inr (inr (rs, passed)) ↦ (Admitted-of_pass env payload db rs is_process passed).0
      ],
      λ a. rw (ingest-Admitted request_id event_id a is_process unforced) refl,
    )
