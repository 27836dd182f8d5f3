-- ===== src/Ingestion/Presence.antt =====
-- An equipment whose event arrives is connected.
use displayfab_smart_factory.Prelude.{
  ℕ, String, Option, none, some, Bool, true, false, Option-cases, List, ◌≡◌, refl, arith,
  Bool-cases, inl, inr, find_first, update_where, find_first-update_where, ◌==◌, string_eq,
  if◌then◌else◌, ap,
}
use displayfab_smart_factory.Enums.{AlarmCode, ConnectionStatus, LotStatus, lot_status_eq}
use displayfab_smart_factory.Models.{Equipment, Db}
use displayfab_smart_factory.Models.Tables.{get_equipment, set_equipment, set_lot, set_panel}
use displayfab_smart_factory.Schemas.{EquipmentEventIn, as_naive_utc}
use displayfab_smart_factory.Env.{Env}
use displayfab_smart_factory.Alarms.{create_alarm}
use displayfab_smart_factory.Journal.{write_event_log}
use displayfab_smart_factory.Validation.Guards.{CheckResult, rejection}
use displayfab_smart_factory.Ingestion.Steps.{
  Outcome, Target, mark_seen, seen, heartbeat_received, store_event, occupy, is_inspect_fail,
  hold_of,
}
use displayfab_smart_factory.Validation.Admission.{warnings}
use displayfab_smart_factory.Ingestion.Settle.{
  Settled, settle, apply_settled, release_equipment, settle_event,
}
use displayfab_smart_factory.Ingestion.Frames.{
  equipment-record_state_change, equipment-refresh, equipment-raise_checks,
  equipment-raise_inspect_fail,
}
use displayfab_smart_factory.Ingestion.Acceptance.{equipment-mark_seen}
use displayfab_smart_factory.Ingestion.Answers.{
  Answer, overflowed, forced, stopped, beat, stored, ingest-Answer,
}
use displayfab_smart_factory.Ingestion.{
  overflows, ingest_event, reject_event, heartbeat_event, accept_event,
}

-- the table has the equipment, connected and seen at `now`
pub record IsPresent (now : ℕ) (id : String) (table : List Equipment) : Type 0 where
  pub row : Equipment
  pub found : find_first (λ r. r.id == id) table ≡ some row
  pub online : row.connection_status ≡ ConnectionStatus.online
  pub seen_now : row.last_seen_at ≡ some now

abbrev IsSteady : (Equipment → Equipment) → Type 0
IsSteady f =
    (r : Equipment)
    → ((f r).id ≡ r.id)
      × ((f r).connection_status ≡ r.connection_status)
      × ((f r).last_seen_at ≡ r.last_seen_at)

module _ {now : ℕ} {id : String} where
  update-IsPresent :
      (p : Equipment → Bool) (f : Equipment → Equipment) (table : List Equipment)
      → IsSteady f
      → IsPresent now id table
      → IsPresent now id (update_where p f table)
  update-IsPresent p f table steady h =
      let same =
        find_first-update_where (λ r. r.id == id) p f table (λ r. ap (λ i. i == id) (steady r).0) in
      record {
        row = if p h.row then f h.row else h.row;
        found = rw same (rw h.found refl);
        online = ground (arith, h.online, steady h.row);
        seen_now = ground (arith, h.seen_now, steady h.row);
      }

  module _ {F : Type 0} (env : Env F) where
    occupy-IsPresent :
        (payload : EquipmentEventIn F) (event_id : String) (t : Target) (db : Db F)
        → IsPresent now id db.equipment
        → IsPresent now id (occupy env payload event_id t db).equipment
    unfolding occupy set_equipment
    occupy-IsPresent payload event_id t db h =
        rw equipment-record_state_change
          (update-IsPresent _ _ db.equipment (λ r. (refl, refl, refl)) h)

    apply-IsPresent :
        (event_id : String) (t : Target) (hold : Option String) (s : Settled) (db : Db F)
        → IsPresent now id db.equipment
        → IsPresent now id (apply_settled env event_id t hold s db).equipment
    unfolding apply_settled set_lot set_panel set_equipment
    apply-IsPresent event_id t hold s db h =
        rw equipment-record_state_change
          (update-IsPresent _ _ db.equipment (λ r. (refl, refl, refl)) h)

    release-IsPresent :
        (t : Target) (s : Settled) (db : Db F)
        → IsPresent now id db.equipment
        → IsPresent now id (release_equipment t s db).equipment
    unfolding release_equipment set_equipment
    release-IsPresent t s db h = elim (Bool-cases (s.lot_status == LotStatus.complete)) [
      | inl e ↦
          rw (e, release_equipment)
            (update-IsPresent _ _ _ (λ r. (refl, refl, refl))
              (update-IsPresent _ _ db.equipment (λ r. (refl, refl, refl)) h))
      | inr e ↦
          rw (e, release_equipment) (update-IsPresent _ _ db.equipment (λ r. (refl, refl, refl)) h)
    ]

    settle_event-IsPresent :
        (event_id : String) (t : Target) (hold : Option String) (failed : Bool) (db : Db F)
        → IsPresent now id db.equipment
        → IsPresent now id (settle_event env event_id t hold failed db).equipment
    unfolding settle_event
    settle_event-IsPresent event_id t hold failed db h =
        let s = settle t hold failed db in
        rw equipment-refresh (release-IsPresent t s _ (apply-IsPresent event_id t hold s db h))

module _ {F : Type 0} (env : Env F) (payload : EquipmentEventIn F) where
  abbrev pub Present : Db F → Type 0
  Present db = IsPresent env.now payload.equipment_id db.equipment

  abbrev pub PresentAfter : Option (Outcome × Db F) → Type 0
  PresentAfter none = as_naive_utc payload.timestamp ≡ none
  PresentAfter (some (o, db')) = Present db'

  module _ (request_id event_id : String) (db : Db F) (eq : Equipment)
      (known : get_equipment payload.equipment_id db ≡ some eq) where
    mark_seen-Present : Present (mark_seen env payload db)
    unfolding get_equipment
    mark_seen-Present = record {
      row = seen env.now eq;
      found = equipment-mark_seen env payload db eq known;
      online = refl;
      seen_now = refl;
    }

    reject-Present :
        (c : AlarmCode)
        → Present
            (reject_event env payload request_id event_id
              (rejection c)
              (mark_seen env payload db)).1
    unfolding reject_event write_event_log create_alarm
    reject-Present c = mark_seen-Present

    beat-Present :
        Present (heartbeat_event env payload request_id event_id (mark_seen env payload db)).1
    unfolding heartbeat_event heartbeat_received write_event_log set_equipment
    beat-Present =
        rw (equipment-mark_seen env payload db eq known, heartbeat_event)
          (rw equipment-record_state_change
            (update-IsPresent _ _ _ (λ r. (refl, refl, refl)) mark_seen-Present))

    stored-Present :
        (checks : List CheckResult) (t : Target)
        → Present
            (accept_event env payload request_id event_id checks t (mark_seen env payload db)).1
    unfolding accept_event write_event_log store_event
    stored-Present checks t =
        let failed = is_inspect_fail payload t.step in
        settle_event-IsPresent env event_id t (hold_of failed checks) failed _ (
          rw (equipment-raise_inspect_fail env event_id t failed) (
            rw (equipment-raise_checks env event_id t checks)
              (occupy-IsPresent env payload event_id t _ mark_seen-Present)))

    no_utc : overflows payload db ≡ true → as_naive_utc payload.timestamp ≡ none
    unfolding overflows
    no_utc o = elim (Option-cases (as_naive_utc payload.timestamp)) [
      | inl n ↦ n
      | inr (t, n) ↦ absurd (ground arith)
    ]

    Answer-Present :
        (r : Option (Outcome × Db F))
        → Answer env payload request_id event_id db r
        → payload.force_db_failure ≡ false
        → PresentAfter r
    Answer-Present _ (forced f) u = absurd (cc)
    Answer-Present _ (overflowed o) u = no_utc o
    Answer-Present _ (stopped c _ h) u = reject-Present c
    Answer-Present _ (beat _ b h) u = beat-Present
    Answer-Present _ (stored _ p a) u = stored-Present (warnings env payload a.lot db) _

    -- After any event of a known equipment that is not a forced failure, also a rejected, stale or
    -- repeated one, the equipment is ONLINE and was last seen at the time of the call; the event is
    -- answered unless its timestamp has no UTC.
    pub ingest-Present :
        payload.force_db_failure ≡ false
        → PresentAfter (ingest_event env payload request_id event_id db)
    ingest-Present = Answer-Present _ (ingest-Answer env payload request_id event_id db)
