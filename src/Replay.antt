-- ===== src/Replay.antt =====
-- backend/app/services/replay.py: the history of a glass, exported and sent again. A raw event is a
-- dictionary of the caller: `RawOps` has what the code does to it, and `parse` is the constructor of
-- `EquipmentEventIn`, which raises on what is no event.
pub mod Counts
use displayfab_smart_factory.Prelude.{
  ℕ, suc, ◌+◌, String, Option, none, some, Bool, true, false, not, List, [], ◌∷◌, map, length,
  count_where, truthy, get_or, if◌then◌else◌,
}
use displayfab_smart_factory.Enums.{AlarmCode, EquipmentStatus, EventType, LotStatus}
use displayfab_smart_factory.Models.{Alarm, Db}
use displayfab_smart_factory.Schemas.{EquipmentEventIn}
use displayfab_smart_factory.Env.{Env, seconds}
use displayfab_smart_factory.Ingestion.Steps.{Outcome}
use displayfab_smart_factory.Ingestion.{collect_push}
use displayfab_smart_factory.History.{ProcessHistoryItem, panel_history}

pub record RawOps (R : Type 0) (F : Type 0) : Type 0 where
  pub with_lot_id : String → R → R
  pub with_panel_id : String → R → R
  -- `data["timestamp"] = stamp.isoformat()`
  pub with_timestamp : ℕ → R → R
  pub lot_id : R → Option String
  pub panel_id : R → Option String
  pub parse : R → Option (EquipmentEventIn F)

-- one round of the loop: the clock when the time stamp is refreshed and while the event is ingested
pub record ReplayCall (F : Type 0) : Type 0 where
  pub stamp : ℕ
  pub env : Env F
  pub request_id : String
  pub event_id : String

pub record ReplayRow : Type 0 where
  pub accepted : Bool
  pub reason : Option String
  pub lot_status : Option LotStatus
  pub process_step : Option String
  pub equipment_id : String
  pub alarms : List AlarmCode

pub record Replayed : Type 0 where
  pub count : ℕ
  pub accepted : ℕ
  pub rejected : ℕ
  pub lot_id : Option String
  pub panel_id : Option String
  pub results : List ReplayRow

pub data ReplayOut : Type 0 where
  replayed : Replayed → ReplayOut
  no_events : ReplayOut

-- a row of the export
pub record Exported (F : Type 0) : Type 0 where
  pub equipment_id : String
  pub event_type : EventType
  pub lot_id : String
  pub panel_id : String
  pub process_step : String
  pub recipe_id : Option String
  pub equipment_status : EquipmentStatus
  pub chamber_temperature : Option F
  pub vacuum_pressure : Option F
  pub cycle_time_sec : Option F
  pub inspect_result : Option String
  pub timestamp : String

-- what the caller asks for: `refresh_timestamps`, `lot_id` and `panel_id`
pub record ReplayIn : Type 0 where
  pub refresh_timestamps : Bool
  pub lot_id : Option String
  pub panel_id : Option String

module _ {F : Type 0} where
  abbrev exported : (ℕ → String) → ProcessHistoryItem F → Exported F
  exported isoformat row = record {
    equipment_id = row.equipment_id;
    event_type = row.event_type;
    lot_id = row.lot_id;
    panel_id = row.panel_id;
    process_step = row.process_step;
    recipe_id = row.recipe_id;
    equipment_status = row.equipment_status;
    chamber_temperature = row.chamber_temperature;
    vacuum_pressure = row.vacuum_pressure;
    cycle_time_sec = row.cycle_time_sec;
    inspect_result = row.inspect_result;
    timestamp = isoformat row.event_timestamp;
  }

  unfoldable pub export_panel_events : (ℕ → String) → String → Db F → List (Exported F)
  export_panel_events isoformat panel_id db = map (exported isoformat) (panel_history panel_id db)

  abbrev pub replay_row : EquipmentEventIn F → Outcome → ReplayRow
  replay_row payload o = record {
    accepted = o.accepted;
    reason = o.reason;
    lot_status = o.lot_status;
    process_step = payload.process_step;
    equipment_id = payload.equipment_id;
    alarms = map (λ (a : Alarm). a.alarm_code) o.alarms;
  }

  module _ {R : Type 0} (raw : RawOps R F) where
    -- the dictionary of round `i`, with what the caller changes
    unfoldable pub refreshed : ReplayIn → ReplayCall F → ℕ → R → R
    refreshed given call i event =
        let moved =
          if truthy given.lot_id then raw.with_lot_id (get_or given.lot_id "") event else event in
        let placed =
          if truthy given.panel_id
          then raw.with_panel_id (get_or given.panel_id "") moved
          else moved in
        if given.refresh_timestamps
        then raw.with_timestamp (call.stamp + seconds i) placed
        else placed

    abbrev pub summary : ReplayIn → R → List ReplayRow → Replayed
    summary given event rows = record {
      count = length rows;
      accepted = count_where (λ r. r.accepted) rows;
      rejected = count_where (λ r. not r.accepted) rows;
      lot_id = if truthy given.lot_id then given.lot_id else raw.lot_id event;
      panel_id = if truthy given.panel_id then given.panel_id else raw.panel_id event;
      results = rows;
    }

    -- `none` where an event is none, or the ingestion raises
    unfoldable pub replay_all :
        ReplayIn → (ℕ → ReplayCall F) → ℕ → List R → Db F → Option (List ReplayRow × Db F)
    replay_all given calls i [] db = some ([], db)
    replay_all given calls i (event ∷ rest) db =
        elim (raw.parse (refreshed given (calls i) i event)) [
          | none ↦ none
          | some payload ↦
              elim (collect_push (calls i).env payload (calls i).request_id (calls i).event_id db) [
                | none ↦ none
                | some (o, db') ↦ elim (replay_all given calls (suc i) rest db') [
                  | none ↦ none
                  | some (rows, db'') ↦ some (replay_row payload o ∷ rows, db'')
                ]
              ]
        ]

    unfoldable pub replay_events :
        ReplayIn → (ℕ → ReplayCall F) → List R → Db F → Option (ReplayOut × Db F)
    replay_events given calls [] db = some (no_events, db)
    replay_events given calls (event ∷ rest) db =
        elim (replay_all given calls 0 (event ∷ rest) db) [
          | none ↦ none
          | some (rows, db') ↦ some (replayed (summary given event rows), db')
        ]
