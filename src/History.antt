-- ===== src/History.antt =====
-- backend/app/services/history.py: what a lot and a glass went through.
use displayfab_smart_factory.Prelude.{
  ℕ, String, Option, none, some, Bool, ◌&&◌, ◌||◌, List, map, find_first, select, ltb, leb, sort_by,
  ◌==◌, string_eq, nat_eq,
}
use displayfab_smart_factory.Enums.{EquipmentStatus, EventType, LotStatus, PanelStatus}
use displayfab_smart_factory.Models.{Lot, Panel, ProcessEvent, SensorReading, Db}
use displayfab_smart_factory.Dispatch.{by_slot}
use displayfab_smart_factory.Validation.Guards.{latest_event}

pub record ProcessHistoryItem (F : Type 0) : Type 0 where
  pub event_id : String
  pub event_type : EventType
  pub equipment_id : String
  pub lot_id : String
  pub panel_id : String
  pub process_step : String
  pub recipe_id : Option String
  pub equipment_status : EquipmentStatus
  pub cycle_time_sec : Option F
  pub chamber_temperature : Option F
  pub vacuum_pressure : Option F
  pub inspect_result : Option String
  pub event_timestamp : ℕ
  pub received_at : ℕ

pub record TravelerSlotOut : Type 0 where
  pub slot_no : ℕ
  pub panel_id : String
  pub status : PanelStatus
  pub last_step : Option String
  pub last_equipment_id : Option String
  pub last_at : Option ℕ

pub record TravelerOut : Type 0 where
  pub lot_id : String
  pub cassette_id : String
  pub product_type : String
  pub recipe_id : String
  pub status : LotStatus
  pub hold_reason : Option String
  pub current_step : Option String
  pub current_equipment_id : Option String
  pub slots : List TravelerSlotOut

module _ {F : Type 0} where
  abbrev temperature_of : Option (SensorReading F) → Option F
  temperature_of none = none
  temperature_of (some reading) = reading.chamber_temperature

  abbrev pressure_of : Option (SensorReading F) → Option F
  pressure_of none = none
  pressure_of (some reading) = reading.vacuum_pressure

  -- the sensor reading that belongs to an event
  abbrev pub reading_of : ProcessEvent F → Db F → Option (SensorReading F)
  reading_of row db = find_first (λ r. r.process_event_id == row.id) db.sensor_readings

  abbrev pub history_item : Db F → ProcessEvent F → ProcessHistoryItem F
  history_item db row = record {
    event_id = row.event_id;
    event_type = row.event_type;
    equipment_id = row.equipment_id;
    lot_id = row.lot_id;
    panel_id = row.panel_id;
    process_step = row.process_step;
    recipe_id = row.recipe_id;
    equipment_status = row.equipment_status;
    cycle_time_sec = row.cycle_time_sec;
    chamber_temperature = temperature_of (reading_of row db);
    vacuum_pressure = pressure_of (reading_of row db);
    inspect_result = row.inspect_result;
    event_timestamp = row.event_timestamp;
    received_at = row.received_at;
  }

  abbrev pub events_to_history : Db F → List (ProcessEvent F) → List (ProcessHistoryItem F)
  events_to_history db rows = map (history_item db) rows

  -- `order_by(event_timestamp.asc(), id.asc())`
  abbrev pub in_time : ProcessEvent F → ProcessEvent F → Bool
  in_time a b =
      ltb a.event_timestamp b.event_timestamp
      || (a.event_timestamp == b.event_timestamp && leb a.id b.id)

  unfoldable pub lot_history : String → Db F → List (ProcessHistoryItem F)
  lot_history lot_id db =
      events_to_history db (sort_by in_time (select (λ e. e.lot_id == lot_id) db.process_events))

  unfoldable pub panel_history : String → Db F → List (ProcessHistoryItem F)
  panel_history panel_id db =
      events_to_history db
        (sort_by in_time (select (λ e. e.panel_id == panel_id) db.process_events))

  abbrev slot_of : Panel → Option (ProcessEvent F) → TravelerSlotOut
  slot_of panel none = record {
    slot_no = panel.slot_no;
    panel_id = panel.id;
    status = panel.status;
    last_step = none;
    last_equipment_id = none;
    last_at = none;
  }
  slot_of panel (some last) = record {
    slot_no = panel.slot_no;
    panel_id = panel.id;
    status = panel.status;
    last_step = some last.process_step;
    last_equipment_id = some last.equipment_id;
    last_at = some last.event_timestamp;
  }

  unfoldable pub lot_traveler : Lot → Db F → TravelerOut
  lot_traveler lot db = record {
    lot_id = lot.id;
    cassette_id = lot.cassette_id;
    product_type = lot.product_type;
    recipe_id = lot.expected_recipe_id;
    status = lot.status;
    hold_reason = lot.hold_reason;
    current_step = lot.current_step;
    current_equipment_id = lot.current_equipment_id;
    slots =
        map
          (λ (p : Panel).
            slot_of p (latest_event (select (λ e. e.panel_id == p.id) db.process_events)))
          (by_slot (select (λ p. p.lot_id == lot.id) db.panels));
  }
