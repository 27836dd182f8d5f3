-- ===== src/Models.antt =====
-- backend/app/models.py: the tables. A row is a record, a table the list of its rows in the order of
-- insertion, and `Db` the whole database. `F` is the type of floats. A date is a number of
-- microseconds, naive UTC. Relationships are left to the queries that follow them. Texts that only
-- people read (names, alarm messages, log summaries) are left out.
pub mod Tables
use displayfab_smart_factory.Prelude.{ℕ, String, Option, Bool, List}
use displayfab_smart_factory.Enums.{
  EquipmentStatus, ConnectionStatus, LotStatus, PanelStatus, AlarmSeverity, AlarmCode, EventType,
  DowntimeReason, CommandType, CommandStatus, WorkOrderStatus,
}

pub record Equipment : Type 0 where
  pub id : String
  pub process_step : String
  pub product_scope : Option String
  pub equipment_status : EquipmentStatus
  pub connection_status : ConnectionStatus
  pub current_lot_id : Option String
  pub current_recipe_id : Option String
  pub last_seen_at : Option ℕ
  pub interface_type : String

pub record Recipe (F : Type 0) : Type 0 where
  pub id : String
  pub product_type : String
  pub expected_temperature_min : F
  pub expected_temperature_max : F
  pub expected_pressure_min : F
  pub expected_pressure_max : F

pub record Lot : Type 0 where
  pub id : String
  pub cassette_id : String
  pub product_type : String
  pub expected_recipe_id : String
  pub status : LotStatus
  pub current_equipment_id : Option String
  pub current_step : Option String
  pub hold_reason : Option String

pub record Panel : Type 0 where
  pub id : String
  pub lot_id : String
  pub slot_no : ℕ
  pub status : PanelStatus

pub record ProcessEvent (F : Type 0) : Type 0 where
  pub id : ℕ
  pub event_id : String
  pub request_id : String
  pub event_type : EventType
  pub fingerprint : String
  pub equipment_id : String
  pub lot_id : String
  pub panel_id : String
  pub recipe_id : Option String
  pub process_step : String
  pub equipment_status : EquipmentStatus
  pub cycle_time_sec : Option F
  pub event_timestamp : ℕ
  pub received_at : ℕ
  pub inspect_result : Option String

pub record SensorReading (F : Type 0) : Type 0 where
  pub process_event_id : ℕ
  pub equipment_id : String
  pub chamber_temperature : Option F
  pub vacuum_pressure : Option F
  pub recorded_at : ℕ

pub record Telemetry (F : Type 0) : Type 0 where
  pub equipment_id : String
  pub source : EventType
  pub interface_type : String
  pub chamber_temperature : Option F
  pub vacuum_pressure : Option F
  pub equipment_status : EquipmentStatus
  pub recorded_at : ℕ
  pub event_id : String

-- `duration_sec` is in microseconds here
pub record EquipmentDowntime : Type 0 where
  pub equipment_id : String
  pub reason : DowntimeReason
  pub started_at : ℕ
  pub ended_at : Option ℕ
  pub duration_sec : Option ℕ
  pub event_id : Option String

pub record Alarm : Type 0 where
  pub id : ℕ
  pub alarm_id : String
  pub equipment_id : Option String
  pub lot_id : Option String
  pub panel_id : Option String
  pub event_id : Option String
  pub alarm_code : AlarmCode
  pub severity : AlarmSeverity
  pub occurred_at : ℕ
  pub resolved_at : Option ℕ
  pub acknowledged_at : Option ℕ
  pub acknowledged_by : Option String

pub record EventLog : Type 0 where
  pub event_id : String
  pub request_id : String
  pub event_type : EventType
  pub accepted : Bool
  pub reason : Option String
  pub equipment_id : String
  pub lot_id : Option String
  pub panel_id : Option String
  pub process_step : Option String
  pub created_at : ℕ

-- The statuses in a state change are those of an equipment, of a lot or of a panel, or the recipes
-- of an equipment: the source stores their texts, the model which of them it is.
pub data Change : Type 0 where
  equipment_change : EquipmentStatus → EquipmentStatus → Change
  lot_change : LotStatus → LotStatus → Change
  panel_change : PanelStatus → PanelStatus → Change
  recipe_change : Option String → Option String → Change

pub record StateChange : Type 0 where
  pub entity_id : String
  pub change : Change
  pub reason : String
  pub event_id : Option String
  pub changed_at : ℕ

pub record HostCommand : Type 0 where
  pub command_id : String
  pub command_type : CommandType
  pub status : CommandStatus
  pub equipment_id : Option String
  pub lot_id : Option String
  pub alarm_id : Option String
  pub requested_by : String
  pub created_at : ℕ
  pub interface_type : Option String
  pub delivered_at : Option ℕ

pub record WorkOrder : Type 0 where
  pub id : String
  pub product_type : String
  pub recipe_id : String
  pub qty : ℕ
  pub status : WorkOrderStatus
  pub lot_id : Option String
  pub cassette_id : Option String
  pub created_at : ℕ

-- `serial` stands for the sequences from which the database draws the ids of inserted rows.
pub record Db (F : Type 0) : Type 0 where
  pub equipment : List Equipment
  pub recipes : List (Recipe F)
  pub lots : List Lot
  pub panels : List Panel
  pub process_events : List (ProcessEvent F)
  pub sensor_readings : List (SensorReading F)
  pub telemetry : List (Telemetry F)
  pub downtime : List EquipmentDowntime
  pub alarms : List Alarm
  pub event_logs : List EventLog
  pub state_changes : List StateChange
  pub host_commands : List HostCommand
  pub work_orders : List WorkOrder
  pub serial : ℕ
