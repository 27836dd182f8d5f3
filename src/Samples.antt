-- ===== src/Samples.antt =====
-- A small line to try the development on: two machines, one OLED lot of two glasses. Floats are
-- whole numbers, a time is written as its number, and a digest is the text itself.
use displayfab_smart_factory.Prelude.{
  ℕ, ◌+◌, ◌-◌, ◌*◌, ◌/◌, ltb, leb, String, none, some, true, false, [], ◌∷◌,
}
use displayfab_smart_factory.Enums.{
  CommandType, ConnectionStatus, EquipmentStatus, EventType, LotStatus, PanelStatus,
}
use displayfab_smart_factory.Models.{Recipe, Equipment, Lot, Panel, Db}
use displayfab_smart_factory.Schemas.{EquipmentEventIn, CommandIn, Datetime}
use displayfab_smart_factory.Env.{Env}
use displayfab_smart_factory.Numerals.{decimal}

abbrev pub lab : Env ℕ
lab = record {
  now = 1000000000;
  settings = record {
    communication_timeout_sec = 5;
    stale_event_threshold_sec = 30;
    future_event_tolerance_sec = 5;
    sensor_critical_deviation_ratio = 1;
    oee_planned_minutes = 0;
  };
  float = record {
    add = λ a b. a + b;
    sub = λ a b. a - b;
    mul = λ a b. a * b;
    div = λ a b. a / b;
    lt = ltb;
    le = leb;
    literal = λ digits decimals. digits;
    round = λ a decimals. a;
  };
  lower = λ s. s;
  upper = λ s. s;
  strftime_day = λ t. "20260101";
  isoformat = λ t. decimal t;
  sha256_hex = λ s. s;
}

abbrev pub machine : String → String → Equipment
machine id step = record {
  id = id;
  process_step = step;
  product_scope = none;
  equipment_status = EquipmentStatus.run;
  connection_status = ConnectionStatus.online;
  current_lot_id = none;
  current_recipe_id = none;
  last_seen_at = some 999000000;
  interface_type = "simulator";
}

abbrev pub lot_one : Lot
lot_one = record {
  id = "LOT-1";
  cassette_id = "CST-1";
  product_type = "OLED";
  expected_recipe_id = "RCP-OLED-A01";
  status = LotStatus.wait;
  current_equipment_id = none;
  current_step = none;
  hold_reason = none;
}

abbrev pub glass : String → ℕ → Panel
glass id slot = record { id = id; lot_id = "LOT-1"; slot_no = slot; status = PanelStatus.wait }

abbrev pub small_line : Db ℕ
small_line = record {
  equipment = machine "LOAD-01" "LOAD" ∷ machine "INSPECT-01" "INSPECT" ∷ [];
  recipes = [];
  lots = lot_one ∷ [];
  panels = glass "PNL-1" 1 ∷ glass "PNL-2" 2 ∷ [];
  process_events = [];
  sensor_readings = [];
  telemetry = [];
  downtime = [];
  alarms = [];
  event_logs = [];
  state_changes = [];
  host_commands = [];
  work_orders = [];
  serial = 1;
}

abbrev pub load_event : EquipmentEventIn ℕ
load_event = record {
  equipment_id = "LOAD-01";
  event_type = EventType.process;
  lot_id = some "LOT-1";
  panel_id = some "PNL-1";
  process_step = some "LOAD";
  recipe_id = none;
  equipment_status = EquipmentStatus.run;
  chamber_temperature = none;
  vacuum_pressure = none;
  cycle_time_sec = none;
  timestamp = Datetime.naive 1000000000;
  inspect_result = none;
  force_db_failure = false;
}

abbrev pub host_orders : CommandType → CommandIn
host_orders t = record {
  command_type = t;
  equipment_id = none;
  lot_id = some "LOT-1";
  alarm_id = none;
  panel_id = none;
  recipe_id = none;
  requested_by = "operator";
}

abbrev pub lost_event : EquipmentEventIn ℕ
lost_event = record load_event { force_db_failure = true }

abbrev pub oled_recipe : Recipe ℕ
oled_recipe = record {
  id = "RCP-OLED-A01";
  product_type = "OLED";
  expected_temperature_min = 80;
  expected_temperature_max = 90;
  expected_pressure_min = 1;
  expected_pressure_max = 2;
}

abbrev pub line_with_recipe : Db ℕ
line_with_recipe = record small_line { recipes = oled_recipe ∷ [] }

abbrev pub idle_beat : EquipmentEventIn ℕ
idle_beat = record load_event {
  event_type = EventType.heartbeat;
  equipment_status = EquipmentStatus.idle;
}
