-- ===== src/Maintenance.antt =====
-- backend/app/services/maintenance.py: the reset of the public demo.
pub mod Reset
use displayfab_smart_factory.Prelude.{
  ℕ, ◌+◌, String, Option, none, some, List, [], ◌∷◌, map, length, Bool, true,
}
use displayfab_smart_factory.Enums.{ConnectionStatus, EquipmentStatus}
use displayfab_smart_factory.Models.{Equipment, Db}
use displayfab_smart_factory.Env.{FloatOps}
use displayfab_smart_factory.Seed.{ensure_masters, seed_sample_lots}

abbrev pub asleep : Equipment → Equipment
asleep eq = record eq {
  equipment_status = EquipmentStatus.idle;
  connection_status = ConnectionStatus.offline;
  current_lot_id = none;
  current_recipe_id = none;
  last_seen_at = none;
}

pub record ResetOut : Type 0 where
  pub ok : Bool
  pub deleted : List (String × ℕ)
  pub deleted_total : ℕ

-- `sum(deleted.values())`
unfoldable pub total : List (String × ℕ) → ℕ
total [] = 0
total ((table, n) ∷ rest) = n + total rest

module _ {F : Type 0} where
  -- the rows that each `delete` counts, in the order of `TRANSACTIONAL`
  abbrev pub row_counts : Db F → List (String × ℕ)
  row_counts db =
      ("sensor_reading", length db.sensor_readings)
      ∷ ("telemetry", length db.telemetry)
      ∷ ("equipment_downtime", length db.downtime)
      ∷ ("process_event", length db.process_events)
      ∷ ("alarm", length db.alarms)
      ∷ ("event_log", length db.event_logs)
      ∷ ("state_change", length db.state_changes)
      ∷ ("host_command", length db.host_commands)
      ∷ ("work_order", length db.work_orders)
      ∷ ("panel", length db.panels)
      ∷ ("lot", length db.lots)
      ∷ []

  abbrev pub cleared : Db F → Db F
  cleared db = record {
    equipment = map asleep db.equipment;
    recipes = db.recipes;
    lots = [];
    panels = [];
    process_events = [];
    sensor_readings = [];
    telemetry = [];
    downtime = [];
    alarms = [];
    event_logs = [];
    state_changes = [];
    host_commands = [];
    work_orders = [];
    serial = db.serial;
  }

  unfoldable pub reset_demo_data : FloatOps F → Db F → Option (ResetOut × Db F)
  unfolding total
  reset_demo_data float db = elim (seed_sample_lots (ensure_masters float (cleared db))) [
    | none ↦ none
    | some db' ↦
        some (
          record { ok = true; deleted = row_counts db; deleted_total = total (row_counts db) },
          db',
        )
  ]
