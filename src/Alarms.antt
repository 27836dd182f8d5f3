-- ===== src/Alarms.antt =====
-- backend/app/services/alarm_service.py. The numbers are in the child module.
pub mod Ids
use Prim.Native.String.{◌++◌ as append}
use displayfab_smart_factory.Prelude.{
  ℕ, suc, ◌+◌, ◌≤◌, String, Option, none, some, Bool, true, ◌&&◌, List, [], ◌∷◌, ◌++◌, leb,
  find_first, update_where, count_where, is_some, not, ◌==◌, option_string_eq, if◌then◌else◌,
  get_or,
}
use displayfab_smart_factory.Enums.{AlarmCode, AlarmSeverity, alarm_code_eq, alarm_severity_by_code}
use displayfab_smart_factory.Models.{Alarm, Db}
use displayfab_smart_factory.Env.{Env}
use displayfab_smart_factory.Numerals.{decimal, read_decimal, strip_prefix}

-- `order_by(Alarm.id.desc()).first()`
unfoldable pub newest : List Alarm → Option Alarm
newest [] = none
newest (a ∷ rest) = elim (newest rest) [
  | none ↦ some a
  | some b ↦ if leb a.id b.id then some b else some a
]

-- The number behind `ALM-`; where the source cannot read one it takes the row's id.
unfoldable pub alarm_number : Alarm → ℕ
alarm_number last = elim (strip_prefix "ALM-" last.alarm_id) [
  | none ↦ last.id + 1001
  | some tail ↦ elim (read_decimal tail) [ none ↦ last.id + 1001 | some seq ↦ seq + 1 ]
]

unfoldable pub next_alarm_number : List Alarm → ℕ
unfolding newest alarm_number
next_alarm_number alarms = elim (newest alarms) [ none ↦ 1001 | some last ↦ alarm_number last ]

unfoldable pub alarm_text : ℕ → String
alarm_text seq = append "ALM-" (decimal seq)

unfoldable pub next_alarm_id : List Alarm → String
next_alarm_id alarms = alarm_text (next_alarm_number alarms)

-- what the callers of `create_alarm` give it
pub record AlarmRequest : Type 0 where
  pub code : AlarmCode
  pub equipment_id : Option String
  pub lot_id : Option String
  pub panel_id : Option String
  pub event_id : Option String
  pub severity : Option AlarmSeverity

unfoldable pub new_alarm : ℕ → ℕ → List Alarm → AlarmRequest → Alarm
new_alarm now id alarms r = record {
  id = id;
  alarm_id = next_alarm_id alarms;
  equipment_id = r.equipment_id;
  lot_id = r.lot_id;
  panel_id = r.panel_id;
  event_id = r.event_id;
  alarm_code = r.code;
  severity = get_or r.severity (alarm_severity_by_code r.code);
  occurred_at = now;
  resolved_at = none;
  acknowledged_at = none;
  acknowledged_by = none;
}

-- an alarm of the equipment and the code that is not resolved
abbrev pub is_open : String → AlarmCode → Alarm → Bool
is_open equipment_id code a =
    a.equipment_id == some equipment_id && a.alarm_code == code && not (is_some a.resolved_at)

abbrev resolve : ℕ → Alarm → Alarm
resolve now a = record a { resolved_at = some now }

module _ {F : Type 0} where
  -- the alarm, and the database with it
  unfoldable pub create_alarm : Env F → AlarmRequest → Db F → Alarm × Db F
  create_alarm env r db =
      let alarm = new_alarm env.now db.serial db.alarms r in
      (alarm, record db { alarms = db.alarms ++ alarm ∷ []; serial = suc db.serial })

  unfoldable pub open_alarm : Db F → String → AlarmCode → Option Alarm
  open_alarm db equipment_id code = find_first (is_open equipment_id code) db.alarms

  -- the count that the source returns is the number of rows that are changed
  unfoldable pub resolve_open_alarms : Env F → String → AlarmCode → Db F → Db F
  resolve_open_alarms env equipment_id code db = record db {
    alarms = update_where (is_open equipment_id code) (resolve env.now) db.alarms;
  }
