-- ===== src/Schemas.antt =====
-- backend/app/schemas.py: the requests, as pydantic hands them to the services.
use displayfab_smart_factory.Prelude.{
  ℕ, ◌+◌, ◌-◌, String, Option, none, some, Bool, leb, get_or, if◌then◌else◌,
}
use displayfab_smart_factory.Enums.{EquipmentStatus, EventType, CommandType}

-- Python's `datetime`: the wall clock, and for an aware value how far its zone is ahead of or behind
-- UTC. In microseconds.
pub data Datetime : Type 0 where
  naive : ℕ → Datetime
  ahead behind : ℕ → ℕ → Datetime

pub record EquipmentEventIn (F : Type 0) : Type 0 where
  pub equipment_id : String
  pub event_type : EventType
  pub lot_id : Option String
  pub panel_id : Option String
  pub process_step : Option String
  pub recipe_id : Option String
  pub equipment_status : EquipmentStatus
  pub chamber_temperature : Option F
  pub vacuum_pressure : Option F
  pub cycle_time_sec : Option F
  pub timestamp : Datetime
  pub inspect_result : Option String
  pub force_db_failure : Bool

pub record CommandIn : Type 0 where
  pub command_type : CommandType
  pub equipment_id : Option String
  pub lot_id : Option String
  pub alarm_id : Option String
  pub panel_id : Option String
  pub recipe_id : Option String
  pub requested_by : String

-- `datetime.max`, in microseconds from `datetime.min`
abbrev pub datetime_max : ℕ
datetime_max = 315537897599999999

-- timeutil.py: a naive value is taken for UTC. `none` where `astimezone` raises `OverflowError`, since
-- the value in UTC is not between `datetime.min` and `datetime.max`.
unfoldable pub as_naive_utc : Datetime → Option ℕ
as_naive_utc (Datetime.naive t) = some t
as_naive_utc (Datetime.ahead t offset) = if leb offset t then some (t - offset) else none
as_naive_utc (Datetime.behind t offset) =
    if leb (t + offset) datetime_max then some (t + offset) else none

-- the same, where an earlier call has not raised
unfoldable pub utc_of : Datetime → ℕ
utc_of value = get_or (as_naive_utc value) 0
