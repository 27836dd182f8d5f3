-- ===== src/HostPrep.antt =====
-- backend/app/services/host_prep.py: the host makes the line ready for a recipe. `uuid4` is a
-- parameter, with the texts that it answers for each equipment.
pub mod Kept
use displayfab_smart_factory.Prelude.{
  String, Option, none, some, Bool, true, false, ◌&&◌, ◌||◌, not, List, [], ◌∷◌, truthy, get_or,
  is_some, lookup, contains, ◌==◌, ◌/=◌, string_eq, option_string_eq, if◌then◌else◌,
}
use displayfab_smart_factory.Enums.{
  CommandType, EquipmentStatus, EventType, LotStatus, ProcessStep, step_value, equipment_status_eq,
  lot_status_eq,
}
use displayfab_smart_factory.Models.{Equipment, Lot, Db}
use displayfab_smart_factory.Models.Tables.{get_equipment, get_lot, set_equipment}
use displayfab_smart_factory.Schemas.{EquipmentEventIn, CommandIn, Datetime}
use displayfab_smart_factory.Env.{Env}
use displayfab_smart_factory.Numerals.{strip_prefix}
use displayfab_smart_factory.Commands.{execute_command}
use displayfab_smart_factory.Line.{Action, act}

abbrev pub line_equipment : List String
line_equipment =
    "LOAD-01" ∷ "CLEAN-01" ∷ "PROC-01" ∷ "PROC-02" ∷ "ENC-01" ∷ "PI-01" ∷ "LCD-01" ∷ "INSPECT-01"
    ∷ []

abbrev pub recipe_equipment : List (String × String)
recipe_equipment =
    ("CLEAN-01", "OLED")
    ∷ ("PROC-01", "OLED")
    ∷ ("PROC-02", "OLED")
    ∷ ("ENC-01", "OLED")
    ∷ ("PI-01", "LCD")
    ∷ ("LCD-01", "LCD")
    ∷ []

pub record Uuids : Type 0 where
  pub request_id : String
  pub event_id : String
  pub start_id : String
  pub select_id : String

abbrev pub order : CommandType → String → Option String → CommandIn
order t equipment_id recipe_id = record {
  command_type = t;
  equipment_id = some equipment_id;
  lot_id = none;
  alarm_id = none;
  panel_id = none;
  recipe_id = recipe_id;
  requested_by = "operator";
}

-- an occupying lot that is not being processed
abbrev pub is_idle_lot : Option Lot → Bool
is_idle_lot none = true
is_idle_lot (some lot) = lot.status /= LotStatus.processing

-- the recipe of the equipment, in `prepare_line`
abbrev pub recipe_of_scope : Option String → Bool → String → Option String
recipe_of_scope none oled recipe_id = none
recipe_of_scope (some scope) oled recipe_id =
    if scope == "OLED" && oled
    then some recipe_id
    else if scope == "LCD" && not oled
    then some recipe_id
    else if scope == "OLED"
    then some "RCP-OLED-A01"
    else if scope == "LCD"
    then some "RCP-LCD-C01"
    else none

abbrev pub is_running_row : Option Equipment → Bool
is_running_row none = false
is_running_row (some eq) = eq.equipment_status == EquipmentStatus.run

module _ {F : Type 0} where
  abbrev pub wake_event : Env F → String → EquipmentEventIn F
  wake_event env equipment_id = record {
    equipment_id = equipment_id;
    event_type = EventType.heartbeat;
    lot_id = none;
    panel_id = none;
    process_step = none;
    recipe_id = none;
    equipment_status = EquipmentStatus.run;
    chamber_temperature = none;
    vacuum_pressure = none;
    cycle_time_sec = none;
    timestamp = Datetime.naive env.now;
    inspect_result = none;
    force_db_failure = false;
  }

  unfoldable pub wake_equipment : Env F → Uuids → String → Db F → Option (Db F)
  wake_equipment env u equipment_id db =
      act (Action.push env (wake_event env equipment_id) u.request_id u.event_id) db

  unfoldable pub vacate : Equipment → Db F → Db F
  vacate eq db =
      if truthy eq.current_lot_id && is_idle_lot (get_lot (get_or eq.current_lot_id "") db)
      then set_equipment eq.id (λ row. record row { current_lot_id = none }) db
      else db

  unfoldable pub start : Env F → Uuids → String → Db F → Db F
  start env u equipment_id db =
      if is_running_row (get_equipment equipment_id db)
      then db
      else (execute_command env u.start_id (order CommandType.start equipment_id none) db).1

  unfoldable pub select_given : Env F → Uuids → String → Option String → Db F → Db F
  select_given env u equipment_id recipe_id db =
      if truthy recipe_id && is_some (lookup equipment_id recipe_equipment)
      then (execute_command env u.select_id (order CommandType.select_recipe equipment_id recipe_id)
          db).1
      else db

  unfoldable pub prepare_equipment : Env F → Uuids → String → Option String → Db F → Option (Db F)
  prepare_equipment env u equipment_id recipe_id db = elim (get_equipment equipment_id db) [
    | none ↦ some db
    | some eq ↦
        if eq.equipment_status == EquipmentStatus.maintenance
        then some db
        else elim (wake_equipment env u equipment_id (vacate eq db)) [
          | none ↦ none
          | some db' ↦
              some (select_given env u equipment_id recipe_id (start env u equipment_id db'))
        ]
  ]

  unfoldable pub prepare_all :
      Env F → (String → Uuids) → String → List String → Db F → Option (Db F)
  prepare_all env uuid4 recipe_id [] db = some db
  prepare_all env uuid4 recipe_id (id ∷ rest) db =
      elim (prepare_equipment env (uuid4 id) id
        (recipe_of_scope (lookup id recipe_equipment) (is_some (strip_prefix "RCP-OLED" recipe_id))
          recipe_id)
        db) [ none ↦ none | some db' ↦ prepare_all env uuid4 recipe_id rest db' ]

  unfoldable pub prepare_line : Env F → (String → Uuids) → String → Db F → Option (Db F)
  unfolding prepare_all
  prepare_line env uuid4 recipe_id db = prepare_all env uuid4 recipe_id line_equipment db

-- `recipe_step`
unfoldable pub recipe_step : Option String → Bool
recipe_step none = false
recipe_step (some step) =
    contains
      (step_value ProcessStep.clean
        ∷ step_value ProcessStep.evap
        ∷ step_value ProcessStep.encap
        ∷ step_value ProcessStep.pi
        ∷ step_value ProcessStep.lcd_cell
        ∷ [])
      step
