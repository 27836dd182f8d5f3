-- ===== src/Validation.antt =====
-- backend/app/services/validation.py: the checks of an event before it is stored. An early
-- `return [CheckResult(reject=True, …)]` is `stop`, and a check that lets the event pass is `pass`.
-- The texts of the results are left out.
pub mod Guards
pub mod Warnings
pub mod Conditions
pub mod Admission
pub mod Raising
use displayfab_smart_factory.Prelude.{Option, none, some, List, [], ◌∷◌, ◌++◌}
use displayfab_smart_factory.Enums.{EventType}
use displayfab_smart_factory.Models.{Equipment, Db}
use displayfab_smart_factory.Schemas.{EquipmentEventIn}
use displayfab_smart_factory.Env.{Env}
use Guards.{
  Checked, pass, stop, overflow, CheckResult, rejection, ◌>>=◌, ◌>>◌, known_equipment,
  check_timestamp, check_duplicate, required_fields, check_connection, check_running, check_step,
  known_lot, known_panel, check_product, check_recipe, check_busy, check_sequence, check_hold,
}
use Warnings.{recipe_warnings, temperature_warnings, pressure_warnings}

-- the results, unless a check raised
abbrev pub results_of : Checked (List CheckResult) → Option (List CheckResult)
results_of (pass results) = some results
results_of (stop code) = some (rejection code ∷ [])
results_of overflow = none

module _ {F : Type 0} where
  -- what comes after `if event_type == HEARTBEAT: return []`
  unfoldable pub validate_process :
      Env F → EquipmentEventIn F → Equipment → Db F → Checked (List CheckResult)
  validate_process env payload eq db = do
    check_duplicate env payload db
    fields ← required_fields payload
    check_connection eq
    check_running eq
    check_step eq fields.step
    lot ← known_lot fields.lot_id db
    panel ← known_panel fields.panel_id lot db
    check_product eq lot
    check_recipe eq payload.recipe_id
    check_busy eq lot
    check_sequence lot panel fields.step db
    check_hold lot
    pass (
        recipe_warnings payload lot db
        ++ (temperature_warnings env payload lot db ++ pressure_warnings env payload lot db))

  abbrev by_type :
      EventType → Env F → EquipmentEventIn F → Equipment → Db F → Checked (List CheckResult)
  by_type EventType.heartbeat env payload eq db = pass []
  by_type EventType.process env payload eq db = validate_process env payload eq db

  unfoldable pub checked_event : Env F → EquipmentEventIn F → Db F → Checked (List CheckResult)
  checked_event env payload db = do
    eq ← known_equipment payload db
    check_timestamp env payload
    by_type payload.event_type env payload eq db

  unfoldable pub validate_event : Env F → EquipmentEventIn F → Db F → Option (List CheckResult)
  unfolding checked_event
  validate_event env payload db = results_of (checked_event env payload db)
