-- ===== src/Validation/Guards.antt =====
-- The checks of `validate_event` that reject, one function for each, in the source's order.
use displayfab_smart_factory.Prelude.{
  ◌+◌, String, Option, none, some, Bool, true, false, ◌&&◌, ◌||◌, not, List, [], ◌∷◌, ltb, leb,
  select, any_of, contains, truthy, lookup, get_or, is_some, ◌==◌, ◌/=◌, string_eq,
  option_string_eq, nat_eq, if◌then◌else◌,
}
use displayfab_smart_factory.Enums.{
  AlarmCode, AlarmSeverity, ConnectionStatus, EquipmentStatus, LotStatus, PanelStatus, ProcessStep,
  step_value, connection_status_eq, equipment_status_eq, lot_status_eq, panel_status_eq,
}
use displayfab_smart_factory.Rules.{
  equipment_step, equipment_product, normalize_step, allowed_next_steps,
}
use displayfab_smart_factory.Models.{Equipment, Lot, Panel, ProcessEvent, Db}
use displayfab_smart_factory.Models.Tables.{get_equipment, get_lot, get_panel}
use displayfab_smart_factory.Schemas.{EquipmentEventIn, as_naive_utc}
use displayfab_smart_factory.Env.{Env, seconds}
use displayfab_smart_factory.Fingerprint.{event_fingerprint}

pub record CheckResult : Type 0 where
  pub reject : Bool
  pub code : AlarmCode
  pub severity : Option AlarmSeverity
  pub hold_lot : Bool

abbrev pub rejection : AlarmCode → CheckResult
rejection code = record { reject = true; code = code; severity = none; hold_lot = false }

pub data Checked {ℓ} (A : Type ℓ) : Type ℓ where
  pass : A → Checked A
  stop : AlarmCode → Checked A
  -- the `OverflowError` of `as_naive_utc`, which nothing catches
  overflow : Checked A

infixl 5 ◌>>=◌ ◌>>◌
abbrev pub ◌>>=◌ {ℓ κ} : {A : Type ℓ} {B : Type κ} → Checked A → (A → Checked B) → Checked B
pass a >>= f = f a
stop code >>= f = stop code
overflow >>= f = overflow

abbrev pub ◌>>◌ {ℓ} : {B : Type ℓ} → Checked (Unit {0}) → Checked B → Checked B
m >> k = m >>= λ _. k

-- `if failed: return [CheckResult(reject=True, code=code)]`
abbrev pub refuse_if : Bool → AlarmCode → Checked (Unit {0})
refuse_if true code = stop code
refuse_if false code = pass tt

abbrev found {ℓ} : {A : Type ℓ} → Option A → AlarmCode → Checked A
found none code = stop code
found (some a) code = pass a

-- the fields that a PROCESS event must have
pub record Named : Type 0 where
  pub lot_id : String
  pub panel_id : String
  pub step : String

named : Option String → Option String → Option String → Checked Named
named (some lot_id) (some panel_id) (some step) =
    if lot_id == "" || panel_id == "" || step == ""
    then stop AlarmCode.invalid_lot
    else pass (record { lot_id = lot_id; panel_id = panel_id; step = step })
named _ _ _ = stop AlarmCode.invalid_lot

-- steps whose equipment works by a recipe
abbrev pub recipe_steps : List String
recipe_steps =
    step_value ProcessStep.clean
    ∷ step_value ProcessStep.evap
    ∷ step_value ProcessStep.encap
    ∷ step_value ProcessStep.pi
    ∷ step_value ProcessStep.lcd_cell
    ∷ []

unfoldable pub check_connection : Equipment → Checked (Unit {0})
check_connection eq =
    refuse_if (eq.connection_status == ConnectionStatus.offline && is_some eq.last_seen_at)
      AlarmCode.communication_loss

unfoldable pub check_running : Equipment → Checked (Unit {0})
check_running eq =
    if eq.equipment_status == EquipmentStatus.maintenance
    then stop AlarmCode.equipment_maintenance
    else refuse_if
        (eq.equipment_status == EquipmentStatus.idle
          || eq.equipment_status == EquipmentStatus.stop
          || eq.equipment_status == EquipmentStatus.error)
        AlarmCode.equipment_stopped

abbrev pub step_differs : Option String → String → Bool
step_differs none step = false
step_differs (some expected) step = expected /= "" && step /= expected

unfoldable pub check_step : Equipment → String → Checked (Unit {0})
check_step eq step =
    refuse_if (step_differs (lookup eq.id equipment_step) step) AlarmCode.interlock_violation

abbrev pub product_differs : Option String → String → Bool
product_differs none product_type = false
product_differs (some scope) product_type = scope /= "" && scope /= product_type

unfoldable pub check_product : Equipment → Lot → Checked (Unit {0})
check_product eq lot =
    refuse_if (product_differs (get_or (lookup eq.id equipment_product) none) lot.product_type)
      AlarmCode.product_route_violation

abbrev pub works_by_recipe : Option String → Bool
works_by_recipe none = false
works_by_recipe (some expected) = contains recipe_steps expected

unfoldable pub check_recipe : Equipment → Option String → Checked (Unit {0})
check_recipe eq recipe_id =
    if works_by_recipe (lookup eq.id equipment_step)
    then (if not (truthy eq.current_recipe_id)
        then stop AlarmCode.recipe_not_selected
        else refuse_if (truthy recipe_id && recipe_id /= eq.current_recipe_id)
            AlarmCode.recipe_mismatch)
    else pass tt

unfoldable pub check_busy : Equipment → Lot → Checked (Unit {0})
check_busy eq lot =
    refuse_if
      (eq.equipment_status == EquipmentStatus.run
        && truthy eq.current_lot_id
        && eq.current_lot_id /= some lot.id)
      AlarmCode.equipment_busy

unfoldable pub check_hold : Lot → Checked (Unit {0})
check_hold lot = refuse_if (lot.status == LotStatus.hold) AlarmCode.interlock_violation

-- the checks of the glass itself
belongs : Option Panel → Lot → Checked Panel
belongs none lot = stop AlarmCode.invalid_panel
belongs (some panel) lot =
    if panel.lot_id /= lot.id
    then stop AlarmCode.invalid_panel
    else if panel.status == PanelStatus.scrap
    then stop AlarmCode.panel_scrapped
    else pass panel

module _ {F : Type 0} where
  abbrev later : ProcessEvent F → ProcessEvent F → Bool
  later a b =
      ltb b.event_timestamp a.event_timestamp
      || (a.event_timestamp == b.event_timestamp && leb b.id a.id)

  -- `order_by(event_timestamp.desc(), id.desc()).first()`
  unfoldable pub latest_event : List (ProcessEvent F) → Option (ProcessEvent F)
  latest_event [] = none
  latest_event (e ∷ rest) = elim (latest_event rest) [
    | none ↦ some e
    | some b ↦ if later b e then some b else some e
  ]

  abbrev pub step_of : Option (ProcessEvent F) → Option String
  step_of none = none
  step_of (some row) = normalize_step (some row.process_step)

  unfoldable pub last_step : String → Db F → Option String
  last_step panel_id db =
      step_of (latest_event (select (λ e. e.panel_id == panel_id) db.process_events))

  unfoldable pub known_equipment : EquipmentEventIn F → Db F → Checked Equipment
  known_equipment payload db =
      found (get_equipment payload.equipment_id db) AlarmCode.unknown_equipment

  unfoldable pub check_timestamp : Env F → EquipmentEventIn F → Checked (Unit {0})
  check_timestamp env payload = elim (as_naive_utc payload.timestamp) [
    | none ↦ overflow
    | some event_ts ↦
        if ltb (event_ts + seconds env.settings.stale_event_threshold_sec) env.now
        then stop AlarmCode.stale_timestamp
        else refuse_if (ltb (env.now + seconds env.settings.future_event_tolerance_sec) event_ts)
            AlarmCode.stale_timestamp
  ]

  unfoldable pub check_duplicate : Env F → EquipmentEventIn F → Db F → Checked (Unit {0})
  check_duplicate env payload db =
      refuse_if (any_of (λ e. e.fingerprint == event_fingerprint env payload) db.process_events)
        AlarmCode.duplicate_event

  unfoldable pub required_fields : EquipmentEventIn F → Checked Named
  unfolding named
  required_fields payload =
      named payload.lot_id payload.panel_id (normalize_step payload.process_step)

  unfoldable pub known_lot : String → Db F → Checked Lot
  known_lot lot_id db = found (get_lot lot_id db) AlarmCode.invalid_lot

  unfoldable pub known_panel : String → Lot → Db F → Checked Panel
  unfolding belongs
  known_panel panel_id lot db = belongs (get_panel panel_id db) lot

  unfoldable pub check_sequence : Lot → Panel → String → Db F → Checked (Unit {0})
  check_sequence lot panel step db =
      refuse_if (not (contains (allowed_next_steps lot.product_type (last_step panel.id db)) step))
        AlarmCode.step_sequence_violation
