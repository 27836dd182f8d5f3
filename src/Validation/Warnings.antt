-- ===== src/Validation/Warnings.antt =====
-- The checks of `validate_event` that let an event pass with an alarm: the recipe, which also holds
-- the lot, and the two sensors.
use displayfab_smart_factory.Prelude.{
  Option, none, some, Bool, true, false, ◌&&◌, ◌||◌, List, [], ◌∷◌, ◌++◌, ◌/=◌, string_eq,
  option_string_eq, if◌then◌else◌,
}
use displayfab_smart_factory.Enums.{AlarmCode, AlarmSeverity}
use displayfab_smart_factory.Models.{Recipe, Lot, Db}
use displayfab_smart_factory.Models.Tables.{get_recipe}
use displayfab_smart_factory.Schemas.{EquipmentEventIn}
use displayfab_smart_factory.Env.{Env}
use displayfab_smart_factory.Validation.Guards.{CheckResult}

abbrev pub holding : AlarmCode → CheckResult
holding code = record {
  reject = false;
  code = code;
  severity = some AlarmSeverity.critical;
  hold_lot = true;
}

abbrev pub out_of_range : AlarmCode → AlarmSeverity → CheckResult
out_of_range code severity = record {
  reject = false;
  code = code;
  severity = some severity;
  hold_lot = false;
}

module _ {F : Type 0} where
  -- below the lower bound or above the upper one
  unfoldable pub is_outside : Env F → F → F → F → Bool
  is_outside env value low high = env.float.lt value low || env.float.lt high value

  -- `_temperature_severity` and `_pressure_severity`, which differ in the fields they are given
  unfoldable pub range_severity : Env F → F → F → F → AlarmSeverity
  unfolding is_outside
  range_severity env value lowest highest =
      let margin =
        env.float.mul (env.float.sub highest lowest) env.settings.sensor_critical_deviation_ratio in
      if is_outside env value (env.float.sub lowest margin) (env.float.add highest margin)
      then AlarmSeverity.critical
      else AlarmSeverity.warning

  unfoldable pub temperature_severity : Env F → F → Recipe F → AlarmSeverity
  temperature_severity env value recipe =
      range_severity env value recipe.expected_temperature_min recipe.expected_temperature_max

  unfoldable pub pressure_severity : Env F → F → Recipe F → AlarmSeverity
  pressure_severity env value recipe =
      range_severity env value recipe.expected_pressure_min recipe.expected_pressure_max

  abbrev other_product : Option (Recipe F) → Lot → Bool
  other_product none lot = false
  other_product (some reported) lot = reported.product_type /= lot.product_type

  unfoldable pub mismatch_results : Option (Recipe F) → Lot → List CheckResult
  mismatch_results reported lot =
      (if other_product reported lot then holding AlarmCode.product_route_violation ∷ [] else [])
      ++ holding AlarmCode.recipe_mismatch ∷ []

  unfoldable pub recipe_warnings : EquipmentEventIn F → Lot → Db F → List CheckResult
  unfolding mismatch_results
  recipe_warnings payload lot db = elim payload.recipe_id [
    | none ↦ []
    | some recipe_id ↦
        if recipe_id /= "" && recipe_id /= lot.expected_recipe_id
        then mismatch_results (get_recipe recipe_id db) lot
        else []
  ]

  temperature_results : Env F → Option F → Option (Recipe F) → List CheckResult
  unfolding is_outside
  temperature_results env (some value) (some recipe) =
      if is_outside env value recipe.expected_temperature_min recipe.expected_temperature_max
      then out_of_range AlarmCode.temperature_out_of_range (temperature_severity env value recipe)
        ∷ []
      else []
  temperature_results _ _ _ = []

  pressure_results : Env F → Option F → Option (Recipe F) → List CheckResult
  unfolding is_outside
  pressure_results env (some value) (some recipe) =
      if is_outside env value recipe.expected_pressure_min recipe.expected_pressure_max
      then out_of_range AlarmCode.pressure_out_of_range (pressure_severity env value recipe) ∷ []
      else []
  pressure_results _ _ _ = []

  unfoldable pub temperature_warnings : Env F → EquipmentEventIn F → Lot → Db F → List CheckResult
  unfolding temperature_results
  temperature_warnings env payload lot db =
      temperature_results env payload.chamber_temperature (get_recipe lot.expected_recipe_id db)

  unfoldable pub pressure_warnings : Env F → EquipmentEventIn F → Lot → Db F → List CheckResult
  unfolding pressure_results
  pressure_warnings env payload lot db =
      pressure_results env payload.vacuum_pressure (get_recipe lot.expected_recipe_id db)
