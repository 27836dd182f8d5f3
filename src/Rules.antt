-- ===== src/Rules.antt =====
-- backend/app/domain/rules.py: the routes of the two products, and what each equipment may do.
-- Steps, products and equipment are texts, as in the source. The proofs are in the child modules.
pub mod Routes
pub mod Equipments
pub mod Aliases
use displayfab_smart_factory.Prelude.{
  ℕ, zero, suc, String, Option, none, some, List, [], ◌∷◌, ◌++◌, map, truthy, select, lookup,
  index_of, get_elem?, get_or, option_to_list, ◌==◌, string_eq, option_string_eq, if◌then◌else◌,
}
use displayfab_smart_factory.Enums.{ProductType, product_value, ProcessStep, step_value}

abbrev pub step_aliases : List (String × String)
step_aliases =
    (step_value ProcessStep.deposition, step_value ProcessStep.evap)
    ∷ ("DEPO", step_value ProcessStep.evap)
    ∷ ("CELL", step_value ProcessStep.lcd_cell)
    ∷ ("PI_COAT", step_value ProcessStep.pi)
    ∷ []

abbrev pub oled_route : List String
oled_route =
    step_value ProcessStep.load
    ∷ step_value ProcessStep.clean
    ∷ step_value ProcessStep.evap
    ∷ step_value ProcessStep.encap
    ∷ step_value ProcessStep.inspect
    ∷ []

abbrev pub lcd_route : List String
lcd_route =
    step_value ProcessStep.load
    ∷ step_value ProcessStep.pi
    ∷ step_value ProcessStep.lcd_cell
    ∷ step_value ProcessStep.inspect
    ∷ []

abbrev pub equipment_step : List (String × String)
equipment_step =
    ("LOAD-01", step_value ProcessStep.load)
    ∷ ("CLEAN-01", step_value ProcessStep.clean)
    ∷ ("PROC-01", step_value ProcessStep.evap)
    ∷ ("PROC-02", step_value ProcessStep.evap)
    ∷ ("ENC-01", step_value ProcessStep.encap)
    ∷ ("PI-01", step_value ProcessStep.pi)
    ∷ ("LCD-01", step_value ProcessStep.lcd_cell)
    ∷ ("INSPECT-01", step_value ProcessStep.inspect)
    ∷ []

abbrev pub equipment_product : List (String × Option String)
equipment_product =
    ("LOAD-01", none)
    ∷ ("CLEAN-01", some (product_value ProductType.oled))
    ∷ ("PROC-01", some (product_value ProductType.oled))
    ∷ ("PROC-02", some (product_value ProductType.oled))
    ∷ ("ENC-01", some (product_value ProductType.oled))
    ∷ ("PI-01", some (product_value ProductType.lcd))
    ∷ ("LCD-01", some (product_value ProductType.lcd))
    ∷ ("INSPECT-01", none)
    ∷ []

-- whole seconds; the source writes them as floats
abbrev pub ideal_cycle_table : List (String × Option ℕ)
ideal_cycle_table =
    (step_value ProcessStep.load, none)
    ∷ (step_value ProcessStep.clean, some 18)
    ∷ (step_value ProcessStep.evap, some 46)
    ∷ (step_value ProcessStep.encap, some 30)
    ∷ (step_value ProcessStep.pi, some 22)
    ∷ (step_value ProcessStep.lcd_cell, some 40)
    ∷ (step_value ProcessStep.inspect, some 12)
    ∷ []

-- `STEP_ALIASES.get(step, step)`
unfoldable pub alias : String → String
alias step = get_or (lookup step step_aliases) step

abbrev pub normalize_step : Option String → Option String
normalize_step none = none
normalize_step (some step) = some (alias step)

unfoldable pub ideal_cycle_sec : Option String → Option ℕ
ideal_cycle_sec none = none
ideal_cycle_sec (some step) = get_or (lookup (alias step) ideal_cycle_table) none

unfoldable pub route_for : String → List String
route_for product_type =
    if product_type == product_value ProductType.lcd then lcd_route else oled_route

unfoldable pub equipment_ids_for_step : Option String → List String
equipment_ids_for_step none = []
equipment_ids_for_step (some step) =
    map (λ row. row.0) (select (λ row. row.1 == alias step) equipment_step)

unfoldable pub equipment_for_step : Option String → Option String
unfolding equipment_ids_for_step
equipment_for_step step = get_elem? (equipment_ids_for_step step) 0

-- the step behind position `idx` of the route, with the equipment that does it
unfoldable pub operation_at : List String → ℕ → Option String × Option String
operation_at route i = let step = get_elem? route i in (step, equipment_for_step step)

abbrev pub last_given : Option String → Option String
last_given last_step = if truthy last_step then normalize_step last_step else none

-- where the route goes on: at its start, or behind the last step
unfoldable pub next_position : List String → Option String → ℕ
next_position route none = 0
next_position route (some last_step) = elim (index_of route last_step) [
  | none ↦ 0
  | some idx ↦ suc idx
]

unfoldable pub next_operation : String → Option String → Option String × Option String
unfolding operation_at next_position
next_operation product_type last_step =
    let route = route_for product_type in
    operation_at route (next_position route (last_given last_step))

unfoldable pub allowed_from : List String → Option String → List String
allowed_from route none = option_to_list (get_elem? route 0)
allowed_from route (some last_step) = elim (index_of route last_step) [
  | none ↦ option_to_list (get_elem? route 0)
  | some idx ↦ last_step ∷ option_to_list (get_elem? route (suc idx))
]

unfoldable pub allowed_next_steps : String → Option String → List String
unfolding allowed_from
allowed_next_steps product_type last_step =
    allowed_from (route_for product_type) (normalize_step last_step)
