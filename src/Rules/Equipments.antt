-- ===== src/Rules/Equipments.antt =====
-- The equipment tables of rules.py agree with the routes.
use displayfab_smart_factory.Prelude.{
  ℕ, zero, suc, String, Option, none, some, List, ◌≡◌, refl, Bool, true, lookup, ◌==◌, string_eq,
  option_string_eq, String-discrete, get_or, select,
}
use displayfab_smart_factory.Enums.{ProductType, product_value}
use displayfab_smart_factory.Rules.{
  oled_route, lcd_route, equipment_step, equipment_product, equipment_for_step, alias, route_for,
  next_operation, next_position, operation_at, last_given,
}

-- an equipment with no product scope takes both products
abbrev pub scope_admits : Option String → String → Bool
scope_admits none product_type = true
scope_admits (some scope) product_type = scope == product_type

-- The equipment is there, does the step, and takes glass of the product.
pub record Fits (p step equipment : String) : Type 0 where
  pub does_step : lookup equipment equipment_step ≡ some step
  pub takes_product : scope_admits (get_or (lookup equipment equipment_product) none) p ≡ true

abbrev pub FitsAt : List String → String → ℕ → Type 0
FitsAt route p i =
    (step : String)
    → (operation_at route i).0 ≡ some step
    → (equipment : String) × ((operation_at route i).1 ≡ some equipment) × Fits p step equipment

pub oled_fits : (i : ℕ) → FitsAt oled_route "OLED" i
unfolding operation_at equipment_for_step alias lookup select String-discrete
oled_fits zero s h = ("LOAD-01", refl, record { does_step = h; takes_product = refl })
oled_fits (suc zero) s h = ("CLEAN-01", refl, record { does_step = h; takes_product = refl })
oled_fits (suc (suc zero)) s h = ("PROC-01", refl, record { does_step = h; takes_product = refl })
oled_fits (suc (suc (suc zero))) s h =
    ("ENC-01", refl, record { does_step = h; takes_product = refl })
oled_fits (suc (suc (suc (suc zero)))) s h =
    ("INSPECT-01", refl, record { does_step = h; takes_product = refl })
oled_fits (suc (suc (suc (suc (suc i))))) s h = cc

pub lcd_fits : (i : ℕ) → FitsAt lcd_route "LCD" i
unfolding operation_at equipment_for_step alias lookup select String-discrete
lcd_fits zero s h = ("LOAD-01", refl, record { does_step = h; takes_product = refl })
lcd_fits (suc zero) s h = ("PI-01", refl, record { does_step = h; takes_product = refl })
lcd_fits (suc (suc zero)) s h = ("LCD-01", refl, record { does_step = h; takes_product = refl })
lcd_fits (suc (suc (suc zero))) s h =
    ("INSPECT-01", refl, record { does_step = h; takes_product = refl })
lcd_fits (suc (suc (suc (suc i)))) s h = cc

-- For both products, an operation that `next_operation` names has an equipment, which is listed for
-- that step and takes the product.
pub next_operation-Fits :
    (t : ProductType) (last : Option String) (step : String)
    → (next_operation (product_value t) last).0 ≡ some step
    → (equipment : String) × ((next_operation (product_value t) last).1 ≡ some equipment)
      × Fits (product_value t) step equipment
unfolding next_operation route_for String-discrete
next_operation-Fits ProductType.oled last = oled_fits (next_position oled_route (last_given last))
next_operation-Fits ProductType.lcd last = lcd_fits (next_position lcd_route (last_given last))
