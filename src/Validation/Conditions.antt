-- ===== src/Validation/Conditions.antt =====
-- What each check of `Validation.Guards` asks for, in both directions.
use displayfab_smart_factory.Prelude.{
  is_some, Option-cases, inl, inr, ◌+◌, ◌≤◌, String, Option, none, some, true, false, ◌≡◌, ◌≢◌, ◌↔◌,
  ◌⊎◌, arith, any_of, contains, truthy, lookup, lookup-ne, Option_String-discrete, get_or, ◌==◌,
  string_eq, option_string_eq, refl, String-discrete,
}
use displayfab_smart_factory.Enums.{ConnectionStatus, EquipmentStatus, LotStatus, PanelStatus}
use displayfab_smart_factory.Rules.{
  equipment_step, equipment_product, normalize_step, allowed_next_steps,
}
use displayfab_smart_factory.Rules.Equipments.{scope_admits}
use displayfab_smart_factory.Models.{Equipment, Lot, Panel, Db}
use displayfab_smart_factory.Models.Tables.{get_equipment, get_lot, get_panel}
use displayfab_smart_factory.Schemas.{EquipmentEventIn, as_naive_utc, utc_of}
use displayfab_smart_factory.Env.{Env, seconds}
use displayfab_smart_factory.Fingerprint.{event_fingerprint}
use displayfab_smart_factory.Validation.Guards.{
  Checked, pass, Named, works_by_recipe, known_equipment, check_timestamp, check_duplicate,
  required_fields, check_connection, check_running, check_step, known_lot, known_panel,
  check_product, check_recipe, check_busy, check_sequence, check_hold, last_step,
}

abbrev Passes : Checked (Unit {0}) → Type 0
Passes m = m ≡ pass tt

abbrev pub IsConnected : Equipment → Type 0
IsConnected eq = (eq.connection_status ≡ ConnectionStatus.online) ⊎ (eq.last_seen_at ≡ none)

-- the recipe is selected where the equipment works by one, and the event names no other
abbrev pub HasRecipe : Equipment → Option String → Type 0
HasRecipe eq recipe_id =
    works_by_recipe (lookup eq.id equipment_step) ≡ true
    → (truthy eq.current_recipe_id ≡ true)
      × ((truthy recipe_id ≡ false) ⊎ (recipe_id ≡ eq.current_recipe_id))

abbrev pub IsFree : Equipment → Lot → Type 0
IsFree eq lot = (truthy eq.current_lot_id ≡ false) ⊎ (eq.current_lot_id ≡ some lot.id)

abbrev pub DoesStep : Equipment → String → Type 0
DoesStep eq step = (lookup eq.id equipment_step ≡ none) ⊎ (lookup eq.id equipment_step ≡ some step)

pub connection_iff : (eq : Equipment) → Passes (check_connection eq) ↔ IsConnected eq
unfolding check_connection
connection_iff eq = (λ h. ground arith, λ h. ground arith)

pub running_iff :
    (eq : Equipment) → Passes (check_running eq) ↔ (eq.equipment_status ≡ EquipmentStatus.run)
unfolding check_running
running_iff eq = (λ h. ground arith, λ h. ground arith)

-- no text in the tables is empty
pub no_empty_step : (k : String) → lookup k equipment_step ≢ some ""
unfolding any_of String-discrete
no_empty_step k = lookup-ne k "" equipment_step refl

no_empty_scope_row : (k : String) → lookup k equipment_product ≢ some (some "")
unfolding any_of Option_String-discrete
no_empty_scope_row k = lookup-ne k (some "") equipment_product refl

no_empty_scope : (k : String) → get_or (lookup k equipment_product) none ≢ some ""
no_empty_scope k h = ground (arith, no_empty_scope_row k)

pub step_iff : (eq : Equipment) (step : String) → Passes (check_step eq step) ↔ DoesStep eq step
unfolding check_step
step_iff eq step = (λ h. ground (arith, no_empty_step eq.id), λ h. ground arith)

pub product_iff :
    (eq : Equipment) (lot : Lot)
    → Passes (check_product eq lot)
      ↔ (scope_admits (get_or (lookup eq.id equipment_product) none) lot.product_type ≡ true)
unfolding check_product
product_iff eq lot = (λ h. ground (arith, no_empty_scope eq.id), λ h. ground arith)

pub recipe_iff :
    (eq : Equipment) (recipe_id : Option String)
    → Passes (check_recipe eq recipe_id) ↔ HasRecipe eq recipe_id
unfolding check_recipe
recipe_iff eq recipe_id = (λ h w. ground arith, λ h. ground arith)

pub busy_iff :
    (eq : Equipment) (lot : Lot)
    → eq.equipment_status ≡ EquipmentStatus.run
    → Passes (check_busy eq lot) ↔ IsFree eq lot
unfolding check_busy
busy_iff eq lot running = (λ h. ground arith, λ h. ground arith)

pub hold_iff : (lot : Lot) → Passes (check_hold lot) ↔ (lot.status ≢ LotStatus.hold)
unfolding check_hold
hold_iff lot = (λ h e. ground arith, λ h. ground arith)

module _ {F : Type 0} where
  abbrev pub IsTimely : Env F → EquipmentEventIn F → Type 0
  IsTimely env payload =
      (is_some (as_naive_utc payload.timestamp) ≡ true)
      × (env.now ≤ utc_of payload.timestamp + seconds env.settings.stale_event_threshold_sec)
      × (utc_of payload.timestamp ≤ env.now + seconds env.settings.future_event_tolerance_sec)

  pub timestamp_iff :
      (env : Env F) (payload : EquipmentEventIn F)
      → Passes (check_timestamp env payload) ↔ IsTimely env payload
  unfolding check_timestamp utc_of
  timestamp_iff env payload = elim (Option-cases (as_naive_utc payload.timestamp)) [
    | inl n ↦ (λ h. absurd (ground arith), λ h. absurd (ground arith))
    | inr (t, n) ↦ (λ h. ground arith, λ h. ground arith)
  ]

  abbrev pub IsNew : Env F → EquipmentEventIn F → Db F → Type 0
  IsNew env payload db =
      any_of (λ e. e.fingerprint == event_fingerprint env payload) db.process_events ≡ false

  pub duplicate_iff :
      (env : Env F) (payload : EquipmentEventIn F) (db : Db F)
      → Passes (check_duplicate env payload db) ↔ IsNew env payload db
  unfolding check_duplicate
  duplicate_iff env payload db = (λ h. ground arith, λ h. ground arith)

  abbrev pub IsNext : Lot → Panel → String → Db F → Type 0
  IsNext lot panel step db =
      contains (allowed_next_steps lot.product_type (last_step panel.id db)) step ≡ true

  pub sequence_iff :
      (lot : Lot) (panel : Panel) (step : String) (db : Db F)
      → Passes (check_sequence lot panel step db) ↔ IsNext lot panel step db
  unfolding check_sequence
  sequence_iff lot panel step db = (λ h. ground arith, λ h. ground arith)

  abbrev pub Names : EquipmentEventIn F → Named → Type 0
  Names payload n =
      (payload.lot_id ≡ some n.lot_id)
      × (payload.panel_id ≡ some n.panel_id)
      × (normalize_step payload.process_step ≡ some n.step)
      × (n.lot_id ≢ "")
      × (n.panel_id ≢ "")
      × (n.step ≢ "")

  pub required_iff :
      (payload : EquipmentEventIn F) (n : Named)
      → (required_fields payload ≡ pass n) ↔ Names payload n
  unfolding required_fields
  required_iff payload n = (λ h. ground arith, λ h. ground arith)

  pub equipment_iff :
      (payload : EquipmentEventIn F) (db : Db F) (eq : Equipment)
      → (known_equipment payload db ≡ pass eq) ↔ (get_equipment payload.equipment_id db ≡ some eq)
  unfolding known_equipment
  equipment_iff payload db eq = (λ h. ground arith, λ h. ground arith)

  pub lot_iff :
      (id : String) (db : Db F) (lot : Lot)
      → (known_lot id db ≡ pass lot) ↔ (get_lot id db ≡ some lot)
  unfolding known_lot
  lot_iff id db lot = (λ h. ground arith, λ h. ground arith)

  pub panel_iff :
      (id : String) (lot : Lot) (db : Db F) (panel : Panel)
      → (known_panel id lot db ≡ pass panel) ↔ (
          (get_panel id db ≡ some panel)
          × (panel.lot_id ≡ lot.id)
          × (panel.status ≢ PanelStatus.scrap))
  unfolding known_panel
  panel_iff id lot db panel = (λ h. ground arith, λ h. ground arith)
