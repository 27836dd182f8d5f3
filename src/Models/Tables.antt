-- ===== src/Models/Tables.antt =====
-- Access to rows by primary key: `db.get(Model, key)`, and an assignment to the fields of the row.
use displayfab_smart_factory.Prelude.{
  String, Option, some, find_first, update_where, find_first_sound, find_first-update_where,
  map_option, ◌==◌, string_eq, ◌≡◌, ap, arith, if◌then◌else◌,
}
use displayfab_smart_factory.Models.{Equipment, Recipe, Lot, Panel, WorkOrder, Db}

module _ {F : Type 0} where
  unfoldable pub get_equipment : String → Db F → Option Equipment
  get_equipment id db = find_first (λ row. row.id == id) db.equipment

  unfoldable pub get_recipe : String → Db F → Option (Recipe F)
  get_recipe id db = find_first (λ row. row.id == id) db.recipes

  unfoldable pub get_lot : String → Db F → Option Lot
  get_lot id db = find_first (λ row. row.id == id) db.lots

  unfoldable pub get_panel : String → Db F → Option Panel
  get_panel id db = find_first (λ row. row.id == id) db.panels

  unfoldable pub get_work_order : String → Db F → Option WorkOrder
  get_work_order id db = find_first (λ row. row.id == id) db.work_orders

  unfoldable pub set_equipment : String → (Equipment → Equipment) → Db F → Db F
  set_equipment id f db = record db {
    equipment = update_where (λ row. row.id == id) f db.equipment;
  }

  unfoldable pub set_lot : String → (Lot → Lot) → Db F → Db F
  set_lot id f db = record db { lots = update_where (λ row. row.id == id) f db.lots }

  unfoldable pub set_panel : String → (Panel → Panel) → Db F → Db F
  set_panel id f db = record db { panels = update_where (λ row. row.id == id) f db.panels }

  -- what a later `db.get` finds, where the assignment leaves the key alone
  pub get_equipment-set_equipment :
      (id k : String) (f : Equipment → Equipment) (db : Db F)
      → ((row : Equipment) → (f row).id ≡ row.id)
      → get_equipment id (set_equipment k f db)
        ≡ map_option (λ row. if row.id == k then f row else row) (get_equipment id db)
  unfolding get_equipment set_equipment
  get_equipment-set_equipment id k f db h =
      find_first-update_where (λ row. row.id == id) (λ row. row.id == k) f db.equipment
        (λ row. ap (λ i. i == id) (h row))

  pub id-get_equipment :
      (id : String) (db : Db F) (eq : Equipment) → get_equipment id db ≡ some eq → eq.id ≡ id
  unfolding get_equipment
  id-get_equipment id db eq h =
      ground (arith, find_first_sound (λ (row : Equipment). row.id == id) db.equipment eq)

  unfoldable pub set_work_order : String → (WorkOrder → WorkOrder) → Db F → Db F
  set_work_order id f db = record db {
    work_orders = update_where (λ row. row.id == id) f db.work_orders;
  }
