-- ===== src/WorkOrders.antt =====
-- backend/app/services/work_orders.py: orders, the numbers they get, and how they end.
pub mod Numbers
pub mod Release
use Prim.Native.String.{◌++◌ as append}
use displayfab_smart_factory.Prelude.{
  ℕ, zero, suc, ◌+◌, String, Option, none, some, Bool, ◌||◌, not, List, [], ◌∷◌, ◌++◌, map, max,
  select, find_first, count_where, all_of, leb, sort_by, truthy, get_or, ◌==◌, ◌/=◌, string_eq,
  option_string_eq, if◌then◌else◌,
}
use displayfab_smart_factory.Enums.{
  ProductType, product_value, LotStatus, PanelStatus, panel_status_eq, WorkOrderStatus,
}
use displayfab_smart_factory.Numerals.{padded_decimal, read_decimal, strip_prefix}
use displayfab_smart_factory.Models.{Recipe, Lot, Panel, WorkOrder, Db}
use displayfab_smart_factory.Models.Tables.{get_recipe, set_work_order}
use displayfab_smart_factory.Env.{Env}

-- the number behind the prefix, where the rest is all digits
unfoldable pub sequence_number : String → String → Option ℕ
sequence_number prefix raw = elim (strip_prefix prefix raw) [
  | none ↦ none
  | some tail ↦ read_decimal tail
]

-- `max(nums)` over the numbers that the loop collects, 0 where there are none
unfoldable pub highest : String → List String → ℕ
highest prefix [] = 0
highest prefix (raw ∷ rest) = max (get_or (sequence_number prefix raw) 0) (highest prefix rest)

unfoldable pub next_seq : List String → String → ℕ
next_seq values prefix = highest prefix values + 1

unfoldable pub padded : String → ℕ → ℕ → String
padded prefix n width = append prefix (padded_decimal width n)

-- the panels of the cassette, `slot` counted from the given one
unfoldable pub new_panels : String → ℕ → ℕ → ℕ → List Panel
new_panels lot_id panel_n slot zero = []
new_panels lot_id panel_n slot (suc qty) =
    record {
      id = padded "PNL-" panel_n 5;
      lot_id = lot_id;
      slot_no = slot;
      status = PanelStatus.wait;
    }
    ∷ new_panels lot_id (suc panel_n) (suc slot) qty

pub data WorkOrderError : Type 0 where
  unknown_product unknown_recipe recipe_of_other_product : WorkOrderError

pub data Created {ℓ} (A : Type ℓ) : Type ℓ where
  created : A → Created A
  refused : WorkOrderError → Created A

unfoldable pub default_recipe : String → String
default_recipe product =
    if product == product_value ProductType.oled then "RCP-OLED-A01" else "RCP-LCD-C01"

-- The panels of the lot that count as finished: COMPLETE or SCRAP.
abbrev pub is_finished : Panel → Bool
is_finished p = p.status == PanelStatus.complete || p.status == PanelStatus.scrap

abbrev pub count_status : PanelStatus → List Panel → ℕ
count_status status = count_where (λ p. p.status == status)

module _ {F : Type 0} where
  abbrev pub panels_of : String → Db F → List Panel
  panels_of lot_id db = select (λ p. p.lot_id == lot_id) db.panels

  unfoldable pub release : Env F → String → String → ℕ → Db F → (WorkOrder × List Panel) × Db F
  release env product recipe_id qty db =
      let day = env.strftime_day env.now in
      let wo_prefix = append "WO-" (append day "-") in
      let lot_prefix = append "LOT-" (append day "-") in
      let cst_prefix = append "CST-" (append product "-") in
      let wo_n = next_seq (map (λ (row : WorkOrder). row.id) db.work_orders) wo_prefix in
      let lot_n = next_seq (map (λ (row : Lot). row.id) db.lots) lot_prefix in
      let cst_n = next_seq (map (λ (row : Lot). row.cassette_id) db.lots) cst_prefix in
      let panel_n = next_seq (map (λ (row : Panel). row.id) db.panels) "PNL-" in
      let lot_id = padded lot_prefix lot_n 3 in
      let cassette_id = padded cst_prefix cst_n 3 in
      let panels = new_panels lot_id panel_n 1 qty in
      let lot : Lot = record {
        id = lot_id;
        cassette_id = cassette_id;
        product_type = product;
        expected_recipe_id = recipe_id;
        status = LotStatus.wait;
        current_equipment_id = none;
        current_step = none;
        hold_reason = none;
      } in
      let order : WorkOrder = record {
        id = padded wo_prefix wo_n 3;
        product_type = product;
        recipe_id = recipe_id;
        qty = qty;
        status = WorkOrderStatus.released;
        lot_id = some lot_id;
        cassette_id = some cassette_id;
        created_at = env.now;
      } in
      (
        (order, panels),
        record db {
          lots = db.lots ++ lot ∷ [];
          panels = db.panels ++ panels;
          work_orders = db.work_orders ++ order ∷ [];
        },
      )

  -- `qty` is from 1 to 10 by the request's schema. A refusal raises before anything is stored.
  unfoldable pub create_and_release :
      Env F → String → Option String → ℕ → Db F → Created ((WorkOrder × List Panel) × Db F)
  unfolding release
  create_and_release env product_type recipe_id qty db =
      let product = env.upper product_type in
      let chosen = if truthy recipe_id then get_or recipe_id "" else default_recipe product in
      if not (product == product_value ProductType.oled || product == product_value ProductType.lcd)
      then refused WorkOrderError.unknown_product
      else elim (get_recipe chosen db) [
        | none ↦ refused WorkOrderError.unknown_recipe
        | some recipe ↦
            if recipe.product_type /= product
            then refused WorkOrderError.recipe_of_other_product
            else created (release env product chosen qty db)
      ]

  unfoldable pub panel_counts : Option String → Db F → ℕ × ℕ × ℕ
  panel_counts lot_id db =
      let panels = panels_of (get_or lot_id "") db in
      if truthy lot_id
      then (
        count_status PanelStatus.complete panels,
        count_status PanelStatus.fail panels,
        count_status PanelStatus.scrap panels,
      )
      else (0, 0, 0)

  abbrev panel_ids : Option String → Db F → List String
  panel_ids lot_id db =
      if truthy lot_id
      then map (λ (p : Panel). p.id)
          (sort_by (λ a b. leb a.slot_no b.slot_no) (panels_of (get_or lot_id "") db))
      else []

  -- rows of one time stay in the order of the table
  unfoldable pub list_work_orders : Db F → List (WorkOrder × List String)
  list_work_orders db =
      map (λ (o : WorkOrder). (o, panel_ids o.lot_id db))
        (sort_by (λ a b. leb b.created_at a.created_at) db.work_orders)

  finish_order : WorkOrder → List Panel → Db F → Db F
  finish_order order [] db = db
  finish_order order (p ∷ ps) db =
      if all_of is_finished (p ∷ ps)
      then set_work_order order.id (λ row. record row { status = WorkOrderStatus.done }) db
      else db

  unfoldable pub refresh_work_order_for_lot : String → Db F → Db F
  unfolding finish_order
  refresh_work_order_for_lot lot_id db =
      if lot_id == ""
      then db
      else elim (find_first (λ (row : WorkOrder). row.lot_id == some lot_id) db.work_orders) [
        | none ↦ db
        | some order ↦ finish_order order (panels_of lot_id db) db
      ]
