-- ===== src/Production.antt =====
-- backend/app/services/production.py: the orders of the day, and what became of their glass. The date,
-- the summary and the other sentences are left out. `text_le` is the order of texts in the database.
pub mod Remaining
use displayfab_smart_factory.Prelude.{
  ℕ, ◌+◌, ◌-◌, String, Option, none, some, Bool, true, false, ◌&&◌, not, List, [], ◌∷◌, map, length,
  select, count_where, truthy, get_or, is_some, leb, sort_by, ◌==◌, ◌/=◌, string_eq, nat_eq,
  if◌then◌else◌,
}
use displayfab_smart_factory.Enums.{
  ConnectionStatus, LotStatus, PanelStatus, ProductType, product_value, connection_status_eq,
  lot_status_eq,
}
use displayfab_smart_factory.Models.{Alarm, Equipment, Lot, WorkOrder, Db}
use displayfab_smart_factory.Models.Tables.{get_lot}
use displayfab_smart_factory.Env.{FloatOps, Env, day_start}
use displayfab_smart_factory.WorkOrders.{panels_of, count_status}

pub record Bucket : Type 0 where
  pub target : ℕ
  pub complete : ℕ
  pub fail : ℕ
  pub scrap : ℕ
  pub hold_lots : ℕ

pub record Closeout (F : Type 0) : Type 0 where
  pub target : ℕ
  pub complete : ℕ
  pub fail : ℕ
  pub scrap : ℕ
  pub remaining : ℕ
  pub hold_lots : ℕ
  pub offline : ℕ
  pub yield_pct : Option F

pub record TodayProduction (F : Type 0) : Type 0 where
  pub oled : Bucket
  pub lcd : Bucket
  pub hold_lots : List String
  pub offline_equipment : List String
  pub open_alarms : ℕ
  pub closeout : Closeout F

-- `_product_bucket`
abbrev pub product_bucket : Bucket
product_bucket = record { target = 0; complete = 0; fail = 0; scrap = 0; hold_lots = 0 }

abbrev held_lot : Option Lot → ℕ
held_lot none = 0
held_lot (some lot) = if lot.status == LotStatus.hold then 1 else 0

abbrev pub judged : Bucket → ℕ
judged b = b.complete + b.fail + b.scrap

module _ {F : Type 0} where
  -- what one order of the product adds to the bucket
  unfoldable pub add_order : WorkOrder → Db F → Bucket → Bucket
  add_order order db b =
      let panels = panels_of (get_or order.lot_id "") db in
      if truthy order.lot_id
      then record {
        target = b.target + order.qty;
        complete = b.complete + count_status PanelStatus.complete panels;
        fail = b.fail + count_status PanelStatus.fail panels;
        scrap = b.scrap + count_status PanelStatus.scrap panels;
        hold_lots = b.hold_lots + held_lot (get_lot (get_or order.lot_id "") db);
      }
      else record b { target = b.target + order.qty }

  unfoldable pub fill_from : String → List WorkOrder → Db F → Bucket → Bucket
  fill_from product [] db b = b
  fill_from product (order ∷ rest) db b =
      fill_from product rest db (if order.product_type /= product then b else add_order order db b)

  -- `_fill_product`
  unfoldable pub fill_product : String → List WorkOrder → Db F → Bucket
  unfolding fill_from
  fill_product product orders db = fill_from product orders db product_bucket

  -- `query.filter(created_at >= start)`
  abbrev pub orders_since : ℕ → Db F → List WorkOrder
  orders_since start db = select (λ o. leb start o.created_at) db.work_orders

  unfoldable pub yield_pct : FloatOps F → ℕ → ℕ → Option F
  yield_pct float complete total =
      if total == 0
      then none
      else some (
          float.round
            (float.div (float.mul (float.literal 1000 1) (float.literal complete 0))
              (float.literal total 0))
            1)

  abbrev pub closeout_of : FloatOps F → Bucket → Bucket → ℕ → ℕ → Closeout F
  closeout_of float oled lcd hold_lots offline = record {
    target = oled.target + lcd.target;
    complete = oled.complete + lcd.complete;
    fail = oled.fail + lcd.fail;
    scrap = oled.scrap + lcd.scrap;
    remaining =
        (oled.target + lcd.target)
        - ((oled.complete + lcd.complete) + (oled.fail + lcd.fail) + (oled.scrap + lcd.scrap));
    hold_lots = hold_lots;
    offline = offline;
    yield_pct =
        yield_pct float (oled.complete + lcd.complete)
          ((oled.complete + lcd.complete) + (oled.fail + lcd.fail) + (oled.scrap + lcd.scrap));
  }

  unfoldable pub today_production : Env F → (String → String → Bool) → Db F → TodayProduction F
  today_production env text_le db =
      let orders = orders_since (day_start env.now) db in
      let oled = fill_product (product_value ProductType.oled) orders db in
      let lcd = fill_product (product_value ProductType.lcd) orders db in
      let hold_lots =
        map (λ (l : Lot). l.id)
          (sort_by (λ a b. text_le a.id b.id) (select (λ l. l.status == LotStatus.hold) db.lots)) in
      let offline =
        map (λ (e : Equipment). e.id)
          (sort_by (λ a b. text_le a.id b.id)
            (select (λ e. e.connection_status == ConnectionStatus.offline) db.equipment)) in
      record {
        oled = oled;
        lcd = lcd;
        hold_lots = hold_lots;
        offline_equipment = offline;
        open_alarms = count_where (λ (a : Alarm). not (is_some a.resolved_at)) db.alarms;
        closeout = closeout_of env.float oled lcd (length hold_lots) (length offline);
      }
