-- ===== src/Kpis.antt =====
-- backend/app/services/kpis.py: the numbers of the dashboard. `text_le` is the order of texts in Python.
use displayfab_smart_factory.Prelude.{
  ℕ, suc, ◌+◌, ◌-◌, ◌*◌, String, Option, none, some, Bool, true, false, ◌&&◌, ◌||◌, not, List, [],
  ◌∷◌, map, length, select, count_where, is_some, leb, sort_by, ◌==◌, ◌/=◌, string_eq,
  if◌then◌else◌,
}
use displayfab_smart_factory.Enums.{
  ConnectionStatus, LotStatus, PanelStatus, ProcessStep, step_value, ProductType, product_value,
  connection_status_eq, lot_status_eq, panel_status_eq,
}
use displayfab_smart_factory.Models.{Alarm, EventLog, Lot, Panel, ProcessEvent, Db}
use displayfab_smart_factory.Env.{FloatOps, Env, seconds}
use displayfab_smart_factory.WorkOrders.{count_status}
use displayfab_smart_factory.Validation.Guards.{latest_event}
use displayfab_smart_factory.Production.{yield_pct}

pub record YieldByEquipmentOut (F : Type 0) : Type 0 where
  pub equipment_id : String
  pub complete : ℕ
  pub fail : ℕ
  pub yield_pct : Option F

pub record KpiOut (F : Type 0) : Type 0 where
  pub equipment_online : ℕ
  pub equipment_offline : ℕ
  pub lots_hold : ℕ
  pub lots_processing : ℕ
  pub open_alarms : ℕ
  pub events_last_5min : ℕ
  pub oled_lots : ℕ
  pub lcd_lots : ℕ
  pub inspect_pass : ℕ
  pub inspect_fail : ℕ
  pub inspect_scrap : ℕ
  pub yield_pct : Option F
  pub yield_by_equipment : List (YieldByEquipmentOut F)

-- a bucket: the equipment, its COMPLETE and its FAIL glass
abbrev pub Pair : Type 0
Pair = String × ℕ × ℕ

abbrev one_more : Bool → String → ℕ × ℕ → Pair
one_more true id (complete, fail) = (id, suc complete, fail)
one_more false id (complete, fail) = (id, complete, suc fail)

-- `buckets.setdefault(eq_id, [0, 0])`, and one more in it
unfoldable pub count_in : String → Bool → List Pair → List Pair
count_in id good [] = one_more good id (0, 0) ∷ []
count_in id good ((k, c, f) ∷ rest) =
    let later = count_in id good rest in
    if k == id then one_more good k (c, f) ∷ rest else (k, c, f) ∷ later

module _ {F : Type 0} where
  abbrev equipment_of : Option (ProcessEvent F) → String
  equipment_of none = "-"
  equipment_of (some last) = last.equipment_id

  -- the last equipment before the inspection
  unfoldable pub blamed : String → Db F → String
  blamed panel_id db = equipment_of (
      latest_event (
        select (λ e. e.panel_id == panel_id && e.process_step /= step_value ProcessStep.inspect)
          db.process_events))

  unfoldable pub fill_buckets : Db F → List Panel → List Pair → List Pair
  fill_buckets db [] buckets = buckets
  fill_buckets db (p ∷ rest) buckets =
      fill_buckets db rest (count_in (blamed p.id db) (p.status == PanelStatus.complete) buckets)

  abbrev yield_row : FloatOps F → Pair → YieldByEquipmentOut F
  yield_row float (id, complete, fail) = record {
    equipment_id = id;
    complete = complete;
    fail = fail;
    yield_pct = yield_pct float complete (complete + fail);
  }

  -- the glass that is COMPLETE or FAIL
  abbrev pub judged_panels : Db F → List Panel
  judged_panels db =
      select (λ p. p.status == PanelStatus.complete || p.status == PanelStatus.fail) db.panels

  unfoldable pub yield_by_equipment :
      FloatOps F → (String → String → Bool) → Db F → List (YieldByEquipmentOut F)
  yield_by_equipment float text_le db =
      map (yield_row float)
        (sort_by (λ a b. text_le a.0 b.0) (fill_buckets db (judged_panels db) []))

  unfoldable pub kpis : Env F → (String → String → Bool) → Db F → KpiOut F
  kpis env text_le db =
      let online = count_where (λ e. e.connection_status == ConnectionStatus.online) db.equipment in
      let inspect_pass = count_status PanelStatus.complete db.panels in
      let inspect_fail = count_status PanelStatus.fail db.panels in
      let inspect_scrap = count_status PanelStatus.scrap db.panels in
      record {
        equipment_online = online;
        equipment_offline = length db.equipment - online;
        lots_hold = count_where (λ l. l.status == LotStatus.hold) db.lots;
        lots_processing = count_where (λ l. l.status == LotStatus.processing) db.lots;
        open_alarms = count_where (λ (a : Alarm). not (is_some a.resolved_at)) db.alarms;
        events_last_5min =
            count_where (λ (l : EventLog). leb (env.now - seconds (5 * 60)) l.created_at)
              db.event_logs;
        oled_lots =
            count_where (λ (l : Lot). l.product_type == product_value ProductType.oled) db.lots;
        lcd_lots =
            count_where (λ (l : Lot). l.product_type == product_value ProductType.lcd) db.lots;
        inspect_pass = inspect_pass;
        inspect_fail = inspect_fail;
        inspect_scrap = inspect_scrap;
        yield_pct = yield_pct env.float inspect_pass (inspect_pass + inspect_fail + inspect_scrap);
        yield_by_equipment = yield_by_equipment env.float text_le db;
      }
