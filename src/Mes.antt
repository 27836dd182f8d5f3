-- ===== src/Mes.antt =====
-- backend/app/services/mes.py: the board of the factory. `text_le` is the order of texts in the
-- database; the note is left out.
pub mod Progress
use displayfab_smart_factory.Prelude.{
  ℕ, ◌+◌, String, Option, none, some, Bool, true, false, ◌&&◌, ◌||◌, not, List, [], ◌∷◌, map,
  map_option, length, select, count_where, any_of, contains, truthy, get_or, leb, ltb, sort_by,
  ◌==◌, string_eq, option_string_eq, nat_eq, if◌then◌else◌,
}
use displayfab_smart_factory.Enums.{
  ConnectionStatus, EquipmentStatus, LotStatus, PanelStatus, WorkOrderStatus, connection_status_eq,
  lot_status_eq, panel_status_eq,
}
use displayfab_smart_factory.Rules.{route_for}
use displayfab_smart_factory.Models.{Equipment, Lot, Panel, WorkOrder, Db}
use displayfab_smart_factory.Env.{Env, day_start}
use displayfab_smart_factory.WorkOrders.{panel_counts, list_work_orders}
use displayfab_smart_factory.Dispatch.{DispatchOut, by_slot, lot_dispatch}
use displayfab_smart_factory.Production.{TodayProduction, today_production}

pub data StepState : Type 0 where
  hold done now wait : StepState

pub record MesStepOut : Type 0 where
  pub step : String
  pub done : ℕ
  pub total : ℕ
  pub state : StepState

pub record MesLotOut : Type 0 where
  pub lot_id : String
  pub cassette_id : String
  pub product_type : String
  pub recipe_id : String
  pub status : LotStatus
  pub hold_reason : Option String
  pub current_step : Option String
  pub current_equipment_id : Option String
  pub qty : ℕ
  pub complete : ℕ
  pub fail : ℕ
  pub scrap : ℕ
  pub route : List MesStepOut
  pub next_step : Option String
  pub next_equipment_id : Option String

pub record MesOrderOut : Type 0 where
  pub id : String
  pub product_type : String
  pub recipe_id : String
  pub qty : ℕ
  pub status : WorkOrderStatus
  pub lot_id : Option String
  pub cassette_id : Option String
  pub complete : ℕ
  pub fail : ℕ
  pub scrap : ℕ

pub record MesEquipmentOut : Type 0 where
  pub id : String
  pub process_step : String
  pub product_scope : Option String
  pub equipment_status : EquipmentStatus
  pub connection_status : ConnectionStatus
  pub current_lot_id : Option String
  pub current_recipe_id : Option String

pub record MesBoardOut (F : Type 0) : Type 0 where
  pub waiting_glass : ℕ
  pub orders : List MesOrderOut
  pub lots : List MesLotOut
  pub equipment : List MesEquipmentOut
  pub holds : List MesLotOut
  pub production : TodayProduction F
  pub equipment_offline : ℕ

-- the state of a step that so many of the lot's glasses have done
unfoldable pub step_state : Lot → String → ℕ → ℕ → StepState
step_state lot step count total =
    if lot.status == LotStatus.hold && lot.current_step == some step
    then hold
    else if leb total count && not (total == 0)
    then done
    else if ltb 0 count || lot.current_step == some step
    then now
    else wait

abbrev next_step_of : Option DispatchOut → Option String
next_step_of none = none
next_step_of (some info) = info.next_step

abbrev next_equipment_of : Option DispatchOut → Option String
next_equipment_of none = none
next_equipment_of (some info) = info.next_equipment_id

abbrev equipment_row : Equipment → MesEquipmentOut
equipment_row row = record {
  id = row.id;
  process_step = row.process_step;
  product_scope = row.product_scope;
  equipment_status = row.equipment_status;
  connection_status = row.connection_status;
  current_lot_id = row.current_lot_id;
  current_recipe_id = row.current_recipe_id;
}

-- the order's lot is this one
abbrev names_lot : String → MesOrderOut → Bool
names_lot id o = truthy o.lot_id && o.lot_id == some id

module _ {F : Type 0} where
  -- `_step_done`
  unfoldable pub step_done : Db F → String → String → Bool
  step_done db panel_id step =
      any_of (λ e. e.panel_id == panel_id && e.process_step == step) db.process_events

  -- how many of the lot's glasses have done the step
  unfoldable pub done_count : Db F → Lot → String → ℕ
  done_count db lot step =
      count_where (λ p. step_done db p.id step)
        (by_slot (select (λ p. p.lot_id == lot.id) db.panels))

  abbrev pub step_row : Db F → Lot → ℕ → String → MesStepOut
  step_row db lot total step = record {
    step = step;
    done = done_count db lot step;
    total = total;
    state = step_state lot step (done_count db lot step) total;
  }

  unfoldable pub lot_route_progress : Db F → Lot → MesLotOut
  lot_route_progress db lot =
      let panels = by_slot (select (λ p. p.lot_id == lot.id) db.panels) in
      let total = length panels in
      let next = if total == 0 then none else lot_dispatch lot db in
      let counts = panel_counts (some lot.id) db in
      record {
        lot_id = lot.id;
        cassette_id = lot.cassette_id;
        product_type = lot.product_type;
        recipe_id = lot.expected_recipe_id;
        status = lot.status;
        hold_reason = lot.hold_reason;
        current_step = lot.current_step;
        current_equipment_id = lot.current_equipment_id;
        qty = total;
        complete = counts.0;
        fail = counts.1;
        scrap = counts.2;
        route = map (step_row db lot total) (route_for lot.product_type);
        next_step = next_step_of next;
        next_equipment_id = next_equipment_of next;
      }

  abbrev order_row : Db F → WorkOrder → MesOrderOut
  order_row db order =
      let counts = panel_counts order.lot_id db in
      record {
        id = order.id;
        product_type = order.product_type;
        recipe_id = order.recipe_id;
        qty = order.qty;
        status = order.status;
        lot_id = order.lot_id;
        cassette_id = order.cassette_id;
        complete = counts.0;
        fail = counts.1;
        scrap = counts.2;
      }

  unfoldable pub mes_board : Env F → (String → String → Bool) → Db F → MesBoardOut F
  mes_board env text_le db =
      let orders = map (λ (row : WorkOrder × List String). row.0) (list_work_orders db) in
      let today = map (order_row db) (select (λ o. leb (day_start env.now) o.created_at) orders) in
      let lots = map (lot_route_progress db) (
        select (λ l. any_of (names_lot l.id) today || l.status == LotStatus.hold)
          (sort_by (λ a b. text_le a.id b.id) db.lots)) in
      record {
        waiting_glass = count_where (λ p. p.status == PanelStatus.wait) db.panels;
        orders = today;
        lots = lots;
        equipment = map equipment_row (sort_by (λ a b. text_le a.id b.id) db.equipment);
        holds = select (λ l. l.status == LotStatus.hold) lots;
        production = today_production env text_le db;
        equipment_offline =
            count_where (λ e. e.connection_status == ConnectionStatus.offline) db.equipment;
      }
