-- ===== src/Ingestion/Settle.antt =====
-- The last parts of `ingest_event`: the new states of the lot, the glass and the equipment.
use displayfab_smart_factory.Prelude.{
  String, Option, none, some, Bool, true, false, ◌&&◌, not, get_or, count_where, update_where, ◌==◌,
  ◌/=◌, string_eq, option_string_eq, nat_eq, if◌then◌else◌,
}
use displayfab_smart_factory.Enums.{
  EquipmentStatus, LotStatus, PanelStatus, ProcessStep, step_value, lot_status_eq, panel_status_eq,
}
use displayfab_smart_factory.Models.{Lot, Change, Db}
use displayfab_smart_factory.Models.Tables.{set_equipment, set_lot, set_panel}
use displayfab_smart_factory.Env.{Env}
use displayfab_smart_factory.Journal.{record_state_change}
use displayfab_smart_factory.WorkOrders.{is_finished, refresh_work_order_for_lot}
use displayfab_smart_factory.Ingestion.Steps.{Target}

-- what the event makes of the lot and the panel; `all_done` is the branch that ends the lot
pub record Settled : Type 0 where
  pub lot_status : LotStatus
  pub hold_reason : Option String
  pub panel_status : PanelStatus
  pub all_done : Bool

abbrev pub settled_lot : Target → Settled → Lot → Lot
settled_lot t s row = record row {
  status = s.lot_status;
  current_equipment_id = some t.equipment.id;
  current_step = some t.step;
  hold_reason = s.hold_reason;
}

module _ {F : Type 0} where
  -- `_lot_all_panels_complete`
  unfoldable pub lot_all_panels_complete : String → Db F → Bool
  lot_all_panels_complete lot_id db =
      count_where (λ p. p.lot_id == lot_id && not (is_finished p)) db.panels == 0

  -- an event that holds nothing
  unfoldable pub settle_passed : Target → Db F → Settled
  settle_passed t db =
      if t.lot.status == LotStatus.hold
      then record {
        lot_status = t.lot.status;
        hold_reason = t.lot.hold_reason;
        panel_status = t.panel.status;
        all_done = false;
      }
      else if t.step == step_value ProcessStep.inspect
      then (if lot_all_panels_complete t.lot.id
            (set_panel t.panel.id (λ row. record row { status = PanelStatus.complete }) db)
          then record {
            lot_status = LotStatus.complete;
            hold_reason = t.lot.hold_reason;
            panel_status = PanelStatus.complete;
            all_done = true;
          }
          else record {
            lot_status = LotStatus.processing;
            hold_reason = t.lot.hold_reason;
            panel_status = PanelStatus.complete;
            all_done = false;
          })
      else record {
        lot_status = LotStatus.processing;
        hold_reason = t.lot.hold_reason;
        panel_status = PanelStatus.processing;
        all_done = false;
      }

  unfoldable pub settle : Target → Option String → Bool → Db F → Settled
  settle t hold inspect_fail db = elim hold [
    | some reason ↦ record {
      lot_status = LotStatus.hold;
      hold_reason = some reason;
      panel_status = if inspect_fail then PanelStatus.fail else PanelStatus.hold;
      all_done = false;
    }
    | none ↦ settle_passed t db
  ]

  -- The lot's fields are assigned at several places, and read at none between them.
  unfoldable pub apply_settled : Env F → String → Target → Option String → Settled → Db F → Db F
  apply_settled env event_id t hold s db =
      record_state_change env t.lot.id (Change.lot_change t.lot.status s.lot_status)
        (get_or hold t.step) (some event_id)
        (set_lot t.lot.id (settled_lot t s) (
          set_equipment t.equipment.id
            (λ row. record row {
              equipment_status = if s.all_done then EquipmentStatus.idle else row.equipment_status;
            })
            (set_panel t.panel.id (λ row. record row { status = s.panel_status }) db)))

  -- no other equipment keeps the lot, and a lot that ended leaves its equipment too
  unfoldable pub release_equipment : Target → Settled → Db F → Db F
  release_equipment t s db =
      let others =
        update_where (λ other. other.current_lot_id == some t.lot.id && other.id /= t.equipment.id)
          (λ other. record other { current_lot_id = none }) db.equipment in
      let db' = record db { equipment = others } in
      if s.lot_status == LotStatus.complete
      then set_equipment t.equipment.id (λ row. record row { current_lot_id = none }) db'
      else db'

  unfoldable pub settle_event : Env F → String → Target → Option String → Bool → Db F → Db F
  unfolding apply_settled release_equipment
  settle_event env event_id t hold inspect_fail db =
      let s = settle t hold inspect_fail db in
      refresh_work_order_for_lot t.lot.id
        (release_equipment t s (apply_settled env event_id t hold s db))
