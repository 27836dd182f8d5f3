-- ===== src/Commands.antt =====
-- backend/app/services/commands.py: what the host orders by hand. A command that the code refuses
-- keeps the sentence of the answer as a `Refusal`; the sentences themselves, the log lines and the
-- event bus are left out. A command is one commit, so one step from database to database.
pub mod Orders
pub mod Keeps
pub mod Tidy
pub mod Trips
use displayfab_smart_factory.Prelude.{
  ℕ, String, Option, none, some, Bool, true, false, ◌&&◌, ◌||◌, not, List, [], ◌∷◌, ◌++◌, truthy,
  get_or, is_some, find_first, update_where, ◌==◌, ◌/=◌, string_eq, option_string_eq, nat_eq,
  if◌then◌else◌,
}
use displayfab_smart_factory.Enums.{
  AlarmCode, CommandType, CommandStatus, DowntimeReason, EquipmentStatus, InterfaceType, LotStatus,
  PanelStatus, interface_value, alarm_code_eq, command_status_eq, equipment_status_eq,
  lot_status_eq, panel_status_eq,
}
use displayfab_smart_factory.Models.{Alarm, Equipment, Recipe, Lot, Panel, Change, HostCommand, Db}
use displayfab_smart_factory.Models.Tables.{
  get_equipment, get_recipe, get_lot, get_panel, set_equipment, set_lot, set_panel,
}
use displayfab_smart_factory.Schemas.{CommandIn}
use displayfab_smart_factory.Env.{Env}
use displayfab_smart_factory.Adapter.{get_adapter, delivers}
use displayfab_smart_factory.Downtime.{open_downtime, close_downtime}
use displayfab_smart_factory.Journal.{record_state_change}
use displayfab_smart_factory.WorkOrders.{refresh_work_order_for_lot}
use Orders.{
  Refusal, Verdict, verdict_status, if_given, resumed_lot, resumed_panel, held, resumed,
  is_held_panel, panel_with, equipment_with, acknowledged, scope_differs, hold_lot, release_lot,
  maint_enter, maint_exit, switch, select_recipe, ack_alarm, scrap_panel,
}

abbrev interface_of : Option Equipment → Option String
interface_of none = none
interface_of (some eq) = some eq.interface_type

module _ {F : Type 0} where
  unfoldable pub apply_command : Env F → CommandType → CommandIn → Db F → Verdict × Db F
  apply_command env CommandType.hold_lot payload db = hold_lot env payload db
  apply_command env CommandType.release_lot payload db = release_lot env payload db
  apply_command env CommandType.maint_enter payload db = maint_enter env payload db
  apply_command env CommandType.maint_exit payload db = maint_exit env payload db
  apply_command env CommandType.start payload db = switch env true payload db
  apply_command env CommandType.stop payload db = switch env false payload db
  apply_command env CommandType.select_recipe payload db = select_recipe env payload db
  apply_command env CommandType.ack_alarm payload db = ack_alarm env payload db
  apply_command env CommandType.scrap_panel payload db = scrap_panel env payload db

  -- `payload.lot_id`, which an accepted SCRAP_PANEL replaces by the lot of the panel
  abbrev pub answered_lot : CommandType → Verdict → CommandIn → Db F → Option String
  answered_lot CommandType.scrap_panel Verdict.done payload db =
      elim (get_panel (get_or payload.panel_id "") db) [
        | none ↦ payload.lot_id
        | some panel ↦ some panel.lot_id
      ]
  answered_lot _ verdict payload db = payload.lot_id

  -- `save`: the row of the command; an accepted command of an equipment goes through its adapter,
  -- which delivers it or raises
  unfoldable pub save :
      Env F → String → CommandIn → Option String → Verdict → Db F → HostCommand × Db F
  save env command_id payload lot_id verdict db =
      let eq_type = interface_of (get_equipment (get_or payload.equipment_id "") db) in
      let adapter = get_adapter env.lower eq_type in
      let sent =
        truthy payload.equipment_id && (verdict_status verdict == CommandStatus.accepted) in
      let row : HostCommand = record {
        command_id = command_id;
        command_type = payload.command_type;
        status = verdict_status verdict;
        equipment_id = payload.equipment_id;
        lot_id = lot_id;
        alarm_id = payload.alarm_id;
        requested_by = payload.requested_by;
        created_at = env.now;
        interface_type =
            if sent
            then (if delivers adapter then some (interface_value adapter) else eq_type)
            else none;
        delivered_at = if sent && delivers adapter then some env.now else none;
      } in
      (row, record db { host_commands = db.host_commands ++ row ∷ [] })

  unfoldable pub execute_command : Env F → String → CommandIn → Db F → HostCommand × Db F
  execute_command env command_id payload db =
      let (verdict, db') = apply_command env payload.command_type payload db in
      save env command_id payload (answered_lot payload.command_type verdict payload db) verdict db'
