-- ===== src/Commands/Orders.antt =====
-- The nine orders of `execute_command`, one function for each branch.
use displayfab_smart_factory.Prelude.{
  ℕ, String, Option, none, some, Bool, false, ◌&&◌, not, [], ◌∷◌, truthy, get_or, is_some,
  find_first, update_where, ◌==◌, ◌/=◌, string_eq, option_string_eq, nat_eq, if◌then◌else◌,
}
use displayfab_smart_factory.Enums.{
  AlarmCode, CommandStatus, DowntimeReason, EquipmentStatus, LotStatus, PanelStatus, alarm_code_eq,
  command_status_eq, equipment_status_eq, lot_status_eq, panel_status_eq,
}
use displayfab_smart_factory.Models.{Alarm, Equipment, Lot, Panel, Change, Db}
use displayfab_smart_factory.Models.Tables.{
  get_equipment, get_recipe, get_lot, get_panel, set_equipment, set_lot, set_panel,
}
use displayfab_smart_factory.Schemas.{CommandIn}
use displayfab_smart_factory.Env.{Env}
use displayfab_smart_factory.Downtime.{open_downtime, close_downtime}
use displayfab_smart_factory.Journal.{record_state_change}
use displayfab_smart_factory.WorkOrders.{refresh_work_order_for_lot}

pub data Refusal : Type 0 where
  no_lot lot_is_complete lot_not_held no_equipment not_in_maintenance in_maintenance : Refusal
  no_recipe_given unknown_recipe recipe_of_other_product no_alarm : Refusal
  no_panel already_scrapped already_complete : Refusal

pub data Verdict : Type 0 where
  done : Verdict
  refused : Refusal → Verdict

abbrev pub verdict_status : Verdict → CommandStatus
verdict_status Verdict.done = CommandStatus.accepted
verdict_status (Verdict.refused r) = CommandStatus.rejected

-- `db.get(Model, key) if key else None`
abbrev pub if_given {ℓ} : {A : Type ℓ} → (String → Option A) → Option String → Option A
if_given get none = none
if_given get (some key) = if key == "" then none else get key

abbrev pub resumed_lot : Lot → LotStatus
resumed_lot lot = if is_some lot.current_step then LotStatus.processing else LotStatus.wait

abbrev pub resumed_panel : Lot → PanelStatus
resumed_panel lot = if is_some lot.current_step then PanelStatus.processing else PanelStatus.wait

abbrev pub held : Lot → Lot
held row = record row { status = LotStatus.hold; hold_reason = some "HOST_HOLD" }

abbrev pub resumed : Lot → Lot → Lot
resumed lot row = record row { status = resumed_lot lot; hold_reason = none }

abbrev pub is_held_panel : String → Panel → Bool
is_held_panel lot_id p = p.lot_id == lot_id && p.status == PanelStatus.hold

abbrev pub panel_with : PanelStatus → Panel → Panel
panel_with s row = record row { status = s }

abbrev pub equipment_with : EquipmentStatus → Equipment → Equipment
equipment_with s row = record row { equipment_status = s }

-- the alarm is over with the acknowledgement, unless its equipment is still silent
abbrev pub acknowledged : ℕ → String → Alarm → Alarm
acknowledged now by row = record row {
  acknowledged_at = some now;
  acknowledged_by = some by;
  resolved_at =
      if row.alarm_code == AlarmCode.communication_loss then row.resolved_at else some now;
}

abbrev pub scope_differs : Option String → String → Bool
scope_differs none product = false
scope_differs (some scope) product = scope /= "" && scope /= product

module _ {F : Type 0} where
  unfoldable pub hold_lot : Env F → CommandIn → Db F → Verdict × Db F
  hold_lot env payload db = elim (if_given (λ key. get_lot key db) payload.lot_id) [
    | none ↦ (Verdict.refused Refusal.no_lot, db)
    | some lot ↦
        if lot.status == LotStatus.complete
        then (Verdict.refused Refusal.lot_is_complete, db)
        else (
          Verdict.done,
          record_state_change env lot.id (Change.lot_change lot.status LotStatus.hold) "HOST_HOLD"
              none (set_lot lot.id held db),
        )
  ]

  unfoldable pub release_lot : Env F → CommandIn → Db F → Verdict × Db F
  release_lot env payload db = elim (if_given (λ key. get_lot key db) payload.lot_id) [
    | none ↦ (Verdict.refused Refusal.no_lot, db)
    | some lot ↦
        if lot.status /= LotStatus.hold then (Verdict.refused Refusal.lot_not_held, db) else (
          Verdict.done,
          record_state_change env lot.id (Change.lot_change lot.status (resumed_lot lot))
              "HOST_RELEASE" none
              (record (set_lot lot.id (resumed lot) db) {
                panels =
                    update_where (is_held_panel lot.id) (panel_with (resumed_panel lot)) db.panels;
              }),
        )
  ]

  unfoldable pub maint_enter : Env F → CommandIn → Db F → Verdict × Db F
  maint_enter env payload db = elim (if_given (λ key. get_equipment key db) payload.equipment_id) [
    | none ↦ (Verdict.refused Refusal.no_equipment, db)
    | some eq ↦ (
      Verdict.done,
      open_downtime env eq.id DowntimeReason.maintenance none (
          record_state_change env eq.id
            (Change.equipment_change eq.equipment_status EquipmentStatus.maintenance) "MAINT_ENTER"
            none (set_equipment eq.id (equipment_with EquipmentStatus.maintenance) db)),
    )
  ]

  unfoldable pub maint_exit : Env F → CommandIn → Db F → Verdict × Db F
  maint_exit env payload db = elim (if_given (λ key. get_equipment key db) payload.equipment_id) [
    | none ↦ (Verdict.refused Refusal.no_equipment, db)
    | some eq ↦
        if eq.equipment_status /= EquipmentStatus.maintenance
        then (Verdict.refused Refusal.not_in_maintenance, db)
        else (
          Verdict.done,
          close_downtime env eq.id (DowntimeReason.maintenance ∷ []) (
              record_state_change env eq.id
                (Change.equipment_change eq.equipment_status EquipmentStatus.idle) "MAINT_EXIT" none
                (set_equipment eq.id (equipment_with EquipmentStatus.idle) db)),
        )
  ]

  -- START and STOP
  unfoldable pub switch : Env F → Bool → CommandIn → Db F → Verdict × Db F
  switch env is_start payload db =
      elim (if_given (λ key. get_equipment key db) payload.equipment_id) [
        | none ↦ (Verdict.refused Refusal.no_equipment, db)
        | some eq ↦
            let status = if is_start then EquipmentStatus.run else EquipmentStatus.stop in
            let db' =
              record_state_change env eq.id (Change.equipment_change eq.equipment_status status)
                (if is_start then "START" else "STOP") none
                (set_equipment eq.id (equipment_with status) db) in
            if eq.equipment_status == EquipmentStatus.maintenance
            then (Verdict.refused Refusal.in_maintenance, db)
            else (
              Verdict.done,
              if is_start
                  then close_downtime env eq.id (DowntimeReason.stop ∷ []) db'
                  else open_downtime env eq.id DowntimeReason.stop none db',
            )
      ]

  unfoldable pub select_recipe : Env F → CommandIn → Db F → Verdict × Db F
  select_recipe env payload db =
      elim (if_given (λ key. get_equipment key db) payload.equipment_id) [
        | none ↦ (Verdict.refused Refusal.no_equipment, db)
        | some eq ↦
            if not (truthy payload.recipe_id)
            then (Verdict.refused Refusal.no_recipe_given, db)
            else elim (get_recipe (get_or payload.recipe_id "") db) [
              | none ↦ (Verdict.refused Refusal.unknown_recipe, db)
              | some recipe ↦
                  if scope_differs eq.product_scope recipe.product_type
                  then (Verdict.refused Refusal.recipe_of_other_product, db)
                  else (
                    Verdict.done,
                    record_state_change env eq.id
                        (Change.recipe_change eq.current_recipe_id payload.recipe_id)
                        "SELECT_RECIPE" none
                        (set_equipment eq.id
                          (λ row. record row { current_recipe_id = payload.recipe_id }) db),
                  )
            ]
      ]

  unfoldable pub ack_alarm : Env F → CommandIn → Db F → Verdict × Db F
  ack_alarm env payload db =
      elim (if_given (λ key. find_first (λ (a : Alarm). a.alarm_id == key) db.alarms)
        payload.alarm_id) [
          | none ↦ (Verdict.refused Refusal.no_alarm, db)
          | some alarm ↦ (
            Verdict.done,
            record db {
              alarms =
                  update_where (λ a. a.id == alarm.id) (acknowledged env.now payload.requested_by)
                    db.alarms;
            },
          )
        ]

  unfoldable pub scrap_panel : Env F → CommandIn → Db F → Verdict × Db F
  scrap_panel env payload db = elim (if_given (λ key. get_panel key db) payload.panel_id) [
    | none ↦ (Verdict.refused Refusal.no_panel, db)
    | some panel ↦
        if panel.status == PanelStatus.scrap
        then (Verdict.refused Refusal.already_scrapped, db)
        else if panel.status == PanelStatus.complete
        then (Verdict.refused Refusal.already_complete, db)
        else (
          Verdict.done,
          refresh_work_order_for_lot panel.lot_id (
              record_state_change env panel.id (Change.panel_change panel.status PanelStatus.scrap)
                "SCRAP" none (set_panel panel.id (panel_with PanelStatus.scrap) db)),
        )
  ]
