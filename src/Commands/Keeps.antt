-- ===== src/Commands/Keeps.antt =====
-- What the commands keep: the history of the glass, the ends of the lots, and the downtime.
use displayfab_smart_factory.Prelude.{
  String, Option, none, Bool, true, false, [], ◌∷◌, ◌++◌, ◌≡◌, inl, inr, arith, ◌==◌, string_eq,
  Bool-cases, Option-cases,
}
use displayfab_smart_factory.Enums.{
  CommandType, CommandStatus, DowntimeReason, EquipmentStatus, equipment_status_eq,
}
use displayfab_smart_factory.Models.{Change, Db}
use displayfab_smart_factory.Models.Tables.{
  get_equipment, set_equipment, set_lot, set_panel, set_work_order,
}
use displayfab_smart_factory.Schemas.{CommandIn}
use displayfab_smart_factory.Env.{Env}
use displayfab_smart_factory.Downtime.Single.{
  IsSingle, open_downtime-IsSingle, close_downtime-IsSingle,
}
use displayfab_smart_factory.Journal.{record_state_change}
use displayfab_smart_factory.WorkOrders.{refresh_work_order_for_lot}
use displayfab_smart_factory.Commands.{apply_command, save, execute_command}
use displayfab_smart_factory.Commands.Orders.{
  Verdict, if_given, hold_lot, release_lot, maint_enter, maint_exit, switch, select_recipe,
  ack_alarm, scrap_panel,
}

module _ {F : Type 0} (env : Env F) (payload : CommandIn) (db : Db F) where
  -- a refused command changes nothing
  abbrev Still : Verdict × Db F → Type 0
  Still (Verdict.done, db') = Unit
  Still (Verdict.refused r, db') = db' ≡ db

  hold_lot-Still : Still (hold_lot env payload db)
  unfolding hold_lot
  hold_lot-Still = ground arith

  release_lot-Still : Still (release_lot env payload db)
  unfolding release_lot
  release_lot-Still = ground arith

  maint_enter-Still : Still (maint_enter env payload db)
  unfolding maint_enter
  maint_enter-Still = ground arith

  maint_exit-Still : Still (maint_exit env payload db)
  unfolding maint_exit
  maint_exit-Still = ground arith

  switch-Still : (b : Bool) → Still (switch env b payload db)
  unfolding switch
  switch-Still b = ground arith

  select_recipe-Still : Still (select_recipe env payload db)
  unfolding select_recipe
  select_recipe-Still = ground arith

  ack_alarm-Still : Still (ack_alarm env payload db)
  unfolding ack_alarm
  ack_alarm-Still = ground arith

  scrap_panel-Still : Still (scrap_panel env payload db)
  unfolding scrap_panel
  scrap_panel-Still = ground arith

  apply_command-Still : (t : CommandType) → Still (apply_command env t payload db)
  unfolding apply_command
  apply_command-Still CommandType.hold_lot = hold_lot-Still
  apply_command-Still CommandType.release_lot = release_lot-Still
  apply_command-Still CommandType.maint_enter = maint_enter-Still
  apply_command-Still CommandType.maint_exit = maint_exit-Still
  apply_command-Still CommandType.start = switch-Still true
  apply_command-Still CommandType.stop = switch-Still false
  apply_command-Still CommandType.select_recipe = select_recipe-Still
  apply_command-Still CommandType.ack_alarm = ack_alarm-Still
  apply_command-Still CommandType.scrap_panel = scrap_panel-Still

  -- A command that is answered with REJECTED, of whatever type, changes nothing but for its own row
  -- in the table of the commands, and nothing is delivered to the equipment.
  pub execute_command-rejected :
      (command_id : String)
      → (execute_command env command_id payload db).0.status ≡ CommandStatus.rejected
      → ((execute_command env command_id payload db).1 ≡ record db {
        host_commands = db.host_commands ++ (execute_command env command_id payload db).0 ∷ [];
      })
        × ((execute_command env command_id payload db).0.delivered_at ≡ none)
  unfolding execute_command save
  execute_command-rejected command_id h =
      let still = apply_command-Still payload.command_type in ground arith

  -- the command leaves the downtime alone, or opens or closes some
  abbrev Singly : Verdict × Db F → Type 0
  Singly (v, db') = IsSingle db'

  downtime-record_state_change :
      (k : String) (c : Change) (reason : String) (e : Option String) (d : Db F)
      → (record_state_change env k c reason e d).downtime ≡ d.downtime
  unfolding record_state_change
  downtime-record_state_change k c reason e d = ground arith

  downtime-hold_lot : (hold_lot env payload db).1.downtime ≡ db.downtime
  unfolding hold_lot record_state_change set_lot
  downtime-hold_lot = ground arith

  downtime-release_lot : (release_lot env payload db).1.downtime ≡ db.downtime
  unfolding release_lot record_state_change set_lot
  downtime-release_lot = ground arith

  downtime-select_recipe : (select_recipe env payload db).1.downtime ≡ db.downtime
  unfolding select_recipe record_state_change set_equipment
  downtime-select_recipe = ground arith

  downtime-ack_alarm : (ack_alarm env payload db).1.downtime ≡ db.downtime
  unfolding ack_alarm
  downtime-ack_alarm = ground arith

  downtime-scrap_panel : (scrap_panel env payload db).1.downtime ≡ db.downtime
  unfolding scrap_panel record_state_change set_panel refresh_work_order_for_lot set_work_order
  downtime-scrap_panel = ground arith

  module _ (s : IsSingle db) where
    maint_enter-Singly : Singly (maint_enter env payload db)
    unfolding maint_enter set_equipment
    maint_enter-Singly =
        elim (Option-cases (if_given (λ key. get_equipment key db) payload.equipment_id)) [
          | inl n ↦ rw (n, maint_enter) s
          | inr (eq, n) ↦
              rw (n, maint_enter)
                (open_downtime-IsSingle env _ eq.id DowntimeReason.maintenance none
                  (rw downtime-record_state_change s)).0
        ]

    maint_exit-Singly : Singly (maint_exit env payload db)
    unfolding maint_exit set_equipment
    maint_exit-Singly =
        elim (Option-cases (if_given (λ key. get_equipment key db) payload.equipment_id)) [
          | inl n ↦ rw (n, maint_exit) s
          | inr (eq, n) ↦ elim (Bool-cases (eq.equipment_status == EquipmentStatus.maintenance)) [
            | inl m ↦
                rw (n, maint_exit)
                  (rw m (
                    close_downtime-IsSingle env _ eq.id (DowntimeReason.maintenance ∷ [])
                      (rw downtime-record_state_change s)))
            | inr m ↦ rw (n, maint_exit) (rw m s)
          ]
        ]

    switch-Singly : (b : Bool) → Singly (switch env b payload db)
    unfolding switch set_equipment
    switch-Singly true =
        elim (Option-cases (if_given (λ key. get_equipment key db) payload.equipment_id)) [
          | inl n ↦ rw (n, switch) s
          | inr (eq, n) ↦ elim (Bool-cases (eq.equipment_status == EquipmentStatus.maintenance)) [
            | inl m ↦ rw (n, switch) (rw m s)
            | inr m ↦
                rw (n, switch)
                  (rw m (
                    close_downtime-IsSingle env _ eq.id (DowntimeReason.stop ∷ [])
                      (rw downtime-record_state_change s)))
          ]
        ]
    switch-Singly false =
        elim (Option-cases (if_given (λ key. get_equipment key db) payload.equipment_id)) [
          | inl n ↦ rw (n, switch) s
          | inr (eq, n) ↦ elim (Bool-cases (eq.equipment_status == EquipmentStatus.maintenance)) [
            | inl m ↦ rw (n, switch) (rw m s)
            | inr m ↦
                rw (n, switch)
                  (rw m
                    (open_downtime-IsSingle env _ eq.id DowntimeReason.stop none
                      (rw downtime-record_state_change s)).0)
          ]
        ]

    apply_command-Singly : (t : CommandType) → Singly (apply_command env t payload db)
    unfolding apply_command
    apply_command-Singly CommandType.hold_lot = rw downtime-hold_lot s
    apply_command-Singly CommandType.release_lot = rw downtime-release_lot s
    apply_command-Singly CommandType.maint_enter = maint_enter-Singly
    apply_command-Singly CommandType.maint_exit = maint_exit-Singly
    apply_command-Singly CommandType.start = switch-Singly true
    apply_command-Singly CommandType.stop = switch-Singly false
    apply_command-Singly CommandType.select_recipe = rw downtime-select_recipe s
    apply_command-Singly CommandType.ack_alarm = rw downtime-ack_alarm s
    apply_command-Singly CommandType.scrap_panel = rw downtime-scrap_panel s

    -- Where each equipment stands still for one reason at most once, so it is after any command.
    pub execute_command-IsSingle :
        (command_id : String) → IsSingle (execute_command env command_id payload db).1
    unfolding execute_command save
    execute_command-IsSingle command_id = apply_command-Singly payload.command_type
