-- ===== src/Ingestion/Frames.antt =====
-- What the parts of `ingest_event` leave alone.
use displayfab_smart_factory.Prelude.{String, Option, Bool, List, [], ◌∷◌, ◌≡◌, refl, arith, ◌∙◌}
use displayfab_smart_factory.Models.{Change, Db}
use displayfab_smart_factory.Models.Tables.{set_equipment, set_lot, set_panel, set_work_order}
use displayfab_smart_factory.Schemas.{EquipmentEventIn}
use displayfab_smart_factory.Env.{Env}
use displayfab_smart_factory.Alarms.{AlarmRequest, create_alarm, resolve_open_alarms}
use displayfab_smart_factory.Downtime.{close_downtime}
use displayfab_smart_factory.Journal.{record_state_change}
use displayfab_smart_factory.WorkOrders.{refresh_work_order_for_lot}
use displayfab_smart_factory.Validation.Guards.{CheckResult}
use displayfab_smart_factory.Ingestion.Steps.{
  Target, mark_seen, occupy, target_alarm, raise_checks, raise_inspect_fail,
}
use displayfab_smart_factory.Ingestion.Settle.{settled_lot, settle, settle_event}

module _ {F : Type 0} where
  -- the tables of the production itself, but not the equipment and the journals
  pub record SameLine (a b : Db F) : Type 0 where
    pub lots : b.lots ≡ a.lots
    pub panels : b.panels ≡ a.panels
    pub work_orders : b.work_orders ≡ a.work_orders
    pub process_events : b.process_events ≡ a.process_events
    pub sensor_readings : b.sensor_readings ≡ a.sensor_readings
    pub recipes : b.recipes ≡ a.recipes

  pub SameLine-trans : {a b c : Db F} → SameLine a b → SameLine b c → SameLine a c
  SameLine-trans h k = record {
    lots = k.lots ∙ h.lots;
    panels = k.panels ∙ h.panels;
    work_orders = k.work_orders ∙ h.work_orders;
    process_events = k.process_events ∙ h.process_events;
    sensor_readings = k.sensor_readings ∙ h.sensor_readings;
    recipes = k.recipes ∙ h.recipes;
  }

  pub equipment-refresh :
      (k : String) (db : Db F) → (refresh_work_order_for_lot k db).equipment ≡ db.equipment
  unfolding refresh_work_order_for_lot set_work_order
  equipment-refresh k db = ground arith

  module _ (env : Env F) where
    pub mark_seen-SameLine :
        (payload : EquipmentEventIn F) (db : Db F) → SameLine db (mark_seen env payload db)
    unfolding mark_seen close_downtime resolve_open_alarms set_equipment
    mark_seen-SameLine payload db = ground arith

    pub event_logs-mark_seen :
        (payload : EquipmentEventIn F) (db : Db F)
        → (mark_seen env payload db).event_logs ≡ db.event_logs
    unfolding mark_seen close_downtime resolve_open_alarms set_equipment
    event_logs-mark_seen payload db = ground arith

    pub create_alarm-SameLine :
        (r : AlarmRequest) (db : Db F) → SameLine db (create_alarm env r db).1
    unfolding create_alarm
    create_alarm-SameLine r db = ground arith

    pub record_state_change-SameLine :
        (id : String) (c : Change) (reason : String) (event_id : Option String) (db : Db F)
        → SameLine db (record_state_change env id c reason event_id db)
    unfolding record_state_change
    record_state_change-SameLine id c reason event_id db = ground arith

    pub event_logs-record_state_change :
        (id : String) (c : Change) (reason : String) (event_id : Option String) (db : Db F)
        → (record_state_change env id c reason event_id db).event_logs ≡ db.event_logs
    unfolding record_state_change
    event_logs-record_state_change id c reason event_id db = ground arith

    pub occupy-SameLine :
        (payload : EquipmentEventIn F) (event_id : String) (t : Target) (db : Db F)
        → SameLine db (occupy env payload event_id t db)
    unfolding occupy record_state_change set_equipment
    occupy-SameLine payload event_id t db = ground arith

    pub event_logs-occupy :
        (payload : EquipmentEventIn F) (event_id : String) (t : Target) (db : Db F)
        → (occupy env payload event_id t db).event_logs ≡ db.event_logs
    unfolding occupy record_state_change set_equipment
    event_logs-occupy payload event_id t db = ground arith

    pub equipment-record_state_change :
        (k : String) (c : Change) (reason : String) (event_id : Option String) (db : Db F)
        → (record_state_change env k c reason event_id db).equipment ≡ db.equipment
    unfolding record_state_change
    equipment-record_state_change k c reason event_id db = ground arith

    pub equipment-raise_checks :
        (event_id : String) (t : Target) (cs : List CheckResult) (db : Db F)
        → (raise_checks env event_id t cs db).1.equipment ≡ db.equipment
    unfolding raise_checks create_alarm
    equipment-raise_checks event_id t [] db = refl
    equipment-raise_checks event_id t (c ∷ cs) db =
        equipment-raise_checks event_id t cs
          (create_alarm env (target_alarm t event_id c.code c.severity) db).1

    pub equipment-raise_inspect_fail :
        (event_id : String) (t : Target) (failed : Bool) (db : Db F)
        → (raise_inspect_fail env event_id t failed db).1.equipment ≡ db.equipment
    unfolding raise_inspect_fail create_alarm
    equipment-raise_inspect_fail event_id t failed db = ground arith

    module _ (event_id : String) (t : Target) where
      pub raise_checks-SameLine :
          (cs : List CheckResult) (db : Db F) → SameLine db (raise_checks env event_id t cs db).1
      unfolding raise_checks create_alarm
      raise_checks-SameLine [] db = ground arith
      raise_checks-SameLine (c ∷ cs) db = ground (
        arith,
        raise_checks-SameLine cs
            (create_alarm env (target_alarm t event_id c.code c.severity) db).1,
      )

      pub event_logs-raise_checks :
          (cs : List CheckResult) (db : Db F)
          → (raise_checks env event_id t cs db).1.event_logs ≡ db.event_logs
      unfolding raise_checks create_alarm
      event_logs-raise_checks [] db = refl
      event_logs-raise_checks (c ∷ cs) db =
          event_logs-raise_checks cs
            (create_alarm env (target_alarm t event_id c.code c.severity) db).1

      pub raise_inspect_fail-SameLine :
          (failed : Bool) (db : Db F) → SameLine db (raise_inspect_fail env event_id t failed db).1
      unfolding raise_inspect_fail create_alarm
      raise_inspect_fail-SameLine failed db = ground arith

      pub event_logs-raise_inspect_fail :
          (failed : Bool) (db : Db F)
          → (raise_inspect_fail env event_id t failed db).1.event_logs ≡ db.event_logs
      unfolding raise_inspect_fail create_alarm
      event_logs-raise_inspect_fail failed db = ground arith

      pub event_logs-settle_event :
          (hold : Option String) (failed : Bool) (db : Db F)
          → (settle_event env event_id t hold failed db).event_logs ≡ db.event_logs
      unfolding settle_event record_state_change set_equipment set_lot set_panel
          refresh_work_order_for_lot set_work_order
      event_logs-settle_event hold failed db = ground arith

      module _ (hold : Option String) (failed : Bool) (db : Db F) where
        pub process_events-settle_event :
            (settle_event env event_id t hold failed db).process_events ≡ db.process_events
        unfolding settle_event record_state_change set_equipment set_lot set_panel
            refresh_work_order_for_lot set_work_order
        process_events-settle_event = ground arith

        -- The event changes one panel, and of that only the status, and one lot, and of that neither
        -- the product nor the recipe.
        pub panels-settle_event :
            (settle_event env event_id t hold failed db).panels
            ≡ (set_panel t.panel.id
                (λ row. record row { status = (settle t hold failed db).panel_status })
                db).panels
        unfolding settle_event record_state_change set_equipment set_lot set_panel
            refresh_work_order_for_lot set_work_order
        panels-settle_event = ground arith

        pub lots-settle_event :
            (settle_event env event_id t hold failed db).lots
            ≡ (set_lot t.lot.id (settled_lot t (settle t hold failed db)) db).lots
        unfolding settle_event record_state_change set_equipment set_lot set_panel
            refresh_work_order_for_lot set_work_order
        lots-settle_event = ground arith
