-- ===== src/Validation/Admission.antt =====
-- When `validate_event` lets a PROCESS event pass.
use displayfab_smart_factory.Prelude.{none, some, true, List, ◌++◌, ◌≡◌, ◌≢◌, arith, lookup, get_or}
use displayfab_smart_factory.Enums.{EventType, EquipmentStatus, LotStatus, PanelStatus}
use displayfab_smart_factory.Rules.{equipment_product}
use displayfab_smart_factory.Rules.Equipments.{scope_admits}
use displayfab_smart_factory.Models.{Equipment, Lot, Panel, Db}
use displayfab_smart_factory.Models.Tables.{get_equipment, get_lot, get_panel}
use displayfab_smart_factory.Schemas.{EquipmentEventIn}
use displayfab_smart_factory.Env.{Env}
use displayfab_smart_factory.Validation.{validate_process, checked_event}
use displayfab_smart_factory.Validation.Guards.{
  pass, CheckResult, Named, known_equipment, check_timestamp, check_duplicate, required_fields,
  check_connection, check_running, check_step, known_lot, known_panel, check_product, check_recipe,
  check_busy, check_sequence, check_hold,
}
use displayfab_smart_factory.Validation.Warnings.{
  recipe_warnings, temperature_warnings, pressure_warnings,
}
use displayfab_smart_factory.Validation.Conditions.{
  IsConnected, HasRecipe, IsFree, DoesStep, IsTimely, IsNew, IsNext, Names, connection_iff,
  running_iff, step_iff, product_iff, recipe_iff, busy_iff, hold_iff, timestamp_iff, duplicate_iff,
  sequence_iff, required_iff, equipment_iff, lot_iff, panel_iff,
}

module _ {F : Type 0} where
  -- All that the line asks of a PROCESS event, of the equipment that sends it, and of the glass.
  pub record Admitted (env : Env F) (payload : EquipmentEventIn F) (db : Db F) : Type 0 where
    pub equipment : Equipment
    pub lot : Lot
    pub panel : Panel
    pub fields : Named
    pub equipment_known : get_equipment payload.equipment_id db ≡ some equipment
    pub timely : IsTimely env payload
    pub new : IsNew env payload db
    pub complete : Names payload fields
    pub connected : IsConnected equipment
    pub running : equipment.equipment_status ≡ EquipmentStatus.run
    pub right_step : DoesStep equipment fields.step
    pub lot_known : get_lot fields.lot_id db ≡ some lot
    pub panel_known : get_panel fields.panel_id db ≡ some panel
    pub panel_in_lot : panel.lot_id ≡ lot.id
    pub not_scrapped : panel.status ≢ PanelStatus.scrap
    pub right_product :
        scope_admits (get_or (lookup equipment.id equipment_product) none) lot.product_type ≡ true
    pub recipe_selected : HasRecipe equipment payload.recipe_id
    pub free : IsFree equipment lot
    pub in_order : IsNext lot panel fields.step db
    pub not_held : lot.status ≢ LotStatus.hold

  abbrev pub warnings : Env F → EquipmentEventIn F → Lot → Db F → List CheckResult
  warnings env payload lot db =
      recipe_warnings payload lot db
      ++ (temperature_warnings env payload lot db ++ pressure_warnings env payload lot db)

  module _ (env : Env F) (payload : EquipmentEventIn F) (db : Db F) where
    -- the parts of the two `do` blocks that passed
    passed_parts :
        (results : List CheckResult)
        → payload.event_type ≡ EventType.process
        → checked_event env payload db ≡ pass results
        → (eq : Equipment) × (known_equipment payload db ≡ pass eq)
          × (check_timestamp env payload ≡ pass tt)
          × (validate_process env payload eq db ≡ pass results)
    unfolding checked_event
    passed_parts results is_process h = ground arith

    passed_process :
        (results : List CheckResult) (eq : Equipment)
        → validate_process env payload eq db ≡ pass results
        → (n : Named) × (lot : Lot) × (panel : Panel) × (check_duplicate env payload db ≡ pass tt)
          × (required_fields payload ≡ pass n)
          × (check_connection eq ≡ pass tt)
          × (check_running eq ≡ pass tt)
          × (check_step eq n.step ≡ pass tt)
          × (known_lot n.lot_id db ≡ pass lot)
          × (known_panel n.panel_id lot db ≡ pass panel)
          × (check_product eq lot ≡ pass tt)
          × (check_recipe eq payload.recipe_id ≡ pass tt)
          × (check_busy eq lot ≡ pass tt)
          × (check_sequence lot panel n.step db ≡ pass tt)
          × (check_hold lot ≡ pass tt)
          × (results ≡ warnings env payload lot db)
    unfolding validate_process
    passed_process results eq h = ground arith

    pub Admitted-of_pass :
        (results : List CheckResult)
        → payload.event_type ≡ EventType.process
        → checked_event env payload db ≡ pass results
        → (a : Admitted env payload db) × (results ≡ warnings env payload a.lot db)
    Admitted-of_pass results is_process h =
        let (eq, known, timely, rest) = passed_parts results is_process h in
        let (
          n, lot, panel, new, given, wired, runs, step, lot_is, panel_is, product, recipe, busy,
          next, held, out,
        ) =
          passed_process results eq rest in
        let running = (running_iff eq).0 runs in
        let glass = (panel_iff n.panel_id lot db panel).0 panel_is in
        (
          record {
            equipment = eq;
            lot = lot;
            panel = panel;
            fields = n;
            equipment_known = (equipment_iff payload db eq).0 known;
            timely = (timestamp_iff env payload).0 timely;
            new = (duplicate_iff env payload db).0 new;
            complete = (required_iff payload n).0 given;
            connected = (connection_iff eq).0 wired;
            running = running;
            right_step = (step_iff eq n.step).0 step;
            lot_known = (lot_iff n.lot_id db lot).0 lot_is;
            panel_known = glass.0;
            panel_in_lot = glass.1;
            not_scrapped = glass.2;
            right_product = (product_iff eq lot).0 product;
            recipe_selected = (recipe_iff eq payload.recipe_id).0 recipe;
            free = (busy_iff eq lot running).0 busy;
            in_order = (sequence_iff lot panel n.step db).0 next;
            not_held = (hold_iff lot).0 held;
          },
          out,
        )

    process_of_Admitted :
        (a : Admitted env payload db)
        → validate_process env payload a.equipment db ≡ pass (warnings env payload a.lot db)
    unfolding validate_process
    process_of_Admitted a = simp (
      (duplicate_iff env payload db).1 a.new,
      (required_iff payload a.fields).1 a.complete,
      (connection_iff a.equipment).1 a.connected,
      (running_iff a.equipment).1 a.running,
      (step_iff a.equipment a.fields.step).1 a.right_step,
      (lot_iff a.fields.lot_id db a.lot).1 a.lot_known,
      (panel_iff a.fields.panel_id a.lot db a.panel).1
          (a.panel_known, a.panel_in_lot, a.not_scrapped),
      (product_iff a.equipment a.lot).1 a.right_product,
      (recipe_iff a.equipment payload.recipe_id).1 a.recipe_selected,
      (busy_iff a.equipment a.lot a.running).1 a.free,
      (sequence_iff a.lot a.panel a.fields.step db).1 a.in_order,
      (hold_iff a.lot).1 a.not_held,
    )

    pub pass_of_Admitted :
        (a : Admitted env payload db)
        → payload.event_type ≡ EventType.process
        → checked_event env payload db ≡ pass (warnings env payload a.lot db)
    unfolding checked_event
    pass_of_Admitted a is_process =
        simp
          (
            (equipment_iff payload db a.equipment).1 a.equipment_known,
            (timestamp_iff env payload).1 a.timely,
            is_process,
          )
          (process_of_Admitted a)
