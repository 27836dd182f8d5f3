-- ===== src/Ingestion/Dispatched.antt =====
-- The dispatch and the event ingestion together: the report of a glass that went where it was sent.
use displayfab_smart_factory.Prelude.{
  String, some, true, false, ◌≡◌, ◌≢◌, sym, subst, ap, ◌∙◌, arith, inr, string_eq,
}
use displayfab_smart_factory.Enums.{
  EquipmentStatus, EventType, LotStatus, PanelStatus, ProductType, product_value, panel_status_eq,
}
use displayfab_smart_factory.Rules.{normalize_step}
use displayfab_smart_factory.Rules.Equipments.{Fits}
use displayfab_smart_factory.Models.{Equipment, Lot, Panel, Db}
use displayfab_smart_factory.Models.Tables.{get_equipment, get_lot, get_panel, id-get_equipment}
use displayfab_smart_factory.Schemas.{EquipmentEventIn}
use displayfab_smart_factory.Env.{Env}
use displayfab_smart_factory.Validation.Conditions.{
  no_empty_step, IsConnected, HasRecipe, IsFree, IsTimely, IsNew, sequence_iff,
}
use displayfab_smart_factory.Validation.Admission.{Admitted}
use displayfab_smart_factory.Dispatch.{course, panel_dispatch}
use displayfab_smart_factory.Dispatch.Next.{panel_dispatch-check_sequence}
use displayfab_smart_factory.Dispatch.Progress.{panel_dispatch-Fits}
use displayfab_smart_factory.Ingestion.{ingest_event}
use displayfab_smart_factory.Ingestion.Acceptance.{is_accepted, accepted_iff-Admitted}

module _ {F : Type 0} where
  -- The equipment that reports is known, connected, running and free for the lot, with its recipe.
  pub record IsManned (payload : EquipmentEventIn F) (lot : Lot) (db : Db F) : Type 0 where
    pub equipment : Equipment
    pub known : get_equipment payload.equipment_id db ≡ some equipment
    pub connected : IsConnected equipment
    pub running : equipment.equipment_status ≡ EquipmentStatus.run
    pub recipe_selected : HasRecipe equipment payload.recipe_id
    pub free : IsFree equipment lot

  -- The event reports the step of the glass, on time and for the first time.
  pub record Reports (env : Env F) (payload : EquipmentEventIn F) (lot : Lot) (panel : Panel)
      (step : String) (db : Db F) : Type 0 where
    pub is_process : payload.event_type ≡ EventType.process
    pub unforced : payload.force_db_failure ≡ false
    pub timely : IsTimely env payload
    pub new : IsNew env payload db
    pub names_lot : payload.lot_id ≡ some lot.id
    pub names_panel : payload.panel_id ≡ some panel.id
    pub names_step : normalize_step payload.process_step ≡ some step
    pub lot_id_given : lot.id ≢ ""
    pub panel_id_given : panel.id ≢ ""

  -- The glass is one of the lot, and both are in the database.
  pub record IsGlassOf (lot : Lot) (panel : Panel) (db : Db F) : Type 0 where
    pub lot_known : get_lot lot.id db ≡ some lot
    pub panel_known : get_panel panel.id db ≡ some panel
    pub panel_in_lot : panel.lot_id ≡ lot.id

  module _ (env : Env F) (payload : EquipmentEventIn F) (lot : Lot) (panel : Panel)
      (db : Db F) where
    not_scrapped :
        (step : String)
        → (panel_dispatch lot panel db).next_step ≡ some step
        → panel.status ≢ PanelStatus.scrap
    unfolding panel_dispatch course
    not_scrapped step h s = ground arith

    Fits-id :
        (id step : String) (eq : Equipment)
        → get_equipment id db ≡ some eq
        → Fits lot.product_type step id
        → Fits lot.product_type step eq.id
    Fits-id id step eq g f =
        subst (Fits lot.product_type step) (sym (id-get_equipment id db eq g)) f

    no_empty : (step id : String) → Fits lot.product_type step id → step ≢ ""
    no_empty step id f e = no_empty_step id (f.does_step ∙ ap some e)

    dispatched-Admitted :
        (t : ProductType) (step : String)
        → lot.product_type ≡ product_value t
        → panel.status ≢ PanelStatus.fail
        → lot.status ≢ LotStatus.hold
        → (panel_dispatch lot panel db).next_step ≡ some step
        → (panel_dispatch lot panel db).next_equipment_id ≡ some payload.equipment_id
        → IsGlassOf lot panel db
        → IsManned payload lot db
        → Reports env payload lot panel step db
        → Admitted env payload db
    dispatched-Admitted t step product n free h sent glass m r =
        let (id, goes, f) = panel_dispatch-Fits lot panel db t step product n h in
        let same : id ≡ payload.equipment_id = cc in
        let fit =
          Fits-id payload.equipment_id step m.equipment m.known
            (subst (Fits lot.product_type step) same f) in
        record {
          equipment = m.equipment;
          lot = lot;
          panel = panel;
          fields = record { lot_id = lot.id; panel_id = panel.id; step = step };
          equipment_known = m.known;
          timely = r.timely;
          new = r.new;
          complete = (
            r.names_lot,
            r.names_panel,
            r.names_step,
            r.lot_id_given,
            r.panel_id_given,
            no_empty step m.equipment.id fit,
          );
          connected = m.connected;
          running = m.running;
          right_step = inr fit.does_step;
          lot_known = glass.lot_known;
          panel_known = glass.panel_known;
          panel_in_lot = glass.panel_in_lot;
          not_scrapped = not_scrapped step h;
          right_product = fit.takes_product;
          recipe_selected = m.recipe_selected;
          free = m.free;
          in_order =
              (sequence_iff lot panel step db).0
                (panel_dispatch-check_sequence lot panel db step n h);
          not_held = free;
        }

    -- Where the dispatch sends a glass of a lot that is not held, and that has not failed an
    -- inspection, to an equipment for a step, the first timely report of that step by that equipment
    -- is accepted: no check stops it where the equipment is known, connected, running, free for the
    -- lot and has its recipe.
    pub panel_dispatch-ingest_event :
        (t : ProductType) (step request_id event_id : String)
        → lot.product_type ≡ product_value t
        → panel.status ≢ PanelStatus.fail
        → lot.status ≢ LotStatus.hold
        → (panel_dispatch lot panel db).next_step ≡ some step
        → (panel_dispatch lot panel db).next_equipment_id ≡ some payload.equipment_id
        → IsGlassOf lot panel db
        → IsManned payload lot db
        → Reports env payload lot panel step db
        → is_accepted (ingest_event env payload request_id event_id db) ≡ true
    panel_dispatch-ingest_event t step request_id event_id product n free h sent glass m r =
        (accepted_iff-Admitted env payload db request_id event_id r.is_process r.unforced).1
          (dispatched-Admitted t step product n free h sent glass m r)
