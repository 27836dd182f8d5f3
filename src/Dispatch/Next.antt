-- ===== src/Dispatch/Next.antt =====
-- The dispatch and the validation agree: a glass is sent where it will be let in.
use displayfab_smart_factory.Prelude.{String, none, some, true, ◌≡◌, ◌≢◌, ◌↔◌, arith, string_eq}
use displayfab_smart_factory.Enums.{PanelStatus, panel_status_eq}
use displayfab_smart_factory.Rules.Routes.{next_operation-allowed}
use displayfab_smart_factory.Models.{Lot, Panel, Db}
use displayfab_smart_factory.Validation.Guards.{pass, last_step, check_sequence}
use displayfab_smart_factory.Dispatch.{course, panel_dispatch}

module _ {F : Type 0} (lot : Lot) (panel : Panel) (db : Db F) where
  -- Wherever the dispatch sends a glass that has not failed an inspection, the sequence check of the
  -- validation lets it in at that step, with the same history.
  pub panel_dispatch-check_sequence :
      (step : String)
      → panel.status ≢ PanelStatus.fail
      → (panel_dispatch lot panel db).next_step ≡ some step
      → check_sequence lot panel step db ≡ pass tt
  unfolding panel_dispatch course check_sequence
  panel_dispatch-check_sequence step n h =
      let ok = next_operation-allowed lot.product_type (last_step panel.id db) step in ground arith

  -- A glass has no next step exactly when it is done; SCRAP and COMPLETE glass is done.
  pub panel_dispatch-done :
      ((panel_dispatch lot panel db).done ≡ true) ↔ ((panel_dispatch lot panel db).next_step ≡ none)
  unfolding panel_dispatch course
  panel_dispatch-done = (λ h. ground arith, λ h. ground arith)
