-- ===== src/Witnesses/Dispatched.antt =====
-- The theorems on the dispatch at work: a first glass that is sent to the loader.
use displayfab_smart_factory.Prelude.{
  String, some, true, ◌≡◌, refl, arith, inl, any_of, contains, find_first, lookup, select,
  String-discrete,
}
use displayfab_smart_factory.Enums.{ProductType, PanelStatus-discrete}
use displayfab_smart_factory.Rules.{
  alias, next_operation, next_position, operation_at, route_for, equipment_ids_for_step,
}
use displayfab_smart_factory.Rules.Equipments.{Fits}
use displayfab_smart_factory.Models.Tables.{get_equipment, get_lot, get_panel}
use displayfab_smart_factory.Validation.Guards.{last_step, latest_event}
use displayfab_smart_factory.Dispatch.{
  least, known_rows, picked, pick_equipment, course, panel_dispatch,
}
use displayfab_smart_factory.Dispatch.Progress.{panel_dispatch-Fits}
use displayfab_smart_factory.Schemas.{as_naive_utc, utc_of}
use displayfab_smart_factory.Ingestion.{ingest_event}
use displayfab_smart_factory.Ingestion.Acceptance.{is_accepted}
use displayfab_smart_factory.Ingestion.Dispatched.{
  IsManned, Reports, IsGlassOf, panel_dispatch-ingest_event,
}
use displayfab_smart_factory.Samples.{lab, machine, small_line, load_event, lot_one, glass}

first_glass-IsGlassOf : IsGlassOf lot_one (glass "PNL-1" 1) small_line
unfolding get_lot get_panel find_first String-discrete
first_glass-IsGlassOf = record { lot_known = refl; panel_known = refl; panel_in_lot = refl }

loader-IsManned : IsManned load_event lot_one small_line
unfolding get_equipment find_first lookup contains String-discrete
loader-IsManned = record {
  equipment = machine "LOAD-01" "LOAD";
  known = refl;
  connected = inl refl;
  running = refl;
  recipe_selected = λ w. ground arith;
  free = inl refl;
}

load_event-Reports : Reports lab load_event lot_one (glass "PNL-1" 1) "LOAD" small_line
unfolding any_of alias lookup utc_of as_naive_utc String-discrete
load_event-Reports = record {
  is_process = refl;
  unforced = refl;
  timely = (refl, omega arith, omega arith);
  new = refl;
  names_lot = refl;
  names_panel = refl;
  names_step = refl;
  lot_id_given = λ e. cc;
  panel_id_given = λ e. cc;
}

panel_dispatch-Fits_example :
    (id : String) × ((panel_dispatch lot_one (glass "PNL-1" 1) small_line).next_equipment_id
      ≡ some id)
    × Fits "OLED" "LOAD" id
unfolding panel_dispatch course last_step latest_event select next_operation next_position
    operation_at PanelStatus-discrete route_for String-discrete
panel_dispatch-Fits_example =
    panel_dispatch-Fits lot_one (glass "PNL-1" 1) small_line ProductType.oled "LOAD" refl (λ h. cc)
      refl

panel_dispatch-ingest_event_example :
    is_accepted (ingest_event lab load_event "r-1" "e-1" small_line) ≡ true
unfolding panel_dispatch course last_step latest_event select next_operation next_position
    operation_at PanelStatus-discrete route_for String-discrete picked pick_equipment least
    known_rows equipment_ids_for_step alias lookup get_equipment find_first
panel_dispatch-ingest_event_example =
    panel_dispatch-ingest_event lab load_event lot_one (glass "PNL-1" 1) small_line ProductType.oled
      "LOAD" "r-1" "e-1" refl (λ h. cc) (λ h. cc) refl refl first_glass-IsGlassOf loader-IsManned
      load_event-Reports
