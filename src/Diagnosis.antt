-- ===== src/Diagnosis.antt =====
-- backend/app/services/diagnosis.py: what to look at where a lot stands still. The sentences of the
-- answer are left out; which of them it gives is an `Advice`.
use displayfab_smart_factory.Prelude.{
  ℕ, zero, suc, String, Option, some, ◌&&◌, not, List, [], ◌∷◌, select, is_some, leb, sort_by, ◌==◌,
  string_eq, option_string_eq, if◌then◌else◌,
}
use displayfab_smart_factory.Enums.{LotStatus, lot_status_eq}
use displayfab_smart_factory.Rules.{route_for}
use displayfab_smart_factory.Models.{Alarm, EventLog, Lot, Db}

-- the summary with its action
pub data Advice : Type 0 where
  reinspect_or_scrap match_recipe look_at_alarms look_at_history : Advice

pub record DiagnosisOut : Type 0 where
  pub lot_id : String
  pub cassette_id : String
  pub product_type : String
  pub status : LotStatus
  pub hold_reason : Option String
  pub route : List String
  pub current_step : Option String
  pub current_equipment_id : Option String
  pub open_alarms : List Alarm
  pub last_events : List EventLog
  pub advice : Advice

unfoldable pub take : {A : Type 0} → ℕ → List A → List A
take zero xs = []
take (suc n) [] = []
take (suc n) (x ∷ xs) = x ∷ take n xs

unfoldable pub advice_for : Lot → Advice
advice_for lot =
    if lot.hold_reason == some "INSPECT_FAIL"
    then Advice.reinspect_or_scrap
    else if lot.hold_reason == some "RECIPE_MISMATCH"
    then Advice.match_recipe
    else if lot.status == LotStatus.hold
    then Advice.look_at_alarms
    else Advice.look_at_history

module _ {F : Type 0} where
  unfoldable pub diagnose_lot : Lot → Db F → DiagnosisOut
  diagnose_lot lot db = record {
    lot_id = lot.id;
    cassette_id = lot.cassette_id;
    product_type = lot.product_type;
    status = lot.status;
    hold_reason = lot.hold_reason;
    route = route_for lot.product_type;
    current_step = lot.current_step;
    current_equipment_id = lot.current_equipment_id;
    open_alarms =
        sort_by (λ a b. leb b.occurred_at a.occurred_at)
          (select (λ a. a.lot_id == some lot.id && not (is_some a.resolved_at)) db.alarms);
    last_events = take 8 (
        sort_by (λ a b. leb b.created_at a.created_at)
          (select (λ l. l.lot_id == some lot.id) db.event_logs));
    advice = advice_for lot;
  }
