-- ===== src/Demo.antt =====
-- backend/app/services/demo.py: one glass is ordered and run through the line.
use displayfab_smart_factory.Prelude.{
  ℕ, String, Option, none, some, Bool, false, ◌&&◌, ◌||◌, List, map, get_or, ◌==◌, string_eq,
  option_string_eq,
}
use displayfab_smart_factory.Enums.{LotStatus, lot_status_eq}
use displayfab_smart_factory.Models.{Lot, Panel, WorkOrder, Db}
use displayfab_smart_factory.Models.Tables.{get_lot}
use displayfab_smart_factory.Env.{Env}
use displayfab_smart_factory.WorkOrders.{WorkOrderError, created, refused, create_and_release}
use displayfab_smart_factory.HostPrep.{Uuids, prepare_line}
use displayfab_smart_factory.LineRunner.{Round, RunOut, is_ok, run_work_order}

pub record DemoRun : Type 0 where
  pub ok : Bool
  pub work_order_id : String
  pub lot_id : Option String
  pub cassette_id : Option String
  pub panel_ids : List String
  pub inspect_result : String
  pub lot_status : Option LotStatus
  pub hold_reason : Option String
  pub run : RunOut

-- How a call ends that may raise: with a result, or with the `WorkOrderError` of an order that is
-- refused, which no service catches, each with what has been committed by then, or with any other
-- error.
pub data Attempt {ℓ} (A : Type ℓ) (F : Type 0) : Type ℓ where
  returned : A → Db F → Attempt A F
  raised : WorkOrderError → Db F → Attempt A F
  crashed : Attempt A F

abbrev pub attempt_of {ℓ} : {A : Type ℓ} {F : Type 0} → Option (A × Db F) → Attempt A F
attempt_of none = crashed
attempt_of (some (a, db)) = returned a db

-- what a demo takes from outside: the clock and the uuids when it makes the line ready, when it
-- releases the order, and when the order is run
pub record Stage (F : Type 0) : Type 0 where
  pub env : Env F
  pub uuid4 : String → Uuids
  pub release_env : Env F
  pub run_env : Env F
  pub run_uuid4 : String → Uuids
  pub rounds : ℕ → Round F

-- the lot is held for the failed inspection that was asked for
abbrev pub held_fail : String → Option Lot → Bool
held_fail inspect_result none = false
held_fail inspect_result (some lot) =
    inspect_result == "FAIL"
    && (lot.status == LotStatus.hold && lot.hold_reason == some "INSPECT_FAIL")

abbrev status_of_lot : Option Lot → Option LotStatus
status_of_lot none = none
status_of_lot (some lot) = some lot.status

abbrev reason_of_lot : Option Lot → Option String
reason_of_lot none = none
reason_of_lot (some lot) = lot.hold_reason

module _ {F : Type 0} where
  unfoldable pub run_ordered :
      Stage F → String → WorkOrder → List Panel → Db F → Option (DemoRun × Db F)
  run_ordered stage inspect_result order panels db =
      elim (run_work_order stage.run_env stage.run_uuid4 stage.rounds order.id inspect_result db) [
        | none ↦ none
        | some (out, db') ↦
            let lot = get_lot (get_or order.lot_id "") db' in
            some (
              record {
                ok = is_ok out || held_fail inspect_result lot;
                work_order_id = order.id;
                lot_id = order.lot_id;
                cassette_id = order.cassette_id;
                panel_ids = map (λ (p : Panel). p.id) panels;
                inspect_result = inspect_result;
                lot_status = status_of_lot lot;
                hold_reason = reason_of_lot lot;
                run = out;
              },
              db',
            )
      ]

  unfoldable pub run_demo : Stage F → String → String → String → Db F → Attempt DemoRun F
  run_demo stage product_type recipe_id inspect_result db =
      elim (prepare_line stage.env stage.uuid4 recipe_id db) [
        | none ↦ crashed
        | some db1 ↦
            elim (create_and_release stage.release_env product_type (some recipe_id) 1 db1) [
              | refused e ↦ raised e db1
              | created ((order, panels), db2) ↦
                  attempt_of (run_ordered stage inspect_result order panels db2)
            ]
      ]
