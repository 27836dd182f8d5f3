-- ===== src/Line.antt =====
-- The line as a whole: everything that changes its database, in any order. An action is one request
-- that the backend serves, or one round of the offline detector; each is one commit.
pub mod Links
pub mod Kept
pub mod Arrivals
pub mod Run
use displayfab_smart_factory.Prelude.{ℕ, String, Option, none, some, List, [], ◌∷◌, if◌then◌else◌}
use displayfab_smart_factory.Models.{Panel, WorkOrder, Db}
use displayfab_smart_factory.WorkOrders.{Created, created, refused, create_and_release}
use displayfab_smart_factory.Schemas.{EquipmentEventIn, CommandIn}
use displayfab_smart_factory.Env.{Env, FloatOps}
use displayfab_smart_factory.Maintenance.{ResetOut, reset_demo_data}
use displayfab_smart_factory.Ingestion.Steps.{Outcome}
use displayfab_smart_factory.Ingestion.{overflows, ingest_event, collect_push}
use displayfab_smart_factory.Commands.{execute_command}
use displayfab_smart_factory.Offline.{mark_offline_equipment}

pub data Action (F : Type 0) : Type 0 where
  event push : Env F → EquipmentEventIn F → String → String → Action F
  command : Env F → String → CommandIn → Action F
  release_order : Env F → String → Option String → ℕ → Action F
  detect_offline : Env F → Action F
  reset_demo : FloatOps F → Action F

module _ {F : Type 0} where
  abbrev pub state_of : Option (Outcome × Db F) → Option (Db F)
  state_of none = none
  state_of (some (o, db)) = some db

  -- a refused order raises before anything is stored, and is answered with an error
  abbrev pub ordered : Db F → Created ((WorkOrder × List Panel) × Db F) → Db F
  ordered db (created (rows, db')) = db'
  ordered db (refused e) = db

  abbrev pub reset_of : Option (ResetOut × Db F) → Option (Db F)
  reset_of none = none
  reset_of (some (out, db)) = some db

  -- `none` where the handler raises, but for the `OverflowError` of a timestamp, with which a request
  -- ends and its session commits nothing
  unfoldable pub act : Action F → Db F → Option (Db F)
  act (Action.event env payload request_id event_id) db =
      if overflows payload db
      then some db
      else state_of (ingest_event env payload request_id event_id db)
  act (Action.push env payload request_id event_id) db =
      if overflows payload db
      then some db
      else state_of (collect_push env payload request_id event_id db)
  act (Action.command env command_id payload) db =
      some (execute_command env command_id payload db).1
  act (Action.release_order env product_type recipe_id qty) db =
      some (ordered db (create_and_release env product_type recipe_id qty db))
  act (Action.detect_offline env) db = some (mark_offline_equipment env db).1
  act (Action.reset_demo float) db = reset_of (reset_demo_data float db)

  unfoldable pub act_all : List (Action F) → Db F → Option (Db F)
  act_all [] db = some db
  act_all (a ∷ rest) db = elim (act a db) [ none ↦ none | some db' ↦ act_all rest db' ]
