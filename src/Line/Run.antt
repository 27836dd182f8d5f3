-- ===== src/Line/Run.antt =====
-- Runs of the line: what holds after any sequence of actions.
use displayfab_smart_factory.Prelude.{
  ℕ, String, ◌∙◌, is_some, arith, Option, none, some, List, [], ◌∷◌, ◌≡◌, refl, subst, Bool, true,
  false, inl, inr, Option-cases, if◌then◌else◌,
}
use displayfab_smart_factory.Models.{Db}
use displayfab_smart_factory.Models.Tables.{get_equipment}
use displayfab_smart_factory.Schemas.{EquipmentEventIn, Datetime, as_naive_utc}
use displayfab_smart_factory.Env.{Env}
use displayfab_smart_factory.Adapter.{accept_push}
use displayfab_smart_factory.Ingestion.Steps.{Outcome}
use displayfab_smart_factory.Ingestion.{overflows, ingest_event, collect_push}
use displayfab_smart_factory.Ingestion.Traceability.{SoundAfter, ingest-IsSound}
use displayfab_smart_factory.Ingestion.Completion.{CompleteAfter, ingest-IsComplete}
use displayfab_smart_factory.Commands.Tidy.{execute_command-Tidy}
use displayfab_smart_factory.Line.{Action, state_of, act, act_all}
use displayfab_smart_factory.Ingestion.Growth.{Effect, ingest-Effect}
use displayfab_smart_factory.Line.Links.{IsLinked, Unchanged-IsLinked, Stored-IsLinked}
use displayfab_smart_factory.Line.Arrivals.{create_and_release-IsKept}
use displayfab_smart_factory.Maintenance.Reset.{reset_demo_data-IsReset}
use displayfab_smart_factory.Line.Kept.{
  IsKept, tidy-IsKept, accept_push-IsKept, mark_offline_equipment-IsKept,
}

module _ {F : Type 0} where
  -- the handler did not raise, and its database is kept
  abbrev pub KeptAfter : Option (Db F) → Type 0
  KeptAfter none = ⊥
  KeptAfter (some db) = IsKept db

  module _ (env : Env F) (payload : EquipmentEventIn F) (request_id event_id : String)
      (db : Db F) where
    Effect-KeptAfter :
        (r : Option (Outcome × Db F))
        → overflows payload db ≡ false
        → Effect env payload db r
        → IsLinked db
        → SoundAfter env payload request_id event_id db r
        → CompleteAfter env payload request_id event_id db r
        → KeptAfter (state_of r)
    Effect-KeptAfter none f e k s c = absurd (cc)
    Effect-KeptAfter (some (o, db')) f (inl u) k s c = record {
      sound = s;
      complete = c;
      linked = Unchanged-IsLinked db db' u k;
    }
    Effect-KeptAfter (some (o, db')) f (inr w) k s c = record {
      sound = s;
      complete = c;
      linked = Stored-IsLinked env payload db db' w k;
    }

    ingest-IsKept :
        overflows payload db ≡ false
        → IsKept db
        → KeptAfter (state_of (ingest_event env payload request_id event_id db))
    ingest-IsKept f k =
        Effect-KeptAfter (ingest_event env payload request_id event_id db) f
          (ingest-Effect env payload request_id event_id db) k.linked
          (ingest-IsSound env payload request_id event_id db k.sound)
          (ingest-IsComplete env payload request_id event_id db k.complete)

  either : (b : Bool) (x y : Db F) → IsKept x → IsKept y → IsKept (if b then x else y)
  either true x y h k = h
  either false x y h k = k

  overflows-pushed :
      (payload : EquipmentEventIn F) (event_id : String) (db : Db F)
      → overflows payload (if payload.force_db_failure then db else accept_push payload event_id db)
        ≡ overflows payload db
  unfolding overflows accept_push get_equipment
  overflows-pushed payload event_id db = ground arith

  pub overflows-timed :
      (payload : EquipmentEventIn F) (db : Db F)
      → is_some (as_naive_utc payload.timestamp) ≡ true
      → overflows payload db ≡ false
  unfolding overflows
  overflows-timed payload db h = rw h refl

  -- a time that the server writes does not raise
  pub overflows-naive :
      (payload : EquipmentEventIn F) (db : Db F) (t : ℕ)
      → payload.timestamp ≡ Datetime.naive t
      → overflows payload db ≡ false
  unfolding overflows as_naive_utc
  overflows-naive payload db t h = rw h refl

  unless_raised :
      (b : Bool) (db : Db F) (r : Option (Db F))
      → IsKept db
      → (b ≡ false → KeptAfter r)
      → KeptAfter (if b then some db else r)
  unless_raised true db r k h = k
  unless_raised false db r k h = h refl

  pub push-IsKept :
      (env : Env F) (payload : EquipmentEventIn F) (request_id event_id : String) (db : Db F)
      → overflows payload db ≡ false
      → IsKept db
      → KeptAfter (state_of (collect_push env payload request_id event_id db))
  unfolding collect_push
  push-IsKept env payload request_id event_id db f k =
      ingest-IsKept env payload request_id event_id _ (overflows-pushed payload event_id db ∙ f) (
        either payload.force_db_failure db (accept_push payload event_id db) k
          (accept_push-IsKept payload event_id db k))

  pub act-KeptAfter : (a : Action F) (db : Db F) → IsKept db → KeptAfter (act a db)
  unfolding act
  act-KeptAfter (Action.event env payload request_id event_id) db k =
      unless_raised (overflows payload db) db _ k
        (λ f. ingest-IsKept env payload request_id event_id db f k)
  act-KeptAfter (Action.push env payload request_id event_id) db k =
      unless_raised (overflows payload db) db _ k
        (λ f. push-IsKept env payload request_id event_id db f k)
  act-KeptAfter (Action.command env command_id payload) db k =
      tidy-IsKept db _ (execute_command-Tidy env payload db command_id) k
  act-KeptAfter (Action.release_order env product_type recipe_id qty) db k =
      create_and_release-IsKept env product_type recipe_id qty db k
  act-KeptAfter (Action.detect_offline env) db k = mark_offline_equipment-IsKept env db k
  act-KeptAfter (Action.reset_demo float) db k =
      let (out, db', e, r) = reset_demo_data-IsReset float db in rw e r.kept

  -- From a database that keeps its promises, any sequence of events, pushes, host commands,
  -- orders, resets and rounds of the offline detector, in any order, with any clocks, runs through
  -- without an error but that of a timestamp which has no UTC, with which a request ends and
  -- leaves the database as it was, and the database at its end keeps them: every glass that did a
  -- step of its product's route did the step before it, no two process events have one
  -- fingerprint, a panel id stands in one lot, the glass of a COMPLETE lot is all COMPLETE or
  -- SCRAP, every glass is in a lot of the table, and every process event is of a glass of the
  -- table.
  pub act_all-IsKept :
      (actions : List (Action F)) (db : Db F)
      → IsKept db
      → (db' : Db F) × (act_all actions db ≡ some db') × IsKept db'
  unfolding act_all
  act_all-IsKept [] db k = (db, refl, k)
  act_all-IsKept (a ∷ rest) db k = elim (Option-cases (act a db)) [
    | inl n ↦ absurd (subst KeptAfter n (act-KeptAfter a db k))
    | inr (db1, n) ↦
        let (db', run, kept) = act_all-IsKept rest db1 (subst KeptAfter n (act-KeptAfter a db k)) in
        (db', rw (n, act_all) run, kept)
  ]
