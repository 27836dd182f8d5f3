-- ===== src/Pilot/Alive.antt =====
-- The autopilot does not stop at a refused order, and keeps what the line promises.
use displayfab_smart_factory.Prelude.{
  ℕ, zero, suc, String, Option, none, some, Bool, true, false, List, [], ◌∷◌, ◌++◌, ◌≡◌, refl,
}
use displayfab_smart_factory.Models.{Db}
use displayfab_smart_factory.Env.{Env}
use displayfab_smart_factory.WorkOrders.{WorkOrderError}
use displayfab_smart_factory.Demo.{Attempt, returned, raised, crashed}
use displayfab_smart_factory.Line.Kept.{IsKept}
use displayfab_smart_factory.Maintenance.Reset.{reset_demo_data-IsReset}
use displayfab_smart_factory.Scenarios.{Show, ScenarioOut}
use displayfab_smart_factory.Scenarios.Runs.{Ended, run_scenario-IsKept}
use displayfab_smart_factory.Pilot.{
  PilotSettings, Pilot, Jobs, tick, after_scenario, maybe_reset, maybe_scenario, do_jobs, autopilot,
}

module _ {F : Type 0} where
  maybe_reset-IsKept :
      (b : Bool) (show : Show F) (db : Db F)
      → IsKept db
      → (db' : Db F) × (maybe_reset b show db ≡ some db') × IsKept db'
  unfolding maybe_reset
  maybe_reset-IsKept false show db k = (db, refl, k)
  maybe_reset-IsKept true show db k =
      let (out, db', e, r) = reset_demo_data-IsReset show.stage.env.float db in
      (db', rw e refl, r.kept)

  after_scenario-IsKept :
      (env : Env F) (r : Attempt ScenarioOut F)
      → Ended env r
      → (log : List WorkOrderError) × (db' : Db F) × (after_scenario r ≡ some (log, db'))
        × IsKept db'
  after_scenario-IsKept env (returned out db) k = ([], db, refl, k)
  after_scenario-IsKept env (raised e db) (k, why) = (e ∷ [], db, refl, k)
  after_scenario-IsKept env crashed k = absurd k

  maybe_scenario-IsKept :
      (id : Option String) (show : Show F) (db : Db F)
      → IsKept db
      → (log : List WorkOrderError) × (db' : Db F) × (maybe_scenario id show db ≡ some (log, db'))
        × IsKept db'
  unfolding maybe_scenario
  maybe_scenario-IsKept none show db k = ([], db, refl, k)
  maybe_scenario-IsKept (some id) show db k =
      after_scenario-IsKept show.stage.release_env _ (run_scenario-IsKept show id db k)

  do_jobs-IsKept :
      (jobs : Jobs) (beat show : Show F) (db : Db F)
      → IsKept db
      → (log : List WorkOrderError) × (db' : Db F) × (do_jobs jobs beat show db ≡ some (log, db'))
        × IsKept db'
  unfolding do_jobs
  do_jobs-IsKept jobs beat show db k =
      let (db1, e1, k1) = maybe_reset-IsKept jobs.resets show db k in
      let (log, db2, e2, k2) = maybe_scenario-IsKept (some "heartbeat") beat db1 k1 in
      let (more, db3, e3, k3) = maybe_scenario-IsKept jobs.scenario show db2 k2 in
      (log ++ more, db3, rw (e1, do_jobs) (rw (e2, do_jobs) (rw (e3, do_jobs) refl)), k3)

  -- From a database that keeps the promises of the line, any number of ticks of the autopilot, with any
  -- settings and from any state of its counters, runs through, and the database at their end keeps
  -- them: a job fails at most with the `WorkOrderError` of an order that is refused, which is logged
  -- and stops neither the other jobs nor the loop.
  pub autopilot-IsKept :
      (s : PilotSettings) (beats shows : ℕ → Show F) (n i : ℕ) (p : Pilot) (db : Db F)
      → IsKept db
      → (log : List WorkOrderError) × (db' : Db F) × (autopilot s beats shows n i p db
          ≡ some (log, db'))
        × IsKept db'
  unfolding autopilot
  autopilot-IsKept s beats shows zero i p db k = ([], db, refl, k)
  autopilot-IsKept s beats shows (suc n) i p db k =
      let (log, db1, e, k1) = do_jobs-IsKept (tick s p).0 (beats i) (shows i) db k in
      let (more, db', run, k') = autopilot-IsKept s beats shows n (suc i) (tick s p).1 db1 k1 in
      (log ++ more, db', rw (e, autopilot) (rw (run, autopilot) refl), k')
