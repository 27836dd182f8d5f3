-- ===== src/Pilot.antt =====
-- backend/app/services/demo_pilot.py: the loop that keeps the public demo alive. A tick is one round of
-- the loop, behind its sleep; every job holds the write lock, so no job falls into another. A job that
-- raises is logged and the loop goes on with what the job had committed. Here the log is the list of
-- the errors of refused orders, and `none` marks any other error.
pub mod Schedule
pub mod Alive
use displayfab_smart_factory.Prelude.{
  ℕ, zero, suc, ◌+◌, ◌*◌, max, String, Option, none, some, Bool, true, false, List, [], ◌∷◌, ◌++◌,
  leb, get_or, get_elem?, ◌==◌, nat_eq, if◌then◌else◌,
}
use displayfab_smart_factory.Models.{Db}
use displayfab_smart_factory.Maintenance.{ResetOut, reset_demo_data}
use displayfab_smart_factory.WorkOrders.{WorkOrderError}
use displayfab_smart_factory.Demo.{Attempt, returned, raised, crashed}
use displayfab_smart_factory.Scenarios.{Show, ScenarioOut, run_scenario}

pub record PilotSettings : Type 0 where
  pub demo_heartbeat_sec : ℕ
  pub demo_run_interval_sec : ℕ
  pub demo_reset_minutes : ℕ

abbrev pub rotation : List String
rotation =
    "demo_oled_pass" ∷ "demo_lcd_pass" ∷ "demo_oled_pass" ∷ "demo_oled_fail" ∷ "demo_oled_pass"
    ∷ "demo_lcd_pass" ∷ "demo_recipe_mismatch" ∷ []

-- the counters of the loop, and how far `cycle(ROTATION)` is
pub record Pilot : Type 0 where
  pub since_run : ℕ
  pub since_reset : ℕ
  pub next : ℕ

-- what one tick does besides the heartbeat
pub record Jobs : Type 0 where
  pub resets : Bool
  pub scenario : Option String

module _ (s : PilotSettings) where
  abbrev pub beat_every : ℕ
  beat_every = max 2 s.demo_heartbeat_sec

  abbrev pub run_every : ℕ
  run_every = max beat_every s.demo_run_interval_sec

  abbrev pub reset_every : ℕ
  reset_every = max 60 (s.demo_reset_minutes * 60)

  -- the counters behind the sleep and the reset
  unfoldable pub after_sleep : Pilot → Bool × Pilot
  after_sleep p =
      if leb reset_every (p.since_reset + beat_every)
      then (true, record { since_run = 0; since_reset = 0; next = p.next })
      else (
        false,
        record {
          since_run = p.since_run + beat_every;
          since_reset = p.since_reset + beat_every;
          next = p.next;
        },
      )

  -- the scenario that is due, and the counters behind it
  unfoldable pub tick : Pilot → Jobs × Pilot
  unfolding after_sleep
  tick p =
      let (resets, q) = after_sleep p in
      if leb run_every q.since_run
      then (
        record { resets = resets; scenario = get_elem? rotation q.next },
        record {
          since_run = 0;
          since_reset = q.since_reset;
          next = if suc q.next == 7 then 0 else suc q.next;
        },
      )
      else (record { resets = resets; scenario = none }, q)

  unfoldable pub ticks : ℕ → Pilot → List Jobs
  ticks zero p = []
  ticks (suc n) p = let (jobs, q) = tick p in jobs ∷ ticks n q

abbrev pub started : Pilot
started = record { since_run = 0; since_reset = 0; next = 0 }

module _ {F : Type 0} where
  abbrev after_reset : Option (ResetOut × Db F) → Option (Db F)
  after_reset none = none
  after_reset (some (out, db)) = some db

  -- what the job adds to the log
  abbrev pub after_scenario : Attempt ScenarioOut F → Option (List WorkOrderError × Db F)
  after_scenario (returned out db) = some ([], db)
  after_scenario (raised e db) = some (e ∷ [], db)
  after_scenario crashed = none

  unfoldable pub maybe_reset : Bool → Show F → Db F → Option (Db F)
  maybe_reset true show db = after_reset (reset_demo_data show.stage.env.float db)
  maybe_reset false show db = some db

  unfoldable pub maybe_scenario :
      Option String → Show F → Db F → Option (List WorkOrderError × Db F)
  maybe_scenario none show db = some ([], db)
  maybe_scenario (some id) show db = after_scenario (run_scenario show id db)

  -- the jobs of a tick in their order: the reset, the heartbeat, the scenario
  unfoldable pub do_jobs : Jobs → Show F → Show F → Db F → Option (List WorkOrderError × Db F)
  do_jobs jobs beat show db = elim (maybe_reset jobs.resets show db) [
    | none ↦ none
    | some db1 ↦ elim (maybe_scenario (some "heartbeat") beat db1) [
      | none ↦ none
      | some (errors, db2) ↦ elim (maybe_scenario jobs.scenario show db2) [
        | none ↦ none
        | some (more, db3) ↦ some (errors ++ more, db3)
      ]
    ]
  ]

  -- the first `n` ticks, with what the i-th one takes from outside: the log and the database
  unfoldable pub autopilot :
      PilotSettings
      → (ℕ → Show F)
      → (ℕ → Show F)
      → ℕ
      → ℕ
      → Pilot
      → Db F
      → Option (List WorkOrderError × Db F)
  autopilot s beats shows zero i p db = some ([], db)
  autopilot s beats shows (suc n) i p db =
      let (jobs, q) = tick s p in
      elim (do_jobs jobs (beats i) (shows i) db) [
        | none ↦ none
        | some (errors, db') ↦ elim (autopilot s beats shows n (suc i) q db') [
          | none ↦ none
          | some (more, db'') ↦ some (errors ++ more, db'')
        ]
      ]
