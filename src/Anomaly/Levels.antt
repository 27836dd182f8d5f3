-- ===== src/Anomaly/Levels.antt =====
-- No equipment is flagged on too few samples.
use displayfab_smart_factory.Prelude.{
  ◌≤◌, String, Option, none, some, true, false, ◌||◌, List, [], ◌∷◌, ◌≡◌, ◌⊎◌, inl, inr, refl,
  arith, map, length,
}
use displayfab_smart_factory.Models.{Telemetry, Db}
use displayfab_smart_factory.Env.{FloatOps, Env}
use displayfab_smart_factory.Anomaly.{
  Statistics, Level, is_level, min_samples, worst, series_score, score_of, given_values,
  readings_of, level_of, equipment_anomaly, is_flagged,
}

length-given_values :
    {A F : Type 0} (f : A → Option F) (xs : List A) → length (given_values (map f xs)) ≤ length xs
unfolding given_values
length-given_values f [] = omega arith
length-given_values f (x ∷ xs) = ground (arith, length-given_values f xs)

-- a level that flags is that of a series
worst-flagged :
    (a b : Option Level)
    → (is_level (worst a b) Level.watch || is_level (worst a b) Level.alert) ≡ true
    → (l : Level) × (is_level l Level.too_few ≡ false) × ((a ≡ some l) ⊎ (b ≡ some l))
unfolding worst
worst-flagged none none h = absurd (cc)
worst-flagged (some Level.alert) b h = (Level.alert, refl, inl refl)
worst-flagged (some Level.watch) b h = (Level.watch, refl, inl refl)
worst-flagged (some Level.normal) b h = (Level.normal, refl, inl refl)
worst-flagged (some Level.too_few) (some Level.alert) h = (Level.alert, refl, inr refl)
worst-flagged (some Level.too_few) (some Level.watch) h = (Level.watch, refl, inr refl)
worst-flagged (some Level.too_few) (some Level.normal) h = (Level.normal, refl, inr refl)
worst-flagged (some Level.too_few) (some Level.too_few) h = absurd (cc)
worst-flagged (some Level.too_few) none h = absurd (cc)
worst-flagged none (some Level.alert) h = (Level.alert, refl, inr refl)
worst-flagged none (some Level.watch) h = (Level.watch, refl, inr refl)
worst-flagged none (some Level.normal) h = (Level.normal, refl, inr refl)
worst-flagged none (some Level.too_few) h = absurd (cc)

module _ {F : Type 0} (stats : Statistics F) where
  -- a series with a level that counts is long enough
  long_enough :
      (float : FloatOps F) (values : List F) (l : Level)
      → level_of (score_of stats float values) ≡ some l
      → is_level l Level.too_few ≡ false
      → min_samples ≤ length values
  unfolding series_score
  long_enough float [] l h n = absurd (cc)
  long_enough float (x ∷ rest) l h n = ground arith

  -- An equipment that the line report flags has reported ten times or more on the day.
  pub equipment_anomaly-flagged :
      (env : Env F) (equipment_id : String) (db : Db F)
      → is_flagged (equipment_anomaly stats env equipment_id db) ≡ true
      → min_samples ≤ (equipment_anomaly stats env equipment_id db).samples
  unfolding equipment_anomaly
  equipment_anomaly-flagged env equipment_id db h =
      let rows = readings_of env equipment_id db in
      let temps = given_values (map (λ (t : Telemetry F). t.chamber_temperature) rows) in
      let pressures = given_values (map (λ (t : Telemetry F). t.vacuum_pressure) rows) in
      let (l, counts, which) =
        worst-flagged (level_of (score_of stats env.float temps))
          (level_of (score_of stats env.float pressures)) h in
      elim which [
        | inl t ↦
            let n = long_enough env.float temps l t counts in
            let m = length-given_values (λ (t : Telemetry F). t.chamber_temperature) rows in
            omega (arith, n, m)
        | inr t ↦
            let n = long_enough env.float pressures l t counts in
            let m = length-given_values (λ (t : Telemetry F). t.vacuum_pressure) rows in
            omega (arith, n, m)
      ]
