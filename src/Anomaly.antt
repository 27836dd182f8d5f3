-- ===== src/Anomaly.antt =====
-- backend/app/services/anomaly.py: how far the last telemetry value is from the ones before it. The mean
-- and the deviation are those of Python's `statistics`; the sentences are left out, and a level is a
-- constructor.
pub mod Levels
use displayfab_smart_factory.Prelude.{
  ℕ, zero, suc, ◌+◌, ◌-◌, String, Option, none, some, Bool, true, false, ◌&&◌, ◌||◌, not, List, [],
  ◌∷◌, ◌++◌, map, length, select, option_to_list, leb, ltb, sort_by, ◌==◌, string_eq, nat_eq,
  if◌then◌else◌,
}
use displayfab_smart_factory.Models.{Equipment, Telemetry, Db}
use displayfab_smart_factory.Env.{FloatOps, Env, day_start}

-- `stdev` is `none` where it raises `StatisticsError`
pub record Statistics (F : Type 0) : Type 0 where
  pub mean : List F → F
  pub stdev : List F → Option F

pub data Level : Type 0 where
  alert watch normal too_few : Level

pub record Score (F : Type 0) : Type 0 where
  pub latest : F
  pub mean : F
  pub stdev : Option F
  pub sigma : Option F
  pub level : Level

pub record EquipmentAnomaly (F : Type 0) : Type 0 where
  pub equipment_id : String
  pub samples : ℕ
  pub temperature : Option (Score F)
  pub pressure : Option (Score F)
  pub level : Level

pub record LineAnomaly (F : Type 0) : Type 0 where
  pub flagged : List String
  pub equipment : List (EquipmentAnomaly F)

abbrev pub min_samples : ℕ
min_samples = 10

abbrev pub is_level : Level → Level → Bool
is_level Level.alert Level.alert = true
is_level Level.watch Level.watch = true
is_level Level.normal Level.normal = true
is_level Level.too_few Level.too_few = true
is_level _ _ = false

abbrev pub has_level : Level → Option Level → Option Level → Bool
has_level l none none = false
has_level l (some a) none = is_level a l
has_level l none (some b) = is_level b l
has_level l (some a) (some b) = is_level a l || is_level b l

-- the level of an equipment, from those of its two series
unfoldable pub worst : Option Level → Option Level → Level
worst a b =
    if has_level Level.alert a b
    then Level.alert
    else if has_level Level.watch a b
    then Level.watch
    else if has_level Level.normal a b
    then Level.normal
    else Level.too_few

module _ {F : Type 0} where
  -- `values[:-1]`, and the last value with the first one behind it
  unfoldable pub before_last : F → List F → List F
  before_last x [] = []
  before_last x (y ∷ rest) = x ∷ before_last y rest

  unfoldable pub last_value : F → List F → F
  last_value x [] = x
  last_value x (y ∷ rest) = last_value y rest

  -- `abs(sigma) >= limit`
  abbrev reaches : FloatOps F → F → F → Bool
  reaches float limit sigma =
      float.le limit
        (if float.lt sigma (float.literal 0 1) then float.sub (float.literal 0 1) sigma else sigma)

  abbrev pub level_of_sigma : FloatOps F → F → Level
  level_of_sigma float sigma =
      if reaches float (float.literal 30 1) sigma
      then Level.alert
      else if reaches float (float.literal 20 1) sigma
      then Level.watch
      else Level.normal

  abbrev spread_of : FloatOps F → Option F → F
  spread_of float none = float.literal 0 1
  spread_of float (some spread) = spread

  -- `_score` of the values, which are one at least
  unfoldable pub series_score : Statistics F → FloatOps F → F → List F → Score F
  series_score stats float x rest =
      let latest = last_value x rest in
      let spread = spread_of float (stats.stdev (before_last x rest)) in
      let center = stats.mean (before_last x rest) in
      let sigma =
        if float.le spread (float.literal 0 1)
        then float.literal 0 1
        else float.div (float.sub latest center) spread in
      if ltb (suc (length rest)) min_samples
      then record {
        latest = latest;
        mean = float.round (stats.mean (x ∷ rest)) 4;
        stdev = none;
        sigma = none;
        level = Level.too_few;
      }
      else record {
        latest = latest;
        mean = float.round center 4;
        stdev = some (float.round spread 4);
        sigma = some (float.round sigma 2);
        level = level_of_sigma float sigma;
      }

  abbrev pub score_of : Statistics F → FloatOps F → List F → Option (Score F)
  score_of stats float [] = none
  score_of stats float (x ∷ rest) = some (series_score stats float x rest)

  unfoldable pub given_values : List (Option F) → List F
  given_values [] = []
  given_values (v ∷ rest) = option_to_list v ++ given_values rest

  -- the telemetry of the day, in the order of its time
  unfoldable pub readings_of : Env F → String → Db F → List (Telemetry F)
  readings_of env equipment_id db =
      sort_by (λ a b. leb a.recorded_at b.recorded_at)
        (select (λ t. t.equipment_id == equipment_id && leb (day_start env.now) t.recorded_at)
          db.telemetry)

  abbrev pub level_of : Option (Score F) → Option Level
  level_of none = none
  level_of (some s) = some s.level

  unfoldable pub equipment_anomaly : Statistics F → Env F → String → Db F → EquipmentAnomaly F
  equipment_anomaly stats env equipment_id db =
      let rows = readings_of env equipment_id db in
      let temps = given_values (map (λ (t : Telemetry F). t.chamber_temperature) rows) in
      let pressures = given_values (map (λ (t : Telemetry F). t.vacuum_pressure) rows) in
      let temperature = score_of stats env.float temps in
      let pressure = score_of stats env.float pressures in
      record {
        equipment_id = equipment_id;
        samples = length rows;
        temperature = temperature;
        pressure = pressure;
        level = worst (level_of temperature) (level_of pressure);
      }

  abbrev pub is_flagged : EquipmentAnomaly F → Bool
  is_flagged row = is_level row.level Level.watch || is_level row.level Level.alert

  unfoldable pub line_anomaly :
      Statistics F → Env F → (String → String → Bool) → Db F → LineAnomaly F
  line_anomaly stats env text_le db =
      let rows =
        map (λ (eq : Equipment). equipment_anomaly stats env eq.id db)
          (sort_by (λ a b. text_le a.id b.id) db.equipment) in
      record {
        flagged =
            map (λ (r : EquipmentAnomaly F). r.equipment_id) (select (λ r. is_flagged r) rows);
        equipment = rows;
      }
