-- ===== src/Env.antt =====
-- What a request handler finds around it: the clock, the settings of backend/app/config.py, and the
-- operations of Python and its libraries that the code calls.
use displayfab_smart_factory.Prelude.{ℕ, ◌-◌, ◌*◌, ◌%◌, String, Bool}

pub record Settings (F : Type 0) : Type 0 where
  pub communication_timeout_sec : ℕ
  pub stale_event_threshold_sec : ℕ
  pub future_event_tolerance_sec : ℕ
  pub sensor_critical_deviation_ratio : F
  pub oee_planned_minutes : ℕ

-- Arithmetic on floats and their comparisons, `<` and `<=`, of which neither holds of a NaN. `literal digits decimals` is the float that the source writes with these
-- digits, the last `decimals` of them behind the point, and `round` is that of Python.
pub record FloatOps (F : Type 0) : Type 0 where
  pub add : F → F → F
  pub sub : F → F → F
  pub mul : F → F → F
  pub div : F → F → F
  pub lt : F → F → Bool
  pub le : F → F → Bool
  pub literal : ℕ → ℕ → F
  pub round : F → ℕ → F

-- `now` is what `utcnow()` answers during one call of a handler, `lower` and `upper` are those of
-- `str`, `strftime_day` is `strftime("%Y%m%d")`, `isoformat` is that of `datetime` with milliseconds,
-- and `sha256_hex` is `hashlib.sha256(…).hexdigest()`.
pub record Env (F : Type 0) : Type 0 where
  pub now : ℕ
  pub settings : Settings F
  pub float : FloatOps F
  pub lower : String → String
  pub upper : String → String
  pub strftime_day : ℕ → String
  pub isoformat : ℕ → String
  pub sha256_hex : String → String

abbrev pub seconds : ℕ → ℕ
seconds n = n * 1000000

-- `replace(hour=0, minute=0, second=0, microsecond=0)`: dates count from a midnight
unfoldable pub day_start : ℕ → ℕ
day_start now = now - now % 86400000000
