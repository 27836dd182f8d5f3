-- ===== src/RateLimit.antt =====
-- backend/app/services/ratelimit.py: the limit on writing requests. Times are whole microseconds of
-- a monotonic clock. `client_key`, which reads the caller's address, is left out.
pub mod Window
use displayfab_smart_factory.Prelude.{
  ℕ, ◌+◌, ◌-◌, ◌/◌, String, Bool, true, false, List, [], ◌∷◌, ◌++◌, length, ltb, leb, max, ◌==◌,
  string_eq, nat_eq, if◌then◌else◌,
}
use displayfab_smart_factory.Env.{seconds}

abbrev pub window : ℕ
window = seconds 60

-- the deque of each client
abbrev pub Hits : Type 0
Hits = String → List ℕ

-- `while hits and now - hits[0] > WINDOW_SEC: hits.popleft()`
unfoldable pub drop_old : ℕ → List ℕ → List ℕ
drop_old now [] = []
drop_old now (h ∷ rest) =
    let later = drop_old now rest in if ltb (h + window) now then later else h ∷ rest

unfoldable pub put : String → List ℕ → Hits → Hits
put key hits table k = if k == key then hits else table k

-- `allow`: the verdict, and the deques after it; no limit where `per_minute` is 0
unfoldable pub allow : ℕ → String → ℕ → Hits → Bool × Hits
allow per_minute key now table =
    let hits = drop_old now (table key) in
    if per_minute == 0
    then (true, table)
    else if leb per_minute (length hits)
    then (false, put key hits table)
    else (true, put key (hits ++ now ∷ []) table)

-- `retry_after`: `int(…) + 1` whole seconds until the oldest hit leaves the window, at least one.
-- The source's difference is negative only for a hit that has left it, where the answer is 1 too.
unfoldable pub retry_after : String → ℕ → Hits → ℕ
retry_after key now table = elim (table key) [
  | [] ↦ 1
  | h ∷ rest ↦ (h + window - now) / 1000000 + 1
]
