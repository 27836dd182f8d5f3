-- ===== src/RateLimit/Window.antt =====
-- The limit is one on a sliding window.
use displayfab_smart_factory.Prelude.{
  ℕ, ◌+◌, ◌≤◌, String, Bool, List, [], ◌∷◌, ◌++◌, ◌≡◌, ◌≢◌, refl, sym, ap, arith, length, select,
  append-empty, ltb, ◌==◌, string_eq, nat_eq, not, if◌then◌else◌, Bool-cases, inl, inr,
  ltb-false→le,
}
use displayfab_smart_factory.RateLimit.{window, Hits, drop_old, put, allow}

abbrev pub AllFrom : ℕ → List ℕ → Type 0
AllFrom a [] = Unit
AllFrom a (h ∷ rest) = (a ≤ h) × AllFrom a rest

-- the hits stand in the order of their times, as a monotonic clock appends them
abbrev pub IsOrdered : List ℕ → Type 0
IsOrdered [] = Unit
IsOrdered (h ∷ rest) = AllFrom h rest × IsOrdered rest

abbrev pub is_recent : ℕ → ℕ → Bool
is_recent now h = not (ltb (h + window) now)

all_recent :
    (now a : ℕ) (hits : List ℕ)
    → now ≤ a + window
    → AllFrom a hits
    → select (is_recent now) hits ≡ hits
unfolding select
all_recent now a [] h f = refl
all_recent now a (x ∷ hits) h f = ground (arith, f.0, all_recent now a hits h f.1)

-- the loop leaves the hits of the window
drop_old-select :
    (now : ℕ) (hits : List ℕ) → IsOrdered hits → drop_old now hits ≡ select (is_recent now) hits
unfolding drop_old select
drop_old-select now [] o = refl
drop_old-select now (h ∷ hits) o = elim (Bool-cases (ltb (h + window) now)) [
  | inl old ↦ rw old (drop_old-select now hits o.1)
  | inr new ↦
      let same = all_recent now h hits (ltb-false→le (h + window) now new) o.0 in
      rw new (ap (λ later. h ∷ later) (sym same))
]

-- Where a client's hits are in order and there is a limit, a request is allowed exactly when fewer
-- than `per_minute` of them are in the last minute. Then the client's hits are those of the last
-- minute, with the time of the request behind them where it was allowed, and the hits of any other
-- client are as before.
pub allow-window :
    (per_minute : ℕ) (key other : String) (now : ℕ) (table : Hits)
    → per_minute ≢ 0
    → IsOrdered (table key)
    → ((allow per_minute key now table).0
        ≡ ltb (length (select (is_recent now) (table key))) per_minute)
      × ((allow per_minute key now table).1 other ≡ (
          if other == key
          then select (is_recent now) (table key)
            ++ (if (allow per_minute key now table).0 then now ∷ [] else [])
          else table other))
unfolding allow put
allow-window per_minute key other now table n o =
    let same = drop_old-select now (table key) o in
    let kept = append-empty (select (is_recent now) (table key)) in
    rw same (ground arith, ground (arith, kept))
