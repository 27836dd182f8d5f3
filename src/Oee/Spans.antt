-- ===== src/Oee/Spans.antt =====
-- What the spans of the downtime rows add up to.
use displayfab_smart_factory.Prelude.{
  ℕ, ◌+◌, ◌-◌, ◌*◌, ◌≤◌, String, none, some, Bool, true, List, [], ◌∷◌, ◌≡◌, refl, inl, inr, arith,
  length, select, lookup, get_or, all_of, leb, is_some, not, ◌&&◌, ◌==◌, string_eq, nat_eq,
  if◌then◌else◌, Bool-cases,
}
use displayfab_smart_factory.Models.{EquipmentDowntime, Db}
use displayfab_smart_factory.Env.{Env}
use displayfab_smart_factory.Oee.{
  add_total, span_of, counts_row, total_spans, planned_window, downtime_seconds, downtime_of,
}

lookup-add_total :
    (id k : String) (span : ℕ) (totals : List (String × ℕ))
    → get_or (lookup k (add_total id span totals)) 0
      ≡ (if id == k then get_or (lookup k totals) 0 + span else get_or (lookup k totals) 0)
unfolding lookup add_total
lookup-add_total id k span [] = ground arith
lookup-add_total id k span ((j, n) ∷ rest) = ground (arith, lookup-add_total id k span rest)

-- the spans of the rows, one by one
unfoldable pub spans : ℕ → ℕ → List EquipmentDowntime → ℕ
spans start now [] = 0
spans start now (row ∷ rest) = span_of start now row + spans start now rest

-- the rows of the one equipment add up to its total
total_spans-spans :
    (start now : ℕ) (id : String) (totals : List (String × ℕ)) (rows : List EquipmentDowntime)
    → all_of (λ row. row.equipment_id == id) rows ≡ true
    → get_or (lookup id (total_spans start now totals rows)) 0
      ≡ get_or (lookup id totals) 0 + spans start now rows
unfolding total_spans spans all_of
total_spans-spans start now id totals [] h = omega arith
total_spans-spans start now id totals (row ∷ rest) h =
    elim (Bool-cases (span_of start now row == 0)) [
      | inl t ↦ rw t (ground (arith, total_spans-spans start now id totals rest))
      | inr f ↦ rw f (
          ground (
            arith,
            total_spans-spans start now id
                (add_total row.equipment_id (span_of start now row) totals) rest,
            lookup-add_total row.equipment_id id (span_of start now row) totals,
          ))
    ]

select-all_of :
    {A : Type 0} (p q : A → Bool) (xs : List A)
    → ((x : A) → p x ≡ true → q x ≡ true)
    → all_of q (select p xs) ≡ true
unfolding select all_of
select-all_of p q [] h = refl
select-all_of p q (x ∷ xs) h = ground (arith, h x, select-all_of p q xs h)

-- no row is longer than the window, where none ends behind `now`
abbrev pub is_past : ℕ → EquipmentDowntime → Bool
is_past now row = leb (get_or row.ended_at now) now

-- the row is open, and began before the window
abbrev pub is_open_since : ℕ → EquipmentDowntime → Bool
is_open_since start row = not (is_some row.ended_at) && leb row.started_at start

spans-length :
    (start now : ℕ) (rows : List EquipmentDowntime)
    → all_of (is_past now) rows ≡ true
    → spans start now rows ≤ length rows * (now - start)
unfolding spans all_of
spans-length start now [] h = omega arith
spans-length start now (row ∷ rest) h =
    let past : get_or row.ended_at now ≤ now = ground arith in
    let later = spans-length start now rest (ground arith) in omega (arith, past, later)

spans-open :
    (start now : ℕ) (rows : List EquipmentDowntime)
    → all_of (is_open_since start) rows ≡ true
    → spans start now rows ≡ length rows * (now - start)
unfolding spans all_of
spans-open start now [] h = omega arith
spans-open start now (row ∷ rest) h =
    let still : row.ended_at ≡ none = ground arith in
    let began : row.started_at ≤ start = ground arith in
    let later = spans-open start now rest (ground arith) in rw still (omega (arith, began, later))

module _ {F : Type 0} (env : Env F) (equipment_id : String) (db : Db F) (start : ℕ)
    (opened : (planned_window env db).start ≡ some start) where
  -- the rows of the equipment that reach into the planned time
  rows_in : List EquipmentDowntime
  rows_in = select (counts_row start equipment_id) db.downtime

  downtime_of-spans : downtime_of env equipment_id db ≡ spans start env.now rows_in
  unfolding downtime_of downtime_seconds rows_in lookup
  downtime_of-spans =
      rw (opened, downtime_seconds)
        (let e = total_spans-spans start env.now equipment_id [] rows_in (
            select-all_of (counts_row start equipment_id) (λ row. row.equipment_id == equipment_id)
              db.downtime (λ row t. ground arith)) in
          omega (arith, e))

  -- Where the line is open and no row of the equipment that reaches into the window ends in the future,
  -- its downtime is at most the time since the start of the window, once for each such row.
  pub downtime_of-length :
      all_of (is_past env.now) (select (counts_row start equipment_id) db.downtime) ≡ true
      → downtime_of env equipment_id db
        ≤ length (select (counts_row start equipment_id) db.downtime) * (env.now - start)
  unfolding rows_in
  downtime_of-length past = rw downtime_of-spans (spans-length start env.now rows_in past)

  -- Where the line is open, and all rows of an equipment that reach into the window are open since
  -- before its start, its downtime is the time since that start as many times as there are rows:
  -- two reasons that stand at once count the same time twice.
  pub downtime_of-open :
      all_of (is_open_since start) (select (counts_row start equipment_id) db.downtime) ≡ true
      → downtime_of env equipment_id db
        ≡ length (select (counts_row start equipment_id) db.downtime) * (env.now - start)
  unfolding rows_in
  downtime_of-open still = rw downtime_of-spans (spans-open start env.now rows_in still)
