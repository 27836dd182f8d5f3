-- ===== src/Dispatch/Choice.antt =====
-- The choice of an equipment for a step.
use displayfab_smart_factory.Prelude.{
  ◌≤◌, String, Option, some, true, List, [], ◌∷◌, ◌≡◌, inl, inr, arith, contains, leb, Bool-cases,
  Option-cases, string_eq,
}
use displayfab_smart_factory.Rules.{equipment_ids_for_step}
use displayfab_smart_factory.Models.{Equipment, Db}
use displayfab_smart_factory.Models.Tables.{get_equipment, id-get_equipment}
use displayfab_smart_factory.Dispatch.{score, least, known_rows, pick_equipment}

least-cons :
    (e o : Equipment) (rows : List Equipment)
    → least rows ≡ some o
    → (eq : Equipment) × (least (e ∷ rows) ≡ some eq) × (score eq ≤ score e) × (score eq ≤ score o)
unfolding least
least-cons e o rows h = elim (Bool-cases (leb (score e) (score o))) [
  | inl t ↦ (e, ground arith, ground arith, ground arith)
  | inr f ↦ (o, ground arith, ground arith, ground arith)
]

least-some :
    (e : Equipment) (rows : List Equipment)
    → (eq : Equipment) × (least (e ∷ rows) ≡ some eq) × (score eq ≤ score e)
unfolding least
least-some e rows = elim (Option-cases (least rows)) [
  | inl n ↦ (e, ground arith, omega arith)
  | inr (o, n) ↦ (let (eq, h, a, b) = least-cons e o rows n in (eq, h, a))
]

module _ {F : Type 0} (db : Db F) where
  -- the row that is chosen is a known one of the list
  pub least-known :
      (ids : List String) (eq : Equipment)
      → least (known_rows ids db) ≡ some eq
      → (get_equipment eq.id db ≡ some eq) × (contains ids eq.id ≡ true)
  unfolding least known_rows contains
  least-known [] eq h = absurd (cc)
  least-known (id ∷ ids) eq h = elim (Option-cases (get_equipment id db)) [
    | inl n ↦ ground (arith, least-known ids eq)
    | inr (e, n) ↦
        let named = id-get_equipment id db e n in
        elim (Option-cases (least (known_rows ids db))) [
          | inl m ↦ ground arith
          | inr (o, m) ↦ (let other = least-known ids o m in ground arith)
        ]
  ]

  -- a known row of the list is no better than the one that is chosen
  least-score :
      (ids : List String) (other_id : String) (other : Equipment)
      → contains ids other_id ≡ true
      → get_equipment other_id db ≡ some other
      → (eq : Equipment) × (least (known_rows ids db) ≡ some eq) × (score eq ≤ score other)
  unfolding least known_rows contains
  least-score [] other_id other c g = absurd (cc)
  least-score (id ∷ ids) other_id other c g = elim (Option-cases (get_equipment id db)) [
    | inl n ↦ rw (n, known_rows) (least-score ids other_id other (ground arith) g)
    | inr (e, n) ↦
        rw (n, known_rows)
          (elim (Bool-cases (contains ids other_id)) [
            | inl t ↦
                let (o, m, best) = least-score ids other_id other t g in
                let (eq, h, first, next) = least-cons e o (known_rows ids db) m in
                (eq, h, omega arith)
            | inr f ↦
                let (eq, h, first) = least-some e (known_rows ids db) in
                let same : e ≡ other = ground arith in (eq, h, rw (← same) first)
          ])
  ]

  -- Where an equipment that the tables list for the step is in the database, the dispatch picks an
  -- equipment that is listed for the step and in the database, and whose score is no higher.
  pub pick_equipment-score :
      (step : Option String) (other_id : String) (other : Equipment)
      → contains (equipment_ids_for_step step) other_id ≡ true
      → get_equipment other_id db ≡ some other
      → (eq : Equipment) × (pick_equipment step db ≡ some eq.id)
        × (get_equipment eq.id db ≡ some eq)
        × (contains (equipment_ids_for_step step) eq.id ≡ true)
        × (score eq ≤ score other)
  unfolding pick_equipment
  pick_equipment-score step other_id other c g =
      let (eq, h, best) = least-score (equipment_ids_for_step step) other_id other c g in
      let (known, listed) = least-known (equipment_ids_for_step step) eq h in
      (eq, ground arith, known, listed, best)
