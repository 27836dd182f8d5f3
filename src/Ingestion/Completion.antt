-- ===== src/Ingestion/Completion.antt =====
-- A lot ends when its glass has: ingestion marks no lot COMPLETE whose glass is not finished.
use displayfab_smart_factory.Prelude.{
  List, [], ◌∷◌, String, Option, none, some, Bool, true, false, ◌&&◌, not, List, ◌≡◌, ◌≢◌, inl, inr,
  refl, ap, ◌∙◌, arith, any_of, any_of-update_where, count_where, count_where-update_where, ◌==◌,
  ◌/=◌, string_eq, nat_eq, find_first, find_first_sound, find_first-update_where, String-discrete,
  Option-cases,
}
use displayfab_smart_factory.Enums.{LotStatus}
use displayfab_smart_factory.Models.{Lot, Panel, Db}
use displayfab_smart_factory.Models.Tables.{get_lot, get_panel, set_lot, set_panel}
use displayfab_smart_factory.Schemas.{EquipmentEventIn}
use displayfab_smart_factory.Env.{Env}
use displayfab_smart_factory.WorkOrders.{is_finished}
use displayfab_smart_factory.Ingestion.Steps.{Outcome}
use displayfab_smart_factory.Ingestion.Settle.{settled_lot, lot_all_panels_complete}
use displayfab_smart_factory.Ingestion.{overflows, ingest_event}
use displayfab_smart_factory.Ingestion.Growth.{
  Unchanged, Stored, Effect, with_status, ingest-Effect,
}

abbrev pub strays : String → String → List Panel → Bool
strays panel_id lot_id panels = any_of (λ q. q.id == panel_id && q.lot_id /= lot_id) panels

-- a glass of the lot that is neither COMPLETE nor SCRAP
abbrev pub has_unfinished : String → List Panel → Bool
has_unfinished lot_id panels = any_of (λ p. p.lot_id == lot_id && not (is_finished p)) panels

count_where-any_of :
    {A : Type 0} (p : A → Bool) (xs : List A) → count_where p xs ≡ 0 → any_of p xs ≡ false
unfolding count_where any_of
count_where-any_of p [] h = refl
count_where-any_of p (x ∷ xs) h = ground (arith, count_where-any_of p xs)

any_of-count_where :
    {A : Type 0} (p : A → Bool) (xs : List A) → any_of p xs ≡ false → count_where p xs ≡ 0
unfolding count_where any_of
any_of-count_where p [] h = refl
any_of-count_where p (x ∷ xs) h = ground (arith, any_of-count_where p xs)

module _ {F : Type 0} where
  pub record IsComplete (db : Db F) : Type 0 where
    -- the primary key: rows with one id are in one lot
    pub keyed :
        (panel_id : String) (panel : Panel)
        → get_panel panel_id db ≡ some panel
        → strays panel_id panel.lot_id db.panels ≡ false
    pub finished :
        (lot_id : String) (lot : Lot)
        → get_lot lot_id db ≡ some lot
        → lot.status ≡ LotStatus.complete
        → has_unfinished lot_id db.panels ≡ false

  pub finished_of_all :
      (lot_id : String) (db : Db F)
      → lot_all_panels_complete lot_id db ≡ true
      → has_unfinished lot_id db.panels ≡ false
  unfolding lot_all_panels_complete
  finished_of_all lot_id db h =
      count_where-any_of (λ p. p.lot_id == lot_id && not (is_finished p)) db.panels (ground arith)

  pub all_of_finished :
      (lot_id : String) (db : Db F)
      → has_unfinished lot_id db.panels ≡ false
      → lot_all_panels_complete lot_id db ≡ true
  unfolding lot_all_panels_complete
  all_of_finished lot_id db h =
      let none_left =
        any_of-count_where (λ p. p.lot_id == lot_id && not (is_finished p)) db.panels h in
      ground arith

  pub Unchanged-IsComplete : (db db' : Db F) → Unchanged db db' → IsComplete db → IsComplete db'
  unfolding get_panel get_lot lot_all_panels_complete
  Unchanged-IsComplete db db' u s = record {
    keyed = λ i p. rw u.panels (s.keyed i p);
    finished = λ i l. rw (u.panels, u.lots) (s.finished i l);
  }

  module _ (env : Env F) (payload : EquipmentEventIn F) (db db' : Db F)
      (w : Stored env payload db db') (s : IsComplete db) where
    stored-keyed :
        (panel_id : String) (panel : Panel)
        → get_panel panel_id db' ≡ some panel
        → strays panel_id panel.lot_id db'.panels ≡ false
    unfolding get_panel set_panel
    stored-keyed panel_id panel h =
        let was =
          find_first-update_where (λ (p : Panel). p.id == panel_id)
            (λ p. p.id == w.admitted.panel.id) (with_status w.settled.panel_status) db.panels
            (λ p. refl) in
        let now = ap (find_first (λ (p : Panel). p.id == panel_id)) w.panels in
        elim (Option-cases (get_panel panel_id db)) [
          | inl n ↦ absurd (ground arith)
          | inr (p, n) ↦
              let same : panel.lot_id ≡ p.lot_id = ground arith in
              rw w.panels (
                any_of-update_where (λ (q : Panel). q.id == panel_id && q.lot_id /= panel.lot_id)
                  (λ p. p.id == w.admitted.panel.id) (with_status w.settled.panel_status) db.panels
                  (λ q. refl)
                ∙ rw same (s.keyed panel_id p n))
        ]

    no_strays : strays w.admitted.panel.id w.admitted.lot.id db.panels ≡ false
    unfolding get_panel
    no_strays =
        let a = w.admitted in
        let same =
          find_first_sound (λ (row : Panel). row.id == a.fields.panel_id) db.panels a.panel
            a.panel_known in
        let e : a.panel.id ≡ a.fields.panel_id = ground arith in
        rw (e, ← a.panel_in_lot) (s.keyed a.fields.panel_id a.panel a.panel_known)

    -- the glass of another lot stands as it was
    other_lot :
        (lot_id : String)
        → lot_id ≢ w.admitted.lot.id
        → lot_all_panels_complete lot_id db' ≡ lot_all_panels_complete lot_id db
    unfolding lot_all_panels_complete set_panel
    other_lot lot_id n =
        ap (λ k. k == 0)
          (ap (count_where (λ p. p.lot_id == lot_id && not (is_finished p))) w.panels
            ∙ count_where-update_where (λ (p : Panel). p.lot_id == lot_id && not (is_finished p))
                (λ p. p.id == w.admitted.panel.id) (with_status w.settled.panel_status)
                (λ p. p.lot_id /= w.admitted.lot.id) db.panels (λ p h. ground arith)
                (λ p h. ground arith) no_strays)

    stored-finished :
        (lot_id : String) (lot : Lot)
        → get_lot lot_id db' ≡ some lot
        → lot.status ≡ LotStatus.complete
        → has_unfinished lot_id db'.panels ≡ false
    unfolding get_lot set_lot
    stored-finished lot_id lot h c =
        let was =
          find_first-update_where (λ (l : Lot). l.id == lot_id) (λ l. l.id == w.admitted.lot.id)
            (settled_lot w.target w.settled) db.lots (λ l. refl) in
        let now = ap (find_first (λ (l : Lot). l.id == lot_id)) w.lots in
        elim (Option-cases (get_lot lot_id db)) [
          | inl n ↦ absurd (ground arith)
          | inr (l, n) ↦
              let named : l.id ≡ lot_id =
                (let t = find_first_sound (λ (row : Lot). row.id == lot_id) db.lots l n in
                  ground arith) in
              elim (String-discrete lot_id w.admitted.lot.id) [
                | yes e ↦ rw e (finished_of_all w.admitted.lot.id db' (w.ended (ground arith)))
                | no d ↦
                    let same : lot ≡ l = ground arith in
                    finished_of_all lot_id db' (
                      other_lot lot_id d
                      ∙ all_of_finished lot_id db (s.finished lot_id l n (ground arith)))
              ]
        ]

    stored-IsComplete : IsComplete db'
    stored-IsComplete = record { keyed = stored-keyed; finished = stored-finished }

  module _ (env : Env F) (payload : EquipmentEventIn F) (request_id event_id : String)
      (db : Db F) where
    abbrev pub CompleteAfter : Option (Outcome × Db F) → Type 0
    CompleteAfter none = overflows payload db ≡ true
    CompleteAfter (some (o, db')) = IsComplete db'

    Effect-CompleteAfter :
        (r : Option (Outcome × Db F)) → Effect env payload db r → IsComplete db → CompleteAfter r
    Effect-CompleteAfter none e s = e
    Effect-CompleteAfter (some (o, db')) (inl u) s = Unchanged-IsComplete db db' u s
    Effect-CompleteAfter (some (o, db')) (inr w) s = stored-IsComplete env payload db db' w s

    -- Where each panel id stands in one lot, and the glass of every COMPLETE lot is all COMPLETE or
    -- SCRAP, so it is after any event, which is answered unless it is one of a known equipment whose
    -- timestamp has no UTC.
    pub ingest-IsComplete :
        IsComplete db → CompleteAfter (ingest_event env payload request_id event_id db)
    ingest-IsComplete = Effect-CompleteAfter _ (ingest-Effect env payload request_id event_id db)
