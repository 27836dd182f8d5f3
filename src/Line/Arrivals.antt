-- ===== src/Line/Arrivals.antt =====
-- A released order keeps what the line promises: its lot and its glass are new.
use displayfab_smart_factory.Prelude.{
  ℕ, String, Option, some, Bool, true, false, ◌&&◌, not, List, [], ◌∷◌, ◌++◌, map, ◌≡◌, refl, sym,
  ap, ◌∙◌, arith, is_some, find_first, all_of, contains, all_of-append, all_of-weaken,
  all_of-find_first, any_of-append, any_of-all_of, any_of-all_of-not, any_of-none,
  any_of-find_first, find_first-append, contains-map, or_else, ◌==◌, ◌/=◌, string_eq, Option-cases,
  inl, inr,
}
use displayfab_smart_factory.Enums.{LotStatus, panel_status_eq}
use displayfab_smart_factory.Models.{Lot, Panel, ProcessEvent, WorkOrder, Db}
use displayfab_smart_factory.Models.Tables.{get_lot, get_panel}
use displayfab_smart_factory.Env.{Env}
use displayfab_smart_factory.WorkOrders.{is_finished, Created, created, refused, create_and_release}
use displayfab_smart_factory.WorkOrders.Release.{AllNew, IfCreated, answer-Released}
use displayfab_smart_factory.Ingestion.History.{is_step, has_done, product_of}
use displayfab_smart_factory.Ingestion.Traceability.{IsSound}
use displayfab_smart_factory.Ingestion.Completion.{strays, has_unfinished}
use displayfab_smart_factory.Line.{ordered}
use displayfab_smart_factory.Line.Links.{IsLinked, has_lot, has_panel}
use displayfab_smart_factory.Line.Kept.{IsKept}

abbrev is_fresh : List String → String → Panel → Bool
is_fresh old lot_id p = p.lot_id == lot_id && not (contains old p.id)

all_of-AllNew :
    (old : List String) (lot_id : String) (ps : List Panel)
    → AllNew old lot_id ps
    → all_of (is_fresh old lot_id) ps ≡ true
unfolding all_of
all_of-AllNew old lot_id [] h = refl
all_of-AllNew old lot_id (p ∷ ps) (l, s, n, rest) = ground (arith, all_of-AllNew old lot_id ps rest)

module _ {F : Type 0} (db db' : Db F) (k : IsKept db) (lot : Lot) (glass : List Panel)
    (lots : db'.lots ≡ db.lots ++ lot ∷ []) (panels : db'.panels ≡ db.panels ++ glass)
    (events : db'.process_events ≡ db.process_events) (waits : lot.status ≡ LotStatus.wait)
    (new_lot : has_lot db.lots lot.id ≡ false)
    (new_glass : all_of (is_fresh (map (λ (p : Panel). p.id) db.panels) lot.id) glass ≡ true) where
  abbrev ids : List String
  ids = map (λ (p : Panel). p.id) db.panels

  get_panel-arrived :
      (id : String)
      → get_panel id db' ≡ or_else (get_panel id db) (find_first (λ (p : Panel). p.id == id) glass)
  unfolding get_panel
  get_panel-arrived id = rw panels (find_first-append (λ (p : Panel). p.id == id) db.panels glass)

  get_lot-arrived :
      (id : String)
      → get_lot id db' ≡ or_else (get_lot id db) (find_first (λ (l : Lot). l.id == id) (lot ∷ []))
  unfolding get_lot
  get_lot-arrived id = rw lots (find_first-append (λ (l : Lot). l.id == id) db.lots (lot ∷ []))

  lot_is_known :
      (id : String) (p : Panel) → get_panel id db ≡ some p → is_some (get_lot p.lot_id db) ≡ true
  unfolding get_panel get_lot
  lot_is_known id p h =
      all_of-find_first (λ (q : Panel). has_lot db.lots q.lot_id) (λ q. q.id == id) db.panels p
        k.linked.lots h

  product_of-arrived :
      (id : String) → is_some (get_panel id db) ≡ true → product_of id db' ≡ product_of id db
  unfolding product_of get_lot
  product_of-arrived id h = elim (Option-cases (get_panel id db)) [
    | inl n ↦ absurd (ground arith)
    | inr (p, n) ↦ elim (Option-cases (get_lot p.lot_id db)) [
      | inl m ↦ absurd (ground (arith, lot_is_known id p n))
      | inr (l, m) ↦ ground (arith, get_panel-arrived id, get_lot-arrived p.lot_id)
    ]
  ]

  arrived-IsSound : IsSound db'
  unfolding get_panel
  arrived-IsSound = record {
    traced = λ id product step before is_product is_before h.
        (let was : has_done id step db ≡ true = rw (← events) h in
          let (e, known, done) =
            any_of-all_of (λ (e : ProcessEvent F). has_panel db.panels e.panel_id) (is_step id step)
              db.process_events k.linked.glass was in
          let there : is_some (get_panel id db) ≡ true = ground arith in
          rw events (
            k.sound.traced id product step before (sym (product_of-arrived id there) ∙ is_product)
              is_before was));
    distinct = rw events k.sound.distinct;
  }

  arrived-keyed :
      (id : String) (panel : Panel)
      → get_panel id db' ≡ some panel
      → strays id panel.lot_id db'.panels ≡ false
  unfolding get_panel
  arrived-keyed id panel h = elim (Option-cases (get_panel id db)) [
    | inr (p, n) ↦
        let same : panel ≡ p = ground (arith, get_panel-arrived id) in
        let held : contains ids id ≡ true =
          contains-map (λ (q : Panel). q.id) db.panels id ∙ ap is_some n in
        let none_new : strays id p.lot_id glass ≡ false =
          any_of-all_of-not (is_fresh ids lot.id) (λ q. q.id == id && q.lot_id /= p.lot_id) glass
            (λ q t. ground arith) new_glass in
        rw (panels, same)
          (any_of-append (λ (q : Panel). q.id == id && q.lot_id /= p.lot_id) db.panels glass
            ∙ ground (arith, k.complete.keyed id p n))
    | inl n ↦
        let mine : panel.lot_id ≡ lot.id =
          (let t =
              all_of-find_first (is_fresh ids lot.id) (λ q. q.id == id) glass panel new_glass
                (ground (arith, get_panel-arrived id)) in
            ground arith) in
        let none_old : strays id panel.lot_id db.panels ≡ false =
          any_of-none (λ (q : Panel). q.id == id && q.lot_id /= panel.lot_id) (λ q. q.id == id)
            db.panels (λ q t. ground arith)
            (any_of-find_first (λ (q : Panel). q.id == id) db.panels n) in
        let none_new : strays id panel.lot_id glass ≡ false =
          any_of-all_of-not (is_fresh ids lot.id) (λ q. q.id == id && q.lot_id /= panel.lot_id)
            glass (λ q t. ground arith) new_glass in
        rw panels (
          any_of-append (λ (q : Panel). q.id == id && q.lot_id /= panel.lot_id) db.panels glass
          ∙ ground arith)
  ]

  arrived-finished :
      (id : String) (l : Lot)
      → get_lot id db' ≡ some l
      → l.status ≡ LotStatus.complete
      → has_unfinished id db'.panels ≡ false
  unfolding get_lot find_first
  arrived-finished id l h c = elim (Option-cases (get_lot id db)) [
    | inl n ↦ absurd (ground (arith, get_lot-arrived id))
    | inr (l0, n) ↦
        let same : l ≡ l0 = ground (arith, get_lot-arrived id) in
        let other : ¬ (id ≡ lot.id) = λ e. ground arith in
        let none_new : has_unfinished id glass ≡ false =
          any_of-all_of-not (is_fresh ids lot.id) (λ p. p.lot_id == id && not (is_finished p)) glass
            (λ q t. ground arith) new_glass in
        rw panels (
          any_of-append (λ (p : Panel). p.lot_id == id && not (is_finished p)) db.panels glass
          ∙ ground (arith, k.complete.finished id l0 n (ground arith)))
  ]

  arrived-IsLinked : IsLinked db'
  unfolding get_lot get_panel find_first
  arrived-IsLinked = record {
    lots = rw panels (
        all_of-append (λ (p : Panel). has_lot db'.lots p.lot_id) db.panels glass
        ∙ (let old =
              all_of-weaken (λ (p : Panel). has_lot db.lots p.lot_id)
                (λ p. has_lot db'.lots p.lot_id) db.panels
                (λ p t. ground (arith, get_lot-arrived p.lot_id)) k.linked.lots in
            let new =
              all_of-weaken (is_fresh ids lot.id) (λ p. has_lot db'.lots p.lot_id) glass
                (λ p t. ground (arith, get_lot-arrived p.lot_id)) new_glass in
            ground arith));
    glass = rw events (
        all_of-weaken (λ (e : ProcessEvent F). has_panel db.panels e.panel_id)
          (λ e. has_panel db'.panels e.panel_id) db.process_events
          (λ e t. ground (arith, get_panel-arrived e.panel_id)) k.linked.glass);
    named = rw events k.linked.named;
  }

  pub arrived-IsKept : IsKept db'
  arrived-IsKept = record {
    sound = arrived-IsSound;
    complete = record { keyed = arrived-keyed; finished = arrived-finished };
    linked = arrived-IsLinked;
  }

module _ {F : Type 0} (env : Env F) where
  ordered-IsKept :
      (qty : ℕ) (db : Db F) (c : Created ((WorkOrder × List Panel) × Db F))
      → IfCreated env qty db c
      → IsKept db
      → IsKept (ordered db c)
  ordered-IsKept qty db (refused e) w k = k
  ordered-IsKept qty db (created ((order, panels), db')) w k =
      arrived-IsKept db db' k w.lot panels w.lots w.glass w.events w.waits
        (sym (contains-map (λ (l : Lot). l.id) db.lots w.lot.id) ∙ w.new_lot)
        (all_of-AllNew (map (λ (p : Panel). p.id) db.panels) w.lot.id panels w.new_glass)

  pub create_and_release-IsKept :
      (product_type : String) (recipe_id : Option String) (qty : ℕ) (db : Db F)
      → IsKept db
      → IsKept (ordered db (create_and_release env product_type recipe_id qty db))
  create_and_release-IsKept product_type recipe_id qty db =
      ordered-IsKept qty db _ (answer-Released env product_type recipe_id qty db)
