-- ===== src/Line/Links.antt =====
-- The foreign keys: every glass is in a lot of the table, and every process event is of a glass of
-- the table. The database refuses anything else; here it is kept by the handlers themselves.
use displayfab_smart_factory.Prelude.{
  String, Bool, true, List, [], ◌∷◌, ◌++◌, ◌≡◌, refl, sym, ap, ◌∙◌, arith, is_some, find_first,
  update_where, all_of, append-empty, all_of-append, all_of-update_where, all_of-weaken,
  is_some-update_where, ◌==◌, string_eq, find_first_sound,
}
use displayfab_smart_factory.Rules.{alias}
use displayfab_smart_factory.Ingestion.Traceability.{named_alias}
use displayfab_smart_factory.Models.{Lot, Panel, ProcessEvent, Db}
use displayfab_smart_factory.Models.Tables.{get_panel, set_lot, set_panel}
use displayfab_smart_factory.Schemas.{EquipmentEventIn}
use displayfab_smart_factory.Env.{Env}
use displayfab_smart_factory.Ingestion.Growth.{Unchanged, Stored, with_status}
use displayfab_smart_factory.Ingestion.Settle.{settled_lot}
use displayfab_smart_factory.Commands.Tidy.{Tidy}

abbrev pub has_lot : List Lot → String → Bool
has_lot lots id = is_some (find_first (λ (l : Lot). l.id == id) lots)

abbrev pub has_panel : List Panel → String → Bool
has_panel panels id = is_some (find_first (λ (p : Panel). p.id == id) panels)

module _ {F : Type 0} where
  abbrev pub is_plain : ProcessEvent F → Bool
  is_plain e = alias e.process_step == e.process_step

  pub record IsLinked (db : Db F) : Type 0 where
    pub lots : all_of (λ (p : Panel). has_lot db.lots p.lot_id) db.panels ≡ true
    pub glass :
        all_of (λ (e : ProcessEvent F). has_panel db.panels e.panel_id) db.process_events ≡ true
    -- a step is stored under its own name, not under an alias
    pub named : all_of is_plain db.process_events ≡ true

  module _ (db db' : Db F) (q : Panel → Bool) (r : Lot → Bool) (f : Panel → Panel) (g : Lot → Lot)
      (hf : (p : Panel) → ((f p).id ≡ p.id) × ((f p).lot_id ≡ p.lot_id))
      (hg : (l : Lot) → (g l).id ≡ l.id) (e : db'.panels ≡ update_where q f db.panels)
      (h : db'.lots ≡ update_where r g db.lots) where
    has_lot-update : (id : String) → has_lot db'.lots id ≡ has_lot db.lots id
    has_lot-update id =
        rw h (
          is_some-update_where (λ (l : Lot). l.id == id) r g db.lots
            (λ l. ap (λ i. i == id) (hg l)))

    pub has_panel-update : (id : String) → has_panel db'.panels id ≡ has_panel db.panels id
    has_panel-update id = rw e (
        is_some-update_where (λ (p : Panel). p.id == id) q f db.panels
          (λ p. ap (λ i. i == id) (hf p).0))

    -- updates that leave the keys alone, and events of known glass
    pub update-IsLinked :
        (es : List (ProcessEvent F))
        → db'.process_events ≡ db.process_events ++ es
        → all_of (λ (x : ProcessEvent F). has_panel db.panels x.panel_id) es ≡ true
        → all_of is_plain es ≡ true
        → IsLinked db
        → IsLinked db'
    update-IsLinked es grown known plain k = record {
      lots = rw e (
          all_of-update_where (λ (p : Panel). has_lot db'.lots p.lot_id) q f db.panels
            (λ p. ap (has_lot db'.lots) (hf p).1)
          ∙ all_of-weaken (λ (p : Panel). has_lot db.lots p.lot_id) (λ p. has_lot db'.lots p.lot_id)
              db.panels (λ p t. has_lot-update p.lot_id ∙ t) k.lots);
      glass = rw grown (
          all_of-weaken (λ (x : ProcessEvent F). has_panel db.panels x.panel_id)
            (λ x. has_panel db'.panels x.panel_id) (db.process_events ++ es)
            (λ x t. has_panel-update x.panel_id ∙ t)
            (all_of-append (λ (x : ProcessEvent F). has_panel db.panels x.panel_id)
                db.process_events es
              ∙ ground (arith, k.glass)));
      named = rw grown (all_of-append is_plain db.process_events es ∙ ground (arith, k.named));
    }

  pub Unchanged-IsLinked : (db db' : Db F) → Unchanged db db' → IsLinked db → IsLinked db'
  Unchanged-IsLinked db db' u k = record {
    lots = rw (u.panels, u.lots) k.lots;
    glass = rw (u.panels, u.process_events) k.glass;
    named = rw u.process_events k.named;
  }

  pub Stored-IsLinked :
      (env : Env F) (payload : EquipmentEventIn F) (db db' : Db F)
      → Stored env payload db db'
      → IsLinked db
      → IsLinked db'
  unfolding set_panel set_lot get_panel all_of
  Stored-IsLinked env payload db db' w =
      let a = w.admitted in
      let same =
        find_first_sound (λ (row : Panel). row.id == a.fields.panel_id) db.panels a.panel
          a.panel_known in
      update-IsLinked db db' (λ p. p.id == a.panel.id) (λ l. l.id == a.lot.id)
        (with_status w.settled.panel_status) (settled_lot w.target w.settled) (λ p. (refl, refl))
        (λ l. refl) w.panels w.lots (w.event ∷ []) w.grown
        (ground (arith, w.event_panel, a.panel_known))
        (ground (arith, w.event_step, named_alias env payload a.fields a.complete))

  pub Tidy-IsLinked : (db db' : Db F) → Tidy db db' → IsLinked db → IsLinked db'
  unfolding all_of
  Tidy-IsLinked db db' t =
      update-IsLinked db db' t.panel_test t.lot_test t.panel_change t.lot_change t.panel_keys
        (λ l. (t.lot_keys l).0) t.panels t.lots []
        (t.process_events ∙ sym (append-empty db.process_events)) refl refl
