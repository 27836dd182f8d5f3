-- ===== src/Line/Kept.antt =====
-- Each action keeps what the line promises about its glass and its lots.
use displayfab_smart_factory.Prelude.{
  ◌≤◌, String, some, true, false, ◌&&◌, not, List, [], ◌∷◌, ◌≡◌, inl, inr, sym, ap, ◌∙◌, arith,
  any_of-update_where, count_where, find_first, find_first-update_where, ◌==◌, ◌/=◌, string_eq,
  nat_eq, Option-cases,
}
use displayfab_smart_factory.Models.{Lot, Panel, Equipment, Db}
use displayfab_smart_factory.Models.Tables.{get_lot, get_panel, set_equipment}
use displayfab_smart_factory.Schemas.{EquipmentEventIn}
use displayfab_smart_factory.Env.{Env}
use displayfab_smart_factory.WorkOrders.{is_finished}
use displayfab_smart_factory.Adapter.{accept_push}
use displayfab_smart_factory.Alarms.{create_alarm}
use displayfab_smart_factory.Downtime.{open_downtime}
use displayfab_smart_factory.Downtime.Single.{count_where-update_where_le}
use displayfab_smart_factory.Ingestion.Settle.{lot_all_panels_complete}
use displayfab_smart_factory.Ingestion.Growth.{Unchanged}
use displayfab_smart_factory.Ingestion.History.{product_of-update}
use displayfab_smart_factory.Ingestion.Traceability.{IsSound, Unchanged-IsSound}
use displayfab_smart_factory.Ingestion.Completion.{
  IsComplete, strays, finished_of_all, all_of_finished, Unchanged-IsComplete,
}
use displayfab_smart_factory.Commands.Tidy.{Tidy}
use displayfab_smart_factory.Line.Links.{IsLinked, Unchanged-IsLinked, Tidy-IsLinked}
use displayfab_smart_factory.Offline.{
  raise_loss, lose, check_silence, detect, mark_offline_equipment,
}

module _ {F : Type 0} where
  pub record IsKept (db : Db F) : Type 0 where
    pub sound : IsSound db
    pub complete : IsComplete db
    pub linked : IsLinked db

  module _ (db db' : Db F) (t : Tidy db db') where
    tidy-IsSound : IsSound db → IsSound db'
    tidy-IsSound s = record {
      traced = λ i p step before is_product. rw t.process_events (
          s.traced i p step before (
            sym (
              product_of-update t.panel_test t.lot_test t.panel_change t.lot_change db db'
                t.panel_keys t.lot_keys t.panels t.lots i)
            ∙ is_product));
      distinct = rw t.process_events s.distinct;
    }

    tidy-keyed :
        IsComplete db
        → (panel_id : String) (panel : Panel) → get_panel panel_id db' ≡ some panel
        → strays panel_id panel.lot_id db'.panels ≡ false
    unfolding get_panel
    tidy-keyed s panel_id panel h =
        let was =
          find_first-update_where (λ (p : Panel). p.id == panel_id) t.panel_test t.panel_change
            db.panels (λ p. ap (λ i. i == panel_id) (t.panel_keys p).0) in
        let now = ap (find_first (λ (p : Panel). p.id == panel_id)) t.panels in
        elim (Option-cases (get_panel panel_id db)) [
          | inl n ↦ absurd (ground arith)
          | inr (p, n) ↦
              let same : panel.lot_id ≡ p.lot_id = ground (arith, (t.panel_keys p).1) in
              rw t.panels (
                any_of-update_where (λ (q : Panel). q.id == panel_id && q.lot_id /= panel.lot_id)
                  t.panel_test t.panel_change db.panels
                  (λ q. ground (arith, (t.panel_keys q).0, (t.panel_keys q).1))
                ∙ rw same (s.keyed panel_id p n))
        ]

    -- a lot whose glass is finished keeps it so
    tidy-finished :
        (lot_id : String)
        → lot_all_panels_complete lot_id db ≡ true
        → lot_all_panels_complete lot_id db' ≡ true
    unfolding lot_all_panels_complete
    tidy-finished lot_id h =
        let unfinished = λ (p : Panel). p.lot_id == lot_id && not (is_finished p) in
        let fewer : count_where unfinished db'.panels ≤ count_where unfinished db.panels =
          rw t.panels (
            count_where-update_where_le unfinished t.panel_test t.panel_change db.panels
              (λ p q k. ground (arith, t.stay p, (t.panel_keys p).1))) in
        ground arith

    tidy-IsComplete : IsComplete db → IsComplete db'
    unfolding get_lot
    tidy-IsComplete s = record {
      keyed = tidy-keyed s;
      finished = λ lot_id lot h c.
          (let was =
              find_first-update_where (λ (l : Lot). l.id == lot_id) t.lot_test t.lot_change db.lots
                (λ l. ap (λ i. i == lot_id) (t.lot_keys l).0) in
            let now = ap (find_first (λ (l : Lot). l.id == lot_id)) t.lots in
            elim (Option-cases (get_lot lot_id db)) [
              | inl n ↦ absurd (ground arith)
              | inr (l, n) ↦ finished_of_all lot_id db' (
                  tidy-finished lot_id (
                    all_of_finished lot_id db (s.finished lot_id l n (ground (arith, t.no_end l)))))
            ]);
    }

    pub tidy-IsKept : IsKept db → IsKept db'
    tidy-IsKept k = record {
      sound = tidy-IsSound k.sound;
      complete = tidy-IsComplete k.complete;
      linked = Tidy-IsLinked db db' t k.linked;
    }

  pub Unchanged-IsKept : (db db' : Db F) → Unchanged db db' → IsKept db → IsKept db'
  Unchanged-IsKept db db' u k = record {
    sound = Unchanged-IsSound db db' u k.sound;
    complete = Unchanged-IsComplete db db' u k.complete;
    linked = Unchanged-IsLinked db db' u k.linked;
  }

  pub accept_push-IsKept :
      (payload : EquipmentEventIn F) (event_id : String) (db : Db F)
      → IsKept db
      → IsKept (accept_push payload event_id db)
  unfolding accept_push
  accept_push-IsKept payload event_id db =
      Unchanged-IsKept db (accept_push payload event_id db)
        (record { lots = ground arith; panels = ground arith; process_events = ground arith })

  module _ (env : Env F) where
    check_silence-Unchanged :
        (eq : Equipment) (db : Db F) → Unchanged db (check_silence env eq db).1
    unfolding check_silence lose raise_loss open_downtime create_alarm set_equipment
    check_silence-Unchanged eq db = record {
      lots = ground arith;
      panels = ground arith;
      process_events = ground arith;
    }

    detect-IsKept : (rows : List Equipment) (db : Db F) → IsKept db → IsKept (detect env rows db).1
    unfolding detect
    detect-IsKept [] db k = k
    detect-IsKept (eq ∷ rows) db k =
        detect-IsKept rows (check_silence env eq db).1
          (Unchanged-IsKept db (check_silence env eq db).1 (check_silence-Unchanged eq db) k)

    pub mark_offline_equipment-IsKept :
        (db : Db F) → IsKept db → IsKept (mark_offline_equipment env db).1
    unfolding mark_offline_equipment
    mark_offline_equipment-IsKept db = detect-IsKept db.equipment db
