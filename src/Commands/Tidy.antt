-- ===== src/Commands/Tidy.antt =====
-- What the commands do to the glass and the lots, in one shape.
use displayfab_smart_factory.Prelude.{
  String, Bool, true, false, List, [], ◌∷◌, ◌≡◌, refl, sym, ap, ◌∙◌, arith, update_where, ◌==◌,
  string_eq, Bool-cases, Option-cases, inl, inr,
}
use displayfab_smart_factory.Enums.{
  CommandType, LotStatus, PanelStatus, lot_status_eq, panel_status_eq,
}
use displayfab_smart_factory.Models.{Lot, Panel, Db}
use displayfab_smart_factory.Models.Tables.{
  get_lot, get_panel, set_equipment, set_lot, set_panel, set_work_order,
}
use displayfab_smart_factory.Schemas.{CommandIn}
use displayfab_smart_factory.Env.{Env}
use displayfab_smart_factory.Downtime.{open_downtime, close_downtime}
use displayfab_smart_factory.Journal.{record_state_change}
use displayfab_smart_factory.WorkOrders.{is_finished, refresh_work_order_for_lot}
use displayfab_smart_factory.Commands.{apply_command, save, execute_command}
use displayfab_smart_factory.Commands.Orders.{
  if_given, held, resumed, resumed_panel, is_held_panel, panel_with, hold_lot, release_lot,
  maint_enter, maint_exit, switch, select_recipe, ack_alarm, scrap_panel,
}

update_where-none : {A : Type 0} (f : A → A) (xs : List A) → update_where (λ x. false) f xs ≡ xs
unfolding update_where
update_where-none f [] = refl
update_where-none f (x ∷ xs) = ap (λ ys. x ∷ ys) (update_where-none f xs)

module _ {F : Type 0} where
  -- some glass and some lots change their states: what was finished stays so, and no lot ends
  pub record Tidy (db db' : Db F) : Type 0 where
    pub panel_test : Panel → Bool
    pub lot_test : Lot → Bool
    pub panel_change : Panel → Panel
    pub lot_change : Lot → Lot
    pub process_events : db'.process_events ≡ db.process_events
    pub panels : db'.panels ≡ update_where panel_test panel_change db.panels
    pub lots : db'.lots ≡ update_where lot_test lot_change db.lots
    pub panel_keys :
        (p : Panel) → ((panel_change p).id ≡ p.id) × ((panel_change p).lot_id ≡ p.lot_id)
    pub lot_keys :
        (l : Lot) → ((lot_change l).id ≡ l.id) × ((lot_change l).product_type ≡ l.product_type)
    pub stay :
        (p : Panel)
        → panel_test p ≡ true
        → is_finished p ≡ true
        → is_finished (panel_change p) ≡ true
    pub no_end :
        (l : Lot) → (lot_change l).status ≡ LotStatus.complete → l.status ≡ LotStatus.complete

  -- nothing of the glass and the lots changes
  same-Tidy :
      (db db' : Db F)
      → db'.process_events ≡ db.process_events
      → db'.panels ≡ db.panels
      → db'.lots ≡ db.lots
      → Tidy db db'
  same-Tidy db db' e p l = record {
    panel_test = λ x. false;
    lot_test = λ x. false;
    panel_change = λ x. x;
    lot_change = λ x. x;
    process_events = e;
    panels = p ∙ sym (update_where-none (λ x. x) db.panels);
    lots = l ∙ sym (update_where-none (λ x. x) db.lots);
    panel_keys = λ x. (refl, refl);
    lot_keys = λ x. (refl, refl);
    stay = λ x h k. k;
    no_end = λ x h. h;
  }

  refl-Tidy : (db : Db F) → Tidy db db
  refl-Tidy db = same-Tidy db db refl refl refl

  module _ (env : Env F) (payload : CommandIn) (db : Db F) where
    hold_lot-Tidy : Tidy db (hold_lot env payload db).1
    unfolding hold_lot record_state_change set_lot
    hold_lot-Tidy = elim (Option-cases (if_given (λ key. get_lot key db) payload.lot_id)) [
      | inl n ↦ rw (n, hold_lot) (refl-Tidy db)
      | inr (lot, n) ↦ elim (Bool-cases (lot.status == LotStatus.complete)) [
        | inl c ↦ rw (n, hold_lot) (rw c (refl-Tidy db))
        | inr c ↦
            rw (n, hold_lot)
              (rw c (record {
                panel_test = λ p. false;
                lot_test = λ l. l.id == lot.id;
                panel_change = λ p. p;
                lot_change = held;
                process_events = ground arith;
                panels = ground (arith, update_where-none (λ (p : Panel). p) db.panels);
                lots = ground arith;
                panel_keys = λ p. (refl, refl);
                lot_keys = λ l. (refl, refl);
                stay = λ p h k. k;
                no_end = λ l h. ground arith;
              }))
      ]
    ]

    release_lot-Tidy : Tidy db (release_lot env payload db).1
    unfolding release_lot record_state_change set_lot
    release_lot-Tidy = elim (Option-cases (if_given (λ key. get_lot key db) payload.lot_id)) [
      | inl n ↦ rw (n, release_lot) (refl-Tidy db)
      | inr (lot, n) ↦ elim (Bool-cases (lot.status == LotStatus.hold)) [
        | inr c ↦ rw (n, release_lot) (rw c (refl-Tidy db))
        | inl c ↦
            rw (n, release_lot)
              (rw c (record {
                panel_test = is_held_panel lot.id;
                lot_test = λ l. l.id == lot.id;
                panel_change = panel_with (resumed_panel lot);
                lot_change = resumed lot;
                process_events = ground arith;
                panels = ground arith;
                lots = ground arith;
                panel_keys = λ p. (refl, refl);
                lot_keys = λ l. (refl, refl);
                stay = λ p h k. ground arith;
                no_end = λ l h. ground arith;
              }))
      ]
    ]

    maint_enter-Tidy : Tidy db (maint_enter env payload db).1
    unfolding maint_enter record_state_change open_downtime set_equipment
    maint_enter-Tidy = same-Tidy db _ (ground arith) (ground arith) (ground arith)

    maint_exit-Tidy : Tidy db (maint_exit env payload db).1
    unfolding maint_exit record_state_change close_downtime set_equipment
    maint_exit-Tidy = same-Tidy db _ (ground arith) (ground arith) (ground arith)

    switch-Tidy : (b : Bool) → Tidy db (switch env b payload db).1
    unfolding switch record_state_change close_downtime open_downtime set_equipment
    switch-Tidy b = same-Tidy db _ (ground arith) (ground arith) (ground arith)

    select_recipe-Tidy : Tidy db (select_recipe env payload db).1
    unfolding select_recipe record_state_change set_equipment
    select_recipe-Tidy = same-Tidy db _ (ground arith) (ground arith) (ground arith)

    ack_alarm-Tidy : Tidy db (ack_alarm env payload db).1
    unfolding ack_alarm
    ack_alarm-Tidy = same-Tidy db _ (ground arith) (ground arith) (ground arith)

    scrap_panel-Tidy : Tidy db (scrap_panel env payload db).1
    unfolding scrap_panel record_state_change refresh_work_order_for_lot set_panel set_work_order
    scrap_panel-Tidy = elim (Option-cases (if_given (λ key. get_panel key db) payload.panel_id)) [
      | inl n ↦ rw (n, scrap_panel) (refl-Tidy db)
      | inr (panel, n) ↦ elim (Bool-cases (panel.status == PanelStatus.scrap)) [
        | inl c ↦ rw (n, scrap_panel) (rw c (refl-Tidy db))
        | inr c ↦ elim (Bool-cases (panel.status == PanelStatus.complete)) [
          | inl d ↦ rw (n, scrap_panel) (rw (c, d) (refl-Tidy db))
          | inr d ↦
              rw (n, scrap_panel)
                (rw (c, d)
                  (record {
                    panel_test = λ p. p.id == panel.id;
                    lot_test = λ l. false;
                    panel_change = panel_with PanelStatus.scrap;
                    lot_change = λ l. l;
                    process_events = ground arith;
                    panels = ground arith;
                    lots = ground (arith, update_where-none (λ (l : Lot). l) db.lots);
                    panel_keys = λ p. (refl, refl);
                    lot_keys = λ l. (refl, refl);
                    stay = λ p h k. ground arith;
                    no_end = λ l h. h;
                  }))
        ]
      ]
    ]

    apply_command-Tidy : (t : CommandType) → Tidy db (apply_command env t payload db).1
    unfolding apply_command
    apply_command-Tidy CommandType.hold_lot = hold_lot-Tidy
    apply_command-Tidy CommandType.release_lot = release_lot-Tidy
    apply_command-Tidy CommandType.maint_enter = maint_enter-Tidy
    apply_command-Tidy CommandType.maint_exit = maint_exit-Tidy
    apply_command-Tidy CommandType.start = switch-Tidy true
    apply_command-Tidy CommandType.stop = switch-Tidy false
    apply_command-Tidy CommandType.select_recipe = select_recipe-Tidy
    apply_command-Tidy CommandType.ack_alarm = ack_alarm-Tidy
    apply_command-Tidy CommandType.scrap_panel = scrap_panel-Tidy

    pub execute_command-Tidy :
        (command_id : String) → Tidy db (execute_command env command_id payload db).1
    unfolding execute_command save
    execute_command-Tidy command_id =
        let t = apply_command-Tidy payload.command_type in
        record {
          panel_test = t.panel_test;
          lot_test = t.lot_test;
          panel_change = t.panel_change;
          lot_change = t.lot_change;
          process_events = t.process_events;
          panels = t.panels;
          lots = t.lots;
          panel_keys = t.panel_keys;
          lot_keys = t.lot_keys;
          stay = t.stay;
          no_end = t.no_end;
        }
