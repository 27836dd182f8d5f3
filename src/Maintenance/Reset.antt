-- ===== src/Maintenance/Reset.antt =====
-- What the line is after a reset.
use displayfab_smart_factory.Prelude.{
  String, none, some, true, false, not, contains, List, [], ◌∷◌, ◌++◌, ◌≡◌, refl, sym, ap, ◌∙◌,
  arith, map, all_of, any_of, is_some, update_where, Bool-cases, inl, inr, find_first,
  find_first_sound, all_of-find_first, ◌==◌, string_eq, String-discrete,
}
use displayfab_smart_factory.Enums.{
  ConnectionStatus, EquipmentStatus, LotStatus, LotStatus-discrete, lot_status_eq,
}
use displayfab_smart_factory.Models.{Equipment, Recipe, Lot, Panel, Db}
use displayfab_smart_factory.Models.Tables.{get_lot, get_panel, get_equipment, set_equipment}
use displayfab_smart_factory.Env.{FloatOps}
use displayfab_smart_factory.Seed.{
  EquipmentMaster, SampleLot, new_equipment, with_interface, sample_lot, sample_lots, sample_panels,
  all_sample_panels, clashes, ensure_recipe, ensure_equipment, ensure_recipes, ensure_equipments,
  ensure_masters, equipment_masters, recipe_masters, seed_sample_lots,
}
use displayfab_smart_factory.Seed.Masters.{ensure_masters-ensure_masters}
use displayfab_smart_factory.Ingestion.Completion.{strays}
use displayfab_smart_factory.Line.Links.{has_lot}
use displayfab_smart_factory.Line.Kept.{IsKept}
use displayfab_smart_factory.Maintenance.{
  asleep, row_counts, cleared, total, reset_demo_data, ResetOut,
}

clashes_empty : (ids : List String) → clashes [] ids ≡ false
unfolding clashes contains
clashes_empty [] = refl
clashes_empty (id ∷ rest) = clashes_empty rest

-- the sample rows, computed
abbrev glass : List Panel
glass = all_sample_panels sample_lots

abbrev cassettes : List Lot
cassettes = map sample_lot sample_lots

glass_keyed : all_of (λ p. not (strays p.id p.lot_id glass)) glass ≡ true
unfolding all_sample_panels sample_panels String-discrete any_of all_of
glass_keyed = refl

glass_linked : all_of (λ p. has_lot cassettes p.lot_id) glass ≡ true
unfolding all_sample_panels sample_panels String-discrete find_first all_of
glass_linked = refl

cassettes_wait : all_of (λ l. l.status == LotStatus.wait) cassettes ≡ true
unfolding all_of LotStatus-discrete
cassettes_wait = refl

pub record IsAsleep (eq : Equipment) : Type 0 where
  pub status : eq.equipment_status ≡ EquipmentStatus.idle
  pub connection : eq.connection_status ≡ ConnectionStatus.offline
  pub lot : eq.current_lot_id ≡ none
  pub recipe : eq.current_recipe_id ≡ none
  pub seen : eq.last_seen_at ≡ none

abbrev pub AreAsleep : List Equipment → Type 0
AreAsleep [] = Unit
AreAsleep (eq ∷ rest) = IsAsleep eq × AreAsleep rest

asleep-AreAsleep : (rows : List Equipment) → AreAsleep (map asleep rows)
asleep-AreAsleep [] = tt
asleep-AreAsleep (eq ∷ rest) = (
  record { status = refl; connection = refl; lot = refl; recipe = refl; seen = refl },
  asleep-AreAsleep rest,
)

AreAsleep-asleep : (rows : List Equipment) → AreAsleep rows → map asleep rows ≡ rows
AreAsleep-asleep [] h = refl
AreAsleep-asleep (eq ∷ rest) (h, hs) =
    rw (AreAsleep-asleep rest hs) (ap (λ e. e ∷ rest) (ground arith))

AreAsleep-append :
    (rows : List Equipment) (eq : Equipment)
    → AreAsleep rows
    → IsAsleep eq
    → AreAsleep (rows ++ eq ∷ [])
AreAsleep-append [] eq h k = (k, tt)
AreAsleep-append (row ∷ rest) eq (h, hs) k = (h, AreAsleep-append rest eq hs k)

AreAsleep-interfaces :
    (id : String) (rows : List Equipment)
    → AreAsleep rows
    → AreAsleep (update_where (λ e. e.id == id) with_interface rows)
unfolding update_where
AreAsleep-interfaces id [] h = tt
AreAsleep-interfaces id (row ∷ rest) (h, hs) = (
  elim (Bool-cases (row.id == id)) [
    | inl t ↦ rw t (record {
      status = h.status;
      connection = h.connection;
      lot = h.lot;
      recipe = h.recipe;
      seen = h.seen;
    })
    | inr f ↦ rw f h
  ],
  AreAsleep-interfaces id rest hs,
)

module _ {F : Type 0} where
  -- ensuring the masters touches the equipment and the recipes only
  SameRest : Db F → Db F → Type 0
  SameRest db db' = db' ≡ record db { equipment = db'.equipment; recipes = db'.recipes }

  same_trans : (a b c : Db F) → SameRest a b → SameRest b c → SameRest a c
  unfolding SameRest
  same_trans a b c h k =
      k ∙ ap (λ (d : Db F). record d { equipment = c.equipment; recipes = c.recipes }) h

  recipes_same : (rows : List (Recipe F)) (db : Db F) → SameRest db (ensure_recipes rows db)
  unfolding ensure_recipes ensure_recipe SameRest
  recipes_same [] db = refl
  recipes_same (row ∷ rest) db =
      same_trans db (ensure_recipe row db) _ (ground arith)
        (recipes_same rest (ensure_recipe row db))

  equipments_same :
      (rows : List EquipmentMaster) (db : Db F) → SameRest db (ensure_equipments rows db)
  unfolding ensure_equipments ensure_equipment set_equipment SameRest
  equipments_same [] db = refl
  equipments_same (row ∷ rest) db =
      same_trans db (ensure_equipment row db) _ (ground arith)
        (equipments_same rest (ensure_equipment row db))

  recipes_equipment :
      (rows : List (Recipe F)) (db : Db F) → (ensure_recipes rows db).equipment ≡ db.equipment
  unfolding ensure_recipes ensure_recipe
  recipes_equipment [] db = refl
  recipes_equipment (row ∷ rest) db = recipes_equipment rest (ensure_recipe row db) ∙ ground arith

  equipments-AreAsleep :
      (rows : List EquipmentMaster) (db : Db F)
      → AreAsleep db.equipment
      → AreAsleep (ensure_equipments rows db).equipment
  unfolding ensure_equipments ensure_equipment set_equipment
  equipments-AreAsleep [] db h = h
  equipments-AreAsleep (row ∷ rest) db h =
      equipments-AreAsleep rest (ensure_equipment row db)
        (elim (Bool-cases (is_some (get_equipment row.id db))) [
          | inl t ↦ rw t (AreAsleep-interfaces row.id db.equipment h)
          | inr f ↦ rw f (
              AreAsleep-append db.equipment (new_equipment row) h (record {
                status = refl;
                connection = refl;
                lot = refl;
                recipe = refl;
                seen = refl;
              }))
        ])

  -- the line after a reset
  after : FloatOps F → Db F → Db F
  after float db = record (ensure_masters float (cleared db)) { lots = cassettes; panels = glass }

  masters_rest : (float : FloatOps F) (db : Db F) → SameRest db (ensure_masters float db)
  unfolding ensure_masters
  masters_rest float db =
      same_trans db (ensure_recipes (recipe_masters float) db) _
        (recipes_same (recipe_masters float) db)
        (equipments_same equipment_masters (ensure_recipes (recipe_masters float) db))

  reset_out : Db F → ResetOut
  unfolding total
  reset_out db = record {
    ok = true;
    deleted = row_counts db;
    deleted_total = total (row_counts db);
  }

  seed_lem :
      (db : Db F)
      → db.lots ≡ []
      → db.panels ≡ []
      → seed_sample_lots db ≡ some (record db { lots = cassettes; panels = glass })
  unfolding seed_sample_lots
  seed_lem db lots panels =
      rw
        (
          lots,
          panels,
          clashes_empty (map (λ (l : SampleLot). l.id) sample_lots),
          clashes_empty (map (λ (p : Panel). p.id) glass),
        )
        refl

  reset_lem :
      (float : FloatOps F) (db : Db F)
      → reset_demo_data float db ≡ some (reset_out db, after float db)
  unfolding reset_demo_data SameRest after reset_out
  reset_lem float db =
      let r = masters_rest float (cleared db) in
      rw
        (
          seed_lem (ensure_masters float (cleared db)) (ap (λ (d : Db F). d.lots) r)
              (ap (λ (d : Db F). d.panels) r),
          reset_demo_data,
        )
        refl

  masters_asleep : (float : FloatOps F) (db : Db F) → AreAsleep (after float db).equipment
  unfolding after ensure_masters
  masters_asleep float db =
      equipments-AreAsleep equipment_masters _
        (rw (recipes_equipment (recipe_masters float) (cleared db)) (asleep-AreAsleep db.equipment))

  serial_only : (equipment : List Equipment) (recipes : List (Recipe F)) → Db F → Db F
  serial_only equipment recipes db = record (cleared db) {
    equipment = equipment;
    recipes = recipes;
  }

  cleared-after :
      (float : FloatOps F) (db : Db F)
      → cleared (after float db) ≡ ensure_masters float (cleared db)
  unfolding after SameRest serial_only
  cleared-after float db =
      let m = ensure_masters float (cleared db) in
      let r = masters_rest float (cleared db) in
      ap (λ (rows : List Equipment). serial_only rows m.recipes m)
        (AreAsleep-asleep m.equipment (masters_asleep float db))
      ∙ ap (serial_only m.equipment m.recipes) r
      ∙ sym r

  after-after : (float : FloatOps F) (db : Db F) → after float (after float db) ≡ after float db
  unfolding after
  after-after float db =
      rw (cleared-after float db, ensure_masters-ensure_masters float (cleared db)) refl

  fresh-IsKept :
      (db : Db F) → db.lots ≡ cassettes → db.panels ≡ glass → db.process_events ≡ [] → IsKept db
  unfolding get_lot get_panel any_of all_of
  fresh-IsKept db lots panels events = record {
    sound = record {
      traced = λ id product step before is_product is_before h. absurd (ground arith);
      distinct = rw events tt;
    };
    complete = record {
      keyed = λ id panel h.
          (let t =
              all_of-find_first (λ p. not (strays p.id p.lot_id glass)) (λ p. p.id == id) glass
                panel glass_keyed (rw (← panels) h) in
            let named = find_first_sound (λ (p : Panel). p.id == id) db.panels panel h in
            rw panels (ground (arith, t, named)));
      finished = λ id lot h c. absurd (
          let t =
            all_of-find_first (λ (l : Lot). l.status == LotStatus.wait) (λ l. l.id == id) cassettes
              lot cassettes_wait (rw (← lots) h) in
          ground arith);
    };
    linked = record {
      lots = rw (lots, panels) glass_linked;
      glass = rw events refl;
      named = rw events refl;
    };
  }

  -- what a reset leaves of the day: the sample cassettes, all waiting, and nothing else
  pub record IsReset (db db' : Db F) : Type 0 where
    pub kept : IsKept db'
    pub asleep_rows : AreAsleep db'.equipment
    pub lots : db'.lots ≡ map sample_lot sample_lots
    pub panels : db'.panels ≡ all_sample_panels sample_lots
    pub process_events : db'.process_events ≡ []
    pub sensor_readings : db'.sensor_readings ≡ []
    pub telemetry : db'.telemetry ≡ []
    pub downtime : db'.downtime ≡ []
    pub alarms : db'.alarms ≡ []
    pub event_logs : db'.event_logs ≡ []
    pub state_changes : db'.state_changes ≡ []
    pub host_commands : db'.host_commands ≡ []
    pub work_orders : db'.work_orders ≡ []

  -- A reset of the demo runs through from any database, however broken. It leaves the sample cassettes
  -- as the only lots and glass, all equipment IDLE and OFFLINE without lot or recipe, and every other
  -- table but the recipes empty; and the line keeps its promises again.
  pub reset_demo_data-IsReset :
      (float : FloatOps F) (db : Db F)
      → (out : ResetOut) × (db' : Db F) × (reset_demo_data float db ≡ some (out, db'))
        × IsReset db db'
  unfolding after SameRest
  reset_demo_data-IsReset float db =
      let r = masters_rest float (cleared db) in
      (
        reset_out db,
        after float db,
        reset_lem float db,
        record {
          kept = fresh-IsKept (after float db) refl refl (ap (λ (d : Db F). d.process_events) r);
          asleep_rows = masters_asleep float db;
          lots = refl;
          panels = refl;
          process_events = ap (λ (d : Db F). d.process_events) r;
          sensor_readings = ap (λ (d : Db F). d.sensor_readings) r;
          telemetry = ap (λ (d : Db F). d.telemetry) r;
          downtime = ap (λ (d : Db F). d.downtime) r;
          alarms = ap (λ (d : Db F). d.alarms) r;
          event_logs = ap (λ (d : Db F). d.event_logs) r;
          state_changes = ap (λ (d : Db F). d.state_changes) r;
          host_commands = ap (λ (d : Db F). d.host_commands) r;
          work_orders = ap (λ (d : Db F). d.work_orders) r;
        },
      )

  -- A second reset changes nothing: it leaves the database that the first one left.
  pub reset_demo_data-reset_demo_data :
      (float : FloatOps F) (db db' : Db F) (out : ResetOut)
      → reset_demo_data float db ≡ some (out, db')
      → (again : ResetOut) × (reset_demo_data float db' ≡ some (again, db'))
  reset_demo_data-reset_demo_data float db db' out h =
      let same : after float db ≡ db' = ground (arith, reset_lem float db) in
      (
        reset_out db',
        reset_lem float db'
            ∙ ap (λ d. some (reset_out db', d)) (rw (← same) (after-after float db)),
      )
