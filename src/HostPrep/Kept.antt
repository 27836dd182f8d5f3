-- ===== src/HostPrep/Kept.antt =====
-- Making the line ready keeps what the line promises.
use displayfab_smart_factory.Prelude.{
  String, Option, some, ◌&&◌, List, [], ◌∷◌, ◌≡◌, refl, arith, subst, inl, inr, Option-cases,
  Bool-cases, truthy, is_some, lookup, ◌==◌,
}
use displayfab_smart_factory.Enums.{EquipmentStatus, equipment_status_eq}
use displayfab_smart_factory.Models.{Equipment, Db}
use displayfab_smart_factory.Models.Tables.{get_equipment, set_equipment}
use displayfab_smart_factory.Env.{Env}
use displayfab_smart_factory.Numerals.{strip_prefix}
use displayfab_smart_factory.Commands.Tidy.{execute_command-Tidy}
use displayfab_smart_factory.Line.{Action}
use displayfab_smart_factory.Line.Kept.{IsKept, tidy-IsKept, Unchanged-IsKept}
use displayfab_smart_factory.Line.Run.{KeptAfter, act-KeptAfter}
use displayfab_smart_factory.HostPrep.{
  Uuids, wake_event, wake_equipment, vacate, is_running_row, start, select_given, prepare_equipment,
  prepare_all, prepare_line, line_equipment, recipe_equipment, recipe_of_scope,
}

module _ {F : Type 0} (env : Env F) where
  module _ (u : Uuids) (equipment_id : String) (db : Db F) (k : IsKept db) where
    pub wake_equipment-IsKept : KeptAfter (wake_equipment env u equipment_id db)
    unfolding wake_equipment
    wake_equipment-IsKept =
        act-KeptAfter (Action.push env (wake_event env equipment_id) u.request_id u.event_id) db k

    vacate-IsKept : (eq : Equipment) → IsKept (vacate eq db)
    unfolding vacate set_equipment
    vacate-IsKept eq =
        Unchanged-IsKept db (vacate eq db)
          (record { lots = ground arith; panels = ground arith; process_events = ground arith }) k

    start-IsKept : IsKept (start env u equipment_id db)
    unfolding start
    start-IsKept = elim (Bool-cases (is_running_row (get_equipment equipment_id db))) [
      | inl t ↦ rw t k
      | inr f ↦ rw f (tidy-IsKept db _ (execute_command-Tidy env _ db u.start_id) k)
    ]

    select_given-IsKept :
        (recipe_id : Option String) → IsKept (select_given env u equipment_id recipe_id db)
    unfolding select_given
    select_given-IsKept recipe_id =
        elim (Bool-cases (truthy recipe_id && is_some (lookup equipment_id recipe_equipment))) [
          | inl t ↦ rw t (tidy-IsKept db _ (execute_command-Tidy env _ db u.select_id) k)
          | inr f ↦ rw f k
        ]

  -- the database with which an equipment is prepared, which is always reached
  pub prepare_equipment-IsKept :
      (u : Uuids) (equipment_id : String) (recipe_id : Option String) (db : Db F)
      → IsKept db
      → (db' : Db F) × (prepare_equipment env u equipment_id recipe_id db ≡ some db') × IsKept db'
  unfolding prepare_equipment
  prepare_equipment-IsKept u equipment_id recipe_id db k =
      elim (Option-cases (get_equipment equipment_id db)) [
        | inl n ↦ (db, rw (n, prepare_equipment) refl, k)
        | inr (eq, n) ↦ elim (Bool-cases (eq.equipment_status == EquipmentStatus.maintenance)) [
          | inl m ↦ (db, rw (n, prepare_equipment) (rw m refl), k)
          | inr m ↦
              let vacated = vacate-IsKept u equipment_id db k eq in
              let woken = wake_equipment-IsKept u equipment_id (vacate eq db) vacated in
              elim (Option-cases (wake_equipment env u equipment_id (vacate eq db))) [
                | inl w ↦ absurd (subst KeptAfter w woken)
                | inr (db1, w) ↦
                    let started = start-IsKept u equipment_id db1 (subst KeptAfter w woken) in
                    (
                      select_given env u equipment_id recipe_id (start env u equipment_id db1),
                      rw (n, prepare_equipment) (rw m (rw (w, prepare_equipment) refl)),
                      select_given-IsKept u equipment_id (start env u equipment_id db1) started
                          recipe_id,
                    )
              ]
        ]
      ]

  prepare_all-IsKept :
      (uuid4 : String → Uuids) (recipe_id : String) (ids : List String) (db : Db F)
      → IsKept db
      → (db' : Db F) × (prepare_all env uuid4 recipe_id ids db ≡ some db') × IsKept db'
  unfolding prepare_all
  prepare_all-IsKept uuid4 recipe_id [] db k = (db, refl, k)
  prepare_all-IsKept uuid4 recipe_id (id ∷ ids) db k =
      let (db1, e, k1) =
        prepare_equipment-IsKept (uuid4 id) id
          (recipe_of_scope (lookup id recipe_equipment)
            (is_some (strip_prefix "RCP-OLED" recipe_id)) recipe_id)
          db k in
      let (db', rest, k') = prepare_all-IsKept uuid4 recipe_id ids db1 k1 in
      (db', rw (e, prepare_all) rest, k')

  -- From a database that keeps the promises of the line, making the line ready for any recipe text
  -- runs through all eight machines without an error, and its end keeps them.
  pub prepare_line-IsKept :
      (uuid4 : String → Uuids) (recipe_id : String) (db : Db F)
      → IsKept db
      → (db' : Db F) × (prepare_line env uuid4 recipe_id db ≡ some db') × IsKept db'
  unfolding prepare_line
  prepare_line-IsKept uuid4 recipe_id db = prepare_all-IsKept uuid4 recipe_id line_equipment db
