-- ===== src/Seed/Masters.antt =====
-- What ensuring the masters leaves alone, and what a second time finds.
use displayfab_smart_factory.Prelude.{
  String, Bool, true, false, ◌||◌, not, List, [], ◌∷◌, ◌≡◌, refl, ap, ◌∙◌, arith, inl, inr, is_some,
  all_of, find_first, update_where, all_of-append, is_some-update_where, find_first-append, ◌==◌,
  string_eq, String-discrete, Bool-cases,
}
use displayfab_smart_factory.Models.{Equipment, Recipe, Db}
use displayfab_smart_factory.Models.Tables.{get_equipment, get_recipe, set_equipment}
use displayfab_smart_factory.Env.{FloatOps}
use displayfab_smart_factory.Seed.{
  EquipmentMaster, new_equipment, with_interface, ensure_recipe, ensure_equipment, ensure_recipes,
  ensure_equipments, ensure_masters, equipment_masters, recipe_masters,
}

-- an update of rows that it leaves as they are
pub update_where_same :
    {A : Type 0} (p : A → Bool) (f : A → A) (q : A → Bool) (xs : List A)
    → ((x : A) → p x ≡ true → q x ≡ true → f x ≡ x)
    → all_of q xs ≡ true
    → update_where p f xs ≡ xs
unfolding update_where all_of
update_where_same p f q [] h a = refl
update_where_same p f q (x ∷ xs) h a = ground (arith, h x, update_where_same p f q xs h)

-- rows of the key have an interface
abbrev has_interface : String → Equipment → Bool
has_interface id eq = not (eq.id == id) || not (eq.interface_type == "")

is_wired : (e : Equipment) → ((with_interface e).interface_type == "") ≡ false
unfolding String-discrete
is_wired e = elim (Bool-cases (e.interface_type == "")) [
  | inl t ↦ rw t refl
  | inr f ↦ rw (f, ← f) refl
]

new_is_wired : (row : EquipmentMaster) → ((new_equipment row).interface_type == "") ≡ false
unfolding String-discrete
new_is_wired row = refl

wired_same : (e : Equipment) → (e.interface_type == "") ≡ false → with_interface e ≡ e
wired_same e h = rw h refl

all_of_updated :
    {A : Type 0} (p : A → Bool) (f : A → A) (q : A → Bool) (xs : List A)
    → ((x : A) → p x ≡ true → q (f x) ≡ true)
    → ((x : A) → p x ≡ false → q x ≡ true)
    → all_of q (update_where p f xs) ≡ true
unfolding all_of update_where
all_of_updated p f q [] h k = refl
all_of_updated p f q (x ∷ xs) h k = ground (arith, h x, k x, all_of_updated p f q xs h k)

all_of_kept :
    {A : Type 0} (p : A → Bool) (f : A → A) (q : A → Bool) (xs : List A)
    → ((x : A) → q x ≡ true → q (f x) ≡ true)
    → all_of q xs ≡ true
    → all_of q (update_where p f xs) ≡ true
unfolding all_of update_where
all_of_kept p f q [] h k = refl
all_of_kept p f q (x ∷ xs) h k = ground (arith, h x, all_of_kept p f q xs h)

all_of_absent :
    {A : Type 0} (p q : A → Bool) (xs : List A)
    → ((x : A) → p x ≡ false → q x ≡ true)
    → is_some (find_first p xs) ≡ false
    → all_of q xs ≡ true
unfolding all_of find_first
all_of_absent p q [] h k = refl
all_of_absent p q (x ∷ xs) h k = ground (arith, h x, all_of_absent p q xs h)

module _ {F : Type 0} where
  -- the equipment's row is there, with an interface
  record IsSettled (id : String) (db : Db F) : Type 0 where
    known : is_some (get_equipment id db) ≡ true
    wired : all_of (has_interface id) db.equipment ≡ true

  ensure_equipment-IsSettled :
      (row : EquipmentMaster) (db : Db F) → IsSettled row.id (ensure_equipment row db)
  unfolding ensure_equipment get_equipment set_equipment find_first all_of
  ensure_equipment-IsSettled row db = elim (Bool-cases (is_some (get_equipment row.id db))) [
    | inl t ↦
        rw (t, ensure_equipment)
          (record {
            known =
                rw
                  (is_some-update_where (λ (e : Equipment). e.id == row.id) (λ e. e.id == row.id)
                    with_interface db.equipment (λ e. refl))
                  t;
            wired =
                all_of_updated (λ (e : Equipment). e.id == row.id) with_interface
                  (has_interface row.id) db.equipment (λ e h. ground (arith, is_wired e))
                  (λ e h. ground arith);
          })
    | inr f ↦
        rw (f, ensure_equipment)
          (record {
            known =
                rw
                  (find_first-append (λ (e : Equipment). e.id == row.id) db.equipment
                    (new_equipment row ∷ []))
                  (ground arith);
            wired =
                rw (all_of-append (has_interface row.id) db.equipment (new_equipment row ∷ [])) (
                  ground (
                    arith,
                    new_is_wired row,
                    all_of_absent (λ (e : Equipment). e.id == row.id) (has_interface row.id)
                        db.equipment (λ e h. ground arith),
                  ));
          })
  ]

  IsSettled-ensure_equipment :
      (id : String) (row : EquipmentMaster) (db : Db F)
      → IsSettled id db
      → IsSettled id (ensure_equipment row db)
  unfolding ensure_equipment get_equipment set_equipment all_of find_first
  IsSettled-ensure_equipment id row db k = elim (Bool-cases (is_some (get_equipment row.id db))) [
    | inl t ↦
        rw (t, ensure_equipment)
          (record {
            known =
                rw
                  (is_some-update_where (λ (e : Equipment). e.id == id) (λ e. e.id == row.id)
                    with_interface db.equipment (λ e. refl))
                  k.known;
            wired =
                all_of_kept (λ (e : Equipment). e.id == row.id) with_interface (has_interface id)
                  db.equipment (λ e h. ground (arith, is_wired e)) k.wired;
          })
    | inr f ↦
        rw (f, ensure_equipment)
          (record {
            known =
                rw
                  (find_first-append (λ (e : Equipment). e.id == id) db.equipment
                    (new_equipment row ∷ []))
                  (ground (arith, k.known));
            wired =
                rw (all_of-append (has_interface id) db.equipment (new_equipment row ∷ []))
                  (ground (arith, new_is_wired row, k.wired));
          })
  ]

  ensure_equipment_same :
      (row : EquipmentMaster) (db : Db F) → IsSettled row.id db → ensure_equipment row db ≡ db
  unfolding ensure_equipment set_equipment
  ensure_equipment_same row db k =
      rw (k.known, ensure_equipment)
        (ap (λ (rows : List Equipment). record db { equipment = rows })
          (update_where_same (λ (e : Equipment). e.id == row.id) with_interface
            (has_interface row.id) db.equipment (λ e h j. wired_same e (ground arith)) k.wired))

  AllSettled : List EquipmentMaster → Db F → Type 0
  AllSettled [] db = Unit
  AllSettled (row ∷ rest) db = IsSettled row.id db × AllSettled rest db

  ensure_equipments_kept :
      (id : String) (rows : List EquipmentMaster) (db : Db F)
      → IsSettled id db
      → IsSettled id (ensure_equipments rows db)
  unfolding ensure_equipments
  ensure_equipments_kept id [] db k = k
  ensure_equipments_kept id (row ∷ rest) db k =
      ensure_equipments_kept id rest (ensure_equipment row db)
        (IsSettled-ensure_equipment id row db k)

  ensure_equipments-AllSettled :
      (rows : List EquipmentMaster) (db : Db F) → AllSettled rows (ensure_equipments rows db)
  unfolding ensure_equipments AllSettled
  ensure_equipments-AllSettled [] db = tt
  ensure_equipments-AllSettled (row ∷ rest) db = (
    ensure_equipments_kept row.id rest (ensure_equipment row db)
        (ensure_equipment-IsSettled row db),
    ensure_equipments-AllSettled rest (ensure_equipment row db),
  )

  ensure_equipments_same :
      (rows : List EquipmentMaster) (db : Db F)
      → AllSettled rows db
      → ensure_equipments rows db ≡ db
  unfolding ensure_equipments AllSettled
  ensure_equipments_same [] db k = refl
  ensure_equipments_same (row ∷ rest) db (k, ks) =
      rw (ensure_equipment_same row db k) (ensure_equipments_same rest db ks)

  AllRecipes : List (Recipe F) → Db F → Type 0
  AllRecipes [] db = Unit
  AllRecipes (row ∷ rest) db = (is_some (get_recipe row.id db) ≡ true) × AllRecipes rest db

  recipe_kept :
      (id : String) (row : Recipe F) (db : Db F)
      → is_some (get_recipe id db) ≡ true
      → is_some (get_recipe id (ensure_recipe row db)) ≡ true
  unfolding ensure_recipe get_recipe
  recipe_kept id row db k =
      ground (arith, find_first-append (λ (r : Recipe F). r.id == id) db.recipes (row ∷ []))

  recipe_there :
      (row : Recipe F) (db : Db F) → is_some (get_recipe row.id (ensure_recipe row db)) ≡ true
  unfolding ensure_recipe get_recipe find_first
  recipe_there row db =
      ground (arith, find_first-append (λ (r : Recipe F). r.id == row.id) db.recipes (row ∷ []))

  ensure_recipes_kept :
      (id : String) (rows : List (Recipe F)) (db : Db F)
      → is_some (get_recipe id db) ≡ true
      → is_some (get_recipe id (ensure_recipes rows db)) ≡ true
  unfolding ensure_recipes
  ensure_recipes_kept id [] db k = k
  ensure_recipes_kept id (row ∷ rest) db k =
      ensure_recipes_kept id rest (ensure_recipe row db) (recipe_kept id row db k)

  ensure_recipes-AllRecipes :
      (rows : List (Recipe F)) (db : Db F) → AllRecipes rows (ensure_recipes rows db)
  unfolding ensure_recipes AllRecipes
  ensure_recipes-AllRecipes [] db = tt
  ensure_recipes-AllRecipes (row ∷ rest) db = (
    ensure_recipes_kept row.id rest (ensure_recipe row db) (recipe_there row db),
    ensure_recipes-AllRecipes rest (ensure_recipe row db),
  )

  ensure_recipes_same :
      (rows : List (Recipe F)) (db : Db F) → AllRecipes rows db → ensure_recipes rows db ≡ db
  unfolding ensure_recipes AllRecipes ensure_recipe
  ensure_recipes_same [] db k = refl
  ensure_recipes_same (row ∷ rest) db (k, ks) =
      rw (k, ensure_recipe) (ensure_recipes_same rest db ks)

  ensure_equipments_recipes :
      (rows : List EquipmentMaster) (db : Db F) → (ensure_equipments rows db).recipes ≡ db.recipes
  unfolding ensure_equipments ensure_equipment set_equipment
  ensure_equipments_recipes [] db = refl
  ensure_equipments_recipes (row ∷ rest) db =
      ensure_equipments_recipes rest (ensure_equipment row db) ∙ ground arith

  same_recipes :
      (rows : List (Recipe F)) (db db' : Db F)
      → db'.recipes ≡ db.recipes
      → AllRecipes rows db
      → AllRecipes rows db'
  unfolding AllRecipes get_recipe
  same_recipes [] db db' e k = tt
  same_recipes (row ∷ rest) db db' e (k, ks) = (rw e k, same_recipes rest db db' e ks)

  -- Ensuring the masters a second time changes nothing.
  pub ensure_masters-ensure_masters :
      (float : FloatOps F) (db : Db F)
      → ensure_masters float (ensure_masters float db) ≡ ensure_masters float db
  unfolding ensure_masters
  ensure_masters-ensure_masters float db =
      let recipes = ensure_recipes (recipe_masters float) db in
      let all = ensure_equipments equipment_masters recipes in
      rw
        (ensure_recipes_same (recipe_masters float) all (
          same_recipes (recipe_masters float) recipes all
            (ensure_equipments_recipes equipment_masters recipes)
            (ensure_recipes-AllRecipes (recipe_masters float) db)))
        (ensure_equipments_same equipment_masters all
          (ensure_equipments-AllSettled equipment_masters recipes))
