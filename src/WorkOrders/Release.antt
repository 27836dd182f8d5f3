-- ===== src/WorkOrders/Release.antt =====
-- What a released order brings: a lot and its glass, all new.
use displayfab_smart_factory.Prelude.{
  ℕ, zero, suc, ◌<◌, String, Option, some, false, List, [], ◌∷◌, ◌++◌, ◌≡◌, refl, ap, subst, arith,
  map, length, contains, get_or, truthy, Option-cases, Bool-cases, inl, inr, ◌||◌, ◌==◌, string_eq,
  if◌then◌else◌,
}
use displayfab_smart_factory.Enums.{LotStatus, PanelStatus, ProductType, product_value}
use displayfab_smart_factory.Models.{Lot, Panel, WorkOrder, Db}
use displayfab_smart_factory.Models.Tables.{get_recipe}
use displayfab_smart_factory.Env.{Env}
use displayfab_smart_factory.WorkOrders.{
  highest, next_seq, new_panels, Created, created, refused, default_recipe, release,
  create_and_release,
}
use displayfab_smart_factory.WorkOrders.Numbers.{next_seq-unused, padded-unused}

-- each glass waits in the lot, and its id is none of the old ones
abbrev pub AllNew : List String → String → List Panel → Type 0
AllNew old lot_id [] = Unit
AllNew old lot_id (p ∷ rest) =
    (p.lot_id ≡ lot_id)
    × (p.status ≡ PanelStatus.wait)
    × (contains old p.id ≡ false)
    × AllNew old lot_id rest

new_panels-AllNew :
    (old : List String) (lot_id : String) (n slot qty : ℕ)
    → highest "PNL-" old < n
    → AllNew old lot_id (new_panels lot_id n slot qty)
unfolding new_panels
new_panels-AllNew old lot_id n slot zero h = tt
new_panels-AllNew old lot_id n slot (suc qty) h = (
  refl,
  refl,
  padded-unused old "PNL-" n 5 h,
  new_panels-AllNew old lot_id (suc n) (suc slot) qty (omega arith),
)

length-new_panels : (lot_id : String) (n slot qty : ℕ) → length (new_panels lot_id n slot qty) ≡ qty
unfolding new_panels
length-new_panels lot_id n slot zero = refl
length-new_panels lot_id n slot (suc qty) = ap suc (length-new_panels lot_id (suc n) (suc slot) qty)

module _ {F : Type 0} where
  -- the rows that a released order adds to the database
  pub record Released (qty : ℕ) (order : WorkOrder) (panels : List Panel) (db db' : Db F)
      : Type 0 where
    pub lot : Lot
    pub order_lot : order.lot_id ≡ some lot.id
    pub lots : db'.lots ≡ db.lots ++ lot ∷ []
    pub orders : db'.work_orders ≡ db.work_orders ++ order ∷ []
    pub glass : db'.panels ≡ db.panels ++ panels
    pub waits : lot.status ≡ LotStatus.wait
    pub events : db'.process_events ≡ db.process_events
    pub new_lot : contains (map (λ (l : Lot). l.id) db.lots) lot.id ≡ false
    pub new_order : contains (map (λ (w : WorkOrder). w.id) db.work_orders) order.id ≡ false
    pub new_glass : AllNew (map (λ (p : Panel). p.id) db.panels) lot.id panels
    pub quantity : length panels ≡ qty

  module _ (env : Env F) where
    release-Released :
        (product recipe_id : String) (qty : ℕ) (db : Db F)
        → Released qty
            (release env product recipe_id qty db).0.0
            (release env product recipe_id qty db).0.1
            db
            (release env product recipe_id qty db).1
    unfolding release next_seq
    release-Released product recipe_id qty db = record {
      lot = _;
      order_lot = refl;
      lots = refl;
      orders = refl;
      glass = refl;
      waits = refl;
      events = refl;
      new_lot = next_seq-unused _ _ 3;
      new_order = next_seq-unused _ _ 3;
      new_glass = new_panels-AllNew _ _ _ 1 qty (omega arith);
      quantity = length-new_panels _ _ 1 qty;
    }

    abbrev pub IfCreated : ℕ → Db F → Created ((WorkOrder × List Panel) × Db F) → Type 0
    IfCreated qty db (refused e) = Unit
    IfCreated qty db (created ((order, panels), db')) = Released qty order panels db db'

    chosen : String → Option String → String
    chosen product recipe_id =
        if truthy recipe_id then get_or recipe_id "" else default_recipe product

    pub answer-Released :
        (product_type : String) (recipe_id : Option String) (qty : ℕ) (db : Db F)
        → IfCreated qty db (create_and_release env product_type recipe_id qty db)
    unfolding create_and_release chosen
    answer-Released product_type recipe_id qty db =
        let product = env.upper product_type in
        elim (Bool-cases
          (product == product_value ProductType.oled || product == product_value ProductType.lcd)) [
            | inr f ↦ rw f tt
            | inl t ↦ rw t (elim (Option-cases (get_recipe (chosen product recipe_id) db)) [
              | inl n ↦ rw n tt
              | inr (recipe, n) ↦ rw n (elim (Bool-cases (recipe.product_type == product)) [
                | inl same ↦ rw same (release-Released product (chosen product recipe_id) qty db)
                | inr other ↦ rw other tt
              ])
            ])
          ]

    -- An order that is created has a lot of its own and as many glasses as were asked for. The rows
    -- stand behind those of the database, and their ids were in no row of their tables.
    pub create_and_release-Released :
        (product_type : String) (recipe_id : Option String) (qty : ℕ) (db : Db F)
        (order : WorkOrder) (panels : List Panel) (db' : Db F)
        → create_and_release env product_type recipe_id qty db ≡ created ((order, panels), db')
        → Released qty order panels db db'
    unfolding create_and_release
    create_and_release-Released product_type recipe_id qty db order panels db' h =
        subst (IfCreated qty db) h (answer-Released product_type recipe_id qty db)
