-- ===== src/Dispatch/Progress.antt =====
-- The equipment that the dispatch names, against the tables of rules.py.
use displayfab_smart_factory.Prelude.{
  ℕ, zero, suc, String, Option, none, some, true, List, [], ◌∷◌, ◌≡◌, ◌≢◌, refl, subst, sym, ◌∙◌,
  inl, inr, arith, contains, lookup, get_or, select, truthy, get_elem?, Option-cases, Bool-cases,
  ◌==◌, string_eq, String-discrete,
}
use displayfab_smart_factory.Enums.{PanelStatus, ProductType, product_value, panel_status_eq}
use displayfab_smart_factory.Rules.{
  equipment_ids_for_step, equipment_step, equipment_product, alias, next_operation, next_position,
  operation_at, route_for, oled_route, lcd_route, last_given,
}
use displayfab_smart_factory.Rules.Equipments.{scope_admits, Fits}
use displayfab_smart_factory.Models.{Lot, Panel, Db}
use displayfab_smart_factory.Validation.Guards.{last_step}
use displayfab_smart_factory.Dispatch.{
  least, known_rows, pick_equipment, picked, course, panel_dispatch,
}
use displayfab_smart_factory.Dispatch.Choice.{least-known}

-- each equipment of a list does the step and takes the product
AllFit : String → String → List String → Type 0
AllFit p step [] = Unit
AllFit p step (id ∷ rest) = Fits p step id × AllFit p step rest

AllFit-contains :
    (p step id : String) (ids : List String)
    → AllFit p step ids
    → contains ids id ≡ true
    → Fits p step id
unfolding AllFit contains
AllFit-contains p step id [] h c = absurd (cc)
AllFit-contains p step id (k ∷ rest) (h, hs) c = elim (Bool-cases (k == id)) [
  | inl t ↦ (let same : k ≡ id = ground arith in subst (Fits p step) same h)
  | inr f ↦ AllFit-contains p step id rest hs (ground arith)
]

abbrev Served : String → String → Type 0
Served p step =
    (truthy (some step) ≡ true)
    × ((id : String) × (get_elem? (equipment_ids_for_step (some step)) 0 ≡ some id)
        × (contains (equipment_ids_for_step (some step)) id ≡ true))
    × AllFit p step (equipment_ids_for_step (some step))

fits :
    {p step id : String}
    → lookup id equipment_step ≡ some step
    → scope_admits (get_or (lookup id equipment_product) none) p ≡ true
    → Fits p step id
fits a b = record { does_step = a; takes_product = b }

as-Served : (p k step : String) → Served p k → some k ≡ some step → Served p step
as-Served p k step served h = let same : k ≡ step = cc in subst (Served p) same served

oled-Served : (i : ℕ) (step : String) → get_elem? oled_route i ≡ some step → Served "OLED" step
unfolding AllFit contains equipment_ids_for_step alias lookup select String-discrete
oled-Served zero s h =
    as-Served "OLED" "LOAD" s (refl, ("LOAD-01", refl, refl), (fits refl refl, tt)) h
oled-Served (suc zero) s h =
    as-Served "OLED" "CLEAN" s (refl, ("CLEAN-01", refl, refl), (fits refl refl, tt)) h
oled-Served (suc (suc zero)) s h =
    as-Served "OLED" "EVAP" s
      (refl, ("PROC-01", refl, refl), (fits refl refl, (fits refl refl, tt))) h
oled-Served (suc (suc (suc zero))) s h =
    as-Served "OLED" "ENCAP" s (refl, ("ENC-01", refl, refl), (fits refl refl, tt)) h
oled-Served (suc (suc (suc (suc zero)))) s h =
    as-Served "OLED" "INSPECT" s (refl, ("INSPECT-01", refl, refl), (fits refl refl, tt)) h
oled-Served (suc (suc (suc (suc (suc i))))) s h = absurd (cc)

lcd-Served : (i : ℕ) (step : String) → get_elem? lcd_route i ≡ some step → Served "LCD" step
unfolding AllFit contains equipment_ids_for_step alias lookup select String-discrete
lcd-Served zero s h =
    as-Served "LCD" "LOAD" s (refl, ("LOAD-01", refl, refl), (fits refl refl, tt)) h
lcd-Served (suc zero) s h =
    as-Served "LCD" "PI" s (refl, ("PI-01", refl, refl), (fits refl refl, tt)) h
lcd-Served (suc (suc zero)) s h =
    as-Served "LCD" "LCD_CELL" s (refl, ("LCD-01", refl, refl), (fits refl refl, tt)) h
lcd-Served (suc (suc (suc zero))) s h =
    as-Served "LCD" "INSPECT" s (refl, ("INSPECT-01", refl, refl), (fits refl refl, tt)) h
lcd-Served (suc (suc (suc (suc i)))) s h = absurd (cc)

next_operation-Served :
    (t : ProductType) (last : Option String) (step : String)
    → (next_operation (product_value t) last).0 ≡ some step
    → Served (product_value t) step
unfolding next_operation operation_at route_for String-discrete
next_operation-Served ProductType.oled last =
    oled-Served (next_position oled_route (last_given last))
next_operation-Served ProductType.lcd last = lcd-Served (next_position lcd_route (last_given last))

-- an equipment of the tables has a name that is not empty
Fits-truthy : (p step id : String) → Fits p step id → truthy (some id) ≡ true
unfolding lookup String-discrete
Fits-truthy p step id f = elim (Bool-cases (truthy (some id))) [
  | inl t ↦ t
  | inr e ↦
      let empty : id ≡ "" = ground arith in
      let none_does : none ≡ some step =
        subst (λ k. lookup k equipment_step ≡ some step) empty f.does_step in
      absurd (cc)
]

module _ {F : Type 0} (lot : Lot) (panel : Panel) (db : Db F) where
  -- what is picked is listed for the step
  pick_equipment-contains :
      (step : String) (p : String)
      → Served p step
      → (id : String) × (pick_equipment (some step) db ≡ some id) × Fits p step id
  unfolding pick_equipment
  pick_equipment-contains step p (given, (first, h, listed), all) =
      elim (Option-cases (least (known_rows (equipment_ids_for_step (some step)) db))) [
        | inl n ↦ (first, ground arith, AllFit-contains p step first _ all listed)
        | inr (eq, n) ↦ (
          eq.id,
          ground arith,
          AllFit-contains p step eq.id _ all
              (least-known db (equipment_ids_for_step (some step)) eq n).1,
        )
      ]

  panel_dispatch-picked :
      (step : String)
      → panel.status ≢ PanelStatus.fail
      → (panel_dispatch lot panel db).next_step ≡ some step
      → ((next_operation lot.product_type (last_step panel.id db)).0 ≡ some step)
        × ((panel_dispatch lot panel db).next_equipment_id
            ≡ picked (next_operation lot.product_type (last_step panel.id db)) db)
  unfolding panel_dispatch course
  panel_dispatch-picked step n h = (ground arith, ground arith)

  picked-some :
      (p step id : String) (next : Option String × Option String)
      → next.0 ≡ some step
      → truthy (some step) ≡ true
      → pick_equipment (some step) db ≡ some id
      → Fits p step id
      → picked next db ≡ some id
  unfolding picked
  picked-some p step id (o, e) h t k f =
      let full = Fits-truthy p step id f in rw (h, k) (ground arith)

  -- Wherever the dispatch sends a glass that has not failed an inspection, it names an equipment,
  -- which the tables list for that step and which takes the product of the lot.
  pub panel_dispatch-Fits :
      (t : ProductType) (step : String)
      → lot.product_type ≡ product_value t
      → panel.status ≢ PanelStatus.fail
      → (panel_dispatch lot panel db).next_step ≡ some step
      → (id : String) × ((panel_dispatch lot panel db).next_equipment_id ≡ some id)
        × Fits lot.product_type step id
  panel_dispatch-Fits t step product n h =
      let (named, goes) = panel_dispatch-picked step n h in
      let served = next_operation-Served t (last_step panel.id db) step (rw (← product) named) in
      let (id, k, f) = pick_equipment-contains step (product_value t) served in
      let fit = subst (λ p. Fits p step id) (sym product) f in
      (id, goes ∙ picked-some lot.product_type step id _ named served.0 k fit, fit)
