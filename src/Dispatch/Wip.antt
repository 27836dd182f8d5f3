-- ===== src/Dispatch/Wip.antt =====
-- backend/app/services/dispatch.py: `line_wip`, the glass of the line by its next step. `text_le` is the
-- order of texts in the database.
use displayfab_smart_factory.Prelude.{
  ℕ, suc, ◌+◌, String, Option, none, Bool, ◌||◌, List, [], ◌∷◌, ◌++◌, ◌≡◌, refl, arith, length,
  select, truthy, get_or, is_some, insert_by, sort_by, ◌==◌, string_eq, if◌then◌else◌,
}
use displayfab_smart_factory.Enums.{LotStatus, PanelStatus, panel_status_eq}
use displayfab_smart_factory.Models.{Lot, Panel, Db}
use displayfab_smart_factory.Dispatch.{DispatchOut, by_slot, insert_slot, panel_dispatch}

pub record CassetteRow : Type 0 where
  pub lot_id : String
  pub cassette_id : String
  pub product_type : String
  pub status : LotStatus
  pub at_equipment_id : Option String
  pub next_step : Option String

pub record Wip : Type 0 where
  pub by_step : List (String × ℕ)
  pub complete : ℕ
  pub fail : ℕ
  pub scrap : ℕ
  pub cassettes : List CassetteRow

-- `dict.fromkeys(OLED_ROUTE + LCD_ROUTE)`, each with 0
abbrev pub no_wip : Wip
no_wip = record {
  by_step =
      ("LOAD", 0)
      ∷ ("CLEAN", 0)
      ∷ ("EVAP", 0)
      ∷ ("ENCAP", 0)
      ∷ ("INSPECT", 0)
      ∷ ("PI", 0)
      ∷ ("LCD_CELL", 0)
      ∷ [];
  complete = 0;
  fail = 0;
  scrap = 0;
  cassettes = [];
}

-- `by_step[step] = by_step.get(step, 0) + 1`
unfoldable pub count_step : String → List (String × ℕ) → List (String × ℕ)
count_step step [] = (step, 1) ∷ []
count_step step ((k, n) ∷ rest) =
    let later = count_step step rest in if k == step then (k, suc n) ∷ rest else (k, n) ∷ later

-- `lot_next` and `lot_eq` of the loop over the glass of a lot
pub record Ahead : Type 0 where
  pub step : Option String
  pub equipment : Option String

abbrev count_panel : Panel → DispatchOut → Wip → Wip
count_panel p info w =
    if p.status == PanelStatus.scrap
    then record w { scrap = suc w.scrap }
    else if p.status == PanelStatus.fail
    then record w { fail = suc w.fail }
    else if info.done
    then record w { complete = suc w.complete }
    else record w { by_step = count_step (get_or info.next_step "") w.by_step }

-- the first glass with a step ahead gives the lot its next step
abbrev look_ahead : Panel → DispatchOut → Ahead → Ahead
look_ahead p info a =
    if p.status == PanelStatus.scrap || p.status == PanelStatus.fail
    then a
    else if info.done || is_some a.step
    then a
    else record {
      step = info.next_step;
      equipment =
          if truthy info.next_equipment_id then info.next_equipment_id else info.at_equipment_id;
    }

module _ {F : Type 0} where
  unfoldable pub count_panels : Lot → Db F → List Panel → Wip × Ahead → Wip × Ahead
  count_panels lot db [] (w, a) = (w, a)
  count_panels lot db (p ∷ rest) (w, a) =
      let info = panel_dispatch lot p db in
      count_panels lot db rest (count_panel p info w, look_ahead p info a)

  unfoldable pub count_lot : Lot → Db F → Wip → Wip
  count_lot lot db w =
      let (w', a) =
        count_panels lot db (by_slot (select (λ p. p.lot_id == lot.id) db.panels))
          (w, record { step = none; equipment = lot.current_equipment_id }) in
      record w' {
        cassettes =
            w'.cassettes
            ++ record {
              lot_id = lot.id;
              cassette_id = lot.cassette_id;
              product_type = lot.product_type;
              status = lot.status;
              at_equipment_id = a.equipment;
              next_step = a.step;
            }
              ∷ [];
      }

  unfoldable pub count_lots : Db F → List Lot → Wip → Wip
  count_lots db [] w = w
  count_lots db (lot ∷ rest) w = count_lots db rest (count_lot lot db w)

  unfoldable pub line_wip : (String → String → Bool) → Db F → Wip
  unfolding count_lots
  line_wip text_le db = count_lots db (sort_by (λ a b. text_le a.id b.id) db.lots) no_wip

-- all glass that is counted
unfoldable pub sum_steps : List (String × ℕ) → ℕ
sum_steps [] = 0
sum_steps ((k, n) ∷ rest) = n + sum_steps rest

abbrev pub counted : Wip → ℕ
counted w = sum_steps w.by_step + w.complete + w.fail + w.scrap

sum_steps-count_step :
    (step : String) (rows : List (String × ℕ))
    → sum_steps (count_step step rows) ≡ suc (sum_steps rows)
unfolding sum_steps count_step
sum_steps-count_step step [] = omega arith
sum_steps-count_step step ((k, n) ∷ rest) = ground (arith, sum_steps-count_step step rest)

length-insert_slot : (p : Panel) (ps : List Panel) → length (insert_slot p ps) ≡ suc (length ps)
unfolding insert_slot
length-insert_slot p [] = refl
length-insert_slot p (q ∷ ps) = ground (arith, length-insert_slot p ps)

length-by_slot : (ps : List Panel) → length (by_slot ps) ≡ length ps
unfolding by_slot
length-by_slot [] = refl
length-by_slot (p ∷ ps) = omega (arith, length-insert_slot p (by_slot ps), length-by_slot ps)

counted-count_panel :
    (p : Panel) (info : DispatchOut) (w : Wip) → counted (count_panel p info w) ≡ suc (counted w)
counted-count_panel p info w =
    ground (arith, sum_steps-count_step (get_or info.next_step "") w.by_step)

module _ {F : Type 0} (db : Db F) where
  counted-count_panels :
      (lot : Lot) (ps : List Panel) (w : Wip) (a : Ahead)
      → counted (count_panels lot db ps (w, a)).0 ≡ counted w + length ps
  unfolding count_panels
  counted-count_panels lot [] w a = omega arith
  counted-count_panels lot (p ∷ ps) w a =
      let info = panel_dispatch lot p db in
      omega (
        arith,
        counted-count_panel p info w,
        counted-count_panels lot ps (count_panel p info w) (look_ahead p info a),
      )

  -- the glass of the lots, lot by lot
  unfoldable pub glass_of : List Lot → ℕ
  glass_of [] = 0
  glass_of (lot ∷ rest) = length (select (λ p. p.lot_id == lot.id) db.panels) + glass_of rest

  counted-count_lots :
      (lots : List Lot) (w : Wip) → counted (count_lots db lots w) ≡ counted w + glass_of lots
  unfolding count_lots count_lot glass_of
  counted-count_lots [] w = omega arith
  counted-count_lots (lot ∷ rest) w =
      let mine = select (λ p. p.lot_id == lot.id) db.panels in
      omega (
        arith,
        counted-count_panels lot (by_slot mine) w
            (record { step = none; equipment = lot.current_equipment_id }),
        length-by_slot mine,
        counted-count_lots rest (count_lot lot db w),
      )

  glass_of-insert_by :
      (le : Lot → Lot → Bool) (l : Lot) (ls : List Lot)
      → glass_of (insert_by le l ls) ≡ glass_of (l ∷ ls)
  unfolding glass_of insert_by
  glass_of-insert_by le l [] = refl
  glass_of-insert_by le l (m ∷ ls) = ground (arith, glass_of-insert_by le l ls)

  glass_of-sort_by :
      (le : Lot → Lot → Bool) (ls : List Lot) → glass_of (sort_by le ls) ≡ glass_of ls
  unfolding glass_of sort_by
  glass_of-sort_by le [] = refl
  glass_of-sort_by le (l ∷ ls) =
      ground (arith, glass_of-insert_by le l (sort_by le ls), glass_of-sort_by le ls)

  -- The work in process loses no glass: what is counted by next step, as complete, as failed and as
  -- scrapped adds up to the glass of the lots, in whatever order they are looked at.
  pub line_wip-glass_of :
      (text_le : String → String → Bool) → counted (line_wip text_le db) ≡ glass_of db.lots
  unfolding line_wip sum_steps
  line_wip-glass_of text_le = omega (
    arith,
    counted-count_lots (sort_by (λ a b. text_le a.id b.id) db.lots) no_wip,
    glass_of-sort_by (λ a b. text_le a.id b.id) db.lots,
  )
