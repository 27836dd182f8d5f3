-- ===== src/Dispatch.antt =====
-- backend/app/services/dispatch.py: where a glass and a lot go next. Its `last_step` is the one of
-- validation.py.
pub mod Choice
pub mod Next
pub mod Wip
pub mod Progress
use displayfab_smart_factory.Prelude.{
  ℕ, String, Option, none, some, Bool, true, false, ◌||◌, List, [], ◌∷◌, leb, select, truthy,
  get_or, is_some, get_elem?, ◌==◌, string_eq, if◌then◌else◌,
}
use displayfab_smart_factory.Enums.{
  ConnectionStatus, EquipmentStatus, LotStatus, PanelStatus, ProcessStep, step_value,
  connection_status_eq, equipment_status_eq, panel_status_eq,
}
use displayfab_smart_factory.Rules.{equipment_ids_for_step, next_operation}
use displayfab_smart_factory.Models.{Equipment, Lot, Panel, Db}
use displayfab_smart_factory.Models.Tables.{get_equipment}
use displayfab_smart_factory.Validation.Guards.{last_step}

unfoldable pub score : Equipment → ℕ
score eq =
    if eq.equipment_status == EquipmentStatus.maintenance
    then 50
    else if eq.equipment_status == EquipmentStatus.stop
    then 40
    else if eq.connection_status == ConnectionStatus.offline
    then 30
    else if truthy eq.current_lot_id
    then 20
    else if eq.equipment_status == EquipmentStatus.run
    then 10
    else 0

-- the head of `rows` after `rows.sort(key=score)`, which is stable
unfoldable pub least : List Equipment → Option Equipment
least [] = none
least (eq ∷ rest) = elim (least rest) [
  | none ↦ some eq
  | some other ↦ if leb (score eq) (score other) then some eq else some other
]

-- `order_by(Panel.slot_no.asc())`
unfoldable pub insert_slot : Panel → List Panel → List Panel
insert_slot p [] = p ∷ []
insert_slot p (q ∷ rest) =
    let later = insert_slot p rest in if leb p.slot_no q.slot_no then p ∷ q ∷ rest else q ∷ later

unfoldable pub by_slot : List Panel → List Panel
unfolding insert_slot
by_slot [] = []
by_slot (p ∷ rest) = insert_slot p (by_slot rest)

unfoldable pub last_panel : List Panel → Option Panel
last_panel [] = none
last_panel (p ∷ rest) = elim (last_panel rest) [ none ↦ some p | some q ↦ some q ]

pub record DispatchOut : Type 0 where
  pub panel_id : String
  pub lot_id : String
  pub cassette_id : String
  pub product_type : String
  pub recipe_id : String
  pub lot_status : LotStatus
  pub panel_status : PanelStatus
  pub last_step : Option String
  pub next_step : Option String
  pub next_equipment_id : Option String
  pub at_equipment_id : Option String
  pub done : Bool

-- `nxt_step`, `nxt_eq` and `done` after the branches on the glass's status
pub record Course : Type 0 where
  pub step : Option String
  pub equipment_id : Option String
  pub done : Bool

abbrev pub is_passed_over : Panel → Bool
is_passed_over p = p.status == PanelStatus.fail || p.status == PanelStatus.scrap

module _ {F : Type 0} where
  unfoldable pub known_rows : List String → Db F → List Equipment
  known_rows [] db = []
  known_rows (id ∷ rest) db = elim (get_equipment id db) [
    | none ↦ known_rows rest db
    | some eq ↦ eq ∷ known_rows rest db
  ]

  unfoldable pub pick_equipment : Option String → Db F → Option String
  pick_equipment step db =
      let ids = equipment_ids_for_step step in
      elim (least (known_rows ids db)) [ none ↦ get_elem? ids 0 | some eq ↦ some eq.id ]

  -- `if nxt_step: nxt_eq = pick_equipment(db, nxt_step) or nxt_eq`
  unfoldable pub picked : Option String × Option String → Db F → Option String
  unfolding pick_equipment
  picked (step, equipment_id) db =
      let choice = pick_equipment step db in
      if truthy step then (if truthy choice then choice else equipment_id) else equipment_id

  unfoldable pub course : Lot → Panel → Db F → Course
  unfolding picked
  course lot panel db =
      let next = next_operation lot.product_type (last_step panel.id db) in
      if panel.status == PanelStatus.scrap || panel.status == PanelStatus.complete
      then record { step = none; equipment_id = none; done = true }
      else if panel.status == PanelStatus.fail
      then record {
        step = some (step_value ProcessStep.inspect);
        equipment_id = some "INSPECT-01";
        done = false;
      }
      else record {
        step = next.0;
        equipment_id = picked next db;
        done = elim next.0 [ none ↦ true | some step ↦ false ];
      }

  unfoldable pub panel_dispatch : Lot → Panel → Db F → DispatchOut
  panel_dispatch lot panel db =
      let last = last_step panel.id db in
      let c = course lot panel db in
      record {
        panel_id = panel.id;
        lot_id = lot.id;
        cassette_id = lot.cassette_id;
        product_type = lot.product_type;
        recipe_id = lot.expected_recipe_id;
        lot_status = lot.status;
        panel_status = panel.status;
        last_step = last;
        next_step = if c.done then none else c.step;
        next_equipment_id = if c.done then none else c.equipment_id;
        at_equipment_id = if truthy last then lot.current_equipment_id else c.equipment_id;
        done = c.done;
      }

  -- the loop of `lot_dispatch`: the first glass that is neither passed over nor done
  unfoldable pub first_waiting : Lot → List Panel → Db F → Option DispatchOut
  first_waiting lot [] db = none
  first_waiting lot (p ∷ rest) db =
      let later = first_waiting lot rest db in
      let info = panel_dispatch lot p db in
      if is_passed_over p then later else if info.done then later else some info

  unfoldable pub lot_dispatch : Lot → Db F → Option DispatchOut
  unfolding first_waiting
  lot_dispatch lot db =
      let panels = by_slot (select (λ p. p.lot_id == lot.id) db.panels) in
      elim (first_waiting lot panels db) [
        | some info ↦ some info
        | none ↦ elim (last_panel panels) [ none ↦ none | some p ↦ some (panel_dispatch lot p db) ]
      ]
