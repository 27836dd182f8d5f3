-- ===== src/Seed.antt =====
-- backend/app/seed.py: the masters and the sample cassettes. The names of recipes and of equipment and
-- the endpoint of an interface are texts for people, and left out.
pub mod Masters
use displayfab_smart_factory.Prelude.{
  ℕ, suc, String, Option, none, some, Bool, true, false, ◌&&◌, ◌||◌, not, List, [], ◌∷◌, ◌++◌, map,
  contains, is_some, any_of, ◌==◌, string_eq, if◌then◌else◌,
}
use displayfab_smart_factory.Enums.{
  ConnectionStatus, EquipmentStatus, InterfaceType, interface_value, LotStatus, PanelStatus,
  ProcessStep, step_value, ProductType, product_value,
}
use displayfab_smart_factory.Models.{Equipment, Recipe, Lot, Panel, Db}
use displayfab_smart_factory.Models.Tables.{get_equipment, get_recipe, set_equipment}
use displayfab_smart_factory.Env.{FloatOps}

-- a row of `EQUIPMENT`
pub record EquipmentMaster : Type 0 where
  pub id : String
  pub process_step : String
  pub product_scope : Option String

-- a row of `LOTS`
pub record SampleLot : Type 0 where
  pub id : String
  pub cassette_id : String
  pub product_type : String
  pub expected_recipe_id : String
  pub panels : List String

abbrev oled : Option String
oled = some (product_value ProductType.oled)

abbrev lcd : Option String
lcd = some (product_value ProductType.lcd)

abbrev pub equipment_masters : List EquipmentMaster
equipment_masters =
    record { id = "LOAD-01"; process_step = step_value ProcessStep.load; product_scope = none }
    ∷ record { id = "CLEAN-01"; process_step = step_value ProcessStep.clean; product_scope = oled }
    ∷ record { id = "PROC-01"; process_step = step_value ProcessStep.evap; product_scope = oled }
    ∷ record { id = "PROC-02"; process_step = step_value ProcessStep.evap; product_scope = oled }
    ∷ record { id = "ENC-01"; process_step = step_value ProcessStep.encap; product_scope = oled }
    ∷ record { id = "PI-01"; process_step = step_value ProcessStep.pi; product_scope = lcd }
    ∷ record { id = "LCD-01"; process_step = step_value ProcessStep.lcd_cell; product_scope = lcd }
    ∷ record {
      id = "INSPECT-01";
      process_step = step_value ProcessStep.inspect;
      product_scope = none;
    }
    ∷ []

abbrev pub sample_lots : List SampleLot
sample_lots =
    record {
      id = "LOT-20260918-001";
      cassette_id = "CST-OLED-001";
      product_type = product_value ProductType.oled;
      expected_recipe_id = "RCP-OLED-A01";
      panels = "PNL-00001" ∷ "PNL-00002" ∷ "PNL-00003" ∷ "PNL-00004" ∷ "PNL-00005" ∷ [];
    }
    ∷ record {
      id = "LOT-20260918-002";
      cassette_id = "CST-OLED-002";
      product_type = product_value ProductType.oled;
      expected_recipe_id = "RCP-OLED-A01";
      panels = "PNL-00006" ∷ "PNL-00007" ∷ "PNL-00008" ∷ "PNL-00009" ∷ "PNL-00010" ∷ [];
    }
    ∷ record {
      id = "LOT-20260918-003";
      cassette_id = "CST-LCD-003";
      product_type = product_value ProductType.lcd;
      expected_recipe_id = "RCP-LCD-C01";
      panels = "PNL-00011" ∷ "PNL-00012" ∷ "PNL-00013" ∷ "PNL-00014" ∷ "PNL-00015" ∷ [];
    }
    ∷ []

abbrev pub new_equipment : EquipmentMaster → Equipment
new_equipment row = record {
  id = row.id;
  process_step = row.process_step;
  product_scope = row.product_scope;
  equipment_status = EquipmentStatus.idle;
  connection_status = ConnectionStatus.offline;
  current_lot_id = none;
  current_recipe_id = none;
  last_seen_at = none;
  interface_type = interface_value InterfaceType.simulator;
}

-- an interface that is not given becomes the simulator's
abbrev pub with_interface : Equipment → Equipment
with_interface eq = record eq {
  interface_type =
      if eq.interface_type == ""
      then interface_value InterfaceType.simulator
      else eq.interface_type;
}

abbrev pub sample_lot : SampleLot → Lot
sample_lot row = record {
  id = row.id;
  cassette_id = row.cassette_id;
  product_type = row.product_type;
  expected_recipe_id = row.expected_recipe_id;
  status = LotStatus.wait;
  current_equipment_id = none;
  current_step = none;
  hold_reason = none;
}

-- `enumerate(lot_row["panels"], start=1)`
unfoldable pub sample_panels : String → ℕ → List String → List Panel
sample_panels lot_id slot [] = []
sample_panels lot_id slot (id ∷ rest) =
    record { id = id; lot_id = lot_id; slot_no = slot; status = PanelStatus.wait }
    ∷ sample_panels lot_id (suc slot) rest

unfoldable pub all_sample_panels : List SampleLot → List Panel
all_sample_panels [] = []
all_sample_panels (row ∷ rest) = sample_panels row.id 1 row.panels ++ all_sample_panels rest

-- a key of the rows is one of the table already: the insertion raises
unfoldable pub clashes : List String → List String → Bool
clashes old [] = false
clashes old (id ∷ rest) = contains old id || clashes old rest

module _ {F : Type 0} where
  abbrev pub recipe_masters : FloatOps F → List (Recipe F)
  recipe_masters float =
      record {
        id = "RCP-OLED-A01";
        product_type = product_value ProductType.oled;
        expected_temperature_min = float.literal 1100 1;
        expected_temperature_max = float.literal 1300 1;
        expected_pressure_min = float.literal 3 3;
        expected_pressure_max = float.literal 8 3;
      }
      ∷ record {
        id = "RCP-OLED-B01";
        product_type = product_value ProductType.oled;
        expected_temperature_min = float.literal 1400 1;
        expected_temperature_max = float.literal 1600 1;
        expected_pressure_min = float.literal 2 3;
        expected_pressure_max = float.literal 6 3;
      }
      ∷ record {
        id = "RCP-LCD-C01";
        product_type = product_value ProductType.lcd;
        expected_temperature_min = float.literal 800 1;
        expected_temperature_max = float.literal 950 1;
        expected_pressure_min = float.literal 8 1;
        expected_pressure_max = float.literal 12 1;
      }
      ∷ []

  unfoldable pub ensure_recipe : Recipe F → Db F → Db F
  ensure_recipe row db =
      if is_some (get_recipe row.id db) then db else record db { recipes = db.recipes ++ row ∷ [] }

  unfoldable pub ensure_equipment : EquipmentMaster → Db F → Db F
  ensure_equipment row db =
      if is_some (get_equipment row.id db)
      then set_equipment row.id with_interface db
      else record db { equipment = db.equipment ++ new_equipment row ∷ [] }

  unfoldable pub ensure_recipes : List (Recipe F) → Db F → Db F
  ensure_recipes [] db = db
  ensure_recipes (row ∷ rest) db = ensure_recipes rest (ensure_recipe row db)

  unfoldable pub ensure_equipments : List EquipmentMaster → Db F → Db F
  ensure_equipments [] db = db
  ensure_equipments (row ∷ rest) db = ensure_equipments rest (ensure_equipment row db)

  unfoldable pub ensure_masters : FloatOps F → Db F → Db F
  ensure_masters float db =
      ensure_equipments equipment_masters (ensure_recipes (recipe_masters float) db)

  -- `none` where a key is taken, and the commit raises
  unfoldable pub seed_sample_lots : Db F → Option (Db F)
  seed_sample_lots db =
      if clashes (map (λ (l : Lot). l.id) db.lots) (map (λ (l : SampleLot). l.id) sample_lots)
        || clashes (map (λ (p : Panel). p.id) db.panels)
            (map (λ (p : Panel). p.id) (all_sample_panels sample_lots))
      then none
      else some (record db {
        lots = db.lots ++ map sample_lot sample_lots;
        panels = db.panels ++ all_sample_panels sample_lots;
      })

  unfoldable pub seed_if_empty : FloatOps F → Db F → Option (Db F)
  seed_if_empty float db = elim db.equipment [
    | [] ↦ seed_sample_lots (ensure_masters float db)
    | _ ∷ _ ↦ some (ensure_masters float db)
  ]
