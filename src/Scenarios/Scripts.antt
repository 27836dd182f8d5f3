-- ===== src/Scenarios/Scripts.antt =====
-- The scripts of the scenarios on one glass, and of the recipe that does not match.
use displayfab_smart_factory.Prelude.{String, Option, none, some, List, [], ◌∷◌, lookup}
use displayfab_smart_factory.Env.{FloatOps}

-- the arguments of a `_process` that are the scenario's own
pub record Step (F : Type 0) : Type 0 where
  pub equipment_id : String
  pub process_step : String
  pub recipe_id : String
  pub chamber_temperature : F
  pub vacuum_pressure : F
  pub cycle_time_sec : Option F
  pub inspect_result : Option String

pub data Task (F : Type 0) : Type 0 where
  report : Step F → Task F
  pick_recipe : String → String → Task F

pub record Script (F : Type 0) : Type 0 where
  pub lot_id : String
  pub tasks : List (Task F)

module _ {F : Type 0} (float : FloatOps F) where
  -- a step at the conditions of the OLED recipe, and one at those of the LCD recipe
  abbrev pub oled_step : String → String → String → Option F → Option String → Task F
  oled_step equipment_id step recipe_id cycle inspect = report (record {
    equipment_id = equipment_id;
    process_step = step;
    recipe_id = recipe_id;
    chamber_temperature = float.literal 1184 1;
    vacuum_pressure = float.literal 41 4;
    cycle_time_sec = cycle;
    inspect_result = inspect;
  })

  abbrev pub lcd_step : String → String → Option F → Option String → Task F
  lcd_step equipment_id step cycle inspect = report (record {
    equipment_id = equipment_id;
    process_step = step;
    recipe_id = "RCP-LCD-C01";
    chamber_temperature = float.literal 880 1;
    vacuum_pressure = float.literal 10 1;
    cycle_time_sec = cycle;
    inspect_result = inspect;
  })

  -- a whole OLED route, with the result of its inspection
  abbrev pub oled_run : String → List (Task F)
  oled_run inspect =
      oled_step "LOAD-01" "LOAD" "RCP-OLED-A01" none none
      ∷ oled_step "CLEAN-01" "CLEAN" "RCP-OLED-A01" (some (float.literal 180 1)) none
      ∷ oled_step "PROC-01" "EVAP" "RCP-OLED-A01" (some (float.literal 460 1)) none
      ∷ oled_step "ENC-01" "ENCAP" "RCP-OLED-A01" (some (float.literal 300 1)) none
      ∷ oled_step "INSPECT-01" "INSPECT" "RCP-OLED-A01" (some (float.literal 120 1)) (some inspect)
      ∷ []

  abbrev pub lcd_run : List (Task F)
  lcd_run =
      lcd_step "LOAD-01" "LOAD" none none
      ∷ lcd_step "PI-01" "PI" (some (float.literal 220 1)) none
      ∷ lcd_step "LCD-01" "LCD_CELL" (some (float.literal 400 1)) none
      ∷ lcd_step "INSPECT-01" "INSPECT" (some (float.literal 120 1)) (some "PASS")
      ∷ []

  abbrev pub lcd_into_oled : List (Task F)
  lcd_into_oled = lcd_step "LOAD-01" "LOAD" none none ∷ lcd_step "PROC-01" "EVAP" none none ∷ []

  abbrev pub other_recipe : List (Task F)
  other_recipe =
      oled_step "LOAD-01" "LOAD" "RCP-OLED-A01" none none
      ∷ oled_step "CLEAN-01" "CLEAN" "RCP-OLED-A01" none none
      ∷ pick_recipe "PROC-01" "RCP-OLED-B01"
      ∷ oled_step "PROC-01" "EVAP" "RCP-OLED-B01" none none
      ∷ []

  abbrev pub skip_encap : List (Task F)
  skip_encap =
      oled_step "LOAD-01" "LOAD" "RCP-OLED-A01" none none
      ∷ oled_step "CLEAN-01" "CLEAN" "RCP-OLED-A01" none none
      ∷ oled_step "PROC-01" "EVAP" "RCP-OLED-A01" none none
      ∷ oled_step "INSPECT-01" "INSPECT" "RCP-OLED-A01" none (some "PASS")
      ∷ []

  -- the reports of `_demo_recipe_mismatch`
  abbrev pub mismatch_tasks : List (Task F)
  mismatch_tasks =
      oled_step "LOAD-01" "LOAD" "RCP-OLED-A01" none none
      ∷ oled_step "CLEAN-01" "CLEAN" "RCP-OLED-A01" (some (float.literal 180 1)) none
      ∷ pick_recipe "PROC-01" "RCP-OLED-B01"
      ∷ report (record {
        equipment_id = "PROC-01";
        process_step = "EVAP";
        recipe_id = "RCP-OLED-B01";
        chamber_temperature = float.literal 1480 1;
        vacuum_pressure = float.literal 35 4;
        cycle_time_sec = some (float.literal 460 1);
        inspect_result = none;
      })
      ∷ []

  abbrev pub scripts : List (String × Script F)
  scripts =
      ("oled_happy", record { lot_id = "LOT-20260918-001"; tasks = oled_run "PASS" })
      ∷ ("lcd_happy", record { lot_id = "LOT-20260918-003"; tasks = lcd_run })
      ∷ ("lcd_into_oled_evap", record { lot_id = "LOT-20260918-003"; tasks = lcd_into_oled })
      ∷ ("oled_recipe_mismatch", record { lot_id = "LOT-20260918-002"; tasks = other_recipe })
      ∷ ("oled_skip_encap", record { lot_id = "LOT-20260918-001"; tasks = skip_encap })
      ∷ ("oled_inspect_fail", record { lot_id = "LOT-20260918-001"; tasks = oled_run "FAIL" })
      ∷ []

  unfoldable pub script_of : String → Option (Script F)
  script_of scenario_id = lookup scenario_id scripts
