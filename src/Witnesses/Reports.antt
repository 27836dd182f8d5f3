-- ===== src/Witnesses/Reports.antt =====
-- The theorems on the reports at work.
use displayfab_smart_factory.Prelude.{
  ℕ, ◌+◌, ◌-◌, ◌*◌, ◌≤◌, String, none, some, Bool, true, [], ◌∷◌, ◌≡◌, refl, arith, any_of, all_of,
  length, select, find_first, lookup, index_of, inl, inr, String-discrete, Bool-cases, ◌==◌,
  string_eq, nat_discrete, sort_by, insert_by,
}
use displayfab_smart_factory.Enums.{DowntimeReason, EquipmentStatus, EventType, WorkOrderStatus}
use displayfab_smart_factory.Rules.{route_for, alias}
use displayfab_smart_factory.Rules.Routes.{previous_step}
use displayfab_smart_factory.Models.{EquipmentDowntime, Telemetry, ProcessEvent, WorkOrder, Db}
use displayfab_smart_factory.Models.Tables.{get_lot, get_panel}
use displayfab_smart_factory.Env.{day_start}
use displayfab_smart_factory.Ingestion.Traceability.{IsSound}
use displayfab_smart_factory.Line.Kept.{IsKept}
use displayfab_smart_factory.Dispatch.Wip.{counted, line_wip, glass_of, line_wip-glass_of}
use displayfab_smart_factory.Oee.{first_of, line_open_at, planned_window, counts_row, downtime_of}
use displayfab_smart_factory.Oee.Spans.{downtime_of-open}
use displayfab_smart_factory.Production.{orders_since, today_production}
use displayfab_smart_factory.Production.Remaining.{open_glass, today_production-open_glass}
use displayfab_smart_factory.Mes.{done_count}
use displayfab_smart_factory.Mes.Progress.{done_count-previous_step}
use displayfab_smart_factory.Anomaly.{
  Statistics, min_samples, equipment_anomaly, readings_of, given_values, series_score, worst,
  last_value, before_last,
}
use displayfab_smart_factory.Anomaly.Levels.{equipment_anomaly-flagged}
use displayfab_smart_factory.Samples.{lab, small_line, lot_one}

abbrev text_le : String → String → Bool
text_le a b = true

abbrev reading : ℕ → ℕ → Telemetry ℕ
reading at value = record {
  equipment_id = "LOAD-01";
  source = EventType.heartbeat;
  interface_type = "simulator";
  chamber_temperature = some value;
  vacuum_pressure = none;
  equipment_status = EquipmentStatus.run;
  recorded_at = at;
  event_id = "e";
}

abbrev down : DowntimeReason → EquipmentDowntime
down reason = record {
  equipment_id = "LOAD-01";
  reason = reason;
  started_at = 100000000;
  ended_at = none;
  duration_sec = none;
  event_id = none;
}

-- the first report of the day at 500 s, the clock at 1000 s, and two reasons open since 100 s
abbrev stopped_and_lost : Db ℕ
stopped_and_lost = record small_line {
  telemetry = reading 500000000 80 ∷ [];
  downtime = down DowntimeReason.stop ∷ down DowntimeReason.communication_loss ∷ [];
}

downtime_of-open_example :
    downtime_of lab "LOAD-01" stopped_and_lost
    ≡ length (select (counts_row 500000000 "LOAD-01") stopped_and_lost.downtime)
      * (1000000000 - 500000000)
unfolding planned_window line_open_at first_of select day_start String-discrete all_of
downtime_of-open_example = downtime_of-open lab "LOAD-01" stopped_and_lost 500000000 refl refl

abbrev order_one : WorkOrder
order_one = record {
  id = "WO-1";
  product_type = "OLED";
  recipe_id = "RCP-OLED-A01";
  qty = 2;
  status = WorkOrderStatus.released;
  lot_id = some "LOT-1";
  cassette_id = some "CST-1";
  created_at = 1;
}

abbrev ordered_line : Db ℕ
ordered_line = record small_line { work_orders = order_one ∷ [] }

today_production-open_glass_example :
    (today_production lab text_le ordered_line).closeout.remaining
    ≡ open_glass ordered_line "OLED" (orders_since (day_start lab.now) ordered_line)
      + open_glass ordered_line "LCD" (orders_since (day_start lab.now) ordered_line)
unfolding select day_start String-discrete all_of nat_discrete
today_production-open_glass_example = today_production-open_glass ordered_line lab text_le refl

line_wip-glass_of_example :
    counted (line_wip text_le ordered_line) ≡ glass_of ordered_line ordered_line.lots
line_wip-glass_of_example = line_wip-glass_of ordered_line text_le

abbrev load_done : ProcessEvent ℕ
load_done = record {
  id = 1;
  event_id = "e";
  request_id = "r";
  event_type = EventType.process;
  fingerprint = "f";
  equipment_id = "LOAD-01";
  lot_id = "LOT-1";
  panel_id = "PNL-1";
  recipe_id = none;
  process_step = "LOAD";
  equipment_status = EquipmentStatus.run;
  cycle_time_sec = none;
  event_timestamp = 1;
  received_at = 1;
  inspect_result = none;
}

-- the first glass has done LOAD
abbrev loaded_line : Db ℕ
loaded_line = record small_line { process_events = load_done ∷ [] }

no_step_before : (product : String) → previous_step (route_for product) "LOAD" ≡ none
unfolding previous_step route_for index_of String-discrete
no_step_before product = elim (Bool-cases (product == "LCD")) [
  | inl t ↦ rw t refl
  | inr f ↦ rw f refl
]

load_named : alias "LOAD" ≡ "LOAD"
unfolding alias lookup String-discrete
load_named = refl

loaded_line-IsSound : IsSound loaded_line
unfolding any_of
loaded_line-IsSound = record {
  traced = λ i p s b _ before h.
      (let same : s ≡ "LOAD" = ground (arith, load_named) in
        absurd (cc (before, same, no_step_before p)));
  distinct = (refl, tt);
}

loaded_line-IsKept : IsKept loaded_line
unfolding get_panel get_lot find_first any_of all_of alias lookup String-discrete
loaded_line-IsKept = record {
  sound = loaded_line-IsSound;
  complete = record { keyed = λ i p h. ground arith; finished = λ i l h c. absurd (ground arith) };
  linked = record { lots = refl; glass = refl; named = refl };
}

done_count-previous_step_example :
    done_count loaded_line lot_one "CLEAN" ≤ done_count loaded_line lot_one "LOAD"
unfolding get_lot find_first previous_step route_for index_of alias lookup String-discrete
done_count-previous_step_example =
    done_count-previous_step loaded_line loaded_line-IsKept lot_one "CLEAN" "LOAD" refl refl refl

-- ten readings of 80, and one of 99, under a deviation of 1 and a mean of 80
abbrev stats : Statistics ℕ
stats = record { mean = λ xs. 80; stdev = λ xs. some 1 }

abbrev hot_line : Db ℕ
hot_line = record small_line {
  telemetry =
      reading 1 80
      ∷ reading 2 80
      ∷ reading 3 80
      ∷ reading 4 80
      ∷ reading 5 80
      ∷ reading 6 80
      ∷ reading 7 80
      ∷ reading 8 80
      ∷ reading 9 80
      ∷ reading 10 80
      ∷ reading 11 200
      ∷ [];
}

equipment_anomaly-flagged_example :
    min_samples ≤ (equipment_anomaly stats lab "LOAD-01" hot_line).samples
unfolding equipment_anomaly readings_of given_values series_score worst last_value before_last
    select String-discrete day_start sort_by insert_by
equipment_anomaly-flagged_example = equipment_anomaly-flagged stats lab "LOAD-01" hot_line refl
