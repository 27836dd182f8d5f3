-- ===== src/Oee.antt =====
-- backend/app/services/oee.py: availability, performance and quality of an equipment and of the line.
-- Spans of time are in microseconds; the sentences of the report are left out. `text_le` is the order
-- of texts in the database.
pub mod Spans
use displayfab_smart_factory.Prelude.{
  ℕ, zero, ◌+◌, ◌-◌, ◌*◌, max, String, Option, none, some, Bool, true, false, ◌&&◌, ◌||◌, not, List,
  [], ◌∷◌, map, length, select, count_where, contains, lookup, get_or, is_some, leb, ltb, sort_by,
  ◌==◌, string_eq, nat_eq, if◌then◌else◌,
}
use displayfab_smart_factory.Enums.{PanelStatus, panel_status_eq}
use displayfab_smart_factory.Rules.{ideal_cycle_sec}
use displayfab_smart_factory.Models.{
  Equipment, EquipmentDowntime, Panel, ProcessEvent, Telemetry, Db,
}
use displayfab_smart_factory.Env.{FloatOps, Env, seconds, day_start}

-- the least of the numbers, as `order_by(… .asc()).limit(1)`
unfoldable pub first_of : List ℕ → Option ℕ
first_of [] = none
first_of (t ∷ rest) = elim (first_of rest) [
  | none ↦ some t
  | some u ↦ if ltb u t then some u else some t
]

-- `min(stamps)` of the ones that are there
abbrev earlier : Option ℕ → Option ℕ → Option ℕ
earlier none b = b
earlier (some a) none = some a
earlier (some a) (some b) = if leb a b then some a else some b

-- the start of the planned time, and its length
pub record Window : Type 0 where
  pub start : Option ℕ
  pub planned : ℕ

-- `totals[id] = totals.get(id, 0.0) + span`
unfoldable pub add_total : String → ℕ → List (String × ℕ) → List (String × ℕ)
add_total id span [] = (id, span) ∷ []
add_total id span ((k, n) ∷ rest) =
    let later = add_total id span rest in if k == id then (k, n + span) ∷ rest else (k, n) ∷ later

-- `(ended - began).total_seconds()`, 0 where it is not positive
abbrev pub span_of : ℕ → ℕ → EquipmentDowntime → ℕ
span_of start now row = get_or row.ended_at now - max row.started_at start

abbrev pub counts_row : ℕ → String → EquipmentDowntime → Bool
counts_row start equipment_id row =
    (not (is_some row.ended_at) || leb start (get_or row.ended_at 0))
    && row.equipment_id == equipment_id

unfoldable pub total_spans : ℕ → ℕ → List (String × ℕ) → List EquipmentDowntime → List (String × ℕ)
total_spans start now totals [] = totals
total_spans start now totals (row ∷ rest) =
    total_spans start now
      (if span_of start now row == 0
        then totals
        else add_total row.equipment_id (span_of start now row) totals)
      rest

pub record Oee (F : Type 0) : Type 0 where
  pub good : ℕ
  pub bad : ℕ
  pub availability : Option F
  pub performance : Option F
  pub quality : Option F
  pub oee : Option F

pub record EquipmentOee (F : Type 0) : Type 0 where
  pub equipment_id : String
  pub processed : ℕ
  pub planned_sec : F
  pub downtime_sec : F
  pub operating_sec : F
  pub ideal_runtime_sec : F
  pub rates : Oee F

pub record LineOee (F : Type 0) : Type 0 where
  pub planned_sec : F
  pub rates : Oee F
  pub equipment : List (EquipmentOee F)

unfoldable pub panel_quality : List String → List Panel → ℕ × ℕ
panel_quality ids panels = (
  count_where (λ p. contains ids p.id && p.status == PanelStatus.complete) panels,
  count_where
      (λ p. contains ids p.id && (p.status == PanelStatus.fail || p.status == PanelStatus.scrap))
      panels,
)

module _ {F : Type 0} where
  unfoldable pub line_open_at : Env F → Db F → Option ℕ
  line_open_at env db =
      let day = day_start env.now in
      earlier
        (first_of (
          map (λ (t : Telemetry F). t.recorded_at)
            (select (λ t. leb day t.recorded_at) db.telemetry)))
        (first_of (
          map (λ (e : ProcessEvent F). e.event_timestamp)
            (select (λ e. leb day e.event_timestamp) db.process_events)))

  unfoldable pub planned_window : Env F → Db F → Window
  planned_window env db =
      let minutes = env.settings.oee_planned_minutes in
      if ltb 0 minutes
      then record {
        start = some (env.now - seconds (minutes * 60));
        planned = seconds (minutes * 60);
      }
      else elim (line_open_at env db) [
        | none ↦ record { start = none; planned = 0 }
        | some opened ↦
            let start = max opened (day_start env.now) in
            record { start = some start; planned = max (env.now - start) (seconds 1) }
      ]

  -- `downtime_seconds` of one equipment
  unfoldable pub downtime_seconds : Env F → String → Db F → List (String × ℕ)
  downtime_seconds env equipment_id db = elim (planned_window env db).start [
    | none ↦ []
    | some start ↦ total_spans start env.now [] (select (counts_row start equipment_id) db.downtime)
  ]

  unfoldable pub downtime_of : Env F → String → Db F → ℕ
  downtime_of env equipment_id db =
      get_or (lookup equipment_id (downtime_seconds env equipment_id db)) 0

  unfoldable pub operating_of : Env F → String → Db F → ℕ
  operating_of env equipment_id db =
      (planned_window env db).planned - downtime_of env equipment_id db

  abbrev pub in_window : Env F → Db F → ProcessEvent F → Bool
  in_window env db e =
      leb (get_or (planned_window env db).start (day_start env.now)) e.event_timestamp

  unfoldable pub ideal_total : List (ProcessEvent F) → ℕ
  ideal_total [] = 0
  ideal_total (e ∷ rest) = get_or (ideal_cycle_sec (some e.process_step)) 0 + ideal_total rest

  abbrev micros : FloatOps F → ℕ → F
  micros float n = float.literal n 6

  -- `_ratio`
  unfoldable pub ratio : FloatOps F → F → F → Option F
  ratio float numerator denominator =
      if float.le denominator (float.literal 0 1)
      then none
      else (let q = float.div numerator denominator in
          some (float.round (if float.lt (float.literal 10 1) q then float.literal 10 1 else q) 4))

  abbrev product_of_rates : FloatOps F → Option F → Option F → Option F → Option F
  product_of_rates float (some a) (some p) (some q) =
      some (float.round (float.mul (float.mul a p) q) 4)
  product_of_rates float _ _ _ = none

  abbrev rates_of : FloatOps F → ℕ × ℕ → Option F → Option F → Oee F
  rates_of float judged availability performance =
      let quality =
        if judged.0 + judged.1 == 0
        then none
        else ratio float (float.literal judged.0 0) (float.literal (judged.0 + judged.1) 0) in
      record {
        good = judged.0;
        bad = judged.1;
        availability = availability;
        performance = performance;
        quality = quality;
        oee = product_of_rates float availability performance quality;
      }

  unfoldable pub equipment_oee : Env F → String → Db F → EquipmentOee F
  equipment_oee env equipment_id db =
      let float = env.float in
      let events =
        select (λ e. e.equipment_id == equipment_id && in_window env db e) db.process_events in
      let planned = (planned_window env db).planned in
      let operating = operating_of env equipment_id db in
      let ideal = ideal_total events in
      record {
        equipment_id = equipment_id;
        processed = length events;
        planned_sec = float.round (micros float planned) 1;
        downtime_sec = float.round (micros float (downtime_of env equipment_id db)) 1;
        operating_sec = float.round (micros float operating) 1;
        ideal_runtime_sec = float.round (float.literal ideal 0) 1;
        rates =
            rates_of float
              (panel_quality (map (λ (e : ProcessEvent F). e.panel_id) events) db.panels)
              (ratio float (micros float operating) (micros float planned))
              (if ideal == 0
                then none
                else ratio float (float.literal ideal 0) (micros float operating));
      }

  -- `sum(…)`, from the left
  unfoldable pub sum_from : FloatOps F → F → List F → F
  sum_from float acc [] = acc
  sum_from float acc (x ∷ rest) = sum_from float (float.add acc x) rest

  -- `max(x, 0.0)`
  abbrev not_negative : FloatOps F → F → F
  not_negative float x = if float.lt x (float.literal 0 1) then float.literal 0 1 else x

  unfoldable pub line_oee : Env F → (String → String → Bool) → Db F → LineOee F
  unfolding sum_from
  line_oee env text_le db =
      let float = env.float in
      let zero_sec = float.literal 0 0 in
      let rows =
        map (λ (eq : Equipment). equipment_oee env eq.id db)
          (sort_by (λ a b. text_le a.id b.id) db.equipment) in
      let planned = (planned_window env db).planned in
      let total_planned =
        if length rows == 0
        then float.literal 0 1
        else float.mul (micros float planned) (float.literal (length rows) 0) in
      let total_downtime =
        sum_from float zero_sec (map (λ (r : EquipmentOee F). r.downtime_sec) rows) in
      let total_operating = not_negative float (float.sub total_planned total_downtime) in
      let total_ideal =
        sum_from float zero_sec (map (λ (r : EquipmentOee F). r.ideal_runtime_sec) rows) in
      let today = select (λ e. in_window env db e) db.process_events in
      record {
        planned_sec = float.round (micros float planned) 1;
        rates =
            rates_of float
              (panel_quality (map (λ (e : ProcessEvent F). e.panel_id) today) db.panels)
              (ratio float total_operating total_planned)
              (if float.lt (float.literal 0 1) total_ideal
                then ratio float total_ideal total_operating
                else none);
        equipment = rows;
      }
