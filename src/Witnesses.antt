-- ===== src/Witnesses.antt =====
-- The theorems at work on the small line of `Samples`.
pub mod Runs
pub mod Dispatched
pub mod Reports
use displayfab_smart_factory.Prelude.{
  ℕ, suc, String, none, some, true, false, List, [], ◌∷◌, ◌++◌, ◌≡◌, ◌↔◌, ◌⊎◌, refl, arith, any_of,
  contains, count_where, lookup, index_of, find_first, length, String-discrete, ◌==◌, string_eq,
}
use displayfab_smart_factory.Enums.{
  AlarmCode, LotStatus-discrete, PanelStatus-discrete, DowntimeReason-discrete, CommandType,
  DowntimeReason, ProductType, equipment_status_eq,
}
use displayfab_smart_factory.Rules.{
  equipment_ids_for_step, next_position, operation_at, alias, normalize_step, next_operation,
  allowed_next_steps, route_for,
}
use displayfab_smart_factory.Rules.Routes.{
  MayFollow, itinerary, allowed_next_steps-previous_step, next_operation-allowed,
  itinerary-next_operation,
}
use displayfab_smart_factory.Rules.Equipments.{Fits, next_operation-Fits}
use displayfab_smart_factory.Rules.Aliases.{alias-alias}
use displayfab_smart_factory.Models.{Alarm, Equipment, Db}
use displayfab_smart_factory.Models.Tables.{get_equipment, get_lot, get_panel}
use displayfab_smart_factory.Downtime.{is_running_for, is_named, open_downtime, close_downtime}
use displayfab_smart_factory.Downtime.Single.{
  IsSingle, open_downtime-IsSingle, close_downtime-IsSingle, close_downtime-none_running,
}
use displayfab_smart_factory.Alarms.{next_alarm_number, AlarmRequest, create_alarm}
use displayfab_smart_factory.Alarms.Ids.{IsNumbered, create_alarm-IsNumbered}
use displayfab_smart_factory.WorkOrders.{sequence_number, next_seq, padded}
use displayfab_smart_factory.WorkOrders.Numbers.{sequence_number-padded, next_seq-unused}
use displayfab_smart_factory.Validation.Guards.{pass, check_sequence, last_step, latest_event}
use displayfab_smart_factory.Prelude.{all_of, ◌+◌, ◌≤◌, ltb, select, texts_differ, if◌then◌else◌}
use displayfab_smart_factory.Validation.Admission.{Admitted}
use displayfab_smart_factory.Ingestion.Steps.{Outcome}
use displayfab_smart_factory.Ingestion.{ingest_event, forced_failure}
use displayfab_smart_factory.Ingestion.Acceptance.{is_accepted, accepted_iff-Admitted}
use displayfab_smart_factory.Ingestion.Audit.{Logged, ingest-Logged}
use displayfab_smart_factory.Ingestion.Rejection.{Rejected, ingest-Rejected}
use displayfab_smart_factory.Ingestion.Presence.{PresentAfter, ingest-Present}
use displayfab_smart_factory.Ingestion.Traceability.{IsSound, SoundAfter, ingest-IsSound}
use displayfab_smart_factory.Ingestion.Completion.{IsComplete, CompleteAfter, ingest-IsComplete}
use displayfab_smart_factory.Commands.{apply_command, save, execute_command}
use displayfab_smart_factory.Commands.Orders.{hold_lot, Verdict, release_lot}
use displayfab_smart_factory.Commands.Keeps.{execute_command-rejected, execute_command-IsSingle}
use displayfab_smart_factory.Commands.Trips.{hold_lot-release_lot}
use displayfab_smart_factory.Dispatch.{score, pick_equipment, course, panel_dispatch}
use displayfab_smart_factory.Dispatch.Next.{panel_dispatch-check_sequence, panel_dispatch-done}
use displayfab_smart_factory.Dispatch.Choice.{pick_equipment-score}
use displayfab_smart_factory.RateLimit.{Hits, allow}
use displayfab_smart_factory.RateLimit.Window.{is_recent, allow-window}
use displayfab_smart_factory.HostPrep.{Uuids, prepare_line}
use displayfab_smart_factory.HostPrep.Kept.{prepare_line-IsKept}
use displayfab_smart_factory.WorkOrders.{release, create_and_release, default_recipe}
use displayfab_smart_factory.WorkOrders.Release.{Released, create_and_release-Released}
use displayfab_smart_factory.Ingestion.{overflows, heartbeat_outcome}
use displayfab_smart_factory.Ingestion.Maintenance.{heartbeat-leaves_maintenance}
use displayfab_smart_factory.Models.{WorkOrder, Panel}
use displayfab_smart_factory.Models.Tables.{get_recipe}
use displayfab_smart_factory.Enums.{EquipmentStatus}
use displayfab_smart_factory.Schemas.{as_naive_utc, utc_of}
use displayfab_smart_factory.Samples.{line_with_recipe, idle_beat}
use displayfab_smart_factory.Offline.{disconnected, mark_offline_equipment}
use displayfab_smart_factory.Offline.Detection.{mark_offline_equipment-due}
use displayfab_smart_factory.Line.{Action, act_all}
use displayfab_smart_factory.Line.Kept.{IsKept}
use displayfab_smart_factory.Line.Run.{act_all-IsKept}
use displayfab_smart_factory.Samples.{
  lab, machine, small_line, load_event, lost_event, host_orders, lot_one, glass,
}

small_line-IsSound : IsSound small_line
unfolding any_of
small_line-IsSound = record { traced = λ i p s b _ _ h. absurd (cc); distinct = tt }

small_line-IsComplete : IsComplete small_line
unfolding get_panel get_lot find_first any_of
small_line-IsComplete = record {
  keyed = λ i p h. ground arith;
  finished = λ i l h c. absurd (ground arith);
}

pub small_line-IsKept : IsKept small_line
unfolding all_of find_first String-discrete
small_line-IsKept = record {
  sound = small_line-IsSound;
  complete = small_line-IsComplete;
  linked = record { lots = refl; glass = refl; named = refl };
}

small_line-IsSingle : IsSingle small_line
unfolding count_where
small_line-IsSingle k r = omega arith

abbrev a_day : List (Action ℕ)
a_day =
    Action.push lab load_event "r-1" "e-1"
    ∷ Action.command lab "c-1" (host_orders CommandType.hold_lot)
    ∷ Action.event lab load_event "r-2" "e-2"
    ∷ Action.release_order lab "OLED" none 2
    ∷ Action.detect_offline lab
    ∷ []

act_all-IsKept_example : (db' : Db ℕ) × (act_all a_day small_line ≡ some db') × IsKept db'
act_all-IsKept_example = act_all-IsKept a_day small_line small_line-IsKept

accepted_iff-Admitted_example :
    (is_accepted (ingest_event lab load_event "r-1" "e-1" small_line) ≡ true)
    ↔ Admitted lab load_event small_line
accepted_iff-Admitted_example =
    accepted_iff-Admitted lab load_event small_line "r-1" "e-1" refl refl

ingest-IsSound_example :
    SoundAfter lab load_event "r-1" "e-1" small_line
      (ingest_event lab load_event "r-1" "e-1" small_line)
ingest-IsSound_example = ingest-IsSound lab load_event "r-1" "e-1" small_line small_line-IsSound

ingest-IsComplete_example :
    CompleteAfter lab load_event "r-1" "e-1" small_line
      (ingest_event lab load_event "r-1" "e-1" small_line)
ingest-IsComplete_example =
    ingest-IsComplete lab load_event "r-1" "e-1" small_line small_line-IsComplete

abbrev lost : Outcome × Db ℕ
lost = forced_failure lab lost_event "r-1" "e-1" small_line

ingest-Rejected_example : Rejected lab lost_event small_line lost.0 lost.1
unfolding ingest_event forced_failure
ingest-Rejected_example =
    ingest-Rejected lab lost_event "r-1" "e-1" small_line lost.0 lost.1 refl refl

ingest-Logged_example :
    Logged lab load_event "r-1" "e-1" small_line
      (ingest_event lab load_event "r-1" "e-1" small_line)
    × ((ingest_event lab load_event "r-1" "e-1" small_line ≡ none)
        ↔ (overflows load_event small_line ≡ true))
ingest-Logged_example = ingest-Logged lab load_event "r-1" "e-1" small_line

ingest-Present_example :
    PresentAfter lab load_event (ingest_event lab load_event "r-1" "e-1" small_line)
unfolding get_equipment find_first String-discrete
ingest-Present_example =
    ingest-Present lab load_event "r-1" "e-1" small_line (machine "LOAD-01" "LOAD") refl refl

execute_command-rejected_example :
    ((execute_command lab "c-1" (host_orders CommandType.release_lot) small_line).1
      ≡ record small_line {
        host_commands =
            []
            ++ (execute_command lab "c-1" (host_orders CommandType.release_lot) small_line).0 ∷ [];
      })
    × ((execute_command lab "c-1" (host_orders CommandType.release_lot) small_line).0.delivered_at
        ≡ none)
unfolding execute_command save apply_command release_lot get_lot find_first String-discrete
    LotStatus-discrete
execute_command-rejected_example =
    execute_command-rejected lab (host_orders CommandType.release_lot) small_line "c-1" refl

execute_command-IsSingle_example :
    IsSingle (execute_command lab "c-1" (host_orders CommandType.maint_enter) small_line).1
execute_command-IsSingle_example =
    execute_command-IsSingle lab (host_orders CommandType.maint_enter) small_line
      small_line-IsSingle "c-1"

open_downtime-IsSingle_example :
    IsSingle (open_downtime lab "LOAD-01" DowntimeReason.stop none small_line)
    × (count_where
          (is_running_for "LOAD-01" DowntimeReason.stop)
          (open_downtime lab "LOAD-01" DowntimeReason.stop none small_line).downtime
        ≡ 1)
open_downtime-IsSingle_example =
    open_downtime-IsSingle lab small_line "LOAD-01" DowntimeReason.stop none small_line-IsSingle

stopped_line : Db ℕ
stopped_line = open_downtime lab "LOAD-01" DowntimeReason.stop none small_line

close_downtime-none_running_example :
    count_where
      (is_running_for "LOAD-01" DowntimeReason.stop)
      (close_downtime lab "LOAD-01" (DowntimeReason.stop ∷ []) stopped_line).downtime
    ≡ 0
unfolding is_named any_of DowntimeReason-discrete
close_downtime-none_running_example =
    close_downtime-none_running lab stopped_line "LOAD-01" (DowntimeReason.stop ∷ [])
      DowntimeReason.stop refl

abbrev failed_inspection : AlarmRequest
failed_inspection = record {
  code = AlarmCode.inspect_fail;
  equipment_id = some "INSPECT-01";
  lot_id = none;
  panel_id = none;
  event_id = none;
  severity = none;
}

create_alarm-IsNumbered_example :
    (any_of
        (λ (a : Alarm). a.alarm_id == (create_alarm lab failed_inspection small_line).0.alarm_id)
        []
      ≡ false)
    × (next_alarm_number (create_alarm lab failed_inspection small_line).1.alarms
        ≡ suc (next_alarm_number []))
    × IsNumbered (create_alarm lab failed_inspection small_line).1
create_alarm-IsNumbered_example = create_alarm-IsNumbered lab failed_inspection small_line tt

sequence_number-padded_example : sequence_number "PNL-" (padded "PNL-" 42 5) ≡ some 42
sequence_number-padded_example = sequence_number-padded "PNL-" 42 5

itinerary-next_operation_example :
    itinerary (next_operation "LCD") (suc (length (route_for "LCD"))) none ≡ route_for "LCD"
itinerary-next_operation_example = itinerary-next_operation "LCD"

next_operation-Fits_example :
    (equipment : String) × ((next_operation "OLED" (some "CLEAN")).1 ≡ some equipment)
    × Fits "OLED" "EVAP" equipment
unfolding next_operation alias lookup index_of route_for String-discrete
next_operation-Fits_example = next_operation-Fits ProductType.oled (some "CLEAN") "EVAP" refl

allowed_next_steps-previous_step_example :
    (contains (allowed_next_steps "OLED" (some "CLEAN")) "EVAP" ≡ true)
    ↔ MayFollow (route_for "OLED") (normalize_step (some "CLEAN")) "EVAP"
allowed_next_steps-previous_step_example =
    allowed_next_steps-previous_step "OLED" (some "CLEAN") "EVAP"

panel_dispatch-check_sequence_example :
    check_sequence lot_one (glass "PNL-1" 1) "LOAD" small_line ≡ pass tt
unfolding panel_dispatch course last_step latest_event select next_operation next_position
    operation_at PanelStatus-discrete route_for String-discrete
panel_dispatch-check_sequence_example =
    panel_dispatch-check_sequence lot_one (glass "PNL-1" 1) small_line "LOAD" (λ h. cc) refl

pick_equipment-score_example :
    (eq : Equipment) × (pick_equipment (some "INSPECT") small_line ≡ some eq.id)
    × (get_equipment eq.id small_line ≡ some eq)
    × (contains (equipment_ids_for_step (some "INSPECT")) eq.id ≡ true)
    × (score eq ≤ score (machine "INSPECT-01" "INSPECT"))
unfolding equipment_ids_for_step contains alias lookup select get_equipment find_first
    String-discrete
pick_equipment-score_example =
    pick_equipment-score small_line (some "INSPECT") "INSPECT-01" (machine "INSPECT-01" "INSPECT")
      refl refl

hold_lot-release_lot_example :
    ((hold_lot lab (host_orders CommandType.hold_lot) small_line).0 ≡ Verdict.done)
    × ((release_lot lab
          (host_orders CommandType.hold_lot)
          (hold_lot lab (host_orders CommandType.hold_lot) small_line).1).0
        ≡ Verdict.done)
    × (get_lot "LOT-1"
          (release_lot lab
            (host_orders CommandType.hold_lot)
            (hold_lot lab (host_orders CommandType.hold_lot) small_line).1).1
        ≡ some lot_one)
unfolding get_lot find_first String-discrete
hold_lot-release_lot_example =
    hold_lot-release_lot lab (host_orders CommandType.hold_lot) "LOT-1" small_line lot_one refl
      (texts_differ "LOT-1" "" refl) refl (λ h. cc)

abbrev hits : Hits
hits key = 1000000 ∷ 50000000 ∷ 61500000 ∷ []

allow-window_example :
    ((allow 2 "10.0.0.1" 62000000 hits).0
      ≡ ltb (length (select (is_recent 62000000) (hits "10.0.0.1"))) 2)
    × ((allow 2 "10.0.0.1" 62000000 hits).1 "10.0.0.1"
        ≡ select (is_recent 62000000) (hits "10.0.0.1")
          ++ (if (allow 2 "10.0.0.1" 62000000 hits).0 then 62000000 ∷ [] else []))
unfolding String-discrete
allow-window_example =
    allow-window 2 "10.0.0.1" "10.0.0.1" 62000000 hits (λ h. omega arith)
      ((omega arith, (omega arith, tt)), ((omega arith, tt), (tt, tt)))

abbrev fixed_uuids : String → Uuids
fixed_uuids id = record { request_id = "r"; event_id = "e"; start_id = "s"; select_id = "p" }

prepare_line-IsKept_example :
    (db' : Db ℕ) × (prepare_line lab fixed_uuids "RCP-OLED-A01" small_line ≡ some db') × IsKept db'
prepare_line-IsKept_example =
    prepare_line-IsKept lab fixed_uuids "RCP-OLED-A01" small_line small_line-IsKept

abbrev two_more : (WorkOrder × List Panel) × Db ℕ
two_more = release lab "OLED" "RCP-OLED-A01" 2 line_with_recipe

create_and_release-Released_example :
    Released 2 two_more.0.0 two_more.0.1 line_with_recipe two_more.1
unfolding create_and_release release get_recipe find_first default_recipe String-discrete
create_and_release-Released_example =
    create_and_release-Released lab "OLED" none 2 line_with_recipe two_more.0.0 two_more.0.1
      two_more.1 refl

heartbeat-leaves_maintenance_example :
    (db' : Db ℕ) × (row : Equipment) × (ingest_event lab idle_beat "r-1" "e-1" small_line
      ≡ some (heartbeat_outcome, db'))
    × (get_equipment "LOAD-01" db' ≡ some row)
    × (row.equipment_status ≡ EquipmentStatus.idle)
    × (count_where (is_running_for "LOAD-01" DowntimeReason.maintenance) db'.downtime
        ≡ count_where (is_running_for "LOAD-01" DowntimeReason.maintenance) small_line.downtime)
unfolding get_equipment find_first String-discrete utc_of as_naive_utc
heartbeat-leaves_maintenance_example =
    heartbeat-leaves_maintenance lab idle_beat "r-1" "e-1" small_line (machine "LOAD-01" "LOAD")
      refl refl refl (refl, omega arith, omega arith) refl

abbrev quiet : Equipment
quiet = record (machine "LOAD-01" "LOAD") { last_seen_at = some 900000000 }

abbrev quiet_line : Db ℕ
quiet_line = record small_line { equipment = quiet ∷ [] }

mark_offline_equipment-due_example :
    get_equipment "LOAD-01" (mark_offline_equipment lab quiet_line).1 ≡ some (disconnected quiet)
unfolding get_equipment find_first String-discrete
mark_offline_equipment-due_example =
    mark_offline_equipment-due lab "LOAD-01" quiet_line quiet refl refl
