-- ===== src/Downtime.antt =====
-- backend/app/services/downtime.py: when an equipment stood still, and why. The duration of a row that
-- starts after the clock of the call is 0 here, where the source computes a negative one.
pub mod Single
use displayfab_smart_factory.Prelude.{
  ℕ, ◌-◌, String, Option, none, some, Bool, ◌&&◌, not, List, [], ◌∷◌, ◌++◌, find_first,
  update_where, is_some, any_of, true, ◌==◌, string_eq, if◌then◌else◌,
}
use displayfab_smart_factory.Enums.{DowntimeReason, downtime_reason_eq}
use displayfab_smart_factory.Models.{EquipmentDowntime, Db}
use displayfab_smart_factory.Env.{Env}

-- the rows of the equipment that have not ended
abbrev pub is_running : String → EquipmentDowntime → Bool
is_running equipment_id row = row.equipment_id == equipment_id && not (is_some row.ended_at)

abbrev pub is_running_for : String → DowntimeReason → EquipmentDowntime → Bool
is_running_for equipment_id reason row =
    row.equipment_id == equipment_id && row.reason == reason && not (is_some row.ended_at)

abbrev pub started : ℕ → String → DowntimeReason → Option String → EquipmentDowntime
started now equipment_id reason event_id = record {
  equipment_id = equipment_id;
  reason = reason;
  started_at = now;
  ended_at = none;
  duration_sec = none;
  event_id = event_id;
}

abbrev pub ended : ℕ → EquipmentDowntime → EquipmentDowntime
ended now row = record row { ended_at = some now; duration_sec = some (now - row.started_at) }

-- `if reasons:` with no reasons named, rows are closed whatever their reason
unfoldable pub is_named : List DowntimeReason → DowntimeReason → Bool
is_named [] reason = true
is_named (r ∷ rs) reason = any_of (λ named. reason == named) (r ∷ rs)

module _ {F : Type 0} where
  unfoldable pub open_downtime : Env F → String → DowntimeReason → Option String → Db F → Db F
  open_downtime env equipment_id reason event_id db =
      if is_some (find_first (is_running_for equipment_id reason) db.downtime)
      then db
      else record db { downtime = db.downtime ++ started env.now equipment_id reason event_id ∷ [] }

  unfoldable pub close_downtime : Env F → String → List DowntimeReason → Db F → Db F
  close_downtime env equipment_id reasons db = record db {
    downtime =
        update_where (λ row. is_running equipment_id row && is_named reasons row.reason)
          (ended env.now) db.downtime;
  }
