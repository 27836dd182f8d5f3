-- ===== src/Offline.antt =====
-- backend/app/services/offline.py: equipment that says nothing for too long. Only the connection
-- changes; the reported status stays.
pub mod Detection
use displayfab_smart_factory.Prelude.{
  ℕ, ◌+◌, String, none, some, Bool, true, false, ◌&&◌, not, List, [], ◌∷◌, ltb, is_some, ◌/=◌,
  if◌then◌else◌,
}
use displayfab_smart_factory.Enums.{
  AlarmCode, ConnectionStatus, DowntimeReason, connection_status_eq,
}
use displayfab_smart_factory.Models.{Equipment, Db}
use displayfab_smart_factory.Models.Tables.{set_equipment}
use displayfab_smart_factory.Env.{Env, seconds}
use displayfab_smart_factory.Alarms.{AlarmRequest, create_alarm, open_alarm}
use displayfab_smart_factory.Downtime.{open_downtime}

abbrev pub disconnected : Equipment → Equipment
disconnected row = record row { connection_status = ConnectionStatus.offline }

abbrev loss_alarm : String → AlarmRequest
loss_alarm equipment_id = record {
  code = AlarmCode.communication_loss;
  equipment_id = some equipment_id;
  lot_id = none;
  panel_id = none;
  event_id = none;
  severity = none;
}

module _ {F : Type 0} where
  -- `(now - last_seen_at).total_seconds() >= communication_timeout_sec`
  abbrev pub is_silent : Env F → ℕ → Bool
  is_silent env seen_at =
      not (ltb env.now (seen_at + seconds env.settings.communication_timeout_sec))

  -- an alarm unless one is open already
  unfoldable pub raise_loss : Env F → String → Db F → Db F
  raise_loss env equipment_id db =
      if is_some (open_alarm db equipment_id AlarmCode.communication_loss)
      then db
      else (create_alarm env (loss_alarm equipment_id) db).1

  unfoldable pub lose : Env F → Equipment → Db F → Db F
  lose env eq db =
      open_downtime env eq.id DowntimeReason.communication_loss none
        (raise_loss env eq.id (set_equipment eq.id disconnected db))

  -- one equipment, and whether it changed
  unfoldable pub check_silence : Env F → Equipment → Db F → Bool × Db F
  check_silence env eq db = elim eq.last_seen_at [
    | none ↦
        if eq.connection_status /= ConnectionStatus.offline
        then (true, set_equipment eq.id disconnected db)
        else (false, db)
    | some seen_at ↦
        if is_silent env seen_at && eq.connection_status /= ConnectionStatus.offline
        then (true, lose env eq db)
        else (false, db)
  ]

  unfoldable pub detect : Env F → List Equipment → Db F → List String × Db F
  unfolding check_silence
  detect env [] db = ([], db)
  detect env (eq ∷ rest) db =
      let (is_changed, db') = check_silence env eq db in
      let (changed, db'') = detect env rest db' in
      (if is_changed then eq.id ∷ changed else changed, db'')

  unfoldable pub mark_offline_equipment : Env F → Db F → List String × Db F
  unfolding detect
  mark_offline_equipment env db = detect env db.equipment db
