-- ===== src/Offline/Detection.antt =====
-- What one round of the detector finds.
use displayfab_smart_factory.Prelude.{
  ℕ, String, Option, none, some, Bool, true, ◌&&◌, List, [], ◌∷◌, ◌≡◌, refl, arith, find_first,
  map_option, ◌==◌, ◌/=◌, string_eq, if◌then◌else◌, Bool-cases, inl, inr,
}
use displayfab_smart_factory.Enums.{ConnectionStatus, connection_status_eq}
use displayfab_smart_factory.Models.{Equipment, Db}
use displayfab_smart_factory.Models.Tables.{
  get_equipment, set_equipment, get_equipment-set_equipment, id-get_equipment,
}
use displayfab_smart_factory.Env.{Env}
use displayfab_smart_factory.Alarms.{create_alarm}
use displayfab_smart_factory.Downtime.{open_downtime}
use displayfab_smart_factory.Offline.{
  disconnected, is_silent, raise_loss, lose, check_silence, detect, mark_offline_equipment,
}

module _ {F : Type 0} (env : Env F) where
  -- the equipment has never been seen, or not for the time-out
  abbrev pub is_due : Option ℕ → Bool
  is_due none = true
  is_due (some seen_at) = is_silent env seen_at

  equipment-lose :
      (eq : Equipment) (db : Db F)
      → (lose env eq db).equipment ≡ (set_equipment eq.id disconnected db).equipment
  unfolding lose raise_loss open_downtime create_alarm set_equipment
  equipment-lose eq db = ground arith

  check_silence-cases :
      (eq : Equipment) (db : Db F)
      → (check_silence env eq db).1.equipment ≡ (
          if is_due eq.last_seen_at && eq.connection_status /= ConnectionStatus.offline
          then (set_equipment eq.id disconnected db).equipment
          else db.equipment)
  unfolding check_silence
  check_silence-cases eq db = ground (arith, equipment-lose eq db)

  get-check_silence :
      (k : String) (eq : Equipment) (db : Db F)
      → get_equipment k (check_silence env eq db).1 ≡ (
          if is_due eq.last_seen_at && eq.connection_status /= ConnectionStatus.offline
          then map_option
              (λ row. if row.id == eq.id then disconnected row else row)
              (get_equipment k db)
          else get_equipment k db)
  unfolding get_equipment set_equipment
  get-check_silence k eq db = ground (
    arith,
    check_silence-cases eq db,
    get_equipment-set_equipment k eq.id disconnected db (λ row. refl),
  )

  detect-stays :
      (k : String) (row : Equipment) (rows : List Equipment) (db : Db F)
      → get_equipment k db ≡ some (disconnected row)
      → get_equipment k (detect env rows db).1 ≡ some (disconnected row)
  unfolding detect
  detect-stays k row [] db h = h
  detect-stays k row (eq ∷ rows) db h =
      detect-stays k row rows (check_silence env eq db).1
        (ground (arith, get-check_silence k eq db))

  detect-due :
      (k : String) (eq : Equipment) (rows : List Equipment) (db : Db F)
      → find_first (λ (row : Equipment). row.id == k) rows ≡ some eq
      → get_equipment k db ≡ some eq
      → is_due eq.last_seen_at ≡ true
      → get_equipment k (detect env rows db).1 ≡ some (disconnected eq)
  unfolding detect find_first
  detect-due k eq [] db f h d = absurd (cc)
  detect-due k eq (e ∷ rows) db f h d = elim (Bool-cases (e.id == k)) [
    | inl t ↦
        let same : e ≡ eq = ground arith in
        detect-stays k eq rows (check_silence env e db).1 (ground (arith, get-check_silence k e db))
    | inr n ↦
        let named = id-get_equipment k db eq h in
        detect-due k eq rows (check_silence env e db).1 (ground arith)
          (ground (arith, get-check_silence k e db)) d
  ]

  -- After a round of the detector an equipment that has never been seen, or not for the time-out, is
  -- OFFLINE; all else of its row, also the status that it reported, is as before.
  pub mark_offline_equipment-due :
      (k : String) (db : Db F) (eq : Equipment)
      → get_equipment k db ≡ some eq
      → is_due eq.last_seen_at ≡ true
      → get_equipment k (mark_offline_equipment env db).1 ≡ some (disconnected eq)
  unfolding mark_offline_equipment get_equipment
  mark_offline_equipment-due k db eq h d = detect-due k eq db.equipment db h h d
