-- ===== src/Journal.antt =====
-- backend/app/services/state_change.py and event_log.py: what is written beside the state.
use displayfab_smart_factory.Prelude.{
  String, Option, Bool, [], ◌∷◌, ◌++◌, ◌==◌, option_string_eq, if◌then◌else◌,
}
use displayfab_smart_factory.Enums.{equipment_status_eq, lot_status_eq, panel_status_eq}
use displayfab_smart_factory.Models.{Change, Db}
use displayfab_smart_factory.Schemas.{EquipmentEventIn}
use displayfab_smart_factory.Env.{Env}

-- `from_status == to_status`
abbrev pub is_same : Change → Bool
is_same (Change.equipment_change from to) = from == to
is_same (Change.lot_change from to) = from == to
is_same (Change.panel_change from to) = from == to
is_same (Change.recipe_change from to) = from == to

module _ {F : Type 0} where
  unfoldable pub record_state_change :
      Env F → String → Change → String → Option String → Db F → Db F
  record_state_change env entity_id change reason event_id db =
      if is_same change then db else record db {
        state_changes =
            db.state_changes
            ++ record {
              entity_id = entity_id;
              change = change;
              reason = reason;
              event_id = event_id;
              changed_at = env.now;
            }
              ∷ [];
      }

  unfoldable pub write_event_log :
      Env F → String → String → EquipmentEventIn F → Bool → Option String → Db F → Db F
  write_event_log env event_id request_id payload accepted reason db = record db {
    event_logs =
        db.event_logs
        ++ record {
          event_id = event_id;
          request_id = request_id;
          event_type = payload.event_type;
          accepted = accepted;
          reason = reason;
          equipment_id = payload.equipment_id;
          lot_id = payload.lot_id;
          panel_id = payload.panel_id;
          process_step = payload.process_step;
          created_at = env.now;
        }
          ∷ [];
  }
