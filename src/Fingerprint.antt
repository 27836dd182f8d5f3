-- ===== src/Fingerprint.antt =====
-- backend/app/services/fingerprint.py: the digest by which a repeated PROCESS event is known.
use Prim.Native.String.{◌++◌ as append}
use displayfab_smart_factory.Prelude.{String, List, [], ◌∷◌, get_or}
use displayfab_smart_factory.Enums.{event_type_value}
use displayfab_smart_factory.Rules.{normalize_step}
use displayfab_smart_factory.Schemas.{EquipmentEventIn, utc_of}
use displayfab_smart_factory.Env.{Env}

-- `"|".join(fields)`
unfoldable pub join : List String → String
join [] = ""
join (s ∷ []) = s
join (s ∷ t ∷ rest) = append s (append "|" (join (t ∷ rest)))

module _ {F : Type 0} where
  unfoldable pub event_fingerprint : Env F → EquipmentEventIn F → String
  event_fingerprint env payload = env.sha256_hex (
      join (
        event_type_value payload.event_type
        ∷ payload.equipment_id
        ∷ get_or payload.lot_id ""
        ∷ get_or payload.panel_id ""
        ∷ get_or (normalize_step payload.process_step) ""
        ∷ get_or payload.recipe_id ""
        ∷ env.isoformat (utc_of payload.timestamp)
        ∷ []))
