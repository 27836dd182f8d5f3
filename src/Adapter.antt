-- ===== src/Adapter.antt =====
-- backend/app/adapters: which adapter serves an equipment, what a push leaves in the telemetry, and
-- which adapters deliver a command.
use displayfab_smart_factory.Prelude.{
  String, Option, none, some, Bool, true, false, [], ◌∷◌, ◌++◌, truthy, ◌==◌, string_eq,
  if◌then◌else◌, get_or,
}
use displayfab_smart_factory.Enums.{InterfaceType, interface_value}
use displayfab_smart_factory.Models.{Equipment, Db}
use displayfab_smart_factory.Models.Tables.{get_equipment}
use displayfab_smart_factory.Schemas.{EquipmentEventIn, utc_of}

-- `get_adapter`; `lower` is that of Python's texts
unfoldable pub get_adapter : (String → String) → Option String → InterfaceType
get_adapter lower interface_type =
    let kind = lower (
      if truthy interface_type
      then get_or interface_type ""
      else interface_value InterfaceType.simulator) in
    if kind == interface_value InterfaceType.opcua
    then InterfaceType.opcua
    else if kind == interface_value InterfaceType.modbus
    then InterfaceType.modbus
    else InterfaceType.simulator

-- `send_command` raises `NotImplementedError` in the OPC UA and the Modbus adapters.
unfoldable pub delivers : InterfaceType → Bool
delivers InterfaceType.simulator = true
delivers InterfaceType.opcua = false
delivers InterfaceType.modbus = false

module _ {F : Type 0} where
  push_row : EquipmentEventIn F → String → Db F → Equipment → Db F
  push_row payload event_id db eq = record db {
    telemetry =
        db.telemetry
        ++ record {
          equipment_id = eq.id;
          source = payload.event_type;
          interface_type =
              if eq.interface_type == ""
              then interface_value InterfaceType.simulator
              else eq.interface_type;
          chamber_temperature = payload.chamber_temperature;
          vacuum_pressure = payload.vacuum_pressure;
          equipment_status = payload.equipment_status;
          recorded_at = utc_of payload.timestamp;
          event_id = event_id;
        }
          ∷ [];
  }

  -- `SimulatorAdapter.accept_push`; its answer is not used
  unfoldable pub accept_push : EquipmentEventIn F → String → Db F → Db F
  unfolding push_row
  accept_push payload event_id db = elim (get_equipment payload.equipment_id db) [
    | none ↦ db
    | some eq ↦ push_row payload event_id db eq
  ]
