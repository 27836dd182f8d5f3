-- ===== src/Enums.antt =====
-- backend/app/enums.py: the codes of states, alarms, commands and events. A code that the program
-- stores in a free-text column has its text beside it.
use displayfab_smart_factory.Prelude.{String, Eq}

pub data ProductType : Type 0 where
  oled lcd : ProductType

abbrev pub product_value : ProductType → String
product_value ProductType.oled = "OLED"
product_value ProductType.lcd = "LCD"

pub data EquipmentStatus : Type 0 where
  idle run stop error maintenance : EquipmentStatus

pub data ConnectionStatus : Type 0 where
  online offline : ConnectionStatus

pub data LotStatus : Type 0 where
  wait processing hold complete : LotStatus

pub data PanelStatus : Type 0 where
  wait processing hold complete fail scrap : PanelStatus

pub data AlarmSeverity : Type 0 where
  info warning critical : AlarmSeverity

pub data AlarmCode : Type 0 where
  communication_loss temperature_out_of_range pressure_out_of_range : AlarmCode
  recipe_mismatch recipe_not_selected invalid_lot invalid_panel : AlarmCode
  duplicate_event stale_timestamp unknown_equipment db_write_failure : AlarmCode
  interlock_violation step_sequence_violation product_route_violation : AlarmCode
  equipment_busy equipment_maintenance equipment_stopped : AlarmCode
  illegal_state_transition inspect_fail panel_scrapped : AlarmCode

-- the texts of the codes that end up in `lot.hold_reason` or in an event log
unfoldable pub alarm_code_value : AlarmCode → String
alarm_code_value AlarmCode.communication_loss = "COMMUNICATION_LOSS"
alarm_code_value AlarmCode.temperature_out_of_range = "TEMPERATURE_OUT_OF_RANGE"
alarm_code_value AlarmCode.pressure_out_of_range = "PRESSURE_OUT_OF_RANGE"
alarm_code_value AlarmCode.recipe_mismatch = "RECIPE_MISMATCH"
alarm_code_value AlarmCode.recipe_not_selected = "RECIPE_NOT_SELECTED"
alarm_code_value AlarmCode.invalid_lot = "INVALID_LOT"
alarm_code_value AlarmCode.invalid_panel = "INVALID_PANEL"
alarm_code_value AlarmCode.duplicate_event = "DUPLICATE_EVENT"
alarm_code_value AlarmCode.stale_timestamp = "STALE_TIMESTAMP"
alarm_code_value AlarmCode.unknown_equipment = "UNKNOWN_EQUIPMENT"
alarm_code_value AlarmCode.db_write_failure = "DB_WRITE_FAILURE"
alarm_code_value AlarmCode.interlock_violation = "INTERLOCK_VIOLATION"
alarm_code_value AlarmCode.step_sequence_violation = "STEP_SEQUENCE_VIOLATION"
alarm_code_value AlarmCode.product_route_violation = "PRODUCT_ROUTE_VIOLATION"
alarm_code_value AlarmCode.equipment_busy = "EQUIPMENT_BUSY"
alarm_code_value AlarmCode.equipment_maintenance = "EQUIPMENT_MAINTENANCE"
alarm_code_value AlarmCode.equipment_stopped = "EQUIPMENT_STOPPED"
alarm_code_value AlarmCode.illegal_state_transition = "ILLEGAL_STATE_TRANSITION"
alarm_code_value AlarmCode.inspect_fail = "INSPECT_FAIL"
alarm_code_value AlarmCode.panel_scrapped = "PANEL_SCRAPPED"

pub data ProcessStep : Type 0 where
  load clean evap encap pi lcd_cell inspect deposition : ProcessStep

-- A step is free text in the events and in the tables.
abbrev pub step_value : ProcessStep → String
step_value ProcessStep.load = "LOAD"
step_value ProcessStep.clean = "CLEAN"
step_value ProcessStep.evap = "EVAP"
step_value ProcessStep.encap = "ENCAP"
step_value ProcessStep.pi = "PI"
step_value ProcessStep.lcd_cell = "LCD_CELL"
step_value ProcessStep.inspect = "INSPECT"
step_value ProcessStep.deposition = "DEPOSITION"

pub data EventType : Type 0 where
  heartbeat process : EventType

abbrev pub event_type_value : EventType → String
event_type_value EventType.heartbeat = "HEARTBEAT"
event_type_value EventType.process = "PROCESS"

pub data InterfaceType : Type 0 where
  simulator opcua modbus : InterfaceType

abbrev pub interface_value : InterfaceType → String
interface_value InterfaceType.simulator = "simulator"
interface_value InterfaceType.opcua = "opcua"
interface_value InterfaceType.modbus = "modbus"

pub data DowntimeReason : Type 0 where
  communication_loss stop maintenance error : DowntimeReason

pub data CommandType : Type 0 where
  hold_lot release_lot maint_enter maint_exit ack_alarm : CommandType
  start stop select_recipe scrap_panel : CommandType

pub data WorkOrderStatus : Type 0 where
  planned released done : WorkOrderStatus

pub data CommandStatus : Type 0 where
  accepted rejected completed : CommandStatus

pub data InspectResult : Type 0 where
  pass fail : InspectResult

abbrev pub inspect_value : InspectResult → String
inspect_value InspectResult.pass = "PASS"
inspect_value InspectResult.fail = "FAIL"

-- `ALARM_SEVERITY_BY_CODE`: the clauses above the last name every code that is not critical.
unfoldable pub alarm_severity_by_code : AlarmCode → AlarmSeverity
alarm_severity_by_code AlarmCode.temperature_out_of_range = AlarmSeverity.warning
alarm_severity_by_code AlarmCode.pressure_out_of_range = AlarmSeverity.warning
alarm_severity_by_code AlarmCode.duplicate_event = AlarmSeverity.warning
alarm_severity_by_code AlarmCode.stale_timestamp = AlarmSeverity.warning
alarm_severity_by_code AlarmCode.equipment_busy = AlarmSeverity.warning
alarm_severity_by_code AlarmCode.equipment_maintenance = AlarmSeverity.warning
alarm_severity_by_code AlarmCode.equipment_stopped = AlarmSeverity.warning
alarm_severity_by_code AlarmCode.illegal_state_transition = AlarmSeverity.warning
alarm_severity_by_code AlarmCode.panel_scrapped = AlarmSeverity.warning
alarm_severity_by_code _ = AlarmSeverity.critical

unfoldable pub EquipmentStatus-discrete : Discrete EquipmentStatus
EquipmentStatus-discrete = hlevel

instance abbrev pub equipment_status_eq : Eq EquipmentStatus
equipment_status_eq = record { dec = EquipmentStatus-discrete }

unfoldable pub ConnectionStatus-discrete : Discrete ConnectionStatus
ConnectionStatus-discrete = hlevel

instance abbrev pub connection_status_eq : Eq ConnectionStatus
connection_status_eq = record { dec = ConnectionStatus-discrete }

unfoldable pub LotStatus-discrete : Discrete LotStatus
LotStatus-discrete = hlevel

instance abbrev pub lot_status_eq : Eq LotStatus
lot_status_eq = record { dec = LotStatus-discrete }

unfoldable pub PanelStatus-discrete : Discrete PanelStatus
PanelStatus-discrete = hlevel

instance abbrev pub panel_status_eq : Eq PanelStatus
panel_status_eq = record { dec = PanelStatus-discrete }

unfoldable pub AlarmCode-discrete : Discrete AlarmCode
AlarmCode-discrete = hlevel

instance abbrev pub alarm_code_eq : Eq AlarmCode
alarm_code_eq = record { dec = AlarmCode-discrete }

unfoldable pub AlarmSeverity-discrete : Discrete AlarmSeverity
AlarmSeverity-discrete = hlevel

instance abbrev pub alarm_severity_eq : Eq AlarmSeverity
alarm_severity_eq = record { dec = AlarmSeverity-discrete }

unfoldable pub DowntimeReason-discrete : Discrete DowntimeReason
DowntimeReason-discrete = hlevel

instance abbrev pub downtime_reason_eq : Eq DowntimeReason
downtime_reason_eq = record { dec = DowntimeReason-discrete }

unfoldable pub CommandStatus-discrete : Discrete CommandStatus
CommandStatus-discrete = hlevel

instance abbrev pub command_status_eq : Eq CommandStatus
command_status_eq = record { dec = CommandStatus-discrete }

unfoldable pub WorkOrderStatus-discrete : Discrete WorkOrderStatus
WorkOrderStatus-discrete = hlevel

instance abbrev pub work_order_status_eq : Eq WorkOrderStatus
work_order_status_eq = record { dec = WorkOrderStatus-discrete }

unfoldable pub CommandType-discrete : Discrete CommandType
CommandType-discrete = hlevel

instance abbrev pub command_type_eq : Eq CommandType
command_type_eq = record { dec = CommandType-discrete }

unfoldable pub EventType-discrete : Discrete EventType
EventType-discrete = hlevel

instance abbrev pub event_type_eq : Eq EventType
event_type_eq = record { dec = EventType-discrete }
