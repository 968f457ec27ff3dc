-- ===== src/MotorEvents.antt =====
-- include/hardware_driver/event/motor_events.hpp: the events that tell of the motors. An event's time
-- stamp is left out: nothing reads it.
pub mod Topics
use Prim.Native.String.{◌++◌}
use hardware_driver.Base.{ℕ, String, List, Bool, to_string}
use hardware_driver.MotorProtocol.{MotorStatus, ParamData}
use hardware_driver.EventBus.{Event}

pub data MotorEvent : Type 0 where
  motor_status_event : String → ℕ → MotorStatus → MotorEvent
  motor_batch_status_event : String → List (ℕ × MotorStatus) → MotorEvent
  motor_function_result_event : String → ℕ → ℕ → Bool → MotorEvent
  motor_parameter_result_event : String → ℕ → ℕ → ℕ → ParamData → MotorEvent

pub get_type_name : MotorEvent → String
get_type_name (motor_status_event interface id status) = "MotorStatusEvent"
get_type_name (motor_batch_status_event interface statuses) = "MotorBatchStatusEvent"
get_type_name (motor_function_result_event interface id op_code success) =
    "MotorFunctionResultEvent"
get_type_name (motor_parameter_result_event interface id address data_type value) =
    "MotorParameterResultEvent"

-- `typeid`, where 0 is the base class.
abbrev pub type_index_of : MotorEvent → ℕ
type_index_of (motor_status_event interface id status) = 1
type_index_of (motor_batch_status_event interface statuses) = 2
type_index_of (motor_function_result_event interface id op_code success) = 3
type_index_of (motor_parameter_result_event interface id address data_type value) = 4

pub get_topic : MotorEvent → String
get_topic (motor_status_event interface id status) =
    ((("motor." ++ interface) ++ ".") ++ to_string id) ++ ".status"
get_topic (motor_batch_status_event interface statuses) = ("motor." ++ interface) ++ ".batch.status"
get_topic (motor_function_result_event interface id op_code success) =
    ((("motor." ++ interface) ++ ".") ++ to_string id) ++ ".function"
get_topic (motor_parameter_result_event interface id address data_type value) =
    ((("motor." ++ interface) ++ ".") ++ to_string id) ++ ".parameter"

-- What the event bus looks at.
abbrev pub event_of : MotorEvent → Event
event_of e = record { type_index = type_index_of e; topic = get_topic e }
