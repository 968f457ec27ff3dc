-- ===== src/EventBridge.antt =====
-- src/event/event_bridge.hpp: an observer of the motor driver that turns what it is told into events
-- on an event bus. A bridge without a bus, a null pointer, does nothing.
pub mod SameEvents
use hardware_driver.Base.{
  ℕ, String, List, [], ◌∷◌, ◌++◌, Bool, true, ◌==◌, if◌then◌else◌, Option, none, some,
}
use hardware_driver.MotorProtocol.{MotorStatus, ParamData}
use hardware_driver.EventBus.{EventBus, publish}
use hardware_driver.MotorEvents.{
  MotorEvent, motor_status_event, motor_batch_status_event, motor_function_result_event,
  motor_parameter_result_event, event_of,
}
use hardware_driver.MotorDriver.Dispatch.{
  Effect, button_packet, feedback_call, status_notice, function_notice, parameter_notice,
  iap_notice, status_event, function_event, parameter_event,
}

-- `event_bus->emit<...>(...)`: the bus, and the handlers that are called.
pub emit : (ℕ → Bool) → MotorEvent → EventBus → EventBus × List ℕ
emit alive e s = publish alive (some (event_of e)) s

pub emit_if_set : (ℕ → Bool) → MotorEvent → Option EventBus → Option EventBus × List ℕ
unfolding emit
emit_if_set alive e none = (none, [])
emit_if_set alive e (some s) = (some (emit alive e s).0, (emit alive e s).1)

module _ (alive : ℕ → Bool) where
  pub on_motor_status_update : String → ℕ → MotorStatus → Option EventBus → Option EventBus × List ℕ
  unfolding emit_if_set
  on_motor_status_update interface motor_id status =
      emit_if_set alive (motor_status_event interface motor_id status)

  pub on_motor_status_update_all :
      String → List (ℕ × MotorStatus) → Option EventBus → Option EventBus × List ℕ
  unfolding emit_if_set
  on_motor_status_update_all interface status_all =
      emit_if_set alive (motor_batch_status_event interface status_all)

  pub on_motor_function_result : String → ℕ → ℕ → Bool → Option EventBus → Option EventBus × List ℕ
  unfolding emit_if_set
  on_motor_function_result interface motor_id op_code success =
      emit_if_set alive (motor_function_result_event interface motor_id op_code success)

  pub on_motor_parameter_result :
      String → ℕ → ℕ → ℕ → ParamData → Option EventBus → Option EventBus × List ℕ
  unfolding emit_if_set
  on_motor_parameter_result interface motor_id address data_type value =
      emit_if_set alive (motor_parameter_result_event interface motor_id address data_type value)

  -- What the bridge with an identity does when the motor driver calls its observers.
  pub bridge_step : ℕ → Effect → Option EventBus → Option EventBus × List ℕ
  unfolding on_motor_status_update on_motor_function_result on_motor_parameter_result
  bridge_step bridge (status_notice o interface id status) bus =
      if o == bridge then on_motor_status_update interface id status bus else (bus, [])
  bridge_step bridge (function_notice o interface id op_code success) bus =
      if o == bridge then on_motor_function_result interface id op_code success bus else (bus, [])
  bridge_step bridge (parameter_notice o interface id address data_type value) bus =
      if o == bridge
      then on_motor_parameter_result interface id address data_type value bus
      else (bus, [])
  bridge_step bridge _ bus = (bus, [])

  -- What the motor driver does with a bus of its own, in `emit_motor_..._event`.
  pub own_step : Effect → Option EventBus → Option EventBus × List ℕ
  unfolding emit_if_set
  own_step (status_event interface id status) bus =
      emit_if_set alive (motor_status_event interface id status) bus
  own_step (function_event interface id op_code success) bus =
      emit_if_set alive (motor_function_result_event interface id op_code success) bus
  own_step (parameter_event interface id address data_type value) bus =
      emit_if_set alive (motor_parameter_result_event interface id address data_type value) bus
  own_step _ bus = (bus, [])

-- Effects in turn: the bus, and the handlers that are called.
pub run :
    (Effect → Option EventBus → Option EventBus × List ℕ)
    → List Effect
    → Option EventBus
    → Option EventBus × List ℕ
run step [] bus = (bus, [])
run step (x ∷ xs) bus =
    let (bus', calls) = step x bus in let (bus'', more) = run step xs bus' in (bus'', calls ++ more)
