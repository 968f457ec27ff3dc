-- ===== src/RobotHardware/Monitoring.antt =====
-- src/interface/robot_hardware.cpp: the ways to hear of the motors' statuses, one constructor each,
-- and how they are paused. The motor driver is a `MotorDriverImpl`, so that the casts succeed.
pub mod Silence
pub mod Resume
use hardware_driver.Base.{
  ℕ, String, List, [], Bool, true, false, not, ◌&&◌, ◌||◌, ◌==◌, if◌then◌else◌, Option, none, some,
}
use hardware_driver.MotorDriver.{MotorDriver}
use hardware_driver.MotorDriver.Dispatch.{
  Effect, button_packet, feedback_call, status_notice, function_notice, parameter_notice,
  iap_notice, status_event, function_event, parameter_event, register_feedback_callback,
  add_observer, remove_observer, add_iap_observer, set_event_bus,
}
use hardware_driver.MotorDriver.Feedback.{set_motor_config}
use hardware_driver.EventBus.{EventBus, subscribe}
use hardware_driver.RobotHardware.{RobotHardware}

-- What the constructors have in common.
abbrev plain : List (String × List ℕ) → RobotHardware
plain config = record {
  interface_motor_config = config;
  status_callback = false;
  batch_status_callback = false;
  event_bus = false;
  status_cache = [];
  current_observer = none;
  current_iap_observer = none;
  current_event_handler = false;
  monitoring_paused = false;
}

-- `callback` says whether it is not null; the driver is otherwise left as it is.
pub new_with_callback : Bool → List (String × List ℕ) → MotorDriver → RobotHardware × MotorDriver
new_with_callback callback config s =
    let registered = if callback then register_feedback_callback true s else s in
    (record (plain config) { status_callback = callback }, set_motor_config config registered)

-- The driver calls `handle_motor_status_with_aggregation`, also where the batch callback is null.
unfoldable pub new_with_batch_callback :
    Bool → List (String × List ℕ) → MotorDriver → RobotHardware × MotorDriver
new_with_batch_callback callback config s = (
  record (plain config) { batch_status_callback = callback },
  set_motor_config config (register_feedback_callback true s),
)

-- Without an observer the driver is left alone.
pub new_with_observer :
    Option ℕ → List (String × List ℕ) → MotorDriver → RobotHardware × MotorDriver
new_with_observer observer config s = (
  record (plain config) { current_observer = observer },
  elim observer [ none ↦ s | some o ↦ set_motor_config config (add_observer o s) ],
)

pub new_with_iap_observer :
    Option ℕ → List (String × List ℕ) → MotorDriver → RobotHardware × MotorDriver
new_with_iap_observer observer config s = (
  record (plain config) { current_iap_observer = observer },
  elim observer [ none ↦ s | some o ↦ set_motor_config config (add_iap_observer o s) ],
)

-- The handlers of the four subscriptions, for the types of `MotorEvents.type_index_of`.
pub record Subscriptions : Type 0 where
  pub status : ℕ
  pub batch : ℕ
  pub function : ℕ
  pub parameter : ℕ

abbrev pub subscribed : Subscriptions → EventBus → EventBus
subscribed n bus =
    subscribe 4 n.parameter
      (subscribe 3 n.function (subscribe 2 n.batch (subscribe 1 n.status bus)))

-- The bus, or a null pointer, and whether the handler is not null. Without either both are left.
pub new_with_event_bus :
    Option EventBus
    → Bool
    → Subscriptions
    → List (String × List ℕ)
    → MotorDriver
    → RobotHardware × MotorDriver × Option EventBus
new_with_event_bus none handler n config s =
    (record (plain config) { current_event_handler = handler }, s, none)
new_with_event_bus (some bus) handler n config s =
    let r = record (plain config) { event_bus = true; current_event_handler = handler } in
    if handler
    then (r, set_motor_config config (set_event_bus true s), some (subscribed n bus))
    else (r, s, some bus)

-- The test of the four subscriptions.
abbrev pub forwards : RobotHardware → Bool
forwards r = r.current_event_handler && not r.monitoring_paused

abbrev pub is_one : Option ℕ → ℕ → Bool
is_one none w = false
is_one (some o) w = w == o

-- Whether the user hears of what leaves the motor driver: by a callback, an observer,
-- or a handler. Packets of buttons reach the observers of the buttons, whatever the robot does.
pub reaches : RobotHardware → Effect → Bool
reaches r (button_packet i id d n) = true
reaches r (feedback_call i m st) = r.status_callback || r.batch_status_callback
reaches r (status_notice o i m st) = is_one r.current_observer o
reaches r (function_notice o i m op ok) = is_one r.current_observer o
reaches r (parameter_notice o i m a d v) = is_one r.current_observer o
reaches r (iap_notice o i m st) = is_one r.current_iap_observer o
reaches r (status_event i m st) = forwards r
reaches r (function_event i m op ok) = forwards r
reaches r (parameter_event i m a d v) = forwards r

pub pause_status_monitoring : (ℕ → Bool) → RobotHardware → MotorDriver → RobotHardware × MotorDriver
pause_status_monitoring alive r s =
    let paused = record r { monitoring_paused = true } in
    elim r.current_observer [
      | some o ↦ (paused, remove_observer alive (some o) s)
      | none ↦
          if r.status_callback || r.batch_status_callback
          then (paused, register_feedback_callback false s)
          else if r.current_event_handler
          then (paused, s)
          else (r, s)
    ]

pub resume_status_monitoring : RobotHardware → MotorDriver → RobotHardware × MotorDriver
resume_status_monitoring r s =
    let resumed = record r { monitoring_paused = false } in
    if not r.monitoring_paused then (r, s) else elim r.current_observer [
      | some o ↦ (resumed, add_observer o s)
      | none ↦
          if r.status_callback
          then (resumed, register_feedback_callback true s)
          else if r.batch_status_callback
          then (resumed, register_feedback_callback true s)
          else if r.current_event_handler
          then (resumed, s)
          else (r, s)
    ]
