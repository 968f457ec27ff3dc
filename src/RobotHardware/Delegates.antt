-- ===== src/RobotHardware/Delegates.antt =====
-- src/interface/robot_hardware.cpp: the calls that are handed on to the motor driver, the gripper
-- driver and the button driver.
pub mod ZeroPosition
pub mod ParameterWrite
use hardware_driver.Base.{
  ℕ, ◌+◌, String, List, [], ◌∷◌, Bool, true, false, ◌==◌, if◌then◌else◌, Option, none, some,
}
use hardware_driver.Bus.{Outcome, done, GenericBusPacket, SendResult}
use hardware_driver.Float32.{FloatOps}
use hardware_driver.GripperProtocol.{GripperType}
use hardware_driver.GripperDriver
use hardware_driver.ButtonDriver.{ButtonDriver, Notice}
use hardware_driver.ButtonDriver
use hardware_driver.MotorDriver.{MotorDriver, Admission}
use hardware_driver.MotorDriver.Commands
use hardware_driver.MotorDriver.Update
use hardware_driver.MotorDriver.Dispatch.{Effect, button_packet, register_button_packet_callback}

module _ (f : FloatOps) (raw : List ℕ) (now : ℕ) where
  pub control_motor_in_position_mode :
      String → ℕ → ℕ → ℕ → ℕ → MotorDriver → MotorDriver × Admission
  control_motor_in_position_mode = Commands.send_position_cmd f raw now

  pub control_motor_in_velocity_mode :
      String → ℕ → ℕ → ℕ → ℕ → MotorDriver → MotorDriver × Admission
  control_motor_in_velocity_mode = Commands.send_velocity_cmd f raw now

  pub control_motor_in_effort_mode : String → ℕ → ℕ → ℕ → ℕ → MotorDriver → MotorDriver × Admission
  control_motor_in_effort_mode = Commands.send_effort_cmd f raw now

  pub control_motor_in_mit_mode :
      String → ℕ → ℕ → ℕ → ℕ → ℕ → ℕ → MotorDriver → MotorDriver × Admission
  control_motor_in_mit_mode = Commands.send_mit_cmd f raw now

  pub disable_motor : String → ℕ → ℕ → MotorDriver → MotorDriver × Admission
  disable_motor = Commands.disable_motor f raw now

  pub enable_motor : String → ℕ → ℕ → MotorDriver → MotorDriver × Admission
  enable_motor = Commands.enable_motor f raw now

  pub disable_motors : String → List ℕ → ℕ → MotorDriver → MotorDriver × Admission
  disable_motors = Commands.disable_all_motors f raw now

  pub enable_motors : String → List ℕ → ℕ → MotorDriver → MotorDriver × Admission
  enable_motors = Commands.enable_all_motors f raw now

  pub motor_parameter_read : String → ℕ → ℕ → MotorDriver → MotorDriver × Admission
  motor_parameter_read = Commands.motor_parameter_read f raw now

  pub motor_parameter_write_int : String → ℕ → ℕ → ℕ → MotorDriver → MotorDriver × Admission
  motor_parameter_write_int = Commands.motor_parameter_write_int f raw now

  pub motor_parameter_write_float : String → ℕ → ℕ → ℕ → MotorDriver → MotorDriver × Admission
  motor_parameter_write_float = Commands.motor_parameter_write_float f raw now

  pub motor_function_operation : String → ℕ → ℕ → MotorDriver → MotorDriver × Admission
  motor_function_operation = Commands.motor_function_operation f raw now

-- For each motor the operation 4 and then 2, each at its own reading of the clock; what has become of
-- the calls.
pub arm_zero_position_set :
    FloatOps → List ℕ → (ℕ → ℕ) → String → List ℕ → ℕ → MotorDriver → MotorDriver × List Admission
arm_zero_position_set f raw clock interface [] i s = (s, [])
arm_zero_position_set f raw clock interface (m ∷ ms) i s =
    let (t, first) = Commands.motor_function_operation f raw (clock i) interface m 4 s in
    let (u, second) = Commands.motor_function_operation f raw (clock (i + 1)) interface m 2 t in
    let (v, rest) = arm_zero_position_set f raw clock interface ms (i + 2) u in
    (v, first ∷ second ∷ rest)

pub start_update :
    List ℕ
    → String
    → ℕ
    → Option (List ℕ)
    → MotorDriver
    → Outcome (MotorDriver × List GenericBusPacket)
start_update = Update.start_update

-- Grippers ---------------------------------------------------------------------------------------

-- `static_cast<GripperType>(gripper_type)`
abbrev pub to_gripper_type : ℕ → GripperType
to_gripper_type t =
    if t == 0
    then GripperType.omni_picker
    else if t == 1
    then GripperType.pgc_gripper
    else if t == 2
    then GripperType.raw_frame
    else GripperType.unknown t

-- `is_set` says whether there is a gripper driver: without one a call is only reported.
module _ (send : GenericBusPacket → SendResult) (raw : List ℕ) (is_set : Bool) where
  abbrev with_gripper_driver :
      Outcome (List GenericBusPacket × Bool) → Outcome (List GenericBusPacket × Bool)
  with_gripper_driver call = if is_set then call else done ([], false)

  pub control_gripper : String → ℕ → ℕ → ℕ → ℕ → Outcome (List GenericBusPacket × Bool)
  control_gripper interface t position velocity effort = with_gripper_driver (
      GripperDriver.control_gripper send raw interface (to_gripper_type t) position velocity effort)

  pub open_gripper : String → ℕ → ℕ → ℕ → Outcome (List GenericBusPacket × Bool)
  open_gripper interface t velocity effort =
      with_gripper_driver
        (GripperDriver.open_gripper send raw interface (to_gripper_type t) velocity effort)

  pub close_gripper : String → ℕ → ℕ → ℕ → Outcome (List GenericBusPacket × Bool)
  close_gripper interface t velocity effort =
      with_gripper_driver
        (GripperDriver.close_gripper send raw interface (to_gripper_type t) velocity effort)

  pub send_gripper_raw_data : String → Option (List ℕ) → ℕ → Outcome (List GenericBusPacket × Bool)
  send_gripper_raw_data interface raw_data n =
      with_gripper_driver (GripperDriver.send_raw_data send raw interface raw_data n)

-- Buttons ----------------------------------------------------------------------------------------

-- A button driver, or a null pointer, which leaves an earlier callback.
pub set_button_driver : Option ButtonDriver → MotorDriver → Option ButtonDriver × MotorDriver
set_button_driver none s = (none, s)
set_button_driver (some b) s = (some b, register_button_packet_callback true s)

-- The callback that is registered with the motor driver.
pub forward_button : Effect → ButtonDriver → ButtonDriver × List Notice
forward_button (button_packet interface can_id d len) b =
    ButtonDriver.handle_can_packet interface can_id d len b
forward_button _ b = (b, [])

pub add_button_observer : Option ℕ → Option ButtonDriver → Option ButtonDriver
add_button_observer o none = none
add_button_observer o (some b) = some (ButtonDriver.add_observer o b)

pub remove_button_observer : Option ℕ → Option ButtonDriver → Option ButtonDriver
remove_button_observer o none = none
remove_button_observer o (some b) = some (ButtonDriver.remove_observer o b)
