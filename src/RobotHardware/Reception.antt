-- ===== src/RobotHardware/Reception.antt =====
-- src/interface/robot_hardware.cpp: the statuses that motors send, from the frames on an interface to
-- what the user is told. The bus, the motor driver and the robot each have their part.
pub mod Rounds
pub mod StatusFrames
pub mod Batch
use hardware_driver.Base.{List, [], ◌∷◌, ◌++◌}
use hardware_driver.MotorDriver.Dispatch.{Effect, feedback_call}
use hardware_driver.RobotHardware.{RobotHardware, Report, handle_motor_status_with_aggregation}

-- The callback that the constructors register with the motor driver.
unfoldable pub hear : Effect → RobotHardware → RobotHardware × List Report
hear (feedback_call interface motor_id status) r =
    handle_motor_status_with_aggregation interface motor_id status r
hear _ r = (r, [])

-- What leaves the motor driver, in turn.
unfoldable pub hear_all : List Effect → RobotHardware → RobotHardware × List Report
unfolding hear
hear_all [] r = (r, [])
hear_all (x ∷ xs) r =
    let (r', reports) = hear x r in let (r'', more) = hear_all xs r' in (r'', reports ++ more)
