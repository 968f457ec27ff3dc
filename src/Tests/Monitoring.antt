-- ===== src/Tests/Monitoring.antt =====
-- Inputs for the theorems on the monitoring and on the zero positions.
use hardware_driver.Base.{◌+◌, ◌≡◌, refl, [], ◌∷◌, some, true, false, arith, All, find}
use hardware_driver.MotorDriver.{MotorDriver, new_motor_driver}
use hardware_driver.MotorDriver.Dispatch.Turns.{arrives, works, take_turns}
use hardware_driver.RobotHardware.{RobotHardware}
use hardware_driver.RobotHardware.Monitoring.{pause_status_monitoring}
use hardware_driver.RobotHardware.Monitoring.Silence.{
  IsHushed, by_observer, pause_status_monitoring-unheard,
}
use hardware_driver.RobotHardware.Delegates.{arm_zero_position_set}
use hardware_driver.RobotHardware.Delegates.ZeroPosition.{both, arm_zero_position_set_lem}
use hardware_driver.Tests.{float_ops, storage, can0, packet_of}
use hardware_driver.Tests.Robot.{robot}

-- A robot whose user is an observer, the second of the driver's.
abbrev observed : RobotHardware
observed = record robot { batch_status_callback = false; current_observer = some 8 }

abbrev watched : MotorDriver
watched = record (new_motor_driver 0) { observers = 4 ∷ 8 ∷ 5 ∷ [] }

pause_status_monitoring-unheard_example :
    let (r', s') = pause_status_monitoring (λ _. true) observed watched in
    All
      (IsHushed r')
      (take_turns
        (λ _. true)
        (arrives (packet_of 0x303 storage 24)
          ∷ arrives (packet_of 0x503 storage 3)
          ∷ works
          ∷ works
          ∷ [])
        s').1
pause_status_monitoring-unheard_example =
    pause_status_monitoring-unheard (λ _. true) observed watched
      (arrives (packet_of 0x303 storage 24)
        ∷ arrives (packet_of 0x503 storage 3)
        ∷ works
        ∷ works
        ∷ [])
      (by_observer 8 refl refl refl refl refl) (λ o e. refl)

arm_zero_position_set_lem_example :
    (arm_zero_position_set float_ops storage
      (λ i. 100 + i)
      can0
      (1 ∷ 2 ∷ [])
      0
      (new_motor_driver 0)).0.control_queue
    ≡ both float_ops storage (λ i. 100 + i) can0 refl (1 ∷ 2 ∷ []) 0
unfolding find
arm_zero_position_set_lem_example =
    (arm_zero_position_set_lem float_ops storage (λ i. 100 + i) can0 refl (1 ∷ 2 ∷ []) 0
      (new_motor_driver 0) (λ (last, found, same). cc, (λ (last, found, same). cc, tt))
      (omega arith)).0
