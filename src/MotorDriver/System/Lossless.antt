-- ===== src/MotorDriver/System/Lossless.antt =====
-- The threads of src/driver/motor_driver_impl.cpp together: no command is lost and no queue overflows.
use mathlib.Core.List.{Perm}
use mathlib.Core.List.Perm
use hardware_driver.Base.{◌≤◌, ◌≡◌, List, ◌++◌, map, length}
use hardware_driver.Bus.{GenericBusPacket}
use hardware_driver.MotorDriver.{MotorDriver, max_queue_size}
use hardware_driver.MotorDriver.System.Queues.{queued}
use hardware_driver.MotorDriver.System.{System}

-- The commands of the calls that wait.
abbrev pub waiting : System → List GenericBusPacket
waiting s = map (λ c. c.packet) s.callers

-- What holds in every state: the queues are in bounds, every command that was accepted has been
-- handed to the bus, or is in the queue or in a call that waits, and the receive queue holds the latest arrivals.
pub record IsSound (s : System) : Type 0 where
  pub control_bound : length s.driver.control_queue ≤ max_queue_size
  pub receive_bound : length s.driver.receive_queue ≤ max_queue_size
  pub kept : Perm s.accepted (s.wire ++ (queued s.driver ++ waiting s))
  pub latest : (gone : List GenericBusPacket) × (s.arrived ≡ gone ++ s.driver.receive_queue)
