-- ===== src/MotorDriver/System/Progress.antt =====
-- The threads of src/driver/motor_driver_impl.cpp together: whatever waits can reach the bus.
use hardware_driver.Base.{ℕ, ◌+◌, ◌*◌, ◌<◌, ◌≡◌, List, [], length}
use hardware_driver.MotorDriver.System.{System, Step, Reach}

-- The rounds and calls that are still to come.
abbrev pub left : System → ℕ
left s = 2 * length s.callers + length s.driver.control_queue

-- A state to come in which nothing waits, with the same commands taken on.
abbrev pub Flushes : System → Type 0
Flushes s =
    (t : System) × Reach s t
    × (t.accepted ≡ s.accepted)
    × (t.callers ≡ [])
    × (t.driver.control_queue ≡ [])

-- One step that brings a command nearer to the bus, where one waits.
abbrev pub Advances : System → Type 0
Advances s = (t : System) × Step s t × (t.accepted ≡ s.accepted) × (left t < left s)
