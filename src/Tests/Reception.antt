-- ===== src/Tests/Reception.antt =====
-- Inputs for the theorems on what is received.
use mathlib.Core.List.Memᴰ
use hardware_driver.Base.{
  ℕ, ◌≡◌, refl, String, List, [], ◌∷◌, true, Option, none, some, arith, map, find, string_eq,
  if◌then◌else◌,
}
use hardware_driver.Bus.{GenericBusPacket, new_packet}
use hardware_driver.CanFdBus.{new_canfd_bus, receive_loop, receive_frame}
use hardware_driver.CanFdBus.Threads.{receive_loop-new_canfd_bus}
use hardware_driver.MotorDriver.{MotorDriver, new_motor_driver}
use hardware_driver.MotorProtocol.{ParamData}
use hardware_driver.RobotHardware.Delegates.{motor_parameter_write_int}
use hardware_driver.RobotHardware.Delegates.ParameterWrite.{
  IsAnswered, motor_parameter_write_int-IsAnswered,
}
use hardware_driver.MotorDriver.Construction.{construct, construct-HasFlags}
use hardware_driver.MotorDriver.Dispatch.Turns.{Turn, arrives, works, arrivals, take_turns}
use hardware_driver.RobotHardware.{batch_report}
use hardware_driver.RobotHardware.Monitoring.{new_with_batch_callback}
use hardware_driver.RobotHardware.Reception.{hear_all}
use hardware_driver.RobotHardware.Reception.Rounds.{Statuses, IsRound, all_of_them}
use hardware_driver.RobotHardware.Reception.StatusFrames.{reads, frame_of}
use hardware_driver.RobotHardware.Reception.Batch.{new_with_batch_callback-rounds}
use hardware_driver.Tests.{float_ops, storage, can0, a_status, a_status-IsInRange}

-- The kernel binds the first interface and not the second.
abbrev bind : String → Option ℕ
bind name = if string_eq.is_equal name can0 then some 3 else none

abbrev names : List String
names = can0 ∷ "can1" ∷ []

receive_loop-new_canfd_bus_example :
    receive_loop (new_canfd_bus bind names) storage "can1" (none ∷ []) ≡ none
unfolding new_canfd_bus
receive_loop-new_canfd_bus_example =
    (receive_loop-new_canfd_bus bind names storage "can1" none [] (Memᴰ.tail (Memᴰ.head refl))).1
      refl

-- The motors answer in one order, and then in the other.
abbrev first_round : Statuses
first_round = (1, a_status) ∷ (2, a_status) ∷ []

abbrev second_round : Statuses
second_round = (2, a_status) ∷ (1, a_status) ∷ []

first_round-IsRound : IsRound (1 ∷ 2 ∷ []) first_round
unfolding find
first_round-IsRound = record {
  new = (refl, (refl, tt));
  wanted = (Memᴰ.head refl, (Memᴰ.tail (Memᴰ.head refl), tt));
  complete = (λ e. cc, (λ e. cc, tt));
}

second_round-IsRound : IsRound (1 ∷ 2 ∷ []) second_round
unfolding find
second_round-IsRound = record {
  new = (refl, (refl, tt));
  wanted = (Memᴰ.tail (Memᴰ.head refl), (Memᴰ.head refl, tt));
  complete = (λ e. cc, (λ e. cc, tt));
}

-- The data thread takes the first two packets late.
abbrev packet : ℕ → GenericBusPacket
packet m = receive_frame true (frame_of m a_status) (new_packet storage can0 0)

abbrev turns : List Turn
turns =
    arrives (packet 1)
    ∷ arrives (packet 2)
    ∷ works
    ∷ arrives (packet 2)
    ∷ works
    ∷ works
    ∷ arrives (packet 1)
    ∷ works
    ∷ works
    ∷ []

new_with_batch_callback-rounds_example :
    let (r, d) = new_with_batch_callback true ((can0, 1 ∷ 2 ∷ []) ∷ []) (new_motor_driver 0) in
    let rounds = first_round ∷ second_round ∷ [] in
    (receive_loop (new_canfd_bus bind names) storage can0 (reads (all_of_them rounds))
      ≡ some (arrivals turns))
    × ((hear_all (take_turns (λ _. true) turns d).1 r).1 ≡ map (batch_report can0) rounds)
unfolding find
new_with_batch_callback-rounds_example =
    new_with_batch_callback-rounds (λ _. true) bind names storage ((can0, 1 ∷ 2 ∷ []) ∷ [])
      (new_motor_driver 0) can0 1 (2 ∷ []) (first_round ∷ second_round ∷ []) turns refl
      (Memᴰ.head refl) refl refl (first_round-IsRound, (second_round-IsRound, tt))
      (
        ((omega arith, a_status-IsInRange), ((omega arith, a_status-IsInRange), tt)),
        (((omega arith, a_status-IsInRange), ((omega arith, a_status-IsInRange), tt)), tt),
      )
      refl refl (omega arith, (omega arith, (omega arith, (omega arith, refl))))

abbrev idle : MotorDriver
idle = record (new_motor_driver 0) { observers = 4 ∷ 8 ∷ []; event_bus = true }

motor_parameter_write_int-IsAnswered_example :
    IsAnswered
      (λ _. true)
      (new_canfd_bus bind names)
      3
      storage
      storage
      100
      101
      can0
      5
      0x1234
      (motor_parameter_write_int float_ops storage 100 can0 5 0x1234 77 idle).0
      1
      (ParamData.int32 77)
unfolding new_canfd_bus find
motor_parameter_write_int-IsAnswered_example =
    (motor_parameter_write_int-IsAnswered (λ _. true) (new_canfd_bus bind names) 3 storage storage
        100 101 can0 5 0x1234 float_ops 77 idle refl refl (omega arith) (omega arith) (omega arith)
        refl refl refl).0
      (λ (last, found, same). cc)

-- A bus of which the second interface could not be bound.
construct-HasFlags_example : construct 7 (new_canfd_bus bind names) ≡ none
unfolding new_canfd_bus find
construct-HasFlags_example =
    (construct-HasFlags 7 (new_canfd_bus bind names)).1 "can1" (Memᴰ.tail (Memᴰ.head refl)) refl
