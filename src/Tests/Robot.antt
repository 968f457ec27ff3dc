-- ===== src/Tests/Robot.antt =====
-- Inputs for the theorems on the robot's interface.
use hardware_driver.Base.{
  ◌+◌, ◌≤◌, refl, [], ◌∷◌, ◌++◌, none, some, true, false, arith, nat_eq, string_eq,
}
use hardware_driver.RobotHardware.{RobotHardware}
use hardware_driver.RobotHardware.Trajectory.{
  TrajectoryPoint, running, paused, Task, Execution, checking, waiting, sending, Reach, start,
  later, begin, go, hold_on, send, count, enter, cancelling, launched, first_positions,
  positions_of, cancel_trajectory,
}
use hardware_driver.RobotHardware.Trajectory.Safety.{IsFaithful, Reach-IsFaithful}
use hardware_driver.RobotHardware.Trajectory.Cancel.{
  allowance, IsStuck, cancel_trajectory-bound, cancelled_while_paused-IsStuck,
}
use hardware_driver.Tests.{float_ops, can0, a_status}

-- Motor 1 has reported, motor 2 is missing.
abbrev pub robot : RobotHardware
robot = record {
  interface_motor_config = (can0, 1 ∷ 2 ∷ []) ∷ [];
  status_callback = false;
  batch_status_callback = true;
  event_bus = false;
  current_observer = none;
  current_iap_observer = none;
  current_event_handler = false;
  monitoring_paused = false;
  status_cache = (can0, (1, a_status) ∷ []) ∷ [];
}

-- A trajectory of two points, with its first point sent.
abbrev pub first_point : TrajectoryPoint
first_point = record { time_from_start = 0; positions = 11 ∷ 12 ∷ [] }

abbrev pub second_point : TrajectoryPoint
second_point = record { time_from_start = 50; positions = 21 ∷ 22 ∷ [] }

abbrev pub a_task : Task
a_task = record {
  interface = can0;
  points = first_point ∷ second_point ∷ [];
  state = running;
  current_point_index = 0;
  should_stop = false;
  should_pause = false;
  start_time = none;
  pause_elapsed = 0;
  pause_start_time = none;
  error_message = "";
}

abbrev pub one_sent : Execution
one_sent = record {
  task = record a_task { start_time = some 3; current_point_index = 1 };
  place = checking 1;
  sent = (11 ∷ 12 ∷ 0 ∷ 0 ∷ 0 ∷ 0 ∷ []) ∷ [];
  calls = [];
}

pub one_sent-Reach : Reach float_ops (1 ∷ 2 ∷ []) (launched a_task) one_sent
unfolding positions_of first_positions
one_sent-Reach =
    later
      (later (later (later start (begin 3 refl)) (go 0 refl (omega arith) refl refl))
        (send 0 first_point refl refl refl))
      (count 0 refl)

Reach-IsFaithful_example : IsFaithful float_ops (1 ∷ 2 ∷ []) a_task.points one_sent
Reach-IsFaithful_example =
    Reach-IsFaithful float_ops (1 ∷ 2 ∷ []) a_task one_sent refl refl one_sent-Reach

-- The task is cancelled just before its second point is sent.
abbrev about_to_send : Execution
about_to_send = record one_sent { place = sending 1 }

abbrev cancelled_late : Execution
cancelled_late = record {
  task = record (cancel_trajectory about_to_send.task).0 { current_point_index = 2 };
  place = checking 2;
  sent = one_sent.sent ++ (21 ∷ 22 ∷ 0 ∷ 0 ∷ 0 ∷ 0 ∷ []) ∷ [];
  calls = [];
}

cancelled_late-Reach :
    Reach float_ops
      (1 ∷ 2 ∷ [])
      (record about_to_send { task = (cancel_trajectory about_to_send.task).0 })
      cancelled_late
unfolding positions_of first_positions cancel_trajectory
cancelled_late-Reach = later (later start (send 1 second_point refl refl refl)) (count 1 refl)

cancel_trajectory-bound_example : 2 ≤ 1 + allowance (sending 1)
cancel_trajectory-bound_example =
    cancel_trajectory-bound float_ops (1 ∷ 2 ∷ []) about_to_send cancelled_late refl
      cancelled_late-Reach

abbrev on_hold : Execution
on_hold = record {
  task = record a_task {
    state = paused;
    should_pause = true;
    start_time = some 3;
    current_point_index = 1;
    pause_start_time = some 9;
  };
  place = waiting 1;
  sent = (11 ∷ 12 ∷ 0 ∷ 0 ∷ 0 ∷ 0 ∷ []) ∷ [];
  calls = cancelling ∷ [];
}

abbrev cancelled_on_hold : Execution
cancelled_on_hold = record on_hold { task = (cancel_trajectory on_hold.task).0 }

-- Another call to cancel it is in progress, which takes the lock after the worker has looked again.
abbrev still_on_hold : Execution
still_on_hold = record cancelled_on_hold { calls = [] }

still_on_hold-Reach : Reach float_ops (1 ∷ 2 ∷ []) cancelled_on_hold still_on_hold
unfolding cancel_trajectory
still_on_hold-Reach = later (later start (hold_on 1 15 refl refl)) (enter 20 cancelling [] [] refl)

cancelled_while_paused-IsStuck_example : IsStuck float_ops (1 ∷ 2 ∷ []) 1 on_hold.sent still_on_hold
cancelled_while_paused-IsStuck_example =
    cancelled_while_paused-IsStuck float_ops (1 ∷ 2 ∷ []) 1 on_hold still_on_hold refl refl refl
      (refl, tt) still_on_hold-Reach
