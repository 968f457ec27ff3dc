-- ===== src/Tests/Executions.antt =====
-- Inputs for the theorems on the table of executions.
use hardware_driver.Base.{
  ℕ, ◌+◌, ◌-◌, ◌≡◌, ◌↔◌, refl, String, List, [], ◌∷◌, none, some, true, arith, find, string_eq,
}
use hardware_driver.Bus.{done}
use hardware_driver.RobotHardware.Trajectory.{
  TrajectoryPoint, running, paused, completed, Execution, finished, Reach, start, later, go, send,
  count, finish, launched, execute_trajectory, execute_trajectory_async, positions_of,
  first_positions, resume_trajectory,
}
use hardware_driver.RobotHardware.Trajectory.Refines.{execute_trajectory-Refines}
use hardware_driver.RobotHardware.Trajectory.Pauses.{resume_trajectory-pause_elapsed}
use hardware_driver.RobotHardware.Executions.{
  Executions, Look, wait_for_completion, pause_all_trajectories,
}
use hardware_driver.RobotHardware.Executions
use hardware_driver.RobotHardware.Executions.History
use hardware_driver.RobotHardware.Executions.History.{execute_trajectory_async-fresh}
use hardware_driver.Tests.{float_ops, can0}
use hardware_driver.Tests.Robot.{second_point, a_task, one_sent, one_sent-Reach}

abbrev motors : List ℕ
motors = 1 ∷ 2 ∷ []

abbrev config : List (String × List ℕ)
config = (can0, motors) ∷ []

-- The second point is sent too, and the worker ends.
abbrev all_sent : Execution
all_sent = record {
  task = record a_task { start_time = some 3; current_point_index = 2; state = completed };
  place = finished;
  sent = (11 ∷ 12 ∷ 0 ∷ 0 ∷ 0 ∷ 0 ∷ []) ∷ (21 ∷ 22 ∷ 0 ∷ 0 ∷ 0 ∷ 0 ∷ []) ∷ [];
  calls = [];
}

all_sent-Reach : Reach float_ops motors (launched a_task) all_sent
unfolding positions_of first_positions
all_sent-Reach =
    later
      (later
        (later (later one_sent-Reach (go 1 refl (omega arith) refl refl))
          (send 1 second_point refl refl refl))
        (count 1 refl))
      (finish 2 refl (omega arith))

execute_trajectory-Refines_example :
    (execute_trajectory float_ops config can0 a_task.points ≡ some (done all_sent.sent))
    × ((other : List TrajectoryPoint) (where_to : String)
        → (execute_trajectory_async config where_to other ≡ none)
          ↔ (execute_trajectory float_ops config where_to other ≡ none))
unfolding execute_trajectory_async find
execute_trajectory-Refines_example =
    execute_trajectory-Refines float_ops config can0 a_task.points motors a_task all_sent refl refl
      all_sent-Reach refl

-- The execution has been paused at 9, was resumed at 20, and is paused once more.
abbrev second_pause : Execution
second_pause = record one_sent {
  task = record one_sent.task {
    state = paused;
    should_pause = true;
    pause_start_time = some 9;
    pause_elapsed = 11;
  };
}

resume_trajectory-pause_elapsed_example :
    let r = (resume_trajectory 50 second_pause.task).0 in
    (r.state ≡ running)
    × (second_pause.task.pause_start_time ≡ some 9
        → r.pause_elapsed ≡ second_pause.task.pause_elapsed + (50 - 9))
    × (second_pause.task.pause_start_time ≡ none
        → r.pause_elapsed ≡ second_pause.task.pause_elapsed + 50)
resume_trajectory-pause_elapsed_example =
    resume_trajectory-pause_elapsed float_ops motors 9 50 second_pause second_pause start refl

execute_trajectory_async-fresh_example :
    let (counter', m', id) = Executions.execute_trajectory_async config 7 can0 a_task.points 0 [] in
    find id m' ≡ some a_task
unfolding execute_trajectory_async find
execute_trajectory_async-fresh_example =
    ((execute_trajectory_async-fresh config 0 7 can0 a_task.points [] History.start (omega arith)).1
      a_task refl).1
