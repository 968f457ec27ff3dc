-- ===== src/RobotHardware/Executions.antt =====
-- src/interface/robot_hardware.cpp: the table of the asynchronous executions, and the calls that go
-- by an execution's id. The map's tasks are shared with their workers, whose steps are in
-- `Trajectory`; a call sees each task as it then is. Times are milliseconds.
pub mod Together
pub mod Completion
pub mod Reports
pub mod Table
pub mod History
use Prim.Native.String.{◌++◌}
use hardware_driver.Base.{
  ℕ, zero, suc, ◌+◌, ◌-◌, ◌*◌, ◌%◌, ◌^◌, ◌≤◌, ◌<◌, String, List, [], ◌∷◌, Bool, true, false, ◌&&◌,
  ltb, leb, ◌==◌, if◌then◌else◌, Option, none, some, length, map, find, assign, erase, string_eq, ℤ,
  sub_ℕ, to_string,
}
use hardware_driver.RobotHardware.Trajectory.{
  TrajectoryPoint, TrajectoryExecutionState, Task, since, is_active, is_over,
}
use hardware_driver.RobotHardware.Trajectory

-- `trajectory_execution_tasks_`
abbrev pub Executions : Type 0
Executions = List (String × Task)

-- The id of an execution: a 64-bit counter of the process, of which `counter` ids were taken before,
-- and the clock.
abbrev pub generate_execution_id : ℕ → ℕ → String
generate_execution_id counter now =
    (("exec_" ++ to_string (counter % 2 ^ 64)) ++ "_") ++ to_string now

-- The counter and the table afterwards, and the id, or an empty text where nothing is launched.
pub execute_trajectory_async :
    List (String × List ℕ)
    → ℕ
    → String
    → List TrajectoryPoint
    → ℕ
    → Executions
    → ℕ × Executions × String
execute_trajectory_async config now interface points counter m =
    elim (Trajectory.execute_trajectory_async config interface points) [
      | none ↦ (counter, m, "")
      | some t ↦
          let execution_id = generate_execution_id counter now in
          (counter + 1, assign execution_id t m, execution_id)
    ]

-- A call by id: false for an unknown one.
abbrev pub with_task : (Task → Task × Bool) → String → Executions → Executions × Bool
with_task call execution_id m = elim (find execution_id m) [
  | none ↦ (m, false)
  | some t ↦ (assign execution_id (call t).0 m, (call t).1)
]

pub pause_trajectory : String → Executions → Executions × Bool
pause_trajectory execution_id m = with_task Trajectory.pause_trajectory execution_id m

pub resume_trajectory : ℕ → String → Executions → Executions × Bool
resume_trajectory now execution_id m = with_task (Trajectory.resume_trajectory now) execution_id m

pub cancel_trajectory : String → Executions → Executions × Bool
cancel_trajectory execution_id m = with_task Trajectory.cancel_trajectory execution_id m

-- The loops over all executions; each has the body of the call for one.
pub for_all : (String → Task → Task) → Executions → Executions
for_all call [] = []
for_all call ((id, t) ∷ m) = (id, call id t) ∷ for_all call m

pub pause_all_trajectories : Executions → Executions
unfolding for_all
pause_all_trajectories m = for_all (λ id t. (Trajectory.pause_trajectory t).0) m

-- The clock is read for each execution.
pub resume_all_trajectories : (String → ℕ) → Executions → Executions
unfolding for_all
resume_all_trajectories now m = for_all (λ id t. (Trajectory.resume_trajectory (now id) t).0) m

pub cancel_all_trajectories : Executions → Executions
unfolding for_all
cancel_all_trajectories m = for_all (λ id t. (Trajectory.cancel_trajectory t).0) m

pub get_active_execution_ids : Executions → List String
get_active_execution_ids [] = []
get_active_execution_ids ((id, t) ∷ m) =
    let rest = get_active_execution_ids m in if is_active t.state then id ∷ rest else rest

pub get_active_trajectory_count : Executions → ℕ
get_active_trajectory_count [] = 0
get_active_trajectory_count ((id, t) ∷ m) =
    let rest = get_active_trajectory_count m in if is_active t.state then suc rest else rest

pub has_execution : String → Executions → Bool
has_execution execution_id m = elim (find execution_id m) [ none ↦ false | some t ↦ true ]

-- Progress ---------------------------------------------------------------------------------------

pub record Progress : Type 0 where
  pub state : TrajectoryExecutionState
  pub current_point_index : ℕ
  pub total_points : ℕ
  pub progress_percentage : ℕ
  pub elapsed_time : ℤ
  pub estimated_remaining_time : ℕ
  pub error_message : String

-- The time of the last point.
pub get_trajectory_total_time : List TrajectoryPoint → ℕ
get_trajectory_total_time [] = 0
get_trajectory_total_time (p ∷ []) = p.time_from_start
get_trajectory_total_time (p ∷ q ∷ ps) = get_trajectory_total_time (q ∷ ps)

-- `index / total * 100.0` in doubles is the hardware's. `elapsed_time` is signed; the remaining time,
-- `total - elapsed`, is set to 0 where it is negative.
abbrev pub progress_of : (ℕ → ℕ → ℕ) → ℕ → Task → Progress
progress_of percentage now t = record {
  state = t.state;
  current_point_index = t.current_point_index;
  total_points = length t.points;
  progress_percentage =
      if ltb 0 (length t.points) then percentage t.current_point_index (length t.points) else 0;
  elapsed_time = sub_ℕ (since now t.start_time) t.pause_elapsed;
  estimated_remaining_time =
      get_trajectory_total_time t.points + t.pause_elapsed - since now t.start_time;
  error_message = t.error_message;
}

-- `none` where the call returns false.
pub get_execution_progress : (ℕ → ℕ → ℕ) → ℕ → String → Executions → Option Progress
get_execution_progress percentage now execution_id m = elim (find execution_id m) [
  | none ↦ none
  | some t ↦ some (progress_of percentage now t)
]

-- Waiting ----------------------------------------------------------------------------------------

-- What the wait on the condition variable sees when it looks: the milliseconds since the call, and
-- the task's state.
pub record Look : Type 0 where
  pub elapsed : ℕ
  pub state : TrajectoryExecutionState

-- Whether the predicate held in time; `none` while the wait goes on. A timeout of 0 is none.
pub wait : ℕ → List Look → Option Bool
wait timeout_ms [] = none
wait timeout_ms (l ∷ ls) =
    let rest = wait timeout_ms ls in
    if is_over l.state
    then some true
    else if ltb 0 timeout_ms && leb timeout_ms l.elapsed
    then some false
    else rest

-- The table at the call and the table when the wait is over. What is over is erased, once its thread
-- is joined, which waits for the worker's end.
pub wait_for_completion :
    String → ℕ → List Look → Executions → Executions → Option (Executions × Bool)
unfolding wait
wait_for_completion execution_id timeout_ms looks m m' = elim (find execution_id m) [
  | none ↦ some (m', false)
  | some t ↦ elim (wait timeout_ms looks) [
    | none ↦ none
    | some true ↦ some (erase execution_id m', true)
    | some false ↦ some (m', false)
  ]
]

-- The ids that `cleanup_completed_trajectory_tasks` collects, and then erases.
pub to_remove : Executions → List String
to_remove [] = []
to_remove ((id, t) ∷ m) = let rest = to_remove m in if is_over t.state then id ∷ rest else rest

pub erase_all : List String → Executions → Executions
erase_all [] m = m
erase_all (id ∷ ids) m = erase_all ids (erase id m)

pub cleanup_completed_trajectory_tasks : Executions → Executions
unfolding to_remove erase_all
cleanup_completed_trajectory_tasks m = erase_all (to_remove m) m
