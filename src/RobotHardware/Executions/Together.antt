-- ===== src/RobotHardware/Executions/Together.antt =====
-- src/interface/robot_hardware.cpp: the calls for all executions against the calls for one.
use hardware_driver.Base.{
  ℕ, ◌≡◌, refl, String, [], ◌∷◌, Bool, false, Option, none, some, arith, length, find,
  find-assign_self, string_eq, inl, inr, Option-cases,
}
use hardware_driver.RobotHardware.Trajectory.{Task, TrajectoryExecutionState, is_active}
use hardware_driver.RobotHardware.Trajectory
use hardware_driver.RobotHardware.Executions.{
  Executions, for_all, with_task, pause_trajectory, resume_trajectory, cancel_trajectory,
  pause_all_trajectories, resume_all_trajectories, cancel_all_trajectories,
  get_active_execution_ids, get_active_trajectory_count,
}

-- What a call leaves of the task of an id.
abbrev pub called : (String → Task → Task) → String → Option Task → Option Task
called call id none = none
called call id (some t) = some (call id t)

pub find-for_all :
    (call : String → Task → Task) (id : String) (m : Executions)
    → find id (for_all call m) ≡ called call id (find id m)
unfolding find for_all
find-for_all call id [] = refl
find-for_all call id ((j, t) ∷ m) =
    ground (arith, string_eq.is_equal_iff j id, find-for_all call id m)

-- A loop does to a task what the call for its id does.
for_all-with_task :
    (call : String → Task → Task × Bool) (id : String) (m : Executions)
    → find id (for_all (λ j t. (call j t).0) m) ≡ find id (with_task (call id) id m).0
for_all-with_task call id m = elim (Option-cases (find id m)) [
  | inl missing ↦ ground (arith, missing, find-for_all (λ j t. (call j t).0) id m)
  | inr (t, found) ↦
      ground
        (arith, found, find-for_all (λ j t. (call j t).0) id m, find-assign_self id (call id t).0 m)
]

-- How many of the executions, and which, a loop leaves active that keeps for each whether it is.
active-for_all :
    (call : String → Task → Task) (m : Executions)
    → ((id : String) (t : Task) → is_active (call id t).state ≡ is_active t.state)
    → get_active_execution_ids (for_all call m) ≡ get_active_execution_ids m
unfolding for_all get_active_execution_ids
active-for_all call [] keeps = refl
active-for_all call ((id, t) ∷ m) keeps = ground (arith, keeps id t, active-for_all call m keeps)

inactive-for_all :
    (call : String → Task → Task) (m : Executions)
    → ((id : String) (t : Task) → is_active (call id t).state ≡ false)
    → get_active_execution_ids (for_all call m) ≡ []
unfolding for_all get_active_execution_ids
inactive-for_all call [] ends = refl
inactive-for_all call ((id, t) ∷ m) ends = ground (arith, ends id t, inactive-for_all call m ends)

get_active_trajectory_count_lem :
    (m : Executions) → get_active_trajectory_count m ≡ length (get_active_execution_ids m)
unfolding get_active_trajectory_count get_active_execution_ids
get_active_trajectory_count_lem [] = refl
get_active_trajectory_count_lem ((id, t) ∷ m) = ground (arith, get_active_trajectory_count_lem m)

pause-is_active : (t : Task) → is_active (Trajectory.pause_trajectory t).0.state ≡ is_active t.state
unfolding Trajectory.pause_trajectory
pause-is_active t = ground arith

resume-is_active :
    (now : ℕ) (t : Task)
    → is_active (Trajectory.resume_trajectory now t).0.state ≡ is_active t.state
unfolding Trajectory.resume_trajectory
resume-is_active now t = ground arith

cancel-is_active : (t : Task) → is_active (Trajectory.cancel_trajectory t).0.state ≡ false
unfolding Trajectory.cancel_trajectory
cancel-is_active t = ground arith

-- To each execution a call for all does what the call for its id does. Afterwards none is active
-- where all were cancelled, and the same are where all were paused or resumed; the number that is
-- reported is that of the ids.
all_trajectories_lem :
    (now : String → ℕ) (id : String) (m : Executions)
    → (find id (pause_all_trajectories m) ≡ find id (pause_trajectory id m).0)
      × (find id (resume_all_trajectories now m) ≡ find id (resume_trajectory (now id) id m).0)
      × (find id (cancel_all_trajectories m) ≡ find id (cancel_trajectory id m).0)
      × (get_active_execution_ids (pause_all_trajectories m) ≡ get_active_execution_ids m)
      × (get_active_execution_ids (resume_all_trajectories now m) ≡ get_active_execution_ids m)
      × (get_active_execution_ids (cancel_all_trajectories m) ≡ [])
      × (get_active_trajectory_count m ≡ length (get_active_execution_ids m))
unfolding pause_all_trajectories resume_all_trajectories cancel_all_trajectories pause_trajectory
    resume_trajectory cancel_trajectory
all_trajectories_lem now id m = (
  for_all-with_task (λ _ t. Trajectory.pause_trajectory t) id m,
  for_all-with_task (λ j t. Trajectory.resume_trajectory (now j) t) id m,
  for_all-with_task (λ _ t. Trajectory.cancel_trajectory t) id m,
  active-for_all _ m (λ _ t. pause-is_active t),
  active-for_all _ m (λ j t. resume-is_active (now j) t),
  inactive-for_all _ m (λ _ t. cancel-is_active t),
  get_active_trajectory_count_lem m,
)
