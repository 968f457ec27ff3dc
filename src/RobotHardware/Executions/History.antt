-- ===== src/RobotHardware/Executions/History.antt =====
-- src/interface/robot_hardware.cpp: what the table of executions can have come through.
use hardware_driver.Base.{
  ℕ, ◌+◌, ◌^◌, ◌≡◌, ◌<◌, refl, ◌∙◌, String, List, [], none, some, inl, inr, arith, find, erase,
  find-assign, find-assign_self, string_eq, Option-cases,
}
use hardware_driver.RobotHardware.Trajectory.{Task, TrajectoryPoint}
use hardware_driver.RobotHardware.Trajectory
use hardware_driver.RobotHardware.Executions.{
  Executions, generate_execution_id, execute_trajectory_async, for_all, pause_trajectory,
  resume_trajectory, cancel_trajectory, pause_all_trajectories, resume_all_trajectories,
  cancel_all_trajectories, cleanup_completed_trajectory_tasks,
}
use hardware_driver.RobotHardware.Executions.Table.{
  IsTable, IsTable-suc, assign-IsTable_new, for_all-IsTable, calls-IsTable,
  find-generate_execution_id,
}

-- The ids taken in the process and a robot's table, after any row of launches, calls, erasures and
-- steps of the workers, which change tasks but not the table. Another robot of the process takes ids
-- from the same counter.
pub data Reach (config : List (String × List ℕ)) : ℕ → Executions → Type 0 where
  start : Reach config 0 []
  launch :
      {counter : ℕ}
      → {m : Executions} → (now : ℕ) (interface : String) (points : List TrajectoryPoint)
      → Reach config counter m
      → Reach config
          (execute_trajectory_async config now interface points counter m).0
          (execute_trajectory_async config now interface points counter m).1
  other_robot :
      {counter : ℕ} → {m : Executions} → Reach config counter m → Reach config (counter + 1) m
  work :
      {counter : ℕ}
      → {m : Executions} → (steps : String → Task → Task) → Reach config counter m
      → Reach config counter (for_all steps m)
  pause :
      {counter : ℕ}
      → {m : Executions} → (id : String) → Reach config counter m
      → Reach config counter (pause_trajectory id m).0
  resume :
      {counter : ℕ}
      → {m : Executions} → (id : String) (now : ℕ) → Reach config counter m
      → Reach config counter (resume_trajectory now id m).0
  cancel :
      {counter : ℕ}
      → {m : Executions} → (id : String) → Reach config counter m
      → Reach config counter (cancel_trajectory id m).0
  pause_all :
      {counter : ℕ}
      → {m : Executions} → Reach config counter m
      → Reach config counter (pause_all_trajectories m)
  resume_all :
      {counter : ℕ}
      → {m : Executions} → (clock : String → ℕ) → Reach config counter m
      → Reach config counter (resume_all_trajectories clock m)
  cancel_all :
      {counter : ℕ}
      → {m : Executions} → Reach config counter m
      → Reach config counter (cancel_all_trajectories m)
  waited_for :
      {counter : ℕ}
      → {m : Executions} → (id : String) → Reach config counter m
      → Reach config counter (erase id m)
  clean_up :
      {counter : ℕ}
      → {m : Executions} → Reach config counter m
      → Reach config counter (cleanup_completed_trajectory_tasks m)

module _ (config : List (String × List ℕ)) where
  launch-IsTable :
      (now : ℕ) (interface : String) (points : List TrajectoryPoint) (counter : ℕ) (m : Executions)
      → IsTable counter m
      → let r = execute_trajectory_async config now interface points counter m in IsTable r.0 r.1
  unfolding execute_trajectory_async
  launch-IsTable now interface points counter m i =
      elim (Option-cases (Trajectory.execute_trajectory_async config interface points)) [
        | inl refused ↦ rw (refused, execute_trajectory_async) i
        | inr (t, begun) ↦
            rw (begun, execute_trajectory_async) (assign-IsTable_new counter now t m i)
      ]

  Reach-IsTable : (counter : ℕ) (m : Executions) → Reach config counter m → IsTable counter m
  Reach-IsTable _ _ start = tt
  Reach-IsTable _ _ (launch {counter} {m} now interface points r) =
      launch-IsTable now interface points counter m (Reach-IsTable counter m r)
  Reach-IsTable _ _ (other_robot {counter} {m} r) =
      IsTable-suc counter m (Reach-IsTable counter m r)
  Reach-IsTable _ _ (work {counter} {m} steps r) =
      for_all-IsTable counter steps m (Reach-IsTable counter m r)
  Reach-IsTable _ _ (pause {counter} {m} id r) =
      (calls-IsTable counter id 0 (λ _. 0) m (Reach-IsTable counter m r)).0
  Reach-IsTable _ _ (resume {counter} {m} id now r) =
      (calls-IsTable counter id now (λ _. 0) m (Reach-IsTable counter m r)).1
  Reach-IsTable _ _ (cancel {counter} {m} id r) =
      (calls-IsTable counter id 0 (λ _. 0) m (Reach-IsTable counter m r)).2
  Reach-IsTable _ _ (pause_all {counter} {m} r) =
      (calls-IsTable counter "" 0 (λ _. 0) m (Reach-IsTable counter m r)).3
  Reach-IsTable _ _ (resume_all {counter} {m} clock r) =
      (calls-IsTable counter "" 0 clock m (Reach-IsTable counter m r)).4
  Reach-IsTable _ _ (cancel_all {counter} {m} r) =
      (calls-IsTable counter "" 0 (λ _. 0) m (Reach-IsTable counter m r)).5
  Reach-IsTable _ _ (clean_up {counter} {m} r) =
      (calls-IsTable counter "" 0 (λ _. 0) m (Reach-IsTable counter m r)).6
  Reach-IsTable _ _ (waited_for {counter} {m} id r) =
      (calls-IsTable counter id 0 (λ _. 0) m (Reach-IsTable counter m r)).7

  -- After any row of launches, calls, erasures and steps of the workers, in which the process has
  -- taken fewer than 2^64 ids, a launch leaves every execution of the table as it is, for its own id
  -- is in use nowhere. It adds one, which the id that is returned then finds, also for an interface
  -- that has executions in the table; where it is refused, it returns an empty text, adds none and
  -- takes no id.
  pub execute_trajectory_async-fresh :
      (counter now : ℕ) (interface : String) (points : List TrajectoryPoint) (m : Executions)
      → Reach config counter m
      → counter < 2 ^ 64
      → let (counter', m', id) = execute_trajectory_async config now interface points counter m in
        ((other : String) (t : Task) → find other m ≡ some t → find other m' ≡ some t)
        × ((t : Task)
            → Trajectory.execute_trajectory_async config interface points ≡ some t
            → (find id m ≡ none) × (find id m' ≡ some t))
        × (Trajectory.execute_trajectory_async config interface points ≡ none
            → (id ≡ "") × (m' ≡ m) × (counter' ≡ counter))
  unfolding execute_trajectory_async
  execute_trajectory_async-fresh counter now interface points m r small =
      let id = generate_execution_id counter now in
      let new = find-generate_execution_id counter now m small (Reach-IsTable counter m r) in
      elim (Option-cases (Trajectory.execute_trajectory_async config interface points)) [
        | inl refused ↦
            rw (refused, execute_trajectory_async)
              (λ other t h. h, λ t e. cc, λ _. (refl, refl, refl))
        | inr (u, begun) ↦
            rw (begun, execute_trajectory_async)
              (
                λ other t h.
                    ground
                      (arith, h, find-assign id other u m, string_eq.is_equal_iff id other, new),
                λ t e. (new, find-assign_self id u m ∙ e),
                λ no. cc,
              )
      ]
