-- ===== src/RobotHardware/Executions/Reports.antt =====
-- src/interface/robot_hardware.cpp: what `get_execution_progress` tells of a running execution.
use hardware_driver.Base.{
  ℕ, ◌+◌, ◌-◌, ◌≡◌, ◌≤◌, ◌<◌, ◌⊎◌, inl, inr, ap, String, List, some, arith, length, find, negsuc,
  string_eq, leb, Bool-cases,
}
use hardware_driver.Float32.{FloatOps}
use hardware_driver.RobotHardware.Trajectory.{
  running, completed, Task, Execution, Reach, launched, since, Place, starting, finished, checking,
  waiting, sending, counting,
}
use hardware_driver.RobotHardware.Trajectory.Safety.{IsAt, uncounted, Reach-IsFaithful}
use hardware_driver.RobotHardware.Executions.{
  Executions, Progress, progress_of, get_execution_progress, get_trajectory_total_time,
}

IsAt-le : (p : Place) {n total : ℕ} → IsAt p n total → n ≤ total
IsAt-le starting h = omega arith
IsAt-le finished h = h
IsAt-le (checking k) h = omega arith
IsAt-le (waiting k) h = omega arith
IsAt-le (sending k) h = omega arith
IsAt-le (counting k) h = omega arith

sub_cases : (a b : ℕ) → (a - b ≡ 0) ⊎ (a - b + b ≡ a)
sub_cases a b = elim (Bool-cases (leb b a)) [
  | inl le ↦ inr (ground arith)
  | inr lt ↦ inl (ground arith)
]

-- The report on an execution, however far it has come: it counts the points sent, but for one
-- whose sending is not yet noted, never more than there are, and all when it says that it is completed; the remaining time is what is missing from
-- the trajectory's time and the pauses, and never negative; the elapsed time is, where the pauses
-- that were counted are longer than the time since the start.
get_execution_progress_lem :
    (f : FloatOps) (motor_ids : List ℕ) (percentage : ℕ → ℕ → ℕ) (now : ℕ) (id : String)
    (m : Executions) (t : Task) (e : Execution)
    → t.state ≡ running
    → t.current_point_index ≡ 0
    → Reach f motor_ids (launched t) e
    → find id m ≡ some e.task
    → (p : Progress) × (get_execution_progress percentage now id m ≡ some p)
      × (p.current_point_index + uncounted e.place ≡ length e.sent)
      × (p.total_points ≡ length t.points)
      × (p.current_point_index ≤ p.total_points)
      × (p.state ≡ completed → p.current_point_index ≡ p.total_points)
      × ((p.estimated_remaining_time ≡ 0)
          ⊎ (p.estimated_remaining_time + since now e.task.start_time
              ≡ get_trajectory_total_time t.points + e.task.pause_elapsed))
      × (since now e.task.start_time < e.task.pause_elapsed
          → p.elapsed_time ≡ negsuc (e.task.pause_elapsed - since now e.task.start_time - 1))
unfolding get_execution_progress
get_execution_progress_lem f motor_ids percentage now id m t e is_running none_sent r known =
    let i = Reach-IsFaithful f motor_ids t e is_running none_sent r in
    let points = ap length i.points_kept in
    (
      progress_of percentage now e.task,
      ground (arith, known),
      i.progress,
      points,
      omega (arith, i.progress, points, IsAt-le e.place i.placed),
      λ over.
          let (all, ended) = i.all_when_completed over in
          omega (arith, i.progress, points, all, ap uncounted ended),
      rw (ap get_trajectory_total_time i.points_kept) (
          sub_cases (get_trajectory_total_time t.points + e.task.pause_elapsed)
            (since now e.task.start_time)),
      λ lt. ground arith,
    )
