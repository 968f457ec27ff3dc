-- ===== src/RobotHardware/Trajectory/Pauses.antt =====
-- src/interface/robot_hardware.cpp: what the accounts of an execution's pauses add up to.
use hardware_driver.Base.{ℕ, ◌+◌, ◌-◌, ◌≡◌, refl, ap, ◌∙◌, List, none, some, arith}
use hardware_driver.Float32.{FloatOps}
use hardware_driver.RobotHardware.Trajectory.{
  running, paused, Task, Execution, Step, begin, stop, hold, go, hold_on, go_on, send, count, fail,
  finish, look, enter, Reach, start, later, first_time, Call, pausing, resuming, cancelling,
  entered, resume_trajectory,
}

-- The calls leave the time at which a pause was noticed, also the call that ends the pause.
entered-pause_start_time :
    (now : ℕ) (c : Call) (t : Task) → (entered now c t).pause_start_time ≡ t.pause_start_time
entered-pause_start_time now pausing t = refl
entered-pause_start_time now resuming t = refl
entered-pause_start_time now cancelling t = refl

module _ (f : FloatOps) (motor_ids : List ℕ) where
  Step-pause_start_time :
      (p : ℕ) (d e : Execution)
      → Step f motor_ids d e
      → d.task.pause_start_time ≡ some p
      → e.task.pause_start_time ≡ some p
  Step-pause_start_time p d e (begin now here) h = h
  Step-pause_start_time p d e (stop k here lt set) h = h
  Step-pause_start_time p d e (hold k now here lt unset set) h = ap (first_time now) h
  Step-pause_start_time p d e (go k here lt unset unset') h = h
  Step-pause_start_time p d e (hold_on k now here set) h = ap (first_time now) h
  Step-pause_start_time p d e (go_on k here unset) h = h
  Step-pause_start_time p d e (send k q here found framed) h = h
  Step-pause_start_time p d e (count k here) h = h
  Step-pause_start_time p d e (fail k what here) h = h
  Step-pause_start_time p d e (finish k here ge) h = h
  Step-pause_start_time p d e (look c found) h = h
  Step-pause_start_time p d e (enter now c before after listed) h =
      entered-pause_start_time now c d.task ∙ h

  Reach-pause_start_time :
      (p : ℕ) (d e : Execution)
      → Reach f motor_ids d e
      → d.task.pause_start_time ≡ some p
      → e.task.pause_start_time ≡ some p
  Reach-pause_start_time p d e start h = h
  Reach-pause_start_time p d e (later {g} r step) h =
      Step-pause_start_time p g e step (Reach-pause_start_time p d g r h)

  -- Once a pause has been noticed, at the time p, every later call that resumes the execution, from
  -- whatever pause, adds the whole time since p to what counts as paused, also the time that the
  -- execution ran between two pauses. A pause that is resumed before any was noticed adds the whole
  -- reading of the clock. Either way the execution is running again.
  pub resume_trajectory-pause_elapsed :
      (p now : ℕ) (d e : Execution)
      → Reach f motor_ids d e
      → e.task.state ≡ paused
      → let r = (resume_trajectory now e.task).0 in
        (r.state ≡ running)
        × (d.task.pause_start_time ≡ some p → r.pause_elapsed ≡ e.task.pause_elapsed + (now - p))
        × (e.task.pause_start_time ≡ none → r.pause_elapsed ≡ e.task.pause_elapsed + now)
  unfolding resume_trajectory
  resume_trajectory-pause_elapsed p now d e r is_paused = (
    ground arith,
    λ noticed. ground (arith, Reach-pause_start_time p d e r noticed),
    λ unnoticed. ground (arith, unnoticed),
  )
