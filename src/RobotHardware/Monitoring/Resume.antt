-- ===== src/RobotHardware/Monitoring/Resume.antt =====
-- src/interface/robot_hardware.cpp: what it means to resume a monitoring that was paused.
use hardware_driver.Base.{ℕ, ◌≡◌, [], ◌∷◌, ◌++◌, Bool, true, false, ◌||◌, none, some, arith}
use hardware_driver.MotorDriver.{MotorDriver}
use hardware_driver.MotorDriver.Dispatch.{
  removed, remove_observer, add_observer, register_feedback_callback,
}
use hardware_driver.RobotHardware.{RobotHardware}
use hardware_driver.RobotHardware.Monitoring.{pause_status_monitoring, resume_status_monitoring}
use hardware_driver.RobotHardware.Monitoring.Silence.{
  Way, by_callback, by_observer, by_handler, by_iap_observer,
}

-- Resuming makes the robot what it was before the pause, and the driver too: its callback is back,
-- its observers are those that it had, the robot's own now the last of them; and to resume once more
-- does nothing.
resume_status_monitoring-pause :
    (alive : ℕ → Bool) (r : RobotHardware) (s : MotorDriver)
    → Way r
    → r.monitoring_paused ≡ false
    → let (p, t) = pause_status_monitoring alive r s in
      let (r', s') = resume_status_monitoring p t in
      (r' ≡ r)
      × (r.current_observer ≡ none
          → ((r.status_callback || r.batch_status_callback) ≡ true → s.feedback_callback ≡ true)
          → s' ≡ s)
      × ((o : ℕ)
          → r.current_observer ≡ some o
          → s' ≡ record s { observers = removed alive (some o) s.observers ++ o ∷ [] })
      × (resume_status_monitoring r' s' ≡ (r', s'))
unfolding pause_status_monitoring resume_status_monitoring remove_observer add_observer
    register_feedback_callback
resume_status_monitoring-pause alive r s (by_callback is_set no_observer no_iap no_handler) on = (
  ground (arith, is_set, no_observer, on),
  λ _ h. ground (arith, h, is_set, no_observer, on),
  λ o e. ground (arith, e, no_observer),
  ground (arith, is_set, no_observer, on),
)
resume_status_monitoring-pause alive r s (by_observer o is_set no_status no_batch no_iap no_handler)
      on =
    (
      ground (arith, is_set, on),
      λ e _. ground (arith, e, is_set),
      λ q e. ground (arith, e, is_set, on),
      ground (arith, is_set, on),
    )
resume_status_monitoring-pause alive r s (by_handler is_set no_status no_batch no_observer no_iap)
      on =
    (
      ground (arith, is_set, no_status, no_batch, no_observer, on),
      λ _ _. ground (arith, is_set, no_status, no_batch, no_observer, on),
      λ o e. ground (arith, e, no_observer),
      ground (arith, is_set, no_status, no_batch, no_observer, on),
    )
resume_status_monitoring-pause alive r s
      (by_iap_observer o is_set no_status no_batch no_observer no_handler) on =
    (
      ground (arith, no_status, no_batch, no_observer, no_handler, on),
      λ _ _. ground (arith, no_status, no_batch, no_observer, no_handler, on),
      λ o e. ground (arith, e, no_observer),
      ground (arith, no_status, no_batch, no_observer, no_handler, on),
    )
