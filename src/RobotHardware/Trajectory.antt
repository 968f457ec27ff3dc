-- ===== src/RobotHardware/Trajectory.antt =====
-- src/interface/robot_hardware.cpp: the trajectories that run in threads of their own. A task, its
-- worker and the calls that pause, resume and cancel it take turns: a call looks at the state without
-- the state's lock and takes the lock in a later turn, and the worker sends without it.
-- Times are milliseconds; the steady clock's zero is `none`.
pub mod Safety
pub mod Cancel
pub mod Pauses
pub mod Refines
use hardware_driver.Base.{
  ℕ, zero, suc, ◌+◌, ◌-◌, ◌≤◌, ◌<◌, ◌≡◌, ◌≢◌, String, List, [], ◌∷◌, ◌++◌, Bool, true, false, ltb,
  leb, ◌==◌, ◌||◌, if◌then◌else◌, Option, none, some, length, get_or, replicate, store, drop, find,
  assign, erase, string_eq, map,
}
use hardware_driver.Bus.{Outcome, done, overrun}
use hardware_driver.Float32.{FloatOps}

-- `time_from_start`, in milliseconds, and the positions as patterns of doubles; the velocities and
-- accelerations are not used.
pub record TrajectoryPoint : Type 0 where
  pub time_from_start : ℕ
  pub positions : List ℕ

pub data TrajectoryExecutionState : Type 0 where
  idle running paused cancelled completed error : TrajectoryExecutionState

pub record Task : Type 0 where
  pub interface : String
  pub points : List TrajectoryPoint
  pub state : TrajectoryExecutionState
  pub current_point_index : ℕ
  pub should_stop : Bool
  pub should_pause : Bool
  pub start_time : Option ℕ
  pub pause_elapsed : ℕ
  pub pause_start_time : Option ℕ
  pub error_message : String

-- The task that `execute_trajectory_async` starts; it starts none for an interface that is not
-- configured or a trajectory without points.
unfoldable pub execute_trajectory_async :
    List (String × List ℕ) → String → List TrajectoryPoint → Option Task
execute_trajectory_async config interface points = elim (find interface config) [
  | none ↦ none
  | some motor_ids ↦
      if length points == 0
      then none
      else some (record {
        interface = interface;
        points = points;
        state = TrajectoryExecutionState.running;
        current_point_index = 0;
        should_stop = false;
        should_pause = false;
        start_time = none;
        pause_elapsed = 0;
        pause_start_time = none;
        error_message = "";
      })
]

-- The calls, and their results ------------------------------------------------------------------------

-- What each call does once it holds the state's lock.
abbrev pub set_paused : Task → Task
set_paused t = record t { should_pause = true; state = TrajectoryExecutionState.paused }

-- Milliseconds since a time that may be the clock's zero.
abbrev pub since : ℕ → Option ℕ → ℕ
since now none = now
since now (some begun) = now - begun

abbrev pub set_resumed : ℕ → Task → Task
set_resumed now t = record t {
  should_pause = false;
  pause_elapsed = t.pause_elapsed + since now t.pause_start_time;
  state = TrajectoryExecutionState.running;
}

abbrev pub set_cancelled : Task → Task
set_cancelled t = record t { should_stop = true; state = TrajectoryExecutionState.cancelled }

-- The calls that nothing interrupts.
unfoldable pub pause_trajectory : Task → Task × Bool
pause_trajectory t = elim t.state [
  | TrajectoryExecutionState.running ↦ (set_paused t, true)
  | other ↦ (t, false)
]

unfoldable pub resume_trajectory : ℕ → Task → Task × Bool
resume_trajectory now t = elim t.state [
  | TrajectoryExecutionState.paused ↦ (set_resumed now t, true)
  | other ↦ (t, false)
]

abbrev pub is_active : TrajectoryExecutionState → Bool
is_active TrajectoryExecutionState.running = true
is_active TrajectoryExecutionState.paused = true
is_active _ = false

unfoldable pub cancel_trajectory : Task → Task × Bool
cancel_trajectory t = if is_active t.state then (set_cancelled t, true) else (t, false)

-- A call in progress, and the state that it looks for.
pub data Call : Type 0 where
  pausing resuming cancelling : Call

abbrev pub passes : Call → TrajectoryExecutionState → Bool
passes pausing TrajectoryExecutionState.running = true
passes pausing _ = false
passes resuming TrajectoryExecutionState.paused = true
passes resuming _ = false
passes cancelling state = is_active state

abbrev pub entered : ℕ → Call → Task → Task
entered now pausing t = set_paused t
entered now resuming t = set_resumed now t
entered now cancelling t = set_cancelled t

-- The predicate of `wait_for_completion`.
abbrev pub is_over : TrajectoryExecutionState → Bool
is_over TrajectoryExecutionState.completed = true
is_over TrajectoryExecutionState.cancelled = true
is_over TrajectoryExecutionState.error = true
is_over _ = false

-- The worker -----------------------------------------------------------------------------------------

-- The array of positions for a point: a motor without a position gets 0.0; the array has six
-- places, and nothing looks whether the motors are more.
abbrev pub position_of : FloatOps → TrajectoryPoint → ℕ → ℕ
position_of f p i = if ltb i (length p.positions) then f.of_double (get_or p.positions i 0) else 0

unfoldable pub first_positions : FloatOps → TrajectoryPoint → ℕ → ℕ → List ℕ
first_positions f p zero i = []
first_positions f p (suc n) i = position_of f p i ∷ first_positions f p n (i + 1)

unfoldable pub positions_of : FloatOps → ℕ → TrajectoryPoint → Outcome (List ℕ)
unfolding first_positions
positions_of f motors p =
    if leb motors 6 then done (store (replicate 6 0) 0 (first_positions f p motors 0)) else overrun

-- `execute_trajectory`, which runs in the caller's thread: the arrays that it sends, each when its
-- time has come, or `none` where it returns false.
unfoldable pub send_points : FloatOps → ℕ → List TrajectoryPoint → Outcome (List (List ℕ))
send_points f motors [] = done []
send_points f motors (p ∷ ps) = elim (positions_of f motors p) [
  | overrun ↦ overrun
  | done positions ↦ elim (send_points f motors ps) [
    | overrun ↦ overrun
    | done rest ↦ done (positions ∷ rest)
  ]
]

unfoldable pub execute_trajectory :
    FloatOps
    → List (String × List ℕ)
    → String
    → List TrajectoryPoint
    → Option (Outcome (List (List ℕ)))
unfolding send_points
execute_trajectory f config interface points = elim (find interface config) [
  | none ↦ none
  | some motor_ids ↦
      if length points == 0 then none else some (send_points f (length motor_ids) points)
]

-- Where the worker is: before its first step, before the check for a point, in the loop that waits
-- for a resumption, at the sending of a point, between that and the note of the progress, or at its end.
pub data Place : Type 0 where
  starting finished : Place
  checking waiting sending counting : ℕ → Place

-- A task with its worker, the points that it has sent, and the calls that have found the state that
-- they look for and not yet taken its lock.
pub record Execution : Type 0 where
  pub task : Task
  pub place : Place
  pub sent : List (List ℕ)
  pub calls : List Call

-- `if (pause_start_time == time_point()) pause_start_time = now()`
abbrev pub first_time : ℕ → Option ℕ → Option ℕ
first_time now none = some now
first_time now (some begun) = some begun

module _ (f : FloatOps) (motor_ids : List ℕ) where
  -- A step of the worker, for an interface that is configured with these motors, or of a call.
  pub data Step (e : Execution) : Execution → Type 0 where
    begin :
        (now : ℕ)
        → e.place ≡ starting
        → Step e (record e {
          task = record e.task {
            state = TrajectoryExecutionState.running;
            start_time = some now;
            current_point_index = 0;
          };
          place = checking 0;
        })
    stop :
        (k : ℕ)
        → e.place ≡ checking k
        → k < length e.task.points
        → e.task.should_stop ≡ true
        → Step e (record e {
          task = record e.task { state = TrajectoryExecutionState.cancelled };
          place = finished;
        })
    hold :
        (k now : ℕ)
        → e.place ≡ checking k
        → k < length e.task.points
        → e.task.should_stop ≡ false
        → e.task.should_pause ≡ true
        → Step e (record e {
          task = record e.task { pause_start_time = first_time now e.task.pause_start_time };
          place = waiting k;
        })
    go :
        (k : ℕ)
        → e.place ≡ checking k
        → k < length e.task.points
        → e.task.should_stop ≡ false
        → e.task.should_pause ≡ false
        → Step e (record e { place = sending k })
    hold_on :
        (k now : ℕ)
        → e.place ≡ waiting k
        → e.task.should_pause ≡ true
        → Step e (record e {
          task = record e.task { pause_start_time = first_time now e.task.pause_start_time };
        })
    go_on :
        (k : ℕ)
        → e.place ≡ waiting k
        → e.task.should_pause ≡ false
        → Step e (record e { place = sending k })
    -- The time has come; the command is sent.
    send :
        (k : ℕ) (p : TrajectoryPoint) {rest : List TrajectoryPoint} {positions : List ℕ}
        → e.place ≡ sending k
        → drop k e.task.points ≡ p ∷ rest
        → positions_of f (length motor_ids) p ≡ done positions
        → Step e (record e { place = counting k; sent = e.sent ++ positions ∷ [] })
    -- The progress is noted.
    count :
        (k : ℕ)
        → e.place ≡ counting k
        → Step e (record e {
          task = record e.task { current_point_index = k + 1 };
          place = checking (k + 1);
        })
    -- An exception, with its text, ends the worker.
    fail :
        (k : ℕ) (what : String)
        → e.place ≡ sending k
        → Step e (record e {
          task = record e.task { state = TrajectoryExecutionState.error; error_message = what };
          place = finished;
        })
    finish :
        (k : ℕ)
        → e.place ≡ checking k
        → length e.task.points ≤ k
        → Step e (record e {
          task = record e.task {
            state = TrajectoryExecutionState.completed;
            current_point_index = length e.task.points;
          };
          place = finished;
        })
    -- A call looks at the state, and takes the lock later.
    look :
        (c : Call) → passes c e.task.state ≡ true → Step e (record e { calls = e.calls ++ c ∷ [] })
    enter :
        (now : ℕ) (c : Call) (before after : List Call)
        → e.calls ≡ before ++ c ∷ after
        → Step e (record e { task = entered now c e.task; calls = before ++ after })

  pub data Reach (e : Execution) : Execution → Type 0 where
    start : Reach e e
    later : {g h : Execution} → Reach e g → Step g h → Reach e h

-- A task whose thread has just been started.
abbrev pub launched : Task → Execution
launched t = record { task = t; place = starting; sent = []; calls = [] }
