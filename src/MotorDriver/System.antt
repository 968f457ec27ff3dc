-- ===== src/MotorDriver/System.antt =====
-- src/driver/motor_driver_impl.cpp: the threads of the driver and their callers, one step for each
-- stretch of code that holds a lock. The bus takes a command in the step that pops it: the control
-- thread alone does both.
pub mod Queues
pub mod Lossless
pub mod Progress
use hardware_driver.Base.{
  ℕ, zero, suc, ◌+◌, ◌≡◌, String, List, [], ◌∷◌, ◌++◌, Bool, true, false, Option, none, some, map,
}
use hardware_driver.Bus.{GenericBusPacket, SendResult}
use hardware_driver.MotorDriver.{
  MotorDriver, new_motor_driver, CommandPriority, PriorityCommand, Admission, is_duplicate_command,
  enqueue, send_control_command_timeout, dispatch, on_packet,
}
use hardware_driver.MotorDriver.Dispatch.{Effect, process_packet}
use hardware_driver.MotorDriver.Feedback.{
  set_motor_config, pause_feedback_request, resume_feedback_request, feedback_request_worker, Round,
}

-- A call of `send_control_command` that the filter has let through and that is not yet in the queue.
pub record Caller : Type 0 where
  pub packet : GenericBusPacket
  pub priority : CommandPriority

-- The driver, the calls that wait, the time of the next feedback request; and what has happened: the
-- commands that the driver took on, latest first, the commands that it handed to the bus (`wire`,
-- where a command stands also if the bus then threw), the packets that came from the bus, and what
-- the data thread told others.
pub record System : Type 0 where
  pub driver : MotorDriver
  pub callers : List Caller
  pub next_request_time : ℕ
  pub accepted : List GenericBusPacket
  pub wire : List GenericBusPacket
  pub arrived : List GenericBusPacket
  pub told : List Effect

abbrev pub initial : ℕ → System
initial now = record {
  driver = new_motor_driver now;
  callers = [];
  next_request_time = now;
  accepted = [];
  wire = [];
  arrived = [];
  told = [];
}

abbrev pub after_round : Round → System → System
after_round r s = record s { driver = r.driver; next_request_time = r.next_request_time }

pub data Step (s : System) : System → Type 0 where
  -- The filter skips a command.
  skip :
      {d : MotorDriver} (p : GenericBusPacket)
      → is_duplicate_command s.driver p ≡ (d, true)
      → Step s (record s { driver = d })
  -- The filter lets a command through; its call is to take the queue's lock.
  pass :
      {d : MotorDriver} (p : GenericBusPacket) (priority : CommandPriority)
      → is_duplicate_command s.driver p ≡ (d, false)
      → Step s (record s {
        driver = d;
        callers = record { packet = p; priority = priority } ∷ s.callers;
        accepted = p ∷ s.accepted;
      })
  -- One of the calls finds room in the queue.
  admit :
      {d : MotorDriver} (before : List Caller) (c : Caller) (after : List Caller) (now : ℕ)
      → s.callers ≡ before ++ c ∷ after
      → enqueue c.packet c.priority now s.driver ≡ (d, Admission.queued)
      → Step s (record s { driver = d; callers = before ++ after })
  -- The version with a timeout finds room, or gives up.
  in_time :
      {d : MotorDriver} (p : GenericBusPacket) (now : ℕ)
      → send_control_command_timeout p now s.driver ≡ (d, true)
      → Step s (record s { driver = d; accepted = p ∷ s.accepted })
  timed_out :
      {d : MotorDriver} (p : GenericBusPacket) (now : ℕ)
      → send_control_command_timeout p now s.driver ≡ (d, false)
      → Step s (record s { driver = d })
  -- The control thread sends a command.
  control :
      {d : MotorDriver} {c : PriorityCommand} (throws : Bool) (now : ℕ)
      → dispatch throws now s.driver ≡ some (c, d)
      → Step s (record s { driver = d; wire = s.wire ++ c.packet ∷ [] })
  -- The bus delivers a packet.
  receive :
      (p : GenericBusPacket)
      → Step s (record s { driver = on_packet s.driver p; arrived = s.arrived ++ p ∷ [] })
  -- The data thread handles a packet.
  process :
      {d : MotorDriver} {es : List Effect} (alive : ℕ → Bool)
      → process_packet alive s.driver ≡ some (d, es)
      → Step s (record s { driver = d; told = s.told ++ es })
  -- A round of the feedback thread.
  request :
      (send : GenericBusPacket → SendResult) (raw : List ℕ) (now : ℕ)
      → Step s (after_round (feedback_request_worker send raw now s.next_request_time s.driver) s)
  -- Calls that change the configuration.
  configure :
      (config : List (String × List ℕ))
      → Step s (record s { driver = set_motor_config config s.driver })
  pause : Step s (record s { driver = pause_feedback_request s.driver })
  resume : Step s (record s { driver = resume_feedback_request s.driver })

-- What is reached from a state in any number of steps.
pub data Reach (s : System) : System → Type 0 where
  start : Reach s s
  later : {t u : System} → Reach s t → Step t u → Reach s u
