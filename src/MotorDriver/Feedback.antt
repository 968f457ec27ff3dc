-- ===== src/MotorDriver/Feedback.antt =====
-- src/driver/motor_driver_impl.cpp: the thread that asks the motors for feedback, and how it is
-- paused. Times are microseconds.
pub mod Rounds
use hardware_driver.Base.{
  ℕ, ◌+◌, ◌-◌, ◌≤◌, ◌<◌, ◌≡◌, ◌≢◌, refl, ap, ◌∙◌, String, List, [], ◌∷◌, Bool, true, false, ◌&&◌,
  ltb, leb, if◌then◌else◌, map, arith, All, All-mono, Bool-cases, inl, inr,
}
use hardware_driver.Bus.{GenericBusPacket, new_packet, fill, SendResult, send_all}
use hardware_driver.MotorProtocol.Pack.{pack_motor_feedback_request_all}
use hardware_driver.MotorDriver.{MotorDriver}

-- `TimingConfig`
abbrev pub high_freq_feedback : ℕ
high_freq_feedback = 5000

abbrev pub low_freq_feedback : ℕ
low_freq_feedback = 50000

abbrev pub mode_timeout : ℕ
mode_timeout = 100000

unfoldable pub set_motor_config : List (String × List ℕ) → MotorDriver → MotorDriver
set_motor_config config s = record s { interface_motor_config = config }

unfoldable pub pause_feedback_request : MotorDriver → MotorDriver
pause_feedback_request s = record s {
  saved_motor_config = s.interface_motor_config;
  interface_motor_config = [];
  feedback_request_paused = true;
}

unfoldable pub resume_feedback_request : MotorDriver → MotorDriver
resume_feedback_request s = record s {
  interface_motor_config = s.saved_motor_config;
  feedback_request_paused = false;
}

unfoldable pub create_feedback_request_all : List ℕ → String → GenericBusPacket
create_feedback_request_all raw interface =
    fill (new_packet raw interface 0x00) (pack_motor_feedback_request_all raw)

-- The mode as a round finds it: the high frequency ends when no command was sent for a while.
pub round_mode : ℕ → MotorDriver → Bool
round_mode now s =
    if s.high_freq_mode && ltb mode_timeout (now - s.last_control_time)
    then false
    else s.high_freq_mode

-- What a round of `feedback_request_worker` leaves: the driver, the time of the next request, and
-- the packets that it handed to the bus.
pub record Round : Type 0 where
  pub driver : MotorDriver
  pub next_request_time : ℕ
  pub requests : List GenericBusPacket

-- One round at time `now`; an exception of the bus ends its requests.
pub feedback_request_worker : (GenericBusPacket → SendResult) → List ℕ → ℕ → ℕ → MotorDriver → Round
unfolding round_mode create_feedback_request_all
feedback_request_worker send raw now next s =
    let mode = round_mode now s in
    let s' = record s { high_freq_mode = mode } in
    if leb next now
    then record {
      driver = s';
      next_request_time = now + (if mode then high_freq_feedback else low_freq_feedback);
      requests =
          (send_all send
            (map (λ c. create_feedback_request_all raw c.0) s.interface_motor_config)).0;
    }
    else record { driver = s'; next_request_time = next; requests = [] }

-- Pausing -------------------------------------------------------------------------------------

-- Whatever the time, the bus and the state before, a round that follows a pause asks for nothing,
-- and resuming brings the configuration back and changes nothing else; but a pause within a pause
-- leaves nothing to bring back, and the second resume of two leaves the first's configuration.
pub pause_feedback_request_lem :
    (send : GenericBusPacket → SendResult) (raw : List ℕ) (now next : ℕ) (s : MotorDriver)
    → let paused = pause_feedback_request s in
      let resumed = resume_feedback_request paused in
      ((feedback_request_worker send raw now next paused).requests ≡ [])
      × (resumed.interface_motor_config ≡ s.interface_motor_config)
      × (record resumed {
        saved_motor_config = s.saved_motor_config;
        feedback_request_paused = s.feedback_request_paused;
      }
          ≡ s)
      × ((resume_feedback_request (pause_feedback_request paused)).interface_motor_config ≡ [])
      × ((resume_feedback_request resumed).interface_motor_config ≡ s.interface_motor_config)
unfolding send_all feedback_request_worker pause_feedback_request resume_feedback_request
pause_feedback_request_lem send raw now next s =
    (elim (Bool-cases (leb next now)) [ inl e ↦ rw e | inr e ↦ rw e ], refl, refl, refl, refl)
