-- ===== src/MotorDriver/Feedback/Rounds.antt =====
-- src/driver/motor_driver_impl.cpp: when the feedback thread asks, and whom.
use hardware_driver.Base.{
  ℕ, ◌+◌, ◌≤◌, ◌≡◌, refl, String, List, [], ◌∷◌, true, leb, if◌then◌else◌, arith, length, All,
  All-mono, Bool-cases, inl, inr,
}
use hardware_driver.Bus.{GenericBusPacket, SendResult, max_bus_data_size}
use hardware_driver.MotorDriver.Filter.{contents}
use hardware_driver.MotorDriver.{MotorDriver}
use hardware_driver.MotorDriver.Feedback.{
  high_freq_feedback, low_freq_feedback, mode_timeout, create_feedback_request_all, round_mode,
  feedback_request_worker,
}

-- Rounds that other threads interleave with: each has its time and the state that it finds.
pub record Glance : Type 0 where
  pub time : ℕ
  pub driver : MotorDriver

-- When the rounds ask for feedback.
pub request_times : (GenericBusPacket → SendResult) → List ℕ → ℕ → List Glance → List ℕ
request_times send raw next [] = []
request_times send raw next (g ∷ gs) =
    let rest =
      request_times send raw
        (feedback_request_worker send raw g.time next g.driver).next_request_time gs in
    if leb next g.time then g.time ∷ rest else rest

-- Neighbouring times are at least so far apart.
abbrev pub Spaced : ℕ → List ℕ → Type 0
Spaced gap [] = Unit {0}
Spaced gap (t ∷ ts) = All (λ u. t + gap ≤ u) ts × Spaced gap ts

-- No request is due before `next`, and those that are made are a period apart.
request_times-from :
    (send : GenericBusPacket → SendResult) (raw : List ℕ) (next : ℕ) (gs : List Glance)
    → All (λ t. next ≤ t) (request_times send raw next gs)
unfolding request_times feedback_request_worker
request_times-from send raw next [] = tt
request_times-from send raw next (g ∷ gs) = elim (Bool-cases (leb next g.time)) [
  | inl e ↦ rw e (
    ground (arith, e),
    All-mono (λ t h. ground (arith, e))
        (request_times send raw
          (g.time + (if round_mode g.time g.driver then high_freq_feedback else low_freq_feedback))
          gs)
        (request_times-from send raw
          (g.time + (if round_mode g.time g.driver then high_freq_feedback else low_freq_feedback))
          gs),
  )
  | inr e ↦ rw e (request_times-from send raw next gs)
]

-- However the other threads change the driver between the rounds, the rounds that ask for feedback
-- are at least the shorter period, 5000 microseconds, apart.
request_times-Spaced :
    (send : GenericBusPacket → SendResult) (raw : List ℕ) (next : ℕ) (gs : List Glance)
    → Spaced high_freq_feedback (request_times send raw next gs)
unfolding request_times feedback_request_worker
request_times-Spaced send raw next [] = tt
request_times-Spaced send raw next (g ∷ gs) = elim (Bool-cases (leb next g.time)) [
  | inl e ↦
      let period = if round_mode g.time g.driver then high_freq_feedback else low_freq_feedback in
      rw e (
        All-mono (λ t h. ground arith) (request_times send raw (g.time + period) gs)
            (request_times-from send raw (g.time + period) gs),
        request_times-Spaced send raw (g.time + period) gs,
      )
  | inr e ↦ rw e (request_times-Spaced send raw next gs)
]

-- The request for one interface.
abbrev pub request : List ℕ → String × List ℕ → GenericBusPacket
request raw c = create_feedback_request_all raw c.0

-- A packet that asks all motors of an interface for their status.
pub record IsRequest (interface : String) (p : GenericBusPacket) : Type 0 where
  pub same_interface : p.interface ≡ interface
  pub broadcast : p.id ≡ 0
  pub bytes : contents p ≡ 0x02 ∷ 0x00 ∷ 0x00 ∷ []
  pub storage : length p.payload ≡ max_bus_data_size

-- The period that holds after a round at `now`: the shorter one just when a command was sent in the
-- last 100 milliseconds.
abbrev pub IsRecent : ℕ → MotorDriver → Type 0
IsRecent now s = (s.high_freq_mode ≡ true) × (now ≤ s.last_control_time + mode_timeout)

-- A round leaves the queues alone.
pub feedback_request_worker-queues :
    (send : GenericBusPacket → SendResult) (raw : List ℕ) (now next : ℕ) (s : MotorDriver)
    → let d = (feedback_request_worker send raw now next s).driver in
      (d.control_queue ≡ s.control_queue) × (d.receive_queue ≡ s.receive_queue)
unfolding feedback_request_worker
feedback_request_worker-queues send raw now next s = elim (Bool-cases (leb next now)) [
  | inl e ↦ rw e (refl, refl)
  | inr e ↦ rw e (refl, refl)
]
