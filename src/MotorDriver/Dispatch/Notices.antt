-- ===== src/MotorDriver/Dispatch/Notices.antt =====
-- src/driver/motor_driver_impl.cpp: the observers and the event bus are told the same.
use hardware_driver.Base.{
  ℕ, ◌≡◌, refl, String, List, [], ◌∷◌, ◌++◌, Bool, true, false, ◌&&◌, ◌==◌, map, inl, inr,
  Bool-cases, Option-cases, All,
}
use hardware_driver.Bus.{GenericBusPacket}
use hardware_driver.MotorProtocol.{
  MotorStatus, MotorFeedback, status_feedback, func_feedback, param_feedback, ParamData,
  parse_feedback,
}
use hardware_driver.IapProtocol.{IapStatus, parse_iap_feedback}
use hardware_driver.MotorDriver.{MotorDriver}
use hardware_driver.MotorDriver.Dispatch.{
  Effect, button_packet, feedback_call, status_notice, function_notice, parameter_notice,
  iap_notice, status_event, function_event, parameter_event, only, live, handle_feedback,
  handle_bus_packet,
}

-- A notice to an observer, and the event that says the same.
pub data Twin : (ℕ → Effect) → Effect → Type 0 where
  status :
      (i : String) (m : ℕ) (st : MotorStatus)
      → Twin (λ o. status_notice o i m st) (status_event i m st)
  function :
      (i : String) (m op : ℕ) (ok : Bool)
      → Twin (λ o. function_notice o i m op ok) (function_event i m op ok)
  parameter :
      (i : String) (m a d : ℕ) (v : ParamData)
      → Twin (λ o. parameter_notice o i m a d v) (parameter_event i m a d v)

-- Effects of which neither the observers of statuses nor the event bus hear; a callback is called
-- only where it is set.
abbrev pub IsPrivate : Bool → Effect → Type 0
IsPrivate callback (button_packet i id d n) = Unit
IsPrivate callback (feedback_call i m st) = callback ≡ true
IsPrivate callback (iap_notice o i m st) = Unit
IsPrivate callback _ = ⊥

iap_notices-IsPrivate :
    (callback : Bool) (i : String) (m : ℕ) (st : IapStatus) (ws : List ℕ)
    → All (IsPrivate callback) (map (λ o. iap_notice o i m st) ws)
iap_notices-IsPrivate callback i m st [] = tt
iap_notices-IsPrivate callback i m st (w ∷ ws) = (tt, iap_notices-IsPrivate callback i m st ws)

only-IsPrivate :
    (b : Bool) (i : String) (m : ℕ) (st : MotorStatus)
    → All (IsPrivate b) (only b (feedback_call i m st))
only-IsPrivate true i m st = (refl, tt)
only-IsPrivate false i m st = tt

module _ (alive : ℕ → Bool) where
  -- What a packet causes: private effects; or, after such, one notice to each living observer and,
  -- where the event bus is set, the event that says the same.
  pub data Announces (s : MotorDriver) (effects : List Effect) : Type 0 where
    silent : All (IsPrivate s.feedback_callback) effects → Announces s effects
    told :
        (before : List Effect) (notice : ℕ → Effect) (event : Effect)
        → All (IsPrivate s.feedback_callback) before
        → Twin notice event
        → effects ≡ before ++ (map notice (live alive s.observers) ++ only s.event_bus event)
        → Announces s effects

  handle_feedback-Announces :
      (fb : MotorFeedback) (s : MotorDriver) → Announces s (handle_feedback alive fb s).1
  unfolding handle_feedback
  handle_feedback-Announces (status_feedback fb) s =
      told (only s.feedback_callback (feedback_call fb.interface fb.motor_id fb.status)) _ _
        (only-IsPrivate s.feedback_callback fb.interface fb.motor_id fb.status)
        (status fb.interface fb.motor_id fb.status) refl
  handle_feedback-Announces (func_feedback fb) s =
      told [] _ _ tt (function fb.interface fb.motor_id fb.op_code fb.success) refl
  handle_feedback-Announces (param_feedback fb) s =
      told [] _ _ tt (parameter fb.interface fb.motor_id fb.addr fb.data_type fb.value) refl

  pub handle_bus_packet-Announces :
      (p : GenericBusPacket) (s : MotorDriver) → Announces s (handle_bus_packet alive p s).1
  unfolding handle_bus_packet
  handle_bus_packet-Announces p s = elim (Bool-cases ((p.id == 0x8F) && s.button_packet_callback)) [
    | inl button ↦ rw button (silent (tt, tt))
    | inr no_button ↦ rw no_button (elim (Option-cases (parse_iap_feedback p)) [
      | inr (fb, e) ↦ rw e (
          silent (
            iap_notices-IsPrivate s.feedback_callback p.interface fb.motor_id fb.status_msg
              (live alive s.iap_observers)))
      | inl no_iap ↦ rw no_iap (elim (Option-cases (parse_feedback p)) [
        | inl nothing ↦ rw nothing (silent tt)
        | inr (fb, e) ↦ rw e (handle_feedback-Announces fb s)
      ])
    ])
  ]

  All-live : (P : ℕ → Type 0) (ws : List ℕ) → All P ws → All P (live alive ws)
  unfolding live
  All-live P [] h = tt
  All-live P (w ∷ ws) h = elim (Bool-cases (alive w)) [
    | inl here ↦ rw here (h.0, All-live P ws h.1)
    | inr gone ↦ rw gone (All-live P ws h.1)
  ]

  handle_feedback-watchers :
      (P : ℕ → Type 0) (fb : MotorFeedback) (s : MotorDriver)
      → All P s.observers
      → ((handle_feedback alive fb s).0.feedback_callback ≡ s.feedback_callback)
        × All P (handle_feedback alive fb s).0.observers
        × All P (live alive s.observers)
  unfolding handle_feedback
  handle_feedback-watchers P (status_feedback fb) s h =
      (refl, All-live P s.observers h, All-live P s.observers h)
  handle_feedback-watchers P (func_feedback fb) s h =
      (refl, All-live P s.observers h, All-live P s.observers h)
  handle_feedback-watchers P (param_feedback fb) s h =
      (refl, All-live P s.observers h, All-live P s.observers h)

  -- A packet changes nothing about who listens, but that observers who are gone are forgotten.
  pub handle_bus_packet-watchers :
      (P : ℕ → Type 0) (p : GenericBusPacket) (s : MotorDriver)
      → All P s.observers
      → ((handle_bus_packet alive p s).0.feedback_callback ≡ s.feedback_callback)
        × All P (handle_bus_packet alive p s).0.observers
        × All P (live alive s.observers)
  unfolding handle_bus_packet
  handle_bus_packet-watchers P p s h =
      let l = All-live P s.observers h in
      elim (Bool-cases ((p.id == 0x8F) && s.button_packet_callback)) [
        | inl button ↦ rw button (refl, h, l)
        | inr no_button ↦ rw no_button (elim (Option-cases (parse_iap_feedback p)) [
          | inr (fb, e) ↦ rw e (refl, h, l)
          | inl no_iap ↦ rw no_iap (elim (Option-cases (parse_feedback p)) [
            | inl nothing ↦ rw nothing (refl, h, l)
            | inr (fb, e) ↦ rw e (handle_feedback-watchers P fb s h)
          ])
        ])
      ]
