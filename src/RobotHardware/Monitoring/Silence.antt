-- ===== src/RobotHardware/Monitoring/Silence.antt =====
-- src/interface/robot_hardware.cpp: what a user hears while the monitoring is paused.
use hardware_driver.Base.{
  ℕ, ◌≡◌, inl, inr, refl, sym, ap, ◌∙◌, List, [], ◌∷◌, Bool, true, false, ◌||◌, ◌==◌, ==_iff,
  Option, none, some, map, arith, All, All-mono, All-append, All-map, Bool-cases,
}
use hardware_driver.Bus.{GenericBusPacket}
use hardware_driver.MotorDriver.{MotorDriver}
use hardware_driver.MotorDriver.Dispatch.{
  Effect, button_packet, feedback_call, status_notice, function_notice, parameter_notice,
  iap_notice, status_event, function_event, parameter_event, only, live, removed, locks_to,
  remove_observer, register_feedback_callback, handle_bus_packet, process_packet,
}
use hardware_driver.MotorDriver.Dispatch.Turns.{Turn, arrives, works, take_turn, take_turns}
use hardware_driver.MotorDriver.Dispatch.Notices.{
  Twin, status, function, parameter, IsPrivate, Announces, silent, told,
  handle_bus_packet-Announces, handle_bus_packet-watchers,
}
use hardware_driver.RobotHardware.{RobotHardware}
use hardware_driver.RobotHardware.Monitoring.{is_one, forwards, reaches, pause_status_monitoring}

-- The ways of the constructors: by a callback, an observer, a handler or an observer of updates alone.
pub data Way (r : RobotHardware) : Type 0 where
  by_callback :
      (r.status_callback || r.batch_status_callback) ≡ true
      → r.current_observer ≡ none
      → r.current_iap_observer ≡ none
      → r.current_event_handler ≡ false
      → Way r
  by_observer :
      (o : ℕ)
      → r.current_observer ≡ some o
      → r.status_callback ≡ false
      → r.batch_status_callback ≡ false
      → r.current_iap_observer ≡ none
      → r.current_event_handler ≡ false
      → Way r
  by_handler :
      r.current_event_handler ≡ true
      → r.status_callback ≡ false
      → r.batch_status_callback ≡ false
      → r.current_observer ≡ none
      → r.current_iap_observer ≡ none
      → Way r
  by_iap_observer :
      (o : ℕ)
      → r.current_iap_observer ≡ some o
      → r.status_callback ≡ false
      → r.batch_status_callback ≡ false
      → r.current_observer ≡ none
      → r.current_event_handler ≡ false
      → Way r

-- What reaches the user also while the monitoring is paused: the packets of the buttons, and what the
-- user's own observer of updates is told.
abbrev pub StaysHeard : RobotHardware → Effect → Type 0
StaysHeard r (button_packet i id d n) = Unit
StaysHeard r (iap_notice o i m st) = r.current_iap_observer ≡ some o
StaysHeard r _ = ⊥

abbrev pub IsHushed : RobotHardware → Effect → Type 0
IsHushed r x = reaches r x ≡ true → StaysHeard r x

hushed : (r : RobotHardware) (x : Effect) → reaches r x ≡ false → IsHushed r x
hushed r x h heard = absurd (cc)

is_one-some : (o : Option ℕ) (w : ℕ) → is_one o w ≡ true → o ≡ some w
is_one-some none w h = absurd (cc)
is_one-some (some o) w h = ap some (sym ((==_iff w o).0 h))

-- What makes a driver silent towards a robot.
record IsSilent (r : RobotHardware) (s : MotorDriver) : Type 0 where
  no_callback :
      (s.feedback_callback ≡ true) → (r.status_callback || r.batch_status_callback) ≡ false
  no_observer : All (λ w. is_one r.current_observer w ≡ false) s.observers
  no_handler : forwards r ≡ false

module _ (r : RobotHardware) (s : MotorDriver) (i : IsSilent r s) where
  private_unheard : (x : Effect) → IsPrivate s.feedback_callback x → IsHushed r x
  unfolding reaches
  private_unheard (button_packet n id d k) h heard = tt
  private_unheard (feedback_call n m st) h heard =
      hushed r (feedback_call n m st) (i.no_callback h) heard
  private_unheard (iap_notice o n m st) h heard = is_one-some r.current_iap_observer o heard
  private_unheard (status_notice o n m st) h heard = elim h [ ]
  private_unheard (function_notice o n m op ok) h heard = elim h [ ]
  private_unheard (parameter_notice o n m a d v) h heard = elim h [ ]
  private_unheard (status_event n m st) h heard = elim h [ ]
  private_unheard (function_event n m op ok) h heard = elim h [ ]
  private_unheard (parameter_event n m a d v) h heard = elim h [ ]

  notice_unheard :
      (notice : ℕ → Effect) (event : Effect)
      → Twin notice event
      → ((w : ℕ) → is_one r.current_observer w ≡ false → IsHushed r (notice w)) × IsHushed r event
  unfolding reaches
  notice_unheard _ _ (status n m st) =
      (λ w h. hushed r (status_notice w n m st) h, hushed r (status_event n m st) i.no_handler)
  notice_unheard _ _ (function n m op ok) = (
    λ w h. hushed r (function_notice w n m op ok) h,
    hushed r (function_event n m op ok) i.no_handler,
  )
  notice_unheard _ _ (parameter n m a d v) = (
    λ w h. hushed r (parameter_notice w n m a d v) h,
    hushed r (parameter_event n m a d v) i.no_handler,
  )

  only_unheard : (b : Bool) (x : Effect) → IsHushed r x → All (IsHushed r) (only b x)
  only_unheard true x h = (h, tt)
  only_unheard false x h = tt

  packet_unheard :
      (alive : ℕ → Bool) (p : GenericBusPacket) → All (IsHushed r) (handle_bus_packet alive p s).1
  packet_unheard alive p = unheard (handle_bus_packet-Announces alive p s)
    where
      unheard :
          Announces alive s (handle_bus_packet alive p s).1
          → All (IsHushed r) (handle_bus_packet alive p s).1
      unheard (silent h) = All-mono private_unheard _ h
      unheard (told before notice event h t e) =
          let (others, own) = notice_unheard notice event t in
          let watchers = (handle_bus_packet-watchers alive _ p s i.no_observer).2 in
          rw e (
            All-append _ before _ (All-mono private_unheard before h) (
              All-append _ (map notice (live alive s.observers)) _
                (All-map notice _ _ others (live alive s.observers) watchers)
                (only_unheard s.event_bus event own)))

IsSilent-queue :
    (r : RobotHardware) (s : MotorDriver) (q : List GenericBusPacket)
    → IsSilent r s
    → IsSilent r (record s { receive_queue = q })
IsSilent-queue r s q i = record {
  no_callback = i.no_callback;
  no_observer = i.no_observer;
  no_handler = i.no_handler;
}

take_turn_unheard :
    (alive : ℕ → Bool) (r : RobotHardware) (t : Turn) (s : MotorDriver)
    → IsSilent r s
    → let (s', effects) = take_turn alive t s in IsSilent r s' × All (IsHushed r) effects
unfolding take_turn process_packet
take_turn_unheard alive r (arrives p) s i = (IsSilent-queue r s _ i, tt)
take_turn_unheard alive r works s i = worked s.receive_queue refl
  where
    worked :
        (q : List GenericBusPacket)
        → s.receive_queue ≡ q
        → let (s', effects) = take_turn alive works s in IsSilent r s' × All (IsHushed r) effects
    worked [] e = rw e (IsSilent-queue r s [] i, tt)
    worked (p ∷ q) e =
        let t = record s { receive_queue = q } in
        let w =
          handle_bus_packet-watchers alive (λ w. is_one r.current_observer w ≡ false) p t
            i.no_observer in
        let quiet = IsSilent-queue r s q i in
        rw e (
          record {
            no_callback = λ h. i.no_callback (sym w.0 ∙ h);
            no_observer = w.1;
            no_handler = i.no_handler;
          },
          packet_unheard r t quiet alive p,
        )

take_turns_unheard :
    (alive : ℕ → Bool) (r : RobotHardware) (ts : List Turn) (s : MotorDriver)
    → IsSilent r s
    → All (IsHushed r) (take_turns alive ts s).1
unfolding take_turns
take_turns_unheard alive r [] s i = tt
take_turns_unheard alive r (t ∷ ts) s i =
    let (quiet, hushes) = take_turn_unheard alive r t s i in
    All-append _ (take_turn alive t s).1 _ hushes
      (take_turns_unheard alive r ts (take_turn alive t s).0 quiet)

All-removed :
    (alive : ℕ → Bool) (o : ℕ) (ws : List ℕ)
    → alive o ≡ true
    → All (λ w. is_one (some o) w ≡ false) (removed alive (some o) ws)
unfolding removed locks_to
All-removed alive o [] h = tt
All-removed alive o (w ∷ ws) h = elim (Bool-cases (w == o)) [
  | inl same ↦
      let here : alive w ≡ true = ap alive ((==_iff w o).0 same) ∙ h in
      rw (here, same) (All-removed alive o ws h)
  | inr other ↦ elim (Bool-cases (alive w)) [
    | inl here ↦ rw (here, other) (other, All-removed alive o ws h)
    | inr gone ↦ rw gone (other, All-removed alive o ws h)
  ]
]

unwatched : (ws : List ℕ) → All (λ w. is_one none w ≡ false) ws
unwatched [] = tt
unwatched (w ∷ ws) = (refl, unwatched ws)

pause_status_monitoring-IsSilent :
    (alive : ℕ → Bool) (r : RobotHardware) (s : MotorDriver)
    → Way r
    → ((o : ℕ) → r.current_observer ≡ some o → alive o ≡ true)
    → let (r', s') = pause_status_monitoring alive r s in IsSilent r' s'
unfolding pause_status_monitoring remove_observer register_feedback_callback
pause_status_monitoring-IsSilent alive r s (by_callback is_set no_observer no_iap no_handler) held =
    rw (no_observer, is_set, pause_status_monitoring)
      (record {
        no_callback = λ h. cc;
        no_observer = rw no_observer (unwatched s.observers);
        no_handler = ground (arith, no_handler);
      })
pause_status_monitoring-IsSilent alive r s
      (by_observer o is_set no_status no_batch no_iap no_handler) held =
    rw (is_set, pause_status_monitoring)
      (record {
        no_callback = λ h. ground (arith, no_status, no_batch);
        no_observer = rw is_set (All-removed alive o s.observers (held o is_set));
        no_handler = ground (arith, no_handler);
      })
pause_status_monitoring-IsSilent alive r s (by_handler is_set no_status no_batch no_observer no_iap)
      held =
    rw (no_observer, no_status, no_batch, is_set, pause_status_monitoring)
      (record {
        no_callback = λ h. ground (arith, no_status, no_batch);
        no_observer = rw no_observer (unwatched s.observers);
        no_handler = ground arith;
      })
pause_status_monitoring-IsSilent alive r s
      (by_iap_observer o is_set no_status no_batch no_observer no_handler) held =
    rw (no_observer, no_status, no_batch, no_handler, pause_status_monitoring)
      (record {
        no_callback = λ h. ground (arith, no_status, no_batch);
        no_observer = rw no_observer (unwatched s.observers);
        no_handler = ground (arith, no_handler);
      })

-- While the monitoring is paused, whichever of the constructors' ways the user has to hear of the
-- motors and whatever turns the receive thread and the data thread take, all of what leaves the
-- driver that still reaches the user is the packets of buttons and what the user's own observer of
-- updates is told: no status, result or event does. An observer of the user is alive, as the robot
-- holds it.
pub pause_status_monitoring-unheard :
    (alive : ℕ → Bool) (r : RobotHardware) (s : MotorDriver) (ts : List Turn)
    → Way r
    → ((o : ℕ) → r.current_observer ≡ some o → alive o ≡ true)
    → let (r', s') = pause_status_monitoring alive r s in
      All (IsHushed r') (take_turns alive ts s').1
pause_status_monitoring-unheard alive r s ts way held =
    take_turns_unheard alive (pause_status_monitoring alive r s).0 ts
      (pause_status_monitoring alive r s).1 (pause_status_monitoring-IsSilent alive r s way held)
