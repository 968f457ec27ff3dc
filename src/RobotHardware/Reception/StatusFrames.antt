-- ===== src/RobotHardware/Reception/StatusFrames.antt =====
-- src/driver/motor_driver_impl.cpp: the driver's part, from frames to the calls of its callback.

use hardware_driver.Base.{
  ℕ, ◌+◌, ◌≡◌, ◌<◌, refl, ap, ◌∙◌, String, List, [], ◌∷◌, ◌++◌, Bool, true, false, Option, some,
  arith, length, take, drop, store, replicate, map, nat_eq, string_eq, All, All-append, each_unit,
}
use hardware_driver.Bus.{GenericBusPacket, max_bus_data_size, new_packet}
use hardware_driver.MotorProtocol.{MotorStatus}
use hardware_driver.MotorProtocol.RoundTrip.{IsInRange, received, status_frame}
use hardware_driver.CanFdBus.{Frame, receive_frame}
use hardware_driver.CanFdBus.Threads.{packets_of}
use hardware_driver.MotorDriver.{MotorDriver, MotorKey}
use hardware_driver.MotorDriver.Dispatch.Notices.{handle_bus_packet-watchers}
use hardware_driver.MotorDriver.Dispatch.{
  Effect, feedback_call, status_notice, status_event, live, only, handle_bus_packet,
}
use hardware_driver.MotorDriver.Dispatch.Turns.{handle_all}
use hardware_driver.MotorDriver.Dispatch.Routing.{handle_bus_packet-status_frame}
use hardware_driver.RobotHardware.{RobotHardware, Report, handle_motor_status_with_aggregation}
use hardware_driver.RobotHardware.Reception.Rounds.{Statuses, calls}
use hardware_driver.RobotHardware.Reception.{hear, hear_all}

abbrev IsQuiet : Effect → Type 0
IsQuiet x = (r : RobotHardware) → hear x r ≡ (r, [])

hear_all-IsQuiet :
    (xs ys : List Effect) (r : RobotHardware)
    → All IsQuiet xs
    → hear_all (xs ++ ys) r ≡ hear_all ys r
unfolding hear_all
hear_all-IsQuiet [] ys r h = refl
hear_all-IsQuiet (x ∷ xs) ys r h = rw (h.0 r) (hear_all-IsQuiet xs ys r h.1)

notices-IsQuiet :
    (interface : String) (m : ℕ) (st : MotorStatus) (ws : List ℕ)
    → All IsQuiet (map (λ o. status_notice o interface m st) ws)
unfolding hear
notices-IsQuiet interface m st [] = tt
notices-IsQuiet interface m st (w ∷ ws) = (λ r. refl, notices-IsQuiet interface m st ws)

event-IsQuiet :
    (is_set : Bool) (interface : String) (m : ℕ) (st : MotorStatus)
    → All IsQuiet (only is_set (status_event interface m st))
unfolding hear
event-IsQuiet true interface m st = (λ r. refl, tt)
event-IsQuiet false interface m st = tt

-- The frame in which a motor sends its status.
abbrev pub frame_of : ℕ → MotorStatus → Frame
frame_of m st = record {
  can_id = 0x300 + m;
  len = 24;
  flags = 4;
  bytes = status_frame st ++ replicate 40 0;
}

abbrev pub reads : Statuses → List (Option Frame)
reads [] = []
reads ((m, st) ∷ fs) = some (frame_of m st) ∷ reads fs

store-nil : (d : List ℕ) → store d 0 [] ≡ d
store-nil [] = refl
store-nil (x ∷ d) = refl

store-status_frame :
    (raw : List ℕ) (st : MotorStatus)
    → length raw ≡ max_bus_data_size
    → store raw 0 (take 24 (status_frame st ++ replicate 40 0)) ≡ status_frame st ++ drop 24 raw
unfolding status_frame
store-status_frame
      (r0 ∷ r1 ∷ r2 ∷ r3 ∷ r4 ∷ r5 ∷ r6 ∷ r7 ∷ r8 ∷ r9 ∷ r10 ∷ r11 ∷ r12 ∷ r13 ∷ r14 ∷ r15 ∷ r16
        ∷ r17 ∷ r18 ∷ r19 ∷ r20 ∷ r21 ∷ r22 ∷ r23 ∷ raw)
      st h =
    ap (λ d. status_frame st ++ d) (store-nil raw)
store-status_frame _ st h = absurd (omega arith)

receive_frame-frame_of :
    (raw : List ℕ) (interface : String) (m : ℕ) (st : MotorStatus)
    → length raw ≡ max_bus_data_size
    → m < 256
    → receive_frame true (frame_of m st) (new_packet raw interface 0)
      ≡ received interface
          (0x300 + m)
          (record { bytes = status_frame st ++ drop 24 raw; size = 24; packed = true })
unfolding receive_frame
receive_frame-frame_of raw interface m st full small =
    ground (arith, store-status_frame raw st full)

module _ (alive : ℕ → Bool) (raw : List ℕ) (interface : String)
    (full : length raw ≡ max_bus_data_size) where
  -- Of a status frame the robot hears by the driver's callback, and by nothing else.
  hear_all-handle_all :
      (m : ℕ) (st : MotorStatus) (ps : List GenericBusPacket) (s : MotorDriver) (r : RobotHardware)
      → s.feedback_callback ≡ true
      → m < 256
      → IsInRange st
      → let p = receive_frame true (frame_of m st) (new_packet raw interface 0) in
        hear_all (handle_all alive (p ∷ ps) s) r
        ≡ hear_all
            (feedback_call interface m st ∷ handle_all alive ps (handle_bus_packet alive p s).0)
            r
  unfolding hear_all hear handle_all
  hear_all-handle_all m st ps s r heard small range =
      let p = receive_frame true (frame_of m st) (new_packet raw interface 0) in
      let key : MotorKey = record { interface = interface; motor_id = m } in
      let routed =
        handle_bus_packet-status_frame alive interface m st (drop 24 raw) 24 s key small range in
      let call = feedback_call interface m st in
      let event = only s.event_bus (status_event interface m st) in
      let quiet = map (λ o. status_notice o interface m st) (live alive s.observers) ++ event in
      let rest = handle_all alive ps (handle_bus_packet alive p s).0 in
      let effects : (handle_bus_packet alive p s).1 ≡ call ∷ quiet =
        ap (λ x. (handle_bus_packet alive x s).1)
          (receive_frame-frame_of raw interface m st full small)
        ∙ routed.3
        ∙ ap (λ b. only b call ++ quiet) heard in
      let silence =
        All-append IsQuiet _ event (notices-IsQuiet interface m st (live alive s.observers))
          (event-IsQuiet s.event_bus interface m st) in
      let (r', reports) = handle_motor_status_with_aggregation interface m st r in
      ap (λ xs. hear_all (xs ++ rest) r) effects
      ∙ ap (λ (o : RobotHardware × List Report). (o.0, reports ++ o.1))
          (hear_all-IsQuiet quiet rest r' silence)

  pub hear_all-packets_of :
      (fs : Statuses) (s : MotorDriver) (r : RobotHardware)
      → s.feedback_callback ≡ true
      → All (λ f. (f.0 < 256) × IsInRange f.1) fs
      → hear_all (handle_all alive (packets_of raw interface (reads fs)) s) r
        ≡ hear_all (calls interface fs) r
  unfolding hear_all hear handle_all
  hear_all-packets_of [] s r heard h = refl
  hear_all-packets_of ((m, st) ∷ fs) s r heard h =
      let p = receive_frame true (frame_of m st) (new_packet raw interface 0) in
      let ps = packets_of raw interface (reads fs) in
      let s' = (handle_bus_packet alive p s).0 in
      let keeps =
        (handle_bus_packet-watchers alive (λ w. Unit {0}) p s (each_unit s.observers)).0 in
      let (r', reports) = handle_motor_status_with_aggregation interface m st r in
      hear_all-handle_all m st ps s r heard h.0.0 h.0.1
      ∙ ap (λ (o : RobotHardware × List Report). (o.0, reports ++ o.1))
          (hear_all-packets_of fs s' r' (keeps ∙ heard) h.1)
