-- ===== src/RobotHardware/Reception/Batch.antt =====
-- src/interface/robot_hardware.cpp: from the status frames of an interface's motors to batches.
use mathlib.Core.List.{Memᴰ}
use hardware_driver.Base.{
  ℕ, ◌≡◌, ◌<◌, refl, sym, ◌++◌, String, List, [], ◌∷◌, Bool, true, Option, ap, ◌∙◌, none, some,
  length, map, find, All, All-append, string_eq,
}
use hardware_driver.Bus.{max_bus_data_size}
use hardware_driver.MotorProtocol.RoundTrip.{IsInRange}
use hardware_driver.CanFdBus.{new_canfd_bus, receive_loop}
use hardware_driver.CanFdBus.Threads.{packets_of, receive_loop-new_canfd_bus}
use hardware_driver.MotorDriver.{MotorDriver}
use hardware_driver.MotorDriver.Dispatch.{register_feedback_callback}
use hardware_driver.MotorDriver.Dispatch.Turns.{
  Turn, arrivals, KeepsUp, take_turns, handle_all, take_turns-handle_all,
}
use hardware_driver.MotorDriver.Feedback.{set_motor_config}
use hardware_driver.RobotHardware.{batch_report}
use hardware_driver.RobotHardware.Monitoring.{new_with_batch_callback}
use hardware_driver.RobotHardware.Reception.{hear_all}
use hardware_driver.RobotHardware.Reception.Rounds.{
  Statuses, Gathers, IsRound, all_of_them, hear_all-rounds,
}
use hardware_driver.RobotHardware.Reception.StatusFrames.{reads, hear_all-packets_of}

-- Motors whose ids and fields fit into a frame.
abbrev pub Fit : Statuses → Type 0
Fit fs = All (λ f. (f.0 < 256) × IsInRange f.1) fs

Fit-all_of_them : (rounds : List Statuses) → All Fit rounds → Fit (all_of_them rounds)
Fit-all_of_them [] h = tt
Fit-all_of_them (fs ∷ rounds) h =
    All-append (λ f. (f.0 < 256) × IsInRange f.1) fs (all_of_them rounds) h.0
      (Fit-all_of_them rounds h.1)

-- A robot with a batch callback, on a bus that could bind the interface. The motors that are
-- configured for it send their statuses in rounds, in each round every motor once, in any order: the
-- receive thread hands all their frames to the motor driver. Where the driver's queue is empty at
-- first and the data thread keeps up, that is, whenever a packet arrives there is room in the queue,
-- and in the end the queue is empty, the user is told just one batch for each round, in turn, with
-- the statuses that were sent in it, however the two threads take turns.
pub new_with_batch_callback-rounds :
    (alive : ℕ → Bool) (bind : String → Option ℕ) (names : List String) (raw : List ℕ)
    (config : List (String × List ℕ)) (driver : MotorDriver) (interface : String) (e : ℕ)
    (es : List ℕ) (rounds : List Statuses) (turns : List Turn) {socket : ℕ}
    → length raw ≡ max_bus_data_size
    → Memᴰ interface names
    → bind interface ≡ some socket
    → find interface config ≡ some (e ∷ es)
    → All (IsRound (e ∷ es)) rounds
    → All Fit rounds
    → driver.receive_queue ≡ []
    → arrivals turns ≡ packets_of raw interface (reads (all_of_them rounds))
    → KeepsUp 0 turns
    → let (r, d) = new_with_batch_callback true config driver in
      (receive_loop (new_canfd_bus bind names) raw interface (reads (all_of_them rounds))
        ≡ some (arrivals turns))
      × ((hear_all (take_turns alive turns d).1 r).1 ≡ map (batch_report interface) rounds)
unfolding new_with_batch_callback register_feedback_callback set_motor_config find
new_with_batch_callback-rounds alive bind names raw config driver interface e es rounds turns full
      listed bound configured rounded fit empty arrived keeps_up =
    let fs = all_of_them rounds in
    let (r, d) = new_with_batch_callback true config driver in
    let g : Gathers interface (e ∷ es) [] r = record {
      single = refl;
      batch = refl;
      config = configured;
      cache = refl;
    } in
    let handled : (take_turns alive turns d).1
        ≡ handle_all alive (packets_of raw interface (reads fs)) d =
      take_turns-handle_all alive turns d (rw empty keeps_up)
      ∙ ap (λ q. handle_all alive (q ++ arrivals turns) d) empty
      ∙ ap (λ ps. handle_all alive ps d) arrived in
    (
      (receive_loop-new_canfd_bus bind names raw interface none (reads fs) listed).2 _ bound
          ∙ ap some (sym arrived),
      ap (λ xs. (hear_all xs r).1) handled
          ∙ ap (λ o. o.1)
              (hear_all-packets_of alive raw interface full fs d r refl
                (Fit-all_of_them rounds fit))
          ∙ hear_all-rounds interface e es rounds r g rounded,
    )
