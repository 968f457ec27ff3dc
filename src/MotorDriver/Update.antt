-- ===== src/MotorDriver/Update.antt =====
-- src/driver/motor_driver_impl.cpp: the firmware update. `start_update` is the row of commands that
-- its thread offers; whether they are let through is the filter's to say, and what lies between is in
-- `System`. It waits for the motor's answers and does not ask what came of the waits.
pub mod Firmware
pub mod Repeats
pub mod Offered
pub mod Waiting
use hardware_driver.Base.{
  ℕ, zero, suc, ◌+◌, ◌%◌, ◌^◌, String, List, [], ◌∷◌, Bool, true, false, ltb, leb, ◌==◌,
  if◌then◌else◌, Option, none, some, length, find, nat_eq,
}
use hardware_driver.Bus.{
  GenericBusPacket, Pack, Outcome, done, overrun, new_packet, fill, max_bus_data_size,
}
use hardware_driver.IapProtocol.{
  IapStatus, IapFeedback, code_of, load_firmware_from_file, pack_enter_iap_request, pack_send_key,
  pack_firmware_frame,
}
use hardware_driver.MotorDriver.{MotorDriver, is_duplicate_command}
use hardware_driver.MotorDriver.Feedback.{pause_feedback_request, resume_feedback_request}

-- `if (pack(packet...)) send_control_command(packet)`, before what is sent after it.
abbrev pub sent_if : Bool → GenericBusPacket → List GenericBusPacket → List GenericBusPacket
sent_if true p ps = p ∷ ps
sent_if false p ps = ps

abbrev pub then_sent :
    Pack → GenericBusPacket → Outcome (List GenericBusPacket) → Outcome (List GenericBusPacket)
then_sent k p overrun = overrun
then_sent k p (done ps) = done (sent_if k.packed p ps)

-- The loop over the firmware from an offset on, for at most so many rounds: the packets it offers.
-- One packet serves for all, so that a short frame keeps the bytes of the frame before behind its own.
unfoldable pub firmware_frames : ℕ → GenericBusPacket → List ℕ → ℕ → Outcome (List GenericBusPacket)
firmware_frames zero p firmware offset = done []
firmware_frames (suc n) p firmware offset =
    if leb (length firmware) offset
    then done []
    else elim (pack_firmware_frame p.payload p.len firmware offset 64) [
      | overrun ↦ overrun
      | done k ↦ then_sent k (fill p k) (firmware_frames n (fill p k) firmware (offset + 64))
    ]

-- The commands that an update offers, once the file is read.
unfoldable pub update_packets : List ℕ → String → ℕ → List ℕ → Outcome (List GenericBusPacket)
unfolding firmware_frames
update_packets raw interface motor_id firmware =
    let p = new_packet raw interface ((0x1400 + motor_id) % 2 ^ 32) in
    let enter = fill p (pack_enter_iap_request p.payload) in
    let send_key = fill enter (pack_send_key enter.payload) in
    elim (firmware_frames (length firmware) send_key firmware 0) [
      | overrun ↦ overrun
      | done ps ↦ done (enter ∷ send_key ∷ ps)
    ]

-- Commands offered to the filter in turn: those that it lets through.
pub offer_all : List GenericBusPacket → MotorDriver → MotorDriver × List GenericBusPacket
offer_all [] s = (s, [])
offer_all (p ∷ ps) s =
    let (s', duplicate) = is_duplicate_command s p in
    let (t, passed) = offer_all ps s' in (t, if duplicate then passed else p ∷ passed)

-- The file's contents, or `none` where it cannot be opened.
pub start_update :
    List ℕ
    → String
    → ℕ
    → Option (List ℕ)
    → MotorDriver
    → Outcome (MotorDriver × List GenericBusPacket)
start_update raw interface motor_id file s =
    let paused = pause_feedback_request s in
    elim (load_firmware_from_file file) [
      | none ↦ done (resume_feedback_request paused, [])
      | some firmware ↦ elim (update_packets raw interface motor_id firmware) [
        | overrun ↦ overrun
        | done ps ↦
            let (t, passed) = offer_all ps paused in done (resume_feedback_request t, passed)
      ]
    ]

-- Waiting ----------------------------------------------------------------------------------------

-- What a turn of the loop of `wait_for_feedback` sees: the latest message of each motor, and the
-- milliseconds since the start.
pub record Poll : Type 0 where
  pub iap_latest_feedback : List (ℕ × IapStatus)
  pub elapsed : ℕ

-- The call has returned a message or nothing, or it waits.
pub data Wait : Type 0 where
  feedback : IapFeedback → Wait
  nothing still_waiting : Wait

-- Whether the latest message of the motor is the expected one.
unfoldable pub is_expected : ℕ → IapStatus → Poll → Bool
is_expected motor_id expected o = elim (find motor_id o.iap_latest_feedback) [
  | none ↦ false
  | some status ↦ code_of status == code_of expected
]

pub wait_for_feedback : ℕ → IapStatus → ℕ → List Poll → Wait
wait_for_feedback motor_id expected timeout_ms [] = still_waiting
wait_for_feedback motor_id expected timeout_ms (o ∷ os) =
    let rest = wait_for_feedback motor_id expected timeout_ms os in
    if is_expected motor_id expected o
    then feedback (record { status_msg = expected; motor_id = motor_id })
    else if ltb timeout_ms o.elapsed
    then nothing
    else rest
