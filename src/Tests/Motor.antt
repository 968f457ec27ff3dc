-- ===== src/Tests/Motor.antt =====
-- Inputs for the theorems on the motor protocol and on the firmware messages.
use hardware_driver.Base.{◌≡◌, ◌≢◌, true, none, refl, [], ◌∷◌, ◌++◌, some, arith, drop, take}
use hardware_driver.Bus.{GenericBusPacket}
use hardware_driver.MotorProtocol.{
  MotorFeedback, MotorStatusFeedback, parse_feedback, status_feedback,
}
use hardware_driver.MotorProtocol.Pack.{Batch, motor_bytes, pack_control_all_command}
use hardware_driver.MotorProtocol.Pack.Frame.{control, pack_request, IsFrame, pack_request-IsFrame}
use hardware_driver.MotorProtocol.Pack.Decode.{pack_control_all_command_slots}
use hardware_driver.MotorProtocol.RoundTrip.{
  received, status_frame, IsFeedback, parse_feedback-status_frame, parse_feedback-IsFeedback,
}
use hardware_driver.Tests.{float_ops, storage, can0, a_status, a_status-IsInRange, packet_of}

pack_request-IsFrame_example :
    IsFrame storage (pack_request float_ops storage (control 100 20 3 1 2))
pack_request-IsFrame_example = pack_request-IsFrame float_ops storage (control 100 20 3 1 2) refl

abbrev a_batch : Batch
a_batch = record {
  positions = 1 ∷ 2 ∷ 3 ∷ 4 ∷ 5 ∷ 6 ∷ [];
  velocities = 6 ∷ 5 ∷ 4 ∷ 3 ∷ 2 ∷ 1 ∷ [];
  efforts = 1 ∷ 1 ∷ 2 ∷ 2 ∷ 3 ∷ 3 ∷ [];
  kps = 1 ∷ 1 ∷ 1 ∷ 1 ∷ 1 ∷ 1 ∷ [];
  kds = 0 ∷ 0 ∷ 0 ∷ 0 ∷ 0 ∷ 0 ∷ [];
}

pack_control_all_command_slots_example :
    take 8 (drop 34 (pack_control_all_command float_ops storage a_batch).bytes)
    ≡ motor_bytes float_ops a_batch 4
pack_control_all_command_slots_example =
    pack_control_all_command_slots float_ops storage a_batch 4 refl (omega arith)

parse_feedback-status_frame_example :
    parse_feedback (
      received can0 0x305
        (record { bytes = status_frame a_status ++ 9 ∷ []; size = 24; packed = true }))
    ≡ some (status_feedback (record { status = a_status; interface = can0; motor_id = 5 }))
parse_feedback-status_frame_example =
    parse_feedback-status_frame can0 5 a_status (9 ∷ []) 24 (omega arith) a_status-IsInRange

abbrev a_packet : GenericBusPacket
a_packet = packet_of 0x502 (3 ∷ 4 ∷ 1 ∷ []) 3

parse_feedback-IsFeedback_example :
    ((r : MotorFeedback) → parse_feedback a_packet ≡ some r → IsFeedback a_packet)
    × (IsFeedback a_packet → parse_feedback a_packet ≢ none)
parse_feedback-IsFeedback_example = parse_feedback-IsFeedback a_packet

abbrev zero_frame : GenericBusPacket
zero_frame = packet_of 0x304 (23 ∷ 1 ∷ 4 ∷ []) 24

abbrev zero_feedback : MotorStatusFeedback
zero_feedback = record {
  status = record {
    enable_flag = 1;
    motor_mode = 4;
    position = 0;
    limit_flag = 0;
    temperature = 0;
    velocity = 0;
    voltage = 0;
    effort = 0;
    error_code = 0;
  };
  interface = can0;
  motor_id = 4;
}

zero_frame-parse_feedback : parse_feedback zero_frame ≡ some (status_feedback zero_feedback)
unfolding parse_feedback
zero_frame-parse_feedback = refl
