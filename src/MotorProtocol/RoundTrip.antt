-- ===== src/MotorProtocol/RoundTrip.antt =====
-- src/protocol/motor_protocol.cpp: what parsing gives back of what was packed.
use hardware_driver.Base.{
  ℕ, String, ◌+◌, ◌/◌, ◌%◌, ◌^◌, ◌<◌, ◌≡◌, ◌≢◌, ◌⊎◌, List, [], ◌∷◌, ◌++◌, true, some, none, arith,
  length,
}
use hardware_driver.Bus.{
  GenericBusPacket, BusProtocolType, Pack, max_bus_data_size, new_packet, fill,
}
use hardware_driver.MotorProtocol.{
  MotorStatus, MotorFeedback, status_feedback, param_feedback, ParamData, parse_status,
  parse_feedback, float_to_big_endian_bytes, int32_to_big_endian_bytes,
}
use hardware_driver.MotorProtocol.Pack.{pack_param_write_int, pack_param_write_float}

-- A packet of the CAN FD bus with the given id and contents.
abbrev pub received : String → ℕ → Pack → GenericBusPacket
received interface id k = record (fill (new_packet [] interface id) k) {
  protocol_type = BusProtocolType.can_fd;
}

-- The echo of a parameter write.
abbrev pub write_result : String → ℕ → ℕ → ℕ → ParamData → MotorFeedback
write_result interface m addr data_type value = param_feedback (record {
  rw_method = 2;
  addr = addr;
  data_type = data_type;
  value = value;
  interface = interface;
  motor_id = m;
})

-- A motor that echoes a parameter write under the id 0x700 plus its own id is understood: the parser
-- gives back the method, address, type and value that were packed, for either type, and the id.
parse_feedback-pack_param_write :
    (interface : String) (m addr value : ℕ) (d : List ℕ)
    → m < 256
    → addr < 2 ^ 16
    → value < 2 ^ 32
    → length d ≡ max_bus_data_size
    → (parse_feedback (received interface (0x700 + m) (pack_param_write_int d addr value))
        ≡ some (write_result interface m addr 1 (ParamData.int32 value)))
      × (parse_feedback (received interface (0x700 + m) (pack_param_write_float d addr value))
          ≡ some (write_result interface m addr 2 (ParamData.float value)))
unfolding parse_feedback pack_param_write_int pack_param_write_float
parse_feedback-pack_param_write s m addr value (_ ∷ _ ∷ _ ∷ _ ∷ _ ∷ _ ∷ _ ∷ _ ∷ _ ∷ d) hm ha hv h =
    (ground arith, ground arith)
parse_feedback-pack_param_write s m addr value _ hm ha hv h = absurd (omega arith)

-- The frame of a motor's status: a length byte, then the fields in the order of the protocol.
unfoldable pub status_frame : MotorStatus → List ℕ
status_frame s =
    23 ∷ s.enable_flag ∷ s.motor_mode ∷ float_to_big_endian_bytes s.position
    ++ float_to_big_endian_bytes s.velocity
    ++ float_to_big_endian_bytes s.effort
    ++ int32_to_big_endian_bytes s.error_code
    ++ ((s.voltage / 256)
        ∷ (s.voltage % 256)
        ∷ (s.temperature / 256)
        ∷ (s.temperature % 256)
        ∷ s.limit_flag
        ∷ [])

-- Each field within the width that `Motor_Status` gives it.
pub record IsInRange (s : MotorStatus) : Type 0 where
  pub enable_flag : s.enable_flag < 2
  pub motor_mode : s.motor_mode < 2 ^ 4
  pub position : s.position < 2 ^ 32
  pub limit_flag : s.limit_flag < 2
  pub temperature : s.temperature < 2 ^ 10
  pub velocity : s.velocity < 2 ^ 32
  pub voltage : s.voltage < 2 ^ 10
  pub effort : s.effort < 2 ^ 32
  pub error_code : s.error_code < 2 ^ 32

parse_status-status_frame :
    (s : MotorStatus) (rest : List ℕ) → IsInRange s → parse_status (status_frame s ++ rest) ≡ s
unfolding parse_status status_frame
parse_status-status_frame s rest h = ground arith

-- The parser reads back every field of a status frame whose fields are within their widths,
-- whatever stands behind the frame, and the motor's id.
pub parse_feedback-status_frame :
    (interface : String) (m : ℕ) (s : MotorStatus) (rest : List ℕ) (n : ℕ)
    → m < 256
    → IsInRange s
    → parse_feedback (
        received interface
          (0x300 + m)
          (record { bytes = status_frame s ++ rest; size = n; packed = true }))
      ≡ some (status_feedback (record { status = s; interface = interface; motor_id = m }))
unfolding parse_feedback
parse_feedback-status_frame interface m s rest n hm h =
    ground (arith, parse_status-status_frame s rest h)

-- The packets that the parser answers to.
abbrev pub IsFeedback : GenericBusPacket → Type 0
IsFeedback p =
    (p.protocol_type ≡ BusProtocolType.can_fd)
    × ((p.id / 256 ≡ 3) ⊎ (p.id / 256 ≡ 5) ⊎ (p.id / 256 ≡ 7))

-- The parser answers exactly to CAN FD packets whose id is 0x300, 0x500 or 0x700 plus a motor id.
pub parse_feedback-IsFeedback :
    (p : GenericBusPacket)
    → ((r : MotorFeedback) → parse_feedback p ≡ some r → IsFeedback p)
      × (IsFeedback p → parse_feedback p ≢ none)
unfolding parse_feedback
parse_feedback-IsFeedback p = (λ r h. ground arith, λ h e. ground arith)
