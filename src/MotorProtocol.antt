-- ===== src/MotorProtocol.antt =====
-- src/protocol/motor_protocol.hpp and motor_protocol.cpp: packing of commands for the joint motors
-- and parsing of their feedback. Bytes are numbers below 256, an `int32_t` and a `float` are their
-- 32-bit patterns, and the host is little-endian, as the unions of the source suppose.
pub mod Pack
pub mod RoundTrip
use hardware_driver.Base.{
  ℕ, String, ◌+◌, ◌*◌, ◌/◌, ◌%◌, ◌^◌, ◌<◌, List, [], ◌∷◌, Bool, true, ◌==◌, if◌then◌else◌, Option,
  none, some, bit_or, get_or, length, store, zero, suc,
}
use hardware_driver.Bus.{GenericBusPacket, BusProtocolType}
use hardware_driver.Float32.{FloatOps}

-- Motor_Status: bit fields of 1, 4, 1, 10 and 10 bits among the floats.
pub record MotorStatus : Type 0 where
  pub enable_flag : ℕ
  pub motor_mode : ℕ
  pub position : ℕ
  pub limit_flag : ℕ
  pub temperature : ℕ
  pub velocity : ℕ
  pub voltage : ℕ
  pub effort : ℕ
  pub error_code : ℕ

pub record MotorStatusFeedback : Type 0 where
  pub status : MotorStatus
  pub interface : String
  pub motor_id : ℕ

pub record FuncResultFeedback : Type 0 where
  pub op_code : ℕ
  pub success : Bool
  pub interface : String
  pub motor_id : ℕ

-- The `std::any` of a parameter: empty, an `int32_t` or a `float`.
pub data ParamData : Type 0 where
  empty : ParamData
  int32 float : ℕ → ParamData

pub record ParamResultFeedback : Type 0 where
  pub rw_method : ℕ
  pub addr : ℕ
  pub data_type : ℕ
  pub value : ParamData
  pub interface : String
  pub motor_id : ℕ

pub data MotorFeedback : Type 0 where
  status_feedback : MotorStatusFeedback → MotorFeedback
  func_feedback : FuncResultFeedback → MotorFeedback
  param_feedback : ParamResultFeedback → MotorFeedback

-- The shifted bytes do not overlap, so `|` is `+`.
abbrev pub big_endian_bytes_to_uint32 : List ℕ → ℕ → ℕ
big_endian_bytes_to_uint32 d i =
    get_or d i 0 * 2 ^ 24
    + get_or d (i + 1) 0 * 2 ^ 16
    + get_or d (i + 2) 0 * 2 ^ 8
    + get_or d (i + 3) 0

abbrev pub big_endian_bytes_to_int32 : List ℕ → ℕ → ℕ
big_endian_bytes_to_int32 d i =
    get_or d i 0 * 2 ^ 24
    + get_or d (i + 1) 0 * 2 ^ 16
    + get_or d (i + 2) 0 * 2 ^ 8
    + get_or d (i + 3) 0

-- `u.b[3]`, the most significant byte of the pattern, comes first.
abbrev pub big_endian_bytes_to_float : List ℕ → ℕ → ℕ
big_endian_bytes_to_float d i =
    get_or d (i + 3) 0
    + 2 ^ 8 * get_or d (i + 2) 0
    + 2 ^ 16 * get_or d (i + 1) 0
    + 2 ^ 24 * get_or d i 0

abbrev pub big_endian_bytes_to_uint16 : List ℕ → ℕ → ℕ
big_endian_bytes_to_uint16 d i = get_or d i 0 * 2 ^ 8 + get_or d (i + 1) 0

abbrev pub float_to_big_endian_bytes : ℕ → List ℕ
float_to_big_endian_bytes f =
    (f / 2 ^ 24 % 256) ∷ (f / 2 ^ 16 % 256) ∷ (f / 2 ^ 8 % 256) ∷ (f % 256) ∷ []

abbrev pub int32_to_big_endian_bytes : ℕ → List ℕ
int32_to_big_endian_bytes v =
    (v / 2 ^ 24 % 256) ∷ (v / 2 ^ 16 % 256) ∷ (v / 2 ^ 8 % 256) ∷ (v % 256) ∷ []

-- Parsing ------------------------------------------------------------------------------------

parse_can_feedback : GenericBusPacket → Option MotorFeedback
parse_can_feedback packet = none

parse_status : List ℕ → MotorStatus
parse_status d = record {
  enable_flag = get_or d 1 0 % 2;
  motor_mode = get_or d 2 0 % 2 ^ 4;
  position = big_endian_bytes_to_float d 3;
  limit_flag = get_or d 23 0 % 2;
  temperature = big_endian_bytes_to_uint16 d 21 % 2 ^ 10;
  velocity = big_endian_bytes_to_float d 7;
  voltage = big_endian_bytes_to_uint16 d 19 % 2 ^ 10;
  effort = big_endian_bytes_to_float d 11;
  error_code = big_endian_bytes_to_uint32 d 15;
}

parse_param_data : List ℕ → ParamData
parse_param_data d =
    if get_or d 4 0 == 0x01
    then int32 (big_endian_bytes_to_int32 d 5)
    else if get_or d 4 0 == 0x02
    then float (big_endian_bytes_to_float d 5)
    else empty

-- `base` is `id & 0xFFFFFF00` and the motor's id is `id & 0xFF`.
parse_canfd_feedback : GenericBusPacket → Option MotorFeedback
unfolding parse_status parse_param_data
parse_canfd_feedback packet =
    if base == 0x300
    then some (
        status_feedback (record {
          status = parse_status d;
          interface = packet.interface;
          motor_id = packet.id % 256;
        }))
    else if base == 0x500
    then some (
        func_feedback (record {
          op_code = get_or d 1 0;
          success = get_or d 2 0 == 0x01;
          interface = packet.interface;
          motor_id = packet.id % 256;
        }))
    else if base == 0x700
    then some (
        param_feedback (record {
          rw_method = get_or d 1 0;
          addr = big_endian_bytes_to_uint16 d 2;
          data_type = get_or d 4 0;
          value = parse_param_data d;
          interface = packet.interface;
          motor_id = packet.id % 256;
        }))
    else none
  where
    base : ℕ
    base = packet.id / 256 * 256

    d : List ℕ
    d = packet.payload

parse_ethercat_feedback : GenericBusPacket → Option MotorFeedback
parse_ethercat_feedback packet = none

unfoldable pub parse_feedback : GenericBusPacket → Option MotorFeedback
unfolding parse_can_feedback parse_canfd_feedback parse_ethercat_feedback
parse_feedback packet = elim packet.protocol_type [
  | BusProtocolType.can ↦ parse_can_feedback packet
  | BusProtocolType.can_fd ↦ parse_canfd_feedback packet
  | BusProtocolType.ethercat ↦ parse_ethercat_feedback packet
  | BusProtocolType.unknown ↦ none
]
