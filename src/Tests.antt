-- ===== src/Tests.antt =====
-- Concrete inputs at which the theorems apply. The values are shared by the modules below.
mod Motor
mod Gripper
mod Driver
mod Update
mod Robot
mod Events
mod Executions
mod Monitoring
mod Usb
mod Reception
use hardware_driver.Base.{
  ℕ, zero, suc, ◌*◌, ◌%◌, ◌^◌, ◌≤◌, ◌<◌, ◌≡◌, List, [], ◌∷◌, String, arith, get_or, replicate, All,
}
use hardware_driver.Bus.{GenericBusPacket, BusProtocolType}
use hardware_driver.Float32.{FloatOps}
use hardware_driver.MotorProtocol.{MotorStatus}
use hardware_driver.MotorProtocol.RoundTrip.{IsInRange}

-- An arithmetic in which a float is the number that its pattern is.
abbrev pub float_ops : FloatOps
float_ops = record {
  scale = λ k x. k * x;
  to_uint8 = λ x. x % 256;
  to_int16 = λ x. x % 65536;
  of_uint8 = λ x. x;
  of_double = λ x. x;
  to_uint8_lt = λ x. omega arith;
  to_int16_lt = λ x. omega arith;
}

-- The storage of a packet.
abbrev pub storage : List ℕ
storage = replicate 64 0

abbrev pub can0 : String
can0 = "can0"

abbrev pub a_status : MotorStatus
a_status = record {
  enable_flag = 1;
  motor_mode = 4;
  position = 0x40490FDB;
  limit_flag = 0;
  temperature = 35;
  velocity = 7;
  voltage = 480;
  effort = 9;
  error_code = 0;
}

pub a_status-IsInRange : IsInRange a_status
a_status-IsInRange = record {
  enable_flag = omega arith;
  motor_mode = omega arith;
  position = omega arith;
  limit_flag = omega arith;
  temperature = omega arith;
  velocity = omega arith;
  voltage = omega arith;
  effort = omega arith;
  error_code = omega arith;
}

abbrev pub packet_of : ℕ → List ℕ → ℕ → GenericBusPacket
packet_of id bytes len = record {
  interface = can0;
  id = id;
  payload = bytes;
  len = len;
  protocol_type = BusProtocolType.can_fd;
}

pub byte_at : (d : List ℕ) → All (λ b. b < 256) d → (i : ℕ) → get_or d i 0 < 256
byte_at [] h i = omega arith
byte_at (b ∷ d) h zero = h.0
byte_at (b ∷ d) h (suc i) = byte_at d h.1 i
