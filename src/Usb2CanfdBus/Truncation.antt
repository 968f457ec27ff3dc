-- ===== src/Usb2CanfdBus/Truncation.antt =====
-- src/bus/usb2canfd_bus_impl.cpp: what becomes of a motor's status on its way over this bus.
use hardware_driver.Base.{
  ℕ, ◌+◌, ◌*◌, ◌/◌, ◌%◌, ◌^◌, ◌<◌, ◌≡◌, String, List, ◌∷◌, ◌++◌, true, some, arith, length, get_or,
  store, take, replicate,
}
use hardware_driver.Bus.{GenericBusPacket, BusProtocolType, new_packet, max_bus_data_size}
use hardware_driver.MotorProtocol.{
  MotorStatus, status_feedback, parse_feedback, big_endian_bytes_to_float,
  big_endian_bytes_to_uint32, big_endian_bytes_to_uint16,
}
use hardware_driver.MotorProtocol.RoundTrip.{status_frame, IsInRange}
use hardware_driver.Usb2CanfdBus.{Usb2CanfdBus, device_receives}

-- The status of which all but the first eight bytes are those that the storage held before.
abbrev pub cut_off : MotorStatus → List ℕ → MotorStatus
cut_off st raw = record {
  enable_flag = st.enable_flag;
  motor_mode = st.motor_mode;
  position = st.position;
  velocity =
      st.velocity / 2 ^ 24 * 2 ^ 24
      + get_or raw 8 0 * 2 ^ 16
      + get_or raw 9 0 * 2 ^ 8
      + get_or raw 10 0;
  effort = big_endian_bytes_to_float raw 11;
  error_code = big_endian_bytes_to_uint32 raw 15;
  voltage = big_endian_bytes_to_uint16 raw 19 % 2 ^ 10;
  temperature = big_endian_bytes_to_uint16 raw 21 % 2 ^ 10;
  limit_flag = get_or raw 23 0 % 2;
}

-- The packet that is delivered: the first eight bytes of what came in, over the old contents.
abbrev delivered : List ℕ → String → ℕ → List ℕ → GenericBusPacket
delivered raw interface id received = record (new_packet raw interface id) {
  len = 8;
  protocol_type = BusProtocolType.can_fd;
  payload = store raw 0 (take 8 (store (replicate 64 0) 0 (take 8 received)));
}

parse_feedback-delivered :
    (raw : List ℕ) (interface : String) (m : ℕ) (st : MotorStatus) (rest : List ℕ)
    → length raw ≡ max_bus_data_size
    → m < 256
    → IsInRange st
    → parse_feedback (delivered raw interface (0x300 + m) (status_frame st ++ rest))
      ≡ some (
          status_feedback (record { status = cut_off st raw; interface = interface; motor_id = m }))
unfolding parse_feedback status_frame
parse_feedback-delivered
      (r0 ∷ r1 ∷ r2 ∷ r3 ∷ r4 ∷ r5 ∷ r6 ∷ r7 ∷ r8 ∷ r9 ∷ r10 ∷ r11 ∷ r12 ∷ r13 ∷ r14 ∷ r15 ∷ r16
        ∷ r17 ∷ r18 ∷ r19 ∷ r20 ∷ r21 ∷ r22 ∷ r23 ∷ raw)
      interface m st rest h hm i =
    ground arith
parse_feedback-delivered _ interface m st rest h hm i = absurd (omega arith)

-- A status that a motor sends over this bus arrives with its flag, its mode, its position and the
-- first byte of its velocity; all else that the driver reads is what the new packet's storage
-- happened to hold.
pub device_receives-status_frame :
    (s : Usb2CanfdBus) (raw : List ℕ) (interface : String) (m : ℕ) (st : MotorStatus)
    (rest : List ℕ)
    → s.receive_callback ≡ true
    → length raw ≡ max_bus_data_size
    → m < 256
    → IsInRange st
    → (p : GenericBusPacket) × (device_receives s raw interface
          (0x300 + m)
          (status_frame st ++ rest)
        ≡ some p)
      × (parse_feedback p
          ≡ some (
              status_feedback
                (record { status = cut_off st raw; interface = interface; motor_id = m })))
unfolding device_receives
device_receives-status_frame s raw interface m st rest set h hm i = (
  delivered raw interface (0x300 + m) (status_frame st ++ rest),
  ground arith,
  parse_feedback-delivered raw interface m st rest h hm i,
)
