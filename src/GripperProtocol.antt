-- ===== src/GripperProtocol.antt =====
-- src/protocol/gripper_omnipicker_protocol.hpp and .cpp: the frames of the two grippers and of the
-- RS485 converter, and the packets that the builder makes of them. Log output is left out.
pub mod RawFrame
pub mod Builder
use hardware_driver.Base.{
  ℕ, ◌+◌, ◌-◌, ◌*◌, ◌/◌, ◌%◌, ◌^◌, min, String, List, [], ◌∷◌, Bool, true, false, not, ◌||◌, ltb,
  ◌==◌, if◌then◌else◌, Option, none, some, get_or, take, drop, length, replicate, store, leb, zero,
  suc,
}
use hardware_driver.Bus.{
  GenericBusPacket, BusProtocolType, max_bus_data_size, Outcome, done, overrun,
}

abbrev pub canfd_2_rs485_id : ℕ
canfd_2_rs485_id = 0x3F

abbrev pub send_gripper_id : ℕ
send_gripper_id = 0x5F

abbrev pub recv_gripper_id : ℕ
recv_gripper_id = 0x6F

-- The enumeration is a `uint8_t`, and callers cast any byte to it.
pub data GripperType : Type 0 where
  omni_picker pgc_gripper raw_frame : GripperType
  unknown : ℕ → GripperType

-- Canfd485RawFrame -----------------------------------------------------------------------------

pub record Canfd485RawFrame : Type 0 where
  pub data_buffer : List ℕ
  pub data_len : ℕ

abbrev pub max_canfd_len : ℕ
max_canfd_len = 64

abbrev pub max_extra_frame_len : ℕ
max_extra_frame_len = 6

abbrev pub zeroed : Canfd485RawFrame
zeroed = record { data_buffer = replicate (max_canfd_len + max_extra_frame_len) 0; data_len = 0 }

-- `uint8_t checksum; checksum += b` over a stretch of bytes.
pub checksum : ℕ → List ℕ → ℕ
checksum acc [] = acc
checksum acc (b ∷ bs) = checksum ((acc + b) % 256) bs

-- `length` bytes stand at the pointer `d`. The constructor with `is_tx == false`.
pub parse_rx_frame : List ℕ → ℕ → Canfd485RawFrame
parse_rx_frame d len =
    if ltb len max_extra_frame_len || ltb max_canfd_len len
    then zeroed
    else if not (get_or d 0 0 == 0x55) || not (get_or d 1 0 == 0xaa)
    then zeroed
    else if ltb len (n + max_extra_frame_len)
    then zeroed
    else if not (checksum 0 (take (3 + n) d) == get_or d (3 + n) 0)
    then zeroed
    else if not (get_or d (4 + n) 0 == 0xeb) || not (get_or d (5 + n) 0 == 0xaa)
    then zeroed
    else record { data_buffer = store zeroed.data_buffer 0 (take n (drop 3 d)); data_len = n }
  where
    n : ℕ
    n = get_or d 2 0

-- The constructor with `is_tx == true`.
pub pack_tx_frame : List ℕ → ℕ → Canfd485RawFrame
pack_tx_frame d len = if ltb max_canfd_len len then zeroed else record {
  data_buffer =
      store (store filled (3 + len) (checksum 0 (take (3 + len) filled) ∷ [])) (4 + len)
        (0xeb ∷ 0xaa ∷ []);
  data_len = len + max_extra_frame_len;
}
  where
    filled : List ℕ
    filled = store (store zeroed.data_buffer 0 (0x55 ∷ 0xaa ∷ (len % 256) ∷ [])) 3 (take len d)

-- OmniPickerFrame ------------------------------------------------------------------------------

-- `static_cast<uint8_t>(percent * 255 / 100)`
unfoldable pub percent_to_byte : ℕ → ℕ
percent_to_byte p = p * 255 / 100 % 256

-- The bytes of a control frame; acceleration and deceleration keep their default, 0xFF.
unfoldable pub omni_picker_control : ℕ → ℕ → ℕ → List ℕ
unfolding percent_to_byte
omni_picker_control position speed force =
    0x01
    ∷ 0x01
    ∷ percent_to_byte position
    ∷ percent_to_byte speed
    ∷ percent_to_byte force
    ∷ 0xFF
    ∷ 0xFF
    ∷ 0x00
    ∷ []

-- The buffer of a received frame, for the length as the `uint8_t` that the constructor takes.
unfoldable pub omni_picker_feedback : List ℕ → ℕ → List ℕ
omni_picker_feedback d data_len =
    if ltb data_len 6 then replicate 8 0 else store (replicate 8 0) 0 (take (min data_len 8) d)

-- PGCGripperFrame ------------------------------------------------------------------------------

unfoldable pub pgc_control : ℕ → ℕ → ℕ → List ℕ
pgc_control velocity effort position =
    0x02
    ∷ 0x01
    ∷ (velocity / 2 ^ 8 % 256)
    ∷ (velocity % 256)
    ∷ (effort / 2 ^ 8 % 256)
    ∷ (effort % 256)
    ∷ (position * 10 / 2 ^ 8 % 256)
    ∷ (position * 10 % 256)
    ∷ []

unfoldable pub pgc_feedback : List ℕ → ℕ → List ℕ
pgc_feedback d data_len =
    if ltb data_len 2 then replicate 8 0 else store (replicate 8 0) 0 (take (min data_len 8) d)

-- GripperProtocolBuilder -----------------------------------------------------------------------

pub build_wakeup_frame : String → ℕ → GenericBusPacket
build_wakeup_frame interface mode = record {
  interface = interface;
  id = canfd_2_rs485_id;
  payload = mode ∷ replicate 63 0;
  len = 8;
  protocol_type = BusProtocolType.can_fd;
}

-- A packet for `id` with the first `len` of `bytes` copied to the start of its storage `raw`.
copy_packet : List ℕ → String → ℕ → List ℕ → ℕ → Outcome GenericBusPacket
copy_packet raw interface id bytes len =
    if leb len max_bus_data_size
    then done (record {
      interface = interface;
      id = id;
      payload = store raw 0 (take len bytes);
      len = len;
      protocol_type = BusProtocolType.can_fd;
    })
    else overrun

-- The packets in the order in which they are pushed.
after_wakeup : GenericBusPacket → Outcome GenericBusPacket → Outcome (List GenericBusPacket)
after_wakeup w (done p) = done (w ∷ p ∷ [])
after_wakeup w overrun = overrun

-- `raw_data` with its length; a null pointer is `none`.
build_raw : List ℕ → String → Option (List ℕ) → ℕ → Outcome (List GenericBusPacket)
unfolding build_wakeup_frame copy_packet after_wakeup
build_raw raw interface none n = done (build_wakeup_frame interface 0x02 ∷ [])
build_raw raw interface (some d) n =
    if ltb 0 n
    then after_wakeup (build_wakeup_frame interface 0x02) (
        copy_packet raw interface canfd_2_rs485_id (pack_tx_frame d n).data_buffer
          (pack_tx_frame d n).data_len)
    else done (build_wakeup_frame interface 0x02 ∷ [])

unfoldable pub build_gripper_control :
    List ℕ
    → String
    → GripperType
    → ℕ
    → ℕ
    → ℕ
    → Option (List ℕ)
    → ℕ
    → Outcome (List GenericBusPacket)
unfolding build_wakeup_frame copy_packet after_wakeup build_raw
build_gripper_control raw interface GripperType.omni_picker position velocity effort data_ptr n =
    after_wakeup (build_wakeup_frame interface 0x01)
      (copy_packet raw interface send_gripper_id (omni_picker_control position velocity effort) 8)
build_gripper_control raw interface GripperType.pgc_gripper position velocity effort data_ptr n =
    after_wakeup (build_wakeup_frame interface 0x01)
      (copy_packet raw interface send_gripper_id (pgc_control velocity effort position) 8)
build_gripper_control raw interface GripperType.raw_frame position velocity effort data_ptr n =
    build_raw raw interface data_ptr n
build_gripper_control raw interface (GripperType.unknown t) position velocity effort data_ptr n =
    done []
