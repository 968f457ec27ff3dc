-- ===== src/IapProtocol.antt =====
-- src/protocol/iap_protocol.cpp: the messages of a firmware update over the bus.
pub mod Names
use hardware_driver.Base.{
  ℕ, zero, suc, ◌+◌, ◌-◌, ◌*◌, ◌/◌, ◌%◌, ◌^◌, min, String, List, [], ◌∷◌, Bool, true, false, leb,
  ◌==◌, if◌then◌else◌, Option, none, some, length, take, drop, store, get_or,
}
use hardware_driver.Bus.{
  GenericBusPacket, Pack, Outcome, done, overrun, max_bus_data_size, new_packet, fill,
}

-- The enumeration is a `uint32_t`; a code that no enumerator has is `other`.
pub data IapStatus : Type 0 where
  bs00 bk01 bk02 bk03 bd04 bd05 bj06 bj07 as00 aj01 : IapStatus
  other : ℕ → IapStatus

-- The enumerators' values.
unfoldable pub code_of : IapStatus → ℕ
code_of IapStatus.bs00 = 0x42533030
code_of IapStatus.bk01 = 0x424B3031
code_of IapStatus.bk02 = 0x424B3032
code_of IapStatus.bk03 = 0x424B3033
code_of IapStatus.bd04 = 0x42443034
code_of IapStatus.bd05 = 0x42443035
code_of IapStatus.bj06 = 0x424A3036
code_of IapStatus.bj07 = 0x424A3037
code_of IapStatus.as00 = 0x41533030
code_of IapStatus.aj01 = 0x414A3031
code_of (IapStatus.other c) = c

-- `static_cast<IAPStatus>(code)`
unfoldable pub status_of_code : ℕ → IapStatus
status_of_code c =
    if c == 0x42533030
    then IapStatus.bs00
    else if c == 0x424B3031
    then IapStatus.bk01
    else if c == 0x424B3032
    then IapStatus.bk02
    else if c == 0x424B3033
    then IapStatus.bk03
    else if c == 0x42443034
    then IapStatus.bd04
    else if c == 0x42443035
    then IapStatus.bd05
    else if c == 0x424A3036
    then IapStatus.bj06
    else if c == 0x424A3037
    then IapStatus.bj07
    else if c == 0x41533030
    then IapStatus.as00
    else if c == 0x414A3031
    then IapStatus.aj01
    else IapStatus.other c

pub record IapFeedback : Type 0 where
  pub status_msg : IapStatus
  pub motor_id : ℕ

-- The file's contents, or `none` where it cannot be opened; an empty file is refused too.
unfoldable pub load_firmware_from_file : Option (List ℕ) → Option (List ℕ)
load_firmware_from_file none = none
load_firmware_from_file (some file) = if leb (length file) 0 then none else some file

unfoldable pub pack_enter_iap_request : List ℕ → Pack
pack_enter_iap_request d = record { bytes = store d 0 (0x01 ∷ 0x12 ∷ []); size = 2; packed = true }

unfoldable pub pack_send_key : List ℕ → Pack
pack_send_key d = record { bytes = store d 0 (b'k' ∷ b'e' ∷ b'y' ∷ []); size = 3; packed = true }

-- `len` is what the caller's `packet.len` holds. A copy of more than 64 bytes overruns the packet.
unfoldable pub pack_firmware_frame : List ℕ → ℕ → List ℕ → ℕ → ℕ → Outcome Pack
pack_firmware_frame d len firmware offset chunk_size =
    if leb (length firmware) offset
    then done (record { bytes = d; size = len; packed = false })
    else if leb send_size max_bus_data_size
    then done (record {
      bytes = store d 0 (take send_size (drop offset firmware));
      size = send_size;
      packed = true;
    })
    else overrun
  where
    send_size : ℕ
    send_size = min chunk_size (length firmware - offset)

-- `(packet.id & 0xFF00) != 0xFF00`; the data array always has its 64 bytes.
unfoldable pub parse_iap_feedback : GenericBusPacket → Option IapFeedback
unfolding status_of_code
parse_iap_feedback p =
    if p.id / 2 ^ 8 % 2 ^ 8 == 0xFF
    then some (record {
      status_msg = status_of_code (
          get_or p.payload 0 0 * 2 ^ 24
          + get_or p.payload 1 0 * 2 ^ 16
          + get_or p.payload 2 0 * 2 ^ 8
          + get_or p.payload 3 0);
      motor_id = p.id % 2 ^ 8;
    })
    else none

unfoldable pub iap_status_to_string : IapStatus → String
iap_status_to_string IapStatus.bs00 = "BS00"
iap_status_to_string IapStatus.bk01 = "BK01"
iap_status_to_string IapStatus.bk02 = "BK02"
iap_status_to_string IapStatus.bk03 = "BK03"
iap_status_to_string IapStatus.bd04 = "BD04"
iap_status_to_string IapStatus.bd05 = "BD05"
iap_status_to_string IapStatus.bj06 = "BJ06"
iap_status_to_string IapStatus.bj07 = "BJ07"
iap_status_to_string IapStatus.as00 = "AS00"
iap_status_to_string IapStatus.aj01 = "AJ01"
iap_status_to_string (IapStatus.other c) = "UNKNOWN"
