-- ===== src/Usb2CanfdBus.antt =====
-- src/bus/usb2canfd_bus_impl.cpp: CAN FD over USB converters. The converter is the class `usb_class`,
-- of which src/protocol/usb_class.h has the declarations only: whether it opens a device with a serial
-- number is a parameter, and what it takes and gives are its frames.
pub mod Truncation
use Prim.Native.String.{◌++◌}
use hardware_driver.Base.{
  ℕ, zero, suc, ◌+◌, ◌%◌, ◌^◌, String, List, [], ◌∷◌, Bool, true, false, ltb, if◌then◌else◌, Option,
  none, some, take, store, replicate, find, assign, string_eq, to_string,
}
use hardware_driver.Bus.{GenericBusPacket, BusProtocolType, new_packet, Outcome, done, overrun}

-- A device is known by its serial number.
pub record Usb2CanfdBus : Type 0 where
  pub usb_devices : List (String × String)
  pub interface_to_sn : List (String × String)
  pub interface_names : List String
  pub receive_callback : Bool

-- The loop of the constructors, from the i-th device on.
pub name_devices : ℕ → List String → Usb2CanfdBus → Usb2CanfdBus
name_devices i [] s = s
name_devices i (sn ∷ sns) s =
    let interface_name = "usb_canfd_" ++ to_string i in
    let rest = name_devices (i + 1) sns s in
    record rest {
      interface_names = interface_name ∷ rest.interface_names;
      interface_to_sn = assign interface_name sn rest.interface_to_sn;
    }

-- `init`: the devices that open; the others are reported and left out.
pub open_devices : (String → Bool) → List (String × String) → List String → List (String × String)
open_devices opens sns [] = []
open_devices opens sns (i ∷ is) =
    let rest = open_devices opens sns is in
    elim (find i sns) [ none ↦ rest | some sn ↦ if opens sn then assign i sn rest else rest ]

pub init : (String → Bool) → Usb2CanfdBus → Usb2CanfdBus
unfolding open_devices
init opens s = record s { usb_devices = open_devices opens s.interface_to_sn s.interface_names }

pub new_usb2canfd_bus : (String → Bool) → List String → Usb2CanfdBus
unfolding name_devices init
new_usb2canfd_bus opens devices = init opens (
    name_devices 0 devices (record {
      usb_devices = [];
      interface_to_sn = [];
      interface_names = [];
      receive_callback = false;
    }))

-- `can_tx_type`: the bit fields that are set, and 64 bytes, zero at first.
pub record CanTx : Type 0 where
  pub can_id : ℕ
  pub can_type : ℕ
  pub fram_type : ℕ
  pub fd_acc : ℕ
  pub id_type : ℕ
  pub id_increase : ℕ
  pub cmd : ℕ
  pub send_time : ℕ
  pub interval : ℕ
  pub dlc : ℕ
  pub bytes : List ℕ

-- An empty interface stands for the first one.
abbrev pub interface_or_first : Usb2CanfdBus → String → String
interface_or_first s interface =
    if string_eq.is_equal interface ""
    then elim s.interface_names [ [] ↦ interface | i ∷ is ↦ i ]
    else interface

-- The device and the frame that `send` hands to it, or `none` where it returns false. The length of
-- the packet is not looked at before its bytes are copied.
pub send : Usb2CanfdBus → GenericBusPacket → Option (String × Outcome CanTx)
send s p = elim (find (interface_or_first s p.interface) s.usb_devices) [
  | none ↦ none
  | some device ↦ some (
    device,
    if ltb 64 p.len
        then overrun
        else done (record {
          can_id = p.id;
          can_type = 1;
          fram_type = 1;
          fd_acc = 1;
          id_type = 1;
          id_increase = 0;
          cmd = 0;
          send_time = 1;
          interval = 0;
          dlc = p.len % 2 ^ 8;
          bytes = store (replicate 64 0) 0 (take p.len p.payload);
        }),
  )
]

pub receive : Usb2CanfdBus → GenericBusPacket → GenericBusPacket × Bool
receive s packet = (packet, false)

-- `canfd_frame`
pub record Frame : Type 0 where
  pub can_id : ℕ
  pub len : ℕ
  pub bytes : List ℕ

-- What the converter's callback makes of the head's id and the 64 bytes that came in.
pub frame_of : ℕ → List ℕ → Frame
frame_of id received = record {
  can_id = id;
  len = 8;
  bytes = store (replicate 64 0) 0 (take 8 received);
}

-- The packet that the bus's callback is given, with `raw` in its storage before.
pub on_frame_received : Usb2CanfdBus → List ℕ → String → Frame → Option GenericBusPacket
on_frame_received s raw interface frame =
    if s.receive_callback
    then some (record (new_packet raw interface frame.can_id) {
      len = frame.len;
      protocol_type = BusProtocolType.can_fd;
      payload = store raw 0 (take frame.len frame.bytes);
    })
    else none

-- `async_receive`: from then on the callback is given what the devices receive.
pub async_receive : Usb2CanfdBus → Usb2CanfdBus
async_receive s = record s { receive_callback = true }

-- A frame that a device receives, once `async_receive` has set the device's callback.
pub device_receives : Usb2CanfdBus → List ℕ → String → ℕ → List ℕ → Option GenericBusPacket
unfolding frame_of on_frame_received
device_receives s raw interface id received =
    on_frame_received s raw interface (frame_of id received)

pub is_device_ready : Usb2CanfdBus → String → Bool
is_device_ready s interface = elim (find interface s.usb_devices) [ none ↦ false | some d ↦ true ]

pub get_device_serial_number : Usb2CanfdBus → String → String
get_device_serial_number s interface = elim (find interface s.interface_to_sn) [
  | none ↦ ""
  | some sn ↦ sn
]
