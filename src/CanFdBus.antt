-- ===== src/CanFdBus.antt =====
-- src/bus/canfd_bus_impl.cpp: the CAN FD bus. The kernel's sockets are known by the names of the
-- interfaces that were bound; what the kernel takes and gives are frames.
pub mod Frames
pub mod Threads
use hardware_driver.Base.{
  ℕ, zero, suc, ◌+◌, ◌/◌, ◌%◌, ◌^◌, String, List, [], ◌∷◌, Bool, true, false, ltb, leb, ◌==◌,
  if◌then◌else◌, Option, none, some, take, store, replicate, find, assign, string_eq,
}
use hardware_driver.Bus.{GenericBusPacket, BusProtocolType, new_packet}

pub record CanFdBus : Type 0 where
  pub interface_names : List String
  pub interface_sockets : List (String × ℕ)
  pub canfd_flags : List (String × Bool)
  pub extended_frame_flags : List (String × Bool)

-- The constructor with `init`: a socket for each interface that the kernel binds.
pub bind_all : (String → Option ℕ) → List String → List (String × ℕ)
bind_all bind [] = []
bind_all bind (i ∷ is) = elim (bind i) [
  | none ↦ bind_all bind is
  | some socket ↦ (i, socket) ∷ bind_all bind is
]

unfoldable pub new_canfd_bus : (String → Option ℕ) → List String → CanFdBus
unfolding bind_all
new_canfd_bus bind interfaces = record {
  interface_names = interfaces;
  interface_sockets = bind_all bind interfaces;
  canfd_flags = [];
  extended_frame_flags = [];
}

-- `struct canfd_frame` and `struct can_frame`, with their 64 or 8 bytes.
pub record Frame : Type 0 where
  pub can_id : ℕ
  pub len : ℕ
  pub flags : ℕ
  pub bytes : List ℕ

-- `flags.count(interface) ? flags.at(interface) : true`
abbrev pub flag_of : String → List (String × Bool) → Bool
flag_of interface flags = elim (find interface flags) [ none ↦ true | some b ↦ b ]

-- `use_extended ? (id | CAN_EFF_FLAG) : (id & CAN_SFF_MASK)`, for an id of 32 bits.
abbrev pub can_id_of : Bool → ℕ → ℕ
can_id_of true id = id % 2 ^ 31 + 2 ^ 31
can_id_of false id = id % 2 ^ 11

-- What `send` hands to the kernel: the socket and the frame; or it throws.
pub send : CanFdBus → GenericBusPacket → Option (ℕ × Frame)
send s p = elim (find p.interface s.interface_sockets) [
  | none ↦ none
  | some socket ↦
      let extended = flag_of p.interface s.extended_frame_flags in
      if flag_of p.interface s.canfd_flags
      then (if ltb 64 p.len
          then none
          else some (
            socket,
            record {
              can_id = can_id_of extended p.id;
              len = p.len;
              flags = 4;
              bytes = store (replicate 64 0) 0 (take p.len p.payload);
            },
          ))
      else if ltb 8 p.len
      then none
      else some (
        socket,
        record {
          can_id = can_id_of extended p.id;
          len = p.len;
          flags = 0;
          bytes = store (replicate 8 0) 0 (take p.len p.payload);
        },
      )
]

-- What `recv` returned: nothing to read, or a frame. Any other failure is logged and read as a
-- frame of zeros, which the kernel's answer then is.
unfoldable pub receive_frame : Bool → Frame → GenericBusPacket → GenericBusPacket
receive_frame use_canfd f p = record p {
  id = if f.can_id / 2 ^ 31 % 2 == 1 then f.can_id % 2 ^ 29 else f.can_id % 2 ^ 11;
  len = f.len;
  protocol_type = if use_canfd then BusProtocolType.can_fd else BusProtocolType.can;
  payload = store p.payload 0 (take f.len f.bytes);
}

-- What `receive` does with what the kernel has: it throws, has nothing, or fills the packet.
pub data Received : Type 0 where
  thrown nothing : Received
  packet : GenericBusPacket → Received

pub receive : CanFdBus → Option Frame → GenericBusPacket → Received
unfolding receive_frame
receive s read p = elim (find p.interface s.interface_sockets) [
  | none ↦ thrown
  | some socket ↦ elim read [
    | none ↦ nothing
    | some f ↦ packet (receive_frame (flag_of p.interface s.canfd_flags) f p)
  ]
]

-- `receive_loop`, by what each `recv` has for it, with `raw` in each new packet's storage: the packets
-- that the callback is given, or `none` where an exception leaves the thread, which ends the process.
pub receive_loop : CanFdBus → List ℕ → String → List (Option Frame) → Option (List GenericBusPacket)
unfolding receive
receive_loop s raw interface [] = some []
receive_loop s raw interface (read ∷ reads) = elim (receive s read (new_packet raw interface 0)) [
  | thrown ↦ none
  | nothing ↦ receive_loop s raw interface reads
  | packet p ↦ elim (receive_loop s raw interface reads) [ none ↦ none | some ps ↦ some (p ∷ ps) ]
]

-- The interfaces for which `async_receive` starts a thread.
abbrev pub async_receive : CanFdBus → List String
async_receive s = s.interface_names

-- Setting a flag; an interface without a socket throws.
unfoldable pub set_extended_frame : String → Bool → CanFdBus → Option CanFdBus
set_extended_frame interface use_extended s = elim (find interface s.interface_sockets) [
  | none ↦ none
  | some socket ↦
      some
        (record s { extended_frame_flags = assign interface use_extended s.extended_frame_flags })
]

unfoldable pub set_fd_mode : String → Bool → CanFdBus → Option CanFdBus
set_fd_mode interface use_fd s = elim (find interface s.interface_sockets) [
  | none ↦ none
  | some socket ↦ some (record s { canfd_flags = assign interface use_fd s.canfd_flags })
]
