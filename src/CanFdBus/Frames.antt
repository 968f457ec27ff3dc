-- ===== src/CanFdBus/Frames.antt =====
-- src/bus/canfd_bus_impl.cpp: a packet that one bus sends and another receives.
use hardware_driver.Base.{
  ℕ, ◌/◌, ◌%◌, ◌^◌, ◌≤◌, ◌<◌, ◌≡◌, refl, ◌∙◌, List, Bool, true, false, ltb, ◌==◌, if◌then◌else◌,
  some, arith, length, take, store, replicate, find, string_eq, take-store_end, length-take,
  length-store, length-replicate,
}
use hardware_driver.Bus.{GenericBusPacket, BusProtocolType, max_bus_data_size}
use hardware_driver.CanFdBus.{
  CanFdBus, Frame, flag_of, can_id_of, send, receive_frame, packet, receive,
}

-- The room in a frame, and the ids that it can carry.
abbrev pub room : Bool → ℕ
room true = 64
room false = 8

abbrev pub id_bits : Bool → ℕ
id_bits true = 29
id_bits false = 11

-- A packet that was received as it was sent.
pub record IsReceived (use_canfd : Bool) (p q : GenericBusPacket) : Type 0 where
  pub same_id : q.id ≡ p.id
  pub same_len : q.len ≡ p.len
  pub same_bytes : take q.len q.payload ≡ take p.len p.payload
  pub protocol :
      q.protocol_type ≡ (if use_canfd then BusProtocolType.can_fd else BusProtocolType.can)
  pub storage : length q.payload ≡ max_bus_data_size

take-take-store :
    (n m : ℕ) (xs : List ℕ)
    → n ≤ m
    → n ≤ length xs
    → take n (store (replicate m 0) 0 (take n xs)) ≡ take n xs
take-take-store n m xs h k =
    take-store_end (replicate m 0) 0 (take n xs) n (omega (arith, length-take n xs))
      (omega (arith, length-replicate {A = ℕ} m 0))

can_id-extended :
    (id : ℕ)
    → id < 2 ^ 29
    → (can_id_of true id / 2 ^ 31 % 2 ≡ 1) × (can_id_of true id % 2 ^ 29 ≡ id)
can_id-extended id h = (omega arith, omega arith)

can_id-standard :
    (id : ℕ)
    → id < 2 ^ 11
    → (can_id_of false id / 2 ^ 31 % 2 ≡ 0) × (can_id_of false id % 2 ^ 11 ≡ id)
can_id-standard id h = (omega arith, omega arith)

-- What the id of a sent frame is read as.
read_id :
    (extended : Bool) (id : ℕ)
    → id < 2 ^ id_bits extended
    → (if can_id_of extended id / 2 ^ 31 % 2 == 1
        then can_id_of extended id % 2 ^ 29
        else can_id_of extended id % 2 ^ 11)
      ≡ id
read_id true id h =
    let (flag, value) = can_id-extended id h in
    let test : (can_id_of true id / 2 ^ 31 % 2 == 1) ≡ true = ground (arith, flag) in
    rw (test, value)
read_id false id h =
    let (flag, value) = can_id-standard id h in
    let test : (can_id_of false id / 2 ^ 31 % 2 == 1) ≡ false = ground (arith, flag) in
    rw (test, value)

-- The frame of a packet.
abbrev pub frame_of : Bool → Bool → GenericBusPacket → Frame
frame_of use_canfd extended p = record {
  can_id = can_id_of extended p.id;
  len = p.len;
  flags = if use_canfd then 4 else 0;
  bytes = store (replicate (room use_canfd) 0) 0 (take p.len p.payload);
}

-- What `send` does.
pub send_lem :
    (s : CanFdBus) (p : GenericBusPacket) (socket : ℕ)
    → find p.interface s.interface_sockets ≡ some socket
    → p.len ≤ room (flag_of p.interface s.canfd_flags)
    → send s p
      ≡ some (
        socket,
        frame_of (flag_of p.interface s.canfd_flags) (flag_of p.interface s.extended_frame_flags) p,
      )
unfolding send
send_lem s p socket here fits = by_flag (flag_of p.interface s.canfd_flags) refl fits
  where
    by_flag :
        (fd : Bool)
        → flag_of p.interface s.canfd_flags ≡ fd
        → p.len ≤ room fd
        → send s p ≡ some (socket, frame_of fd (flag_of p.interface s.extended_frame_flags) p)
    by_flag true e fits =
        let small : ltb 64 p.len ≡ false = ground arith in rw (here, send, e, small)
    by_flag false e fits =
        let small : ltb 8 p.len ≡ false = ground arith in rw (here, send, e, small)

receive_frame-IsReceived :
    (fd extended : Bool) (p r : GenericBusPacket)
    → p.len ≤ room fd
    → p.id < 2 ^ id_bits extended
    → p.len ≤ length p.payload
    → length r.payload ≡ max_bus_data_size
    → IsReceived fd p (receive_frame fd (frame_of fd extended p) r)
unfolding receive_frame
receive_frame-IsReceived fd extended p r fits id_fits within storage =
    let copied = take-take-store p.len (room fd) p.payload fits within in
    let count : length (take p.len p.payload) ≡ p.len =
      omega (arith, length-take p.len p.payload) in
    let small : p.len ≤ 64 = room_le fd fits in
    record {
      same_id = read_id extended p.id id_fits;
      same_len = refl;
      same_bytes = rw copied (
          take-store_end r.payload 0 (take p.len p.payload) p.len (omega (arith, count))
            (omega (arith, storage, small)));
      protocol = refl;
      storage = length-store r.payload 0 _ ∙ storage;
    }
  where
    room_le : (fd : Bool) → p.len ≤ room fd → p.len ≤ 64
    room_le true h = h
    room_le false h = omega (arith, h)

-- A packet that fits the frame format of its interface, in length and in its id, is sent in one
-- frame, from which a bus with the same format reads a packet of the same id, length and bytes, into
-- storage of 64 bytes.
pub receive-send :
    (s t : CanFdBus) (p r : GenericBusPacket) (from to : ℕ)
    → find p.interface s.interface_sockets ≡ some from
    → find r.interface t.interface_sockets ≡ some to
    → flag_of r.interface t.canfd_flags ≡ flag_of p.interface s.canfd_flags
    → p.len ≤ room (flag_of p.interface s.canfd_flags)
    → p.id < 2 ^ id_bits (flag_of p.interface s.extended_frame_flags)
    → p.len ≤ length p.payload
    → length r.payload ≡ max_bus_data_size
    → (f : Frame) × (q : GenericBusPacket) × (send s p ≡ some (from, f))
      × (receive t (some f) r ≡ packet q)
      × IsReceived (flag_of p.interface s.canfd_flags) p q
unfolding receive
receive-send s t p r from to here there same fits id_fits within storage =
    let fd = flag_of p.interface s.canfd_flags in
    let extended = flag_of p.interface s.extended_frame_flags in
    let f = frame_of fd extended p in
    (
      f,
      receive_frame fd f r,
      send_lem s p from here fits,
      rw (there, receive, same),
      receive_frame-IsReceived fd extended p r fits id_fits within storage,
    )
