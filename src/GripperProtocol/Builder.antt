-- ===== src/GripperProtocol/Builder.antt =====
-- GripperProtocolBuilder of src/protocol/gripper_omnipicker_protocol.cpp: which packets it makes.
use hardware_driver.Base.{
  ℕ, ◌≤◌, ◌<◌, ◌≡◌, refl, ◌∙◌, ap, String, List, [], ◌∷◌, Option, some, arith, length, take, drop,
  store, replicate, take-drop-store, take-store_end, length-append, length-take, length-store,
}
use hardware_driver.Bus.{
  done, overrun, GenericBusPacket, BusProtocolType, max_bus_data_size, IsPacket,
}
use hardware_driver.GripperProtocol.{
  GripperType, canfd_2_rs485_id, send_gripper_id, percent_to_byte, omni_picker_control, pgc_control,
  build_wakeup_frame, build_gripper_control, pack_tx_frame, checksum,
}
use hardware_driver.GripperProtocol.RawFrame.{frame, pack_tx_frame-frame, pack_tx_frame-too_long}

-- A percentage is stretched over the byte without wrapping: 0 to 0, 100 to 255, in order.
pub percent_to_byte_mono :
    (p q : ℕ)
    → p ≤ q
    → q ≤ 100
    → (percent_to_byte p ≤ percent_to_byte q)
      × (percent_to_byte q ≤ 255)
      × (percent_to_byte 0 ≡ 0)
      × (percent_to_byte 100 ≡ 255)
unfolding percent_to_byte
percent_to_byte_mono p q h h100 = (omega arith, omega arith, refl, refl)

-- The bytes that a packet puts on the bus.
abbrev pub contents : GenericBusPacket → List ℕ
contents p = take p.len p.payload

-- The two packets of a control command: the wake-up of the converter, then the eight bytes for the
-- gripper, as CAN FD packets.
pub record IsControl (interface : String) (bytes : List ℕ) (w p : GenericBusPacket) : Type 0 where
  pub wakes : contents w ≡ 0x01 ∷ replicate 7 0
  pub wake_id : w.id ≡ canfd_2_rs485_id
  pub carries : contents p ≡ bytes
  pub gripper_id : p.id ≡ send_gripper_id
  pub interfaces : (w.interface ≡ interface) × (p.interface ≡ interface)
  pub wake_valid : IsPacket w
  pub valid : IsPacket p

two_packets-IsControl :
    (raw : List ℕ) (interface : String) (bytes : List ℕ)
    → length raw ≡ max_bus_data_size
    → take 8 (drop 0 (store raw 0 bytes)) ≡ bytes
    → IsControl interface bytes (build_wakeup_frame interface 0x01) (record {
      interface = interface;
      id = send_gripper_id;
      payload = store raw 0 bytes;
      len = 8;
      protocol_type = BusProtocolType.can_fd;
    })
unfolding build_wakeup_frame
two_packets-IsControl raw interface bytes h e = record {
  wakes = refl;
  wake_id = refl;
  carries = e;
  gripper_id = refl;
  interfaces = (refl, refl);
  wake_valid = record { storage = refl; within = omega arith };
  valid = record { storage = length-store raw 0 bytes ∙ h; within = omega arith };
}

-- OmniPicker and PGC commands always give the wake-up packet and then the packet of the command's
-- bytes, both well formed, whatever the new packet's storage held; an unknown type gives none.
pub build_gripper_control-IsControl :
    (raw : List ℕ) (interface : String) (position velocity effort t : ℕ) (d : Option (List ℕ))
    (n : ℕ)
    → length raw ≡ max_bus_data_size
    → ((w : GenericBusPacket) × (p : GenericBusPacket) × (build_gripper_control raw interface
            GripperType.omni_picker position velocity effort d n
          ≡ done (w ∷ p ∷ []))
        × IsControl interface (omni_picker_control position velocity effort) w p)
      × ((w : GenericBusPacket) × (p : GenericBusPacket) × (build_gripper_control raw interface
              GripperType.pgc_gripper position velocity effort d n
            ≡ done (w ∷ p ∷ []))
          × IsControl interface (pgc_control velocity effort position) w p)
      × (build_gripper_control raw interface (GripperType.unknown t) position velocity effort d n
          ≡ done [])
unfolding build_gripper_control omni_picker_control pgc_control
build_gripper_control-IsControl raw interface position velocity effort t d n h = (
  (
    _,
    _,
    refl,
    two_packets-IsControl raw interface _ h
        (take-drop-store raw 0 (omni_picker_control position velocity effort) (omega arith)),
  ),
  (
    _,
    _,
    refl,
    two_packets-IsControl raw interface _ h
        (take-drop-store raw 0 (pgc_control velocity effort position) (omega arith)),
  ),
  refl,
)

-- A raw frame: nothing but the mode packet for no data; up to 58 bytes are framed and sent to the
-- converter; 59 to 64 bytes overrun the packet's storage; more are dropped, and a packet of no
-- bytes is sent.
pub build_gripper_control-raw :
    (raw : List ℕ) (interface : String) (d : List ℕ) (n : ℕ)
    → length raw ≡ max_bus_data_size
    → n ≤ length d
    → let w = build_wakeup_frame interface 0x02 in
      let out = build_gripper_control raw interface GripperType.raw_frame 0 0 0 (some d) n in
      (n ≡ 0 → out ≡ done (w ∷ []))
      × (0 < n
          → n ≤ 58
          → (p : GenericBusPacket) × (out ≡ done (w ∷ p ∷ []))
            × (contents p ≡ frame (take n d))
            × (p.id ≡ canfd_2_rs485_id)
            × IsPacket p)
      × (58 < n → n ≤ 64 → out ≡ overrun)
      × (64 < n → (p : GenericBusPacket) × (out ≡ done (w ∷ p ∷ [])) × (contents p ≡ []))
unfolding build_gripper_control
build_gripper_control-raw raw interface d n h hd = (
  λ e. ground arith,
  λ pos small.
      let f = pack_tx_frame-frame d n hd (omega arith) in
      let r = pack_tx_frame d n in
      let bs = take r.data_len r.data_buffer in
      (
        record {
          interface = interface;
          id = canfd_2_rs485_id;
          payload = store raw 0 bs;
          len = r.data_len;
          protocol_type = BusProtocolType.can_fd;
        },
        ground (arith, f.1),
        take-store_end raw 0 bs r.data_len
              (omega (
                arith,
                ap length f.0,
                f.1,
                length-append (take n d)
                    (checksum 0 (85 ∷ 170 ∷ length (take n d) ∷ take n d) ∷ 235 ∷ 170 ∷ []),
                length-take n d,
              ))
              (omega (arith, f.1))
            ∙ f.0,
        refl,
        record { storage = length-store raw 0 bs ∙ h; within = omega (arith, f.1) },
      ),
  λ big fits. ground (arith, (pack_tx_frame-frame d n hd fits).1),
  λ over. (
    record {
      interface = interface;
      id = canfd_2_rs485_id;
      payload = store raw 0 [];
      len = 0;
      protocol_type = BusProtocolType.can_fd;
    },
    ground (arith, pack_tx_frame-too_long d n over),
    refl,
  ),
)
