-- ===== src/Tests/Gripper.antt =====
-- Inputs for the theorems on the grippers and on the buttons.
use hardware_driver.Base.{
  ℕ, ◌+◌, ◌≡◌, ◌≤◌, ◌<◌, refl, ap, List, [], ◌∷◌, ◌++◌, none, some, true, arith, take, replicate,
  length,
}
use hardware_driver.Bus.{GenericBusPacket, done, overrun}
use hardware_driver.GripperProtocol.{
  Canfd485RawFrame, GripperType, parse_rx_frame, pack_tx_frame, omni_picker_control,
  build_gripper_control,
}
use hardware_driver.GripperProtocol.RawFrame.{
  frame, holds, parse_rx_frame-frame, parse_rx_frame_sound, parse_rx_frame-pack_tx_frame,
}
use hardware_driver.GripperProtocol.Builder.{
  IsControl, build_gripper_control-IsControl, build_gripper_control-raw,
}
use hardware_driver.GripperDriver.{GripperStatus, status_of}
use hardware_driver.GripperDriver.Status.{status_of-fresh}
use hardware_driver.ButtonDriver.{ButtonStatus, ButtonDriver}
use hardware_driver.ButtonDriver.Debounce.{
  Packet, handle_all, events, reported, told, handle_all_lem,
}
use hardware_driver.Tests.{storage, can0, packet_of}

abbrev a_frame : List ℕ
a_frame = frame (7 ∷ 8 ∷ []) ++ 0 ∷ []

a_frame-data_len : 0 < (parse_rx_frame a_frame 8).data_len
a_frame-data_len =
    let held = parse_rx_frame-frame (7 ∷ 8 ∷ []) (0 ∷ []) 8 (omega arith) (omega arith) in
    omega (arith, ap (λ (r : Canfd485RawFrame). r.data_len) held)

parse_rx_frame_sound_example :
    (bs : List ℕ) × (parse_rx_frame a_frame 8 ≡ holds bs)
    × (take (length bs + 6) a_frame ≡ frame bs)
    × (length bs + 6 ≤ 8)
parse_rx_frame_sound_example = parse_rx_frame_sound a_frame 8 (omega arith) a_frame-data_len

parse_rx_frame-pack_tx_frame_example :
    let r =
      parse_rx_frame
        (pack_tx_frame (7 ∷ 8 ∷ []) 2).data_buffer
        (pack_tx_frame (7 ∷ 8 ∷ []) 2).data_len in
    r ≡ holds (7 ∷ 8 ∷ [])
parse_rx_frame-pack_tx_frame_example =
    (parse_rx_frame-pack_tx_frame (7 ∷ 8 ∷ []) 2 (omega arith) (omega arith)).0 (omega arith)

build_gripper_control-IsControl_example :
    (w : GenericBusPacket) × (p : GenericBusPacket) × (build_gripper_control storage can0
        GripperType.omni_picker 50 60 70 none 0
      ≡ done (w ∷ p ∷ []))
    × IsControl can0 (omni_picker_control 50 60 70) w p
build_gripper_control-IsControl_example =
    (build_gripper_control-IsControl storage can0 50 60 70 0 none 0 refl).0

build_gripper_control-raw_example :
    build_gripper_control storage can0 GripperType.raw_frame 0 0 0 (some (replicate 60 1)) 60
    ≡ overrun
build_gripper_control-raw_example =
    (build_gripper_control-raw storage can0 (replicate 60 1) 60 refl (omega arith)).2 (omega arith)
      (omega arith)

abbrev fresh : GripperStatus
fresh = record {
  position = 91;
  velocity = 92;
  force = 93;
  status = 94;
  action_status = 95;
  has_object = true;
  is_moving = true;
}

status_of-fresh_example : status_of fresh (packet_of 0x6F (replicate 6 3) 6) ≡ fresh
status_of-fresh_example =
    (status_of-fresh fresh (packet_of 0x6F (replicate 6 3) 6) (omega arith) (omega arith)
        (omega arith)).1
      (λ e. omega (arith, e)) (λ e. omega (arith, e))

abbrev teach : Packet
teach = record { interface = can0; can_id = 0x8F; bytes = b'J' ∷ b'R' ∷ b'S' ∷ b'J' ∷ []; len = 4 }

abbrev buttons : ButtonDriver
buttons = record { observers = some 5 ∷ none ∷ []; last_status = ButtonStatus.idle }

handle_all_lem_example :
    handle_all (teach ∷ teach ∷ []) buttons
    ≡ told (some 5 ∷ none ∷ []) (reported ButtonStatus.idle (events (teach ∷ teach ∷ [])))
handle_all_lem_example = handle_all_lem (teach ∷ teach ∷ []) ButtonStatus.idle buttons refl
