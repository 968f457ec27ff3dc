-- ===== src/Tests/Update.antt =====
-- Inputs for the theorems on the firmware update.
use hardware_driver.Base.{
  ℕ, ◌+◌, ◌≤◌, ◌++◌, ◌≡◌, ◌<◌, refl, List, [], ◌∷◌, true, arith, All, replicate, find,
}
use hardware_driver.Bus.{GenericBusPacket, done, fill, new_packet}
use hardware_driver.IapProtocol.{
  pack_enter_iap_request, pack_send_key, pack_firmware_frame, IapStatus, code_of,
}
use hardware_driver.MotorDriver.{MotorDriver, new_motor_driver, key_of}
use hardware_driver.MotorDriver.Filter.{contents}
use hardware_driver.MotorDriver.Update.{
  Poll, feedback, is_expected, wait_for_feedback, update_packets, firmware_frames, offer_all,
}
use hardware_driver.MotorDriver.Update.Waiting.{sees, wait_for_feedback_lem}
use hardware_driver.MotorDriver.Update.Firmware.{joined, IsUpdateFrame}
use hardware_driver.MotorDriver.Update.Offered.{update_id, update_packets_lem}
use hardware_driver.MotorDriver.Update.Repeats.{amount, update_packets-offer_all}
use hardware_driver.Tests.{storage, can0}

abbrev early : Poll
early = record { iap_latest_feedback = (2, IapStatus.aj01) ∷ []; elapsed = 10 }

abbrev in_time : Poll
in_time = record { iap_latest_feedback = (2, IapStatus.bs00) ∷ []; elapsed = 20 }

abbrev late : Poll
late = record { iap_latest_feedback = []; elapsed = 3001 }

in_time-sees : sees 2 IapStatus.bs00 (early ∷ in_time ∷ late ∷ []) ≡ true
unfolding sees is_expected find code_of
in_time-sees = refl

wait_for_feedback_lem_example :
    wait_for_feedback 2 IapStatus.bs00 3000 (early ∷ in_time ∷ late ∷ [])
    ≡ feedback (record { status_msg = IapStatus.bs00; motor_id = 2 })
wait_for_feedback_lem_example =
    (wait_for_feedback_lem 2 IapStatus.bs00 3000 (early ∷ in_time ∷ []) late []
        (omega arith, (omega arith, tt)) (omega arith)).0
      in_time-sees

-- A firmware of two frames.
abbrev firmware : List ℕ
firmware = replicate 70 9

update_packets_lem_example :
    (enter : GenericBusPacket) × (send_key : GenericBusPacket) × (ps : List GenericBusPacket)
    × (update_packets storage can0 3 firmware ≡ done (enter ∷ send_key ∷ ps))
    × (contents enter ≡ 0x01 ∷ 0x12 ∷ [])
    × (contents send_key ≡ b'k' ∷ b'e' ∷ b'y' ∷ [])
    × (key_of enter ≡ record { interface = can0; motor_id = update_id 3 })
    × (key_of send_key ≡ key_of enter)
    × All (IsUpdateFrame can0 (update_id 3)) ps
    × (joined ps ≡ firmware)
update_packets_lem_example = update_packets_lem storage can0 3 firmware refl

abbrev configured : MotorDriver
configured = record (new_motor_driver 0) { interface_motor_config = (can0, 1 ∷ 3 ∷ []) ∷ [] }

-- A firmware of three frames, of which the last two are equal.
abbrev with_repetition : List ℕ
with_repetition = replicate 64 1 ++ replicate 128 2

abbrev enter : GenericBusPacket
enter = fill (new_packet storage can0 0x1403) (pack_enter_iap_request storage)

abbrev send_key : GenericBusPacket
send_key = fill enter (pack_send_key enter.payload)

abbrev block : ℕ → GenericBusPacket
block b = record enter { payload = replicate 64 b; len = 64 }

with_repetition-update_packets :
    update_packets storage can0 3 with_repetition
    ≡ done (enter ∷ send_key ∷ block 1 ∷ block 2 ∷ block 2 ∷ [])
unfolding update_packets firmware_frames pack_firmware_frame pack_enter_iap_request pack_send_key
with_repetition-update_packets = refl

update_packets-offer_all_example :
    (offer_all (enter ∷ send_key ∷ block 1 ∷ block 2 ∷ block 2 ∷ []) configured
      ≡ offer_all (enter ∷ send_key ∷ block 1 ∷ block 2 ∷ []) configured)
    × (amount (offer_all (enter ∷ send_key ∷ block 1 ∷ block 2 ∷ block 2 ∷ []) configured).1 + 64
        ≤ 197)
    × (0 < 64)
update_packets-offer_all_example =
    update_packets-offer_all storage can0 3 with_repetition enter send_key (block 1 ∷ []) (block 2)
      (block 2) [] configured refl with_repetition-update_packets refl
