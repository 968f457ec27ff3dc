-- ===== src/MotorDriver/Update/Offered.antt =====
-- `start_update` of src/driver/motor_driver_impl.cpp: what it offers, what the filter for repeated
-- commands leaves of it, and that feedback goes on afterwards.

use hardware_driver.Base.{
  ℕ, suc, ◌+◌, ◌%◌, ◌^◌, ◌≡◌, refl, ◌∙◌, String, List, [], ◌∷◌, false, none, some, arith, length,
  leb, All, inl, inr,
}
use hardware_driver.Bus.{GenericBusPacket, Outcome, done, new_packet, fill, max_bus_data_size}
use hardware_driver.IapProtocol.{pack_enter_iap_request, pack_send_key, load_firmware_from_file}
use hardware_driver.MotorDriver.{MotorDriver, is_duplicate_command, key_of}
use hardware_driver.MotorDriver.Filter.{contents, is_duplicate_command_cases}
use hardware_driver.MotorDriver.Feedback.{pause_feedback_request, resume_feedback_request}
use hardware_driver.MotorDriver.Update.{update_packets, offer_all, start_update}
use hardware_driver.MotorDriver.Update.Firmware.{joined, IsUpdateFrame, firmware_frames-Frames}

-- The id that a motor in the firmware update listens to.
abbrev pub update_id : ℕ → ℕ
update_id motor_id = (0x1400 + motor_id) % 2 ^ 32

-- An update offers the request to enter the update mode, the key, and frames of at most 64 bytes
-- that carry the firmware, byte for byte and in order, all under the motor's update id; no copy
-- overruns a packet, and the rounds are enough for every firmware.
pub update_packets_lem :
    (raw : List ℕ) (interface : String) (motor_id : ℕ) (firmware : List ℕ)
    → length raw ≡ max_bus_data_size
    → (enter : GenericBusPacket) × (send_key : GenericBusPacket) × (ps : List GenericBusPacket)
      × (update_packets raw interface motor_id firmware ≡ done (enter ∷ send_key ∷ ps))
      × (contents enter ≡ 0x01 ∷ 0x12 ∷ [])
      × (contents send_key ≡ b'k' ∷ b'e' ∷ b'y' ∷ [])
      × (key_of enter ≡ record { interface = interface; motor_id = update_id motor_id })
      × (key_of send_key ≡ key_of enter)
      × All (IsUpdateFrame interface (update_id motor_id)) ps
      × (joined ps ≡ firmware)
unfolding update_packets pack_enter_iap_request pack_send_key
update_packets_lem (w ∷ x ∷ y ∷ z ∷ raw) interface motor_id firmware h =
    let p = new_packet (w ∷ x ∷ y ∷ z ∷ raw) interface (update_id motor_id) in
    let enter = fill p (pack_enter_iap_request p.payload) in
    let send_key = fill enter (pack_send_key enter.payload) in
    let (ps, r, j, a) =
      firmware_frames-Frames (length firmware) send_key firmware 0 h (omega arith) in
    (enter, send_key, ps, rw (r, update_packets), refl, refl, refl, refl, a, j)
update_packets_lem _ interface motor_id firmware h = absurd (omega arith)

is_duplicate_command-config :
    (s : MotorDriver) (p : GenericBusPacket)
    → let t = (is_duplicate_command s p).0 in
      (t.saved_motor_config ≡ s.saved_motor_config) × (t.control_queue ≡ s.control_queue)
is_duplicate_command-config s p = elim (is_duplicate_command_cases s p) [
  | inl (_, e) ↦ rw e (refl, refl)
  | inr (_, e) ↦ rw e (refl, refl)
]

offer_all-config :
    (ps : List GenericBusPacket) (s : MotorDriver)
    → let t = (offer_all ps s).0 in
      (t.saved_motor_config ≡ s.saved_motor_config) × (t.control_queue ≡ s.control_queue)
unfolding offer_all
offer_all-config [] s = (refl, refl)
offer_all-config (p ∷ ps) s =
    let ih = offer_all-config ps (is_duplicate_command s p).0 in
    let k = is_duplicate_command-config s p in (ih.0 ∙ k.0, ih.1 ∙ k.1)

-- What `start_update` comes to: the driver that it leaves, and the commands that pass the filter.
abbrev pub Updates :
    MotorDriver → List GenericBusPacket → Outcome (MotorDriver × List GenericBusPacket) → Type 0
Updates s passed r =
    (t : MotorDriver) × (r ≡ done (t, passed))
    × (t.interface_motor_config ≡ s.interface_motor_config)
    × (t.feedback_request_paused ≡ false)

-- An update returns whatever the file holds, and feedback is then asked for as before it: without a
-- file or with an empty one nothing is offered; with a firmware the commands that the filter, in the
-- state that the pause leaves, passes of those that the update offers.
start_update_lem :
    (raw : List ℕ) (interface : String) (motor_id : ℕ) (s : MotorDriver)
    → length raw ≡ max_bus_data_size
    → Updates s [] (start_update raw interface motor_id none s)
      × Updates s [] (start_update raw interface motor_id (some []) s)
      × ((b : ℕ) (bs : List ℕ)
          → (ps : List GenericBusPacket) × (update_packets raw interface motor_id (b ∷ bs)
              ≡ done ps)
            × Updates s
                (offer_all ps (pause_feedback_request s)).1
                (start_update raw interface motor_id (some (b ∷ bs)) s))
unfolding start_update load_firmware_from_file pause_feedback_request resume_feedback_request
start_update_lem raw interface motor_id s h = (
  (resume_feedback_request (pause_feedback_request s), refl, refl, refl),
  (resume_feedback_request (pause_feedback_request s), refl, refl, refl),
  λ b bs.
      let (enter, send_key, ps, r, _, _, _, _, _, _) =
        update_packets_lem raw interface motor_id (b ∷ bs) h in
      let all = enter ∷ send_key ∷ ps in
      let t = offer_all all (pause_feedback_request s) in
      let e : leb (suc (length bs)) 0 ≡ false = ground arith in
      (
        all,
        r,
        (
          resume_feedback_request t.0,
          rw (e, r, start_update),
          (offer_all-config all (pause_feedback_request s)).0,
          refl,
        ),
      ),
)
