-- ===== src/MotorDriver/Dispatch/Routing.antt =====
-- src/driver/motor_driver_impl.cpp: who hears of a packet, and what the driver keeps of it.
use hardware_driver.Base.{
  ◌==◌, ◌&&◌, String, ℕ, ◌+◌, ◌<◌, ◌≡◌, ◌≢◌, inl, inr, refl, sym, ap, ◌∙◌, List, [], ◌∷◌, ◌++◌,
  Bool, true, false, none, some, arith, map, find, find-assign, find-assign_self, Option-cases,
  Bool-cases, nat_eq,
}
use hardware_driver.Bus.{GenericBusPacket}
use hardware_driver.MotorProtocol.{
  MotorStatus, MotorFeedback, status_feedback, func_feedback, param_feedback, ParamResultFeedback,
  parse_feedback,
}
use hardware_driver.MotorProtocol.RoundTrip.{
  received, status_frame, IsInRange, parse_feedback-status_frame,
}
use hardware_driver.IapProtocol.{IapFeedback, parse_iap_feedback}
use hardware_driver.MotorDriver.{MotorDriver, MotorKey, motor_key_eq, key_eq_iff}
use hardware_driver.MotorDriver.Dispatch.{
  Effect, feedback_call, status_notice, status_event, parameter_notice, parameter_event,
  button_packet, only, live, process_packet, notify_iap_observers, handle_bus_packet,
  handle_feedback,
}
use mathlib.Core.Option.{some-injective}

module _ (alive : ℕ → Bool) where
  -- The parts of the state that the data thread never touches.
  pub record IsUntouched (s t : MotorDriver) : Type 0 where
    pub control : t.control_queue ≡ s.control_queue
    pub receive : t.receive_queue ≡ s.receive_queue
    pub commands : t.last_commands ≡ s.last_commands
    pub modes : t.motor_modes ≡ s.motor_modes
    pub config : t.interface_motor_config ≡ s.interface_motor_config
    pub saved : t.saved_motor_config ≡ s.saved_motor_config
    pub paused : t.feedback_request_paused ≡ s.feedback_request_paused

  handle_feedback-IsUntouched :
      (fb : MotorFeedback) (s : MotorDriver) → IsUntouched s (handle_feedback alive fb s).0
  unfolding handle_feedback
  handle_feedback-IsUntouched (status_feedback fb) s = ground arith
  handle_feedback-IsUntouched (func_feedback fb) s = ground arith
  handle_feedback-IsUntouched (param_feedback fb) s = ground arith

  -- The four ways that a packet can go.
  handle_bus_packet_cases {ℓ} :
      (P : MotorDriver × List Effect → Type ℓ) (p : GenericBusPacket) (s : MotorDriver)
      → P (s, button_packet p.interface p.id p.payload p.len ∷ [])
      → ((fb : IapFeedback) → P (notify_iap_observers alive p.interface fb s))
      → P (s, [])
      → ((fb : MotorFeedback) → P (handle_feedback alive fb s))
      → P (handle_bus_packet alive p s)
  unfolding handle_bus_packet
  handle_bus_packet_cases P p s button iap nothing feedback =
      elim (Bool-cases ((p.id == 0x8F) && s.button_packet_callback)) [
        | inl e ↦ rw (e, handle_bus_packet) button
        | inr e ↦ elim (Option-cases (parse_iap_feedback p)) [
          | inr (fb, i) ↦ rw (e, i, handle_bus_packet) (iap fb)
          | inl i ↦ elim (Option-cases (parse_feedback p)) [
            | inr (fb, f) ↦ rw (e, i, f, handle_bus_packet) (feedback fb)
            | inl f ↦ rw (e, i, f, handle_bus_packet) nothing
          ]
        ]
      ]

  -- Whatever a packet is, handling it leaves the queues, the filter, the modes and the
  -- configuration alone.
  pub handle_bus_packet-IsUntouched :
      (p : GenericBusPacket) (s : MotorDriver) → IsUntouched s (handle_bus_packet alive p s).0
  unfolding notify_iap_observers
  handle_bus_packet-IsUntouched p s =
      handle_bus_packet_cases (λ r. IsUntouched s r.0) p s (ground arith) (λ fb. ground arith)
        (ground arith) (λ fb. handle_feedback-IsUntouched fb s)

  -- A round of the data thread takes the first packet off the receive queue.
  pub process_packet-queues :
      (d e : MotorDriver) (es : List Effect)
      → process_packet alive d ≡ some (e, es)
      → (e.control_queue ≡ d.control_queue)
        × ((p : GenericBusPacket) × (d.receive_queue ≡ p ∷ e.receive_queue))
  unfolding process_packet
  process_packet-queues d e es h = by_queue d.receive_queue refl h
    where
      by_queue :
          (q : List GenericBusPacket)
          → d.receive_queue ≡ q
          → (elim q [
            | [] ↦ none
            | p ∷ rest ↦ some (handle_bus_packet alive p (record d { receive_queue = rest }))
          ])
            ≡ some (e, es)
          → (e.control_queue ≡ d.control_queue)
            × ((p : GenericBusPacket) × (d.receive_queue ≡ p ∷ e.receive_queue))
      by_queue [] eq r = ground (arith, r)
      by_queue (p ∷ rest) eq r =
          let same =
            ap (λ t. t.0)
              (some-injective (handle_bus_packet alive p (record d { receive_queue = rest }))
                (e, es) r) in
          let u = handle_bus_packet-IsUntouched p (record d { receive_queue = rest }) in
          (
            ap (λ t. t.control_queue) (sym same) ∙ u.control,
            (p, eq ∙ ap (◌∷◌ p) (sym u.receive ∙ ap (λ t. t.receive_queue) same)),
          )

-- Motor feedback is never taken for a message of the firmware update or for a button.
pub parse_iap_feedback-parse_feedback :
    (p : GenericBusPacket) → parse_feedback p ≢ none → (parse_iap_feedback p ≡ none) × (p.id ≢ 0x8F)
unfolding parse_iap_feedback parse_feedback
parse_iap_feedback-parse_feedback p h = (ground arith, ground arith)

module _ (alive : ℕ → Bool) where
  -- The status that a motor sends in its frame, with fields within their widths, is what the driver
  -- keeps for that motor of that interface, while the entries of all others stay; and exactly the
  -- callback, each living observer in turn and the event bus, where they are set, are told it.
  pub handle_bus_packet-status_frame :
      (interface : String) (m : ℕ) (st : MotorStatus) (rest : List ℕ) (n : ℕ) (s : MotorDriver)
      (k : MotorKey)
      → m < 256
      → IsInRange st
      → let p =
          received interface
            (0x300 + m)
            (record { bytes = status_frame st ++ rest; size = n; packed = true }) in
        let key : MotorKey = record { interface = interface; motor_id = m } in
        let (s', effects) = handle_bus_packet alive p s in
        (find key s'.status_map ≡ some st)
        × (k ≢ key → find k s'.status_map ≡ find k s.status_map)
        × (s'.observers ≡ live alive s.observers)
        × (effects
            ≡ only s.feedback_callback (feedback_call interface m st)
              ++ (map (λ o. status_notice o interface m st) (live alive s.observers)
                  ++ only s.event_bus (status_event interface m st)))
  unfolding handle_bus_packet
  handle_bus_packet-status_frame interface m st rest n s k hm h =
      let p =
        received interface (0x300 + m)
          (record { bytes = status_frame st ++ rest; size = n; packed = true }) in
      let key : MotorKey = record { interface = interface; motor_id = m } in
      let f = parse_feedback-status_frame interface m st rest n hm h in
      let i = parse_iap_feedback-parse_feedback p (λ e. cc) in
      let b : ((0x300 + m == 0x8F) && s.button_packet_callback) ≡ false = ground (arith, i.1) in
      rw (b, i.0, f, handle_bus_packet)
        (
          find-assign_self key st s.status_map,
          λ ne. ground (arith, find-assign key k st s.status_map, key_eq_iff key k),
          refl,
          refl,
        )

  -- The result of a parameter access is told to each living observer in turn and to the event bus.
  pub handle_bus_packet-parameter :
      (p : GenericBusPacket) (fb : ParamResultFeedback) (s : MotorDriver)
      → parse_feedback p ≡ some (param_feedback fb)
      → (handle_bus_packet alive p s).1
        ≡ map
            (λ o. parameter_notice o fb.interface fb.motor_id fb.addr fb.data_type fb.value)
            (live alive s.observers)
          ++ only s.event_bus
              (parameter_event fb.interface fb.motor_id fb.addr fb.data_type fb.value)
  unfolding handle_bus_packet
  handle_bus_packet-parameter p fb s parsed =
      let i = parse_iap_feedback-parse_feedback p (λ e. cc) in
      let b : ((p.id == 0x8F) && s.button_packet_callback) ≡ false = ground (arith, i.1) in
      rw (b, i.0, parsed, handle_bus_packet)
