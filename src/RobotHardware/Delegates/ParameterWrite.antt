-- ===== src/RobotHardware/Delegates/ParameterWrite.antt =====
-- src/interface/robot_hardware.cpp: the write of a parameter, from the call to the motor's answer.
use hardware_driver.Base.{
  ℕ, ◌+◌, ◌%◌, ◌^◌, ◌≤◌, ◌<◌, ◌≡◌, refl, sym, ap, subst, ◌∙◌, String, List, [], Bool, ◌∷◌, ◌++◌,
  true, false, some, arith, length, take, store, replicate, map, find, string_eq,
}
use hardware_driver.Bus.{
  GenericBusPacket, BusProtocolType, Pack, max_bus_data_size, new_packet, fill,
}
use hardware_driver.Float32.{FloatOps}
use hardware_driver.MotorProtocol.{ParamData, parse_feedback}
use hardware_driver.MotorProtocol.RoundTrip.{write_result}
use hardware_driver.MotorProtocol.Pack.{pack_param_write_int, pack_param_write_float}
use hardware_driver.CanFdBus.{
  CanFdBus, Frame, flag_of, can_id_of, send, receive_frame, receive_loop,
}
use hardware_driver.CanFdBus.Frames.{room, frame_of, send_lem}
use hardware_driver.CanFdBus.Threads.{receive_loop-packets_of}
use hardware_driver.MotorDriver.{
  MotorDriver, PriorityCommand, CommandPriority, control_batch, send_control_command,
}
use hardware_driver.MotorDriver.Filter.{Seen, send_control_command_new}
use hardware_driver.MotorDriver.Order.{control_batch-single}
use hardware_driver.MotorDriver.Dispatch.{
  parameter_notice, parameter_event, live, only, handle_bus_packet,
}
use hardware_driver.MotorDriver.Dispatch.Routing.{handle_bus_packet-parameter}
use hardware_driver.MotorDriver.Commands
use hardware_driver.RobotHardware.Delegates.{motor_parameter_write_int, motor_parameter_write_float}

-- The motor's answer to a write: the bytes that it received, under the id 0x700 plus its own.
abbrev pub echo : ℕ → Frame → Frame
echo m f = record f { can_id = 0x700 + m }

-- What becomes of the bytes of a packet on their way to the motor and back.
abbrev returned : List ℕ → List ℕ → List ℕ
returned raw sent_bytes = store raw 0 (take 9 (store (replicate 64 0) 0 (take 9 sent_bytes)))

abbrev answer : List ℕ → String → ℕ → List ℕ → GenericBusPacket
answer raw interface m sent_bytes = record (new_packet raw interface (0x700 + m)) {
  len = 9;
  protocol_type = BusProtocolType.can_fd;
  payload = returned raw sent_bytes;
}

parse_feedback-answer :
    (raw raw' : List ℕ) (interface : String) (m addr value : ℕ)
    → length raw ≡ max_bus_data_size
    → length raw' ≡ max_bus_data_size
    → m < 256
    → addr < 2 ^ 16
    → value < 2 ^ 32
    → (parse_feedback (answer raw' interface m (pack_param_write_int raw addr value).bytes)
        ≡ some (write_result interface m addr 1 (ParamData.int32 value)))
      × (parse_feedback (answer raw' interface m (pack_param_write_float raw addr value).bytes)
          ≡ some (write_result interface m addr 2 (ParamData.float value)))
unfolding parse_feedback pack_param_write_int pack_param_write_float
parse_feedback-answer (_ ∷ _ ∷ _ ∷ _ ∷ _ ∷ _ ∷ _ ∷ _ ∷ _ ∷ raw)
      (_ ∷ _ ∷ _ ∷ _ ∷ _ ∷ _ ∷ _ ∷ _ ∷ _ ∷ raw') interface m addr value h h' hm ha hv =
    (ground arith, ground arith)
parse_feedback-answer _ _ interface m addr value h h' hm ha hv = absurd (omega arith)

receive_frame-echo :
    (raw : List ℕ) (interface : String) (m : ℕ) (sent_bytes : List ℕ) (extended : Bool)
    (p : GenericBusPacket)
    → p.len ≡ 9
    → p.payload ≡ sent_bytes
    → m < 256
    → receive_frame true (echo m (frame_of true extended p)) (new_packet raw interface 0)
      ≡ answer raw interface m sent_bytes
unfolding receive_frame
receive_frame-echo raw interface m sent_bytes extended p len bytes small =
    ground (arith, len, bytes)

request_id :
    (extended : Bool) (m : ℕ)
    → m < 256
    → can_id_of extended ((m + 0x600) % 2 ^ 32) % 2 ^ 11 ≡ 0x600 + m
request_id true m h = omega arith
request_id false m h = omega arith

module _ (alive : ℕ → Bool) (bus : CanFdBus) (socket : ℕ) (raw raw' : List ℕ) (now at : ℕ)
    (interface : String) (m addr : ℕ) where
  abbrev pub request : Pack → GenericBusPacket
  request k = fill (new_packet raw interface ((m + 0x600) % 2 ^ 32)) k

  -- What is to come of a call that left the driver in this state: the control thread's next batch is
  -- one packet, the bus sends it in one frame under the motor's request id, and of the motor's answer
  -- each living observer in turn and the event bus are told the address, the type and the value.
  abbrev pub IsAnswered : MotorDriver → ℕ → ParamData → Type 0
  IsAnswered d1 data_type value =
      let (cs, d2) = control_batch ((false, at) ∷ []) d1 in
      (c : PriorityCommand) × (sent : Frame) × (q : GenericBusPacket) × (cs ≡ c ∷ [])
      × (send bus c.packet ≡ some (socket, sent))
      × (sent.can_id % 2 ^ 11 ≡ 0x600 + m)
      × (receive_loop bus raw' interface (some (echo m sent) ∷ []) ≡ some (q ∷ []))
      × ((handle_bus_packet alive q d2).1
          ≡ map (λ o. parameter_notice o interface m addr data_type value) (live alive d2.observers)
            ++ only d2.event_bus (parameter_event interface m addr data_type value))

  send_control_command-IsAnswered :
      (k : Pack) (data_type : ℕ) (value : ParamData) (d : MotorDriver)
      → k.size ≡ 9
      → m < 256
      → parse_feedback (answer raw' interface m k.bytes)
        ≡ some (write_result interface m addr data_type value)
      → find interface bus.interface_sockets ≡ some socket
      → flag_of interface bus.canfd_flags ≡ true
      → ¬ Seen d (request k)
      → d.control_queue ≡ []
      → IsAnswered (send_control_command (request k) CommandPriority.low now d).0 data_type value
  send_control_command-IsAnswered k data_type value d size small parsed here fd new idle =
      let p = request k in
      let c : PriorityCommand = record {
        packet = p;
        priority = CommandPriority.low;
        timestamp = now;
      } in
      let extended = flag_of interface bus.extended_frame_flags in
      let d1 = (send_control_command p CommandPriority.low now d).0 in
      let queued =
        send_control_command_new p CommandPriority.low now d new (omega (arith, ap length idle)) in
      let batch = control_batch-single false at d1 c (queued.1 ∙ ap (λ q. q ++ c ∷ []) idle) in
      let fits : p.len ≤ 64 = omega (arith, size) in
      let sent = frame_of true extended p in
      let answered = answer raw' interface m k.bytes in
      (
        c,
        sent,
        answered,
        ap (λ o. o.0) batch,
        send_lem bus p socket here (subst (λ b. p.len ≤ room b) (sym fd) fits)
            ∙ ap (λ b. some (socket, frame_of b extended p)) fd,
        request_id extended m small,
        receive_loop-packets_of bus raw' interface (some (echo m sent) ∷ []) here fd
            ∙ ap (λ x. some (x ∷ []))
                (receive_frame-echo raw' interface m k.bytes extended p size refl small),
        handle_bus_packet-parameter alive answered
            (record {
              rw_method = 2;
              addr = addr;
              data_type = data_type;
              value = value;
              interface = interface;
              motor_id = m;
            })
            (control_batch ((false, at) ∷ []) d1).1 parsed,
      )

  -- A parameter that the user writes, where the command is no repetition, nothing else is queued and
  -- the bus has the interface in FD mode: the next batch sends it in one frame under the motor's
  -- request id; and when the motor answers with the bytes that it received, each living observer in
  -- turn and the event bus, where it is set, are told the same address, type and value. The same
  -- holds of a float parameter.
  pub motor_parameter_write_int-IsAnswered :
      (f : FloatOps) (value : ℕ) (d : MotorDriver)
      → length raw ≡ max_bus_data_size
      → length raw' ≡ max_bus_data_size
      → m < 256
      → addr < 2 ^ 16
      → value < 2 ^ 32
      → find interface bus.interface_sockets ≡ some socket
      → flag_of interface bus.canfd_flags ≡ true
      → d.control_queue ≡ []
      → (¬ Seen d (request (pack_param_write_int raw addr value))
          → IsAnswered
              (motor_parameter_write_int f raw now interface m addr value d).0
              1
              (ParamData.int32 value))
        × (¬ Seen d (request (pack_param_write_float raw addr value))
            → IsAnswered
                (motor_parameter_write_float f raw now interface m addr value d).0
                2
                (ParamData.float value))
  unfolding motor_parameter_write_int motor_parameter_write_float Commands.motor_parameter_write_int
      Commands.motor_parameter_write_float pack_param_write_int pack_param_write_float
  motor_parameter_write_int-IsAnswered f value d full full' hm ha hv here fd idle =
      let parsed = parse_feedback-answer raw raw' interface m addr value full full' hm ha hv in
      (
        λ new.
            send_control_command-IsAnswered (pack_param_write_int raw addr value) 1
              (ParamData.int32 value) d refl hm parsed.0 here fd new idle,
        λ new.
            send_control_command-IsAnswered (pack_param_write_float raw addr value) 2
              (ParamData.float value) d refl hm parsed.1 here fd new idle,
      )
