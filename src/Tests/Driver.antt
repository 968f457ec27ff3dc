-- ===== src/Tests/Driver.antt =====
-- Inputs for the theorems on the motor driver and on its bus.
use hardware_driver.Base.{
  ℕ, ◌/◌, ◌%◌, ◌≡◌, ◌<◌, refl, [], ◌∷◌, ◌++◌, some, true, false, arith, get_or, find, if◌then◌else◌,
  string_eq,
}
use hardware_driver.Bus.{GenericBusPacket, sent}
use hardware_driver.MotorProtocol.RoundTrip.{received, status_frame}
use hardware_driver.MotorDriver.{
  MotorDriver, motor_key_eq, PriorityCommand, CommandPriority, Admission, send_control_command,
  control_batch, on_packet,
}
use hardware_driver.MotorDriver.Order.{Drains, control_batch-Drains}
use hardware_driver.MotorDriver.Filter.{Call, send_all_commands, repeated_command_skipped}
use hardware_driver.MotorDriver.Dispatch.{handle_bus_packet}
use hardware_driver.MotorDriver.Dispatch.Routing.{handle_bus_packet-status_frame}
use hardware_driver.MotorDriver.Commands.{key, contains, enable_all_motors}
use hardware_driver.MotorDriver.Commands.Modes.{
  enable_all_packet, wanted_mode, enable_all_motors_lem,
}
use hardware_driver.MotorDriver.Commands.Gains.{gain, IsControl, Offers, single_motor_commands_lem}
use hardware_driver.MotorDriver.Commands.{send_mit_cmd}
use hardware_driver.MotorDriver.Feedback.{
  pause_feedback_request, resume_feedback_request, pause_feedback_request_lem,
}
use hardware_driver.MotorDriver.System.{System, receive, initial}
use hardware_driver.CanFdBus.{CanFdBus, Frame, send, receive as receive_frame, packet}
use hardware_driver.CanFdBus.Frames.{IsReceived, receive-send}
use hardware_driver.Tests.{float_ops, storage, can0, a_status, a_status-IsInRange, packet_of}

abbrev command : ℕ → CommandPriority → ℕ → PriorityCommand
command id priority timestamp = record {
  packet = packet_of id storage 3;
  priority = priority;
  timestamp = timestamp;
}

-- A driver with three commands in its queue.
abbrev busy : MotorDriver
busy = record {
  status_map = [];
  motor_modes = (key can0 2, 5) ∷ [];
  iap_latest_feedback = [];
  observers = 1 ∷ 2 ∷ [];
  iap_observers = [];
  control_queue =
      command 1 CommandPriority.low 10
      ∷ command 2 CommandPriority.emergency 30
      ∷ command 3 CommandPriority.low 5
      ∷ [];
  last_commands = [];
  receive_queue = [];
  high_freq_mode = true;
  last_control_time = 1000;
  interface_motor_config = (can0, 1 ∷ 2 ∷ []) ∷ [];
  saved_motor_config = [];
  feedback_request_paused = false;
  feedback_callback = true;
  button_packet_callback = false;
  event_bus = true;
}

control_batch-Drains_example :
    Drains busy (control_batch ((false, 40) ∷ (true, 41) ∷ (false, 42) ∷ []) busy)
control_batch-Drains_example =
    control_batch-Drains ((false, 40) ∷ (true, 41) ∷ (false, 42) ∷ []) busy (omega arith)

abbrev broadcast : Call
broadcast = record { packet = packet_of 0 storage 3; priority = CommandPriority.high; now = 60 }

repeated_command_skipped_example :
    let p = packet_of 4 storage 3 in
    let t =
      send_all_commands (broadcast ∷ []) (send_control_command p CommandPriority.low 50 busy).0 in
    send_control_command p CommandPriority.emergency 70 t ≡ (t, Admission.skipped)
repeated_command_skipped_example =
    repeated_command_skipped (packet_of 4 storage 3) CommandPriority.low CommandPriority.emergency
      50 70 (broadcast ∷ []) busy (λ e. ground (arith, e), tt)

handle_bus_packet-status_frame_example :
    let p =
      received can0 0x305
        (record { bytes = status_frame a_status ++ []; size = 24; packed = true }) in
    find (key can0 5) (handle_bus_packet (λ o. true) p busy).0.status_map ≡ some a_status
handle_bus_packet-status_frame_example =
    (handle_bus_packet-status_frame (λ o. true) can0 5 a_status [] 24 busy (key can0 6)
      (omega arith) a_status-IsInRange).0

enable_all_motors_lem_example :
    let p = enable_all_packet storage can0 (1 ∷ 3 ∷ []) 4 busy.motor_modes in
    let (s', a) = enable_all_motors float_ops storage 50 can0 (1 ∷ 3 ∷ []) 4 busy in
    (get_or p.payload 4 0 / 16 ≡ (if contains (1 ∷ 3 ∷ []) 3 then 1 else 0))
    × (get_or p.payload 4 0 % 16 ≡ wanted_mode can0 (1 ∷ 3 ∷ []) 4 busy.motor_modes 3)
    × (find (key can0 3) s'.motor_modes
        ≡ (if contains (1 ∷ 3 ∷ []) 3 then some 4 else find (key can0 3) busy.motor_modes))
unfolding contains
enable_all_motors_lem_example =
    let r =
      enable_all_motors_lem float_ops storage 50 can0 (1 ∷ 3 ∷ []) 4 busy 2 refl (omega arith)
        wanted_fits in
    (r.0, r.1, r.2)
  where
    wanted_fits : wanted_mode can0 (1 ∷ 3 ∷ []) 4 busy.motor_modes 3 < 16
    wanted_fits = omega arith

single_motor_commands_lem_example :
    Offers
      (send_mit_cmd float_ops storage 50 can0 3 100 20 5 1 2 busy)
      CommandPriority.low
      50
      busy
      (λ q. IsControl q can0 3 100 20 5 (gain float_ops 1) (gain float_ops 2))
single_motor_commands_lem_example =
    (single_motor_commands_lem float_ops storage 50 can0 3 100 20 5 1 2 busy refl (omega arith)
      (omega arith) (omega arith)).3

pause_feedback_request_lem_example :
    (resume_feedback_request
      (pause_feedback_request (pause_feedback_request busy))).interface_motor_config
    ≡ []
pause_feedback_request_lem_example =
    (pause_feedback_request_lem (λ p. sent) storage 2000 1000 busy).3

-- A stop passes the filter, finds room and is sent; then a packet arrives.
abbrev a_stop : GenericBusPacket
a_stop = packet_of 3 storage 15

abbrev seen : MotorDriver
seen = record (initial 7).driver { last_commands = (key can0 3, a_stop) ∷ [] }

abbrev in_queue : MotorDriver
in_queue = record seen {
  control_queue =
      record { packet = a_stop; priority = CommandPriority.emergency; timestamp = 8 } ∷ [];
}

abbrev sent_on : MotorDriver
sent_on = record seen { last_control_time = 9; high_freq_mode = true }

abbrev stopped : System
stopped = record (initial 7) {
  driver = on_packet sent_on (packet_of 0x303 storage 24);
  accepted = a_stop ∷ [];
  wire = a_stop ∷ [];
  arrived = packet_of 0x303 storage 24 ∷ [];
}

abbrev a_bus : CanFdBus
a_bus = record {
  interface_names = can0 ∷ [];
  interface_sockets = (can0, 3) ∷ [];
  canfd_flags = [];
  extended_frame_flags = [];
}

receive-send_example :
    (f : Frame) × (q : GenericBusPacket) × (send a_bus (packet_of 0x305 storage 24) ≡ some (3, f))
    × (receive_frame a_bus (some f) (packet_of 0 storage 0) ≡ packet q)
    × IsReceived true (packet_of 0x305 storage 24) q
unfolding find
receive-send_example =
    receive-send a_bus a_bus (packet_of 0x305 storage 24) (packet_of 0 storage 0) 3 3 socket socket
      refl (omega arith) (omega arith) (omega arith) refl
  where
    socket : find can0 a_bus.interface_sockets ≡ some 3
    socket = refl
