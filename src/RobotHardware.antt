-- ===== src/RobotHardware.antt =====
-- src/interface/robot_hardware.cpp and include/hardware_driver/interface/robot_hardware.hpp: the
-- interface of the library, but for its trajectories, which are in `Trajectory`.
pub mod Batches
pub mod Reception
pub mod Realtime
pub mod Trajectory
pub mod Executions
pub mod Monitoring
pub mod Delegates
use hardware_driver.Base.{
  ℕ, zero, suc, ◌+◌, String, List, [], ◌∷◌, ◌++◌, Bool, true, false, leb, if◌then◌else◌, Option,
  none, some, length, map, take, store, replicate, find, assign, nat_eq, string_eq,
}
use hardware_driver.Bus.{GenericBusPacket, new_packet, max_bus_data_size}
use hardware_driver.Float32.{FloatOps}
use hardware_driver.MotorProtocol.{MotorStatus}
use hardware_driver.MotorProtocol.Pack.{Batch}
use hardware_driver.MotorDriver.{MotorDriver, CommandPriority, Admission, send_control_command}
use hardware_driver.MotorDriver.Commands.{
  send_position_cmd_all, send_velocity_cmd_all, send_effort_cmd_all, send_mit_cmd_all,
  motor_function_operation,
}

-- Callbacks, the event bus and the event handler are known by whether they are set, observers by the
-- identities of the objects.
pub record RobotHardware : Type 0 where
  pub interface_motor_config : List (String × List ℕ)
  pub status_callback : Bool
  pub batch_status_callback : Bool
  pub event_bus : Bool
  pub status_cache : List (String × List (ℕ × MotorStatus))
  pub current_observer : Option ℕ
  pub current_iap_observer : Option ℕ
  pub current_event_handler : Bool
  pub monitoring_paused : Bool

-- What the user is told.
pub data Report : Type 0 where
  status_report : String → ℕ → MotorStatus → Report
  batch_report : String → List (ℕ × MotorStatus) → Report

abbrev pub status_reports : Bool → String → ℕ → MotorStatus → List Report
status_reports true interface id st = status_report interface id st ∷ []
status_reports false interface id st = []

-- `status_cache_[interface]`
abbrev pub cache_of : String → RobotHardware → List (ℕ × MotorStatus)
cache_of interface r = elim (find interface r.status_cache) [ none ↦ [] | some c ↦ c ]

-- The loop over the expected motors.
pub all_received : List ℕ → List (ℕ × MotorStatus) → Bool
all_received [] cache = true
all_received (m ∷ ms) cache = elim (find m cache) [ none ↦ false | some st ↦ all_received ms cache ]

-- The part of `handle_motor_status_with_aggregation` that holds the lock.
pub aggregate : String → ℕ → MotorStatus → RobotHardware → RobotHardware × List Report
unfolding all_received
aggregate interface motor_id status r =
    let cache = assign motor_id status (cache_of interface r) in
    let stored = record r { status_cache = assign interface cache r.status_cache } in
    elim (find interface r.interface_motor_config) [
      | none ↦ (stored, [])
      | some expected ↦
          if all_received expected cache
          then (
            record r { status_cache = assign interface [] r.status_cache },
            batch_report interface cache ∷ [],
          )
          else (stored, [])
    ]

pub handle_motor_status_with_aggregation :
    String → ℕ → MotorStatus → RobotHardware → RobotHardware × List Report
unfolding aggregate
handle_motor_status_with_aggregation interface motor_id status r =
    let single = status_reports r.status_callback interface motor_id status in
    if r.batch_status_callback
    then (let (r', batch) = aggregate interface motor_id status r in (r', single ++ batch))
    else (r, single)

-- Commands ---------------------------------------------------------------------------------------

-- The first values of an array of doubles as floats, the rest 0.
pub to_floats : FloatOps → ℕ → List ℕ → List ℕ
to_floats f n xs = store (replicate 6 0) 0 (map f.of_double (take n xs))

-- A call that returns false, or one that hands a command to the driver.
abbrev pub with_motors :
    String → RobotHardware → (ℕ → MotorDriver × Admission) → Option (MotorDriver × Admission)
with_motors interface r send = elim (find interface r.interface_motor_config) [
  | none ↦ none
  | some motor_ids ↦ if leb (length motor_ids) 6 then some (send (length motor_ids)) else none
]

-- Arrays of six doubles; the fields that a command does not use are not looked at.
module _ (f : FloatOps) (raw : List ℕ) (now : ℕ) where
  pub send_realtime_velocity_command :
      String → Batch → RobotHardware → MotorDriver → Option (MotorDriver × Admission)
  unfolding to_floats
  send_realtime_velocity_command interface b r s = with_motors interface r (λ n.
      send_velocity_cmd_all f raw now interface (to_floats f n b.velocities) (to_floats f n b.kps)
        (to_floats f n b.kds) s)

  pub send_realtime_position_command :
      String → Batch → RobotHardware → MotorDriver → Option (MotorDriver × Admission)
  unfolding to_floats
  send_realtime_position_command interface b r s = with_motors interface r (λ n.
      send_position_cmd_all f raw now interface (to_floats f n b.positions) (to_floats f n b.kps)
        (to_floats f n b.kds) s)

  pub send_realtime_effort_command :
      String → Batch → RobotHardware → MotorDriver → Option (MotorDriver × Admission)
  unfolding to_floats
  send_realtime_effort_command interface b r s = with_motors interface r (λ n.
      send_effort_cmd_all f raw now interface (to_floats f n b.efforts) (to_floats f n b.kps)
        (to_floats f n b.kds) s)

  pub send_realtime_mit_command :
      String → Batch → RobotHardware → MotorDriver → Option (MotorDriver × Admission)
  unfolding to_floats
  send_realtime_mit_command interface b r s = with_motors interface r (λ n.
      send_mit_cmd_all f raw now interface
        (record {
          positions = to_floats f n b.positions;
          velocities = to_floats f n b.velocities;
          efforts = to_floats f n b.efforts;
          kps = to_floats f n b.kps;
          kds = to_floats f n b.kds;
        })
        s)

-- The packet that `send_button_replay_complete` hands to the motor driver.
abbrev pub replay_complete_packet : List ℕ → String → GenericBusPacket
replay_complete_packet raw interface = record (new_packet raw interface 0x7F) {
  len = 4;
  payload = store (replicate max_bus_data_size 0) 0 (0x46 ∷ 0x58 ∷ 0x4A ∷ 0x53 ∷ []);
}

pub send_button_replay_complete : List ℕ → ℕ → String → MotorDriver → MotorDriver × Admission
send_button_replay_complete raw now interface s =
    send_control_command (replay_complete_packet raw interface) CommandPriority.low now s
