-- ===== src/MotorDriver/Commands.antt =====
-- src/driver/motor_driver_impl.cpp: the commands of the public interface. Each fills a packet, whose
-- storage holds `raw` before, and hands it to `send_control_command`. A call that waits for room in
-- the queue has not returned: the state is the one in which it waits.
pub mod Modes
pub mod Gains
use hardware_driver.Base.{
  ℕ, zero, suc, ◌+◌, ◌%◌, ◌^◌, String, List, [], ◌∷◌, Bool, true, false, ◌||◌, ◌==◌, if◌then◌else◌,
  Option, none, some, take, store, replicate, find, assign,
}
use hardware_driver.Bus.{GenericBusPacket, Pack, new_packet, fill}
use hardware_driver.Float32.{FloatOps}
use hardware_driver.MotorProtocol.Pack.{
  Batch, pack_disable_command, pack_disable_all_command, pack_enable_command,
  pack_enable_all_command, pack_control_command, pack_control_all_command, pack_param_read,
  pack_param_write_int, pack_param_write_float, pack_function_operation,
}
use hardware_driver.MotorDriver.{
  MotorDriver, MotorKey, motor_key_eq, CommandPriority, Admission, send_control_command,
}

-- `std::find` over the ids of a call.
unfoldable pub contains : List ℕ → ℕ → Bool
contains [] id = false
contains (x ∷ xs) id = (x == id) || contains xs id

-- The mode that the driver remembers for a motor; 0x04 is the speed mode.
abbrev pub mode_or_default : List (MotorKey × ℕ) → MotorKey → ℕ
mode_or_default modes k = elim (find k modes) [ none ↦ 0x04 | some mode ↦ mode ]

abbrev pub key : String → ℕ → MotorKey
key interface motor_id = record { interface = interface; motor_id = motor_id }

-- What the loop over the six motors fills in.
pub record Arrays : Type 0 where
  pub flags : List ℕ
  pub mode_array : List ℕ
  pub modes : List (MotorKey × ℕ)

-- One motor before those that follow it.
abbrev pub with_motor : ℕ → ℕ → Arrays → Arrays
with_motor flag mode rest = record rest {
  flags = flag ∷ rest.flags;
  mode_array = mode ∷ rest.mode_array;
}

-- The loop of `disable_all_motors` over `n` motors from `id` on: it remembers no mode.
pub disable_arrays : String → List ℕ → ℕ → List (MotorKey × ℕ) → ℕ → ℕ → Arrays
disable_arrays interface ids mode modes zero id = record {
  flags = [];
  mode_array = [];
  modes = modes;
}
disable_arrays interface ids mode modes (suc n) id =
    with_motor 0x00 (if contains ids id then mode else mode_or_default modes (key interface id))
      (disable_arrays interface ids mode modes n (id + 1))

-- The loop of `enable_all_motors`: the mode of a listed motor is remembered.
pub enable_arrays : String → List ℕ → ℕ → List (MotorKey × ℕ) → ℕ → ℕ → Arrays
enable_arrays interface ids mode modes zero id = record {
  flags = [];
  mode_array = [];
  modes = modes;
}
enable_arrays interface ids mode modes (suc n) id =
    with_motor (if contains ids id then 0x01 else 0x00)
      (if contains ids id then mode else mode_or_default modes (key interface id))
      (enable_arrays interface ids mode
        (if contains ids id then assign (key interface id) mode modes else modes) n (id + 1))

-- `std::array<float, 6>` from a vector: at most six values, the rest 0.0.
abbrev pub to_array : List ℕ → List ℕ
to_array xs = store (replicate 6 0) 0 (take 6 xs)

abbrev pub zeros : List ℕ
zeros = replicate 6 0

-- `motor_modes_[key] = mode`, once the send has returned.
abbrev pub remember : MotorKey → ℕ → MotorDriver × Admission → MotorDriver × Admission
remember k mode (s, Admission.waiting) = (s, Admission.waiting)
remember k mode (s, a) = (record s { motor_modes = assign k mode s.motor_modes }, a)

module _ (f : FloatOps) (raw : List ℕ) (now : ℕ) where
  open f use {scale, to_uint8, of_uint8}

  -- A packing function always succeeds, so its packet is always sent.
  abbrev pub send : String → ℕ → Pack → CommandPriority → MotorDriver → MotorDriver × Admission
  send interface id k priority s =
      send_control_command (fill (new_packet raw interface id) k) priority now s

  pub disable_motor : String → ℕ → ℕ → MotorDriver → MotorDriver × Admission
  disable_motor interface motor_id mode s =
      remember (key interface motor_id) mode
        (send interface motor_id (pack_disable_command raw mode) CommandPriority.high s)

  pub disable_all_motors : String → List ℕ → ℕ → MotorDriver → MotorDriver × Admission
  disable_all_motors interface motor_ids mode s =
      let a = disable_arrays interface motor_ids mode s.motor_modes 6 1 in
      send interface 0x00 (pack_disable_all_command raw a.flags a.mode_array) CommandPriority.high s

  pub enable_motor : String → ℕ → ℕ → MotorDriver → MotorDriver × Admission
  enable_motor interface motor_id mode s =
      remember (key interface motor_id) mode
        (send interface motor_id (pack_enable_command raw mode) CommandPriority.high s)

  pub enable_all_motors : String → List ℕ → ℕ → MotorDriver → MotorDriver × Admission
  enable_all_motors interface motor_ids mode s =
      let a = enable_arrays interface motor_ids mode s.motor_modes 6 1 in
      send interface 0x00 (pack_enable_all_command raw a.flags a.mode_array) CommandPriority.high
        (record s { motor_modes = a.modes })

  -- Position and velocity commands hand the gains on in thousandths, as a byte made a float again.
  pub send_position_cmd : String → ℕ → ℕ → ℕ → ℕ → MotorDriver → MotorDriver × Admission
  send_position_cmd interface motor_id position kp kd s =
      send interface motor_id
        (pack_control_command f raw position 0 0 (of_uint8 (to_uint8 (scale 1000 kp)))
          (of_uint8 (to_uint8 (scale 1000 kd))))
        CommandPriority.low s

  pub send_velocity_cmd : String → ℕ → ℕ → ℕ → ℕ → MotorDriver → MotorDriver × Admission
  send_velocity_cmd interface motor_id velocity kp kd s =
      send interface motor_id
        (pack_control_command f raw 0 velocity 0 (of_uint8 (to_uint8 (scale 1000 kp)))
          (of_uint8 (to_uint8 (scale 1000 kd))))
        CommandPriority.low s

  pub send_effort_cmd : String → ℕ → ℕ → ℕ → ℕ → MotorDriver → MotorDriver × Admission
  send_effort_cmd interface motor_id effort kp kd s =
      send interface motor_id (pack_control_command f raw 0 0 effort kp kd) CommandPriority.low s

  pub send_mit_cmd : String → ℕ → ℕ → ℕ → ℕ → ℕ → ℕ → MotorDriver → MotorDriver × Admission
  send_mit_cmd interface motor_id position velocity effort kp kd s =
      send interface motor_id (pack_control_command f raw position velocity effort kp kd)
        CommandPriority.low s

  pub send_emergency_stop : String → ℕ → MotorDriver → MotorDriver × Admission
  send_emergency_stop interface motor_id s =
      send interface motor_id (pack_control_command f raw 0 0 0 0 0) CommandPriority.emergency s

  -- The five vectors of `send_control_cmd` are the fields of `b`.
  pub send_control_cmd : String → Batch → MotorDriver → MotorDriver × Admission
  send_control_cmd interface b s =
      send interface 0x00
        (pack_control_all_command f raw (record {
          positions = to_array b.positions;
          velocities = to_array b.velocities;
          efforts = to_array b.efforts;
          kps = to_array b.kps;
          kds = to_array b.kds;
        }))
        CommandPriority.low s

  pub motor_parameter_read : String → ℕ → ℕ → MotorDriver → MotorDriver × Admission
  motor_parameter_read interface motor_id address s =
      send interface ((motor_id + 0x600) % 2 ^ 32) (pack_param_read raw address) CommandPriority.low
        s

  unfoldable pub motor_parameter_write_int :
      String → ℕ → ℕ → ℕ → MotorDriver → MotorDriver × Admission
  motor_parameter_write_int interface motor_id address value s =
      send interface ((motor_id + 0x600) % 2 ^ 32) (pack_param_write_int raw address value)
        CommandPriority.low s

  unfoldable pub motor_parameter_write_float :
      String → ℕ → ℕ → ℕ → MotorDriver → MotorDriver × Admission
  motor_parameter_write_float interface motor_id address value s =
      send interface ((motor_id + 0x600) % 2 ^ 32) (pack_param_write_float raw address value)
        CommandPriority.low s

  unfoldable pub motor_function_operation : String → ℕ → ℕ → MotorDriver → MotorDriver × Admission
  motor_function_operation interface motor_id operation s =
      send interface ((motor_id + 0x400) % 2 ^ 32) (pack_function_operation raw operation)
        CommandPriority.low s

  pub send_position_cmd_all :
      String → List ℕ → List ℕ → List ℕ → MotorDriver → MotorDriver × Admission
  send_position_cmd_all interface positions kps kds s =
      send interface 0x000
        (pack_control_all_command f raw (record {
          positions = positions;
          velocities = zeros;
          efforts = zeros;
          kps = kps;
          kds = kds;
        }))
        CommandPriority.low s

  pub send_velocity_cmd_all :
      String → List ℕ → List ℕ → List ℕ → MotorDriver → MotorDriver × Admission
  send_velocity_cmd_all interface velocities kps kds s =
      send interface 0x000
        (pack_control_all_command f raw (record {
          positions = zeros;
          velocities = velocities;
          efforts = zeros;
          kps = kps;
          kds = kds;
        }))
        CommandPriority.low s

  pub send_effort_cmd_all :
      String → List ℕ → List ℕ → List ℕ → MotorDriver → MotorDriver × Admission
  send_effort_cmd_all interface efforts kps kds s =
      send interface 0x000
        (pack_control_all_command f raw (record {
          positions = zeros;
          velocities = zeros;
          efforts = efforts;
          kps = kps;
          kds = kds;
        }))
        CommandPriority.low s

  pub send_mit_cmd_all : String → Batch → MotorDriver → MotorDriver × Admission
  send_mit_cmd_all interface b s =
      send interface 0x000 (pack_control_all_command f raw b) CommandPriority.low s
