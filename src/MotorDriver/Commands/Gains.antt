-- ===== src/MotorDriver/Commands/Gains.antt =====
-- src/driver/motor_driver_impl.cpp: what a motor reads from the frames of the commands for
-- one motor.
use hardware_driver.Base.{ℕ, ◌<◌, ◌^◌, ◌≡◌, refl, String, List, ◌∷◌, length, get_or, arith}
use hardware_driver.Bus.{GenericBusPacket, new_packet, fill, max_bus_data_size}
use hardware_driver.Float32.{FloatOps}
use hardware_driver.MotorProtocol.Pack.{pack_control_command}
use hardware_driver.MotorProtocol.{big_endian_bytes_to_float}
use hardware_driver.MotorDriver.{MotorDriver, Admission, CommandPriority, send_control_command}
use hardware_driver.MotorDriver.Commands.{
  send_position_cmd, send_velocity_cmd, send_effort_cmd, send_mit_cmd, send_emergency_stop,
}

-- The packet of a control frame for one motor.
abbrev pub control_packet : FloatOps → List ℕ → String → ℕ → ℕ → ℕ → ℕ → ℕ → ℕ → GenericBusPacket
control_packet f raw interface id position velocity effort kp kd =
    fill (new_packet raw interface id) (pack_control_command f raw position velocity effort kp kd)

-- A gain as the frame holds it: thousandths, in a byte.
abbrev pub gain : FloatOps → ℕ → ℕ
gain f k = f.to_uint8 (f.scale 1000 k)

-- A gain that was made a byte and a float again before it was packed.
abbrev pub twice : FloatOps → ℕ → ℕ
twice f k = f.of_uint8 (gain f k)

-- What a motor finds in the packet of a control frame.
pub record IsControl (p : GenericBusPacket) (interface : String) (id : ℕ)
    (position velocity effort kp kd : ℕ) : Type 0 where
  pub same_interface : p.interface ≡ interface
  pub same_id : p.id ≡ id
  pub len : p.len ≡ 15
  pub length_byte : get_or p.payload 0 0 ≡ 14
  pub position_is : big_endian_bytes_to_float p.payload 1 ≡ position
  pub velocity_is : big_endian_bytes_to_float p.payload 5 ≡ velocity
  pub effort_is : big_endian_bytes_to_float p.payload 9 ≡ effort
  pub kp_is : get_or p.payload 13 0 ≡ kp
  pub kd_is : get_or p.payload 14 0 ≡ kd

control_packet-IsControl :
    (f : FloatOps) (raw : List ℕ) (interface : String) (id p v e kp kd : ℕ)
    → length raw ≡ max_bus_data_size
    → p < 2 ^ 32
    → v < 2 ^ 32
    → e < 2 ^ 32
    → IsControl
        (control_packet f raw interface id p v e kp kd)
        interface
        id
        p
        v
        e
        (gain f kp)
        (gain f kd)
unfolding pack_control_command
control_packet-IsControl f (_ ∷ _ ∷ _ ∷ _ ∷ _ ∷ _ ∷ _ ∷ _ ∷ _ ∷ _ ∷ _ ∷ _ ∷ _ ∷ _ ∷ _ ∷ d) interface
      id p v e kp kd h hp hv he =
    record {
      same_interface = refl;
      same_id = refl;
      len = refl;
      length_byte = refl;
      position_is = omega arith;
      velocity_is = omega arith;
      effort_is = omega arith;
      kp_is = refl;
      kd_is = refl;
    }
control_packet-IsControl f _ interface id p v e kp kd h hp hv he = absurd (omega arith)

-- A call that comes to the offer of one such packet.
abbrev pub Offers :
    MotorDriver × Admission
    → CommandPriority
    → ℕ
    → MotorDriver
    → (GenericBusPacket → Type 0)
    → Type 0
Offers r priority now s Good =
    (q : GenericBusPacket) × (r ≡ send_control_command q priority now s) × Good q

-- Each command for one motor offers one frame to the filter for repeated commands, at low priority
-- and the stop at emergency priority. A motor reads from the frame the quantities that the command
-- names, at their places, and 0 for those that it does not name, the stop's all among them. The
-- gains of the commands for effort and for all three are in thousandths, those of the commands for
-- position and for velocity the thousandths of the thousandths.
pub single_motor_commands_lem :
    (f : FloatOps) (raw : List ℕ) (now : ℕ) (interface : String) (id p v e kp kd : ℕ)
    (s : MotorDriver)
    → length raw ≡ max_bus_data_size
    → p < 2 ^ 32
    → v < 2 ^ 32
    → e < 2 ^ 32
    → let kp2 = gain f (twice f kp) in
      let kd2 = gain f (twice f kd) in
      Offers
        (send_position_cmd f raw now interface id p kp kd s)
        CommandPriority.low
        now
        s
        (λ q. IsControl q interface id p 0 0 kp2 kd2)
      × Offers
          (send_velocity_cmd f raw now interface id v kp kd s)
          CommandPriority.low
          now
          s
          (λ q. IsControl q interface id 0 v 0 kp2 kd2)
      × Offers
          (send_effort_cmd f raw now interface id e kp kd s)
          CommandPriority.low
          now
          s
          (λ q. IsControl q interface id 0 0 e (gain f kp) (gain f kd))
      × Offers
          (send_mit_cmd f raw now interface id p v e kp kd s)
          CommandPriority.low
          now
          s
          (λ q. IsControl q interface id p v e (gain f kp) (gain f kd))
      × Offers
          (send_emergency_stop f raw now interface id s)
          CommandPriority.emergency
          now
          s
          (λ q. IsControl q interface id 0 0 0 (gain f 0) (gain f 0))
unfolding send_position_cmd send_velocity_cmd send_effort_cmd send_mit_cmd send_emergency_stop
single_motor_commands_lem f raw now interface id p v e kp kd s h hp hv he =
    let z : 0 < 2 ^ 32 = omega arith in
    let kp2 = twice f kp in
    let kd2 = twice f kd in
    (
      (_, refl, control_packet-IsControl f raw interface id p 0 0 kp2 kd2 h hp z z),
      (_, refl, control_packet-IsControl f raw interface id 0 v 0 kp2 kd2 h z hv z),
      (_, refl, control_packet-IsControl f raw interface id 0 0 e kp kd h z z he),
      (_, refl, control_packet-IsControl f raw interface id p v e kp kd h hp hv he),
      (_, refl, control_packet-IsControl f raw interface id 0 0 0 0 0 h z z z),
    )
