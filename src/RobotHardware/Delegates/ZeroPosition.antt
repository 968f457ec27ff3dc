-- ===== src/RobotHardware/Delegates/ZeroPosition.antt =====
-- src/interface/robot_hardware.cpp: the zero positions of an arm, and the filter for repetitions.
use mathlib.Core.List.{append_assoc, append-nil}
use hardware_driver.Base.{
  ℕ, ◌+◌, ◌*◌, ◌%◌, ◌^◌, ◌≤◌, ◌≡◌, refl, sym, ap, ◌∙◌, String, List, [], ◌∷◌, ◌++◌, false, arith,
  length, length-append, take, store, All, All-mono, Bool-cases, inl, inr,
}
use hardware_driver.Bus.{GenericBusPacket, max_bus_data_size, new_packet, fill}
use hardware_driver.Float32.{FloatOps}
use hardware_driver.MotorProtocol.Pack.{pack_function_operation}
use hardware_driver.MotorDriver.{
  MotorDriver, PriorityCommand, CommandPriority, Admission, key_of, key_eq, key_eq_iff,
  motor_key_eq, send_control_command, max_queue_size,
}
use hardware_driver.MotorDriver.Commands.{motor_function_operation}
use hardware_driver.MotorDriver.Filter.{
  Seen, contents, send_control_command_new, send_control_command-find,
}
use hardware_driver.RobotHardware.Delegates.{arm_zero_position_set}

stored :
    (raw : List ℕ) (a b : ℕ)
    → length raw ≡ max_bus_data_size
    → take 2 (store raw 0 (a ∷ b ∷ [])) ≡ a ∷ b ∷ []
stored [] a b h = absurd (omega arith)
stored (x ∷ []) a b h = absurd (omega arith)
stored (x ∷ y ∷ raw) a b h = refl

module _ (f : FloatOps) (raw : List ℕ) (clock : ℕ → ℕ) (interface : String)
    (full : length raw ≡ max_bus_data_size) where
  -- The packet of an operation, and its place in the queue.
  abbrev pub operation : ℕ → ℕ → GenericBusPacket
  operation m op =
      fill (new_packet raw interface ((m + 0x400) % 2 ^ 32)) (pack_function_operation raw op)

  abbrev queued : ℕ → ℕ → ℕ → PriorityCommand
  queued m op i = record {
    packet = operation m op;
    priority = CommandPriority.low;
    timestamp = clock i;
  }

  abbrev pub both : List ℕ → ℕ → List PriorityCommand
  both [] i = []
  both (m ∷ ms) i = queued m 4 i ∷ queued m 2 (i + 1) ∷ both ms (i + 2)

  contents-operation : (m op : ℕ) → contents (operation m op) ≡ 1 ∷ op ∷ []
  unfolding pack_function_operation
  contents-operation m op = stored raw 1 op full

  -- The last command for a motor is not both its operation 4 and its operation 2.
  clash :
      (t : MotorDriver) (m k : ℕ)
      → key_of (operation m 4) ≡ key_of (operation k 2)
      → Seen t (operation m 4)
      → Seen t (operation k 2)
      → ⊥
  clash t m k e (last, found, four) (last', found', two) =
      let c4 = contents-operation m 4 in
      let c2 = contents-operation k 2 in let b4 = four.bytes in let b2 = two.bytes in cc

  -- A call for another key does not make a packet a repetition.
  stays_new :
      (p : GenericBusPacket) (now : ℕ) (t : MotorDriver) (q : GenericBusPacket)
      → key_eq (key_of p) (key_of q) ≡ false
      → ¬ Seen t q
      → ¬ Seen (send_control_command p CommandPriority.low now t).0 q
  stays_new p now t q other new (last, found, same) = new (
    last,
    sym (send_control_command-find p CommandPriority.low now t (key_of q) other) ∙ found,
    same,
  )

  -- After the operations 4 and 2 of a motor: what is queued, and that the operation 4 of any motor
  -- is no repetition if it was none before.
  pair_lem :
      (m i : ℕ) (s : MotorDriver)
      → ¬ Seen s (operation m 4)
      → length s.control_queue + 2 ≤ max_queue_size
      → let (t, first) = motor_function_operation f raw (clock i) interface m 4 s in
        let (u, second) = motor_function_operation f raw (clock (i + 1)) interface m 2 t in
        (first ≡ Admission.queued)
        × (second ≡ Admission.queued)
        × (u.control_queue ≡ s.control_queue ++ queued m 4 i ∷ queued m 2 (i + 1) ∷ [])
        × ((k : ℕ) → ¬ Seen s (operation k 4) → ¬ Seen u (operation k 4))
  unfolding motor_function_operation
  pair_lem m i s new room =
      let low = CommandPriority.low in
      let one = send_control_command_new (operation m 4) low (clock i) s new (omega arith) in
      let t = (send_control_command (operation m 4) low (clock i) s).0 in
      let other : ¬ Seen t (operation m 2) = λ again. clash t m m refl one.2 again in
      let size = ap length one.1 ∙ length-append s.control_queue (queued m 4 i ∷ []) in
      let two =
        send_control_command_new (operation m 2) low (clock (i + 1)) t other
          (omega (arith, size)) in
      let u = (send_control_command (operation m 2) low (clock (i + 1)) t).0 in
      (
        one.0,
        two.0,
        two.1 ∙ ap (λ q. q ++ queued m 2 (i + 1) ∷ []) one.1 ∙ append_assoc s.control_queue _ _,
        λ k fresh. elim (Bool-cases (key_eq (key_of (operation m 4)) (key_of (operation k 4)))) [
          | inl e ↦ λ seen. clash u k m (sym ((key_eq_iff _ _).0 e)) seen two.2
          | inr e ↦
              stays_new (operation m 2) (clock (i + 1)) t (operation k 4) e
                (stays_new (operation m 4) (clock i) s (operation k 4) e fresh)
        ],
      )

  -- If the last command for none of the motors is its operation 4 and the queue has room for two
  -- commands of each motor, setting the zero positions of an arm queues, for each motor in the
  -- given order, its operation 4 and then its operation 2, all with the priority low, behind what
  -- is in the queue, and the filter for repetitions drops none of them, also where a motor is named
  -- twice.
  pub arm_zero_position_set_lem :
      (ms : List ℕ) (i : ℕ) (s : MotorDriver)
      → All (λ m. ¬ Seen s (operation m 4)) ms
      → length s.control_queue + 2 * length ms ≤ max_queue_size
      → let (s', calls) = arm_zero_position_set f raw clock interface ms i s in
        (s'.control_queue ≡ s.control_queue ++ both ms i) × All (λ a. a ≡ Admission.queued) calls
  unfolding arm_zero_position_set
  arm_zero_position_set_lem [] i s fresh room = (sym (append-nil s.control_queue), tt)
  arm_zero_position_set_lem (m ∷ ms) i s fresh room =
      let pair = pair_lem m i s fresh.0 (omega (arith, room)) in
      let t = (motor_function_operation f raw (clock i) interface m 4 s).0 in
      let u = (motor_function_operation f raw (clock (i + 1)) interface m 2 t).0 in
      let pending = queued m 4 i ∷ queued m 2 (i + 1) ∷ [] in
      let size = ap length pair.2 ∙ length-append s.control_queue pending in
      let rest =
        arm_zero_position_set_lem ms (i + 2) u (All-mono (λ k. pair.3 k) ms fresh.1)
          (omega (arith, size, room)) in
      (
        rest.0
            ∙ ap (λ q. q ++ both ms (i + 2)) pair.2
            ∙ append_assoc s.control_queue pending (both ms (i + 2)),
        (pair.0, (pair.1, rest.1)),
      )
