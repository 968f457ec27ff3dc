-- ===== src/MotorDriver/Commands/Modes.antt =====
-- src/driver/motor_driver_impl.cpp: the flags and modes that the batch commands send and remember.
use hardware_driver.Base.{
  ℕ, zero, suc, ◌+◌, ◌/◌, ◌%◌, ◌<◌, ◌≡◌, ◌≢◌, refl, ap, ◌∙◌, String, List, [], ◌∷◌, ◌++◌, arith,
  length, get_or, find, assign, find-assign, find-assign_self, if◌then◌else◌, none, some,
}
use hardware_driver.Bus.{max_bus_data_size, GenericBusPacket, fill, new_packet}
use hardware_driver.Float32.{FloatOps}
use hardware_driver.MotorProtocol.Pack.{pack_enable_all_command}
use hardware_driver.MotorProtocol.Pack.Decode.{pack_enable_all_command_flags}
use hardware_driver.MotorDriver.{
  MotorDriver, MotorKey, CommandPriority, motor_key_eq, key_eq_iff, max_queue_size,
}
use hardware_driver.MotorDriver.Filter.{
  Seen, send_control_command_cases, send_control_command-motor_modes,
}
use hardware_driver.MotorDriver.Commands.{
  contains, key, mode_or_default, enable_arrays, enable_all_motors,
}

module _ (interface : String) (ids : List ℕ) (mode : ℕ) where
  -- The mode that a batch command has for a motor.
  abbrev pub wanted_mode : List (MotorKey × ℕ) → ℕ → ℕ
  wanted_mode modes id = if contains ids id then mode else mode_or_default modes (key interface id)

  assigned_other :
      (modes : List (MotorKey × ℕ)) (id j : ℕ)
      → id ≢ j
      → find
          (key interface j)
          (if contains ids id then assign (key interface id) mode modes else modes)
        ≡ find (key interface j) modes
  assigned_other modes id j h = ground (
    arith,
    find-assign (key interface id) (key interface j) mode modes,
    key_eq_iff (key interface id) (key interface j),
  )

  assigned_self :
      (modes : List (MotorKey × ℕ)) (id : ℕ)
      → find
          (key interface id)
          (if contains ids id then assign (key interface id) mode modes else modes)
        ≡ (if contains ids id then some mode else find (key interface id) modes)
  assigned_self modes id = ground (arith, find-assign_self (key interface id) mode modes)

  -- Motors before `id` are as before.
  enable_modes_before :
      (modes : List (MotorKey × ℕ)) (n id j : ℕ)
      → j < id
      → find (key interface j) (enable_arrays interface ids mode modes n id).modes
        ≡ find (key interface j) modes
  unfolding enable_arrays
  enable_modes_before modes zero id j h = refl
  enable_modes_before modes (suc n) id j h =
      enable_modes_before (if contains ids id then assign (key interface id) mode modes else modes)
        n (id + 1) j (omega arith)
      ∙ assigned_other modes id j (omega arith)

  enable_arrays_lem :
      (modes : List (MotorKey × ℕ)) (n id k : ℕ)
      → k < n
      → let a = enable_arrays interface ids mode modes n id in
        (get_or a.flags k 0 ≡ (if contains ids (id + k) then 1 else 0))
        × (get_or a.mode_array k 0 ≡ wanted_mode modes (id + k))
        × (find (key interface (id + k)) a.modes
            ≡ (if contains ids (id + k) then some mode else find (key interface (id + k)) modes))
  unfolding enable_arrays
  enable_arrays_lem modes zero id k h = absurd (omega arith)
  enable_arrays_lem modes (suc n) id zero h =
      let e : id + zero ≡ id = omega arith in
      rw e (
        refl,
        refl,
        enable_modes_before
              (if contains ids id then assign (key interface id) mode modes else modes) n (id + 1)
              id (omega arith)
            ∙ assigned_self modes id,
      )
  enable_arrays_lem modes (suc n) id (suc k) h =
      let e : id + suc k ≡ id + 1 + k = omega arith in
      let modes' = if contains ids id then assign (key interface id) mode modes else modes in
      let ih = enable_arrays_lem modes' n (id + 1) k (omega arith) in
      let o = assigned_other modes id (id + 1 + k) (omega arith) in
      rw e (
        ih.0,
        ih.1
            ∙ ap
                (λ r.
                  if contains ids (id + 1 + k) then mode else elim r [ none ↦ 0x04 | some m ↦ m ])
                o,
        ih.2 ∙ ap (λ r. if contains ids (id + 1 + k) then some mode else r) o,
      )

-- What the driver hands to the bus, and remembers, for motor `id` of `enable_all_motors`.
enable_arrays_bytes :
    (d : List ℕ) (interface : String) (ids : List ℕ) (mode : ℕ) (modes : List (MotorKey × ℕ))
    (k : ℕ)
    → length d ≡ max_bus_data_size
    → k < 6
    → wanted_mode interface ids mode modes (1 + k) < 16
    → let a = enable_arrays interface ids mode modes 6 1 in
      let bytes = (pack_enable_all_command d a.flags a.mode_array).bytes in
      (get_or bytes (2 + k) 0 / 16 ≡ (if contains ids (1 + k) then 1 else 0))
      × (get_or bytes (2 + k) 0 % 16 ≡ wanted_mode interface ids mode modes (1 + k))
enable_arrays_bytes d interface ids mode modes k h hk hm =
    let a = enable_arrays interface ids mode modes 6 1 in
    let l = enable_arrays_lem interface ids mode modes 6 1 k hk in
    let flag : get_or a.flags k 0 < 16 = ground (arith, l.0) in
    let mode_fits : get_or a.mode_array k 0 < 16 = omega (arith, l.1) in
    let p = pack_enable_all_command_flags d a.flags a.mode_array k h flag mode_fits hk in
    (p.1 ∙ l.0, p.2 ∙ l.1)

-- The packet of a call of `enable_all_motors`.
abbrev pub enable_all_packet : List ℕ → String → List ℕ → ℕ → List (MotorKey × ℕ) → GenericBusPacket
enable_all_packet raw interface ids mode modes =
    let a = enable_arrays interface ids mode modes 6 1 in
    fill (new_packet raw interface 0x00) (pack_enable_all_command raw a.flags a.mode_array)

-- `enable_all_motors` with modes of four bits: the byte of each of the six motors is flagged with 1
-- just when the motor is listed, and names the new mode for a listed motor and the remembered one
-- for another; the new mode is remembered for the listed motors only, whatever becomes of the
-- packet; and a packet that is new to the filter joins the queue, where it has room, at high
-- priority.
pub enable_all_motors_lem :
    (f : FloatOps) (raw : List ℕ) (now : ℕ) (interface : String) (ids : List ℕ) (mode : ℕ)
    (s : MotorDriver) (k : ℕ)
    → length raw ≡ max_bus_data_size
    → k < 6
    → wanted_mode interface ids mode s.motor_modes (1 + k) < 16
    → let p = enable_all_packet raw interface ids mode s.motor_modes in
      let (s', a) = enable_all_motors f raw now interface ids mode s in
      (get_or p.payload (2 + k) 0 / 16 ≡ (if contains ids (1 + k) then 1 else 0))
      × (get_or p.payload (2 + k) 0 % 16 ≡ wanted_mode interface ids mode s.motor_modes (1 + k))
      × (find (key interface (1 + k)) s'.motor_modes ≡ (
          if contains ids (1 + k) then some mode else find (key interface (1 + k)) s.motor_modes))
      × (¬ Seen s p
          → length s.control_queue < max_queue_size
          → s'.control_queue
            ≡ s.control_queue
              ++ record { packet = p; priority = CommandPriority.high; timestamp = now } ∷ [])
unfolding enable_all_motors
enable_all_motors_lem f raw now interface ids mode s k h hk hm =
    let p = enable_all_packet raw interface ids mode s.motor_modes in
    let a = enable_arrays interface ids mode s.motor_modes 6 1 in
    let s1 = record s { motor_modes = a.modes } in
    let b = enable_arrays_bytes raw interface ids mode s.motor_modes k h hk hm in
    (
      b.0,
      b.1,
      ap (find (key interface (1 + k)))
            (send_control_command-motor_modes p CommandPriority.high now s1)
          ∙ (enable_arrays_lem interface ids mode s.motor_modes 6 1 k hk).2,
      λ new room. (((send_control_command_cases p CommandPriority.high now s1).1 new).1 room).1,
    )
