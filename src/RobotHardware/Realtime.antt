-- ===== src/RobotHardware/Realtime.antt =====
-- src/interface/robot_hardware.cpp: the real-time commands, and the signal of a finished replay.
use hardware_driver.Base.{
  ℕ, zero, suc, ◌≤◌, ◌<◌, ◌≡◌, ◌≢◌, refl, ap, ◌∙◌, String, List, [], ◌∷◌, true, none, some,
  Option-cases, Bool-cases, inl, inr, arith, length, leb, map, take, store, replicate, get_or, find,
  string_eq, All, get_or-store_at,
}
use hardware_driver.Float32.{FloatOps}
use hardware_driver.MotorProtocol.Pack.{Batch}
use hardware_driver.MotorDriver.{MotorDriver, CommandPriority, Admission, key_of}
use hardware_driver.MotorDriver.Filter.{Call, send_all_commands, repeated_command_skipped}
use hardware_driver.MotorDriver.Commands.{
  send_position_cmd_all, send_velocity_cmd_all, send_effort_cmd_all, send_mit_cmd_all,
}
use hardware_driver.RobotHardware.{
  RobotHardware, to_floats, with_motors, send_realtime_velocity_command,
  send_realtime_position_command, send_realtime_effort_command, send_realtime_mit_command,
  replay_complete_packet, send_button_replay_complete,
}

-- An interface that is configured with at most six motors.
abbrev pub IsUsable : String → ℕ → RobotHardware → Type 0
IsUsable interface n r =
    (motor_ids : List ℕ) × (find interface r.interface_motor_config ≡ some motor_ids)
    × (length motor_ids ≡ n)
    × (n ≤ 6)

with_motors_lem :
    (interface : String) (r : RobotHardware) (send : ℕ → MotorDriver × Admission)
    → ((n : ℕ) → IsUsable interface n r → with_motors interface r send ≡ some (send n))
      × (((n : ℕ) → ¬ IsUsable interface n r) → with_motors interface r send ≡ none)
with_motors_lem interface r send = (
  λ n (motor_ids, e, count, small).
      let le : leb (length motor_ids) 6 ≡ true = ground arith in rw (with_motors, e, le, count),
  λ unusable. elim (Option-cases (find interface r.interface_motor_config)) [
    | inl e ↦ rw (with_motors, e)
    | inr (motor_ids, e) ↦ elim (Bool-cases (leb (length motor_ids) 6)) [
      | inl le ↦ absurd (unusable (length motor_ids) (motor_ids, e, refl, ground (arith, le)))
      | inr gt ↦ rw (with_motors, e, gt)
    ]
  ],
)

length-map-take : (f : ℕ → ℕ) (n : ℕ) (xs : List ℕ) → n ≤ length xs → length (map f (take n xs)) ≡ n
length-map-take f zero xs h = refl
length-map-take f (suc n) [] h = absurd (omega arith)
length-map-take f (suc n) (x ∷ xs) h = ap suc (length-map-take f n xs (omega arith))

get_or-map-take :
    (f : ℕ → ℕ) (n : ℕ) (xs : List ℕ) (i : ℕ)
    → n ≤ length xs
    → i < n
    → get_or (map f (take n xs)) i 0 ≡ f (get_or xs i 0)
get_or-map-take f zero xs i h lt = absurd (omega arith)
get_or-map-take f (suc n) [] i h lt = absurd (omega arith)
get_or-map-take f (suc n) (x ∷ xs) zero h lt = refl
get_or-map-take f (suc n) (x ∷ xs) (suc i) h lt =
    get_or-map-take f n xs i (omega arith) (omega arith)

-- The places after a write.
get_or-store_ge : (d bs : List ℕ) (i : ℕ) → length bs ≤ i → get_or (store d 0 bs) i 0 ≡ get_or d i 0
get_or-store_ge [] bs i h = refl
get_or-store_ge (x ∷ d) [] i h = refl
get_or-store_ge (x ∷ d) (b ∷ bs) zero h = absurd (omega arith)
get_or-store_ge (x ∷ d) (b ∷ bs) (suc i) h = get_or-store_ge d bs i (omega arith)

get_or-zeros : (n i : ℕ) → get_or {A = ℕ} (replicate n 0) i 0 ≡ 0
get_or-zeros zero i = refl
get_or-zeros (suc n) zero = refl
get_or-zeros (suc n) (suc i) = get_or-zeros n i

-- The first `n` values of six are converted, and the rest are 0.
abbrev pub IsConverted : FloatOps → ℕ → List ℕ → List ℕ → Type 0
IsConverted f n xs ys =
    (i : ℕ) → (i < n → get_or ys i 0 ≡ f.of_double (get_or xs i 0)) × (n ≤ i → get_or ys i 0 ≡ 0)

to_floats-IsConverted :
    (f : FloatOps) (n : ℕ) (xs : List ℕ)
    → n ≤ 6
    → n ≤ length xs
    → IsConverted f n xs (to_floats f n xs)
unfolding to_floats
to_floats-IsConverted f n xs six h i =
    let count = length-map-take f.of_double n xs h in
    (
      λ lt.
          get_or-store_at (replicate 6 0) 0 (map f.of_double (take n xs)) i i 0 (omega arith)
            (omega arith) (omega (arith, count))
          ∙ get_or-map-take f.of_double n xs i h lt,
      λ ge.
          get_or-store_ge (replicate 6 0) (map f.of_double (take n xs)) i (omega (arith, count))
          ∙ get_or-zeros 6 i,
    )

-- The real-time commands for an interface with at most six motors hand the driver the batch command
-- of their kind, with the values of its motors as floats and 0 for the places without a motor; for
-- an interface that is not configured, or has more motors, they hand over nothing.
realtime_commands_lem :
    (f : FloatOps) (raw : List ℕ) (now : ℕ) (interface : String) (b : Batch) (r : RobotHardware)
    (s : MotorDriver)
    → let v = send_realtime_velocity_command f raw now interface b r s in
      let p = send_realtime_position_command f raw now interface b r s in
      let e = send_realtime_effort_command f raw now interface b r s in
      let m = send_realtime_mit_command f raw now interface b r s in
      ((n : ℕ)
        → IsUsable interface n r
        → let floats = to_floats f n in
          (v
            ≡ some (
                send_velocity_cmd_all f raw now interface
                  (floats b.velocities)
                  (floats b.kps)
                  (floats b.kds)
                  s))
          × (p
              ≡ some (
                  send_position_cmd_all f raw now interface
                    (floats b.positions)
                    (floats b.kps)
                    (floats b.kds)
                    s))
          × (e
              ≡ some (
                  send_effort_cmd_all f raw now interface
                    (floats b.efforts)
                    (floats b.kps)
                    (floats b.kds)
                    s))
          × (m
              ≡ some (
                  send_mit_cmd_all f raw now interface
                    (record {
                      positions = floats b.positions;
                      velocities = floats b.velocities;
                      efforts = floats b.efforts;
                      kps = floats b.kps;
                      kds = floats b.kds;
                    })
                    s))
          × ((xs : List ℕ) → length xs ≡ 6 → IsConverted f n xs (floats xs)))
      × (((n : ℕ) → ¬ IsUsable interface n r) → (v ≡ none) × (p ≡ none) × (e ≡ none) × (m ≡ none))
unfolding send_realtime_velocity_command send_realtime_position_command send_realtime_effort_command
    send_realtime_mit_command
realtime_commands_lem f raw now interface b r s =
    let Send = ℕ → MotorDriver × Admission in
    let v : Send = λ n.
      send_velocity_cmd_all f raw now interface (to_floats f n b.velocities) (to_floats f n b.kps)
        (to_floats f n b.kds) s in
    let p : Send = λ n.
      send_position_cmd_all f raw now interface (to_floats f n b.positions) (to_floats f n b.kps)
        (to_floats f n b.kds) s in
    let e : Send = λ n.
      send_effort_cmd_all f raw now interface (to_floats f n b.efforts) (to_floats f n b.kps)
        (to_floats f n b.kds) s in
    let m : Send = λ n.
      send_mit_cmd_all f raw now interface
        (record {
          positions = to_floats f n b.positions;
          velocities = to_floats f n b.velocities;
          efforts = to_floats f n b.efforts;
          kps = to_floats f n b.kps;
          kds = to_floats f n b.kds;
        })
        s in
    (
      λ n usable. (
        (with_motors_lem interface r v).0 n usable,
        (with_motors_lem interface r p).0 n usable,
        (with_motors_lem interface r e).0 n usable,
        (with_motors_lem interface r m).0 n usable,
        λ xs six. to_floats-IsConverted f n xs usable.3 (omega (arith, usable.3)),
      ),
      λ no. (
        (with_motors_lem interface r v).1 no,
        (with_motors_lem interface r p).1 no,
        (with_motors_lem interface r e).1 no,
        (with_motors_lem interface r m).1 no,
      ),
    )

-- The signal that a replay is over is sent once: a second one for the interface is skipped,
-- whatever was sent under other ids or interfaces in between.
pub replay_complete_skipped :
    (raw : List ℕ) (interface : String) (now later : ℕ) (cs : List Call) (s : MotorDriver)
    → All (λ c. key_of c.packet ≢ key_of (replay_complete_packet raw interface)) cs
    → let t = send_all_commands cs (send_button_replay_complete raw now interface s).0 in
      send_button_replay_complete raw later interface t ≡ (t, Admission.skipped)
unfolding send_button_replay_complete
replay_complete_skipped raw interface now later cs s h =
    repeated_command_skipped (replay_complete_packet raw interface) CommandPriority.low
      CommandPriority.low now later cs s h
