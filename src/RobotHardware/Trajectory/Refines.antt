-- ===== src/RobotHardware/Trajectory/Refines.antt =====
-- src/interface/robot_hardware.cpp: the two ways to run a trajectory, `execute_trajectory` and
-- `execute_trajectory_async`, compared.
use hardware_driver.Base.{
  ℕ, ◌≡◌, ◌≢◌, ◌↔◌, refl, ap, String, List, [], ◌∷◌, none, some, arith, length, take, map, find,
  string_eq,
}
use hardware_driver.Bus.{done}
use hardware_driver.Float32.{FloatOps}
use hardware_driver.RobotHardware.Trajectory.{
  TrajectoryPoint, running, completed, Task, Execution, Reach, launched, positions_of, send_points,
  execute_trajectory, execute_trajectory_async,
}
use hardware_driver.RobotHardware.Trajectory.Safety.{Reach-IsFaithful}

take_all {ℓ} : {A : Type ℓ} (xs : List A) → take (length xs) xs ≡ xs
take_all [] = refl
take_all (x ∷ xs) = ap (◌∷◌ x) (take_all xs)

send_points_frames :
    (f : FloatOps) (n : ℕ) (ps : List TrajectoryPoint) (xs : List (List ℕ))
    → map (positions_of f n) ps ≡ map done xs
    → send_points f n ps ≡ done xs
unfolding send_points
send_points_frames f n [] [] h = refl
send_points_frames f n [] (x ∷ xs) h = cc
send_points_frames f n (p ∷ ps) [] h = cc
send_points_frames f n (p ∷ ps) (x ∷ xs) h =
    let first : positions_of f n p ≡ done x = cc in
    let rest : map (positions_of f n) ps ≡ map done xs = cc in
    ground (arith, first, send_points_frames f n ps xs rest)

-- What `execute_trajectory_async` starts, for an interface that is configured.
launched_task :
    (config : List (String × List ℕ)) (interface : String) (points : List TrajectoryPoint)
    {motor_ids : List ℕ} {t : Task}
    → find interface config ≡ some motor_ids
    → execute_trajectory_async config interface points ≡ some t
    → (t.state ≡ running) × (t.current_point_index ≡ 0) × (t.points ≡ points) × (length points ≢ 0)
unfolding execute_trajectory_async
launched_task config interface points found begun = ground arith

-- Calls with the same trajectory are refused alike.
refused_alike :
    (f : FloatOps) (config : List (String × List ℕ)) (interface : String)
    (points : List TrajectoryPoint)
    → (execute_trajectory_async config interface points ≡ none)
      ↔ (execute_trajectory f config interface points ≡ none)
unfolding execute_trajectory execute_trajectory_async
refused_alike f config interface points = (λ h. ground (arith, h), λ h. ground (arith, h))

-- An asynchronous execution that is completed, however it was paused and resumed on the way, has
-- sent exactly what `execute_trajectory` sends for the same trajectory, in the same order; and
-- `execute_trajectory` refuses the trajectories that `execute_trajectory_async` refuses.
pub execute_trajectory-Refines :
    (f : FloatOps) (config : List (String × List ℕ)) (interface : String)
    (points : List TrajectoryPoint) (motor_ids : List ℕ) (t : Task) (e : Execution)
    → find interface config ≡ some motor_ids
    → execute_trajectory_async config interface points ≡ some t
    → Reach f motor_ids (launched t) e
    → e.task.state ≡ completed
    → (execute_trajectory f config interface points ≡ some (done e.sent))
      × ((other : List TrajectoryPoint) (where_to : String)
          → (execute_trajectory_async config where_to other ≡ none)
            ↔ (execute_trajectory f config where_to other ≡ none))
unfolding execute_trajectory
execute_trajectory-Refines f config interface points motor_ids t e found begun r over =
    let l = launched_task config interface points found begun in
    let i = Reach-IsFaithful f motor_ids t e l.0 l.1 r in
    let all : length e.sent ≡ length t.points = (i.all_when_completed over).0 in
    let frames = rw (all, take_all t.points, l.2) at i.frames in
    let sends = send_points_frames f (length motor_ids) points e.sent frames in
    let total = l.3 in
    (ground (arith, found, sends, total), λ other where_to. refused_alike f config where_to other)
