-- ===== src/RobotHardware/Executions/Table.antt =====
-- src/interface/robot_hardware.cpp: the ids of the executions, and the table that they key.
use Prim.Native.Char.{Char}
use Prim.Native.String.{◌++◌}
use text.Mathlib.TextLemmas.{nil-append, cons-append, append_assoc, append_cancel_left}
use hardware_driver.Base.{
  ℕ, ◌+◌, ◌%◌, ◌^◌, ◌≡◌, ◌<◌, refl, sym, ap, ◌∙◌, String, List, [], ◌∷◌, Bool, none, some, inl, inr,
  arith, to_string, to_string_inj, to_string-IsNumeral, first_part, find, assign, erase,
  find-assign, find-erase, string_eq, Bool-cases, Option-cases,
}
use hardware_driver.RobotHardware.Trajectory.{Task, TrajectoryPoint}
use hardware_driver.RobotHardware.Trajectory
use hardware_driver.RobotHardware.Executions.{
  Executions, generate_execution_id, with_task, for_all, pause_trajectory, resume_trajectory,
  cancel_trajectory, pause_all_trajectories, resume_all_trajectories, cancel_all_trajectories,
  to_remove, erase_all, cleanup_completed_trajectory_tasks,
}
use hardware_driver.RobotHardware.Executions.Together.{find-for_all}

abbrev mark : Char
mark = "_"

id_parts :
    (counter now : ℕ)
    → generate_execution_id counter now
      ≡ "exec_" ++ (to_string (counter % 2 ^ 64) ++ (String.◌∷◌ mark (to_string now)))
id_parts counter now =
    let number = to_string (counter % 2 ^ 64) in
    append_assoc ("exec_" ++ number) "_" (to_string now)
    ∙ ap (λ t. ("exec_" ++ number) ++ t)
        (cons-append mark "" (to_string now) ∙ ap (String.◌∷◌ mark) (nil-append (to_string now)))
    ∙ append_assoc "exec_" number (String.◌∷◌ mark (to_string now))

-- Executions with different numbers have different ids, whenever they are launched.
generate_execution_id_inj :
    (j k t u : ℕ) → generate_execution_id j t ≡ generate_execution_id k u → j % 2 ^ 64 ≡ k % 2 ^ 64
generate_execution_id_inj j k t u h =
    let j' = j % 2 ^ 64 in
    let k' = k % 2 ^ 64 in
    to_string_inj j' k' (
      first_part mark (to_string t) (to_string u) (to_string j') (to_string k') (inr (omega arith))
        (to_string-IsNumeral j') (to_string-IsNumeral k')
        (append_cancel_left "exec_" _ _ (sym (id_parts j t) ∙ h ∙ id_parts k u)))

-- An id that was given to an execution with a number below the counter.
abbrev pub IsGiven : ℕ → String → Type 0
IsGiven counter id = (k : ℕ) × (now : ℕ) × (k < counter) × (id ≡ generate_execution_id k now)

-- A table while the process has given so many ids: each id was given, and stands once.
abbrev pub IsTable : ℕ → Executions → Type 0
IsTable counter [] = Unit
IsTable counter ((id, t) ∷ m) = IsGiven counter id × (find id m ≡ none) × IsTable counter m

assign-IsTable :
    (counter : ℕ) (id : String) (t : Task) (m : Executions)
    → IsGiven counter id
    → IsTable counter m
    → IsTable counter (assign id t m)
unfolding assign find
assign-IsTable counter id t [] g i = (g, refl, tt)
assign-IsTable counter id t ((j, u) ∷ m) g i = elim (Bool-cases (string_eq.is_equal j id)) [
  | inl same ↦ rw same (g, rw ((string_eq.is_equal_iff j id).0 same) at i.1, i.2)
  | inr differs ↦ rw differs (
    i.0,
    ground (
      arith,
      find-assign id j t m,
      string_eq.is_equal_iff id j,
      string_eq.is_equal_iff j id,
      i.1,
      differs,
    ),
    assign-IsTable counter id t m g i.2,
  )
]

erase-IsTable :
    (counter : ℕ) (id : String) (m : Executions) → IsTable counter m → IsTable counter (erase id m)
unfolding erase
erase-IsTable counter id [] i = tt
erase-IsTable counter id ((j, u) ∷ m) i = elim (Bool-cases (string_eq.is_equal j id)) [
  | inl same ↦ rw same (erase-IsTable counter id m i.2)
  | inr differs ↦
      rw differs (i.0, ground (arith, find-erase id j m, i.1), erase-IsTable counter id m i.2)
]

erase_all-IsTable :
    (counter : ℕ) (ids : List String) (m : Executions)
    → IsTable counter m
    → IsTable counter (erase_all ids m)
unfolding erase_all
erase_all-IsTable counter [] m i = i
erase_all-IsTable counter (id ∷ ids) m i =
    erase_all-IsTable counter ids (erase id m) (erase-IsTable counter id m i)

pub for_all-IsTable :
    (counter : ℕ) (call : String → Task → Task) (m : Executions)
    → IsTable counter m
    → IsTable counter (for_all call m)
unfolding for_all
for_all-IsTable counter call [] i = tt
for_all-IsTable counter call ((id, t) ∷ m) i =
    (i.0, ground (arith, find-for_all call id m, i.1), for_all-IsTable counter call m i.2)

-- Who is in the table was given its id.
find-IsGiven :
    (counter : ℕ) (id : String) (m : Executions) (t : Task)
    → IsTable counter m
    → find id m ≡ some t
    → IsGiven counter id
unfolding find
find-IsGiven counter id [] t i h = cc
find-IsGiven counter id ((j, u) ∷ m) t i h = elim (Bool-cases (string_eq.is_equal j id)) [
  | inl same ↦ rw ((string_eq.is_equal_iff j id).0 same) at i.0
  | inr differs ↦ find-IsGiven counter id m t i.2 (rw differs at h)
]

with_task-IsTable :
    (counter : ℕ) (call : Task → Task × Bool) (id : String) (m : Executions)
    → IsTable counter m
    → IsTable counter (with_task call id m).0
with_task-IsTable counter call id m i = elim (Option-cases (find id m)) [
  | inl missing ↦ rw (missing, with_task) i
  | inr (t, found) ↦
      rw (found, with_task)
        (assign-IsTable counter id (call t).0 m (find-IsGiven counter id m t i found) i)
]

pub IsTable-suc : (counter : ℕ) (m : Executions) → IsTable counter m → IsTable (counter + 1) m
IsTable-suc counter [] i = tt
IsTable-suc counter ((id, t) ∷ m) ((k, now, lt, named), alone, rest) =
    ((k, now, omega arith, named), alone, IsTable-suc counter m rest)

-- A new id is in no table.
pub find-generate_execution_id :
    (counter now : ℕ) (m : Executions)
    → counter < 2 ^ 64
    → IsTable counter m
    → find (generate_execution_id counter now) m ≡ none
find-generate_execution_id counter now m small i =
    elim (Option-cases (find (generate_execution_id counter now) m)) [
      | inl missing ↦ missing
      | inr (t, found) ↦
          let (k, then, lt, named) = find-IsGiven counter _ m t i found in
          absurd (omega (arith, generate_execution_id_inj counter k now then named))
    ]

-- A launch.
pub assign-IsTable_new :
    (counter now : ℕ) (t : Task) (m : Executions)
    → IsTable counter m
    → IsTable (counter + 1) (assign (generate_execution_id counter now) t m)
assign-IsTable_new counter now t m i =
    assign-IsTable (counter + 1) (generate_execution_id counter now) t m
      (counter, now, omega arith, refl) (IsTable-suc counter m i)

-- The calls by id and for all, the clean-up and the erasure at the end of a wait keep the table:
-- each id was given once, and stands in it once.
pub calls-IsTable :
    (counter : ℕ) (id : String) (now : ℕ) (clock : String → ℕ) (m : Executions)
    → IsTable counter m
    → IsTable counter (pause_trajectory id m).0
      × IsTable counter (resume_trajectory now id m).0
      × IsTable counter (cancel_trajectory id m).0
      × IsTable counter (pause_all_trajectories m)
      × IsTable counter (resume_all_trajectories clock m)
      × IsTable counter (cancel_all_trajectories m)
      × IsTable counter (cleanup_completed_trajectory_tasks m)
      × IsTable counter (erase id m)
unfolding pause_trajectory resume_trajectory cancel_trajectory pause_all_trajectories
    resume_all_trajectories cancel_all_trajectories cleanup_completed_trajectory_tasks
calls-IsTable counter id now clock m i = (
  with_task-IsTable counter Trajectory.pause_trajectory id m i,
  with_task-IsTable counter (Trajectory.resume_trajectory now) id m i,
  with_task-IsTable counter Trajectory.cancel_trajectory id m i,
  for_all-IsTable counter (λ _ t. (Trajectory.pause_trajectory t).0) m i,
  for_all-IsTable counter (λ j t. (Trajectory.resume_trajectory (clock j) t).0) m i,
  for_all-IsTable counter (λ _ t. (Trajectory.cancel_trajectory t).0) m i,
  erase_all-IsTable counter (to_remove m) m i,
  erase-IsTable counter id m i,
)
