-- ===== src/RobotHardware/Executions/Completion.antt =====
-- src/interface/robot_hardware.cpp: when `wait_for_completion` returns, and which executions are
-- forgotten.
use hardware_driver.Base.{
  ℕ, ◌≡◌, ◌≢◌, ◌≤◌, ◌<◌, refl, String, List, [], ◌∷◌, ◌++◌, Bool, true, false, none, some, arith,
  All, find, erase, find-erase, string_eq, if◌then◌else◌, ◌||◌, inl, inr, Option-cases, Bool-cases,
}
use hardware_driver.RobotHardware.Trajectory.{Task, is_over}
use hardware_driver.RobotHardware.Executions.{
  Executions, Look, wait, wait_for_completion, to_remove, erase_all,
  cleanup_completed_trajectory_tasks,
}

-- A look at which the wait goes on.
abbrev pub GoesOn : ℕ → Look → Type 0
GoesOn timeout_ms l = (is_over l.state ≡ false) × (0 < timeout_ms → l.elapsed < timeout_ms)

wait-append :
    (timeout_ms : ℕ) (early late : List Look)
    → All (GoesOn timeout_ms) early
    → wait timeout_ms (early ++ late) ≡ wait timeout_ms late
unfolding wait
wait-append timeout_ms [] late h = refl
wait-append timeout_ms (l ∷ ls) late h =
    ground (arith, h.0.0, h.0.1, wait-append timeout_ms ls late h.1)

wait_on :
    (timeout_ms : ℕ) (early : List Look)
    → All (GoesOn timeout_ms) early
    → wait timeout_ms early ≡ none
unfolding wait
wait_on timeout_ms [] h = refl
wait_on timeout_ms (l ∷ ls) h = ground (arith, h.0.0, h.0.1, wait_on timeout_ms ls h.1)

-- A wait for an execution that is known ends with the first look that finds it over, whatever its
-- end was: the call returns true, and just this execution is forgotten. With a timeout it else ends
-- with the first look at or past it, returns false and forgets nothing; without one it goes on.
wait_for_completion_lem :
    (id : String) (timeout_ms : ℕ) (early : List Look) (l : Look) (rest : List Look)
    (m m' : Executions) {t : Task}
    → find id m ≡ some t
    → All (GoesOn timeout_ms) early
    → (wait_for_completion id timeout_ms early m m' ≡ none)
      × (is_over l.state ≡ true
          → (wait_for_completion id timeout_ms (early ++ l ∷ rest) m m' ≡ some (erase id m', true))
            × (find id (erase id m') ≡ none)
            × ((other : String) → other ≢ id → find other (erase id m') ≡ find other m'))
      × (is_over l.state ≡ false
          → 0 < timeout_ms
          → timeout_ms ≤ l.elapsed
          → wait_for_completion id timeout_ms (early ++ l ∷ rest) m m' ≡ some (m', false))
unfolding wait_for_completion
wait_for_completion_lem id timeout_ms early l rest m m' known on = (
  ground (arith, known, wait_on timeout_ms early on),
  λ over. (
    ground (arith, known, wait-append timeout_ms early (l ∷ rest) on),
    ground (arith, find-erase id id m', string_eq.is_equal_iff id id),
    λ other ne. ground (arith, find-erase id other m', string_eq.is_equal_iff id other),
  ),
  λ not_over timed late. ground (arith, known, wait-append timeout_ms early (l ∷ rest) on),
)

-- Forgetting what is over ------------------------------------------------------------------------

-- Each id stands once in the table, as in a `std::map`.
abbrev pub IsMap : Executions → Type 0
IsMap [] = Unit
IsMap ((id, t) ∷ m) = (find id m ≡ none) × IsMap m

listed : String → List String → Bool
listed id [] = false
listed id (j ∷ js) = string_eq.is_equal j id || listed id js

find-erase_all :
    (id : String) (ids : List String) (m : Executions)
    → find id (erase_all ids m) ≡ (if listed id ids then none else find id m)
unfolding erase_all listed
find-erase_all id [] m = refl
find-erase_all id (j ∷ js) m = ground (arith, find-erase_all id js (erase j m), find-erase j id m)

listed_unknown : (id : String) (m : Executions) → find id m ≡ none → listed id (to_remove m) ≡ false
unfolding find listed to_remove
listed_unknown id [] h = refl
listed_unknown id ((j, t) ∷ m) h = ground (arith, h, listed_unknown id m)

listed_known :
    (id : String) (m : Executions) (t : Task)
    → IsMap m
    → find id m ≡ some t
    → listed id (to_remove m) ≡ is_over t.state
unfolding find listed to_remove
listed_known id [] t i h = cc
listed_known id ((j, u) ∷ m) t i h = elim (Bool-cases (string_eq.is_equal j id)) [
  | inl same ↦
      let alone = rw ((string_eq.is_equal_iff j id).0 same) at i.0 in
      let here : u ≡ t = ground (arith, h, same) in
      ground (arith, same, here, listed_unknown id m alone)
  | inr differs ↦
      let there : find id m ≡ some t = ground (arith, h, differs) in
      ground (arith, differs, listed_known id m t i.1 there)
]

-- The clean-up forgets just the executions that are completed, cancelled or ended by an error.
cleanup_completed_trajectory_tasks_lem :
    (id : String) (m : Executions)
    → IsMap m
    → find id (cleanup_completed_trajectory_tasks m)
      ≡ elim (find id m) [ none ↦ none | some t ↦ if is_over t.state then none else some t ]
unfolding cleanup_completed_trajectory_tasks
cleanup_completed_trajectory_tasks_lem id m i = elim (Option-cases (find id m)) [
  | inl missing ↦ ground (arith, missing, find-erase_all id (to_remove m) m)
  | inr (t, found) ↦
      ground (arith, found, find-erase_all id (to_remove m) m, listed_known id m t i found)
]
