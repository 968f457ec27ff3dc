-- ===== src/RobotHardware/Batches.antt =====
-- src/interface/robot_hardware.cpp: when a batch of statuses is reported, and what is in it.
use hardware_driver.Base.{
  ℕ, ◌≡◌, ◌≢◌, refl, String, List, [], ◌∷◌, true, false, none, some, arith, find, assign,
  find-assign, find-assign_self, nat_eq, string_eq, All, Bool-cases, Option-cases, inl, inr,
}
use hardware_driver.MotorProtocol.{MotorStatus}
use hardware_driver.RobotHardware.{
  RobotHardware, Report, batch_report, cache_of, all_received, aggregate,
}

-- Every expected motor has reported.
abbrev pub IsComplete : List ℕ → List (ℕ × MotorStatus) → Type 0
IsComplete expected cache = All (λ m. find m cache ≢ none) expected

all_received_iff :
    (ms : List ℕ) (cache : List (ℕ × MotorStatus))
    → (all_received ms cache ≡ true → IsComplete ms cache)
      × (all_received ms cache ≡ false → ¬ IsComplete ms cache)
unfolding all_received
all_received_iff [] cache = (λ _. tt, λ e. ground (arith, e))
all_received_iff (m ∷ ms) cache = elim (Option-cases (find m cache)) [
  | inl e ↦ (λ r. ground (arith, rw (e, all_received) at r), λ _ c. c.0 e)
  | inr (st, e) ↦
      let ih = all_received_iff ms cache in
      (
        λ r. (λ no. ground (arith, e, no), ih.0 (rw (e, all_received) at r)),
        λ r c. ih.1 (rw (e, all_received) at r) c.1,
      )
]

abbrev pub stored : String → List (ℕ × MotorStatus) → RobotHardware → RobotHardware
stored interface cache r = record r { status_cache = assign interface cache r.status_cache }

cache_of-stored :
    (interface : String) (cache : List (ℕ × MotorStatus)) (r : RobotHardware)
    → (cache_of interface (stored interface cache r) ≡ cache)
      × ((other : String)
          → other ≢ interface
          → cache_of other (stored interface cache r) ≡ cache_of other r)
cache_of-stored interface cache r = (
  rw (cache_of, find-assign_self interface cache r.status_cache),
  λ other ne.
      let same : find other (assign interface cache r.status_cache) ≡ find other r.status_cache =
        ground (
          arith,
          find-assign interface other cache r.status_cache,
          string_eq.is_equal_iff interface other,
        ) in
      rw (cache_of, same),
)

-- The three ways that a status can go.
pub aggregate_cases {ℓ} :
    (P : RobotHardware × List Report → Type ℓ) (interface : String) (motor_id : ℕ)
    (status : MotorStatus) (r : RobotHardware)
    → let cache = assign motor_id status (cache_of interface r) in
      P (stored interface cache r, [])
      → P (stored interface [] r, batch_report interface cache ∷ [])
      → P (aggregate interface motor_id status r)
unfolding aggregate
aggregate_cases P interface motor_id status r kept full =
    elim (Option-cases (find interface r.interface_motor_config)) [
      | inl e ↦ rw (e, aggregate) kept
      | inr (expected, e) ↦
          elim (Bool-cases
            (all_received expected (assign motor_id status (cache_of interface r)))) [
              | inl t ↦ rw (e, aggregate, t) full
              | inr t ↦ rw (e, aggregate, t) kept
            ]
    ]

-- With a batch callback, a status is stored over the motor's last one. Where that completes the
-- interface's configured motors, one batch with all that is stored, the new status in it, is
-- reported and the interface's store is emptied; where a motor is missing or the interface is not
-- configured, nothing is reported and the store keeps the status. Other interfaces' stores stay.
pub aggregate_lem :
    (interface : String) (motor_id : ℕ) (status : MotorStatus) (r : RobotHardware)
    → let cache = assign motor_id status (cache_of interface r) in
      let (r', reports) = aggregate interface motor_id status r in
      (find motor_id cache ≡ some status)
      × ((expected : List ℕ)
          → find interface r.interface_motor_config ≡ some expected
          → (IsComplete expected cache
              → (reports ≡ batch_report interface cache ∷ []) × (cache_of interface r' ≡ []))
            × (¬ IsComplete expected cache → (reports ≡ []) × (cache_of interface r' ≡ cache)))
      × (find interface r.interface_motor_config ≡ none
          → (reports ≡ []) × (cache_of interface r' ≡ cache))
      × ((other : String) → other ≢ interface → cache_of other r' ≡ cache_of other r)
unfolding aggregate
aggregate_lem interface motor_id status r =
    let cache = assign motor_id status (cache_of interface r) in
    (
      find-assign_self motor_id status (cache_of interface r),
      λ expected e.
          let all = all_received_iff expected cache in
          elim (Bool-cases (all_received expected cache)) [
            | inl t ↦ (
              λ _. rw (e, aggregate, t) (refl, (cache_of-stored interface [] r).0),
              λ no. absurd (no (all.0 t)),
            )
            | inr t ↦ (
              λ complete. absurd (all.1 t complete),
              λ _. rw (e, aggregate, t) (refl, (cache_of-stored interface cache r).0),
            )
          ],
      λ e. rw (e, aggregate) (refl, (cache_of-stored interface cache r).0),
      λ other ne.
          aggregate_cases (λ out. cache_of other out.0 ≡ cache_of other r) interface motor_id status
            r ((cache_of-stored interface cache r).1 other ne)
            ((cache_of-stored interface [] r).1 other ne),
    )
