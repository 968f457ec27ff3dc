-- ===== src/MotorDriver/Update/Waiting.antt =====
-- `wait_for_feedback` of src/driver/motor_driver_impl.cpp: when it returns, and what.
use hardware_driver.Base.{
  ℕ, ◌≤◌, ◌<◌, ◌≡◌, refl, List, [], ◌∷◌, ◌++◌, Bool, true, false, ◌||◌, ltb, arith, All, Bool-cases,
  inl, inr,
}
use hardware_driver.IapProtocol.{IapStatus}
use hardware_driver.MotorDriver.Update.{Poll, feedback, nothing, is_expected, wait_for_feedback}

-- Whether one of the polls sees the expected message.
unfoldable pub sees : ℕ → IapStatus → List Poll → Bool
sees motor_id expected [] = false
sees motor_id expected (o ∷ os) = is_expected motor_id expected o || sees motor_id expected os

-- A wait is over with the first poll past the timeout, whatever would follow: it returns the
-- expected message if that poll or one before sees it, and else nothing.
pub wait_for_feedback_lem :
    (motor_id : ℕ) (expected : IapStatus) (timeout_ms : ℕ) (early : List Poll) (late : Poll)
    (rest : List Poll)
    → All (λ o. o.elapsed ≤ timeout_ms) early
    → timeout_ms < late.elapsed
    → let r = wait_for_feedback motor_id expected timeout_ms (early ++ late ∷ rest) in
      (sees motor_id expected (early ++ late ∷ []) ≡ true
        → r ≡ feedback (record { status_msg = expected; motor_id = motor_id }))
      × (sees motor_id expected (early ++ late ∷ []) ≡ false → r ≡ nothing)
unfolding wait_for_feedback sees
wait_for_feedback_lem m x timeout [] late rest early past = (λ e. ground arith, λ e. ground arith)
wait_for_feedback_lem m x timeout (o ∷ os) late rest early past =
    let ih = wait_for_feedback_lem m x timeout os late rest early.1 past in
    elim (Bool-cases (is_expected m x o)) [
      | inl e ↦ rw e (λ _. refl, λ f. ground (arith, f))
      | inr e ↦
          let soon : ltb timeout o.elapsed ≡ false = ground (arith, early.0) in rw (e, soon) ih
    ]
