-- ===== src/RobotHardware/Trajectory/Cancel.antt =====
-- src/interface/robot_hardware.cpp: what becomes of an execution that is cancelled.
use hardware_driver.Base.{
  ℕ, ◌+◌, ◌≤◌, ◌≡◌, refl, ap, List, [], ◌∷◌, ◌++◌, All, true, false, arith, length, length-append,
}
use hardware_driver.Float32.{FloatOps}
use hardware_driver.RobotHardware.Trajectory.{
  paused, cancelled, Task, Place, starting, finished, checking, waiting, sending, counting,
  Execution, Step, begin, stop, hold, go, hold_on, go_on, send, count, fail, finish, look, enter,
  Reach, start, later, Call, pausing, resuming, cancelling, passes, entered, cancel_trajectory,
  is_active,
}

-- The points that can still be sent from a place after a cancellation.
abbrev pub allowance : Place → ℕ
allowance starting = 0
allowance finished = 0
allowance (checking k) = 0
allowance (waiting k) = 1
allowance (sending k) = 1
allowance (counting k) = 0

entered-should_stop :
    (now : ℕ) (c : Call) (t : Task) → t.should_stop ≡ true → (entered now c t).should_stop ≡ true
entered-should_stop now pausing t h = h
entered-should_stop now resuming t h = h
entered-should_stop now cancelling t h = refl

-- No call finds what it looks for in a task that is cancelled.
passes-cancelled : (c : Call) → passes c cancelled ≡ false
passes-cancelled pausing = refl
passes-cancelled resuming = refl
passes-cancelled cancelling = refl

All-without {ℓ κ} :
    {A : Type ℓ} (P : A → Type κ) (before : List A) (c : A) (after : List A)
    → All P (before ++ c ∷ after)
    → P c × All P (before ++ after)
All-without P [] c after h = h
All-without P (x ∷ before) c after (hx, h) =
    let (hc, rest) = All-without P before c after h in (hc, (hx, rest))

module _ (f : FloatOps) (motor_ids : List ℕ) where
  -- A task that is to stop, with so many points sent or still to be sent.
  abbrev pub IsStopping : ℕ → Execution → Type 0
  IsStopping n e = (e.task.should_stop ≡ true) × (length e.sent + allowance e.place ≤ n)

  Step-IsStopping :
      (n : ℕ) (d e : Execution) → Step f motor_ids d e → IsStopping n d → IsStopping n e
  Step-IsStopping n d e (begin now here) i = (i.0, omega (arith, ap allowance here, i.1))
  Step-IsStopping n d e (stop k here lt set) i = (i.0, omega (arith, ap allowance here, i.1))
  Step-IsStopping n d e (hold k now here lt unset set) i = ground (arith, i.0, unset)
  Step-IsStopping n d e (go k here lt unset unset') i = ground (arith, i.0, unset)
  Step-IsStopping n d e (hold_on k now here set) i = i
  Step-IsStopping n d e (go_on k here unset) i = (i.0, omega (arith, ap allowance here, i.1))
  Step-IsStopping n d e (send k p {rest} {positions} here found framed) i =
      (i.0, omega (arith, ap allowance here, i.1, length-append d.sent (positions ∷ [])))
  Step-IsStopping n d e (count k here) i = (i.0, omega (arith, ap allowance here, i.1))
  Step-IsStopping n d e (fail k what here) i = (i.0, omega (arith, ap allowance here, i.1))
  Step-IsStopping n d e (finish k here ge) i = (i.0, omega (arith, ap allowance here, i.1))
  Step-IsStopping n d e (look c found) i = i
  Step-IsStopping n d e (enter now c before after listed) i =
      (entered-should_stop now c d.task i.0, i.1)

  Reach-IsStopping :
      (n : ℕ) (d e : Execution) → Reach f motor_ids d e → IsStopping n d → IsStopping n e
  Reach-IsStopping n d e start i = i
  Reach-IsStopping n d e (later {g} r step) i =
      Step-IsStopping n g e step (Reach-IsStopping n d g r i)

  -- After a call that cancels an active execution, at most one more point is ever sent, and none
  -- where the worker stands before the check for a point.
  pub cancel_trajectory-bound :
      (d e : Execution)
      → is_active d.task.state ≡ true
      → Reach f motor_ids (record d { task = (cancel_trajectory d.task).0 }) e
      → length e.sent ≤ length d.sent + allowance d.place
  unfolding cancel_trajectory
  cancel_trajectory-bound d e active r =
      let set : (cancel_trajectory d.task).0.should_stop ≡ true = ground (arith, active) in
      let i =
        Reach-IsStopping (length d.sent + allowance d.place)
          (record d { task = (cancel_trajectory d.task).0 }) e r (set, omega arith) in
      omega (arith, i.1)

  -- The worker waits for a resumption, of a task that is cancelled, and the calls in progress are
  -- cancellations.
  pub record IsStuck (k : ℕ) (sent : List (List ℕ)) (e : Execution) : Type 0 where
    pub is_waiting : e.place ≡ waiting k
    pub is_paused : e.task.should_pause ≡ true
    pub is_cancelled : e.task.state ≡ cancelled
    pub same_sent : e.sent ≡ sent
    pub only_cancels : All (λ c. c ≡ cancelling) e.calls

  IsStuck-entered :
      (now k : ℕ) (sent : List (List ℕ)) (d : Execution) (c : Call) (before after : List Call)
      → c ≡ cancelling
      → All (λ c. c ≡ cancelling) (before ++ after)
      → IsStuck k sent d
      → IsStuck k sent (record d { task = entered now c d.task; calls = before ++ after })
  IsStuck-entered now k sent d c before after is_cancel rest i = rw is_cancel (record {
    is_waiting = i.is_waiting;
    is_paused = i.is_paused;
    is_cancelled = refl;
    same_sent = i.same_sent;
    only_cancels = rest;
  })

  Step-IsStuck :
      (k : ℕ) (sent : List (List ℕ)) (d e : Execution)
      → Step f motor_ids d e
      → IsStuck k sent d
      → IsStuck k sent e
  Step-IsStuck k s d e (begin now here) i = ground (arith, here, i.is_waiting)
  Step-IsStuck k s d e (stop j here lt set) i = ground (arith, here, i.is_waiting)
  Step-IsStuck k s d e (hold j now here lt unset set) i = ground (arith, here, i.is_waiting)
  Step-IsStuck k s d e (go j here lt unset unset') i = ground (arith, here, i.is_waiting)
  Step-IsStuck k s d e (hold_on j now here set) i = record {
    is_waiting = i.is_waiting;
    is_paused = i.is_paused;
    is_cancelled = i.is_cancelled;
    same_sent = i.same_sent;
    only_cancels = i.only_cancels;
  }
  Step-IsStuck k s d e (go_on j here unset) i = ground (arith, unset, i.is_paused)
  Step-IsStuck k s d e (send j p here found framed) i = ground (arith, here, i.is_waiting)
  Step-IsStuck k s d e (count j here) i = ground (arith, here, i.is_waiting)
  Step-IsStuck k s d e (fail j what here) i = ground (arith, here, i.is_waiting)
  Step-IsStuck k s d e (finish j here ge) i = ground (arith, here, i.is_waiting)
  Step-IsStuck k s d e (look c found) i =
      let no = passes-cancelled c in ground (arith, found, i.is_cancelled, no)
  Step-IsStuck k s d e (enter now c before after listed) i =
      let (is_cancel, rest) = All-without _ before c after (rw listed at i.only_cancels) in
      IsStuck-entered now k s d c before after is_cancel rest i

  Reach-IsStuck :
      (k : ℕ) (sent : List (List ℕ)) (d e : Execution)
      → Reach f motor_ids d e
      → IsStuck k sent d
      → IsStuck k sent e
  Reach-IsStuck k s d e start i = i
  Reach-IsStuck k s d e (later {g} r step) i = Step-IsStuck k s g e step (Reach-IsStuck k s d g r i)

  -- An execution that is cancelled while its worker waits for a resumption, and while no call to
  -- pause or resume it is between its look at the state and its lock, never gets out of that wait:
  -- whatever is called afterwards and however long the worker runs, it waits on, cancelled, and ends
  -- never, so that a call that waits for it to end and then joins its thread does not return.
  pub cancelled_while_paused-IsStuck :
      (k : ℕ) (d e : Execution)
      → d.place ≡ waiting k
      → d.task.should_pause ≡ true
      → d.task.state ≡ paused
      → All (λ c. c ≡ cancelling) d.calls
      → Reach f motor_ids (record d { task = (cancel_trajectory d.task).0 }) e
      → IsStuck k d.sent e
  unfolding cancel_trajectory
  cancelled_while_paused-IsStuck k d e here set is_paused cancels r =
      Reach-IsStuck k d.sent (record d { task = (cancel_trajectory d.task).0 }) e r
        (record {
          is_waiting = here;
          is_paused = ground (arith, is_paused, set);
          is_cancelled = ground (arith, is_paused);
          same_sent = refl;
          only_cancels = cancels;
        })
