-- ===== src/RobotHardware/Reception/Rounds.antt =====
-- src/interface/robot_hardware.cpp: the robot's part, from the driver's calls to batches.
use mathlib.Core.List.{append_assoc, append-nil, Memᴰ}
use mathlib.Core.List.Memᴰ
use hardware_driver.Base.{
  ℕ, ◌≡◌, refl, sym, ap, subst, ◌∙◌, String, List, [], ◌∷◌, ◌++◌, true, false, none, some, arith,
  map, find, assign, nat_eq, string_eq, All,
}
use hardware_driver.MotorProtocol.{MotorStatus}
use hardware_driver.MotorDriver.Dispatch.{Effect, feedback_call}
use hardware_driver.RobotHardware.{
  RobotHardware, batch_report, cache_of, aggregate, handle_motor_status_with_aggregation,
}
use hardware_driver.RobotHardware.Batches.{IsComplete, aggregate_cases, aggregate_lem}
use hardware_driver.RobotHardware.Reception.{hear, hear_all}

-- A motor's status, by the motor's id.
abbrev pub Statuses : Type 0
Statuses = List (ℕ × MotorStatus)

-- No motor twice, and none that is in the store already.
abbrev pub AreNew : Statuses → Statuses → Type 0
AreNew c [] = Unit
AreNew c ((m, st) ∷ fs) = (find m c ≡ none) × AreNew (c ++ (m, st) ∷ []) fs

assign-append :
    (m : ℕ) (st : MotorStatus) (c : Statuses) → find m c ≡ none → assign m st c ≡ c ++ (m, st) ∷ []
unfolding find assign
assign-append m st [] h = refl
assign-append m st ((j, u) ∷ c) h = ground (arith, h, assign-append m st c)

-- The robot's part: the calls for these statuses, in turn.
abbrev pub calls : String → Statuses → List Effect
calls interface [] = []
calls interface ((m, st) ∷ fs) = feedback_call interface m st ∷ calls interface fs

-- A robot with a batch callback alone, for an interface with these motors, and its store.
pub record Gathers (interface : String) (expected : List ℕ) (c : Statuses) (r : RobotHardware)
    : Type 0 where
  pub single : r.status_callback ≡ false
  pub batch : r.batch_status_callback ≡ true
  pub config : find interface r.interface_motor_config ≡ some expected
  pub cache : cache_of interface r ≡ c

aggregate-interface_motor_config :
    (interface : String) (m : ℕ) (st : MotorStatus) (r : RobotHardware)
    → ((aggregate interface m st r).0.interface_motor_config ≡ r.interface_motor_config)
      × ((aggregate interface m st r).0.status_callback ≡ r.status_callback)
      × ((aggregate interface m st r).0.batch_status_callback ≡ r.batch_status_callback)
aggregate-interface_motor_config interface m st r =
    aggregate_cases
      (λ out.
        (out.0.interface_motor_config ≡ r.interface_motor_config)
        × (out.0.status_callback ≡ r.status_callback)
        × (out.0.batch_status_callback ≡ r.batch_status_callback))
      interface m st r (refl, refl, refl) (refl, refl, refl)

handle-aggregate :
    (interface : String) (m : ℕ) (st : MotorStatus) (r : RobotHardware)
    → r.status_callback ≡ false
    → r.batch_status_callback ≡ true
    → handle_motor_status_with_aggregation interface m st r ≡ aggregate interface m st r
unfolding handle_motor_status_with_aggregation
handle-aggregate interface m st r single batch =
    simp (single, batch, handle_motor_status_with_aggregation)

call_lem :
    (interface : String) (expected : List ℕ) (m : ℕ) (st : MotorStatus) (c : Statuses)
    (r : RobotHardware)
    → Gathers interface expected c r
    → find m c ≡ none
    → let c' = c ++ (m, st) ∷ [] in
      let (r', reports) = handle_motor_status_with_aggregation interface m st r in
      (IsComplete expected c'
        → (reports ≡ batch_report interface c' ∷ []) × Gathers interface expected [] r')
      × (¬ IsComplete expected c' → (reports ≡ []) × Gathers interface expected c' r')
call_lem interface expected m st c r g new =
    let a = aggregate_lem interface m st r in
    let kept = aggregate-interface_motor_config interface m st r in
    let e : assign m st (cache_of interface r) ≡ c ++ (m, st) ∷ [] =
      ap (assign m st) g.cache ∙ assign-append m st c new in
    let cases = rw e at a.1 expected g.config in
    let keeps : (k : Statuses)
        → cache_of interface (aggregate interface m st r).0 ≡ k
        → Gathers interface expected k (aggregate interface m st r).0 =
      λ k e. record {
        single = kept.1 ∙ g.single;
        batch = kept.2 ∙ g.batch;
        config = ap (find interface) kept.0 ∙ g.config;
        cache = e;
      } in
    rw (handle-aggregate interface m st r g.single g.batch) (
      λ complete. ((cases.0 complete).0, keeps [] (cases.0 complete).1),
      λ incomplete. ((cases.1 incomplete).0, keeps (c ++ (m, st) ∷ []) (cases.1 incomplete).1),
    )

not-IsComplete :
    (m : ℕ) (ms : List ℕ) (k : Statuses) → Memᴰ m ms → find m k ≡ none → ¬ IsComplete ms k
not-IsComplete m [] k i missing complete = Memᴰ.not-nil i
not-IsComplete m (j ∷ ms) k (Memᴰ.head same) missing complete =
    complete.0 (ap (λ x. find x k) (sym same) ∙ missing)
not-IsComplete m (j ∷ ms) k (Memᴰ.tail i) missing complete =
    not-IsComplete m ms k i missing complete.1

hear_all-calls :
    (interface : String) (expected : List ℕ) (m : ℕ) (st : MotorStatus) (fs c : Statuses)
    (r : RobotHardware)
    → Gathers interface expected c r
    → AreNew c ((m, st) ∷ fs)
    → All (λ f. Memᴰ f.0 expected) fs
    → IsComplete expected (c ++ (m, st) ∷ fs)
    → let (r', reports) = hear_all (calls interface ((m, st) ∷ fs)) r in
      (reports ≡ batch_report interface (c ++ (m, st) ∷ fs) ∷ []) × Gathers interface expected [] r'
unfolding hear_all hear
hear_all-calls interface expected m st [] c r g new wanted complete =
    let (told, emptied) = (call_lem interface expected m st c r g new.0).0 complete in
    (append-nil _ ∙ told, emptied)
hear_all-calls interface expected m st ((m', st') ∷ fs) c r g new wanted complete =
    let c' = c ++ (m, st) ∷ [] in
    let next =
      (call_lem interface expected m st c r g new.0).1
        (not-IsComplete m' expected c' wanted.0 new.1.0) in
    let e : c' ++ (m', st') ∷ fs ≡ c ++ (m, st) ∷ (m', st') ∷ fs =
      append_assoc c ((m, st) ∷ []) ((m', st') ∷ fs) in
    let (told, emptied) =
      hear_all-calls interface expected m' st' fs c' _ next.1 new.1 wanted.1
        (subst (IsComplete expected) (sym e) complete) in
    (rw next.0 (told ∙ ap (λ x. batch_report interface x ∷ []) e), emptied)

-- One status of each of the motors, in any order.
pub record IsRound (expected : List ℕ) (fs : Statuses) : Type 0 where
  pub new : AreNew [] fs
  pub wanted : All (λ f. Memᴰ f.0 expected) fs
  pub complete : IsComplete expected fs

abbrev pub all_of_them : List Statuses → Statuses
all_of_them [] = []
all_of_them (fs ∷ rounds) = fs ++ all_of_them rounds

calls-append :
    (interface : String) (fs gs : Statuses)
    → calls interface (fs ++ gs) ≡ calls interface fs ++ calls interface gs
calls-append interface [] gs = refl
calls-append interface ((m, st) ∷ fs) gs =
    ap (◌∷◌ (feedback_call interface m st)) (calls-append interface fs gs)

hear_all-append :
    (xs ys : List Effect) (r : RobotHardware)
    → (hear_all (xs ++ ys) r).1 ≡ (hear_all xs r).1 ++ (hear_all ys (hear_all xs r).0).1
unfolding hear_all
hear_all-append [] ys r = refl
hear_all-append (x ∷ xs) ys r =
    ap (λ reports. (hear x r).1 ++ reports) (hear_all-append xs ys (hear x r).0)
    ∙ sym (append_assoc (hear x r).1 _ _)

pub hear_all-rounds :
    (interface : String) (e : ℕ) (es : List ℕ) (rounds : List Statuses) (r : RobotHardware)
    → Gathers interface (e ∷ es) [] r
    → All (IsRound (e ∷ es)) rounds
    → (hear_all (calls interface (all_of_them rounds)) r).1 ≡ map (batch_report interface) rounds
unfolding hear_all find
hear_all-rounds interface e es [] r g h = refl
hear_all-rounds interface e es ([] ∷ rounds) r g h = absurd (h.0.complete.0 refl)
hear_all-rounds interface e es (((m, st) ∷ fs) ∷ rounds) r g h =
    let round = (m, st) ∷ fs in
    let (told, emptied) =
      hear_all-calls interface (e ∷ es) m st fs [] r g h.0.new h.0.wanted.1 h.0.complete in
    let rest =
      hear_all-rounds interface e es rounds (hear_all (calls interface round) r).0 emptied h.1 in
    ap (λ xs. (hear_all xs r).1) (calls-append interface round (all_of_them rounds))
    ∙ hear_all-append (calls interface round) (calls interface (all_of_them rounds)) r
    ∙ ap
        (λ xs.
          xs
          ++ (hear_all (calls interface (all_of_them rounds))
              (hear_all (calls interface round) r).0).1)
        told
    ∙ ap (◌∷◌ (batch_report interface round)) rest
