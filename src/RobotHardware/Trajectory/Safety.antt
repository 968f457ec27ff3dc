-- ===== src/RobotHardware/Trajectory/Safety.antt =====
-- src/interface/robot_hardware.cpp: what an execution has sent, however it is paused and resumed.
use hardware_driver.Base.{
  ℕ, zero, suc, ◌+◌, ◌≤◌, ◌<◌, ◌≡◌, ◌≢◌, refl, sym, ap, ◌∙◌, List, [], ◌∷◌, ◌++◌, arith, length,
  length-append, take, drop, map,
}
use hardware_driver.Bus.{done}
use hardware_driver.Float32.{FloatOps}
use hardware_driver.RobotHardware.Trajectory.{
  TrajectoryPoint, running, completed, Task, Place, starting, finished, checking, waiting, sending,
  counting, Execution, Step, begin, stop, hold, go, hold_on, go_on, send, count, fail, finish, look,
  enter, Reach, start, later, launched, positions_of, Call, pausing, resuming, cancelling, entered,
}

-- How many points are sent at a place, of so many.
abbrev pub IsAt : Place → ℕ → ℕ → Type 0
IsAt starting n total = n ≡ 0
IsAt finished n total = n ≤ total
IsAt (checking k) n total = (n ≡ k) × (k ≤ total)
IsAt (waiting k) n total = (n ≡ k) × (k < total)
IsAt (sending k) n total = (n ≡ k) × (k < total)
IsAt (counting k) n total = (n ≡ k + 1) × (k < total)

-- How many points are sent at a place and not yet counted.
abbrev pub uncounted : Place → ℕ
uncounted (counting k) = 1
uncounted _ = 0

-- The calls change neither the points nor the progress, and complete nothing.
abbrev IsKept : Task → Task → Type 0
IsKept t u =
    (u.points ≡ t.points) × (u.current_point_index ≡ t.current_point_index) × (u.state ≢ completed)

entered-IsKept : (now : ℕ) (c : Call) (t : Task) → IsKept t (entered now c t)
entered-IsKept now pausing t = (refl, refl, λ e. ground (arith, e))
entered-IsKept now resuming t = (refl, refl, λ e. ground (arith, e))
entered-IsKept now cancelling t = (refl, refl, λ e. ground (arith, e))

module _ (f : FloatOps) (motor_ids : List ℕ) where
  -- The frames sent are those of the trajectory's first points, in order and once each; the progress
  -- counts them, but for one whose sending is not yet noted; and the execution is completed only when
  -- they are all, and its worker is at its end.
  pub record IsFaithful (points : List TrajectoryPoint) (e : Execution) : Type 0 where
    pub points_kept : e.task.points ≡ points
    pub frames :
        map (positions_of f (length motor_ids)) (take (length e.sent) points) ≡ map done e.sent
    pub placed : IsAt e.place (length e.sent) (length points)
    pub progress : e.task.current_point_index + uncounted e.place ≡ length e.sent
    pub all_when_completed :
        e.task.state ≡ completed → (length e.sent ≡ length points) × (e.place ≡ finished)

  take-suc :
      (k : ℕ) (ps : List TrajectoryPoint) (p : TrajectoryPoint) (rest : List TrajectoryPoint)
      → drop k ps ≡ p ∷ rest
      → take (suc k) ps ≡ take k ps ++ p ∷ []
  take-suc zero [] p rest e = ground (arith, e)
  take-suc zero (q ∷ ps) p rest e = ground (arith, e)
  take-suc (suc k) [] p rest e = ground (arith, e)
  take-suc (suc k) (q ∷ ps) p rest e = ap (◌∷◌ q) (take-suc k ps p rest e)

  map-append {ℓ κ} :
      {A : Type ℓ} {B : Type κ} (g : A → B) (xs ys : List A)
      → map g (xs ++ ys) ≡ map g xs ++ map g ys
  map-append g [] ys = refl
  map-append g (x ∷ xs) ys = ap (◌∷◌ (g x)) (map-append g xs ys)

  Step-IsFaithful :
      (points : List TrajectoryPoint) (d e : Execution)
      → Step f motor_ids d e
      → IsFaithful points d
      → IsFaithful points e
  Step-IsFaithful points d e (begin now here) i =
      let zero_sent = rw here at i.placed in
      record {
        points_kept = i.points_kept;
        frames = i.frames;
        placed = (zero_sent, omega arith);
        progress = omega (arith, zero_sent);
        all_when_completed = λ no. ground (arith, no);
      }
  Step-IsFaithful points d e (stop k here lt set) i =
      let p = rw here at i.placed in
      let q = rw here at i.progress in
      record {
        points_kept = i.points_kept;
        frames = i.frames;
        placed = omega (arith, p.0, p.1);
        progress = q;
        all_when_completed = λ no. ground (arith, no);
      }
  Step-IsFaithful points d e (hold k now here lt unset set) i =
      let p = rw here at i.placed in
      let q = rw here at i.progress in
      let total = ap length i.points_kept in
      record {
        points_kept = i.points_kept;
        frames = i.frames;
        placed = (p.0, omega (arith, lt, total));
        progress = q;
        all_when_completed = λ c. ground (arith, here, (i.all_when_completed c).1);
      }
  Step-IsFaithful points d e (go k here lt unset unset') i =
      let p = rw here at i.placed in
      let q = rw here at i.progress in
      let total = ap length i.points_kept in
      record {
        points_kept = i.points_kept;
        frames = i.frames;
        placed = (p.0, omega (arith, lt, total));
        progress = q;
        all_when_completed = λ c. ground (arith, here, (i.all_when_completed c).1);
      }
  Step-IsFaithful points d e (hold_on k now here set) i = record {
    points_kept = i.points_kept;
    frames = i.frames;
    placed = i.placed;
    progress = i.progress;
    all_when_completed = i.all_when_completed;
  }
  Step-IsFaithful points d e (go_on k here unset) i =
      let p = rw here at i.placed in
      let q = rw here at i.progress in
      record {
        points_kept = i.points_kept;
        frames = i.frames;
        placed = p;
        progress = q;
        all_when_completed = λ c. ground (arith, here, (i.all_when_completed c).1);
      }
  Step-IsFaithful points d e (send k p {rest} {positions} here found framed) i =
      let p' = rw here at i.placed in
      let q = rw here at i.progress in
      let n = length-append d.sent (positions ∷ []) in
      let next : length (d.sent ++ positions ∷ []) ≡ suc (length d.sent) = omega (arith, n) in
      let found' : drop (length d.sent) points ≡ p ∷ rest = rw (p'.0, sym i.points_kept) found in
      record {
        points_kept = i.points_kept;
        frames =
            rw (next, take-suc (length d.sent) points p rest found')
              (map-append (positions_of f (length motor_ids)) (take (length d.sent) points) (p ∷ [])
                ∙ ap (λ r. r ++ positions_of f (length motor_ids) p ∷ []) i.frames
                ∙ ap (λ r. map done d.sent ++ r ∷ []) framed
                ∙ sym (map-append done d.sent (positions ∷ [])));
        placed = (omega (arith, next, p'.0), p'.1);
        progress = omega (arith, next, q);
        all_when_completed = λ c. ground (arith, here, (i.all_when_completed c).1);
      }
  Step-IsFaithful points d e (count k here) i =
      let p = rw here at i.placed in
      record {
        points_kept = i.points_kept;
        frames = i.frames;
        placed = (p.0, omega (arith, p.1));
        progress = omega (arith, p.0);
        all_when_completed = λ c. ground (arith, here, (i.all_when_completed c).1);
      }
  Step-IsFaithful points d e (fail k what here) i =
      let p = rw here at i.placed in
      let q = rw here at i.progress in
      record {
        points_kept = i.points_kept;
        frames = i.frames;
        placed = omega (arith, p.0, p.1);
        progress = q;
        all_when_completed = λ no. ground (arith, no);
      }
  Step-IsFaithful points d e (finish k here ge) i =
      let p = rw here at i.placed in
      let total = ap length i.points_kept in
      record {
        points_kept = i.points_kept;
        frames = i.frames;
        placed = omega (arith, p.0, p.1);
        progress = omega (arith, p.0, p.1, ge, total);
        all_when_completed = λ _. (omega (arith, p.0, p.1, ge, total), refl);
      }
  Step-IsFaithful points d e (look c found) i = record {
    points_kept = i.points_kept;
    frames = i.frames;
    placed = i.placed;
    progress = i.progress;
    all_when_completed = i.all_when_completed;
  }
  Step-IsFaithful points d e (enter now c before after listed) i =
      let k = entered-IsKept now c d.task in
      record {
        points_kept = k.0 ∙ i.points_kept;
        frames = i.frames;
        placed = i.placed;
        progress = ap (λ n. n + uncounted d.place) k.1 ∙ i.progress;
        all_when_completed = λ completed. absurd (k.2 completed);
      }

  -- Whatever the calls and however the threads take turns, an execution has always sent the frames of
  -- its trajectory's first points, in their order and each once; its progress counts just these, but
  -- for the one that the worker has sent and not yet noted; and it is completed only when it has sent
  -- all and its worker is at its end.
  pub Reach-IsFaithful :
      (t : Task) (e : Execution)
      → t.state ≡ running
      → t.current_point_index ≡ 0
      → Reach f motor_ids (launched t) e
      → IsFaithful t.points e
  Reach-IsFaithful t e is_running none_sent start = record {
    points_kept = refl;
    frames = refl;
    placed = refl;
    progress = omega (arith, none_sent);
    all_when_completed = λ c. ground (arith, is_running, c);
  }
  Reach-IsFaithful t e is_running none_sent (later {g} r step) =
      Step-IsFaithful t.points g e step (Reach-IsFaithful t g is_running none_sent r)
