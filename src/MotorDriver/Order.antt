-- ===== src/MotorDriver/Order.antt =====
-- The priority queue of src/driver/motor_driver_impl.hpp: what the control thread takes next.
use mathlib.Core.Logic.{∥∥₁_elim}
use mathlib.Core.List.{Perm, Permᴰ}
use native.Mathlib.Nat.{ℕ_set}
use mathlib.Core.List.Perm
use hardware_driver.Base.{
  ℕ, suc, ◌≤◌, ◌≡◌, refl, ap, ◌∙◌, List, [], ◌∷◌, Bool, true, false, Option, none, some, arith,
  length, Bool-cases, inl, inr, ◌⊎◌, All, All-mono,
}
use hardware_driver.MotorDriver.{
  PriorityCommand, comparator, pop_top, MotorDriver, dispatch, control_batch, after_send,
}

-- `c` need not wait for any of the commands.
abbrev pub First : PriorityCommand → List PriorityCommand → Type 0
First c = All (λ x. comparator c x ≡ false)

comparator_asym : (a b : PriorityCommand) → comparator a b ≡ true → comparator b a ≡ false
comparator_asym a b h = ground arith

comparator_trans :
    (a b c : PriorityCommand)
    → comparator a b ≡ false
    → comparator b c ≡ false
    → comparator a c ≡ false
comparator_trans a b c h k = ground arith

comparator_self : (a : PriorityCommand) → comparator a a ≡ false
comparator_self a = ground arith

-- What `pop_top` returns for a queue.
abbrev pub Pops : List PriorityCommand → Option (PriorityCommand × List PriorityCommand) → Type 0
Pops q r =
    ((q ≡ []) × (r ≡ none))
    ⊎ ((c : PriorityCommand) × (rest : List PriorityCommand) × (r ≡ some (c, rest))
        × Perm q (c ∷ rest)
        × First c q)

pop_top-cons :
    (x : PriorityCommand) (xs : List PriorityCommand)
    → Pops xs (pop_top xs)
    → Pops (x ∷ xs) (pop_top (x ∷ xs))
unfolding pop_top
pop_top-cons x xs (inl (e, r)) =
    inr (x, [], rw (r, pop_top), rw e (Perm.refl _), rw e (comparator_self x, tt))
pop_top-cons x xs (inr (y, ys, r, p, f)) = elim (Bool-cases (comparator x y)) [
  | inl after ↦ inr (
    y,
    x ∷ ys,
    rw (r, pop_top, after),
    Perm.trans (Perm.cons x p) (Perm.swap y x ys),
    (comparator_asym x y after, f),
  )
  | inr before ↦ inr (
    x,
    xs,
    rw (r, pop_top, before),
    Perm.refl _,
    (comparator_self x, All-mono (λ z h. comparator_trans x y z before h) xs f),
  )
]

-- An empty queue gives nothing; any other gives up one of its commands and keeps the rest, and no
-- command that stays had to be sent before the one that is taken.
pub pop_top-Pops : (q : List PriorityCommand) → Pops q (pop_top q)
unfolding pop_top
pop_top-Pops [] = inl (refl, refl)
pop_top-Pops (x ∷ xs) = pop_top-cons x xs (pop_top-Pops xs)

-- Each command may stand before all that follow it.
abbrev pub Sorted : List PriorityCommand → Type 0
Sorted [] = Unit {0}
Sorted (c ∷ cs) = First c cs × Sorted cs

First-Permᴰ :
    (c : PriorityCommand) {xs ys : List PriorityCommand} → Permᴰ xs ys → First c xs → First c ys
First-Permᴰ c Permᴰ.nil f = f
First-Permᴰ c (Permᴰ.cons e p) f = (rw e at f.0, First-Permᴰ c p f.1)
First-Permᴰ c (Permᴰ.swap e e') f = (rw e' at f.1.0, (rw e at f.0, f.1.1))
First-Permᴰ c (Permᴰ.trans p q) f = First-Permᴰ c q (First-Permᴰ c p f)

First-prop : (c : PriorityCommand) (xs : List PriorityCommand) → IsProp (First c xs)
First-prop c [] = hlevel
First-prop c (x ∷ xs) = hlevel (First-prop c xs)

First-perm :
    (c : PriorityCommand) (xs ys : List PriorityCommand) → Perm xs ys → First c xs → First c ys
First-perm c xs ys p f = ∥∥₁_elim p (First-prop c ys) (λ q. First-Permᴰ c q f)

length-Permᴰ : {xs ys : List PriorityCommand} → Permᴰ xs ys → length xs ≡ length ys
length-Permᴰ Permᴰ.nil = refl
length-Permᴰ (Permᴰ.cons e p) = ap suc (length-Permᴰ p)
length-Permᴰ (Permᴰ.swap e e') = refl
length-Permᴰ (Permᴰ.trans p q) = length-Permᴰ p ∙ length-Permᴰ q

pub length-perm : (xs ys : List PriorityCommand) → Perm xs ys → length xs ≡ length ys
length-perm xs ys p = ∥∥₁_elim p (ℕ_set (length xs) (length ys)) (λ q. length-Permᴰ q)

-- What one round does.
abbrev pub Dispatches : MotorDriver → Option (PriorityCommand × MotorDriver) → Type 0
Dispatches s r =
    ((s.control_queue ≡ []) × (r ≡ none))
    ⊎ ((c : PriorityCommand) × (s' : MotorDriver) × (r ≡ some (c, s'))
        × Perm s.control_queue (c ∷ s'.control_queue)
        × First c s.control_queue)

pub dispatch-Dispatches :
    (throws : Bool) (now : ℕ) (s : MotorDriver) → Dispatches s (dispatch throws now s)
unfolding dispatch
dispatch-Dispatches true now s = elim (pop_top-Pops s.control_queue) [
  | inl (e, r) ↦ inl (e, rw (r, dispatch))
  | inr (c, rest, r, p, f) ↦ inr (c, after_send true now rest s, rw (r, dispatch), p, f)
]
dispatch-Dispatches false now s = elim (pop_top-Pops s.control_queue) [
  | inl (e, r) ↦ inl (e, rw (r, dispatch))
  | inr (c, rest, r, p, f) ↦ inr (c, after_send false now rest s, rw (r, dispatch), p, f)
]

eq_nil_of_length : (xs : List PriorityCommand) → length xs ≡ 0 → xs ≡ []
eq_nil_of_length [] h = refl
eq_nil_of_length (x ∷ xs) h = absurd (omega arith)

-- What a batch is to do with the queue that it finds.
abbrev pub Drains : MotorDriver → List PriorityCommand × MotorDriver → Type 0
Drains s out = Perm s.control_queue out.0 × Sorted out.0 × (out.1.control_queue ≡ [])

-- With a round for each command the batch empties the queue: every command goes to the bus once,
-- those of higher priority before those of lower, and within a priority the earlier before the later.
pub control_batch-Drains :
    (rounds : List (Bool × ℕ)) (s : MotorDriver)
    → length s.control_queue ≤ length rounds
    → Drains s (control_batch rounds s)
unfolding control_batch
control_batch-Drains [] s h =
    let e = eq_nil_of_length s.control_queue (omega arith) in (rw e (Perm.refl []), tt, e)
control_batch-Drains ((throws, now) ∷ rounds) s h = elim (dispatch-Dispatches throws now s) [
  | inl (e, r) ↦ rw (r, control_batch) (rw e (Perm.refl []), tt, e)
  | inr (c, s', r, p, f) ↦
      let ih =
        control_batch-Drains rounds s'
          (omega (arith, length-perm s.control_queue (c ∷ s'.control_queue) p)) in
      let later = (First-perm c s.control_queue (c ∷ s'.control_queue) p f).1 in
      rw (r, control_batch)
        (
          Perm.trans p (Perm.cons c ih.0),
          (First-perm c s'.control_queue (control_batch rounds s').0 ih.0 later, ih.1),
          ih.2,
        )
]

-- A batch of one round, for a queue that holds one command.
pub control_batch-single :
    (throws : Bool) (now : ℕ) (s : MotorDriver) (c : PriorityCommand)
    → s.control_queue ≡ c ∷ []
    → control_batch ((throws, now) ∷ []) s ≡ (c ∷ [], after_send throws now [] s)
unfolding control_batch dispatch pop_top
control_batch-single true now s c e = rw (e, control_batch, dispatch, pop_top)
control_batch-single false now s c e = rw (e, control_batch, dispatch, pop_top)
