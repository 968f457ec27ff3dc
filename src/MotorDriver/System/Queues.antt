-- ===== src/MotorDriver/System/Queues.antt =====
-- src/driver/motor_driver_impl.cpp: what each operation does to the two queues.
use mathlib.Core.List.{Perm, perm_middle, append_assoc}
use mathlib.Core.List.Perm
use mathlib.Core.Path.{subst}
use mathlib.Core.Option.{some-injective}
use hardware_driver.Base.{
  ℕ, ◌≤◌, ◌<◌, ◌≡◌, ◌≢◌, refl, sym, ap, ◌∙◌, List, [], ◌∷◌, ◌++◌, Bool, true, false, some, map,
  arith, length, length-append, ltb, Bool-cases, Option-cases, inl, inr,
}
use hardware_driver.Bus.{GenericBusPacket}
use hardware_driver.MotorDriver.{
  MotorDriver, PriorityCommand, CommandPriority, Admission, is_duplicate_command, enqueue,
  send_control_command_timeout, has_room, dispatch, pop_top, on_packet, drop_oldest, max_queue_size,
}
use hardware_driver.MotorDriver.Order.{dispatch-Dispatches}

-- Three bags in a row ----------------------------------------------------------------------------

module _ {ℓ} {A : Type ℓ} where
  pub to_third : (p : A) (W Q C : List A) → Perm (p ∷ (W ++ (Q ++ C))) (W ++ (Q ++ p ∷ C))
  to_third p W Q C =
      Perm.symm (Perm.trans (Perm.append_left W (perm_middle Q C)) (perm_middle W (Q ++ C)))

  pub to_second : (p : A) (W Q C : List A) → Perm (p ∷ (W ++ (Q ++ C))) (W ++ (Q ++ p ∷ [] ++ C))
  to_second p W Q C = rw (append_assoc Q (p ∷ []) C) (to_third p W Q C)

  pub to_first : (p : A) (W Q C : List A) → Perm (p ∷ (W ++ (Q ++ C))) (W ++ p ∷ [] ++ (Q ++ C))
  to_first p W Q C = rw (append_assoc W (p ∷ []) (Q ++ C)) (Perm.symm (perm_middle W (Q ++ C)))

  pub from_third :
      (p : A) (W Q X Y : List A) → Perm (W ++ (Q ++ (X ++ p ∷ Y))) (p ∷ (W ++ (Q ++ (X ++ Y))))
  from_third p W Q X Y =
      Perm.trans (Perm.append_left W (Perm.append_left Q (perm_middle X Y)))
        (Perm.symm (to_third p W Q (X ++ Y)))

module _ {ℓ κ} {A : Type ℓ} {B : Type κ} where
  pub map-append : (f : A → B) (xs ys : List A) → map f (xs ++ ys) ≡ map f xs ++ map f ys
  map-append f [] ys = refl
  map-append f (x ∷ xs) ys = ap (◌∷◌ (f x)) (map-append f xs ys)

-- The commands of a queue.
abbrev pub queued : MotorDriver → List GenericBusPacket
queued d = map (λ c. c.packet) d.control_queue

-- The parts of the driver that the invariant is about are as before.
pub record IsSameQueues (d e : MotorDriver) : Type 0 where
  pub control : e.control_queue ≡ d.control_queue
  pub receive : e.receive_queue ≡ d.receive_queue

-- Each operation's effect on the queues --------------------------------------------------------------

pub is_duplicate_command-IsSameQueues :
    (d : MotorDriver) (p : GenericBusPacket) → IsSameQueues d (is_duplicate_command d p).0
unfolding is_duplicate_command
is_duplicate_command-IsSameQueues d p = ground arith

pub enqueue-queued :
    (p : GenericBusPacket) (priority : CommandPriority) (now : ℕ) (d e : MotorDriver)
    → enqueue p priority now d ≡ (e, Admission.queued)
    → (length e.control_queue ≤ max_queue_size)
      × (queued e ≡ queued d ++ p ∷ [])
      × (e.receive_queue ≡ d.receive_queue)
unfolding enqueue
enqueue-queued p priority now d e h =
    let c : PriorityCommand = record { packet = p; priority = priority; timestamp = now } in
    elim (Bool-cases (ltb (length d.control_queue) max_queue_size)) [
      | inl room ↦
          let e' : (record d { control_queue = d.control_queue ++ c ∷ [] }, Admission.queued)
              ≡ (e, Admission.queued) =
            rw room at h in
          let q = ap (λ r. r.0.control_queue) e' in
          (
            ground (arith, q, room, length-append d.control_queue (c ∷ [])),
            ap (map (λ c. c.packet)) (sym q) ∙ map-append (λ c. c.packet) d.control_queue (c ∷ []),
            sym (ap (λ r. r.0.receive_queue) e'),
          )
      | inr full ↦ ground (arith, full, h)
    ]

drop_oldest-length :
    (xs : List GenericBusPacket)
    → length xs ≤ max_queue_size
    → length (drop_oldest xs) < max_queue_size
unfolding drop_oldest
drop_oldest-length [] h = omega arith
drop_oldest-length (x ∷ xs) h = ground arith

pub on_packet-bound :
    (d : MotorDriver) (p : GenericBusPacket)
    → length d.receive_queue ≤ max_queue_size
    → length (on_packet d p).receive_queue ≤ max_queue_size
unfolding on_packet
on_packet-bound d p h = ground (
  arith,
  drop_oldest-length d.receive_queue,
  length-append (drop_oldest d.receive_queue) (p ∷ []),
)

drop_oldest-suffix :
    (xs : List GenericBusPacket) → (gone : List GenericBusPacket) × (xs ≡ gone ++ drop_oldest xs)
unfolding drop_oldest
drop_oldest-suffix [] = ([], refl)
drop_oldest-suffix (x ∷ xs) = elim (Bool-cases (ltb (length (x ∷ xs)) max_queue_size)) [
  | inl e ↦ ([], rw e)
  | inr e ↦ (x ∷ [], rw e)
]

pub in_time-enqueue :
    (p : GenericBusPacket) (now : ℕ) (d e : MotorDriver)
    → send_control_command_timeout p now d ≡ (e, true)
    → enqueue p CommandPriority.low now d ≡ (e, Admission.queued)
unfolding send_control_command_timeout
in_time-enqueue p now d e h = by_admission (enqueue p CommandPriority.low now d) h
  where
    by_admission :
        (r : MotorDriver × Admission) → has_room r ≡ (e, true) → r ≡ (e, Admission.queued)
    by_admission (d', Admission.queued) h = λ i. ((h i).0, Admission.queued)
    by_admission (d', Admission.skipped) h = ground (arith, h)
    by_admission (d', Admission.waiting) h = ground (arith, h)

enqueue-refused :
    (p : GenericBusPacket) (priority : CommandPriority) (now : ℕ) (d : MotorDriver)
    → (enqueue p priority now d).1 ≢ Admission.queued
    → IsSameQueues d (enqueue p priority now d).0
unfolding enqueue
enqueue-refused p priority now d h = ground arith

pub timed_out-IsSameQueues :
    (p : GenericBusPacket) (now : ℕ) (d e : MotorDriver)
    → send_control_command_timeout p now d ≡ (e, false)
    → IsSameQueues d e
unfolding send_control_command_timeout
timed_out-IsSameQueues p now d e h =
    by_admission (enqueue p CommandPriority.low now d) h
      (enqueue-refused p CommandPriority.low now d)
  where
    by_admission :
        (r : MotorDriver × Admission)
        → has_room r ≡ (e, false)
        → (r.1 ≢ Admission.queued → IsSameQueues d r.0)
        → IsSameQueues d e
    by_admission (d', Admission.queued) h k = ground (arith, h)
    by_admission (d', Admission.skipped) h k = rw (ap (λ r. r.0) h) at (k (ground arith))
    by_admission (d', Admission.waiting) h k = rw (ap (λ r. r.0) h) at (k (ground arith))

dispatch-receive_queue :
    (throws : Bool) (now : ℕ) (d e : MotorDriver) (c : PriorityCommand)
    → dispatch throws now d ≡ some (c, e)
    → e.receive_queue ≡ d.receive_queue
unfolding dispatch
dispatch-receive_queue true now d e c h = elim (Option-cases (pop_top d.control_queue)) [
  | inl q ↦ ground (arith, q, h)
  | inr (x, q) ↦ ap (λ t. t.1.receive_queue) (some-injective _ _ (sym (rw (q, dispatch) at h)))
]
dispatch-receive_queue false now d e c h = elim (Option-cases (pop_top d.control_queue)) [
  | inl q ↦ ground (arith, q, h)
  | inr (x, q) ↦ ap (λ t. t.1.receive_queue) (some-injective _ _ (sym (rw (q, dispatch) at h)))
]

pub dispatch-queues :
    (throws : Bool) (now : ℕ) (d e : MotorDriver) (c : PriorityCommand)
    → dispatch throws now d ≡ some (c, e)
    → Perm d.control_queue (c ∷ e.control_queue) × (e.receive_queue ≡ d.receive_queue)
dispatch-queues throws now d e c h = elim (dispatch-Dispatches throws now d) [
  | inl (_, r) ↦ ground (arith, h, r)
  | inr (c', e', r, p, _) ↦
      let same = some-injective (c', e') (c, e) (sym r ∙ h) in
      (
        subst (λ t. Perm d.control_queue (t.0 ∷ t.1.control_queue)) same p,
        dispatch-receive_queue throws now d e c h,
      )
]

-- A packet that arrives goes to the end, and the front may go.
pub on_packet-latest :
    (d : MotorDriver) (p : GenericBusPacket) (arrived : List GenericBusPacket)
    → ((gone : List GenericBusPacket) × (arrived ≡ gone ++ d.receive_queue))
    → (gone : List GenericBusPacket) × (arrived ++ p ∷ [] ≡ gone ++ (on_packet d p).receive_queue)
unfolding on_packet
on_packet-latest d p arrived (g, e) =
    let (h, e') = drop_oldest-suffix d.receive_queue in
    (
      g ++ h,
      ap (λ r. r ++ p ∷ []) (e ∙ ap (λ r. g ++ r) e' ∙ sym (append_assoc g h _))
          ∙ append_assoc (g ++ h) _ _,
    )

pub on_packet-control_queue :
    (d : MotorDriver) (p : GenericBusPacket) → (on_packet d p).control_queue ≡ d.control_queue
unfolding on_packet
on_packet-control_queue d p = refl
