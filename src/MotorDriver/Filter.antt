-- ===== src/MotorDriver/Filter.antt =====
-- The filter for repeated commands of src/driver/motor_driver_impl.cpp: what it lets through.
use hardware_driver.Base.{
  ℕ, ◌≤◌, ◌<◌, ◌≡◌, ◌≢◌, refl, ap, ◌∙◌, List, [], ◌∷◌, ◌++◌, true, false, some, arith, length, take,
  find, assign, find-assign, find-assign_self, bytes_eq_iff, Bool-cases, Option-cases, inl, inr,
  ◌⊎◌, All,
}
use hardware_driver.Bus.{GenericBusPacket}
use hardware_driver.MotorDriver.{
  MotorDriver, MotorKey, CommandPriority, Admission, key_of, key_eq, key_eq_iff, motor_key_eq,
  same_command, is_duplicate_command, enqueue, send_control_command, max_queue_size,
}

-- One call of `send_control_command`.
pub record Call : Type 0 where
  pub packet : GenericBusPacket
  pub priority : CommandPriority
  pub now : ℕ

pub send_all_commands : List Call → MotorDriver → MotorDriver
send_all_commands [] s = s
send_all_commands (c ∷ cs) s =
    send_all_commands cs (send_control_command c.packet c.priority c.now s).0

-- The bytes that a packet puts on the bus.
abbrev pub contents : GenericBusPacket → List ℕ
contents p = take p.len p.payload

-- Two packets of one length and one content.
pub record Same (p q : GenericBusPacket) : Type 0 where
  pub len : p.len ≡ q.len
  pub bytes : contents p ≡ contents q

-- The last command for the packet's key that passed the filter has the same length and bytes.
abbrev pub Seen : MotorDriver → GenericBusPacket → Type 0
Seen s p = (last : GenericBusPacket) × (find (key_of p) s.last_commands ≡ some last) × Same p last

same_command_iff :
    (p last : GenericBusPacket)
    → (same_command p last ≡ true → Same p last) × (Same p last → same_command p last ≡ true)
unfolding same_command
same_command_iff p last = (
  λ h. ground (arith, bytes_eq_iff (take p.len p.payload) (take p.len last.payload)),
  λ h. ground (arith, bytes_eq_iff (take p.len p.payload) (take p.len last.payload)),
)

-- The filter's verdict, with the packet's last command and what is remembered.
pub is_duplicate_command_cases :
    (s : MotorDriver) (p : GenericBusPacket)
    → (Seen s p × (is_duplicate_command s p ≡ (s, true)))
      ⊎ (¬ Seen s p)
        × (is_duplicate_command s p
            ≡ (record s { last_commands = assign (key_of p) p s.last_commands }, false))
unfolding is_duplicate_command
is_duplicate_command_cases s p = elim (Option-cases (find (key_of p) s.last_commands)) [
  | inl e ↦ inr (λ seen. cc, rw (e, is_duplicate_command))
  | inr (last, e) ↦ elim (Bool-cases (same_command p last)) [
    | inl same ↦
        inl ((last, e, (same_command_iff p last).0 same), rw (e, is_duplicate_command, same))
    | inr other ↦ inr (unseen last e other, rw (e, is_duplicate_command, other))
  ]
]
  where
    unseen :
        (last : GenericBusPacket)
        → find (key_of p) s.last_commands ≡ some last
        → same_command p last ≡ false
        → ¬ Seen s p
    unseen last e other (l, e', same) = ground (arith, e, e', other, (same_command_iff p l).1 same)

enqueue-last_commands :
    (p : GenericBusPacket) (priority : CommandPriority) (now : ℕ) (s : MotorDriver)
    → (enqueue p priority now s).0.last_commands ≡ s.last_commands
unfolding enqueue
enqueue-last_commands p priority now s = ground arith

pub enqueue_cases :
    (p : GenericBusPacket) (priority : CommandPriority) (now : ℕ) (s : MotorDriver)
    → let (s', a) = enqueue p priority now s in
      (length s.control_queue < max_queue_size
        → (a ≡ Admission.queued)
          × (s'.control_queue
              ≡ s.control_queue
                ++ record { packet = p; priority = priority; timestamp = now } ∷ []))
      × (max_queue_size ≤ length s.control_queue
          → (a ≡ Admission.waiting) × (s'.control_queue ≡ s.control_queue))
unfolding enqueue
enqueue_cases p priority now s = (λ h. ground arith, λ h. ground arith)

-- What a call remembers for a key.
pub send_control_command-find :
    (p : GenericBusPacket) (priority : CommandPriority) (now : ℕ) (s : MotorDriver) (k : MotorKey)
    → key_eq (key_of p) k ≡ false
    → find k (send_control_command p priority now s).0.last_commands ≡ find k s.last_commands
unfolding send_control_command
send_control_command-find p priority now s k ne = elim (is_duplicate_command_cases s p) [
  | inl (seen, e) ↦ rw (e, send_control_command)
  | inr (new, e) ↦
      let t = record s { last_commands = assign (key_of p) p s.last_commands } in
      rw (e, send_control_command)
        (ground (
          arith,
          enqueue-last_commands p priority now t,
          find-assign (key_of p) k p s.last_commands,
          ne,
        ))
]

pub send_control_command-motor_modes :
    (p : GenericBusPacket) (priority : CommandPriority) (now : ℕ) (s : MotorDriver)
    → (send_control_command p priority now s).0.motor_modes ≡ s.motor_modes
unfolding send_control_command enqueue
send_control_command-motor_modes p priority now s = elim (is_duplicate_command_cases s p) [
  | inl (seen, e) ↦ rw (e, send_control_command)
  | inr (new, e) ↦ rw (e, send_control_command) (ground arith)
]

pub send_control_command_cases :
    (p : GenericBusPacket) (priority : CommandPriority) (now : ℕ) (s : MotorDriver)
    → let (s', a) = send_control_command p priority now s in
      (Seen s p → (a ≡ Admission.skipped) × (s' ≡ s))
      × (¬ Seen s p
          → Seen s' p
            × (length s.control_queue < max_queue_size
                → (a ≡ Admission.queued)
                  × (s'.control_queue
                      ≡ s.control_queue
                        ++ record { packet = p; priority = priority; timestamp = now } ∷ []))
            × (max_queue_size ≤ length s.control_queue
                → (a ≡ Admission.waiting) × (s'.control_queue ≡ s.control_queue)))
unfolding send_control_command
send_control_command_cases p priority now s = elim (is_duplicate_command_cases s p) [
  | inl (seen, e) ↦ rw (e, send_control_command) (λ _. (refl, refl), λ no. absurd (no seen))
  | inr (new, e) ↦
      let t = record s { last_commands = assign (key_of p) p s.last_commands } in
      let q = enqueue_cases p priority now t in
      rw (e, send_control_command)
        (
          λ seen. absurd (new seen),
          λ _. (
            (
              p,
              ap (find (key_of p)) (enqueue-last_commands p priority now t)
                  ∙ find-assign_self (key_of p) p s.last_commands,
              record { len = refl; bytes = refl },
            ),
            q.0,
            q.1,
          ),
        )
]

pub send_control_command-Seen :
    (p : GenericBusPacket) (priority : CommandPriority) (now : ℕ) (s : MotorDriver)
    → Seen (send_control_command p priority now s).0 p
send_control_command-Seen p priority now s =
    let c = send_control_command_cases p priority now s in
    elim (is_duplicate_command_cases s p) [
      | inl (seen, _) ↦ rw ((c.0 seen).1) seen
      | inr (new, _) ↦ (c.1 new).0
    ]

key_eq_of_ne : (a b : MotorKey) → a ≢ b → key_eq a b ≡ false
key_eq_of_ne a b h = elim (Bool-cases (key_eq a b)) [
  | inl e ↦ absurd (h ((key_eq_iff a b).0 e))
  | inr e ↦ e
]

send_all_commands-find :
    (k : MotorKey) (cs : List Call) (s : MotorDriver)
    → All (λ c. key_of c.packet ≢ k) cs
    → find k (send_all_commands cs s).last_commands ≡ find k s.last_commands
unfolding send_all_commands
send_all_commands-find k [] s h = refl
send_all_commands-find k (c ∷ cs) s h =
    send_all_commands-find k cs (send_control_command c.packet c.priority c.now s).0 h.1
    ∙ send_control_command-find c.packet c.priority c.now s k (key_eq_of_ne (key_of c.packet) k h.0)

-- Once a command has been sent, the same command is skipped again after any number of calls for
-- other interfaces or ids: for a motor that has meanwhile obeyed a broadcast, which has another id,
-- the command, an emergency stop too, never reaches the bus.
pub repeated_command_skipped :
    (p : GenericBusPacket) (first again : CommandPriority) (now later : ℕ) (cs : List Call)
    (s : MotorDriver)
    → All (λ c. key_of c.packet ≢ key_of p) cs
    → let t = send_all_commands cs (send_control_command p first now s).0 in
      send_control_command p again later t ≡ (t, Admission.skipped)
repeated_command_skipped p first again now later cs s h =
    let s1 = (send_control_command p first now s).0 in
    let t = send_all_commands cs s1 in
    let (last, e, same) = send_control_command-Seen p first now s in
    let r =
      (send_control_command_cases p again later t).0
        (last, send_all_commands-find (key_of p) cs s1 h ∙ e, same) in
    λ i. (r.1 i, r.0 i)

-- The queue and the memory after a call that is no repetition, with room in the queue.
pub send_control_command_new :
    (p : GenericBusPacket) (priority : CommandPriority) (now : ℕ) (s : MotorDriver)
    → ¬ Seen s p
    → length s.control_queue < max_queue_size
    → let (s', a) = send_control_command p priority now s in
      (a ≡ Admission.queued)
      × (s'.control_queue
          ≡ s.control_queue ++ record { packet = p; priority = priority; timestamp = now } ∷ [])
      × Seen s' p
send_control_command_new p priority now s new room =
    let c = (send_control_command_cases p priority now s).1 new in ((c.1 room).0, (c.1 room).1, c.0)
