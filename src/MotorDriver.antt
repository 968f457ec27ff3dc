-- ===== src/MotorDriver.antt =====
-- src/driver/motor_driver_impl.hpp and .cpp: the state of the driver, the filter for repeated
-- commands and the priority queue. Time stamps are numbers that the caller's clock gives.
pub mod Commands
pub mod Dispatch
pub mod Feedback
pub mod Update
pub mod Filter
pub mod Construction
pub mod Order
pub mod System
use text.Mathlib.Text.{◌==◌ as str_eq}
use text.Mathlib.TextEquality.{eq_iff}
use hardware_driver.Base.{
  ℕ, zero, suc, ◌+◌, ◌≤◌, ◌<◌, ◌≡◌, ◌↔◌, String, List, [], ◌∷◌, ◌++◌, Bool, true, false, not, ◌&&◌,
  ltb, ◌==◌, if◌then◌else◌, Option, none, some, length, take, find, assign, Eq, bytes_eq, arith,
}
use hardware_driver.Bus.{GenericBusPacket}
use hardware_driver.MotorProtocol.{MotorStatus}
use hardware_driver.IapProtocol.{IapStatus}

pub record MotorKey : Type 0 where
  pub interface : String
  pub motor_id : ℕ

abbrev pub key_eq : MotorKey → MotorKey → Bool
key_eq a b = str_eq a.interface b.interface && (a.motor_id == b.motor_id)

pub key_eq_iff : (a b : MotorKey) → (key_eq a b ≡ true) ↔ (a ≡ b)
key_eq_iff a b = (
  λ h. ground (arith, eq_iff a.interface b.interface),
  λ e. ground (arith, eq_iff a.interface b.interface),
)

instance abbrev pub motor_key_eq : Eq MotorKey
motor_key_eq = record { is_equal = key_eq; is_equal_iff = key_eq_iff }

pub data CommandPriority : Type 0 where
  low normal high emergency : CommandPriority

-- `static_cast<uint8_t>(priority)`
abbrev pub rank : CommandPriority → ℕ
rank CommandPriority.low = 0
rank CommandPriority.normal = 1
rank CommandPriority.high = 2
rank CommandPriority.emergency = 3

pub record PriorityCommand : Type 0 where
  pub packet : GenericBusPacket
  pub priority : CommandPriority
  pub timestamp : ℕ

-- PriorityComparator: whether `a` is to be sent after `b`.
abbrev pub comparator : PriorityCommand → PriorityCommand → Bool
comparator a b =
    if not (rank a.priority == rank b.priority)
    then ltb (rank a.priority) (rank b.priority)
    else ltb b.timestamp a.timestamp

abbrev pub max_queue_size : ℕ
max_queue_size = 128

-- Pointers to observers are the identities of the objects; callbacks and the event bus are known by
-- whether they are set. Threads and locks are in `System`.
pub record MotorDriver : Type 0 where
  pub status_map : List (MotorKey × MotorStatus)
  pub motor_modes : List (MotorKey × ℕ)
  pub iap_latest_feedback : List (ℕ × IapStatus)
  pub observers : List ℕ
  pub iap_observers : List ℕ
  pub control_queue : List PriorityCommand
  pub last_commands : List (MotorKey × GenericBusPacket)
  pub receive_queue : List GenericBusPacket
  pub high_freq_mode : Bool
  pub last_control_time : ℕ
  pub interface_motor_config : List (String × List ℕ)
  pub saved_motor_config : List (String × List ℕ)
  pub feedback_request_paused : Bool
  pub feedback_callback : Bool
  pub button_packet_callback : Bool
  pub event_bus : Bool

-- The state after construction; `now` is `last_control_time_`. What the constructor does to the bus is
-- in `Construction`.
abbrev pub new_motor_driver : ℕ → MotorDriver
new_motor_driver now = record {
  status_map = [];
  motor_modes = [];
  iap_latest_feedback = [];
  observers = [];
  iap_observers = [];
  control_queue = [];
  last_commands = [];
  receive_queue = [];
  high_freq_mode = false;
  last_control_time = now;
  interface_motor_config = [];
  saved_motor_config = [];
  feedback_request_paused = false;
  feedback_callback = false;
  button_packet_callback = false;
  event_bus = false;
}

-- A queue that is full loses its oldest packet.
drop_oldest : List GenericBusPacket → List GenericBusPacket
drop_oldest [] = []
drop_oldest (x ∷ xs) = if ltb (length (x ∷ xs)) max_queue_size then x ∷ xs else xs

-- The callback that the constructor registers with the bus.
pub on_packet : MotorDriver → GenericBusPacket → MotorDriver
unfolding drop_oldest
on_packet s p = record s { receive_queue = drop_oldest s.receive_queue ++ p ∷ [] }

-- Sending --------------------------------------------------------------------------------------

abbrev pub key_of : GenericBusPacket → MotorKey
key_of p = record { interface = p.interface; motor_id = p.id }

-- `len` equal and `memcmp` over `len` bytes.
pub same_command : GenericBusPacket → GenericBusPacket → Bool
same_command p last =
    (p.len == last.len) && bytes_eq (take p.len p.payload) (take p.len last.payload)

unfoldable pub is_duplicate_command : MotorDriver → GenericBusPacket → MotorDriver × Bool
is_duplicate_command s p = elim (find (key_of p) s.last_commands) [
  | none ↦ (record s { last_commands = assign (key_of p) p s.last_commands }, false)
  | some last ↦
      if same_command p last
      then (s, true)
      else (record s { last_commands = assign (key_of p) p s.last_commands }, false)
]

-- What has become of a call of `send_control_command`: the command was a repetition, it is in the
-- queue, or the caller waits for room in the queue.
pub data Admission : Type 0 where
  skipped queued waiting : Admission

-- The end of the call, once the lock is held: it waits until the queue has room.
unfoldable pub enqueue :
    GenericBusPacket → CommandPriority → ℕ → MotorDriver → MotorDriver × Admission
enqueue p priority now s =
    if ltb (length s.control_queue) max_queue_size
    then (
      record s {
        control_queue =
            s.control_queue ++ record { packet = p; priority = priority; timestamp = now } ∷ [];
      },
      Admission.queued,
    )
    else (s, Admission.waiting)

pub send_control_command :
    GenericBusPacket → CommandPriority → ℕ → MotorDriver → MotorDriver × Admission
send_control_command p priority now s =
    let (s', duplicate) = is_duplicate_command s p in
    if duplicate then (s', Admission.skipped) else enqueue p priority now s'

-- Whether the call has found room when its time is over.
abbrev pub has_room : MotorDriver × Admission → MotorDriver × Bool
has_room (s, Admission.queued) = (s, true)
has_room (s, a) = (s, false)

-- The version with a timeout: whether there was room in time. It asks no filter.
pub send_control_command_timeout : GenericBusPacket → ℕ → MotorDriver → MotorDriver × Bool
send_control_command_timeout p now s = has_room (enqueue p CommandPriority.low now s)

-- The control thread -----------------------------------------------------------------------------

-- `top` and `pop` of the priority queue. Of commands that the comparator cannot tell apart this
-- takes the first.
unfoldable pub pop_top : List PriorityCommand → Option (PriorityCommand × List PriorityCommand)
pop_top [] = none
pop_top (x ∷ xs) = elim (pop_top xs) [
  | none ↦ some (x, [])
  | some (y, ys) ↦ if comparator x y then some (y, x ∷ ys) else some (x, xs)
]

-- After a round of `control_worker`: if the bus throws, the time and the mode stay.
abbrev pub after_send : Bool → ℕ → List PriorityCommand → MotorDriver → MotorDriver
after_send true now rest s = record s { control_queue = rest }
after_send false now rest s = record s {
  control_queue = rest;
  last_control_time = now;
  high_freq_mode = true;
}

-- One round of `control_worker`: the command that it hands to the bus.
unfoldable pub dispatch : Bool → ℕ → MotorDriver → Option (PriorityCommand × MotorDriver)
dispatch throws now s = elim (pop_top s.control_queue) [
  | none ↦ none
  | some (c, rest) ↦ some (c, after_send throws now rest s)
]

-- The inner loop of `control_worker`, as long as nobody adds commands: it ends when the queue is
-- empty. For each round, whether the bus throws and when the command is sent.
pub control_batch : List (Bool × ℕ) → MotorDriver → List PriorityCommand × MotorDriver
control_batch [] s = ([], s)
control_batch ((throws, now) ∷ rounds) s = elim (dispatch throws now s) [
  | none ↦ ([], s)
  | some (c, s') ↦ let (cs, t) = control_batch rounds s' in (c ∷ cs, t)
]
