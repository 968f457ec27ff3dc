-- ===== src/ButtonDriver.antt =====
-- src/driver/button_driver_impl.cpp and .hpp: the buttons on the arm. An observer that is not null is
-- the identity of its object; a null pointer is never told anything and is `none`.
pub mod Debounce
use hardware_driver.Base.{
  ℕ, zero, suc, ◌+◌, String, List, [], ◌∷◌, ◌++◌, Bool, true, false, not, ◌&&◌, ◌||◌, ltb, ◌==◌,
  if◌then◌else◌, Option, none, some, length, take, store, replicate, bytes_eq,
}
use hardware_driver.Bus.{GenericBusPacket, new_packet, max_bus_data_size}

-- `NONE` is `idle`.
pub data ButtonStatus : Type 0 where
  idle entry_teach exit_teach teach_repeat : ButtonStatus

abbrev pub same_status : ButtonStatus → ButtonStatus → Bool
same_status ButtonStatus.idle ButtonStatus.idle = true
same_status ButtonStatus.entry_teach ButtonStatus.entry_teach = true
same_status ButtonStatus.exit_teach ButtonStatus.exit_teach = true
same_status ButtonStatus.teach_repeat ButtonStatus.teach_repeat = true
same_status _ _ = false

abbrev pub button_rx_can_id : ℕ
button_rx_can_id = 0x8F

abbrev pub button_tx_can_id : ℕ
button_tx_can_id = 0x7F

-- PROTOCOL_TABLE: the letters JRSJ, TCSJ and GJFX.
abbrev pub protocol_table : List (List ℕ × ButtonStatus)
protocol_table =
    (b'J' ∷ b'R' ∷ b'S' ∷ b'J' ∷ [], ButtonStatus.entry_teach)
    ∷ (b'T' ∷ b'C' ∷ b'S' ∷ b'J' ∷ [], ButtonStatus.exit_teach)
    ∷ (b'G' ∷ b'J' ∷ b'F' ∷ b'X' ∷ [], ButtonStatus.teach_repeat)
    ∷ []

-- The loop over the table.
pub look_up : List ℕ → List (List ℕ × ButtonStatus) → ButtonStatus
look_up code [] = ButtonStatus.idle
look_up code ((c, status) ∷ table) = if bytes_eq c code then status else look_up code table

pub parse_button_code : List ℕ → ℕ → ButtonStatus
unfolding look_up
parse_button_code d len = if ltb len 4 then ButtonStatus.idle else look_up (take 4 d) protocol_table

pub record ButtonDriver : Type 0 where
  pub observers : List (Option ℕ)
  pub last_status : ButtonStatus

pub new_button_driver : ButtonDriver
new_button_driver = record { observers = []; last_status = ButtonStatus.idle }

-- One call of `on_button_event`.
pub record Notice : Type 0 where
  pub observer : ℕ
  pub interface : String
  pub status : ButtonStatus

pub add_observer : Option ℕ → ButtonDriver → ButtonDriver
add_observer o s = record s { observers = s.observers ++ o ∷ [] }

-- `observer == other`, two pointers.
abbrev pub same_pointer : Option ℕ → Option ℕ → Bool
same_pointer none none = true
same_pointer (some a) (some b) = a == b
same_pointer _ _ = false

pub without : Option ℕ → List (Option ℕ) → List (Option ℕ)
without o [] = []
without o (x ∷ xs) = if same_pointer x o then without o xs else x ∷ without o xs

pub remove_observer : Option ℕ → ButtonDriver → ButtonDriver
unfolding without
remove_observer o s = record s { observers = without o s.observers }

pub notify_observers : String → ButtonStatus → List (Option ℕ) → List Notice
notify_observers interface status [] = []
notify_observers interface status (none ∷ os) = notify_observers interface status os
notify_observers interface status (some o ∷ os) =
    record { observer = o; interface = interface; status = status }
    ∷ notify_observers interface status os

-- The status after an event has been reported.
abbrev pub status_after : ButtonStatus → ButtonStatus
status_after ButtonStatus.teach_repeat = ButtonStatus.idle
status_after status = status

-- What `handle_can_packet` does with a code that it knows.
abbrev pub handle_status : String → ButtonStatus → ButtonDriver → ButtonDriver × List Notice
handle_status interface ButtonStatus.idle s = (s, [])
handle_status interface status s =
    if not (same_status status s.last_status) || same_status status ButtonStatus.teach_repeat
    then (
      record s { last_status = status_after status },
      notify_observers interface status s.observers,
    )
    else (s, [])

pub handle_can_packet : String → ℕ → List ℕ → ℕ → ButtonDriver → ButtonDriver × List Notice
unfolding parse_button_code notify_observers
handle_can_packet interface can_id d len s =
    if not (can_id == button_rx_can_id)
    then (s, [])
    else handle_status interface (parse_button_code d len) s

-- The packet that `send_replay_complete` hands to the bus, where there is one.
pub send_replay_complete : Bool → List ℕ → String → List GenericBusPacket
send_replay_complete false raw interface = []
send_replay_complete true raw interface =
    record (new_packet raw interface button_tx_can_id) {
      len = 4;
      payload = store (replicate max_bus_data_size 0) 0 (0x46 ∷ 0x58 ∷ 0x4A ∷ 0x53 ∷ []);
    }
    ∷ []
