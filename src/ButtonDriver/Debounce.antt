-- ===== src/ButtonDriver/Debounce.antt =====
-- src/driver/button_driver_impl.cpp: which button events are reported.
use hardware_driver.Base.{
  ℕ, ◌≤◌, ◌<◌, ◌≡◌, ◌≢◌, inl, inr, refl, String, List, [], ◌∷◌, ◌++◌, Bool, true, false, not, ◌||◌,
  ltb, ◌==◌, Option, arith, take, bytes_eq_iff, Bool-cases, if◌then◌else◌,
}
use hardware_driver.ButtonDriver.{
  ButtonStatus, same_status, protocol_table, button_rx_can_id, look_up, parse_button_code,
  ButtonDriver, Notice, notify_observers, status_after, handle_status, handle_can_packet,
}

-- What a known code is written as.
abbrev pub code_of : ButtonStatus → List ℕ
code_of ButtonStatus.idle = []
code_of ButtonStatus.entry_teach = b'J' ∷ b'R' ∷ b'S' ∷ b'J' ∷ []
code_of ButtonStatus.exit_teach = b'T' ∷ b'C' ∷ b'S' ∷ b'J' ∷ []
code_of ButtonStatus.teach_repeat = b'G' ∷ b'J' ∷ b'F' ∷ b'X' ∷ []

look_up_lem :
    (code : List ℕ) (status : ButtonStatus)
    → status ≢ ButtonStatus.idle
    → (look_up code protocol_table ≡ status → code ≡ code_of status)
      × (code ≡ code_of status → look_up code protocol_table ≡ status)
unfolding look_up
look_up_lem code ButtonStatus.idle h = absurd (h refl)
look_up_lem code ButtonStatus.entry_teach h = (
  λ e. ground (
    arith,
    bytes_eq_iff (code_of ButtonStatus.entry_teach) code,
    bytes_eq_iff (code_of ButtonStatus.exit_teach) code,
    bytes_eq_iff (code_of ButtonStatus.teach_repeat) code,
    e,
  ),
  λ e. ground (
    arith,
    bytes_eq_iff (code_of ButtonStatus.entry_teach) code,
    bytes_eq_iff (code_of ButtonStatus.exit_teach) code,
    bytes_eq_iff (code_of ButtonStatus.teach_repeat) code,
    e,
  ),
)
look_up_lem code ButtonStatus.exit_teach h = (
  λ e. ground (
    arith,
    bytes_eq_iff (code_of ButtonStatus.entry_teach) code,
    bytes_eq_iff (code_of ButtonStatus.exit_teach) code,
    bytes_eq_iff (code_of ButtonStatus.teach_repeat) code,
    e,
  ),
  λ e. ground (
    arith,
    bytes_eq_iff (code_of ButtonStatus.entry_teach) code,
    bytes_eq_iff (code_of ButtonStatus.exit_teach) code,
    bytes_eq_iff (code_of ButtonStatus.teach_repeat) code,
    e,
  ),
)
look_up_lem code ButtonStatus.teach_repeat h = (
  λ e. ground (
    arith,
    bytes_eq_iff (code_of ButtonStatus.entry_teach) code,
    bytes_eq_iff (code_of ButtonStatus.exit_teach) code,
    bytes_eq_iff (code_of ButtonStatus.teach_repeat) code,
    e,
  ),
  λ e. ground (
    arith,
    bytes_eq_iff (code_of ButtonStatus.entry_teach) code,
    bytes_eq_iff (code_of ButtonStatus.exit_teach) code,
    bytes_eq_iff (code_of ButtonStatus.teach_repeat) code,
    e,
  ),
)

-- A packet with at least four bytes names a status just when its first four bytes are the status's
-- code, and a shorter one names none.
pub parse_button_code_lem :
    (d : List ℕ) (len : ℕ) (status : ButtonStatus)
    → status ≢ ButtonStatus.idle
    → (4 ≤ len → parse_button_code d len ≡ status → take 4 d ≡ code_of status)
      × (4 ≤ len → take 4 d ≡ code_of status → parse_button_code d len ≡ status)
      × (len < 4 → parse_button_code d len ≡ ButtonStatus.idle)
unfolding parse_button_code
parse_button_code_lem d len status h =
    let l = look_up_lem (take 4 d) status h in
    (
      λ enough e.
          let long : ltb len 4 ≡ false = ground arith in l.0 (rw (long, parse_button_code) at e),
      λ enough e. let long : ltb len 4 ≡ false = ground arith in rw long (l.1 e),
      λ short. let few : ltb len 4 ≡ true = ground arith in rw few,
    )

-- One packet for the driver.
pub record Packet : Type 0 where
  pub interface : String
  pub can_id : ℕ
  pub bytes : List ℕ
  pub len : ℕ

-- Packets in turn: what the observers are told.
pub handle_all : List Packet → ButtonDriver → List Notice
handle_all [] s = []
handle_all (p ∷ ps) s =
    let (t, notices) = handle_can_packet p.interface p.can_id p.bytes p.len s in
    notices ++ handle_all ps t

-- The events that packets carry: packets of other ids and unknown codes are none.
pub events : List Packet → List (String × ButtonStatus)
events [] = []
events (p ∷ ps) =
    if p.can_id == button_rx_can_id
    then elim (parse_button_code p.bytes p.len) [
      | ButtonStatus.idle ↦ events ps
      | status ↦ (p.interface, status) ∷ events ps
    ]
    else events ps

-- The events to be reported after `last`: each that differs from the one before, and every request
-- to repeat.
pub reported : ButtonStatus → List (String × ButtonStatus) → List (String × ButtonStatus)
reported last [] = []
reported last ((i, status) ∷ es) =
    if not (same_status status last) || same_status status ButtonStatus.teach_repeat
    then (i, status) ∷ reported status es
    else reported status es

-- What the observers hear of events.
pub told : List (Option ℕ) → List (String × ButtonStatus) → List Notice
told os [] = []
told os ((i, status) ∷ es) = notify_observers i status os ++ told os es

abbrev pub is_reported : ButtonStatus → ButtonStatus → Bool
is_reported last status =
    not (same_status status last) || same_status status ButtonStatus.teach_repeat

handle_status_lem :
    (i : String) (status last : ButtonStatus) (s : ButtonDriver)
    → status ≢ ButtonStatus.idle
    → s.last_status ≡ status_after last
    → let (t, notices) = handle_status i status s in
      (t.last_status ≡ status_after status)
      × (t.observers ≡ s.observers)
      × (notices ≡ (if is_reported last status then notify_observers i status s.observers else []))
handle_status_lem i ButtonStatus.idle last s h e = absurd (h refl)
handle_status_lem i ButtonStatus.entry_teach last s h e = ground (arith, e)
handle_status_lem i ButtonStatus.exit_teach last s h e = ground (arith, e)
handle_status_lem i ButtonStatus.teach_repeat last s h e = ground (arith, e)

-- What is to be shown of the packets that follow.
abbrev Rest : List Packet → Type 0
Rest ps =
    (last : ButtonStatus) (s : ButtonDriver)
    → s.last_status ≡ status_after last
    → handle_all ps s ≡ told s.observers (reported last (events ps))

after_event :
    (ps : List Packet)
    → Rest ps
    → (i : String) (status last : ButtonStatus) (s : ButtonDriver) → status ≢ ButtonStatus.idle
    → s.last_status ≡ status_after last
    → (handle_status i status s).1 ++ handle_all ps (handle_status i status s).0
      ≡ told s.observers (reported last ((i, status) ∷ events ps))
unfolding reported told
after_event ps rest i status last s h e =
    let (after, observers, notices) = handle_status_lem i status last s h e in
    let ih = rest status (handle_status i status s).0 after in
    elim (Bool-cases (is_reported last status)) [
      | inl heard ↦ rw (notices, ih, observers, heard)
      | inr unheard ↦ rw (notices, ih, observers, unheard)
    ]

-- However packets of other ids and unknown codes are strewn in: the observers are told, in order,
-- of every event that is not the same as the event before it, and of every request to repeat.
pub handle_all_lem :
    (ps : List Packet) (last : ButtonStatus) (s : ButtonDriver)
    → s.last_status ≡ status_after last
    → handle_all ps s ≡ told s.observers (reported last (events ps))
unfolding handle_all events reported told handle_can_packet
handle_all_lem [] last s e = refl
handle_all_lem (p ∷ ps) last s e = elim (Bool-cases (p.can_id == button_rx_can_id)) [
  | inr other ↦ rw other (handle_all_lem ps last s e)
  | inl button ↦ rw button (by_status (parse_button_code p.bytes p.len) (handle_all_lem ps))
]
  where
    by_status :
        (read : ButtonStatus)
        → Rest ps
        → (handle_status p.interface read s).1 ++ handle_all ps (handle_status p.interface read s).0
          ≡ told s.observers (
              reported last
                (elim read [ ButtonStatus.idle ↦ events ps | st ↦ (p.interface, st) ∷ events ps ]))
    by_status ButtonStatus.idle rest = rest last s e
    by_status ButtonStatus.entry_teach rest =
        after_event ps rest p.interface ButtonStatus.entry_teach last s (λ no. ground (arith, no)) e
    by_status ButtonStatus.exit_teach rest =
        after_event ps rest p.interface ButtonStatus.exit_teach last s (λ no. ground (arith, no)) e
    by_status ButtonStatus.teach_repeat rest =
        after_event ps rest p.interface ButtonStatus.teach_repeat last s (λ no. ground (arith, no))
          e
