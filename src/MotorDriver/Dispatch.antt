-- ===== src/MotorDriver/Dispatch.antt =====
-- src/driver/motor_driver_impl.cpp: observers, and what the data thread does with a packet. An
-- observer is held by a weak pointer: `alive` says which objects still exist. An observer that
-- throws is logged and stays, as one that returns.
pub mod Routing
pub mod Notices
pub mod Turns
use hardware_driver.Base.{
  ℕ, ◌+◌, String, List, [], ◌∷◌, ◌++◌, Bool, true, false, not, ◌&&◌, ◌==◌, if◌then◌else◌, Option,
  none, some, map, assign, nat_eq, get_or,
}
use hardware_driver.Bus.{GenericBusPacket}
use hardware_driver.MotorProtocol.{
  MotorStatus, MotorStatusFeedback, FuncResultFeedback, ParamResultFeedback, MotorFeedback,
  status_feedback, func_feedback, param_feedback, ParamData, parse_feedback,
}
use hardware_driver.IapProtocol.{IapStatus, IapFeedback, parse_iap_feedback}
use hardware_driver.MotorDriver.{MotorDriver, MotorKey, motor_key_eq}

-- What leaves the driver: calls of callbacks and observers, and events for the event bus.
pub data Effect : Type 0 where
  button_packet : String → ℕ → List ℕ → ℕ → Effect
  feedback_call : String → ℕ → MotorStatus → Effect
  status_notice : ℕ → String → ℕ → MotorStatus → Effect
  function_notice : ℕ → String → ℕ → ℕ → Bool → Effect
  parameter_notice : ℕ → String → ℕ → ℕ → ℕ → ParamData → Effect
  iap_notice : ℕ → String → ℕ → IapStatus → Effect
  status_event : String → ℕ → MotorStatus → Effect
  function_event : String → ℕ → ℕ → Bool → Effect
  parameter_event : String → ℕ → ℕ → ℕ → ParamData → Effect

abbrev pub only : Bool → Effect → List Effect
only true e = e ∷ []
only false e = []

unfoldable pub register_feedback_callback : Bool → MotorDriver → MotorDriver
register_feedback_callback is_set s = record s { feedback_callback = is_set }

pub register_button_packet_callback : Bool → MotorDriver → MotorDriver
register_button_packet_callback is_set s = record s { button_packet_callback = is_set }

pub set_event_bus : Bool → MotorDriver → MotorDriver
set_event_bus is_set s = record s { event_bus = is_set }

pub get_event_bus : MotorDriver → Bool
get_event_bus s = s.event_bus

unfoldable pub add_observer : ℕ → MotorDriver → MotorDriver
add_observer o s = record s { observers = s.observers ++ o ∷ [] }

pub add_iap_observer : ℕ → MotorDriver → MotorDriver
add_iap_observer o s = record s { iap_observers = s.iap_observers ++ o ∷ [] }

module _ (alive : ℕ → Bool) where
  -- `weak_obs.lock() == observer`, for an observer or a null pointer.
  unfoldable pub locks_to : Option ℕ → ℕ → Bool
  locks_to none w = not (alive w)
  locks_to (some o) w = alive w && (w == o)

  unfoldable pub removed : Option ℕ → List ℕ → List ℕ
  unfolding locks_to
  removed o [] = []
  removed o (w ∷ ws) = if locks_to o w then removed o ws else w ∷ removed o ws

  unfoldable pub remove_observer : Option ℕ → MotorDriver → MotorDriver
  unfolding removed
  remove_observer o s = record s { observers = removed o s.observers }

  pub remove_iap_observer : Option ℕ → MotorDriver → MotorDriver
  unfolding removed
  remove_iap_observer o s = record s { iap_observers = removed o s.iap_observers }

  -- The loop of the `notify_..._observers` functions erases the observers that are gone.
  unfoldable pub live : List ℕ → List ℕ
  live [] = []
  live (w ∷ ws) = if alive w then w ∷ live ws else live ws

  -- `notify_iap_observers` also stores the status for `wait_for_feedback`.
  notify_iap_observers : String → IapFeedback → MotorDriver → MotorDriver × List Effect
  notify_iap_observers interface fb s = (
    record s {
      iap_latest_feedback = assign fb.motor_id fb.status_msg s.iap_latest_feedback;
      iap_observers = live s.iap_observers;
    },
    map (λ o. iap_notice o interface fb.motor_id fb.status_msg) (live s.iap_observers),
  )

  abbrev notify_motor_status_observers :
      String → ℕ → MotorStatus → MotorDriver → MotorDriver × List Effect
  notify_motor_status_observers interface motor_id status s = (
    record s { observers = live s.observers },
    map (λ o. status_notice o interface motor_id status) (live s.observers),
  )

  abbrev notify_function_result_observers :
      String → ℕ → ℕ → Bool → MotorDriver → MotorDriver × List Effect
  notify_function_result_observers interface motor_id op_code success s = (
    record s { observers = live s.observers },
    map (λ o. function_notice o interface motor_id op_code success) (live s.observers),
  )

  abbrev notify_parameter_result_observers :
      String → ℕ → ℕ → ℕ → ParamData → MotorDriver → MotorDriver × List Effect
  notify_parameter_result_observers interface motor_id address data_type value s = (
    record s { observers = live s.observers },
    map (λ o. parameter_notice o interface motor_id address data_type value) (live s.observers),
  )

  -- What is published where an event bus is set.
  abbrev emit_motor_status_event : String → ℕ → MotorStatus → MotorDriver → List Effect
  emit_motor_status_event interface motor_id status s =
      only s.event_bus (status_event interface motor_id status)

  abbrev emit_motor_function_result_event : String → ℕ → ℕ → Bool → MotorDriver → List Effect
  emit_motor_function_result_event interface motor_id op_code success s =
      only s.event_bus (function_event interface motor_id op_code success)

  abbrev emit_motor_parameter_result_event :
      String → ℕ → ℕ → ℕ → ParamData → MotorDriver → List Effect
  emit_motor_parameter_result_event interface motor_id address data_type value s =
      only s.event_bus (parameter_event interface motor_id address data_type value)

  -- The three ways of `std::visit` in `handle_bus_packet`.
  handle_status : MotorStatusFeedback → MotorDriver → MotorDriver × List Effect
  handle_status fb s =
      let key : MotorKey = record { interface = fb.interface; motor_id = fb.motor_id } in
      let stored = record s { status_map = assign key fb.status s.status_map } in
      let call = only s.feedback_callback (feedback_call fb.interface fb.motor_id fb.status) in
      let (t, notices) = notify_motor_status_observers fb.interface fb.motor_id fb.status stored in
      (t, call ++ (notices ++ emit_motor_status_event fb.interface fb.motor_id fb.status t))

  handle_function : FuncResultFeedback → MotorDriver → MotorDriver × List Effect
  handle_function fb s =
      let (t, notices) =
        notify_function_result_observers fb.interface fb.motor_id fb.op_code fb.success s in
      (
        t,
        notices
            ++ emit_motor_function_result_event fb.interface fb.motor_id fb.op_code fb.success t,
      )

  handle_parameter : ParamResultFeedback → MotorDriver → MotorDriver × List Effect
  handle_parameter fb s =
      let (t, notices) =
        notify_parameter_result_observers fb.interface fb.motor_id fb.addr fb.data_type fb.value
          s in
      (
        t,
        notices
            ++ emit_motor_parameter_result_event fb.interface fb.motor_id fb.addr fb.data_type
                fb.value t,
      )

  handle_feedback : MotorFeedback → MotorDriver → MotorDriver × List Effect
  unfolding handle_status handle_function handle_parameter
  handle_feedback (status_feedback fb) s = handle_status fb s
  handle_feedback (func_feedback fb) s = handle_function fb s
  handle_feedback (param_feedback fb) s = handle_parameter fb s

  pub handle_bus_packet : GenericBusPacket → MotorDriver → MotorDriver × List Effect
  unfolding notify_iap_observers handle_feedback
  handle_bus_packet p s =
      if (p.id == 0x8F) && s.button_packet_callback
      then (s, button_packet p.interface p.id p.payload p.len ∷ [])
      else elim (parse_iap_feedback p) [
        | some fb ↦ notify_iap_observers p.interface fb s
        | none ↦ elim (parse_feedback p) [ none ↦ (s, []) | some fb ↦ handle_feedback fb s ]
      ]

  -- One round of `data_processing_worker`.
  unfoldable pub process_packet : MotorDriver → Option (MotorDriver × List Effect)
  process_packet s = elim s.receive_queue [
    | [] ↦ none
    | p ∷ rest ↦ some (handle_bus_packet p (record s { receive_queue = rest }))
  ]
