-- ===== src/Tests/Events.antt =====
-- Inputs for the theorems on the event bus.
use hardware_driver.Base.{ℕ, ◌≡◌, refl, [], ◌∷◌, some, Bool, true, false, arith}
use hardware_driver.EventBus.{Event, Handler, EventBus, publish, cleanup_handlers}
use hardware_driver.EventBus.Delivery.{publish-cleanup_handlers}
use hardware_driver.MotorEvents.{MotorEvent, motor_function_result_event, get_topic}
use hardware_driver.MotorEvents.Topics.{get_topic-eq-get_topic}
use hardware_driver.MotorDriver.{MotorDriver, new_motor_driver}
use hardware_driver.MotorDriver.Dispatch.{live, handle_bus_packet}
use hardware_driver.EventBridge.{bridge_step, own_step, run}
use hardware_driver.EventBridge.SameEvents.{handle_bus_packet-same_events}
use hardware_driver.Tests.{storage, can0, packet_of}

abbrev an_event : Event
an_event = record { type_index = 1; topic = "motor.can0.3.status" }

abbrev a_handler : ℕ → Handler
a_handler id = record { id = id; event_type = 1 }

abbrev a_bus : EventBus
a_bus = record {
  handlers = (1, a_handler 4 ∷ a_handler 5 ∷ []) ∷ [];
  topic_handlers = ("motor.can0.3.status", a_handler 6 ∷ []) ∷ [];
  events_published = 2;
}

abbrev everyone : ℕ → Bool
everyone id = true

publish-cleanup_handlers_example :
    let cleaned_up = publish everyone (some an_event) (cleanup_handlers everyone a_bus) in
    (cleaned_up.1 ≡ (publish everyone (some an_event) a_bus).1)
    × (cleaned_up.0.events_published ≡ (publish everyone (some an_event) a_bus).0.events_published)
publish-cleanup_handlers_example = publish-cleanup_handlers everyone (some an_event) a_bus

abbrev a_result : MotorEvent
a_result = motor_function_result_event can0 3 4 true

abbrev a_failure : MotorEvent
a_failure = motor_function_result_event can0 3 2 false

get_topic-eq-get_topic_example : get_topic a_result ≡ get_topic a_failure
get_topic-eq-get_topic_example = (get_topic-eq-get_topic a_result a_failure).1 refl

-- A driver with a bus of its own, and the bridge 8 between two other observers.
abbrev bridged : MotorDriver
bridged = record (new_motor_driver 0) { observers = 4 ∷ 8 ∷ 5 ∷ []; event_bus = true }

handle_bus_packet-same_events_example :
    let effects = (handle_bus_packet everyone (packet_of 0x503 storage 3) bridged).1 in
    run (bridge_step everyone 8) effects (some a_bus) ≡ run (own_step everyone) effects (some a_bus)
unfolding live
handle_bus_packet-same_events_example =
    handle_bus_packet-same_events everyone 8 everyone (4 ∷ []) (5 ∷ []) (packet_of 0x503 storage 3)
      bridged a_bus refl (omega arith, tt) (omega arith, tt) refl
