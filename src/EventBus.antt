-- ===== src/EventBus.antt =====
-- include/hardware_driver/event/event_bus.hpp: the event bus. `std::type_index` is a number, 0 for the
-- base class `Event`; the event classes derive from it directly. A handler is held by a weak
-- pointer: `alive` says which handlers still exist. A handler that throws is one that returns.
pub mod Delivery
use hardware_driver.Base.{
  ℕ, zero, suc, ◌+◌, String, List, [], ◌∷◌, ◌++◌, Bool, true, false, not, ◌&&◌, ◌||◌, ◌==◌,
  if◌then◌else◌, Option, none, some, length, map, find, assign, nat_eq, string_eq,
}

-- What a handler sees of an event.
pub record Event : Type 0 where
  pub type_index : ℕ
  pub topic : String

-- `TypedEventHandler<EventType>`: the object's identity and its `EventType`.
pub record Handler : Type 0 where
  pub id : ℕ
  pub event_type : ℕ

pub record EventBus : Type 0 where
  pub handlers : List (ℕ × List Handler)
  pub topic_handlers : List (String × List Handler)
  pub events_published : ℕ

pub new_event_bus : EventBus
new_event_bus = record { handlers = []; topic_handlers = []; events_published = 0 }

-- `map[key]`, an empty list for a new key.
abbrev pub or_empty : Option (List Handler) → List Handler
or_empty none = []
or_empty (some hs) = hs

pub subscribe : ℕ → ℕ → EventBus → EventBus
subscribe event_type id s = record s {
  handlers =
      assign event_type
        (or_empty (find event_type s.handlers) ++ record { id = id; event_type = event_type } ∷ [])
        s.handlers;
}

pub subscribe_topic : ℕ → String → ℕ → EventBus → EventBus
subscribe_topic event_type topic id s = record s {
  topic_handlers =
      assign topic
        (or_empty (find topic s.topic_handlers) ++ record { id = id; event_type = event_type } ∷ [])
        s.topic_handlers;
}

-- `dynamic_pointer_cast<EventType>(event)` finds an `EventType`.
abbrev pub is_a : Event → ℕ → Bool
is_a e event_type = (event_type == 0) || (event_type == e.type_index)

pub record Statistics : Type 0 where
  pub total_handlers : ℕ
  pub total_topic_handlers : ℕ
  pub events_published : ℕ

pub total {ℓ} : {K : Type ℓ} → List (K × List Handler) → ℕ
total [] = 0
total ((k, hs) ∷ m) = length hs + total m

pub get_statistics : EventBus → Statistics
unfolding total
get_statistics s = record {
  total_handlers = total s.handlers;
  total_topic_handlers = total s.topic_handlers;
  events_published = s.events_published;
}

module _ (alive : ℕ → Bool) where
  -- `weak_handler.lock() == handler`, for a handler or a null pointer.
  abbrev pub locks_to : Option ℕ → Handler → Bool
  locks_to none w = not (alive w.id)
  locks_to (some h) w = alive w.id && (w.id == h)

  pub without : Option ℕ → List Handler → List Handler
  without h [] = []
  without h (w ∷ ws) = if locks_to h w then without h ws else w ∷ without h ws

  -- It looks among the handlers of the type, not among those of the topics.
  pub unsubscribe : ℕ → Option ℕ → EventBus → EventBus
  unfolding without
  unsubscribe event_type h s = elim (find event_type s.handlers) [
    | none ↦ s
    | some hs ↦ record s { handlers = assign event_type (without h hs) s.handlers }
  ]

  -- The handlers that a list of weak pointers calls for an event, in their order.
  pub deliver : Event → List Handler → List ℕ
  deliver e [] = []
  deliver e (w ∷ ws) =
      if alive w.id && is_a e w.event_type then w.id ∷ deliver e ws else deliver e ws

  pub publish_by_type : Event → EventBus → EventBus × List ℕ
  unfolding deliver
  publish_by_type e s = (
    record s { events_published = s.events_published + 1 },
    deliver e (or_empty (find e.type_index s.handlers)),
  )

  pub publish_by_topic : Event → EventBus → List ℕ
  unfolding deliver
  publish_by_topic e s = deliver e (or_empty (find e.topic s.topic_handlers))

  -- The handlers that an event or a null pointer comes to.
  pub publish : Option Event → EventBus → EventBus × List ℕ
  unfolding publish_by_type publish_by_topic
  publish none s = (s, [])
  publish (some e) s =
      let (s', calls) = publish_by_type e s in
      (s', if string_eq.is_equal e.topic "" then calls else calls ++ publish_by_topic e s')

  pub living : List Handler → List Handler
  living [] = []
  living (w ∷ ws) = if alive w.id then w ∷ living ws else living ws

  pub cleaned {ℓ} : {K : Type ℓ} → List (K × List Handler) → List (K × List Handler)
  unfolding living
  cleaned [] = []
  cleaned ((k, hs) ∷ m) = (k, living hs) ∷ cleaned m

  pub cleanup_handlers : EventBus → EventBus
  unfolding cleaned
  cleanup_handlers s = record s {
    handlers = cleaned s.handlers;
    topic_handlers = cleaned s.topic_handlers;
  }
