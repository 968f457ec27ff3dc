-- ===== src/EventBridge/SameEvents.antt =====
-- src/event/event_bridge.hpp: a bridge makes of the notices what the motor driver publishes itself.
use mathlib.Core.List.{append-nil}
use hardware_driver.Base.{
  ℕ, ◌≡◌, ◌≢◌, refl, sym, ap, ◌∙◌, List, [], ◌∷◌, ◌++◌, Bool, true, Option, some, map, arith, All,
  All-mono, All-append, each_unit, All-map,
}
use hardware_driver.Bus.{GenericBusPacket}
use hardware_driver.EventBus.{EventBus}
use hardware_driver.MotorDriver.{MotorDriver}
use hardware_driver.MotorDriver.Dispatch.{
  Effect, button_packet, feedback_call, iap_notice, status_notice, function_notice,
  parameter_notice, status_event, function_event, parameter_event, live, handle_bus_packet,
}
use hardware_driver.MotorDriver.Dispatch.Notices.{
  Twin, status, function, parameter, IsPrivate, Announces, silent, told,
  handle_bus_packet-Announces,
}
use hardware_driver.EventBridge.{bridge_step, own_step, run}

-- Effects of which a step makes nothing.
abbrev IsIdle : (Effect → Option EventBus → Option EventBus × List ℕ) → Effect → Type 0
IsIdle step x = (bus : Option EventBus) → step x bus ≡ (bus, [])

run-idle :
    (step : Effect → Option EventBus → Option EventBus × List ℕ) (xs ys : List Effect)
    (bus : Option EventBus)
    → All (IsIdle step) xs
    → run step (xs ++ ys) bus ≡ run step ys bus
unfolding run
run-idle step [] ys bus h = refl
run-idle step (x ∷ xs) ys bus h = rw (h.0 bus) (run-idle step xs ys bus h.1)

run-only_idle :
    (step : Effect → Option EventBus → Option EventBus × List ℕ) (xs : List Effect)
    (bus : Option EventBus)
    → All (IsIdle step) xs
    → run step xs bus ≡ (bus, [])
unfolding run
run-only_idle step [] bus h = refl
run-only_idle step (x ∷ xs) bus h = rw (h.0 bus) (run-only_idle step xs bus h.1)

-- Only the first effect does something.
run-once :
    (step : Effect → Option EventBus → Option EventBus × List ℕ) (x : Effect) (xs : List Effect)
    (bus : Option EventBus)
    → All (IsIdle step) xs
    → run step (x ∷ xs) bus ≡ step x bus
unfolding run
run-once step x xs bus h = rw (run-only_idle step xs (step x bus).0 h, append-nil (step x bus).1)

map-append-cons :
    (notice : ℕ → Effect) (ws vs : List ℕ) (w : ℕ) (rest : List Effect)
    → map notice (ws ++ w ∷ vs) ++ rest ≡ map notice ws ++ notice w ∷ (map notice vs ++ rest)
map-append-cons notice [] vs w rest = refl
map-append-cons notice (u ∷ ws) vs w rest =
    ap (◌∷◌ (notice u)) (map-append-cons notice ws vs w rest)

module _ (alive : ℕ → Bool) (bridge : ℕ) where
  private_steps :
      (callback : Bool) (x : Effect)
      → IsPrivate callback x
      → IsIdle (bridge_step alive bridge) x × IsIdle (own_step alive) x
  unfolding bridge_step own_step
  private_steps callback (button_packet i id d n) h = (λ bus. refl, λ bus. refl)
  private_steps callback (feedback_call i m st) h = (λ bus. refl, λ bus. refl)
  private_steps callback (iap_notice o i m st) h = (λ bus. refl, λ bus. refl)
  private_steps callback (status_notice o i m st) h = elim h [ ]
  private_steps callback (function_notice o i m op ok) h = elim h [ ]
  private_steps callback (parameter_notice o i m a d v) h = elim h [ ]
  private_steps callback (status_event i m st) h = elim h [ ]
  private_steps callback (function_event i m op ok) h = elim h [ ]
  private_steps callback (parameter_event i m a d v) h = elim h [ ]

  -- Of a notice to the bridge and of its twin the two make the same; of the others' nothing.
  notice_steps :
      (notice : ℕ → Effect) (event : Effect)
      → Twin notice event
      → ((bus : Option EventBus)
          → bridge_step alive bridge (notice bridge) bus ≡ own_step alive event bus)
        × ((w : ℕ) → w ≢ bridge → IsIdle (bridge_step alive bridge) (notice w))
        × ((w : ℕ) → IsIdle (own_step alive) (notice w))
        × IsIdle (bridge_step alive bridge) event
  unfolding bridge_step own_step
  notice_steps _ _ (status i m st) =
      (λ bus. ground arith, λ w ne bus. ground (arith, ne), λ w bus. refl, λ bus. refl)
  notice_steps _ _ (function i m op ok) =
      (λ bus. ground arith, λ w ne bus. ground (arith, ne), λ w bus. refl, λ bus. refl)
  notice_steps _ _ (parameter i m a d v) =
      (λ bus. ground arith, λ w ne bus. ground (arith, ne), λ w bus. refl, λ bus. refl)

  -- The bridge's share, and the driver's own, of what follows the private effects.
  one_notice_same :
      (notice : ℕ → Effect) (event : Effect) (before after : List ℕ) (bus : Option EventBus)
      → Twin notice event
      → All (λ w. w ≢ bridge) before
      → All (λ w. w ≢ bridge) after
      → let effects = map notice (before ++ bridge ∷ after) ++ event ∷ [] in
        run (bridge_step alive bridge) effects bus ≡ run (own_step alive) effects bus
  one_notice_same notice event before after bus t hb ha =
      let step = bridge_step alive bridge in
      let own = own_step alive in
      let (same, others, own_idle, event_idle) = notice_steps notice event t in
      let by_bridge =
        ap (λ xs. run step xs bus) (map-append-cons notice before after bridge (event ∷ []))
        ∙ run-idle step (map notice before) (notice bridge ∷ (map notice after ++ event ∷ [])) bus
            (All-map notice (IsIdle step) (λ w. w ≢ bridge) others before hb)
        ∙ run-once step (notice bridge) (map notice after ++ event ∷ []) bus (
            All-append (IsIdle step) (map notice after) (event ∷ [])
              (All-map notice (IsIdle step) (λ w. w ≢ bridge) others after ha) (event_idle, tt)) in
      let by_driver =
        run-idle own (map notice (before ++ bridge ∷ after)) (event ∷ []) bus (
          All-map notice (IsIdle own) (λ w. Unit {0}) (λ w _. own_idle w) _
            (each_unit (before ++ bridge ∷ after)))
        ∙ run-once own event [] bus tt in
      by_bridge ∙ same bus ∙ sym by_driver

  -- A bridge on a bus that is also the motor driver's own, registered once among the living
  -- observers: whatever packet comes in, the bridge puts the same events on the bus as the driver,
  -- the same handlers are called in the same order, and the bus is left the same.
  pub handle_bus_packet-same_events :
      (is_living : ℕ → Bool) (before after : List ℕ) (p : GenericBusPacket) (s : MotorDriver)
      (bus : EventBus)
      → live is_living s.observers ≡ before ++ bridge ∷ after
      → All (λ w. w ≢ bridge) before
      → All (λ w. w ≢ bridge) after
      → s.event_bus ≡ true
      → let effects = (handle_bus_packet is_living p s).1 in
        run (bridge_step alive bridge) effects (some bus) ≡ run (own_step alive) effects (some bus)
  handle_bus_packet-same_events is_living before after p s bus observers hb ha is_set =
      same_of (handle_bus_packet-Announces is_living p s)
    where
      same_of :
          Announces is_living s (handle_bus_packet is_living p s).1
          → run (bridge_step alive bridge) (handle_bus_packet is_living p s).1 (some bus)
            ≡ run (own_step alive) (handle_bus_packet is_living p s).1 (some bus)
      same_of (silent h) =
          run-only_idle (bridge_step alive bridge) _ (some bus)
            (All-mono (λ x k. (private_steps s.feedback_callback x k).0) _ h)
          ∙ sym (
              run-only_idle (own_step alive) _ (some bus)
                (All-mono (λ x k. (private_steps s.feedback_callback x k).1) _ h))
      same_of (told first notice event h t e) = rw e (
          run-idle (bridge_step alive bridge) first _ (some bus)
            (All-mono (λ x k. (private_steps s.feedback_callback x k).0) first h)
          ∙ rw (observers, is_set) (one_notice_same notice event before after (some bus) t hb ha)
          ∙ sym (
              run-idle (own_step alive) first _ (some bus)
                (All-mono (λ x k. (private_steps s.feedback_callback x k).1) first h)))
