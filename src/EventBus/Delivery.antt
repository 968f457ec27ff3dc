-- ===== src/EventBus/Delivery.antt =====
-- include/hardware_driver/event/event_bus.hpp: whom an event comes to.
use mathlib.Core.List.{append-nil}
use hardware_driver.Base.{
  ℕ, ◌+◌, ◌≡◌, ◌≢◌, refl, sym, ap, ◌∙◌, List, [], ◌∷◌, ◌++◌, Bool, true, ◌&&◌, ◌==◌, if◌then◌else◌,
  Option, none, some, arith, find, assign, find-assign, find-assign_self, Eq, nat_eq, string_eq,
  Bool-cases, Option-cases, inl, inr,
}
use hardware_driver.EventBus.{
  Event, Handler, EventBus, or_empty, subscribe, is_a, without, unsubscribe, deliver,
  publish_by_topic, publish, living, cleaned, cleanup_handlers,
}

-- A list without a number.
pub except : ℕ → List ℕ → List ℕ
except h [] = []
except h (x ∷ xs) = if x == h then except h xs else x ∷ except h xs

module _ (alive : ℕ → Bool) where
  deliver-append :
      (e : Event) (xs ys : List Handler)
      → deliver alive e (xs ++ ys) ≡ deliver alive e xs ++ deliver alive e ys
  unfolding deliver
  deliver-append e [] ys = refl
  deliver-append e (w ∷ ws) ys = elim (Bool-cases (alive w.id && is_a e w.event_type)) [
    | inl c ↦ rw c (ap (◌∷◌ w.id) (deliver-append e ws ys))
    | inr c ↦ rw c (deliver-append e ws ys)
  ]

  deliver-living :
      (e : Event) (ws : List Handler) → deliver alive e (living alive ws) ≡ deliver alive e ws
  unfolding deliver living
  deliver-living e [] = refl
  deliver-living e (w ∷ ws) = ground (arith, deliver-living e ws)

  find-cleaned {ℓ} :
      {K : Type ℓ} ⦃q : Eq K⦄ (k : K) (m : List (K × List Handler))
      → or_empty (find k (cleaned alive m)) ≡ living alive (or_empty (find k m))
  unfolding cleaned find living
  find-cleaned k [] = refl
  find-cleaned ⦃q⦄ k ((j, hs) ∷ m) = elim (Bool-cases (q.is_equal j k)) [
    | inl c ↦ rw c
    | inr c ↦ rw c (find-cleaned k m)
  ]

  -- The handlers that an event comes to by its type, and by its topic.
  abbrev pub by_type : Event → EventBus → List ℕ
  by_type e s = deliver alive e (or_empty (find e.type_index s.handlers))

  abbrev pub by_topic : Event → EventBus → List ℕ
  by_topic e s = if string_eq.is_equal e.topic "" then [] else publish_by_topic alive e s

  publish-calls :
      (e : Event) (s : EventBus) → (publish alive (some e) s).1 ≡ by_type e s ++ by_topic e s
  unfolding publish
  publish-calls e s = elim (Bool-cases (string_eq.is_equal e.topic "")) [
    | inl c ↦ rw (c, publish) (sym (append-nil (by_type e s)))
    | inr c ↦ rw (c, publish)
  ]

  -- A clean-up changes nobody's deliveries, however the event is typed and named, and the number of
  -- events published stays.
  pub publish-cleanup_handlers :
      (e : Option Event) (s : EventBus)
      → let cleaned_up = publish alive e (cleanup_handlers alive s) in
        (cleaned_up.1 ≡ (publish alive e s).1)
        × (cleaned_up.0.events_published ≡ (publish alive e s).0.events_published)
  unfolding publish cleanup_handlers
  publish-cleanup_handlers none s = (refl, refl)
  publish-cleanup_handlers (some e) s =
      let by_type =
        ap (deliver alive e) (find-cleaned e.type_index s.handlers)
        ∙ deliver-living e (or_empty (find e.type_index s.handlers)) in
      let by_topic =
        ap (deliver alive e) (find-cleaned e.topic s.topic_handlers)
        ∙ deliver-living e (or_empty (find e.topic s.topic_handlers)) in
      (rw (by_type, by_topic), refl)

  find_other :
      (event_type : ℕ) (e : Event) (v : List Handler) (m : List (ℕ × List Handler))
      → e.type_index ≢ event_type
      → find e.type_index (assign event_type v m) ≡ find e.type_index m
  find_other event_type e v m h = ground (arith, find-assign event_type e.type_index v m, h)

  deliver-without :
      (h : ℕ) (e : Event) (ws : List Handler)
      → deliver alive e (without alive (some h) ws) ≡ except h (deliver alive e ws)
  unfolding deliver without except
  deliver-without h e [] = refl
  deliver-without h e (w ∷ ws) = ground (arith, deliver-without h e ws)

  -- What unsubscribing does to the handlers of a type and of a topic.
  unsubscribe_cases :
      (event_type : ℕ) (h : ℕ) (e : Event) (s : EventBus)
      → let t = unsubscribe alive event_type (some h) s in
        (e.type_index ≡ event_type
          → or_empty (find e.type_index t.handlers)
            ≡ without alive (some h) (or_empty (find e.type_index s.handlers)))
        × (e.type_index ≢ event_type → find e.type_index t.handlers ≡ find e.type_index s.handlers)
        × (t.topic_handlers ≡ s.topic_handlers)
  unfolding unsubscribe without
  unsubscribe_cases event_type h e s = elim (Option-cases (find event_type s.handlers)) [
    | inl none_there ↦ (
      λ same.
          let f = ap (λ k. find k s.handlers) same ∙ none_there in
          rw (none_there, unsubscribe, f) refl,
      λ _. rw (none_there, unsubscribe),
      rw (none_there, unsubscribe),
    )
    | inr (hs, there) ↦ (
      λ same.
          let v = without alive (some h) hs in
          let f = ap (λ k. find k s.handlers) same ∙ there in
          let g =
            ap (λ k. find k (assign event_type v s.handlers)) same
            ∙ find-assign_self event_type v s.handlers in
          rw (there, unsubscribe, f, g) refl,
      λ other. rw (there, unsubscribe) (find_other event_type e _ s.handlers other),
      rw (there, unsubscribe),
    )
  ]

  -- A living handler that has subscribed to a type is called for each event of the type, after those
  -- that were there before and before those of the event's topic; other events are delivered as
  -- before, and each event is counted.
  publish-subscribe :
      (event_type id : ℕ) (e : Event) (s : EventBus)
      → alive id ≡ true
      → let r = publish alive (some e) (subscribe event_type id s) in
        (e.type_index ≡ event_type → r.1 ≡ by_type e s ++ id ∷ [] ++ by_topic e s)
        × (e.type_index ≢ event_type → r.1 ≡ (publish alive (some e) s).1)
        × (r.0.events_published ≡ s.events_published + 1)
  unfolding publish subscribe deliver
  publish-subscribe event_type id e s h =
      let t = subscribe event_type id s in
      (
        λ same.
            let hs = or_empty (find e.type_index s.handlers) in
            let w : Handler = record { id = id; event_type = e.type_index } in
            publish-calls e t
            ∙ (rw (sym same) (
                rw
                  (
                    find-assign_self e.type_index (hs ++ w ∷ []) s.handlers,
                    deliver-append e hs (w ∷ []),
                  )
                  (let c : (alive id && is_a e e.type_index) ≡ true = ground (arith, h) in rw c))),
        λ other.
            publish-calls e t
            ∙ (rw
                (find_other event_type e
                  (or_empty (find event_type s.handlers)
                    ++ record { id = id; event_type = event_type } ∷ [])
                  s.handlers other)
                (sym (publish-calls e s))),
        refl,
      )

  -- Unsubscribing takes a living handler out of the events of its type and leaves the others, in
  -- their order; what the handler hears by a topic, and events of other types, stay as they are.
  publish-unsubscribe :
      (event_type h : ℕ) (e : Event) (s : EventBus)
      → let r = publish alive (some e) (unsubscribe alive event_type (some h) s) in
        (e.type_index ≡ event_type → r.1 ≡ except h (by_type e s) ++ by_topic e s)
        × (e.type_index ≢ event_type → r.1 ≡ (publish alive (some e) s).1)
  unfolding publish_by_topic
  publish-unsubscribe event_type h e s =
      let t = unsubscribe alive event_type (some h) s in
      let (self, others, topics) = unsubscribe_cases event_type h e s in
      let by_topic_same : by_topic e t ≡ by_topic e s = rw topics in
      (
        λ same.
            publish-calls e t
            ∙ ap (λ r. r ++ by_topic e t)
                (ap (deliver alive e) (self same)
                  ∙ deliver-without h e (or_empty (find e.type_index s.handlers)))
            ∙ ap (◌++◌ (except h (by_type e s))) by_topic_same,
        λ other. publish-calls e t ∙ (rw (others other, by_topic_same) (sym (publish-calls e s))),
      )
