-- ===== src/EventBus/Queue.antt =====
-- The in-memory bus under any interleaving of publishers and its consumer.
use cmdboss.Prelude.{
  ◌≤◌, ◌<◌, String, Option, List, [], ◌∷◌, length, length-append, arith, Bool-cases, inl, inr,
}
use cmdboss.Documents.{Event}
use cmdboss.EventBus.{InMemoryBus, is_full, publish, take_event, consume}

module _ {H : Type 0} (call : H → Event → Option String) where
  -- a publish, or a round of the consumer, between two states of the bus
  pub data Step : InMemoryBus H → InMemoryBus H → Type 0 where
    publishes : (e : Event) (bus : InMemoryBus H) → Step bus (publish e bus).1
    consumes : (bus : InMemoryBus H) → Step bus (consume call bus)

  pub data Run : InMemoryBus H → InMemoryBus H → Type 0 where
    stop : {bus : InMemoryBus H} → Run bus bus
    then : {a b c : InMemoryBus H} → Run a b → Step b c → Run a c

  -- the queue is within its bound, and no more events were dropped than published
  pub record IsBounded (bus : InMemoryBus H) : Type 0 where
    pub has_bound : 0 < bus.max_queue
    pub in_bound : length bus.queue ≤ bus.max_queue
    pub counted : bus.dropped ≤ bus.published

  publish-IsBounded :
      (e : Event) (bus : InMemoryBus H) → IsBounded bus → IsBounded (publish e bus).1
  unfolding publish is_full
  publish-IsBounded e bus h = elim (Bool-cases (is_full bus)) [
    | inl k ↦
        rw (publish, k)
          (record { has_bound = h.has_bound; in_bound = h.in_bound; counted = omega arith })
    | inr k ↦
        rw (publish, k)
          (record {
            has_bound = h.has_bound;
            in_bound =
                let room : length bus.queue < bus.max_queue = ground (arith, h.has_bound) in
                rw (length-append bus.queue (e ∷ [])) (omega arith);
            counted = omega arith;
          })
  ]

  take_event-IsBounded :
      (q : List Event) (bus : InMemoryBus H)
      → length q ≤ bus.max_queue
      → IsBounded bus
      → IsBounded (take_event call q bus)
  unfolding take_event
  take_event-IsBounded [] bus fits h = h
  take_event-IsBounded (e ∷ q) bus fits h = record {
    has_bound = h.has_bound;
    in_bound = omega arith;
    counted = h.counted;
  }

  consume-IsBounded : (bus : InMemoryBus H) → IsBounded bus → IsBounded (consume call bus)
  unfolding consume
  consume-IsBounded bus h = take_event-IsBounded bus.queue bus h.in_bound h

  -- However publishers and the consumer interleave, from a bus with a bound that its queue is
  -- within, the queue stays within it, and no more events are dropped than were published if that
  -- was so at first.
  pub Run-IsBounded : (a b : InMemoryBus H) → IsBounded a → Run a b → IsBounded b
  Run-IsBounded a b h stop = h
  Run-IsBounded a b h (then p (publishes e bus)) = publish-IsBounded e bus (Run-IsBounded a bus h p)
  Run-IsBounded a b h (then p (consumes bus)) = consume-IsBounded bus (Run-IsBounded a bus h p)
