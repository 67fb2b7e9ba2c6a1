-- ===== src/EventBus.antt =====
-- cmdboss/events.py: the bus as the dispatcher sees it, and the in-memory bus with its bounded queue.
pub mod Queue
use cmdboss.Prelude.{
  ℕ, ◌+◌, String, Bool, ◌&&◌, Option, none, List, [], ◌∷◌, ◌++◌, map, length, ltb, leb,
  if◌then◌else◌,
}
use cmdboss.Documents.{Event}

-- EventBus.publish on a bus in state `B`: the new state, and the text of the exception that it
-- raised, if it did.
abbrev pub Publish : Type 0 → Type 0
Publish B = Event → B → Option String × B

-- InMemoryEventBus: `dropped` and `published` are its two metrics, `handled` the calls of handlers
-- that the consumer has made, newest last, with what each raised.
pub record InMemoryBus (H : Type 0) : Type 0 where
  pub max_queue : ℕ
  pub queue : List Event
  pub published : ℕ
  pub dropped : ℕ
  pub handlers : List H
  pub handled : List (H × Event × Option String)

module _ {H : Type 0} where
  -- asyncio.Queue.full(): a bound of 0 is no bound
  pub is_full : InMemoryBus H → Bool
  is_full bus = ltb 0 bus.max_queue && leb bus.max_queue (length bus.queue)

  pub subscribe : H → InMemoryBus H → InMemoryBus H
  subscribe handler bus = record bus { handlers = bus.handlers ++ handler ∷ [] }

  -- a full queue drops the event and counts it: nothing is raised
  unfoldable pub publish : Publish (InMemoryBus H)
  unfolding is_full
  publish event bus =
      let counted = record bus { published = bus.published + 1 } in
      if is_full bus
      then (none, record counted { dropped = bus.dropped + 1 })
      else (none, record counted { queue = bus.queue ++ event ∷ [] })

  -- one round of the consumer loop `_run`: every handler is called with the event at the head, and
  -- an exception of one does not keep the others from it (gather with return_exceptions)
  module _ (call : H → Event → Option String) where
    take_event : List Event → InMemoryBus H → InMemoryBus H
    take_event [] bus = bus
    take_event (event ∷ rest) bus = record bus {
      queue = rest;
      handled = bus.handled ++ map (λ h. (h, event, call h event)) bus.handlers;
    }

    pub consume : InMemoryBus H → InMemoryBus H
    unfolding take_event
    consume bus = take_event bus.queue bus
