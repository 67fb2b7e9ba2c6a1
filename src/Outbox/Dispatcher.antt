-- ===== src/Outbox/Dispatcher.antt =====
-- OutboxDispatcher of cmdboss/outbox.py, over any bus.
pub mod Invariant
pub mod Backoff
use cmdboss.Prelude.{
  ℕ, suc, ◌+◌, ◌-◌, ◌*◌, ◌^◌, String, Bool, Option, none, some, List, [], ◌∷◌, ltb, leb, min,
  if◌then◌else◌,
}
use cmdboss.Driver.{Driver}
use cmdboss.EventBus.{Publish}
use cmdboss.Outbox.{OutboxDoc, fetch_pending, mark_sent, reschedule, mark_dead}

-- the settings that the dispatcher keeps
pub record Policy : Type 0 where
  pub batch : ℕ
  pub max_attempts : ℕ
  pub base : ℕ
  pub cap : ℕ

-- `_backoff`
unfoldable pub backoff : Policy → ℕ → ℕ
backoff p attempts = min (p.base * 2 ^ (attempts - 1)) p.cap

module _ (mongo : Driver) {B : Type 0} (publish : Publish B) (p : Policy) where
  pub record Dispatch : Type 0 where
    pub rows : mongo.Coll OutboxDoc
    pub bus : B
    pub delivered : ℕ
    pub events_dropped_total : ℕ

  -- the `except` branch: `later` is the reading that mark_dead makes
  pub failed : ℕ → ℕ → OutboxDoc → String → Dispatch → Dispatch
  failed now later doc error s =
      let attempts = doc.attempts + 1 in
      if leb p.max_attempts attempts
      then record s {
        rows = mark_dead mongo later doc.id attempts error s.rows;
        events_dropped_total = s.events_dropped_total + 1;
      }
      else record s {
        rows = reschedule mongo doc.id attempts (now + backoff p attempts) error s.rows;
      }

  outcome : ℕ → ℕ → OutboxDoc → Option String × B → Dispatch → Dispatch
  unfolding failed
  outcome now later doc (none, bus) s = record s {
    rows = mark_sent mongo later doc.id s.rows;
    bus = bus;
    delivered = s.delivered + 1;
  }
  outcome now later doc (some error, bus) s = failed now later doc error (record s { bus = bus })

  -- the body of the loop: a row that is not due is passed over
  pub deliver : ℕ → ℕ → OutboxDoc → Dispatch → Dispatch
  unfolding outcome
  deliver now later doc s =
      if ltb now doc.next_attempt_at then s else outcome now later doc (publish doc.event s.bus) s

  -- the loop, with the reading that the pass over each document makes when it marks it
  pub deliver_all : ℕ → (ℕ → ℕ) → List OutboxDoc → Dispatch → Dispatch
  deliver_all now clock [] s = s
  deliver_all now clock (doc ∷ docs) s =
      deliver_all now (λ n. clock (suc n)) docs (deliver now (clock 0) doc s)

  pub dispatch_once : ℕ → (ℕ → ℕ) → Dispatch → Dispatch
  dispatch_once now clock s =
      deliver_all now clock (fetch_pending mongo p.batch s.rows) (record s { delivered = 0 })
