-- ===== src/Tests/Bus.antt =====
-- A bus with room for one event, and two publishers before the consumer runs.
use cmdboss.Prelude.{◌≡◌, refl, String, Option, none, [], ◌∷◌, arith, length}
use cmdboss.Documents.{Event}
use cmdboss.EventBus.{InMemoryBus, publish, consume}
use cmdboss.EventBus.Queue.{Run, IsBounded, publishes, consumes, stop, then, Run-IsBounded}
use cmdboss.Tests.Delivery.{event}

abbrev quiet : String → Event → Option String
quiet h e = none

abbrev small : InMemoryBus String
small = record {
  max_queue = 1;
  queue = [];
  published = 0;
  dropped = 0;
  handlers = "webhooks" ∷ [];
  handled = [];
}

abbrev after_one : InMemoryBus String
after_one = (publish (event 0) small).1

abbrev after_two : InMemoryBus String
after_two = (publish (event 1) after_one).1

-- the second event is dropped
second_dropped : (after_two.dropped ≡ 1) × (length after_two.queue ≡ 1)
unfolding publish
second_dropped = (refl, refl)

small-IsBounded : IsBounded quiet small
small-IsBounded = record { has_bound = omega arith; in_bound = omega arith; counted = omega arith }

busy-Run : Run quiet small (consume quiet after_two)
busy-Run =
    then (then (then stop (publishes (event 0) small)) (publishes (event 1) after_one))
      (consumes after_two)

Run-IsBounded_example : IsBounded quiet (consume quiet after_two)
Run-IsBounded_example = Run-IsBounded quiet small (consume quiet after_two) small-IsBounded busy-Run
