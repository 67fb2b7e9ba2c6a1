-- ===== src/Tests/Delivery.antt =====
-- A dispatcher over the in-memory driver.
use cmdboss.Prelude.{ℕ, zero, suc, ◌+◌, ◌*◌, ◌≤◌, ◌≡◌, Bool, none, some, List, [], ◌∷◌, arith, min}
use cmdboss.Documents.{Event, Payload}
use cmdboss.Driver.InMemory.{in_memory}
use cmdboss.EventBus.{Publish}
use cmdboss.Outbox.{new_row, is_pending}
use cmdboss.Outbox.Dispatcher.{Policy, Dispatch, backoff, dispatch_once}
use cmdboss.Outbox.Dispatcher.Invariant.{AreRows, ids, dispatch_once-AreRows, dispatch_once-ids}
use cmdboss.Outbox.Dispatcher.Backoff.{backoff_doubles}

abbrev policy : Policy
policy = record { batch = 10; max_attempts = 2; base = 2; cap = 300 }

-- a bus that raises for odd ids
abbrev flaky : Publish (List ℕ)
flaky e bus = elim e.id [ zero ↦ (none, 0 ∷ bus) | suc n ↦ (some "down", bus) ]

abbrev pub event : ℕ → Event
event n = record {
  id = n;
  type = "ci.created";
  entity_type = "server";
  entity_id = "x";
  actor = "ann";
  ts = 0;
  payload = Payload.edge (record {
    id = "e";
    rel_type = "r";
    dependency = Bool.true;
    source = record { type = "a"; id = "1" };
    target = record { type = "b"; id = "2" };
    attributes = [];
    meta = record {
      revision = 1;
      created_at = 0;
      updated_at = 0;
      created_by = "ann";
      updated_by = "ann";
      provenance = none;
    };
  });
}

abbrev start : Dispatch in_memory flaky policy
start = record {
  rows = new_row 5 (event 0) ∷ record (new_row 5 (event 1)) { attempts = 1 } ∷ [];
  bus = [];
  delivered = 0;
  events_dropped_total = 0;
}

fresh_rows : AreRows in_memory flaky policy start.rows
unfolding is_pending
fresh_rows = omega arith

-- the clock goes on by one with each row
abbrev clock : ℕ → ℕ
clock n = 10 + n

dispatch_once-AreRows_example :
    AreRows in_memory flaky policy (dispatch_once in_memory flaky policy 9 clock start).rows
dispatch_once-AreRows_example =
    dispatch_once-AreRows in_memory flaky policy 9 clock start fresh_rows

dispatch_once-ids_example :
    ids in_memory flaky policy (dispatch_once in_memory flaky policy 9 clock start).rows
    ≡ ids in_memory flaky policy start.rows
dispatch_once-ids_example = dispatch_once-ids in_memory flaky policy 9 clock start

backoff_doubles_example :
    (backoff policy 1 ≡ min 2 300)
    × (backoff policy (3 + 2) ≡ min (2 * backoff policy (3 + 1)) 300)
    × (backoff policy (3 + 1) ≤ backoff policy (3 + 2))
    × (backoff policy (3 + 1) ≤ 300)
backoff_doubles_example = backoff_doubles policy 3
