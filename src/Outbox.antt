-- ===== src/Outbox.antt =====
-- cmdboss/outbox.py: the store of events that wait for delivery. An operation takes the collection
-- and the readings of the clock that it makes.
pub mod Dispatcher
use cmdboss.Prelude.{
  ℕ, zero, suc, ◌+◌, ◌≡◌, String, Bool, true, false, ◌&&◌, not, Option, none, some, List, [], ◌∷◌,
  ◌==◌, leb, if◌then◌else◌, any,
}
use cmdboss.Documents.{Event}
use cmdboss.Errors.{Error}
use cmdboss.Errors.Result.{Result, ok, err}
use cmdboss.Driver.{Driver}

pub data Status : Type 0 where
  pending sent dead : Status

unfoldable pub is_pending : Status → Bool
is_pending Status.pending = true
is_pending _ = false

unfoldable pub is_dead : Status → Bool
is_dead Status.dead = true
is_dead _ = false

-- a document of `_outbox`
pub record OutboxDoc : Type 0 where
  pub id : ℕ
  pub status : Status
  pub attempts : ℕ
  pub created_at : ℕ
  pub next_attempt_at : ℕ
  pub sent_at : Option ℕ
  pub failed_at : Option ℕ
  pub last_error : Option String
  pub event : Event

-- str(error)[:n]
unfoldable pub text_take : ℕ → String → String
text_take zero s = String.[]
text_take (suc n) String.[] = String.[]
text_take (suc n) (String.◌∷◌ c s) = String.◌∷◌ c (text_take n s)

-- the collection's only unique index is the one on `_id`
abbrev pub same_id : OutboxDoc → OutboxDoc → Bool
same_id a b = a.id == b.id

abbrev pub has_id : ℕ → OutboxDoc → Bool
has_id id d = d.id == id

abbrev pub or_duplicate {ℓ} : {A : Type ℓ} → Option A → Result A
or_duplicate none = err Error.duplicate_key
or_duplicate (some a) = ok a

abbrev pub new_row : ℕ → Event → OutboxDoc
new_row now event = record {
  id = event.id;
  status = Status.pending;
  attempts = 0;
  created_at = now;
  next_attempt_at = now;
  sent_at = none;
  failed_at = none;
  last_error = none;
  event = event;
}

abbrev pub sent_row : ℕ → OutboxDoc → OutboxDoc
sent_row now d = record d { status = Status.sent; sent_at = some now }

abbrev pub later_row : ℕ → ℕ → String → OutboxDoc → OutboxDoc
later_row attempts at error d = record d {
  attempts = attempts;
  next_attempt_at = at;
  last_error = some error;
}

abbrev pub dead_row : ℕ → ℕ → String → OutboxDoc → OutboxDoc
dead_row attempts now error d = record d {
  status = Status.dead;
  attempts = attempts;
  failed_at = some now;
  last_error = some error;
}

abbrev pub replayed_row : ℕ → OutboxDoc → OutboxDoc
replayed_row now d = record d {
  status = Status.pending;
  attempts = 0;
  next_attempt_at = now;
  last_error = none;
}

module _ (mongo : Driver) where
  open mongo use {Coll, find_sorted, find_one, insert_one, update_one}

  unfoldable pub add : ℕ → Event → Coll OutboxDoc → Result (Coll OutboxDoc)
  add now event c = or_duplicate (insert_one same_id (new_row now event) c)

  pub fetch_pending : ℕ → Coll OutboxDoc → List OutboxDoc
  fetch_pending limit =
      find_sorted (λ a b. leb a.next_attempt_at b.next_attempt_at) 0 limit
        (λ d. is_pending d.status)

  pub mark_sent : ℕ → ℕ → Coll OutboxDoc → Coll OutboxDoc
  mark_sent now id = update_one (has_id id) (sent_row now)

  pub reschedule : ℕ → ℕ → ℕ → String → Coll OutboxDoc → Coll OutboxDoc
  reschedule id attempts at error =
      update_one (has_id id) (later_row attempts at (text_take 300 error))

  pub mark_dead : ℕ → ℕ → ℕ → String → Coll OutboxDoc → Coll OutboxDoc
  mark_dead now id attempts error =
      update_one (has_id id) (dead_row attempts now (text_take 300 error))

  -- newest failure first; a dead row has its `failed_at`
  pub fetch_dead : ℕ → Coll OutboxDoc → List OutboxDoc
  fetch_dead limit = find_sorted newest 0 limit (λ d. is_dead d.status)
    where
      newest : OutboxDoc → OutboxDoc → Bool
      newest a b = elim a.failed_at [
        | none ↦ false
        | some s ↦ elim b.failed_at [ none ↦ true | some t ↦ leb t s ]
      ]

  abbrev pub dead_with_id : ℕ → OutboxDoc → Bool
  dead_with_id id d = has_id id d && is_dead d.status

  -- modified_count > 0: the row was dead, so the update changes it
  pub replay : ℕ → ℕ → Coll OutboxDoc → Bool × Coll OutboxDoc
  replay now id c = (
    elim (find_one (dead_with_id id) c) [ none ↦ false | some _ ↦ true ],
    update_one (dead_with_id id) (replayed_row now) c,
  )
