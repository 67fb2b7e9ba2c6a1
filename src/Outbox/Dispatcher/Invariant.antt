-- ===== src/Outbox/Dispatcher/Invariant.antt =====
-- A round of the dispatcher keeps every row, and keeps the rows' attempts within the policy.
use cmdboss.Prelude.{
  ℕ, suc, ◌+◌, ◌≤◌, ◌<◌, ◌≡◌, refl, ◌∙◌, String, Bool, true, Option, none, some, List, [], ◌∷◌, map,
  All, All-at, All-intro, All-update_first, map-update_first, arith, ltb, leb, Bool-cases, inl, inr,
}
use cmdboss.Driver.{Driver}
use cmdboss.EventBus.{Publish}
use cmdboss.Outbox.{
  is_pending, OutboxDoc, sent_row, later_row, dead_row, fetch_pending, mark_sent, reschedule,
  mark_dead,
}
use cmdboss.Outbox.Dispatcher.{
  Policy, Dispatch, failed, outcome, deliver, deliver_all, dispatch_once,
}

-- what the policy allows a row
pub record IsRow (max_attempts : ℕ) (d : OutboxDoc) : Type 0 where
  pub bounded : d.attempts ≤ max_attempts
  pub open_while_pending : is_pending d.status ≡ true → d.attempts < max_attempts

sent-IsRow : (m now : ℕ) (d : OutboxDoc) → IsRow m d → IsRow m (sent_row now d)
unfolding is_pending
sent-IsRow m now d h = record { bounded = h.bounded; open_while_pending = λ e. cc }

later-IsRow :
    (m n at : ℕ) (error : String) (d : OutboxDoc) → n < m → IsRow m (later_row n at error d)
later-IsRow m n at error d h = record { bounded = omega arith; open_while_pending = λ e. h }

dead-IsRow :
    (m n now : ℕ) (error : String) (d : OutboxDoc) → n ≤ m → IsRow m (dead_row n now error d)
unfolding is_pending
dead-IsRow m n now error d h = record { bounded = h; open_while_pending = λ e. cc }

module _ (mongo : Driver) {B : Type 0} (publish : Publish B) (p : Policy) where
  abbrev pub AreRows : mongo.Coll OutboxDoc → Type 0
  AreRows c = All (IsRow p.max_attempts) (mongo.docs c)

  AreRows-update :
      (q : OutboxDoc → Bool) (f : OutboxDoc → OutboxDoc) (c : mongo.Coll OutboxDoc)
      → ((d : OutboxDoc) → IsRow p.max_attempts d → IsRow p.max_attempts (f d))
      → AreRows c
      → AreRows (mongo.update_one q f c)
  AreRows-update q f c keep h =
      rw (mongo.docs-update_one q f c)
        (All-update_first (IsRow p.max_attempts) q f (mongo.docs c) keep h)

  failed-AreRows :
      (now later : ℕ) (doc : OutboxDoc) (error : String) (s : Dispatch mongo publish p)
      → doc.attempts < p.max_attempts
      → AreRows s.rows
      → AreRows (failed mongo publish p now later doc error s).rows
  unfolding failed mark_dead reschedule
  failed-AreRows now later doc error s h rows =
      elim (Bool-cases (leb p.max_attempts (doc.attempts + 1))) [
        | inl last ↦
            rw last (AreRows-update _ _ s.rows (λ d _. dead-IsRow _ _ later _ d (omega arith)) rows)
        | inr more ↦
            rw more (AreRows-update _ _ s.rows (λ d _. later-IsRow _ _ _ _ d (ground arith)) rows)
      ]

  outcome-AreRows :
      (now later : ℕ) (doc : OutboxDoc) (r : Option String × B) (s : Dispatch mongo publish p)
      → doc.attempts < p.max_attempts
      → AreRows s.rows
      → AreRows (outcome mongo publish p now later doc r s).rows
  unfolding outcome mark_sent
  outcome-AreRows now later doc (none, bus) s h rows =
      AreRows-update _ _ s.rows (sent-IsRow _ later) rows
  outcome-AreRows now later doc (some error, bus) s h rows =
      failed-AreRows now later doc error (record s { bus = bus }) h rows

  deliver-AreRows :
      (now later : ℕ) (doc : OutboxDoc) (s : Dispatch mongo publish p)
      → doc.attempts < p.max_attempts
      → AreRows s.rows
      → AreRows (deliver mongo publish p now later doc s).rows
  unfolding deliver
  deliver-AreRows now later doc s h rows = elim (Bool-cases (ltb now doc.next_attempt_at)) [
    | inl early ↦ rw early rows
    | inr due ↦ rw due (outcome-AreRows now later doc (publish doc.event s.bus) s h rows)
  ]

  deliver_all-AreRows :
      (now : ℕ) (clock : ℕ → ℕ) (docs : List OutboxDoc) (s : Dispatch mongo publish p)
      → All (λ d. d.attempts < p.max_attempts) docs
      → AreRows s.rows
      → AreRows (deliver_all mongo publish p now clock docs s).rows
  unfolding deliver_all
  deliver_all-AreRows now clock [] s h rows = rows
  deliver_all-AreRows now clock (doc ∷ docs) s h rows =
      deliver_all-AreRows now (λ n. clock (suc n)) docs
        (deliver mongo publish p now (clock 0) doc s) h.1
        (deliver-AreRows now (clock 0) doc s h.0 rows)

  fetched_open :
      (c : mongo.Coll OutboxDoc)
      → AreRows c
      → All (λ d. d.attempts < p.max_attempts) (fetch_pending mongo p.batch c)
  unfolding fetch_pending
  fetched_open c rows = All-intro _ _ λ d m.
      let (stored, pending) = mongo.mem-find_sorted _ _ _ _ c d m in
      (All-at (IsRow p.max_attempts) (mongo.docs c) rows stored).open_while_pending pending

  -- Whatever the bus raises, a round keeps every row's attempts at most `max_attempts`, and those of
  -- a pending row below it.
  pub dispatch_once-AreRows :
      (now : ℕ) (clock : ℕ → ℕ) (s : Dispatch mongo publish p)
      → AreRows s.rows
      → AreRows (dispatch_once mongo publish p now clock s).rows
  unfolding dispatch_once
  dispatch_once-AreRows now clock s rows =
      deliver_all-AreRows now clock _ (record s { delivered = 0 }) (fetched_open s.rows rows) rows

  abbrev pub ids : mongo.Coll OutboxDoc → List ℕ
  ids c = map (λ d. d.id) (mongo.docs c)

  ids-update :
      (q : OutboxDoc → Bool) (f : OutboxDoc → OutboxDoc) (c : mongo.Coll OutboxDoc)
      → ((d : OutboxDoc) → (f d).id ≡ d.id)
      → ids (mongo.update_one q f c) ≡ ids c
  ids-update q f c keep =
      rw (mongo.docs-update_one q f c) (map-update_first (λ d. d.id) q f (mongo.docs c) keep)

  outcome-ids :
      (now later : ℕ) (doc : OutboxDoc) (r : Option String × B) (s : Dispatch mongo publish p)
      → ids (outcome mongo publish p now later doc r s).rows ≡ ids s.rows
  unfolding outcome failed mark_sent mark_dead reschedule
  outcome-ids now later doc (none, bus) s = ids-update _ _ s.rows (λ d. refl)
  outcome-ids now later doc (some error, bus) s =
      elim (Bool-cases (leb p.max_attempts (doc.attempts + 1))) [
        | inl last ↦ rw last (ids-update _ _ s.rows (λ d. refl))
        | inr more ↦ rw more (ids-update _ _ s.rows (λ d. refl))
      ]

  deliver-ids :
      (now later : ℕ) (doc : OutboxDoc) (s : Dispatch mongo publish p)
      → ids (deliver mongo publish p now later doc s).rows ≡ ids s.rows
  unfolding deliver
  deliver-ids now later doc s = elim (Bool-cases (ltb now doc.next_attempt_at)) [
    | inl early ↦ rw early
    | inr due ↦ rw due (outcome-ids now later doc (publish doc.event s.bus) s)
  ]

  deliver_all-ids :
      (now : ℕ) (clock : ℕ → ℕ) (docs : List OutboxDoc) (s : Dispatch mongo publish p)
      → ids (deliver_all mongo publish p now clock docs s).rows ≡ ids s.rows
  unfolding deliver_all
  deliver_all-ids now clock [] s = refl
  deliver_all-ids now clock (doc ∷ docs) s =
      deliver_all-ids now (λ n. clock (suc n)) docs (deliver mongo publish p now (clock 0) doc s)
      ∙ deliver-ids now (clock 0) doc s

  -- A round neither drops nor adds a row of the outbox.
  pub dispatch_once-ids :
      (now : ℕ) (clock : ℕ → ℕ) (s : Dispatch mongo publish p)
      → ids (dispatch_once mongo publish p now clock s).rows ≡ ids s.rows
  unfolding dispatch_once
  dispatch_once-ids now clock s =
      deliver_all-ids now clock (fetch_pending mongo p.batch s.rows) (record s { delivered = 0 })
