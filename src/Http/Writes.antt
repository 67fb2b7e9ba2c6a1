-- ===== src/Http/Writes.antt =====
-- What a write of a CI over HTTP goes by: the If-Match header and the ETag.
use cmdboss.Prelude.{ℕ, ◌+◌, ◌≡◌, refl, ap, ◌∙◌, String, Bool, true, some, Option, Dict, eq_iff}
use cmdboss.Value.{Value, Number}
use cmdboss.Errors.Result.{ok, lift}
use cmdboss.Errors.Result.Runs.{bind_ok}
use cmdboss.Documents.{CiDoc, Item, serialize}
use cmdboss.Driver.{Driver}
use cmdboss.Registry.{TypeDoc}
use cmdboss.Security.{Principal}
use cmdboss.Store.{Store, Config, Readings, Caller, put_cis}
use cmdboss.Store.Frame.{Reported-cis}
use cmdboss.Repository.{has_id}
use cmdboss.Repository.Update.{update, edited}
use cmdboss.Repository.Update.Cas.{HasUniqueIds, Updated, revision_entry, updated_event}
use cmdboss.Repository.Update.Revisions.{update_effects}
use cmdboss.Http.{Response, with_etag, etag_of, parse_if_match, caller_of, write_ci}
use cmdboss.Http.Revisions.{parse_if_match-etag_of}

module _ (mongo : Driver) (cfg : Config mongo) where
  -- a document and the one that an update leaves in its place, one revision on
  abbrev pub Replaced : String → ℕ → CiDoc → CiDoc → Store mongo → Store mongo → Type 0
  Replaced type_name oid old new s s' =
      (mongo.find_one (has_id oid) (s.cis type_name) ≡ some old)
      × (mongo.find_one (has_id oid) (s'.cis type_name) ≡ some new)
      × (new.meta.revision ≡ old.meta.revision + 1)

  Updated-Replaced :
      (r : Readings) (type_name item_id : String) (oid : ℕ) (t : TypeDoc) (expected : Option Number)
      (caller : Caller) (x : Item) (s s' : Store mongo)
      → Updated mongo cfg r type_name item_id oid t expected caller x s s'
      → (old new : CiDoc) × Replaced type_name oid old new s s'
        × (expected ≡ some (Number.above old.meta.revision))
        × (x.meta.revision ≡ new.meta.revision)
  unfolding Updated serialize
  Updated-Replaced r type_name item_id oid t expected caller x s s'
        (old, fields, c, found, current, made, after, returned, reported) =
      let new = edited r caller.actor t.version (old.meta.revision + 1) fields old in
      let cis =
        Reported-cis mongo cfg r
          (revision_entry mongo cfg r type_name item_id t.version old new caller)
          (updated_event mongo cfg r type_name item_id new caller) (put_cis mongo type_name c s) s'
          reported in
      (
        old,
        new,
        (found, rw (cis, (eq_iff type_name type_name).1 refl) after, refl),
        current,
        ap (λ (i : Item). i.meta.revision) returned,
      )

  -- Where the ids of the type are unique, a PUT or PATCH of a CI that is answered at all without an
  -- error carried an If-Match header that is read as the revision of the CI's document, has
  -- replaced the document at the next revision, and is answered by 200 with an ETag that is read
  -- back as that next revision when the client sends it as If-Match.
  pub write_ci-parse_if_match :
      (partial : Bool) (r : Readings) (rid : Option ℕ) (type_name item_id : String)
      (payload : Dict Value) (if_match : Option String) (p : Principal) (s s' : Store mongo)
      (x : Response)
      → HasUniqueIds mongo cfg type_name s
      → write_ci mongo cfg partial r rid type_name item_id payload if_match p s ≡ (ok x, s')
      → (oid : ℕ) × (old new : CiDoc) × (etag : String) × (mongo.object_id item_id ≡ some oid)
        × Replaced type_name oid old new s s'
        × (parse_if_match true if_match ≡ ok (some (Number.above old.meta.revision)))
        × (x.status ≡ 200)
        × (x.etag ≡ some etag)
        × (parse_if_match true (some etag) ≡ ok (some (Number.above new.meta.revision)))
  unfolding write_ci with_etag
  write_ci-parse_if_match partial r rid type_name item_id payload if_match p s s' x unique h =
      let (expected, s1, h1, k1) = bind_ok (lift (parse_if_match true if_match)) _ s s' x h in
      let (doc, s2, h2, k2) =
        bind_ok (update mongo cfg r type_name item_id payload expected partial (caller_of rid p)) _
          s1 s' x k1 in
      let start : s ≡ s1 = ap (λ y. y.1) h1 in
      let end : s2 ≡ s' = ap (λ y. y.1) k2 in
      let sent : with_etag 200 doc ≡ x = cc in
      let (t, oid, id, updated) =
        update_effects mongo cfg r type_name item_id payload expected partial (caller_of rid p) s s'
          doc unique (rw (start, ← end) h2) in
      let (old, new, replaced, current, revision) =
        Updated-Replaced r type_name item_id oid t expected (caller_of rid p) doc s s' updated in
      (
        oid,
        old,
        new,
        etag_of doc.meta.revision,
        id,
        replaced,
        ap (λ y. y.0) h1 ∙ ap (λ e. ok e) current,
        rw (← sent) refl,
        rw (← sent) refl,
        parse_if_match-etag_of true doc.meta.revision
            ∙ ap (λ n. ok (some (Number.above n))) revision,
      )
