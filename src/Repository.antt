-- ===== src/Repository.antt =====
-- CIRepository of cmdboss/repository.py. `_validate` is called with a dict only (the routers' type),
-- so its first test never fires. Metrics and logging are left out.
pub mod Guard
pub mod Prepared
pub mod Create
pub mod Update
pub mod Delete
pub mod Discovery
pub mod Missing
pub mod Listing
use cmdboss.Prelude.{
  ap, sym, ==_iff, ◌≡◌, ℕ, ◌+◌, String, Bool, true, false, ◌&&◌, not, Option, none, some, List, [],
  ◌∷◌, Dict, str_eq, ◌==◌, if◌then◌else◌,
}
use cmdboss.Errors.{Error}
use cmdboss.Errors.Result.{Result, ok, err, Exec, pure, raise, lift, or_raise, ◌>>=◌, ◌>>◌, guard}
use cmdboss.Value.{Value, Number}
use cmdboss.Documents.{CiDoc, Item, Meta, serialize}
use cmdboss.Driver.{Driver}
use cmdboss.Registry
use cmdboss.Registry.{TypeDoc, Model}
use cmdboss.Store.{Store, Config, Readings, spelling, put_cis}

-- {"_id": oid}
abbrev pub has_id : ℕ → CiDoc → Bool
has_id oid d = d.id == oid

-- an expected revision is the revision of a document
abbrev pub is_revision : Number → ℕ → Bool
is_revision (Number.above n) revision = revision == n
is_revision (Number.below n) revision = false

pub is_revision-eq :
    (n : Number) (revision : ℕ) → is_revision n revision ≡ true → n ≡ Number.above revision
is_revision-eq (Number.above n) revision h = ap Number.above (sym ((==_iff revision n).0 h))
is_revision-eq (Number.below n) revision h = cc

module _ (mongo : Driver) (cfg : Config mongo) where
  with_worker : {A : Type 0} → Store mongo → A × Registry.Worker mongo → A × Store mongo
  with_worker s (a, w) = (a, record s { worker = w })

  found_type : Option TypeDoc × Store mongo → Result TypeDoc × Store mongo
  found_type (none, s) = (err Error.not_found, s)
  found_type (some t, s) = (ok t, s)

  -- `_type_doc`
  unfoldable pub type_doc : Readings → String → Exec (Store mongo) TypeDoc
  unfolding with_worker found_type
  type_doc r type_name s =
      found_type (with_worker s (Registry.get_type mongo r.tick_1 r.tick_2 type_name s.worker))

  -- `self._registry.compile(type_name)`
  unfoldable pub compiled : Readings → String → Exec (Store mongo) Model
  unfolding with_worker
  compiled r type_name s =
      with_worker s
        (Registry.compile mongo cfg.compiles cfg.creates r.tick_3 r.tick_4 type_name s.worker)

  -- `_validate`
  unfoldable pub validated : Model → Dict Value → Exec (Store mongo) (Dict Value)
  validated model payload = or_raise (cfg.validate model payload) Error.validation_failed

  -- parse_object_id of utils.py
  unfoldable pub parse_object_id : String → Exec (Store mongo) ℕ
  parse_object_id value = or_raise (mongo.object_id value) Error.bad_request

  -- `coll.find_one({"_id": oid})`, and the 404 where it is None
  unfoldable pub existing : String → ℕ → Exec (Store mongo) CiDoc
  existing type_name oid s =
      or_raise (mongo.find_one (has_id oid) (s.cis type_name)) Error.not_found s

  -- `get`
  unfoldable pub get : Readings → String → String → Exec (Store mongo) Item
  unfolding type_doc parse_object_id existing
  get r type_name item_id = do
    t ← type_doc r type_name
    oid ← parse_object_id item_id
    doc ← existing type_name oid
    pure (serialize (spelling mongo cfg) doc)
