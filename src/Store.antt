-- ===== src/Store.antt =====
-- The database of one deployment as the repositories of repository.py and graph.py use it, with the
-- registry of the worker that serves the request, and what a request brings along.
pub mod Frame
pub mod Returns
use cmdboss.Prelude.{ℕ, String, Bool, Option, none, some, Dict, insert, str_eq, if◌then◌else◌}
use cmdboss.Errors.{Error}
use cmdboss.Errors.Result.{Result, ok, err, Exec}
use cmdboss.Value.{Value, Spelling}
use cmdboss.Documents.{CiDoc, EdgeDoc, Payload, Event}
use cmdboss.Driver.{Driver}
use cmdboss.Audit
use cmdboss.Audit.{AuditDoc, Entry}
use cmdboss.Outbox
use cmdboss.Outbox.{OutboxDoc}
use cmdboss.Idempotency.{IdempotencyDoc}
use cmdboss.Registry.{Worker, Model}

-- The readings of clocks and fresh ids that an operation makes: `ticks` are those of
-- time.monotonic() in the registry, `now` is utcnow().
pub record Readings : Type 0 where
  pub tick_1 : ℕ
  pub tick_2 : ℕ
  pub tick_3 : ℕ
  pub tick_4 : ℕ
  pub now : ℕ
  pub claimed_at : ℕ
  pub completed_at : ℕ
  pub oid : ℕ
  pub audit_id : ℕ
  pub audited_at : ℕ
  pub event_id : ℕ
  pub event_at : ℕ
  pub queued_at : ℕ

-- who asks
pub record Caller : Type 0 where
  pub actor : String
  pub request_id : Option ℕ

module _ (mongo : Driver) where
  pub record Store : Type 0 where
    pub worker : Worker mongo
    -- db["ci_" + type_name]
    pub cis : String → mongo.Coll CiDoc
    pub edges : mongo.Coll EdgeDoc
    pub audit : mongo.Coll AuditDoc
    pub outbox : mongo.Coll OutboxDoc
    pub idempotency : mongo.Coll IdempotencyDoc

  -- what the settings fix, and the parts that are not in the repository: pydantic's validation of a
  -- payload against a compiled model (the dumped model, or a ValidationError), the regular
  -- expressions that `re` compiles, the definitions that pydantic's create_model accepts, and the unique indexes of a CI collection
  pub record Config : Type 0 where
    pub txn_enabled : Bool
    pub idempotency_enabled : Bool
    pub default_page_size : ℕ
    pub max_page_size : ℕ
    pub graph_max_depth : ℕ
    pub compiles : String → Bool
    pub creates : String → Model → Bool
    pub validate : Model → Dict Value → Option (Dict Value)
    pub same_ci : String → CiDoc → CiDoc → Bool
    pub iso : ℕ → String

  abbrev pub spelling : Config → Spelling
  spelling cfg = record { id_text = mongo.id_text; iso = cfg.iso }

  -- the database under a new collection of one type
  abbrev pub put_cis : String → mongo.Coll CiDoc → Store → Store
  put_cis type c s = record s { cis = λ t. if str_eq t type then c else s.cis t }

  audited : Store → Result (mongo.Coll AuditDoc) → Result (Unit {0}) × Store
  audited s (ok c) = (ok tt, record s { audit = c })
  audited s (err e) = (err e, s)

  -- `self._audit.record(…)`
  unfoldable pub record_audit : Config → Readings → Entry → Exec Store (Unit {0})
  unfolding audited
  record_audit cfg r entry s =
      audited s (Audit.append mongo (spelling cfg) r.audit_id r.audited_at entry s.audit)

  queued : Store → Result (mongo.Coll OutboxDoc) → Result (Unit {0}) × Store
  queued s (ok c) = (ok tt, record s { outbox = c })
  queued s (err e) = (err e, s)

  -- `Event(type=…, entity_type=…, entity_id=…, actor=…, payload=…)`
  abbrev pub event_of : Readings → String → String → String → String → Payload → Event
  event_of r type entity_type entity_id actor payload = record {
    id = r.event_id;
    type = type;
    entity_type = entity_type;
    entity_id = entity_id;
    actor = actor;
    ts = r.event_at;
    payload = payload;
  }

  -- `self._outbox.add(event)`
  unfoldable pub emit : Readings → Event → Exec Store (Unit {0})
  unfolding queued
  emit r event s = queued s (Outbox.add mongo r.queued_at event s.outbox)
