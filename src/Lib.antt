-- ===== src/Lib.antt =====
-- cmdboss, a configuration management database: an HTTP service over MongoDB that keeps typed
-- configuration items (CIs), the relationships between them, an audit log, and an outbox of events.
--
-- The parts and their files. A request reaches a repository, which looks the CI type up in the
-- registry of its worker, validates the payload, and writes the record, an audit entry and an
-- outbox row in one transaction; a dispatcher delivers the outbox rows to an event bus.
--   Prelude        names of the libraries, Boolean tests, lists, dictionaries, unique lists
--   Errors         cmdboss/errors.py; Errors.Result: values or exceptions, and actions on a state,
--                  with `transaction` of cmdboss/db.py
--   Driver         what is used of motor and pymongo, as an interface with named laws;
--                  Driver.InMemory fulfils it, Driver.Laws is what follows from the laws
--   Text           the string operations of Python that are used
--   Value          values of documents, `jsonable` of cmdboss/utils.py
--   Documents      the documents of the collections and their serialised forms
--   Schema         cmdboss/schema.py: FieldSpec, CITypeDefinition, compile_model
--   Registry       cmdboss/registry.py: SchemaRegistry with its two caches
--   Audit          cmdboss/audit.py: AuditLog.record, list_for
--   Idempotency    cmdboss/idempotency.py: IdempotencyStore
--   EventBus       cmdboss/events.py: InMemoryEventBus
--   Outbox         cmdboss/outbox.py: Outbox and, in Outbox.Dispatcher, OutboxDispatcher
--   Store          the database of a deployment and the worker's registry, what a request brings
--   Cursor         cmdboss/cursor.py: the tokens of keyset pagination
--   Repository     cmdboss/repository.py: CIRepository.create, get, update, delete, history,
--                  in Repository.Listing list, in Repository.Discovery apply_discovery and
--                  iter_source, in Repository.Missing mark_missing; Repository.Guard is the
--                  interface that graph.py implements for `delete`
--   Relationships  cmdboss/graph_schema.py and cmdboss/graph.py: the types of relationship and their
--                  registry, the traversal (Relationships.Bfs), the relationships themselves
--                  (Relationships.Edges), and the lists and analyses (Relationships.Queries)
--   RateLimit      cmdboss/ratelimit.py: FixedWindowRateLimiter
--   Security       cmdboss/security.py: API keys, get_principal and require; sha256 is a parameter
--   Invalidator    cmdboss/invalidator.py: RegistryCacheInvalidator.poll_once
--   Discovery      cmdboss/discovery: what providers return and the interface of the repositories;
--                  Discovery.Reconciler is reconciler.py over any repositories,
--                  Discovery.Deployment the repositories of a deployment as app.py builds them,
--                  Discovery.Service is service.py
--   Webhooks       cmdboss/webhooks.py: WebhookRegistry and WebhookSubscriber
--   Http           cmdboss/routers/ci.py over CIRepository, with the answers of errors.py to an
--                  exception; Text.Numerals is str and int on the numbers of its headers;
--                  Http.Graph is cmdboss/routers/graph.py, Http.System cmdboss/routers/system.py,
--                  Http.Discovery cmdboss/routers/discovery.py, Http.Middleware the middleware of
--                  cmdboss/app.py, Http.Atomic the writes through gate, route and handler
--   Settings       cmdboss/config.py: the validators and the values of config.json
--   Tests          runs on concrete inputs
--
-- State and operations. An operation takes the state that it reads and writes and returns the new
-- one, with a value or an exception; the readings of clocks and the fresh ids that it makes are
-- arguments (Store.Readings). A transaction restores the state when its body raises, and does
-- nothing where the deployment has no transactions. The driver refuses an insert, and an update of a
-- CI or of a key, that a unique index holds to be another document.
-- Operations of several requests are interleaved between calls and not within one: the
-- compare-and-swap of an update is one call of the driver.
--
-- Bounds and fuel. Every loop is a structural recursion over the list or the bound that the code
-- iterates on; the rounds of a traversal are the code's own graph_max_depth, and `truncated` says
-- when they did not suffice. The digits of a number are printed on the number itself as fuel, which
-- Text.Numerals.RoundTrip reads back in full. Numbers are unbounded, as in Python; times are counts
-- of ticks.
--
-- Not modelled. pydantic's validation of a payload against a compiled model is a parameter
-- (Config.validate), as are whether `re.compile` takes a pattern and create_model the definitions
-- of a type (Config.compiles, Config.creates), MongoDB's comparison of values
-- (Listing.Comparison), and the text of JSON, base64 and timestamps (Cursor.Codec). A provider of
-- discovery is a function that may raise, the sender of webhooks one from the attempt to a status.
-- Metrics, logging, tasks of asyncio, bearer tokens and the routes of types are left out.
mod Prelude
pub mod Settings
pub mod Errors
pub mod Driver
pub mod Text
pub mod Value
pub mod Schema
pub mod Registry
pub mod Documents
pub mod Audit
pub mod Idempotency
pub mod EventBus
pub mod Outbox
pub mod Store
pub mod Cursor
pub mod Repository
pub mod Relationships
pub mod RateLimit
pub mod Invalidator
pub mod Webhooks
pub mod Security
pub mod Discovery
pub mod Http
mod Tests
