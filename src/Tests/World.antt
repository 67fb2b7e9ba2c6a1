-- ===== src/Tests/World.antt =====
-- A deployment over the in-memory driver: one CI type, one relationship type, and a request.
use cmdboss.Prelude.{ℕ, String, true, none, some, [], ◌∷◌, Dict, ◌==◌}
use cmdboss.Value.{Value}
use cmdboss.Driver.InMemory.{in_memory}
use cmdboss.Schema.{FieldType, FieldSpec}
use cmdboss.Registry.{TypeDoc, Worker}
use cmdboss.Store.{Store, Config, Readings, Caller}

abbrev pub plain_text : FieldSpec
plain_text = record {
  type = FieldType.string;
  required = true;
  description = none;
  default = none;
  min_length = none;
  max_length = none;
  pattern = none;
  minimum = none;
  maximum = none;
  enum = none;
  items = none;
  min_items = none;
  max_items = none;
  ref_type = none;
}

abbrev pub server : TypeDoc
server = record {
  id = 1;
  name = "server";
  description = none;
  fields = ("host", plain_text) ∷ [];
  indexes = [];
  version = 3;
  active = true;
  created_at = 0;
  updated_at = 0;
  created_by = "ann";
  updated_by = "ann";
}

abbrev pub worker : Worker in_memory
worker = record { types = server ∷ []; type_cache = []; model_cache = []; ttl = 30 }

abbrev pub empty_store : Store in_memory
empty_store = record {
  worker = worker;
  cis = λ t. [];
  edges = [];
  audit = [];
  outbox = [];
  idempotency = [];
}

abbrev pub cfg : Config in_memory
cfg = record {
  txn_enabled = true;
  idempotency_enabled = true;
  default_page_size = 50;
  max_page_size = 200;
  graph_max_depth = 8;
  compiles = λ p. true;
  creates = λ name defs. true;
  validate = λ m d. some d;
  same_ci = λ t a b. a.id == b.id;
  iso = λ n. "now";
}

-- the readings of a request, from one number on
abbrev pub at_time : ℕ → Readings
at_time n = record {
  tick_1 = n;
  tick_2 = n;
  tick_3 = n;
  tick_4 = n;
  now = n;
  claimed_at = n;
  completed_at = n;
  oid = n;
  audit_id = n;
  audited_at = n;
  event_id = n;
  event_at = n;
  queued_at = n;
}

abbrev pub ann : Caller
ann = record { actor = "ann"; request_id = none }

abbrev pub host : String → Dict Value
host name = ("host", Value.text name) ∷ []
