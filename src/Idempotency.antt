-- ===== src/Idempotency.antt =====
-- cmdboss/idempotency.py: the store of Idempotency-Keys.
use Prim.Native.String.{◌++◌}
use cmdboss.Prelude.{ℕ, String, Bool, true, false, ◌&&◌, Option, none, some, str_eq}
use cmdboss.Documents.{Item}
use cmdboss.Driver.{Driver}

pub data Status : Type 0 where
  pending done : Status

pub record IdempotencyDoc : Type 0 where
  pub id : String
  pub status : Status
  pub created_at : ℕ
  pub response : Option Item
  pub completed_at : Option ℕ

-- f"{scope}:{key}"
unfoldable pub key_of : String → String → String
key_of scope key = scope ++ (":" ++ key)

abbrev pub has_id : String → IdempotencyDoc → Bool
has_id id d = str_eq d.id id

abbrev pub same_id : IdempotencyDoc → IdempotencyDoc → Bool
same_id a b = str_eq b.id a.id

abbrev pub is_pending : Status → Bool
is_pending Status.pending = true
is_pending Status.done = false

abbrev pub claim_doc : ℕ → String → IdempotencyDoc
claim_doc now id = record {
  id = id;
  status = Status.pending;
  created_at = now;
  response = none;
  completed_at = none;
}

abbrev pub completed : ℕ → Item → IdempotencyDoc → IdempotencyDoc
completed now response d = record d {
  status = Status.done;
  response = some response;
  completed_at = some now;
}

module _ (mongo : Driver) where
  open mongo use {Coll, find_one, insert_one, update_one, delete_one}

  unfoldable pub get : String → String → Coll IdempotencyDoc → Option IdempotencyDoc
  get scope key = find_one (has_id (key_of scope key))

  -- `none` where the key is there already
  unfoldable pub claim : ℕ → String → String → Coll IdempotencyDoc → Option (Coll IdempotencyDoc)
  claim now scope key = insert_one same_id (claim_doc now (key_of scope key))

  unfoldable pub store_result :
      ℕ → String → String → Item → Coll IdempotencyDoc → Coll IdempotencyDoc
  store_result now scope key response =
      update_one (has_id (key_of scope key)) (completed now response)

  unfoldable pub release : String → String → Coll IdempotencyDoc → Coll IdempotencyDoc
  release scope key = delete_one (λ d. has_id (key_of scope key) d && is_pending d.status)
