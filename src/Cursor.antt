-- ===== src/Cursor.antt =====
-- cmdboss/cursor.py: the tokens of keyset pagination. JSON and base64 together, and the ISO text of
-- timestamps, are parameters: `dump` is none where json.dumps raises, `load` where the decoding does.
use cmdboss.Prelude.{
  ℕ, ◌≡◌, refl, ap, ◌∙◌, inl, inr, Option-cases, Option, none, some, String, str_eq, if◌then◌else◌,
}
use cmdboss.Value.{Value, Fields, get_field}
use cmdboss.Errors.{Error}
use cmdboss.Errors.Result.{Result, ok, err}
use cmdboss.Driver.{Driver}

pub record Codec (iso : ℕ → String) : Type 0 where
  pub dump : Value → Option String
  pub load : String → Option Value
  pub from_iso : String → Option ℕ
  pub load-dump : (v : Value) (t : String) → dump v ≡ some t → load t ≡ some v
  pub from_iso-iso : (n : ℕ) → from_iso (iso n) ≡ some n

-- {"v": …, "i": …, "t": …}
abbrev pub payload_of : Value → String → String → Value
payload_of v i t = Value.object (
    Fields.field "v" v
      (Fields.field "i" (Value.text i) (Fields.field "t" (Value.text t) Fields.end)))

module _ (mongo : Driver) (iso : ℕ → String) (codec : Codec iso) where
  -- the payload for a datetime and for any other value
  unfoldable pub cursor_payload : Value → ℕ → Value
  cursor_payload (Value.datetime n) id = payload_of (Value.text (iso n)) (mongo.id_text id) "dt"
  cursor_payload v id = payload_of v (mongo.id_text id) "raw"

  -- `encode_cursor`: a value that json.dumps refuses is a TypeError
  unfoldable pub encode_cursor : Value → ℕ → Result String
  unfolding cursor_payload
  encode_cursor v id = elim (codec.dump (cursor_payload v id)) [
    | none ↦ err Error.unexpected
    | some t ↦ ok t
  ]

  -- `datetime.fromisoformat(value)`
  unfoldable pub datetime_of : Option ℕ → Option Value
  datetime_of none = none
  datetime_of (some n) = some (Value.datetime n)

  unfoldable pub from_text : Value → Option Value
  unfolding datetime_of
  from_text (Value.text s) = datetime_of (codec.from_iso s)
  from_text _ = none

  -- `payload["v"]`, as a datetime under the tag "dt"
  unfoldable pub cursor_value : Option Value → Option Value → Option Value
  unfolding from_text
  cursor_value none tag = none
  cursor_value (some v) (some (Value.text t)) = if str_eq t "dt" then from_text v else some v
  cursor_value (some v) _ = some v

  -- `ObjectId(payload["i"])`, which makes a fresh id of None
  unfoldable pub cursor_id : ℕ → Option Value → Option ℕ
  cursor_id fresh none = none
  cursor_id fresh (some (Value.text s)) = mongo.object_id s
  cursor_id fresh (some Value.null) = some fresh
  cursor_id fresh (some _) = none

  unfoldable pub both : Option Value → Option ℕ → Result (Value × ℕ)
  both (some v) (some n) = ok (v, n)
  both _ _ = err Error.bad_request

  unfoldable pub read_payload : ℕ → Option Value → Result (Value × ℕ)
  unfolding both cursor_value cursor_id
  read_payload fresh (some (Value.object fs)) =
      both (cursor_value (get_field "v" fs) (get_field "t" fs)) (cursor_id fresh (get_field "i" fs))
  read_payload fresh _ = err Error.bad_request

  -- `decode_cursor`, with the id that ObjectId(None) would make
  unfoldable pub decode_cursor : ℕ → String → Result (Value × ℕ)
  decode_cursor fresh token = read_payload fresh (codec.load token)

  read_payload-cursor_payload :
      (fresh : ℕ) (v : Value) (id : ℕ)
      → read_payload fresh (some (cursor_payload v id)) ≡ ok (v, id)
  unfolding read_payload cursor_payload get_field
  read_payload-cursor_payload fresh (Value.datetime n) id =
      rw (mongo.object_id-id_text id, codec.from_iso-iso n) refl
  read_payload-cursor_payload fresh Value.null id = rw (mongo.object_id-id_text id) refl
  read_payload-cursor_payload fresh (Value.boolean b) id = rw (mongo.object_id-id_text id) refl
  read_payload-cursor_payload fresh (Value.number n) id = rw (mongo.object_id-id_text id) refl
  read_payload-cursor_payload fresh (Value.text s) id = rw (mongo.object_id-id_text id) refl
  read_payload-cursor_payload fresh (Value.object_id n) id = rw (mongo.object_id-id_text id) refl
  read_payload-cursor_payload fresh (Value.items xs) id = rw (mongo.object_id-id_text id) refl
  read_payload-cursor_payload fresh (Value.object fs) id = rw (mongo.object_id-id_text id) refl

  -- a token is read back as the value and the id that it was made of
  pub decode_cursor-encode_cursor :
      (fresh : ℕ) (v : Value) (id : ℕ) (token : String)
      → encode_cursor v id ≡ ok token
      → decode_cursor fresh token ≡ ok (v, id)
  unfolding decode_cursor encode_cursor
  decode_cursor-encode_cursor fresh v id token h =
      elim (Option-cases (codec.dump (cursor_payload v id))) [
        | inl e ↦ let k = rw (e, encode_cursor) at h in cc
        | inr (t, e) ↦
            let k = rw (e, encode_cursor) at h in
            let same : t ≡ token = cc in
            rw (codec.load-dump (cursor_payload v id) token (e ∙ ap some same))
              (read_payload-cursor_payload fresh v id)
      ]
