-- ===== src/Spool/Append.antt =====
-- `append_event` and `_row_to_record`.
use Prim.Native.String.{len}
use superlily.Base.{
  ℕ, ◌+◌, Bool, false, ◌||◌, none, some, String, List, [], ◌∷◌, ltb, eqb, is_some, ◌==◌,
  if◌then◌else◌,
}
use superlily.Spool.{
  Payload, SpoolRecord, SpoolRow, pending, SpoolIdentity, Spool, spool_error, spool_conflict,
  spool_full, integrity_error, Outcome, ok, raised, Clock, Libraries, invalid, not_an_object,
  object, events_endpoint, find_record, find_identity, find_sequence, compact,
}

-- `_row_to_record`
unfoldable pub row_to_record : Libraries → SpoolRow → Outcome SpoolRecord
row_to_record x r = elim (x.loads r.payload_json) [
  | invalid ↦ raised (spool_error "durable record payload is not valid JSON")
  | not_an_object ↦ raised (spool_error "durable record payload is not an object")
  | object payload ↦ ok (record {
    sequence = r.sequence;
    endpoint = r.endpoint;
    idempotency_key = r.idempotency_key;
    payload = payload;
    record_sha256 = r.record_sha256;
    captured_at = r.captured_at;
    attempts = r.attempts;
  })
]

-- a capture failure on the meta table, with its error
unfoldable pub note_failure : String → Spool → Spool
note_failure error s = record s {
  spool_meta = record s.spool_meta {
    capture_failures = s.spool_meta.capture_failures + 1;
    last_error = error;
  };
}

abbrev pub conflict_text : String
conflict_text = "idempotency key is already bound to another durable record"

unfoldable pub enclosed : Spool → String → ℕ → String → ℕ → Payload
enclosed s body sequence hash captured_at = record {
  body = body;
  ingress = some (record {
    spool_id = s.spool_id;
    sequence = sequence;
    record_sha256 = hash;
    captured_at = captured_at;
  });
}

-- the record that is returned for a new or a remembered identity
unfoldable pub fresh_record : Spool → String → SpoolIdentity → SpoolRecord
unfolding enclosed
fresh_record s body i = record {
  sequence = i.sequence;
  endpoint = events_endpoint;
  idempotency_key = i.idempotency_key;
  payload = enclosed s body i.sequence i.record_sha256 i.captured_at;
  record_sha256 = i.record_sha256;
  captured_at = i.captured_at;
  attempts = 0;
}

unfoldable pub new_identity : Spool → String → String → ℕ → SpoolIdentity
new_identity s key hash captured_at = record {
  idempotency_key = key;
  sequence = s.spool_meta.next_sequence;
  record_sha256 = hash;
  captured_at = captured_at;
}

unfoldable pub new_row : Libraries → Spool → String → SpoolIdentity → SpoolRow
unfolding enclosed
new_row x s body i = record {
  sequence = i.sequence;
  endpoint = events_endpoint;
  idempotency_key = i.idempotency_key;
  payload_json = x.dumps (enclosed s body i.sequence i.record_sha256 i.captured_at);
  record_sha256 = i.record_sha256;
  captured_at = i.captured_at;
  state = pending;
  attempts = 0;
  next_attempt_at = 0;
  last_attempt_at = none;
  last_error = none;
  receipt_id = none;
  committed_at = none;
}

abbrev has_sequence : ℕ → List SpoolIdentity → Bool
has_sequence n [] = false
has_sequence n (i ∷ rest) = eqb i.sequence n || has_sequence n rest

-- a key or a sequence that the UNIQUE constraints of the two tables refuse
unfoldable pub is_taken : SpoolIdentity → Spool → Bool
is_taken i s =
    is_some (find_identity i.idempotency_key s.identities)
    || has_sequence i.sequence s.identities
    || is_some (find_record i.idempotency_key s.records)
    || is_some (find_sequence i.sequence s.records)

-- the explicit transaction: it is rolled back where it raises
unfoldable pub insert_event :
    Libraries → Spool → String → SpoolIdentity → Outcome SpoolRecord × Spool
unfolding is_taken new_row fresh_record
insert_event x s body i =
    if ltb s.max_record_bytes (len (new_row x s body i).payload_json)
    then (raised (spool_full "durable record exceeds max_record_bytes"), s)
    else if is_taken i s
    then (raised integrity_error, s)
    else (
      ok (fresh_record s body i),
      record s {
        records = new_row x s body i ∷ s.records;
        identities = i ∷ s.identities;
        spool_meta = record s.spool_meta { next_sequence = s.spool_meta.next_sequence + 1 };
      },
    )

-- the part behind the lookups of the key
unfoldable pub capture_event :
    Libraries → Clock → String → String → String → Spool → Outcome SpoolRecord × Spool
unfolding note_failure insert_event new_identity
capture_event x c body key hash s =
    let estimated_size = len (x.dumps (record { body = body; ingress = none })) + 8192 in
    if ltb s.max_record_bytes estimated_size
    then (
      raised (spool_full "durable record exceeds max_record_bytes"),
      note_failure "record_too_large" s,
    )
    else let t = compact c s in
      if ltb t.quota_bytes (x.live_bytes t + estimated_size)
      then (
        raised (spool_full "durable spool quota exceeded"),
        record t {
          spool_meta = record t.spool_meta {
            capture_failures = t.spool_meta.capture_failures + 1;
            quota_rejections = t.spool_meta.quota_rejections + 1;
            last_error = "spool_quota_exceeded";
          };
        },
      )
      else insert_event x t body (new_identity t key hash c.wall)

-- The payload's own envelope is dropped; the returned record holds the payload that replaces it.
unfoldable pub append_event :
    Libraries → Clock → Payload → String → Spool → Outcome SpoolRecord × Spool
unfolding capture_event note_failure row_to_record fresh_record
append_event x c payload key s =
    let hash = x.record_hash events_endpoint key payload.body in
    if key == ""
    then (raised (spool_error "durable event requires an idempotency key"), s)
    else elim (find_record key s.records) [
      | some r ↦ if r.record_sha256 == hash then (row_to_record x r, s) else (
        raised (spool_conflict conflict_text),
        note_failure "idempotency_key_payload_conflict" s,
      )
      | none ↦ elim (find_identity key s.identities) [
        | some i ↦ if i.record_sha256 == hash then (ok (fresh_record s payload.body i), s) else (
          raised (spool_conflict conflict_text),
          note_failure "idempotency_key_payload_conflict" s,
        )
        | none ↦ capture_event x c payload.body key hash s
      ]
    ]
