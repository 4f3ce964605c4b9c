-- ===== src/Spool/Tests.antt =====
-- A spool with two events.
use superlily.Base.{◌≡◌, ◌≤◌, ◌<◌, refl, none, some, List, [], ◌∷◌, arith}
use superlily.Spool.{
  Payload, SpoolRecord, Spool, ok, Clock, Libraries, object, find_record, find_identity,
  find_sequence, compact,
}
use superlily.Spool.Append.{
  append_event, capture_event, insert_event, new_row, new_identity, fresh_record, enclosed,
  is_taken,
}
use superlily.Spool.Delivery.{retry_delay}
use superlily.Spool.Queue.{
  first_pending, next_pending, count_pending, Returns, next_pending-Returns,
}
use superlily.Spool.Calls.{
  Call, append, retry_record, take_pending, compact_records, perform_all, IsSound,
  perform_all-IsSound,
}
use superlily.Spool.Again.{Agrees, append-again}
use superlily.Spool.RoundTrip.{append-next_pending}
use superlily.Spool.Retry.{retry_delay-bounds}

abbrev plain_libraries : Libraries
plain_libraries = record {
  dumps = λ p. p.body;
  loads = λ t. object (record { body = t; ingress = none });
  record_hash = λ endpoint key body. body;
  live_bytes = λ s. 0;
}

abbrev empty_spool : Spool
empty_spool = record {
  spool_id = "spool-1";
  quota_bytes = 268435456;
  retention_seconds = 86400;
  max_record_bytes = 1048576;
  last_compact = 0;
  spool_meta = record {
    next_sequence = 1;
    capture_failures = 0;
    quota_rejections = 0;
    replay_successes = 0;
    replay_failures = 0;
    last_error = "";
  };
  records = [];
  identities = [];
}

abbrev first_clock : Clock
first_clock = record { monotonic = 70000000; wall = 1000 }

abbrev hello : Payload
hello = record { body = "{\"text\":\"hello\"}"; ingress = none }

abbrev hello_record : SpoolRecord
hello_record = record {
  sequence = 1;
  endpoint = "/v1/events";
  idempotency_key = "k1";
  payload = record {
    body = "{\"text\":\"hello\"}";
    ingress = some (record {
      spool_id = "spool-1";
      sequence = 1;
      record_sha256 = "{\"text\":\"hello\"}";
      captured_at = 1000;
    });
  };
  record_sha256 = "{\"text\":\"hello\"}";
  captured_at = 1000;
  attempts = 0;
}

abbrev hello_spool : Spool
hello_spool = (append_event plain_libraries first_clock hello "k1" empty_spool).1

abbrev spool_calls : List (Clock × Call)
spool_calls =
    (first_clock, append hello "k2")
    ∷ (first_clock, retry_record hello_record "timeout" 500000)
    ∷ (first_clock, take_pending)
    ∷ (first_clock, compact_records)
    ∷ []

empty_spool-IsSound : IsSound empty_spool
empty_spool-IsSound = record {
  rows_descend = tt;
  identities_descend = tt;
  rows_known = tt;
  keys_distinct = refl;
  fact = tt;
}

perform_all-IsSound_example : IsSound (perform_all plain_libraries spool_calls empty_spool)
perform_all-IsSound_example =
    perform_all-IsSound plain_libraries spool_calls empty_spool empty_spool-IsSound

hello-captured :
    append_event plain_libraries first_clock hello "k1" empty_spool ≡ (ok hello_record, hello_spool)
unfolding append_event capture_event insert_event new_row new_identity fresh_record enclosed
    is_taken find_record find_identity find_sequence compact
hello-captured = refl

append-again_example :
    Agrees plain_libraries "k1"
      (perform_all plain_libraries spool_calls hello_spool)
      hello_record
      (append_event plain_libraries first_clock hello "k1"
        (perform_all plain_libraries spool_calls hello_spool)).0
    × ((append_event plain_libraries first_clock hello "k1"
          (perform_all plain_libraries spool_calls hello_spool)).1
        ≡ perform_all plain_libraries spool_calls hello_spool)
append-again_example =
    append-again plain_libraries first_clock first_clock hello hello "k1" empty_spool hello_spool
      hello_record spool_calls empty_spool-IsSound hello-captured refl

hello_spool-pending : count_pending hello_spool.records < 2
unfolding append_event capture_event insert_event new_row new_identity fresh_record enclosed
    is_taken find_record find_identity find_sequence compact count_pending
hello_spool-pending = omega arith

next_pending-Returns_example : Returns 2 plain_libraries first_clock hello_spool
next_pending-Returns_example =
    next_pending-Returns 2 plain_libraries first_clock hello_spool hello_spool-pending

retry_delay-bounds_example :
    (100000 ≤ retry_delay 500000 3)
    × (retry_delay 500000 3 ≤ 60000000)
    × (retry_delay 500000 3 ≤ retry_delay 500000 4)
retry_delay-bounds_example = retry_delay-bounds 500000 3

-- a parser that reads the one payload back
abbrev hello_libraries : Libraries
hello_libraries = record plain_libraries { loads = λ t. object hello_record.payload }

append-next_pending_example :
    (next_pending 1 hello_libraries first_clock hello_spool ≡ some (some hello_record, hello_spool))
    × (hello_record.payload.body ≡ hello.body)
unfolding first_pending find_record find_identity append_event capture_event insert_event new_row
    new_identity fresh_record enclosed is_taken find_sequence compact
append-next_pending_example =
    append-next_pending 0 hello_libraries first_clock first_clock hello "k1" empty_spool hello_spool
      hello_record refl refl refl refl refl
