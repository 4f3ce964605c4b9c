-- ===== src/Spool/Delivery.antt =====
-- `_verify_record`, `acknowledge`, `retry`, `quarantine`, `next_pending` and `next_retry_delay`.
use superlily.Base.{
  ℕ, ◌+◌, ◌-◌, ◌*◌, ◌^◌, min, max, Bool, false, not, ◌&&◌, ◌||◌, Option, none, some, String, List,
  [], ◌∷◌, eqb, ◌==◌, if◌then◌else◌,
}
use superlily.Spool.{
  SpoolRecord, SpoolRow, committed, quarantined, SpoolIdentity, Spool, SpoolException, spool_error,
  receipt_mismatch, Outcome, ok, raised, Clock, Libraries, is_committed, find_sequence,
  update_pending, has_pending, compact,
}

-- the exception that `_verify_record` raises
unfoldable pub verify_record : Libraries → Spool → SpoolRecord → Option SpoolException
verify_record x s r = elim r.payload.ingress [
  | none ↦ some (spool_error "missing ingress envelope")
  | some i ↦
      if not (i.spool_id == s.spool_id)
        || not (eqb i.sequence r.sequence)
        || not (i.record_sha256 == r.record_sha256)
        || not (eqb i.captured_at r.captured_at)
      then some (spool_error "ingress envelope mismatch")
      else if not (x.record_hash r.endpoint r.idempotency_key r.payload.body == r.record_sha256)
      then some (spool_error "record checksum mismatch")
      else none
]

-- the receipt's values, `none` where one is absent or of another type
pub record Receipt : Type 0 where
  pub spool_id : Option String
  pub sequence : Option ℕ
  pub record_sha256 : Option String
  pub outcome : Option String
  pub receipt_id : Option String

abbrev is_text : Option String → String → Bool
is_text none t = false
is_text (some s) t = s == t

abbrev is_number : Option ℕ → ℕ → Bool
is_number none n = false
is_number (some m) n = eqb m n

-- actual == expected, with an accepted outcome
unfoldable pub matches_receipt : Spool → SpoolRecord → Receipt → Bool
matches_receipt s r receipt =
    is_text receipt.spool_id s.spool_id
    && is_number receipt.sequence r.sequence
    && is_text receipt.record_sha256 r.record_sha256
    && (is_text receipt.outcome "committed" || is_text receipt.outcome "duplicate")

abbrev matches_identity : SpoolRecord → List SpoolIdentity → Bool
matches_identity r [] = false
matches_identity r (i ∷ rest) =
    (i.idempotency_key == r.idempotency_key
      && eqb i.sequence r.sequence
      && i.record_sha256 == r.record_sha256)
    || matches_identity r rest

-- where no row was pending: the state of the row decides
unfoldable pub acknowledged_before : Spool → SpoolRecord → Outcome (Unit {0})
acknowledged_before s r = elim (find_sequence r.sequence s.records) [
  | some row ↦
      if is_committed row.state
      then ok tt
      else raised (receipt_mismatch "durable record is not pending")
  | none ↦
      if matches_identity r s.identities
      then ok tt
      else raised (receipt_mismatch "durable record is not pending")
]

unfoldable pub commit_row : Clock → String → SpoolRow → SpoolRow
commit_row c receipt_id r = record r {
  state = committed;
  receipt_id = some receipt_id;
  committed_at = some c.wall;
  last_error = none;
}

-- the update of a receipt with an id, and what follows it
unfoldable pub commit_record : Clock → SpoolRecord → String → Spool → Outcome (Unit {0}) × Spool
unfolding acknowledged_before commit_row
commit_record c r receipt_id s =
    if has_pending r.sequence s.records
    then (
      ok tt,
      compact c (record s {
        records = update_pending r.sequence (commit_row c receipt_id) s.records;
        spool_meta = record s.spool_meta {
          replay_successes = s.spool_meta.replay_successes + 1;
          last_error = "";
        };
      }),
    )
    else (acknowledged_before s r, s)

unfoldable pub acknowledge : Clock → SpoolRecord → Receipt → Spool → Outcome (Unit {0}) × Spool
unfolding matches_receipt commit_record
acknowledge c r receipt s =
    if matches_receipt s r receipt
    then elim receipt.receipt_id [
      | none ↦ (raised (receipt_mismatch "Core receipt has no receipt_id"), s)
      | some id ↦
          if id == ""
          then (raised (receipt_mismatch "Core receipt has no receipt_id"), s)
          else commit_record c r id s
    ]
    else (raised (receipt_mismatch "Core receipt does not match durable spool record"), s)

-- the delay in microseconds after so many attempts
unfoldable pub retry_delay : ℕ → ℕ → ℕ
retry_delay base attempts = min 60000000 (max 100000 base * 2 ^ min (attempts - 1) 10)

unfoldable pub note_replay_failure : String → Spool → Spool
note_replay_failure error s = record s {
  spool_meta = record s.spool_meta {
    replay_failures = s.spool_meta.replay_failures + 1;
    last_error = error;
  };
}

unfoldable pub delay_row : Clock → ℕ → ℕ → String → SpoolRow → SpoolRow
unfolding retry_delay
delay_row c attempts base error r = record r {
  attempts = attempts;
  next_attempt_at = c.wall + retry_delay base attempts;
  last_attempt_at = some c.wall;
  last_error = some error;
}

-- `error` is the text after its bound of 4096 characters
unfoldable pub retry : Clock → SpoolRecord → String → ℕ → Spool → Spool
unfolding delay_row note_replay_failure
retry c r error base s =
    if has_pending r.sequence s.records
    then note_replay_failure error (record s {
      records = update_pending r.sequence (delay_row c (r.attempts + 1) base error) s.records;
    })
    else s

unfoldable pub quarantine_row : Clock → String → SpoolRow → SpoolRow
quarantine_row c error r = record r {
  state = quarantined;
  last_attempt_at = some c.wall;
  last_error = some error;
}

unfoldable pub quarantine : Clock → ℕ → String → Spool → Spool
unfolding quarantine_row note_replay_failure
quarantine c n error s =
    if has_pending n s.records
    then note_replay_failure error
        (record s { records = update_pending n (quarantine_row c error) s.records })
    else s
