-- ===== src/Spool.antt =====
-- The local ingress spool, bridges/nekro/superlily_bridge/spool.py (bridges/lily_nonebot has the same file):
-- an outbox that keeps each event until the Core acknowledges it. The spool is open. SQLite runs in autocommit
-- mode, so what a method wrote before it raised stays, and the one explicit transaction is written out.
-- Times are microseconds; the rows and the identities have their newest first.
pub mod Append
pub mod Delivery
pub mod Order
pub mod Changes
pub mod Binding
pub mod Keeps
pub mod Calls
pub mod Again
pub mod RoundTrip
pub mod Queue
pub mod Retry
mod Tests
use Prim.Native.String.{len}
use superlily.Base.{
  ℕ, zero, suc, ◌+◌, ◌-◌, ◌*◌, ◌/◌, ◌^◌, min, max, Bool, true, false, not, ◌&&◌, ◌||◌, Option, none,
  some, String, List, [], ◌∷◌, map, keep_if, ltb, leb, eqb, is_some, ◌==◌, if◌then◌else◌,
}

pub record Ingress : Type 0 where
  pub spool_id : String
  pub sequence : ℕ
  pub record_sha256 : String
  pub captured_at : ℕ

-- a payload: the canonical text of the rest, and the ingress envelope
pub record Payload : Type 0 where
  pub body : String
  pub ingress : Option Ingress

pub record SpoolRecord : Type 0 where
  pub sequence : ℕ
  pub endpoint : String
  pub idempotency_key : String
  pub payload : Payload
  pub record_sha256 : String
  pub captured_at : ℕ
  pub attempts : ℕ

pub data RowState : Type 0 where
  pending committed quarantined : RowState

-- a row of spool_records
pub record SpoolRow : Type 0 where
  pub sequence : ℕ
  pub endpoint : String
  pub idempotency_key : String
  pub payload_json : String
  pub record_sha256 : String
  pub captured_at : ℕ
  pub state : RowState
  pub attempts : ℕ
  pub next_attempt_at : ℕ
  pub last_attempt_at : Option ℕ
  pub last_error : Option String
  pub receipt_id : Option String
  pub committed_at : Option ℕ

-- a row of spool_identities
pub record SpoolIdentity : Type 0 where
  pub idempotency_key : String
  pub sequence : ℕ
  pub record_sha256 : String
  pub captured_at : ℕ

-- the rows of spool_meta, which `_create_schema` fills
pub record SpoolMeta : Type 0 where
  pub next_sequence : ℕ
  pub capture_failures : ℕ
  pub quota_rejections : ℕ
  pub replay_successes : ℕ
  pub replay_failures : ℕ
  pub last_error : String

pub record Spool : Type 0 where
  pub spool_id : String
  pub quota_bytes : ℕ
  pub retention_seconds : ℕ
  pub max_record_bytes : ℕ
  pub last_compact : ℕ
  pub spool_meta : SpoolMeta
  pub records : List SpoolRow
  pub identities : List SpoolIdentity

pub data SpoolException : Type 0 where
  spool_error spool_conflict spool_full receipt_mismatch : String → SpoolException
  integrity_error : SpoolException  -- sqlite3's, for a row that breaks a UNIQUE constraint

pub data Outcome (A : Type 0) : Type 0 where
  ok : A → Outcome A
  raised : SpoolException → Outcome A

-- the two clocks of a call: time.monotonic() and the wall clock
pub record Clock : Type 0 where
  pub monotonic : ℕ
  pub wall : ℕ

-- what json.loads makes of a text
pub data Loaded : Type 0 where
  invalid not_an_object : Loaded
  object : Payload → Loaded

-- What the spool takes from json, hashlib and SQLite: the JSON text of a payload and its parser, the hash of
-- an endpoint, a key and a body, and the bytes that the files hold.
pub record Libraries : Type 0 where
  pub dumps : Payload → String
  pub loads : String → Loaded
  pub record_hash : String → String → String → String
  pub live_bytes : Spool → ℕ

abbrev events_endpoint : String
events_endpoint = "/v1/events"

abbrev pub is_pending : RowState → Bool
is_pending pending = true
is_pending _ = false

abbrev pub is_committed : RowState → Bool
is_committed committed = true
is_committed _ = false

abbrev with_key : String → SpoolRow → Bool
with_key key r = r.idempotency_key == key

unfoldable pub find_record : String → List SpoolRow → Option SpoolRow
find_record key [] = none
find_record key (r ∷ rows) = if r.idempotency_key == key then some r else find_record key rows

unfoldable pub find_identity : String → List SpoolIdentity → Option SpoolIdentity
find_identity key [] = none
find_identity key (i ∷ rest) = if i.idempotency_key == key then some i else find_identity key rest

unfoldable pub find_sequence : ℕ → List SpoolRow → Option SpoolRow
find_sequence n [] = none
find_sequence n (r ∷ rows) = if eqb r.sequence n then some r else find_sequence n rows

-- committed_at in whole seconds is before the cutoff
unfoldable pub is_stale : ℕ → ℕ → SpoolRow → Bool
is_stale retention_seconds now r = elim r.committed_at [
  | none ↦ false
  | some at ↦
      is_committed r.state && ltb (at / 1000000) ((now - retention_seconds * 1000000) / 1000000)
]

-- with `force` false, as every caller in the module leaves it
unfoldable pub compact : Clock → Spool → Spool
unfolding is_stale
compact c s = if ltb (c.monotonic - s.last_compact) 60000000 then s else record s {
  records = keep_if (λ r. not (is_stale s.retention_seconds c.wall r)) s.records;
  last_compact = c.monotonic;
}

-- UPDATE spool_records … WHERE sequence = n AND state = 'pending'
unfoldable pub update_pending : ℕ → (SpoolRow → SpoolRow) → List SpoolRow → List SpoolRow
update_pending n change = map (λ r. if eqb r.sequence n && is_pending r.state then change r else r)

-- its row count is not 0
unfoldable pub has_pending : ℕ → List SpoolRow → Bool
has_pending n [] = false
has_pending n (r ∷ rows) = (eqb r.sequence n && is_pending r.state) || has_pending n rows
