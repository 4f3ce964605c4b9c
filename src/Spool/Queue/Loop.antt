-- ===== src/Spool/Queue/Loop.antt =====
-- `next_pending`: the oldest pending record, after the broken ones before it are quarantined.
use Prim.Native.String.{◌++◌}
use superlily.Base.{
  ℕ, zero, suc, ◌+◌, Option, none, some, String, List, [], ◌∷◌, ltb, if◌then◌else◌,
}
use superlily.Spool.{
  SpoolRecord, SpoolRow, Spool, SpoolException, spool_error, spool_conflict, spool_full,
  receipt_mismatch, integrity_error, Outcome, ok, raised, Clock, Libraries, is_pending, compact,
}
use superlily.Spool.Append.{row_to_record}
use superlily.Spool.Delivery.{verify_record, quarantine}

abbrev pub older : SpoolRow → Option SpoolRow → SpoolRow
older r none = r
older r (some s) = if ltb r.sequence s.sequence then r else s

-- WHERE state = 'pending' ORDER BY sequence LIMIT 1
unfoldable pub first_pending : List SpoolRow → Option SpoolRow
first_pending [] = none
first_pending (r ∷ rows) =
    let rest = first_pending rows in if is_pending r.state then some (older r rest) else rest

abbrev pub message : SpoolException → String
message (spool_error e) = e
message (spool_conflict e) = e
message (spool_full e) = e
message (receipt_mismatch e) = e
message integrity_error = ""

-- the row as a verified record, or the exception of the `try` block
unfoldable pub load_record : Libraries → Spool → SpoolRow → Outcome SpoolRecord
unfolding verify_record
load_record x s r = elim (row_to_record x r) [
  | raised e ↦ raised e
  | ok record_read ↦ elim (verify_record x s record_read) [
    | some e ↦ raised e
    | none ↦ ok record_read
  ]
]

-- one round of the loop: the value that it returns, or the spool of the next round
pub data Round : Type 0 where
  returns : Option SpoolRecord → Spool → Round
  continues : Spool → Round

unfoldable pub round : Libraries → Clock → Spool → Round
unfolding load_record
round x c s = elim (first_pending s.records) [
  | none ↦ returns none (compact c s)
  | some r ↦ if ltb c.wall r.next_attempt_at then returns none s else elim (load_record x s r) [
    | ok record_read ↦ returns (some record_read) s
    | raised e ↦ continues (quarantine c r.sequence ("checksum:" ++ message e) s)
  ]
]

-- `while True`, with as many rounds as the fuel allows
unfoldable pub next_pending : ℕ → Libraries → Clock → Spool → Option (Option SpoolRecord × Spool)
unfolding round
next_pending zero x c s = none
next_pending (suc fuel) x c s = elim (round x c s) [
  | returns r t ↦ some (r, t)
  | continues t ↦ next_pending fuel x c t
]

unfoldable pub count_pending : List SpoolRow → ℕ
count_pending [] = 0
count_pending (r ∷ rows) = (if is_pending r.state then 1 else 0) + count_pending rows
