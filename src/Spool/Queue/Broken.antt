-- ===== src/Spool/Queue/Broken.antt =====
-- The rows that a call of `next_pending` quarantines.
use Prim.Native.String.{◌++◌}
use superlily.Base.{
  ℕ, ◌+◌, ◌≡◌, refl, true, false, some, String, List, [], ◌∷◌, arith, ap, ◌∙◌, ◌&&◌, eqb, ltb,
  Bool-cases, Option-cases, inl, inr, ◌⊎◌,
}
use superlily.Spool.{
  SpoolRecord, SpoolRow, quarantined, Spool, SpoolException, Outcome, ok, raised, Clock, Libraries,
  is_pending, update_pending, has_pending,
}
use superlily.Spool.Append.{row_to_record}
use superlily.Spool.Delivery.{verify_record, quarantine, quarantine_row, note_replay_failure}
use superlily.Spool.Queue.Loop.{first_pending, message, load_record}
use superlily.Spool.Queue.Pending.{IsOldest}

-- the row cannot be read as a record, or the record fails its verification; with the exception
pub data IsBroken (x : Libraries) (s : Spool) (row : SpoolRow) (e : SpoolException) : Type 0 where
  unreadable : row_to_record x row ≡ raised e → IsBroken x s row e
  unverified :
      (r : SpoolRecord)
      → row_to_record x row ≡ ok r
      → verify_record x s r ≡ some e
      → IsBroken x s row e

-- the pending rows of one number are marked as quarantined, and all other rows are as before
pub data Marks (c : Clock) (n : ℕ) (error : String) : List SpoolRow → List SpoolRow → Type 0 where
  end : Marks c n error [] []
  other :
      {rows left : List SpoolRow} (r : SpoolRow)
      → (eqb r.sequence n && is_pending r.state) ≡ false
      → Marks c n error rows left
      → Marks c n error (r ∷ rows) (r ∷ left)
  marked :
      {rows left : List SpoolRow} (r : SpoolRow)
      → (eqb r.sequence n && is_pending r.state) ≡ true
      → Marks c n error rows left
      → Marks c n error (r ∷ rows) (
          record r { state = quarantined; last_attempt_at = some c.wall; last_error = some error }
          ∷ left)

-- What the call drops, in order: each time the oldest pending row, which is due and broken, is marked, and
-- nothing else is changed but the counter of failures and the last error.
pub data Drops (x : Libraries) (c : Clock) : Spool → Spool → Type 0 where
  drops_nothing : {s : Spool} → Drops x c s s
  drops :
      {s t u : Spool} (row : SpoolRow) (e : SpoolException)
      → first_pending s.records ≡ some row
      → IsOldest row s.records
      → ltb c.wall row.next_attempt_at ≡ false
      → IsBroken x s row e
      → Marks c row.sequence ("checksum:" ++ message e) s.records t.records
      → t ≡ record s {
        records = t.records;
        spool_meta = record s.spool_meta {
          replay_failures = s.spool_meta.replay_failures + 1;
          last_error = "checksum:" ++ message e;
        };
      }
      → Drops x c t u
      → Drops x c s u

pub Outcome-cases :
    {A : Type 0} (o : Outcome A) → ((a : A) × (o ≡ ok a)) ⊎ ((e : SpoolException) × (o ≡ raised e))
Outcome-cases (ok a) = inl (a, refl)
Outcome-cases (raised e) = inr (e, refl)

pub load-raised :
    (x : Libraries) (s : Spool) (row : SpoolRow) (e : SpoolException)
    → load_record x s row ≡ raised e
    → IsBroken x s row e
unfolding load_record
load-raised x s row e h = elim (Outcome-cases (row_to_record x row)) [
  | inr (f, bad) ↦ let same : f ≡ e = ground (arith, h, bad) in unreadable (bad ∙ ap raised same)
  | inl (r, read) ↦ elim (Option-cases (verify_record x s r)) [
    | inr (f, bad) ↦
        let same : f ≡ e = ground (arith, h, read, bad) in unverified r read (bad ∙ ap some same)
    | inl fine ↦ absurd (ground (arith, h, read, fine))
  ]
]

update-Marks :
    (c : Clock) (error : String) (n : ℕ) (rows : List SpoolRow)
    → Marks c n error rows (update_pending n (quarantine_row c error) rows)
unfolding update_pending quarantine_row
update-Marks c error n [] = end
update-Marks c error n (r ∷ rows) = elim (Bool-cases (eqb r.sequence n && is_pending r.state)) [
  | inl hit ↦ rw hit (marked r hit (update-Marks c error n rows))
  | inr misses ↦ rw misses (other r misses (update-Marks c error n rows))
]

pub quarantine-Drops :
    (x : Libraries) (c : Clock) (s u : Spool) (row : SpoolRow) (e : SpoolException)
    → first_pending s.records ≡ some row
    → IsOldest row s.records
    → ltb c.wall row.next_attempt_at ≡ false
    → IsBroken x s row e
    → has_pending row.sequence s.records ≡ true
    → Drops x c (quarantine c row.sequence ("checksum:" ++ message e) s) u
    → Drops x c s u
unfolding quarantine note_replay_failure
quarantine-Drops x c s u row e found oldest due broken there rest =
    drops row e found oldest due broken
      (rw there (update-Marks c ("checksum:" ++ message e) row.sequence s.records)) (rw there refl)
      rest
