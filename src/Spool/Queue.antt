-- ===== src/Spool/Queue.antt =====
-- What a call of `next_pending` returns.
pub mod Loop
pub mod Pending
pub mod Broken
unfoldable pub use Loop.*
pub use Broken.*
use Prim.Native.String.{◌++◌}
use superlily.Base.{
  ℕ, zero, suc, ◌+◌, ◌≤◌, ◌<◌, ◌≡◌, refl, Bool, true, false, not, Option, none, some, String, List,
  [], ◌∷◌, All, keep_if, arith, ap, ◌∙◌, ◌&&◌, eqb, ltb, if◌then◌else◌, Bool-cases, Option-cases,
  inl, inr, ◌⊎◌,
}
use superlily.Spool.{
  SpoolRecord, SpoolRow, quarantined, Spool, SpoolException, spool_error, spool_conflict,
  spool_full, receipt_mismatch, integrity_error, Outcome, ok, raised, Clock, Libraries, is_pending,
  update_pending, has_pending, compact, is_stale,
}
use superlily.Spool.Append.{row_to_record}
use superlily.Spool.Delivery.{verify_record, quarantine, quarantine_row, note_replay_failure}
use superlily.Spool.Queue.Pending.{
  first-has_pending, count-quarantine_strict, IsOldest, first-IsOldest, first-compact,
}

-- what a call returns once it has dropped the broken rows, and the spool that it leaves
pub data Delivery (x : Libraries) (c : Clock) : Option SpoolRecord → Spool → Spool → Type 0 where
  delivered :
      {t : Spool} (row : SpoolRow) (r : SpoolRecord)
      → first_pending t.records ≡ some row
      → is_pending row.state ≡ true
      → IsOldest row t.records
      → row_to_record x row ≡ ok r
      → verify_record x t r ≡ none
      → ltb c.wall row.next_attempt_at ≡ false
      → Delivery x c (some r) t t
  waits :
      {t : Spool} (row : SpoolRow)
      → first_pending t.records ≡ some row
      → IsOldest row t.records
      → ltb c.wall row.next_attempt_at ≡ true
      → Delivery x c none t t
  nothing_pending :
      {u : Spool}
      → first_pending u.records ≡ none
      → first_pending (compact c u).records ≡ none
      → Delivery x c none u (compact c u)

-- how a round ends
data Ends (x : Libraries) (c : Clock) (s : Spool) : Round → Type 0 where
  at_return : {r : Option SpoolRecord} {t : Spool} → Delivery x c r s t → Ends x c s (returns r t)
  at_next :
      {t : Spool}
      → count_pending t.records < count_pending s.records
      → ((u : Spool) → Drops x c t u → Drops x c s u)
      → Ends x c s (continues t)

load-ok :
    (x : Libraries) (s : Spool) (row : SpoolRow) (r : SpoolRecord)
    → load_record x s row ≡ ok r
    → (row_to_record x row ≡ ok r) × (verify_record x s r ≡ none)
unfolding load_record
load-ok x s row r h = ground (arith, h)

quarantine-fewer :
    (c : Clock) (n : ℕ) (error : String) (s : Spool)
    → has_pending n s.records ≡ true
    → count_pending (quarantine c n error s).records < count_pending s.records
unfolding quarantine note_replay_failure
quarantine-fewer c n error s h = rw h (count-quarantine_strict c error n s.records h)

round-Ends : (x : Libraries) (c : Clock) (s : Spool) → Ends x c s (round x c s)
unfolding round
round-Ends x c s = elim (Option-cases (first_pending s.records)) [
  | inl nothing ↦
      rw (nothing, round) (at_return (nothing_pending nothing (first-compact c s nothing)))
  | inr (row, found) ↦
      let (waiting, there) = first-has_pending s.records row found in
      let oldest = first-IsOldest s.records row found in
      elim (Bool-cases (ltb c.wall row.next_attempt_at)) [
        | inl later ↦ rw (found, later, round) (at_return (waits row found oldest later))
        | inr due ↦ elim (Outcome-cases (load_record x s row)) [
          | inl (r, loaded) ↦
              let (read, verified) = load-ok x s row r loaded in
              rw (found, due, loaded, round)
                (at_return (delivered row r found waiting oldest read verified due))
          | inr (e, broken) ↦
              rw (found, due, broken, round)
                (at_next (quarantine-fewer c row.sequence ("checksum:" ++ message e) s there) (λ u.
                  quarantine-Drops x c s u row e found oldest due (load-raised x s row e broken)
                    there))
        ]
      ]
]

abbrev pub Returns : ℕ → Libraries → Clock → Spool → Type 0
Returns fuel x c s =
    (r : Option SpoolRecord) × (u : Spool) × (t : Spool) × (next_pending fuel x c s ≡ some (r, t))
    × Drops x c s u
    × Delivery x c r u t

after_round :
    (fuel : ℕ) (x : Libraries) (c : Clock) (s : Spool) (o : Round)
    → round x c s ≡ o
    → Ends x c s o
    → ((t : Spool) → count_pending t.records < count_pending s.records → Returns fuel x c t)
    → Returns (suc fuel) x c s
unfolding next_pending
after_round fuel x c s (returns r t) e (at_return d) later =
    (r, s, t, rw (e, next_pending) refl, drops_nothing, d)
after_round fuel x c s (continues t) e (at_next fewer before) later =
    let (r, u, v, returned, dropped, d) = later t fewer in
    (r, u, v, rw (e, next_pending) returned, before u dropped, d)

-- With more rounds than there are pending rows, the call returns. It first quarantines rows, each of which was
-- then the oldest pending one, due, and not readable or not verified, and changes no other row. It then returns
-- the record of the oldest pending row that is left, which is verified and due; or nothing, where that row is not
-- due yet; or nothing, where no row is pending, after compaction.
pub next_pending-Returns :
    (fuel : ℕ) (x : Libraries) (c : Clock) (s : Spool)
    → count_pending s.records < fuel
    → Returns fuel x c s
next_pending-Returns zero x c s h = absurd (omega (arith, h))
next_pending-Returns (suc fuel) x c s h =
    after_round fuel x c s (round x c s) refl (round-Ends x c s)
      (λ t fewer. next_pending-Returns fuel x c t (omega (arith, h, fewer)))
