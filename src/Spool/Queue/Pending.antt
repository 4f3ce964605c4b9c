-- ===== src/Spool/Queue/Pending.antt =====
-- The oldest pending row, and the number of pending rows.
use superlily.Base.{
  ℕ, ◌≤◌, ◌<◌, ◌≡◌, refl, Bool, true, false, not, none, some, String, List, [], ◌∷◌, All, keep_if,
  arith, Option-cases, inl, inr, ◌⊎◌,
}
use superlily.Spool.{
  SpoolRow, Spool, Clock, is_pending, update_pending, has_pending, compact, is_stale,
}
use superlily.Spool.Delivery.{quarantine_row}
use superlily.Spool.Queue.Loop.{first_pending, count_pending}

-- the first pending row is pending and in the table
pub first-has_pending :
    (rows : List SpoolRow) (r : SpoolRow)
    → first_pending rows ≡ some r
    → (is_pending r.state ≡ true) × (has_pending r.sequence rows ≡ true)
unfolding first_pending has_pending
first-has_pending [] r h = ground (arith, h)
first-has_pending (q ∷ rows) r h = elim (Option-cases (first_pending rows)) [
  | inl nothing ↦ ground (arith, h, nothing)
  | inr (p, found) ↦ ground (arith, h, found, first-has_pending rows p)
]

-- to quarantine a pending row leaves fewer pending
count-quarantine :
    (c : Clock) (error : String) (n : ℕ) (rows : List SpoolRow)
    → count_pending (update_pending n (quarantine_row c error) rows) ≤ count_pending rows
unfolding count_pending update_pending quarantine_row
count-quarantine c error n [] = omega arith
count-quarantine c error n (r ∷ rows) = ground (arith, count-quarantine c error n rows)

pub count-quarantine_strict :
    (c : Clock) (error : String) (n : ℕ) (rows : List SpoolRow)
    → has_pending n rows ≡ true
    → count_pending (update_pending n (quarantine_row c error) rows) < count_pending rows
unfolding count_pending update_pending quarantine_row has_pending
count-quarantine_strict c error n [] h = ground (arith, h)
count-quarantine_strict c error n (r ∷ rows) h =
    ground (arith, h, count-quarantine c error n rows, count-quarantine_strict c error n rows)

-- no pending row is older
abbrev pub IsOldest : SpoolRow → List SpoolRow → Type 0
IsOldest r = All (λ q. (is_pending q.state ≡ false) ⊎ (r.sequence ≤ q.sequence))

older-IsOldest :
    (r p : SpoolRow) (rows : List SpoolRow)
    → r.sequence ≤ p.sequence
    → IsOldest p rows
    → IsOldest r rows
older-IsOldest r p [] h k = k
older-IsOldest r p (q ∷ rows) h k = ground (arith, h, k, older-IsOldest r p rows h)

none-IsOldest : (r : SpoolRow) (rows : List SpoolRow) → first_pending rows ≡ none → IsOldest r rows
unfolding first_pending
none-IsOldest r [] h = tt
none-IsOldest r (q ∷ rows) h = ground (arith, h, none-IsOldest r rows)

pub first-IsOldest :
    (rows : List SpoolRow) (r : SpoolRow) → first_pending rows ≡ some r → IsOldest r rows
unfolding first_pending
first-IsOldest [] r h = tt
first-IsOldest (q ∷ rows) r h = elim (Option-cases (first_pending rows)) [
  | inl nothing ↦ ground (arith, h, nothing, none-IsOldest r rows nothing)
  | inr (p, found) ↦ ground (arith, h, found, first-IsOldest rows p found, older-IsOldest r p rows)
]

first-keep_if :
    (f : SpoolRow → Bool) (rows : List SpoolRow)
    → first_pending rows ≡ none
    → first_pending (keep_if f rows) ≡ none
unfolding first_pending
first-keep_if f [] h = refl
first-keep_if f (r ∷ rows) h = ground (arith, h, first-keep_if f rows)

pub first-compact :
    (c : Clock) (s : Spool)
    → first_pending s.records ≡ none
    → first_pending (compact c s).records ≡ none
unfolding compact
first-compact c s h =
    ground (arith, h, first-keep_if (λ r. not (is_stale s.retention_seconds c.wall r)) s.records h)
