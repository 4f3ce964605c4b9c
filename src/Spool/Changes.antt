-- ===== src/Spool/Changes.antt =====
-- `compact`, `retry`, `quarantine` and `acknowledge` keep a spool in order.
use superlily.Base.{
  ℕ, ◌+◌, ◌-◌, ◌≡◌, refl, not, String, List, ltb, ◌==◌, Bool-cases, Option-cases, inl, inr,
}
use superlily.Spool.{
  SpoolRecord, SpoolRow, SpoolIdentity, Spool, Clock, update_pending, has_pending, compact,
  is_stale,
}
use superlily.Spool.Delivery.{
  Receipt, matches_receipt, acknowledge, commit_record, commit_row, retry, delay_row, quarantine,
  quarantine_row, note_replay_failure,
}
use superlily.Spool.Order.{
  IsOrdered, IsDescending-keep, known-keep_if, KeepsIdentity, sequences-update, known-update,
}

module _ (P : List SpoolIdentity → Type 0) where
  pub compact-IsOrdered : (c : Clock) (s : Spool) → IsOrdered P s → IsOrdered P (compact c s)
  unfolding compact
  compact-IsOrdered c s h = elim (Bool-cases (ltb (c.monotonic - s.last_compact) 60000000)) [
    | inl recent ↦ rw (recent, compact) h
    | inr due ↦
        rw (due, compact)
          (record {
            rows_descend =
                IsDescending-keep (λ r. not (is_stale s.retention_seconds c.wall r))
                  s.spool_meta.next_sequence s.records h.rows_descend;
            identities_descend = h.identities_descend;
            rows_known =
                known-keep_if s.identities (λ r. not (is_stale s.retention_seconds c.wall r))
                  s.records h.rows_known;
            keys_distinct = h.keys_distinct;
            fact = h.fact;
          })
  ]

  -- a call that only changes other columns of pending rows, and the counters
  update-IsOrdered :
      (change : SpoolRow → SpoolRow) (n : ℕ) (s t : Spool)
      → KeepsIdentity change
      → IsOrdered P s
      → t.spool_meta.next_sequence ≡ s.spool_meta.next_sequence
      → t.records ≡ update_pending n change s.records
      → t.identities ≡ s.identities
      → IsOrdered P t
  update-IsOrdered change n s t keeps h same_next same_rows same_identities = record {
    rows_descend =
        rw (same_next, same_rows) (rw (sequences-update change keeps n s.records) h.rows_descend);
    identities_descend = rw (same_next, same_identities) h.identities_descend;
    rows_known =
        rw (same_rows, same_identities)
          (known-update change keeps n s.identities s.records h.rows_known);
    keys_distinct = rw same_identities h.keys_distinct;
    fact = rw same_identities h.fact;
  }

  module _ (c : Clock) where
    pub retry-IsOrdered :
        (r : SpoolRecord) (error : String) (base : ℕ) (s : Spool)
        → IsOrdered P s
        → IsOrdered P (retry c r error base s)
    unfolding retry delay_row note_replay_failure
    retry-IsOrdered r error base s h = elim (Bool-cases (has_pending r.sequence s.records)) [
      | inl there ↦
          rw (there, retry)
            (update-IsOrdered (delay_row c (r.attempts + 1) base error) r.sequence s _
              (λ q. (refl, refl, refl)) h refl refl refl)
      | inr gone ↦ rw (gone, retry) h
    ]

    pub quarantine-IsOrdered :
        (n : ℕ) (error : String) (s : Spool) → IsOrdered P s → IsOrdered P (quarantine c n error s)
    unfolding quarantine quarantine_row note_replay_failure
    quarantine-IsOrdered n error s h = elim (Bool-cases (has_pending n s.records)) [
      | inl there ↦
          rw (there, quarantine)
            (update-IsOrdered (quarantine_row c error) n s _ (λ q. (refl, refl, refl)) h refl refl
              refl)
      | inr gone ↦ rw (gone, quarantine) h
    ]

    commit-IsOrdered :
        (r : SpoolRecord) (id : String) (s : Spool)
        → IsOrdered P s
        → IsOrdered P (commit_record c r id s).1
    unfolding commit_record commit_row
    commit-IsOrdered r id s h = elim (Bool-cases (has_pending r.sequence s.records)) [
      | inl there ↦
          rw (there, commit_record)
            (compact-IsOrdered c _ (
              update-IsOrdered (commit_row c id) r.sequence s _ (λ q. (refl, refl, refl)) h refl
                refl refl))
      | inr gone ↦ rw (gone, commit_record) h
    ]

    pub acknowledge-IsOrdered :
        (r : SpoolRecord) (receipt : Receipt) (s : Spool)
        → IsOrdered P s
        → IsOrdered P (acknowledge c r receipt s).1
    unfolding acknowledge
    acknowledge-IsOrdered r receipt s h = elim (Bool-cases (matches_receipt s r receipt)) [
      | inr other ↦ rw (other, acknowledge) h
      | inl same ↦ elim (Option-cases receipt.receipt_id) [
        | inl absent ↦ rw (same, absent, acknowledge) h
        | inr (id, given) ↦ elim (Bool-cases (id == "")) [
          | inl empty ↦ rw (same, given, empty, acknowledge) h
          | inr named ↦ rw (same, given, named, acknowledge) (commit-IsOrdered r id s h)
        ]
      ]
    ]
