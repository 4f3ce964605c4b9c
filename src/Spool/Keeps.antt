-- ===== src/Spool/Keeps.antt =====
-- `next_pending` and `append_event` keep a spool in order.
use Prim.Native.String.{len}
use superlily.Base.{
  ℕ, zero, suc, ◌+◌, ◌≡◌, refl, ap, subst, Option, none, some, String, List, ◌∷◌, arith, ltb, ◌==◌,
  eq_refl, Bool-cases, Option-cases, inl, inr,
}
use superlily.Spool.{
  Payload, SpoolRecord, SpoolIdentity, Spool, Clock, Libraries, compact, find_identity, find_record,
  events_endpoint,
}
use superlily.Spool.Append.{
  append_event, capture_event, insert_event, new_row, new_identity, note_failure, is_taken,
}
use superlily.Spool.Queue.{
  next_pending, round, Round, returns, continues, first_pending, load_record, Outcome-cases,
}
use superlily.Spool.Order.{IsOrdered, known-weaken}
use superlily.Spool.Changes.{compact-IsOrdered, quarantine-IsOrdered}

abbrev left_by : Round → Spool
left_by (returns r t) = t
left_by (continues t) = t

-- a fact that stays when an identity with a new key is added
module _ (P : List SpoolIdentity → Type 0)
    (grows : (i : SpoolIdentity) (is : List SpoolIdentity)
      → find_identity i.idempotency_key is ≡ none
      → P is
      → P (i ∷ is)) where
  round-IsOrdered :
      (x : Libraries) (c : Clock) (s : Spool) → IsOrdered P s → IsOrdered P (left_by (round x c s))
  unfolding round
  round-IsOrdered x c s h = elim (Option-cases (first_pending s.records)) [
    | inl nothing ↦ rw (nothing, round) (compact-IsOrdered P c s h)
    | inr (row, found) ↦ elim (Bool-cases (ltb c.wall row.next_attempt_at)) [
      | inl later ↦ rw (found, later, round) h
      | inr due ↦ elim (Outcome-cases (load_record x s row)) [
        | inl (r, loaded) ↦ rw (found, due, loaded, round) h
        | inr (e, broken) ↦
            rw (found, due, broken, round) (quarantine-IsOrdered P c row.sequence _ s h)
      ]
    ]
  ]

  after_round-IsOrdered :
      (fuel : ℕ) (x : Libraries) (c : Clock) (s t : Spool) (r : Option SpoolRecord) (o : Round)
      → round x c s ≡ o
      → IsOrdered P (left_by o)
      → ((u : Spool) → IsOrdered P u → next_pending fuel x c u ≡ some (r, t) → IsOrdered P t)
      → next_pending (suc fuel) x c s ≡ some (r, t)
      → IsOrdered P t
  unfolding next_pending
  after_round-IsOrdered fuel x c s t r (returns q u) same h later e =
      subst (IsOrdered P) (ap get_spool (rw (same, next_pending) at e)) h
    where
      get_spool : Option (Option SpoolRecord × Spool) → Spool
      get_spool none = u
      get_spool (some (p, v)) = v
  after_round-IsOrdered fuel x c s t r (continues u) same h later e =
      later u h (rw (same, next_pending) at e)

  pub next_pending-IsOrdered :
      (fuel : ℕ) (x : Libraries) (c : Clock) (s t : Spool) (r : Option SpoolRecord)
      → IsOrdered P s
      → next_pending fuel x c s ≡ some (r, t)
      → IsOrdered P t
  unfolding next_pending
  next_pending-IsOrdered zero x c s t r h e = cc
  next_pending-IsOrdered (suc fuel) x c s t r h e =
      after_round-IsOrdered fuel x c s t r (round x c s) refl (round-IsOrdered x c s h)
        (λ u ordered found. next_pending-IsOrdered fuel x c u t r ordered found) e

  insert-IsOrdered :
      (x : Libraries) (s : Spool) (body : String) (i : SpoolIdentity)
      → i.sequence ≡ s.spool_meta.next_sequence
      → IsOrdered P s
      → IsOrdered P (insert_event x s body i).1
  unfolding insert_event new_row is_taken
  insert-IsOrdered x s body i next h =
      elim (Bool-cases (ltb s.max_record_bytes (len (new_row x s body i).payload_json))) [
        | inl large ↦ rw (large, insert_event) h
        | inr fits ↦ elim (Bool-cases (is_taken i s)) [
          | inl taken ↦ rw (fits, taken, insert_event) h
          | inr free ↦
              rw (fits, free, insert_event)
                (record {
                  rows_descend = (omega (arith, next), rw next h.rows_descend);
                  identities_descend = (omega (arith, next), rw next h.identities_descend);
                  rows_known = (
                    ground (arith, eq_refl i.idempotency_key, eq_refl i.record_sha256),
                    known-weaken i s.identities s.records h.rows_known,
                  );
                  keys_distinct = ground (arith, free, h.keys_distinct);
                  fact = grows i s.identities (ground (arith, free)) h.fact;
                })
        ]
      ]

  -- a call that only changes counters and the last error
  counters-IsOrdered :
      (s t : Spool)
      → IsOrdered P s
      → t.spool_meta.next_sequence ≡ s.spool_meta.next_sequence
      → t.records ≡ s.records
      → t.identities ≡ s.identities
      → IsOrdered P t
  counters-IsOrdered s t h same_next same_rows same_identities = record {
    rows_descend = rw (same_next, same_rows) h.rows_descend;
    identities_descend = rw (same_next, same_identities) h.identities_descend;
    rows_known = rw (same_rows, same_identities) h.rows_known;
    keys_distinct = rw same_identities h.keys_distinct;
    fact = rw same_identities h.fact;
  }

  capture-IsOrdered :
      (x : Libraries) (c : Clock) (body key hash : String) (s : Spool)
      → IsOrdered P s
      → IsOrdered P (capture_event x c body key hash s).1
  unfolding capture_event note_failure new_identity
  capture-IsOrdered x c body key hash s h =
      let size : ℕ = len (x.dumps (record { body = body; ingress = none })) + 8192 in
      elim (Bool-cases (ltb s.max_record_bytes size)) [
        | inl large ↦ rw (large, capture_event) (counters-IsOrdered s _ h refl refl refl)
        | inr fits ↦
            elim (Bool-cases (ltb (compact c s).quota_bytes (x.live_bytes (compact c s) + size))) [
              | inl over ↦
                  rw (fits, over, capture_event)
                    (counters-IsOrdered (compact c s) _ (compact-IsOrdered P c s h) refl refl refl)
              | inr within ↦
                  rw (fits, within, capture_event)
                    (insert-IsOrdered x (compact c s) body _ refl (compact-IsOrdered P c s h))
            ]
      ]

  pub append-IsOrdered :
      (x : Libraries) (c : Clock) (payload : Payload) (key : String) (s : Spool)
      → IsOrdered P s
      → IsOrdered P (append_event x c payload key s).1
  unfolding append_event note_failure
  append-IsOrdered x c payload key s h =
      let hash : String = x.record_hash events_endpoint key payload.body in
      elim (Bool-cases (key == "")) [
        | inl empty ↦ rw (empty, append_event) h
        | inr named ↦ elim (Option-cases (find_record key s.records)) [
          | inr (r, found) ↦ elim (Bool-cases (r.record_sha256 == hash)) [
            | inl same ↦ rw (named, found, same, append_event) h
            | inr other ↦
                rw (named, found, other, append_event) (counters-IsOrdered s _ h refl refl refl)
          ]
          | inl absent ↦ elim (Option-cases (find_identity key s.identities)) [
            | inr (i, found) ↦ elim (Bool-cases (i.record_sha256 == hash)) [
              | inl same ↦ rw (named, absent, found, same, append_event) h
              | inr other ↦
                  rw (named, absent, found, other, append_event)
                    (counters-IsOrdered s _ h refl refl refl)
            ]
            | inl unknown ↦
                rw (named, absent, unknown, append_event)
                  (capture-IsOrdered x c payload.body key hash s h)
          ]
        ]
      ]
