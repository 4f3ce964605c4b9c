-- ===== src/Spool/Again.antt =====
-- The same event appended again, at any later time.
use superlily.Base.{
  ℕ, ◌+◌, ◌≡◌, refl, sym, ap, subst, ◌∙◌, true, false, none, some, String, List, arith, ltb, ◌==◌,
  eq_iff, eq_refl, Bool-cases, Option-cases, inl, inr, ◌⊎◌,
}
use Prim.Native.String.{len}
use superlily.Spool.{
  Payload, SpoolRecord, SpoolRow, Spool, spool_error, Outcome, ok, raised, Clock, Libraries,
  compact, find_record, find_identity, events_endpoint, Loaded, invalid, not_an_object, object,
}
use superlily.Spool.Append.{
  append_event, row_to_record, fresh_record, capture_event, insert_event, new_identity, new_row,
  is_taken,
}
use superlily.Spool.Keeps.{append-IsOrdered}
use superlily.Spool.Order.{IsOrdered}
use superlily.Spool.Calls.{Call, perform_all, perform_all-keeps, IsSound}
use superlily.Spool.Binding.{Binds, Binds-grows, record-key, record-known, known-Binds}

-- a row with the key, whose stored text is not the JSON text of an object
abbrev pub IsUnreadable : Libraries → String → Spool → Type 0
IsUnreadable x key s =
    (row : SpoolRow) × (find_record key s.records ≡ some row)
    × ((x.loads row.payload_json ≡ invalid) ⊎ (x.loads row.payload_json ≡ not_an_object))

-- what a repeated call may return: the same number and hash, or, only where the row of the key cannot be read, a
-- SpoolError
abbrev pub Agrees : Libraries → String → Spool → SpoolRecord → Outcome SpoolRecord → Type 0
Agrees x key s r (ok q) = (q.sequence ≡ r.sequence) × (q.record_sha256 ≡ r.record_sha256)
Agrees x key s r (raised (spool_error e)) = IsUnreadable x key s
Agrees x key s r (raised _) = ⊥

Loaded-cases :
    (l : Loaded) → ((l ≡ invalid) ⊎ (l ≡ not_an_object)) ⊎ ((p : Payload) × (l ≡ object p))
Loaded-cases invalid = inl (inl refl)
Loaded-cases not_an_object = inl (inr refl)
Loaded-cases (object p) = inr (p, refl)

read-Agrees :
    (x : Libraries) (key : String) (s : Spool) (row : SpoolRow) (r : SpoolRecord)
    → find_record key s.records ≡ some row
    → row.sequence ≡ r.sequence
    → row.record_sha256 ≡ r.record_sha256
    → Agrees x key s r (row_to_record x row)
unfolding row_to_record
read-Agrees x key s row r found h k = elim (Loaded-cases (x.loads row.payload_json)) [
  | inl (inl bad) ↦ rw (bad, Agrees) (row, found, inl bad)
  | inl (inr bad) ↦ rw (bad, Agrees) (row, found, inr bad)
  | inr (payload, good) ↦ rw (good, Agrees) (h, k)
]

-- a call with a bound key and the same body changes nothing and agrees
bound-repeat :
    (x : Libraries) (c : Clock) (payload : Payload) (key : String) (s : Spool) (r : SpoolRecord)
    → (key == "") ≡ false
    → r.record_sha256 ≡ x.record_hash events_endpoint key payload.body
    → IsOrdered (Binds key r.sequence r.record_sha256) s
    → (Agrees x key s r (append_event x c payload key s).0)
      × ((append_event x c payload key s).1 ≡ s)
unfolding append_event fresh_record
bound-repeat x c payload key s r named hashed h =
    let (i, found, numbered, same_hash) = h.fact in
    elim (Option-cases (find_record key s.records)) [
      | inr (row, there) ↦
          let (j, found', numbered', same_hash') =
            known-Binds row s.identities h.keys_distinct
              (record-known key s.records row s.identities there h.rows_known) in
          let one : j ≡ i = ground (arith, found', found, record-key key s.records row there) in
          let row_number : row.sequence ≡ r.sequence =
            sym numbered' ∙ ap (λ k. k.sequence) one ∙ numbered in
          let row_hash : row.record_sha256 ≡ r.record_sha256 =
            sym same_hash' ∙ ap (λ k. k.record_sha256) one ∙ same_hash in
          let equal : (row.record_sha256 == x.record_hash events_endpoint key payload.body) ≡ true =
            (eq_iff _ _).1 (row_hash ∙ hashed) in
          rw (named, there, equal, append_event)
            (read-Agrees x key s row r there row_number row_hash, refl)
      | inl absent ↦
          let equal : (i.record_sha256 == x.record_hash events_endpoint key payload.body) ≡ true =
            (eq_iff _ _).1 (same_hash ∙ hashed) in
          rw (named, absent, found, equal, append_event) ((numbered, same_hash), refl)
    ]

-- a successful call binds its key
abbrev Bound : String → String → Outcome SpoolRecord × Spool → Type 0
Bound key hash (ok r, t) =
    ((key == "") ≡ false)
    × (r.record_sha256 ≡ hash)
    × Binds key r.sequence r.record_sha256 t.identities
Bound key hash (raised e, t) = Unit

insert-Bound :
    (x : Libraries) (s : Spool) (body key hash : String) (at : ℕ)
    → (key == "") ≡ false
    → Bound key hash (insert_event x s body (new_identity s key hash at))
unfolding insert_event fresh_record new_identity find_identity
insert-Bound x s body key hash at named =
    elim (Bool-cases
      (ltb s.max_record_bytes (len (new_row x s body (new_identity s key hash at)).payload_json))) [
        | inl large ↦ rw (large, insert_event) tt
        | inr fits ↦ elim (Bool-cases (is_taken (new_identity s key hash at) s)) [
          | inl taken ↦ rw (fits, taken, insert_event) tt
          | inr free ↦
              rw (fits, free, insert_event) (named, refl, rw (eq_refl key) (_, refl, refl, refl))
        ]
      ]

capture-Bound :
    (x : Libraries) (c : Clock) (body key hash : String) (s : Spool)
    → (key == "") ≡ false
    → Bound key hash (capture_event x c body key hash s)
unfolding capture_event
capture-Bound x c body key hash s named =
    let size : ℕ = len (x.dumps (record { body = body; ingress = none })) + 8192 in
    elim (Bool-cases (ltb s.max_record_bytes size)) [
      | inl large ↦ rw (large, capture_event) tt
      | inr fits ↦
          elim (Bool-cases (ltb (compact c s).quota_bytes (x.live_bytes (compact c s) + size))) [
            | inl over ↦ rw (fits, over, capture_event) tt
            | inr within ↦
                rw (fits, within, capture_event)
                  (insert-Bound x (compact c s) body key hash c.wall named)
          ]
    ]

read-Bound :
    (x : Libraries) (row : SpoolRow) (key hash : String) (s : Spool)
    → (key == "") ≡ false
    → row.record_sha256 ≡ hash
    → Binds key row.sequence row.record_sha256 s.identities
    → Bound key hash (row_to_record x row, s)
unfolding row_to_record
read-Bound x row key hash s named hashed binds = elim (Loaded-cases (x.loads row.payload_json)) [
  | inl (inl bad) ↦ rw (bad, Bound) tt
  | inl (inr bad) ↦ rw (bad, Bound) tt
  | inr (payload, good) ↦ rw (good, Bound) (named, hashed, binds)
]

append-Bound :
    (x : Libraries) (c : Clock) (payload : Payload) (key : String) (s : Spool)
    → IsSound s
    → Bound key (x.record_hash events_endpoint key payload.body) (append_event x c payload key s)
unfolding append_event fresh_record
append-Bound x c payload key s h =
    let hash : String = x.record_hash events_endpoint key payload.body in
    elim (Bool-cases (key == "")) [
      | inl empty ↦ rw (empty, append_event) tt
      | inr named ↦ elim (Option-cases (find_record key s.records)) [
        | inr (r, found) ↦ elim (Bool-cases (r.record_sha256 == hash)) [
          | inl same ↦
              let binds : Binds r.idempotency_key r.sequence r.record_sha256 s.identities =
                known-Binds r s.identities h.keys_distinct
                  (record-known key s.records r s.identities found h.rows_known) in
              rw (named, found, same, append_event)
                (read-Bound x r key hash s named ((eq_iff r.record_sha256 hash).0 same) (
                  subst (λ k. Binds k r.sequence r.record_sha256 s.identities)
                    (record-key key s.records r found) binds))
          | inr other ↦ rw (named, found, other, append_event) tt
        ]
        | inl absent ↦ elim (Option-cases (find_identity key s.identities)) [
          | inr (i, found) ↦ elim (Bool-cases (i.record_sha256 == hash)) [
            | inl same ↦
                rw (named, absent, found, same, append_event)
                  (named, (eq_iff i.record_sha256 hash).0 same, (i, found, refl, refl))
            | inr other ↦ rw (named, absent, found, other, append_event) tt
          ]
          | inl unknown ↦
              rw (named, absent, unknown, append_event)
                (capture-Bound x c payload.body key hash s named)
        ]
      ]
    ]

-- In a spool that is in order, a record that was returned for a key is bound to it for good: after any
-- further calls, an append of the same key and body captures nothing new, and returns the same sequence
-- number and hash; also where the row has been removed. Only where the stored row of the key is not the JSON
-- text of an object may it raise a SpoolError instead, which also changes nothing.
pub append-again :
    (x : Libraries) (c d : Clock) (payload later : Payload) (key : String) (s t : Spool)
    (r : SpoolRecord) (calls : List (Clock × Call))
    → IsSound s
    → append_event x c payload key s ≡ (ok r, t)
    → later.body ≡ payload.body
    → Agrees x key (perform_all x calls t) r (append_event x d later key (perform_all x calls t)).0
      × ((append_event x d later key (perform_all x calls t)).1 ≡ perform_all x calls t)
append-again x c d payload later key s t r calls h e same_body =
    let (named, hashed, binds) =
      subst (Bound key (x.record_hash events_endpoint key payload.body)) e
        (append-Bound x c payload key s h) in
    let before : IsSound t =
      subst (λ p. IsSound p.1) e
        (append-IsOrdered (λ is. Unit) (λ i is _ _. tt) x c payload key s h) in
    let ordered : IsOrdered (Binds key r.sequence r.record_sha256) t = record {
      rows_descend = before.rows_descend;
      identities_descend = before.identities_descend;
      rows_known = before.rows_known;
      keys_distinct = before.keys_distinct;
      fact = binds;
    } in
    bound-repeat x d later key (perform_all x calls t) r named (rw same_body hashed) (
      perform_all-keeps (Binds key r.sequence r.record_sha256)
        (λ i is new. Binds-grows key r.record_sha256 r.sequence i is new) x calls t ordered)
