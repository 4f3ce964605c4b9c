-- ===== src/Spool/RoundTrip.antt =====
-- A captured event comes back as it was captured.
use Prim.Native.String.{len}
use superlily.Base.{
  subst, ℕ, suc, ◌+◌, ◌-◌, ◌≡◌, refl, Bool, false, none, some, String, List, [], ◌∷◌, keep_if, ltb,
  arith, ◌==◌, eq_refl, Bool-cases, inl, inr,
}
use superlily.Spool.{
  Payload, SpoolRecord, SpoolRow, SpoolIdentity, Spool, Outcome, ok, raised, Clock, Libraries,
  object, is_pending, find_record, find_identity, compact, events_endpoint,
}
use superlily.Spool.Append.{
  is_taken, append_event, row_to_record, fresh_record, capture_event, insert_event, new_identity,
  new_row, enclosed,
}
use superlily.Spool.Delivery.{verify_record}
use superlily.Spool.Queue.{first_pending, load_record, returns, round, next_pending}

-- where a record was captured, the next call of next_pending returns it and leaves the spool alone
abbrev pub Delivers : ℕ → Libraries → Clock → String → Outcome SpoolRecord × Spool → Type 0
Delivers fuel x c body (raised e, t) = Unit
Delivers fuel x c body (ok r, t) =
    x.loads (x.dumps r.payload) ≡ object r.payload
    → (next_pending (suc fuel) x c t ≡ some (some r, t)) × (r.payload.body ≡ body)

pending-keep_if :
    (f : SpoolRow → Bool) (rows : List SpoolRow)
    → first_pending rows ≡ none
    → first_pending (keep_if f rows) ≡ none
unfolding first_pending
pending-keep_if f [] h = refl
pending-keep_if f (r ∷ rows) h = elim (Bool-cases (is_pending r.state)) [
  | inl waits ↦ ground (arith, h, waits)
  | inr done ↦
      let rest : first_pending (keep_if f rows) ≡ none = pending-keep_if f rows (rw done at h) in
      elim (Bool-cases (f r)) [ inl kept ↦ rw kept (rw done rest) | inr dropped ↦ rw dropped rest ]
]

compact-none :
    (c : Clock) (s : Spool)
    → first_pending s.records ≡ none
    → first_pending (compact c s).records ≡ none
unfolding compact
compact-none c s h = elim (Bool-cases (ltb (c.monotonic - s.last_compact) 60000000)) [
  | inl early ↦ rw early h
  | inr late ↦ rw late (pending-keep_if _ s.records h)
]

module _ (fuel : ℕ) (x : Libraries) (c : Clock) (s : Spool) (body key : String) (at : ℕ) where
  abbrev identity : SpoolIdentity
  identity = new_identity s key (x.record_hash events_endpoint key body) at

  abbrev Parses : Type 0
  Parses =
      x.loads (x.dumps (fresh_record s body identity).payload)
      ≡ object (fresh_record s body identity).payload

  read-new :
      Parses → row_to_record x (new_row x s body identity) ≡ ok (fresh_record s body identity)
  unfolding row_to_record new_row fresh_record
  read-new parse = rw (parse, row_to_record) refl

  verify-new :
      (t : Spool)
      → t.spool_id ≡ s.spool_id
      → verify_record x t (fresh_record s body identity) ≡ none
  unfolding verify_record fresh_record enclosed new_identity
  verify-new t same =
      rw (same, eq_refl s.spool_id, eq_refl (x.record_hash events_endpoint key body)) (ground arith)

  load-new :
      (t : Spool)
      → Parses
      → t.spool_id ≡ s.spool_id
      → load_record x t (new_row x s body identity) ≡ ok (fresh_record s body identity)
  unfolding load_record
  load-new t parse same = rw (read-new parse, load_record) (rw (verify-new t same) refl)

  due : ltb c.wall (new_row x s body identity).next_attempt_at ≡ false
  unfolding new_row
  due = ground arith

  round-new :
      (t : Spool)
      → Parses
      → t.spool_id ≡ s.spool_id
      → first_pending t.records ≡ some (new_row x s body identity)
      → round x c t ≡ returns (some (fresh_record s body identity)) t
  unfolding round
  round-new t parse same first = rw (first, round) (rw (due, load-new t parse same) refl)

  deliver-new :
      (t : Spool)
      → Parses
      → t.spool_id ≡ s.spool_id
      → first_pending t.records ≡ some (new_row x s body identity)
      → (next_pending (suc fuel) x c t ≡ some (some (fresh_record s body identity), t))
        × ((fresh_record s body identity).payload.body ≡ body)
  unfolding next_pending
  deliver-new t parse same first = (
    rw (round-new t parse same first, next_pending) refl,
    unfold fresh_record in unfold enclosed in refl,
  )

  insert-Delivers :
      first_pending s.records ≡ none → Delivers fuel x c body (insert_event x s body identity)
  unfolding insert_event
  insert-Delivers empty =
      elim (Bool-cases (ltb s.max_record_bytes (len (new_row x s body identity).payload_json))) [
        | inl large ↦ rw (large, insert_event) tt
        | inr fits ↦ elim (Bool-cases (is_taken identity s)) [
          | inl taken ↦ rw (fits, taken, insert_event) tt
          | inr free ↦
              rw (fits, free, insert_event) (λ parse. deliver-new _ parse refl (first-new empty))
        ]
      ]
    where
      first-new :
          first_pending s.records ≡ none
          → first_pending (new_row x s body identity ∷ s.records) ≡ some (new_row x s body identity)
      first-new e = unfold first_pending in unfold new_row in rw e refl

module _ (fuel : ℕ) (x : Libraries) (c later : Clock) where
  capture-Delivers :
      (body key : String) (s : Spool)
      → first_pending s.records ≡ none
      → Delivers fuel x later body
          (capture_event x c body key (x.record_hash events_endpoint key body) s)
  unfolding capture_event
  capture-Delivers body key s empty =
      let size : ℕ = len (x.dumps (record { body = body; ingress = none })) + 8192 in
      elim (Bool-cases (ltb s.max_record_bytes size)) [
        | inl large ↦ rw (large, capture_event) tt
        | inr fits ↦
            elim (Bool-cases (ltb (compact c s).quota_bytes (x.live_bytes (compact c s) + size))) [
              | inl over ↦ rw (fits, over, capture_event) tt
              | inr within ↦
                  rw (fits, within, capture_event)
                    (insert-Delivers fuel x later (compact c s) body key c.wall
                      (compact-none c s empty))
            ]
      ]

  unbound-Delivers :
      (payload : Payload) (key : String) (s : Spool)
      → first_pending s.records ≡ none
      → find_record key s.records ≡ none
      → find_identity key s.identities ≡ none
      → Delivers fuel x later payload.body (append_event x c payload key s)
  unfolding append_event
  unbound-Delivers payload key s empty no_row no_identity = elim (Bool-cases (key == "")) [
    | inl e ↦ rw (e, append_event) tt
    | inr e ↦ rw (e, no_row, no_identity, append_event) (capture-Delivers payload.body key s empty)
  ]

-- Where the JSON parser reads back the payload that the writer wrote, and nothing is pending: if an append captures an event
-- with a new key, then the next call of next_pending, at any time, returns the captured record, which has the
-- event's body, and leaves the spool as it is.
pub append-next_pending :
    (fuel : ℕ) (x : Libraries) (c later : Clock) (payload : Payload) (key : String) (s t : Spool)
    (r : SpoolRecord)
    → x.loads (x.dumps r.payload) ≡ object r.payload
    → first_pending s.records ≡ none
    → find_record key s.records ≡ none
    → find_identity key s.identities ≡ none
    → append_event x c payload key s ≡ (ok r, t)
    → (next_pending (suc fuel) x later t ≡ some (some r, t)) × (r.payload.body ≡ payload.body)
append-next_pending fuel x c later payload key s t r parse empty no_row no_identity captured =
    subst (Delivers fuel x later payload.body) captured
      (unbound-Delivers fuel x c later payload key s empty no_row no_identity) parse
