-- ===== src/Spool/Order.antt =====
-- The sequence numbers of a spool over any calls of its methods.
use superlily.Base.{
  ℕ, ◌≤◌, ◌<◌, ◌≡◌, refl, Bool, true, false, not, ◌&&◌, ◌||◌, List, [], ◌∷◌, map, All, keep_if,
  arith, eqb, is_some, ◌==◌, Bool-cases, inl, inr,
}
use superlily.Spool.{SpoolRow, SpoolIdentity, Spool, update_pending, find_identity}

-- below the bound, and each below the one before it
abbrev pub IsDescending : ℕ → List ℕ → Type 0
IsDescending bound [] = Unit
IsDescending bound (n ∷ ns) = (n < bound) × IsDescending n ns

abbrev pub sequences : List SpoolRow → List ℕ
sequences = map (λ r. r.sequence)

abbrev pub issued : List SpoolIdentity → List ℕ
issued = map (λ i. i.sequence)

-- some identity has the row's key, sequence and hash
abbrev pub has_identity : SpoolRow → List SpoolIdentity → Bool
has_identity r [] = false
has_identity r (i ∷ rest) =
    (i.idempotency_key == r.idempotency_key
      && eqb i.sequence r.sequence
      && i.record_sha256 == r.record_sha256)
    || has_identity r rest

-- no key is bound twice
abbrev pub has_distinct_keys : List SpoolIdentity → Bool
has_distinct_keys [] = true
has_distinct_keys (i ∷ rest) =
    not (is_some (find_identity i.idempotency_key rest)) && has_distinct_keys rest

-- with a fact `P` about the identities
pub record IsOrdered (P : List SpoolIdentity → Type 0) (s : Spool) : Type 0 where
  pub rows_descend : IsDescending s.spool_meta.next_sequence (sequences s.records)
  pub identities_descend : IsDescending s.spool_meta.next_sequence (issued s.identities)
  pub rows_known : All (λ r. has_identity r s.identities ≡ true) s.records
  pub keys_distinct : has_distinct_keys s.identities ≡ true
  pub fact : P s.identities

pub IsDescending-weaken : (b c : ℕ) (ns : List ℕ) → b ≤ c → IsDescending b ns → IsDescending c ns
IsDescending-weaken b c [] h k = tt
IsDescending-weaken b c (n ∷ ns) h (k, rest) = (omega (arith, h, k), rest)

pub IsDescending-keep :
    (f : SpoolRow → Bool) (b : ℕ) (rows : List SpoolRow)
    → IsDescending b (sequences rows)
    → IsDescending b (sequences (keep_if f rows))
IsDescending-keep f b [] h = tt
IsDescending-keep f b (r ∷ rows) (h, k) =
    let rest = IsDescending-keep f r.sequence rows k in
    elim (Bool-cases (f r)) [
      | inl kept ↦ rw kept (h, rest)
      | inr dropped ↦
          rw dropped
            (IsDescending-weaken r.sequence b (sequences (keep_if f rows)) (omega (arith, h)) rest)
    ]

pub known-keep_if :
    (is : List SpoolIdentity) (f : SpoolRow → Bool) (rows : List SpoolRow)
    → All (λ r. has_identity r is ≡ true) rows
    → All (λ r. has_identity r is ≡ true) (keep_if f rows)
known-keep_if is f [] h = h
known-keep_if is f (r ∷ rows) (h, k) = elim (Bool-cases (f r)) [
  | inl kept ↦ rw kept (h, known-keep_if is f rows k)
  | inr dropped ↦ rw dropped (known-keep_if is f rows k)
]

-- a change of a row that keeps its key, its sequence and its hash
abbrev pub KeepsIdentity : (SpoolRow → SpoolRow) → Type 0
KeepsIdentity change =
    (r : SpoolRow)
    → ((change r).sequence ≡ r.sequence)
      × ((change r).idempotency_key ≡ r.idempotency_key)
      × ((change r).record_sha256 ≡ r.record_sha256)

module _ (change : SpoolRow → SpoolRow) (keeps : KeepsIdentity change) (n : ℕ) where
  pub sequences-update :
      (rows : List SpoolRow) → sequences (update_pending n change rows) ≡ sequences rows
  unfolding update_pending
  sequences-update [] = refl
  sequences-update (r ∷ rows) = ground (arith, keeps r, sequences-update rows)

  has_identity-change :
      (r : SpoolRow) (is : List SpoolIdentity) → has_identity (change r) is ≡ has_identity r is
  has_identity-change r [] = refl
  has_identity-change r (i ∷ is) =
      rw ((keeps r).0, (keeps r).1, (keeps r).2, has_identity-change r is) refl

  pub known-update :
      (is : List SpoolIdentity) (rows : List SpoolRow)
      → All (λ r. has_identity r is ≡ true) rows
      → All (λ r. has_identity r is ≡ true) (update_pending n change rows)
  unfolding update_pending
  known-update is [] h = h
  known-update is (r ∷ rows) (h, k) =
      ground (arith, h, has_identity-change r is, known-update is rows k)

pub known-weaken :
    (i : SpoolIdentity) (is : List SpoolIdentity) (rows : List SpoolRow)
    → All (λ r. has_identity r is ≡ true) rows
    → All (λ r. has_identity r (i ∷ is) ≡ true) rows
known-weaken i is [] h = h
known-weaken i is (r ∷ rows) (h, k) = (ground (arith, h), known-weaken i is rows k)
