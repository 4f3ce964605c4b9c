-- ===== src/Spool/Binding.antt =====
-- What the identities of a spool bind a key to.
use superlily.Base.{
  ℕ, ◌≡◌, refl, true, ◌&&◌, none, some, String, List, [], ◌∷◌, All, arith, eqb, ◌==◌, eq_iff,
  Bool-cases, inl, inr,
}
use superlily.Spool.{SpoolRow, SpoolIdentity, find_record, find_identity}
use superlily.Spool.Order.{has_identity, has_distinct_keys}

-- what the identities say of a key
abbrev pub Binds : String → ℕ → String → List SpoolIdentity → Type 0
Binds key n hash is =
    (i : SpoolIdentity) × (find_identity key is ≡ some i)
    × (i.sequence ≡ n)
    × (i.record_sha256 ≡ hash)

pub Binds-grows :
    (key hash : String) (n : ℕ) (i : SpoolIdentity) (is : List SpoolIdentity)
    → find_identity i.idempotency_key is ≡ none
    → Binds key n hash is
    → Binds key n hash (i ∷ is)
unfolding find_identity
Binds-grows key hash n i is new (j, found, same, hashed) =
    elim (Bool-cases (i.idempotency_key == key)) [
      | inl clash ↦ absurd (ground (arith, new, found, (eq_iff i.idempotency_key key).0 clash))
      | inr other ↦ rw other (j, found, same, hashed)
    ]

pub identity-key :
    (key : String) (is : List SpoolIdentity) (i : SpoolIdentity)
    → find_identity key is ≡ some i
    → i.idempotency_key ≡ key
unfolding find_identity
identity-key key [] i h = cc
identity-key key (j ∷ is) i h =
    ground (arith, h, eq_iff j.idempotency_key key, identity-key key is i)

pub record-key :
    (key : String) (rows : List SpoolRow) (r : SpoolRow)
    → find_record key rows ≡ some r
    → r.idempotency_key ≡ key
unfolding find_record
record-key key [] r h = cc
record-key key (q ∷ rows) r h =
    ground (arith, h, eq_iff q.idempotency_key key, record-key key rows r)

pub record-known :
    (key : String) (rows : List SpoolRow) (r : SpoolRow) (is : List SpoolIdentity)
    → find_record key rows ≡ some r
    → All (λ q. has_identity q is ≡ true) rows
    → has_identity r is ≡ true
unfolding find_record
record-known key [] r is h k = cc
record-known key (q ∷ rows) r is h k = ground (arith, h, k, record-known key rows r is)

-- the identity of a row is the one that its key finds
pub known-Binds :
    (r : SpoolRow) (is : List SpoolIdentity)
    → has_distinct_keys is ≡ true
    → has_identity r is ≡ true
    → Binds r.idempotency_key r.sequence r.record_sha256 is
unfolding find_identity
known-Binds r [] d h = cc
known-Binds r (i ∷ is) d h = elim (Bool-cases (i.idempotency_key == r.idempotency_key)) [
  | inr other ↦ rw other (known-Binds r is (ground (arith, d)) (ground (arith, h, other)))
  | inl same ↦ elim (Bool-cases (eqb i.sequence r.sequence && i.record_sha256 == r.record_sha256)) [
    | inl agrees ↦ rw same (
      i,
      refl,
      ground (arith, agrees),
      ground (arith, agrees, eq_iff i.record_sha256 r.record_sha256),
    )
    | inr differs ↦
        let (j, found, _, _) =
          known-Binds r is (ground (arith, d)) (ground (arith, h, same, differs)) in
        absurd (ground (arith, d, found, (eq_iff i.idempotency_key r.idempotency_key).0 same))
  ]
]
