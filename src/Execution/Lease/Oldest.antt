-- ===== src/Execution/Lease/Oldest.antt =====
-- The first allowed candidate is the oldest allowed one.
use superlily.Base.{
  ℕ, zero, suc, ◌≤◌, ◌≡◌, refl, true, false, Option, none, some, String, List, [], ◌∷◌, All, take,
  keep_if, sort_by, insert_by, insert_by-All, All-sort_by, All-kept, arith, Bool-cases, inl, inr,
  ◌⊎◌,
}
use superlily.Authority.Rows.{ToolInvocation, Database}
use superlily.Execution.Lease.{is_older, is_candidate, lease_candidates}

-- the first candidate that the guards let through, with its implementation
abbrev pub first_allowed :
    (ToolInvocation → Option String) → List ToolInvocation → Option (ToolInvocation × String)
first_allowed allows [] = none
first_allowed allows (i ∷ rest) = elim (allows i) [
  | none ↦ first_allowed allows rest
  | some h ↦ some (i, h)
]

abbrev NoEarlier : ToolInvocation → ToolInvocation → Type 0
NoEarlier i j = i.created_at ≤ j.created_at

older-NoEarlier : (i j : ToolInvocation) → is_older i j ≡ true → NoEarlier i j
unfolding is_older
older-NoEarlier i j h = ground (arith, h)

younger-NoEarlier : (i j : ToolInvocation) → is_older i j ≡ false → NoEarlier j i
unfolding is_older
younger-NoEarlier i j h = ground (arith, h)

All-NoEarlier :
    (i j : ToolInvocation) (rows : List ToolInvocation)
    → NoEarlier i j
    → All (NoEarlier j) rows
    → All (NoEarlier i) rows
All-NoEarlier i j [] h all = tt
All-NoEarlier i j (k ∷ rows) h (head, others) =
    (omega (arith, h, head), All-NoEarlier i j rows h others)

abbrev Ascends : List ToolInvocation → Type 0
Ascends [] = Unit
Ascends (i ∷ rows) = All (NoEarlier i) rows × Ascends rows

insert-Ascends :
    (i : ToolInvocation) (rows : List ToolInvocation)
    → Ascends rows
    → Ascends (insert_by is_older i rows)
insert-Ascends i [] h = (tt, tt)
insert-Ascends i (j ∷ rows) (head, others) = elim (Bool-cases (is_older i j)) [
  | inl e ↦
      let first : NoEarlier i j = older-NoEarlier i j e in
      rw e ((first, All-NoEarlier i j rows first head), (head, others))
  | inr e ↦ rw e (
    insert_by-All (NoEarlier j) is_older i rows (younger-NoEarlier i j e) head,
    insert-Ascends i rows others,
  )
]

sort-Ascends : (rows : List ToolInvocation) → Ascends (sort_by is_older rows)
sort-Ascends [] = tt
sort-Ascends (i ∷ rows) = insert-Ascends i (sort_by is_older rows) (sort-Ascends rows)

module _ (allows : ToolInvocation → Option String) where
  -- it is not allowed, or the row is no older than `i`
  abbrev GivesWay : ToolInvocation → ToolInvocation → Type 0
  GivesWay i j = (allows j ≡ none) ⊎ NoEarlier i j

  All-GivesWay :
      (i : ToolInvocation) (rows : List ToolInvocation)
      → All (NoEarlier i) rows
      → All (GivesWay i) rows
  All-GivesWay i [] h = tt
  All-GivesWay i (j ∷ rows) (head, others) = (inr head, All-GivesWay i rows others)

  first-step :
      (o : Option String) (j : ToolInvocation) (rows : List ToolInvocation) (i : ToolInvocation)
      (h : String)
      → allows j ≡ o
      → All (NoEarlier j) rows
      → (first_allowed allows rows ≡ some (i, h) → All (GivesWay i) rows)
      → elim o [ none ↦ first_allowed allows rows | some k ↦ some (j, k) ] ≡ some (i, h)
      → GivesWay i j × All (GivesWay i) rows
  first-step none j rows i h refused head others e = (inl refused, others e)
  first-step (some k) j rows i h allowed head others e =
      let same : j ≡ i = ground (arith, e) in
      let later : All (NoEarlier i) rows = rw same at head in
      (inr (ground (arith, same)), All-GivesWay i rows later)

  first-GivesWay :
      (rows : List ToolInvocation) (i : ToolInvocation) (h : String)
      → Ascends rows
      → first_allowed allows rows ≡ some (i, h)
      → All (GivesWay i) rows
  first-GivesWay [] i h a e = tt
  first-GivesWay (j ∷ rows) i h (head, others) e =
      first-step (allows j) j rows i h refl head (first-GivesWay rows i h others) e

  take-step :
      (o : Option String) (j : ToolInvocation) (rows more : List ToolInvocation)
      (found : ToolInvocation × String)
      → (first_allowed allows rows ≡ some found → first_allowed allows more ≡ some found)
      → elim o [ none ↦ first_allowed allows rows | some k ↦ some (j, k) ] ≡ some found
      → elim o [ none ↦ first_allowed allows more | some k ↦ some (j, k) ] ≡ some found
  take-step none j rows more found others e = others e
  take-step (some k) j rows more found others e = e

  first-take :
      (n : ℕ) (rows : List ToolInvocation) (found : ToolInvocation × String)
      → first_allowed allows (take n rows) ≡ some found
      → first_allowed allows rows ≡ some found
  first-take zero rows found e = absurd (ground (arith, e))
  first-take (suc n) [] found e = e
  first-take (suc n) (j ∷ rows) found e =
      take-step (allows j) j (take n rows) rows found (first-take n rows found) e

  -- every stored row that could have been leased instead is no older
  abbrev pub IsOldestAllowed : String → ℕ → Database → ToolInvocation → Type 0
  IsOldestAllowed provider_id now db i =
      All
        (λ j.
          (is_candidate provider_id now j ≡ false)
          ⊎ ((allows j ≡ none) ⊎ (i.created_at ≤ j.created_at)))
        db.invocations

  pub first-IsOldestAllowed :
      (provider_id : String) (now : ℕ) (db : Database) (i : ToolInvocation) (h : String)
      → first_allowed allows (lease_candidates provider_id now db) ≡ some (i, h)
      → IsOldestAllowed provider_id now db i
  unfolding lease_candidates
  first-IsOldestAllowed provider_id now db i h e =
      let kept : List ToolInvocation = keep_if (is_candidate provider_id now) db.invocations in
      All-kept (GivesWay i) (is_candidate provider_id now) db.invocations (
        All-sort_by (GivesWay i) is_older kept (
          first-GivesWay (sort_by is_older kept) i h (sort-Ascends kept)
            (first-take 100 (sort_by is_older kept) (i, h) e)))
