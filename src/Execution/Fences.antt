-- ===== src/Execution/Fences.antt =====
-- The fences of an invocation's attempts: a later attempt has a higher fence, and only the last may be active.
pub mod Held
pub mod Locked
pub mod Calls
pub mod Leases
pub mod Reaper
use superlily.Base.{
  ◌<◌, ◌≡◌, refl, Bool, true, false, not, ◌&&◌, ◌||◌, Option, none, some, List, [], ◌∷◌, ltb, eqb,
  arith, ◌==◌, eq_iff, Bool-cases, inl, inr, and_true, and_left, and_right,
}
use superlily.Base.Table.{find, replace}
use superlily.Authority.Rows.{ToolAttempt}
use superlily.Execution.Proof.{attempt_id}
use superlily.Execution.Lifecycle.{is_active}
use superlily.Execution.Lease.Grant.{max_fence, clashes}

-- what a later attempt `a` asks of an earlier one
unfoldable pub gives_way : ToolAttempt → ToolAttempt → Bool
gives_way a b =
    not (b.id == a.id)
    && (not (b.invocation_id == a.invocation_id)
        || (ltb b.fencing_token a.fencing_token && not (is_active b.state)))

unfoldable pub all_give_way : ToolAttempt → List ToolAttempt → Bool
all_give_way a [] = true
all_give_way a (b ∷ rest) = gives_way a b && all_give_way a rest

-- on the table, which has its newest row first
unfoldable pub has_fences : List ToolAttempt → Bool
has_fences [] = true
has_fences (a ∷ rest) = all_give_way a rest && has_fences rest

-- `a` is a row of the table, up to what a handler changes in it; an active row, if `act`
unfoldable pub is_held : Bool → ToolAttempt → Option ToolAttempt → Bool
is_held act a none = false
is_held act a (some c) =
    c.id == a.id
    && c.invocation_id == a.invocation_id
    && eqb c.fencing_token a.fencing_token
    && (not act || is_active c.state)

abbrev pub find_row : ToolAttempt → List ToolAttempt → Option ToolAttempt
find_row a l = find attempt_id a.id l

-- the lines below write a row over its former self
same_row : ToolAttempt → ToolAttempt → Bool
same_row a b =
    a.id == b.id
    && a.invocation_id == b.invocation_id
    && eqb a.fencing_token b.fencing_token
    && (not (is_active b.state) || is_active a.state)

same-gives_way :
    (a b c : ToolAttempt) → same_row a b ≡ true → gives_way c a ≡ true → gives_way c b ≡ true
unfolding same_row gives_way
same-gives_way a b c s g = ground (
  arith,
  s,
  g,
  eq_iff a.id b.id,
  eq_iff a.invocation_id b.invocation_id,
  eq_iff b.id c.id,
  eq_iff a.id c.id,
)

same-gives_way_head :
    (a b c : ToolAttempt) → same_row a b ≡ true → gives_way a c ≡ true → gives_way b c ≡ true
unfolding same_row gives_way
same-gives_way_head a b c s g =
    ground (arith, s, g, eq_iff a.id b.id, eq_iff a.invocation_id b.invocation_id)

same-all :
    (a b : ToolAttempt) (l : List ToolAttempt)
    → same_row a b ≡ true
    → all_give_way a l ≡ true
    → all_give_way b l ≡ true
unfolding all_give_way
same-all a b [] s g = refl
same-all a b (c ∷ rest) s g =
    and_true (same-gives_way_head a b c s (and_left _ _ g)) (same-all a b rest s (and_right _ _ g))

-- what the row under the key of `b` is, where the table's first row has it, and where it has not
held-same :
    (b c : ToolAttempt) (rest : List ToolAttempt)
    → (c.id == b.id) ≡ true
    → is_held (is_active b.state) b (find_row b (c ∷ rest)) ≡ true
    → same_row c b ≡ true
unfolding find is_held same_row
held-same b c rest e h = ground (arith, rw e at h)

held-other :
    (b c : ToolAttempt) (rest : List ToolAttempt)
    → (c.id == b.id) ≡ false
    → is_held (is_active b.state) b (find_row b (c ∷ rest)) ≡ true
    → is_held (is_active b.state) b (find_row b rest) ≡ true
unfolding find
held-other b c rest e h = rw e at h

replace-all :
    (a b : ToolAttempt) (l : List ToolAttempt)
    → is_held (is_active b.state) b (find_row b l) ≡ true
    → all_give_way a l ≡ true
    → all_give_way a (replace attempt_id b l) ≡ true
unfolding all_give_way replace
replace-all a b [] h g = refl
replace-all a b (c ∷ rest) h g = elim (Bool-cases (c.id == b.id)) [
  | inl e ↦
      rw e (
        and_true (same-gives_way c b a (held-same b c rest e h) (and_left _ _ g)) (and_right _ _ g))
  | inr e ↦
      rw e (
        and_true (and_left _ _ g)
          (replace-all a b rest (held-other b c rest e h) (and_right _ _ g)))
]

-- a row written over its former self, which was active if the new one is
pub replace-fences :
    (b : ToolAttempt) (l : List ToolAttempt)
    → is_held (is_active b.state) b (find_row b l) ≡ true
    → has_fences l ≡ true
    → has_fences (replace attempt_id b l) ≡ true
unfolding has_fences replace
replace-fences b [] h f = refl
replace-fences b (c ∷ rest) h f = elim (Bool-cases (c.id == b.id)) [
  | inl e ↦
      rw e
        (and_true (same-all c b rest (held-same b c rest e h) (and_left _ _ f)) (and_right _ _ f))
  | inr e ↦ rw e (
      and_true (replace-all c b rest (held-other b c rest e h) (and_left _ _ f))
        (replace-fences b rest (held-other b c rest e h) (and_right _ _ f)))
]

insert-gives_way :
    (a b : ToolAttempt) (rest : List ToolAttempt)
    → is_active a.state ≡ true
    → clashes a (b ∷ rest) ≡ false
    → max_fence a.invocation_id (b ∷ rest) < a.fencing_token
    → gives_way a b ≡ true
unfolding gives_way clashes max_fence
insert-gives_way a b rest act c m = ground (arith, act, c, m)

insert-fewer :
    (a b : ToolAttempt) (rest : List ToolAttempt)
    → clashes a (b ∷ rest) ≡ false
    → max_fence a.invocation_id (b ∷ rest) < a.fencing_token
    → (clashes a rest ≡ false) × (max_fence a.invocation_id rest < a.fencing_token)
unfolding clashes max_fence
insert-fewer a b rest c m = ground (arith, c, m)

insert-all :
    (a : ToolAttempt) (l : List ToolAttempt)
    → is_active a.state ≡ true
    → clashes a l ≡ false
    → max_fence a.invocation_id l < a.fencing_token
    → all_give_way a l ≡ true
unfolding all_give_way
insert-all a [] act c m = refl
insert-all a (b ∷ rest) act c m =
    let (fewer, lower) = insert-fewer a b rest c m in
    and_true (insert-gives_way a b rest act c m) (insert-all a rest act fewer lower)

-- a new row that no constraint refuses, whose fence is over every other of its invocation
pub insert-fences :
    (a : ToolAttempt) (l : List ToolAttempt)
    → is_active a.state ≡ true
    → clashes a l ≡ false
    → max_fence a.invocation_id l < a.fencing_token
    → has_fences l ≡ true
    → has_fences (a ∷ l) ≡ true
unfolding has_fences
insert-fences a l act c m f = and_true (insert-all a l act c m) f
