-- ===== src/Base/Lists.antt =====
-- Lists measured by the native numbers, and predicates on lists that compute.
use Prim.Native.Nat.{ℕ, zero, suc, ◌+◌}
use Prim.Native.String.{String}
use mathlib.Core.Path.{◌≡◌}
use mathlib.Core.Bool.{Bool, true, false, ◌||◌}
use mathlib.Core.Option.{Option, none, some}
use mathlib.Core.List.{List, [], ◌∷◌, ◌++◌}
use native.Mathlib.Omega.{arith}
use text.Mathlib.Text.{◌==◌}
use mathlib.Core.Logic.{◌⊎◌, inl, inr}
use superlily.Base.Tests.{if◌then◌else◌, Bool-cases}

module _ {ℓ} {A : Type ℓ} where
  abbrev pub length : List A → ℕ
  length [] = 0
  length (x ∷ xs) = suc (length xs)

  abbrev pub take : ℕ → List A → List A
  take zero xs = []
  take (suc n) [] = []
  take (suc n) (x ∷ xs) = x ∷ take n xs

  -- [x for x in xs if p(x)]
  abbrev pub keep_if : (A → Bool) → List A → List A
  keep_if p [] = []
  keep_if p (x ∷ xs) = let rest = keep_if p xs in if p x then x ∷ rest else rest

  -- next((x for x in xs if p(x)), None)
  abbrev pub first_of_list : (A → Bool) → List A → Option A
  first_of_list p [] = none
  first_of_list p (x ∷ xs) = if p x then some x else first_of_list p xs

  -- sorted(xs), where `first x y` says that x stands before y
  abbrev pub insert_by : (A → A → Bool) → A → List A → List A
  insert_by first x [] = x ∷ []
  insert_by first x (y ∷ ys) =
      let rest = insert_by first x ys in if first x y then x ∷ y ∷ ys else y ∷ rest

  abbrev pub sort_by : (A → A → Bool) → List A → List A
  sort_by first [] = []
  sort_by first (x ∷ xs) = insert_by first x (sort_by first xs)

  pub length-append : (xs ys : List A) → length (xs ++ ys) ≡ length xs + length ys
  length-append [] ys = omega arith
  length-append (x ∷ xs) ys = omega (arith, length-append xs ys)

-- x in xs, for texts
abbrev pub contains : List String → String → Bool
contains [] x = false
contains (y ∷ ys) x = y == x || contains ys x

-- len(xs) != len(set(xs))
abbrev pub has_duplicates : List String → Bool
has_duplicates [] = false
has_duplicates (x ∷ xs) = contains xs x || has_duplicates xs

abbrev pub All {ℓ κ} : {A : Type ℓ} → (A → Type κ) → List A → Type κ
All P [] = Unit
All P (x ∷ xs) = P x × All P xs

module _ {ℓ κ} {A : Type ℓ} (Q : A → Type κ) where
  pub take-All : (n : ℕ) (xs : List A) → All Q xs → All Q (take n xs)
  take-All zero xs h = tt
  take-All (suc n) [] h = tt
  take-All (suc n) (x ∷ xs) (first, others) = (first, take-All n xs others)

  pub keep_if-All : (p : A → Bool) (xs : List A) → All Q xs → All Q (keep_if p xs)
  keep_if-All p [] h = tt
  keep_if-All p (x ∷ xs) (first, others) = elim (Bool-cases (p x)) [
    | inl e ↦ rw e (first, keep_if-All p xs others)
    | inr e ↦ rw e (keep_if-All p xs others)
  ]

  pub insert_by-All :
      (first : A → A → Bool) (x : A) (ys : List A) → Q x → All Q ys → All Q (insert_by first x ys)
  insert_by-All first x [] q h = (q, tt)
  insert_by-All first x (y ∷ ys) q (head, others) = elim (Bool-cases (first x y)) [
    | inl e ↦ rw e (q, (head, others))
    | inr e ↦ rw e (head, insert_by-All first x ys q others)
  ]

  pub sort_by-All : (first : A → A → Bool) (xs : List A) → All Q xs → All Q (sort_by first xs)
  sort_by-All first [] h = tt
  sort_by-All first (x ∷ xs) (head, others) =
      insert_by-All first x (sort_by first xs) head (sort_by-All first xs others)

-- what holds of all elements of a list that was sorted or filtered holds of all elements that it came from
module _ {ℓ κ} {A : Type ℓ} (Q : A → Type κ) where
  All-insert_by :
      (first : A → A → Bool) (x : A) (ys : List A) → All Q (insert_by first x ys) → Q x × All Q ys
  All-insert_by first x [] (q, h) = (q, h)
  All-insert_by first x (y ∷ ys) h = elim (Bool-cases (first x y)) [
    | inl e ↦ rw e at h
    | inr e ↦
        let (head, others) : Q y × All Q (insert_by first x ys) = rw e at h in
        let (q, rest) = All-insert_by first x ys others in (q, (head, rest))
  ]

  pub All-sort_by : (first : A → A → Bool) (xs : List A) → All Q (sort_by first xs) → All Q xs
  All-sort_by first [] h = tt
  All-sort_by first (x ∷ xs) h =
      let (q, rest) = All-insert_by first x (sort_by first xs) h in (q, All-sort_by first xs rest)

  pub All-kept :
      (p : A → Bool) (xs : List A) → All Q (keep_if p xs) → All (λ x. (p x ≡ false) ⊎ Q x) xs
  All-kept p [] h = tt
  All-kept p (x ∷ xs) h = elim (Bool-cases (p x)) [
    | inl e ↦
        let (head, others) : Q x × All Q (keep_if p xs) = rw e at h in
        (inr head, All-kept p xs others)
    | inr e ↦ let others : All Q (keep_if p xs) = rw e at h in (inl e, All-kept p xs others)
  ]

pub All-keep_if {ℓ} :
    {A : Type ℓ} (p : A → Bool) (xs : List A) → All (λ x. p x ≡ true) (keep_if p xs)
All-keep_if p [] = tt
All-keep_if p (x ∷ xs) = elim (Bool-cases (p x)) [
  | inl e ↦ rw e (e, All-keep_if p xs)
  | inr e ↦ rw e (All-keep_if p xs)
]
