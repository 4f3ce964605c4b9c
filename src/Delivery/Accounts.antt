-- ===== src/Delivery/Accounts.antt =====
-- The loop over the blocks accounts for every option.
use superlily.Base.{
  has_duplicates, ℕ, ◌+◌, ◌≡◌, refl, Bool, true, false, ◌&&◌, String, List, [], ◌∷◌, map, length,
  length-append, contains, arith, eq_iff, and_left, and_right,
}
use superlily.Delivery.{
  AlternativeOption, AlternativeBlock, RenderBlock, leaf, group, alternative, GroupBlock,
  Resolution, Planned, planned, capability_error, is_valid_alternative, reject, add_choice,
  and_plan, resolve_blocks,
}
use superlily.Delivery.Choice.{
  some_compatible, Chooses, preferred_one, fallback_one, no_option, choose_option-Chooses,
}

-- the alternatives of a document as the contract has them
unfoldable pub is_valid : List RenderBlock → Bool
is_valid [] = true
is_valid (leaf content ∷ rest) = is_valid rest
is_valid (group g ∷ rest) = is_valid rest
is_valid (alternative a ∷ rest) = is_valid_alternative a && is_valid rest

-- each alternative has an option that the adapter can show
unfoldable pub is_available : List String → List RenderBlock → Bool
is_available supported [] = true
is_available supported (leaf content ∷ rest) = is_available supported rest
is_available supported (group g ∷ rest) = is_available supported rest
is_available supported (alternative a ∷ rest) =
    some_compatible supported a.options && is_available supported rest

unfoldable pub alternatives : List RenderBlock → ℕ
alternatives [] = 0
alternatives (leaf content ∷ rest) = alternatives rest
alternatives (group g ∷ rest) = alternatives rest
alternatives (alternative a ∷ rest) = 1 + alternatives rest

unfoldable pub options : List RenderBlock → ℕ
options [] = 0
options (leaf content ∷ rest) = options rest
options (group g ∷ rest) = options rest
options (alternative a ∷ rest) = length a.options + options rest

-- The outcome of the loop is a resolution exactly if each alternative is available. It then has no alternative
-- left, one selection for each, and a rejection for each option that was not selected.
pub record Resolves (supported : List String) (blocks : List RenderBlock) (r : Resolution)
    : Type 0 where
  pub available : is_available supported blocks ≡ true
  pub none_left : alternatives r.blocks ≡ 0
  pub kept : length r.blocks ≡ length blocks
  pub chosen : length r.selected ≡ alternatives blocks
  pub accounted : length r.selected + length r.rejected ≡ options blocks

rejects_all :
    (supported : List String) (node_id : String) (c : AlternativeOption)
    (os : List AlternativeOption)
    → contains (map (λ o. o.option_id) os) c.option_id ≡ false
    → length (reject supported node_id c os) ≡ length os
unfolding reject
rejects_all supported node_id c [] h = refl
rejects_all supported node_id c (o ∷ rest) h =
    ground (arith, h, rejects_all supported node_id c rest)

rejects_others :
    (supported : List String) (node_id : String) (c : AlternativeOption)
    (os : List AlternativeOption)
    → has_duplicates (map (λ o. o.option_id) os) ≡ false
    → contains (map (λ o. o.option_id) os) c.option_id ≡ true
    → 1 + length (reject supported node_id c os) ≡ length os
unfolding reject
rejects_others supported node_id c [] d h = ground (arith, h)
rejects_others supported node_id c (o ∷ rest) d h = ground (
  arith,
  d,
  h,
  eq_iff o.option_id c.option_id,
  rejects_all supported node_id c rest,
  rejects_others supported node_id c rest,
)

-- the account of a document with one block more
module _ (supported : List String) (blocks : List RenderBlock) (r : Resolution)
    (h : Resolves supported blocks r) where
  more_leaf :
      (content : String)
      → Resolves supported (leaf content ∷ blocks) (record r { blocks = leaf content ∷ r.blocks })
  unfolding is_available alternatives options
  more_leaf content = record {
    available = h.available;
    none_left = h.none_left;
    kept = omega (arith, h.kept);
    chosen = h.chosen;
    accounted = h.accounted;
  }

  more_group :
      (g : GroupBlock)
      → Resolves supported (group g ∷ blocks) (record r { blocks = group g ∷ r.blocks })
  unfolding is_available alternatives options
  more_group g = record {
    available = h.available;
    none_left = h.none_left;
    kept = omega (arith, h.kept);
    chosen = h.chosen;
    accounted = h.accounted;
  }

  more_alternative :
      (node_id : String) (a : AlternativeBlock) (c : AlternativeOption)
      → is_valid_alternative a ≡ true
      → some_compatible supported a.options ≡ true
      → contains (map (λ o. o.option_id) a.options) c.option_id ≡ true
      → Resolves supported (alternative a ∷ blocks) (add_choice supported node_id a c r)
  unfolding is_available alternatives options add_choice is_valid_alternative
  more_alternative node_id a c valid available listed =
      let others : 1 + length (reject supported node_id c a.options) ≡ length a.options =
        rejects_others supported node_id c a.options (ground (arith, valid)) listed in
      record {
        available = rw (available, h.available) refl;
        none_left = h.none_left;
        kept = omega (arith, h.kept);
        chosen = omega (arith, h.chosen);
        accounted = omega (
          arith,
          h.accounted,
          others,
          length-append (reject supported node_id c a.options) r.rejected,
        );
      }

-- the outcome of the loop
pub data Outcome (supported : List String) (blocks : List RenderBlock)
    : Planned Resolution → Type 0 where
  resolved : (r : Resolution) → Resolves supported blocks r → Outcome supported blocks (planned r)
  unavailable :
      (code detail : String)
      → is_available supported blocks ≡ false
      → Outcome supported blocks (capability_error code detail)

after_leaf :
    (supported : List String) (content : String) (rest : List RenderBlock) (o : Planned Resolution)
    → Outcome supported rest o
    → Outcome supported
        (leaf content ∷ rest)
        (and_plan o (λ r. planned (record r { blocks = leaf content ∷ r.blocks })))
unfolding is_available
after_leaf supported content rest _ (resolved r h) =
    resolved _ (more_leaf supported rest r h content)
after_leaf supported content rest _ (unavailable code detail h) = unavailable code detail h

after_group :
    (supported : List String) (g : GroupBlock) (rest : List RenderBlock) (o : Planned Resolution)
    → Outcome supported rest o
    → Outcome supported
        (group g ∷ rest)
        (and_plan o (λ r. planned (record r { blocks = group g ∷ r.blocks })))
unfolding is_available
after_group supported g rest _ (resolved r h) = resolved _ (more_group supported rest r h g)
after_group supported g rest _ (unavailable code detail h) = unavailable code detail h

after_alternative :
    (supported : List String) (node_id : String) (a : AlternativeBlock) (rest : List RenderBlock)
    (c : Planned AlternativeOption) (o : Planned Resolution)
    → is_valid_alternative a ≡ true
    → Chooses supported a c
    → Outcome supported rest o
    → Outcome supported
        (alternative a ∷ rest)
        (and_plan c (λ chosen. and_plan o (λ r. planned (add_choice supported node_id a chosen r))))
unfolding is_available
after_alternative supported node_id a rest _ _ valid (preferred_one c _ _ listed available)
      (resolved r h) =
    resolved _ (more_alternative supported rest r h node_id a c valid available listed)
after_alternative supported node_id a rest _ _ valid (fallback_one c _ _ _ _ _ listed available)
      (resolved r h) =
    resolved _ (more_alternative supported rest r h node_id a c valid available listed)
after_alternative supported node_id a rest _ _ valid (preferred_one c _ _ listed available)
      (unavailable code detail h) =
    unavailable code detail (ground (arith, h))
after_alternative supported node_id a rest _ _ valid (fallback_one c _ _ _ _ _ listed available)
      (unavailable code detail h) =
    unavailable code detail (ground (arith, h))
after_alternative supported node_id a rest _ _ valid (no_option code detail h) outcome =
    unavailable code detail (ground (arith, h))

pub resolve-Outcome :
    (supported : List String) (n : ℕ) (blocks : List RenderBlock)
    → is_valid blocks ≡ true
    → Outcome supported blocks (resolve_blocks supported n blocks)
unfolding resolve_blocks is_valid is_available alternatives options
resolve-Outcome supported n [] valid =
    resolved _
      (record { available = refl; none_left = refl; kept = refl; chosen = refl; accounted = refl })
resolve-Outcome supported n (leaf content ∷ rest) valid =
    after_leaf supported content rest _ (resolve-Outcome supported n rest valid)
resolve-Outcome supported n (group g ∷ rest) valid =
    after_group supported g rest _ (resolve-Outcome supported n rest valid)
resolve-Outcome supported n (alternative a ∷ rest) valid =
    after_alternative supported _ a rest _ _ (and_left _ _ valid)
      (choose_option-Chooses supported a (and_left _ _ valid))
      (resolve-Outcome supported (n + 1) rest (and_right _ _ valid))
