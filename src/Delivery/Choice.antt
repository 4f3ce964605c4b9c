-- ===== src/Delivery/Choice.antt =====
-- The choice of one alternative.
use superlily.Base.{
  ap, sym, ◌∙◌, ◌⊎◌, ◌≡◌, refl, Bool, true, false, ◌||◌, Option, none, some, String, List, [], ◌∷◌,
  map, first_of_list, contains, arith, ◌==◌, eq_iff, Bool-cases, Option-cases, inl, inr,
}
use superlily.Delivery.{
  AlternativeOption, AlternativeBlock, Planned, planned, capability_error, is_valid_alternative,
  is_compatible, choose, choose_option,
}

-- some option can be shown
unfoldable pub some_compatible : List String → List AlternativeOption → Bool
some_compatible supported [] = false
some_compatible supported (o ∷ rest) =
    is_compatible supported o.requires || some_compatible supported rest

abbrev pub IsOption : AlternativeOption → List AlternativeOption → Type 0
IsOption c [] = ⊥
IsOption c (o ∷ rest) = (c ≡ o) ⊎ IsOption c rest

-- the block's preferred option; where the block keeps its contract, no other has this id
abbrev pub IsPreferred : AlternativeBlock → AlternativeOption → Type 0
IsPreferred a p = (p.option_id ≡ a.preferred_option_id) × IsOption p a.options

-- The outcome of a choice: the block's preferred option, if that is compatible; a compatible option of the block,
-- if the preferred one is not; or the error, where no option is compatible.
pub data Chooses (supported : List String) (a : AlternativeBlock)
    : Planned AlternativeOption → Type 0 where
  preferred_one :
      (c : AlternativeOption)
      → is_compatible supported c.requires ≡ true
      → IsPreferred a c
      → contains (map (λ o. o.option_id) a.options) c.option_id ≡ true
      → some_compatible supported a.options ≡ true
      → Chooses supported a (planned c)
  fallback_one :
      (c p : AlternativeOption)
      → is_compatible supported c.requires ≡ true
      → is_compatible supported p.requires ≡ false
      → IsPreferred a p
      → IsOption c a.options
      → contains (map (λ o. o.option_id) a.options) c.option_id ≡ true
      → some_compatible supported a.options ≡ true
      → Chooses supported a (planned c)
  no_option :
      (code detail : String)
      → some_compatible supported a.options ≡ false
      → Chooses supported a (capability_error code detail)

module _ (supported : List String) where
  abbrev first_compatible : List AlternativeOption → Option AlternativeOption
  first_compatible os = first_of_list (λ o. is_compatible supported o.requires) os

  none-compatible :
      (os : List AlternativeOption)
      → first_compatible os ≡ none
      → some_compatible supported os ≡ false
  unfolding some_compatible
  none-compatible [] h = refl
  none-compatible (o ∷ rest) h = ground (arith, h, none-compatible rest)

  first-facts :
      (os : List AlternativeOption) (c : AlternativeOption)
      → first_compatible os ≡ some c
      → (is_compatible supported c.requires ≡ true)
        × IsOption c os
        × (contains (map (λ o. o.option_id) os) c.option_id ≡ true)
        × (some_compatible supported os ≡ true)
  unfolding some_compatible
  first-facts [] c h = ground (arith, h)
  first-facts (o ∷ rest) c h = elim (Bool-cases (is_compatible supported o.requires)) [
    | inl fits ↦
        let same : o ≡ c = ground (arith, h, fits) in
        (
          ap (λ q. is_compatible supported q.requires) (sym same) ∙ fits,
          inl (sym same),
          ground (arith, same, eq_iff o.option_id c.option_id),
          ground (arith, fits),
        )
    | inr misses ↦
        let (fits, is_in, listed, available) = first-facts rest c (ground (arith, misses, h)) in
        (fits, inr is_in, ground (arith, listed), ground (arith, available))
  ]

abbrev named : String → List AlternativeOption → Option AlternativeOption
named id os = first_of_list (λ o. o.option_id == id) os

named-facts :
    (id : String) (os : List AlternativeOption)
    → contains (map (λ o. o.option_id) os) id ≡ true
    → (p : AlternativeOption) × (named id os ≡ some p) × (p.option_id ≡ id) × IsOption p os
named-facts id [] h = ground (arith, h)
named-facts id (o ∷ rest) h = elim (Bool-cases (o.option_id == id)) [
  | inl same ↦ (o, rw same refl, ground (arith, same, eq_iff o.option_id id), inl refl)
  | inr other ↦
      let (p, found, e, is_in) = named-facts id rest (ground (arith, other, h)) in
      (p, rw other found, e, inr is_in)
]

valid-lists :
    (a : AlternativeBlock)
    → is_valid_alternative a ≡ true
    → contains (map (λ o. o.option_id) a.options) a.preferred_option_id ≡ true
unfolding is_valid_alternative
valid-lists a valid = ground (arith, valid)

-- An alternative that keeps its contract is resolved to its preferred option, where that is compatible, and to
-- another compatible option of it, where the preferred one is not; it is refused where no option is compatible.
pub choose_option-Chooses :
    (supported : List String) (a : AlternativeBlock)
    → is_valid_alternative a ≡ true
    → Chooses supported a (choose_option supported a)
unfolding choose_option choose is_valid_alternative
choose_option-Chooses supported a valid =
    elim (Option-cases (first_compatible supported a.options)) [
      | inl absent ↦
          rw (absent, choose_option) (no_option _ _ (none-compatible supported a.options absent))
      | inr (f, first) ↦
          let (fits, first_in, listed, available) = first-facts supported a.options f first in
          let (p, found, e, is_in) =
            named-facts a.preferred_option_id a.options (valid-lists a valid) in
          rw (first, choose_option)
            (rw (found, choose_option)
              (elim (Bool-cases (is_compatible supported p.requires)) [
                | inl good ↦ rw good (
                    preferred_one p good (e, is_in)
                      (ap (contains (map (λ o. o.option_id) a.options)) e ∙ valid-lists a valid)
                      available)
                | inr bad ↦ rw bad (fallback_one f p fits bad (e, is_in) first_in listed available)
              ]))
    ]
