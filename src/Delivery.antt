-- ===== src/Delivery.antt =====
-- `_resolve_alternatives` and `plan_render_delivery` of
-- packages/contracts/src/superlily_contracts/delivery_planning.py, with the validator of an AlternativeBlock in
-- rendering.py. The hashes and the fallback's text are left out, and a leaf block is its canonical JSON.
pub mod Choice
pub mod Accounts
pub mod Plans
mod Tests
use Prim.Native.Nat.{Ordering}
use Prim.Native.String.{compare, ◌++◌ as text_append}
use superlily.Base.{
  ℕ, ◌+◌, Bool, true, false, not, ◌&&◌, ◌||◌, Option, none, some, String, List, [], ◌∷◌, ◌++◌, map,
  keep_if, first_of_list, has_duplicates, contains, sort_by, ◌==◌, if◌then◌else◌,
}
use superlily.Base.Decimal.{decimal}

pub record AlternativeOption : Type 0 where
  pub option_id : String
  pub label : String
  pub requires : List String
  pub blocks : List String

pub record AlternativeBlock : Type 0 where
  pub node_id : Option String
  pub accessibility_text : Option String
  pub options : List AlternativeOption
  pub preferred_option_id : String

pub record GroupBlock : Type 0 where
  pub node_id : Option String
  pub accessibility_text : Option String
  pub label : Option String
  pub blocks : List String

pub data RenderBlock : Type 0 where
  leaf : String → RenderBlock
  group : GroupBlock → RenderBlock
  alternative : AlternativeBlock → RenderBlock

pub record AlternativeSelection : Type 0 where
  pub node_id : String
  pub preferred_option_id : String
  pub selected_option_id : String

pub data RejectionReason : Type 0 where
  missing_capabilities lower_priority : RejectionReason

pub record RejectedAlternative : Type 0 where
  pub node_id : String
  pub option_id : String
  pub reason : RejectionReason
  pub missing : List String

pub data Family : Type 0 where
  image text : Family

pub data PayloadSource : Type 0 where
  render_artifact fallback_text : PayloadSource

pub record PlannedPayload : Type 0 where
  pub position : ℕ
  pub family : Family
  pub source : PayloadSource

-- the four values of `_resolve_alternatives`
pub record Resolution : Type 0 where
  pub blocks : List RenderBlock
  pub selected : List AlternativeSelection
  pub rejected : List RejectedAlternative
  pub degradation : List String

pub record DeliveryPlanDecision : Type 0 where
  pub selected_family : Family
  pub selected_alternatives : List AlternativeSelection
  pub rejected_alternatives : List RejectedAlternative
  pub degradation_reasons : List String
  pub ordered_payloads : List PlannedPayload
  pub resolved_document : List RenderBlock

-- a value, a CapabilityPlanningError with its code and detail, or the StopIteration of a document that names no
-- preferred option
pub data Planned (A : Type 0) : Type 0 where
  planned : A → Planned A
  capability_error : String → String → Planned A
  stop_iteration : Planned A

abbrev option_id : AlternativeOption → String
option_id o = o.option_id

-- validate_preferred_option
unfoldable pub is_valid_alternative : AlternativeBlock → Bool
is_valid_alternative a =
    not (has_duplicates (map option_id a.options))
    && contains (map option_id a.options) a.preferred_option_id

-- set(requires).issubset(supported)
unfoldable pub is_compatible : List String → List String → Bool
is_compatible supported [] = true
is_compatible supported (r ∷ rest) = contains supported r && is_compatible supported rest

-- the elements of a set, each once
unfoldable pub distinct : List String → List String
distinct [] = []
distinct (x ∷ xs) = let rest = distinct xs in if contains xs x then rest else x ∷ rest

abbrev is_less : Ordering → Bool
is_less Ordering.lt = true
is_less _ = false

-- tuple(sorted(set(requires) - supported))
unfoldable pub missing_of : List String → List String → List String
unfolding distinct
missing_of supported requires =
    sort_by (λ s t. is_less (compare s t))
      (keep_if (λ r. not (contains supported r)) (distinct requires))

abbrev reason_of : List String → RejectionReason
reason_of [] = lower_priority
reason_of (m ∷ rest) = missing_capabilities

abbrev node_id_or : Option String → ℕ → String
node_id_or none alternative_index = text_append "alternative-" (decimal alternative_index)
node_id_or (some s) alternative_index = s

-- The option chosen: the preferred one if it is compatible, or the first that is. `preferred in compatible`
-- holds exactly if the preferred option is compatible, as equal options have equal requirements.
unfoldable pub choose :
    AlternativeBlock → AlternativeOption → AlternativeOption → List String → AlternativeOption
choose a first preferred supported =
    if is_compatible supported preferred.requires then preferred else first

unfoldable pub reject :
    List String → String → AlternativeOption → List AlternativeOption → List RejectedAlternative
unfolding missing_of
reject supported node_id chosen [] = []
reject supported node_id chosen (o ∷ rest) =
    let others = reject supported node_id chosen rest in
    let missing = missing_of supported o.requires in
    if o.option_id == chosen.option_id
    then others
    else record {
      node_id = node_id;
      option_id = o.option_id;
      reason = reason_of missing;
      missing = missing;
    }
      ∷ others

-- one alternative in front of what follows it
unfoldable pub add_choice :
    List String → String → AlternativeBlock → AlternativeOption → Resolution → Resolution
unfolding reject
add_choice supported node_id a chosen r = record {
  blocks =
      group (record {
        node_id = a.node_id;
        accessibility_text = a.accessibility_text;
        label = none;
        blocks = chosen.blocks;
      })
      ∷ r.blocks;
  selected =
      record {
        node_id = node_id;
        preferred_option_id = a.preferred_option_id;
        selected_option_id = chosen.option_id;
      }
      ∷ r.selected;
  rejected = reject supported node_id chosen a.options ++ r.rejected;
  degradation =
      if chosen.option_id == a.preferred_option_id
      then r.degradation
      else text_append "alternative_fallback:" (
          text_append node_id (
            text_append ":"
              (text_append a.preferred_option_id (text_append "->" chosen.option_id))))
        ∷ r.degradation;
}

abbrev pub and_plan : {A B : Type 0} → Planned A → (A → Planned B) → Planned B
and_plan (planned a) f = f a
and_plan (capability_error code detail) f = capability_error code detail
and_plan stop_iteration f = stop_iteration

-- the choice of one alternative
unfoldable pub choose_option : List String → AlternativeBlock → Planned AlternativeOption
unfolding choose
choose_option supported a =
    elim (first_of_list (λ o. is_compatible supported o.requires) a.options) [
      | none ↦
          capability_error "document_alternative_unavailable"
            "no document alternative matches the adapter capability profile"
      | some first ↦ elim (first_of_list (λ o. o.option_id == a.preferred_option_id) a.options) [
        | none ↦ stop_iteration
        | some preferred ↦ planned (choose a first preferred supported)
      ]
    ]

-- the loop over the blocks, behind so many alternatives
unfoldable pub resolve_blocks : List String → ℕ → List RenderBlock → Planned Resolution
unfolding choose_option add_choice
resolve_blocks supported n [] =
    planned (record { blocks = []; selected = []; rejected = []; degradation = [] })
resolve_blocks supported n (leaf content ∷ rest) =
    and_plan (resolve_blocks supported n rest)
      (λ r. planned (record r { blocks = leaf content ∷ r.blocks }))
resolve_blocks supported n (group g ∷ rest) =
    and_plan (resolve_blocks supported n rest)
      (λ r. planned (record r { blocks = group g ∷ r.blocks }))
resolve_blocks supported n (alternative a ∷ rest) =
    let others = resolve_blocks supported (n + 1) rest in
    and_plan (choose_option supported a) (λ chosen.
      and_plan others
        (λ r. planned (add_choice supported (node_id_or a.node_id (n + 1)) a chosen r)))

unfoldable pub resolve_alternatives : List RenderBlock → List String → Planned Resolution
resolve_alternatives blocks supported = resolve_blocks supported 0 blocks

abbrev source_of : Family → PayloadSource
source_of image = render_artifact
source_of text = fallback_text

abbrev pub decision : Family → List String → Resolution → DeliveryPlanDecision
decision family degradation r = record {
  selected_family = family;
  selected_alternatives = r.selected;
  rejected_alternatives = r.rejected;
  degradation_reasons = degradation;
  ordered_payloads = record { position = 0; family = family; source = source_of family } ∷ [];
  resolved_document = r.blocks;
}

-- behind the normalized capabilities
unfoldable pub plan_render_delivery : List RenderBlock → List String → Planned DeliveryPlanDecision
plan_render_delivery blocks supported = and_plan (resolve_alternatives blocks supported) (λ r.
    if contains supported "send_image"
    then planned (decision image r.degradation r)
    else if contains supported "send_text"
    then planned (decision text (r.degradation ++ ("image_unsupported_fallback_to_text" ∷ [])) r)
    else capability_error "delivery_capability_unavailable"
        "adapter cannot deliver the rendered document")
