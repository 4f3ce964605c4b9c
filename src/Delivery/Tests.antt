-- ===== src/Delivery/Tests.antt =====
-- A formula with an image and a text, for an adapter that can only write.
use superlily.Base.{refl, some, none, List, [], ◌∷◌}
use superlily.Delivery.{
  AlternativeOption, AlternativeBlock, RenderBlock, leaf, alternative, is_valid_alternative,
  choose_option, plan_render_delivery,
}
use superlily.Delivery.Choice.{Chooses, choose_option-Chooses}
use superlily.Delivery.Accounts.{is_valid}
use superlily.Delivery.Plans.{Plans, plan_render_delivery-Plans}

abbrev picture : AlternativeOption
picture = record {
  option_id = "image";
  label = "image";
  requires = "math_image" ∷ [];
  blocks = "{image}" ∷ [];
}

abbrev plain : AlternativeOption
plain = record { option_id = "plain"; label = "text"; requires = []; blocks = "{text}" ∷ [] }

abbrev formula : AlternativeBlock
formula = record {
  node_id = none;
  accessibility_text = some "a formula";
  options = picture ∷ plain ∷ [];
  preferred_option_id = "image";
}

choose_option-Chooses_example :
    Chooses ("send_text" ∷ []) formula (choose_option ("send_text" ∷ []) formula)
unfolding is_valid_alternative
choose_option-Chooses_example = choose_option-Chooses ("send_text" ∷ []) formula refl

abbrev document : List RenderBlock
document = leaf "{heading}" ∷ alternative formula ∷ []

plan_render_delivery-Plans_example :
    Plans ("send_text" ∷ []) document (plan_render_delivery document ("send_text" ∷ []))
unfolding is_valid is_valid_alternative
plan_render_delivery-Plans_example = plan_render_delivery-Plans ("send_text" ∷ []) document refl
