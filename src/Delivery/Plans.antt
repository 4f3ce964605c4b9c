-- ===== src/Delivery/Plans.antt =====
-- When a plan exists, and what it holds.
use superlily.Base.{
  ◌+◌, ◌≡◌, refl, Bool, true, false, ◌&&◌, ◌||◌, String, List, [], ◌∷◌, ◌++◌, length, contains,
  if◌then◌else◌, Bool-cases, inl, inr,
}
use superlily.Delivery.{
  RenderBlock, Resolution, DeliveryPlanDecision, Family, image, text, Planned, planned,
  capability_error, and_plan, resolve_alternatives, plan_render_delivery, decision,
}
use superlily.Delivery.Accounts.{
  is_valid, is_available, alternatives, options, Outcome, resolved, unavailable, resolve-Outcome,
}

abbrev can_deliver : List String → Bool
can_deliver supported = contains supported "send_image" || contains supported "send_text"

abbrev is_image : Family → Bool
is_image image = true
is_image text = false

-- A plan exists exactly if each alternative has an option that the adapter can show and the adapter can send an
-- image or a text. It keeps the number of blocks, leaves no alternative, and counts each option, as selected or as
-- rejected; it sends an image exactly if the adapter can.
pub data Plans (supported : List String) (blocks : List RenderBlock)
    : Planned DeliveryPlanDecision → Type 0 where
  delivered :
      (d : DeliveryPlanDecision)
      → (is_available supported blocks && can_deliver supported) ≡ true
      → alternatives d.resolved_document ≡ 0
      → length d.resolved_document ≡ length blocks
      → length d.selected_alternatives ≡ alternatives blocks
      → length d.selected_alternatives + length d.rejected_alternatives ≡ options blocks
      → is_image d.selected_family ≡ contains supported "send_image"
      → Plans supported blocks (planned d)
  not_delivered :
      (code detail : String)
      → (is_available supported blocks && can_deliver supported) ≡ false
      → Plans supported blocks (capability_error code detail)

after_resolution :
    (supported : List String) (blocks : List RenderBlock) (o : Planned Resolution)
    → Outcome supported blocks o
    → Plans supported blocks (
        and_plan o (λ r.
          if contains supported "send_image"
          then planned (decision image r.degradation r)
          else if contains supported "send_text"
          then planned
              (decision text (r.degradation ++ ("image_unsupported_fallback_to_text" ∷ [])) r)
          else capability_error "delivery_capability_unavailable"
              "adapter cannot deliver the rendered document"))
after_resolution supported blocks _ (unavailable code detail h) =
    not_delivered code detail (rw h refl)
after_resolution supported blocks _ (resolved r h) =
    elim (Bool-cases (contains supported "send_image")) [
      | inl sends ↦ rw sends (
          delivered _ (rw (h.available, sends) refl) h.none_left h.kept h.chosen h.accounted
            (rw sends refl))
      | inr refuses ↦ rw refuses (elim (Bool-cases (contains supported "send_text")) [
        | inl writes ↦ rw writes (
            delivered _ (rw (h.available, refuses, writes) refl) h.none_left h.kept h.chosen
              h.accounted (rw refuses refl))
        | inr neither ↦ rw neither (not_delivered _ _ (rw (h.available, refuses, neither) refl))
      ])
    ]

-- On a document whose alternatives keep their contract, a delivery plan exists exactly if each alternative has an
-- option that the adapter can show and the adapter can send an image or a text. The plan keeps the number of
-- blocks and leaves no alternative. It has one selection for each alternative, and with the rejections as many
-- entries as there are options; it sends an image exactly if the adapter can.
pub plan_render_delivery-Plans :
    (supported : List String) (blocks : List RenderBlock)
    → is_valid blocks ≡ true
    → Plans supported blocks (plan_render_delivery blocks supported)
unfolding plan_render_delivery resolve_alternatives
plan_render_delivery-Plans supported blocks valid =
    after_resolution supported blocks _ (resolve-Outcome supported 0 blocks valid)
