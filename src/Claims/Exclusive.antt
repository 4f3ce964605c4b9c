-- ===== src/Claims/Exclusive.antt =====
-- At most one bot instance may answer an event.
use superlily.Base.{
  ◌≡◌, inl, inr, true, false, Option, none, some, String, Bool-cases, Option-cases, arith, ◌==◌,
  eq_iff, if◌then◌else◌,
}
use superlily.Claims.{
  abstain, allow, deny, Claim, same_text, suppress_all, common_gate, target_gate, decide_owner,
  evaluate_claim,
}

-- an instance is allowed only as the target of an actionable decision
pub allow-target :
    (c : Claim) (r : String)
    → (evaluate_claim c r).action ≡ allow
    → (same_text c.target_instance_id r ≡ true)
      × (suppress_all c ≡ false)
      × (common_gate c ≡ none)
      × (target_gate c ≡ none)
unfolding evaluate_claim decide_owner
allow-target c r h = ground (arith, h)

same_target :
    (o p : Option String) (r q : String)
    → o ≡ p
    → same_text o r ≡ true
    → same_text p q ≡ true
    → r ≡ q
same_target none p r q e h k = cc
same_target (some t) none r q e h k = cc
same_target (some t) (some u) r q e h k = ground (arith, eq_iff t r, eq_iff u q)

-- Two instances that are both allowed on claims with the same target are one instance, however else the two
-- claims differ.
pub evaluate_claim-exclusive :
    (c d : Claim) (r q : String)
    → c.target_instance_id ≡ d.target_instance_id
    → (evaluate_claim c r).action ≡ allow
    → (evaluate_claim d q).action ≡ allow
    → r ≡ q
evaluate_claim-exclusive c d r q same a b =
    same_target c.target_instance_id d.target_instance_id r q same (allow-target c r a).0
      (allow-target d q b).0

-- how the instances divide on a claim
pub data Verdict (c : Claim) : Type 0 where
  all_abstain :
      ((r : String)
        → ((evaluate_claim c r).action ≡ abstain) × ((evaluate_claim c r).ready ≡ false))
      → Verdict c
  all_denied :
      suppress_all c ≡ true
      → ((r : String) → ((evaluate_claim c r).action ≡ deny) × ((evaluate_claim c r).ready ≡ true))
      → Verdict c
  one_allowed :
      (t : String)
      → c.target_instance_id ≡ some t
      → ((r : String)
          → ((evaluate_claim c r).action ≡ (if t == r then allow else deny))
            × ((evaluate_claim c r).ready ≡ true))
      → Verdict c

abstain-common :
    (c : Claim) (reason r : String)
    → common_gate c ≡ some reason
    → ((evaluate_claim c r).action ≡ abstain) × ((evaluate_claim c r).ready ≡ false)
unfolding evaluate_claim
abstain-common c reason r gate = ground (arith, gate)

deny-all :
    (c : Claim) (r : String)
    → common_gate c ≡ none
    → suppress_all c ≡ true
    → ((evaluate_claim c r).action ≡ deny) × ((evaluate_claim c r).ready ≡ true)
unfolding evaluate_claim
deny-all c r passed all = ground (arith, passed, all)

abstain-target :
    (c : Claim) (reason r : String)
    → common_gate c ≡ none
    → suppress_all c ≡ false
    → target_gate c ≡ some reason
    → ((evaluate_claim c r).action ≡ abstain) × ((evaluate_claim c r).ready ≡ false)
unfolding evaluate_claim
abstain-target c reason r passed some_target gate = ground (arith, passed, some_target, gate)

decide-owner :
    (c : Claim) (t r : String)
    → common_gate c ≡ none
    → suppress_all c ≡ false
    → target_gate c ≡ none
    → c.target_instance_id ≡ some t
    → ((evaluate_claim c r).action ≡ (if t == r then allow else deny))
      × ((evaluate_claim c r).ready ≡ true)
unfolding evaluate_claim decide_owner
decide-owner c t r passed some_target free target =
    ground (arith, passed, some_target, free, target)

target-absent :
    (c : Claim) → common_gate c ≡ none → suppress_all c ≡ false → ¬ (c.target_instance_id ≡ none)
unfolding common_gate
target-absent c passed some_target absent = ground (arith, passed, some_target, absent)

-- Every claim is decided alike for all instances: all abstain and none is ready; or all are denied, which
-- happens for a reply to somebody else; or the target is allowed and every other instance is denied.
pub evaluate_claim-Verdict : (c : Claim) → Verdict c
evaluate_claim-Verdict c = elim (Option-cases (common_gate c)) [
  | inr (reason, gate) ↦ all_abstain (λ r. abstain-common c reason r gate)
  | inl passed ↦ elim (Bool-cases (suppress_all c)) [
    | inl all ↦ all_denied all (λ r. deny-all c r passed all)
    | inr some_target ↦ elim (Option-cases (target_gate c)) [
      | inr (reason, gate) ↦ all_abstain (λ r. abstain-target c reason r passed some_target gate)
      | inl free ↦ elim (Option-cases c.target_instance_id) [
        | inl absent ↦ elim (target-absent c passed some_target absent) [ ]
        | inr (t, target) ↦
            one_allowed t target (λ r. decide-owner c t r passed some_target free target)
      ]
    ]
  ]
]
