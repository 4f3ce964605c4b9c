-- ===== src/Rollout.antt =====
-- `matching_active_rollout`, `consume_rollout_invocation` and `locked_rollout_for_lease` of
-- apps/core/src/superlily_core/rollout_service.py.
pub mod Quota
mod Tests
use superlily.Base.{
  ℕ, ◌+◌, Bool, true, false, not, ◌&&◌, Option, none, some, String, List, [], ◌∷◌, keep_if, ltb,
  leb, eqb, is_some, ◌==◌, if◌then◌else◌,
}
use superlily.Base.Table.{find, replace}
use superlily.Authority.Rows.{
  Caller, command, agent, admin_api, ExecutionMode, canary, PlanLifecycle, ToolRolloutPlanRecord,
  ToolRolloutPlanItemRecord, ToolRolloutPlanCounter, Database,
}
use superlily.Authority.Session.{Result, runtime_error, Tx, ◌>>=◌, ◌>>◌, pure, raise, query, modify}

abbrev pub same_caller : Caller → Caller → Bool
same_caller command command = true
same_caller agent agent = true
same_caller admin_api admin_api = true
same_caller _ _ = false

abbrev pub is_canary : ExecutionMode → Bool
is_canary canary = true
is_canary _ = false

abbrev is_active_plan : PlanLifecycle → Bool
is_active_plan PlanLifecycle.active = true
is_active_plan _ = false

abbrev plan_key : ToolRolloutPlanRecord → String
plan_key p = p.id

abbrev item_key : ToolRolloutPlanItemRecord → String
item_key i = i.id

-- active, canary, and inside its window
unfoldable pub is_open : ToolRolloutPlanRecord → ℕ → Bool
is_open p database_time =
    is_active_plan p.lifecycle
    && is_canary p.mode
    && leb p.starts_at database_time
    && ltb database_time p.expires_at

-- the identity that an item authorizes
pub record Match : Type 0 where
  pub tool_id : String
  pub descriptor_version : String
  pub descriptor_hash : String
  pub canonical_conversation : String
  pub caller : Caller

unfoldable pub is_item_for : Match → ToolRolloutPlanItemRecord → Bool
is_item_for m i =
    i.tool_id == m.tool_id
    && i.descriptor_version == m.descriptor_version
    && i.descriptor_hash == m.descriptor_hash
    && i.canonical_conversation == m.canonical_conversation
    && same_caller i.caller m.caller

-- the join of the plans and their items: an item's plan is open
unfoldable pub open_plan_of :
    ℕ → ToolRolloutPlanItemRecord → List ToolRolloutPlanRecord → Option ToolRolloutPlanRecord
open_plan_of database_time i plans = elim (find plan_key i.plan_record_id plans) [
  | none ↦ none
  | some p ↦ if is_open p database_time then some p else none
]

unfoldable pub matching_rows :
    Match
    → ℕ
    → List ToolRolloutPlanItemRecord
    → List ToolRolloutPlanRecord
    → List (ToolRolloutPlanRecord × ToolRolloutPlanItemRecord)
matching_rows m database_time [] plans = []
matching_rows m database_time (i ∷ items) plans =
    let rest = matching_rows m database_time items plans in
    elim (open_plan_of database_time i plans) [
      | none ↦ rest
      | some p ↦ if is_item_for m i then (p, i) ∷ rest else rest
    ]

-- one_or_none(): more than one row raises MultipleResultsFound
unfoldable pub one_or_none : {A : Type 0} → List A → Tx (Option A)
one_or_none [] = pure none
one_or_none (a ∷ []) = pure (some a)
one_or_none (a ∷ b ∷ rest) = raise runtime_error

unfoldable pub matching_active_rollout :
    ℕ → Match → Tx (Option (ToolRolloutPlanRecord × ToolRolloutPlanItemRecord))
matching_active_rollout database_time m = do
  rows ← query (λ db. matching_rows m database_time db.rollout_items db.rollout_plans)
  one_or_none rows

abbrev pub counter_key : ToolRolloutPlanCounter → String
counter_key c = c.plan_record_id

unfoldable pub spend : ToolRolloutPlanCounter → ℕ → ToolRolloutPlanCounter
spend c database_time = record c {
  consumed_invocations = c.consumed_invocations + 1;
  last_consumed_at = some database_time;
}

-- UPDATE … WHERE plan_record_id = plan.id AND consumed_invocations < plan.max_invocations, by primary key:
-- whether the update reaches the row
unfoldable pub spend_from : ToolRolloutPlanRecord → ℕ → Option ToolRolloutPlanCounter → Tx Bool
unfolding spend
spend_from plan database_time none = pure false
spend_from plan database_time (some c) =
    if ltb c.consumed_invocations plan.max_invocations
    then (do
      modify (λ db. record db {
        rollout_counters = replace counter_key (spend c database_time) db.rollout_counters;
      })
      pure true)
    else pure false

unfoldable pub consume_rollout_invocation : ToolRolloutPlanRecord → ℕ → Tx Bool
unfolding spend_from
consume_rollout_invocation plan database_time = do
  counter ← query (λ db. find counter_key plan.id db.rollout_counters)
  spend_from plan database_time counter

-- a value that the session reads, or none
unfoldable pub locked_rollout_for_lease :
    String → String → ℕ → Database → Option (ToolRolloutPlanRecord × ToolRolloutPlanItemRecord)
locked_rollout_for_lease plan_record_id plan_item_id database_time db =
    elim (find plan_key plan_record_id db.rollout_plans) [
      | none ↦ none
      | some plan ↦
          if is_open plan database_time
          then elim (find item_key plan_item_id db.rollout_items) [
            | none ↦ none
            | some item ↦ if item.plan_record_id == plan.id then some (plan, item) else none
          ]
          else none
    ]
