-- ===== src/Rollout/Tests.antt =====
-- A plan with a quota of five, two of which are left.
use superlily.Base.{refl, none, [], ◌∷◌}
use superlily.Base.Table.{find}
use superlily.Authority.Rows.{
  canary, PlanLifecycle, ToolRolloutPlanRecord, ToolRolloutPlanCounter, Database,
}
use superlily.Authority.Session.Steps.{opened}
use superlily.Rollout.Quota.{consume_all, Spends, consume_all-Spends}

abbrev small_plan : ToolRolloutPlanRecord
small_plan = record {
  id = "p1";
  plan_hash = "ph";
  mode = canary;
  lifecycle = PlanLifecycle.active;
  resource_version = 2;
  starts_at = 0;
  expires_at = 1000;
  max_invocations = 5;
}

abbrev counter : ToolRolloutPlanCounter
counter = record { plan_record_id = "p1"; consumed_invocations = 3; last_consumed_at = none }

abbrev plan_rows : Database
plan_rows = record {
  invocations = [];
  transitions = [];
  attempts = [];
  attempt_events = [];
  artifacts = [];
  artifact_events = [];
  confirmations = [];
  confirmation_events = [];
  providers = [];
  credentials = [];
  descriptors = [];
  rollout_plans = small_plan ∷ [];
  rollout_items = [];
  rollout_counters = counter ∷ [];
}

consume_all-Spends_example :
    Spends (consume_all small_plan (10 ∷ 20 ∷ 30 ∷ []) (opened 10 plan_rows)) small_plan 3 2
unfolding find
consume_all-Spends_example =
    consume_all-Spends small_plan (10 ∷ 20 ∷ 30 ∷ []) (opened 10 plan_rows) counter refl
