-- ===== src/Execution/Lease/Keeps.antt =====
-- What a lease keeps: every property that survives a legal transition, and all that its grant keeps.
use superlily.Base.{ℕ, refl, Option, none, some, String, List, [], ◌∷◌}
use superlily.Authority.Rows.{ToolInvocation, ToolAttempt, ToolProvider, Database}
use superlily.Authority.Session.{Tx}
use superlily.Authority.Session.Keeps.{Keeps, Keeps-pure, Keeps-bind, Keeps-query, keeps_rules}
use superlily.Authority.Ledger.Stable.{Stable, Stable-Gentle, append-Keeps, aside-Keeps}
use superlily.Execution.Proof.{External}
use superlily.Execution.Lease.{Draw, LeaseSettings, ToolLeaseOut, RegistryView}
use superlily.Execution.Lease.Grant.{
  insert_attempt, record_lease, issue_lease, lose_lease, grant_lease, where_allowed, lease_first,
  pull_lease, lease_tool_execution,
}

module _ {P : Database → Type 0} (stable : Stable P) where
  issue-Keeps :
      (x : External) (a : ToolAttempt) (lease : ToolLeaseOut) (i : ToolInvocation) (now : ℕ)
      → Keeps P (issue_lease x a lease i now)
  unfolding issue_lease record_lease insert_attempt
  issue-Keeps x a lease i now = Keeps-bind _ _ (aside-Keeps stable _ (λ db. (refl, refl))) (λ _.
      Keeps-bind _ _ (aside-Keeps stable _ (λ db. (refl, refl)))
        (λ _. search (keeps_rules, append-Keeps (Stable-Gentle stable))))

  lose-Keeps : (invocation_id : String) → Keeps P (lose_lease invocation_id)
  unfolding lose_lease
  lose-Keeps invocation_id = search keeps_rules

  pub grant-Keeps :
      (x : External) (draw : Draw) (i : ToolInvocation)
      (provider_id inventory_hash implementation_hash : String) (seconds now : ℕ)
      → Keeps P (grant_lease x draw i provider_id inventory_hash implementation_hash seconds now)
  unfolding grant_lease
  grant-Keeps x draw i provider_id inventory_hash implementation_hash seconds now =
      search (keeps_rules, issue-Keeps, lose-Keeps) depth 8

module _ {P : Database → Type 0}
    (grants : (x : External) (draw : Draw) (i : ToolInvocation)
        (provider_id inventory_hash implementation_hash : String) (seconds now : ℕ)
      → Keeps P
          (grant_lease x draw i provider_id inventory_hash implementation_hash seconds now)) where
  where_allowed-Keeps :
      (o : Option String) (next : Tx (Option ToolLeaseOut))
      (lease : String → Tx (Option ToolLeaseOut))
      → Keeps P next
      → ((h : String) → Keeps P (lease h))
      → Keeps P (where_allowed o next lease)
  where_allowed-Keeps none next lease kn kl = kn
  where_allowed-Keeps (some h) next lease kn kl = kl h

  module _ (x : External) (registry : Database → String → RegistryView) (draw : Draw)
      (settings : LeaseSettings) where
    first-Keeps :
        (rows : List ToolInvocation) (provider : ToolProvider) (inventory_hash : String) (now : ℕ)
        → Keeps P (lease_first x registry draw settings rows provider inventory_hash now)
    unfolding lease_first
    first-Keeps [] provider inventory_hash now = Keeps-pure none
    first-Keeps (i ∷ rest) provider inventory_hash now = Keeps-bind _ _ (Keeps-query _) (λ allowed.
        where_allowed-Keeps allowed _ _ (first-Keeps rest provider inventory_hash now)
          (λ h. grants x draw i provider.id inventory_hash h settings.tool_lease_seconds now))

    pull-Keeps :
        (provider : Option ToolProvider) (inventory_hash : String) (now : ℕ)
        → Keeps P (pull_lease x registry draw settings provider inventory_hash now)
    unfolding pull_lease
    pull-Keeps none inventory_hash now = Keeps-pure none
    pull-Keeps (some provider) inventory_hash now = search (keeps_rules, first-Keeps)

    pub lease-Keeps :
        (inventory_hash provider_id : String)
        → Keeps P (lease_tool_execution x registry draw settings inventory_hash provider_id)
    unfolding lease_tool_execution
    lease-Keeps inventory_hash provider_id = search (keeps_rules, pull-Keeps) depth 8
