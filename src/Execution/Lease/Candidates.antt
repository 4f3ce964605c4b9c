-- ===== src/Execution/Lease/Candidates.antt =====
-- The loop over the candidates grants a lease of the first one that its guards let through, which is queued.
use superlily.Base.{
  ℕ, ◌<◌, ◌≡◌, refl, ap, eq_iff, Bool, true, Option, none, some, String, List, [], ◌∷◌, All, arith,
  take-All, sort_by-All, All-keep_if, keep_if, sort_by,
}
use superlily.Invocation.{InvocationState, InvocationTransitionEvent, is_legal}
use superlily.Authority.Rows.{ToolInvocation, ToolProvider, Database}
use superlily.Authority.Session.{Session, ◌>>=◌, query}
use superlily.Authority.Ledger.{same_state}
use superlily.Execution.Proof.{External}
use superlily.Execution.Lease.{
  Draw, LeaseSettings, RegistryView, is_candidate, is_older, lease_candidates, is_text,
}
use superlily.Execution.Lease.Grant.{grant_lease, lease_allows, where_allowed, lease_first}
use superlily.Execution.Lease.Oldest.{first_allowed}

module _ (x : External) (registry : Database → String → RegistryView) (draw : Draw)
    (settings : LeaseSettings) (provider : ToolProvider) (inventory_hash : String) (now : ℕ) where
  abbrev pub allows : Database → ToolInvocation → Option String
  allows db i = lease_allows (registry db i.tool_id) i provider inventory_hash now db

  first-step :
      (o : Option String) (j : ToolInvocation) (rest : List ToolInvocation) (s : Session)
      (i : ToolInvocation) (h : String)
      → (first_allowed (allows s.working) rest ≡ some (i, h)
          → lease_first x registry draw settings rest provider inventory_hash now s
            ≡ grant_lease x draw i provider.id inventory_hash h settings.tool_lease_seconds now s)
      → elim o [ none ↦ first_allowed (allows s.working) rest | some k ↦ some (j, k) ] ≡ some (i, h)
      → where_allowed o
          (lease_first x registry draw settings rest provider inventory_hash now)
          (λ k. grant_lease x draw j provider.id inventory_hash k settings.tool_lease_seconds now)
          s
        ≡ grant_lease x draw i provider.id inventory_hash h settings.tool_lease_seconds now s
  first-step none j rest s i h others e = others e
  first-step (some k) j rest s i h others e = cc

  pub first-found :
      (rows : List ToolInvocation) (s : Session) (i : ToolInvocation) (h : String)
      → first_allowed (allows s.working) rows ≡ some (i, h)
      → lease_first x registry draw settings rows provider inventory_hash now s
        ≡ grant_lease x draw i provider.id inventory_hash h settings.tool_lease_seconds now s
  unfolding lease_first ◌>>=◌ query
  first-found [] s i h e = ground (arith, e)
  first-found (j ∷ rest) s i h e =
      first-step (allows s.working j) j rest s i h (first-found rest s i h) e

-- what holds of every candidate holds of the first allowed one
module _ (guard : ToolInvocation → Option String) (p : ToolInvocation → Bool) where
  holds-step :
      (o : Option String) (j : ToolInvocation) (rest : List ToolInvocation) (i : ToolInvocation)
      (h : String)
      → (first_allowed guard rest ≡ some (i, h) → p i ≡ true)
      → p j ≡ true
      → elim o [ none ↦ first_allowed guard rest | some k ↦ some (j, k) ] ≡ some (i, h)
      → p i ≡ true
  holds-step none j rest i h others head e = others e
  holds-step (some k) j rest i h others head e =
      let same : j ≡ i = ground (arith, e) in rw same at head

  first_allowed-holds :
      (rows : List ToolInvocation) (i : ToolInvocation) (h : String)
      → All (λ j. p j ≡ true) rows
      → first_allowed guard rows ≡ some (i, h)
      → p i ≡ true
  first_allowed-holds [] i h all e = ground (arith, e)
  first_allowed-holds (j ∷ rest) i h (head, others) e =
      holds-step (guard j) j rest i h (first_allowed-holds rest i h others) head e

pub candidate-queued :
    (guard : ToolInvocation → Option String) (provider_id : String) (now : ℕ) (db : Database)
    (i : ToolInvocation) (h : String)
    → first_allowed guard (lease_candidates provider_id now db) ≡ some (i, h)
    → is_candidate provider_id now i ≡ true
unfolding lease_candidates
candidate-queued guard provider_id now db i h e =
    first_allowed-holds guard (is_candidate provider_id now) (lease_candidates provider_id now db) i
      h
      (take-All _ 100 (sort_by is_older (keep_if (is_candidate provider_id now) db.invocations)) (
        sort_by-All _ is_older (keep_if (is_candidate provider_id now) db.invocations)
          (All-keep_if (is_candidate provider_id now) db.invocations)))
      e

-- what the query for the candidates asks of a row
abbrev pub Waits : String → ℕ → ToolInvocation → Type 0
Waits provider_id now i =
    (i.state ≡ InvocationState.queued)
    × (i.selected_provider_id ≡ some provider_id)
    × (now < i.deadline_at)

is_queued :
    (s : InvocationState) → same_state s InvocationState.queued ≡ true → s ≡ InvocationState.queued
is_queued InvocationState.queued h = refl
is_queued _ h = absurd (ground (arith, h))

is_selected : (o : Option String) (id : String) → is_text o id ≡ true → o ≡ some id
is_selected none id h = absurd (ground (arith, h))
is_selected (some s) id h = ap some ((eq_iff s id).0 h)

pub candidate-Waits :
    (provider_id : String) (now : ℕ) (i : ToolInvocation)
    → is_candidate provider_id now i ≡ true
    → Waits provider_id now i
unfolding is_candidate
candidate-Waits provider_id now i h = (
  is_queued i.state (ground (arith, h)),
  is_selected i.selected_provider_id provider_id (ground (arith, h)),
  ground (arith, h),
)

pub candidate-legal :
    (provider_id : String) (now : ℕ) (i : ToolInvocation)
    → is_candidate provider_id now i ≡ true
    → is_legal InvocationTransitionEvent.lease (some i.state) InvocationState.leased ≡ true
unfolding is_candidate is_legal
candidate-legal provider_id now i h = ground (arith, h)
