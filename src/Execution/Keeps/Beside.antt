-- ===== src/Execution/Keeps/Beside.antt =====
-- What the parts of the execution handlers that write no attempt keep: every gentle property.
use superlily.Base.{ℕ, refl, Bool, true, false, Option, String, List, [], ◌∷◌}
use superlily.Invocation.{InvocationState, cancel_requested}
use superlily.Authority.Rows.{ToolInvocation, ToolArtifact, Database}
use superlily.Authority.Session.Keeps.{
  Keeps, Keeps-pure, Keeps-bind, Keeps-query, Keeps-require, keeps_rules,
}
use superlily.Authority.Ledger.Stable.{Gentle, append-Keeps, beside-Keeps}
use superlily.Execution.Lifecycle.{request_budget_cancel}
use superlily.Execution.Artifacts.{
  ArtifactOutcome, total, refused, broken, mark, mark_rows, settle_artifacts,
}
use superlily.Execution.Reap.{after_expiry, expire_lease, expire_invocation}

module _ {P : Database → Type 0} (gentle : Gentle P) where
  pub budget_cancel-Keeps :
      (i : ToolInvocation) (violation : Option String) → Keeps P (request_budget_cancel i violation)
  unfolding request_budget_cancel
  budget_cancel-Keeps i violation = search (keeps_rules, append-Keeps gentle)

  pub mark_rows-Keeps : (rows : List ToolArtifact) (now : ℕ) → Keeps P (mark_rows rows now)
  unfolding mark_rows
  mark_rows-Keeps [] now = Keeps-pure tt
  mark_rows-Keeps (r ∷ rest) now = Keeps-bind _ _ (Keeps-query _) (λ reached.
      Keeps-bind _ _ (Keeps-require reached _) (λ _.
        Keeps-bind _ _ (beside-Keeps gentle (mark r now) (λ db. unfold mark in (refl, refl, refl)))
          (λ _. mark_rows-Keeps rest now)))

  pub settle-Keeps :
      (mark_referenced : Bool) (now : ℕ) (o : ArtifactOutcome)
      → Keeps P (settle_artifacts mark_referenced now o)
  unfolding settle_artifacts
  settle-Keeps mark_referenced now (total n rows) = search (keeps_rules, mark_rows-Keeps)
  settle-Keeps mark_referenced now (refused code detail) = search keeps_rules
  settle-Keeps mark_referenced now broken = search keeps_rules

  pub after_expiry-Keeps :
      (i : ToolInvocation) (safe ahead : Bool) → Keeps P (after_expiry i safe ahead)
  unfolding after_expiry
  after_expiry-Keeps i true true = search (append-Keeps gentle)
  after_expiry-Keeps i true false = search (append-Keeps gentle)
  after_expiry-Keeps i false ahead = search (append-Keeps gentle)

  pub expire_lease-Keeps : (i : ToolInvocation) (now : ℕ) → Keeps P (expire_lease i now)
  unfolding expire_lease
  expire_lease-Keeps i now = search (keeps_rules, append-Keeps gentle, after_expiry-Keeps)

  pub expire-Keeps :
      (state : InvocationState) (i : ToolInvocation) (now : ℕ)
      → Keeps P (expire_invocation state i now)
  unfolding expire_invocation
  expire-Keeps InvocationState.leased i now = search expire_lease-Keeps
  expire-Keeps InvocationState.running i now = search expire_lease-Keeps
  expire-Keeps cancel_requested i now = search (append-Keeps gentle)
  expire-Keeps _ i now = Keeps-pure i
