-- ===== src/Authority/Ledger/Frozen.antt =====
-- Rows that no legal transition reaches.
use superlily.Base.{◌≡◌, ◌∙◌, true, some, String, Bool-cases, inl, inr, ◌==◌, eq_iff, arith}
use superlily.Base.Table.{find-replace_other}
use superlily.Invocation.{InvocationState, InvocationTransitionEvent, is_legal, is_terminal}
use superlily.Invocation.Graph.{legal-source}
use superlily.Authority.Rows.{ToolInvocation, Database}
use superlily.Authority.Ledger.{invocation_id, find_invocation, advance, store_transition}
use superlily.Authority.Ledger.Stable.{Stable}
use superlily.Authority.Ledger.Chain.{same_find}

-- the invocation of that id is that row
pub record IsRow (id : String) (row : ToolInvocation) (db : Database) : Type 0 where
  pub found : find_invocation id db ≡ some row

pub IsRow-Stable :
    (id : String) (row : ToolInvocation) → is_terminal row.state ≡ true → Stable (IsRow id row)
unfolding find_invocation store_transition advance
IsRow-Stable id row terminal = record {
  untouched = λ db db' rows log r. record { found = same_find db db' id rows ∙ r.found };
  stored = λ db i event state actor_type actor_id reason_code deadline_at now found legal r.
      record {
        found = elim (Bool-cases (i.id == id)) [
          | inl same ↦ absurd (clash db i event state found legal r same)
          | inr differ ↦
              find-replace_other invocation_id id (advance i state reason_code deadline_at now)
                db.invocations differ
              ∙ r.found
        ];
      };
}
  where
    clash :
        (db : Database) (i : ToolInvocation) (event : InvocationTransitionEvent)
        (state : InvocationState)
        → find_invocation i.id db ≡ some i
        → is_legal event (some i.state) state ≡ true
        → IsRow id row db
        → (i.id == id) ≡ true
        → ⊥
    clash db i event state found legal r same =
        ground (arith, eq_iff i.id id, r.found, legal-source i.state state event legal, terminal)
