-- ===== src/Authority/Ledger.antt =====
-- `append_invocation_transition` of apps/core/src/superlily_core/tool_invocation_service.py: the one
-- writer of an invocation's state, which also appends to its transition ledger.
pub mod Chain
pub mod Stable
pub mod Frozen
pub mod Append
use superlily.Base.{
  ℕ, zero, suc, ◌+◌, ◌≡◌, Bool, true, false, ◌&&◌, Option, none, some, String, List, [], ◌∷◌, eqb,
  if◌then◌else◌,
}
use superlily.Base.Table.{find, replace}
use superlily.Invocation.{
  InvocationState, InvocationTransitionEvent, is_legal, is_terminal, proposed, rejected,
  recorded_only, awaiting_confirmation, queued, leased, running, succeeded, failed, timed_out,
  cancel_requested, cancelled, unknown_completion, expired, lease_expired,
}
use superlily.Authority.Rows.{ToolInvocation, ToolInvocationTransition, Database}
use superlily.Authority.Session.{
  not_found, conflict, Tx, ◌>>=◌, ◌>>◌, pure, query, modify, database_now, commit, require,
  or_raise,
}

abbrev pub invocation_id : ToolInvocation → String
invocation_id i = i.id

abbrev index : InvocationState → ℕ
index proposed = 0
index rejected = 1
index recorded_only = 2
index awaiting_confirmation = 3
index queued = 4
index leased = 5
index running = 6
index succeeded = 7
index failed = 8
index timed_out = 9
index cancel_requested = 10
index cancelled = 11
index InvocationState.unknown_completion = 12
index expired = 13
index lease_expired = 14

-- equality of two states
abbrev pub same_state : InvocationState → InvocationState → Bool
same_state s t = eqb (index s) (index t)

unfoldable pub find_invocation : String → Database → Option ToolInvocation
find_invocation k db = find invocation_id k db.invocations

-- `WHERE id = … AND state = … AND transition_sequence = …`: the number of rows that the update reaches
unfoldable pub matches_row : ToolInvocation → Option ToolInvocation → Bool
matches_row previous none = false
matches_row previous (some row) =
    same_state row.state previous.state && eqb row.transition_sequence previous.transition_sequence

unfoldable pub or_default : Option ℕ → ℕ → ℕ
or_default none n = n
or_default (some m) n = m

-- the values that the update writes
unfoldable pub advance : ToolInvocation → InvocationState → String → Option ℕ → ℕ → ToolInvocation
unfolding or_default
advance i state reason_code deadline_at now = record i {
  state = state;
  transition_sequence = i.transition_sequence + 1;
  reason_code = reason_code;
  terminal_at = if is_terminal state then some now else none;
  deadline_at = or_default deadline_at i.deadline_at;
  updated_at = now;
}

-- the row that the ledger gains
unfoldable pub transition :
    ToolInvocation
    → InvocationTransitionEvent
    → InvocationState
    → String
    → String
    → String
    → ℕ
    → ToolInvocationTransition
transition i event state actor_type actor_id reason_code now = record {
  invocation_id = i.id;
  sequence = i.transition_sequence + 1;
  event = event;
  previous_state = some i.state;
  state = state;
  actor_type = actor_type;
  actor_id = actor_id;
  reason_code = reason_code;
  created_at = now;
}

unfoldable pub store_transition : ToolInvocation → ToolInvocationTransition → Database → Database
store_transition i t db = record db {
  invocations = replace invocation_id i db.invocations;
  transitions = t ∷ db.transitions;
}

unfoldable pub append_invocation_transition :
    String
    → InvocationTransitionEvent
    → InvocationState
    → String
    → String
    → String
    → Option ℕ
    → Bool
    → Tx ToolInvocation
unfolding matches_row
append_invocation_transition id event state actor_type actor_id reason_code deadline_at commits = do
  found ← query (find_invocation id)
  i ← or_raise found not_found
  require (is_legal event (some i.state) state) (conflict "illegal invocation transition")
  now ← database_now
  reached ← query (λ db. matches_row i (find_invocation id db))
  require reached (conflict "invocation state changed concurrently")
  modify (
      store_transition (advance i state reason_code deadline_at now)
        (transition i event state actor_type actor_id reason_code now))
  if commits then commit else pure tt
  refreshed ← query (find_invocation id)
  or_raise refreshed not_found
