-- ===== src/Cancellation/Requests.antt =====
-- The requests of the module: `cancel_tool_invocation` and `reap_expired_invocations`.
use Prim.Native.String.{◌++◌ as text_append}
use superlily.Base.{
  ℕ, ◌+◌, Bool, true, false, not, ◌&&◌, ◌||◌, Option, none, some, min, max, String, List, [], ◌∷◌,
  take, keep_if, ltb, leb, eqb, if◌then◌else◌,
}
use superlily.Base.Decimal.{decimal}
use superlily.Base.Table.{find}
use superlily.Invocation.{
  InvocationState, InvocationTransitionEvent, is_terminal, proposed, awaiting_confirmation, queued,
  cancelled, cancel_requested, cancel, request_cancel, confirmation_expire, timeout, timed_out,
  reject,
}
use superlily.Authority.Rows.{ToolInvocation, ConfirmationState, ConfirmationEvent, Database}
use superlily.Authority.Session.{
  not_found, conflict, runtime_error, Tx, ◌>>=◌, ◌>>◌, pure, query, database_now, commit, require,
  or_raise,
}
use superlily.Authority.Ledger.{append_invocation_transition, find_invocation}
use superlily.Cancellation.{
  InvocationIdentity, caller_name, is_authorized, is_pending, by_invocation,
  transition_confirmation,
}

pub record Move : Type 0 where
  pub event : InvocationTransitionEvent
  pub state : InvocationState

-- the event and state of a cancellation, by the state that it finds
unfoldable pub cancel_move : InvocationState → Option Move
cancel_move InvocationState.leased =
    some (record { event = request_cancel; state = cancel_requested })
cancel_move InvocationState.running =
    some (record { event = request_cancel; state = cancel_requested })
cancel_move proposed = some (record { event = cancel; state = cancelled })
cancel_move awaiting_confirmation = some (record { event = cancel; state = cancelled })
cancel_move queued = some (record { event = cancel; state = cancelled })
cancel_move _ = none

-- and of an invocation whose deadline has passed
unfoldable pub expiry_move : InvocationState → Move
expiry_move awaiting_confirmation = record {
  event = confirmation_expire;
  state = InvocationState.expired;
}
expiry_move queued = record { event = timeout; state = timed_out }
expiry_move proposed = record { event = reject; state = InvocationState.rejected }
expiry_move _ = record {
  event = InvocationTransitionEvent.unknown_completion;
  state = InvocationState.unknown_completion;
}

abbrev is_awaiting : InvocationState → Bool
is_awaiting awaiting_confirmation = true
is_awaiting _ = false

infixr 60 ◌<>◌
abbrev ◌<>◌ : String → String → String
s <> t = text_append s t

-- ORDER BY deadline_at, created_at
is_earlier : ToolInvocation → ToolInvocation → Bool
is_earlier i j =
    ltb i.deadline_at j.deadline_at
    || (eqb i.deadline_at j.deadline_at && leb i.created_at j.created_at)

insert_invocation : ToolInvocation → List ToolInvocation → List ToolInvocation
insert_invocation i [] = i ∷ []
insert_invocation i (j ∷ rest) =
    if is_earlier i j then i ∷ j ∷ rest else j ∷ insert_invocation i rest

sort_invocations : List ToolInvocation → List ToolInvocation
sort_invocations [] = []
sort_invocations (i ∷ rest) = insert_invocation i (sort_invocations rest)

unfoldable pub is_overdue : ℕ → ToolInvocation → Bool
is_overdue now i = not (is_terminal i.state) && leb i.deadline_at now

unfoldable pub expired_invocations : ℕ → ℕ → Database → List ToolInvocation
unfolding is_overdue is_earlier insert_invocation sort_invocations
expired_invocations limit now db =
    take (max 1 (min limit 1000)) (sort_invocations (keep_if (is_overdue now) db.invocations))

-- `hash_object` is the SHA-256 of the canonical JSON of an object of texts (rfc8785 and hashlib), and
-- `isoformat` that of datetime.
module _ (hash_object : List (String × String) → String) (isoformat : ℕ → String) where
  -- the confirmation of an invocation that awaits it
  unfoldable pub reject_pending : ToolInvocation → InvocationIdentity → String → Tx (Unit {0})
  reject_pending i who reason = do
    found ← query (λ db. find by_invocation i.id db.confirmations)
    c ← or_raise found (conflict "pending invocation has no confirmation authority")
    now ← database_now
    transition_confirmation c ConfirmationEvent.reject ConfirmationState.rejected
        (caller_name who.caller) who.subject
        ("cancel:" <> i.id <> ":" <> decimal (i.transition_sequence + 1))
        (hash_object (
          ("invocation_id", i.id)
          ∷ ("confirmation_id", c.id)
          ∷ ("caller", caller_name who.caller)
          ∷ ("subject", who.subject)
          ∷ ("reason", reason)
          ∷ []))
        reason now

  unfoldable pub cancel_tool_invocation : String → InvocationIdentity → String → Tx ToolInvocation
  cancel_tool_invocation invocation_id who reason = do
    found ← query (find_invocation invocation_id)
    i ← or_raise found not_found
    require (is_authorized i who) not_found
    require (not (is_terminal i.state)) (conflict "terminal invocation is immutable")
    move ←
        or_raise (cancel_move i.state)
          (conflict "invocation cannot be cancelled from its current state")
    if is_awaiting i.state then reject_pending i who reason else pure tt
    result ←
        append_invocation_transition i.id move.event move.state (caller_name who.caller) who.subject
          "caller_cancelled" none (not (is_awaiting i.state))
    if is_awaiting i.state then commit else pure tt
    pure result

  unfoldable pub expire_pending : ToolInvocation → ℕ → Tx (Unit {0})
  expire_pending i now = do
    found ← query (λ db. find by_invocation i.id db.confirmations)
    c ← or_raise found runtime_error
    require (is_pending c.state) runtime_error
    transition_confirmation c ConfirmationEvent.expire ConfirmationState.expired "reaper"
        "tool-invocation-reaper-v1" ("expire:" <> c.id <> ":" <> decimal (c.resource_version + 1))
        (hash_object (
          ("operation", "expire")
          ∷ ("invocation_id", i.id)
          ∷ ("confirmation_id", c.id)
          ∷ ("database_time", isoformat now)
          ∷ []))
        "确认等待期已过期" now

  unfoldable pub reap_invocation : ToolInvocation → ℕ → Tx ToolInvocation
  reap_invocation i now = do
    if is_awaiting i.state then expire_pending i now else pure tt
    append_invocation_transition i.id (expiry_move i.state).event (expiry_move i.state).state
        "reaper" "tool-invocation-reaper-v1" "deadline_expired" none false

  unfoldable pub reap_invocations : List ToolInvocation → ℕ → Tx (List String)
  reap_invocations [] now = pure []
  reap_invocations (i ∷ rest) now = do
    reap_invocation i now
    others ← reap_invocations rest now
    pure (i.id ∷ others)

  unfoldable pub reap_expired_invocations : ℕ → Tx (List String)
  reap_expired_invocations limit = do
    now ← database_now
    expired ← query (expired_invocations limit now)
    transitioned ← reap_invocations expired now
    commit
    pure transitioned
