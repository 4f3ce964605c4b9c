-- ===== src/Invocation/Graph.antt =====
-- The transition diagram of tool_invocation.py.
use superlily.Base.{◌≡◌, refl, Bool, true, false, not, ◌||◌, Option, some, List, [], ◌∷◌, arith}
use superlily.Invocation.{
  InvocationState, InvocationTransitionEvent, is_terminal, is_legal, proposed, rejected,
  recorded_only, awaiting_confirmation, queued, leased, running, succeeded, failed, timed_out,
  cancel_requested, cancelled, expired, lease_expired, propose, reject, record_only,
  require_confirmation, confirm, confirmation_expire, queue, lease, start, complete_success,
  complete_failure, request_cancel, cancel, lease_expire, timeout, requeue,
}

-- the state that an event leads to
abbrev pub target : InvocationTransitionEvent → InvocationState
target propose = proposed
target reject = rejected
target record_only = recorded_only
target require_confirmation = awaiting_confirmation
target confirm = queued
target confirmation_expire = expired
target queue = queued
target lease = leased
target start = running
target complete_success = succeeded
target complete_failure = failed
target request_cancel = cancel_requested
target cancel = cancelled
target lease_expire = lease_expired
target timeout = timed_out
target InvocationTransitionEvent.unknown_completion = InvocationState.unknown_completion
target requeue = queued

-- an event determines the state that it leads to
pub legal-target :
    (e : InvocationTransitionEvent) (p : Option InvocationState) (s : InvocationState)
    → is_legal e p s ≡ true
    → s ≡ target e
unfolding is_legal
legal-target e p s h = ground arith

abbrev all_states : List InvocationState
all_states =
    proposed ∷ rejected ∷ recorded_only ∷ awaiting_confirmation ∷ queued ∷ leased ∷ running
    ∷ succeeded ∷ failed ∷ timed_out ∷ cancel_requested ∷ cancelled
    ∷ InvocationState.unknown_completion ∷ expired ∷ lease_expired ∷ []

abbrev all_events : List InvocationTransitionEvent
all_events =
    propose ∷ reject ∷ record_only ∷ require_confirmation ∷ confirm ∷ confirmation_expire ∷ queue
    ∷ lease ∷ start ∷ complete_success ∷ complete_failure ∷ request_cancel ∷ cancel ∷ lease_expire
    ∷ timeout ∷ InvocationTransitionEvent.unknown_completion ∷ requeue ∷ []

abbrev any : {A : Type 0} → (A → Bool) → List A → Bool
any p [] = false
any p (x ∷ xs) = p x || any p xs

-- whether some event has a legal transition from the state to some state
unfoldable pub has_exit : InvocationState → Bool
has_exit p = any (λ e. any (is_legal e (some p)) all_states) all_events

-- A state has an outgoing transition exactly if it is not one of `TERMINAL_INVOCATION_STATES`.
pub terminal_iff_no_exit : (p : InvocationState) → has_exit p ≡ not (is_terminal p)
unfolding has_exit is_legal is_terminal
terminal_iff_no_exit proposed = refl
terminal_iff_no_exit rejected = refl
terminal_iff_no_exit recorded_only = refl
terminal_iff_no_exit awaiting_confirmation = refl
terminal_iff_no_exit queued = refl
terminal_iff_no_exit leased = refl
terminal_iff_no_exit running = refl
terminal_iff_no_exit succeeded = refl
terminal_iff_no_exit failed = refl
terminal_iff_no_exit timed_out = refl
terminal_iff_no_exit cancel_requested = refl
terminal_iff_no_exit cancelled = refl
terminal_iff_no_exit InvocationState.unknown_completion = refl
terminal_iff_no_exit expired = refl
terminal_iff_no_exit lease_expired = refl

-- a legal transition leaves a state that is not terminal
pub legal-source :
    (p s : InvocationState) (e : InvocationTransitionEvent)
    → is_legal e (some p) s ≡ true
    → is_terminal p ≡ false
unfolding is_legal is_terminal
legal-source p s e h = ground arith
