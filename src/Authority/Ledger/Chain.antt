-- ===== src/Authority/Ledger/Chain.antt =====
-- The transition ledger of an invocation is a chain of legal transitions that ends in its state.
use superlily.Base.{
  ℕ, suc, ◌≡◌, refl, sym, ap, subst, ◌∙◌, true, false, Option, none, some, String, List, [], ◌∷◌,
  map, length, keep_if, Bool-cases, inl, inr, ◌==◌, eq_iff, arith,
}
use superlily.Base.Table.{find, find-replace_other, find-replace_self}
use superlily.Invocation.{InvocationState, InvocationTransitionEvent, is_legal}
use superlily.Invocation.History.{History, unborn, step}
use superlily.Authority.Rows.{ToolInvocation, ToolInvocationTransition, Database}
use superlily.Authority.Ledger.{
  invocation_id, find_invocation, advance, transition, store_transition,
}
use superlily.Authority.Ledger.Stable.{Stable}

abbrev pub ledger_of : String → Database → List ToolInvocationTransition
ledger_of id db = keep_if (λ t. t.invocation_id == id) db.transitions

-- The rows are numbered from 1, each is legal, and each starts where the one before it ends.
abbrev pub IsChain : List ToolInvocationTransition → Option InvocationState → Type 0
IsChain [] s = s ≡ none
IsChain (t ∷ ts) s =
    (s ≡ some t.state)
    × (t.sequence ≡ suc (length ts))
    × (is_legal t.event t.previous_state t.state ≡ true)
    × IsChain ts t.previous_state

pub record HasLedgers (db : Database) : Type 0 where
  pub chain :
      (id : String) (i : ToolInvocation)
      → find_invocation id db ≡ some i
      → IsChain (ledger_of id db) (some i.state)
  pub counted :
      (id : String) (i : ToolInvocation)
      → find_invocation id db ≡ some i
      → i.transition_sequence ≡ length (ledger_of id db)

module _ (db : Database) (i : ToolInvocation) (event : InvocationTransitionEvent)
    (state : InvocationState) (actor_type actor_id reason_code : String) (deadline_at : Option ℕ)
    (now : ℕ) (found : find_invocation i.id db ≡ some i) where
  abbrev next : ToolInvocation
  next = advance i state reason_code deadline_at now

  abbrev stored_in : Database
  stored_in =
      store_transition next (transition i event state actor_type actor_id reason_code now) db

  -- what a lookup finds after the transition
  find_self : find_invocation i.id stored_in ≡ some next
  unfolding find_invocation store_transition advance
  find_self = find-replace_self invocation_id i.id next db.invocations i refl found

  find_other :
      (id : String) → (i.id == id) ≡ false → find_invocation id stored_in ≡ find_invocation id db
  unfolding find_invocation store_transition advance
  find_other id e = find-replace_other invocation_id id next db.invocations e

  ledger_self :
      ledger_of i.id stored_in
      ≡ transition i event state actor_type actor_id reason_code now ∷ ledger_of i.id db
  unfolding store_transition transition
  ledger_self = ground (arith, eq_iff i.id i.id)

  ledger_other : (id : String) → (i.id == id) ≡ false → ledger_of id stored_in ≡ ledger_of id db
  unfolding store_transition transition
  ledger_other id e = ground arith

  at_self :
      (legal : is_legal event (some i.state) state ≡ true) (h : HasLedgers db) (j : ToolInvocation)
      → find_invocation i.id stored_in ≡ some j
      → IsChain (ledger_of i.id stored_in) (some j.state)
        × (j.transition_sequence ≡ length (ledger_of i.id stored_in))
  unfolding transition advance
  at_self legal h j e =
      rw ledger_self
        (ground (arith, sym find_self ∙ e, h.counted i.id i found, h.chain i.id i found))

  IsChain-after :
      (legal : is_legal event (some i.state) state ≡ true) (h : HasLedgers db) (id : String)
      (j : ToolInvocation)
      → find_invocation id stored_in ≡ some j
      → IsChain (ledger_of id stored_in) (some j.state)
        × (j.transition_sequence ≡ length (ledger_of id stored_in))
  IsChain-after legal h id j e = elim (Bool-cases (i.id == id)) [
    | inl same ↦
        subst
          (λ k.
            find_invocation k stored_in ≡ some j
            → IsChain (ledger_of k stored_in) (some j.state)
              × (j.transition_sequence ≡ length (ledger_of k stored_in)))
          ((eq_iff i.id id).0 same) (λ e'. at_self legal h j e') e
    | inr differ ↦
        let before : find_invocation id db ≡ some j = sym (find_other id differ) ∙ e in
        rw (ledger_other id differ) (h.chain id j before, h.counted id j before)
  ]

-- lookups and ledgers are read from the two tables alone
pub same_find :
    (db db' : Database) (id : String)
    → db'.invocations ≡ db.invocations
    → find_invocation id db' ≡ find_invocation id db
unfolding find_invocation
same_find db db' id e = ap (λ rows. find invocation_id id rows) e

same_ledger :
    (db db' : Database) (id : String)
    → db'.transitions ≡ db.transitions
    → ledger_of id db' ≡ ledger_of id db
same_ledger db db' id e = ap (λ rows. keep_if (λ t. t.invocation_id == id) rows) e

pub HasLedgers-Stable : Stable HasLedgers
HasLedgers-Stable = record {
  untouched = λ db db' same_rows same_log h. record {
    chain = λ id j e.
        rw (same_ledger db db' id same_log)
          (h.chain id j (sym (same_find db db' id same_rows) ∙ e));
    counted = λ id j e.
        rw (same_ledger db db' id same_log)
          (h.counted id j (sym (same_find db db' id same_rows) ∙ e));
  };
  stored = λ db i event state actor_type actor_id reason_code deadline_at now found legal h.
      record {
        chain = λ id j e.
            (IsChain-after db i event state actor_type actor_id reason_code deadline_at now found
              legal h id j e).0;
        counted = λ id j e.
            (IsChain-after db i event state actor_type actor_id reason_code deadline_at now found
              legal h id j e).1;
      };
}

abbrev pub events : List ToolInvocationTransition → List InvocationTransitionEvent
events = map (λ t. t.event)

pub chain-History :
    (ts : List ToolInvocationTransition) (s : Option InvocationState)
    → IsChain ts s
    → History (events ts) s
chain-History [] s h = rw h unborn
chain-History (t ∷ ts) s h = rw (h.0) (step t.event (chain-History ts t.previous_state h.3) h.2)

pub length-events : (ts : List ToolInvocationTransition) → length (events ts) ≡ length ts
length-events [] = refl
length-events (t ∷ ts) = omega (arith, length-events ts)
