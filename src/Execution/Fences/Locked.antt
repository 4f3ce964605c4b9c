-- ===== src/Execution/Fences/Locked.antt =====
-- A provider's call behind the proof check: what follows the check holds the attempt's row.
use superlily.Authority.Session.Steps.{bind-ok, bind-raised, opened}
use superlily.Base.{
  Option, none, some, ℕ, ◌≡◌, refl, sym, subst, Bool, true, false, none, some, String, arith, ◌==◌,
  Bool-cases, Option-cases, inl, inr,
}
use superlily.Base.Table.{find, key-find}
use superlily.Invocation.{InvocationState}
use superlily.Authority.Rows.{ToolInvocation, ToolAttempt, AttemptState, Database}
use superlily.Authority.Session.{
  Result, ok, raised, and_then, Session, Tx, ◌>>=◌, pure, query, database_now, or_raise, require,
}
use superlily.Authority.Session.Keeps.{Keeps}
use superlily.Authority.Ledger.{find_invocation, invocation_id}
use superlily.Authority.Ledger.Stable.{find_own}
use superlily.Execution.Proof.{
  External, ToolExecutionProof, Check, attempt_id, find_attempt, stamp_attempt, store_attempt,
  checks, locked_attempt_and_invocation,
}
use superlily.Execution.Lifecycle.{is_active}
use superlily.Execution.Gate.{first_refusal, locked-passed, locked-refused, verdict, with_refusal}
use superlily.Execution.Fences.{is_held, find_row}
use superlily.Execution.Fences.Held.{
  HasFences, Holds, write-Holds, stamp-Rewrites, held_self, unchanged,
}

-- a request keeps the fences
pub record Safe {A : Type 0} (m : Tx A) : Type 0 where
  pub at : (now : ℕ) (db : Database) → HasFences db → HasFences (m (opened now db)).1.committed

pub Keeps-Safe : {A : Type 0} (m : Tx A) → Keeps HasFences m → Safe m
Keeps-Safe m k = record { at = λ now db h. (k.at (opened now db) h h).0 }

after_end : {A : Type 0} (r : Result A) (s : Session) → (and_then r (λ _. pure tt) s).1 ≡ s
unfolding pure
after_end (ok a) s = refl
after_end (raised e) s = refl

pub Safe-then : {A : Type 0} (m : Tx A) → Safe m → Safe (m >>= λ _. pure tt)
unfolding ◌>>=◌
Safe-then m k = record {
  at = λ now db h. let (r, s) = m (opened now db) in rw (after_end r s) (k.at now db h);
}

own_row :
    (id : String) (db : Database) (a : ToolAttempt)
    → find_attempt id db ≡ some a
    → find_row a db.attempts ≡ some a
unfolding find_attempt
own_row id db a found =
    subst (λ k. find attempt_id k db.attempts ≡ some a)
      (sym (key-find attempt_id id db.attempts a found)) found

-- a row that was read is held
pub loaded :
    (id : String) (db : Database) (a : ToolAttempt)
    → HasFences db
    → find_attempt id db ≡ some a
    → Holds (is_active a.state) a db
loaded id db a h found = record {
  fences = h.fences;
  row = rw (own_row id db a found) (held_self (is_active a.state) a a (unchanged a));
}

-- a check passes only in a state that the operation allows
passed-state :
    (x : External) (a : ToolAttempt) (i : ToolInvocation) (proof : ToolExecutionProof)
    (provider_id : String) (f : AttemptState → Bool) (g : InvocationState → Bool) (now : ℕ)
    → first_refusal (checks x a i proof provider_id f g now) ≡ none
    → f a.state ≡ true
unfolding checks
passed-state x a i proof provider_id f g now h = ground (arith, h)

-- what follows the check leaves the fences as they are to be
pub record Ends {A : Type 0} (a : ToolAttempt) (m : Tx A) : Type 0 where
  pub at :
      (s : Session)
      → Holds (is_active a.state) a s.committed
      → Holds (is_active a.state) a s.working
      → HasFences (m s).1.committed

pub active-Ends :
    {A : Type 0} (a : ToolAttempt) (m : Tx A) → Keeps (Holds (is_active a.state) a) m → Ends a m
active-Ends a m k = record { at = λ s c w. record { fences = (k.at s c w).0.fences } }

loosen :
    (act : Bool) (a : ToolAttempt) (o : Option ToolAttempt)
    → is_held act a o ≡ true
    → is_held false a o ≡ true
unfolding is_held
loosen act a none h = h
loosen act a (some c) h = ground (arith, h)

loose : (act : Bool) (a : ToolAttempt) (db : Database) → Holds act a db → Holds false a db
loose act a db h = record { fences = h.fences; row = loosen act a (find_row a db.attempts) h.row }

pub ended-Ends : {A : Type 0} (a : ToolAttempt) (m : Tx A) → Keeps (Holds false a) m → Ends a m
ended-Ends a m k = record {
  at = λ s c w. record {
    fences =
        (k.at s (loose (is_active a.state) a s.committed c)
          (loose (is_active a.state) a s.working w)).0.fences;
  };
}

-- the refusal on record
refused-HasFences :
    (a : ToolAttempt) (provider_id : String) (fencing_token : ℕ) (c : Check) (now : ℕ)
    (db : Database)
    → Holds (is_active a.state) a db
    → HasFences (with_refusal a provider_id fencing_token c now db)
unfolding store_attempt
refused-HasFences a provider_id fencing_token c now db held = record {
  fences =
      (write-Holds (is_active a.state) a (stamp_attempt a now) db
        (with_refusal a provider_id fencing_token c now db)
        (stamp-Rewrites (is_active a.state) a a now (unchanged a)) refl held).fences;
}

module _ {B : Type 0} (x : External) (proof : ToolExecutionProof) (provider_id : String)
    (f : AttemptState → Bool) (g : InvocationState → Bool)
    (k : ToolAttempt × ToolInvocation × ℕ → Tx B)
    (next : (a : ToolAttempt) (i : ToolInvocation) (now : ℕ)
      → f a.state ≡ true
      → Ends a (k (a, i, now))) where
  abbrev call : String → Tx B
  call id = locked_attempt_and_invocation x id proof provider_id f g >>= k

  locked-found :
      (a : ToolAttempt) (i : ToolInvocation) (now : ℕ) (db : Database)
      → HasFences db
      → find_attempt proof.attempt_id db ≡ some a
      → (a.invocation_id == i.id) ≡ true
      → find_invocation i.id db ≡ some i
      → HasFences (call i.id (opened now db)).1.committed
  locked-found a i now db h attempt_found bound found =
      let held : Holds (is_active a.state) a db = loaded proof.attempt_id db a h attempt_found in
      elim (Option-cases
        (verdict x proof provider_id f g a i (opened now db) attempt_found bound found)) [
          | inl passes ↦
              rw
                (bind-ok _ k (opened now db) (opened now db) (a, i, now)
                  (locked-passed x proof provider_id f g a i (opened now db) attempt_found bound
                    found passes))
                (record {
                  fences =
                      ((next a i now (passed-state x a i proof provider_id f g now passes)).at
                        (opened now db) held held).fences;
                })
          | inr (c, fails) ↦
              rw
                (bind-raised _ k (opened now db) _ _ (
                  locked-refused x proof provider_id f g a i (opened now db) attempt_found bound
                    found c fails))
                (refused-HasFences a provider_id proof.fencing_token c now db held)
        ]

  locked-absent :
      (id : String) (now : ℕ) (db : Database)
      → find_attempt proof.attempt_id db ≡ none
      → HasFences db
      → HasFences (call id (opened now db)).1.committed
  unfolding locked_attempt_and_invocation ◌>>=◌ query database_now or_raise
  locked-absent id now db absent h = rw (absent, or_raise) h

  locked-unbound :
      (id : String) (now : ℕ) (db : Database) (a : ToolAttempt)
      → find_attempt proof.attempt_id db ≡ some a
      → (a.invocation_id == id) ≡ false
      → HasFences db
      → HasFences (call id (opened now db)).1.committed
  unfolding locked_attempt_and_invocation ◌>>=◌ query database_now or_raise require
  locked-unbound id now db a found other h = rw (found, or_raise) (rw (other, require) h)

  locked-unknown :
      (id : String) (now : ℕ) (db : Database) (a : ToolAttempt)
      → find_attempt proof.attempt_id db ≡ some a
      → (a.invocation_id == id) ≡ true
      → find_invocation id db ≡ none
      → HasFences db
      → HasFences (call id (opened now db)).1.committed
  unfolding locked_attempt_and_invocation ◌>>=◌ query database_now or_raise require
  locked-unknown id now db a found bound absent h =
      rw (found, or_raise) (rw (bound, require) (rw (absent, or_raise) h))

  locked-at :
      (id : String) (now : ℕ) (db : Database) (a : ToolAttempt)
      → find_attempt proof.attempt_id db ≡ some a
      → HasFences db
      → HasFences (call id (opened now db)).1.committed
  unfolding find_invocation
  locked-at id now db a found h = elim (Bool-cases (a.invocation_id == id)) [
    | inr other ↦ locked-unbound id now db a found other h
    | inl bound ↦ elim (Option-cases (find_invocation id db)) [
      | inl absent ↦ locked-unknown id now db a found bound absent h
      | inr (i, known) ↦
          let own : i.id ≡ id = key-find invocation_id id db.invocations i known in
          subst (λ j. HasFences (call j (opened now db)).1.committed) own
            (locked-found a i now db h found (rw own bound) (find_own id db i known))
    ]
  ]

  -- a call behind the check is safe where the rest keeps the row that the check read
  pub locked-Safe : (id : String) → Safe (call id)
  locked-Safe id = record {
    at = λ now db h. elim (Option-cases (find_attempt proof.attempt_id db)) [
      | inl absent ↦ locked-absent id now db absent h
      | inr (a, found) ↦ locked-at id now db a found h
    ];
  }
