-- ===== src/Execution/Fences/Held.antt =====
-- What a handler that holds a row of the attempts keeps.
use superlily.Base.{ℕ, ◌≡◌, refl, ap, Bool, true, Option, none, some, String, List, arith, eq_iff}
use superlily.Base.Table.{find, replace, find-replace_self}
use superlily.Authority.Rows.{ToolAttempt, AttemptEvent, Database}
use superlily.Authority.Session.Keeps.{Keeps, Keeps-modify, Keeps-bind, Keeps-pure, keeps_rules}
use superlily.Authority.Ledger.{store_transition}
use superlily.Authority.Ledger.Stable.{Gentle}
use superlily.Execution.Proof.{
  attempt_id, store_attempt, stamp_attempt, append_attempt_event, reject_known_attempt,
}
use superlily.Execution.Lifecycle.{is_active}
use superlily.Execution.Fences.{has_fences, is_held, find_row, replace-fences}

pub record HasFences (db : Database) : Type 0 where
  pub fences : has_fences db.attempts ≡ true

-- the fences, and that a row of `a`'s id, invocation and fence is in the table, active if `act`
pub record Holds (act : Bool) (a : ToolAttempt) (db : Database) : Type 0 where
  pub fences : has_fences db.attempts ≡ true
  pub row : is_held act a (find_row a db.attempts) ≡ true

pub HasFences-Gentle : Gentle HasFences
unfolding store_transition
HasFences-Gentle = record {
  beside = λ db db' i t e p. record { fences = rw e p.fences };
  stored = λ db i event state actor_type actor_id reason_code deadline_at now found legal p.
      record { fences = p.fences };
}

pub Holds-Gentle : (act : Bool) (a : ToolAttempt) → Gentle (Holds act a)
unfolding store_transition
Holds-Gentle act a = record {
  beside = λ db db' i t e p. record { fences = rw e p.fences; row = rw e p.row };
  stored = λ db i event state actor_type actor_id reason_code deadline_at now found legal p.
      record { fences = p.fences; row = p.row };
}

-- `b` is `a` after a change of other fields, and is active exactly if `act`
pub record Rewrites (act : Bool) (a b : ToolAttempt) : Type 0 where
  pub same_id : b.id ≡ a.id
  pub same_invocation : b.invocation_id ≡ a.invocation_id
  pub same_fence : b.fencing_token ≡ a.fencing_token
  pub activity : is_active b.state ≡ act

pub unchanged : (a : ToolAttempt) → Rewrites (is_active a.state) a a
unchanged a = record { same_id = refl; same_invocation = refl; same_fence = refl; activity = refl }

held-rewritten :
    (act : Bool) (a b : ToolAttempt) (o : Option ToolAttempt)
    → Rewrites act a b
    → is_held act a o ≡ true
    → is_held act b o ≡ true
unfolding is_held
held-rewritten act a b none w h = h
held-rewritten act a b (some c) w h = rw (w.same_id, w.same_invocation, w.same_fence) h

pub held_self : (act : Bool) (a b : ToolAttempt) → Rewrites act a b → is_held act a (some b) ≡ true
unfolding is_held
held_self act a b w = ground (
  arith,
  w.same_id,
  w.same_invocation,
  w.same_fence,
  w.activity,
  eq_iff b.id a.id,
  eq_iff b.invocation_id a.invocation_id,
)

pub held-found :
    (act : Bool) (a : ToolAttempt) (o : Option ToolAttempt)
    → is_held act a o ≡ true
    → (c : ToolAttempt) × (o ≡ some c)
unfolding is_held
held-found act a none h = ground (arith, h)
held-found act a (some c) h = (c, refl)

find-written :
    (act : Bool) (a b : ToolAttempt) (l : List ToolAttempt)
    → Rewrites act a b
    → is_held act a (find_row a l) ≡ true
    → find_row a (replace attempt_id b l) ≡ some b
find-written act a b l w h =
    let (c, found) = held-found act a (find_row a l) h in
    find-replace_self attempt_id a.id b l c w.same_id found

pub write-Holds :
    (act : Bool) (a b : ToolAttempt) (db db' : Database)
    → Rewrites act a b
    → db'.attempts ≡ replace attempt_id b db.attempts
    → Holds act a db
    → Holds act a db'
write-Holds act a b db db' w e h = record {
  fences = rw e (
      replace-fences b db.attempts
        (rw (w.activity, ap (λ k. find attempt_id k db.attempts) w.same_id)
          (held-rewritten act a b (find_row a db.attempts) w h.row))
        h.fences);
  row = rw (e, find-written act a b db.attempts w h.row) (held_self act a b w);
}

pub stamp-Rewrites :
    (act : Bool) (a b : ToolAttempt) (now : ℕ)
    → Rewrites act a b
    → Rewrites act a (stamp_attempt b now)
unfolding stamp_attempt
stamp-Rewrites act a b now w = record {
  same_id = w.same_id;
  same_invocation = w.same_invocation;
  same_fence = w.same_fence;
  activity = w.activity;
}

module _ (act : Bool) (a b : ToolAttempt) (w : Rewrites act a b) where
  pub write-Keeps :
      (event : AttemptEvent) (accepted : Bool) (provider_id : String) (fencing_token : ℕ)
      (reason_code : String) (now : ℕ)
      → Keeps
          (Holds act a)
          (append_attempt_event b event accepted provider_id fencing_token reason_code now)
  unfolding append_attempt_event
  write-Keeps event accepted provider_id fencing_token reason_code now =
      Keeps-bind _ _
        (Keeps-modify _ (λ db h.
          write-Holds act a (stamp_attempt b now) db _ (stamp-Rewrites act a b now w)
            (unfold store_attempt in refl) h))
        (λ _. Keeps-pure _)

  pub refuse-Keeps :
      {A : Type 0} (provider_id : String) (fencing_token : ℕ) (reason_code detail : String)
      (now : ℕ)
      → Keeps
          (Holds act a)
          (reject_known_attempt {A = A} b provider_id fencing_token reason_code detail now)
  unfolding reject_known_attempt
  refuse-Keeps provider_id fencing_token reason_code detail now = search (keeps_rules, write-Keeps)
