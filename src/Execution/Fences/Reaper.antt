-- ===== src/Execution/Fences/Reaper.antt =====
-- The reaper of expired attempts keeps the fences: each row that it read is still a row when its turn comes.
use superlily.Authority.Session.Steps.{opened}
use superlily.Base.{
  ℕ, ◌≡◌, refl, sym, ap, Bool, true, false, Option, none, some, String, List, [], ◌∷◌, All, arith,
  keep_if, take-All, sort_by, sort_by-All, keep_if-All, Bool-cases, inl, inr, ◌==◌, eq_iff,
  and_left, and_right,
}
use superlily.Base.Table.{find, replace, find-replace_other, find-replace_self}
use superlily.Authority.Rows.{ToolInvocation, ToolAttempt, AttemptEvent, Database}
use superlily.Authority.Session.{Tx, ◌>>=◌, ◌>>◌, pure, query, modify, database_now, commit}
use superlily.Authority.Session.Keeps.{
  Keeps, Keeps-pure, Keeps-bind, Keeps-query, Keeps-commit, Keeps-modify,
}
use superlily.Authority.Ledger.{store_transition}
use superlily.Authority.Ledger.Stable.{Gentle}
use superlily.Execution.Proof.{attempt_id, stamp_attempt, store_attempt, append_attempt_event}
use superlily.Execution.Lifecycle.{is_active}
use superlily.Execution.Reap.{
  is_due, is_earlier, expired_attempts, expire_attempt, reap_attempt, reap_attempts,
  reap_expired_attempts,
}
use superlily.Execution.Keeps.Beside.{expire-Keeps}
use superlily.Execution.Fences.{
  has_fences, all_give_way, gives_way, is_held, find_row, replace-fences,
}
use superlily.Execution.Fences.Held.{HasFences, held-found}
use superlily.Execution.Fences.Locked.{Safe}

abbrev is_row : List ToolAttempt → ToolAttempt → Bool
is_row l a = is_held false a (find_row a l)

-- the fences, and every row of the table `base` is still one
record Extends (base : List ToolAttempt) (db : Database) : Type 0 where
  pub fences : has_fences db.attempts ≡ true
  pub rows : (a : ToolAttempt) → is_row base a ≡ true → is_row db.attempts a ≡ true

Extends-Gentle : (base : List ToolAttempt) → Gentle (Extends base)
unfolding store_transition
Extends-Gentle base = record {
  beside = λ db db' i t e p. record { fences = rw e p.fences; rows = λ a h. rw e (p.rows a h) };
  stored = λ db i event state actor_type actor_id reason_code deadline_at now found legal p.
      record { fences = p.fences; rows = p.rows };
}

-- another row is what it was
replace-other :
    (b r : ToolAttempt) (l : List ToolAttempt)
    → (b.id == r.id) ≡ false
    → is_row l r ≡ true
    → is_row (replace attempt_id b l) r ≡ true
replace-other b r l e h = rw (find-replace_other attempt_id r.id b l e) h

same-held :
    (b r : ToolAttempt) (o : Option ToolAttempt)
    → (b.id == r.id) ≡ true
    → is_held false b o ≡ true
    → is_held false r o ≡ true
    → is_held false r (some b) ≡ true
unfolding is_held
same-held b r none e h k = ground (arith, h)
same-held b r (some c) e h k = ground (
  arith,
  e,
  h,
  k,
  eq_iff b.id r.id,
  eq_iff c.invocation_id b.invocation_id,
  eq_iff c.invocation_id r.invocation_id,
  eq_iff b.invocation_id r.invocation_id,
)

replace_self :
    (b r : ToolAttempt) (l : List ToolAttempt)
    → (b.id == r.id) ≡ true
    → is_row l b ≡ true
    → is_row l r ≡ true
    → is_row (replace attempt_id b l) r ≡ true
replace_self b r l e h k =
    let (c, found) = held-found false r (find_row r l) k in
    let same : b.id ≡ r.id = ground (arith, e, eq_iff b.id r.id) in
    rw (find-replace_self attempt_id r.id b l c same found)
      (same-held b r (find_row r l) e (rw (sym (ap (λ n. find attempt_id n l) same)) h) k)

write-Extends :
    (base : List ToolAttempt) (b : ToolAttempt) (db db' : Database)
    → is_row base b ≡ true
    → is_active b.state ≡ false
    → db'.attempts ≡ replace attempt_id b db.attempts
    → Extends base db
    → Extends base db'
write-Extends base b db db' old ended e h = record {
  fences = rw e (replace-fences b db.attempts (rw ended (h.rows b old)) h.fences);
  rows = λ r k. rw e (elim (Bool-cases (b.id == r.id)) [
    | inl same ↦ replace_self b r db.attempts same (h.rows b old) (h.rows r k)
    | inr other ↦ replace-other b r db.attempts other (h.rows r k)
  ]);
}

-- the round of one row
module _ (base : List ToolAttempt) (a : ToolAttempt) (now : ℕ) (old : is_row base a ≡ true) where
  expired-Keeps : Keeps (Extends base) (
      modify (λ db. record db { attempts = replace attempt_id (expire_attempt a now) db.attempts }))
  unfolding expire_attempt is_held
  expired-Keeps =
      Keeps-modify _ (λ db h. write-Extends base (expire_attempt a now) db _ old refl refl h)

  event-Keeps : Keeps (Extends base) (
      append_attempt_event
        (expire_attempt a now)
        AttemptEvent.lease_expire
        true
        a.provider_id
        a.fencing_token
        "lease_expired"
        now)
  unfolding append_attempt_event expire_attempt stamp_attempt is_held
  event-Keeps =
      Keeps-bind _ _
        (Keeps-modify _ (λ db h.
          write-Extends base (stamp_attempt (expire_attempt a now) now) db _ old refl
            (unfold store_attempt in refl) h))
        (λ _. Keeps-pure _)

  round-Keeps : (o : Option ToolInvocation) → Keeps (Extends base) (reap_attempt a now o)
  unfolding reap_attempt
  round-Keeps none = Keeps-pure []
  round-Keeps (some i) = Keeps-bind _ _ expired-Keeps (λ _.
      Keeps-bind _ _ (expire-Keeps (Extends-Gentle base) i.state i now)
        (λ _. Keeps-bind _ _ event-Keeps (λ _. Keeps-pure _)))

loop-Keeps :
    (base rows : List ToolAttempt) (now : ℕ)
    → All (λ r. is_row base r ≡ true) rows
    → Keeps (Extends base) (reap_attempts rows now)
unfolding reap_attempts
loop-Keeps base [] now h = Keeps-pure []
loop-Keeps base (a ∷ rest) now (first, others) = Keeps-bind _ _ (Keeps-query _) (λ known.
    Keeps-bind _ _ (round-Keeps base a now first known)
      (λ reaped. Keeps-bind _ _ (loop-Keeps base rest now others) (λ ids. Keeps-pure _)))

-- the part of the reaper behind its query
abbrev reap_rows : List ToolAttempt → ℕ → Tx (List String)
reap_rows rows now = do reaped ← reap_attempts rows now; commit; pure reaped

rows-Keeps :
    (base rows : List ToolAttempt) (now : ℕ)
    → All (λ r. is_row base r ≡ true) rows
    → Keeps (Extends base) (reap_rows rows now)
rows-Keeps base rows now h =
    Keeps-bind _ _ (loop-Keeps base rows now h)
      (λ reaped. Keeps-bind _ _ Keeps-commit (λ _. Keeps-pure _))

-- what the query reads are rows
self_row : (a : ToolAttempt) (rest : List ToolAttempt) → is_row (a ∷ rest) a ≡ true
unfolding find is_held
self_row a rest = ground (arith, eq_iff a.id a.id, eq_iff a.invocation_id a.invocation_id)

later_row :
    (a r : ToolAttempt) (rest : List ToolAttempt)
    → gives_way a r ≡ true
    → is_row rest r ≡ true
    → is_row (a ∷ rest) r ≡ true
unfolding gives_way find
later_row a r rest g h =
    let other : (a.id == r.id) ≡ false = ground (arith, g, eq_iff a.id r.id, eq_iff r.id a.id) in
    rw other h

later_rows :
    (a : ToolAttempt) (rest l : List ToolAttempt)
    → all_give_way a l ≡ true
    → All (λ r. is_row rest r ≡ true) l
    → All (λ r. is_row (a ∷ rest) r ≡ true) l
unfolding all_give_way
later_rows a rest [] g h = tt
later_rows a rest (r ∷ l) g (first, others) =
    (later_row a r rest (and_left _ _ g) first, later_rows a rest l (and_right _ _ g) others)

rows_held : (l : List ToolAttempt) → has_fences l ≡ true → All (λ r. is_row l r ≡ true) l
unfolding has_fences
rows_held [] h = tt
rows_held (a ∷ rest) h =
    (self_row a rest, later_rows a rest rest (and_left _ _ h) (rows_held rest (and_right _ _ h)))

expired_rows :
    (limit now : ℕ) (db : Database)
    → HasFences db
    → All (λ r. is_row db.attempts r ≡ true) (expired_attempts limit now db)
unfolding expired_attempts
expired_rows limit now db h = take-All _ _ (sort_by is_earlier (keep_if (is_due now) db.attempts)) (
    sort_by-All _ is_earlier (keep_if (is_due now) db.attempts)
      (keep_if-All _ (is_due now) db.attempts (rows_held db.attempts h.fences)))

pub reap-Safe : (limit : ℕ) → Safe (reap_expired_attempts limit)
unfolding reap_expired_attempts ◌>>=◌ database_now query
reap-Safe limit = record {
  at = λ now db h. record {
    fences =
        ((rows-Keeps db.attempts (expired_attempts limit now db) now
            (expired_rows limit now db h)).at
          (opened now db) (record { fences = h.fences; rows = λ a k. k })
          (record { fences = h.fences; rows = λ a k. k })).0.fences;
  };
}
