-- ===== src/Rollout/Quota.antt =====
-- The quota of a rollout plan.
use superlily.Authority.Session.Steps.{bind-ok}
use superlily.Base.{
  ℕ, ◌+◌, ◌-◌, ◌≡◌, refl, true, false, some, List, [], ◌∷◌, length, min, ltb, arith, if◌then◌else◌,
  Bool-cases, inl, inr,
}
use superlily.Base.Table.{find, replace, find-replace_self, key-find}
use superlily.Authority.Rows.{ToolRolloutPlanRecord, ToolRolloutPlanCounter}
use superlily.Authority.Session.{Result, ok, Session, Tx, ◌>>=◌, pure, query, modify}
use superlily.Rollout.{counter_key, spend, spend_from, consume_rollout_invocation}

-- the calls at some times, one after the other: how many of them consumed an invocation
unfoldable pub consume_all : ToolRolloutPlanRecord → List ℕ → Tx ℕ
consume_all plan [] = pure 0
consume_all plan (t ∷ times) = do
  consumed ← consume_rollout_invocation plan t
  n ← consume_all plan times
  pure ((if consumed then 1 else 0) + n)

-- `n` calls consumed an invocation, and the counter tells so
pub record Spends (r : Result ℕ × Session) (plan : ToolRolloutPlanRecord) (before n : ℕ)
    : Type 0 where
  pub counter : ToolRolloutPlanCounter
  pub consumed : ℕ
  pub returned : r.0 ≡ ok consumed
  pub exactly : consumed ≡ n
  pub found : find counter_key plan.id r.1.working.rollout_counters ≡ some counter
  pub counted : counter.consumed_invocations ≡ before + n

module _ (plan : ToolRolloutPlanRecord) (t : ℕ) (s : Session) (c : ToolRolloutPlanCounter)
    (found : find counter_key plan.id s.working.rollout_counters ≡ some c) where
  abbrev pub spent : Session
  spent = record s {
    working = record s.working {
      rollout_counters = replace counter_key (spend c t) s.working.rollout_counters;
    };
  }

  pub consume-left :
      ltb c.consumed_invocations plan.max_invocations ≡ true
      → consume_rollout_invocation plan t s ≡ (ok true, spent)
  unfolding consume_rollout_invocation spend_from ◌>>=◌ query modify pure
  consume-left left = rw (found, spend_from) (rw left refl)

  pub consume-none :
      ltb c.consumed_invocations plan.max_invocations ≡ false
      → consume_rollout_invocation plan t s ≡ (ok false, s)
  unfolding consume_rollout_invocation spend_from ◌>>=◌ query pure
  consume-none over = rw (found, spend_from) (rw over refl)

  find-spent : find counter_key plan.id spent.working.rollout_counters ≡ some (spend c t)
  unfolding spend
  find-spent =
      find-replace_self counter_key plan.id (spend c t) s.working.rollout_counters c
        (key-find counter_key plan.id s.working.rollout_counters c found) found

-- one call more
more :
    (plan : ToolRolloutPlanRecord) (times : List ℕ) (s : Session) (before n k later m : ℕ)
    → k + n ≡ m
    → before + n ≡ later + m
    → Spends (consume_all plan times s) plan before n
    → Spends (((consume_all plan times) >>= (λ j. pure (k + j))) s) plan later m
unfolding ◌>>=◌ pure
more plan times s before n k later m e f h = rw h.returned (record {
  counter = h.counter;
  consumed = k + h.consumed;
  returned = refl;
  exactly = omega (arith, h.exactly, e);
  found = h.found;
  counted = omega (arith, h.counted, f);
})

abbrev quota_left : ToolRolloutPlanRecord → ToolRolloutPlanCounter → List ℕ → ℕ
quota_left plan c times = min (length times) (plan.max_invocations - c.consumed_invocations)

module _ (plan : ToolRolloutPlanRecord) (t : ℕ) (times : List ℕ) (s : Session)
    (c : ToolRolloutPlanCounter)
    (found : find counter_key plan.id s.working.rollout_counters ≡ some c) where
  call-left :
      ltb c.consumed_invocations plan.max_invocations ≡ true
      → Spends
          (consume_all plan times (spent plan t s c found))
          plan
          (spend c t).consumed_invocations
          (quota_left plan (spend c t) times)
      → Spends
          (consume_all plan (t ∷ times) s)
          plan
          c.consumed_invocations
          (quota_left plan c (t ∷ times))
  unfolding consume_all spend
  call-left left h =
      rw (bind-ok _ _ s (spent plan t s c found) true (consume-left plan t s c found left)) (
        more plan times (spent plan t s c found) (c.consumed_invocations + 1)
          (quota_left plan (spend c t) times) 1 c.consumed_invocations
          (quota_left plan c (t ∷ times)) (ground (arith, left)) (ground (arith, left)) h)

  call-none :
      ltb c.consumed_invocations plan.max_invocations ≡ false
      → Spends (consume_all plan times s) plan c.consumed_invocations (quota_left plan c times)
      → Spends
          (consume_all plan (t ∷ times) s)
          plan
          c.consumed_invocations
          (quota_left plan c (t ∷ times))
  unfolding consume_all
  call-none over h = rw (bind-ok _ _ s s false (consume-none plan t s c found over)) (
      more plan times s c.consumed_invocations (quota_left plan c times) 0 c.consumed_invocations
        (quota_left plan c (t ∷ times)) (ground (arith, over)) (ground (arith, over)) h)

-- Of a number of calls on a plan's counter, exactly as many consume an invocation as the quota has left, or all
-- if it has more left, and the counter grows by that number.
pub consume_all-Spends :
    (plan : ToolRolloutPlanRecord) (times : List ℕ) (s : Session) (c : ToolRolloutPlanCounter)
    → find counter_key plan.id s.working.rollout_counters ≡ some c
    → Spends
        (consume_all plan times s)
        plan
        c.consumed_invocations
        (min (length times) (plan.max_invocations - c.consumed_invocations))
unfolding consume_all pure
consume_all-Spends plan [] s c found = record {
  counter = c;
  consumed = 0;
  returned = refl;
  exactly = omega arith;
  found = found;
  counted = omega arith;
}
consume_all-Spends plan (t ∷ times) s c found =
    elim (Bool-cases (ltb c.consumed_invocations plan.max_invocations)) [
      | inl left ↦ call-left plan t times s c found left (
          consume_all-Spends plan times (spent plan t s c found) (spend c t)
            (find-spent plan t s c found))
      | inr over ↦ call-none plan t times s c found over (consume_all-Spends plan times s c found)
    ]
