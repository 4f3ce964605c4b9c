-- ===== src/Invocation/History.antt =====
-- Sequences of legal transitions of one invocation, as the transition ledger records them.
use superlily.Base.{
  ℕ, suc, ◌+◌, ◌*◌, ◌≤◌, ◌≡◌, refl, true, Option, none, some, List, [], ◌∷◌, length, arith,
}
use superlily.Invocation.{
  InvocationState, InvocationTransitionEvent, is_legal, proposed, awaiting_confirmation, queued,
  leased, running, succeeded, cancel_requested, lease_expired, lease, start, complete_success,
  requeue,
}

-- The state after the events of a list, the newest first, from before the invocation exists.
pub data History : List InvocationTransitionEvent → Option InvocationState → Type 0 where
  unborn : History [] none
  step :
      {es : List InvocationTransitionEvent} {p : Option InvocationState} {s : InvocationState}
      (e : InvocationTransitionEvent)
      → History es p
      → is_legal e p s ≡ true
      → History (e ∷ es) (some s)

abbrev pub count_requeue : InvocationTransitionEvent → ℕ → ℕ
count_requeue requeue n = suc n
count_requeue _ n = n

abbrev pub requeues : List InvocationTransitionEvent → ℕ
requeues [] = 0
requeues (e ∷ es) = count_requeue e (requeues es)

-- how far a state lies along the diagram; only `requeue` goes back, by three
pub depth : Option InvocationState → ℕ
depth none = 0
depth (some proposed) = 1
depth (some awaiting_confirmation) = 2
depth (some queued) = 3
depth (some leased) = 4
depth (some running) = 5
depth (some cancel_requested) = 6
depth (some lease_expired) = 6
depth (some _) = 7

depth_step :
    (e : InvocationTransitionEvent) (p : Option InvocationState) (s : InvocationState) (n : ℕ)
    → is_legal e p s ≡ true
    → depth p + 1 + 4 * n ≤ depth (some s) + 4 * count_requeue e n
unfolding is_legal depth
depth_step e p s n h = ground arith

depth_le : (s : Option InvocationState) → depth s ≤ 7
unfolding depth
depth_le s = ground arith

length_le_depth :
    {es : List InvocationTransitionEvent} {s : Option InvocationState}
    → History es s
    → length es ≤ depth s + 4 * requeues es
length_le_depth unborn = omega arith
length_le_depth (step {es = es} {p = p} {s = s} e h legal) =
    omega (arith, length_le_depth h, depth_step e p s (requeues es) legal)

-- The ledger of an invocation that was requeued k times has at most 7 + 4 k transitions.
pub length-History :
    {es : List InvocationTransitionEvent} {s : Option InvocationState}
    → History es s
    → length es ≤ 7 + 4 * requeues es
length-History {s = s} h = omega (arith, length_le_depth h, depth_le s)

into_running :
    (e : InvocationTransitionEvent) (p : Option InvocationState)
    → is_legal e p running ≡ true
    → (e ≡ start) × (p ≡ some leased)
unfolding is_legal
into_running e p h = ground arith

into_succeeded :
    (e : InvocationTransitionEvent) (p : Option InvocationState)
    → is_legal e p succeeded ≡ true
    → (e ≡ complete_success) × (p ≡ some running)
unfolding is_legal
into_succeeded e p h = ground arith

into_leased :
    (e : InvocationTransitionEvent) (p : Option InvocationState)
    → is_legal e p leased ≡ true
    → (e ≡ lease) × (p ≡ some queued)
unfolding is_legal
into_leased e p h = ground arith

-- the last event of a history, and what stood before it
pub last_step :
    {es : List InvocationTransitionEvent} {s : InvocationState}
    → History es (some s)
    → (e : InvocationTransitionEvent) × (p : Option InvocationState) × (rest : List
        InvocationTransitionEvent)
      × (es ≡ e ∷ rest)
      × History rest p
      × (is_legal e p s ≡ true)
last_step (step {es = es} {p = p} e h legal) = (e, p, es, refl, h, legal)

-- from a history that ends in `s`, the one before, where only `e` from `q` leads to `s`
back :
    {es : List InvocationTransitionEvent} {s : InvocationState} (e : InvocationTransitionEvent)
    (q : InvocationState)
    → ((f : InvocationTransitionEvent) (p : Option InvocationState)
        → is_legal f p s ≡ true
        → (f ≡ e) × (p ≡ some q))
    → History es (some s)
    → (rest : List InvocationTransitionEvent) × (es ≡ e ∷ rest) × History rest (some q)
back e q only h =
    let (f, p, rest, same, before, legal) = last_step h in
    let (f_is, p_is) = only f p legal in (rest, rw (← f_is) same, rw (← p_is) before)

-- An invocation succeeds only by `lease`, `start` and `complete_success` in a row, out of the queue.
pub succeeded-History :
    {es : List InvocationTransitionEvent}
    → History es (some succeeded)
    → (rest : List InvocationTransitionEvent) × (es ≡ complete_success ∷ start ∷ lease ∷ rest)
      × History rest (some queued)
succeeded-History h =
    let (rest₁, e₁, h₁) = back complete_success running into_succeeded h in
    let (rest₂, e₂, h₂) = back start leased into_running h₁ in
    let (rest₃, e₃, h₃) = back lease queued into_leased h₂ in (rest₃, cc, h₃)
