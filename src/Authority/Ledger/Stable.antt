-- ===== src/Authority/Ledger/Stable.antt =====
-- What every writer of invocations keeps. The services change an invocation only by
-- `append_invocation_transition`, so a property that survives one legal transition, and that reads nothing
-- but the invocations and their ledger, survives each service: its proof is a search with these rules. A
-- property that reads the attempts too is gentle: it survives each part of a service that writes none.
use superlily.Base.{
  ℕ, ◌≡◌, Bool, true, Option, none, some, String, Bool-cases, Option-cases, inl, inr, arith,
  if◌then◌else◌,
}
use superlily.Base.Table.{key-find}
use superlily.Invocation.{InvocationState, InvocationTransitionEvent, is_legal}
use superlily.Authority.Rows.{ToolInvocation, Database}
use superlily.Authority.Session.{
  not_found, Session, ◌>>=◌, ◌>>◌, pure, query, modify, database_now, commit, require, or_raise,
}
use superlily.Authority.Session.Keeps.{Keeps, Keeps-modify, keeps_rules}
use superlily.Authority.Ledger.{
  invocation_id, find_invocation, matches_row, advance, transition, store_transition,
  append_invocation_transition,
}

pub record Gentle (P : Database → Type 0) : Type 0 where
  pub beside :
      (db db' : Database)
      → db'.invocations ≡ db.invocations
      → db'.transitions ≡ db.transitions
      → db'.attempts ≡ db.attempts
      → P db
      → P db'
  pub stored :
      (db : Database) (i : ToolInvocation) (event : InvocationTransitionEvent)
      (state : InvocationState) (actor_type actor_id reason_code : String) (deadline_at : Option ℕ)
      (now : ℕ)
      → find_invocation i.id db ≡ some i
      → is_legal event (some i.state) state ≡ true
      → P db
      → P (
          store_transition
            (advance i state reason_code deadline_at now)
            (transition i event state actor_type actor_id reason_code now)
            db)

pub record Stable (P : Database → Type 0) : Type 0 where
  pub untouched :
      (db db' : Database)
      → db'.invocations ≡ db.invocations
      → db'.transitions ≡ db.transitions
      → P db
      → P db'
  pub stored :
      (db : Database) (i : ToolInvocation) (event : InvocationTransitionEvent)
      (state : InvocationState) (actor_type actor_id reason_code : String) (deadline_at : Option ℕ)
      (now : ℕ)
      → find_invocation i.id db ≡ some i
      → is_legal event (some i.state) state ≡ true
      → P db
      → P (
          store_transition
            (advance i state reason_code deadline_at now)
            (transition i event state actor_type actor_id reason_code now)
            db)

pub Stable-Gentle : {P : Database → Type 0} → Stable P → Gentle P
Stable-Gentle stable = record {
  beside = λ db db' e f _ p. stable.untouched db db' e f p;
  stored = stable.stored;
}

-- the row found under an id has that id, so it is found under its own
pub find_own :
    (id : String) (db : Database) (i : ToolInvocation)
    → find_invocation id db ≡ some i
    → find_invocation i.id db ≡ some i
unfolding find_invocation
find_own id db i h = ground (arith, key-find invocation_id id db.invocations i h)

pub matches_own : (i : ToolInvocation) → matches_row i (some i) ≡ true
unfolding matches_row
matches_own i = ground arith

reload-Keeps :
    {P : Database → Type 0} (id : String) (commits : Bool)
    → Keeps P (
        (if commits then commit else pure tt)
        >> (query (find_invocation id) >>= λ refreshed. or_raise refreshed not_found))
reload-Keeps id commits = search keeps_rules

module _ {P : Database → Type 0} (gentle : Gentle P) where
  append-at :
      (id : String) (event : InvocationTransitionEvent) (state : InvocationState)
      (actor_type actor_id reason_code : String) (deadline_at : Option ℕ) (commits : Bool)
      (s : Session) (i : ToolInvocation)
      → find_invocation id s.working ≡ some i
      → P s.committed
      → P s.working
      → (let t =
            (append_invocation_transition id event state actor_type actor_id reason_code deadline_at
              commits s).1 in
          P t.committed × P t.working)
  unfolding append_invocation_transition ◌>>=◌ pure query modify database_now commit require
      or_raise
  append-at id event state actor_type actor_id reason_code deadline_at commits s i found c w =
      rw (found, or_raise)
        elim (Bool-cases (is_legal event (some i.state) state)) [
          | inr illegal ↦ rw (illegal, require) (c, w)
          | inl legal ↦
              rw (legal, require)
                (rw (found, matches_own i, require)
                  ((reload-Keeps {P = P} id commits).at
                    (record s {
                      working =
                          store_transition (advance i state reason_code deadline_at s.now)
                            (transition i event state actor_type actor_id reason_code s.now)
                            s.working;
                    })
                    c
                    (gentle.stored s.working i event state actor_type actor_id reason_code
                      deadline_at s.now (find_own id s.working i found) legal w)))
        ]

  absent-at :
      (id : String) (event : InvocationTransitionEvent) (state : InvocationState)
      (actor_type actor_id reason_code : String) (deadline_at : Option ℕ) (commits : Bool)
      (s : Session)
      → find_invocation id s.working ≡ none
      → P s.committed
      → P s.working
      → (let t =
            (append_invocation_transition id event state actor_type actor_id reason_code deadline_at
              commits s).1 in
          P t.committed × P t.working)
  unfolding append_invocation_transition ◌>>=◌ query or_raise
  absent-at id event state actor_type actor_id reason_code deadline_at commits s absent c w =
      rw (absent, or_raise) (c, w)

  -- The append keeps what one legal transition keeps, also where it raises a conflict.
  pub append-Keeps :
      (id : String) (event : InvocationTransitionEvent) (state : InvocationState)
      (actor_type actor_id reason_code : String) (deadline_at : Option ℕ) (commits : Bool)
      → Keeps P (
          append_invocation_transition id event state actor_type actor_id reason_code deadline_at
            commits)
  append-Keeps id event state actor_type actor_id reason_code deadline_at commits = record {
    at = λ s c w. elim (Option-cases (find_invocation id s.working)) [
      | inl none_found ↦
          absent-at id event state actor_type actor_id reason_code deadline_at commits s none_found
            c w
      | inr (i, found) ↦
          append-at id event state actor_type actor_id reason_code deadline_at commits s i found c w
    ];
  }

  -- a write that touches neither of the three tables
  pub beside-Keeps :
      (f : Database → Database)
      → ((db : Database)
          → ((f db).invocations ≡ db.invocations)
            × ((f db).transitions ≡ db.transitions)
            × ((f db).attempts ≡ db.attempts))
      → Keeps P (modify f)
  beside-Keeps f same =
      Keeps-modify f (λ db p. gentle.beside db (f db) (same db).0 (same db).1 (same db).2 p)

module _ {P : Database → Type 0} (stable : Stable P) where
  -- a write that touches neither the invocations nor their ledger
  pub aside-Keeps :
      (f : Database → Database)
      → ((db : Database)
          → ((f db).invocations ≡ db.invocations) × ((f db).transitions ≡ db.transitions))
      → Keeps P (modify f)
  aside-Keeps f same = Keeps-modify f (λ db p. stable.untouched db (f db) (same db).0 (same db).1 p)
