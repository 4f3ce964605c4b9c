-- ===== src/Authority/Session/Keeps.antt =====
-- Invariants of a session, one rule for each way to build a transaction.
use superlily.Base.{ℕ, ◌≡◌, refl, Bool, true, false, Option, none, some, if◌then◌else◌}
use superlily.Authority.Rows.{Database}
use superlily.Authority.Session.{
  HttpException, Result, ok, raised, Session, Tx, and_then, ◌>>=◌, pure, raise, query, modify,
  database_now, commit, rollback, require, or_raise, run,
}

-- `m` keeps `P` of the committed and of the working database, whether it returns or raises.
pub record Keeps {A : Type 0} (P : Database → Type 0) (m : Tx A) : Type 0 where
  pub at : (s : Session) → P s.committed → P s.working → P (m s).1.committed × P (m s).1.working

module _ {P : Database → Type 0} {A : Type 0} where
  pub Keeps-pure : (a : A) → Keeps P (pure a)
  unfolding pure
  Keeps-pure a = record { at = λ s c w. (c, w) }

  pub Keeps-raise : (e : HttpException) → Keeps P (raise {A = A} e)
  unfolding raise
  Keeps-raise e = record { at = λ s c w. (c, w) }

  pub Keeps-query : (f : Database → A) → Keeps P (query f)
  unfolding query
  Keeps-query f = record { at = λ s c w. (c, w) }

  pub Keeps-or_raise : (o : Option A) (e : HttpException) → Keeps P (or_raise o e)
  unfolding or_raise
  Keeps-or_raise none e = record { at = λ s c w. (c, w) }
  Keeps-or_raise (some a) e = record { at = λ s c w. (c, w) }

  pub Keeps-if : (b : Bool) (m n : Tx A) → Keeps P m → Keeps P n → Keeps P (if b then m else n)
  Keeps-if true m n km kn = km
  Keeps-if false m n km kn = kn

module _ {P : Database → Type 0} where
  pub Keeps-database_now : Keeps P database_now
  unfolding database_now
  Keeps-database_now = record { at = λ s c w. (c, w) }

  pub Keeps-commit : Keeps P commit
  unfolding commit
  Keeps-commit = record { at = λ s c w. (w, w) }

  pub Keeps-rollback : Keeps P rollback
  unfolding rollback
  Keeps-rollback = record { at = λ s c w. (c, c) }

  pub Keeps-require : (b : Bool) (e : HttpException) → Keeps P (require b e)
  unfolding require
  Keeps-require true e = record { at = λ s c w. (c, w) }
  Keeps-require false e = record { at = λ s c w. (c, w) }

  pub Keeps-modify :
      (f : Database → Database) → ((db : Database) → P db → P (f db)) → Keeps P (modify f)
  unfolding modify
  Keeps-modify f h = record { at = λ s c w. (c, h s.working w) }

module _ {P : Database → Type 0} {A B : Type 0} where
  continue-Keeps :
      (r : Result A) (f : A → Tx B)
      → ((a : A) → r ≡ ok a → Keeps P (f a))
      → Keeps P (λ s. and_then r f s)
  continue-Keeps (ok a) f k = record { at = λ s c w. (k a refl).at s c w }
  continue-Keeps (raised e) f k = record { at = λ s c w. (c, w) }

  pub Keeps-bind :
      (m : Tx A) (f : A → Tx B) → Keeps P m → ((a : A) → Keeps P (f a)) → Keeps P (m >>= f)
  unfolding ◌>>=◌
  Keeps-bind m f km kf = record {
    at = λ s c w.
        let (r, t) = m s in
        let both : P t.committed × P t.working = km.at s c w in
        (continue-Keeps r f (λ a _. kf a)).at t both.0 both.1;
  }

-- A request that keeps `P` leaves a database with `P`.
pub run-Keeps :
    {P : Database → Type 0} {A : Type 0} (now : ℕ) (m : Tx A) (db : Database)
    → Keeps P m
    → P db
    → P (run now m db).1
unfolding run
run-Keeps now m db k p = (k.at (record { committed = db; working = db; now = now }) p p).0

pub ruleset keeps_rules = (
  Keeps-pure, Keeps-raise, Keeps-query, Keeps-or_raise, Keeps-if, Keeps-database_now, Keeps-commit,
  Keeps-rollback, Keeps-require, Keeps-bind,
)
