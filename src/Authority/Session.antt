-- ===== src/Authority/Session.antt =====
-- A database session inside one request of the Core: reads see the work of the open transaction, `commit`
-- publishes it, and a raised HTTPException ends the request and rolls the rest back.
pub mod Keeps
pub mod Steps
use superlily.Base.{ℕ, ◌≡◌, refl, Bool, true, false, Option, none, some, String}
use superlily.Authority.Rows.{Database}

pub data HttpException : Type 0 where
  not_found : HttpException
  conflict : String → HttpException
  runtime_error : HttpException

pub data Result (A : Type 0) : Type 0 where
  ok : A → Result A
  raised : HttpException → Result A

-- `now` is what `database_now` reads: the clock of the current transaction.
pub record Session : Type 0 where
  pub committed : Database
  pub working : Database
  pub now : ℕ

abbrev pub Tx : Type 0 → Type 0
Tx A = Session → Result A × Session

abbrev pub and_then : {A B : Type 0} → Result A → (A → Tx B) → Tx B
and_then (ok a) f s = f a s
and_then (raised e) f s = (raised e, s)

infixl 10 ◌>>=◌ ◌>>◌
unfoldable pub ◌>>=◌ : {A B : Type 0} → Tx A → (A → Tx B) → Tx B
◌>>=◌ m f s = let (r, t) = m s in and_then r f t

abbrev pub ◌>>◌ : {A B : Type 0} → Tx A → Tx B → Tx B
m >> n = m >>= λ _. n

unfoldable pub pure : {A : Type 0} → A → Tx A
pure a s = (ok a, s)

unfoldable pub raise : {A : Type 0} → HttpException → Tx A
raise e s = (raised e, s)

-- session.scalar(select(…))
unfoldable pub query : {A : Type 0} → (Database → A) → Tx A
query f s = (ok (f s.working), s)

-- session.add(…), session.execute(update(…)), or a field of a loaded row set
unfoldable pub modify : (Database → Database) → Tx (Unit {0})
modify f s = (ok tt, record s { working = f s.working })

unfoldable pub database_now : Tx ℕ
database_now s = (ok s.now, s)

unfoldable pub commit : Tx (Unit {0})
commit s = (ok tt, record s { committed = s.working })

-- if not test: raise e
unfoldable pub require : Bool → HttpException → Tx (Unit {0})
require true e s = (ok tt, s)
require false e s = (raised e, s)

-- a loaded row, or the exception of its absence
unfoldable pub or_raise : {A : Type 0} → Option A → HttpException → Tx A
or_raise none e s = (raised e, s)
or_raise (some a) e s = (ok a, s)

-- One request at one time: the work that no commit published is lost.
unfoldable pub run : {A : Type 0} → ℕ → Tx A → Database → Result A × Database
run now m db =
    let (r, s) = m (record { committed = db; working = db; now = now }) in (r, s.committed)

-- session.rollback()
unfoldable pub rollback : Tx (Unit {0})
rollback s = (ok tt, record s { working = s.committed })
