-- ===== src/Authority/Session/Steps.antt =====
-- The first step of a transaction, where it returns and where it raises.
use superlily.Base.{ℕ, ◌≡◌}
use superlily.Authority.Rows.{Database}
use superlily.Authority.Session.{HttpException, ok, raised, Session, Tx, ◌>>=◌}

-- a transaction that raised ends there
pub bind-raised :
    {A B : Type 0} (m : Tx A) (f : A → Tx B) (s t : Session) (e : HttpException)
    → m s ≡ (raised e, t)
    → (m >>= f) s ≡ (raised e, t)
unfolding ◌>>=◌
bind-raised m f s t e h = rw h

pub bind-ok :
    {A B : Type 0} (m : Tx A) (f : A → Tx B) (s t : Session) (a : A)
    → m s ≡ (ok a, t)
    → (m >>= f) s ≡ f a t
unfolding ◌>>=◌
bind-ok m f s t a h = rw h

-- a session at the start of a request
abbrev pub opened : ℕ → Database → Session
opened now db = record { committed = db; working = db; now = now }
