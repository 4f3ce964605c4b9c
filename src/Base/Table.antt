-- ===== src/Base/Table.antt =====
-- A database table as the list of its rows, read and written by primary key.
use Prim.Native.String.{String}
use mathlib.Core.Path.{◌≡◌, refl}
use mathlib.Core.Bool.{false}
use mathlib.Core.Option.{Option, none, some}
use mathlib.Core.List.{List, [], ◌∷◌}
use native.Mathlib.Omega.{arith}
use text.Mathlib.Text.{◌==◌}
use text.Mathlib.TextEquality.{eq_iff}
use superlily.Base.Tests.{if◌then◌else◌}

module _ {ℓ} {A : Type ℓ} (key : A → String) where
  -- SELECT … WHERE id = k
  unfoldable pub find : String → List A → Option A
  find k [] = none
  find k (r ∷ rows) = if key r == k then some r else find k rows

  -- UPDATE … WHERE id = key(row): the row of that key becomes `row`
  unfoldable pub replace : A → List A → List A
  replace row [] = []
  replace row (r ∷ rows) = if key r == key row then row ∷ rows else r ∷ replace row rows

  -- what is found under its key has that key
  pub key-find : (k : String) (rows : List A) (r : A) → find k rows ≡ some r → key r ≡ k
  unfolding find
  key-find k [] r h = ground arith
  key-find k (x ∷ rows) r h = ground (arith, eq_iff (key x) k, key-find k rows r)

  pub find-replace_other :
      (k : String) (row : A) (rows : List A)
      → (key row == k) ≡ false
      → find k (replace row rows) ≡ find k rows
  unfolding find replace
  find-replace_other k row [] h = refl
  find-replace_other k row (x ∷ rows) h = ground (
    arith,
    eq_iff (key x) k,
    eq_iff (key x) (key row),
    eq_iff (key row) k,
    find-replace_other k row rows,
  )

  pub find-replace_self :
      (k : String) (row : A) (rows : List A) (old : A)
      → key row ≡ k
      → find k rows ≡ some old
      → find k (replace row rows) ≡ some row
  unfolding find replace
  find-replace_self k row [] old e h = ground arith
  find-replace_self k row (x ∷ rows) old e h = ground (
    arith,
    eq_iff (key x) k,
    eq_iff (key x) (key row),
    eq_iff (key row) k,
    find-replace_self k row rows old,
  )
