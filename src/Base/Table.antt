-- ===== src/Base/Table.antt =====
-- Tables as lists of rows: selection by a key, update of the rows with a key, sums over rows.
pub mod Find
pub mod Modify
pub mod Keys
pub mod Least
pub mod Delete
use Prim.Native.Nat.{ℕ, ◌+◌, ◌≤◌}
use mathlib.Core.Path.{◌≡◌, refl, sym, ap, subst, ◌∙◌}
use mathlib.Core.Logic.{◌≢◌, ◌⊎◌, inl, inr}
use mathlib.Core.Bool.{Bool, true, false, not, ◌&&◌}
use mathlib.Core.Option
use mathlib.Core.Option.{Option, none, some, some-injective}
use mathlib.Core.List.{List, [], ◌∷◌}
use native.Mathlib.Omega.{arith}
use zhyvo.Base.Tests.{ltb, ◌==◌, if◌then◌else◌, ==_iff, Bool-cases}
use zhyvo.Base.Lists.{All, All-map, any}

module _ {ℓ} {A : Type ℓ} where
  -- `SELECT … WHERE p`, for a condition that at most one row meets.
  unfoldable pub find : (A → Bool) → List A → Option A
  find p [] = none
  find p (x ∷ xs) = if p x then some x else find p xs

  unfoldable pub find_key : (A → ℕ) → ℕ → List A → Option A
  find_key key k [] = none
  find_key key k (x ∷ xs) = if key x == k then some x else find_key key k xs

  -- `UPDATE … WHERE key = k`.
  unfoldable pub modify : (A → ℕ) → ℕ → (A → A) → List A → List A
  modify key k f [] = []
  modify key k f (x ∷ xs) = (if key x == k then f x else x) ∷ modify key k f xs

  -- `DELETE … WHERE p`.
  unfoldable pub delete : (A → Bool) → List A → List A
  delete p [] = []
  delete p (x ∷ xs) = let rest = delete p xs in if p x then rest else x ∷ rest

  -- `WHERE p ORDER BY rank LIMIT 1`.
  unfoldable pub least : (A → Bool) → (A → ℕ) → List A → Option A
  least p rank [] = none
  least p rank (x ∷ xs) = elim (least p rank xs) [
    | none ↦ if p x then some x else none
    | some y ↦ if p x && not (ltb (rank y) (rank x)) then some x else some y
  ]

  -- `sum(w)` over a table.
  unfoldable pub sum : (A → ℕ) → List A → ℕ
  sum w [] = 0
  sum w (x ∷ xs) = w x + sum w xs

  -- No two rows share a key: a primary key or a unique index.
  abbrev pub Distinct : (A → ℕ) → List A → Type ℓ
  Distinct key [] = Unit
  Distinct key (x ∷ xs) = All (λ y. key y ≢ key x) xs × Distinct key xs
