-- ===== src/Base/Table/Keys.antt =====
-- A row among rows with distinct keys.
use Prim.Native.Nat.{ℕ, ◌≤◌}
use mathlib.Core.Path.{◌≡◌, sym, ap, ◌∙◌}
use mathlib.Core.Logic.{◌≢◌, inl, inr}
use mathlib.Core.Option.{some, some-injective}
use mathlib.Core.List.{List, [], ◌∷◌}
use native.Mathlib.Omega.{arith}
use zhyvo.Base.Tests.{◌==◌, ==_iff, Bool-cases}
use zhyvo.Base.Lists.{All, All-map}
use zhyvo.Base.Table.{find_key, sum, Distinct}
use zhyvo.Base.Table.Find.{find_key-All}

module _ {ℓ} {A : Type ℓ} (key : A → ℕ) (k : ℕ) where
  -- A row of the table is part of each sum.
  pub le-sum : (w : A → ℕ) (xs : List A) (a : A) → find_key key k xs ≡ some a → w a ≤ sum w xs
  unfolding sum find_key
  le-sum w [] a e = cc
  le-sum w (x ∷ xs) a e = elim (Bool-cases (key x == k)) [
    | inl t ↦ rw (← some-injective x a (rw (t, find_key) at e)) (omega arith)
    | inr n ↦ omega (arith, le-sum w xs a (rw (n, find_key) at e))
  ]

-- Two rows with one value in a unique column are one row, so they agree in every other column.
module _ {ℓ} {A : Type ℓ} (key other : A → ℕ) (k : ℕ) where
  pub Distinct-others :
      (xs : List A) (a : A)
      → Distinct other xs
      → find_key key k xs ≡ some a
      → All (λ y. (key y ≢ k) → other y ≢ other a) xs
  unfolding find_key
  Distinct-others [] a d e = tt
  Distinct-others (x ∷ xs) a d e = elim (Bool-cases (key x == k)) [
    | inl t ↦
        let same : x ≡ a = some-injective x a (rw (t, find_key) at e) in
        (
          λ n. absurd (n ((==_iff _ _).0 t)),
          All-map xs (λ y n _ q. n (q ∙ sym (ap other same))) d.0,
        )
    | inr n ↦ (
      λ _ q. find_key-All (λ y. other y ≢ other x) key k xs d.0 (rw (n, find_key) at e) (sym q),
      Distinct-others xs a d.1 (rw (n, find_key) at e),
    )
  ]

module _ {ℓ} {A : Type ℓ} (key : A → ℕ) (k : ℕ) where
  -- By a unique key at most one row is found.
  pub Distinct-same :
      (xs : List A) (a : A)
      → Distinct key xs
      → find_key key k xs ≡ some a
      → All (λ y. key y ≡ k → y ≡ a) xs
  unfolding find_key
  Distinct-same [] a d e = tt
  Distinct-same (x ∷ xs) a d e = elim (Bool-cases (key x == k)) [
    | inl t ↦ (
      λ _. some-injective x a (rw (t, find_key) at e),
      All-map xs (λ y n q. absurd (n (q ∙ sym ((==_iff _ _).0 t)))) d.0,
    )
    | inr n ↦ (λ q. cc ((==_iff (key x) k).1 q), Distinct-same xs a d.1 (rw (n, find_key) at e))
  ]
