-- ===== src/Base/Table/Least.antt =====
-- The first row in an order.
use Prim.Native.Nat.{ℕ}
use mathlib.Core.Path.{◌≡◌, refl, subst}
use mathlib.Core.Logic.{◌≢◌, ◌⊎◌, inl, inr}
use mathlib.Core.Bool.{Bool, true, false}
use mathlib.Core.Option.{none, some}
use mathlib.Core.List.{List, [], ◌∷◌}
use native.Mathlib.Omega.{arith}
use zhyvo.Base.Tests.{==_iff}
use zhyvo.Base.Lists.{All, any}
use zhyvo.Base.Table.{find_key, least, Distinct}

module _ {ℓ} {A : Type ℓ} where
  pub least-test :
      (p : A → Bool) (rank : A → ℕ) (xs : List A) (a : A) → least p rank xs ≡ some a → p a ≡ true
  unfolding least
  least-test p rank [] a e = cc
  least-test p rank (x ∷ xs) a e = ground (arith, least-test p rank xs a)

  least-cases :
      (p : A → Bool) (rank : A → ℕ) (x : A) (xs : List A) (a : A)
      → least p rank (x ∷ xs) ≡ some a
      → (x ≡ a) ⊎ (least p rank xs ≡ some a)
  unfolding least
  least-cases p rank x xs a e = ground arith

  -- A row that is found by rank is a row of the table.
  pub least-All {κ} :
      (P : A → Type κ) (p : A → Bool) (rank : A → ℕ) (xs : List A) (a : A)
      → All P xs
      → least p rank xs ≡ some a
      → P a
  unfolding least
  least-All P p rank [] a h e = cc
  least-All P p rank (x ∷ xs) a h e = elim (least-cases p rank x xs a e) [
    | inl same ↦ subst P same h.0
    | inr rest ↦ least-All P p rank xs a h.1 rest
  ]

  pub least-find_key :
      (key : A → ℕ) (p : A → Bool) (rank : A → ℕ) (xs : List A) (a : A)
      → Distinct key xs
      → least p rank xs ≡ some a
      → find_key key (key a) xs ≡ some a
  unfolding least find_key
  least-find_key key p rank [] a d e = cc
  least-find_key key p rank (x ∷ xs) a d e = elim (least-cases p rank x xs a e) [
    | inl same ↦ rw same (rw ((==_iff (key a) (key a)).1 refl) refl)
    | inr rest ↦
        let away = least-All (λ y. key y ≢ key x) p rank xs a d.0 rest in
        ground (arith, least-find_key key p rank xs a d.1 rest)
  ]

  -- Nothing is found only if no row qualifies.
  pub least-none :
      (p : A → Bool) (rank : A → ℕ) (xs : List A) → least p rank xs ≡ none → any p xs ≡ false
  unfolding least
  least-none p rank [] e = refl
  least-none p rank (x ∷ xs) e = ground (arith, least-none p rank xs)
