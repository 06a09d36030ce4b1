-- ===== src/Base/Table/Delete.antt =====
-- The rows that a deletion leaves.
use Prim.Native.Nat.{ℕ}
use mathlib.Core.Path.{◌≡◌, refl, subst}
use mathlib.Core.Logic.{◌≢◌, inl, inr}
use mathlib.Core.Bool.{Bool, true, false}
use mathlib.Core.Option.{some, some-injective}
use mathlib.Core.List.{List, [], ◌∷◌}
use native.Mathlib.Omega.{arith}
use zhyvo.Base.Tests.{◌==◌, Bool-cases}
use zhyvo.Base.Lists.{All}
use zhyvo.Base.Table.{find_key, delete, sum, Distinct}

module _ {ℓ} {A : Type ℓ} (p : A → Bool) where
  pub All-delete {κ} : (P : A → Type κ) (xs : List A) → All P xs → All P (delete p xs)
  unfolding delete
  All-delete P [] h = tt
  All-delete P (x ∷ xs) h = elim (Bool-cases (p x)) [
    | inl t ↦ rw t (All-delete P xs h.1)
    | inr n ↦ rw n (h.0, All-delete P xs h.1)
  ]

  -- What is left does not meet the condition of the deletion.
  pub delete_rest : (xs : List A) → All (λ x. p x ≡ false) (delete p xs)
  unfolding delete
  delete_rest [] = tt
  delete_rest (x ∷ xs) = elim (Bool-cases (p x)) [
    | inl t ↦ rw t (delete_rest xs)
    | inr n ↦ rw n (n, delete_rest xs)
  ]

  pub Distinct-delete : (key : A → ℕ) (xs : List A) → Distinct key xs → Distinct key (delete p xs)
  unfolding delete
  Distinct-delete key [] d = tt
  Distinct-delete key (x ∷ xs) d = elim (Bool-cases (p x)) [
    | inl t ↦ rw t (Distinct-delete key xs d.1)
    | inr n ↦ rw n (All-delete (λ y. key y ≢ key x) xs d.0, Distinct-delete key xs d.1)
  ]

  -- Rows that weigh nothing do not show in the sum.
  pub sum-delete :
      (w : A → ℕ) (xs : List A) → ((x : A) → p x ≡ true → w x ≡ 0) → sum w (delete p xs) ≡ sum w xs
  unfolding delete sum
  sum-delete w [] light = refl
  sum-delete w (x ∷ xs) light = elim (Bool-cases (p x)) [
    | inl t ↦ rw t (omega (arith, sum-delete w xs light, light x t))
    | inr n ↦ rw n (omega (arith, sum-delete w xs light))
  ]

  pub find_key-delete :
      (key : A → ℕ) (k : ℕ) (xs : List A) (a : A)
      → find_key key k xs ≡ some a
      → p a ≡ false
      → find_key key k (delete p xs) ≡ some a
  unfolding delete find_key
  find_key-delete key k [] a e n = cc
  find_key-delete key k (x ∷ xs) a e n = elim (Bool-cases (key x == k)) [
    | inl t ↦
        let same : x ≡ a = some-injective x a (rw (t, find_key) at e) in
        rw (same, n) (rw (subst (λ y. (key y == k) ≡ true) same t) refl)
    | inr m ↦ ground (arith, find_key-delete key k xs a)
  ]
