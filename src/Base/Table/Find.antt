-- ===== src/Base/Table/Find.antt =====
-- What a selected row satisfies.
use Prim.Native.Nat.{ℕ}
use mathlib.Core.Path.{◌≡◌, refl, subst}
use mathlib.Core.Logic.{◌≢◌, inl, inr}
use mathlib.Core.Bool.{Bool, true, false}
use mathlib.Core.Option.{some, some-injective}
use mathlib.Core.List.{List, [], ◌∷◌}
use native.Mathlib.Omega.{arith}
use zhyvo.Base.Tests.{◌==◌, ==_iff, Bool-cases}
use zhyvo.Base.Lists.{All, any}
use zhyvo.Base.Table.{find, find_key, Distinct}

-- What a found row has: it is a row of the table, and it meets the test.
module _ {ℓ κ} {A : Type ℓ} (P : A → Type κ) where
  carry : {x a : A} → some x ≡ some a → P x → P a
  carry {x} {a} e h = subst P (some-injective x a e) h

  pub find-All : (p : A → Bool) (xs : List A) {a : A} → All P xs → find p xs ≡ some a → P a
  unfolding find
  find-All p [] h e = cc
  find-All p (x ∷ xs) h e = elim (Bool-cases (p x)) [
    | inl t ↦ carry (rw (t, find) at e) h.0
    | inr f ↦ find-All p xs h.1 (rw (f, find) at e)
  ]

  pub find_key-All :
      (key : A → ℕ) (k : ℕ) (xs : List A) {a : A} → All P xs → find_key key k xs ≡ some a → P a
  unfolding find_key
  find_key-All key k [] h e = cc
  find_key-All key k (x ∷ xs) h e = elim (Bool-cases (key x == k)) [
    | inl t ↦ carry (rw (t, find_key) at e) h.0
    | inr f ↦ find_key-All key k xs h.1 (rw (f, find_key) at e)
  ]

module _ {ℓ} {A : Type ℓ} where
  pub find_key-key :
      (key : A → ℕ) (k : ℕ) (xs : List A) {a : A} → find_key key k xs ≡ some a → key a ≡ k
  unfolding find_key
  find_key-key key k [] e = cc
  find_key-key key k (x ∷ xs) {a} e = ground (arith, find_key-key key k xs {a = a})

  pub find-test : (p : A → Bool) (xs : List A) {a : A} → find p xs ≡ some a → p a ≡ true
  unfolding find
  find-test p [] e = cc
  find-test p (x ∷ xs) {a} e = ground (arith, find-test p xs {a = a})

  -- Insertion after the check of a unique index keeps the index.
  pub Distinct-cons :
      (key : A → ℕ) (x : A) (xs : List A)
      → any (λ y. key y == key x) xs ≡ false
      → All (λ y. key y ≢ key x) xs
  Distinct-cons key x [] h = tt
  Distinct-cons key x (y ∷ xs) h = (ground arith, Distinct-cons key x xs (ground arith))

module _ {ℓ} {A : Type ℓ} (key : A → ℕ) where
  -- A row found by any condition is the one that its key finds.
  pub find-find_key :
      (p : A → Bool) (xs : List A) (a : A)
      → Distinct key xs
      → find p xs ≡ some a
      → find_key key (key a) xs ≡ some a
  unfolding find find_key
  find-find_key p [] a d e = cc
  find-find_key p (x ∷ xs) a d e = elim (Bool-cases (p x)) [
    | inl t ↦
        let same : x ≡ a = some-injective x a (rw (t, find) at e) in
        rw same (rw ((==_iff (key a) (key a)).1 refl) refl)
    | inr n ↦
        let rest = rw (n, find) at e in
        let away = find-All (λ y. key y ≢ key x) p xs d.0 rest in
        ground (arith, find-find_key p xs a d.1 rest)
  ]
