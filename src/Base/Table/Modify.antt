-- ===== src/Base/Table/Modify.antt =====
-- Rows under an update: predicates, keys, sums and selection.
use Prim.Native.Nat.{ℕ, ◌+◌}
use mathlib.Core.Path.{◌≡◌, refl, sym, ◌∙◌}
use mathlib.Core.Logic.{◌≢◌, inl, inr}
use mathlib.Core.Bool.{Bool}
use mathlib.Core.Option
use mathlib.Core.Option.{Option, none, some, some-injective}
use mathlib.Core.List.{List, [], ◌∷◌}
use native.Mathlib.Omega.{arith}
use zhyvo.Base.Tests.{◌==◌, if◌then◌else◌, ==_iff, Bool-cases}
use zhyvo.Base.Lists.{All, All-map, any}
use zhyvo.Base.Table.{find_key, modify, sum, Distinct}

module _ {ℓ κ} {A : Type ℓ} {P Q : A → Type κ} where
  -- Rows with the key go from `P` to `Q` by the update, the others stay and go from `P` to `Q`.
  pub All-modify :
      (key : A → ℕ) (k : ℕ) (f : A → A) (xs : List A)
      → ((a : A) → key a ≡ k → P a → Q (f a))
      → ((a : A) → key a ≢ k → P a → Q a)
      → All P xs
      → All Q (modify key k f xs)
  unfolding modify
  All-modify key k f [] hit miss h = tt
  All-modify key k f (x ∷ xs) hit miss h = (
    elim (Bool-cases (key x == k)) [
      | inl t ↦ rw t (hit x ((==_iff _ _).0 t) h.0)
      | inr e ↦ rw e (miss x (λ q. cc ((==_iff (key x) k).1 q)) h.0)
    ],
    All-modify key k f xs hit miss h.1,
  )

module _ {ℓ} {A : Type ℓ} (key : A → ℕ) (k : ℕ) (f : A → A) where
  -- An update that leaves another key alone keeps that key's index.
  pub Distinct-modify :
      (key' : A → ℕ) (xs : List A)
      → ((a : A) → key' (f a) ≡ key' a)
      → Distinct key' xs
      → Distinct key' (modify key k f xs)
  unfolding modify
  Distinct-modify key' [] fixed h = tt
  Distinct-modify key' (x ∷ xs) fixed h = (
    All-modify key k f xs (λ a _ n e. n (sym (fixed a) ∙ e ∙ same)) (λ a _ n e. n (e ∙ same)) h.0,
    Distinct-modify key' xs fixed h.1,
  )
    where
      same : key' (if key x == k then f x else x) ≡ key' x
      same = ground (arith, fixed x)

  pub any-modify :
      (p : A → Bool) (xs : List A)
      → ((a : A) → p (f a) ≡ p a)
      → any p (modify key k f xs) ≡ any p xs
  unfolding modify
  any-modify p [] fixed = refl
  any-modify p (x ∷ xs) fixed = ground (arith, fixed x, any-modify p xs fixed)

  pub sum-modify_same :
      (w : A → ℕ) (xs : List A) → ((a : A) → w (f a) ≡ w a) → sum w (modify key k f xs) ≡ sum w xs
  unfolding modify sum
  sum-modify_same w [] fixed = refl
  sum-modify_same w (x ∷ xs) fixed = ground (arith, fixed x, sum-modify_same w xs fixed)

  -- The key of no row: nothing is updated.
  pub modify_absent : (xs : List A) → All (λ y. key y ≢ k) xs → modify key k f xs ≡ xs
  unfolding modify
  modify_absent [] h = refl
  modify_absent (x ∷ xs) h = ground (arith, modify_absent xs h.1)

  -- One row is updated: the sum changes by what that row weighs.
  pub sum-modify :
      (w : A → ℕ) (xs : List A) (a : A)
      → Distinct key xs
      → find_key key k xs ≡ some a
      → sum w (modify key k f xs) + w a ≡ sum w xs + w (f a)
  unfolding modify sum find_key
  sum-modify w [] a d e = cc
  sum-modify w (x ∷ xs) a d e = elim (Bool-cases (key x == k)) [
    | inl t ↦
        let same : x ≡ a = some-injective x a (rw (t, find_key) at e) in
        let rest : modify key k f xs ≡ xs =
          modify_absent xs (All-map xs (λ y n q. n (q ∙ sym ((==_iff _ _).0 t))) d.0) in
        rw (t, rest, same) (omega arith)
    | inr n ↦ rw n (omega (arith, sum-modify w xs a d.1 (rw (n, find_key) at e)))
  ]

  -- What a later read by the same kind of key returns.
  pub find_key-modify :
      (j : ℕ) (xs : List A)
      → ((a : A) → key (f a) ≡ key a)
      → find_key key j (modify key k f xs)
        ≡ (if j == k then Option.map f (find_key key j xs) else find_key key j xs)
  unfolding modify find_key
  find_key-modify j [] fixed = ground arith
  find_key-modify j (x ∷ xs) fixed = ground (arith, fixed x, find_key-modify j xs fixed)
