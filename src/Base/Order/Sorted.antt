-- ===== src/Base/Order/Sorted.antt =====
-- A strict order on rows with distinct keys: the ordered list, and the part of it behind a row.
use Prim.Native.Nat.{ℕ}
use mathlib.Core.Path.{◌≡◌, refl, sym, ◌∙◌}
use mathlib.Core.Logic.{◌≢◌, inl, inr}
use mathlib.Core.Bool.{Bool, true, false, ◌&&◌}
use mathlib.Core.List.{List, [], ◌∷◌, ◌++◌}
use native.Mathlib.Omega.{arith}
use zhyvo.Base.Tests.{if◌then◌else◌, Bool-cases}
use zhyvo.Base.Lists.{All, All-map}
use zhyvo.Base.Table.{Distinct}
use zhyvo.Base.Order.{filter, insert_by, order_by}

module _ {ℓ κ} {A : Type ℓ} (P : A → Type κ) where
  pub All-filter : (p : A → Bool) (xs : List A) → All P xs → All P (filter p xs)
  unfolding filter
  All-filter p [] h = tt
  All-filter p (x ∷ xs) h = elim (Bool-cases (p x)) [
    | inl t ↦ rw t (h.0, All-filter p xs h.1)
    | inr e ↦ rw e (All-filter p xs h.1)
  ]

  All-insert_by :
      (before : A → A → Bool) (x : A) (ys : List A) → P x → All P ys → All P (insert_by before x ys)
  unfolding insert_by
  All-insert_by before x [] p h = (p, tt)
  All-insert_by before x (y ∷ ys) p h = elim (Bool-cases (before y x)) [
    | inl t ↦ rw t (h.0, All-insert_by before x ys p h.1)
    | inr e ↦ rw e (p, h)
  ]

  pub All-order_by : (before : A → A → Bool) (xs : List A) → All P xs → All P (order_by before xs)
  unfolding order_by
  All-order_by before [] h = tt
  All-order_by before (x ∷ xs) h =
      All-insert_by before x (order_by before xs) h.0 (All-order_by before xs h.1)

pub filter-test {ℓ} :
    {A : Type ℓ} (p : A → Bool) (xs : List A) → All (λ x. p x ≡ true) (filter p xs)
unfolding filter
filter-test p [] = tt
filter-test p (x ∷ xs) = elim (Bool-cases (p x)) [
  | inl t ↦ rw t (t, filter-test p xs)
  | inr e ↦ rw e (filter-test p xs)
]

pub All-at {ℓ κ} :
    {A : Type ℓ} (P : A → Type κ) (pre : List A) (x : A) (post : List A)
    → All P (pre ++ (x ∷ post))
    → P x
All-at P [] x post h = h.0
All-at P (y ∷ pre) x post h = All-at P pre x post h.1

pub Distinct-filter {ℓ} :
    {A : Type ℓ} (key : A → ℕ) (p : A → Bool) (xs : List A)
    → Distinct key xs
    → Distinct key (filter p xs)
unfolding filter
Distinct-filter key p [] h = tt
Distinct-filter key p (x ∷ xs) h = elim (Bool-cases (p x)) [
  | inl t ↦ rw t (All-filter (λ y. key y ≢ key x) p xs h.0, Distinct-filter key p xs h.1)
  | inr e ↦ rw e (Distinct-filter key p xs h.1)
]

pub filter-filter {ℓ} :
    {A : Type ℓ} (p q : A → Bool) (xs : List A)
    → filter q (filter p xs) ≡ filter (λ x. p x && q x) xs
unfolding filter
filter-filter p q [] = refl
filter-filter p q (x ∷ xs) = elim (Bool-cases (p x)) [
  | inl t ↦ elim (Bool-cases (q x)) [
    | inl u ↦ rw (t, u, filter-filter p q xs) refl
    | inr v ↦ rw (t, v, filter-filter p q xs) refl
  ]
  | inr e ↦ rw (e, filter-filter p q xs) refl
]

pub filter_ext {ℓ} :
    {A : Type ℓ} (p q : A → Bool) (xs : List A) → ((x : A) → p x ≡ q x) → filter p xs ≡ filter q xs
unfolding filter
filter_ext p q [] h = refl
filter_ext p q (x ∷ xs) h = rw (h x, filter_ext p q xs h) refl

module _ {ℓ} {A : Type ℓ} (before : A → A → Bool) where
  -- Each row comes before all that follow.
  abbrev pub IsOrdered : List A → Type ℓ
  IsOrdered [] = Unit
  IsOrdered (x ∷ xs) = All (λ y. before x y ≡ true) xs × IsOrdered xs

  insert_by-first :
      (x : A) (ys : List A) → All (λ y. before y x ≡ false) ys → insert_by before x ys ≡ x ∷ ys
  unfolding insert_by
  insert_by-first x [] h = refl
  insert_by-first x (y ∷ ys) h = rw h.0 refl

  filter_whole : (p : A → Bool) (xs : List A) → All (λ x. p x ≡ true) xs → filter p xs ≡ xs
  unfolding filter
  filter_whole p [] h = refl
  filter_whole p (x ∷ xs) h = rw (h.0, filter_whole p xs h.1) refl

  before-last :
      {y : A} (pre : List A) (x : A) (post : List A)
      → All (λ z. before y z ≡ true) (pre ++ (x ∷ post))
      → before y x ≡ true
  before-last [] x post h = h.0
  before-last (z ∷ pre) x post h = before-last pre x post h.1

  module _ (key : A → ℕ)
      (trans : (a b c : A) → before a b ≡ true → before b c ≡ true → before a c ≡ true)
      (asym : (a b : A) → before a b ≡ true → before b a ≡ false)
      (total : (a b : A) → key b ≢ key a → before a b ≡ false → before b a ≡ true) where
    insert_by-IsOrdered :
        (x : A) (ys : List A)
        → All (λ y. key y ≢ key x) ys
        → IsOrdered ys
        → IsOrdered (insert_by before x ys)
    unfolding insert_by
    insert_by-IsOrdered x [] apart h = (tt, tt)
    insert_by-IsOrdered x (y ∷ ys) apart h = elim (Bool-cases (before y x)) [
      | inl t ↦ rw t (
        All-insert_by (λ z. before y z ≡ true) before x ys t h.0,
        insert_by-IsOrdered x ys apart.1 h.1,
      )
      | inr e ↦
          let first : before x y ≡ true = total y x (λ q. apart.0 (sym q)) e in
          rw e ((first, All-map ys (λ z u. trans x y z first u) h.0), h)
    ]

    pub order_by-IsOrdered : (xs : List A) → Distinct key xs → IsOrdered (order_by before xs)
    unfolding order_by
    order_by-IsOrdered [] h = tt
    order_by-IsOrdered (x ∷ xs) h =
        insert_by-IsOrdered x (order_by before xs) (All-order_by (λ y. key y ≢ key x) before xs h.0)
          (order_by-IsOrdered xs h.1)

    -- No row of an ordered list comes before one that its head does not.
    behind :
        (x y : A) (ys : List A)
        → before y x ≡ false
        → All (λ z. before y z ≡ true) ys
        → All (λ z. before z x ≡ false) ys
    behind x y ys e h =
        All-map ys
          (λ z u. elim (Bool-cases (before z x)) [
            | inl t ↦ absurd (ground (arith, trans y z x u t))
            | inr f ↦ f
          ])
          h

    filter-insert_by :
        (q : A → Bool) (x : A) (ys : List A)
        → IsOrdered ys
        → filter q (insert_by before x ys)
          ≡ (if q x then insert_by before x (filter q ys) else filter q ys)
    unfolding insert_by filter
    filter-insert_by q x [] h = refl
    filter-insert_by q x (y ∷ ys) h = elim (Bool-cases (before y x)) [
      | inl t ↦ elim (Bool-cases (q y)) [
        | inl u ↦ elim (Bool-cases (q x)) [
          | inl w ↦ rw (t, u, filter-insert_by q x ys h.1, w, t) refl
          | inr w ↦ rw (t, u, filter-insert_by q x ys h.1, w) refl
        ]
        | inr v ↦ rw (t, v, filter-insert_by q x ys h.1) refl
      ]
      | inr e ↦ elim (Bool-cases (q y)) [
        | inl u ↦ elim (Bool-cases (q x)) [
          | inl w ↦ rw (e, w, u, e) refl
          | inr w ↦ rw (e, w, u) refl
        ]
        | inr v ↦
            let last =
              insert_by-first x (filter q ys)
                (All-filter (λ z. before z x ≡ false) q ys (behind x y ys e h.0)) in
            elim (Bool-cases (q x)) [ inl w ↦ rw (e, w, v) (sym last) | inr w ↦ rw (e, w, v) refl ]
      ]
    ]

    -- A condition may be applied before or after the rows are ordered.
    pub filter-order_by :
        (q : A → Bool) (xs : List A)
        → Distinct key xs
        → filter q (order_by before xs) ≡ order_by before (filter q xs)
    unfolding order_by filter
    filter-order_by q [] h = refl
    filter-order_by q (x ∷ xs) h =
        filter-insert_by q x (order_by before xs) (order_by-IsOrdered xs h.1)
        ∙ elim (Bool-cases (q x)) [
          | inl w ↦ rw (w, filter-order_by q xs h.1) refl
          | inr w ↦ rw (w, filter-order_by q xs h.1) refl
        ]

    -- The part of an ordered list that comes after one of its rows is what follows that row.
    pub filter-behind :
        (pre : List A) (x : A) (post : List A)
        → IsOrdered (pre ++ (x ∷ post))
        → filter (before x) (pre ++ (x ∷ post)) ≡ post
    unfolding filter
    filter-behind [] x post h = elim (Bool-cases (before x x)) [
      | inl t ↦ absurd (ground (arith, asym x x t))
      | inr f ↦ rw f (filter_whole (before x) post h.0)
    ]
    filter-behind (y ∷ pre) x post h =
        let earlier = before-last pre x post h.0 in
        rw (asym y x earlier) (filter-behind pre x post h.1)
