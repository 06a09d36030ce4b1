-- ===== src/Room/Validate/Access.antt =====
-- Which input of a new room is accepted.
use zhyvo.Base.{
  ℕ, ◌≡◌, ◌⊎◌, inl, inr, ◌↔◌, refl, sym, ◌∙◌, ◌≤◌, [], ◌∷◌, Bool, true, false, ◌||◌, not, ltb, all,
  length, All, Bool-cases, arith,
}
use zhyvo.Base.Int.{ℤ, pos, negsuc, ltb_ℤ}
use zhyvo.Base.Text.{Text, codes, text_eq, text_eq_iff}
use zhyvo.Exec.{ok, err, invalid_input}
use zhyvo.Room.Types.{CreateInput}
use zhyvo.Room.Validate.{
  validate_access, validate_create, pin_pattern, is_digit, is_empty, check, bad_name,
}

abbrev pub IsDigit : ℕ → Type 0
IsDigit c = (b'0' ≤ c) × (c ≤ b'9')

-- The three ways to enter a room: freely, by 4 to 8 digits, or by 6 to 72 characters.
abbrev pub IsAccess : Text → Text → Type 0
IsAccess mode secret =
    ((mode ≡ codes "public") × (secret ≡ []))
    ⊎ ((mode ≡ codes "pin") × All IsDigit secret × (4 ≤ length secret) × (length secret ≤ 8))
    ⊎ ((mode ≡ codes "password") × (6 ≤ length secret) × (length secret ≤ 72))

all-digits : (s : Text) → (all is_digit s ≡ true) ↔ All IsDigit s
all-digits [] = (λ _. tt, λ _. refl)
all-digits (c ∷ s) =
    let (to, from) = all-digits s in (λ h. ground (arith, to), λ h. ground (arith, from))

pin_pattern_iff :
    (s : Text) → (pin_pattern s ≡ true) ↔ (All IsDigit s × (4 ≤ length s) × (length s ≤ 8))
unfolding pin_pattern
pin_pattern_iff s =
    let (to, from) = all-digits s in (λ h. ground (arith, to), λ h. ground (arith, from))

is_empty_iff : (s : Text) → (is_empty s ≡ true) ↔ (s ≡ [])
is_empty_iff [] = (λ _. refl, λ _. refl)
is_empty_iff (c ∷ s) = (λ h. ground arith, λ h. ground arith)

check_iff : (b : Bool) → (check b ≡ ok tt) ↔ (b ≡ true)
check_iff true = (λ _. refl, λ _. refl)
check_iff false = (λ h. ground arith, λ h. ground arith)

module _ (mode secret : Text) where
  validate_access-public :
      text_eq mode (codes "public") ≡ true → validate_access mode secret ≡ check (is_empty secret)
  unfolding validate_access
  validate_access-public e = rw e refl

  validate_access-pin :
      text_eq mode (codes "public") ≡ false
      → text_eq mode (codes "pin") ≡ true
      → validate_access mode secret ≡ check (pin_pattern secret)
  unfolding validate_access
  validate_access-pin n e = rw (n, e) refl

  validate_access-password :
      text_eq mode (codes "public") ≡ false
      → text_eq mode (codes "pin") ≡ false
      → text_eq mode (codes "password") ≡ true
      → validate_access mode secret ≡ check (not (ltb (length secret) 6 || ltb 72 (length secret)))
  unfolding validate_access
  validate_access-password n p e = rw (n, p, e) refl

  validate_access-unknown :
      text_eq mode (codes "public") ≡ false
      → text_eq mode (codes "pin") ≡ false
      → text_eq mode (codes "password") ≡ false
      → validate_access mode secret ≡ err invalid_input
  unfolding validate_access
  validate_access-unknown n p e = rw (n, p, e) refl

  accepted-IsAccess : validate_access mode secret ≡ ok tt → IsAccess mode secret
  accepted-IsAccess h = elim (Bool-cases (text_eq mode (codes "public"))) [
    | inl e ↦ inl (
      (text_eq_iff mode _).0 e,
      (is_empty_iff secret).0 ((check_iff _).0 (sym (validate_access-public e) ∙ h)),
    )
    | inr n ↦ elim (Bool-cases (text_eq mode (codes "pin"))) [
      | inl e ↦
          let pattern =
            (pin_pattern_iff secret).0 ((check_iff _).0 (sym (validate_access-pin n e) ∙ h)) in
          inr (inl ((text_eq_iff mode _).0 e, pattern.0, pattern.1, pattern.2))
      | inr p ↦ elim (Bool-cases (text_eq mode (codes "password"))) [
        | inl e ↦
            let good = (check_iff _).0 (sym (validate_access-password n p e) ∙ h) in
            inr (inr ((text_eq_iff mode _).0 e, ground arith, ground arith))
        | inr u ↦ absurd (ground (arith, validate_access-unknown n p u))
      ]
    ]
  ]

IsAccess-accepted :
    (mode secret : Text) → IsAccess mode secret → validate_access mode secret ≡ ok tt
unfolding validate_access text_eq
IsAccess-accepted mode secret (inl (e, s)) = rw (e, s) refl
IsAccess-accepted mode secret (inr (inl (e, digits, low, high))) =
    rw (e, (pin_pattern_iff secret).1 (digits, low, high)) refl
IsAccess-accepted mode secret (inr (inr (e, low, high))) = rw e (ground arith)

-- A mode and a secret are accepted exactly if the room is public without a secret, has a PIN of
-- 4 to 8 ASCII digits, or has a password of 6 to 72 characters.
pub validate_access_iff :
    (mode secret : Text) → (validate_access mode secret ≡ ok tt) ↔ IsAccess mode secret
validate_access_iff mode secret = (accepted-IsAccess mode secret, IsAccess-accepted mode secret)

lifetime_accepted :
    (z : ℤ)
    → (ltb_ℤ z (pos 1) || ltb_ℤ (pos 3) z) ≡ false
    → (days : ℕ) × (z ≡ pos days) × (1 ≤ days) × (days ≤ 3)
lifetime_accepted (pos d) h = (d, refl, ground arith, ground arith)
lifetime_accepted (negsuc d) h = absurd (ground arith)

accepted :
    (input : CreateInput)
    → validate_create input ≡ ok tt
    → (1 ≤ length input.name)
      × (length input.name ≤ 120)
      × ((days : ℕ) × (input.lifetime_days ≡ pos days) × (1 ≤ days) × (days ≤ 3))
      × IsAccess input.access_mode input.secret
unfolding validate_create
accepted input h = elim (Bool-cases (bad_name input.name)) [
  | inl bad ↦ absurd (ground arith)
  | inr good ↦
      let days = input.lifetime_days in
      elim (Bool-cases (ltb_ℤ days (pos 1) || ltb_ℤ (pos 3) days)) [
        | inl bad ↦ absurd (ground arith)
        | inr fine ↦ (
          ground arith,
          ground arith,
          lifetime_accepted days fine,
          accepted-IsAccess input.access_mode input.secret (ground arith),
        )
      ]
]

acceptable :
    (input : CreateInput)
    → 1 ≤ length input.name
    → length input.name ≤ 120
    → ((days : ℕ) × (input.lifetime_days ≡ pos days) × (1 ≤ days) × (days ≤ 3))
    → IsAccess input.access_mode input.secret
    → validate_create input ≡ ok tt
unfolding validate_create
acceptable input low high (d, e, from, to) access =
    rw (e, IsAccess-accepted input.access_mode input.secret access) (ground arith)

-- The input of a new room is accepted exactly if its name has 1 to 120 characters, it lives for 1,
-- 2 or 3 days, and its mode and secret fit together.
pub validate_create_iff :
    (input : CreateInput)
    → (validate_create input ≡ ok tt) ↔ (
        (1 ≤ length input.name)
        × (length input.name ≤ 120)
        × ((days : ℕ) × (input.lifetime_days ≡ pos days) × (1 ≤ days) × (days ≤ 3))
        × IsAccess input.access_mode input.secret)
validate_create_iff input =
    (accepted input, λ (low, high, days, access). acceptable input low high days access)
