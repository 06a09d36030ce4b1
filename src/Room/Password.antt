-- ===== src/Room/Password.antt =====
-- internal/room/password.go. `argon2.IDKey` is a parameter: the secret, the salt, the iterations,
-- the memory, the parallelism and the length of the key.
pub mod Verify
use zhyvo.Base.{
  ℕ, zero, ◌+◌, ◌-◌, ◌*◌, ◌^◌, ◌<◌, ◌≤◌, List, [], ◌∷◌, ◌++◌, ◌≡◌, refl, ap, sym, ◌∙◌, Option, none,
  some, Bool, true, false, ◌&&◌, ◌||◌, not, ltb, leb, ◌==◌, any, length, subst, arith,
  if◌then◌else◌,
}
use zhyvo.Base.Text.{Text, codes, text_eq, is_space}
use zhyvo.Base.Decimal.{decimal}
use zhyvo.Base.Base64.{encode, decode, AreBytes, decode-encode, encode-dollar_free}

abbrev pub argon_memory : ℕ
argon_memory = 64 * 1024

abbrev pub argon_iterations : ℕ
argon_iterations = 3

abbrev pub argon_parallelism : ℕ
argon_parallelism = 2

abbrev pub argon_salt_length : ℕ
argon_salt_length = 16

abbrev pub argon_key_length : ℕ
argon_key_length = 32

abbrev cons_head : ℕ → List Text → List Text
cons_head c [] = (c ∷ []) ∷ []
cons_head c (s ∷ ss) = (c ∷ s) ∷ ss

-- `strings.Split` at one character.
unfoldable pub split : ℕ → Text → List Text
split sep [] = [] ∷ []
split sep (c ∷ s) = let rest = split sep s in if c == sep then [] ∷ rest else cons_head c rest

-- `SkipSpace` of `fmt.Sscanf`, which fails at the end of a line.
skip_blank : Text → Option Text
skip_blank [] = some []
skip_blank (c ∷ s) =
    let rest = skip_blank s in if c == 10 then none else if is_space c then rest else some (c ∷ s)

abbrev is_digit : ℕ → Bool
is_digit c = leb b'0' c && leb c b'9'

-- The digits of a number of at most `limit`.
scan_digits : ℕ → ℕ → Text → Option (ℕ × Text)
scan_digits limit n [] = if leb n limit then some (n, []) else none
scan_digits limit n (c ∷ s) =
    let rest = scan_digits limit (n * 10 + (c - b'0')) s in
    if is_digit c then rest else if leb n limit then some (n, c ∷ s) else none

scan_first : ℕ → Text → Option (ℕ × Text)
unfolding scan_digits
scan_first limit [] = none
scan_first limit (c ∷ s) = if is_digit c then scan_digits limit 0 (c ∷ s) else none

-- `%d` into an unsigned variable.
scan_uint : ℕ → Text → Option (ℕ × Text)
unfolding skip_blank scan_first
scan_uint limit s = elim (skip_blank s) [ none ↦ none | some t ↦ scan_first limit t ]

-- A literal text of the format.
scan_literal : Text → Text → Option Text
scan_literal [] s = some s
scan_literal (c ∷ cs) [] = none
scan_literal (c ∷ cs) (d ∷ s) = let rest = scan_literal cs s in if c == d then rest else none

abbrev bind {ℓ} : {A B : Type ℓ} → Option A → (A → Option B) → Option B
bind none f = none
bind (some a) f = f a

-- `fmt.Sscanf(s, "m=%d,t=%d,p=%d", …)` into a uint32, a uint32 and a uint8; what follows is ignored.
unfoldable pub scan_parameters : Text → Option (ℕ × ℕ × ℕ)
unfolding scan_literal scan_uint
scan_parameters s = bind (scan_literal (codes "m=") s) λ s₁. bind (scan_uint (2 ^ 32 - 1) s₁) λ m.
    bind (scan_literal (codes ",t=") m.1) λ s₂. bind (scan_uint (2 ^ 32 - 1) s₂) λ t.
      bind (scan_literal (codes ",p=") t.1)
        λ s₃. bind (scan_uint (2 ^ 8 - 1) s₃) λ p. some (m.0, t.0, p.0)

abbrev are_safe : ℕ → ℕ → ℕ → Bool
are_safe memory iterations parallelism = not (
    ltb memory (8 * 1024)
    || ltb (256 * 1024) memory
    || ltb iterations 1
    || ltb 10 iterations
    || ltb parallelism 1
    || ltb 16 parallelism)

-- A decoded field whose length lies in the range.
abbrev bounded : ℕ → ℕ → Option (List ℕ) → Option (List ℕ)
bounded low high none = none
bounded low high (some bs) = if ltb (length bs) low || ltb high (length bs) then none else some bs

module _ (id_key : Text → List ℕ → ℕ → ℕ → ℕ → ℕ → List ℕ) where
  abbrev pub secret_key : Text → List ℕ → List ℕ
  secret_key secret salt =
      id_key secret salt argon_iterations argon_memory argon_parallelism argon_key_length

  unfoldable pub hash_secret : List ℕ → Text → Text
  hash_secret salt secret =
      codes "$argon2id$v=19$m="
      ++ (decimal argon_memory
          ++ (codes ",t="
              ++ (decimal argon_iterations
                  ++ (codes ",p="
                      ++ (decimal argon_parallelism
                          ++ (b'$' ∷ (encode salt ++ (b'$' ∷ encode (secret_key secret salt)))))))))

  verify_key : Text → Option (ℕ × ℕ × ℕ) → Option (List ℕ) → Option (List ℕ) → Option Bool
  verify_key secret none salt expected = none
  verify_key secret (some (memory, iterations, parallelism)) salt expected =
      if are_safe memory iterations parallelism
      then (bind (bounded 8 64 salt) λ s.
          bind (bounded 16 64 expected)
            λ e. some (text_eq (id_key secret s iterations memory parallelism (length e)) e))
      else none

  verify_parts : List Text → Text → Option Bool
  unfolding verify_key
  verify_parts (_ ∷ name ∷ version ∷ parameters ∷ salt ∷ expected ∷ []) secret =
      if text_eq name (codes "argon2id") && text_eq version (codes "v=19")
      then verify_key secret (scan_parameters parameters) (decode salt) (decode expected)
      else none
  verify_parts _ secret = none

  -- `none` is an error: the text is no hash of this kind, or its parameters are out of bounds.
  unfoldable pub verify_secret : Text → Text → Option Bool
  unfolding split verify_parts
  verify_secret encoded secret = verify_parts (split b'$' encoded) secret
