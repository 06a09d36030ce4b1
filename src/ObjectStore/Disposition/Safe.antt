-- ===== src/ObjectStore/Disposition/Safe.antt =====
-- No name of a download breaks out of the header.
use mathlib.Core.List.{append_assoc}
use zhyvo.Base.{
  ◌≤◌, ◌≢◌, ℕ, ◌/◌, ◌%◌, ◌<◌, ◌≡◌, refl, ap, List, [], ◌∷◌, ◌++◌, map, true, ◌||◌, ◌==◌, any, All,
  length, length-map, Bool-cases, inl, inr, arith,
}
use zhyvo.Base.Text.{Text, codes}
use zhyvo.ObjectStore.Disposition.{
  is_letter, plain_char, quote_rest, utf8, stays, hex_digit, escape_byte, escape_bytes, path_escape,
  content_disposition,
}

-- A letter, a digit, a dot, an underscore, a hyphen or a space.
abbrev pub IsPlain : ℕ → Type 0
IsPlain c = (is_letter c || any (λ d. d == c) (codes "._- ")) ≡ true

-- A character that stays in a path segment, or the sign of an escape.
abbrev pub IsToken : ℕ → Type 0
IsToken c = (stays c || c == b'%') ≡ true

-- A printable character that ends neither a quoted text nor a parameter of a header.
abbrev pub IsSafe : ℕ → Type 0
IsSafe c = (33 ≤ c) × (c ≤ 126) × (c ≢ b'"') × (c ≢ b'\\') × (c ≢ b';') × (c ≢ b',') × (c ≢ b'/')

IsToken-IsSafe : (c : ℕ) → IsToken c → IsSafe c
IsToken-IsSafe c h = (
  ground arith,
  ground arith,
  λ e. ground arith,
  λ e. ground arith,
  λ e. ground arith,
  λ e. ground arith,
  λ e. ground arith,
)

IsToken-All : (s : Text) → All IsToken s → All IsSafe s
IsToken-All [] h = tt
IsToken-All (c ∷ s) h = (IsToken-IsSafe c h.0, IsToken-All s h.1)

plain_char-IsPlain : (c : ℕ) → IsPlain (plain_char c)
plain_char-IsPlain c = elim (Bool-cases (is_letter c || any (λ d. d == c) (codes "._- "))) [
  | inl t ↦ rw t t
  | inr n ↦ rw n refl
]

names-All : (name : Text) → All IsPlain (map plain_char name)
names-All [] = tt
names-All (c ∷ name) = (plain_char-IsPlain c, names-All name)

quote_rest-plain : (s : Text) → All IsPlain s → quote_rest s ≡ s ++ (b'"' ∷ [])
unfolding quote_rest
quote_rest-plain [] h = refl
quote_rest-plain (c ∷ s) h = ground (arith, quote_rest-plain s h.1, h.0)

hex_digit-IsToken : (n : ℕ) → n < 16 → IsToken (hex_digit n)
hex_digit-IsToken n h = ground arith

escape_byte-All : (b : ℕ) → All IsToken (escape_byte b)
escape_byte-All b = elim (Bool-cases (stays b)) [
  | inl t ↦ rw t (rw t refl, tt)
  | inr n ↦ rw n (
    refl,
    (hex_digit-IsToken (b / 16 % 16) (omega arith), (hex_digit-IsToken (b % 16) (omega arith), tt)),
  )
]

All-append {ℓ κ} :
    {A : Type ℓ} (P : A → Type κ) (xs ys : List A) → All P xs → All P ys → All P (xs ++ ys)
All-append P [] ys h k = k
All-append P (x ∷ xs) ys h k = (h.0, All-append P xs ys h.1 k)

escape_bytes-All : (bs : List ℕ) → All IsToken (escape_bytes bs)
unfolding escape_bytes
escape_bytes-All [] = tt
escape_bytes-All (b ∷ bs) =
    All-append IsToken (escape_byte b) (escape_bytes bs) (escape_byte-All b) (escape_bytes-All bs)

path_escape-All : (s : Text) → All IsToken (path_escape s)
unfolding path_escape
path_escape-All [] = tt
path_escape-All (c ∷ s) =
    All-append IsToken (escape_bytes (utf8 c)) (path_escape s) (escape_bytes-All (utf8 c))
      (path_escape-All s)

-- Whatever the name of a file, the header is the same two parameters: between the quotes stand as many
-- characters as the name has, all of them letters, digits, dots, underscores, hyphens or spaces, and
-- the extended name is made of letters, digits, `%` and the signs `-_.~$&+:=@`, all of them printable
-- characters of ASCII other than the space, quote, backslash, slash, semicolon and comma.
pub content_disposition-Safe :
    (name : Text)
    → (plain : Text) × (extended : Text) × (content_disposition name
        ≡ codes "attachment; filename=\"" ++ (plain ++ (codes "\"; filename*=UTF-8''" ++ extended)))
      × (length plain ≡ length name)
      × All IsPlain plain
      × All IsToken extended
      × All IsSafe extended
unfolding content_disposition
content_disposition-Safe name = (
  map plain_char name,
  path_escape name,
  rw (quote_rest-plain (map plain_char name) (names-All name)) (
      ap (λ x. codes "attachment; filename=\"" ++ x)
        (append_assoc (map plain_char name) (b'"' ∷ [])
          (codes "; filename*=UTF-8''" ++ path_escape name))),
  length-map plain_char name,
  names-All name,
  path_escape-All name,
  IsToken-All (path_escape name) (path_escape-All name),
)
