-- ===== src/Base/Base64.antt =====
-- `base64.RawStdEncoding`: six bits to a character, with no padding.
use Prim.Native.Nat.{ℕ, ◌+◌, ◌-◌, ◌*◌, ◌/◌, ◌%◌, ◌<◌, ◌≤◌}
use mathlib.Core.Path.{◌≡◌, refl, ap}
use mathlib.Core.Bool.{true, false, ◌&&◌, ◌||◌}
use mathlib.Core.Option.{Option, none, some}
use mathlib.Core.List.{List, [], ◌∷◌, map}
use native.Mathlib.Omega.{arith}
use zhyvo.Base.Tests.{ltb, leb, ◌==◌, if◌then◌else◌}
use zhyvo.Base.Lists.{any, All, length}
use zhyvo.Base.Text.{Text, byte_length}

letter : ℕ → ℕ
letter i =
    if ltb i 26
    then 65 + i
    else if ltb i 52
    then 71 + i
    else if ltb i 62
    then i - 4
    else if i == 62
    then 43
    else 47

index : ℕ → Option ℕ
index c =
    if leb 65 c && leb c 90
    then some (c - 65)
    else if leb 97 c && leb c 122
    then some (c - 71)
    else if leb 48 c && leb c 57
    then some (c + 4)
    else if c == 43
    then some 62
    else if c == 47
    then some 63
    else none

index-letter : (i : ℕ) → i < 64 → index (letter i) ≡ some i
unfolding index letter
index-letter i h = ground arith

unfoldable pub encode : List ℕ → Text
unfolding letter
encode [] = []
encode (a ∷ []) = letter (a / 4) ∷ letter (a % 4 * 16) ∷ []
encode (a ∷ b ∷ []) = letter (a / 4) ∷ letter (a % 4 * 16 + b / 16) ∷ letter (b % 16 * 4) ∷ []
encode (a ∷ b ∷ c ∷ rest) =
    letter (a / 4)
    ∷ letter (a % 4 * 16 + b / 16)
    ∷ letter (b % 16 * 4 + c / 64)
    ∷ letter (c % 64)
    ∷ encode rest

abbrev push3 : ℕ → ℕ → ℕ → Option (List ℕ) → Option (List ℕ)
push3 a b c none = none
push3 a b c (some rest) = some (a ∷ b ∷ c ∷ rest)

abbrev group2 : Option ℕ → Option ℕ → Option (List ℕ)
group2 (some x) (some y) = some ((x * 4 + y / 16) ∷ [])
group2 _ _ = none

abbrev group3 : Option ℕ → Option ℕ → Option ℕ → Option (List ℕ)
group3 (some x) (some y) (some z) = some ((x * 4 + y / 16) ∷ (y % 16 * 16 + z / 4) ∷ [])
group3 _ _ _ = none

abbrev group4 : Option ℕ → Option ℕ → Option ℕ → Option ℕ → Option (List ℕ) → Option (List ℕ)
group4 (some x) (some y) (some z) (some t) rest =
    push3 (x * 4 + y / 16) (y % 16 * 16 + z / 4) (z % 4 * 64 + t) rest
group4 _ _ _ _ _ = none

decode_quads : Text → Option (List ℕ)
unfolding index
decode_quads [] = some []
decode_quads (a ∷ []) = none
decode_quads (a ∷ b ∷ []) = group2 (index a) (index b)
decode_quads (a ∷ b ∷ c ∷ []) = group3 (index a) (index b) (index c)
decode_quads (a ∷ b ∷ c ∷ d ∷ rest) =
    group4 (index a) (index b) (index c) (index d) (decode_quads rest)

-- The decoder passes over line ends.
without_newlines : Text → Text
without_newlines [] = []
without_newlines (c ∷ s) =
    let rest = without_newlines s in if c == 10 || c == 13 then rest else c ∷ rest

unfoldable pub decode : Text → Option (List ℕ)
unfolding decode_quads without_newlines
decode s = decode_quads (without_newlines s)

abbrev pub AreBytes : List ℕ → Type 0
AreBytes = All (λ b. b < 256)

-- No letter is a line end, a `$`, or anything else outside the alphabet.
letter_ne : (i k : ℕ) → i < 64 → index k ≡ none → (letter i == k) ≡ false
unfolding index letter
letter_ne i k h e = ground arith

encode_free :
    (k : ℕ) (bs : List ℕ) → index k ≡ none → AreBytes bs → any (λ c. c == k) (encode bs) ≡ false
unfolding encode
encode_free k [] e h = refl
encode_free k (a ∷ []) e h =
    rw (letter_ne (a / 4) k (omega arith) e, letter_ne (a % 4 * 16) k (omega arith) e) refl
encode_free k (a ∷ b ∷ []) e h =
    rw
      (
        letter_ne (a / 4) k (omega arith) e,
        letter_ne (a % 4 * 16 + b / 16) k (omega arith) e,
        letter_ne (b % 16 * 4) k (omega arith) e,
      )
      refl
encode_free k (a ∷ b ∷ c ∷ rest) e h =
    rw
      (
        letter_ne (a / 4) k (omega arith) e,
        letter_ne (a % 4 * 16 + b / 16) k (omega arith) e,
        letter_ne (b % 16 * 4 + c / 64) k (omega arith) e,
        letter_ne (c % 64) k (omega arith) e,
      )
      (encode_free k rest e h.1.1.1)

pub encode-dollar_free : (bs : List ℕ) → AreBytes bs → any (λ c. c == b'$') (encode bs) ≡ false
unfolding index
encode-dollar_free bs h = encode_free b'$' bs refl h

skip_none :
    (s : Text)
    → any (λ c. c == 10) s ≡ false
    → any (λ c. c == 13) s ≡ false
    → without_newlines s ≡ s
unfolding without_newlines
skip_none [] h k = refl
skip_none (c ∷ s) h k = ground (arith, skip_none s)

without_newlines-encode : (bs : List ℕ) → AreBytes bs → without_newlines (encode bs) ≡ encode bs
unfolding index
without_newlines-encode bs h =
    skip_none (encode bs) (encode_free 10 bs refl h) (encode_free 13 bs refl h)

decode_quads-encode : (bs : List ℕ) → AreBytes bs → decode_quads (encode bs) ≡ some bs
unfolding encode decode_quads
decode_quads-encode [] h = refl
decode_quads-encode (a ∷ []) h =
    rw (index-letter (a / 4) (omega arith), index-letter (a % 4 * 16) (omega arith))
      (ap (λ x. some (x ∷ [])) (omega arith))
decode_quads-encode (a ∷ b ∷ []) h = ground (
  arith,
  index-letter (a / 4) (omega arith),
  index-letter (a % 4 * 16 + b / 16) (omega arith),
  index-letter (b % 16 * 4) (omega arith),
)
decode_quads-encode (a ∷ b ∷ c ∷ rest) h = ground (
  arith,
  index-letter (a / 4) (omega arith),
  index-letter (a % 4 * 16 + b / 16) (omega arith),
  index-letter (b % 16 * 4 + c / 64) (omega arith),
  index-letter (c % 64) (omega arith),
  decode_quads-encode rest h.1.1.1,
)

-- What was encoded is decoded.
pub decode-encode : (bs : List ℕ) → AreBytes bs → decode (encode bs) ≡ some bs
unfolding decode
decode-encode bs h = rw (without_newlines-encode bs h) (decode_quads-encode bs h)

abbrev to_url : ℕ → ℕ
to_url c = if c == b'+' then b'-' else if c == b'/' then b'_' else c

-- `base64.RawURLEncoding`: the same digits, with `-` and `_` for `+` and `/`.
unfoldable pub encode_url : List ℕ → Text
encode_url bs = map to_url (encode bs)

to_url_bytes : (i : ℕ) → i < 64 → ltb (to_url (letter i)) 0x80 ≡ true
unfolding letter
to_url_bytes i h = ground arith

-- Each group of three bytes, and each beginning of one, is written in one more character than it has.
encode_url_size :
    (bs : List ℕ)
    → AreBytes bs
    → (length bs * 4 ≤ byte_length (encode_url bs) * 3)
      × (byte_length (encode_url bs) * 3 ≤ length bs * 4 + 2)
unfolding encode_url encode byte_length
encode_url_size [] h = omega arith
encode_url_size (a ∷ []) h =
    rw (to_url_bytes (a / 4) (omega arith), to_url_bytes (a % 4 * 16) (omega arith)) (omega arith)
encode_url_size (a ∷ b ∷ []) h =
    rw
      (
        to_url_bytes (a / 4) (omega arith),
        to_url_bytes (a % 4 * 16 + b / 16) (omega arith),
        to_url_bytes (b % 16 * 4) (omega arith),
      )
      (omega arith)
encode_url_size (a ∷ b ∷ c ∷ rest) h =
    rw
      (
        to_url_bytes (a / 4) (omega arith),
        to_url_bytes (a % 4 * 16 + b / 16) (omega arith),
        to_url_bytes (b % 16 * 4 + c / 64) (omega arith),
        to_url_bytes (c % 64) (omega arith),
      )
      (omega (arith, encode_url_size rest h.1.1.1))

pub byte_length-encode_url :
    (bs : List ℕ) → AreBytes bs → length bs ≡ 32 → byte_length (encode_url bs) ≡ 43
byte_length-encode_url bs h n = omega (arith, encode_url_size bs h)
