-- ===== src/ObjectStore/Disposition.antt =====
-- `contentDisposition` of internal/objectstore/store.go, with `%q` and `url.PathEscape`.
pub mod Safe
use zhyvo.Base.{
  ℕ, ◌+◌, ◌*◌, ◌/◌, ◌%◌, List, [], ◌∷◌, ◌++◌, map, Bool, ◌&&◌, ◌||◌, ltb, leb, ◌==◌, any,
  if◌then◌else◌,
}
use zhyvo.Base.Text.{Text, codes}

abbrev pub is_letter : ℕ → Bool
is_letter c = (leb b'a' c && leb c b'z') || (leb b'A' c && leb c b'Z') || (leb b'0' c && leb c b'9')

-- A character of the plain name, or the sign that replaces it.
abbrev pub plain_char : ℕ → ℕ
plain_char c = if is_letter c || any (λ d. d == c) (codes "._- ") then c else b'_'

-- `%q`, for text of printable ASCII: quotes and backslashes are escaped.
unfoldable pub quote_rest : Text → Text
quote_rest [] = b'"' ∷ []
quote_rest (c ∷ s) = if c == b'"' || c == b'\\' then b'\\' ∷ c ∷ quote_rest s else c ∷ quote_rest s

abbrev pub quote : Text → Text
quote s = b'"' ∷ quote_rest s

-- The bytes of a character in UTF-8.
unfoldable pub utf8 : ℕ → List ℕ
utf8 c =
    if ltb c 0x80
    then c ∷ []
    else if ltb c 0x800
    then (0xc0 + c / 64) ∷ (0x80 + c % 64) ∷ []
    else if ltb c 0x10000
    then (0xe0 + c / 4096) ∷ (0x80 + c / 64 % 64) ∷ (0x80 + c % 64) ∷ []
    else (0xf0 + c / 262144) ∷ (0x80 + c / 4096 % 64) ∷ (0x80 + c / 64 % 64) ∷ (0x80 + c % 64) ∷ []

-- The bytes that stay in a path segment.
abbrev pub stays : ℕ → Bool
stays b = is_letter b || any (λ d. d == b) (codes "-_.~$&+:=@")

abbrev pub hex_digit : ℕ → ℕ
hex_digit n = if ltb n 10 then 48 + n else 55 + n

abbrev pub escape_byte : ℕ → Text
escape_byte b = if stays b then b ∷ [] else b'%' ∷ hex_digit (b / 16 % 16) ∷ hex_digit (b % 16) ∷ []

unfoldable pub escape_bytes : List ℕ → Text
escape_bytes [] = []
escape_bytes (b ∷ bs) = escape_byte b ++ escape_bytes bs

-- `url.PathEscape`.
unfoldable pub path_escape : Text → Text
unfolding utf8 escape_bytes
path_escape [] = []
path_escape (c ∷ s) = escape_bytes (utf8 c) ++ path_escape s

unfoldable pub content_disposition : Text → Text
unfolding quote_rest path_escape
content_disposition name =
    codes "attachment; filename="
    ++ (quote (map plain_char name) ++ (codes "; filename*=UTF-8''" ++ path_escape name))
