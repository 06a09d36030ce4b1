-- ===== src/Auth/Telegram.antt =====
-- internal/auth/telegram.go: the data that Telegram signs for a Mini App. `url.ParseQuery`,
-- `json.Unmarshal` into a user and HMAC-SHA-256 are the record `Signing`; times are seconds.
pub mod Accepts
use zhyvo.Base.{
  ℕ, zero, suc, ◌+◌, ◌-◌, ◌*◌, ◌^◌, List, [], ◌∷◌, ◌++◌, map, Option, none, some, Bool, true, false,
  ◌&&◌, ◌||◌, not, ltb, leb, ◌==◌, length, take, all, if◌then◌else◌,
}
use zhyvo.Base.Int.{ℤ, pos, negsuc, ltb_ℤ}
use zhyvo.Base.Order.{filter, order_by}
use zhyvo.Base.Text.{Text, codes, text_eq, trim_space, byte_length}
use zhyvo.Auth.Types.{TelegramUser}

abbrev pub if_empty : Text → Text → Text
if_empty name other = if text_eq name [] then other else name

unfoldable pub display_name : TelegramUser → Text
display_name user =
    let full = trim_space (user.first_name ++ (b' ' ∷ user.last_name)) in
    let name = if_empty (if_empty full (trim_space user.username)) (codes "Telegram user") in
    if ltb 80 (length name) then take 80 name else name

-- A query is a map from names to values.
abbrev pub Values : Type 0
Values = List (Text × List Text)

pub record Signing : Type 0 where
  pub parse_query : Text → Option Values
  pub hmac : List ℕ → Text → List ℕ
  pub parse_user : Text → Option TelegramUser

pub data Checked : Type 0 where
  accepted : TelegramUser → Checked
  invalid outdated : Checked

abbrev pub head_or_empty : List Text → Text
head_or_empty [] = []
head_or_empty (v ∷ vs) = v

-- `Values.Get`: the first value of the name, or the empty text.
unfoldable pub value_of : Text → Values → Text
value_of key [] = []
value_of key ((k, vs) ∷ rest) =
    let later = value_of key rest in if text_eq k key then head_or_empty vs else later

abbrev pub is_single : Text × List Text → Bool
is_single (k, v ∷ []) = true
is_single _ = false

abbrev pub hex_value : ℕ → Option ℕ
hex_value c =
    if leb b'0' c && leb c b'9'
    then some (c - b'0')
    else if leb b'a' c && leb c b'f'
    then some (c - 87)
    else if leb b'A' c && leb c b'F'
    then some (c - 55)
    else none

abbrev pub hex_pair : Option ℕ → Option ℕ → Option (List ℕ) → Option (List ℕ)
hex_pair (some a) (some b) (some bs) = some ((a * 16 + b) ∷ bs)
hex_pair _ _ _ = none

-- `hex.DecodeString`.
unfoldable pub hex_decode : Text → Option (List ℕ)
hex_decode [] = some []
hex_decode (a ∷ []) = none
hex_decode (a ∷ b ∷ s) = hex_pair (hex_value a) (hex_value b) (hex_decode s)

-- The digits of a number, behind those of `n`.
unfoldable pub scan_number : ℕ → Text → Option ℕ
scan_number n [] = some n
scan_number n (c ∷ s) =
    let rest = scan_number (n * 10 + (c - b'0')) s in
    if leb b'0' c && leb c b'9' then rest else none

abbrev pub some_digits : Text → Option ℕ
some_digits [] = none
some_digits (c ∷ s) = scan_number 0 (c ∷ s)

abbrev pub at_most : ℕ → Option ℕ → Option ℤ
at_most limit none = none
at_most limit (some n) = if leb n limit then some (pos n) else none

abbrev pub negated : Option ℤ → Option ℤ
negated (some (pos zero)) = some (pos 0)
negated (some (pos (suc n))) = some (negsuc n)
negated _ = none

-- `strconv.ParseInt` with base 10 and 64 bits.
unfoldable pub parse_int : Text → Option ℤ
unfolding scan_number
parse_int [] = none
parse_int (c ∷ s) =
    if c == b'-'
    then negated (at_most (2 ^ 63) (some_digits s))
    else at_most (2 ^ 63 - 1) (some_digits (if c == b'+' then s else c ∷ s))

-- The order of `sort.Strings`.
unfoldable pub text_ltb : Text → Text → Bool
text_ltb [] [] = false
text_ltb [] (b ∷ t) = true
text_ltb (a ∷ s) [] = false
text_ltb (a ∷ s) (b ∷ t) = ltb a b || (a == b && text_ltb s t)

abbrev pub join_lines : List Text → Text
join_lines [] = []
join_lines (p ∷ []) = p
join_lines (p ∷ q ∷ ps) = p ++ (10 ∷ join_lines (q ∷ ps))

-- Every name but `hash` with its value, in the order of the names.
unfoldable pub check_string : Values → Text
unfolding text_ltb value_of
check_string values =
    let keys =
      order_by text_ltb (
        filter (λ k. not (text_eq k (codes "hash")))
          (map (λ (e : Text × List Text). e.0) values)) in
    join_lines (map (λ k. k ++ (b'=' ∷ value_of k values)) keys)

unfoldable pub signature : Signing → Text → Values → List ℕ
unfolding check_string
signature lib bot_token values =
    lib.hmac (lib.hmac (codes "WebAppData") bot_token) (check_string values)

module _ (lib : Signing) (bot_token : Text) (max_age now : ℕ) where
  abbrev pub check_user : Option TelegramUser → Checked
  check_user none = invalid
  check_user (some user) = if ltb_ℤ (pos 0) user.id then accepted user else invalid

  abbrev pub check_time : Values → Option ℤ → Checked
  check_time values (some (pos (suc t))) =
      if ltb (now + 30) (suc t) || ltb (suc t + max_age) now
      then outdated
      else check_user (lib.parse_user (value_of (codes "user") values))
  check_time values _ = invalid

  abbrev pub check_hash : Values → Option (List ℕ) → Checked
  check_hash values none = invalid
  check_hash values (some hash) =
      if length hash == 32 && text_eq hash (signature lib bot_token values)
      then check_time values (parse_int (value_of (codes "auth_date") values))
      else invalid

  abbrev pub check_values : Option Values → Checked
  check_values none = invalid
  check_values (some values) =
      if all is_single values
      then check_hash values (hex_decode (value_of (codes "hash") values))
      else invalid

  unfoldable pub validate_init_data : Text → Checked
  unfolding signature hex_decode parse_int value_of
  validate_init_data raw =
      if text_eq raw [] || text_eq bot_token [] || ltb 16384 (byte_length raw)
      then invalid
      else check_values (lib.parse_query raw)
