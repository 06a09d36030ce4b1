-- ===== src/Room/Validate.antt =====
-- The checks on the input of a room: `validateCreate`, `validateAccess`, `hashCreateInput`, and the
-- checks that open `Update`.
pub mod Access
use zhyvo.Base.{
  ℕ, List, [], ◌∷◌, ◌++◌, Option, none, some, Bool, true, false, ◌&&◌, ◌||◌, not, ltb, leb, all,
  length, All, arith, if◌then◌else◌,
}
use zhyvo.Base.Int.{ℤ, pos, negsuc, ltb_ℤ, pos_part, neg_part}
use zhyvo.Base.Decimal.{format_int}
use zhyvo.Base.Text.{Text, codes, text_eq, text_eq_iff, text_eq_refl}
use zhyvo.Exec.{Env, Result, ok, err, Error, invalid_input}
use zhyvo.Room.Types.{CreateInput, AccessUpdate, UpdateInput}

abbrev pub is_digit : ℕ → Bool
is_digit c = leb b'0' c && leb c b'9'

-- `^[0-9]{4,8}$`.
unfoldable pub pin_pattern : Text → Bool
pin_pattern secret = all is_digit secret && leb 4 (length secret) && leb (length secret) 8

abbrev pub check : Bool → Result (Unit {0})
check good = if good then ok tt else err invalid_input

abbrev pub is_empty : Text → Bool
is_empty [] = true
is_empty (c ∷ s) = false

unfoldable pub validate_access : Text → Text → Result (Unit {0})
validate_access mode secret =
    if text_eq mode (codes "public")
    then check (is_empty secret)
    else if text_eq mode (codes "pin")
    then check (pin_pattern secret)
    else if text_eq mode (codes "password")
    then check (not (ltb (length secret) 6 || ltb 72 (length secret)))
    else err invalid_input

abbrev pub bad_name : Text → Bool
bad_name name = ltb (length name) 1 || ltb 120 (length name)

unfoldable pub validate_create : CreateInput → Result (Unit {0})
validate_create input =
    if bad_name input.name
    then err invalid_input
    else if ltb_ℤ input.lifetime_days (pos 1) || ltb_ℤ (pos 3) input.lifetime_days
    then err invalid_input
    else validate_access input.access_mode input.secret

-- The name, the lifetime, the mode and the secret, with a zero byte between them.
unfoldable pub canonical : CreateInput → Text
canonical input =
    input.name
    ++ (0 ∷ (format_int input.lifetime_days ++ (0 ∷ (input.access_mode ++ (0 ∷ input.secret)))))

unfoldable pub hash_create_input : Env → CreateInput → ℕ
unfolding canonical
hash_create_input env input = env.sha256 (canonical input)
