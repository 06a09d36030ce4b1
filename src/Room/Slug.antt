-- ===== src/Room/Slug.antt =====
-- `newSlug` and `normalizeSlug` of internal/room/service.go.
pub mod Normal
use zhyvo.Base.{ℕ, zero, suc, ◌%◌, List, [], ◌∷◌, map}
use zhyvo.Base.Text.{Text, codes, trim_space, to_upper}

abbrev pub alphabet : Text
alphabet = codes "23456789ABCDEFGHJKLMNPQRSTUVWXYZ"

-- The byte at an index of a string; the index below is in range.
abbrev pub byte_at : Text → ℕ → ℕ
byte_at [] i = 0
byte_at (c ∷ s) zero = c
byte_at (c ∷ s) (suc i) = byte_at s i

unfoldable pub new_slug : List ℕ → Text
new_slug = map (λ value. byte_at alphabet (value % 32))

unfoldable pub normalize_slug : Text → Text
normalize_slug slug = to_upper (trim_space slug)
