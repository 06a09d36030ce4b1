-- ===== src/Room/Slug/Normal.antt =====
-- A slug that the service makes is one that it finds again, however it is typed.
use zhyvo.Base.{
  ℕ, zero, suc, ◌%◌, ◌≡◌, refl, ◌<◌, List, [], ◌∷◌, map, Bool, true, false, ◌&&◌, ◌||◌, All,
  All-map, all, length, leb, arith,
}
use zhyvo.Base.Text.{Text, trim_space, trim_left, to_upper, to_lower, upper, lower, is_space}
use zhyvo.Room.Slug.{alphabet, byte_at, new_slug, normalize_slug}
use mathlib.Core.List.{reverse, reverse_aux, reverse-reverse}

-- A digit or a capital letter.
abbrev pub is_slug_char : ℕ → Bool
is_slug_char c = (leb b'0' c && leb c b'9') || (leb b'A' c && leb c b'Z')

all-at : (p : ℕ → Bool) (s : Text) (i : ℕ) → all p s ≡ true → i < length s → p (byte_at s i) ≡ true
all-at p [] i h low = absurd (omega arith)
all-at p (c ∷ s) zero h low = ground arith
all-at p (c ∷ s) (suc i) h low = all-at p s i (ground arith) (omega arith)

slug_char : (v : ℕ) → is_slug_char (byte_at alphabet (v % 32)) ≡ true
slug_char v = all-at is_slug_char alphabet (v % 32) refl (omega arith)

pub new_slug-All : (bytes : List ℕ) → All (λ c. is_slug_char c ≡ true) (new_slug bytes)
unfolding new_slug
new_slug-All [] = tt
new_slug-All (v ∷ vs) = (slug_char v, new_slug-All vs)

IsDense : Text → Type 0
IsDense s = All (λ c. is_space c ≡ false) s

reverse_aux-IsDense : (s t : Text) → IsDense s → IsDense t → IsDense (reverse_aux s t)
unfolding IsDense
reverse_aux-IsDense [] t h k = k
reverse_aux-IsDense (c ∷ s) t h k = reverse_aux-IsDense s (c ∷ t) h.1 (h.0, k)

trim_left-IsDense : (s : Text) → IsDense s → trim_left s ≡ s
unfolding trim_left IsDense
trim_left-IsDense [] h = refl
trim_left-IsDense (c ∷ s) h = rw h.0 refl

trim_space-IsDense : (s : Text) → IsDense s → trim_space s ≡ s
unfolding trim_space IsDense
trim_space-IsDense s h =
    rw (trim_left-IsDense s h, trim_left-IsDense (reverse s) (reverse_aux-IsDense s [] h tt))
      (reverse-reverse s)

upper_slug_char : (c : ℕ) → is_slug_char c ≡ true → upper c ≡ c
upper_slug_char c h = ground arith

upper-lower : (c : ℕ) → is_slug_char c ≡ true → upper (lower c) ≡ c
upper-lower c h = ground arith

lower_dense : (c : ℕ) → is_slug_char c ≡ true → is_space (lower c) ≡ false
lower_dense c h = ground arith

char_dense : (c : ℕ) → is_slug_char c ≡ true → is_space c ≡ false
char_dense c h = ground arith

map-id_on :
    (f : ℕ → ℕ) (s : Text)
    → ((c : ℕ) → is_slug_char c ≡ true → f c ≡ c)
    → All (λ c. is_slug_char c ≡ true) s
    → map f s ≡ s
map-id_on f [] k h = refl
map-id_on f (c ∷ s) k h = rw (k c h.0, map-id_on f s k h.1) refl

upper_lowered : (s : Text) → All (λ c. is_slug_char c ≡ true) s → map upper (map lower s) ≡ s
upper_lowered [] h = refl
upper_lowered (c ∷ s) h = rw (upper-lower c h.0, upper_lowered s h.1) refl

lowered-IsDense : (s : Text) → All (λ c. is_slug_char c ≡ true) s → IsDense (map lower s)
unfolding IsDense
lowered-IsDense [] h = tt
lowered-IsDense (c ∷ s) h = (lower_dense c h.0, lowered-IsDense s h.1)

-- A slug made of any random bytes is unchanged by the normalisation that every lookup applies, and
-- comes back from its lower-case spelling.
pub normalize_slug-new_slug :
    (bytes : List ℕ)
    → (normalize_slug (new_slug bytes) ≡ new_slug bytes)
      × (normalize_slug (to_lower (new_slug bytes)) ≡ new_slug bytes)
unfolding normalize_slug to_upper to_lower IsDense
normalize_slug-new_slug bytes =
    let chars = new_slug-All bytes in
    (
      rw (trim_space-IsDense (new_slug bytes) (All-map (new_slug bytes) char_dense chars))
          (map-id_on upper (new_slug bytes) upper_slug_char chars),
      rw (trim_space-IsDense (map lower (new_slug bytes)) (lowered-IsDense (new_slug bytes) chars))
          (upper_lowered (new_slug bytes) chars),
    )
