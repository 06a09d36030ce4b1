-- ===== src/Media/Validate/Canonical.antt =====
-- `hashInitiateInput`: the text that is hashed determines the request.
use zhyvo.Base.{
  ℕ, ◌<◌, List, [], ◌∷◌, ◌++◌, ◌≡◌, refl, ap, Option, none, some, false, ◌==◌, any, All, arith,
}
use zhyvo.Base.Int.{ℤ, pos, negsuc, pos_part}
use zhyvo.Base.Text.{Text, trim_space, to_upper, text_eq_sound, is_control}
use zhyvo.Base.Decimal.{format_int, decimal_injective, decimal_free}
use zhyvo.Schema.{MediaType}
use zhyvo.Exec.{Env}
use zhyvo.Media.Types.{InitiateInput, supported_mime_types}
use zhyvo.Media.Validate.{IsUploadable, lookup_text, media_type_of}

abbrev pub captured_text : Env → Option ℕ → Text
captured_text env none = []
captured_text env (some t) = env.format_time t

unfoldable pub canonical : Env → Text → InitiateInput → Text
canonical env slug input =
    to_upper (trim_space slug)
    ++ (0
        ∷ (input.filename
            ++ (0
                ∷ (input.mime_type
                    ++ (0
                        ∷ (format_int input.size_bytes
                            ++ (0 ∷ captured_text env input.captured_at)))))))

unfoldable pub hash_initiate_input : Env → Text → InitiateInput → ℕ
unfolding canonical
hash_initiate_input env slug input = env.sha256 (canonical env slug input)

-- No NUL in the text.
abbrev pub IsFree : Text → Type 0
IsFree s = any (λ c. c == 0) s ≡ false

-- The first NUL ends the first field.
cut : (a c b d : Text) → IsFree a → IsFree c → a ++ 0 ∷ b ≡ c ++ 0 ∷ d → (a ≡ c) × (b ≡ d)
cut [] [] b d p q e = (refl, ground arith)
cut [] (y ∷ c) b d p q e = ground arith
cut (x ∷ a) [] b d p q e = ground arith
cut (x ∷ a) (y ∷ c) b d p q e =
    let rest = cut a c b d (ground arith) (ground arith) (ground arith) in ground (arith, rest)

filename-IsFree : (s : Text) → any is_control s ≡ false → IsFree s
filename-IsFree [] h = refl
filename-IsFree (c ∷ s) h = ground (arith, filename-IsFree s)

lookup-IsFree :
    (k : Text) (m : List (Text × MediaType)) {t : MediaType}
    → All (λ e. IsFree e.0) m
    → lookup_text k m ≡ some t
    → IsFree k
unfolding lookup_text
lookup-IsFree k [] h e = cc
lookup-IsFree k ((j, v) ∷ m) {t} h e =
    ground (arith, text_eq_sound j k, lookup-IsFree k m {t = t} h.1)

mime-IsFree : (k : Text) (t : MediaType) → media_type_of k ≡ some t → IsFree k
unfolding media_type_of
mime-IsFree k t e = lookup-IsFree k supported_mime_types {t = t} (ground arith) e

size_injective : (a b : ℤ) → 0 < pos_part a → 0 < pos_part b → format_int a ≡ format_int b → a ≡ b
unfolding format_int
size_injective (pos m) (pos n) h k e = ap pos (decimal_injective m n e)
size_injective (pos m) (negsuc n) h k e = absurd (omega arith)
size_injective (negsuc m) b h k e = absurd (omega arith)

size-IsFree : (a : ℤ) → 0 < pos_part a → IsFree (format_int a)
unfolding format_int
size-IsFree (pos m) h = decimal_free m
size-IsFree (negsuc m) h = absurd (omega arith)

-- Two accepted requests, for slugs with no NUL, whose canonical texts agree have the same room slug
-- up to case and surrounding space, and the same name, MIME type, size and capture time as printed.
pub canonical_injective :
    (env : Env) (slug slug' : Text) (t t' : MediaType) (i j : InitiateInput)
    → IsFree (to_upper (trim_space slug))
    → IsFree (to_upper (trim_space slug'))
    → IsUploadable t i
    → IsUploadable t' j
    → canonical env slug i ≡ canonical env slug' j
    → (to_upper (trim_space slug) ≡ to_upper (trim_space slug'))
      × (i.filename ≡ j.filename)
      × (i.mime_type ≡ j.mime_type)
      × (i.size_bytes ≡ j.size_bytes)
      × (captured_text env i.captured_at ≡ captured_text env j.captured_at)
unfolding canonical
canonical_injective env slug slug' t t' i j free free' u v e =
    let (s, e₁) = cut _ _ _ _ free free' e in
    let (f, e₂) =
      cut _ _ _ _ (filename-IsFree i.filename u.printable) (filename-IsFree j.filename v.printable)
        e₁ in
    let (m, e₃) =
      cut _ _ _ _ (mime-IsFree i.mime_type t u.supported) (mime-IsFree j.mime_type t' v.supported)
        e₂ in
    let (n, c) = cut _ _ _ _ (size-IsFree _ u.positive) (size-IsFree _ v.positive) e₃ in
    (s, f, m, size_injective _ _ u.positive v.positive n, c)
