-- ===== src/Media/Validate.antt =====
-- `validateInitiate` and `hashInitiateInput` of internal/media/service.go.

pub mod Canonical
use zhyvo.Base.{
  ℕ, ◌<◌, ◌≤◌, List, [], ◌∷◌, ◌≡◌, ◌↔◌, sym, subst, Option, none, some, Bool, true, false, ◌&&◌,
  ◌||◌, not, ltb, length, any, arith, if◌then◌else◌,
}
use zhyvo.Base.Int.{pos, pos_part, ltb_ℤ}
use zhyvo.Base.Text.{Text, text_eq, trim_space, to_lower, before, is_control}
use zhyvo.Schema.{MediaType, image, video}
use zhyvo.Exec.{Result, ok, err, invalid_input}
use zhyvo.Media.Types.{InitiateInput, supported_mime_types, max_image_size, max_video_size}

-- A read of a map with text keys.
unfoldable pub lookup_text : Text → List (Text × MediaType) → Option MediaType
lookup_text k [] = none
lookup_text k ((j, v) ∷ m) = if text_eq j k then some v else lookup_text k m

unfoldable pub media_type_of : Text → Option MediaType
media_type_of mime = lookup_text mime supported_mime_types

-- The fields as `validateInitiate` rewrites them.
unfoldable pub normalize_input : InitiateInput → InitiateInput
normalize_input input = record input {
  filename = trim_space input.filename;
  mime_type = to_lower (trim_space (before b';' input.mime_type));
}

abbrev pub is_image : MediaType → Bool
is_image image = true
is_image video = false

abbrev check_size : MediaType → InitiateInput → Result (MediaType × InitiateInput)
check_size media_type input =
    if not (ltb_ℤ (pos 0) input.size_bytes)
    then err invalid_input
    else if is_image media_type && ltb_ℤ (pos max_image_size) input.size_bytes
    then err invalid_input
    else if not (is_image media_type) && ltb_ℤ (pos max_video_size) input.size_bytes
    then err invalid_input
    else ok (media_type, input)

abbrev check_type : Option MediaType → InitiateInput → Result (MediaType × InitiateInput)
check_type none input = err invalid_input
check_type (some media_type) input = check_size media_type input

unfoldable pub validate_initiate : InitiateInput → Result (MediaType × InitiateInput)
validate_initiate raw =
    let input = normalize_input raw in
    let count = length input.filename in
    if ltb count 1 || ltb 255 count
    then err invalid_input
    else if any is_control input.filename
    then err invalid_input
    else check_type (media_type_of input.mime_type) input

abbrev pub max_size : MediaType → ℕ
max_size image = max_image_size
max_size video = max_video_size

-- What a caller of `validateInitiate` may rely on.
pub record IsUploadable (media_type : MediaType) (input : InitiateInput) : Type 0 where
  pub named : 1 ≤ length input.filename
  pub short : length input.filename ≤ 255
  pub printable : any is_control input.filename ≡ false
  pub supported : media_type_of input.mime_type ≡ some media_type
  pub positive : 0 < pos_part input.size_bytes
  pub fits : pos_part input.size_bytes ≤ max_size media_type

validate_initiate_sound :
    (raw : InitiateInput) (media_type : MediaType) (input : InitiateInput)
    → validate_initiate raw ≡ ok (media_type, input)
    → (input ≡ normalize_input raw) × IsUploadable media_type input
unfolding validate_initiate
validate_initiate_sound raw image input h = ground arith
validate_initiate_sound raw _ input h = ground arith

validate_initiate_complete :
    (raw : InitiateInput) (media_type : MediaType)
    → IsUploadable media_type (normalize_input raw)
    → validate_initiate raw ≡ ok (media_type, normalize_input raw)
unfolding validate_initiate
validate_initiate_complete raw image h = ground arith
validate_initiate_complete raw _ h = ground arith

-- A request passes exactly when its trimmed name has 1 to 255 characters and no control character,
-- its MIME type, cut at `;`, trimmed and in lower case, is a supported one of the returned media
-- type, and its size is positive and within the limit of that type; the input that is passed on is
-- the normalised one.
pub validate_initiate_iff :
    (raw : InitiateInput) (media_type : MediaType) (input : InitiateInput)
    → (validate_initiate raw ≡ ok (media_type, input))
      ↔ ((input ≡ normalize_input raw) × IsUploadable media_type input)
validate_initiate_iff raw media_type input = (
  validate_initiate_sound raw media_type input,
  λ h.
      subst (λ i. validate_initiate raw ≡ ok (media_type, i)) (sym h.0)
        (validate_initiate_complete raw media_type (subst (IsUploadable media_type) h.0 h.1)),
)
