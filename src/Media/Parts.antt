-- ===== src/Media/Parts.antt =====
-- `validateCompletedParts`: the list of parts that ends a multipart upload.
pub mod Numbered
use zhyvo.Base.{
  ℕ, zero, suc, ◌+◌, ◌≤◌, List, [], ◌∷◌, map, ◌≡◌, refl, inl, inr, Option, none, some, Bool, true,
  false, ◌||◌, not, ltb, ◌==◌, length, all, All, Bool-cases, arith, if◌then◌else◌,
}
use zhyvo.Base.Int.{ℤ, pos, negsuc, ltb_ℤ}
use zhyvo.Base.Text.{Text, trim_space, text_eq, byte_length}
use zhyvo.Exec.{CompletedPart, Result, ok, err, invalid_upload_parts}

-- `sort.Slice` by part number. Parts with one number twice are refused whatever their order.
unfoldable pub insert_part : CompletedPart → List CompletedPart → List CompletedPart
insert_part p [] = p ∷ []
insert_part p (q ∷ qs) =
    let rest = insert_part p qs in
    if ltb_ℤ q.part_number p.part_number then q ∷ rest else p ∷ q ∷ qs

unfoldable pub sort_parts : List CompletedPart → List CompletedPart
unfolding insert_part
sort_parts [] = []
sort_parts (p ∷ ps) = insert_part p (sort_parts ps)

abbrev pub is_number : ℕ → ℤ → Bool
is_number n (pos m) = m == n
is_number n (negsuc m) = false

unfoldable pub trim_part : CompletedPart → CompletedPart
trim_part p = record p { etag = trim_space p.etag }

abbrev pub is_empty : Text → Bool
is_empty [] = true
is_empty (c ∷ s) = false

abbrev pub prepend : CompletedPart → Result (List CompletedPart) → Result (List CompletedPart)
prepend p (ok ps) = ok (p ∷ ps)
prepend p (err e) = err e

-- The loop over the sorted parts; `index` is the position of the first of them.
unfoldable pub check_parts : ℕ → List CompletedPart → Result (List CompletedPart)
check_parts index [] = ok []
check_parts index (part ∷ parts) =
    let rest = check_parts (suc index) parts in
    if not (is_number (suc index) part.part_number)
      || is_empty (trim_space part.etag)
      || ltb 256 (byte_length part.etag)
    then err invalid_upload_parts
    else prepend (trim_part part) rest

unfoldable pub validate_completed_parts :
    List CompletedPart → Option ℕ → Result (List CompletedPart)
unfolding sort_parts check_parts
validate_completed_parts parts none = err invalid_upload_parts
validate_completed_parts parts (some count) =
    if not (length parts == count)
    then err invalid_upload_parts
    else check_parts 0 (sort_parts parts)
