-- ===== src/Media/Parts/Numbered.antt =====
-- What a list of parts that passes has to be.
use mathlib.Core.List.{Perm}
use mathlib.Core.List.Perm
use zhyvo.Base.{
  ℕ, suc, ◌≤◌, List, [], ◌∷◌, map, ◌≡◌, refl, ap, ◌∙◌, inl, inr, Option, none, some, Bool, true,
  false, ◌||◌, not, ltb, ◌==◌, length, Bool-cases, arith,
}
use zhyvo.Base.Int.{ℤ, pos, negsuc, ltb_ℤ}
use zhyvo.Base.Text.{trim_space, byte_length}
use zhyvo.Exec.{CompletedPart, Result, ok, err}
use zhyvo.Media.Parts.{
  insert_part, sort_parts, is_number, trim_part, is_empty, prepend, check_parts,
  validate_completed_parts,
}

insert_part-Perm : (p : CompletedPart) (ps : List CompletedPart) → Perm (insert_part p ps) (p ∷ ps)
unfolding insert_part
insert_part-Perm p [] = Perm.refl (p ∷ [])
insert_part-Perm p (q ∷ qs) = elim (Bool-cases (ltb_ℤ q.part_number p.part_number)) [
  | inl later ↦ rw later (Perm.trans (Perm.cons q (insert_part-Perm p qs)) (Perm.swap p q qs))
  | inr first ↦ rw first (Perm.refl (p ∷ q ∷ qs))
]

sort_parts-Perm : (ps : List CompletedPart) → Perm (sort_parts ps) ps
unfolding sort_parts
sort_parts-Perm [] = Perm.refl []
sort_parts-Perm (p ∷ ps) =
    Perm.trans (insert_part-Perm p (sort_parts ps)) (Perm.cons p (sort_parts-Perm ps))

-- The parts after the first `index`: their numbers go up by one, their tags are neither blank nor
-- longer than 256 bytes.
abbrev pub AreNumbered : ℕ → List CompletedPart → Type 0
AreNumbered index [] = Unit
AreNumbered index (p ∷ ps) =
    (p.part_number ≡ pos (suc index))
    × (is_empty (trim_space p.etag) ≡ false)
    × (byte_length p.etag ≤ 256)
    × AreNumbered (suc index) ps

is_number_sound : (n : ℕ) (z : ℤ) → is_number n z ≡ true → z ≡ pos n
is_number_sound n (pos m) h = ground arith
is_number_sound n (negsuc m) h = absurd (ground arith)

prepend-ok :
    (p : CompletedPart) (r : Result (List CompletedPart)) (out : List CompletedPart)
    → prepend p r ≡ ok out
    → (ps : List CompletedPart) × (r ≡ ok ps) × (p ∷ ps ≡ out)
prepend-ok p (ok ps) out h = (ps, refl, ground arith)
prepend-ok p (err e) out h = absurd (ground arith)

bad_part : ℕ → CompletedPart → Bool
bad_part index part =
    not (is_number (suc index) part.part_number)
    || is_empty (trim_space part.etag)
    || ltb 256 (byte_length part.etag)

check_parts-AreNumbered :
    (index : ℕ) (parts out : List CompletedPart)
    → check_parts index parts ≡ ok out
    → AreNumbered index parts × (map trim_part parts ≡ out)
unfolding check_parts bad_part
check_parts-AreNumbered index [] out h = (tt, ground arith)
check_parts-AreNumbered index (part ∷ parts) out h = elim (Bool-cases (bad_part index part)) [
  | inl bad ↦ absurd (ground arith)
  | inr good ↦
      let (ps, rest, is) =
        prepend-ok (trim_part part) (check_parts (suc index) parts) out (ground arith) in
      let (numbered, trimmed) = check_parts-AreNumbered (suc index) parts ps rest in
      (
        (
          is_number_sound (suc index) part.part_number (ground arith),
          ground arith,
          ground arith,
          numbered,
        ),
        ap (λ x. trim_part part ∷ x) trimmed ∙ is,
      )
]

-- A list of parts passes only if it has as many parts as the upload; then some arrangement of it is
-- numbered from 1 without gaps, with good tags, and that arrangement with its tags trimmed is what
-- the object store is given.
pub validate_completed_parts-AreNumbered :
    (parts : List CompletedPart) (count : Option ℕ) (out : List CompletedPart)
    → validate_completed_parts parts count ≡ ok out
    → (count ≡ some (length parts))
      × ((sorted : List CompletedPart) × Perm sorted parts
          × AreNumbered 0 sorted
          × (map trim_part sorted ≡ out))
unfolding validate_completed_parts
validate_completed_parts-AreNumbered parts none out h = absurd (ground arith)
validate_completed_parts-AreNumbered parts (some count) out h =
    elim (Bool-cases (length parts == count)) [
      | inr other ↦ absurd (ground arith)
      | inl same ↦
          let (numbered, trimmed) =
            check_parts-AreNumbered 0 (sort_parts parts) out (ground arith) in
          (ground arith, (sort_parts parts, sort_parts-Perm parts, numbered, trimmed))
    ]
