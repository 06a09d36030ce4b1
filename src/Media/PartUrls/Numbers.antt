-- ===== src/Media/PartUrls/Numbers.antt =====
-- Which part numbers get a URL.
use zhyvo.Base.{
  ℕ, ◌≡◌, ◌≤◌, refl, sym, ap, ◌∙◌, inl, inr, List, [], ◌∷◌, map, Option, none, some, true, false,
  ◌||◌, ltb, any, length, All, All-map, Bool-cases, arith,
}
use zhyvo.Base.Int.{ℤ, pos, negsuc, eq_ℤ}
use zhyvo.Base.Text.{Text}
use zhyvo.Exec.{Env, World, ok, Result-cases}
use zhyvo.Media.Types.{Upload, PartUrl, max_parts_batch}
use zhyvo.Media.PartUrls.{in_range, sign_part, sign_parts, urls_of, part_urls}
use zhyvo.Media.Queries.{load_upload}
use zhyvo.Schema.{is_completed, is_over, is_multipart}

-- No number stands twice.
abbrev pub AreDistinct : List ℤ → Type 0
AreDistinct [] = Unit
AreDistinct (n ∷ ns) = (any (eq_ℤ n) ns ≡ false) × AreDistinct ns

eq_ℤ_sym : (a b : ℤ) → eq_ℤ a b ≡ eq_ℤ b a
eq_ℤ_sym (pos a) (pos b) = ground arith
eq_ℤ_sym (negsuc a) (negsuc b) = ground arith
eq_ℤ_sym (pos a) (negsuc b) = refl
eq_ℤ_sym (negsuc a) (pos b) = refl

absent :
    (n : ℤ) (seen ns : List ℤ)
    → All (λ m. any (eq_ℤ m) (n ∷ seen) ≡ false) ns
    → any (eq_ℤ n) ns ≡ false
absent n seen [] h = refl
absent n seen (m ∷ ns) h = ground (arith, eq_ℤ_sym n m, absent n seen ns h.1)

unseen :
    (n : ℤ) (seen ns : List ℤ)
    → All (λ m. any (eq_ℤ m) (n ∷ seen) ≡ false) ns
    → All (λ m. any (eq_ℤ m) seen ≡ false) ns
unseen n seen ns h = All-map ns (λ m e. ground arith) h

sign_part-number :
    (env : Env) (upload : Upload) (id : Text) (number : ℤ) (w : World) (url : PartUrl)
    → (sign_part env upload id number w).0 ≡ ok url
    → url.part_number ≡ number
sign_part-number env upload id number w url h = ground arith

sign_parts-step :
    (env : Env) (upload : Upload) (id : Text) (count : ℕ) (seen : List ℤ) (n : ℤ) (ns : List ℤ)
    (w : World) (urls : List PartUrl)
    → (sign_parts env upload id count seen (n ∷ ns) w).0 ≡ ok urls
    → (in_range count n ≡ true)
      × (any (eq_ℤ n) seen ≡ false)
      × ((url : PartUrl) × (rest : List PartUrl) × (urls ≡ url ∷ rest)
          × (url.part_number ≡ n)
          × ((v : World) × ((sign_parts env upload id count (n ∷ seen) ns v).0 ≡ ok rest)))
unfolding sign_parts
sign_parts-step env upload id count seen n ns w urls h = elim (Bool-cases (in_range count n)) [
  | inr out ↦ absurd (ground arith)
  | inl inside ↦ elim (Bool-cases (any (eq_ℤ n) seen)) [
    | inl again ↦ absurd (ground arith)
    | inr first ↦ elim (Result-cases (sign_part env upload id n w).0) [
      | inl (e, failed) ↦ absurd (ground arith)
      | inr (url, signed) ↦
          let v = (sign_part env upload id n w).1 in
          elim (Result-cases (sign_parts env upload id count (n ∷ seen) ns v).0) [
            | inl (e, failed) ↦ absurd (ground arith)
            | inr (rest, done) ↦ (
              inside,
              first,
              (url, rest, ground arith, sign_part-number env upload id n w url signed, (v, done)),
            )
          ]
    ]
  ]
]

sign_parts-numbers :
    (env : Env) (upload : Upload) (id : Text) (count : ℕ) (seen numbers : List ℤ) (w : World)
    (urls : List PartUrl)
    → (sign_parts env upload id count seen numbers w).0 ≡ ok urls
    → (map (λ u. u.part_number) urls ≡ numbers)
      × All (λ n. in_range count n ≡ true) numbers
      × AreDistinct numbers
      × All (λ m. any (eq_ℤ m) seen ≡ false) numbers
unfolding sign_parts
sign_parts-numbers env upload id count seen [] w [] h = (refl, tt, tt, tt)
sign_parts-numbers env upload id count seen [] w (u ∷ us) h = absurd (ground arith)
sign_parts-numbers env upload id count seen (n ∷ ns) w urls h =
    let (inside, first, (url, rest, is, number, (v, done))) =
      sign_parts-step env upload id count seen n ns w urls h in
    let (same, ranged, distinct, fresh) =
      sign_parts-numbers env upload id count (n ∷ seen) ns v rest done in
    (
      ap (map (λ u. u.part_number)) is
          ∙ ap (λ (x : ℤ × List ℤ). x.0 ∷ x.1) (λ i. (number i, same i)),
      (inside, ranged),
      (absent n seen ns fresh, distinct),
      (first, unseen n seen ns fresh),
    )

urls_of-numbers :
    (env : Env) (upload_id : ℕ) (numbers : List ℤ) (upload : Upload) (parts : Option ℕ)
    (id : Option Text) (w : World) (urls : List PartUrl)
    → (urls_of env upload_id numbers upload parts id w).0 ≡ ok urls
    → (count : ℕ) × (parts ≡ some count)
      × (is_completed upload.status ≡ false)
      × (is_over upload.status ≡ false)
      × (map (λ u. u.part_number) urls ≡ numbers)
      × All (λ n. in_range count n ≡ true) numbers
      × AreDistinct numbers
urls_of-numbers env upload_id numbers upload none id w urls h = absurd (ground arith)
urls_of-numbers env upload_id numbers upload (some count) none w urls h = absurd (ground arith)
urls_of-numbers env upload_id numbers upload (some count) (some id) w urls h =
    let signed = sign_parts env upload id count [] numbers w in
    elim (Bool-cases (is_multipart upload.upload_type)) [
      | inr small ↦ absurd (ground arith)
      | inl large ↦ elim (Result-cases signed.0) [
        | inl (e, failed) ↦ absurd (ground arith)
        | inr (us, done) ↦
            let (same, ranged, distinct, fresh) =
              sign_parts-numbers env upload id count [] numbers w us done in
            let is : us ≡ urls = ground arith in
            (
              count,
              refl,
              ground arith,
              ground arith,
              ap (map (λ u. u.part_number)) (sym is) ∙ same,
              ranged,
              distinct,
            )
      ]
    ]

-- URLs are handed out for exactly the numbers that were asked for, in their order: between 1 and 20
-- of them, all different, each a part of the caller's upload, which is neither completed nor over.
pub part_urls-numbers :
    (env : Env) (identity_id upload_id : ℕ) (numbers : List ℤ) (w : World) (urls : List PartUrl)
    → (part_urls env identity_id upload_id numbers w).0 ≡ ok urls
    → (1 ≤ length numbers)
      × (length numbers ≤ 20)
      × ((upload : Upload) × (count : ℕ) × ((load_upload env identity_id upload_id w).0 ≡ ok upload)
          × (upload.parts_count ≡ some count)
          × (is_completed upload.status ≡ false)
          × (is_over upload.status ≡ false)
          × (map (λ u. u.part_number) urls ≡ numbers)
          × All (λ n. in_range count n ≡ true) numbers
          × AreDistinct numbers)
unfolding part_urls
part_urls-numbers env identity_id upload_id numbers w urls h =
    let loaded = load_upload env identity_id upload_id w in
    elim (Bool-cases (ltb (length numbers) 1 || ltb max_parts_batch (length numbers))) [
      | inl many ↦ absurd (ground arith)
      | inr few ↦ elim (Result-cases loaded.0) [
        | inl (e, failed) ↦ absurd (ground arith)
        | inr (upload, found) ↦
            let (count, parts, live, going, same, ranged, distinct) =
              urls_of-numbers env upload_id numbers upload upload.parts_count
                upload.storage_upload_id loaded.1 urls (ground arith) in
            (
              ground arith,
              ground arith,
              (upload, count, found, parts, live, going, same, ranged, distinct),
            )
      ]
    ]
