-- ===== src/ObjectStore/Presign/Bounds.antt =====
-- How long a signed URL lasts.
use zhyvo.Base.{
  ℕ, ◌+◌, ◌≤◌, ◌≡◌, refl, [], ◌∷◌, ◌⊎◌, inl, inr, Option, List, some, Option-cases, arith,
}
use zhyvo.Base.Int.{ℤ}
use zhyvo.Base.Text.{Text, codes}
use zhyvo.Base.Decimal.{format_int}
use zhyvo.Config.{second}
use zhyvo.ObjectStore.Presign.{
  Store, StoreError, Outcome, got, lost, signed, effective_presign_ttl, presign_put, presign_part,
}

Outcome-cases {ℓ} :
    {A : Type ℓ} (o : Outcome A) → ((e : StoreError) × (o ≡ lost e)) ⊎ ((a : A) × (o ≡ got a))
Outcome-cases (got a) = inr (a, refl)
Outcome-cases (lost e) = inl (e, refl)

module _ (s : Store) (expiry : ℕ) where
  -- The lifetime is what is left of the session, but no more than the configured one; with less than a
  -- second there is no URL.
  effective_presign_ttl_bounds :
      (ttl ends : ℕ)
      → effective_presign_ttl s expiry ≡ got (ttl, ends)
      → (second ≤ ttl) × (ttl ≤ s.presign_ttl) × (s.before + ttl ≤ expiry) × (ends ≡ s.after + ttl)
  unfolding effective_presign_ttl
  effective_presign_ttl_bounds ttl ends found =
      (ground arith, ground arith, ground arith, ground arith)

  -- What was signed, and until when.
  abbrev pub Signed : (ℕ → Option Text) → Text → ℕ → Type 0
  Signed sign url ends =
      (ttl : ℕ) × (sign ttl ≡ some url)
      × (second ≤ ttl)
      × (ttl ≤ s.presign_ttl)
      × (s.before + ttl ≤ expiry)
      × (ends ≡ s.after + ttl)

  signed-Signed :
      (sign : ℕ → Option Text) (ttl ends : ℕ) (url : Text) (until : ℕ)
      → effective_presign_ttl s expiry ≡ got (ttl, ends)
      → signed (sign ttl) ends ≡ got (url, until)
      → Signed sign url until
  signed-Signed sign ttl ends url until allowed made =
      let (long, short, within, last) = effective_presign_ttl_bounds ttl ends allowed in
      elim (Option-cases (sign ttl)) [
        | inl e ↦ absurd (ground arith)
        | inr (u, e) ↦ (ttl, ground arith, long, short, within, ground arith)
      ]

  -- A URL for an upload, whole or of one part, is signed for at least a second, and for no longer than
  -- the configured lifetime and what was left of the upload session when the clock was first read. The
  -- end that is returned is that lifetime from the second reading on, so it passes the end of the
  -- session by at most the time between the two.
  pub presign_bounds :
      (key content_type upload_id : Text) (number : ℤ) (url : Text) (ends : ℕ)
      → (presign_put s key content_type expiry ≡ got (url, ends))
        ⊎ (presign_part s key upload_id number expiry ≡ got (url, ends))
      → (ttl : ℕ) × (parameters : List (Text × Text)) × (s.minio.presign
            (codes "PUT")
            key
            ttl
            parameters
          ≡ some url)
        × (second ≤ ttl)
        × (ttl ≤ s.presign_ttl)
        × (s.before + ttl ≤ expiry)
        × (ends ≡ s.after + ttl)
        × (ends + s.before ≤ expiry + s.after)
  unfolding presign_put presign_part
  presign_bounds key content_type upload_id number url ends made =
      elim (Outcome-cases (effective_presign_ttl s expiry)) [
        | inl (e, over) ↦ elim made [
          | inl h ↦ absurd (ground arith)
          | inr h ↦ absurd (ground arith)
        ]
        | inr ((ttl, until), allowed) ↦ elim made [
          | inl h ↦
              let parameters = (codes "Content-Type", content_type) ∷ [] in
              let (used, is, long, short, within, last) =
                signed-Signed (λ t. s.minio.presign (codes "PUT") key t parameters) ttl until url
                  ends allowed (rw allowed at h) in
              (used, parameters, is, long, short, within, last, omega (arith, within, last))
          | inr h ↦
              let parameters =
                (codes "partNumber", format_int number) ∷ (codes "uploadId", upload_id) ∷ [] in
              let (used, is, long, short, within, last) =
                signed-Signed (λ t. s.minio.presign (codes "PUT") key t parameters) ttl until url
                  ends allowed (rw allowed at h) in
              (used, parameters, is, long, short, within, last, omega (arith, within, last))
        ]
      ]
