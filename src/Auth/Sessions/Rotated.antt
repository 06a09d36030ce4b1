-- ===== src/Auth/Sessions/Rotated.antt =====
-- What the table of sessions holds after a rotation and after a revocation.
use zhyvo.Base.{
  ℕ, ◌≡◌, ◌≢◌, refl, sym, inl, inr, List, [], ◌∷◌, Option, none, some, Bool, false, ◌&&◌, not, ◌==◌,
  ==_iff, any, All, Bool-cases, subst, arith, if◌then◌else◌,
}
use zhyvo.Base.Table.{find_key, Distinct}
use zhyvo.Schema.{SessionRow}
use zhyvo.Auth.Types.{Principal}
use zhyvo.Auth.Sessions.{is_current, rotate_rows, is_revocable, revoke_rows, is_session_of}

abbrev token_of : SessionRow → ℕ
token_of s = s.token_hash

module _ (id old new now : ℕ) where
  abbrev pub clashes : SessionRow → Bool
  clashes s = s.token_hash == new && not (is_current id old s)

  abbrev pub rotated : SessionRow → SessionRow
  rotated s = record s { token_hash = new; last_used_at = now }

  pub find_key-rotate_rows-other :
      (h : ℕ) (rows : List SessionRow)
      → h ≢ old
      → h ≢ new
      → find_key token_of h (rotate_rows id old new now rows) ≡ find_key token_of h rows
  unfolding find_key rotate_rows
  find_key-rotate_rows-other h [] n m = refl
  find_key-rotate_rows-other h (s ∷ rows) n m =
      ground (arith, find_key-rotate_rows-other h rows n m)

  pub find_key-rotate_rows-new :
      (rows : List SessionRow) (s : SessionRow)
      → find_key token_of old rows ≡ some s
      → s.id ≡ id
      → any clashes rows ≡ false
      → find_key token_of new (rotate_rows id old new now rows) ≡ some (rotated s)
  unfolding find_key rotate_rows
  find_key-rotate_rows-new [] s found own free = absurd (ground arith)
  find_key-rotate_rows-new (x ∷ rows) s found own free =
      ground (arith, find_key-rotate_rows-new rows s)

  absent :
      (rows : List SessionRow)
      → new ≢ old
      → All (λ y. token_of y ≢ old) rows
      → find_key token_of old (rotate_rows id old new now rows) ≡ none
  unfolding find_key rotate_rows
  absent [] fresh h = refl
  absent (x ∷ rows) fresh h = ground (arith, absent rows fresh h.1, h.0)

  pub find_key-rotate_rows-old :
      (rows : List SessionRow) (s : SessionRow)
      → Distinct token_of rows
      → find_key token_of old rows ≡ some s
      → s.id ≡ id
      → new ≢ old
      → find_key token_of old (rotate_rows id old new now rows) ≡ none
  unfolding find_key rotate_rows
  find_key-rotate_rows-old [] s keys found own fresh = absurd (ground arith)
  find_key-rotate_rows-old (x ∷ rows) s keys found own fresh =
      elim (Bool-cases (x.token_hash == old)) [
        | inl e ↦
            let rest =
              absent rows fresh
                (subst (λ k. All (λ y. token_of y ≢ k) rows) ((==_iff _ _).0 e) keys.0) in
            ground (arith, rest)
        | inr e ↦ ground (arith, find_key-rotate_rows-old rows s keys.1)
      ]

  others_kept :
      (k : ℕ) (rows : List SessionRow)
      → k ≢ new
      → All (λ y. token_of y ≢ k) rows
      → All (λ y. token_of y ≢ k) (rotate_rows id old new now rows)
  unfolding rotate_rows
  others_kept k [] n h = tt
  others_kept k (x ∷ rows) n h = (
    elim (Bool-cases (is_current id old x)) [ inl e ↦ rw e (λ q. n (sym q)) | inr e ↦ rw e h.0 ],
    others_kept k rows n h.1,
  )

  new_free :
      (rows : List SessionRow)
      → any clashes rows ≡ false
      → All (λ y. token_of y ≢ old) rows
      → All (λ y. token_of y ≢ new) (rotate_rows id old new now rows)
  unfolding rotate_rows
  new_free [] free h = tt
  new_free (x ∷ rows) free h = elim (Bool-cases (is_current id old x)) [
    | inl e ↦ absurd (h.0 (ground arith))
    | inr e ↦ (rw e (λ q. absurd (ground arith)), new_free rows (ground arith) h.1)
  ]

  -- The rotation keeps the hashes apart.
  pub Distinct-rotate_rows :
      (rows : List SessionRow)
      → any clashes rows ≡ false
      → Distinct token_of rows
      → Distinct token_of (rotate_rows id old new now rows)
  unfolding rotate_rows
  Distinct-rotate_rows [] free keys = tt
  Distinct-rotate_rows (x ∷ rows) free keys =
      let rest = Distinct-rotate_rows rows (ground arith) keys.1 in
      elim (Bool-cases (is_current id old x)) [
        | inl e ↦ rw e (
          new_free rows (ground arith)
              (subst (λ k. All (λ y. token_of y ≢ k) rows) (ground arith) keys.0),
          rest,
        )
        | inr e ↦ rw e (others_kept x.token_hash rows (λ q. absurd (ground arith)) keys.0, rest)
      ]

module _ (now id identity_id : ℕ) where
  abbrev pub spare : SessionRow → SessionRow
  spare s = if is_revocable id identity_id s then record s { revoked_at = some now } else s

  abbrev pub map_found : Option SessionRow → Option SessionRow
  map_found none = none
  map_found (some s) = some (spare s)

  pub find_key-revoke_rows :
      (h : ℕ) (rows : List SessionRow)
      → find_key token_of h (revoke_rows now id identity_id rows)
        ≡ map_found (find_key token_of h rows)
  unfolding find_key revoke_rows
  find_key-revoke_rows h [] = refl
  find_key-revoke_rows h (s ∷ rows) = ground (arith, find_key-revoke_rows h rows)

  pub any-revoke_rows :
      (t : ℕ) (p : Principal) (rows : List SessionRow)
      → any (is_session_of t p) (revoke_rows now id identity_id rows)
        ≡ (not (p.session_id == id && p.identity_id == identity_id) && any (is_session_of t p) rows)
  unfolding revoke_rows
  any-revoke_rows t p [] = ground arith
  any-revoke_rows t p (s ∷ rows) = ground (arith, any-revoke_rows t p rows)

pub find_key-absent :
    (h : ℕ) (rows : List SessionRow)
    → any (λ s. s.token_hash == h) rows ≡ false
    → (find_key token_of h rows ≡ none) × All (λ s. token_of s ≢ h) rows
unfolding find_key
find_key-absent h [] free = (refl, tt)
find_key-absent h (s ∷ rows) free =
    let (rest, others) = find_key-absent h rows (ground arith) in
    (ground (arith, rest), ((λ e. absurd (ground arith)), others))

pub All-revoke_rows :
    (now id identity_id k : ℕ) (rows : List SessionRow)
    → All (λ s. token_of s ≢ k) rows
    → All (λ s. token_of s ≢ k) (revoke_rows now id identity_id rows)
unfolding revoke_rows
All-revoke_rows now id identity_id k [] h = tt
All-revoke_rows now id identity_id k (s ∷ rows) h = (
  elim (Bool-cases (is_revocable id identity_id s)) [ inl e ↦ rw e h.0 | inr e ↦ rw e h.0 ],
  All-revoke_rows now id identity_id k rows h.1,
)

pub Distinct-revoke_rows :
    (now id identity_id : ℕ) (rows : List SessionRow)
    → Distinct token_of rows
    → Distinct token_of (revoke_rows now id identity_id rows)
unfolding revoke_rows
Distinct-revoke_rows now id identity_id [] h = tt
Distinct-revoke_rows now id identity_id (s ∷ rows) h =
    let others = All-revoke_rows now id identity_id s.token_hash rows h.0 in
    let rest = Distinct-revoke_rows now id identity_id rows h.1 in
    elim (Bool-cases (is_revocable id identity_id s)) [
      | inl e ↦ rw e (others, rest)
      | inr e ↦ rw e (others, rest)
    ]
