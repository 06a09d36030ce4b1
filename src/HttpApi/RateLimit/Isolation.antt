-- ===== src/HttpApi/RateLimit/Isolation.antt =====
-- Clients do not spend one another's tokens, and the idle ones are forgotten.
use zhyvo.Base.{
  ℕ, ◌≡◌, inl, inr, refl, sym, ◌∙◌, List, [], ◌∷◌, Option, none, some, Bool, true, false, All,
  Bool-cases, subst, arith, if◌then◌else◌,
}
use zhyvo.Base.Text.{Text, text_eq, text_eq_refl, text_eq_iff}
use zhyvo.HttpApi.RateLimit.{
  Visitor, RateLimiter, lookup, put, is_stale, sweep, is_due, cleaned, limiter_of, allow,
}

text_eq_flip : (a b : Text) → text_eq a b ≡ false → text_eq b a ≡ false
text_eq_flip a b h = elim (Bool-cases (text_eq b a)) [
  | inl t ↦
      absurd (
        ground (arith, h, subst (λ x. text_eq x b ≡ true) ((text_eq_iff b a).0 t) (text_eq_refl b)))
  | inr f ↦ f
]

module _ {Limiter : Type 0} where
  -- The list is a map.
  abbrev pub IsMap : List (Text × Visitor Limiter) → Type 0
  IsMap [] = Unit
  IsMap ((k, v) ∷ rows) = (lookup k rows ≡ none) × IsMap rows

  lookup-put :
      (key other : Text) (v : Visitor Limiter) (rows : List (Text × Visitor Limiter))
      → text_eq key other ≡ false
      → lookup other (put key v rows) ≡ lookup other rows
  lookup-put key other v [] apart = rw apart refl
  lookup-put key other v ((k, u) ∷ rows) apart = elim (Bool-cases (text_eq k key)) [
    | inl t ↦
        let away = subst (λ x. text_eq x other ≡ false) (sym ((text_eq_iff k key).0 t)) apart in
        rw (t, away) refl
    | inr e ↦ rw (e, lookup-put key other v rows apart) refl
  ]

  lookup-put_same :
      (key : Text) (v : Visitor Limiter) (rows : List (Text × Visitor Limiter))
      → lookup key (put key v rows) ≡ some v
  lookup-put_same key v [] = rw (text_eq_refl key) refl
  lookup-put_same key v ((k, u) ∷ rows) = elim (Bool-cases (text_eq k key)) [
    | inl t ↦ rw (t, t) refl
    | inr e ↦ rw (e, e) (lookup-put_same key v rows)
  ]

  lookup-sweep-none :
      (now : ℕ) (key : Text) (rows : List (Text × Visitor Limiter))
      → lookup key rows ≡ none
      → lookup key (sweep now rows) ≡ none
  lookup-sweep-none now key [] h = refl
  lookup-sweep-none now key ((k, v) ∷ rows) h = elim (Bool-cases (text_eq k key)) [
    | inl t ↦ absurd (ground arith)
    | inr e ↦
        let rest = lookup-sweep-none now key rows (ground (arith, e)) in
        elim (Bool-cases (is_stale now v)) [ inl s ↦ rw s rest | inr f ↦ rw (f, e) rest ]
  ]

  -- What the cleanup leaves of an entry.
  abbrev pub kept : ℕ → Option (Visitor Limiter) → Option (Visitor Limiter)
  kept now none = none
  kept now (some v) = if is_stale now v then none else some v

  lookup-sweep :
      (now : ℕ) (key : Text) (rows : List (Text × Visitor Limiter))
      → IsMap rows
      → lookup key (sweep now rows) ≡ kept now (lookup key rows)
  lookup-sweep now key [] h = refl
  lookup-sweep now key ((k, v) ∷ rows) h = elim (Bool-cases (text_eq k key)) [
    | inl t ↦
        let gone = subst (λ x. lookup x rows ≡ none) ((text_eq_iff k key).0 t) h.0 in
        elim (Bool-cases (is_stale now v)) [
          | inl s ↦ rw (s, t, s) (lookup-sweep-none now key rows gone)
          | inr f ↦ rw (f, t, f) refl
        ]
    | inr e ↦ elim (Bool-cases (is_stale now v)) [
      | inl s ↦ rw (s, e) (lookup-sweep now key rows h.1)
      | inr f ↦ rw (f, e) (lookup-sweep now key rows h.1)
    ]
  ]

  sweep-IsMap :
      (now : ℕ) (rows : List (Text × Visitor Limiter)) → IsMap rows → IsMap (sweep now rows)
  sweep-IsMap now [] h = tt
  sweep-IsMap now ((k, v) ∷ rows) h = elim (Bool-cases (is_stale now v)) [
    | inl s ↦ rw s (sweep-IsMap now rows h.1)
    | inr f ↦ rw f (lookup-sweep-none now k rows h.0, sweep-IsMap now rows h.1)
  ]

  put-IsMap :
      (key : Text) (v : Visitor Limiter) (rows : List (Text × Visitor Limiter))
      → IsMap rows
      → IsMap (put key v rows)
  put-IsMap key v [] h = (refl, tt)
  put-IsMap key v ((k, u) ∷ rows) h = elim (Bool-cases (text_eq k key)) [
    | inl t ↦ rw t h
    | inr e ↦ rw e (lookup-put key k v rows (text_eq_flip k key e) ∙ h.0, put-IsMap key v rows h.1)
  ]

  -- What a request at this time finds of a client.
  abbrev pub found_at : ℕ → Text → RateLimiter Limiter → Option (Visitor Limiter)
  found_at now key s =
      if is_due now s.last_cleanup then kept now (lookup key s.visitors) else lookup key s.visitors

  cleaned-found_at :
      (now : ℕ) (key : Text) (s : RateLimiter Limiter)
      → IsMap s.visitors
      → IsMap (cleaned now s).visitors × (lookup key (cleaned now s).visitors ≡ found_at now key s)
  cleaned-found_at now key s map = elim (Bool-cases (is_due now s.last_cleanup)) [
    | inl due ↦ rw due (sweep-IsMap now s.visitors map, lookup-sweep now key s.visitors map)
    | inr early ↦ rw early (map, refl)
  ]

  sweep-All :
      (now : ℕ) (rows : List (Text × Visitor Limiter))
      → All (λ e. is_stale now e.1 ≡ false) (sweep now rows)
  sweep-All now [] = tt
  sweep-All now ((k, v) ∷ rows) = elim (Bool-cases (is_stale now v)) [
    | inl s ↦ rw s (sweep-All now rows)
    | inr f ↦ rw f (f, sweep-All now rows)
  ]

  put-All :
      (now : ℕ) (key : Text) (v : Visitor Limiter) (rows : List (Text × Visitor Limiter))
      → is_stale now v ≡ false
      → All (λ e. is_stale now e.1 ≡ false) rows
      → All (λ e. is_stale now e.1 ≡ false) (put key v rows)
  put-All now key v [] fresh h = (fresh, tt)
  put-All now key v ((k, u) ∷ rows) fresh h = elim (Bool-cases (text_eq k key)) [
    | inl t ↦ rw t (fresh, h.1)
    | inr e ↦ rw e (h.0, put-All now key v rows fresh h.1)
  ]

module _ {Limiter : Type 0} (new_limiter : Limiter) (allow_n : ℕ → Limiter → Bool × Limiter) where
  -- A request is answered by the bucket of its own client, a new one if the client is unknown or
  -- was idle for the time of a due cleanup; it stores that bucket, and leaves the entry of another
  -- client as a due cleanup leaves it. The map keeps one entry for a key.
  pub allow-IsMap :
      (now : ℕ) (key other : Text) (s : RateLimiter Limiter)
      → IsMap s.visitors
      → text_eq key other ≡ false
      → let after = allow new_limiter allow_n now key s in
        let answer = allow_n now (limiter_of new_limiter allow_n (found_at now key s)) in
        (after.0 ≡ answer.0)
        × (lookup key after.1.visitors ≡ some (record { limiter = answer.1; last_seen = now }))
        × (lookup other after.1.visitors ≡ found_at now other s)
        × IsMap after.1.visitors
  unfolding allow
  allow-IsMap now key other s map apart =
      let (clean, own) = cleaned-found_at now key s map in
      let (_, others) = cleaned-found_at now other s map in
      let rows = (cleaned now s).visitors in
      rw own (
        refl,
        lookup-put_same key _ rows,
        lookup-put key other _ rows apart ∙ others,
        put-IsMap key _ rows clean,
      )

  -- After a request at which a cleanup is due, every client of the map was seen in the last 15 minutes.
  pub allow_forgets :
      (now : ℕ) (key : Text) (s : RateLimiter Limiter)
      → is_due now s.last_cleanup ≡ true
      → All (λ e. is_stale now e.1 ≡ false) (allow new_limiter allow_n now key s).1.visitors
  unfolding allow
  allow_forgets now key s due =
      rw due (put-All now key _ (sweep now s.visitors) (ground arith) (sweep-All now s.visitors))
