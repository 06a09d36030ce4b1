-- ===== src/Config/Valid.antt =====
-- Which settings are accepted.
use zhyvo.Base.{
  ℕ, ◌*◌, ◌≡◌, ◌≢◌, ◌≤◌, ◌<◌, ◌↔◌, refl, sym, ap, ◌⊎◌, inl, inr, [], ◌∷◌, Option, false, ◌||◌, not,
  subst, arith,
}
use zhyvo.Base.Int.{ℤ, pos, negsuc, ltb_ℤ}
use zhyvo.Base.Text.{Text, text_eq, byte_length}
use zhyvo.Config.{
  Config, Loaded, loaded, failed, ConfigError, hour, read, check, load, is_blank, not_positive,
}

-- A duration above zero, and one that is at most a day.
abbrev pub IsPositive : ℤ → Type 0
IsPositive d = (n : ℕ) × (d ≡ pos n) × (1 ≤ n)

abbrev pub IsWithinDay : ℤ → Type 0
IsWithinDay d = (n : ℕ) × (d ≡ pos n) × (1 ≤ n) × (n ≤ 24 * hour)

abbrev pub IsBelow : ℤ → ℤ → Type 0
IsBelow a b = (m : ℕ) × (n : ℕ) × (a ≡ pos m) × (b ≡ pos n) × (1 ≤ m) × (m < n)

pub record IsValid (c : Config) : Type 0 where
  pub database : c.database_url ≢ []
  pub access_key : c.s3.access_key ≢ []
  pub secret_key : c.s3.secret_key ≢ []
  pub presign_ttl : IsWithinDay c.s3.presign_ttl
  pub cleanup : IsPositive c.cleanup_interval
  pub thumbnails : IsPositive c.thumbnail_interval
  pub secret : 32 ≤ byte_length c.auth.access_secret
  pub tokens : IsBelow c.auth.access_ttl c.auth.refresh_ttl
  pub telegram : IsWithinDay c.telegram.init_data_ttl

not_positive-false : (d : ℤ) → (not_positive d ≡ false) ↔ IsPositive d
not_positive-false (pos n) = (λ h. (n, refl, ground arith), λ (m, e, h). ground arith)
not_positive-false (negsuc n) = (λ h. absurd (ground arith), λ (m, e, h). absurd (ground arith))

outside_day-false :
    (d : ℤ) → ((not_positive d || ltb_ℤ (pos (24 * hour)) d) ≡ false) ↔ IsWithinDay d
outside_day-false (pos n) =
    (λ h. (n, refl, ground arith, ground arith), λ (m, e, h, k). ground arith)
outside_day-false (negsuc n) = (λ h. absurd (ground arith), λ (m, e, h, k). absurd (ground arith))

out_of_order-false : (a b : ℤ) → ((not_positive a || not (ltb_ℤ a b)) ≡ false) ↔ IsBelow a b
out_of_order-false (pos m) (pos n) =
    (λ h. (m, n, refl, refl, ground arith, ground arith), λ (m', n', e, f, h, k). ground arith)
out_of_order-false (negsuc m) b =
    (λ h. absurd (ground arith), λ (m', n', e, f, h, k). absurd (ground arith))
out_of_order-false (pos m) (negsuc n) =
    (λ h. absurd (ground arith), λ (m', n', e, f, h, k). absurd (ground arith))

blank-false : (s : Text) → (is_blank s ≡ false) ↔ (s ≢ [])
unfolding text_eq
blank-false [] = (λ h. absurd (ground arith), λ n. absurd (n refl))
blank-false (c ∷ s) = (λ h e. absurd (ground arith), λ n. ground arith)

-- The checks accept exactly the valid settings, and return them as they are.
check_iff : (c c' : Config) → (check c ≡ loaded c') ↔ ((c' ≡ c) × IsValid c)
unfolding check
check_iff c c' = (
  λ h. (
    ground arith,
    record {
      database = (blank-false c.database_url).0 (ground arith);
      access_key = (blank-false c.s3.access_key).0 (ground arith);
      secret_key = (blank-false c.s3.secret_key).0 (ground arith);
      presign_ttl = (outside_day-false c.s3.presign_ttl).0 (ground arith);
      cleanup = (not_positive-false c.cleanup_interval).0 (ground arith);
      thumbnails = (not_positive-false c.thumbnail_interval).0 (ground arith);
      secret = ground arith;
      tokens = (out_of_order-false c.auth.access_ttl c.auth.refresh_ttl).0 (ground arith);
      telegram = (outside_day-false c.telegram.init_data_ttl).0 (ground arith);
    },
  ),
  λ (same, v).
      rw
        (
          same,
          (blank-false c.database_url).1 v.database,
          (blank-false c.s3.access_key).1 v.access_key,
          (blank-false c.s3.secret_key).1 v.secret_key,
          (outside_day-false c.s3.presign_ttl).1 v.presign_ttl,
          (not_positive-false c.cleanup_interval).1 v.cleanup,
          (not_positive-false c.thumbnail_interval).1 v.thumbnails,
          (out_of_order-false c.auth.access_ttl c.auth.refresh_ttl).1 v.tokens,
          (outside_day-false c.telegram.init_data_ttl).1 v.telegram,
        )
        (ground (arith, v.secret)),
)

Loaded-cases {ℓ} :
    {A : Type ℓ} (r : Loaded A) → ((e : ConfigError) × (r ≡ failed e)) ⊎ ((a : A) × (r ≡ loaded a))
Loaded-cases (loaded a) = inr (a, refl)
Loaded-cases (failed e) = inl (e, refl)

module _ (getenv : Text → Text) (parse_duration : Text → Option ℤ) where
  -- The program starts with exactly the settings that can be read and are valid: the address of the
  -- database, the keys of the store and a secret of at least 32 bytes are given, the intervals are
  -- positive, the lifetimes of URLs and of Telegram data are above zero, if only by a nanosecond, and at
  -- most a day, and a session outlives its access tokens, which last longer than zero.
  pub load_iff :
      (c : Config)
      → (load getenv parse_duration ≡ loaded c)
        ↔ ((read getenv parse_duration ≡ loaded c) × IsValid c)
  unfolding load
  load_iff c = elim (Loaded-cases (read getenv parse_duration)) [
    | inl (e, broken) ↦ rw broken (λ h. absurd (ground arith), λ (h, v). absurd (ground arith))
    | inr (c', given) ↦ rw given (
      λ h.
          let (same, valid) = (check_iff c' c).0 h in
          (ap loaded (sym same), subst IsValid (sym same) valid),
      λ (h, v). (check_iff c' c).1 (ground arith, subst IsValid (ground arith) v),
    )
  ]
