-- ===== src/Room/Password/Verify.antt =====
-- A hash that `hashSecret` wrote is one that `verifySecret` reads.
use zhyvo.Base.{
  ℕ, ◌≡◌, ◌≤◌, refl, List, [], ◌∷◌, ◌++◌, some, false, ◌==◌, ==_refl, any, length, arith,
}
use zhyvo.Base.Text.{Text, codes, text_eq}
use zhyvo.Base.Decimal.{decimal}
use zhyvo.Base.Base64.{encode, AreBytes, decode-encode, encode-dollar_free}
use zhyvo.Room.Password.{
  split, scan_parameters, secret_key, hash_secret, verify_key, verify_parts, verify_secret,
  argon_memory, argon_iterations, argon_parallelism,
}

split-free : (sep : ℕ) (s : Text) → any (λ c. c == sep) s ≡ false → split sep s ≡ s ∷ []
unfolding split
split-free sep [] h = refl
split-free sep (c ∷ s) h = ground (arith, split-free sep s)

split-append :
    (sep : ℕ) (s t : Text)
    → any (λ c. c == sep) s ≡ false
    → split sep (s ++ (sep ∷ t)) ≡ s ∷ split sep t
unfolding split
split-append sep [] t h = rw (==_refl sep) refl
split-append sep (c ∷ s) t h = ground (arith, split-append sep s t)

abbrev parameters : Text
parameters = codes "m=65536,t=3,p=2"

scan_parameters_written :
    scan_parameters parameters ≡ some (argon_memory, argon_iterations, argon_parallelism)
unfolding scan_parameters
scan_parameters_written = refl

module _ (id_key : Text → List ℕ → ℕ → ℕ → ℕ → ℕ → List ℕ) (salt : List ℕ) (secret : Text) where
  abbrev key : List ℕ
  key = secret_key id_key secret salt

  split-hash_secret :
      AreBytes salt
      → AreBytes key
      → split b'$' (hash_secret id_key salt secret)
        ≡ [] ∷ codes "argon2id" ∷ codes "v=19" ∷ parameters ∷ encode salt ∷ encode key ∷ []
  unfolding split hash_secret decimal
  split-hash_secret salty keyed =
      rw
        (
          split-append b'$' (encode salt) (encode key) (encode-dollar_free salt salty),
          split-free b'$' (encode key) (encode-dollar_free key keyed),
        )
        refl

  -- A secret is tested against a hash of `hash_secret` by the key that it derives: the hash is well
  -- formed, whatever the secret, and the answer is whether the two keys agree. The salt has 8 to 64
  -- bytes, and the key function returns the 32 bytes that it is asked for.
  pub verify_secret-hash_secret :
      (guess : Text)
      → AreBytes salt
      → 8 ≤ length salt
      → length salt ≤ 64
      → AreBytes key
      → length key ≡ 32
      → verify_secret id_key (hash_secret id_key salt secret) guess
        ≡ some (text_eq (secret_key id_key guess salt) key)
  unfolding verify_secret verify_parts verify_key text_eq
  verify_secret-hash_secret guess salty low high keyed long =
      rw
        (
          split-hash_secret salty keyed,
          scan_parameters_written,
          decode-encode salt salty,
          decode-encode key keyed,
        )
        (ground (arith, long))
