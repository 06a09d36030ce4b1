-- ===== src/Tests/Secrets.antt =====
-- The hash of a secret and its test.
use zhyvo.Base.{◌≡◌, refl, some, arith}
use zhyvo.Base.Text.{codes, text_eq}
use zhyvo.Room.Password.{secret_key, hash_secret, verify_secret}
use zhyvo.Room.Password.Verify.{verify_secret-hash_secret}
use zhyvo.Tests.Sample.{calm}

verify_secret-hash_secret_example :
    verify_secret calm.id_key (hash_secret calm.id_key calm.salt (codes "1234")) (codes "1235")
    ≡ some (
        text_eq
          (secret_key calm.id_key (codes "1235") calm.salt)
          (secret_key calm.id_key (codes "1234") calm.salt))
verify_secret-hash_secret_example =
    verify_secret-hash_secret calm.id_key calm.salt (codes "1234") (codes "1235") (omega arith)
      (omega arith) (omega arith) (omega arith) refl
