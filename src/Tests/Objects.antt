-- ===== src/Tests/Objects.antt =====
-- URLs and download names of the object store.
use zhyvo.Base.{List, ◌+◌, ◌≤◌, inl, ℕ, ◌≡◌, ◌++◌, refl, [], some, length, All}
use zhyvo.Base.Int.{pos}
use zhyvo.Base.Text.{Text, codes}
use zhyvo.ObjectStore.Disposition.{content_disposition}
use zhyvo.ObjectStore.Disposition.Safe.{IsPlain, IsToken, IsSafe, content_disposition-Safe}
use zhyvo.Config.{second}
use zhyvo.ObjectStore.Presign.{effective_presign_ttl, Store, refused_with, got, presign_put}
use zhyvo.ObjectStore.Presign.Bounds.{presign_bounds}

abbrev store : Store
store = record {
  minio = record {
    presign = λ method key ttl parameters. some key;
    stat_object = λ key. refused_with [] 500;
  };
  presign_ttl = 900000000000;
  before = 5;
  after = 6;
}

put : presign_put store (codes "k") (codes "image/png") 60000000000 ≡ got (codes "k", 60000000001)
unfolding presign_put effective_presign_ttl
put = refl

presign_bounds_example :
    (ttl : ℕ) × (parameters : List (Text × Text)) × (store.minio.presign
        (codes "PUT")
        (codes "k")
        ttl
        parameters
      ≡ some (codes "k"))
    × (second ≤ ttl)
    × (ttl ≤ store.presign_ttl)
    × (store.before + ttl ≤ 60000000000)
    × (60000000001 ≡ store.after + ttl)
    × (60000000001 + store.before ≤ 60000000000 + store.after)
presign_bounds_example =
    presign_bounds store 60000000000 (codes "k") (codes "image/png") (codes "u") (pos 2) (codes "k")
      60000000001 (inl put)

content_disposition-Safe_example :
    (plain : Text) × (extended : Text) × (content_disposition (codes "a\"b\n.jpg")
      ≡ codes "attachment; filename=\"" ++ (plain ++ (codes "\"; filename*=UTF-8''" ++ extended)))
    × (length plain ≡ length (codes "a\"b\n.jpg"))
    × All IsPlain plain
    × All IsToken extended
    × All IsSafe extended
content_disposition-Safe_example = content_disposition-Safe (codes "a\"b\n.jpg")
