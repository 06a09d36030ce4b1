-- ===== src/Room/Create/Sound.antt =====
-- The creation of a room on all of its paths.
use zhyvo.Base.{
  ℕ, zero, suc, ◌-◌, ◌≡◌, ◌≢◌, refl, sym, ◌∙◌, ◌⊎◌, inl, inr, List, [], ◌∷◌, Option, none, some,
  Bool, true, false, any, ◌==◌, All, Bool-cases, subst, arith,
}
use zhyvo.Base.Text.{Text, trim_space}
use zhyvo.Base.Table.{sum}
use zhyvo.Schema.{Db, RoomRow, MediaRow, MediaStatus, is_pending, is_ready}
use zhyvo.Exec.{
  Env, World, M, Result, ok, err, Error, begin, bind_post, Result-cases, internal, attempt, random,
  insert_request,
}
use zhyvo.Capacity.{IsSound, weight, one, size_of}
use zhyvo.Room.Types.{CreateInput, Room}
use zhyvo.Room.Slug.{new_slug}
use zhyvo.Room.Validate.{validate_create, hash_create_input}
use zhyvo.Room.Create.{
  draft_room, insert_row, insert_attempts, unless_inserted, finish_create, same_request,
  reserve_key, create_new, create, hash_access, reuse_room, existing_idempotent_room,
}
use zhyvo.Room.Create.Effect.{
  Created, create-Created, hash_access-world, create-new, reserved_world,
}

unless_inserted-db :
    {d : Db} (next : M Room) (o : Option Room) (v : World)
    → (next v).1.db ≡ d
    → v.db ≡ d
    → (unless_inserted next o v).1.db ≡ d
unless_inserted-db next none v h k = h
unless_inserted-db next (some r) v h k = k

module _ (env : Env) (owner_id : ℕ) (input : CreateInput) (secret_hash : Option Text) where
  insert_row-db : (n : ℕ) (r : RoomRow) (w : World) → (insert_row env n r w).1.db ≡ w.db
  unfolding insert_row
  insert_row-db n r w = ground arith

  insert_attempts-db :
      (left : ℕ) (w : World) → (insert_attempts env owner_id input secret_hash left w).1.db ≡ w.db
  unfolding insert_attempts
  insert_attempts-db zero w = refl
  insert_attempts-db (suc left) w =
      let n = 7 - left in
      let r = draft_room env (new_slug (env.slug_bytes n)) owner_id input secret_hash in
      let next = insert_attempts env owner_id input secret_hash left in
      let v = (insert_row env n r w).1 in
      bind_post (λ _ v. v.db ≡ w.db) (attempt env (random n)) _ w (λ _ _. refl)
        (λ _ _.
          bind_post (λ _ v. v.db ≡ w.db) (insert_row env n r) _ w (λ _ _. insert_row-db n r w)
            (λ o _.
              unless_inserted-db next o v (insert_attempts-db left v ∙ insert_row-db n r w)
                (insert_row-db n r w)))

finish_create-failed :
    (env : Env) (owner_id key : ℕ) (created : Room) (w : World) (e : Error)
    → (finish_create env owner_id key created w).0 ≡ err e
    → (finish_create env owner_id key created w).1.db ≡ w.db
unfolding finish_create
finish_create-failed env owner_id key created w e h = ground arith

existing-world :
    (env : Env) (owner_id key hash : ℕ) (w : World)
    → (existing_idempotent_room env owner_id key hash w).1 ≡ w
unfolding existing_idempotent_room
existing-world env owner_id key hash w = ground arith

reuse_room-db :
    (env : Env) (owner_id key hash : ℕ) (w : World)
    → w.tx ≡ w.db
    → (reuse_room env owner_id key hash w).1.db ≡ w.db
reuse_room-db env owner_id key hash w e = ground (arith, existing-world env owner_id key hash w)

abbrev pub begun : World → World
begun w = record w { tx = w.db }

module _ (env : Env) (owner_id key : ℕ) (raw : CreateInput) (w : World) where
  abbrev input : CreateInput
  input = record raw { name = trim_space raw.name }

  abbrev hash : ℕ
  hash = hash_create_input env input

  pub create-used :
      (secret_hash : Option Text)
      → validate_create input ≡ ok tt
      → (hash_access env raw.access_mode raw.secret w).0 ≡ ok secret_hash
      → env.fails begin ≡ false
      → env.fails insert_request ≡ false
      → any (same_request owner_id key) w.db.requests ≡ true
      → create env owner_id key raw w ≡ reuse_room env owner_id key hash (begun w)
  unfolding create reserve_key
  create-used secret_hash valid hashed begins inserts used =
      rw (valid, hashed, hash_access-world env raw.access_mode raw.secret w, begins, inserts, used)
        refl

  -- The ways a creation can go: it stops early, reads an earlier room, or makes a new one.
  create-cases :
      (P : Result Room × World → Type 0)
      → ((e : Error) (v : World) → v.db ≡ w.db → P (err e, v))
      → (any (same_request owner_id key) w.db.requests ≡ true
          → P (reuse_room env owner_id key hash (begun w)))
      → ((secret_hash : Option Text)
          → any (same_request owner_id key) w.db.requests ≡ false
          → P (create_new env owner_id key input secret_hash (reserved_world owner_id key hash w)))
      → P (create env owner_id key raw w)
  unfolding create reserve_key
  create-cases P stops used new = elim (Result-cases (validate_create input)) [
    | inl (e, invalid) ↦ rw invalid (stops e w refl)
    | inr (u, valid) ↦ elim (Result-cases (hash_access env raw.access_mode raw.secret w).0) [
      | inl (e, failed) ↦
          rw (valid, failed, hash_access-world env raw.access_mode raw.secret w) (stops e w refl)
      | inr (s, hashed) ↦ elim (Bool-cases (env.fails begin)) [
        | inl broken ↦
            rw (valid, hashed, hash_access-world env raw.access_mode raw.secret w, broken)
              (stops (internal begin) w refl)
        | inr begins ↦ elim (Bool-cases (env.fails insert_request)) [
          | inl broken ↦
              rw (valid, hashed, hash_access-world env raw.access_mode raw.secret w, begins, broken)
                (stops (internal insert_request) (begun w) refl)
          | inr inserts ↦ elim (Bool-cases (any (same_request owner_id key) w.db.requests)) [
            | inl there ↦
                subst P (sym (create-used s valid hashed begins inserts there)) (used there)
            | inr missing ↦
                subst P
                  (sym (create-new env owner_id key raw w s valid hashed begins inserts missing))
                  (new s missing)
          ]
        ]
      ]
    ]
  ]

  create_new-failed :
      (secret_hash : Option Text) (e : Error)
      → (create_new env owner_id key input secret_hash (reserved_world owner_id key hash w)).0
        ≡ err e
      → (create_new env owner_id key input secret_hash (reserved_world owner_id key hash w)).1.db
        ≡ w.db
  create_new-failed secret_hash e h =
      let v = reserved_world owner_id key hash w in
      let attempts = insert_attempts env owner_id input secret_hash 8 in
      let kept = insert_attempts-db env owner_id input secret_hash 8 v in
      bind_post (λ r x. (e : Error) → r ≡ err e → x.db ≡ w.db) attempts
        (finish_create env owner_id key) v (λ _ _ _ _. kept)
        (λ created _ e k. finish_create-failed env owner_id key created (attempts v).1 e k ∙ kept) e
        h

  -- A creation that fails has written nothing, and one under a used key writes nothing.
  pub create_unwritten :
      ((e : Error) × ((create env owner_id key raw w).0 ≡ err e))
        ⊎ (any (same_request owner_id key) w.db.requests ≡ true)
      → (create env owner_id key raw w).1.db ≡ w.db
  create_unwritten =
      create-cases
        (λ o.
          ((e : Error) × (o.0 ≡ err e)) ⊎ (any (same_request owner_id key) w.db.requests ≡ true)
          → o.1.db ≡ w.db)
        (λ e v same _. same) (λ used _. reuse_room-db env owner_id key hash (begun w) refl)
        (λ s missing. λ why. elim why [
          | inl (e, h) ↦ create_new-failed s e h
          | inr used ↦ absurd (ground arith)
        ])

media_fits :
    (media : List MediaRow) (room_id : ℕ) (counts : MediaStatus → Bool) (amount : MediaRow → ℕ)
    → All (λ m. m.room_id ≢ room_id) media
    → sum (weight counts amount room_id) media ≡ 0
unfolding sum
media_fits [] room_id counts amount h = refl
media_fits (m ∷ media) room_id counts amount h =
    ground (arith, media_fits media room_id counts amount h.1)

-- An identifier that no row has is distinct from all.
fresh_room :
    (rooms : List RoomRow) (id : ℕ)
    → any (λ q. q.id == id) rooms ≡ false
    → All (λ q. q.id ≢ id) rooms
fresh_room [] id h = tt
fresh_room (r ∷ rooms) id h = (λ e. ground arith, fresh_room rooms id (ground arith))

Created-IsSound :
    (env : Env) (owner_id key : ℕ) (input : CreateInput) (room : Room) (db db' : Db)
    → All (λ m. m.room_id ≢ env.room_id) db.media
    → IsSound db
    → Created env owner_id key input room db db'
    → IsSound db'
Created-IsSound env owner_id key input room db db' unused sound
      (secret_hash, n, is, e, free, fresh) =
    rw e (record {
      room_ids = (fresh_room db.rooms env.room_id fresh, sound.room_ids);
      media_ids = sound.media_ids;
      upload_ids = sound.upload_ids;
      upload_media = sound.upload_media;
      rooms = (
        record {
          reserved_files = sym (media_fits db.media env.room_id is_pending one unused);
          reserved_bytes = sym (media_fits db.media env.room_id is_pending size_of unused);
          used_files = sym (media_fits db.media env.room_id is_ready one unused);
          used_bytes = sym (media_fits db.media env.room_id is_ready size_of unused);
          files = omega arith;
          bytes = omega arith;
          max_files = omega arith;
          max_bytes = omega arith;
        },
        sound.rooms,
      );
      uploads = sound.uploads;
    })

-- Creating a room keeps the counters of every room true, on every path, if no file lies in a room
-- with the new identifier.
pub create-IsSound :
    (env : Env) (owner_id key : ℕ) (raw : CreateInput) (w : World)
    → All (λ m. m.room_id ≢ env.room_id) w.db.media
    → IsSound w.db
    → IsSound (create env owner_id key raw w).1.db
create-IsSound env owner_id key raw w unused sound =
    let out = create env owner_id key raw w in
    elim (Bool-cases (any (same_request owner_id key) w.db.requests)) [
      | inl used ↦ subst IsSound (sym (create_unwritten env owner_id key raw w (inr used))) sound
      | inr new ↦ elim (Result-cases out.0) [
        | inl (e, h) ↦
            subst IsSound (sym (create_unwritten env owner_id key raw w (inl (e, h)))) sound
        | inr (room, h) ↦
            Created-IsSound env owner_id key (record raw { name = trim_space raw.name }) room w.db _
              unused sound (create-Created env owner_id key raw w room new h)
      ]
    ]
