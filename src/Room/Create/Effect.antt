-- ===== src/Room/Create/Effect.antt =====
-- What a creation that succeeds has written.
use zhyvo.Base.{
  ℕ, ◌≡◌, refl, sym, ap, ◌∙◌, inl, inr, ◌∷◌, Option, none, some, false, any, ◌==◌, ==_refl,
  Bool-cases, subst, arith,
}
use zhyvo.Base.Text.{Text, codes, text_eq, trim_space}
use zhyvo.Schema.{Db, RoomRow, owner}
use zhyvo.Exec.{Env, World, ok, insert_request, begin, Result-cases}
use zhyvo.Room.Types.{CreateInput, Room, scan_room}
use zhyvo.Room.Validate.{hash_create_input, validate_create}
use zhyvo.Room.Create.{
  insert_attempts, finish_create, owner_member, set_request_room, same_request, add_member, finish,
  reserve_key, create_new, create, hash_access,
}
use zhyvo.Room.Create.Attempts.{attempted, with_room, insert_attempts-Inserted, finish_create-db}

-- The committed database after a new room.
abbrev pub created_db : Env → ℕ → ℕ → ℕ → RoomRow → Db → Db
created_db env owner_id key hash r db = record db {
  rooms = r ∷ db.rooms;
  members = owner_member env r.id owner_id ∷ db.members;
  requests =
      record {
        identity_id = owner_id;
        idempotency_key = key;
        request_hash = hash;
        room_id = some r.id;
      }
      ∷ set_request_room owner_id key r.id db.requests;
}

-- A new room with its owner and its request, and nothing else.
abbrev pub Created : Env → ℕ → ℕ → CreateInput → Room → Db → Db → Type 0
Created env owner_id key input created db db' =
    (secret_hash : Option Text) × (n : ℕ) × (created
      ≡ scan_room (attempted env owner_id input secret_hash n) owner)
    × (db'
        ≡ created_db env owner_id key (hash_create_input env input)
            (attempted env owner_id input secret_hash n) db)
    × (any (λ q. text_eq q.slug (attempted env owner_id input secret_hash n).slug) db.rooms ≡ false)
    × (any (λ q. q.id == env.room_id) db.rooms ≡ false)

abbrev pub reserved_world : ℕ → ℕ → ℕ → World → World
reserved_world owner_id key hash w = record w {
  tx = record (w.db) {
    requests =
        record {
          identity_id = owner_id;
          idempotency_key = key;
          request_hash = hash;
          room_id = none;
        }
        ∷ w.db.requests;
  };
}

module _ (env : Env) (owner_id key : ℕ) (input : CreateInput) (secret_hash : Option Text) where
  create_new-finish :
      (w : World) (created : Room)
      → (insert_attempts env owner_id input secret_hash 8
          (reserved_world owner_id key (hash_create_input env input) w)).0
        ≡ ok created
      → create_new env owner_id key input secret_hash
          (reserved_world owner_id key (hash_create_input env input) w)
        ≡ finish_create env owner_id key created
            (insert_attempts env owner_id input secret_hash 8
              (reserved_world owner_id key (hash_create_input env input) w)).1
  create_new-finish w created done = rw done refl

  created_row :
      (hash : ℕ) (w : World) (r : RoomRow)
      → finish owner_id key r.id (
          add_member
            (owner_member env r.id owner_id)
            (with_room r (reserved_world owner_id key hash w)).tx)
        ≡ created_db env owner_id key hash r w.db
  created_row hash w r = rw (==_refl owner_id, ==_refl key) refl

  create_new-Created :
      (w : World) (room : Room)
      → (create_new env owner_id key input secret_hash
          (reserved_world owner_id key (hash_create_input env input) w)).0
        ≡ ok room
      → Created env owner_id key input room w.db
          (create_new env owner_id key input secret_hash
            (reserved_world owner_id key (hash_create_input env input) w)).1.db
  create_new-Created w room h =
      let v = reserved_world owner_id key (hash_create_input env input) w in
      elim (Result-cases (insert_attempts env owner_id input secret_hash 8 v).0) [
        | inl (e, failed) ↦ absurd (ground arith)
        | inr (created, done) ↦
            let (n, is, into, free, fresh) =
              insert_attempts-Inserted env owner_id input secret_hash 8 v created done in
            let v' = (insert_attempts env owner_id input secret_hash 8 v).1 in
            let rest = create_new-finish w created done in
            let (same, written) =
              finish_create-db env owner_id input secret_hash key created room v'
                (sym (ap (λ x. x.0) rest) ∙ h) in
            (
              secret_hash,
              n,
              same ∙ is,
              ap (λ x. x.1.db) rest
                  ∙ written
                  ∙ ap
                      (λ (x : Room × World).
                        finish owner_id key x.0.id
                          (add_member (owner_member env x.0.id owner_id) x.1.tx))
                      (λ i. (is i, into i))
                  ∙ created_row (hash_create_input env input) w
                      (attempted env owner_id input secret_hash n),
              free,
              fresh,
            )
      ]

pub hash_access-world :
    (env : Env) (mode secret : Text) (w : World) → (hash_access env mode secret w).1 ≡ w
unfolding hash_access
hash_access-world env mode secret w = elim (Bool-cases (text_eq mode (codes "public"))) [
  | inl e ↦ rw e refl
  | inr e ↦ rw e (ground arith)
]

pub create-new :
    (env : Env) (owner_id key : ℕ) (raw : CreateInput) (w : World) (secret_hash : Option Text)
    → validate_create (record raw { name = trim_space raw.name }) ≡ ok tt
    → (hash_access env raw.access_mode raw.secret w).0 ≡ ok secret_hash
    → env.fails begin ≡ false
    → env.fails insert_request ≡ false
    → any (same_request owner_id key) w.db.requests ≡ false
    → create env owner_id key raw w
      ≡ create_new env owner_id key
          (record raw { name = trim_space raw.name })
          secret_hash
          (reserved_world owner_id key
            (hash_create_input env (record raw { name = trim_space raw.name }))
            w)
unfolding create reserve_key
create-new env owner_id key raw w secret_hash valid hashed begins inserts new =
    rw (valid, hashed, hash_access-world env raw.access_mode raw.secret w, begins, inserts, new)
      refl

-- A creation under a new key that succeeds has committed exactly one room with a free slug, its
-- owner's membership and the request, and returns that room.
pub create-Created :
    (env : Env) (owner_id key : ℕ) (raw : CreateInput) (w : World) (room : Room)
    → any (same_request owner_id key) w.db.requests ≡ false
    → (create env owner_id key raw w).0 ≡ ok room
    → Created env owner_id key
        (record raw { name = trim_space raw.name })
        room
        w.db
        (create env owner_id key raw w).1.db
unfolding create reserve_key
create-Created env owner_id key raw w room new h =
    let input = record raw { name = trim_space raw.name } in
    elim (Result-cases (validate_create input)) [
      | inl (e, invalid) ↦ absurd (ground arith)
      | inr (u, valid) ↦ elim (Result-cases (hash_access env input.access_mode input.secret w).0) [
        | inl (e, failed) ↦ absurd (ground arith)
        | inr (secret_hash, hashed) ↦ elim (Bool-cases (env.fails begin)) [
          | inl broken ↦
              absurd (ground (arith, hash_access-world env input.access_mode input.secret w))
          | inr begins ↦ elim (Bool-cases (env.fails insert_request)) [
            | inl broken ↦
                absurd (ground (arith, hash_access-world env input.access_mode input.secret w))
            | inr inserts ↦
                let same =
                  create-new env owner_id key raw w secret_hash valid hashed begins inserts new in
                subst (λ x. Created env owner_id key input room w.db x.1.db) (sym same)
                  (create_new-Created env owner_id key input secret_hash w room
                    (sym (ap (λ x. x.0) same) ∙ h))
          ]
        ]
      ]
    ]
