-- ===== src/Room/Access.antt =====
-- Who may enter a room: the secret on joining.
use zhyvo.Base.{
  ℕ, ◌≡◌, refl, sym, ap, ◌⊎◌, inl, inr, Option, none, some, Bool, true, false, Bool-cases,
  Option-cases, subst, arith,
}
use zhyvo.Base.Text.{Text, codes, text_eq, text_eq_iff}
use zhyvo.Schema.{Db, RoomRow}
use zhyvo.Exec.{Env, World, ok, Result-cases, find_room, join_room, database_clock}
use zhyvo.Room.Password.{verify_secret}
use zhyvo.Room.Queries.{get, select_slug, is_live}
use zhyvo.Room.Join.{join, put_member, check_secret, enter, check_match, check_hash}

pub get-world :
    (env : Env) (identity_id : ℕ) (slug : Text) (w : World) → (get env identity_id slug w).1 ≡ w
unfolding get
get-world env identity_id slug w = ground arith

-- The secret opens the room: the room is public, or the secret matches its hash.
abbrev pub Opens : Env → Text → RoomRow → Type 0
Opens env secret r =
    (r.access_mode ≡ codes "public")
    ⊎ ((hash : Text) × (r.access_secret_hash ≡ some hash)
        × (verify_secret env.id_key hash secret ≡ some true))

check_hash-world :
    (env : Env) (secret : Text) (o : Option Text) (w : World) → (check_hash env secret o w).1 ≡ w
check_hash-world env secret none w = refl
check_hash-world env secret (some hash) w =
    elim (Option-cases (verify_secret env.id_key hash secret)) [
      | inl e ↦ rw e refl
      | inr (b, e) ↦ rw e refl
    ]

check_secret-world :
    (env : Env) (secret : Text) (r : RoomRow) (w : World) → (check_secret env secret r w).1 ≡ w
unfolding check_secret
check_secret-world env secret r w = elim (Bool-cases (text_eq r.access_mode (codes "public"))) [
  | inl e ↦ rw e refl
  | inr e ↦ rw e (check_hash-world env secret r.access_secret_hash w)
]

check_match_iff :
    (o : Option Bool) (w : World) (u : Unit {0}) → (check_match o w).0 ≡ ok u → o ≡ some true
check_match_iff none w u h = absurd (ground arith)
check_match_iff (some true) w u h = refl
check_match_iff (some false) w u h = absurd (ground arith)

check_hash-Opens :
    (env : Env) (secret : Text) (o : Option Text) (w : World) (u : Unit {0})
    → (check_hash env secret o w).0 ≡ ok u
    → (hash : Text) × (o ≡ some hash) × (verify_secret env.id_key hash secret ≡ some true)
check_hash-Opens env secret none w u h = absurd (ground arith)
check_hash-Opens env secret (some hash) w u h = (hash, refl, check_match_iff _ w u h)

check_secret-Opens :
    (env : Env) (secret : Text) (r : RoomRow) (w : World) (u : Unit {0})
    → (check_secret env secret r w).0 ≡ ok u
    → Opens env secret r
unfolding check_secret
check_secret-Opens env secret r w u h = elim (Bool-cases (text_eq r.access_mode (codes "public"))) [
  | inl e ↦ inl ((text_eq_iff _ _).0 e)
  | inr e ↦ inr (check_hash-Opens env secret r.access_secret_hash w u (ground arith))
]

-- The caller entered: the room is live, the secret opens it, and only the membership is written.
abbrev pub Entered : Env → ℕ → Text → Text → Db → Db → Type 0
Entered env identity_id slug secret db db' =
    (r : RoomRow) × (select_slug slug db ≡ some r)
    × (is_live env r ≡ true)
    × Opens env secret r
    × (db' ≡ put_member (env.now database_clock) r.id identity_id db)

module _ (env : Env) (identity_id : ℕ) (slug secret : Text) (w : World) where
  enter-Entered :
      (r : RoomRow)
      → select_slug slug w.db ≡ some r
      → ((enter env identity_id slug secret (some r) w).1 ≡ w)
        ⊎ Entered env identity_id slug secret w.db
            (enter env identity_id slug secret (some r) w).1.db
  enter-Entered r found = elim (Bool-cases (is_live env r)) [
    | inl live ↦ elim (Result-cases (check_secret env secret r w).0) [
      | inl (e, refused) ↦ inl (ground (arith, check_secret-world env secret r w))
      | inr (u, opened) ↦ elim (Bool-cases (env.fails join_room)) [
        | inl broken ↦ inl (ground (arith, check_secret-world env secret r w))
        | inr works ↦
            let v = record w { db = put_member (env.now database_clock) r.id identity_id w.db } in
            inr (
              r,
              found,
              live,
              check_secret-Opens env secret r w u opened,
              rw (live, opened, check_secret-world env secret r w, works)
                  (ap (λ x. x.db) (get-world env identity_id slug v)),
            )
      ]
    ]
    | inr dead ↦ inl (rw dead refl)
  ]

  join-enter :
      (r : RoomRow)
      → env.fails find_room ≡ false
      → select_slug slug w.db ≡ some r
      → join env identity_id slug secret w ≡ enter env identity_id slug secret (some r) w
  unfolding join
  join-enter r works found = rw (works, found) refl

  -- Joining leaves everything as it is, or the room is live and the secret opens it; then the
  -- caller's membership is all that is written.
  pub join-Entered :
      ((join env identity_id slug secret w).1 ≡ w)
      ⊎ Entered env identity_id slug secret w.db (join env identity_id slug secret w).1.db
  unfolding join
  join-Entered = elim (Bool-cases (env.fails find_room)) [
    | inl broken ↦ inl (rw broken refl)
    | inr works ↦ elim (Option-cases (select_slug slug w.db)) [
      | inl missing ↦ inl (rw (works, missing) refl)
      | inr (r, found) ↦
          subst (λ x. (x.1 ≡ w) ⊎ Entered env identity_id slug secret w.db x.1.db)
            (sym (join-enter r works found)) (enter-Entered r found)
    ]
  ]
