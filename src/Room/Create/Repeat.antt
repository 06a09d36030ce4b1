-- ===== src/Room/Create/Repeat.antt =====
-- What a creation leaves for later requests: the repeated creation, and the look-up by the slug.
use zhyvo.Base.{
  ℕ, ◌≡◌, ◌<◌, refl, sym, ap, ◌∙◌, inl, inr, Option, none, some, true, false, any, ==_refl,
  Bool-cases, subst, arith,
}
use zhyvo.Base.Text.{Text, codes, text_eq, text_eq_refl, trim_space, to_lower}
use zhyvo.Base.Table.{find, find_key}
use zhyvo.Schema.{Db, RoomRow, owner, is_active}
use zhyvo.Exec.{
  Env, World, ok, Stage, Result-cases, room_clock, make_salt, read_request, get_room, commit, begin,
  insert_request,
}
use zhyvo.Room.Types.{CreateInput, Room, scan_room}
use zhyvo.Room.Slug.{normalize_slug}
use zhyvo.Room.Slug.Normal.{normalize_slug-new_slug}
use zhyvo.Room.Validate.{validate_create, hash_create_input, canonical}
use zhyvo.Room.Password.{hash_secret}
use zhyvo.Room.Queries.{get, select_room, select_slug}
use zhyvo.Room.Create.{
  create, same_request, hash_access, reuse_room, existing_idempotent_room, select_by_id,
}
use zhyvo.Room.Create.Effect.{create-Created, created_db}
use zhyvo.Room.Create.Attempts.{attempted}
use zhyvo.Room.Create.Sound.{begun, create-used}

create_valid :
    (env : Env) (owner_id key : ℕ) (raw : CreateInput) (w : World) (room : Room)
    → (create env owner_id key raw w).0 ≡ ok room
    → validate_create (record raw { name = trim_space raw.name }) ≡ ok tt
unfolding create
create_valid env owner_id key raw w room h =
    elim (Result-cases (validate_create (record raw { name = trim_space raw.name }))) [
      | inl (e, invalid) ↦ absurd (ground arith)
      | inr (u, valid) ↦ valid
    ]

module _ (env : Env) (works : (s : Stage) → env.fails s ≡ false) where
  hash_access_works :
      (mode secret : Text) (w : World)
      → (h : Option Text) × ((hash_access env mode secret w).0 ≡ ok h)
  unfolding hash_access
  hash_access_works mode secret w = elim (Bool-cases (text_eq mode (codes "public"))) [
    | inl e ↦ (none, rw e refl)
    | inr e ↦ (some (hash_secret env.id_key env.salt secret), rw (e, works make_salt) refl)
  ]

  reuse_room-created :
      (maker : Env) (owner_id key hash : ℕ) (r : RoomRow) (db : Db) (w : World)
      → w.db ≡ created_db maker owner_id key hash r db
      → reuse_room env owner_id key hash (begun w) ≡ (ok (scan_room r owner), begun w)
  unfolding existing_idempotent_room select_by_id find find_key
  reuse_room-created maker owner_id key hash r db w e =
      rw (e, works read_request, ==_refl owner_id, ==_refl key, ==_refl hash, works get_room)
        (ground (arith, works commit))

  get-created :
      (maker : Env) (owner_id key hash : ℕ) (r : RoomRow) (slug : Text) (db : Db) (w : World)
      → w.db ≡ created_db maker owner_id key hash r db
      → normalize_slug slug ≡ r.slug
      → is_active r.status ≡ true
      → env.now room_clock < r.expires_at
      → get env owner_id slug w ≡ (ok (scan_room r owner), w)
  unfolding get select_room select_slug find
  get-created maker owner_id key hash r slug db w e spelled live early =
      rw (e, works get_room, spelled, text_eq_refl r.slug) (ground arith)

-- If a creation under a new key succeeds, the same input sent again by the same identity under the
-- same key returns the same room and changes nothing in the database, in any later circumstances
-- in which nothing fails and texts hash to the same values.
pub create_repeated :
    (env env' : Env) (owner_id key : ℕ) (raw : CreateInput) (w : World) (room : Room)
    → any (same_request owner_id key) w.db.requests ≡ false
    → (create env owner_id key raw w).0 ≡ ok room
    → ((s : Stage) → env'.fails s ≡ false)
    → ((t : Text) → env'.sha256 t ≡ env.sha256 t)
    → create env' owner_id key raw (create env owner_id key raw w).1
      ≡ (ok room, begun (create env owner_id key raw w).1)
unfolding hash_create_input
create_repeated env env' owner_id key raw w room new h works same =
    let input = record raw { name = trim_space raw.name } in
    let w' = (create env owner_id key raw w).1 in
    let (s, n, is, e, free, fresh) = create-Created env owner_id key raw w room new h in
    let r = attempted env owner_id input s n in
    let (s', hashed) = hash_access_works env' works raw.access_mode raw.secret w' in
    subst (λ x. create env' owner_id key raw w' ≡ (ok x, begun w')) (sym is)
      (create-used env' owner_id key raw w' s' (create_valid env owner_id key raw w room h) hashed
          (works begin) (works insert_request) (rw (e, ==_refl owner_id, ==_refl key) refl)
        ∙ reuse_room-created env' works env owner_id key _ r w.db w'
            (e ∙ ap (λ x. created_db env owner_id key x r w.db) (sym (same (canonical input)))))

-- If a creation under a new key succeeds, its owner finds the room by its slug, in capitals or in
-- small letters, as it was returned, at every time before it expires, if nothing fails.
pub create-get :
    (env env' : Env) (owner_id key : ℕ) (raw : CreateInput) (w : World) (room : Room)
    → any (same_request owner_id key) w.db.requests ≡ false
    → (create env owner_id key raw w).0 ≡ ok room
    → ((s : Stage) → env'.fails s ≡ false)
    → env'.now room_clock < room.expires_at
    → (get env' owner_id room.slug (create env owner_id key raw w).1
        ≡ (ok room, (create env owner_id key raw w).1))
      × (get env' owner_id (to_lower room.slug) (create env owner_id key raw w).1
          ≡ (ok room, (create env owner_id key raw w).1))
create-get env env' owner_id key raw w room new h works early =
    let input = record raw { name = trim_space raw.name } in
    let w' = (create env owner_id key raw w).1 in
    let (s, n, is, e, free, fresh) = create-Created env owner_id key raw w room new h in
    let r = attempted env owner_id input s n in
    let (as_is, lowered) = normalize_slug-new_slug (env.slug_bytes n) in
    let early' = subst (λ x. env'.now room_clock < x.expires_at) is early in
    subst
      (λ x.
        (get env' owner_id x.slug w' ≡ (ok x, w'))
        × (get env' owner_id (to_lower x.slug) w' ≡ (ok x, w')))
      (sym is)
      (
        get-created env' works env owner_id key _ r r.slug w.db w' e as_is refl early',
        get-created env' works env owner_id key _ r (to_lower r.slug) w.db w' e lowered refl early',
      )
