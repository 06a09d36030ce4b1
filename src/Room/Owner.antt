-- ===== src/Room/Owner.antt =====
-- Who may change and delete a room: its owner, while it is live.
use zhyvo.Base.{
  ℕ, ◌≡◌, refl, sym, ap, ◌∙◌, ◌⊎◌, inl, inr, Option, none, some, Bool, true, ltb, ◌||◌, Bool-cases,
  Option-cases, subst, arith,
}
use zhyvo.Base.Text.{Text}
use zhyvo.Schema.{Db, RoomRow, Role, is_active, is_owner}
use zhyvo.Exec.{
  Env, World, Result, bind_post, require, ◌>>◌, get_room, lock_room, room_clock, delete_room, begin,
  invalid_input,
}
use zhyvo.Room.Types.{UpdateInput, AccessUpdate, Room}
use zhyvo.Room.Create.Effect.{hash_access-world}
use zhyvo.Room.Queries.{get, select_room, is_live}
use zhyvo.Room.Manage.{
  update, update_owned, update_locked, check_name, check_access, set_room, delete, schedule, has,
}
use zhyvo.Room.Access.{get-world}

check_name-world : (o : Option Text) (w : World) → (check_name o w).1 ≡ w
check_name-world none w = refl
check_name-world (some name) w = ground arith

check_access-world :
    (env : Env) (o : Option AccessUpdate) (w : World) → (check_access env o w).1 ≡ w
check_access-world env none w = refl
check_access-world env (some a) w = ground (arith, hash_access-world env a.mode a.secret w)

-- The caller owns the live room, and only that room's row is written.
abbrev pub Changed : Env → ℕ → Text → Option Bool → Db → Db → Type 0
Changed env identity_id slug accepting db db' =
    (r : RoomRow) × (role : Role) × (name : Option Text) × (access : Option (Text × Option Text))
    × (select_room identity_id slug db ≡ some (r, role))
    × (is_owner role ≡ true)
    × (is_live env r ≡ true)
    × (db' ≡ set_room r.id name accepting access db)

update_owned-db :
    (env : Env) (name : Option Text) (accepting : Option Bool)
    (access : Option (Text × Option Text)) (row : RoomRow × Role) (w : World)
    → ((update_owned env name accepting access (some row) w).1.db ≡ w.db)
      ⊎ ((update_owned env name accepting access (some row) w).1.db
          ≡ set_room row.0.id name accepting access w.tx)
update_owned-db env name accepting access (r, role) w = ground arith

update_owned-Changed :
    (env : Env) (identity_id : ℕ) (slug : Text) (name : Option Text) (accepting : Option Bool)
    (access : Option (Text × Option Text)) (w : World)
    → w.tx ≡ w.db
    → let row = select_room identity_id slug w.tx in
      ((update_owned env name accepting access row w).1.db ≡ w.db)
      ⊎ (Changed env identity_id slug accepting w.db
          (update_owned env name accepting access row w).1.db)
update_owned-Changed env identity_id slug name accepting access w fresh =
    elim (Option-cases (select_room identity_id slug w.tx)) [
      | inl missing ↦ inl (rw missing refl)
      | inr ((r, role), found) ↦ elim (Bool-cases (is_owner role)) [
        | inr guest ↦ inl (rw (found, guest) refl)
        | inl own ↦ elim (Bool-cases (is_live env r)) [
          | inr dead ↦ inl (rw (found, own, dead) refl)
          | inl live ↦ elim (update_owned-db env name accepting access (r, role) w) [
            | inl same ↦ inl (rw found same)
            | inr written ↦ inr (
              r,
              role,
              name,
              access,
              subst (λ d. select_room identity_id slug d ≡ some (r, role)) fresh found,
              own,
              live,
              rw found (written ∙ ap (set_room r.id name accepting access) fresh),
            )
          ]
        ]
      ]
    ]

update_locked-Changed :
    (env : Env) (identity_id : ℕ) (slug : Text) (name : Option Text) (accepting : Option Bool)
    (access : Option (Text × Option Text)) (w : World)
    → ((update_locked env identity_id slug name accepting access w).1.db ≡ w.db)
      ⊎ Changed env identity_id slug accepting w.db
          (update_locked env identity_id slug name accepting access w).1.db
unfolding update_locked
update_locked-Changed env identity_id slug name accepting access w =
    elim (Bool-cases (env.fails begin)) [
      | inl broken ↦ inl (rw broken refl)
      | inr begins ↦ elim (Bool-cases (env.fails lock_room)) [
        | inl broken ↦ inl (rw (begins, broken) refl)
        | inr locks ↦
            rw (begins, locks)
              (update_owned-Changed env identity_id slug name accepting access
                (record w { tx = w.db }) refl)
      ]
    ]

update_rest :
    (env : Env) (identity_id : ℕ) (slug : Text) (name : Option Text) (accepting : Option Bool)
    (access : Option (Text × Option Text)) (w : World)
    → let m =
        update_locked env identity_id slug name accepting access >> get env identity_id slug in
      ((m w).1.db ≡ w.db) ⊎ Changed env identity_id slug accepting w.db (m w).1.db
update_rest env identity_id slug name accepting access w =
    let step = update_locked env identity_id slug name accepting access in
    let written = update_locked-Changed env identity_id slug name accepting access w in
    bind_post (λ _ v. (v.db ≡ w.db) ⊎ Changed env identity_id slug accepting w.db v.db) step
      (λ _. get env identity_id slug) w (λ _ _. written)
      (λ _ _.
        subst (λ v. (v.db ≡ w.db) ⊎ Changed env identity_id slug accepting w.db v.db)
          (sym (get-world env identity_id slug (step w).1)) written)

-- An update leaves the database as it is, or the caller owns the live room and only that room's row
-- is written.
pub update-Changed :
    (env : Env) (identity_id : ℕ) (slug : Text) (input : UpdateInput) (w : World)
    → ((update env identity_id slug input w).1.db ≡ w.db)
      ⊎ Changed env identity_id slug input.accepting_uploads w.db
          (update env identity_id slug input w).1.db
unfolding update
update-Changed env identity_id slug input w =
    let accepting = input.accepting_uploads in
    let P : Result Room → World → Type 0 =
      λ _ v. (v.db ≡ w.db) ⊎ Changed env identity_id slug accepting w.db v.db in
    bind_post P (require (has input.name || has accepting || has input.access) invalid_input) _ w
      (λ _ _. inl refl)
      (λ _ _.
        bind_post P (check_name input.name) _ w
          (λ _ _. inl (ap (λ x. x.db) (check_name-world input.name w)))
          (λ name _.
            let v = (check_name input.name w).1 in
            let named = check_name-world input.name w in
            bind_post P (check_access env input.access) _ v
              (λ _ _. inl (ap (λ x. x.db) (check_access-world env input.access v ∙ named)))
              (λ access _.
                subst
                  (λ x.
                    (((update_locked env identity_id slug name accepting access
                          >> get env identity_id slug)
                        x).1.db
                      ≡ w.db)
                    ⊎ Changed env identity_id slug accepting w.db
                        ((update_locked env identity_id slug name accepting access
                            >> get env identity_id slug)
                          x).1.db)
                  (sym (check_access-world env input.access v ∙ named))
                  (update_rest env identity_id slug name accepting access w))))

-- Deleting a room leaves the database as it is, or the caller owns the active room, and its status
-- and its acceptance of uploads are all that is written.
pub delete-Scheduled :
    (env : Env) (identity_id : ℕ) (slug : Text) (w : World)
    → ((delete env identity_id slug w).1 ≡ w)
      ⊎ ((r : RoomRow) × (role : Role) × (select_room identity_id slug w.db ≡ some (r, role))
          × (is_owner role ≡ true)
          × (is_live env r ≡ true)
          × ((delete env identity_id slug w).1.db ≡ schedule slug identity_id w.db))
unfolding delete
delete-Scheduled env identity_id slug w = elim (Bool-cases (env.fails get_room)) [
  | inl broken ↦ inl (rw broken refl)
  | inr works ↦ elim (Option-cases (select_room identity_id slug w.db)) [
    | inl missing ↦ inl (rw (works, missing) refl)
    | inr ((r, role), found) ↦ elim (Bool-cases (is_owner role)) [
      | inr guest ↦ inl (rw (works, found, guest) refl)
      | inl own ↦ elim (Bool-cases (is_active r.status)) [
        | inr gone ↦ inl (rw (works, found, own, gone) refl)
        | inl active ↦ elim (Bool-cases (ltb (env.now room_clock) r.expires_at)) [
          | inr late ↦ inl (rw (works, found, own, active, late) refl)
          | inl early ↦ elim (Bool-cases (env.fails delete_room)) [
            | inl broken ↦ inl (rw (works, found, own, active, early, broken) refl)
            | inr writes ↦ inr (
              r,
              role,
              found,
              own,
              rw (active, early) refl,
              rw (works, found, own, active, early) (ground (arith, writes)),
            )
          ]
        ]
      ]
    ]
  ]
]
