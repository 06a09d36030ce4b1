-- ===== src/Media/Gallery/Delete/Authorized.antt =====
-- Who may delete a file, and what is then deleted.
use zhyvo.Base.{
  sym, subst, ◌∙◌, ℕ, ◌≡◌, refl, ◌⊎◌, inl, inr, List, ◌∷◌, Option, none, some, true, false, ◌&&◌,
  ◌||◌, ◌==◌, any, Option-cases, Bool-cases, arith, if◌then◌else◌,
}
use zhyvo.Base.Table.{find, find_key}
use zhyvo.Schema.{
  Db, MemberRow, MediaRow, ObjectKey, deleted, is_ready, is_failed, is_deleted, is_owner,
}
use zhyvo.Exec.{
  Result-cases, internal, remove, remove_thumbnail, ◌>>◌, media_not_found, media_access_denied,
  media_not_ready, Env, World, Result, ok, err, Error, StoreCall, remove_object, get_media,
  database_clock,
}
use zhyvo.Media.Release.{drop_media}
use zhyvo.Media.Gallery.Delete.{
  select_authorized, select_locked, discount_room, commit_delete, remove_media, remove_thumbnail_of,
  delete,
}

-- The database without the file, whose bytes its room no longer counts if it was ready.
abbrev pub deleted_db : Env → ℕ → MediaRow → Db → Db
deleted_db env media_id m db =
    let dropped = drop_media (env.now database_clock) media_id deleted db in
    if is_ready m.status then discount_room m.room_id m.size_bytes dropped else dropped

abbrev pub thumbnail_removal : Option ObjectKey → List StoreCall → List StoreCall
thumbnail_removal none calls = calls
thumbnail_removal (some key) calls = remove_object key ∷ calls

-- The removal of the file's object, and of its thumbnail if it has one.
abbrev pub removals : MediaRow → List StoreCall → List StoreCall
removals m calls = thumbnail_removal m.thumbnail_key (remove_object m.storage_key ∷ calls)

-- An error, and the database as before.
abbrev pub Failed : Db → Result (Unit {0}) × World → Type 0
Failed db out = ((e : Error) × (out.0 ≡ err e)) × (out.1.db ≡ db)

-- The file is gone from the database, but for one whose room is not there.
abbrev pub Done : Env → ℕ → MediaRow → Db → Result (Unit {0}) × World → Type 0
Done env media_id m db out =
    (out.0 ≡ ok tt)
    × ((out.1.db ≡ deleted_db env media_id m db)
        ⊎ ((any (λ r. r.id == m.room_id) db.rooms ≡ false) × (out.1.db ≡ db)))

select_authorized-found :
    (identity_id media_id : ℕ) (db : Db) (m : MediaRow) (a : MemberRow)
    → select_authorized identity_id media_id db ≡ some (m, a)
    → (find_key (λ x. x.id) media_id db.media ≡ some m)
unfolding select_authorized
select_authorized-found identity_id media_id db m a e =
    elim (Option-cases (find_key (λ x. x.id) media_id db.media)) [
      | inl missing ↦ absurd (ground arith)
      | inr (x, found) ↦
          elim (Option-cases
            (find (λ b. b.room_id == x.room_id && b.identity_id == identity_id) db.members)) [
              | inl out ↦ absurd (ground arith)
              | inr (b, there) ↦ ground arith
            ]
    ]

module _ (env : Env) (media_id : ℕ) (m : MediaRow) (w : World)
    (found : find_key (λ x. x.id) media_id w.db.media ≡ some m)
    (there : is_deleted m.status ≡ false)
    (due : (is_ready m.status || is_failed m.status) ≡ true) where
  commit_delete-Done :
      let out = commit_delete env media_id m.room_id w in
      (Failed w.db out ⊎ Done env media_id m w.db out) × (out.1.calls ≡ w.calls)
  unfolding commit_delete select_locked
  commit_delete-Done =
      let out = commit_delete env media_id m.room_id w in
      (
        elim (Result-cases out.0) [
          | inl (e, is) ↦ inl ((e, is), ground arith)
          | inr (u, is) ↦ inr (is, ground arith)
        ],
        ground arith,
      )

-- How the removal of a file that may be deleted ends.
abbrev pub Ended : Env → ℕ → MediaRow → World → Result (Unit {0}) × World → Type 0
Ended env media_id m w out =
    (Failed w.db out
      × ((out.1.calls ≡ remove_object m.storage_key ∷ w.calls)
          ⊎ (out.1.calls ≡ removals m w.calls)))
    ⊎ (Done env media_id m w.db out × (out.1.calls ≡ removals m w.calls))

module _ (env : Env) (media_id : ℕ) (m : MediaRow) (w : World)
    (found : find_key (λ x. x.id) media_id w.db.media ≡ some m)
    (there : is_deleted m.status ≡ false)
    (due : (is_ready m.status || is_failed m.status) ≡ true) where
  commit-Ended :
      (w' : World)
      → w'.db ≡ w.db
      → w'.calls ≡ removals m w.calls
      → Ended env media_id m w (commit_delete env media_id m.room_id w')
  commit-Ended w' same calls =
      let (ends, kept) = commit_delete-Done env media_id m w' (rw same found) there due in
      elim ends [
        | inl failed ↦ inl (
          subst (λ db. Failed db (commit_delete env media_id m.room_id w')) same failed,
          inr (kept ∙ calls),
        )
        | inr done ↦ inr (
          subst (λ db. Done env media_id m db (commit_delete env media_id m.room_id w')) same done,
          kept ∙ calls,
        )
      ]

  thumbnail-Ended :
      (key : Option ObjectKey)
      → m.thumbnail_key ≡ key
      → let w' = record w { calls = remove_object m.storage_key ∷ w.calls } in
        Ended env media_id m w
          ((remove_thumbnail_of env key >> commit_delete env media_id m.room_id) w')
  thumbnail-Ended none e = commit-Ended _ refl (rw e refl)
  thumbnail-Ended (some key) e = elim (Bool-cases (env.fails remove_thumbnail)) [
    | inl broken ↦ rw broken (inl (((internal remove_thumbnail, refl), refl), inr (rw e refl)))
    | inr works ↦ rw works (commit-Ended _ refl (rw e refl))
  ]

  remove_media-Ended : Ended env media_id m w (remove_media env media_id m w)
  remove_media-Ended = elim (Bool-cases (env.fails remove)) [
    | inl broken ↦ rw broken (inl (((internal remove, refl), refl), inl refl))
    | inr works ↦ rw works (thumbnail-Ended m.thumbnail_key refl)
  ]

-- The file was ready or failed, and the caller may delete it.
abbrev pub Removed : Env → ℕ → ℕ → World → Result (Unit {0}) × World → Type 0
Removed env identity_id media_id w out =
    (m : MediaRow) × (a : MemberRow) × (select_authorized identity_id media_id w.db ≡ some (m, a))
    × ((is_owner a.role || m.uploader_identity_id == identity_id) ≡ true)
    × ((is_ready m.status || is_failed m.status) ≡ true)
    × Ended env media_id m w out

-- Nothing changes: the look-up fails, the caller sees no such file, the file is another's, it is
-- deleted already, or it is still being uploaded.
abbrev pub Kept : Env → ℕ → ℕ → World → Result (Unit {0}) × World → Type 0
Kept env identity_id media_id w out =
    ((env.fails get_media ≡ true) × (out ≡ (err (internal get_media), w)))
    ⊎ ((select_authorized identity_id media_id w.db ≡ none) × (out ≡ (err media_not_found, w)))
    ⊎ ((m : MediaRow) × (a : MemberRow) × (select_authorized identity_id media_id w.db
          ≡ some (m, a))
        × (((is_owner a.role || m.uploader_identity_id == identity_id) ≡ false)
              × (out ≡ (err media_access_denied, w))
            ⊎ (is_deleted m.status ≡ true) × (out ≡ (ok tt, w))
            ⊎ ((is_ready m.status || is_failed m.status) ≡ false)
              × (out ≡ (err media_not_ready, w))))

-- Only the owner of the room and the uploader can delete a file, and only one that is ready or failed.
-- If the answer is success, the store was asked to remove its object and then its thumbnail, if it has
-- one, and the file is marked as deleted and, if it was ready, no longer counted by its room, unless the
-- room is missing. If it is an error, the database is as before, and the store was asked to remove the
-- object, and no more than these two. For all others nothing changes, and the answer is an error that
-- says why, or success if the file is deleted already.
pub delete-Removed :
    (env : Env) (identity_id media_id : ℕ) (w : World)
    → let out = delete env identity_id media_id w in
      Kept env identity_id media_id w out ⊎ Removed env identity_id media_id w out
unfolding delete
delete-Removed env identity_id media_id w = elim (Bool-cases (env.fails get_media)) [
  | inl broken ↦ inl (inl (broken, rw broken refl))
  | inr works ↦ elim (Option-cases (select_authorized identity_id media_id w.db)) [
    | inl missing ↦ inl (inr (inl (missing, rw (works, missing) refl)))
    | inr ((m, a), found) ↦
        elim (Bool-cases (is_owner a.role || m.uploader_identity_id == identity_id)) [
          | inr stranger ↦ inl (inr (inr (m, a, found, inl (stranger, ground arith))))
          | inl allowed ↦ elim (Bool-cases (is_deleted m.status)) [
            | inl gone ↦ inl (inr (inr (m, a, found, inr (inl (gone, ground arith)))))
            | inr there ↦ elim (Bool-cases (is_ready m.status || is_failed m.status)) [
              | inr early ↦ inl (inr (inr (m, a, found, inr (inr (early, ground arith)))))
              | inl due ↦
                  let all : delete env identity_id media_id w ≡ remove_media env media_id m w =
                    ground arith in
                  inr (
                    m,
                    a,
                    found,
                    allowed,
                    due,
                    subst (Ended env media_id m w) (sym all) (
                        remove_media-Ended env media_id m w
                          (select_authorized-found identity_id media_id w.db m a found) there due),
                  )
            ]
          ]
        ]
  ]
]
