-- ===== src/Capacity/Unseen.antt =====
-- Updates of media rows that the counters do not see.
use zhyvo.Base.{ℕ, List, ◌≡◌, refl, sym, ◌∙◌, Bool, ◌==◌, All-map, Bool-cases, inl, inr, arith}
use zhyvo.Base.Table.{sum, modify}
use zhyvo.Base.Table.Modify.{Distinct-modify, sum-modify_same, find_key-modify}
use zhyvo.Schema.{Db, RoomRow, MediaRow, UploadRow, MediaStatus, is_pending, is_ready}
use zhyvo.Capacity.{weight, one, size_of, RoomFits, UploadFits, IsSound}

-- The update leaves what the counters are made of.
pub record IsUnseen (f : MediaRow → MediaRow) : Type 0 where
  pub id : (a : MediaRow) → (f a).id ≡ a.id
  pub room_id : (a : MediaRow) → (f a).room_id ≡ a.room_id
  pub status : (a : MediaRow) → (f a).status ≡ a.status
  pub size_bytes : (a : MediaRow) → (f a).size_bytes ≡ a.size_bytes

module _ (f : MediaRow → MediaRow) (unseen : IsUnseen f) (k : ℕ) where
  weight_unseen :
      (counts : MediaStatus → Bool) (amount : MediaRow → ℕ)
      → ((a : MediaRow) → amount (f a) ≡ amount a)
      → (room_id : ℕ) (media : List MediaRow)
      → sum (weight counts amount room_id) (modify (λ m. m.id) k f media)
        ≡ sum (weight counts amount room_id) media
  weight_unseen counts amount same room_id media =
      sum-modify_same (λ m. m.id) k f (weight counts amount room_id) media
        (λ a. ground (arith, unseen.room_id a, unseen.status a, same a))

  RoomFits-unseen :
      (media : List MediaRow) (r : RoomRow)
      → RoomFits media r
      → RoomFits (modify (λ m. m.id) k f media) r
  RoomFits-unseen media r fits = record {
    reserved_files =
        fits.reserved_files ∙ sym (weight_unseen is_pending one (λ a. refl) r.id media);
    reserved_bytes =
        fits.reserved_bytes ∙ sym (weight_unseen is_pending size_of unseen.size_bytes r.id media);
    used_files = fits.used_files ∙ sym (weight_unseen is_ready one (λ a. refl) r.id media);
    used_bytes =
        fits.used_bytes ∙ sym (weight_unseen is_ready size_of unseen.size_bytes r.id media);
    files = fits.files;
    bytes = fits.bytes;
    max_files = fits.max_files;
    max_bytes = fits.max_bytes;
  }

  UploadFits-unseen :
      (media : List MediaRow) (u : UploadRow)
      → UploadFits media u
      → UploadFits (modify (λ m. m.id) k f media) u
  UploadFits-unseen media u (m, found, open_or_not) =
      let after = find_key-modify (λ a. a.id) k f u.media_id media unseen.id in
      elim (Bool-cases (u.media_id == k)) [
        | inl hit ↦ (f m, rw (after, hit, found) refl, rw (unseen.status m) open_or_not)
        | inr miss ↦ (m, rw (after, miss) found, open_or_not)
      ]

  pub unseen-IsSound :
      (db : Db) → IsSound db → IsSound (record db { media = modify (λ m. m.id) k f db.media })
  unseen-IsSound db sound = record {
    room_ids = sound.room_ids;
    media_ids = Distinct-modify (λ m. m.id) k f (λ m. m.id) db.media unseen.id sound.media_ids;
    upload_ids = sound.upload_ids;
    upload_media = sound.upload_media;
    rooms = All-map db.rooms (λ r fits. RoomFits-unseen db.media r fits) sound.rooms;
    uploads = All-map db.uploads (λ u fits. UploadFits-unseen db.media u fits) sound.uploads;
  }
