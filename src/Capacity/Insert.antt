-- ===== src/Capacity/Insert.antt =====
-- The whole database when a pending media row and its open session are inserted.
use zhyvo.Base.{
  ℕ, ◌+◌, ◌≤◌, List, ◌∷◌, ◌≡◌, ◌≢◌, sym, ap, ◌∙◌, Bool, true, false, ◌==◌, All, All-zip, All-map,
  any, arith, if◌then◌else◌,
}
use zhyvo.Base.Table.Find.{Distinct-cons, find_key-All, find_key-key}
use zhyvo.Base.Table.{sum, find_key, modify}
use zhyvo.Base.Table.Modify.{All-modify, Distinct-modify}
use zhyvo.Schema.{
  Db, RoomRow, MediaRow, UploadRow, MediaStatus, pending, is_pending, is_ready, is_open,
}
use zhyvo.Capacity.{weight, one, size_of, RoomFits, UploadFits, IsSound}

-- What the room's row must become when `m` is added to its pending media.
pub record Grows (m : MediaRow) (r r' : RoomRow) : Type 0 where
  pub id : r'.id ≡ r.id
  pub max_files : r'.max_files ≡ r.max_files
  pub max_bytes : r'.max_storage_bytes ≡ r.max_storage_bytes
  pub reserved_files : r'.reserved_files ≡ r.reserved_files + 1
  pub reserved_bytes : r'.reserved_storage_bytes ≡ r.reserved_storage_bytes + m.size_bytes
  pub used_files : r'.used_files ≡ r.used_files
  pub used_bytes : r'.used_storage_bytes ≡ r.used_storage_bytes
  pub files : r'.used_files + r'.reserved_files ≤ r'.max_files
  pub bytes : r'.used_storage_bytes + r'.reserved_storage_bytes ≤ r'.max_storage_bytes

module _ (media : List MediaRow) (m : MediaRow) (status : m.status ≡ pending) where
  sum_here :
      (counts : MediaStatus → Bool) (amount : MediaRow → ℕ) (room_id : ℕ)
      → m.room_id ≡ room_id
      → sum (weight counts amount room_id) (m ∷ media)
        ≡ sum (weight counts amount room_id) media + (if counts pending then amount m else 0)
  unfolding sum
  sum_here counts amount room_id here = ground (arith, ap counts status)

  grown :
      (counts : MediaStatus → Bool) (amount : MediaRow → ℕ) (room_id room_id' c c' : ℕ)
      → m.room_id ≡ room_id
      → room_id' ≡ room_id
      → c ≡ sum (weight counts amount room_id) media
      → c' ≡ c + (if counts pending then amount m else 0)
      → c' ≡ sum (weight counts amount room_id') (m ∷ media)
  grown counts amount room_id room_id' c c' here e total change =
      rw e (omega (arith, sum_here counts amount room_id here))

  same_sum :
      (counts : MediaStatus → Bool) (amount : MediaRow → ℕ) (room_id : ℕ)
      → m.room_id ≢ room_id
      → sum (weight counts amount room_id) (m ∷ media) ≡ sum (weight counts amount room_id) media
  unfolding sum
  same_sum counts amount room_id away = ground (arith, ap counts status)

  RoomFits-here :
      (r r' : RoomRow)
      → m.room_id ≡ r.id
      → Grows m r r'
      → RoomFits media r
      → RoomFits (m ∷ media) r'
  RoomFits-here r r' here grows fits = record {
    reserved_files =
        grown is_pending one r.id r'.id _ _ here grows.id fits.reserved_files grows.reserved_files;
    reserved_bytes =
        grown is_pending size_of r.id r'.id _ _ here grows.id fits.reserved_bytes
          grows.reserved_bytes;
    used_files =
        grown is_ready one r.id r'.id _ _ here grows.id fits.used_files
          (omega (arith, grows.used_files));
    used_bytes =
        grown is_ready size_of r.id r'.id _ _ here grows.id fits.used_bytes
          (omega (arith, grows.used_bytes));
    files = grows.files;
    bytes = grows.bytes;
    max_files = omega (arith, fits.max_files, grows.max_files);
    max_bytes = omega (arith, fits.max_bytes, grows.max_bytes);
  }

  RoomFits-away : (r : RoomRow) → m.room_id ≢ r.id → RoomFits media r → RoomFits (m ∷ media) r
  RoomFits-away r away fits = record {
    reserved_files = fits.reserved_files ∙ sym (same_sum is_pending one r.id away);
    reserved_bytes = fits.reserved_bytes ∙ sym (same_sum is_pending size_of r.id away);
    used_files = fits.used_files ∙ sym (same_sum is_ready one r.id away);
    used_bytes = fits.used_bytes ∙ sym (same_sum is_ready size_of r.id away);
    files = fits.files;
    bytes = fits.bytes;
    max_files = fits.max_files;
    max_bytes = fits.max_bytes;
  }

  UploadFits-old :
      (fresh : All (λ a. a.id ≢ m.id) media) (u : UploadRow)
      → UploadFits media u
      → UploadFits (m ∷ media) u
  unfolding find_key
  UploadFits-old fresh u (a, e, opens) =
      let new : a.id ≢ m.id =
        find_key-All (λ b. b.id ≢ m.id) (λ b. b.id) u.media_id media fresh e in
      let key : a.id ≡ u.media_id = find_key-key (λ b. b.id) u.media_id media e in
      (a, ground arith, opens)

  UploadFits-new :
      (u : UploadRow) → u.media_id ≡ m.id → is_open u.status ≡ true → UploadFits (m ∷ media) u
  unfolding find_key
  UploadFits-new u e opens = (m, ground arith, ground arith)

abbrev pub inserted : Db → UploadRow → MediaRow → (RoomRow → RoomRow) → Db
inserted db u m h = record db {
  uploads = u ∷ db.uploads;
  media = m ∷ db.media;
  rooms = modify (λ r. r.id) m.room_id h db.rooms;
}

module _ (db : Db) (u : UploadRow) (m : MediaRow) (h : RoomRow → RoomRow) where
  pub inserted-IsSound :
      IsSound db
      → any (λ a. a.id == m.id) db.media ≡ false
      → any (λ a. a.id == u.id) db.uploads ≡ false
      → any (λ a. a.media_id == u.media_id) db.uploads ≡ false
      → m.status ≡ pending
      → u.media_id ≡ m.id
      → is_open u.status ≡ true
      → ((r : RoomRow) → (h r).id ≡ r.id)
      → All (λ r. r.id ≡ m.room_id → Grows m r (h r)) db.rooms
      → IsSound (inserted db u m h)
  inserted-IsSound sound new_media new_id new_upload status link opens same grows =
      let fresh : All (λ a. a.id ≢ m.id) db.media =
        Distinct-cons (λ a. a.id) m db.media new_media in
      record {
        room_ids = Distinct-modify (λ r. r.id) m.room_id h (λ r. r.id) db.rooms same sound.room_ids;
        media_ids = (fresh, sound.media_ids);
        upload_ids = (Distinct-cons (λ a. a.id) u db.uploads new_id, sound.upload_ids);
        upload_media =
            (Distinct-cons (λ a. a.media_id) u db.uploads new_upload, sound.upload_media);
        rooms =
            All-modify (λ r. r.id) m.room_id h db.rooms
              (λ r here p. RoomFits-here db.media m status r (h r) (sym here) (p.1 here) p.0)
              (λ r away p. RoomFits-away db.media m status r (λ e. away (sym e)) p.0)
              (All-zip (RoomFits db.media) (λ r. r.id ≡ m.room_id → Grows m r (h r)) db.rooms
                sound.rooms grows);
        uploads = (
          UploadFits-new db.media m status u link opens,
          All-map db.uploads (UploadFits-old db.media m status fresh) sound.uploads,
        );
      }
