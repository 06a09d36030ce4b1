-- ===== src/Capacity/Step.antt =====
-- One media row changes its status, its room's counters and its upload session follow.
use zhyvo.Base.{
  ℕ, ◌+◌, ◌≤◌, List, ◌≡◌, ◌≢◌, refl, sym, ap, ◌∙◌, some, Bool, ◌&&◌, ◌==◌, arith, if◌then◌else◌,
}
use zhyvo.Base.Table.{Distinct, sum, find_key, modify}
use zhyvo.Base.Table.Modify.{sum-modify, find_key-modify}
use zhyvo.Schema.{RoomRow, MediaRow, UploadRow, MediaStatus, is_pending, is_ready, is_open}
use zhyvo.Capacity.{weight, one, size_of, RoomFits, UploadFits}

-- An update of a media row that leaves its identity, room and size alone.
pub record Keeps (f : MediaRow → MediaRow) (s : MediaStatus) : Type 0 where
  pub id : (m : MediaRow) → (f m).id ≡ m.id
  pub room_id : (m : MediaRow) → (f m).room_id ≡ m.room_id
  pub size_bytes : (m : MediaRow) → (f m).size_bytes ≡ m.size_bytes
  pub status : (m : MediaRow) → (f m).status ≡ s

-- What the room's row must become: each counter loses what `m` added to it and gains what the
-- row with status `s` adds.
pub record Follows (m : MediaRow) (s : MediaStatus) (r r' : RoomRow) : Type 0 where
  pub id : r'.id ≡ r.id
  pub max_files : r'.max_files ≡ r.max_files
  pub max_bytes : r'.max_storage_bytes ≡ r.max_storage_bytes
  pub reserved_files :
      r'.reserved_files + (if is_pending m.status then 1 else 0)
      ≡ r.reserved_files + (if is_pending s then 1 else 0)
  pub reserved_bytes :
      r'.reserved_storage_bytes + (if is_pending m.status then m.size_bytes else 0)
      ≡ r.reserved_storage_bytes + (if is_pending s then m.size_bytes else 0)
  pub used_files :
      r'.used_files + (if is_ready m.status then 1 else 0)
      ≡ r.used_files + (if is_ready s then 1 else 0)
  pub used_bytes :
      r'.used_storage_bytes + (if is_ready m.status then m.size_bytes else 0)
      ≡ r.used_storage_bytes + (if is_ready s then m.size_bytes else 0)
  pub files : r'.used_files + r'.reserved_files ≤ r.used_files + r.reserved_files
  pub bytes :
      r'.used_storage_bytes + r'.reserved_storage_bytes
      ≤ r.used_storage_bytes + r.reserved_storage_bytes

module _ (media : List MediaRow) (media_id : ℕ) (f : MediaRow → MediaRow) (m : MediaRow)
    (s : MediaStatus) (distinct : Distinct (λ a. a.id) media)
    (found : find_key (λ a. a.id) media_id media ≡ some m) (keeps : Keeps f s) where
  -- The change of one sum over the media rows.
  sum_step :
      (counts : MediaStatus → Bool) (amount : MediaRow → ℕ) (room_id : ℕ)
      → amount (f m) ≡ amount m
      → sum (weight counts amount room_id) (modify (λ a. a.id) media_id f media)
          + (if m.room_id == room_id && counts m.status then amount m else 0)
        ≡ sum (weight counts amount room_id) media
          + (if m.room_id == room_id && counts s then amount m else 0)
  sum_step counts amount room_id same = ground (
    arith,
    sum-modify (λ a. a.id) media_id f (weight counts amount room_id) media m distinct found,
    keeps.room_id m,
    keeps.status m,
    same,
  )

  -- The same with the test of the room decided.
  sum_hit :
      (counts : MediaStatus → Bool) (amount : MediaRow → ℕ) (room_id : ℕ)
      → amount (f m) ≡ amount m
      → m.room_id ≡ room_id
      → sum (weight counts amount room_id) (modify (λ a. a.id) media_id f media)
          + (if counts m.status then amount m else 0)
        ≡ sum (weight counts amount room_id) media + (if counts s then amount m else 0)
  sum_hit counts amount room_id same here = ground (arith, sum_step counts amount room_id same)

  sum_miss :
      (counts : MediaStatus → Bool) (amount : MediaRow → ℕ) (room_id : ℕ)
      → amount (f m) ≡ amount m
      → m.room_id ≢ room_id
      → sum (weight counts amount room_id) (modify (λ a. a.id) media_id f media)
        ≡ sum (weight counts amount room_id) media
  sum_miss counts amount room_id same away = ground (arith, sum_step counts amount room_id same)

  counter_hit :
      (counts : MediaStatus → Bool) (amount : MediaRow → ℕ) (room_id room_id' c c' : ℕ)
      → amount (f m) ≡ amount m
      → m.room_id ≡ room_id
      → room_id' ≡ room_id
      → c ≡ sum (weight counts amount room_id) media
      → c' + (if counts m.status then amount m else 0) ≡ c + (if counts s then amount m else 0)
      → c' ≡ sum (weight counts amount room_id') (modify (λ a. a.id) media_id f media)
  counter_hit counts amount room_id room_id' c c' same here e total change =
      rw e (omega (arith, sum_hit counts amount room_id same here))

  pub RoomFits-hit :
      (r r' : RoomRow)
      → m.room_id ≡ r.id
      → Follows m s r r'
      → RoomFits media r
      → RoomFits (modify (λ a. a.id) media_id f media) r'
  RoomFits-hit r r' here follows fits =
      let size = keeps.size_bytes m in
      record {
        reserved_files =
            counter_hit is_pending one r.id r'.id _ _ refl here follows.id fits.reserved_files
              follows.reserved_files;
        reserved_bytes =
            counter_hit is_pending size_of r.id r'.id _ _ size here follows.id fits.reserved_bytes
              follows.reserved_bytes;
        used_files =
            counter_hit is_ready one r.id r'.id _ _ refl here follows.id fits.used_files
              follows.used_files;
        used_bytes =
            counter_hit is_ready size_of r.id r'.id _ _ size here follows.id fits.used_bytes
              follows.used_bytes;
        files = omega (arith, fits.files, follows.files, follows.max_files);
        bytes = omega (arith, fits.bytes, follows.bytes, follows.max_bytes);
        max_files = omega (arith, fits.max_files, follows.max_files);
        max_bytes = omega (arith, fits.max_bytes, follows.max_bytes);
      }

  pub RoomFits-miss :
      (r : RoomRow)
      → m.room_id ≢ r.id
      → RoomFits media r
      → RoomFits (modify (λ a. a.id) media_id f media) r
  RoomFits-miss r away fits = record {
    reserved_files = fits.reserved_files ∙ sym (sum_miss is_pending one r.id refl away);
    reserved_bytes =
        fits.reserved_bytes ∙ sym (sum_miss is_pending size_of r.id (keeps.size_bytes m) away);
    used_files = fits.used_files ∙ sym (sum_miss is_ready one r.id refl away);
    used_bytes = fits.used_bytes ∙ sym (sum_miss is_ready size_of r.id (keeps.size_bytes m) away);
    files = fits.files;
    bytes = fits.bytes;
    max_files = fits.max_files;
    max_bytes = fits.max_bytes;
  }

  -- The session of the row gets a status that is open exactly if the row's is pending.
  pub UploadFits-hit :
      (u u' : UploadRow)
      → u.media_id ≡ media_id
      → u'.media_id ≡ u.media_id
      → is_open u'.status ≡ is_pending s
      → UploadFits (modify (λ a. a.id) media_id f media) u'
  UploadFits-hit u u' here same opens = (
    f m,
    ground (arith, find_key-modify (λ a. a.id) media_id f u'.media_id media keeps.id),
    opens ∙ sym (ap is_pending (keeps.status m)),
  )

  pub UploadFits-miss :
      (u : UploadRow)
      → u.media_id ≢ media_id
      → UploadFits media u
      → UploadFits (modify (λ a. a.id) media_id f media) u
  UploadFits-miss u away (a, e, opens) =
      (a, ground (arith, find_key-modify (λ b. b.id) media_id f u.media_id media keeps.id), opens)
