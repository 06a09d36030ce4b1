-- ===== src/Capacity/Change.antt =====
-- The whole database when an upload session, its media row and its room change together.
use zhyvo.Base.{
  ℕ, ◌≤◌, List, ◌≡◌, ◌≢◌, refl, sym, ap, ◌∙◌, some, Bool, ◌==◌, ==_iff, subst, All, All-map,
  All-zip, Bool-cases, inl, inr, arith, if◌then◌else◌,
}
use zhyvo.Base.Table.{sum, find_key, modify}
use zhyvo.Base.Table.Modify.{All-modify, Distinct-modify}
use zhyvo.Base.Table.Keys.{Distinct-others, Distinct-same, le-sum}
use mathlib.Core.Option.{some-injective}
use zhyvo.Schema.{
  Db, RoomRow, MediaRow, UploadRow, MediaStatus, UploadStatus, is_pending, is_ready, is_open,
}
use zhyvo.Capacity.{weight, one, size_of, RoomFits, UploadFits, IsSound}
use zhyvo.Capacity.Step.{
  Keeps, Follows, RoomFits-hit, RoomFits-miss, UploadFits-hit, UploadFits-miss,
}

-- An update of an upload session that leaves its keys alone.
pub record Ends (g : UploadRow → UploadRow) (t : UploadStatus) : Type 0 where
  pub id : (u : UploadRow) → (g u).id ≡ u.id
  pub media_id : (u : UploadRow) → (g u).media_id ≡ u.media_id
  pub status : (u : UploadRow) → (g u).status ≡ t

abbrev pub changed :
    Db → ℕ → (UploadRow → UploadRow) → ℕ → (MediaRow → MediaRow) → ℕ → (RoomRow → RoomRow) → Db
changed db upload_id g media_id f room_id h = record db {
  uploads = modify (λ u. u.id) upload_id g db.uploads;
  media = modify (λ m. m.id) media_id f db.media;
  rooms = modify (λ r. r.id) room_id h db.rooms;
}

-- The counters of the row's room include the row.
pub record Includes (m : MediaRow) (r : RoomRow) : Type 0 where
  pub reserved_files : (if is_pending m.status then 1 else 0) ≤ r.reserved_files
  pub reserved_bytes : (if is_pending m.status then m.size_bytes else 0) ≤ r.reserved_storage_bytes
  pub used_files : (if is_ready m.status then 1 else 0) ≤ r.used_files
  pub used_bytes : (if is_ready m.status then m.size_bytes else 0) ≤ r.used_storage_bytes

module _ (media : List MediaRow) (media_id : ℕ) (m : MediaRow)
    (found : find_key (λ a. a.id) media_id media ≡ some m) where
  pub includes : (r : RoomRow) → m.room_id ≡ r.id → RoomFits media r → Includes m r
  includes r here fits = record {
    reserved_files = ground (arith, fits.reserved_files, part is_pending one);
    reserved_bytes = ground (arith, fits.reserved_bytes, part is_pending size_of);
    used_files = ground (arith, fits.used_files, part is_ready one);
    used_bytes = ground (arith, fits.used_bytes, part is_ready size_of);
  }
    where
      part :
          (counts : MediaStatus → Bool) (amount : MediaRow → ℕ)
          → weight counts amount r.id m ≤ sum (weight counts amount r.id) media
      part counts amount = le-sum (λ a. a.id) media_id (weight counts amount r.id) media m found

module _ (db : Db) (upload_id : ℕ) (g : UploadRow → UploadRow) (t : UploadStatus) (u : UploadRow)
    (f : MediaRow → MediaRow) (s : MediaStatus) (m : MediaRow) (h : RoomRow → RoomRow)
    (sound : IsSound db) (upload : find_key (λ a. a.id) upload_id db.uploads ≡ some u)
    (row : find_key (λ a. a.id) u.media_id db.media ≡ some m) (ends : Ends g t) (keeps : Keeps f s)
    (same : (r : RoomRow) → (h r).id ≡ r.id)
    (follows : (r : RoomRow)
      → r.id ≡ m.room_id
      → RoomFits db.media r
      → Includes m r
      → Follows m s r (h r))
    (opens : is_open t ≡ is_pending s) where
  abbrev IsThis : UploadRow → Type 0
  IsThis a = a.id ≡ upload_id → a ≡ u

  abbrev IsOther : UploadRow → Type 0
  IsOther a = a.id ≢ upload_id → a.media_id ≢ u.media_id

  uploads_step :
      All
        (UploadFits (modify (λ a. a.id) u.media_id f db.media))
        (modify (λ a. a.id) upload_id g db.uploads)
  uploads_step =
      All-modify (λ a. a.id) upload_id g db.uploads
        (λ a hit p.
          let e : a ≡ u = p.1.0 hit in
          UploadFits-hit db.media u.media_id f m s sound.media_ids row keeps a (g a)
            (ap (λ b. b.media_id) e) (ends.media_id a) (ap is_open (ends.status a) ∙ opens))
        (λ a miss p.
          UploadFits-miss db.media u.media_id f m s sound.media_ids row keeps a (p.1.1 miss) p.0)
        (All-zip (UploadFits db.media) (λ a. IsThis a × IsOther a) db.uploads sound.uploads
          (All-zip IsThis IsOther db.uploads
            (Distinct-same (λ a. a.id) upload_id db.uploads u sound.upload_ids upload)
            (Distinct-others (λ a. a.id) (λ a. a.media_id) upload_id db.uploads u sound.upload_media
              upload)))

  rooms_step :
      All
        (RoomFits (modify (λ a. a.id) u.media_id f db.media))
        (modify (λ r. r.id) m.room_id h db.rooms)
  rooms_step =
      All-modify (λ r. r.id) m.room_id h db.rooms
        (λ r here fits.
          RoomFits-hit db.media u.media_id f m s sound.media_ids row keeps r (h r) (sym here)
            (follows r here fits (includes db.media u.media_id m row r (sym here) fits)) fits)
        (λ r away fits.
          RoomFits-miss db.media u.media_id f m s sound.media_ids row keeps r (λ e. away (sym e))
            fits)
        sound.rooms

  pub changed-IsSound : IsSound (changed db upload_id g u.media_id f m.room_id h)
  changed-IsSound = record {
    room_ids = Distinct-modify (λ r. r.id) m.room_id h (λ r. r.id) db.rooms same sound.room_ids;
    media_ids =
        Distinct-modify (λ a. a.id) u.media_id f (λ a. a.id) db.media keeps.id sound.media_ids;
    upload_ids =
        Distinct-modify (λ a. a.id) upload_id g (λ a. a.id) db.uploads ends.id sound.upload_ids;
    upload_media =
        Distinct-modify (λ a. a.id) upload_id g (λ a. a.media_id) db.uploads ends.media_id
          sound.upload_media;
    rooms = rooms_step;
    uploads = uploads_step;
  }

-- The same where the session is over and stays so.
module _ (db : Db) (media_id : ℕ) (f : MediaRow → MediaRow) (s : MediaStatus) (m : MediaRow)
    (sound : IsSound db) (row : find_key (λ a. a.id) media_id db.media ≡ some m) (keeps : Keeps f s)
    (still : is_pending m.status ≡ is_pending s) where
  abbrev media_after : List MediaRow
  media_after = modify (λ a. a.id) media_id f db.media

  uploads_same : (u : UploadRow) → UploadFits db.media u → UploadFits media_after u
  uploads_same u (a, e, opens) = elim (Bool-cases (u.media_id == media_id)) [
    | inl hit ↦
        let here : u.media_id ≡ media_id = (==_iff _ _).0 hit in
        let same : a ≡ m =
          some-injective a m
            (sym e ∙ subst (λ k. find_key (λ b. b.id) k db.media ≡ some m) (sym here) row) in
        UploadFits-hit db.media media_id f m s sound.media_ids row keeps u u here refl
          (opens ∙ ap (λ b. is_pending b.status) same ∙ still)
    | inr miss ↦
        UploadFits-miss db.media media_id f m s sound.media_ids row keeps u
          (λ q. cc ((==_iff u.media_id media_id).1 q, miss)) (a, e, opens)
  ]

  rooms_same :
      (r : RoomRow)
      → (m.room_id ≡ r.id → Follows m s r r)
      → RoomFits db.media r
      → RoomFits media_after r
  rooms_same r follows fits = elim (Bool-cases (m.room_id == r.id)) [
    | inl hit ↦
        let here : m.room_id ≡ r.id = (==_iff _ _).0 hit in
        RoomFits-hit db.media media_id f m s sound.media_ids row keeps r r here (follows here) fits
    | inr miss ↦
        RoomFits-miss db.media media_id f m s sound.media_ids row keeps r
          (λ q. cc ((==_iff m.room_id r.id).1 q, miss)) fits
  ]

  -- No counter counts the row, before or after.
  pub media_changed-IsSound :
      ((r : RoomRow) → Follows m s r r) → IsSound (record db { media = media_after })
  media_changed-IsSound follows = record {
    room_ids = sound.room_ids;
    media_ids =
        Distinct-modify (λ a. a.id) media_id f (λ a. a.id) db.media keeps.id sound.media_ids;
    upload_ids = sound.upload_ids;
    upload_media = sound.upload_media;
    rooms = All-map db.rooms (λ r fits. rooms_same r (λ _. follows r) fits) sound.rooms;
    uploads = All-map db.uploads uploads_same sound.uploads;
  }

  -- The room's counters follow the row.
  pub media_counted-IsSound :
      (h : RoomRow → RoomRow)
      → ((r : RoomRow) → (h r).id ≡ r.id)
      → ((r : RoomRow) → Includes m r → Follows m s r (h r))
      → IsSound (record db { media = media_after; rooms = modify (λ r. r.id) m.room_id h db.rooms })
  media_counted-IsSound h same follows = record {
    room_ids = Distinct-modify (λ r. r.id) m.room_id h (λ r. r.id) db.rooms same sound.room_ids;
    media_ids =
        Distinct-modify (λ a. a.id) media_id f (λ a. a.id) db.media keeps.id sound.media_ids;
    upload_ids = sound.upload_ids;
    upload_media = sound.upload_media;
    rooms =
        All-modify (λ r. r.id) m.room_id h db.rooms
          (λ r here fits.
            RoomFits-hit db.media media_id f m s sound.media_ids row keeps r (h r) (sym here)
              (follows r (includes db.media media_id m row r (sym here) fits)) fits)
          (λ r away fits.
            RoomFits-miss db.media media_id f m s sound.media_ids row keeps r (λ e. away (sym e))
              fits)
          sound.rooms;
    uploads = All-map db.uploads uploads_same sound.uploads;
  }
