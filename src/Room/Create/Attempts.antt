-- ===== src/Room/Create/Attempts.antt =====
-- The attempts at a slug, and the room of the one that succeeds.
use zhyvo.Base.{
  ℕ, zero, suc, ◌-◌, ◌≡◌, refl, sym, ap, ◌∙◌, inl, inr, ◌∷◌, Option, true, false, any, ◌==◌,
  Bool-cases, subst, arith,
}
use zhyvo.Base.Text.{Text, text_eq}
use zhyvo.Schema.{RoomRow, owner}
use zhyvo.Exec.{Env, World, ok, random, insert_room}
use zhyvo.Room.Types.{CreateInput, Room, scan_room}
use zhyvo.Room.Slug.{new_slug}
use zhyvo.Room.Create.{
  draft_room, insert_row, insert_attempts, finish_create, owner_member, add_member, finish,
}

-- The room that an attempt makes.
abbrev pub attempted : Env → ℕ → CreateInput → Option Text → ℕ → RoomRow
attempted env owner_id input secret_hash n =
    draft_room env (new_slug (env.slug_bytes n)) owner_id input secret_hash

abbrev pub with_room : RoomRow → World → World
with_room r w = record w { tx = record (w.tx) { rooms = r ∷ w.tx.rooms } }

-- The room of some attempt is in, and its slug and its identifier were free.
abbrev pub Inserted : Env → ℕ → CreateInput → Option Text → Room → World → World → Type 0
Inserted env owner_id input secret_hash created w w' =
    (n : ℕ) × (created ≡ scan_room (attempted env owner_id input secret_hash n) owner)
    × (w' ≡ with_room (attempted env owner_id input secret_hash n) w)
    × (any (λ q. text_eq q.slug (attempted env owner_id input secret_hash n).slug) w.tx.rooms
        ≡ false)
    × (any (λ q. q.id == env.room_id) w.tx.rooms ≡ false)

module _ (env : Env) (owner_id : ℕ) (input : CreateInput) (secret_hash : Option Text) where
  pub insert_attempts-taken :
      (left : ℕ) (w : World)
      → env.fails (random (7 - left)) ≡ false
      → env.fails (insert_room (7 - left)) ≡ false
      → any
          (λ q. text_eq q.slug (attempted env owner_id input secret_hash (7 - left)).slug)
          w.tx.rooms
        ≡ true
      → insert_attempts env owner_id input secret_hash (suc left) w
        ≡ insert_attempts env owner_id input secret_hash left w
  unfolding insert_attempts insert_row
  insert_attempts-taken left w random_works works taken = rw (random_works, works, taken) refl

  pub insert_attempts-Inserted :
      (left : ℕ) (w : World) (created : Room)
      → (insert_attempts env owner_id input secret_hash left w).0 ≡ ok created
      → Inserted env owner_id input secret_hash created w
          (insert_attempts env owner_id input secret_hash left w).1
  unfolding insert_attempts insert_row
  insert_attempts-Inserted zero w created h = absurd (ground arith)
  insert_attempts-Inserted (suc left) w created h =
      let n = 7 - left in
      let r = attempted env owner_id input secret_hash n in
      elim (Bool-cases (env.fails (random n))) [
        | inl broken ↦ absurd (ground arith)
        | inr random_works ↦ elim (Bool-cases (env.fails (insert_room n))) [
          | inl broken ↦ absurd (ground arith)
          | inr works ↦ elim (Bool-cases (any (λ q. text_eq q.slug r.slug) w.tx.rooms)) [
            | inl taken ↦
                let again = insert_attempts-taken left w random_works works taken in
                subst (Inserted env owner_id input secret_hash created w)
                  (ap (λ x. x.1) (sym again))
                  (insert_attempts-Inserted left w created (sym (ap (λ x. x.0) again) ∙ h))
            | inr free ↦ elim (Bool-cases (any (λ q. q.id == r.id) w.tx.rooms)) [
              | inl twice ↦ absurd (ground arith)
              | inr fresh ↦ (n, ground arith, ground arith, free, fresh)
            ]
          ]
        ]
      ]

  pub finish_create-db :
      (key : ℕ) (created room : Room) (w : World)
      → (finish_create env owner_id key created w).0 ≡ ok room
      → (room ≡ created)
        × ((finish_create env owner_id key created w).1.db
            ≡ finish owner_id key created.id
                (add_member (owner_member env created.id owner_id) w.tx))
  unfolding finish_create
  finish_create-db key created room w h = (ground arith, ground arith)
