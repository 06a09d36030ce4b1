-- ===== src/Auth/Telegram/Accepts.antt =====
-- Which data of Telegram is accepted.
use zhyvo.Base.{
  ℕ, zero, suc, ◌+◌, ◌≡◌, ◌≢◌, ◌≤◌, ◌∷◌, ◌++◌, length-take, refl, ap, ◌∙◌, inl, inr, [], Option,
  none, some, true, false, ◌↔◌, ◌&&◌, ◌||◌, ltb, ◌==◌, length, all, Bool-cases, Option-cases, arith,
}
use zhyvo.Base.Int.{ℤ, pos, negsuc, ltb_ℤ}
use zhyvo.Base.Text.{Text, codes, text_eq, text_eq_iff, trim_space, byte_length}
use zhyvo.Auth.Types.{TelegramUser}
use zhyvo.Auth.Telegram.{
  Values, Signing, accepted, value_of, is_single, hex_decode, parse_int, signature, check_user,
  check_time, check_hash, validate_init_data, display_name, if_empty,
}

module _ (lib : Signing) (bot_token : Text) (max_age now : ℕ) where
  -- The data is neither missing nor too long, names each value once and carries the bot's signature of
  -- all the others, it is not older than `max_age` nor more than 30 seconds ahead, and it names a user.
  pub record Accepts (raw : Text) (user : TelegramUser) : Type 0 where
    pub values : Values
    pub time : ℕ
    pub sized : text_eq raw [] || text_eq bot_token [] || ltb 16384 (byte_length raw) ≡ false
    pub query : lib.parse_query raw ≡ some values
    pub single : all is_single values ≡ true
    pub signed : hex_decode (value_of (codes "hash") values) ≡ some (signature lib bot_token values)
    pub dated : parse_int (value_of (codes "auth_date") values) ≡ some (pos time)
    pub bytes : length (signature lib bot_token values) ≡ 32
    pub positive : 1 ≤ time
    pub begun : time ≤ now + 30
    pub fresh : now ≤ time + max_age
    pub named : lib.parse_user (value_of (codes "user") values) ≡ some user
    pub real : ltb_ℤ (pos 0) user.id ≡ true

  check_time-accepted :
      (values : Values) (t : Option ℤ) (user : TelegramUser)
      → check_time lib bot_token max_age now values t ≡ accepted user
      → (time : ℕ) × (t ≡ some (pos time))
        × (1 ≤ time)
        × (time ≤ now + 30)
        × (now ≤ time + max_age)
        × (check_user lib bot_token max_age now (lib.parse_user (value_of (codes "user") values))
            ≡ accepted user)
  check_time-accepted values none user h = absurd (ground arith)
  check_time-accepted values (some (negsuc n)) user h = absurd (ground arith)
  check_time-accepted values (some (pos zero)) user h = absurd (ground arith)
  check_time-accepted values (some (pos (suc t))) user h =
      (suc t, refl, omega arith, ground arith, ground arith, ground arith)

  check_user-accepted :
      (o : Option TelegramUser) (user : TelegramUser)
      → check_user lib bot_token max_age now o ≡ accepted user
      → (o ≡ some user) × (ltb_ℤ (pos 0) user.id ≡ true)
  check_user-accepted none user h = absurd (ground arith)
  check_user-accepted (some u) user h = elim (Bool-cases (ltb_ℤ (pos 0) u.id)) [
    | inl real ↦ (ground arith, ground arith)
    | inr odd ↦ absurd (ground arith)
  ]

  check_hash-Accepts :
      (raw : Text) (values : Values) (user : TelegramUser)
      → (text_eq raw [] || text_eq bot_token [] || ltb 16384 (byte_length raw) ≡ false)
      → lib.parse_query raw ≡ some values
      → all is_single values ≡ true
      → check_hash lib bot_token max_age now values (hex_decode (value_of (codes "hash") values))
        ≡ accepted user
      → Accepts raw user
  check_hash-Accepts raw values user sized query single h =
      elim (Option-cases (hex_decode (value_of (codes "hash") values))) [
        | inl e ↦ absurd (ground arith)
        | inr (hash, e) ↦
            elim (Bool-cases (length hash == 32 && text_eq hash (signature lib bot_token values))) [
              | inr wrong ↦ absurd (ground arith)
              | inl right ↦
                  let same : hash ≡ signature lib bot_token values =
                    (text_eq_iff _ _).0 (ground arith) in
                  let (time, dated, positive, begun, fresh, checked) =
                    check_time-accepted values (parse_int (value_of (codes "auth_date") values))
                      user (ground arith) in
                  let (named, real) =
                    check_user-accepted (lib.parse_user (value_of (codes "user") values)) user
                      checked in
                  record {
                    values = values;
                    time = time;
                    sized = sized;
                    query = query;
                    single = single;
                    signed = e ∙ ap some same;
                    dated = dated;
                    bytes = ground (arith, same);
                    positive = positive;
                    begun = begun;
                    fresh = fresh;
                    named = named;
                    real = real;
                  }
            ]
      ]

  accepted-Accepts :
      (raw : Text) (user : TelegramUser)
      → validate_init_data lib bot_token max_age now raw ≡ accepted user
      → Accepts raw user
  unfolding validate_init_data
  accepted-Accepts raw user h =
      elim (Bool-cases (text_eq raw [] || text_eq bot_token [] || ltb 16384 (byte_length raw))) [
        | inl odd ↦ absurd (ground arith)
        | inr sized ↦ elim (Option-cases (lib.parse_query raw)) [
          | inl e ↦ absurd (ground arith)
          | inr (values, query) ↦ elim (Bool-cases (all is_single values)) [
            | inr many ↦ absurd (ground arith)
            | inl single ↦ check_hash-Accepts raw values user sized query single (ground arith)
          ]
        ]
      ]

  check_time-dated :
      (values : Values) (time : ℕ) (user : TelegramUser)
      → 1 ≤ time
      → time ≤ now + 30
      → now ≤ time + max_age
      → lib.parse_user (value_of (codes "user") values) ≡ some user
      → ltb_ℤ (pos 0) user.id ≡ true
      → check_time lib bot_token max_age now values (some (pos time)) ≡ accepted user
  check_time-dated values zero user positive begun fresh named real = absurd (omega arith)
  check_time-dated values (suc t) user positive begun fresh named real = rw named (ground arith)

  Accepts-accepted :
      (raw : Text) (user : TelegramUser)
      → Accepts raw user
      → validate_init_data lib bot_token max_age now raw ≡ accepted user
  unfolding validate_init_data
  Accepts-accepted raw user a =
      let right : length (signature lib bot_token a.values) == 32
            && text_eq (signature lib bot_token a.values) (signature lib bot_token a.values)
          ≡ true =
        ground (arith, a.bytes, (text_eq_iff (signature lib bot_token a.values) _).1 refl) in
      rw (a.sized, a.query, a.single, a.signed, right, a.dated)
        (check_time-dated a.values a.time user a.positive a.begun a.fresh a.named a.real)

  -- Data is accepted exactly if it is neither missing nor longer than 16 KiB, names each value once,
  -- carries the signature of all the others under the bot's token, is not older than the configured
  -- age nor more than 30 seconds ahead, and names a user with a positive identifier, which is returned.
  pub validate_init_data_iff :
      (raw : Text) (user : TelegramUser)
      → (validate_init_data lib bot_token max_age now raw ≡ accepted user) ↔ Accepts raw user
  validate_init_data_iff raw user = (accepted-Accepts raw user, Accepts-accepted raw user)

if_empty-nonempty : (name other : Text) → other ≢ [] → if_empty name other ≢ []
if_empty-nonempty name other h = elim (Bool-cases (text_eq name [])) [
  | inl e ↦ rw e h
  | inr n ↦ rw n (λ e. absurd (ground (arith, (text_eq_iff name []).1)))
]

length-nonempty : (s : Text) → s ≢ [] → 1 ≤ length s
length-nonempty [] h = absurd (h refl)
length-nonempty (c ∷ s) h = omega arith

-- The name shown for a user of Telegram fits the column: it has 1 to 80 characters, whatever the user
-- has set.
pub display_name_bounds :
    (user : TelegramUser) → (1 ≤ length (display_name user)) × (length (display_name user) ≤ 80)
unfolding display_name
display_name_bounds user =
    let full = trim_space (user.first_name ++ (b' ' ∷ user.last_name)) in
    let name = if_empty (if_empty full (trim_space user.username)) (codes "Telegram user") in
    let some_name = length-nonempty name (
      if_empty-nonempty (if_empty full (trim_space user.username)) (codes "Telegram user")
        (λ e. absurd (ground arith))) in
    elim (Bool-cases (ltb 80 (length name))) [
      | inl long ↦ rw long (rw (length-take 80 name (ground arith)) (omega arith, omega arith))
      | inr short ↦ rw short (some_name, ground arith)
    ]
