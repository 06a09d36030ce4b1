-- ===== src/Auth/Grants/Logins.antt =====
-- A login changes nothing, or it stores one session under a new hash.
use zhyvo.Base.{
  ℕ, ◌≡◌, refl, sym, ◌⊎◌, inl, inr, ◌∷◌, Option, none, some, false, ltb, length, not, ◌||◌, ◌==◌,
  any, Bool-cases, subst, arith,
}
use zhyvo.Base.Int.{pos, ltb_ℤ, pos_part}
use zhyvo.Base.Text.{Text, codes, trim_space}
use zhyvo.Base.Base64.{encode_url}
use zhyvo.Schema.{Db, IdentityRow, SessionRow}
use zhyvo.Exec.{Env, World, Result, begin, commit, make_token, create_identity, create_session}
use zhyvo.Auth.Types.{Jwt, Service, Identity, SessionTokens, TelegramUser}
use zhyvo.Auth.Token.{issue_token}
use zhyvo.Auth.Telegram.{display_name}
use zhyvo.Auth.Sessions.{
  session_refused, put_session, identity_of, identity_refused, put_identity, select_telegram,
  upsert_telegram,
}
use zhyvo.Auth.Login.{
  create_anonymous, create_telegram, open_session, open_telegram, issue, session_row,
  new_refresh_token, is_client, anonymous_row, telegram_row,
}

-- One session more, under a hash that no other has.
pub record Opened (db db' : Db) : Type 0 where
  pub row : SessionRow
  pub lasting : row.revoked_at ≡ none
  pub free : any (λ s. s.token_hash == row.token_hash) db.sessions ≡ false
  pub sessions : db'.sessions ≡ row ∷ db.sessions
  pub others : db' ≡ record db { identities = db'.identities; sessions = db'.sessions }

-- The database after a login.
abbrev Logs : Db → Result SessionTokens × World → Type 0
Logs db out = (out.1.db ≡ db) ⊎ Opened db out.1.db

module _ (jwt : Jwt) (s : Service) (env : Env) where
  issue-world :
      (i : Identity) (id expiry : ℕ) (token : Text) (w : World)
      → (issue jwt s env i id token expiry w).1 ≡ w
  unfolding issue issue_token
  issue-world i id expiry token w = ground arith

  open_session-Opened :
      (i : Identity) (client token : Text) (hash : ℕ) (db tx : Db) (w : World)
      → w.db ≡ db
      → w.tx ≡ record db { identities = w.tx.identities }
      → let out = open_session jwt s env i client token hash w in
        (out.1.db ≡ db) ⊎ Opened db out.1.db
  unfolding open_session session_refused put_session
  open_session-Opened i client token hash db tx w same kept =
      let row = session_row jwt s env i.id hash client in
      let v = put_session row w.tx in
      let rest = issue-world i env.session_id row.expires_at token (record w { db = v; tx = v }) in
      elim (Bool-cases (env.fails create_session)) [
        | inl broken ↦ inl (ground arith)
        | inr works ↦ elim (Bool-cases (session_refused row w.tx)) [
          | inl clash ↦ inl (ground arith)
          | inr free ↦ elim (Bool-cases (env.fails commit)) [
            | inl lost ↦ inl (ground arith)
            | inr done ↦ inr (record {
              row = row;
              lasting = refl;
              free = ground arith;
              sessions = ground (arith, rest);
              others = ground (arith, rest);
            })
          ]
        ]
      ]

  pub create_anonymous-Opened :
      (name client : Text) (w : World)
      → let out = create_anonymous jwt s env name client w in
        (out.1.db ≡ w.db) ⊎ Opened w.db out.1.db
  unfolding create_anonymous new_refresh_token put_identity identity_refused
  create_anonymous-Opened raw client w =
      let name = trim_space raw in
      let i = anonymous_row env name in
      let token = encode_url env.refresh_bytes in
      let v = record w { tx = put_identity i w.db } in
      let opened =
        open_session-Opened (identity_of i) client token (env.sha256 token) w.db v.tx v refl refl in
      elim (Bool-cases (not (ltb (length name) 1 || ltb 80 (length name)))) [
        | inr bad ↦ inl (ground arith)
        | inl good ↦ elim (Bool-cases (is_client client)) [
          | inr odd ↦ inl (ground arith)
          | inl known ↦ elim (Bool-cases (env.fails make_token)) [
            | inl broken ↦ inl (ground arith)
            | inr made ↦ elim (Bool-cases (env.fails begin)) [
              | inl closed ↦ inl (ground arith)
              | inr begun ↦ elim (Bool-cases (env.fails create_identity)) [
                | inl lost ↦ inl (ground arith)
                | inr works ↦ elim (Bool-cases (identity_refused i w.db)) [
                  | inl clash ↦ inl (ground arith)
                  | inr free ↦
                      let all : create_anonymous jwt s env raw client w
                          ≡ open_session jwt s env (identity_of i) client token (env.sha256 token)
                              v =
                        ground arith in
                      subst (Logs w.db) (sym all) opened
                ]
              ]
            ]
          ]
        ]
      ]

  open_telegram-Opened :
      (token : Text) (hash : ℕ) (found : Option IdentityRow) (db tx : Db) (w : World)
      → w.db ≡ db
      → w.tx ≡ record db { identities = w.tx.identities }
      → Logs db (open_telegram jwt s env token hash found w)
  open_telegram-Opened token hash none db tx w same kept = inl same
  open_telegram-Opened token hash (some i) db tx w same kept =
      open_session-Opened (identity_of i) (codes "telegram") token hash db tx w same kept

  pub create_telegram-Opened :
      (user : TelegramUser) (w : World)
      → let out = create_telegram jwt s env user w in (out.1.db ≡ w.db) ⊎ Opened w.db out.1.db
  unfolding create_telegram new_refresh_token upsert_telegram
  create_telegram-Opened user w =
      let id = pos_part user.id in
      let i = telegram_row env id (display_name user) in
      let token = encode_url env.refresh_bytes in
      let v = record w { tx = upsert_telegram id i w.db } in
      let opened =
        open_telegram-Opened token (env.sha256 token) (select_telegram id v.tx) w.db v.tx v refl
          refl in
      elim (Bool-cases (ltb_ℤ (pos 0) user.id)) [
        | inr bad ↦ inl (ground arith)
        | inl good ↦ elim (Bool-cases (env.fails make_token)) [
          | inl broken ↦ inl (ground arith)
          | inr made ↦ elim (Bool-cases (env.fails begin)) [
            | inl closed ↦ inl (ground arith)
            | inr begun ↦ elim (Bool-cases (env.fails create_identity)) [
              | inl lost ↦ inl (ground arith)
              | inr works ↦
                  let all : create_telegram jwt s env user w
                      ≡ open_telegram jwt s env token (env.sha256 token) (select_telegram id v.tx)
                          v =
                    ground arith in
                  subst (Logs w.db) (sym all) opened
            ]
          ]
        ]
      ]
