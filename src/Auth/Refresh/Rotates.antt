-- ===== src/Auth/Refresh/Rotates.antt =====
-- What a refresh does to the session: the old token ends with it, and the new one carries on.
use zhyvo.Base.{
  ℕ, ◌≡◌, ◌≢◌, ◌<◌, refl, sym, ap, ◌⊎◌, inl, inr, none, some, true, false, any, Bool-cases,
  Option-cases, subst, arith,
}
use zhyvo.Base.Table.{find_key, Distinct}
use zhyvo.Base.Text.{Text}
use zhyvo.Base.Base64.{encode_url}
use zhyvo.Schema.{Db, IdentityRow, SessionRow}
use zhyvo.Exec.{
  Env, World, Result, ok, err, Error, internal, violation, begin, commit, find_session, rotate,
  make_token, service_clock, database_clock, invalid_refresh_token,
}
use zhyvo.Auth.Types.{Jwt, Service, SessionTokens}
use zhyvo.Auth.Token.{issue_token, claims_of}
use zhyvo.Auth.Sessions.{select_session, rotate_hash, is_current, identity_of, is_live}
use zhyvo.Auth.Sessions.Rotated.{rotated, find_key-rotate_rows-new, find_key-rotate_rows-old}
use zhyvo.Auth.Login.{new_refresh_token, issue}
use zhyvo.Auth.Refresh.{refresh, rotate_locked, rotate_found, is_token_size, rotation_refused}

-- The index of the token hashes.
abbrev pub HasTokens : Db → Type 0
HasTokens db = Distinct (λ s. s.token_hash) db.sessions

-- What the lookup of a live session found.
pub select_session-some :
    (now hash : ℕ) (db : Db) (s : SessionRow) (i : IdentityRow)
    → select_session now hash db ≡ some (s, i)
    → (find_key (λ a. a.token_hash) hash db.sessions ≡ some s)
      × (find_key (λ a. a.id) s.identity_id db.identities ≡ some i)
      × (is_live now s ≡ true)
unfolding select_session
select_session-some now hash db s i found =
    elim (Option-cases (find_key (λ a. a.token_hash) hash db.sessions)) [
      | inl e ↦ absurd (ground arith)
      | inr (a, e) ↦ elim (Bool-cases (is_live now a)) [
        | inl live ↦ elim (Option-cases (find_key (λ b. b.id) a.identity_id db.identities)) [
          | inl f ↦ absurd (ground arith)
          | inr (b, f) ↦ (ground arith, ground arith, ground arith)
        ]
        | inr dead ↦ absurd (ground arith)
      ]
    ]

module _ (jwt : Jwt) (s : Service) (env : Env) where
  -- The rotation of the session that the lookup found.
  pub record Rotation (old new : ℕ) (db db' : Db) : Type 0 where
    pub row : SessionRow
    pub holder : IdentityRow
    pub found : select_session (env.now database_clock) old db ≡ some (row, holder)
    pub free : rotation_refused row.id old new db ≡ false
    pub written : db' ≡ rotate_hash row.id old new (env.now service_clock) db

  issue-world :
      (old : ℕ) (i : IdentityRow) (id expiry : ℕ) (token : Text) (w : World)
      → (issue jwt s env (identity_of i) id token expiry w).1 ≡ w
  unfolding issue issue_token
  issue-world old i id expiry token w = ground arith

  -- It fails and changes nothing, or it rotates the session and goes on to the access token.
  abbrev pub Outcome : ℕ → Text → ℕ → Db → Result SessionTokens × World → Type 0
  Outcome old token new db out =
      (((e : Error) × (out.0 ≡ err e)) × (out.1.db ≡ db))
      ⊎ ((r : Rotation old new db out.1.db) × (out.0
            ≡ (issue jwt s env (identity_of r.holder) r.row.id token r.row.expires_at out.1).0))

  rotate_found-Outcome :
      (old : ℕ) (token : Text) (new : ℕ) (row : SessionRow) (i : IdentityRow) (w : World)
      → select_session (env.now database_clock) old w.db ≡ some (row, i)
      → Outcome old token new w.db
          (rotate_found jwt s env old token new (some (row, i)) (record w { tx = w.db }))
  rotate_found-Outcome old token new row i w found = elim (Bool-cases (env.fails rotate)) [
    | inl broken ↦ inl ((internal rotate, ground arith), ground arith)
    | inr works ↦ elim (Bool-cases (rotation_refused row.id old new w.db)) [
      | inl clash ↦ inl ((violation rotate, ground arith), ground arith)
      | inr free ↦ elim (Bool-cases (any (is_current row.id old) w.db.sessions)) [
        | inr moved ↦ inl ((invalid_refresh_token, ground arith), ground arith)
        | inl met ↦ elim (Bool-cases (env.fails commit)) [
          | inl lost ↦ inl ((internal commit, ground arith), ground arith)
          | inr kept ↦
              let after = rotate_hash row.id old new (env.now service_clock) w.db in
              let v = record w { db = after; tx = after } in
              let issued = issue jwt s env (identity_of i) row.id token row.expires_at v in
              let same = issue-world old i row.id row.expires_at token v in
              let all : rotate_found jwt s env old token new (some (row, i))
                    (record w { tx = w.db })
                  ≡ issued =
                ground arith in
              subst (Outcome old token new w.db) (sym all) (
                inr (
                  record {
                    row = row;
                    holder = i;
                    found = found;
                    free = free;
                    written = ap (λ x. x.db) same;
                  },
                  subst
                      (λ x.
                        issued.0
                        ≡ (issue jwt s env (identity_of i) row.id token row.expires_at x).0)
                      (sym same) refl,
                ))
        ]
      ]
    ]
  ]

  abbrev pub next_token : Text
  next_token = encode_url env.refresh_bytes

  rotate_locked-Outcome :
      (old : ℕ) (token : Text) (new : ℕ) (w : World)
      → Outcome old token new w.db (rotate_locked jwt s env old token new w)
  unfolding rotate_locked
  rotate_locked-Outcome old token new w = elim (Bool-cases (env.fails begin)) [
    | inl broken ↦ inl ((internal begin, ground arith), ground arith)
    | inr begun ↦ elim (Bool-cases (env.fails find_session)) [
      | inl lost ↦ inl ((internal find_session, ground arith), ground arith)
      | inr works ↦ elim (Option-cases (select_session (env.now database_clock) old w.db)) [
        | inl missing ↦ inl ((invalid_refresh_token, ground arith), ground arith)
        | inr ((row, i), found) ↦
            subst (Outcome old token new w.db) (ground arith)
              (rotate_found-Outcome old token new row i w found)
      ]
    ]
  ]

  pub refresh-Outcome :
      (raw : Text) (w : World)
      → Outcome (env.sha256 raw) next_token (env.sha256 next_token) w.db (refresh jwt s env raw w)
  unfolding refresh new_refresh_token
  refresh-Outcome raw w = elim (Bool-cases (is_token_size raw)) [
    | inr odd ↦ inl ((invalid_refresh_token, ground arith), ground arith)
    | inl sized ↦ elim (Bool-cases (env.fails make_token)) [
      | inl broken ↦ inl ((internal make_token, ground arith), ground arith)
      | inr made ↦
          subst (Outcome (env.sha256 raw) next_token (env.sha256 next_token) w.db) (ground arith)
            (rotate_locked-Outcome (env.sha256 raw) next_token (env.sha256 next_token) w)
    ]
  ]

  module _ (old new : ℕ) (db db' : Db) (r : Rotation old new db db') where
    pub rotation-select_session-old :
        (t : ℕ) → HasTokens db → new ≢ old → select_session t old db' ≡ none
    unfolding select_session rotate_hash
    rotation-select_session-old t keys fresh =
        let (row, holder, live) =
          select_session-some (env.now database_clock) old db r.row r.holder r.found in
        let gone =
          find_key-rotate_rows-old r.row.id old new (env.now service_clock) db.sessions r.row keys
            row refl fresh in
        subst (λ x. select_session t old x ≡ none) (sym r.written) (rw gone refl)

    pub rotation-select_session-new :
        (t : ℕ)
        → t < r.row.expires_at
        → select_session t new db'
          ≡ some (rotated r.row.id old new (env.now service_clock) r.row, r.holder)
    unfolding select_session rotate_hash
    rotation-select_session-new t early =
        let (row, holder, live) =
          select_session-some (env.now database_clock) old db r.row r.holder r.found in
        let moved =
          find_key-rotate_rows-new r.row.id old new (env.now service_clock) db.sessions r.row row
            refl r.free in
        subst
          (λ x.
            select_session t new x
            ≡ some (rotated r.row.id old new (env.now service_clock) r.row, r.holder))
          (sym r.written) (rw moved (ground arith))

  pub issue-ok :
      (i : IdentityRow) (id expiry : ℕ) (token : Text) (w : World) (tokens : SessionTokens)
      → (issue jwt s env (identity_of i) id token expiry w).0 ≡ ok tokens
      → (tokens.identity ≡ identity_of i)
        × (tokens.refresh_token ≡ token)
        × (tokens.refresh_expiry ≡ expiry)
  unfolding issue issue_token
  issue-ok i id expiry token w tokens done =
      elim (Option-cases (
        jwt.signed_string s.tokens.secret (
          claims_of jwt s.tokens env
            (record { identity_id = i.id; session_id = id; kind = i.kind })))) [
              | inl e ↦ absurd (ground arith)
              | inr (t, e) ↦ (ground arith, ground arith, ground arith)
            ]
