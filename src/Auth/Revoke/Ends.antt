-- ===== src/Auth/Revoke/Ends.antt =====
-- A revoked session is over for access tokens and for refresh tokens, and others go on.
use zhyvo.Base.{
  ℕ, ◌≡◌, refl, inl, inr, Option, none, some, ◌&&◌, not, ◌==◌, Bool-cases, Option-cases, arith,
  if◌then◌else◌,
}
use zhyvo.Base.Table.{find_key}
use zhyvo.Schema.{Db, IdentityRow, SessionRow}
use zhyvo.Exec.{Env, World, ok, revoke, database_clock}
use zhyvo.Auth.Types.{Principal}
use zhyvo.Auth.Sessions.{select_session, has_session, revoke_session, live_holder}
use zhyvo.Auth.Sessions.Rotated.{find_key-revoke_rows, any-revoke_rows, map_found}
use zhyvo.Auth.Revoke.{end_session}

-- What is left of the session that a refresh token finds.
abbrev pub unless_of : ℕ → ℕ → Option (SessionRow × IdentityRow) → Option (SessionRow × IdentityRow)
unless_of id identity_id none = none
unless_of id identity_id (some (s, i)) =
    if s.id == id && s.identity_id == identity_id then none else some (s, i)

live_holder-map_found :
    (now id identity_id t : ℕ) (db : Db) (o : Option SessionRow)
    → live_holder t db (map_found now id identity_id o)
      ≡ unless_of id identity_id (live_holder t db o)
live_holder-map_found now id identity_id t db none = refl
live_holder-map_found now id identity_id t db (some s) =
    elim (Option-cases (find_key (λ i. i.id) s.identity_id db.identities)) [
      | inl e ↦ ground arith
      | inr (i, e) ↦ ground arith
    ]

module _ (env : Env) (session_id identity_id : ℕ) (w : World)
    (done : (end_session env session_id identity_id w).0 ≡ ok tt) where
  -- After a session has been revoked for its identity, it is active for no access token and found by no
  -- refresh token, at any time; every other look-up answers as before.
  pub end_session-Ends :
      (t hash : ℕ) (p : Principal)
      → let after = (end_session env session_id identity_id w).1.db in
        (has_session t p after ≡ (
          not (p.session_id == session_id && p.identity_id == identity_id) && has_session t p w.db))
        × (select_session t hash after
            ≡ unless_of session_id identity_id (select_session t hash w.db))
  unfolding end_session revoke_session has_session select_session
  end_session-Ends t hash p =
      let now = env.now database_clock in
      elim (Bool-cases (env.fails revoke)) [
        | inl broken ↦ absurd (ground arith)
        | inr works ↦ rw works (
          any-revoke_rows now session_id identity_id t p w.db.sessions,
          rw (find_key-revoke_rows now session_id identity_id hash w.db.sessions) (
              live_holder-map_found now session_id identity_id t w.db
                (find_key (λ s. s.token_hash) hash w.db.sessions)),
        )
      ]
