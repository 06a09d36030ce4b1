-- ===== src/Auth/Grants/Refines.antt =====
-- Every request changes the map of grants in an allowed way.
use zhyvo.Base.{
  ℕ, ◌≡◌, ◌≢◌, refl, sym, inl, inr, List, [], ◌∷◌, Option, none, some, false, any, ◌==◌, ==_iff,
  Bool-cases, subst, arith,
}
use zhyvo.Base.Table.{find_key, Distinct}
use zhyvo.Schema.{Db, SessionRow}
use zhyvo.Exec.{Env, World, revoke, service_clock, database_clock}
use zhyvo.Auth.Types.{Jwt, Service}
use zhyvo.Auth.Sessions.{rotate_hash, rotate_rows, revoke_session}
use zhyvo.Auth.Sessions.Rotated.{
  find_key-rotate_rows-other, find_key-rotate_rows-new, find_key-rotate_rows-old,
  Distinct-rotate_rows, find_key-revoke_rows, find_key-absent, Distinct-revoke_rows, map_found,
  clashes,
}
use zhyvo.Auth.Revoke.{end_session}
use zhyvo.Auth.Refresh.Rotates.{HasTokens, Rotation, refresh-Outcome, select_session-some}
use zhyvo.Auth.Grants.{
  grants, grant_of, grant_found, ends, Allowed, kept, opened, moved, ended, AuthStep, anonymous,
  telegram, refreshed, revoked,
}
use zhyvo.Auth.Grants.Logins.{Opened, create_anonymous-Opened, create_telegram-Opened}

-- An allowed change that keeps the index of the hashes.
abbrev pub Refines : Db → Db → Type 0
Refines db db' = Allowed (grants db) (grants db') × HasTokens db'

same-Refines : (db db' : Db) → HasTokens db → db' ≡ db → Refines db db'
same-Refines db db' keys same = (kept (λ h. rw same refl), subst HasTokens (sym same) keys)

Opened-Refines : (db db' : Db) → HasTokens db → Opened db db' → Refines db db'
unfolding grants find_key
Opened-Refines db db' keys o =
    let (missing, others) = find_key-absent o.row.token_hash db.sessions o.free in
    (
      opened o.row.token_hash (grant_of o.row) (rw missing refl)
          (λ h. rw (o.sessions) (ground (arith, o.lasting))),
      subst (Distinct (λ s. s.token_hash)) (sym o.sessions) (others, keys),
    )

grant_found-map_found :
    (now id identity_id : ℕ) (o : Option SessionRow)
    → grant_found (map_found now id identity_id o) ≡ ends id identity_id (grant_found o)
grant_found-map_found now id identity_id none = refl
grant_found-map_found now id identity_id (some s) = ground arith

grants-revoke_session :
    (now id identity_id : ℕ) (db : Db) (h : ℕ)
    → grants (revoke_session now id identity_id db) h ≡ ends id identity_id (grants db h)
unfolding grants revoke_session
grants-revoke_session now id identity_id db h =
    rw (find_key-revoke_rows now id identity_id h db.sessions)
      (grant_found-map_found now id identity_id (find_key (λ s. s.token_hash) h db.sessions))

-- A hash that is replaced by itself changes only the time of use.
find_key-rotate_rows-same :
    (id old now h : ℕ) (rows : List SessionRow)
    → grant_found (find_key (λ s. s.token_hash) h (rotate_rows id old old now rows))
      ≡ grant_found (find_key (λ s. s.token_hash) h rows)
unfolding find_key rotate_rows
find_key-rotate_rows-same id old now h [] = refl
find_key-rotate_rows-same id old now h (s ∷ rows) =
    ground (arith, find_key-rotate_rows-same id old now h rows)

-- No row has the new hash, unless it is the one that changes and has it already.
free-clashes :
    (id old new : ℕ) (rows : List SessionRow)
    → new ≢ old
    → any (clashes id old new 0) rows ≡ false
    → any (λ s. s.token_hash == new) rows ≡ false
free-clashes id old new [] fresh free = refl
free-clashes id old new (s ∷ rows) fresh free = ground (arith, free-clashes id old new rows fresh)

Rotation-Refines :
    (jwt : Jwt) (s : Service) (env : Env) (old new : ℕ) (db db' : Db)
    → HasTokens db
    → Rotation jwt s env old new db db'
    → Refines db db'
unfolding grants rotate_hash
Rotation-Refines jwt s env old new db db' keys r =
    let now = env.now service_clock in
    let (found, holder, live) =
      select_session-some (env.now database_clock) old db r.row r.holder r.found in
    let after = Distinct-rotate_rows r.row.id old new now db.sessions r.free keys in
    subst (Refines db) (sym r.written) (elim (Bool-cases (new == old)) [
      | inl same ↦ (
        kept (λ h.
            rw ((==_iff new old).0 same)
              (find_key-rotate_rows-same r.row.id old now h db.sessions)),
        after,
      )
      | inr fresh ↦
          let apart : new ≢ old = λ e. absurd (ground arith) in
          let (missing, others) =
            find_key-absent new db.sessions
              (free-clashes r.row.id old new db.sessions apart r.free) in
          (
            moved old new (rw missing refl) (λ h. elim (Bool-cases (h == new)) [
              | inl e ↦ rw ((==_iff h new).0 e) (
                  ground (
                    arith,
                    found,
                    live,
                    find_key-rotate_rows-new r.row.id old new now db.sessions r.row found refl
                        r.free,
                  ))
              | inr n ↦ elim (Bool-cases (h == old)) [
                | inl e ↦ rw ((==_iff h old).0 e) (
                    ground (
                      arith,
                      find_key-rotate_rows-old r.row.id old new now db.sessions r.row keys found
                          refl apart,
                    ))
                | inr m ↦ ground (
                  arith,
                  find_key-rotate_rows-other r.row.id old new now h db.sessions
                      (λ e. absurd (ground arith)) (λ e. absurd (ground arith)),
                )
              ]
            ]),
            after,
          )
    ])

end_session-Refines :
    (env : Env) (session_id identity_id : ℕ) (w : World)
    → HasTokens w.db
    → Refines w.db (end_session env session_id identity_id w).1.db
unfolding end_session revoke_session
end_session-Refines env session_id identity_id w keys =
    let now = env.now database_clock in
    elim (Bool-cases (env.fails revoke)) [
      | inl broken ↦ same-Refines _ _ keys (rw broken refl)
      | inr works ↦ rw works (
        ended session_id identity_id (grants-revoke_session now session_id identity_id w.db),
        Distinct-revoke_rows now session_id identity_id w.db.sessions keys,
      )
    ]

-- Every request to the service changes the map of its grants in an allowed way, and keeps the hashes
-- apart: it changes nothing, opens one session under a new hash, moves one to a new hash, or ends one.
pub AuthStep-Allowed :
    (jwt : Jwt) (s : Service) {db db' : Db}
    → AuthStep jwt s db db'
    → HasTokens db
    → Allowed (grants db) (grants db') × HasTokens db'
AuthStep-Allowed jwt s (anonymous env name client w) keys =
    elim (create_anonymous-Opened jwt s env name client w) [
      | inl same ↦ same-Refines _ _ keys same
      | inr more ↦ Opened-Refines _ _ keys more
    ]
AuthStep-Allowed jwt s (telegram env user w) keys = elim (create_telegram-Opened jwt s env user w) [
  | inl same ↦ same-Refines _ _ keys same
  | inr more ↦ Opened-Refines _ _ keys more
]
AuthStep-Allowed jwt s (refreshed env raw w) keys = elim (refresh-Outcome jwt s env raw w) [
  | inl (e, same) ↦ same-Refines _ _ keys same
  | inr (r, issued) ↦ Rotation-Refines jwt s env _ _ _ _ keys r
]
AuthStep-Allowed jwt s (revoked env session_id identity_id w) keys =
    end_session-Refines env session_id identity_id w keys
