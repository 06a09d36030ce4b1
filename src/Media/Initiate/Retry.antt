-- ===== src/Media/Initiate/Retry.antt =====
-- A request that is repeated with its idempotency key.
use zhyvo.Base.{ℕ, ◌≡◌, refl, sym, ap, ◌∙◌, Option, none, some, subst, arith}
use mathlib.Core.Option.{some-injective}
use zhyvo.Base.Text.{Text}
use zhyvo.Schema.{Db, MediaType}
use zhyvo.Exec.{
  Env, World, M, Result, ok, lift, begin_tx, attempt, lock_key, ◌>>=◌, ◌>>◌, bind_post,
}
use zhyvo.Media.Types.{Upload, InitiateInput}
use zhyvo.Media.Validate.{validate_initiate, validate_initiate_iff, normalize_input}
use zhyvo.Media.Validate.Canonical.{hash_initiate_input}
use zhyvo.Media.Queries.{select_idempotent, find_idempotent_upload}
use zhyvo.Media.Initiate.{create_or_resume, initiate}
use zhyvo.Media.Initiate.Sound.{
  IsUnwritten, find_idempotent_upload-world, begin_tx-IsUnwritten, begin_tx-db, resume_upload-db,
}
use zhyvo.Media.Initiate.Outcome.{
  SameSession-trans, SameSession-sym, SameSession, Remembers, Recorded, create_upload-Recorded,
  find_idempotent_upload-Remembers, resume_upload-SameSession,
}

-- The hash under which a request is stored.
abbrev pub request_hash : Env → Text → InitiateInput → ℕ
request_hash env slug raw = hash_initiate_input env slug (normalize_input raw)

validated :
    (raw input : InitiateInput) (t : MediaType)
    → validate_initiate raw ≡ ok (t, input)
    → input ≡ normalize_input raw
validated raw input t e = ((validate_initiate_iff raw t input).0 e).0

module _ (env : Env) (identity_id key hash : ℕ) where
  create_or_resume-Recorded :
      (slug : Text) (t : MediaType) (input : InitiateInput) (existing : Option Upload) (w : World)
      → IsUnwritten w
      → ((stored : Upload) → existing ≡ some stored → Remembers identity_id key hash w.tx stored)
      → Recorded identity_id key hash
          (create_or_resume env identity_id key hash slug t input existing w).0
          (create_or_resume env identity_id key hash slug t input existing w).1
  create_or_resume-Recorded slug t input none w unwritten known upload e =
      create_upload-Recorded env identity_id key hash slug t input w upload e
  create_or_resume-Recorded slug t input (some stored) w unwritten known upload e =
      let r = known stored refl in
      let again = resume_upload-SameSession env identity_id key hash stored upload w e in
      subst (λ db. Remembers identity_id key hash db upload)
        (unwritten ∙ sym (resume_upload-db env stored w unwritten))
        (record {
          session = r.session;
          stored = r.stored;
          selected = r.selected;
          hash_held = r.hash_held;
          same = SameSession-trans r.stored stored upload r.same again;
        })

-- A start that succeeds, new or repeated, leaves its session stored under the caller's key with the
-- hash of the request.
pub initiate-Remembers :
    (env : Env) (identity_id key : ℕ) (slug : Text) (raw : InitiateInput) (w : World)
    → Recorded identity_id key
        (request_hash env slug raw)
        (initiate env identity_id key slug raw w).0
        (initiate env identity_id key slug raw w).1
unfolding initiate
initiate-Remembers env identity_id key slug raw w =
    bind_post (Recorded identity_id key hash) (lift (validate_initiate raw)) _ w
      (λ e _ upload r. cc)
      (λ valid passed.
        subst (λ h. Recorded identity_id key hash (rest valid h w).0 (rest valid h w).1)
          (ap (hash_initiate_input env slug) (sym (validated raw valid.1 valid.0 passed)))
          (stored valid))
  where
    hash : ℕ
    hash = request_hash env slug raw

    rest : MediaType × InitiateInput → ℕ → M Upload
    rest valid h = do
      begin_tx env
      attempt env lock_key
      existing ← find_idempotent_upload env identity_id key h
      create_or_resume env identity_id key h slug valid.0 valid.1 existing

    stored :
        (valid : MediaType × InitiateInput)
        → Recorded identity_id key hash (rest valid hash w).0 (rest valid hash w).1
    stored valid =
        bind_post (Recorded identity_id key hash) (begin_tx env) _ w (λ e _ upload r. cc)
          (λ a started.
            bind_post (Recorded identity_id key hash) (attempt env lock_key) _ (begin_tx env w).1
              (λ e _ upload r. cc)
              (λ _ _.
                bind_post (Recorded identity_id key hash)
                  (find_idempotent_upload env identity_id key hash) _ (begin_tx env w).1
                  (λ e _ upload r. cc)
                  (λ existing found. rw find_idempotent_upload-world (
                    create_or_resume-Recorded env identity_id key hash slug valid.0 valid.1 existing
                      (begin_tx env w).1 (begin_tx-IsUnwritten env w a started)
                      (λ s e.
                        find_idempotent_upload-Remembers env identity_id key hash (begin_tx env w).1
                          s (found ∙ ap ok e))))))

-- What a repeated request leaves and answers.
abbrev pub Repeats : Db → Upload → Result Upload → World → Type 0
Repeats db upload r w =
    (w.db ≡ db) × ((answer : Upload) → r ≡ ok answer → SameSession upload answer)

module _ (env : Env) (identity_id key hash : ℕ) (upload : Upload) (w : World)
    (known : Remembers identity_id key hash w.db upload) (unwritten : IsUnwritten w) where
  -- The lookup fails, or it returns the stored session.
  find_known :
      (existing : Option Upload)
      → (find_idempotent_upload env identity_id key hash w).0 ≡ ok existing
      → existing ≡ some known.stored
  unfolding find_idempotent_upload
  find_known existing e =
      let selected =
        subst (λ db. select_idempotent identity_id key db ≡ some (known.session, known.stored))
          (sym unwritten) known.selected in
      ground (arith, known.hash_held)

  resume_known :
      (slug : Text) (t : MediaType) (input : InitiateInput) (existing : Option Upload)
      → existing ≡ some known.stored
      → Repeats w.db upload
          (create_or_resume env identity_id key hash slug t input existing w).0
          (create_or_resume env identity_id key hash slug t input existing w).1
  resume_known slug t input none e = absurd (ground arith)
  resume_known slug t input (some stored) e = (
    resume_upload-db env stored w unwritten,
    λ answer done.
        SameSession-trans upload stored answer
          (subst (λ u. SameSession upload u) (sym (some-injective stored known.stored e))
            (SameSession-sym known.stored upload known.same))
          (resume_upload-SameSession env identity_id key hash stored answer w done),
  )

-- Once a session is stored under a key, a request with that key and the same hash changes nothing
-- in the database and reserves nothing, whatever fails; where it succeeds it answers with the
-- stored session: the same identifiers, object, size, parts and expiry.
pub initiate_repeated :
    (env : Env) (identity_id key : ℕ) (slug : Text) (raw : InitiateInput) (upload : Upload)
    (w : World)
    → Remembers identity_id key (request_hash env slug raw) w.db upload
    → Repeats w.db upload
        (initiate env identity_id key slug raw w).0
        (initiate env identity_id key slug raw w).1
unfolding initiate
initiate_repeated env identity_id key slug raw upload w known =
    bind_post (Repeats w.db upload) (lift (validate_initiate raw)) _ w (λ e _. (refl, λ a r. cc))
      (λ valid passed.
        subst (λ h. Repeats w.db upload (rest valid h w).0 (rest valid h w).1)
          (ap (hash_initiate_input env slug) (sym (validated raw valid.1 valid.0 passed)))
          (again valid))
  where
    hash : ℕ
    hash = request_hash env slug raw

    rest : MediaType × InitiateInput → ℕ → M Upload
    rest valid h = do
      begin_tx env
      attempt env lock_key
      existing ← find_idempotent_upload env identity_id key h
      create_or_resume env identity_id key h slug valid.0 valid.1 existing

    begun : World
    begun = (begin_tx env w).1

    again :
        (valid : MediaType × InitiateInput)
        → Repeats w.db upload (rest valid hash w).0 (rest valid hash w).1
    again valid =
        bind_post (Repeats w.db upload) (begin_tx env) _ w (λ e _. (begin_tx-db env w, λ a r. cc))
          (λ a started.
            let unwritten = begin_tx-IsUnwritten env w a started in
            let known' =
              subst (λ db. Remembers identity_id key hash db upload) (sym (begin_tx-db env w))
                known in
            bind_post (Repeats w.db upload) (attempt env lock_key) _ begun
              (λ e _. (begin_tx-db env w, λ a r. cc))
              (λ _ _.
                bind_post (Repeats w.db upload) (find_idempotent_upload env identity_id key hash) _
                  begun (λ e _. rw find_idempotent_upload-world (begin_tx-db env w, λ a r. cc))
                  (λ existing found. rw find_idempotent_upload-world (
                    let r =
                      resume_known env identity_id key hash upload begun known' unwritten slug
                        valid.0 valid.1 existing
                        (find_known env identity_id key hash upload begun known' unwritten existing
                          found) in
                    (r.0 ∙ begin_tx-db env w, r.1)))))

-- Two requests with one key and one content, the second in any later circumstances (other clocks,
-- other fresh identifiers, other failures): if the first succeeds, the second reserves nothing more
-- and, where it succeeds, answers with the first one's session.
pub initiate_twice :
    (env env' : Env) (identity_id key : ℕ) (slug : Text) (raw : InitiateInput) (upload : Upload)
    (w : World)
    → request_hash env' slug raw ≡ request_hash env slug raw
    → (initiate env identity_id key slug raw w).0 ≡ ok upload
    → let w' = (initiate env identity_id key slug raw w).1 in
      Repeats w'.db upload
        (initiate env' identity_id key slug raw w').0
        (initiate env' identity_id key slug raw w').1
initiate_twice env env' identity_id key slug raw upload w same done =
    initiate_repeated env' identity_id key slug raw upload
      (initiate env identity_id key slug raw w).1
      (subst
        (λ h. Remembers identity_id key h (initiate env identity_id key slug raw w).1.db upload)
        (sym same) (initiate-Remembers env identity_id key slug raw w upload done))
