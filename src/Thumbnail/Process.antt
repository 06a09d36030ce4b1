-- ===== src/Thumbnail/Process.antt =====
-- A job is done as a whole or not at all.
use zhyvo.Base.{◌≡◌, ◌⊎◌, inl, inr, ◌∷◌, true, any, Bool-cases, subst, sym, arith}
use zhyvo.Exec.{
  Env, World, Result, ok, err, Error, internal, Result-cases, presign_source, temp_file, close_temp,
  put_thumbnail, put_file, remove_object, set_thumbnail, media_disappeared, database_clock,
}
use zhyvo.Thumbnail.{
  Job, run_ffmpeg, check_output, show_thumbnail, is_ready_row, thumbnail_key_of, publish, process,
}

module _ (env : Env) (j : Job) where
  -- The row was still ready and shows the thumbnail, whose object is stored.
  abbrev pub Shown : World → Result (Unit {0}) × World → Type 0
  Shown w out =
      (out.0 ≡ ok tt)
      × (any (is_ready_row j.media_id) w.db.media ≡ true)
      × (out.1.db ≡ show_thumbnail (thumbnail_key_of j) (env.now database_clock) j.media_id w.db)
      × (out.1.calls ≡ put_file (thumbnail_key_of j) ∷ w.calls)

  -- An error, and the table as before; for an object that was stored the store is asked to remove it
  -- again, but where storing it has reported an error.
  abbrev pub Dropped : World → Result (Unit {0}) × World → Type 0
  Dropped w out =
      ((e : Error) × (out.0 ≡ err e))
      × (out.1.db ≡ w.db)
      × ((out.1.calls ≡ w.calls)
          ⊎ ((env.fails put_thumbnail ≡ true)
              × (out.1.calls ≡ put_file (thumbnail_key_of j) ∷ w.calls))
          ⊎ (out.1.calls
              ≡ remove_object (thumbnail_key_of j) ∷ put_file (thumbnail_key_of j) ∷ w.calls))

  abbrev stored : World → World
  stored w = record w { calls = put_file (thumbnail_key_of j) ∷ w.calls }

  publish-Done :
      (w : World) → Shown w (publish env j (stored w)) ⊎ Dropped w (publish env j (stored w))
  unfolding publish
  publish-Done w = elim (Bool-cases (env.fails set_thumbnail)) [
    | inl broken ↦
        inr ((internal set_thumbnail, ground arith), ground arith, inr (inr (ground arith)))
    | inr works ↦ elim (Bool-cases (any (is_ready_row j.media_id) w.db.media)) [
      | inl met ↦ inl (ground arith, met, ground arith, ground arith)
      | inr gone ↦ inr ((media_disappeared, ground arith), ground arith, inr (inr (ground arith)))
    ]
  ]

  -- A job ends in one of two ways. Its thumbnail is stored, and the media row, which is still ready,
  -- shows it; or there is an error, no row changes, and either the store was never asked to keep an
  -- object, or storing it reported an error, or the store is asked to remove it again, an error of
  -- which is dropped.
  pub process-Done : (w : World) → Shown w (process env j w) ⊎ Dropped w (process env j w)
  unfolding process
  process-Done w =
      let rendered = run_ffmpeg env j.media_type (env.source_url j.storage_key) env.temp_path in
      elim (Bool-cases (env.fails presign_source)) [
        | inl a ↦ inr ((internal presign_source, ground arith), ground arith, inl (ground arith))
        | inr b ↦ elim (Bool-cases (env.fails temp_file)) [
          | inl a ↦ inr ((internal temp_file, ground arith), ground arith, inl (ground arith))
          | inr c ↦ elim (Bool-cases (env.fails close_temp)) [
            | inl a ↦ inr ((internal close_temp, ground arith), ground arith, inl (ground arith))
            | inr d ↦ elim (Result-cases rendered) [
              | inl (e, a) ↦ inr ((e, ground arith), ground arith, inl (ground arith))
              | inr (u, r) ↦ elim (Result-cases (check_output env.temp_size)) [
                | inl (e, a) ↦ inr ((e, ground arith), ground arith, inl (ground arith))
                | inr (v, s) ↦ elim (Bool-cases (env.fails put_thumbnail)) [
                  | inl a ↦ inr (
                    (internal put_thumbnail, ground arith),
                    ground arith,
                    inr (inl (a, ground arith)),
                  )
                  | inr t ↦
                      let all : process env j w ≡ publish env j (stored w) = ground arith in
                      subst (λ x. Shown w x ⊎ Dropped w x) (sym all) (publish-Done w)
                ]
              ]
            ]
          ]
        ]
      ]
