-- ===== src/Worker/Transcode/Budget/Stages.antt =====
-- What HandleTranscode does with the retry budget from a claimed row on (transcoder-worker/transcode.go).
use mokibox.Shared.{
  ℕ, ◌<◌, String, ◌≡◌, inl, refl, sym, ◌∙◌, subst, Bool, Option, none, some, List, [], ◌∷◌, ◌++◌,
  arith, if◌then◌else◌, In, In-append_right, leb,
}
use mokibox.Shared.Platform.{Platform, Float64, float_le_zero, ◌<>◌}
use mokibox.Store.Row.{Video, is_processing}
use mokibox.Store.Table.{Table}
use mokibox.Store.Statements.{get_video_by_id, mark_video_ready, sent}
use mokibox.Store.Checks.{Statement}
use mokibox.Worker.Media.{validate_media}
use mokibox.Worker.World.{transcode_video, Entry, World}
use mokibox.Worker.World.Swept.{enqueue-done, videos-enqueue}
use mokibox.Worker.Transcode.Attempt.{
  DirEntry, Attempt, Outcome, requeued, Step, stop, next, others, max_retries, retry_delay_for,
  transcode_variants,
}
use mokibox.Worker.Transcode.Ends.{Ends, after-Ends, if-rule, Option-rule, Reply-rule, Probe-rule}
use mokibox.Worker.Transcode.Keeps.{videos-cleanup_on_failure}
use mokibox.Worker.Transcode.Retry.{handle_transient}
use mokibox.Worker.Transcode.Fetch.{inspect, fetch}
use mokibox.Worker.Transcode.Publish.{
  thumbnail_key_of, rounded, upload_entries, upload_variant, store, fail_after, encode_variants,
  publish_thumbnail, publish_master, mark_ready, finish, produce, hls_prefix_of,
}

-- No other connection writes the videos table during the run.
pub record Quiet (a : Attempt) : Type 0 where
  pub after_load : a.after_load ≡ []
  pub during : a.during ≡ []
  pub before_ready : a.before_ready ≡ []

pub quiet-others : (ss : List Statement) (w : World) → ss ≡ [] → (others ss w).videos ≡ w.videos
quiet-others ss w e = rw e

-- The task of the next attempt.
abbrev pub retry_of : Platform → Video → Entry
retry_of p v = record {
  task = transcode_video (p.uuid_string v.id);
  delay = retry_delay_for v.retry_count;
}

upload_entries-videos :
    (fails : String → Bool) (directory : String) (es : List DirEntry) (w : World)
    (keys : List String)
    → (upload_entries fails directory es w keys).world.videos ≡ w.videos
unfolding upload_entries
upload_entries-videos fails directory [] w keys = refl
upload_entries-videos fails directory (e ∷ es) w keys =
    let key = directory <> ("/" <> e.name) in
    ground (
      arith,
      upload_entries-videos fails directory es w keys,
      upload_entries-videos fails directory es (store key w) (keys ++ key ∷ []),
    )

pub upload_variant-videos :
    (fails : String → Bool) (directory : String) (es : Option (List DirEntry)) (w : World)
    → (upload_variant fails directory es w).world.videos ≡ w.videos
unfolding upload_variant
upload_variant-videos fails directory none w = refl
upload_variant-videos fails directory (some es) w = upload_entries-videos fails directory es w []

-- From the claimed row `v` on, with `t` the table that the claim left.
module _ (p : Platform) (a : Attempt) (v : Video) (t : Table) (quiet : Quiet a) where
  abbrev pub Counts : World × Outcome → Type 0
  Counts r =
      r.1 ≡ requeued
      → (r.0.videos ≡ t) × (v.retry_count < max_retries) × In (retry_of p v) r.0.queue

  abbrev Keeps : {A : Type 0} → Step A → Type 0
  Keeps s = Ends Counts (λ w x. w.videos ≡ t) s

  handle_transient-Counts : (w : World) → w.videos ≡ t → Counts (handle_transient p a v w)
  unfolding handle_transient
  handle_transient-Counts w h =
      if-rule Counts (leb max_retries v.retry_count) (λ e l. cc)
        λ e l.
          let task = transcode_video (p.uuid_string v.id) in
          let delay = retry_delay_for v.retry_count in
          (
            videos-enqueue a.refused task delay w ∙ h,
            ground arith,
            subst (In (retry_of p v)) (sym (enqueue-done a.refused task delay w (ground arith)))
                (In-append_right _ w.queue _ (inl refl)),
          )

  fail_after-Counts :
      (keys : List String) (w : World) → w.videos ≡ t → Counts (fail_after p a v keys w)
  unfolding fail_after
  fail_after-Counts keys w h = handle_transient-Counts _ (videos-cleanup_on_failure p a keys w ∙ h)

  inspect-Keeps : (n : ℕ) (w : World) → w.videos ≡ t → Keeps (inspect p a v n w)
  unfolding inspect
  inspect-Keeps n w h =
      Probe-rule Keeps a.probe (λ e k. cc) (λ e. handle_transient-Counts w h)
        λ r e.
          Option-rule Keeps (validate_media p r n)
            (λ valid.
              Option-rule Keeps (p.parse_float r.format.duration) (λ d. handle_transient-Counts w h)
                λ duration d.
                  if-rule Keeps (float_le_zero duration) (λ z. handle_transient-Counts w h) λ z. h)
            λ x k l. cc

  pub fetch-Keeps : (w : World) → w.videos ≡ t → Keeps (fetch p a v w)
  unfolding fetch
  fetch-Keeps w₀ h₀ =
      let w = others a.during w₀ in
      let h = quiet-others a.during w₀ quiet.during ∙ h₀ in
      if-rule Keeps a.random_fails (λ e k. cc)
        λ e.
          if-rule Keeps a.workdir_fails (λ e k. cc)
            λ e.
              if-rule Keeps a.download_fails (λ e. handle_transient-Counts w h)
                λ e.
                  Option-rule Keeps a.size (λ e. handle_transient-Counts w h)
                    λ n sized. inspect-Keeps n w h

  encode_variants-Keeps :
      (dirs : List String) (w : World) (keys : List String)
      → w.videos ≡ t
      → Keeps (encode_variants p a v dirs w keys)
  unfolding encode_variants
  encode_variants-Keeps [] w keys h = h
  encode_variants-Keeps (dir ∷ dirs) w keys h =
      let e = a.encode dir in
      let u = upload_variant a.upload_fails (hls_prefix_of p v <> ("/" <> dir)) e.entries w in
      let k =
        upload_variant-videos a.upload_fails (hls_prefix_of p v <> ("/" <> dir)) e.entries w ∙ h in
      if-rule Keeps e.mkdir_fails (λ m. fail_after-Counts keys w h)
        λ m.
          if-rule Keeps e.ffmpeg_fails (λ x. fail_after-Counts keys w h)
            λ x.
              if-rule Keeps u.done (λ d. encode_variants-Keeps dirs u.world (keys ++ u.keys) k)
                λ d. fail_after-Counts (keys ++ u.keys) u.world k

  single-Keeps :
      (failing : Bool) (key : String) (w : World) (keys : List String)
      → w.videos ≡ t
      → Keeps (
          if failing
          then stop (fail_after p a v keys w)
          else if a.upload_fails key
          then stop (fail_after p a v (keys ++ key ∷ []) w)
          else next (store key w) (keys ++ key ∷ []))
  single-Keeps failing key w keys h =
      if-rule Keeps failing (λ e. fail_after-Counts keys w h)
        λ e.
          if-rule Keeps (a.upload_fails key) (λ f. fail_after-Counts (keys ++ key ∷ []) w h) λ f. h

  mark_ready-Counts :
      (duration : Float64) (w : World) (keys : List String)
      → w.videos ≡ t
      → Counts (mark_ready p a v duration w keys)
  unfolding mark_ready
  mark_ready-Counts duration w₀ keys h =
      let w = others a.before_ready w₀ in
      Reply-rule Counts
        (sent a.ready_fails w.videos (
          mark_video_ready v.id (hls_prefix_of p v) (thumbnail_key_of p v) (rounded p a v duration)
            w.videos)).1
        (λ u k l. cc) (λ k l. cc)
        λ k. fail_after-Counts keys w (quiet-others a.before_ready w₀ quiet.before_ready ∙ h)

  finish-Counts :
      (duration : Float64) (w : World) (keys : List String)
      → w.videos ≡ t
      → Counts (finish p a v duration w keys)
  unfolding finish
  finish-Counts duration w keys h =
      if-rule Counts a.recheck_fails (λ e. fail_after-Counts keys w h)
        λ e.
          Reply-rule Counts (get_video_by_id v.id w.videos)
            (λ fresh k.
              if-rule Counts (is_processing fresh.status) (λ c. mark_ready-Counts duration w keys h)
                λ c l. cc)
            (λ k l. cc) λ k. fail_after-Counts keys w h

  pub produce-Counts :
      (duration : Float64) (w : World) → w.videos ≡ t → Counts (produce p a v duration w)
  unfolding produce publish_thumbnail publish_master
  produce-Counts duration w h =
      after-Ends Counts _ (encode_variants p a v transcode_variants w []) _
        (encode_variants-Keeps transcode_variants w [] h)
        λ w₁ k₁ h₁.
          after-Ends Counts _ (publish_thumbnail p a v w₁ k₁) _
            (single-Keeps a.thumb_fails _ w₁ k₁ h₁)
            λ w₂ k₂ h₂.
              after-Ends Counts _ (publish_master p a v w₂ k₂) _
                (single-Keeps a.write_master_fails _ w₂ k₂ h₂)
                λ w₃ k₃ h₃. finish-Counts duration w₃ k₃ h₃
