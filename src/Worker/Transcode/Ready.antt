-- ===== src/Worker/Transcode/Ready.antt =====
-- What stands behind a video that a run of HandleTranscode published (transcoder-worker/transcode.go).
pub mod Source
use mokibox.Shared.{
  ℕ, String, ◌≡◌, ◌≢◌, inl, refl, sym, subst, Bool, false, none, some, List, [], ◌∷◌, ◌++◌, arith,
  if◌then◌else◌, In, In-append_left, In-append_right, leb, ◌++◌,
}
use mokibox.Shared.Platform.{Platform, Float64, float_le_zero, ◌<>◌}
use mokibox.Store.Row.{Video, ready, is_processing}
use mokibox.Store.Table.{row, find}
use mokibox.Store.Statements.{get_video_by_id, mark_video_ready, increment_video_retry, sent}
use mokibox.Store.Replies.{sent-row, increment_video_retry-row, mark_video_ready-row}
use mokibox.Worker.Media.{FfprobeResult, validate_media}
use mokibox.Worker.World.{World}
use mokibox.Worker.Transcode.Attempt.{
  Attempt, probed, Outcome, published, stop, next, others, max_retries, transcode_variants,
}
use mokibox.Worker.Transcode.Keeps.{videos-cleanup_on_failure, stored-cleanup_on_failure}
use mokibox.Worker.Transcode.Ends.{
  Ends, Ends-map, after-Ends, if-rule, Option-rule, Reply-rule, Probe-rule,
}
use mokibox.Worker.Transcode.Retry.{handle_transient, cleanup_on_failure}
use mokibox.Worker.Transcode.Fetch.{prepare, load, claim, inspect, fetch}
use mokibox.Worker.Transcode.Publish.{
  thumbnail_key_of, master_key_of, rounded, upload_variant, store, fail_after, encode_variants,
  publish_thumbnail, publish_master, mark_ready, finish, produce, hls_prefix_of,
}
use mokibox.Worker.Transcode.Handler.{handle_transcode}
use mokibox.Worker.Transcode.Ready.Source.{Sound, Named, fail_after-ne, fetch-Sound, prepare-Named}

-- The row is READY, and shows the prefix and the thumbnail that the run stored.
abbrev pub Shows : Platform → Attempt → Video → Float64 → World → Type 0
Shows p a v duration w =
    (u : Video) × (find v.id w.videos ≡ some u)
    × (u.status ≡ ready)
    × (u.hls_prefix ≡ some (hls_prefix_of p v))
    × (u.thumbnail_key ≡ some (thumbnail_key_of p v))
    × (u.duration_seconds ≡ some (rounded p a v duration))
    × In (thumbnail_key_of p v) w.stored
    × In (master_key_of p v) w.stored

-- The row that the payload names shows a sound source's output.
abbrev pub Backed : Platform → Attempt → World → Type 0
Backed p a w =
    (v : Video) × (duration : Float64) × Named p a v × Sound p a duration × Shows p a v duration w

module _ (p : Platform) (a : Attempt) (v : Video) (duration : Float64) where
  -- A run that ends published shows the video.
  abbrev Good : World × Outcome → Type 0
  Good r = r.1 ≡ published → Shows p a v duration r.0

  shown :
      (w : World)
      → In (thumbnail_key_of p v) w.stored
      → In (master_key_of p v) w.stored
      → (u : Video)
      → let q = sent a.ready_fails w.videos (
          mark_video_ready v.id
            (hls_prefix_of p v)
            (thumbnail_key_of p v)
            (rounded p a v duration)
            w.videos) in
        q.1 ≡ row u
        → Shows p a v duration (cleanup_on_failure p a (v.r2_key ∷ []) (record w { videos = q.0 }))
  shown w thumb master u k =
      let made =
        mark_video_ready v.id (hls_prefix_of p v) (thumbnail_key_of p v) (rounded p a v duration)
          w.videos in
      let q = sent a.ready_fails w.videos made in
      let (delivered, same) = sent-row a.ready_fails w.videos made u k in
      let (found, is_ready, prefix, thumbnail, seconds) =
        mark_video_ready-row v.id _ _ _ w.videos u delivered in
      let w' = record w { videos = q.0 } in
      (
        u,
        rw (videos-cleanup_on_failure p a (v.r2_key ∷ []) w', same) found,
        is_ready,
        prefix,
        thumbnail,
        seconds,
        rw (stored-cleanup_on_failure p a (v.r2_key ∷ []) w') thumb,
        rw (stored-cleanup_on_failure p a (v.r2_key ∷ []) w') master,
      )

  mark_ready-Good :
      (w : World) (keys : List String)
      → In (thumbnail_key_of p v) w.stored
      → In (master_key_of p v) w.stored
      → Good (mark_ready p a v duration w keys)
  unfolding mark_ready
  mark_ready-Good w₀ keys thumb master =
      let w = others a.before_ready w₀ in
      let q =
        mark_video_ready v.id (hls_prefix_of p v) (thumbnail_key_of p v) (rounded p a v duration)
          w.videos in
      Reply-rule Good (sent a.ready_fails w.videos q).1 (λ u k l. shown w thumb master u k)
        (λ k l. cc) λ k l. absurd (fail_after-ne p a v keys w l)

  finish-Good :
      (w : World) (keys : List String)
      → In (thumbnail_key_of p v) w.stored
      → In (master_key_of p v) w.stored
      → Good (finish p a v duration w keys)
  unfolding finish
  finish-Good w keys thumb master =
      if-rule Good a.recheck_fails (λ e l. absurd (fail_after-ne p a v keys w l))
        λ e.
          Reply-rule Good (get_video_by_id v.id w.videos)
            (λ fresh k.
              if-rule Good (is_processing fresh.status) (λ c. mark_ready-Good w keys thumb master)
                λ c l. cc)
            (λ k l. cc) λ k l. absurd (fail_after-ne p a v keys w l)

  encode_variants-Good :
      (dirs : List String) (w : World) (keys : List String)
      → Ends Good (λ w' ks. Unit) (encode_variants p a v dirs w keys)
  unfolding encode_variants
  encode_variants-Good [] w keys = tt
  encode_variants-Good (dir ∷ dirs) w keys =
      let R = Ends Good (λ (w' : World) (ks : List String). Unit) in
      let e = a.encode dir in
      let u = upload_variant a.upload_fails (hls_prefix_of p v <> ("/" <> dir)) e.entries w in
      if-rule R e.mkdir_fails (λ m l. absurd (fail_after-ne p a v keys w l))
        λ m.
          if-rule R e.ffmpeg_fails (λ x l. absurd (fail_after-ne p a v keys w l))
            λ x.
              if-rule R u.done (λ d. encode_variants-Good dirs u.world (keys ++ u.keys))
                λ d l. absurd (fail_after-ne p a v (keys ++ u.keys) u.world l)

  -- One upload after a step that may fail: afterwards its key is stored, and so is what was.
  single-Good :
      (failing : Bool) (key : String) (w : World) (keys : List String)
      → Ends Good
          (λ w' ks. w'.stored ≡ w.stored ++ key ∷ [])
          (if failing
            then stop (fail_after p a v keys w)
            else if a.upload_fails key
            then stop (fail_after p a v (keys ++ key ∷ []) w)
            else next (store key w) (keys ++ key ∷ []))
  single-Good failing key w keys =
      let R = Ends Good (λ (w' : World) (ks : List String). w'.stored ≡ w.stored ++ key ∷ []) in
      if-rule R failing (λ e l. absurd (fail_after-ne p a v keys w l))
        λ e.
          if-rule R (a.upload_fails key)
            (λ f l. absurd (fail_after-ne p a v (keys ++ key ∷ []) w l)) λ f. refl

  produce-Good : (w : World) → Good (produce p a v duration w)
  unfolding produce publish_thumbnail publish_master
  produce-Good w =
      after-Ends Good _ (encode_variants p a v transcode_variants w []) _
        (encode_variants-Good transcode_variants w [])
        λ w₁ k₁ h₁.
          after-Ends Good _ (publish_thumbnail p a v w₁ k₁) _ (single-Good a.thumb_fails _ w₁ k₁)
            λ w₂ k₂ h₂.
              after-Ends Good _ (publish_master p a v w₂ k₂) _
                (single-Good a.write_master_fails _ w₂ k₂)
                λ w₃ k₃ h₃.
                  finish-Good w₃ k₃
                    (subst (In (thumbnail_key_of p v)) (sym h₃) (
                      In-append_left _ w₂.stored _ (
                        subst (In (thumbnail_key_of p v)) (sym h₂)
                          (In-append_right _ w₁.stored _ (inl refl)))))
                    (subst (In (master_key_of p v)) (sym h₃)
                      (In-append_right _ w₂.stored _ (inl refl)))

-- When a run of HandleTranscode publishes a video, then its source passed ValidateMedia, and the row
-- that the task's payload names is READY, shows the HLS prefix, thumbnail key and rounded duration
-- of this run, and the thumbnail and the master playlist were uploaded; whatever others do to the
-- videos table meanwhile.
pub handle_transcode-Shows :
    (p : Platform) (a : Attempt) (w : World)
    → (handle_transcode p a w).1 ≡ published
    → Backed p a (handle_transcode p a w).0
unfolding handle_transcode
handle_transcode-Shows p a w =
    let Goal = λ (r : World × Outcome). r.1 ≡ published → Backed p a r.0 in
    after-Ends Goal (λ w₁ v. Named p a v) (prepare p a w) _
      (Ends-map (λ r. r.1 ≢ published) Goal (λ w₁ v. Named p a v) (λ w₁ v. Named p a v)
        (λ r n e. absurd (n e)) (λ w₁ v h. h) (prepare p a w) (prepare-Named p a w))
      λ w₁ v named.
        after-Ends Goal (λ w₂ d. Sound p a d) (fetch p a v w₁) _
          (Ends-map (λ r. r.1 ≢ published) Goal (λ w₂ d. Sound p a d) (λ w₂ d. Sound p a d)
            (λ r n e. absurd (n e)) (λ w₂ d h. h) (fetch p a v w₁) (fetch-Sound p a v w₁))
          λ w₂ duration sound e. (v, duration, named, sound, produce-Good p a v duration w₂ e)
