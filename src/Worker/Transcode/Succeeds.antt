-- ===== src/Worker/Transcode/Succeeds.antt =====
-- When HandleTranscode (transcoder-worker/transcode.go) publishes a video.
use mokibox.Shared.{
  ℕ, ◌≡◌, refl, ap, sym, subst, ◌∙◌, String, Bool, true, false, false≢true, some, List, [], ◌∷◌,
  ◌++◌, arith, leb,
}
use mathlib.Core.Option.{some-injective}
use mokibox.Shared.Platform.{Platform, Float64, float_le_zero, ◌<>◌}
use mokibox.Store.Row.{Video, is_processing}
use mokibox.Store.Table.{Table, Reply, reply_of, row, find}
use mokibox.Store.Statements.{
  get_video_by_id, increment_video_retry, one_more_retry, mark_video_ready, sent,
}
use mokibox.Store.Replies.{
  row-injective, sent-row, increment_video_retry-row, increment_video_retry-gives,
  mark_video_ready-gives,
}
use mokibox.Worker.Media.{FfprobeResult, validate_media}
use mokibox.Worker.World.{World}
use mokibox.Worker.Transcode.Attempt.{
  Attempt, Outcome, published, Step, after, others, run_all, max_retries, transcode_variants,
}
use mokibox.Worker.Transcode.Conditions.{
  Smooth, Ripe, sent-on, row≢no_rows, row≢fault, probed≢invalid, probed≢broken, probed-injective,
  some≢none, upload_entries-done,
}
use mokibox.Worker.Transcode.Ends.{
  Ends, Ends-map, after-Ends, if-rule, Option-rule, Reply-rule, Probe-rule,
}
use mokibox.Worker.Transcode.Budget.Stages.{Quiet, upload_variant-videos}
use mokibox.Worker.Transcode.Fetch.{prepare, load, claim, inspect, fetch}
use mokibox.Worker.Transcode.Publish.{
  hls_prefix_of, thumbnail_key_of, master_key_of, rounded, upload_variant, encode_variants,
  publish_thumbnail, publish_master, mark_ready, finish, produce,
}
use mokibox.Worker.Transcode.Handler.{handle_transcode}

module _ (p : Platform) (a : Attempt) (w : World) (v : Video) (smooth : Smooth a) (quiet : Quiet a)
    (ripe : Ripe p a w v) where
  -- A stage goes on.
  abbrev Goes : {A : Type 0} → (World → A → Type 0) → Step A → Type 0
  Goes Q s = Ends (λ r. ⊥) Q s

  no : {b : Bool} {A : Type 0} → b ≡ false → b ≡ true → A
  no f t = absurd (false≢true (sym f ∙ t))

  -- The claimed row stands in the table.
  abbrev Held : World → Video → Type 0
  Held w₁ u = (u ≡ one_more_retry v) × (find u.id w₁.videos ≡ some u)

  variant-done :
      (dir directory : String) (w₁ : World)
      → (upload_variant a.upload_fails directory (a.encode dir).entries w₁).done ≡ true
  unfolding upload_variant
  variant-done dir directory w₁ =
      let (es, listed, fine) = smooth.lists dir in
      rw listed (upload_entries-done a.upload_fails directory es w₁ [] smooth.uploads fine)

  claim-Goes : Goes Held (claim p a ripe.id v w)
  unfolding claim
  claim-Goes =
      let R = Goes Held in
      let t = run_all a.after_load w.videos in
      let found : find ripe.id t ≡ some v =
        ap (λ ss. find ripe.id (run_all ss w.videos)) quiet.after_load ∙ ripe.found in
      let q = increment_video_retry ripe.id t in
      let given =
        increment_video_retry-gives ripe.id t v found (ground (arith, ripe.processing))
          ripe.counts in
      let delivered : (sent a.increment_fails t q).1 ≡ row (one_more_retry v) =
        ap (λ (x : Table × Reply Video). x.1) (sent-on a.increment_fails t q smooth.increments)
        ∙ given in
      if-rule R (is_processing v.status)
        (λ e.
          if-rule R (leb max_retries v.retry_count) (λ k. no ripe.low k)
            (λ k.
              Reply-rule R (sent a.increment_fails t q).1
                (λ u replied.
                  let (came, kept) = sent-row a.increment_fails t q u replied in
                  let (old, was, same, named, now) = increment_video_retry-row ripe.id t u came in
                  (
                    row-injective u (one_more_retry v) (sym came ∙ given),
                    ap (find u.id) kept ∙ (ap (λ (j : ℕ). find j q.0) named ∙ now),
                  ))
                (λ k. absurd (row≢no_rows _ (sym delivered ∙ k)))
                (λ k. absurd (row≢fault _ (sym delivered ∙ k)))))
        (λ e. no e ripe.processing)

  inspect-Goes :
      (u : Video) (t : Table) (w₁ : World)
      → w₁.videos ≡ t
      → Goes (λ w₂ d. (w₂.videos ≡ t) × (d ≡ ripe.duration)) (inspect p a u ripe.bytes w₁)
  unfolding inspect
  inspect-Goes u t w₁ h =
      let R = Goes (λ (w₂ : World) (d : Float64). (w₂.videos ≡ t) × (d ≡ ripe.duration)) in
      Probe-rule R a.probe (λ e. absurd (probed≢invalid ripe.media (sym ripe.probe ∙ e)))
        (λ e. absurd (probed≢broken ripe.media (sym ripe.probe ∙ e)))
        (λ r e.
          let same : r ≡ ripe.media = probed-injective r ripe.media (sym e ∙ ripe.probe) in
          let parses : p.parse_float r.format.duration ≡ some ripe.duration =
            ap (λ (m : FfprobeResult). p.parse_float m.format.duration) same ∙ ripe.parses in
          Option-rule R (validate_media p r ripe.bytes)
            (λ valid.
              Option-rule R (p.parse_float r.format.duration)
                (λ d. absurd (some≢none ripe.duration (sym parses ∙ d)))
                (λ d k.
                  let exact : d ≡ ripe.duration = some-injective d ripe.duration (sym k ∙ parses) in
                  if-rule R (float_le_zero d) (λ l. no (ap float_le_zero exact ∙ ripe.positive) l)
                    (λ l. (h, exact))))
            (λ x k.
              absurd (
                some≢none x (sym k ∙ (ap (λ m. validate_media p m ripe.bytes) same ∙ ripe.valid)))))

  fetch-Goes :
      (u : Video) (w₁ : World)
      → Goes (λ w₂ d. (w₂.videos ≡ w₁.videos) × (d ≡ ripe.duration)) (fetch p a u w₁)
  unfolding fetch
  fetch-Goes u w₁ = rw smooth.random (
      rw smooth.workdir (
        rw smooth.downloads (
          rw ripe.sized (
            inspect-Goes u w₁.videos (others a.during w₁)
              (ap (λ ss. run_all ss w₁.videos) quiet.during)))))

  module _ (z : Video) (t : Table) where
    encode_variants-Goes :
        (dirs : List String) (w₁ : World) (keys : List String)
        → w₁.videos ≡ t
        → Goes (λ w₂ k. w₂.videos ≡ t) (encode_variants p a z dirs w₁ keys)
    unfolding encode_variants
    encode_variants-Goes [] w₁ keys h = h
    encode_variants-Goes (dir ∷ dirs) w₁ keys h =
        let R = Goes (λ (w₂ : World) (k : List String). w₂.videos ≡ t) in
        let e = a.encode dir in
        let directory = hls_prefix_of p z <> ("/" <> dir) in
        let u = upload_variant a.upload_fails directory e.entries w₁ in
        if-rule R e.mkdir_fails (λ k. no (smooth.makes_dir dir) k)
          λ k.
            if-rule R e.ffmpeg_fails (λ k. no (smooth.encodes dir) k)
              λ k.
                if-rule R u.done
                  (λ k.
                    encode_variants-Goes dirs u.world (keys ++ u.keys)
                      (upload_variant-videos a.upload_fails directory e.entries w₁ ∙ h))
                  (λ k. no k (variant-done dir directory w₁))

    publish_thumbnail-Goes :
        (w₁ : World) (keys : List String)
        → w₁.videos ≡ t
        → Goes (λ w₂ k. w₂.videos ≡ t) (publish_thumbnail p a z w₁ keys)
    unfolding publish_thumbnail
    publish_thumbnail-Goes w₁ keys h =
        rw smooth.thumbs (rw (smooth.uploads (thumbnail_key_of p z)) h)

    publish_master-Goes :
        (w₁ : World) (keys : List String)
        → w₁.videos ≡ t
        → Goes (λ w₂ k. w₂.videos ≡ t) (publish_master p a z w₁ keys)
    unfolding publish_master
    publish_master-Goes w₁ keys h =
        let R = Goes (λ (w₂ : World) (k : List String). w₂.videos ≡ t) in
        if-rule R a.write_master_fails (λ e. no smooth.writes e)
          λ e.
            if-rule R (a.upload_fails (master_key_of p z))
              (λ f. no (smooth.uploads (master_key_of p z)) f) (λ f. h)

  -- The claimed row.
  abbrev z : Video
  z = one_more_retry v

  abbrev Public : World × Outcome → Type 0
  Public r = r.1 ≡ published

  mark_ready-Public :
      (w₁ : World) (keys : List String)
      → find z.id w₁.videos ≡ some z
      → Public (mark_ready p a z ripe.duration w₁ keys)
  unfolding mark_ready
  mark_ready-Public w₁ keys held =
      let t = run_all a.before_ready w₁.videos in
      let found : find z.id t ≡ some z =
        ap (λ ss. find z.id (run_all ss w₁.videos)) quiet.before_ready ∙ held in
      let q =
        mark_video_ready z.id (hls_prefix_of p z) (thumbnail_key_of p z)
          (rounded p a z ripe.duration) t in
      let given =
        mark_video_ready-gives z.id (hls_prefix_of p z) (thumbnail_key_of p z)
          (rounded p a z ripe.duration) t z found ripe.processing ripe.shows in
      let delivered =
        ap (λ (x : Table × Reply Video). x.1) (sent-on a.ready_fails t q smooth.marks) ∙ given in
      Reply-rule Public (sent a.ready_fails t q).1 (λ u e. refl)
        (λ k. absurd (row≢no_rows _ (sym delivered ∙ k)))
        (λ k. absurd (row≢fault _ (sym delivered ∙ k)))

  finish-Public :
      (w₁ : World) (keys : List String)
      → find z.id w₁.videos ≡ some z
      → Public (finish p a z ripe.duration w₁ keys)
  unfolding finish get_video_by_id
  finish-Public w₁ keys held =
      let loaded : get_video_by_id z.id w₁.videos ≡ row z = ap reply_of held in
      if-rule Public a.recheck_fails (λ e. no smooth.rechecks e)
        λ e.
          Reply-rule Public (get_video_by_id z.id w₁.videos)
            (λ u k.
              let same : u ≡ z = row-injective u z (sym k ∙ loaded) in
              if-rule Public (is_processing u.status) (λ e. mark_ready-Public w₁ keys held)
                (λ e. no e (ap (λ (x : Video). is_processing x.status) same ∙ ripe.processing)))
            (λ k. absurd (row≢no_rows _ (sym loaded ∙ k)))
            (λ k. absurd (row≢fault _ (sym loaded ∙ k)))

  produce-Public :
      (w₁ : World) → find z.id w₁.videos ≡ some z → Public (produce p a z ripe.duration w₁)
  unfolding produce
  produce-Public w₁ held =
      let t = w₁.videos in
      let Q = λ (w₂ : World) (k : List String). w₂.videos ≡ t in
      let goes = λ (s : Step (List String)) (h : Goes Q s).
        Ends-map (λ r. ⊥) Public Q Q (λ r n. absurd n) (λ w k e. e) s h in
      after-Ends Public Q (encode_variants p a z transcode_variants w₁ []) _
        (goes _ (encode_variants-Goes z t transcode_variants w₁ [] refl))
        λ w₂ k₂ e₂.
          after-Ends Public Q (publish_thumbnail p a z w₂ k₂) _
            (goes _ (publish_thumbnail-Goes z t w₂ k₂ e₂))
            λ w₃ k₃ e₃.
              after-Ends Public Q (publish_master p a z w₃ k₃) _
                (goes _ (publish_master-Goes z t w₃ k₃ e₃))
                λ w₄ k₄ e₄. finish-Public w₄ k₄ (ap (find z.id) e₄ ∙ held)

  load-Goes : Goes Held (load p a ripe.id w)
  unfolding load get_video_by_id
  load-Goes =
      let R = Goes Held in
      let loaded : get_video_by_id ripe.id w.videos ≡ row v = ap reply_of ripe.found in
      if-rule R a.load_fails (λ e. no smooth.loads e)
        λ e.
          Reply-rule R (get_video_by_id ripe.id w.videos)
            (λ u k.
              subst (λ (x : Video). R (claim p a ripe.id x w)) (row-injective v u (sym loaded ∙ k))
                claim-Goes)
            (λ k. absurd (row≢no_rows _ (sym loaded ∙ k)))
            (λ k. absurd (row≢fault _ (sym loaded ∙ k)))

  prepare-Goes : Goes Held (prepare p a w)
  unfolding prepare
  prepare-Goes =
      rw smooth.has_queries
        (rw smooth.has_r2 (rw smooth.has_asynq (rw ripe.payload (rw ripe.parsed load-Goes))))

  -- With no dependency missing, no call failing and no other connection writing the table, a run of
  -- HandleTranscode publishes the video, if its task names a row in PROCESSING that was tried fewer
  -- than three times and whose source is valid, and the rows that it writes pass their CHECKs.
  pub handle_transcode-published : (handle_transcode p a w).1 ≡ published
  unfolding handle_transcode
  handle_transcode-published =
      after-Ends Public Held (prepare p a w) _
        (Ends-map (λ r. ⊥) Public Held Held (λ r n. absurd n) (λ w k e. e) (prepare p a w)
          prepare-Goes)
        λ w₁ u (same, held).
          subst
            (λ (x : Video).
              find x.id w₁.videos ≡ some x
              → Public (after (fetch p a x w₁) λ w₂ d. produce p a x d w₂))
            (sym same)
            (λ found.
              let Q = λ (w₂ : World) (d : Float64). (w₂.videos ≡ w₁.videos) × (d ≡ ripe.duration) in
              after-Ends Public Q (fetch p a z w₁) _
                (Ends-map (λ r. ⊥) Public Q Q (λ r n. absurd n) (λ w k e. e) (fetch p a z w₁)
                  (fetch-Goes z w₁))
                λ w₂ d (e, exact).
                  ap (λ (f : Float64). (produce p a z f w₂).1) exact
                  ∙ produce-Public w₂ (ap (find z.id) e ∙ found))
            held
