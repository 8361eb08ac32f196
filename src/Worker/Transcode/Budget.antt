-- ===== src/Worker/Transcode/Budget.antt =====
-- The retry budget of HandleTranscode (transcoder-worker/transcode.go, MaxRetries).
pub mod Stages
use mokibox.Shared.{
  ℕ, ◌+◌, ◌<◌, String, ◌≡◌, ◌≢◌, inl, refl, ap, sym, ◌∙◌, subst, Bool, Option, none, some, List, [],
  ◌∷◌, ◌++◌, arith, if◌then◌else◌, In, In-append_right, leb,
}
use mokibox.Shared.Platform.{Platform, Float64, float_le_zero, ◌<>◌}
use mokibox.Store.Row.{Video, is_processing}
use mokibox.Store.Table.{Table, find}
use mokibox.Store.Statements.{
  get_video_by_id, mark_video_ready, increment_video_retry, one_more_retry, sent,
}
use mokibox.Store.Checks.{Statement}
use mokibox.Store.Replies.{sent-row, increment_video_retry-row}
use mokibox.Worker.Media.{validate_media}
use mokibox.Worker.World.{transcode_video, Entry, World}
use mokibox.Worker.World.Swept.{enqueue-done, videos-enqueue}
use mokibox.Worker.Transcode.Attempt.{
  DirEntry, Attempt, Outcome, requeued, Step, stop, next, others, max_retries, retry_delay_for,
  transcode_variants,
}
use mokibox.Worker.Transcode.Ends.{
  Ends, Ends-map, after-Ends, if-rule, Option-rule, Reply-rule, Probe-rule,
}
use mokibox.Worker.Transcode.Keeps.{videos-cleanup_on_failure}
use mokibox.Worker.Transcode.Retry.{handle_transient}
use mokibox.Worker.Transcode.Fetch.{prepare, load, claim, inspect, fetch}
use mokibox.Worker.Transcode.Publish.{
  thumbnail_key_of, rounded, upload_entries, upload_variant, store, fail_after, encode_variants,
  publish_thumbnail, publish_master, mark_ready, finish, produce, hls_prefix_of,
}
use mokibox.Worker.Transcode.Handler.{handle_transcode}
use mokibox.Worker.Transcode.Budget.Stages.{
  Quiet, quiet-others, retry_of, Counts, fetch-Keeps, produce-Counts,
}

-- The task's payload names `id`.
abbrev pub Names : Platform → Attempt → ℕ → Type 0
Names p a id = (text : String) × (a.payload ≡ some text) × (p.parse_uuid text ≡ some id)

-- What a claim of row `id` in the table `t₀` hands on.
abbrev Claimed : ℕ → Table → World → Video → Type 0
Claimed id t₀ w u =
    (v : Video) × (find id t₀ ≡ some v) × (u ≡ one_more_retry v) × (find id w.videos ≡ some u)

module _ (p : Platform) (a : Attempt) (quiet : Quiet a) where
  claim-Claimed :
      (id : ℕ) (v : Video) (w : World)
      → Ends (λ r. r.1 ≢ requeued) (Claimed id w.videos) (claim p a id v w)
  unfolding claim
  claim-Claimed id v w =
      let R = Ends (λ r. r.1 ≢ requeued) (Claimed id w.videos) in
      let t = (others a.after_load w).videos in
      if-rule R (is_processing v.status)
        (λ e.
          if-rule R (leb max_retries v.retry_count) (λ e k. cc)
            λ e.
              Reply-rule R (sent a.increment_fails t (increment_video_retry id t)).1
                (λ u k.
                  let (delivered, same) =
                    sent-row a.increment_fails t (increment_video_retry id t) u k in
                  let (x, found, more, named, now) = increment_video_retry-row id t u delivered in
                  (
                    x,
                    subst (λ (s : Table). find id s ≡ some x)
                        (quiet-others a.after_load w quiet.after_load) found,
                    more,
                    rw same now,
                  ))
                (λ k l. cc) (λ k l. cc))
        λ e k. cc

  load-Claimed :
      (id : ℕ) (w : World) → Ends (λ r. r.1 ≢ requeued) (Claimed id w.videos) (load p a id w)
  unfolding load
  load-Claimed id w =
      let R = Ends (λ r. r.1 ≢ requeued) (Claimed id w.videos) in
      if-rule R a.load_fails (λ e k. cc)
        λ e.
          Reply-rule R (get_video_by_id id w.videos) (λ v k. claim-Claimed id v w) (λ k l. cc)
            (λ k l. cc)

  prepare-Claimed :
      (w : World)
      → Ends
          (λ r. r.1 ≢ requeued)
          (λ w' u. (id : ℕ) × Names p a id × Claimed id w.videos w' u)
          (prepare p a w)
  unfolding prepare
  prepare-Claimed w =
      let Q = λ (w' : World) (u : Video). (id : ℕ) × Names p a id × Claimed id w.videos w' u in
      let R = Ends (λ r. r.1 ≢ requeued) Q in
      if-rule R a.has_queries
        (λ e.
          if-rule R a.has_r2
            (λ e.
              if-rule R a.has_asynq
                (λ e.
                  Option-rule R a.payload (λ n k. cc)
                    λ text named.
                      Option-rule R (p.parse_uuid text) (λ n k. cc)
                        λ id parsed.
                          Ends-map (λ r. r.1 ≢ requeued) _ (Claimed id w.videos) Q (λ r h. h)
                            (λ w' u c. (id, (text, named, parsed), c)) (load p a id w)
                            (load-Claimed id w))
                λ e k. cc)
            λ e k. cc)
        λ e k. cc

  -- The named row of the table `t` had been tried fewer than twice, its retry_count is one higher
  -- in `r`, and the queue of `r` holds its next attempt, 30 s times the new count from now.
  abbrev pub TriedAgain : Table → World → Type 0
  TriedAgain t w' =
      (id : ℕ) × Names p a id
      × ((v : Video) × (find id t ≡ some v)
          × (v.retry_count + 1 < max_retries)
          × (find id w'.videos ≡ some (one_more_retry v))
          × In (retry_of p (one_more_retry v)) w'.queue)

  concludes :
      (t : Table) (w₁ : World) (u : Video)
      → (id : ℕ) × Names p a id × Claimed id t w₁ u
      → (r : World × Outcome) → Counts p a u w₁.videos quiet r
      → r.1 ≡ requeued
      → TriedAgain t r.0
  concludes t w₁ u (id, named, (v, found, more, now)) r h e =
      let (kept, low, queued) = h e in
      (
        id,
        named,
        (
          v,
          found,
          rw more at low,
          rw kept (now ∙ ap some more),
          subst (λ (x : Video). In (retry_of p x) r.0.queue) more queued,
        ),
      )

  -- If no other connection writes the table during the run and the run ends by re-enqueueing the
  -- task, then the row that the payload names had been tried fewer than twice before, its
  -- retry_count is one higher afterwards, and the queue holds a task for its next attempt whose
  -- delay is 30 s times the new count.
  pub handle_transcode-TriedAgain :
      (w : World)
      → (handle_transcode p a w).1 ≡ requeued
      → TriedAgain w.videos (handle_transcode p a w).0
  unfolding handle_transcode
  handle_transcode-TriedAgain w =
      let Goal = λ (r : World × Outcome). r.1 ≡ requeued → TriedAgain w.videos r.0 in
      let Q = λ (w' : World) (u : Video). (id : ℕ) × Names p a id × Claimed id w.videos w' u in
      after-Ends Goal Q (prepare p a w) _
        (Ends-map (λ r. r.1 ≢ requeued) Goal Q Q (λ r n e. absurd (n e)) (λ w₁ u q. q)
          (prepare p a w) (prepare-Claimed w))
        λ w₁ u q.
          let t = w₁.videos in
          after-Ends Goal (λ w₂ d. w₂.videos ≡ t) (fetch p a u w₁) _
            (Ends-map (Counts p a u t quiet) Goal _ (λ w₂ d. w₂.videos ≡ t)
              (concludes w.videos w₁ u q) (λ w₂ d h. h) (fetch p a u w₁)
              (fetch-Keeps p a u t quiet w₁ refl))
            λ w₂ duration h.
              concludes w.videos w₁ u q (produce p a u duration w₂)
                (produce-Counts p a u t quiet duration w₂ h)
