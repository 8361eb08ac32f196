-- ===== src/Worker/Transcode/Ready/Source.antt =====
-- What a run of HandleTranscode knows of the row and the source that it goes on with (transcoder-worker/transcode.go).
use mokibox.Shared.{ℕ, String, ◌≡◌, ◌≢◌, false, none, some, List, arith, leb}
use mokibox.Shared.Platform.{Platform, Float64, float_le_zero}
use mokibox.Store.Row.{Video, is_processing}
use mokibox.Store.Statements.{get_video_by_id, increment_video_retry, sent}
use mokibox.Store.Replies.{sent-row, increment_video_retry-row}
use mokibox.Worker.Media.{FfprobeResult, validate_media}
use mokibox.Worker.World.{World}
use mokibox.Worker.Transcode.Attempt.{Attempt, probed, published, others, max_retries}
use mokibox.Worker.Transcode.Ends.{Ends, Ends-map, if-rule, Option-rule, Reply-rule, Probe-rule}
use mokibox.Worker.Transcode.Retry.{handle_transient}
use mokibox.Worker.Transcode.Fetch.{prepare, load, claim, inspect, fetch}
use mokibox.Worker.Transcode.Publish.{fail_after}

-- The source passed ValidateMedia, and its duration is `duration`.
abbrev pub Sound : Platform → Attempt → Float64 → Type 0
Sound p a duration =
    (r : FfprobeResult) × (n : ℕ) × (a.probe ≡ probed r)
    × (a.size ≡ some n)
    × (validate_media p r n ≡ none)
    × (p.parse_float r.format.duration ≡ some duration)
    × (float_le_zero duration ≡ false)

-- The claimed row has the id that the task's payload names.
abbrev pub Named : Platform → Attempt → Video → Type 0
Named p a v =
    (text : String) × (id : ℕ) × (a.payload ≡ some text)
    × (p.parse_uuid text ≡ some id)
    × (v.id ≡ id)

module _ (p : Platform) (a : Attempt) where
  handle_transient-ne : (v : Video) (w : World) → (handle_transient p a v w).1 ≢ published
  unfolding handle_transient
  handle_transient-ne v w = ground arith

  pub fail_after-ne :
      (v : Video) (keys : List String) (w : World) → (fail_after p a v keys w).1 ≢ published
  unfolding fail_after
  fail_after-ne v keys w = handle_transient-ne v _

  inspect-Sound :
      (v : Video) (n : ℕ) (w : World)
      → a.size ≡ some n
      → Ends (λ r. r.1 ≢ published) (λ w' duration. Sound p a duration) (inspect p a v n w)
  unfolding inspect
  inspect-Sound v n w sized =
      let R =
        Ends (λ r. r.1 ≢ published) (λ (w' : World) (duration : Float64). Sound p a duration) in
      Probe-rule R a.probe (λ e k. cc) (λ e. handle_transient-ne v w)
        λ r e.
          Option-rule R (validate_media p r n)
            (λ valid.
              Option-rule R (p.parse_float r.format.duration) (λ d. handle_transient-ne v w)
                λ duration d.
                  if-rule R (float_le_zero duration) (λ z. handle_transient-ne v w)
                    λ z. (r, n, e, sized, valid, d, z))
            λ x k l. cc

  pub fetch-Sound :
      (v : Video) (w : World)
      → Ends (λ r. r.1 ≢ published) (λ w' duration. Sound p a duration) (fetch p a v w)
  unfolding fetch
  fetch-Sound v w₀ =
      let R =
        Ends (λ r. r.1 ≢ published) (λ (w' : World) (duration : Float64). Sound p a duration) in
      let w = others a.during w₀ in
      if-rule R a.random_fails (λ e k. cc)
        λ e.
          if-rule R a.workdir_fails (λ e k. cc)
            λ e.
              if-rule R a.download_fails (λ e. handle_transient-ne v w)
                λ e.
                  Option-rule R a.size (λ e. handle_transient-ne v w)
                    λ n sized. inspect-Sound v n w sized

  claim-id :
      (id : ℕ) (v : Video) (w : World)
      → Ends (λ r. r.1 ≢ published) (λ w' u. u.id ≡ id) (claim p a id v w)
  unfolding claim
  claim-id id v w =
      let R = Ends (λ r. r.1 ≢ published) (λ (w' : World) (u : Video). u.id ≡ id) in
      let t = (others a.after_load w).videos in
      if-rule R (is_processing v.status)
        (λ e.
          if-rule R (leb max_retries v.retry_count) (λ e k. cc)
            λ e.
              Reply-rule R (sent a.increment_fails t (increment_video_retry id t)).1
                (λ u k. (increment_video_retry-row id t u (sent-row a.increment_fails t _ u k).0).3)
                (λ k l. cc) (λ k l. cc))
        λ e k. cc

  load-id : (id : ℕ) (w : World) → Ends (λ r. r.1 ≢ published) (λ w' u. u.id ≡ id) (load p a id w)
  unfolding load
  load-id id w =
      let R = Ends (λ r. r.1 ≢ published) (λ (w' : World) (u : Video). u.id ≡ id) in
      if-rule R a.load_fails (λ e k. cc)
        λ e.
          Reply-rule R (get_video_by_id id w.videos) (λ v k. claim-id id v w) (λ k l. cc)
            (λ k l. cc)

  pub prepare-Named :
      (w : World) → Ends (λ r. r.1 ≢ published) (λ w' v. Named p a v) (prepare p a w)
  unfolding prepare
  prepare-Named w =
      let R = Ends (λ r. r.1 ≢ published) (λ (w' : World) (v : Video). Named p a v) in
      if-rule R a.has_queries
        (λ e.
          if-rule R a.has_r2
            (λ e.
              if-rule R a.has_asynq
                (λ e.
                  Option-rule R a.payload (λ n k. cc)
                    λ text named.
                      Option-rule R (p.parse_uuid text) (λ n k. cc)
                        λ id parsed.
                          Ends-map (λ r. r.1 ≢ published) _ (λ w' v. v.id ≡ id) _ (λ r h. h)
                            (λ w' v same. (text, id, named, parsed, same)) (load p a id w)
                            (load-id id w))
                λ e k. cc)
            λ e k. cc)
        λ e k. cc
