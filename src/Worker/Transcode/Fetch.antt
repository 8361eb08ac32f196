-- ===== src/Worker/Transcode/Fetch.antt =====
-- HandleTranscode (transcoder-worker/transcode.go) up to the decoded source: its dependencies and
-- payload, the row and its budget, the download, ffprobe and ValidateMedia.
use mokibox.Shared.{ℕ, none, some, leb, if◌then◌else◌}
use mokibox.Shared.Platform.{Platform, Float64, float_le_zero}
use mokibox.Store.Row.{Video, is_processing}
use mokibox.Store.Table.{row, no_rows, fault}
use mokibox.Store.Statements.{get_video_by_id, increment_video_retry, sent}
use mokibox.Worker.Media.{validate_media}
use mokibox.Worker.World.{World}
use mokibox.Worker.Transcode.Attempt.{
  probed, invalid, broken, Attempt, max_retries, dropped, gave_up, Step, stop, next, others,
}
use mokibox.Worker.Transcode.Retry.{give_up, handle_transient}

module _ (p : Platform) (a : Attempt) where
  -- From the row that was loaded: its status, its budget, IncrementVideoRetry.
  unfoldable pub claim : ℕ → Video → World → Step Video
  claim id v w =
      if is_processing v.status
      then (if leb max_retries v.retry_count
          then stop (give_up p a id v.r2_key w, gave_up)
          else (let w₁ = others a.after_load w in
              let (t, reply) =
                sent a.increment_fails w₁.videos (increment_video_retry id w₁.videos) in
              elim reply [
                | row incremented ↦ next (record w₁ { videos = t }) incremented
                | no_rows ↦ stop (w₁, dropped)
                | fault ↦ stop (w₁, dropped)
              ]))
      else stop (w, dropped)

  -- GetVideoByID
  unfoldable pub load : ℕ → World → Step Video
  unfolding claim
  load id w = if a.load_fails then stop (w, dropped) else elim (get_video_by_id id w.videos) [
    | row v ↦ claim id v w
    | no_rows ↦ stop (w, dropped)
    | fault ↦ stop (w, dropped)
  ]

  -- The handler up to the increment: its dependencies and its payload.
  unfoldable pub prepare : World → Step Video
  unfolding load
  prepare w =
      if a.has_queries
      then (if a.has_r2
          then (if a.has_asynq
              then (elim a.payload [
                | none ↦ stop (w, dropped)
                | some text ↦ elim (p.parse_uuid text) [
                  | none ↦ stop (w, dropped)
                  | some id ↦ load id w
                ]
              ])
              else stop (w, dropped))
          else stop (w, dropped))
      else stop (w, dropped)

  -- The probe's result: invalid media are given up, other failures are transient.
  unfoldable pub inspect : Video → ℕ → World → Step Float64
  inspect v size w = elim a.probe [
    | invalid ↦ stop (give_up p a v.id v.r2_key w, gave_up)
    | broken ↦ stop (handle_transient p a v w)
    | probed r ↦ elim (validate_media p r size) [
      | some e ↦ stop (give_up p a v.id v.r2_key w, gave_up)
      -- parseFFmpegDuration gives 0 where the text is no float
      | none ↦ elim (p.parse_float r.format.duration) [
        | none ↦ stop (handle_transient p a v w)
        | some duration ↦
            if float_le_zero duration then stop (handle_transient p a v w) else next w duration
      ]
    ]
  ]

  -- The workdir, the download, the size, the probe. Others may write the table from here on.
  unfoldable pub fetch : Video → World → Step Float64
  unfolding inspect
  fetch v w₀ =
      let w = others a.during w₀ in
      if a.random_fails
      then stop (w, dropped)
      else if a.workdir_fails
      then stop (w, dropped)
      else if a.download_fails
      then stop (handle_transient p a v w)
      else elim a.size [ none ↦ stop (handle_transient p a v w) | some size ↦ inspect v size w ]
