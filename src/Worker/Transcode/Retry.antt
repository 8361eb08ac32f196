-- ===== src/Worker/Transcode/Retry.antt =====
-- The ends of a failed attempt (transcoder-worker/transcode.go): markFailedDetached,
-- handleTransient and cleanupOnFailure.
use mokibox.Shared.{ℕ, String, List, [], ◌∷◌, leb, if◌then◌else◌}
use mokibox.Shared.Platform.{Platform}
use mokibox.Store.Row.{Video}
use mokibox.Store.Statements.{mark_video_failed, sent}
use mokibox.Worker.World.{transcode_video, World, enqueue, enqueue_cleanup_objects}
use mokibox.Worker.Transcode.Attempt.{
  Attempt, max_retries, retry_delay_for, Outcome, gave_up, requeued, stranded, run_all,
}

module _ (p : Platform) (a : Attempt) where
  -- markFailedDetached. Its error is only logged.
  unfoldable pub mark_failed_detached : ℕ → World → World
  mark_failed_detached id w =
      let t = run_all a.before_failed w.videos in
      record w { videos = (sent a.failed_fails t (mark_video_failed id t)).0 }

  -- MarkVideoFailed, then EnqueueCleanupObjects of the raw upload, whose error is only logged.
  unfoldable pub give_up : ℕ → String → World → World
  unfolding mark_failed_detached enqueue_cleanup_objects
  give_up id key w = (enqueue_cleanup_objects a.refused (key ∷ []) (mark_failed_detached id w)).0

  -- handleTransient
  unfoldable pub handle_transient : Video → World → World × Outcome
  unfolding give_up enqueue retry_delay_for
  handle_transient v w =
      if leb max_retries v.retry_count
      then (give_up v.id v.r2_key w, gave_up)
      else (let (w', done) =
            enqueue a.refused (transcode_video (p.uuid_string v.id)) (retry_delay_for v.retry_count)
              w in
          (w', if done then requeued else stranded))

  -- cleanupOnFailure
  unfoldable pub cleanup_on_failure : List String → World → World
  unfolding enqueue_cleanup_objects
  cleanup_on_failure keys w = (enqueue_cleanup_objects a.refused keys w).0
