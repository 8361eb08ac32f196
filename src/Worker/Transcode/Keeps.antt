-- ===== src/Worker/Transcode/Keeps.antt =====
-- What the ends of a failed attempt (Worker/Transcode/Retry) leave alone.
use mokibox.Shared.{ℕ, String, ◌≡◌, inl, inr, List, [], ◌∷◌, Bool-cases, leb}
use mokibox.Shared.Platform.{Platform}
use mokibox.Store.Row.{Video}
use mokibox.Worker.World.{World}
use mokibox.Worker.World.Swept.{
  Swept, enqueue-Swept, cleanup-keeps_Swept, stored-enqueue, stored-enqueue_cleanup_objects,
  videos-enqueue_cleanup_objects,
}
use mokibox.Worker.Transcode.Attempt.{Attempt, max_retries}
use mokibox.Worker.Transcode.Retry.{give_up, handle_transient, cleanup_on_failure}

module _ (p : Platform) (a : Attempt) where
  pub stored-give_up :
      (id : ℕ) (key : String) (w : World) → (give_up p a id key w).stored ≡ w.stored
  unfolding give_up
  stored-give_up id key w = stored-enqueue_cleanup_objects a.refused (key ∷ []) _

  pub give_up-Swept :
      (id : ℕ) (key : String) (w : World) (keys : List String)
      → Swept keys w
      → Swept keys (give_up p a id key w)
  unfolding give_up
  give_up-Swept id key w keys h = cleanup-keeps_Swept a.refused (key ∷ []) _ keys h

  pub stored-handle_transient :
      (v : Video) (w : World) → (handle_transient p a v w).0.stored ≡ w.stored
  unfolding handle_transient
  stored-handle_transient v w = elim (Bool-cases (leb max_retries v.retry_count)) [
    | inl e ↦ rw e (stored-give_up v.id v.r2_key w)
    | inr e ↦ rw e (stored-enqueue a.refused _ _ w)
  ]

  pub handle_transient-Swept :
      (v : Video) (w : World) (keys : List String)
      → Swept keys w
      → Swept keys (handle_transient p a v w).0
  unfolding handle_transient
  handle_transient-Swept v w keys h = elim (Bool-cases (leb max_retries v.retry_count)) [
    | inl e ↦ rw e (give_up-Swept v.id v.r2_key w keys h)
    | inr e ↦ rw e (enqueue-Swept a.refused _ _ w keys h)
  ]

  pub stored-cleanup_on_failure :
      (keys : List String) (w : World) → (cleanup_on_failure p a keys w).stored ≡ w.stored
  unfolding cleanup_on_failure
  stored-cleanup_on_failure keys w = stored-enqueue_cleanup_objects a.refused keys w

  pub videos-cleanup_on_failure :
      (keys : List String) (w : World) → (cleanup_on_failure p a keys w).videos ≡ w.videos
  unfolding cleanup_on_failure
  videos-cleanup_on_failure keys w = videos-enqueue_cleanup_objects a.refused keys w
