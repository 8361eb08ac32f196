-- ===== src/Worker/Transcode/Dropped.antt =====
-- The tasks that HandleTranscode (transcoder-worker/transcode.go) lets fall.
use mokibox.Shared.{ℕ, ◌≡◌, refl, ap, sym, ◌∙◌, String, false, false≢true, some}
use mokibox.Shared.Platform.{Platform}
use mokibox.Store.Row.{Video, is_processing}
use mokibox.Store.Table.{find}
use mokibox.Store.Statements.{get_video_by_id}
use mokibox.Store.Replies.{get_video_by_id-row}
use mokibox.Worker.World.{World}
use mokibox.Worker.Transcode.Attempt.{Attempt, dropped, Step, stop, after}
use mokibox.Worker.Transcode.Ends.{if-rule, Option-rule, Reply-rule}
use mokibox.Worker.Transcode.Fetch.{prepare, load, claim, fetch}
use mokibox.Worker.Transcode.Publish.{produce}
use mokibox.Worker.Transcode.Handler.{handle_transcode}

module _ (p : Platform) (a : Attempt) (w : World)
    (idle : (text : String) (id : ℕ) (v : Video)
      → a.payload ≡ some text
      → p.parse_uuid text ≡ some id
      → find id w.videos ≡ some v
      → is_processing v.status ≡ false) where
  abbrev R : Step Video → Type 0
  R s = s ≡ stop (w, dropped)

  load-R :
      (text : String) (id : ℕ)
      → a.payload ≡ some text
      → p.parse_uuid text ≡ some id
      → R (load p a id w)
  unfolding load claim
  load-R text id given parsed =
      if-rule R a.load_fails (λ e. refl)
        λ e.
          Reply-rule R (get_video_by_id id w.videos)
            (λ v k.
              if-rule R (is_processing v.status)
                (λ e. absurd (
                  false≢true
                    (sym (idle text id v given parsed (get_video_by_id-row id w.videos v k)) ∙ e)))
                (λ e. refl))
            (λ e. refl) (λ e. refl)

  prepare-R : R (prepare p a w)
  unfolding prepare
  prepare-R =
      if-rule R a.has_queries
        (λ e.
          if-rule R a.has_r2
            (λ e.
              if-rule R a.has_asynq
                (λ e.
                  Option-rule R a.payload (λ e. refl)
                    λ text given.
                      Option-rule R (p.parse_uuid text) (λ e. refl)
                        λ id parsed. load-R text id given parsed)
                (λ e. refl))
            (λ e. refl))
        (λ e. refl)

  -- A task whose payload names no row in PROCESSING changes nothing: no row, no task and no object,
  -- whatever else would fail or happen. So a second delivery after the video was published is
  -- harmless, and a task that is run before its row's status is committed is lost.
  pub handle_transcode-dropped : handle_transcode p a w ≡ (w, dropped)
  unfolding handle_transcode
  handle_transcode-dropped =
      ap (λ s. after s λ w₁ v. after (fetch p a v w₁) λ w₂ duration. produce p a v duration w₂)
        prepare-R
