-- ===== src/Worker/Transcode/Orphans.antt =====
-- No upload of a failed attempt is forgotten (transcoder-worker/transcode.go, cleanupOnFailure).
pub mod Uploads
use mokibox.Shared.{
  ℕ, String, ◌≡◌, ◌⊎◌, inl, inr, refl, ap, sym, ◌∙◌, Bool, true, false, Option, none, some, List,
  [], ◌∷◌, ◌++◌, arith, Bool-cases, Option-cases, if◌then◌else◌, All-append_left,
}
use mathlib.Core.List.{append-nil, append_assoc}
use mokibox.Shared.Platform.{Platform, Float64, ◌<>◌}
use mokibox.Store.Row.{Video, is_processing}
use mokibox.Store.Table.{Reply-cases}
use mokibox.Store.Statements.{get_video_by_id, mark_video_ready, sent}
use mokibox.Worker.World.{cleanup_objects, World}
use mokibox.Worker.World.Swept.{Swept, cleanup-Swept}
use mokibox.Worker.Transcode.Attempt.{
  DirEntry, Attempt, Outcome, published, superseded, Step, stop, next, after, others,
  transcode_variants,
}
use mokibox.Worker.Transcode.Ends.{Ends, after-Ends}
use mokibox.Worker.Transcode.Keeps.{
  stored-give_up, stored-handle_transient, handle_transient-Swept, stored-cleanup_on_failure,
}
use mokibox.Worker.Transcode.Retry.{cleanup_on_failure}
use mokibox.Worker.Transcode.Fetch.{prepare, load, claim, inspect, fetch}
use mokibox.Worker.Transcode.Publish.{
  thumbnail_key_of, rounded, upload_entries, upload_variant, store, fail_after, encode_variants,
  publish_thumbnail, publish_master, mark_ready, finish, produce, hls_prefix_of,
}
use mokibox.Worker.Transcode.Handler.{handle_transcode}
use mokibox.Worker.Transcode.Orphans.Uploads.{
  Accounted, world_of, prepare-stored, fetch-stored, upload_variant-stored, Tracked,
  after-Accounted,
}

module _ (p : Platform) (a : Attempt) (v : Video)
    (accepts : (keys : List String) → a.refused (cleanup_objects keys) ≡ false)
    (before : List String) where
  -- What cleanupOnFailure is given is swept; `extra` is a key whose upload failed.
  swept :
      (new extra : List String) (w : World) → Swept new (cleanup_on_failure p a (new ++ extra) w)
  unfolding cleanup_on_failure
  swept new extra w =
      All-append_left _ new extra
        (cleanup-Swept a.refused (new ++ extra) w (accepts (new ++ extra)))

  Swept-alone : (new : List String) (w : World) → Swept new (cleanup_on_failure p a new w)
  unfolding cleanup_on_failure
  Swept-alone new w = cleanup-Swept a.refused new w (accepts new)

  fail_after-Accounted :
      (new extra : List String) (w : World)
      → w.stored ≡ before ++ new
      → Accounted before (fail_after p a v (new ++ extra) w)
  unfolding fail_after
  fail_after-Accounted new extra w h = inr (
    new,
    stored-handle_transient p a v _ ∙ (stored-cleanup_on_failure p a (new ++ extra) w ∙ h),
    handle_transient-Swept p a v _ new (swept new extra w),
  )

  fail_alone-Accounted :
      (new : List String) (w : World)
      → w.stored ≡ before ++ new
      → Accounted before (fail_after p a v new w)
  unfolding fail_after
  fail_alone-Accounted new w h = inr (
    new,
    stored-handle_transient p a v _ ∙ (stored-cleanup_on_failure p a new w ∙ h),
    handle_transient-Swept p a v _ new (Swept-alone new w),
  )

  encode_variants-Tracked :
      (dirs : List String) (w : World) (keys : List String)
      → w.stored ≡ before ++ keys
      → Tracked before (encode_variants p a v dirs w keys)
  unfolding encode_variants
  encode_variants-Tracked [] w keys h = h
  encode_variants-Tracked (dir ∷ dirs) w keys h =
      let e = a.encode dir in
      let u = upload_variant a.upload_fails (hls_prefix_of p v <> ("/" <> dir)) e.entries w in
      let grown =
        upload_variant-stored a.upload_fails (hls_prefix_of p v <> ("/" <> dir)) e.entries w
        ∙ (ap (λ l. l ++ u.keys) h ∙ append_assoc before keys u.keys) in
      elim (Bool-cases e.mkdir_fails) [
        | inl m ↦ rw m (fail_alone-Accounted keys w h)
        | inr m ↦ rw m (elim (Bool-cases e.ffmpeg_fails) [
          | inl x ↦ rw x (fail_alone-Accounted keys w h)
          | inr x ↦ rw x (elim (Bool-cases u.done) [
            | inl d ↦ rw d (encode_variants-Tracked dirs u.world (keys ++ u.keys) grown)
            | inr d ↦ rw d (fail_alone-Accounted (keys ++ u.keys) u.world grown)
          ])
        ])
      ]

  -- One upload after a step that may fail.
  single-Tracked :
      (broken : Bool) (key : String) (w : World) (keys : List String)
      → w.stored ≡ before ++ keys
      → Tracked before (
          if broken
          then stop (fail_after p a v keys w)
          else if a.upload_fails key
          then stop (fail_after p a v (keys ++ key ∷ []) w)
          else next (store key w) (keys ++ key ∷ []))
  single-Tracked true key w keys h = fail_alone-Accounted keys w h
  single-Tracked false key w keys h = elim (Bool-cases (a.upload_fails key)) [
    | inl e ↦ rw e (fail_after-Accounted keys (key ∷ []) w h)
    | inr e ↦ rw e (ap (λ l. l ++ key ∷ []) h ∙ append_assoc before keys (key ∷ []))
  ]

  superseded-Accounted :
      (new : List String) (w : World) (o : Outcome)
      → w.stored ≡ before ++ new
      → Accounted before (cleanup_on_failure p a new w, o)
  superseded-Accounted new w o h =
      inr (new, stored-cleanup_on_failure p a new w ∙ h, Swept-alone new w)

  mark_ready-Accounted :
      (duration : Float64) (w : World) (keys : List String)
      → w.stored ≡ before ++ keys
      → Accounted before (mark_ready p a v duration w keys)
  unfolding mark_ready
  mark_ready-Accounted duration w keys h =
      elim (Reply-cases
        (sent a.ready_fails (others a.before_ready w).videos (
          mark_video_ready v.id (hls_prefix_of p v) (thumbnail_key_of p v) (rounded p a v duration)
            (others a.before_ready w).videos)).1) [
              | inl (x, e) ↦ rw (e, mark_ready) (inl refl)
              | inr (inl e) ↦ rw (e, mark_ready) (superseded-Accounted keys _ superseded h)
              | inr (inr e) ↦ rw (e, mark_ready) (fail_alone-Accounted keys _ h)
            ]

  finish-Accounted :
      (duration : Float64) (w : World) (keys : List String)
      → w.stored ≡ before ++ keys
      → Accounted before (finish p a v duration w keys)
  unfolding finish
  finish-Accounted duration w keys h = elim (Bool-cases a.recheck_fails) [
    | inl e ↦ rw e (fail_alone-Accounted keys w h)
    | inr e ↦ rw e (elim (Reply-cases (get_video_by_id v.id w.videos)) [
      | inr (inl k) ↦ rw k (superseded-Accounted keys w superseded h)
      | inr (inr k) ↦ rw k (fail_alone-Accounted keys w h)
      | inl (fresh, k) ↦ rw k (elim (Bool-cases (is_processing fresh.status)) [
        | inl c ↦ rw c (mark_ready-Accounted duration w keys h)
        | inr c ↦ rw c (superseded-Accounted keys w superseded h)
      ])
    ])
  ]

  produce-Accounted :
      (duration : Float64) (w : World)
      → w.stored ≡ before
      → Accounted before (produce p a v duration w)
  unfolding produce publish_thumbnail publish_master
  produce-Accounted duration w h =
      after-Accounted before (encode_variants p a v transcode_variants w []) _
        (encode_variants-Tracked transcode_variants w [] (h ∙ sym (append-nil before)))
        λ w₁ k₁ h₁.
          after-Accounted before (publish_thumbnail p a v w₁ k₁) _
            (single-Tracked a.thumb_fails _ w₁ k₁ h₁)
            λ w₂ k₂ h₂.
              after-Accounted before (publish_master p a v w₂ k₂) _
                (single-Tracked a.write_master_fails _ w₂ k₂ h₂)
                λ w₃ k₃ h₃. finish-Accounted duration w₃ k₃ h₃

untouched-Accounted :
    (before : List String) (r : World × Outcome) → r.0.stored ≡ before → Accounted before r
untouched-Accounted before r h = inr ([], h ∙ sym (append-nil before), tt)

after_nothing :
    {A : Type 0} (before : List String) (s : Step A) (f : World → A → World × Outcome)
    → (world_of s).stored ≡ before
    → ((w : World) (x : A) → w.stored ≡ before → Accounted before (f w x))
    → Accounted before (after s f)
after_nothing before (stop r) f h k = untouched-Accounted before r h
after_nothing before (next w x) f h k = k w x h

-- If Redis takes every cleanup:objects task, a run of HandleTranscode either publishes the video, or
-- hands every key that it uploaded to a cleanup:objects task, whatever fails and whatever others do
-- to the videos table meanwhile.
pub handle_transcode-Accounted :
    (p : Platform) (a : Attempt) (w : World)
    → ((keys : List String) → a.refused (cleanup_objects keys) ≡ false)
    → Accounted w.stored (handle_transcode p a w)
unfolding handle_transcode
handle_transcode-Accounted p a w accepts =
    after_nothing w.stored (prepare p a w) _ (prepare-stored p a w) λ w₁ v h₁.
      after_nothing w.stored (fetch p a v w₁) _ (fetch-stored p a v w₁ ∙ h₁)
        λ w₂ duration h₂. produce-Accounted p a v accepts w.stored duration w₂ h₂
