-- ===== src/Worker/Cleanup/Purge.antt =====
-- When HandleCleanupVideo (transcoder-worker/cleanup.go) deletes a row, and when it waits.
use mokibox.Shared.{
  ℕ, ◌+◌, ◌-◌, ◌≤◌, ◌<◌, String, ◌≡◌, inl, inr, refl, ap, sym, ◌∙◌, true, false, Option, none, some,
  List, [], ◌∷◌, ◌++◌, arith, Bool-cases, ltb, if◌then◌else◌, str_eq,
}
use mathlib.Core.List.{append-nil}
use mokibox.Shared.Platform.{Platform, ◌<>◌}
use mokibox.Store.Row.{Video, is_deleted}
use mokibox.Store.Table.{row}
use mokibox.Store.Statements.{get_video_by_id, delete_video_row}
use mokibox.Worker.Objects.{delete_objects, delete_prefix, named_keys}
use mokibox.Worker.Objects.Deletes.{listed, delete_prefix-listed, delete_objects-removed}
use mokibox.Worker.Objects.Kept.{
  Kept, Kept-refl, Kept-trans, delete_objects-Kept, delete_prefix-Kept,
}
use mokibox.Worker.Transcode.Ends.{if-rule, Option-rule, Reply-rule}
use mokibox.Worker.World.{cleanup_video, Entry, World, enqueue}
use mokibox.Worker.Cleanup.{
  CleanupEnd, retry, skipped, postponed, lost, finished, Cleanup, cleanup_grace, purge_objects,
  purge, cleanup_row, handle_cleanup_video, keys_of,
}

-- The row that a payload names was marked DELETED at a known time.
pub record Tombstone (p : Platform) (payload : Option String) (w : World) : Type 0 where
  pub text : String
  pub id : ℕ
  pub video : Video
  pub at : ℕ
  pub given : payload ≡ some text
  pub parsed : p.parse_uuid text ≡ some id
  pub loaded : get_video_by_id id w.videos ≡ row video
  pub marked : is_deleted video.status ≡ true
  pub since : video.deleted_at ≡ some at

-- The keys that the bucket lists under a row's HLS prefix.
abbrev hls_listing : Cleanup → Option String → List String
hls_listing c none = []
hls_listing c (some h) = if str_eq h "" then [] else listed (c.list (h <> "/"))

abbrev pub hls_keys : Cleanup → Video → List String
hls_keys c v = hls_listing c v.hls_prefix

-- The ways a run can end, with what it leaves behind.
pub data Ending (p : Platform) (c : Cleanup) (payload : Option String) (w : World)
    : World × CleanupEnd → Type 0 where
  idle : Ending p c payload w (w, skipped)
  unqueued : Ending p c payload w (w, lost)
  waiting :
      (t : Tombstone p payload w) (e : Entry)
      → e.task ≡ cleanup_video (p.uuid_string t.id)
      → c.now + e.delay ≡ t.at + cleanup_grace
      → c.now < t.at + cleanup_grace
      → Ending p c payload w (record w { queue = w.queue ++ e ∷ [] }, postponed)
  stuck :
      (t : Tombstone p payload w) (w' : World)
      → t.at + cleanup_grace ≤ c.now
      → Kept w w'
      → Ending p c payload w (w', retry)
  purged :
      (t : Tombstone p payload w) (w' : World)
      → t.at + cleanup_grace ≤ c.now
      → w'.removed ≡ w.removed ++ hls_keys c t.video ++ named_keys (keys_of p c t.video)
      → w'.queue ≡ w.queue
      → w'.videos ≡ delete_video_row t.id w.videos
      → Ending p c payload w (w', finished)

module _ (p : Platform) (c : Cleanup) (payload : Option String) (w : World) where
  abbrev E : World × CleanupEnd → Type 0
  E = Ending p c payload w

  -- What is left to do once the HLS prefix is empty.
  record Swept (v : Video) (w' : World) : Type 0 where
    kept : Kept w w'
    asked : w'.removed ≡ w.removed ++ hls_keys c v

  purge_objects-Ending :
      (t : Tombstone p payload w) (w' : World)
      → t.at + cleanup_grace ≤ c.now
      → Swept t.video w'
      → Ending p c payload w (purge_objects p c t.id t.video w')
  unfolding purge_objects
  purge_objects-Ending t w' due s =
      let keys = keys_of p c t.video in
      let kept = Kept-trans w w' _ s.kept (delete_objects-Kept c.send keys w') in
      if-rule E (delete_objects c.send keys w').1
        (λ done.
          if-rule E c.delete_row_fails (λ e. stuck t _ due kept)
            (λ e.
              purged t _ due
                (delete_objects-removed c.send keys w' ∙ ap (λ l. l ++ named_keys keys) s.asked)
                kept.same_queue (ap (delete_video_row t.id) kept.same_videos)))
        (λ e. stuck t _ due kept)

  unswept : (v : Video) → hls_keys c v ≡ [] → Swept v w
  unswept v e = record {
    kept = Kept-refl w;
    asked = sym (append-nil w.removed) ∙ ap (λ l. w.removed ++ l) (sym e);
  }

  hls_listing-empty : (h : String) → str_eq h "" ≡ true → hls_listing c (some h) ≡ []
  hls_listing-empty h e = rw e refl

  hls_listing-some :
      (h : String) → str_eq h "" ≡ false → hls_listing c (some h) ≡ listed (c.list (h <> "/"))
  hls_listing-some h e = rw e refl

  -- The task goes back with the time that is left, or Redis refuses it.
  wait :
      (t : Tombstone p payload w)
      → ltb c.now (t.at + cleanup_grace) ≡ true
      → let again =
          enqueue c.refused (cleanup_video (p.uuid_string t.id)) (t.at + cleanup_grace - c.now) w in
        Ending p c payload w (again.0, if again.1 then postponed else lost)
  unfolding enqueue
  wait t early = elim (Bool-cases (c.refused (cleanup_video (p.uuid_string t.id)))) [
    | inl e ↦ rw e unqueued
    | inr e ↦ rw e (
        waiting t
          (record {
            task = cleanup_video (p.uuid_string t.id);
            delay = t.at + cleanup_grace - c.now;
          })
          refl (ground arith) (ground arith))
  ]

  purge-Ending :
      (t : Tombstone p payload w)
      → t.at + cleanup_grace ≤ c.now
      → Ending p c payload w (purge p c t.id t.video w)
  unfolding purge
  purge-Ending t due =
      Option-rule E t.video.hls_prefix
        (λ e. purge_objects-Ending t w due (unswept t.video (ap (hls_listing c) e)))
        (λ h e.
          let prefix = h <> "/" in
          if-rule E (str_eq h "")
            (λ empty.
              purge_objects-Ending t w due
                (unswept t.video (ap (hls_listing c) e ∙ hls_listing-empty h empty)))
            (λ given.
              if-rule E (p.has_prefix prefix "hls/")
                (λ inside.
                  if-rule E (delete_prefix p c.send c.list prefix w).1
                    (λ done. purge_objects-Ending t _ due (record {
                      kept = delete_prefix-Kept p c.send c.list prefix w;
                      asked =
                          delete_prefix-listed p c.send c.list prefix w done
                          ∙ ap (λ l. w.removed ++ l)
                              (sym (ap (hls_listing c) e ∙ hls_listing-some h given));
                    }))
                    (λ e. stuck t _ due (delete_prefix-Kept p c.send c.list prefix w)))
                (λ outside. idle)))

  cleanup_row-Ending :
      (text : String) (id : ℕ) (v : Video)
      → payload ≡ some text
      → p.parse_uuid text ≡ some id
      → get_video_by_id id w.videos ≡ row v
      → Ending p c payload w (cleanup_row p c id v w)
  unfolding cleanup_row
  cleanup_row-Ending text id v given parsed loaded =
      if-rule E (is_deleted v.status)
        (λ marked.
          Option-rule E v.deleted_at (λ e. idle)
            (λ at since.
              let t : Tombstone p payload w = record {
                text = text;
                id = id;
                video = v;
                at = at;
                given = given;
                parsed = parsed;
                loaded = loaded;
                marked = marked;
                since = since;
              } in
              if-rule E (ltb c.now (at + cleanup_grace)) (λ early. wait t early)
                (λ late. purge-Ending t (ground arith))))
        (λ e. idle)

  -- HandleCleanupVideo touches nothing unless the payload names a row with status DELETED whose
  -- deleted_at is known. Before 24 hours have passed since then it only puts itself off, by exactly
  -- the time that is left. After that, a run that asks for a retry leaves the videos and the queue
  -- as they are, and one that finishes has asked R2 for every key listed under the row's HLS prefix,
  -- then for its raw key and its thumbnail, and has deleted the row.
  pub handle_cleanup_video-Ending : Ending p c payload w (handle_cleanup_video p c payload w)
  unfolding handle_cleanup_video
  handle_cleanup_video-Ending =
      if-rule E c.has_queries
        (λ e.
          if-rule E c.has_r2
            (λ e.
              if-rule E c.has_asynq
                (λ e.
                  if-rule E c.has_logger
                    (λ e.
                      Option-rule E payload (λ e. idle)
                        (λ text given.
                          Option-rule E (p.parse_uuid text) (λ e. idle)
                            (λ id parsed.
                              if-rule E c.load_fails (λ e. idle)
                                (λ e.
                                  Reply-rule E (get_video_by_id id w.videos)
                                    (λ v loaded. cleanup_row-Ending text id v given parsed loaded)
                                    (λ e. idle) (λ e. idle)))))
                    (λ e. idle))
                (λ e. idle))
            (λ e. idle))
        (λ e. idle)
