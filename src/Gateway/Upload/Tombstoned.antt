-- ===== src/Gateway/Upload/Tombstoned.antt =====
-- What DeleteVideo (api-gateway/handlers/video.go) answers and leaves.
use mokibox.Shared.{
  false, if◌then◌else◌, ℕ, ◌≡◌, ◌⊎◌, inl, inr, refl, ap, sym, ◌∙◌, true, false≢true, some, [], ◌∷◌,
  ◌++◌, ◌==◌,
}
use mathlib.Core.Option.{some-injective}
use mokibox.Shared.Platform.{Platform}
use mokibox.Store.Row.{Video, is_deleted}
use mokibox.Store.Table.{Table, find, find-update_one}
use mokibox.Store.Statements.{get_video_by_id, mark_video_deleted, owned_by, to_deleted, sent}
use mokibox.Store.Replies.{
  sent-no_rows, sent-row, get_video_by_id-row, mark_video_deleted-row, mark_video_deleted-no_rows,
}
use mokibox.Worker.World.{cleanup_video, World}
use mokibox.Worker.World.Swept.{queue-enqueue_if, videos-enqueue}
use mokibox.Worker.Transcode.Attempt.{others, run_all}
use mokibox.Worker.Transcode.Ends.{if-rule, Option-rule, Reply-rule}
use mokibox.Gateway.Errors.{Error}
use mokibox.Gateway.Upload.{
  Response, refuse, done, Deleting, cleanup_delay, tombstone_video, delete_owned, delete_video,
}

-- The user has no row of that id that is not DELETED.
abbrev pub Gone : ℕ → ℕ → Table → Type 0
Gone user id t =
    (v : Video) → find id t ≡ some v → (v.user_id == user) ≡ true → is_deleted v.status ≡ true

-- The row as it is after a delete by this handler, and the task that follows it.
pub record Tombstoned (p : Platform) (d : Deleting) (id : ℕ) (w w' : World) : Type 0 where
  pub before : Video
  pub loaded : find id (run_all d.meanwhile w.videos) ≡ some before
  pub written : find id w'.videos ≡ some (to_deleted d.now before)
  pub alone : (j : ℕ) → (id == j) ≡ false → find j w'.videos ≡ find j (run_all d.meanwhile w.videos)
  pub queued :
      w'.queue
      ≡ w.queue
        ++ (if d.refused (cleanup_video (p.uuid_string before.id))
            then []
            else record { task = cleanup_video (p.uuid_string before.id); delay = cleanup_delay }
              ∷ [])

-- The request itself has not written the table: at most the statements of others have run.
abbrev pub Untouched : Deleting → World → World → Type 0
Untouched d w w' = (w'.videos ≡ w.videos) ⊎ (w'.videos ≡ run_all d.meanwhile w.videos)

-- The ways a request can end.
pub data Deletion (p : Platform) (d : Deleting) (w : World) : World × Response Unit → Type 0 where
  rejected :
      (w' : World) (e : Error)
      → w'.queue ≡ w.queue
      → Untouched d w w'
      → Deletion p d w (w', refuse e)
  gone :
      (user id : ℕ) (w' : World)
      → d.user ≡ some user
      → p.parse_uuid d.id_param ≡ some id
      → Gone user id w'.videos
      → w'.queue ≡ w.queue
      → Untouched d w w'
      → Deletion p d w (w', done tt)
  tombstoned :
      (user id : ℕ) (w' : World)
      → d.user ≡ some user
      → p.parse_uuid d.id_param ≡ some id
      → Tombstoned p d id w w'
      → Deletion p d w (w', done tt)

mark_video_deleted-alone :
    (now id user j : ℕ) (t : Table)
    → (id == j) ≡ false
    → find j (mark_video_deleted now id user t).0 ≡ find j t
unfolding mark_video_deleted
mark_video_deleted-alone now id user j t other =
    find-update_one id (owned_by user) (to_deleted now) (λ v. refl) j t ∙ rw other refl

module _ (p : Platform) (d : Deleting) (w : World) (user id : ℕ) where
  abbrev R : World × Response Unit → Type 0
  R = Deletion p d w

  tombstone_video-Deletion :
      d.user ≡ some user
      → p.parse_uuid d.id_param ≡ some id
      → R (tombstone_video p d user id (others d.meanwhile w))
  unfolding tombstone_video
  tombstone_video-Deletion known parsed =
      let t = run_all d.meanwhile w.videos in
      let q = mark_video_deleted d.now id user t in
      let s = sent d.mark_fails t q in
      Reply-rule R s.1
        (λ x replied.
          let (given, kept) = sent-row d.mark_fails t q x replied in
          let (v, found, same, now) = mark_video_deleted-row d.now id user t x given in
          let task = cleanup_video (p.uuid_string x.id) in
          let w₁ = record (others d.meanwhile w) { videos = s.0 } in
          tombstoned user id _ known parsed (record {
            before = v;
            loaded = found;
            written =
                ap (find id) (videos-enqueue d.refused task cleanup_delay w₁ ∙ kept)
                ∙ (now ∙ ap some same);
            alone = λ j other.
                ap (find j) (videos-enqueue d.refused task cleanup_delay w₁ ∙ kept)
                ∙ mark_video_deleted-alone d.now id user j t other;
            queued =
                queue-enqueue_if d.refused task cleanup_delay w₁
                ∙ ap
                    (λ (z : Video).
                      w.queue
                      ++ (if d.refused (cleanup_video (p.uuid_string z.id))
                          then []
                          else record {
                            task = cleanup_video (p.uuid_string z.id);
                            delay = cleanup_delay;
                          }
                            ∷ []))
                    same;
          }))
        (λ lost.
          gone user id _ known parsed
            (λ v found owned. absurd (
              false≢true (
                sym (
                  mark_video_deleted-no_rows d.now id user t v (sent-no_rows d.mark_fails t q lost)
                    found)
                ∙ owned)))
            refl (inr refl))
        (λ e. rejected _ _ refl (inr refl))

  delete_owned-Deletion :
      d.user ≡ some user → p.parse_uuid d.id_param ≡ some id → R (delete_owned p d user id w)
  unfolding delete_owned
  delete_owned-Deletion known parsed =
      if-rule R d.load_fails (λ e. rejected w _ refl (inl refl))
        λ e.
          Reply-rule R (get_video_by_id id w.videos)
            (λ v loaded.
              if-rule R (v.user_id == user)
                (λ owned.
                  if-rule R (is_deleted v.status)
                    (λ marked.
                      gone user id w known parsed
                        (λ u found mine.
                          ap (λ (z : Video). is_deleted z.status)
                            (some-injective u v
                              (sym found ∙ get_video_by_id-row id w.videos v loaded))
                          ∙ marked)
                        refl (inl refl))
                    (λ alive. tombstone_video-Deletion known parsed))
                (λ e. rejected w _ refl (inl refl)))
            (λ e. rejected w _ refl (inl refl)) (λ e. rejected w _ refl (inl refl))

-- A DeleteVideo that answers an error has itself written nothing and enqueued nothing. One that
-- answers 204 either leaves the table and the queue as they are because the caller has no row of
-- that id that is not DELETED, or has marked that row, and no other, DELETED at the current time
-- and, if Redis takes it, enqueued its cleanup:video task with a delay of 24 hours; whatever
-- others do to the table between the load and the update.
pub delete_video-Deletion :
    (p : Platform) (d : Deleting) (w : World) → Deletion p d w (delete_video p d w)
unfolding delete_video
delete_video-Deletion p d w =
    let R = Deletion p d w in
    if-rule R d.configured
      (λ e.
        Option-rule R d.user (λ e. rejected w _ refl (inl refl))
          λ user known.
            Option-rule R (p.parse_uuid d.id_param) (λ e. rejected w _ refl (inl refl))
              λ id parsed. delete_owned-Deletion p d w user id known parsed)
      (λ e. rejected w _ refl (inl refl))
