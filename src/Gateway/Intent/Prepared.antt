-- ===== src/Gateway/Intent/Prepared.antt =====
-- The row behind an answer of UploadIntent (api-gateway/handlers/video.go).
use mokibox.Shared.{
  ℕ, ◌≡◌, refl, ap, sym, ◌∙◌, String, Bool, true, false, not, ◌&&◌, some, [], ◌∷◌, if◌then◌else◌,
  str_eq,
}
use mokibox.Shared.Platform.{Platform}
use mokibox.Store.Row.{Video, is_pending}
use mokibox.Store.Table.{find}
use mokibox.Store.Statements.{
  get_pending_video_by_user, insert_video, update_pending_video_r2_key,
  update_pending_video_metadata, sent,
}
use mokibox.Store.Replies.{
  sent-row, insert_video-row, update_pending_video_metadata-row, update_pending_video_r2_key-id,
}
use mokibox.Worker.World.{World, enqueue_cleanup_objects}
use mokibox.Worker.World.Swept.{videos-enqueue_cleanup_objects}
use mokibox.Worker.Transcode.Attempt.{others}
use mokibox.Worker.Transcode.Ends.{if-rule, Option-rule, Reply-rule}
use mokibox.Gateway.Errors.{Error}
use mokibox.Gateway.Upload.{Response, refuse, done}
use mokibox.Gateway.Intent.{
  Intending, Intent, upload_key, title_of, description_of, present, create, refresh, reuse,
  upload_intent,
}

-- The named row waits for its upload with the title and the description of the request. A new row
-- holds the key of the answer; for a reused one the key is the one of its id.
pub record Prepared (p : Platform) (i : Intending) (user : ℕ) (x : Intent) (w : World)
    : Type 0 where
  pub video : Video
  pub found : find x.video_id w.videos ≡ some video
  pub pending : is_pending video.status ≡ true
  pub title : video.title ≡ title_of p i
  pub description : video.description ≡ description_of p i
  pub key : x.r2_key ≡ (if x.created then video.r2_key else upload_key p user x.video_id)

-- The two kinds of answers.
pub data Preparation (p : Platform) (i : Intending) : World × Response Intent → Type 0 where
  rejected : (w : World) (e : Error) → Preparation p i (w, refuse e)
  prepared :
      (user : ℕ) (w : World) (x : Intent)
      → i.user ≡ some user
      → Prepared p i user x w
      → Preparation p i (w, done x)

module _ (p : Platform) (i : Intending) (user : ℕ) (known : i.user ≡ some user) where
  abbrev R : World × Response Intent → Type 0
  R = Preparation p i

  present-Preparation :
      (created : Bool) (id : ℕ) (key old_key : String) (w : World)
      → Prepared p i user (record { video_id = id; r2_key = key; created = created }) w
      → R (present p i created id key old_key w)
  unfolding present
  present-Preparation created id key old_key w h =
      let swept = (enqueue_cleanup_objects i.refused (old_key ∷ []) w).0 in
      if-rule R i.presign_fails (λ e. rejected w _)
        λ e.
          if-rule R (not created && (not (str_eq old_key "") && not (str_eq old_key key)))
            (λ k. prepared user swept _ known (record {
              video = h.video;
              found =
                  ap (find id) (videos-enqueue_cleanup_objects i.refused (old_key ∷ []) w)
                  ∙ h.found;
              pending = h.pending;
              title = h.title;
              description = h.description;
              key = h.key;
            }))
            (λ k. prepared user w _ known h)

  create-Preparation : (w : World) → R (create p i user w)
  unfolding create
  create-Preparation w₀ =
      let w = others i.meanwhile w₀ in
      let key = upload_key p user i.fresh_uuid in
      let q = insert_video i.row_id i.now user key (title_of p i) (description_of p i) w.videos in
      Reply-rule R (sent i.insert_fails w.videos q).1
        (λ x replied.
          let (given, kept) = sent-row i.insert_fails w.videos q x replied in
          let (same, found) =
            insert_video-row i.row_id i.now user key (title_of p i) (description_of p i) w.videos x
              given in
          present-Preparation true x.id key "" _ (record {
            video = x;
            found = ap (find x.id) kept ∙ found;
            pending = ap (λ (z : Video). is_pending z.status) same;
            title = ap (λ (z : Video). z.title) same;
            description = ap (λ (z : Video). z.description) same;
            key = sym (ap (λ (z : Video). z.r2_key) same);
          }))
        (λ e. rejected w _) (λ e. rejected w _)

  refresh-Preparation :
      (id shown : ℕ) (old_key : String) (w : World)
      → shown ≡ id
      → R (refresh p i id shown (upload_key p user id) old_key w)
  unfolding refresh
  refresh-Preparation id shown old_key w same =
      let q = update_pending_video_metadata id (title_of p i) (description_of p i) w.videos in
      Reply-rule R (sent i.metadata_fails w.videos q).1
        (λ x replied.
          let (given, kept) = sent-row i.metadata_fails w.videos q x replied in
          let (found, pending, title, description) =
            update_pending_video_metadata-row id (title_of p i) (description_of p i) w.videos x
              given in
          present-Preparation false shown (upload_key p user id) old_key _ (record {
            video = x;
            found =
                ap (λ (j : ℕ). find j (sent i.metadata_fails w.videos q).0) same
                ∙ (ap (find id) kept ∙ found);
            pending = pending;
            title = title;
            description = description;
            key = ap (upload_key p user) (sym same);
          }))
        (λ e. rejected w _) (λ e. rejected w _)

  reuse-Preparation : (existing : Video) (w : World) → R (reuse p i user existing w)
  unfolding reuse
  reuse-Preparation existing w₀ =
      let w = others i.meanwhile w₀ in
      let key = upload_key p user existing.id in
      let q = update_pending_video_r2_key existing.id key w.videos in
      if-rule R (str_eq existing.r2_key key)
        (λ e. refresh-Preparation existing.id existing.id existing.r2_key w refl)
        (λ e.
          Reply-rule R (sent i.rotate_fails w.videos q).1
            (λ x replied. refresh-Preparation existing.id x.id existing.r2_key _ (
              update_pending_video_r2_key-id existing.id key w.videos x
                (sent-row i.rotate_fails w.videos q x replied).0))
            (λ e. rejected w _) (λ e. rejected w _))

-- When UploadIntent succeeds, the row that it names is in PENDING_UPLOAD with the title and the
-- description of the request, trimmed; a row that it made holds the key of the answer, and for a row
-- that it reused the key is uploads/<user>/<row>/source.mp4; whatever others do to the videos table
-- between its statements.
pub upload_intent-Preparation :
    (p : Platform) (i : Intending) (w : World) → Preparation p i (upload_intent p i w)
unfolding upload_intent
upload_intent-Preparation p i w =
    let R = Preparation p i in
    Option-rule R i.user (λ e. rejected w _)
      λ user known.
        if-rule R i.binds
          (λ e.
            Option-rule R i.valid
              (λ e.
                if-rule R (str_eq (p.trim_space i.title) "") (λ e. rejected w _)
                  λ e.
                    if-rule R i.load_fails (λ e. rejected w _)
                      λ e.
                        Reply-rule R (get_pending_video_by_user user w.videos)
                          (λ existing k. reuse-Preparation p i user known existing w)
                          (λ e. create-Preparation p i user known w) (λ e. rejected w _))
              λ e k. rejected w e)
          (λ e. rejected w _)
