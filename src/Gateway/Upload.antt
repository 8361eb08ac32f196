-- ===== src/Gateway/Upload.antt =====
-- The upload handlers of api-gateway/handlers/video.go: UploadIntent, ConfirmUpload and DeleteVideo,
-- with the transaction runner of tx.go. What the request, the database's connection, R2 and Redis
-- answer is a record per handler. ConfirmUpload locks its row (FOR UPDATE), so no other statement
-- on it runs inside the transaction.
pub mod Confirmed
pub mod Tombstoned
pub mod Accepts
use mokibox.Shared.{
  ℕ, ◌*◌, String, Bool, true, false, not, ◌&&◌, ◌||◌, Option, none, some, List, [], ◌∷◌, ltb, ◌==◌,
  if◌then◌else◌, str_eq,
}
use mokibox.Shared.Platform.{Platform, ◌<>◌}
use mokibox.Store.Row.{Video, is_pending, is_deleted}
use mokibox.Store.Table.{Table, Reply, row, no_rows, fault}
use mokibox.Store.Statements.{
  get_video_by_id, get_pending_video_by_user, insert_video, update_pending_video_r2_key,
  update_pending_video_metadata, confirm_video_processing, mark_video_deleted, sent,
}
use mokibox.Store.Checks.{Statement}
use mokibox.Worker.World.{
  Task, transcode_video, cleanup_video, World, enqueue, enqueue_cleanup_objects,
}
use mokibox.Worker.Transcode.Attempt.{others}
use mokibox.Gateway.Errors.{
  Error, wrapped, new_api_error, err_unauthorized, err_validation, err_internal, err_not_found,
  err_video_status_conflict, err_upload_missing, code_validation_error, code_upload_size_invalid,
}

-- What a handler answers: an error, or a success with its data.
pub data Response (A : Type 0) : Type 0 where
  refuse : Error → Response A
  done : A → Response A

-- Run of tx.go: the rows are rolled back unless the body and the commit succeed. What the body put
-- on the queue stays there.
abbrev pub run_tx :
    {A : Type 0} → Bool → Bool → (World → World × Response A) → World → World × Response A
run_tx begin_fails commit_fails body w =
    if begin_fails
    then (w, refuse (wrapped err_internal))
    else (let (w', r) = body w in
        elim r [
          | refuse e ↦ (record w' { videos = w.videos }, refuse e)
          | done a ↦
              if commit_fails
              then (record w' { videos = w.videos }, refuse (wrapped err_internal))
              else (w', done a)
        ])

-- R2Client.HeadObject: a size, a missing object (ErrNotFound), or another error.
pub data Head : Type 0 where
  size : ℕ → Head
  missing : Head
  unreachable : Head

-- A request to ConfirmUpload: the authenticated user, whether the body binds and passes the
-- validator, its fields, and what happens underneath.
pub record Confirming : Type 0 where
  pub user : Option ℕ
  pub binds : Bool
  pub valid : Option Error
  pub video_id : String
  pub r2_key : String
  pub begin_fails : Bool
  pub load_fails : Bool
  pub head : String → Head
  pub confirm_fails : Bool
  pub commit_fails : Bool
  pub refused : Task → Bool

abbrev pub min_object_bytes : ℕ
min_object_bytes = 1024

abbrev pub max_object_bytes : ℕ
max_object_bytes = 200 * 1024 * 1024

module _ (p : Platform) (c : Confirming) where
  -- ConfirmVideoProcessing, then EnqueueTranscode.
  unfoldable pub flip_and_enqueue : Video → World → World × Response Video
  unfolding enqueue
  flip_and_enqueue v w =
      let (t, reply) =
        sent c.confirm_fails w.videos (confirm_video_processing v.id v.user_id v.r2_key w.videos) in
      elim reply [
        | no_rows ↦ (w, refuse (wrapped err_video_status_conflict))
        | fault ↦ (w, refuse (wrapped err_internal))
        | row confirmed ↦
            let (w', taken) =
              enqueue c.refused (transcode_video (p.uuid_string confirmed.id)) 0
                (record w { videos = t }) in
            (w', if taken then done confirmed else refuse (wrapped err_internal))
      ]

  -- HeadObject and the size check.
  unfoldable pub check_object : Video → World → World × Response Video
  unfolding flip_and_enqueue enqueue_cleanup_objects
  check_object v w = elim (c.head v.r2_key) [
    | missing ↦ (w, refuse (wrapped err_upload_missing))
    | unreachable ↦ (w, refuse (wrapped err_internal))
    | size n ↦
        if ltb n min_object_bytes || ltb max_object_bytes n
        then (
          (enqueue_cleanup_objects c.refused (v.r2_key ∷ []) w).0,
          refuse (new_api_error code_upload_size_invalid),
        )
        else flip_and_enqueue v w
  ]

  -- The body of the transaction.
  unfoldable pub confirm_body : ℕ → ℕ → World → World × Response Video
  unfolding check_object
  confirm_body user id w =
      if c.load_fails
      then (w, refuse (wrapped err_internal))
      else elim (get_video_by_id id w.videos) [
        | no_rows ↦ (w, refuse (wrapped err_not_found))
        | fault ↦ (w, refuse (wrapped err_internal))
        | row v ↦
            if v.user_id == user
            then (if is_pending v.status
                then (if str_eq v.r2_key (p.trim_space c.r2_key)
                    then check_object v w
                    else (w, refuse (new_api_error code_validation_error)))
                else (w, refuse (wrapped err_video_status_conflict)))
            else (w, refuse (wrapped err_not_found))
      ]

  -- ConfirmUpload; the data of a success is the confirmed row.
  unfoldable pub confirm_upload : World → World × Response Video
  unfolding confirm_body
  confirm_upload w = elim c.user [
    | none ↦ (w, refuse (wrapped err_unauthorized))
    | some user ↦
        if c.binds
        then elim c.valid [
          | some e ↦ (w, refuse e)
          | none ↦ elim (p.parse_uuid c.video_id) [
            | none ↦ (w, refuse (new_api_error code_validation_error))
            | some id ↦ run_tx c.begin_fails c.commit_fails (confirm_body user id) w
          ]
        ]
        else (w, refuse (wrapped err_validation))
  ]

-- A request to DeleteVideo. Other connections may write the table between the load and the update.
pub record Deleting : Type 0 where
  pub configured : Bool
  pub user : Option ℕ
  pub id_param : String
  pub load_fails : Bool
  pub meanwhile : List Statement
  pub mark_fails : Bool
  pub now : ℕ
  pub refused : Task → Bool

-- cleanupDelay
abbrev pub cleanup_delay : ℕ
cleanup_delay = 24 * (3600 * 1000000000)

module _ (p : Platform) (d : Deleting) where
  -- MarkVideoDeleted and EnqueueCleanupVideo, whose error is only logged.
  unfoldable pub tombstone_video : ℕ → ℕ → World → World × Response Unit
  unfolding enqueue
  tombstone_video user id w =
      let (t, reply) = sent d.mark_fails w.videos (mark_video_deleted d.now id user w.videos) in
      elim reply [
        | no_rows ↦ (w, done tt)
        | fault ↦ (w, refuse (wrapped err_internal))
        | row updated ↦ (
          (enqueue d.refused (cleanup_video (p.uuid_string updated.id)) cleanup_delay
              (record w { videos = t })).0,
          done tt,
        )
      ]

  -- DeleteVideo for the parsed user and id.
  unfoldable pub delete_owned : ℕ → ℕ → World → World × Response Unit
  unfolding tombstone_video
  delete_owned user id w =
      if d.load_fails
      then (w, refuse (wrapped err_internal))
      else elim (get_video_by_id id w.videos) [
        | no_rows ↦ (w, refuse (wrapped err_not_found))
        | fault ↦ (w, refuse (wrapped err_internal))
        | row v ↦
            if v.user_id == user
            then (if is_deleted v.status
                then (w, done tt)
                else tombstone_video user id (others d.meanwhile w))
            else (w, refuse (wrapped err_not_found))
      ]

  -- DeleteVideo, with parseAuthVideoParam of social.go.
  unfoldable pub delete_video : World → World × Response Unit
  unfolding delete_owned
  delete_video w =
      if d.configured
      then elim d.user [
        | none ↦ (w, refuse (wrapped err_unauthorized))
        | some user ↦ elim (p.parse_uuid d.id_param) [
          | none ↦ (w, refuse (wrapped err_validation))
          | some id ↦ delete_owned user id w
        ]
      ]
      else (w, refuse (wrapped err_internal))
