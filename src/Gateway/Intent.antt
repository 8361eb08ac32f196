-- ===== src/Gateway/Intent.antt =====
-- UploadIntent of api-gateway/handlers/video.go: it makes a row in PENDING_UPLOAD, or reuses the one
-- that the user has. It runs without a transaction, so that other connections may write the table
-- between its statements.
pub mod Prepared
use mokibox.Shared.{
  ℕ, String, Bool, true, false, not, ◌&&◌, Option, none, some, List, [], ◌∷◌, ◌++◌, if◌then◌else◌,
  str_eq,
}
use mokibox.Shared.Platform.{Platform, ◌<>◌}
use mokibox.Store.Row.{Video}
use mokibox.Store.Table.{Table, Reply, row, no_rows, fault}
use mokibox.Store.Statements.{
  get_pending_video_by_user, insert_video, update_pending_video_r2_key,
  update_pending_video_metadata, sent,
}
use mokibox.Store.Checks.{Statement}
use mokibox.Worker.World.{Task, World, enqueue_cleanup_objects}
use mokibox.Worker.Transcode.Attempt.{others}
use mokibox.Gateway.Errors.{
  Error, wrapped, new_api_error, err_unauthorized, err_validation, err_internal,
  err_video_status_conflict, code_validation_error,
}
use mokibox.Gateway.Upload.{Response, refuse, done}

-- A request: the user, the body's title and description, the uuid that uuid.New gives, the id and
-- the time that the database gives a new row, and which calls fail.
pub record Intending : Type 0 where
  pub user : Option ℕ
  pub binds : Bool
  pub valid : Option Error
  pub title : String
  pub description : Option String
  pub load_fails : Bool
  pub fresh_uuid : ℕ
  pub row_id : ℕ
  pub now : ℕ
  pub insert_fails : Bool
  pub rotate_fails : Bool
  pub metadata_fails : Bool
  pub presign_fails : Bool
  pub refused : Task → Bool
  pub meanwhile : List Statement
  pub between : List Statement

-- What the answer tells of the row.
pub record Intent : Type 0 where
  pub video_id : ℕ
  pub r2_key : String
  pub created : Bool

-- nullString
abbrev pub null_string : String → Option String
null_string s = if str_eq s "" then none else some s

module _ (p : Platform) where
  -- uploadKey
  abbrev pub upload_key : ℕ → ℕ → String
  upload_key user id =
      "uploads/" <> (p.uuid_string user <> ("/" <> (p.uuid_string id <> "/source.mp4")))

  module _ (i : Intending) where
    abbrev pub title_of : Option String
    title_of = null_string (p.trim_space i.title)

    abbrev pub description_of : Option String
    description_of = elim i.description [
      | none ↦ none
      | some text ↦ null_string (p.trim_space text)
    ]

    -- PresignPut, then the cleanup of a key that was rotated away. The old key is "" for a new row.
    unfoldable pub present : Bool → ℕ → String → String → World → World × Response Intent
    unfolding enqueue_cleanup_objects
    present created id key old_key w =
        let swept = (enqueue_cleanup_objects i.refused (old_key ∷ []) w).0 in
        let answer : Intent = record { video_id = id; r2_key = key; created = created } in
        if i.presign_fails
        then (w, refuse (wrapped err_internal))
        else if not created && (not (str_eq old_key "") && not (str_eq old_key key))
        then (swept, done answer)
        else (w, done answer)

    -- The branch without a pending row: InsertVideo.
    unfoldable pub create : ℕ → World → World × Response Intent
    unfolding present
    create user w₀ =
        let w = others i.meanwhile w₀ in
        let key = upload_key user i.fresh_uuid in
        let (t, reply) =
          sent i.insert_fails w.videos
            (insert_video i.row_id i.now user key title_of description_of w.videos) in
        elim reply [
          | row v ↦ present true v.id key "" (record w { videos = t })
          | no_rows ↦ (w, refuse (wrapped err_internal))
          | fault ↦ (w, refuse (wrapped err_internal))
        ]

    -- UpdatePendingVideoMetadata of the reused row.
    unfoldable pub refresh : ℕ → ℕ → String → String → World → World × Response Intent
    unfolding present
    refresh id shown key old_key w =
        let (t, reply) =
          sent i.metadata_fails w.videos
            (update_pending_video_metadata id title_of description_of w.videos) in
        elim reply [
          | row v ↦ present false shown key old_key (record w { videos = t })
          | no_rows ↦ (w, refuse (wrapped err_video_status_conflict))
          | fault ↦ (w, refuse (wrapped err_internal))
        ]

    -- The branch with a pending row: UpdatePendingVideoR2Key unless the key is right already.
    unfoldable pub reuse : ℕ → Video → World → World × Response Intent
    unfolding refresh
    reuse user existing w₀ =
        let w = others i.meanwhile w₀ in
        let key = upload_key user existing.id in
        if str_eq existing.r2_key key
        then refresh existing.id existing.id key existing.r2_key w
        else (let (t, reply) =
              sent i.rotate_fails w.videos (update_pending_video_r2_key existing.id key w.videos) in
            elim reply [
              | row v ↦
                  refresh existing.id v.id key existing.r2_key
                    (others i.between (record w { videos = t }))
              | no_rows ↦ (w, refuse (wrapped err_video_status_conflict))
              | fault ↦ (w, refuse (wrapped err_internal))
            ])

    -- UploadIntent
    unfoldable pub upload_intent : World → World × Response Intent
    unfolding create reuse
    upload_intent w = elim i.user [
      | none ↦ (w, refuse (wrapped err_unauthorized))
      | some user ↦
          if i.binds
          then elim i.valid [
            | some e ↦ (w, refuse e)
            | none ↦
                if str_eq (p.trim_space i.title) ""
                then (w, refuse (new_api_error code_validation_error))
                else if i.load_fails
                then (w, refuse (wrapped err_internal))
                else elim (get_pending_video_by_user user w.videos) [
                  | no_rows ↦ create user w
                  | fault ↦ (w, refuse (wrapped err_internal))
                  | row existing ↦ reuse user existing w
                ]
          ]
          else (w, refuse (wrapped err_validation))
    ]
