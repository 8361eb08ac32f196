-- ===== src/Worker/Cleanup.antt =====
-- transcoder-worker/cleanup.go: HandleCleanupObjects and HandleCleanupVideo. What R2 answers to a
-- request is an argument; a request that fails may have deleted some keys, so it counts as made.
pub mod Purge
use mokibox.Shared.{
  ℕ, ◌+◌, ◌-◌, ◌*◌, String, Bool, true, false, Option, none, some, List, [], ◌∷◌, ◌++◌, ltb,
  if◌then◌else◌, str_eq,
}
use mokibox.Shared.Platform.{Platform, ◌<>◌}
use mokibox.Store.Row.{Video, is_deleted}
use mokibox.Store.Table.{Reply, row, no_rows, fault}
use mokibox.Store.Statements.{get_video_by_id, delete_video_row}
use mokibox.Worker.Objects.{Client, Page, delete_objects, delete_prefix}
use mokibox.Worker.World.{Task, cleanup_video, World, enqueue}

-- How a handler ended: with an error that asynq retries, or with nil after doing nothing, after
-- putting the task off, or after the work.
pub data CleanupEnd : Type 0 where
  retry skipped postponed lost finished : CleanupEnd

pub record Cleanup : Type 0 where
  pub has_queries : Bool
  pub has_r2 : Bool
  pub has_asynq : Bool
  pub has_logger : Bool
  pub load_fails : Bool
  pub send : Client
  pub list : String → List Page
  pub delete_row_fails : Bool
  pub refused : Task → Bool
  pub now : ℕ

-- cleanupGrace, in nanoseconds.
abbrev pub cleanup_grace : ℕ
cleanup_grace = 24 * (3600 * 1000000000)

-- HandleCleanupObjects; the argument is the payload's keys, unless it is malformed.
unfoldable pub handle_cleanup_objects : Cleanup → Option (List String) → World → World × CleanupEnd
unfolding delete_objects
handle_cleanup_objects c none w = (w, skipped)
handle_cleanup_objects c (some []) w = (w, skipped)
handle_cleanup_objects c (some (k ∷ ks)) w =
    if c.has_r2
    then (if c.has_logger
        then (let (w', done) = delete_objects c.send (k ∷ ks) w in
            (w', if done then finished else retry))
        else (w, skipped))
    else (w, skipped)

module _ (p : Platform) (c : Cleanup) where
  -- The raw key and the thumbnail, DeleteVideoRow.
  abbrev pub keys_of : Video → List String
  keys_of v = elim v.thumbnail_key [
    | none ↦ v.r2_key ∷ []
    | some t ↦ if str_eq t "" then v.r2_key ∷ [] else v.r2_key ∷ t ∷ []
  ]

  unfoldable pub purge_objects : ℕ → Video → World → World × CleanupEnd
  unfolding delete_objects
  purge_objects id v w =
      let (w', done) = delete_objects c.send (keys_of v) w in
      if done
      then (if c.delete_row_fails
          then (w', retry)
          else (record w' { videos = delete_video_row id w'.videos }, finished))
      else (w', retry)

  -- Past the grace period: the HLS prefix first, if the row has one.
  unfoldable pub purge : ℕ → Video → World → World × CleanupEnd
  unfolding purge_objects delete_prefix
  purge id v w = elim v.hls_prefix [
    | none ↦ purge_objects id v w
    | some h ↦
        let prefix = h <> "/" in
        let (w', done) = delete_prefix p c.send c.list prefix w in
        if str_eq h ""
        then purge_objects id v w
        else if p.has_prefix prefix "hls/"
        then (if done then purge_objects id v w' else (w', retry))
        else (w, skipped)
  ]

  -- elapsed < cleanupGrace, with elapsed = now - deleted_at, is now < deleted_at + cleanupGrace; then
  -- remaining is deleted_at + cleanupGrace - now.
  unfoldable pub cleanup_row : ℕ → Video → World → World × CleanupEnd
  unfolding purge enqueue
  cleanup_row id v w =
      if is_deleted v.status
      then elim v.deleted_at [
        | none ↦ (w, skipped)
        | some at ↦
            if ltb c.now (at + cleanup_grace)
            then (let (w', done) =
                  enqueue c.refused (cleanup_video (p.uuid_string id)) (at + cleanup_grace - c.now)
                    w in
                (w', if done then postponed else lost))
            else purge id v w
      ]
      else (w, skipped)

  -- HandleCleanupVideo; the argument is the payload's video_id, unless it is malformed.
  unfoldable pub handle_cleanup_video : Option String → World → World × CleanupEnd
  unfolding cleanup_row
  handle_cleanup_video payload w =
      if c.has_queries
      then (if c.has_r2
          then (if c.has_asynq
              then (if c.has_logger
                  then elim payload [
                    | none ↦ (w, skipped)
                    | some text ↦ elim (p.parse_uuid text) [
                      | none ↦ (w, skipped)
                      | some id ↦
                          if c.load_fails
                          then (w, skipped)
                          else elim (get_video_by_id id w.videos) [
                            | row v ↦ cleanup_row id v w
                            | no_rows ↦ (w, skipped)
                            | fault ↦ (w, skipped)
                          ]
                    ]
                  ]
                  else (w, skipped))
              else (w, skipped))
          else (w, skipped))
      else (w, skipped)
