-- ===== src/Store/Statements.antt =====
-- The statements of shared/db/videos.sql.go, one definition each. `now` is the NOW() of the
-- transaction, and `new_id` the uuid that gen_random_uuid() gives an inserted row.
use mokibox.Shared.{
  ℕ, ◌+◌, ◌-◌, String, Bool, not, ◌&&◌, ◌||◌, Option, none, some, List, [], ◌∷◌, ltb, ◌==◌, any,
  keep_if, map, if◌then◌else◌, str_eq,
}
use mokibox.Store.Row.{
  Video, pending_upload, processing, ready, failed, deleted, is_pending, is_processing,
}
use mokibox.Store.Table.{Table, Reply, row, no_rows, fault, find, reply_of, update_one}

-- GetVideoByID and GetVideoByIDForUpdate.
unfoldable pub get_video_by_id : ℕ → Table → Reply Video
get_video_by_id id t = reply_of (find id t)

-- GetPendingVideoByUser
abbrev pub pending_of : ℕ → Video → Bool
pending_of user v = v.user_id == user && is_pending v.status

abbrev pub first : List Video → Reply Video
first [] = no_rows
first (v ∷ vs) = row v

unfoldable pub get_pending_video_by_user : ℕ → Table → Reply Video
get_pending_video_by_user user t = first (keep_if (pending_of user) t)

-- InsertVideo. The primary key, the UNIQUE r2_key and uq_videos_one_pending_upload_per_user can
-- refuse the row.
abbrev pub inserted_row : ℕ → ℕ → ℕ → String → Option String → Option String → Video
inserted_row new_id now user key title description = record {
  id = new_id;
  user_id = user;
  title = title;
  description = description;
  r2_key = key;
  hls_prefix = none;
  thumbnail_key = none;
  duration_seconds = none;
  status = pending_upload;
  retry_count = 0;
  likes_count = 0;
  views_count = 0;
  comments_count = 0;
  created_at = now;
  deleted_at = none;
}

abbrev pub collides : ℕ → ℕ → String → Video → Bool
collides new_id user key v = v.id == new_id || (str_eq v.r2_key key || pending_of user v)

unfoldable pub insert_video :
    ℕ → ℕ → ℕ → String → Option String → Option String → Table → Table × Reply Video
insert_video new_id now user key title description t =
    let v = inserted_row new_id now user key title description in
    if any (collides new_id user key) t then (t, fault) else (v ∷ t, row v)

-- UpdatePendingVideoR2Key, with the UNIQUE constraint on r2_key.
abbrev pub pending_row : Video → Bool
pending_row v = is_pending v.status

unfoldable pub update_pending_video_r2_key : ℕ → String → Table → Table × Reply Video
update_pending_video_r2_key id key t =
    if any (λ w. not (w.id == id) && str_eq w.r2_key key) t
      && any (λ w. w.id == id && pending_row w) t
    then (t, fault)
    else update_one id pending_row (λ v. record v { r2_key = key }) t

-- UpdatePendingVideoMetadata
unfoldable pub update_pending_video_metadata :
    ℕ → Option String → Option String → Table → Table × Reply Video
update_pending_video_metadata id title description =
    update_one id pending_row (λ v. record v { title = title; description = description })

-- ConfirmVideoProcessing
abbrev pub confirmable : ℕ → String → Video → Bool
confirmable user key v = v.user_id == user && (is_pending v.status && str_eq v.r2_key key)

abbrev pub to_processing : Video → Video
to_processing v = record v { status = processing; retry_count = 0 }

unfoldable pub confirm_video_processing : ℕ → ℕ → String → Table → Table × Reply Video
confirm_video_processing id user key = update_one id (confirmable user key) to_processing

-- UpdateVideoToProcessing
abbrev pub any_row : Video → Bool
any_row v = Bool.true

unfoldable pub update_video_to_processing : ℕ → Table → Table × Reply Video
update_video_to_processing id = update_one id any_row to_processing

-- MarkVideoDeleted
abbrev pub owned_by : ℕ → Video → Bool
owned_by user v = v.user_id == user

abbrev pub to_deleted : ℕ → Video → Video
to_deleted now v = record v { status = deleted; deleted_at = some now }

unfoldable pub mark_video_deleted : ℕ → ℕ → ℕ → Table → Table × Reply Video
mark_video_deleted now id user = update_one id (owned_by user) (to_deleted now)

-- MarkVideoFailed
abbrev pub to_failed : Video → Video
to_failed v = record v { status = failed }

unfoldable pub mark_video_failed : ℕ → Table → Table × Reply Video
mark_video_failed id = update_one id any_row to_failed

-- MarkVideoReady
abbrev pub processing_row : Video → Bool
processing_row v = is_processing v.status

abbrev pub to_ready : String → String → ℕ → Video → Video
to_ready prefix thumbnail seconds v = record v {
  status = ready;
  hls_prefix = some prefix;
  thumbnail_key = some thumbnail;
  duration_seconds = some seconds;
}

unfoldable pub mark_video_ready : ℕ → String → String → ℕ → Table → Table × Reply Video
mark_video_ready id prefix thumbnail seconds =
    update_one id processing_row (to_ready prefix thumbnail seconds)

-- IncrementVideoRetry
abbrev pub retriable : Video → Bool
retriable v = is_processing v.status || is_pending v.status

abbrev pub one_more_retry : Video → Video
one_more_retry v = record v { retry_count = v.retry_count + 1 }

unfoldable pub increment_video_retry : ℕ → Table → Table × Reply Video
increment_video_retry id = update_one id retriable one_more_retry

-- IncrementViews, IncrementLikesCount, DecrementLikesCount, IncrementCommentsCount,
-- DecrementCommentsCount and DecrementCommentsCountBy. As :exec statements they give no row back, so only `fault` of the
-- reply is an error to their callers.
unfoldable pub increment_views : ℕ → Table → Table × Reply Video
increment_views id = update_one id any_row (λ v. record v { views_count = v.views_count + 1 })

unfoldable pub increment_likes_count : ℕ → Table → Table × Reply Video
increment_likes_count id = update_one id any_row (λ v. record v { likes_count = v.likes_count + 1 })

abbrev pub is_liked : Video → Bool
is_liked v = ltb 0 v.likes_count

unfoldable pub decrement_likes_count : ℕ → Table → Table × Reply Video
decrement_likes_count id =
    update_one id is_liked (λ v. record v { likes_count = v.likes_count - 1 })

unfoldable pub increment_comments_count : ℕ → Table → Table × Reply Video
increment_comments_count id =
    update_one id any_row (λ v. record v { comments_count = v.comments_count + 1 })

abbrev pub is_commented : Video → Bool
is_commented v = ltb 0 v.comments_count

unfoldable pub decrement_comments_count : ℕ → Table → Table × Reply Video
decrement_comments_count id =
    update_one id is_commented (λ v. record v { comments_count = v.comments_count - 1 })

-- GREATEST(comments_count - $2, 0) is the subtraction that stops at 0.
unfoldable pub decrement_comments_count_by : ℕ → ℕ → Table → Table × Reply Video
decrement_comments_count_by id n =
    update_one id any_row (λ v. record v { comments_count = v.comments_count - n })

-- DeleteVideoRow
unfoldable pub delete_video_row : ℕ → Table → Table
delete_video_row id = keep_if (λ v. not (v.id == id))

-- DeleteVideosByUser
unfoldable pub delete_videos_by_user : ℕ → Table → Table
delete_videos_by_user user = keep_if (λ v. not (v.user_id == user))

-- The updates of DecrementLikesForUser and DecrementCommentsForUser, on the rows whose ids the
-- sub-select gives; GREATEST(n - 1, 0) breaks no CHECK of a row.
abbrev pub fewer_likes : (ℕ → Bool) → Video → Video
fewer_likes selected v = if selected v.id then record v { likes_count = v.likes_count - 1 } else v

unfoldable pub decrement_likes_in : (ℕ → Bool) → Table → Table
decrement_likes_in selected = map (fewer_likes selected)

abbrev pub fewer_comments : (ℕ → Bool) → Video → Video
fewer_comments selected v =
    if selected v.id then record v { comments_count = v.comments_count - 1 } else v

unfoldable pub decrement_comments_in : (ℕ → Bool) → Table → Table
decrement_comments_in selected = map (fewer_comments selected)

-- A statement that the connection may fail to deliver: then it answers with an error and
-- changes nothing.
abbrev pub sent : Bool → Table → Table × Reply Video → Table × Reply Video
sent lost t q = if lost then (t, fault) else q
