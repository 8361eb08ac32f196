-- ===== src/Store/Row.antt =====
-- A row of the videos table (shared/db/models.go, Video) and the CHECK constraints that
-- migrations/001_init.sql puts on each row.
use mokibox.Shared.{ℕ, String, Bool, true, false, ◌&&◌, Option, none, some, leb, is_some}

-- chk_videos_status allows these five words.
pub data Status : Type 0 where
  pending_upload processing ready failed deleted : Status

abbrev pub is_pending : Status → Bool
is_pending pending_upload = true
is_pending _ = false

abbrev pub is_processing : Status → Bool
is_processing processing = true
is_processing _ = false

abbrev pub is_ready : Status → Bool
is_ready ready = true
is_ready _ = false

abbrev pub is_deleted : Status → Bool
is_deleted deleted = true
is_deleted _ = false

pub record Video : Type 0 where
  pub id : ℕ
  pub user_id : ℕ
  pub title : Option String
  pub description : Option String
  pub r2_key : String
  pub hls_prefix : Option String
  pub thumbnail_key : Option String
  pub duration_seconds : Option ℕ
  pub status : Status
  pub retry_count : ℕ
  pub likes_count : ℕ
  pub views_count : ℕ
  pub comments_count : ℕ
  pub created_at : ℕ
  pub deleted_at : Option ℕ

-- The largest value of a column of type INTEGER.
abbrev pub max_int4 : ℕ
max_int4 = 2147483647

-- chk_videos_duration
abbrev pub check_duration : Option ℕ → Bool
check_duration none = true
check_duration (some n) = leb 1 n && leb n 180

-- chk_videos_deleted_at
abbrev pub check_deleted_at : Status → Option ℕ → Bool
check_deleted_at deleted at = is_some at
check_deleted_at _ none = true
check_deleted_at _ (some t) = false

-- chk_videos_retry, chk_videos_counters and the range of INTEGER, chk_videos_duration,
-- chk_videos_deleted_at. A row that fails them makes its statement fail.
unfoldable pub row_checks : Video → Bool
row_checks v =
    leb v.retry_count 3
    && (leb v.likes_count max_int4 && (leb v.views_count max_int4 && leb v.comments_count max_int4))
    && (check_duration v.duration_seconds && check_deleted_at v.status v.deleted_at)
