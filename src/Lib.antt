-- ===== src/Lib.antt =====
-- MokiBox, a short-video backend in Go: an HTTP gateway (api-gateway/), a worker that transcodes and
-- cleans up (transcoder-worker/), and the code that they share (shared/).
--
-- The gateway writes rows of the videos table and enqueues tasks; asynq, a task queue on Redis, hands
-- the tasks to the worker; the worker reads and writes the same rows, and the objects of an R2 bucket.
-- A video goes PENDING_UPLOAD -> PROCESSING -> READY or FAILED, and may become DELETED from any of
-- these.
--
-- The parts:
--
--   Shared            names of the library, Boolean tests, lists, and what Go's library answers
--   Store             the videos table (migrations/001_init.sql) and the statements on it
--                     (shared/db/videos.sql.go): Row, Table, Statements; Checks and Life are about
--                     its constraints and the life of a status
--   Worker/Media      ValidateMedia of transcoder-worker/ffprobe.go
--   Worker/World      what the worker changes: the table, the queue, the bucket's requests
--                     (shared/redis.go, shared/models.go)
--   Worker/Transcode  HandleTranscode of transcoder-worker/transcode.go, stage by stage: Fetch,
--                     Publish, Retry, Handler, with the answers of the outside world in Attempt
--   Worker/Objects    DeleteObjects, DeletePrefix, ListObjectsByPrefix of shared/r2.go
--   Worker/Cleanup    HandleCleanupObjects, HandleCleanupVideo of transcoder-worker/cleanup.go
--   Worker/Reconcile  HandleReconcileTick of transcoder-worker/reconcile.go
--
--   Gateway/Errors    the codes of shared/errors.go, ClassifyError of shared/response.go
--   Gateway/Intent    UploadIntent of api-gateway/handlers/video.go
--   Gateway/Upload    ConfirmUpload and DeleteVideo of api-gateway/handlers/video.go, the transactions
--                     of tx.go
--   Gateway/Visibility  assertVideoOwnerOrVisible of api-gateway/handlers/visibility.go
--   Gateway/Likes     LikeVideo and UnlikeVideo of api-gateway/handlers/social.go, the likes table
--                     (shared/db/likes.sql.go)
--   Gateway/Comments  CreateComment, ReplyComment and DeleteComment of the same file, the comments table
--                     (shared/db/comments.sql.go): Subtree is about its recursive query
--   Gateway/Views     TrackView of api-gateway/handlers/social.go
--   Gateway/Tokens    the media tokens of shared/mediatoken.go, the cursors of shared/cursor.go
--   Gateway/Playlist  GetPlaylist of api-gateway/handlers/video_detail.go, the rewriting of playlists
--   Gateway/Follows   the handlers of api-gateway/handlers/user_follow.go, the follows table
--                     (shared/db/follows.sql.go)
--   Gateway/RateLimit the stores and middlewares of api-gateway/middleware/ratelimit.go
--   Gateway/Account   the deletion of a user's data, api-gateway/handlers/account.go: Erased, Counters and
--                     Drift are about what it leaves
--   Gateway/Webhook   Handle of api-gateway/handlers/webhook.go, the events of the identity provider
--   Gateway/Auth      Authenticate, AuthenticateOptional and getOrCreateUser of
--                     api-gateway/middleware/auth.go
--   Gateway/Detail    GetVideoDetail and GetVideoStatus of api-gateway/handlers/video_detail.go
--
-- A handler is a function from the world before to the world after and the way it ended. PostgreSQL,
-- Redis, R2, ffmpeg, ffprobe and the file system are arguments: records of answers (Attempt, Cleanup,
-- Sweep), so that every failure is a branch. Other connections are lists of statements that run
-- between two steps of a handler. The one fuel is that of the recursive query of CountCommentSubtree,
-- with as many rounds as there are rows; every other loop of these parts runs over a list. A uuid
-- is a number, a time a number of nanoseconds, a counter a number that the row's checks keep within an
-- INTEGER.
--
-- Not modelled: the contents of files, deadlines and contexts, logging, configuration,
-- start-up, and the texts of SQL beyond what the statements select and set. The feed, the
-- search, the profiles, and the lists of comments and notifications are
-- left out as well.
pub mod Gateway
pub mod Shared
pub mod Store
pub mod Worker
