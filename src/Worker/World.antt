-- ===== src/Worker/World.antt =====
-- What the worker's handlers change: the videos table, the queue of github.com/hibiken/asynq and
-- the R2 bucket. asynq, R2, the file system, ffprobe and ffmpeg are not part of the repository:
-- what they answer is an argument (Worker/Transcode, Worker/Cleanup), and here stand the requests
-- that reached them. The tasks are those of shared/models.go, and `enqueue` is client.Enqueue as
-- the helpers of shared/redis.go call it.
pub mod Swept
use mokibox.Shared.{ℕ, String, Bool, true, false, List, [], ◌∷◌, ◌++◌, if◌then◌else◌}
use mokibox.Store.Table.{Table}

pub data Task : Type 0 where
  transcode_video : String → Task
  cleanup_objects : List String → Task
  cleanup_video : String → Task

-- A task that was enqueued, with its ProcessIn delay in nanoseconds.
pub record Entry : Type 0 where
  pub task : Task
  pub delay : ℕ

pub record World : Type 0 where
  pub videos : Table
  pub queue : List Entry
  -- The keys that were uploaded, in order.
  pub stored : List String
  -- The keys that R2 was asked to delete, in order.
  pub removed : List String

-- client.Enqueue(task, asynq.ProcessIn(delay)). `refused` says which tasks Redis fails to take.
unfoldable pub enqueue : (Task → Bool) → Task → ℕ → World → World × Bool
enqueue refused task delay w =
    if refused task
    then (w, false)
    else (record w { queue = w.queue ++ record { task = task; delay = delay } ∷ [] }, true)

-- EnqueueCleanupObjects. No keys are no task and no error.
unfoldable pub enqueue_cleanup_objects : (Task → Bool) → List String → World → World × Bool
unfolding enqueue
enqueue_cleanup_objects refused [] w = (w, true)
enqueue_cleanup_objects refused (k ∷ ks) w = enqueue refused (cleanup_objects (k ∷ ks)) 0 w

-- The keys that a queue asks to delete.
abbrev pub cleanup_keys : List Entry → List String
cleanup_keys [] = []
cleanup_keys (e ∷ es) = elim e.task [
  | cleanup_objects ks ↦ ks ++ cleanup_keys es
  | transcode_video v ↦ cleanup_keys es
  | cleanup_video v ↦ cleanup_keys es
]
