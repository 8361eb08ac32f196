-- ===== src/Worker/Transcode/Attempt.antt =====
-- What one run of HandleTranscode (transcoder-worker/transcode.go) is given, and how it may end.
-- The handler returns nil on every path, so that asynq never retries; which path it took is an
-- Outcome. An Attempt holds what everything outside answers during the run, and what other
-- connections do to the videos table meanwhile: each list of statements runs at one point between
-- two of the handler's own.
use mokibox.Shared.{ℕ, ◌*◌, String, Bool, Option, List, [], ◌∷◌}
use mokibox.Store.Table.{Table}
use mokibox.Store.Checks.{Statement, run}
use mokibox.Worker.Media.{FfprobeResult}
use mokibox.Worker.World.{Task, World}

-- One file that ffmpeg left in a variant's directory.
pub record DirEntry : Type 0 where
  pub name : String
  pub is_dir : Bool
  -- filepath.Rel fails for it.
  pub rel_fails : Bool

-- What making one variant gives: os.MkdirAll, ffmpeg and os.ReadDir.
pub record Encoded : Type 0 where
  pub mkdir_fails : Bool
  pub ffmpeg_fails : Bool
  pub entries : Option (List DirEntry)

-- ProbeFile: a parsed result, an error that wraps ErrInvalidMedia, or another error.
pub data Probe : Type 0 where
  probed : FfprobeResult → Probe
  invalid : Probe
  broken : Probe

pub record Attempt : Type 0 where
  pub has_queries : Bool
  pub has_r2 : Bool
  pub has_asynq : Bool
  -- json.Unmarshal of the payload: its video_id, unless it is malformed.
  pub payload : Option String
  pub load_fails : Bool
  pub increment_fails : Bool
  pub random_fails : Bool
  pub workdir_fails : Bool
  pub download_fails : Bool
  pub size : Option ℕ
  pub probe : Probe
  pub encode : String → Encoded
  pub thumb_fails : Bool
  pub write_master_fails : Bool
  pub upload_fails : String → Bool
  pub recheck_fails : Bool
  pub ready_fails : Bool
  pub failed_fails : Bool
  pub refused : Task → Bool
  -- Statements of others after the first read, during the work, before MarkVideoReady and before
  -- MarkVideoFailed.
  pub after_load : List Statement
  pub during : List Statement
  pub before_ready : List Statement
  pub before_failed : List Statement

abbrev pub max_retries : ℕ
max_retries = 3

abbrev pub second : ℕ
second = 1000000000

unfoldable pub retry_delay_for : ℕ → ℕ
retry_delay_for count = count * (30 * second)

abbrev pub transcode_variants : List String
transcode_variants = "480p" ∷ "720p" ∷ []

-- The path that a run took to its `return nil`.
pub data Outcome : Type 0 where
  -- an early return that leaves the row to others
  dropped : Outcome
  -- marked FAILED: the budget is exhausted, or the media is invalid
  gave_up : Outcome
  requeued : Outcome
  -- the retry could not be enqueued
  stranded : Outcome
  -- the row left PROCESSING during the run
  superseded : Outcome
  published : Outcome

-- A stage ends the run, or goes on with a value.
pub data Step (A : Type 0) : Type 0 where
  stop : World × Outcome → Step A
  next : World → A → Step A

-- The rest of a run after a stage.
abbrev pub after : {A : Type 0} → Step A → (World → A → World × Outcome) → World × Outcome
after (stop r) f = r
after (next w a) f = f w a

abbrev pub run_all : List Statement → Table → Table
run_all [] t = t
run_all (s ∷ ss) t = run_all ss (run s t)

abbrev pub others : List Statement → World → World
others ss w = record w { videos = run_all ss w.videos }
