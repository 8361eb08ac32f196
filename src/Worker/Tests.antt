-- ===== src/Worker/Tests.antt =====
-- A platform and runs of the worker for the tests, and what its properties say of them.
use mokibox.Shared.{
  ap, sym, ◌∙◌, ℕ, ◌-◌, ◌≤◌, ◌≡◌, Bool, String, true, false, none, some, List, [], ◌∷◌, ◌++◌, refl,
  ◌==◌, if◌then◌else◌, str_eq, ◌↔◌,
}
use mathlib.Core.Option.{some-injective}
use mokibox.Shared.Platform.{Platform, pos, micros}
use mokibox.Store.Row.{Video, pending_upload, is_processing, row_checks, processing, deleted}
use mokibox.Store.Table.{find, update_one}
use mokibox.Store.Statements.{get_video_by_id, increment_video_retry, mark_video_ready}
use mokibox.Store.Tests.{sample, two_rows}
use mokibox.Worker.Media.{
  FfprobeResult, validate_media, count_video, check_video, check_bit_rate, check_audio,
  check_duration,
}
use mokibox.Worker.Media.Accepts.{Passes, validate_media_iff}
use mokibox.Worker.Objects.{delete_prefix, prefix_allowed, Page}
use mokibox.Worker.Objects.Deletes.{delete_prefix-removed, listed}
use mokibox.Worker.World.{cleanup_keys, World}
use mokibox.Worker.Cleanup.{Cleanup, handle_cleanup_video}
use mokibox.Worker.Cleanup.Purge.{Ending, handle_cleanup_video-Ending}
use mokibox.Worker.Reconcile.{Sweep, handle_reconcile_tick}
use mokibox.Worker.Reconcile.Complete.{orphans, handle_reconcile_tick-keys}
use mokibox.Worker.Transcode.Attempt.{Attempt, dropped, probed, published, requeued}
use mokibox.Worker.Transcode.Handler.{handle_transcode}
use mokibox.Worker.Transcode.Orphans.{handle_transcode-Accounted}
use mokibox.Worker.Transcode.Orphans.Uploads.{Accounted}
use mokibox.Worker.Transcode.Ready.{Backed, handle_transcode-Shows}
use mokibox.Worker.Transcode.Budget.{TriedAgain, handle_transcode-TriedAgain}
use mokibox.Worker.Transcode.Budget.Stages.{Quiet}
use mokibox.Worker.Transcode.Dropped.{handle_transcode-dropped}
use mokibox.Worker.Transcode.Conditions.{Smooth, Ripe}
use mokibox.Worker.Transcode.Succeeds.{handle_transcode-published}
use mokibox.Worker.Transcode.Attempts.{over, again, Retries-bounded}

-- A platform that knows the ids 1 to 3, and one number.
abbrev pub host : Platform
host = record {
  parse_uuid = λ s.
      if str_eq s "1"
      then some 1
      else if str_eq s "2"
      then some 2
      else if str_eq s "3"
      then some 3
      else none;
  uuid_string = λ n. if n == 1 then "1" else if n == 2 then "2" else if n == 3 then "3" else "7";
  parse_int = λ s. if str_eq s "800000" then some (pos 800000) else none;
  parse_float = λ s. if str_eq s "12.500000" then some (micros 12500000) else none;
  int32_outside = λ f. 0;
  trim_space = λ s. s;
  has_prefix = λ s p. true;
  has_suffix = λ s p. true;
  trim_slashes = λ s. if str_eq s "/" then "" else s;
}

abbrev pub clip : FfprobeResult
clip = record {
  streams =
      record {
        codec_name = "h264";
        codec_type = "video";
        width = pos 1280;
        height = pos 720;
        bit_rate = "800000";
      }
      ∷ record {
        codec_name = "aac";
        codec_type = "audio";
        width = pos 0;
        height = pos 0;
        bit_rate = "";
      }
      ∷ [];
  format = record { duration = "12.500000" };
}

abbrev pub start : World
start = record { videos = two_rows; queue = []; stored = []; removed = [] }

-- A run on row 1 in which nothing fails but the uploads of some keys.
abbrev pub attempt : (String → Bool) → Attempt
attempt fails = record {
  has_queries = true;
  has_r2 = true;
  has_asynq = true;
  payload = some "1";
  load_fails = false;
  increment_fails = false;
  random_fails = false;
  workdir_fails = false;
  download_fails = false;
  size = some 2000000;
  probe = probed clip;
  encode = λ v. record {
    mkdir_fails = false;
    ffmpeg_fails = false;
    entries = some (record { name = "seg_000.ts"; is_dir = false; rel_fails = false } ∷ []);
  };
  thumb_fails = false;
  write_master_fails = false;
  upload_fails = fails;
  recheck_fails = false;
  ready_fails = false;
  failed_fails = false;
  refused = λ t. false;
  after_load = [];
  during = [];
  before_ready = [];
  before_failed = [];
}

abbrev pub works : Attempt
works = attempt (λ k. false)

-- The upload of the master playlist fails.
abbrev pub breaks : Attempt
breaks = attempt (λ k. str_eq k "hls/7/1/master.m3u8")

works_publishes : (handle_transcode host works start).1 ≡ published
unfolding handle_transcode get_video_by_id find increment_video_retry update_one row_checks
    validate_media count_video check_video check_bit_rate check_audio check_duration
    mark_video_ready
works_publishes = refl

breaks_requeues : (handle_transcode host breaks start).1 ≡ requeued
unfolding handle_transcode get_video_by_id find increment_video_retry update_one row_checks
    validate_media count_video check_video check_bit_rate check_audio check_duration
breaks_requeues = refl

validate_media_iff_example : (validate_media host clip 2000000 ≡ none) ↔ Passes host clip 2000000
validate_media_iff_example = validate_media_iff host clip 2000000

handle_transcode-Accounted_example : Accounted [] (handle_transcode host breaks start)
handle_transcode-Accounted_example = handle_transcode-Accounted host breaks start (λ keys. refl)

handle_transcode-Shows_example : Backed host works (handle_transcode host works start).0
handle_transcode-Shows_example = handle_transcode-Shows host works start works_publishes

breaks-Quiet : Quiet breaks
breaks-Quiet = record { after_load = refl; during = refl; before_ready = refl }

handle_transcode-TriedAgain_example :
    TriedAgain host breaks breaks-Quiet two_rows (handle_transcode host breaks start).0
handle_transcode-TriedAgain_example =
    handle_transcode-TriedAgain host breaks breaks-Quiet start breaks_requeues

Retries-bounded_example : 1 ≤ 2 - 0
unfolding find
Retries-bounded_example =
    Retries-bounded host 1 {w = start} {n = 1}
      (again breaks breaks-Quiet ("1", refl, refl) breaks_requeues over) (sample 1 processing) refl

-- Row 3 was deleted at second 1 and keeps its HLS files.
abbrev tombstoned : World
tombstoned = record {
  videos =
      record (sample 3 deleted) { deleted_at = some 1000000000; hls_prefix = some "hls/7/3" }
      ∷ two_rows;
  queue = [];
  stored = [];
  removed = [];
}

abbrev pages : String → List Page
pages prefix = some ("hls/7/3/master.m3u8" ∷ "" ∷ []) ∷ some ("hls/7/3/480p/seg_000.ts" ∷ []) ∷ []

abbrev sweeper : ℕ → Cleanup
sweeper now = record {
  has_queries = true;
  has_r2 = true;
  has_asynq = true;
  has_logger = true;
  load_fails = false;
  send = λ keys. some ("NoSuchKey" ∷ []);
  list = pages;
  delete_row_fails = false;
  refused = λ t. false;
  now = now;
}

handle_cleanup_video-Ending_example :
    Ending host
      (sweeper 90000000000000)
      (some "3")
      tombstoned
      (handle_cleanup_video host (sweeper 90000000000000) (some "3") tombstoned)
handle_cleanup_video-Ending_example =
    handle_cleanup_video-Ending host (sweeper 90000000000000) (some "3") tombstoned

delete_prefix-removed_example :
    (delete_prefix host (λ keys. none) pages "hls/7/3/" start).0.removed
    ≡ (if prefix_allowed host "hls/7/3/" then listed (pages "hls/7/3/") else [])
delete_prefix-removed_example =
    delete_prefix-removed host (λ keys. none) pages "hls/7/3/" start refl

-- Users 1 and 2 are swept; every user's id reads "7".
abbrev uniform : Platform
uniform = record host { uuid_string = λ n. "7" }

abbrev quiet_sweep : Sweep
quiet_sweep = record {
  has_queries = true;
  has_r2 = true;
  has_asynq = true;
  has_logger = true;
  list = pages;
  refused = λ t. false;
  out_of_budget = λ n. false;
}

handle_reconcile_tick-keys_example :
    cleanup_keys
      (handle_reconcile_tick uniform quiet_sweep (some false) (some (1 ∷ 2 ∷ [])) start).0.queue
    ≡ cleanup_keys start.queue ++ orphans uniform quiet_sweep (1 ∷ 2 ∷ [])
unfolding prefix_allowed
handle_reconcile_tick-keys_example =
    handle_reconcile_tick-keys uniform quiet_sweep (λ prefix. refl)
      (λ user. (refl, (refl, (refl, tt)))) (λ t. refl) (λ u. refl) refl refl refl refl (1 ∷ 2 ∷ [])
      start

works-Smooth : Smooth works
works-Smooth = record {
  has_queries = refl;
  has_r2 = refl;
  has_asynq = refl;
  loads = refl;
  increments = refl;
  random = refl;
  workdir = refl;
  downloads = refl;
  makes_dir = λ d. refl;
  encodes = λ d. refl;
  lists = λ d.
      (record { name = "seg_000.ts"; is_dir = false; rel_fails = false } ∷ [], refl, (refl, tt));
  thumbs = refl;
  writes = refl;
  uploads = λ k. refl;
  rechecks = refl;
  marks = refl;
}

works-Quiet : Quiet works
works-Quiet = record { after_load = refl; during = refl; before_ready = refl }

works-Ripe : Ripe host works start (sample 1 processing)
unfolding find row_checks validate_media count_video check_video check_bit_rate check_audio
    check_duration
works-Ripe = record {
  text = "1";
  id = 1;
  bytes = 2000000;
  media = clip;
  duration = micros 12500000;
  payload = refl;
  parsed = refl;
  found = refl;
  processing = refl;
  low = refl;
  counts = refl;
  sized = refl;
  probe = refl;
  valid = refl;
  parses = refl;
  positive = refl;
  shows = refl;
}

handle_transcode-published_example : (handle_transcode host works start).1 ≡ published
handle_transcode-published_example =
    handle_transcode-published host works start (sample 1 processing) works-Smooth works-Quiet
      works-Ripe

-- Row 2 waits for its upload, and a task for it comes early.
abbrev early : Attempt
early = record works { payload = some "2" }

early-idle :
    (text : String) (id : ℕ) (v : Video)
    → early.payload ≡ some text
    → host.parse_uuid text ≡ some id
    → find id start.videos ≡ some v
    → is_processing v.status ≡ false
unfolding find
early-idle text id v given parsed found =
    let named : "2" ≡ text = some-injective "2" text given in
    let second : 2 ≡ id = some-injective 2 id (ap host.parse_uuid named ∙ parsed) in
    let held : sample 2 pending_upload ≡ v =
      some-injective (sample 2 pending_upload) v
        (ap (λ (j : ℕ). find j start.videos) second ∙ found) in
    ap (λ (x : Video). is_processing x.status) (sym held)

handle_transcode-dropped_example : handle_transcode host early start ≡ (start, dropped)
handle_transcode-dropped_example = handle_transcode-dropped host early start early-idle
