-- ===== src/Worker/Transcode/Conditions.antt =====
-- The conditions under which HandleTranscode (transcoder-worker/transcode.go) publishes a video.
use mokibox.Shared.{
  ℕ, ◌≡◌, ◌≢◌, refl, ap, String, Bool, true, false, none, some, List, [], ◌∷◌, ◌++◌, All, arith,
  leb,
}
use mokibox.Shared.Platform.{Platform, Float64, float_le_zero, ◌<>◌}
use mokibox.Store.Row.{Video, is_processing, row_checks}
use mokibox.Store.Table.{Table, Reply, row, no_rows, fault, find}
use mokibox.Store.Statements.{one_more_retry, to_ready, sent}
use mokibox.Worker.Media.{FfprobeResult, validate_media}
use mokibox.Worker.World.{World}
use mokibox.Worker.Transcode.Attempt.{
  DirEntry, Attempt, Probe, probed, invalid, broken, max_retries,
}
use mokibox.Worker.Transcode.Publish.{
  hls_prefix_of, thumbnail_key_of, rounded, upload_entries, store,
}

-- No dependency is missing, and no call fails.
pub record Smooth (a : Attempt) : Type 0 where
  pub has_queries : a.has_queries ≡ true
  pub has_r2 : a.has_r2 ≡ true
  pub has_asynq : a.has_asynq ≡ true
  pub loads : a.load_fails ≡ false
  pub increments : a.increment_fails ≡ false
  pub random : a.random_fails ≡ false
  pub workdir : a.workdir_fails ≡ false
  pub downloads : a.download_fails ≡ false
  pub makes_dir : (dir : String) → (a.encode dir).mkdir_fails ≡ false
  pub encodes : (dir : String) → (a.encode dir).ffmpeg_fails ≡ false
  pub lists :
      (dir : String)
      → (es : List DirEntry) × ((a.encode dir).entries ≡ some es)
        × All (λ e. e.rel_fails ≡ false) es
  pub thumbs : a.thumb_fails ≡ false
  pub writes : a.write_master_fails ≡ false
  pub uploads : (key : String) → a.upload_fails key ≡ false
  pub rechecks : a.recheck_fails ≡ false
  pub marks : a.ready_fails ≡ false

-- The task names a row in PROCESSING with budget left, and its source is valid.
pub record Ripe (p : Platform) (a : Attempt) (w : World) (v : Video) : Type 0 where
  pub text : String
  pub id : ℕ
  pub bytes : ℕ
  pub media : FfprobeResult
  pub duration : Float64
  pub payload : a.payload ≡ some text
  pub parsed : p.parse_uuid text ≡ some id
  pub found : find id w.videos ≡ some v
  pub processing : is_processing v.status ≡ true
  pub low : leb max_retries v.retry_count ≡ false
  pub counts : row_checks (one_more_retry v) ≡ true
  pub sized : a.size ≡ some bytes
  pub probe : a.probe ≡ probed media
  pub valid : validate_media p media bytes ≡ none
  pub parses : p.parse_float media.format.duration ≡ some duration
  pub positive : float_le_zero duration ≡ false
  pub shows :
      row_checks (
        to_ready
          (hls_prefix_of p v)
          (thumbnail_key_of p v)
          (rounded p a v duration)
          (one_more_retry v))
      ≡ true

pub sent-on :
    (fails : Bool) (t : Table) (q : Table × Reply Video) → fails ≡ false → sent fails t q ≡ q
sent-on true t q e = cc
sent-on false t q e = refl

pub row≢no_rows : (x : Video) → row x ≢ no_rows
row≢no_rows x e = cc

pub row≢fault : (x : Video) → row x ≢ fault
row≢fault x e = cc

pub probed≢invalid : (r : FfprobeResult) → probed r ≢ invalid
probed≢invalid r e = cc

pub probed≢broken : (r : FfprobeResult) → probed r ≢ broken
probed≢broken r e = cc

pub probed-injective : (r s : FfprobeResult) → probed r ≡ probed s → r ≡ s
probed-injective r s e = ap (λ (q : Probe). elim q [ probed x ↦ x | invalid ↦ r | broken ↦ r ]) e

pub some≢none : {A : Type 0} (x : A) → some x ≢ none
some≢none x e = cc

pub upload_entries-done :
    (fails : String → Bool) (directory : String) (es : List DirEntry) (w : World)
    (keys : List String)
    → ((key : String) → fails key ≡ false)
    → All (λ e. e.rel_fails ≡ false) es
    → (upload_entries fails directory es w keys).done ≡ true
unfolding upload_entries
upload_entries-done fails directory [] w keys h k = refl
upload_entries-done fails directory (e ∷ es) w keys h (r, k) =
    let key = directory <> ("/" <> e.name) in
    ground (
      arith,
      r,
      h key,
      upload_entries-done fails directory es w keys h k,
      upload_entries-done fails directory es (store key w) (keys ++ key ∷ []) h k,
    )
