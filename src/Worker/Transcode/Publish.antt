-- ===== src/Worker/Transcode/Publish.antt =====
-- HandleTranscode (transcoder-worker/transcode.go) from the decoded source on: the variants, the
-- thumbnail, the master playlist, the re-check and MarkVideoReady.
use mokibox.Shared.{
  ℕ, ◌+◌, ◌/◌, ◌%◌, ◌^◌, String, Bool, true, false, Option, none, some, List, [], ◌∷◌, ◌++◌,
  if◌then◌else◌,
}
use mokibox.Shared.Platform.{Platform, Float64, micros, ◌<>◌}
use mokibox.Store.Row.{Video, is_processing}
use mokibox.Store.Table.{row, no_rows, fault}
use mokibox.Store.Statements.{get_video_by_id, mark_video_ready, sent}
use mokibox.Worker.World.{World}
use mokibox.Worker.Transcode.Attempt.{
  DirEntry, Attempt, transcode_variants, Outcome, superseded, published, Step, stop, next, after,
  others,
}
use mokibox.Worker.Transcode.Retry.{handle_transient, cleanup_on_failure}

-- hlsPrefix and thumbnailKey.
abbrev pub hls_prefix_of : Platform → Video → String
hls_prefix_of p v = "hls/" <> (p.uuid_string v.user_id <> ("/" <> p.uuid_string v.id))

abbrev pub thumbnail_key_of : Platform → Video → String
thumbnail_key_of p v =
    "thumbs/" <> (p.uuid_string v.user_id <> ("/" <> (p.uuid_string v.id <> "/thumb.jpg")))

abbrev pub master_key_of : Platform → Video → String
master_key_of p v = hls_prefix_of p v <> "/master.m3u8"

-- R2Client.UploadFile, where it succeeds.
abbrev pub store : String → World → World
store key w = record w { stored = w.stored ++ key ∷ [] }

-- The loop of uploadVariant: the keys uploaded by it, and whether it ended without an error.
pub record Uploaded : Type 0 where
  pub world : World
  pub keys : List String
  pub done : Bool

unfoldable pub upload_entries :
    (String → Bool) → String → List DirEntry → World → List String → Uploaded
upload_entries fails directory [] w keys = record { world = w; keys = keys; done = true }
upload_entries fails directory (e ∷ es) w keys =
    let key = directory <> ("/" <> e.name) in
    let skipped = upload_entries fails directory es w keys in
    let later = upload_entries fails directory es (store key w) (keys ++ key ∷ []) in
    let failed : Uploaded = record { world = w; keys = keys; done = false } in
    if e.is_dir
    then skipped
    else if e.rel_fails
    then failed
    else if fails key
    then failed
    else later

-- uploadVariant
unfoldable pub upload_variant : (String → Bool) → String → Option (List DirEntry) → World → Uploaded
unfolding upload_entries
upload_variant fails directory none w = record { world = w; keys = []; done = false }
upload_variant fails directory (some es) w = upload_entries fails directory es w []

module _ (p : Platform) (a : Attempt) (v : Video) where
  -- A failure after uploads began: cleanupOnFailure of the keys so far, then handleTransient.
  unfoldable pub fail_after : List String → World → World × Outcome
  unfolding handle_transient cleanup_on_failure
  fail_after keys w = handle_transient p a v (cleanup_on_failure p a keys w)

  -- The loop over the variants; the value is uploadedKeys.
  unfoldable pub encode_variants : List String → World → List String → Step (List String)
  unfolding fail_after upload_variant
  encode_variants [] w keys = next w keys
  encode_variants (dir ∷ dirs) w keys =
      let e = a.encode dir in
      let u = upload_variant a.upload_fails (hls_prefix_of p v <> ("/" <> dir)) e.entries w in
      let later = encode_variants dirs u.world (keys ++ u.keys) in
      if e.mkdir_fails
      then stop (fail_after keys w)
      else if e.ffmpeg_fails
      then stop (fail_after keys w)
      else if u.done
      then later
      else stop (fail_after (keys ++ u.keys) u.world)

  -- The thumbnail and the master playlist. A key whose upload failed is cleaned up too.
  unfoldable pub publish_master : World → List String → Step (List String)
  unfolding fail_after
  publish_master w keys =
      let key = master_key_of p v in
      if a.write_master_fails
      then stop (fail_after keys w)
      else if a.upload_fails key
      then stop (fail_after (keys ++ key ∷ []) w)
      else next (store key w) (keys ++ key ∷ [])

  unfoldable pub publish_thumbnail : World → List String → Step (List String)
  unfolding fail_after
  publish_thumbnail w keys =
      let key = thumbnail_key_of p v in
      if a.thumb_fails
      then stop (fail_after keys w)
      else if a.upload_fails key
      then stop (fail_after (keys ++ key ∷ []) w)
      else next (store key w) (keys ++ key ∷ [])

  -- int32(math.Round(durationSec)), as a 32-bit pattern.
  abbrev pub rounded : Float64 → ℕ
  rounded (micros u) = (u + 500000) / 1000000 % 2 ^ 32
  rounded f = p.int32_outside f

  -- MarkVideoReady, and the cleanup of the raw upload.
  unfoldable pub mark_ready : Float64 → World → List String → World × Outcome
  unfolding fail_after cleanup_on_failure
  mark_ready duration w₀ keys =
      let w = others a.before_ready w₀ in
      let (t, reply) = sent a.ready_fails w.videos (
        mark_video_ready v.id (hls_prefix_of p v) (thumbnail_key_of p v) (rounded duration)
          w.videos) in
      elim reply [
        | row updated ↦
            (cleanup_on_failure p a (v.r2_key ∷ []) (record w { videos = t }), published)
        | no_rows ↦ (cleanup_on_failure p a keys w, superseded)
        | fault ↦ fail_after keys w
      ]

  -- The re-check of the status.
  unfoldable pub finish : Float64 → World → List String → World × Outcome
  unfolding mark_ready fail_after cleanup_on_failure
  finish duration w keys =
      if a.recheck_fails then fail_after keys w else elim (get_video_by_id v.id w.videos) [
        | no_rows ↦ (cleanup_on_failure p a keys w, superseded)
        | fault ↦ fail_after keys w
        | row fresh ↦
            if is_processing fresh.status
            then mark_ready duration w keys
            else (cleanup_on_failure p a keys w, superseded)
      ]

  -- From the decoded source to the end.
  unfoldable pub produce : Float64 → World → World × Outcome
  unfolding encode_variants publish_thumbnail publish_master finish
  produce duration w₀ = after (encode_variants transcode_variants w₀ []) λ w₁ keys₁.
      after (publish_thumbnail w₁ keys₁)
        λ w₂ keys₂. after (publish_master w₂ keys₂) λ w₃ keys₃. finish duration w₃ keys₃
