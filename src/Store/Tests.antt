-- ===== src/Store/Tests.antt =====
-- Two rows and a platform for the tests, and runs of the properties of the store.
use mokibox.Shared.{ℕ, none, [], ◌∷◌, refl, arith}
use mokibox.Store.Row.{row_checks, Video, Status, pending_upload, processing}
use mokibox.Store.Table.{Table, find}
use mokibox.Store.Checks.{publish, tombstone, run, IsConsistent, run-IsConsistent}
use mokibox.Store.Life.{Follows, run-⟶}

-- A row of user 7 with a status.
abbrev pub sample : ℕ → Status → Video
sample id status = record {
  id = id;
  user_id = 7;
  title = none;
  description = none;
  r2_key = "uploads/7/1/source.mp4";
  hls_prefix = none;
  thumbnail_key = none;
  duration_seconds = none;
  status = status;
  retry_count = 0;
  likes_count = 0;
  views_count = 0;
  comments_count = 0;
  created_at = 5;
  deleted_at = none;
}

abbrev pub two_rows : Table
two_rows = sample 1 processing ∷ sample 2 pending_upload ∷ []

two_rows-IsConsistent : IsConsistent two_rows
unfolding row_checks
two_rows-IsConsistent = record {
  rows_checked = (refl, (refl, tt));
  ids_unique = λ id. ground arith;
  one_pending = λ user. ground arith;
}

run-IsConsistent_example :
    IsConsistent (run (publish 1 "hls/7/1" "thumbs/7/1/default.jpg" 12) two_rows)
run-IsConsistent_example =
    run-IsConsistent (publish 1 "hls/7/1" "thumbs/7/1/default.jpg" 12) two_rows-IsConsistent

run-⟶_example : Follows processing (find 1 (run (tombstone 9 1 7) two_rows))
unfolding find
run-⟶_example =
    run-⟶ (tombstone 9 1 7) 1 two_rows {v = sample 1 processing} two_rows-IsConsistent refl
