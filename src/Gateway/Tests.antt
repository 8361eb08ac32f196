-- ===== src/Gateway/Tests.antt =====
-- Requests to the gateway's handlers, and what the properties say of them.
use mokibox.Shared.{
  ℕ, true, false, none, some, [], ◌∷◌, ◌≡◌, ◌↔◌, refl, sym, ap, arith, Bool-cases, inl, inr, ◌==◌,
}
use mathlib.Core.Option.{some-injective}
use mokibox.Store.Row.{pending_upload, row_checks, Video, ready}
use mokibox.Store.Table.{Table, row, find}
use mokibox.Store.Tests.{sample}
use mokibox.Worker.Tests.{host, start}
use mokibox.Store.Statements.{to_processing}
use mokibox.Gateway.Upload.Accepts.{Sunny, InOrder, confirm_upload-done}
use mokibox.Gateway.Upload.{done, Confirming, size, confirm_upload, Deleting, delete_video}
use mokibox.Gateway.Upload.Confirmed.{Confirmation, confirm_upload-Confirmation}
use mokibox.Gateway.Upload.Tombstoned.{Deletion, delete_video-Deletion}
use mokibox.Gateway.Visibility.{
  Viewing, visible, Seen, assert_video_owner_or_visible, assert_video_owner_or_visible_iff,
}
use mokibox.Gateway.Intent.{Intending, upload_intent}
use mokibox.Gateway.Intent.Prepared.{Preparation, upload_intent-Preparation}
use mokibox.Gateway.Views.{Tracking, track_view}
use mokibox.Gateway.Views.Viewed.{View, track_view-View}
use mokibox.Gateway.Likes.{Social, Liking, like_video, unlike_video}
use mokibox.Gateway.Likes.Counter.{IsCounted}
use mokibox.Gateway.Likes.Told.{Kept, like_video-Kept, unlike_video-Kept}

-- User 7 confirms row 2.
abbrev confirming : Confirming
confirming = record {
  user = some 7;
  binds = true;
  valid = none;
  video_id = "2";
  r2_key = "uploads/7/1/source.mp4";
  begin_fails = false;
  load_fails = false;
  head = λ k. size 5000;
  confirm_fails = false;
  commit_fails = false;
  refused = λ t. false;
}

confirm_upload-Confirmation_example :
    Confirmation host confirming start (confirm_upload host confirming start)
confirm_upload-Confirmation_example = confirm_upload-Confirmation host confirming start

-- User 7 deletes row 1.
abbrev deleting : Deleting
deleting = record {
  configured = true;
  user = some 7;
  id_param = "1";
  load_fails = false;
  meanwhile = [];
  mark_fails = false;
  now = 50;
  refused = λ t. false;
}

delete_video-Deletion_example : Deletion host deleting start (delete_video host deleting start)
delete_video-Deletion_example = delete_video-Deletion host deleting start

-- Everyone is active and private, and user 8 follows everyone.
abbrev pub viewing : Viewing
viewing = record {
  load_fails = false;
  get_user_by_id = λ u. row (record { is_active = true; is_private = true });
  is_following = λ a b. some (a == 8);
}

abbrev pub shown : Table
shown = sample 1 ready ∷ []

assert_video_owner_or_visible_iff_example :
    (assert_video_owner_or_visible viewing 8 1 shown ≡ visible (sample 1 ready))
    ↔ Seen viewing 8 1 shown (sample 1 ready)
assert_video_owner_or_visible_iff_example =
    assert_video_owner_or_visible_iff viewing 8 1 shown (sample 1 ready)

abbrev liking : Liking
liking = record {
  configured = true;
  user = some 8;
  id_param = "1";
  viewing = viewing;
  begin_fails = false;
  like_fails = false;
  count_fails = false;
  notify_fails = false;
  commit_fails = false;
  reload_fails = false;
}

abbrev unliked : Social
unliked = record { videos = shown; likes = []; notified = [] }

shown-likes : (id : ℕ) (v : Video) → find id shown ≡ some v → v.likes_count ≡ 0
unfolding find
shown-likes id v e = elim (Bool-cases (1 == id)) [
  | inl k ↦ sym (ap (λ (x : Video). x.likes_count) (some-injective (sample 1 ready) v (rw k at e)))
  | inr k ↦ absurd (ground arith)
]

unliked-IsCounted : IsCounted unliked
unliked-IsCounted = record { counted = shown-likes; once = λ user id. omega arith }

like_video-Kept_example : Kept host liking true (like_video host liking unliked)
like_video-Kept_example = like_video-Kept host liking unliked unliked-IsCounted

unlike_video-Kept_example : Kept host liking false (unlike_video host liking unliked)
unlike_video-Kept_example = unlike_video-Kept host liking unliked unliked-IsCounted

-- User 7 asks again, and the pending row is row 2.
abbrev intending : Intending
intending = record {
  user = some 7;
  binds = true;
  valid = none;
  title = "a clip";
  description = none;
  load_fails = false;
  fresh_uuid = 3;
  row_id = 3;
  now = 60;
  insert_fails = false;
  rotate_fails = false;
  metadata_fails = false;
  presign_fails = false;
  refused = λ t. false;
  meanwhile = [];
  between = [];
}

upload_intent-Preparation_example : Preparation host intending (upload_intent host intending start)
upload_intent-Preparation_example = upload_intent-Preparation host intending start

confirming-Sunny : Sunny host confirming
confirming-Sunny = record {
  begins = refl;
  loads = refl;
  confirms = refl;
  commits = refl;
  taken = λ t. refl;
}

confirming-InOrder : InOrder host confirming start (sample 2 pending_upload)
unfolding find row_checks
confirming-InOrder = record {
  user = 7;
  id = 2;
  bytes = 5000;
  known = refl;
  binds = refl;
  valid = refl;
  parsed = refl;
  found = refl;
  owned = refl;
  pending = refl;
  same_key = refl;
  stored = refl;
  large = omega arith;
  small = omega arith;
  checked = refl;
}

confirm_upload-done_example :
    (confirm_upload host confirming start).1 ≡ done (to_processing (sample 2 pending_upload))
confirm_upload-done_example =
    confirm_upload-done host confirming start (sample 2 pending_upload) confirming-Sunny
      confirming-InOrder

-- User 8, who follows the owner, views row 1.
abbrev tracking : Tracking
tracking = record {
  configured = true;
  user = some 8;
  id_param = "1";
  viewing = viewing;
  view_fails = false;
  reload_fails = false;
}

track_view-View_example : View host tracking shown (track_view host tracking shown)
track_view-View_example = track_view-View host tracking shown
