-- ===== src/Gateway/Account/Tests.antt =====
-- User 8 has liked row 1 of user 7 and commented on it twice, and is deleted.
use mokibox.Shared.{
  ℕ, ◌+◌, ◌∙◌, ◌≤◌, ◌≡◌, refl, ap, sym, true, false, none, some, [], ◌∷◌, arith, Bool-cases, inl,
  inr, ◌==◌, count_if,
}
use mathlib.Core.Option.{some-injective}
use mokibox.Store.Row.{Video, ready}
use mokibox.Store.Table.{find}
use mokibox.Store.Tests.{sample}
use mokibox.Store.Statements.{delete_videos_by_user}
use mokibox.Gateway.Upload.{done}
use mokibox.Gateway.Likes.{Like}
use mokibox.Gateway.Likes.Counter.{IsCounted}
use mokibox.Gateway.Comments.{Comment}
use mokibox.Gateway.Comments.Rows.{comments_of}
use mokibox.Worker.World.{enqueue_cleanup_objects}
use mokibox.Gateway.Account.{
  Accounts, Deleting, delete_user_data, collect_user_r2_keys, list_video_keys, tombstone_and_commit,
  decrement_likes_for_user, decrement_comments_for_user,
}
use mokibox.Gateway.Account.Erased.{Deletes, delete_user_data-Deletes}
use mokibox.Gateway.Account.Counters.{delete_user_data-IsCounted}
use mokibox.Gateway.Account.Counters.Survivors.{HasKeys, social_of}
use mokibox.Gateway.Account.Drift.{own_comments, delete_user_data-drifts}

abbrev popular : Video
popular = record (sample 1 ready) { likes_count = 1; comments_count = 2 }

abbrev first_comment : Comment
first_comment = record {
  id = 20;
  video_id = 1;
  user_id = 8;
  parent_id = none;
  content = "one";
  created_at = 5;
}

abbrev pub accounts : Accounts
accounts = record {
  world = record { videos = popular ∷ []; queue = []; stored = []; removed = [] };
  likes = record { user_id = 8; video_id = 1 } ∷ [];
  comments = record first_comment { id = 21 } ∷ first_comment ∷ [];
  follows = record { follower_id = 8; followee_id = 7; created_at = 3 } ∷ [];
  inbox = record { user_id = 7; actor_id = 8 } ∷ [];
  users =
      record {
        id = 8;
        zitadel_id = "sub8";
        username = "eight";
        is_active = true;
        deleted_at = none;
        display_name = none;
        bio = none;
        avatar_url = none;
      }
      ∷ [];
}

abbrev pub deleting : Deleting
deleting = record {
  configured = true;
  user = some 8;
  now = 50;
  uuid_string = λ id. "8";
  begin_fails = false;
  fails = λ n. false;
  commit_fails = false;
  refused = λ t. false;
}

accounts-HasKeys : HasKeys accounts.world.videos
accounts-HasKeys id = ground arith

delete_user_data-Deletes_example :
    Deletes deleting 8 accounts (delete_user_data deleting 8 accounts)
delete_user_data-Deletes_example = delete_user_data-Deletes deleting 8 accounts

likes-counted :
    (id : ℕ) (v : Video)
    → find id accounts.world.videos ≡ some v
    → v.likes_count ≡ count_if (λ (l : Like). l.video_id == id) accounts.likes
unfolding find
likes-counted id v e = elim (Bool-cases (1 == id)) [
  | inl k ↦
      sym (ap (λ (x : Video). x.likes_count) (some-injective popular v (rw k at e))) ∙ rw k refl
  | inr k ↦ absurd (ground arith)
]

delete_user_data-IsCounted_example : IsCounted (social_of (delete_user_data deleting 8 accounts).0)
delete_user_data-IsCounted_example =
    delete_user_data-IsCounted deleting 8 accounts accounts-HasKeys
      (record { counted = likes-counted; once = λ user id. ground arith })

comments-counted :
    (id : ℕ) (v : Video)
    → find id accounts.world.videos ≡ some v
    → v.comments_count ≡ comments_of id accounts.comments
unfolding find
comments-counted id v e = elim (Bool-cases (1 == id)) [
  | inl k ↦
      sym (ap (λ (x : Video). x.comments_count) (some-injective popular v (rw k at e))) ∙ rw k refl
  | inr k ↦ absurd (ground arith)
]

deleted : (delete_user_data deleting 8 accounts).1 ≡ done tt
unfolding delete_user_data collect_user_r2_keys tombstone_and_commit
deleted = refl

left_over :
    find 1 (delete_user_data deleting 8 accounts).0.world.videos
    ≡ some (record popular { likes_count = 0; comments_count = 1 })
unfolding delete_user_data collect_user_r2_keys tombstone_and_commit find delete_videos_by_user
    decrement_likes_for_user decrement_comments_for_user enqueue_cleanup_objects list_video_keys
left_over = refl

delete_user_data-drifts_example :
    comments_of 1 (delete_user_data deleting 8 accounts).0.comments
      + own_comments 8 1 accounts.comments
    ≤ 1 + 1
delete_user_data-drifts_example =
    delete_user_data-drifts deleting 8 accounts accounts-HasKeys comments-counted refl deleted 1
      (record popular { likes_count = 0; comments_count = 1 }) left_over
