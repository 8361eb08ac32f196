-- ===== src/Gateway/Account/Drift.antt =====
-- The comments_count that the deletion of a user leaves on the videos of others
-- (api-gateway/handlers/account.go).
use mokibox.Shared.{
  ℕ, ◌+◌, ◌≤◌, ◌≡◌, ap, sym, ◌∙◌, subst, true, false≢true, not, ◌&&◌, some, List, [], ◌∷◌, arith,
  any, keep_if, count_if, ◌==◌, ==_iff,
}
use mokibox.Store.Row.{Video}
use mokibox.Store.Table.{Table, find}
use mokibox.Gateway.Upload.{done}
use mokibox.Gateway.Comments.{Comment}
use mokibox.Gateway.Comments.Rows.{comments_of}
use mokibox.Gateway.Account.{
  Accounts, Deleting, Collected, failed, no_local_user, keys, enqueue_keys, collect_user_r2_keys,
  delete_user_data, delete_comments_by_user, decrement_likes_for_user, decrement_comments_for_user,
  goes_with,
}
use mokibox.Gateway.Account.Erased.{erased, Collects, collect_user_r2_keys-Collects, enqueue-videos}
use mokibox.Gateway.Account.Counters.Survivors.{
  HasKeys, find-erased, decrement_likes, decrement_comments, count_if-kept,
}

-- The user's comments on a video.
abbrev pub own_comments : ℕ → ℕ → List Comment → ℕ
own_comments user id cs = count_if (λ d. d.user_id == user && d.video_id == id) cs

-- Deleting takes all of the user's comments at least.
comments_of-deleted :
    (user id : ℕ) (cs : List Comment)
    → comments_of id (delete_comments_by_user user cs) + own_comments user id cs ≤ comments_of id cs
unfolding delete_comments_by_user
comments_of-deleted user id [] = omega arith
comments_of-deleted user id (c ∷ cs) = ground (arith, comments_of-deleted user id cs)

-- DecrementCommentsForUser takes one at most.
decrement_comments-count :
    (user : ℕ) (a : Accounts) (v : Video)
    → (decrement_likes user a v).comments_count
      ≤ (decrement_comments user a (decrement_likes user a v)).comments_count + 1
decrement_comments-count user a v = ground arith

decrement_likes-comments :
    (user : ℕ) (a : Accounts) (v : Video)
    → (decrement_likes user a v).comments_count ≡ v.comments_count
decrement_likes-comments user a v = ground arith

module _ (c : Deleting) (user : ℕ) (a : Accounts) where
  drift :
      HasKeys a.world.videos
      → ((j : ℕ) (w : Video)
          → find j a.world.videos ≡ some w
          → w.comments_count ≡ comments_of j a.comments)
      → (id : ℕ) (v : Video) → find id (erased c.uuid_string c.now user a).world.videos ≡ some v
      → comments_of id (erased c.uuid_string c.now user a).comments
          + own_comments user id a.comments
        ≤ v.comments_count + 1
  drift keyed counted id v e =
      let (u, found, stays, same) = find-erased c.uuid_string c.now user id a v keyed e in
      let t =
        decrement_comments_for_user user a.comments
          (decrement_likes_for_user user a.likes a.world.videos) in
      let cs = keep_if (λ d. not (goes_with user t d.video_id)) a.comments in
      omega (
        arith,
        ap (λ (x : Video). x.comments_count) same,
        decrement_comments-count user a u,
        decrement_likes-comments user a u,
        counted id u found,
        comments_of-deleted user id cs,
        count_if-kept (λ (d : Comment). d.video_id) (λ d. d.video_id == id) user id t a.comments
            (λ d k. (==_iff d.video_id id).0 k) stays,
        count_if-kept (λ (d : Comment). d.video_id) (λ d. d.user_id == user && d.video_id == id)
            user id t a.comments (λ d k. ground (arith, ==_iff d.video_id id)) stays,
      )

  drift_from :
      HasKeys a.world.videos
      → ((j : ℕ) (w : Video)
          → find j a.world.videos ≡ some w
          → w.comments_count ≡ comments_of j a.comments)
      → any (λ u. u.id == user) a.users ≡ true
      → (id : ℕ) (v : Video) (r : Accounts × Collected) → Collects c user a r
      → (enqueue_keys c r).1 ≡ done tt
      → find id (enqueue_keys c r).0.world.videos ≡ some v
      → comments_of id (enqueue_keys c r).0.comments + own_comments user id a.comments
        ≤ v.comments_count + 1
  drift_from keyed counted member id v (b, failed e) h k found = cc
  drift_from keyed counted member id v (b, no_local_user) (h, none_such) k found =
      absurd (false≢true (sym none_such ∙ member))
  drift_from keyed counted member id v (b, keys ks) (made, listed) k found =
      subst
        (λ (x : Accounts).
          comments_of id x.comments + own_comments user id a.comments ≤ v.comments_count + 1)
        (sym made)
        (drift keyed counted id v (
          ap (λ (x : Accounts). find id x.world.videos) (sym made)
          ∙ ap (λ (t : Table). find id t) (sym (enqueue-videos c.refused ks b.world))
          ∙ found))

  -- Suppose that every video's comments_count is right before a deletion that succeeds, of a user with a
  -- row, and that ids are the primary key of the videos. Then, for each video that is left, the number of
  -- its comments that are left and the number of those that the user had there are together at most one
  -- more than the new comments_count: with n comments of the user on it, the counter is n - 1 too high at
  -- least.
  pub delete_user_data-drifts :
      HasKeys a.world.videos
      → ((j : ℕ) (w : Video)
          → find j a.world.videos ≡ some w
          → w.comments_count ≡ comments_of j a.comments)
      → any (λ u. u.id == user) a.users ≡ true
      → (delete_user_data c user a).1 ≡ done tt
      → (id : ℕ) (v : Video) → find id (delete_user_data c user a).0.world.videos ≡ some v
      → comments_of id (delete_user_data c user a).0.comments + own_comments user id a.comments
        ≤ v.comments_count + 1
  unfolding delete_user_data
  delete_user_data-drifts keyed counted member ran id v found =
      drift_from keyed counted member id v (collect_user_r2_keys c user a)
        (collect_user_r2_keys-Collects c user a) ran found
