-- ===== src/Gateway/Account/Counters.antt =====
-- The counters that the deletion of a user leaves on the videos of others
-- (api-gateway/handlers/account.go).
pub mod Survivors
use mokibox.Shared.{
  ℕ, suc, ◌+◌, ◌-◌, ◌≤◌, ◌≡◌, refl, ap, sym, ◌∙◌, subst, String, Bool, true, false, not, some, List,
  [], ◌∷◌, arith, any, keep_if, count_if, count_if-keep_if, map, ◌==◌, ==_iff, if◌then◌else◌,
  Bool-cases, inl, inr,
}
use mathlib.Core.Option.{some-injective}
use mokibox.Store.Row.{Video}
use mokibox.Store.Table.{Table, find, find-id}
use mokibox.Store.Statements.{delete_videos_by_user}
use mokibox.Worker.World.{World}
use mokibox.Gateway.Likes.{Like, is_like, Social}
use mokibox.Gateway.Likes.Counter.{likes_of, IsCounted, count_if-any, count_if-none}
use mokibox.Gateway.Account.{
  enqueue_keys, Deleting, Collected, failed, no_local_user, keys, collect_user_r2_keys,
  delete_user_data, Accounts, comments_on, decrement_likes_for_user, decrement_comments_for_user,
  likes_video, goes_with,
}
use mokibox.Gateway.Account.Erased.{erased, Collects, collect_user_r2_keys-Collects, enqueue-videos}
use mokibox.Gateway.Account.Counters.Survivors.{
  social_of, likes_of-dropped, HasKeys, count_if-kept, decrement_likes, comments-keeps_likes,
  decrement_likes-count, find-erased,
}

-- Whether the user is among those who like a video, as a number.
likes_video-count :
    (user : ℕ) (v : Video) (ls : List Like)
    → count_if (is_like user v.id) ls ≤ 1
    → count_if (is_like user v.id) ls ≡ (if any (likes_video user v.id) ls then 1 else 0)
likes_video-count user v ls once = elim (Bool-cases (any (likes_video user v.id) ls)) [
  | inl e ↦ rw e (omega (arith, once, count_if-any user v.id ls e))
  | inr e ↦ rw e (count_if-none user v.id ls e)
]

erased-IsCounted :
    (text : ℕ → String) (now user : ℕ) (a : Accounts)
    → HasKeys a.world.videos
    → IsCounted (social_of a)
    → IsCounted (social_of (erased text now user a))
erased-IsCounted text now user a keyed ok = record {
  counted = λ id v e.
      let (u, found, stays, same) = find-erased text now user id a v keyed e in
      let key = find-id id a.world.videos u found in
      let t =
        decrement_comments_for_user user a.comments
          (decrement_likes_for_user user a.likes a.world.videos) in
      let kept = keep_if (λ l. not (goes_with user t l.video_id)) a.likes in
      let count =
        ap (λ (x : Video). x.likes_count) same
        ∙ comments-keeps_likes user a (decrement_likes user a u)
        ∙ decrement_likes-count user a u in
      let mine : count_if (is_like user id) a.likes
          ≡ (if any (likes_video user u.id) a.likes then 1 else 0) =
        subst
          (λ (x : ℕ).
            count_if (is_like user x) a.likes
            ≡ (if any (likes_video user u.id) a.likes then 1 else 0))
          key (likes_video-count user u a.likes (ok.once user u.id)) in
      omega (
        arith,
        count,
        ok.counted id u found,
        mine,
        count_if-kept (λ (l : Like). l.video_id) (λ l. l.video_id == id) user id t a.likes
            (λ l k. (==_iff l.video_id id).0 k) stays,
        count_if-kept (λ (l : Like). l.video_id) (is_like user id) user id t a.likes
            (λ l k. ground (arith, ==_iff l.video_id id)) stays,
        likes_of-dropped user id kept,
      );
  once = λ u id. omega (
    arith,
    ok.once u id,
    count_if-keep_if (is_like u id) _ a.likes,
    count_if-keep_if (is_like u id) (λ l. not (l.user_id == user)) _,
  );
}

-- What a deletion keeps of a property that holds before it and after one that is committed.
kept_from :
    (c : Deleting) (user : ℕ) (a : Accounts) (P : Accounts → Type 0)
    → ((b : Accounts) (w : World) → w.videos ≡ b.world.videos → P b → P (record b { world = w }))
    → P a
    → P (erased c.uuid_string c.now user a)
    → (r : Accounts × Collected) → Collects c user a r
    → P (enqueue_keys c r).0
kept_from c user a P queued before after (b, failed e) same = subst P (sym same) before
kept_from c user a P queued before after (b, no_local_user) (same, none_such) =
    subst P (sym same) before
kept_from c user a P queued before after (b, keys ks) (same, listed) =
    queued b _ (enqueue-videos c.refused ks b.world) (subst P (sym same) after)

-- Deleting a user's data, whatever fails, keeps the likes_count of every video that is left equal to the
-- number of its rows in the likes table, with no user liking a video twice, if ids are the primary key of
-- the videos.
pub delete_user_data-IsCounted :
    (c : Deleting) (user : ℕ) (a : Accounts)
    → HasKeys a.world.videos
    → IsCounted (social_of a)
    → IsCounted (social_of (delete_user_data c user a).0)
unfolding delete_user_data
delete_user_data-IsCounted c user a keyed ok =
    kept_from c user a (λ b. IsCounted (social_of b))
      (λ b w same counts. record {
        counted = λ id v e. counts.counted id v (ap (λ (t : Table). find id t) (sym same) ∙ e);
        once = counts.once;
      })
      ok (erased-IsCounted c.uuid_string c.now user a keyed ok) (collect_user_r2_keys c user a)
      (collect_user_r2_keys-Collects c user a)
