-- ===== src/Gateway/Likes/Told.antt =====
-- LikeVideo and UnlikeVideo (api-gateway/handlers/social.go) keep the counters true, and tell them.
use mokibox.Shared.{ℕ, ◌≡◌, refl, Bool, true, false, some, any, if◌then◌else◌}
use mokibox.Shared.Platform.{Platform}
use mokibox.Store.Row.{Video}
use mokibox.Store.Statements.{get_video_by_id}
use mokibox.Store.Replies.{get_video_by_id-row}
use mokibox.Worker.Transcode.Ends.{if-rule, Option-rule, Reply-rule}
use mokibox.Gateway.Errors.{Error, wrapped, err_internal}
use mokibox.Gateway.Upload.{Response, refuse, done}
use mokibox.Gateway.Visibility.{Verdict-rule, assert_video_owner_or_visible}
use mokibox.Gateway.Likes.{
  is_like, Social, in_tx, Liking, like_body, unlike_body, reload, with_video, like_video,
  unlike_video,
}
use mokibox.Gateway.Likes.Bodies.{Good, like_body-Good, unlike_body-Good}
use mokibox.Gateway.Likes.Counter.{IsCounted, likes_of}

-- A success tells the number of the video's likes; the caller's is among them, or is not.
pub record Told (p : Platform) (c : Liking) (present : Bool) (s : Social) (n : ℕ) : Type 0 where
  pub user : ℕ
  pub id : ℕ
  pub known : c.user ≡ some user
  pub parsed : p.parse_uuid c.id_param ≡ some id
  pub likes : n ≡ likes_of id s.likes
  pub mine : any (is_like user id) s.likes ≡ present

-- A refusal tells nothing.
abbrev pub Tells : Platform → Liking → Bool → Social → Response ℕ → Type 0
Tells p c present s (refuse e) = Unit
Tells p c present s (done n) = Told p c present s n

-- What the handlers keep and answer.
pub record Kept (p : Platform) (c : Liking) (present : Bool) (r : Social × Response ℕ)
    : Type 0 where
  pub counted : IsCounted r.0
  pub told : Tells p c present r.0 r.1

module _ (p : Platform) (c : Liking) (present : Bool) (user id : ℕ) where
  -- What the transaction leaves.
  abbrev Left : Social × Response Unit → Type 0
  Left r = IsCounted r.0 × (r.1 ≡ done tt → any (is_like user id) r.0.likes ≡ present)

  refused-Left : (s : Social) (e : Error) → IsCounted s → Left (s, refuse e)
  refused-Left s e ok = (ok, λ k. cc)

  settle :
      (s s' : Social) (r : Response Unit)
      → IsCounted s
      → Good present user id (s', r)
      → Left (elim r [
        | refuse e ↦ (s, refuse e)
        | done a ↦ if c.commit_fails then (s, refuse (wrapped err_internal)) else (s', done a)
      ])
  settle s s' (refuse e) ok good = refused-Left s e ok
  settle s s' (done a) ok good =
      if-rule Left c.commit_fails (λ e. refused-Left s _ ok)
        (λ e. ((good refl).0, λ h. (good refl).1))

  in_tx-Left :
      (s : Social) (body : Social → Social × Response Unit)
      → IsCounted s
      → Good present user id (body s)
      → Left (in_tx c.begin_fails c.commit_fails body s)
  in_tx-Left s body ok good =
      if-rule Left c.begin_fails (λ e. refused-Left s _ ok)
        (λ e. settle s (body s).0 (body s).1 ok good)

  reload-Kept :
      (r : Social × Response Unit)
      → c.user ≡ some user
      → p.parse_uuid c.id_param ≡ some id
      → Left r
      → Kept p c present (reload p c id r)
  unfolding reload
  reload-Kept (s, refuse e) known parsed (ok, mine) = record { counted = ok; told = tt }
  reload-Kept (s, done a) known parsed (ok, mine) =
      let K = Kept p c present in
      if-rule K c.reload_fails (λ e. record { counted = ok; told = tt })
        λ e.
          Reply-rule K (get_video_by_id id s.videos)
            (λ v loaded. record {
              counted = ok;
              told = record {
                user = user;
                id = id;
                known = known;
                parsed = parsed;
                likes = ok.counted id v (get_video_by_id-row id s.videos v loaded);
                mine = mine refl;
              };
            })
            (λ e. record { counted = ok; told = tt }) (λ e. record { counted = ok; told = tt })

refused-Kept :
    (p : Platform) (c : Liking) (present : Bool) (s : Social) (e : Error)
    → IsCounted s
    → Kept p c present (s, refuse e)
refused-Kept p c present s e ok = record { counted = ok; told = tt }

-- What surrounds the transaction refuses, or hands on.
with_video-Kept :
    (p : Platform) (c : Liking) (present : Bool) (f : ℕ → ℕ → Video → Social → Social × Response ℕ)
    (s : Social)
    → IsCounted s
    → ((user id : ℕ) (v : Video)
        → c.user ≡ some user
        → p.parse_uuid c.id_param ≡ some id
        → Kept p c present (f user id v s))
    → Kept p c present (with_video p c f s)
unfolding with_video
with_video-Kept p c present f s ok h =
    let K = Kept p c present in
    if-rule K c.configured
      (λ e.
        Option-rule K c.user (λ e. refused-Kept p c present s _ ok)
          λ user known.
            Option-rule K (p.parse_uuid c.id_param) (λ e. refused-Kept p c present s _ ok)
              λ id parsed.
                Verdict-rule K (assert_video_owner_or_visible c.viewing user id s.videos)
                  (λ v shown. h user id v known parsed) (λ e. refused-Kept p c present s _ ok))
      (λ e. refused-Kept p c present s _ ok)

-- LikeVideo keeps every counter equal to the number of the video's rows in the likes table, with no
-- user liking a video twice, whatever fails; and when it succeeds, the count that it answers is the
-- number of the video's likes, with the caller's among them.
pub like_video-Kept :
    (p : Platform) (c : Liking) (s : Social) → IsCounted s → Kept p c true (like_video p c s)
unfolding like_video
like_video-Kept p c s ok =
    with_video-Kept p c true
      (λ user id v s.
        reload p c id (in_tx c.begin_fails c.commit_fails (like_body p c user id v) s))
      s ok
      λ user id v known parsed. reload-Kept p c true user id _ known parsed (
        in_tx-Left p c true user id s (like_body p c user id v) ok
          (like_body-Good p c user id v s ok))

-- UnlikeVideo keeps the counters in the same way, and when it succeeds, the count that it answers is
-- the number of the video's likes, with the caller's not among them.
pub unlike_video-Kept :
    (p : Platform) (c : Liking) (s : Social) → IsCounted s → Kept p c false (unlike_video p c s)
unfolding unlike_video
unlike_video-Kept p c s ok =
    with_video-Kept p c false
      (λ user id v s.
        reload p c id (in_tx c.begin_fails c.commit_fails (unlike_body p c user id) s))
      s ok
      λ user id v known parsed. reload-Kept p c false user id _ known parsed (
        in_tx-Left p c false user id s (unlike_body p c user id) ok
          (unlike_body-Good p c user id s ok))
