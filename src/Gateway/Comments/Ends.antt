-- ===== src/Gateway/Comments/Ends.antt =====
-- How CreateComment and ReplyComment end (api-gateway/handlers/social.go).
use mokibox.Shared.{ℕ, ◌≡◌, refl, String, none, some, List, [], ◌∷◌, ◌==◌, if◌then◌else◌}
use mokibox.Shared.Platform.{Platform}
use mokibox.Store.Row.{Video}
use mokibox.Store.Table.{row}
use mokibox.Worker.Transcode.Ends.{if-rule, Option-rule, Reply-rule}
use mokibox.Gateway.Upload.{Response, refuse, done}
use mokibox.Gateway.Upload.Confirmed.{Response-rule}
use mokibox.Gateway.Likes.{in_tx}
use mokibox.Gateway.Visibility.{Verdict-rule, assert_video_owner_or_visible, visible}
use mokibox.Gateway.Comments.{Comment, get_comment_by_id}
use mokibox.Gateway.Comments.Handlers.{
  new_comment, comment_body, bind_comment_content, reload_comment, create_on, create_comment,
  reply_to, with_comment, reply_comment,
}
use mokibox.Gateway.Comments.Handlers.Request.{Forum, Commenting, CommentObject, recipients}
use mokibox.Gateway.Comments.Counter.{IsCounted, Posted, comment_body-Posts}
use mokibox.Gateway.Comments.Kept.{Ended, Made, refused-Ended, in_tx-Left, reload_comment-Ended}

-- What CreateComment did: the caller's comment stands on a video that the caller may see, with the
-- trimmed content and no parent, and its owner is told unless the caller is the owner.
pub record Creation (p : Platform) (c : Commenting) (f g : Forum) (o : CommentObject) : Type 0 where
  pub user : ℕ
  pub video : Video
  pub id : ℕ
  pub content : String
  pub known : c.user ≡ some user
  pub parsed : p.parse_uuid c.id_param ≡ some id
  pub bound : bind_comment_content p c ≡ done content
  pub shown : assert_video_owner_or_visible c.viewing user id f.videos ≡ visible video
  pub made :
      Made c user
        (new_comment p c user id none content)
        (if user == video.user_id then [] else video.user_id ∷ [])
        f
        g
        o

-- What ReplyComment did: the reply stands under the parent, in the parent's video.
pub record Replying (p : Platform) (c : Commenting) (f g : Forum) (o : CommentObject) : Type 0 where
  pub user : ℕ
  pub video : Video
  pub id : ℕ
  pub parent : Comment
  pub content : String
  pub known : c.user ≡ some user
  pub parsed : p.parse_uuid c.id_param ≡ some id
  pub bound : bind_comment_content p c ≡ done content
  pub found : get_comment_by_id id f.comments ≡ row parent
  pub shown : assert_video_owner_or_visible c.viewing user parent.video_id f.videos ≡ visible video
  pub made :
      Made c user
        (new_comment p c user parent.video_id (some parent.id) content)
        (recipients c.owner_last user video.user_id parent.user_id)
        f
        g
        o

-- Stronger conclusions about a success.
Ended-map :
    {A : Type 0} (P Q : Forum → A → Type 0) (f : Forum) (r : Forum × Response A)
    → ((g : Forum) (a : A) → P g a → Q g a)
    → Ended P f r
    → Ended Q f r
Ended-map P Q f (g, refuse e) h k = k
Ended-map P Q f (g, done a) h (ok, k) = (ok, h g a k)

module _ (p : Platform) (c : Commenting) where
  -- The transaction that posts a comment, and the load of its row.
  posted :
      (user : ℕ) (d : Comment) (us : List ℕ) (f : Forum)
      → d.id ≡ c.new_id
      → IsCounted f
      → Ended
          (Made c user d us f)
          f
          (reload_comment p c (in_tx c.begin_fails c.commit_fails (comment_body p c user d us) f))
  posted user d us f new ok = reload_comment-Ended p c user d us f _ new ok (
      in_tx-Left (Posted user d us f) f c.begin_fails c.commit_fails (comment_body p c user d us)
        (comment_body-Posts p c user d us f ok))

  -- CreateComment keeps every counter equal to the number of the video's comments, with the parent of
  -- each reply in its video, whatever fails. It refuses with the tables unchanged, unless the status
  -- is 500; and when it succeeds, the caller's comment, on a video that the caller may see, and the
  -- notification of the owner, unless that is the caller, are what it added, and its answer.
  pub create_comment-Ended :
      (f : Forum) → IsCounted f → Ended (Creation p c f) f (create_comment p c f)
  unfolding create_comment create_on
  create_comment-Ended f ok =
      let R = Ended (Creation p c f) f in
      if-rule R c.configured
        (λ e.
          Option-rule R c.user (λ e. refused-Ended (Creation p c f) f _ ok)
            λ user known.
              Option-rule R (p.parse_uuid c.id_param) (λ e. refused-Ended (Creation p c f) f _ ok)
                λ id parsed.
                  Response-rule R (bind_comment_content p c)
                    (λ e k. refused-Ended (Creation p c f) f _ ok)
                    λ content bound.
                      Verdict-rule R (assert_video_owner_or_visible c.viewing user id f.videos)
                        (λ v shown.
                          let us = if user == v.user_id then [] else v.user_id ∷ [] in
                          let d = new_comment p c user id none content in
                          Ended-map (Made c user d us f) (Creation p c f) f _
                            (λ g o made. record {
                              user = user;
                              video = v;
                              id = id;
                              content = content;
                              known = known;
                              parsed = parsed;
                              bound = bound;
                              shown = shown;
                              made = made;
                            })
                            (posted user d us f refl ok))
                        (λ e. refused-Ended (Creation p c f) f _ ok))
        (λ e. refused-Ended (Creation p c f) f _ ok)

  -- The load of a comment refuses with the tables unchanged, or hands on a row.
  pub with_comment-Ended :
      {A : Type 0} (P : Forum → A → Type 0) (id : ℕ) (f : Forum)
      (k : Comment → Forum → Forum × Response A)
      → IsCounted f
      → ((d : Comment) → get_comment_by_id id f.comments ≡ row d → Ended P f (k d f))
      → Ended P f (with_comment p c id k f)
  with_comment-Ended P id f k ok h =
      if-rule (Ended P f) c.load_fails (λ e. refused-Ended P f _ ok)
        λ e.
          Reply-rule (Ended P f) (get_comment_by_id id f.comments) h (λ e. refused-Ended P f _ ok)
            (λ e. refused-Ended P f _ ok)

  -- ReplyComment keeps the counters in the same way, and refuses with the tables unchanged unless the
  -- status is 500. When it succeeds, the caller's reply stands under the comment that the path names, in
  -- that comment's video, which the caller may see, and the recipients of its notifications are those
  -- of the video's owner and the parent's author that are not the caller.
  pub reply_comment-Ended :
      (f : Forum) → IsCounted f → Ended (Replying p c f) f (reply_comment p c f)
  unfolding reply_comment reply_to
  reply_comment-Ended f ok =
      let P = Replying p c f in
      let R = Ended P f in
      if-rule R c.configured
        (λ e.
          Option-rule R c.user (λ e. refused-Ended P f _ ok)
            λ user known.
              Option-rule R (p.parse_uuid c.id_param) (λ e. refused-Ended P f _ ok)
                λ id parsed.
                  Response-rule R (bind_comment_content p c) (λ e k. refused-Ended P f _ ok)
                    λ content bound.
                      with_comment-Ended P id f (λ d g. reply_to p c user d content g) ok
                        λ parent found.
                          Verdict-rule R
                            (assert_video_owner_or_visible c.viewing user parent.video_id f.videos)
                            (λ v shown.
                              let us = recipients c.owner_last user v.user_id parent.user_id in
                              let d =
                                new_comment p c user parent.video_id (some parent.id) content in
                              Ended-map (Made c user d us f) P f _
                                (λ g o made. record {
                                  user = user;
                                  video = v;
                                  id = id;
                                  parent = parent;
                                  content = content;
                                  known = known;
                                  parsed = parsed;
                                  bound = bound;
                                  found = found;
                                  shown = shown;
                                  made = made;
                                })
                                (posted user d us f refl ok))
                            (λ e. refused-Ended P f _ ok))
        (λ e. refused-Ended P f _ ok)
