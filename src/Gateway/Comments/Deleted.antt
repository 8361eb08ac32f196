-- ===== src/Gateway/Comments/Deleted.antt =====
-- How DeleteComment ends, and the counters through any run of requests
-- (api-gateway/handlers/social.go).
use mokibox.Shared.{ℕ, ◌≡◌, refl, sym, ◌∙◌, ap, subst, true, some, List, [], ◌∷◌, ltb, ◌==◌, ==_iff}
use mokibox.Shared.Platform.{Platform}
use mokibox.Store.Table.{row}
use mokibox.Store.Statements.{decrement_comments_count_by, sent}
use mokibox.Worker.Transcode.Ends.{if-rule, Option-rule, Reply-rule}
use mokibox.Gateway.Upload.{Response, refuse, done}
use mokibox.Gateway.Comments.{Comment, has_row, get_comment_by_id, delete_comment_by_id}
use mokibox.Gateway.Comments.Rows.{get_comment_by_id-row}
use mokibox.Gateway.Comments.Handlers.{
  create_comment, reply_comment, uncount_comments, delete_body, delete_own, delete_comment,
}
use mokibox.Gateway.Comments.Handlers.Request.{Forum, Commenting}
use mokibox.Gateway.Comments.Counter.{IsCounted, delete_body-Good}
use mokibox.Gateway.Comments.Kept.{Ended, Left, refused-Ended, in_tx-Left}
use mokibox.Gateway.Comments.Ends.{
  Creation, Replying, create_comment-Ended, reply_comment-Ended, with_comment-Ended,
}

-- What DeleteComment did: the caller's own comment is gone, with its replies and nothing else.
pub record Removal (p : Platform) (c : Commenting) (f g : Forum) (a : Unit {0}) : Type 0 where
  pub user : ℕ
  pub id : ℕ
  pub comment : Comment
  pub known : c.user ≡ some user
  pub parsed : p.parse_uuid c.id_param ≡ some id
  pub found : get_comment_by_id id f.comments ≡ row comment
  pub own : comment.user_id ≡ user
  pub gone : g.comments ≡ delete_comment_by_id id f.comments
  pub notices : g.notices ≡ f.notices

-- What the transaction takes away.
record Deleted (d : Comment) (f g : Forum) : Type 0 where
  ok : IsCounted g
  gone : g.comments ≡ delete_comment_by_id d.id f.comments
  notices : g.notices ≡ f.notices

-- The tables that DecrementCommentsCountBy does not touch.
abbrev Spares : Forum → Forum × Response Unit → Type 0
Spares f r = (r.0.comments ≡ f.comments) × (r.0.notices ≡ f.notices)

module _ (p : Platform) (c : Commenting) where
  uncount_comments-Spares : (video n : ℕ) (f : Forum) → Spares f (uncount_comments p c video n f)
  unfolding uncount_comments
  uncount_comments-Spares video n f =
      let R = Spares f in
      if-rule R (ltb 0 n)
        (λ e.
          Reply-rule R
            (sent c.count_fails f.videos (decrement_comments_count_by video n f.videos)).1
            (λ v e. (refl, refl)) (λ e. (refl, refl)) (λ e. (refl, refl)))
        (λ e. (refl, refl))

  delete_body-Spares :
      (d : Comment) (f : Forum)
      → (delete_body p c d f).1 ≡ done tt
      → Spares (record f { comments = delete_comment_by_id d.id f.comments }) (delete_body p c d f)
  unfolding delete_body
  delete_body-Spares d f =
      let R = λ (r : Forum × Response Unit).
        r.1 ≡ done tt → Spares (record f { comments = delete_comment_by_id d.id f.comments }) r in
      if-rule R c.subtree_fails (λ e k. cc)
        λ e. if-rule R c.delete_fails (λ e k. cc) (λ e k. uncount_comments-Spares d.video_id _ _)

  delete_body-Deleted :
      (d : Comment) (f : Forum)
      → IsCounted f
      → has_row d.id d.video_id f.comments ≡ true
      → (delete_body p c d f).1 ≡ done tt
      → Deleted d f (delete_body p c d f).0
  delete_body-Deleted d f ok here e =
      let (gone, notices) = delete_body-Spares d f e in
      record { ok = delete_body-Good p c d f ok here e; gone = gone; notices = notices }

  Left-Ended :
      (user id : ℕ) (d : Comment) (f : Forum) (r : Forum × Response Unit)
      → IsCounted f
      → c.user ≡ some user
      → p.parse_uuid c.id_param ≡ some id
      → get_comment_by_id id f.comments ≡ row d
      → d.user_id ≡ user
      → Left (Deleted d f) f r
      → Ended (Removal p c f) f r
  Left-Ended user id d f (g, refuse e) ok known parsed found own left =
      subst (λ (h : Forum). Ended (Removal p c f) f (h, refuse e)) left
        (refused-Ended (Removal p c f) f e ok)
  Left-Ended user id d f (g, done a) ok known parsed found own left =
      let same = (get_comment_by_id-row id f.comments d found).0 in
      (
        left.ok,
        record {
          user = user;
          id = id;
          comment = d;
          known = known;
          parsed = parsed;
          found = found;
          own = own;
          gone = left.gone ∙ ap (λ (i : ℕ). delete_comment_by_id i f.comments) same;
          notices = left.notices;
        },
      )

  -- DeleteComment keeps every counter equal to the number of the video's comments, whatever fails. It
  -- refuses with the tables unchanged unless the status is 500; and when it succeeds, the comment was
  -- the caller's own, and what the cascade of its row takes is gone from the comments, with no
  -- notification added.
  pub delete_comment-Ended :
      (f : Forum) → IsCounted f → Ended (Removal p c f) f (delete_comment p c f)
  unfolding delete_comment delete_own
  delete_comment-Ended f ok =
      let P = Removal p c f in
      let R = Ended P f in
      if-rule R c.configured
        (λ e.
          Option-rule R c.user (λ e. refused-Ended P f _ ok)
            λ user known.
              Option-rule R (p.parse_uuid c.id_param) (λ e. refused-Ended P f _ ok)
                λ id parsed.
                  with_comment-Ended p c P id f (λ d g. delete_own p c user d g) ok
                    λ d found.
                      let (same, here) = get_comment_by_id-row id f.comments d found in
                      if-rule R (d.user_id == user)
                        (λ own.
                          Left-Ended user id d f _ ok known parsed found ((==_iff _ _).0 own) (
                            in_tx-Left (Deleted d f) f c.begin_fails c.commit_fails
                              (delete_body p c d)
                              (delete_body-Deleted d f ok (
                                subst (λ (i : ℕ). has_row i d.video_id f.comments ≡ true) (sym same)
                                  here))))
                        (λ e. refused-Ended P f _ ok))
        (λ e. refused-Ended P f _ ok)

-- A request to one of the three handlers.
pub data Call : Type 0 where
  create_call reply_call delete_call : Commenting → Call

-- Any run of requests, one after the other.
unfoldable pub serve : Platform → List Call → Forum → Forum
serve p [] f = f
serve p (create_call c ∷ cs) f = serve p cs (create_comment p c f).0
serve p (reply_call c ∷ cs) f = serve p cs (reply_comment p c f).0
serve p (delete_call c ∷ cs) f = serve p cs (delete_comment p c f).0

Ended-IsCounted :
    {A : Type 0} (P : Forum → A → Type 0) (f : Forum) (r : Forum × Response A)
    → Ended P f r
    → IsCounted r.0
Ended-IsCounted P f (g, refuse e) (ok, k) = ok
Ended-IsCounted P f (g, done a) (ok, k) = ok

-- Through any run of requests to CreateComment, ReplyComment and DeleteComment, whatever statements
-- fail in them, each video's comments_count stays the number of its rows in the comments table, and
-- the parent of each reply stays a row of the same video.
pub serve-IsCounted :
    (p : Platform) (cs : List Call) (f : Forum) → IsCounted f → IsCounted (serve p cs f)
unfolding serve
serve-IsCounted p [] f ok = ok
serve-IsCounted p (create_call c ∷ cs) f ok =
    serve-IsCounted p cs _
      (Ended-IsCounted (Creation p c f) f (create_comment p c f) (create_comment-Ended p c f ok))
serve-IsCounted p (reply_call c ∷ cs) f ok =
    serve-IsCounted p cs _
      (Ended-IsCounted (Replying p c f) f (reply_comment p c f) (reply_comment-Ended p c f ok))
serve-IsCounted p (delete_call c ∷ cs) f ok =
    serve-IsCounted p cs _
      (Ended-IsCounted (Removal p c f) f (delete_comment p c f) (delete_comment-Ended p c f ok))
