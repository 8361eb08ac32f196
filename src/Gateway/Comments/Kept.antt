-- ===== src/Gateway/Comments/Kept.antt =====
-- What CreateComment, ReplyComment and DeleteComment keep and answer
-- (api-gateway/handlers/social.go).
use mokibox.Shared.{
  ℕ, ◌≡◌, refl, sym, ◌∙◌, ap, subst, Bool, true, false, List, ◌∷◌, ◌++◌, arith, map, ◌==◌, ==_iff,
  if◌then◌else◌,
}
use mokibox.Shared.Platform.{Platform}
use mokibox.Store.Table.{row}
use mokibox.Store.Replies.{row-injective}
use mokibox.Worker.Transcode.Ends.{if-rule, Reply-rule}
use mokibox.Gateway.Errors.{Error, wrapped, err_internal, classify_error}
use mokibox.Gateway.Upload.{Response, refuse, done}
use mokibox.Gateway.Likes.{in_tx}
use mokibox.Gateway.Comments.{Comment, get_comment_by_id}
use mokibox.Gateway.Comments.Handlers.{reload_comment}
use mokibox.Gateway.Comments.Handlers.Request.{
  Forum, notice_of, Commenting, CommentObject, comment_object_from_row,
}
use mokibox.Gateway.Comments.Counter.{IsCounted, Posted}

-- The status of a refusal is 500, or the tables are as before.
abbrev pub Unchanged : Forum → Forum → Error → Type 0
Unchanged f g e = if (classify_error e).0 == 500 then Unit else f ≡ g

-- How a handler ends: refused, with the tables as before unless it failed inside; or well, with
-- what `P` says. The counters are true in both cases.
abbrev pub Ended : {A : Type 0} → (Forum → A → Type 0) → Forum → Forum × Response A → Type 0
Ended P f (g, refuse e) = IsCounted g × Unchanged f g e
Ended P f (g, done a) = IsCounted g × P g a

unless : (b : Bool) {T : Type 0} → T → if b then Unit else T
unless true h = tt
unless false h = h

module _ {A : Type 0} (P : Forum → A → Type 0) (f : Forum) where
  -- A refusal that changed nothing.
  pub refused-Ended : (e : Error) → IsCounted f → Ended P f (f, refuse e)
  refused-Ended e ok = (ok, unless ((classify_error e).0 == 500) refl)

  -- A failure inside.
  pub failed-Ended : (g : Forum) → IsCounted g → Ended P f (g, refuse (wrapped err_internal))
  unfolding classify_error
  failed-Ended g ok = (ok, tt)

-- What the transaction leaves: nothing changed, or what its body did.
module _ (Q : Forum → Type 0) (f : Forum) where
  abbrev pub Left : Forum × Response Unit → Type 0
  Left (g, refuse e) = f ≡ g
  Left (g, done a) = Q g

  settle-Left :
      (commit_fails : Bool) (g : Forum) (r : Response Unit)
      → (r ≡ done tt → Q g)
      → Left (elim r [
        | refuse e ↦ (f, refuse e)
        | done a ↦ if commit_fails then (f, refuse (wrapped err_internal)) else (g, done a)
      ])
  settle-Left commit_fails g (refuse e) h = refl
  settle-Left commit_fails g (done a) h = if-rule Left commit_fails (λ e. refl) (λ e. h refl)

  pub in_tx-Left :
      (begin_fails commit_fails : Bool) (body : Forum → Forum × Response Unit)
      → ((body f).1 ≡ done tt → Q (body f).0)
      → Left (in_tx begin_fails commit_fails body f)
  in_tx-Left begin_fails commit_fails body h =
      if-rule Left begin_fails (λ e. refl) (λ e. settle-Left commit_fails (body f).0 (body f).1 h)

-- What a success of CreateComment or ReplyComment has done: one row more, one notification for each
-- recipient, and the new row in the answer.
pub record Made (c : Commenting) (user : ℕ) (d : Comment) (us : List ℕ) (f g : Forum)
    (o : CommentObject) : Type 0 where
  pub comments : g.comments ≡ d ∷ f.comments
  pub notices : g.notices ≡ f.notices ++ map (notice_of user d) us
  pub object : o ≡ comment_object_from_row d (c.author d.user_id)

get_comment_by_id-head : (d : Comment) (cs : List Comment) → get_comment_by_id d.id (d ∷ cs) ≡ row d
unfolding get_comment_by_id
get_comment_by_id-head d cs = ground (arith, ==_iff d.id d.id)

module _ (p : Platform) (c : Commenting) where
  -- The end of a handler that has posted the row `d`.
  pub reload_comment-Ended :
      (user : ℕ) (d : Comment) (us : List ℕ) (f : Forum) (r : Forum × Response Unit)
      → d.id ≡ c.new_id
      → IsCounted f
      → Left (Posted user d us f) f r
      → Ended (Made c user d us f) f (reload_comment p c r)
  unfolding reload_comment
  reload_comment-Ended user d us f (g, refuse e) new ok left =
      subst (λ (h : Forum). Ended (Made c user d us f) f (h, refuse e)) left
        (refused-Ended (Made c user d us f) f e ok)
  reload_comment-Ended user d us f (g, done a) new ok left =
      let P = Made c user d us f in
      let failed = failed-Ended P f g left.ok in
      if-rule (Ended P f) c.reload_fails (λ e. failed)
        λ e.
          Reply-rule (Ended P f) (get_comment_by_id c.new_id g.comments)
            (λ x loaded.
              let same : d ≡ x = row-injective d x (
                sym (get_comment_by_id-head d f.comments)
                ∙ ap (λ (i : ℕ). get_comment_by_id i (d ∷ f.comments)) new
                ∙ ap (λ (l : List Comment). get_comment_by_id c.new_id l) (sym left.comments)
                ∙ loaded) in
              (
                left.ok,
                record {
                  comments = left.comments;
                  notices = left.notices;
                  object =
                      ap (λ (y : Comment). comment_object_from_row y (c.author y.user_id))
                        (sym same);
                },
              ))
            (λ e. failed) (λ e. failed)
