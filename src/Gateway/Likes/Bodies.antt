-- ===== src/Gateway/Likes/Bodies.antt =====
-- The bodies of the transactions of LikeVideo and UnlikeVideo (api-gateway/handlers/social.go).
use mokibox.Shared.{
  ℕ, ◌≡◌, ◌≢◌, refl, subst, ap, sym, ◌∙◌, Bool, true, false, not, List, [], ◌∷◌, arith, any,
  keep_if, ◌==◌, ==_iff, inl, inr, Bool-cases,
}
use mokibox.Shared.Platform.{Platform}
use mokibox.Store.Row.{Video}
use mokibox.Store.Table.{Table, Reply, row, no_rows, fault}
use mokibox.Store.Statements.{increment_likes_count, decrement_likes_count, sent}
use mokibox.Store.Replies.{sent-delivered}
use mokibox.Worker.Transcode.Ends.{if-rule, Reply-rule}
use mokibox.Gateway.Errors.{wrapped, err_internal}
use mokibox.Gateway.Upload.{Response, refuse, done}
use mokibox.Gateway.Likes.{
  Like, is_like, Social, insert_like, delete_like, Liking, notify_owner, like_body, unlike_body,
  count_like, uncount_like,
}
use mokibox.Gateway.Likes.Counter.{
  IsCounted, increment_likes_count-IsCounted, decrement_likes_count-IsCounted,
}

-- A body that ends well.
abbrev pub Good : Bool → ℕ → ℕ → Social × Response Unit → Type 0
Good present user id r = r.1 ≡ done tt → IsCounted r.0 × (any (is_like user id) r.0.likes ≡ present)

any-drop :
    (user id : ℕ) (ls : List Like)
    → any (is_like user id) (keep_if (λ l. not (is_like user id l)) ls) ≡ false
any-drop user id [] = refl
any-drop user id (l ∷ ls) = ground (arith, any-drop user id ls)

notify_owner-Good :
    (p : Platform) (c : Liking) (user id : ℕ) (v : Video) (s : Social)
    → IsCounted s
    → any (is_like user id) s.likes ≡ true
    → Good true user id (notify_owner p c user v s)
unfolding notify_owner
notify_owner-Good p c user id v s ok mine =
    let G = Good true user id in
    if-rule G (user == v.user_id) (λ e k. (ok, mine))
      λ e.
        if-rule G c.notify_fails (λ e k. cc)
          λ e k. (record { counted = ok.counted; once = ok.once }, mine)

mine :
    (user id : ℕ) (ls : List Like)
    → any (is_like user id) (record { user_id = user; video_id = id } ∷ ls) ≡ true
mine user id ls = ground (arith, ==_iff user user, ==_iff id id)

insert_like-new :
    (user id : ℕ) (t : Table) (ls : List Like)
    → any (is_like user id) ls ≡ false
    → any (λ v. v.id == id) t ≡ true
    → insert_like user id t ls ≡ (
      record { user_id = user; video_id = id } ∷ ls,
      row (record { user_id = user; video_id = id }),
    )
unfolding insert_like
insert_like-new user id t ls fresh here = rw fresh (rw here refl)

delete_like-old :
    (user id : ℕ) (ls : List Like)
    → any (is_like user id) ls ≡ true
    → delete_like user id ls
      ≡ (keep_if (λ l. not (is_like user id l)) ls, row (record { user_id = user; video_id = id }))
unfolding delete_like
delete_like-old user id ls liked = rw liked refl

IsCounted-after :
    (fails : Bool) (s : Social) (user id : ℕ)
    → IsCounted s
    → any (is_like user id) s.likes ≡ false
    → (sent fails s.videos (increment_likes_count id s.videos)).1 ≢ fault
    → IsCounted (record s {
      videos = (sent fails s.videos (increment_likes_count id s.videos)).0;
      likes = record { user_id = user; video_id = id } ∷ s.likes;
    })
IsCounted-after fails s user id ok fresh fine =
    let q = increment_likes_count id s.videos in
    let same = sent-delivered fails s.videos q fine in
    subst
      (λ (t : Table).
        IsCounted
          (record s { videos = t; likes = record { user_id = user; video_id = id } ∷ s.likes }))
      (sym (ap (λ (x : Table × Reply Video). x.0) same))
      (increment_likes_count-IsCounted s user id s.notified ok fresh
        (λ k. fine (ap (λ (x : Table × Reply Video). x.1) same ∙ k)))

count_like-Good :
    (p : Platform) (c : Liking) (user id : ℕ) (v : Video) (s : Social)
    → IsCounted s
    → any (is_like user id) s.likes ≡ false
    → Good true user id
        (count_like p c user id v (record { user_id = user; video_id = id } ∷ s.likes) s)
unfolding count_like
count_like-Good p c user id v s ok fresh =
    let G = Good true user id in
    let q = increment_likes_count id s.videos in
    let sound = IsCounted-after c.count_fails s user id ok fresh in
    Reply-rule G (sent c.count_fails s.videos q).1
      (λ u e. notify_owner-Good p c user id v _ (sound (λ k. cc)) (mine user id s.likes))
      (λ e. notify_owner-Good p c user id v _ (sound (λ k. cc)) (mine user id s.likes)) (λ e k. cc)

pub like_body-Good :
    (p : Platform) (c : Liking) (user id : ℕ) (v : Video) (s : Social)
    → IsCounted s
    → Good true user id (like_body p c user id v s)
unfolding like_body insert_like
like_body-Good p c user id v s ok =
    let G = Good true user id in
    if-rule G c.like_fails (λ e k. cc)
      λ e. elim (Bool-cases (any (is_like user id) s.likes)) [
        | inl liked ↦ rw liked (λ k. (ok, liked))
        | inr fresh ↦ elim (Bool-cases (any (λ v. v.id == id) s.videos)) [
          | inr lost ↦ rw fresh (rw lost (λ k. cc))
          | inl here ↦
              subst
                (λ (q : List Like × Reply Like). G (elim q.1 [
                  | no_rows ↦ (s, done tt)
                  | fault ↦ (s, refuse (wrapped err_internal))
                  | row l ↦ count_like p c user id v q.0 s
                ]))
                (sym (insert_like-new user id s.videos s.likes fresh here))
                (count_like-Good p c user id v s ok fresh)
        ]
      ]

IsCounted-uncounted :
    (fails : Bool) (s : Social) (user id : ℕ)
    → IsCounted s
    → any (is_like user id) s.likes ≡ true
    → (sent fails s.videos (decrement_likes_count id s.videos)).1 ≢ fault
    → IsCounted (record s {
      videos = (sent fails s.videos (decrement_likes_count id s.videos)).0;
      likes = keep_if (λ l. not (is_like user id l)) s.likes;
    })
IsCounted-uncounted fails s user id ok liked fine =
    let q = decrement_likes_count id s.videos in
    let same = sent-delivered fails s.videos q fine in
    subst
      (λ (t : Table).
        IsCounted (record s { videos = t; likes = keep_if (λ l. not (is_like user id l)) s.likes }))
      (sym (ap (λ (x : Table × Reply Video). x.0) same))
      (decrement_likes_count-IsCounted s user id ok liked
        (λ k. fine (ap (λ (x : Table × Reply Video). x.1) same ∙ k)))

uncount_like-Good :
    (p : Platform) (c : Liking) (user id : ℕ) (s : Social)
    → IsCounted s
    → any (is_like user id) s.likes ≡ true
    → Good false user id (uncount_like p c id (keep_if (λ l. not (is_like user id l)) s.likes) s)
unfolding uncount_like
uncount_like-Good p c user id s ok liked =
    let sound = IsCounted-uncounted c.count_fails s user id ok liked in
    Reply-rule (Good false user id)
      (sent c.count_fails s.videos (decrement_likes_count id s.videos)).1
      (λ u e k. (sound (λ k. cc), any-drop user id s.likes))
      (λ e k. (sound (λ k. cc), any-drop user id s.likes)) (λ e k. cc)

pub unlike_body-Good :
    (p : Platform) (c : Liking) (user id : ℕ) (s : Social)
    → IsCounted s
    → Good false user id (unlike_body p c user id s)
unfolding unlike_body delete_like
unlike_body-Good p c user id s ok =
    let G = Good false user id in
    if-rule G c.like_fails (λ e k. cc)
      λ e. elim (Bool-cases (any (is_like user id) s.likes)) [
        | inr none_yet ↦ rw none_yet (λ k. (ok, none_yet))
        | inl liked ↦
            subst
              (λ (q : List Like × Reply Like). G (elim q.1 [
                | no_rows ↦ (s, done tt)
                | fault ↦ (s, refuse (wrapped err_internal))
                | row l ↦ uncount_like p c id q.0 s
              ]))
              (sym (delete_like-old user id s.likes liked))
              (uncount_like-Good p c user id s ok liked)
      ]
