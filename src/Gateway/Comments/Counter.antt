-- ===== src/Gateway/Comments/Counter.antt =====
-- The counter of comments and the rows of the comments table, through the transactions of
-- api-gateway/handlers/social.go.
use mokibox.Shared.{
  ℕ, ◌+◌, ◌-◌, ◌≡◌, refl, subst, ap, sym, ◌∙◌, ◌≢◌, Bool, true, false, false≢true, some, List, [],
  ◌∷◌, ◌++◌, map, arith, length, ◌==◌, ==_iff, ltb, inl, inr, Bool-cases,
}
use mathlib.Core.List.{append_assoc, append-nil}
use mokibox.Shared.Platform.{Platform}
use mokibox.Store.Row.{Video}
use mokibox.Store.Table.{Table, Reply, fault, find, update_one, find-update_one}
use mokibox.Store.Statements.{increment_comments_count, decrement_comments_count_by, any_row, sent}
use mokibox.Store.Replies.{update_one-cases, sent-delivered}
use mokibox.Worker.Transcode.Ends.{if-rule, Reply-rule}
use mokibox.Gateway.Upload.{Response, done}
use mokibox.Gateway.Comments.{
  Comment, has_row, insert_comment, cascade, delete_comment_by_id, IsThreaded,
}
use mokibox.Gateway.Comments.Subtree.{count_comment_subtree-cascade}
use mokibox.Gateway.Comments.Rows.{
  comments_of, comments_of-delete, delete_comment_by_id-IsThreaded, insert_comment-row,
}
use mokibox.Gateway.Comments.Handlers.{
  notify, count_comment, comment_body, uncount_comments, delete_body,
}
use mokibox.Gateway.Comments.Handlers.Request.{Forum, Notice, notice_of, Commenting}

-- Each row's counter is the number of the video's comments, and the table meets its constraints.
pub record IsCounted (f : Forum) : Type 0 where
  pub counted :
      (id : ℕ) (v : Video)
      → find id f.videos ≡ some v
      → v.comments_count ≡ comments_of id f.comments
  pub threaded : IsThreaded f.comments

-- The comments of one video changed, and its counter with them.
recount :
    (f g : Forum) (id : ℕ)
    → IsCounted f
    → IsThreaded g.comments
    → ((u : Video) → find id g.videos ≡ some u → u.comments_count ≡ comments_of id g.comments)
    → ((j : ℕ) → (id == j) ≡ false → find j g.videos ≡ find j f.videos)
    → ((j : ℕ) → (id == j) ≡ false → comments_of j g.comments ≡ comments_of j f.comments)
    → IsCounted g
recount f g id c threaded here rows comments = record {
  counted = λ j v found. elim (Bool-cases (id == j)) [
    | inl e ↦
        let same = (==_iff id j).0 e in
        here v (ap (λ (i : ℕ). find i g.videos) same ∙ found)
        ∙ ap (λ (i : ℕ). comments_of i g.comments) same
    | inr e ↦ c.counted j v (sym (rows j e) ∙ found) ∙ sym (comments j e)
  ];
  threaded = threaded;
}

-- A statement on the counter of one video, which adds or takes what its comments gained or lost.
recount-update :
    (f : Forum) (id : ℕ) (s : Video → Video) (cs : List Comment) (lost : Bool)
    (q : Table × Reply Video)
    → ((v : Video) → (s v).id ≡ v.id)
    → q ≡ update_one id any_row s f.videos
    → IsCounted f
    → IsThreaded cs
    → ((v : Video)
        → v.comments_count ≡ comments_of id f.comments
        → (s v).comments_count ≡ comments_of id cs)
    → ((j : ℕ) → (id == j) ≡ false → comments_of j cs ≡ comments_of j f.comments)
    → (sent lost f.videos q).1 ≢ fault
    → IsCounted (record f { videos = (sent lost f.videos q).0; comments = cs })
recount-update f id s cs lost q keeps is c threaded here others fine =
    let same = sent-delivered lost f.videos q fine ∙ is in
    let delivered = λ (k : (update_one id any_row s f.videos).1 ≡ fault).
      fine (ap (λ (x : Table × Reply Video). x.1) same ∙ k) in
    subst (λ (t : Table). IsCounted (record f { videos = t; comments = cs }))
      (sym (ap (λ (x : Table × Reply Video). x.0) same))
      (recount f _ id c threaded
        (λ u found.
          let (v, k, changed) = update_one-cases id any_row s keeps f.videos u delivered found in
          elim changed [
            | inl (m, e) ↦ ap (λ (z : Video). z.comments_count) e ∙ here v (c.counted id v k)
            | inr (m, e) ↦ absurd (false≢true (sym m))
          ])
        (λ j n. find-update_one id any_row s keeps j f.videos ∙ rw n refl) others)

-- A transaction that ends well leaves the counters true.
abbrev pub Good : Forum × Response Unit → Type 0
Good r = r.1 ≡ done tt → IsCounted r.0

-- What posting a comment makes of the tables.
pub record Posted (user : ℕ) (d : Comment) (us : List ℕ) (f g : Forum) : Type 0 where
  pub ok : IsCounted g
  pub comments : g.comments ≡ d ∷ f.comments
  pub notices : g.notices ≡ f.notices ++ map (notice_of user d) us

abbrev pub Posts : ℕ → Comment → List ℕ → Forum → Forum × Response Unit → Type 0
Posts user d us f r = r.1 ≡ done tt → Posted user d us f r.0

module _ (p : Platform) (c : Commenting) where
  notify-Posts :
      (user : ℕ) (d : Comment) (us : List ℕ) (f g : Forum)
      → IsCounted g
      → g.comments ≡ d ∷ f.comments
      → (before : List Notice) → g.notices ≡ f.notices ++ before
      → (notify p c user d us g).1 ≡ done tt
      → IsCounted (notify p c user d us g).0
        × ((notify p c user d us g).0.comments ≡ d ∷ f.comments)
        × ((notify p c user d us g).0.notices ≡ f.notices ++ (before ++ map (notice_of user d) us))
  unfolding notify
  notify-Posts user d [] f g ok made before told =
      λ e. (ok, made, told ∙ ap (λ (l : List Notice). f.notices ++ l) (sym (append-nil before)))
  notify-Posts user d (u ∷ us) f g ok made before told =
      let n = notice_of user d u in
      let R = λ (r : Forum × Response Unit).
        r.1 ≡ done tt
        → IsCounted r.0
          × (r.0.comments ≡ d ∷ f.comments)
          × (r.0.notices ≡ f.notices ++ (before ++ (n ∷ map (notice_of user d) us))) in
      let g' = record g { notices = g.notices ++ n ∷ [] } in
      if-rule R (c.notify_fails u) (λ e k. cc)
        (λ e.
          subst
            (λ (l : List Notice).
              (notify p c user d us g').1 ≡ done tt
              → IsCounted (notify p c user d us g').0
                × ((notify p c user d us g').0.comments ≡ d ∷ f.comments)
                × ((notify p c user d us g').0.notices ≡ f.notices ++ l))
            (append_assoc before (n ∷ []) (map (notice_of user d) us))
            (notify-Posts user d us f g' (record { counted = ok.counted; threaded = ok.threaded })
              made (before ++ n ∷ [])
              (ap (λ (l : List Notice). l ++ n ∷ []) told
                ∙ append_assoc f.notices before (n ∷ []))))

  notify-Posted :
      (user : ℕ) (d : Comment) (us : List ℕ) (f g : Forum)
      → IsCounted g
      → g.comments ≡ d ∷ f.comments
      → g.notices ≡ f.notices
      → Posts user d us f (notify p c user d us g)
  notify-Posted user d us f g ok made same e =
      let (ok', made', noted) =
        notify-Posts user d us f g ok made [] (same ∙ sym (append-nil f.notices)) e in
      record { ok = ok'; comments = made'; notices = noted }

  count_comment-Posts :
      (user : ℕ) (d : Comment) (us : List ℕ) (f : Forum)
      → IsCounted f
      → IsThreaded (d ∷ f.comments)
      → Posts user d us f (count_comment p c user d us (record f { comments = d ∷ f.comments }))
  unfolding count_comment increment_comments_count
  count_comment-Posts user d us f ok threaded =
      let q = increment_comments_count d.video_id f.videos in
      let sound =
        recount-update f d.video_id (λ v. record v { comments_count = v.comments_count + 1 })
          (d ∷ f.comments) c.count_fails q (λ v. refl) refl ok threaded
          (λ v e. ground (arith, ==_iff d.video_id d.video_id)) (λ j n. ground arith) in
      let told = λ (fine : (sent c.count_fails f.videos q).1 ≢ fault).
        notify-Posted user d us f _ (sound fine) refl refl in
      Reply-rule (Posts user d us f) (sent c.count_fails f.videos q).1 (λ v e. told (λ k. cc))
        (λ e. told (λ k. cc)) (λ e k. cc)

  pub comment_body-Posts :
      (user : ℕ) (d : Comment) (us : List ℕ) (f : Forum)
      → IsCounted f
      → Posts user d us f (comment_body p c user d us f)
  unfolding comment_body
  comment_body-Posts user d us f ok =
      let R = Posts user d us f in
      if-rule R c.insert_fails (λ e k. cc)
        λ e.
          Reply-rule R (insert_comment d f.videos f.comments).1
            (λ x inserted.
              let (cs, same, threaded) =
                insert_comment-row d x f.videos f.comments ok.threaded inserted in
              subst
                (λ (z : Comment). R (
                  count_comment p c user z us
                    (record f { comments = (insert_comment d f.videos f.comments).0 })))
                (sym same)
                (subst
                  (λ (l : List Comment).
                    R (count_comment p c user d us (record f { comments = l })))
                  (sym cs) (count_comment-Posts user d us f ok threaded)))
            (λ e k. cc) (λ e k. cc)

  uncount_comments-Good :
      (d : Comment) (f : Forum)
      → IsCounted f
      → has_row d.id d.video_id f.comments ≡ true
      → Good (
          uncount_comments p c d.video_id
            (length (cascade d.id f.comments))
            (record f { comments = delete_comment_by_id d.id f.comments }))
  unfolding uncount_comments decrement_comments_count_by
  uncount_comments-Good d f ok here =
      let n = length (cascade d.id f.comments) in
      let q = decrement_comments_count_by d.video_id n f.videos in
      let gone = comments_of-delete d.id d.video_id f.comments ok.threaded here in
      let threaded = delete_comment_by_id-IsThreaded d.id f.comments ok.threaded in
      if-rule Good (ltb 0 n)
        (λ e.
          let sound =
            recount-update f d.video_id (λ v. record v { comments_count = v.comments_count - n })
              (delete_comment_by_id d.id f.comments) c.count_fails q (λ v. refl) refl ok threaded
              (λ v e. ground (arith, gone d.video_id, ==_iff d.video_id d.video_id))
              (λ j n. ground (arith, gone j)) in
          Reply-rule Good (sent c.count_fails f.videos q).1 (λ v e k. sound (λ k. cc))
            (λ e k. sound (λ k. cc)) (λ e k. cc))
        (λ e k. record {
          counted = λ j v found. ok.counted j v found ∙ ground (arith, gone j);
          threaded = threaded;
        })

  pub delete_body-Good :
      (d : Comment) (f : Forum)
      → IsCounted f
      → has_row d.id d.video_id f.comments ≡ true
      → Good (delete_body p c d f)
  unfolding delete_body
  delete_body-Good d f ok here =
      if-rule Good c.subtree_fails (λ e k. cc)
        λ e.
          if-rule Good c.delete_fails (λ e k. cc)
            λ e.
              subst
                (λ (n : ℕ). Good (
                  uncount_comments p c d.video_id n
                    (record f { comments = delete_comment_by_id d.id f.comments })))
                (sym (
                  count_comment_subtree-cascade d.id f.comments (length f.comments) ok.threaded
                    (omega arith)))
                (uncount_comments-Good d f ok here)
