-- ===== src/Gateway/Comments/Rows.antt =====
-- What deleting a comment leaves of the comments table (shared/db/comments.sql.go).
use mokibox.Shared.{
  ℕ, ◌+◌, ◌≡◌, refl, sym, ◌∙◌, subst, Bool, true, false, ◌||◌, ◌&&◌, none, some, List, [], ◌∷◌,
  arith, any, count_if, length, ◌==◌, ==_iff, if◌then◌else◌, inl, inr, Bool-cases, Option-cases,
}
use mokibox.Store.Table.{Table, Reply, row}
use mokibox.Store.Replies.{row-injective}
use mokibox.Worker.Transcode.Ends.{if-rule}
use mokibox.Gateway.Comments.{
  Comment, replies_to, has_id, has_row, has_parent, get_comment_by_id, insert_comment, cascade,
  delete_comment_by_id, IsThreaded,
}
use mokibox.Gateway.Comments.Subtree.{cascade_without}

-- The number of a video's comments.
abbrev pub comments_of : ℕ → List Comment → ℕ
comments_of video cs = count_if (λ c. c.video_id == video) cs

abbrev holds : ℕ → List ℕ → Bool
holds x ids = any (λ y. x == y) ids

replies_to-holds :
    (c : Comment) (q : ℕ) (ids : List ℕ)
    → c.parent_id ≡ some q
    → any (replies_to c) ids ≡ holds q ids
replies_to-holds c q [] k = refl
replies_to-holds c q (x ∷ ids) k = ground (arith, replies_to-holds c q ids k)

replies_to-none : (c : Comment) (ids : List ℕ) → c.parent_id ≡ none → any (replies_to c) ids ≡ false
replies_to-none c [] n = refl
replies_to-none c (x ∷ ids) n = ground (arith, replies_to-none c ids n)

cascade-has_id :
    (x id : ℕ) (cs : List Comment) → holds x (cascade id cs) ≡ true → has_id x cs ≡ true
unfolding cascade
cascade-has_id x id [] h = h
cascade-has_id x id (c ∷ cs) h =
    ground (arith, cascade-has_id x id cs, ==_iff x c.id, ==_iff c.id x)

has_row-has_id : (x w : ℕ) (cs : List Comment) → has_row x w cs ≡ true → has_id x cs ≡ true
has_row-has_id x w [] e = e
has_row-has_id x w (c ∷ cs) e = ground (arith, has_row-has_id x w cs)

-- A row that the cascade leaves keeps its id and video.
delete-has_row :
    (id x w : ℕ) (cs : List Comment)
    → holds x (cascade id cs) ≡ false
    → has_row x w cs ≡ true
    → has_row x w (delete_comment_by_id id cs) ≡ true
unfolding cascade delete_comment_by_id
delete-has_row id x w [] h e = e
delete-has_row id x w (c ∷ cs) h e =
    ground (arith, delete-has_row id x w cs, ==_iff x c.id, ==_iff c.id x)

delete-has_id :
    (id x : ℕ) (cs : List Comment)
    → has_id x cs ≡ false
    → has_id x (delete_comment_by_id id cs) ≡ false
unfolding delete_comment_by_id
delete-has_id id x [] e = e
delete-has_id id x (c ∷ cs) e = ground (arith, delete-has_id id x cs)

-- Deleting keeps the constraints of the table.
pub delete_comment_by_id-IsThreaded :
    (id : ℕ) (cs : List Comment) → IsThreaded cs → IsThreaded (delete_comment_by_id id cs)
unfolding delete_comment_by_id
delete_comment_by_id-IsThreaded id [] t = tt
delete_comment_by_id-IsThreaded id (c ∷ cs) (fresh, parent, t) =
    let rest = delete_comment_by_id-IsThreaded id cs t in
    elim (Bool-cases (c.id == id || any (replies_to c) (cascade id cs))) [
      | inl gone ↦ rw gone rest
      | inr kept ↦ rw kept (
        delete-has_id id c.id cs fresh,
        elim (Option-cases c.parent_id) [
          | inl n ↦ rw n refl
          | inr (q, k) ↦ rw k (
              delete-has_row id q c.video_id cs
                (sym (replies_to-holds c q (cascade id cs) k) ∙ ground arith) (rw k at parent))
        ],
        rest,
      )
    ]

-- A reply to a row of the cascade is of its video.
reply-video :
    (c : Comment) (id video : ℕ) (cs : List Comment)
    → has_parent c.parent_id c.video_id cs ≡ true
    → ((x w : ℕ) → holds x (cascade id cs) ≡ true → has_row x w cs ≡ true → w ≡ video)
    → any (replies_to c) (cascade id cs) ≡ true
    → c.video_id ≡ video
reply-video c id video cs parent older a = elim (Option-cases c.parent_id) [
  | inl n ↦ ground (arith, replies_to-none c (cascade id cs) n)
  | inr (q, k) ↦
      older q c.video_id (sym (replies_to-holds c q (cascade id cs) k) ∙ a) (rw k at parent)
]

fresh_row :
    (x y w : ℕ) (cs : List Comment) → has_id x cs ≡ false → (x == y) ≡ true → has_row y w cs ≡ false
fresh_row x y w [] fresh e = refl
fresh_row x y w (c ∷ cs) fresh e =
    ground (arith, fresh_row x y w cs, ==_iff x y, ==_iff c.id y, ==_iff c.id x)

fresh_id :
    (x y : ℕ) (cs : List Comment) → has_id x cs ≡ false → (x == y) ≡ true → has_id y cs ≡ false
fresh_id x y cs fresh e = subst (λ (z : ℕ). has_id z cs ≡ false) ((==_iff x y).0 e) fresh

-- The rows of a cascade are of one video.
cascade-video :
    (id video : ℕ) (cs : List Comment)
    → IsThreaded cs
    → has_row id video cs ≡ true
    → (x w : ℕ) → holds x (cascade id cs) ≡ true
    → has_row x w cs ≡ true
    → w ≡ video
unfolding cascade
cascade-video id video [] t here x w h e = ground arith
cascade-video id video (c ∷ cs) (fresh, parent, t) here x w h e = elim (Bool-cases (c.id == id)) [
  | inl r ↦
      let empty = cascade_without id cs t (fresh_id c.id id cs fresh r) in
      let alone = fresh_row c.id id video cs fresh r in
      ground (arith, empty, alone, fresh_row c.id x w cs fresh, ==_iff x c.id, ==_iff c.id x)
  | inr n ↦
      let older = cascade-video id video cs t (ground arith) in
      let up = reply-video c id video cs parent older in
      ground (
        arith,
        up,
        older x w,
        cascade-has_id x id cs,
        fresh_id c.id x cs fresh,
        fresh_row c.id x w cs fresh,
        ==_iff x c.id,
        ==_iff c.id x,
      )
]

cascade-of_video :
    (id video : ℕ) (c : Comment) (cs : List Comment)
    → IsThreaded (c ∷ cs)
    → has_row id video (c ∷ cs) ≡ true
    → (c.id == id || any (replies_to c) (cascade id cs)) ≡ true
    → c.video_id ≡ video
unfolding cascade
cascade-of_video id video c cs t here gone =
    cascade-video id video (c ∷ cs) t here c.id c.video_id (ground (arith, ==_iff c.id c.id))
      (ground (arith, ==_iff c.id c.id, ==_iff c.video_id c.video_id))

delete_without :
    (id : ℕ) (cs : List Comment)
    → IsThreaded cs
    → has_id id cs ≡ false
    → delete_comment_by_id id cs ≡ cs
unfolding delete_comment_by_id
delete_without id [] t e = refl
delete_without id (c ∷ cs) (fresh, parent, t) e =
    ground (arith, delete_without id cs t, cascade_without id cs t)

-- Deleting a comment of a video takes the rows of its cascade from that video's.
pub comments_of-delete :
    (id video : ℕ) (cs : List Comment)
    → IsThreaded cs
    → has_row id video cs ≡ true
    → (j : ℕ)
    → comments_of j (delete_comment_by_id id cs)
        + (if video == j then length (cascade id cs) else 0)
      ≡ comments_of j cs
unfolding delete_comment_by_id cascade
comments_of-delete id video [] t here j = ground arith
comments_of-delete id video (c ∷ cs) (fresh, parent, t) here j =
    let of_video = cascade-of_video id video c cs (fresh, parent, t) here in
    elim (Bool-cases (c.id == id)) [
      | inl r ↦
          let gone = fresh_id c.id id cs fresh r in
          ground (arith, of_video, cascade_without id cs t gone, delete_without id cs t gone)
      | inr n ↦ ground (arith, of_video, comments_of-delete id video cs t (ground arith) j)
    ]

pub get_comment_by_id-row :
    (id : ℕ) (cs : List Comment) (c : Comment)
    → get_comment_by_id id cs ≡ row c
    → (c.id ≡ id) × (has_row id c.video_id cs ≡ true)
unfolding get_comment_by_id
get_comment_by_id-row id [] c e = cc
get_comment_by_id-row id (d ∷ cs) c e = elim (Bool-cases (d.id == id)) [
  | inl k ↦
      let same = row-injective d c (rw k at e) in
      subst (λ (x : Comment). (x.id ≡ id) × (has_row id x.video_id (d ∷ cs) ≡ true)) same
        ((==_iff d.id id).0 k, ground (arith, ==_iff d.video_id d.video_id))
  | inr k ↦ let (same, held) = get_comment_by_id-row id cs c (rw k at e) in (same, ground arith)
]

-- An insertion adds one row, which meets the constraints, or fails.
pub insert_comment-row :
    (c d : Comment) (t : Table) (cs : List Comment)
    → IsThreaded cs
    → (insert_comment c t cs).1 ≡ row d
    → ((insert_comment c t cs).0 ≡ c ∷ cs) × (d ≡ c) × IsThreaded (c ∷ cs)
unfolding insert_comment
insert_comment-row c d t cs th =
    let R = λ (q : List Comment × Reply Comment).
      q.1 ≡ row d → (q.0 ≡ c ∷ cs) × (d ≡ c) × IsThreaded (c ∷ cs) in
    if-rule R (has_id c.id cs) (λ held e. cc)
      λ fresh.
        if-rule R (any (λ v. v.id == c.video_id) t && has_parent c.parent_id c.video_id cs)
          (λ ok e. (refl, sym (row-injective c d e), (fresh, ground arith, th))) (λ k e. cc)
