-- ===== src/Gateway/Likes.antt =====
-- LikeVideo and UnlikeVideo of api-gateway/handlers/social.go, with the statements of
-- shared/db/likes.sql.go on the likes table. Both write inside one transaction, which keeps the
-- counter of the videos table next to the rows of the likes table.
pub mod Counter
pub mod Bodies
pub mod Told
use mokibox.Shared.{
  ℕ, String, Bool, true, false, not, ◌&&◌, Option, none, some, List, [], ◌∷◌, ◌++◌, any, keep_if,
  ◌==◌, if◌then◌else◌,
}
use mokibox.Shared.Platform.{Platform}
use mokibox.Store.Row.{Video}
use mokibox.Store.Table.{Table, Reply, row, no_rows, fault}
use mokibox.Store.Statements.{get_video_by_id, increment_likes_count, decrement_likes_count, sent}
use mokibox.Gateway.Errors.{Error, wrapped, err_unauthorized, err_validation, err_internal}
use mokibox.Gateway.Upload.{Response, refuse, done}
use mokibox.Gateway.Visibility.{Viewing, visible, rejects, assert_video_owner_or_visible}

-- A row of the likes table; (user_id, video_id) is its primary key.
pub record Like : Type 0 where
  pub user_id : ℕ
  pub video_id : ℕ

abbrev pub is_like : ℕ → ℕ → Like → Bool
is_like user id l = l.user_id == user && l.video_id == id

-- The tables, and the owners that were notified of a like.
pub record Social : Type 0 where
  pub videos : Table
  pub likes : List Like
  pub notified : List ℕ

-- InsertLike: ON CONFLICT DO NOTHING gives sql.ErrNoRows back; a video that is gone breaks the
-- foreign key.
unfoldable pub insert_like : ℕ → ℕ → Table → List Like → List Like × Reply Like
insert_like user id t ls =
    if any (is_like user id) ls
    then (ls, no_rows)
    else if any (λ v. v.id == id) t
    then (let l : Like = record { user_id = user; video_id = id } in (l ∷ ls, row l))
    else (ls, fault)

-- DeleteLike
unfoldable pub delete_like : ℕ → ℕ → List Like → List Like × Reply Like
delete_like user id ls =
    if any (is_like user id) ls
    then (keep_if (λ l. not (is_like user id l)) ls, row (record { user_id = user; video_id = id }))
    else (ls, no_rows)

-- Run of tx.go over these tables.
abbrev pub in_tx : {S A : Type 0} → Bool → Bool → (S → S × Response A) → S → S × Response A
in_tx begin_fails commit_fails body s =
    if begin_fails
    then (s, refuse (wrapped err_internal))
    else (let (s', r) = body s in
        elim r [
          | refuse e ↦ (s, refuse e)
          | done a ↦ if commit_fails then (s, refuse (wrapped err_internal)) else (s', done a)
        ])

-- A request, and which of its statements fail.
pub record Liking : Type 0 where
  pub configured : Bool
  pub user : Option ℕ
  pub id_param : String
  pub viewing : Viewing
  pub begin_fails : Bool
  pub like_fails : Bool
  pub count_fails : Bool
  pub notify_fails : Bool
  pub commit_fails : Bool
  pub reload_fails : Bool

module _ (p : Platform) (c : Liking) where
  -- The end of LikeVideo's transaction: no notification for one's own like.
  unfoldable pub notify_owner : ℕ → Video → Social → Social × Response Unit
  notify_owner user v s =
      if user == v.user_id
      then (s, done tt)
      else if c.notify_fails
      then (s, refuse (wrapped err_internal))
      else (record s { notified = s.notified ++ v.user_id ∷ [] }, done tt)

  -- After InsertLike: IncrementLikesCount, the notification.
  unfoldable pub count_like : ℕ → ℕ → Video → List Like → Social → Social × Response Unit
  unfolding notify_owner
  count_like user id v ls s =
      let (t, counted) = sent c.count_fails s.videos (increment_likes_count id s.videos) in
      let s' = record s { videos = t; likes = ls } in
      elim counted [
        | fault ↦ (s', refuse (wrapped err_internal))
        | no_rows ↦ notify_owner user v s'
        | row u ↦ notify_owner user v s'
      ]

  -- After DeleteLike: DecrementLikesCount.
  unfoldable pub uncount_like : ℕ → List Like → Social → Social × Response Unit
  uncount_like id ls s =
      let (t, counted) = sent c.count_fails s.videos (decrement_likes_count id s.videos) in
      let s' = record s { videos = t; likes = ls } in
      elim counted [
        | fault ↦ (s', refuse (wrapped err_internal))
        | no_rows ↦ (s', done tt)
        | row u ↦ (s', done tt)
      ]

  unfoldable pub like_body : ℕ → ℕ → Video → Social → Social × Response Unit
  unfolding insert_like count_like
  like_body user id v s =
      if c.like_fails
      then (s, refuse (wrapped err_internal))
      else (let (ls, reply) = insert_like user id s.videos s.likes in
          elim reply [
            | no_rows ↦ (s, done tt)
            | fault ↦ (s, refuse (wrapped err_internal))
            | row l ↦ count_like user id v ls s
          ])

  unfoldable pub unlike_body : ℕ → ℕ → Social → Social × Response Unit
  unfolding delete_like uncount_like
  unlike_body user id s =
      if c.like_fails
      then (s, refuse (wrapped err_internal))
      else (let (ls, reply) = delete_like user id s.likes in
          elim reply [
            | no_rows ↦ (s, done tt)
            | fault ↦ (s, refuse (wrapped err_internal))
            | row l ↦ uncount_like id ls s
          ])

  -- The end of both handlers: the count of the reloaded row.
  unfoldable pub reload : ℕ → Social × Response Unit → Social × Response ℕ
  reload id (s, refuse e) = (s, refuse e)
  reload id (s, done a) =
      if c.reload_fails
      then (s, refuse (wrapped err_internal))
      else elim (get_video_by_id id s.videos) [
        | row v ↦ (s, done v.likes_count)
        | no_rows ↦ (s, refuse (wrapped err_internal))
        | fault ↦ (s, refuse (wrapped err_internal))
      ]

  -- What both handlers do before their transaction.
  unfoldable pub with_video :
      (ℕ → ℕ → Video → Social → Social × Response ℕ) → Social → Social × Response ℕ
  with_video f s =
      if c.configured
      then elim c.user [
        | none ↦ (s, refuse (wrapped err_unauthorized))
        | some user ↦ elim (p.parse_uuid c.id_param) [
          | none ↦ (s, refuse (wrapped err_validation))
          | some id ↦ elim (assert_video_owner_or_visible c.viewing user id s.videos) [
            | rejects e ↦ (s, refuse (wrapped e))
            | visible v ↦ f user id v s
          ]
        ]
      ]
      else (s, refuse (wrapped err_internal))

  -- LikeVideo; the data of a success is likes_count.
  unfoldable pub like_video : Social → Social × Response ℕ
  unfolding with_video like_body reload
  like_video s =
      with_video
        (λ user id v s. reload id (in_tx c.begin_fails c.commit_fails (like_body user id v) s)) s

  -- UnlikeVideo
  unfoldable pub unlike_video : Social → Social × Response ℕ
  unfolding with_video unlike_body reload
  unlike_video s =
      with_video
        (λ user id v s. reload id (in_tx c.begin_fails c.commit_fails (unlike_body user id) s)) s
