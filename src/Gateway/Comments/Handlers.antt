-- ===== src/Gateway/Comments/Handlers.antt =====
-- CreateComment, ReplyComment and DeleteComment of api-gateway/handlers/social.go.
pub mod Request
use mokibox.Shared.{
  ℕ, String, Bool, true, false, ◌||◌, any, Option, none, some, List, [], ◌∷◌, ◌++◌, length, ltb,
  ◌==◌, if◌then◌else◌, str_eq,
}
use mokibox.Shared.Platform.{Platform}
use mokibox.Store.Table.{Table, row, no_rows, fault}
use mokibox.Store.Statements.{increment_comments_count, decrement_comments_count_by, sent}
use mokibox.Gateway.Errors.{
  Error, wrapped, new_api_error, err_unauthorized, err_validation, err_internal, err_not_found,
  code_validation_error,
}
use mokibox.Gateway.Upload.{Response, refuse, done}
use mokibox.Gateway.Likes.{in_tx}
use mokibox.Gateway.Visibility.{Viewing, visible, rejects, assert_video_owner_or_visible}
use mokibox.Gateway.Comments.{
  Comment, get_comment_by_id, insert_comment, count_comment_subtree, delete_comment_by_id,
}
use mokibox.Gateway.Comments.Handlers.Request.{
  notice_of, Forum, CommentObject, comment_object_from_row, Commenting, recipients,
}

module _ (p : Platform) (c : Commenting) where
  -- bindCommentContent
  unfoldable pub bind_comment_content : Response String
  bind_comment_content =
      if c.binds
      then elim c.valid [
        | some e ↦ refuse e
        | none ↦
            let content = p.trim_space c.content in
            if str_eq content "" then refuse (new_api_error code_validation_error) else done content
      ]
      else refuse (new_api_error code_validation_error)

  abbrev pub new_comment : ℕ → ℕ → Option ℕ → String → Comment
  new_comment user video parent content = record {
    id = c.new_id;
    video_id = video;
    user_id = user;
    parent_id = parent;
    content = content;
    created_at = c.now;
  }

  -- The notifications of a transaction, one insertion after the other.
  unfoldable pub notify : ℕ → Comment → List ℕ → Forum → Forum × Response Unit
  notify user d [] f = (f, done tt)
  notify user d (u ∷ us) f =
      let rest = notify user d us (record f { notices = f.notices ++ notice_of user d u ∷ [] }) in
      if c.notify_fails u then (f, refuse (wrapped err_internal)) else rest

  -- After InsertComment: IncrementCommentsCount, then the notifications.
  unfoldable pub count_comment : ℕ → Comment → List ℕ → Forum → Forum × Response Unit
  unfolding notify
  count_comment user d us f =
      let (t, counted) =
        sent c.count_fails f.videos (increment_comments_count d.video_id f.videos) in
      let f' = record f { videos = t } in
      elim counted [
        | fault ↦ (f', refuse (wrapped err_internal))
        | no_rows ↦ notify user d us f'
        | row v ↦ notify user d us f'
      ]

  -- The transaction of CreateComment and of ReplyComment.
  unfoldable pub comment_body : ℕ → Comment → List ℕ → Forum → Forum × Response Unit
  unfolding count_comment
  comment_body user d us f =
      if c.insert_fails
      then (f, refuse (wrapped err_internal))
      else (let (cs, reply) = insert_comment d f.videos f.comments in
          elim reply [
            | no_rows ↦ (f, refuse (wrapped err_internal))
            | fault ↦ (f, refuse (wrapped err_internal))
            | row e ↦ count_comment user e us (record f { comments = cs })
          ])

  -- The end of both handlers: the joined row of the new comment.
  unfoldable pub reload_comment : Forum × Response Unit → Forum × Response CommentObject
  reload_comment (f, refuse e) = (f, refuse e)
  reload_comment (f, done a) =
      if c.reload_fails
      then (f, refuse (wrapped err_internal))
      else elim (get_comment_by_id c.new_id f.comments) [
        | row d ↦ (f, done (comment_object_from_row d (c.author d.user_id)))
        | no_rows ↦ (f, refuse (wrapped err_internal))
        | fault ↦ (f, refuse (wrapped err_internal))
      ]

  -- CreateComment, past its checks.
  unfoldable pub create_on : ℕ → ℕ → String → Forum → Forum × Response CommentObject
  unfolding comment_body reload_comment
  create_on user video content f =
      elim (assert_video_owner_or_visible c.viewing user video f.videos) [
        | rejects e ↦ (f, refuse (wrapped e))
        | visible v ↦ reload_comment (
            in_tx c.begin_fails c.commit_fails
              (comment_body user (new_comment user video none content)
                (if user == v.user_id then [] else v.user_id ∷ []))
              f)
      ]

  -- CreateComment
  unfoldable pub create_comment : Forum → Forum × Response CommentObject
  unfolding bind_comment_content create_on
  create_comment f =
      if c.configured
      then elim c.user [
        | none ↦ (f, refuse (wrapped err_unauthorized))
        | some user ↦ elim (p.parse_uuid c.id_param) [
          | none ↦ (f, refuse (wrapped err_validation))
          | some video ↦ elim bind_comment_content [
            | refuse e ↦ (f, refuse e)
            | done content ↦ create_on user video content f
          ]
        ]
      ]
      else (f, refuse (wrapped err_internal))

  -- ReplyComment, past the load of the parent.
  unfoldable pub reply_to : ℕ → Comment → String → Forum → Forum × Response CommentObject
  unfolding comment_body reload_comment recipients
  reply_to user parent content f =
      elim (assert_video_owner_or_visible c.viewing user parent.video_id f.videos) [
        | rejects e ↦ (f, refuse (wrapped e))
        | visible v ↦ reload_comment (
            in_tx c.begin_fails c.commit_fails
              (comment_body user (new_comment user parent.video_id (some parent.id) content)
                (recipients c.owner_last user v.user_id parent.user_id))
              f)
      ]

  -- The load of a comment that ReplyComment and DeleteComment begin with.
  abbrev pub with_comment :
      {A : Type 0} → ℕ → (Comment → Forum → Forum × Response A) → Forum → Forum × Response A
  with_comment id k f =
      if c.load_fails
      then (f, refuse (wrapped err_internal))
      else elim (get_comment_by_id id f.comments) [
        | no_rows ↦ (f, refuse (wrapped err_not_found))
        | fault ↦ (f, refuse (wrapped err_internal))
        | row d ↦ k d f
      ]

  -- ReplyComment
  unfoldable pub reply_comment : Forum → Forum × Response CommentObject
  unfolding bind_comment_content reply_to
  reply_comment f =
      if c.configured
      then elim c.user [
        | none ↦ (f, refuse (wrapped err_unauthorized))
        | some user ↦ elim (p.parse_uuid c.id_param) [
          | none ↦ (f, refuse (wrapped err_validation))
          | some id ↦ elim bind_comment_content [
            | refuse e ↦ (f, refuse e)
            | done content ↦ with_comment id (λ d g. reply_to user d content g) f
          ]
        ]
      ]
      else (f, refuse (wrapped err_internal))

  -- The transaction of DeleteComment, after DeleteCommentByID: DecrementCommentsCountBy.
  unfoldable pub uncount_comments : ℕ → ℕ → Forum → Forum × Response Unit
  uncount_comments video subtree f =
      if ltb 0 subtree
      then (let (t, counted) =
            sent c.count_fails f.videos (decrement_comments_count_by video subtree f.videos) in
          let f' = record f { videos = t } in
          elim counted [
            | fault ↦ (f', refuse (wrapped err_internal))
            | no_rows ↦ (f', done tt)
            | row v ↦ (f', done tt)
          ])
      else (f, done tt)

  -- The transaction of DeleteComment. The recursive query has as many rounds as there are rows.
  unfoldable pub delete_body : Comment → Forum → Forum × Response Unit
  unfolding uncount_comments
  delete_body d f =
      if c.subtree_fails
      then (f, refuse (wrapped err_internal))
      else (let subtree = count_comment_subtree (length f.comments) d.id f.comments in
          if c.delete_fails
          then (f, refuse (wrapped err_internal))
          else uncount_comments d.video_id subtree
              (record f { comments = delete_comment_by_id d.id f.comments }))

  -- DeleteComment, past the load of the comment.
  unfoldable pub delete_own : ℕ → Comment → Forum → Forum × Response Unit
  unfolding delete_body
  delete_own user d f =
      if d.user_id == user
      then in_tx c.begin_fails c.commit_fails (delete_body d) f
      else (f, refuse (wrapped err_not_found))

  -- DeleteComment
  unfoldable pub delete_comment : Forum → Forum × Response Unit
  unfolding delete_own
  delete_comment f =
      if c.configured
      then elim c.user [
        | none ↦ (f, refuse (wrapped err_unauthorized))
        | some user ↦ elim (p.parse_uuid c.id_param) [
          | none ↦ (f, refuse (wrapped err_validation))
          | some id ↦ with_comment id (λ d g. delete_own user d g) f
        ]
      ]
      else (f, refuse (wrapped err_internal))
