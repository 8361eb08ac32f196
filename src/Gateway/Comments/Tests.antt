-- ===== src/Gateway/Comments/Tests.antt =====
-- Requests to the handlers of the comments, and what the properties say of them.
use mokibox.Shared.{
  ℕ, ◌+◌, ◌∙◌, ◌≡◌, refl, ap, sym, true, false, none, some, List, [], ◌∷◌, arith, Bool-cases, inl,
  inr, ◌==◌, length, count_if, if◌then◌else◌, ◌||◌,
}
use mathlib.Core.Option.{some-injective}
use mokibox.Store.Row.{Video, ready}
use mokibox.Store.Table.{find}
use mokibox.Store.Tests.{sample}
use mokibox.Worker.Tests.{host}
use mokibox.Gateway.Tests.{viewing}
use mokibox.Gateway.Comments.{Comment, count_comment_subtree, delete_comment_by_id}
use mokibox.Gateway.Comments.Subtree.{count_comment_subtree-delete}
use mokibox.Gateway.Comments.Handlers.{create_comment, reply_comment, delete_comment}
use mokibox.Gateway.Comments.Handlers.Request.{Forum, Commenting, recipients}
use mokibox.Gateway.Comments.Counter.{IsCounted}
use mokibox.Gateway.Comments.Kept.{Ended}
use mokibox.Gateway.Comments.Ends.{Creation, Replying, create_comment-Ended, reply_comment-Ended}
use mokibox.Gateway.Comments.Deleted.{
  Removal, delete_comment-Ended, create_call, reply_call, delete_call, serve, serve-IsCounted,
}
use mokibox.Gateway.Comments.Fanout.{recipients-once}

-- User 8 has commented on row 1, and user 7, its owner, has replied.
abbrev question : Comment
question = record {
  id = 20;
  video_id = 1;
  user_id = 8;
  parent_id = none;
  content = "how?";
  created_at = 5;
}

abbrev answer : Comment
answer = record question {
  id = 21;
  user_id = 7;
  parent_id = some 20;
  content = "so.";
  created_at = 6;
}

abbrev thread : List Comment
thread = answer ∷ question ∷ []

count_comment_subtree-delete_example :
    (count_comment_subtree 5 20 thread ≡ count_comment_subtree (length thread) 20 thread)
    × (length (delete_comment_by_id 20 thread) + count_comment_subtree 5 20 thread ≡ length thread)
count_comment_subtree-delete_example =
    count_comment_subtree-delete 20 thread 5 (refl, refl, (refl, refl, tt)) (omega arith)

abbrev commented : Video
commented = record (sample 1 ready) { comments_count = 2 }

abbrev forum : Forum
forum = record { videos = commented ∷ []; comments = thread; notices = [] }

forum-counted :
    (id : ℕ) (v : Video)
    → find id (commented ∷ []) ≡ some v
    → v.comments_count ≡ count_if (λ (c : Comment). c.video_id == id) thread
unfolding find
forum-counted id v e = elim (Bool-cases (1 == id)) [
  | inl k ↦
      sym (ap (λ (x : Video). x.comments_count) (some-injective commented v (rw k at e)))
      ∙ rw k refl
  | inr k ↦ absurd (ground arith)
]

forum-IsCounted : IsCounted forum
forum-IsCounted = record { counted = forum-counted; threaded = (refl, refl, (refl, refl, tt)) }

-- User 8 sends the path parameter 1.
abbrev commenting : Commenting
commenting = record {
  configured = true;
  user = some 8;
  id_param = "1";
  binds = true;
  valid = none;
  content = "again?";
  viewing = viewing;
  author =
      λ u. record { username = "u"; display_name = none; avatar_url = none; is_private = false };
  new_id = 22;
  now = 7;
  owner_last = false;
  load_fails = false;
  begin_fails = false;
  insert_fails = false;
  subtree_fails = false;
  delete_fails = false;
  count_fails = false;
  notify_fails = λ u. false;
  commit_fails = false;
  reload_fails = false;
}

create_comment-Ended_example :
    Ended (Creation host commenting forum) forum (create_comment host commenting forum)
create_comment-Ended_example = create_comment-Ended host commenting forum forum-IsCounted

serve-IsCounted_example : IsCounted (
    serve host (create_call commenting ∷ reply_call commenting ∷ delete_call commenting ∷ []) forum)
serve-IsCounted_example =
    serve-IsCounted host
      (create_call commenting ∷ reply_call commenting ∷ delete_call commenting ∷ []) forum
      forum-IsCounted

-- Comment 1 of user 8, with a reply of user 7.
abbrev small_thread : List Comment
small_thread = record answer { parent_id = some 1 } ∷ record question { id = 1 } ∷ []

abbrev small : Forum
small = record { videos = commented ∷ []; comments = small_thread; notices = [] }

small-IsCounted : IsCounted small
small-IsCounted = record { counted = forum-counted; threaded = (refl, refl, (refl, refl, tt)) }

reply_comment-Ended_example :
    Ended (Replying host commenting small) small (reply_comment host commenting small)
reply_comment-Ended_example = reply_comment-Ended host commenting small small-IsCounted

delete_comment-Ended_example :
    Ended (Removal host commenting small) small (delete_comment host commenting small)
delete_comment-Ended_example = delete_comment-Ended host commenting small small-IsCounted

recipients-once_example :
    count_if (λ u. u == 7) (recipients true 8 7 7)
    ≡ (if 7 == 8 then 0 else if 7 == 7 || 7 == 7 then 1 else 0)
recipients-once_example = recipients-once true 8 7 7 7
