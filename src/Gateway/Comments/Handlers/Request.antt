-- ===== src/Gateway/Comments/Handlers/Request.antt =====
-- The tables, requests and answers of the handlers of comments, and who is told of one (api-gateway/handlers/social.go).
use mokibox.Shared.{
  ℕ, String, Bool, true, false, ◌||◌, any, Option, List, [], ◌∷◌, ◌++◌, ◌==◌, if◌then◌else◌,
}
use mokibox.Store.Table.{Table}
use mokibox.Gateway.Errors.{Error}
use mokibox.Gateway.Visibility.{Viewing}
use mokibox.Gateway.Comments.{Comment}

-- A notification of type "comment", with the ids of its payload.
pub record Notice : Type 0 where
  pub user_id : ℕ
  pub actor_id : ℕ
  pub video_id : ℕ
  pub comment_id : ℕ

abbrev pub notice_of : ℕ → Comment → ℕ → Notice
notice_of user d u = record {
  user_id = u;
  actor_id = user;
  video_id = d.video_id;
  comment_id = d.id;
}

-- The tables that the handlers write.
pub record Forum : Type 0 where
  pub videos : Table
  pub comments : List Comment
  pub notices : List Notice

-- The columns of the author that a joined row shows.
pub record Author : Type 0 where
  pub username : String
  pub display_name : Option String
  pub avatar_url : Option String
  pub is_private : Bool

pub record CommentObject : Type 0 where
  pub id : ℕ
  pub video_id : ℕ
  pub user_id : ℕ
  pub parent_id : Option ℕ
  pub content : String
  pub created_at : ℕ
  pub user : Author

-- commentObjectFromRow
abbrev pub comment_object_from_row : Comment → Author → CommentObject
comment_object_from_row c a = record {
  id = c.id;
  video_id = c.video_id;
  user_id = c.user_id;
  parent_id = c.parent_id;
  content = c.content;
  created_at = c.created_at;
  user = a;
}

-- A request: whether its body binds and passes the validator (none is nil), and which statements
-- fail. `new_id` and `now` are what the database gives a new row, `author` the users table, and
-- `owner_last` the order in which Go walks the map of the recipients.
pub record Commenting : Type 0 where
  pub configured : Bool
  pub user : Option ℕ
  pub id_param : String
  pub binds : Bool
  pub valid : Option Error
  pub content : String
  pub viewing : Viewing
  pub author : ℕ → Author
  pub new_id : ℕ
  pub now : ℕ
  pub owner_last : Bool
  pub load_fails : Bool
  pub begin_fails : Bool
  pub insert_fails : Bool
  pub subtree_fails : Bool
  pub delete_fails : Bool
  pub count_fails : Bool
  pub notify_fails : ℕ → Bool
  pub commit_fails : Bool
  pub reload_fails : Bool

-- A set of recipients, and the order of a walk over it.
abbrev pub add_recipient : ℕ → ℕ → List ℕ → List ℕ
add_recipient user u us = if u == user || any (λ v. v == u) us then us else us ++ u ∷ []

abbrev pub walk : Bool → List ℕ → List ℕ
walk false us = us
walk true [] = []
walk true (u ∷ us) = us ++ u ∷ []

unfoldable pub recipients : Bool → ℕ → ℕ → ℕ → List ℕ
recipients owner_last user owner author =
    walk owner_last (add_recipient user author (add_recipient user owner []))
