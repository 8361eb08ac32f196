-- ===== src/Gateway/Account.antt =====
-- The deletion of a user's data: deleteUserData and DeleteMe of api-gateway/handlers/account.go, with the
-- statements that it sends (shared/db/).
pub mod Erased
pub mod Counters
pub mod Drift
pub mod Tests
use mokibox.Shared.{
  ℕ, suc, ◌-◌, String, Bool, true, false, not, ◌&&◌, ◌||◌, Option, none, some, List, [], ◌∷◌, ◌++◌,
  any, keep_if, map, ◌==◌, if◌then◌else◌, str_eq,
}
use mokibox.Store.Row.{Video}
use mokibox.Shared.Platform.{◌<>◌}
use mokibox.Store.Table.{Table, Reply, row, no_rows, fault}
use mokibox.Store.Statements.{decrement_likes_in, decrement_comments_in, delete_videos_by_user}
use mokibox.Worker.World.{World, Task, enqueue_cleanup_objects}
use mokibox.Gateway.Errors.{Error, wrapped, err_internal, err_unauthorized}
use mokibox.Gateway.Upload.{Response, refuse, done}
use mokibox.Gateway.Likes.{Like}
use mokibox.Gateway.Comments.{Comment, replies_to}
use mokibox.Gateway.Follows.Statements.{Follow}

-- The columns of the users table that the deletion writes, and the inbox of notifications.
pub record Member : Type 0 where
  pub id : ℕ
  pub zitadel_id : String
  pub username : String
  pub is_active : Bool
  pub deleted_at : Option ℕ
  pub display_name : Option String
  pub bio : Option String
  pub avatar_url : Option String

pub record Inbox : Type 0 where
  pub user_id : ℕ
  pub actor_id : ℕ

-- All tables, with the queue in `world`.
pub record Accounts : Type 0 where
  pub world : World
  pub likes : List Like
  pub comments : List Comment
  pub follows : List Follow
  pub inbox : List Inbox
  pub users : List Member

-- ListVideoKeysByUser, and the keys that collectUserR2Keys makes of its rows.
abbrev pub keys_of_row : Video → List String
keys_of_row v =
    v.r2_key
    ∷ elim v.thumbnail_key [ none ↦ [] | some key ↦ if str_eq key "" then [] else key ∷ [] ]

unfoldable pub list_video_keys : ℕ → Table → List String
list_video_keys user [] = []
list_video_keys user (v ∷ vs) =
    let rest = list_video_keys user vs in if v.user_id == user then keys_of_row v ++ rest else rest

-- DecrementLikesForUser and DecrementCommentsForUser: one less on each video that the user has liked,
-- or has commented on.
abbrev pub likes_video : ℕ → ℕ → Like → Bool
likes_video user id l = l.user_id == user && l.video_id == id

unfoldable pub decrement_likes_for_user : ℕ → List Like → Table → Table
unfolding decrement_likes_in
decrement_likes_for_user user ls = decrement_likes_in (λ id. any (likes_video user id) ls)

abbrev pub comments_on : ℕ → ℕ → Comment → Bool
comments_on user id c = c.user_id == user && c.video_id == id

unfoldable pub decrement_comments_for_user : ℕ → List Comment → Table → Table
unfolding decrement_comments_in
decrement_comments_for_user user cs = decrement_comments_in (λ id. any (comments_on user id) cs)

-- A row of this video goes away with it: ON DELETE CASCADE.
abbrev pub goes_with : ℕ → Table → ℕ → Bool
goes_with user t video = any (λ v. v.id == video && v.user_id == user) t

-- DeleteCommentsByUser, with the replies that ON DELETE CASCADE takes; the parent of a reply stands
-- after it.
unfoldable pub cascade_by_user : ℕ → List Comment → List ℕ
cascade_by_user user [] = []
cascade_by_user user (c ∷ cs) =
    let below = cascade_by_user user cs in
    if c.user_id == user || any (replies_to c) below then c.id ∷ below else below

unfoldable pub delete_comments_by_user : ℕ → List Comment → List Comment
unfolding cascade_by_user
delete_comments_by_user user [] = []
delete_comments_by_user user (c ∷ cs) =
    let rest = delete_comments_by_user user cs in
    if c.user_id == user || any (replies_to c) (cascade_by_user user cs) then rest else c ∷ rest

-- DeleteFollowsByFollower, DeleteFollowsByFollowee, DeleteLikesByUser, DeleteNotificationsForUser and
-- DeleteNotificationsByActor.
abbrev pub delete_follows_by_follower : ℕ → List Follow → List Follow
delete_follows_by_follower user = keep_if (λ f. not (f.follower_id == user))

abbrev pub delete_follows_by_followee : ℕ → List Follow → List Follow
delete_follows_by_followee user = keep_if (λ f. not (f.followee_id == user))

abbrev pub delete_likes_by_user : ℕ → List Like → List Like
delete_likes_by_user user = keep_if (λ l. not (l.user_id == user))

abbrev pub delete_notifications_for_user : ℕ → List Inbox → List Inbox
delete_notifications_for_user user = keep_if (λ i. not (i.user_id == user))

abbrev pub delete_notifications_by_actor : ℕ → List Inbox → List Inbox
delete_notifications_by_actor user = keep_if (λ i. not (i.actor_id == user))

-- The statements between the list of keys and the tombstone, in their order.
abbrev pub statements : ℕ → List (Accounts → Accounts)
statements user =
    (λ a. record a {
      world = record a.world { videos = decrement_likes_for_user user a.likes a.world.videos };
    })
    ∷ (λ a. record a {
      world = record a.world {
        videos = decrement_comments_for_user user a.comments a.world.videos;
      };
    })
    ∷ (λ a. record a {
      world = record a.world { videos = delete_videos_by_user user a.world.videos };
      likes = keep_if (λ l. not (goes_with user a.world.videos l.video_id)) a.likes;
      comments = keep_if (λ c. not (goes_with user a.world.videos c.video_id)) a.comments;
    })
    ∷ (λ a. record a { follows = delete_follows_by_follower user a.follows })
    ∷ (λ a. record a { follows = delete_follows_by_followee user a.follows })
    ∷ (λ a. record a { likes = delete_likes_by_user user a.likes })
    ∷ (λ a. record a { comments = delete_comments_by_user user a.comments })
    ∷ (λ a. record a { inbox = delete_notifications_for_user user a.inbox })
    ∷ (λ a. record a { inbox = delete_notifications_by_actor user a.inbox })
    ∷ []

-- One statement after the other, the one of number `n` first; none is an error.
abbrev pub execute : (ℕ → Bool) → ℕ → List (Accounts → Accounts) → Accounts → Option Accounts
execute fails n [] a = some a
execute fails n (f ∷ fs) a =
    let rest = execute fails (suc n) fs (f a) in if fails n then none else rest

-- TombstoneUser; its row is not read. `text` is the text of an id.
abbrev pub tombstone : (ℕ → String) → ℕ → Member → Member
tombstone text now u = record u {
  is_active = false;
  deleted_at = some now;
  username = "deleted_" <> text u.id;
  display_name = none;
  bio = none;
  avatar_url = none;
}

abbrev pub tombstone_user : (ℕ → String) → ℕ → ℕ → List Member → List Member
tombstone_user text now user = map (λ u. if u.id == user then tombstone text now u else u)

-- A deletion: which statement fails by its number, the list of keys being 0 and the tombstone 10.
pub record Deleting : Type 0 where
  pub configured : Bool
  pub user : Option ℕ
  pub now : ℕ
  pub uuid_string : ℕ → String
  pub begin_fails : Bool
  pub fails : ℕ → Bool
  pub commit_fails : Bool
  pub refused : Task → Bool

-- The result of collectUserR2Keys: an error, nil for a user that has no row, or the keys.
pub data Collected : Type 0 where
  failed : Error → Collected
  no_local_user : Collected
  keys : List String → Collected

module _ (c : Deleting) where
  -- The tombstone, and the commit.
  unfoldable pub tombstone_and_commit : ℕ → List String → Accounts → Accounts → Accounts × Collected
  tombstone_and_commit user ks before a =
      if c.fails 10
      then (before, failed (wrapped err_internal))
      else if not (any (λ u. u.id == user) a.users)
      then (before, no_local_user)
      else if c.commit_fails
      then (before, failed (wrapped err_internal))
      else (record a { users = tombstone_user c.uuid_string c.now user a.users }, keys ks)

  -- collectUserR2Keys, with the roll back of the transaction runner.
  unfoldable pub collect_user_r2_keys : ℕ → Accounts → Accounts × Collected
  unfolding list_video_keys decrement_likes_for_user decrement_comments_for_user
      delete_comments_by_user tombstone_and_commit
  collect_user_r2_keys user a =
      if c.begin_fails
      then (a, failed (wrapped err_internal))
      else if c.fails 0
      then (a, failed (wrapped err_internal))
      else (let ks = list_video_keys user a.world.videos in
          elim (execute c.fails 1 (statements user) a) [
            | none ↦ (a, failed (wrapped err_internal))
            | some b ↦ tombstone_and_commit user ks a b
          ])

  -- deleteUserData, after collectUserR2Keys: a failure to enqueue is only logged.
  abbrev pub enqueue_keys : Accounts × Collected → Accounts × Response Unit
  enqueue_keys (b, failed e) = (b, refuse e)
  enqueue_keys (b, no_local_user) = (b, done tt)
  enqueue_keys (b, keys ks) =
      (record b { world = (enqueue_cleanup_objects c.refused ks b.world).0 }, done tt)

  -- deleteUserData
  unfoldable pub delete_user_data : ℕ → Accounts → Accounts × Response Unit
  unfolding collect_user_r2_keys enqueue_cleanup_objects
  delete_user_data user a = enqueue_keys (collect_user_r2_keys user a)

  -- DeleteMe
  unfoldable pub delete_me : Accounts → Accounts × Response Unit
  unfolding delete_user_data
  delete_me a =
      if c.configured
      then elim c.user [
        | none ↦ (a, refuse (wrapped err_unauthorized))
        | some user ↦ delete_user_data user a
      ]
      else (a, refuse (wrapped err_internal))
