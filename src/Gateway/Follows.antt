-- ===== src/Gateway/Follows.antt =====
-- FollowUser, UnfollowUser, ListFollowers and ListFollowing of api-gateway/handlers/user_follow.go, with
-- the statements of shared/db/follows.sql.go on the follows table.
pub mod Edges
pub mod Leak
mod Tests
pub mod Statements
use mokibox.Shared.{
  ℕ, ◌*◌, String, Bool, true, false, not, ◌&&◌, ◌||◌, Option, none, some, List, [], ◌∷◌, ◌++◌, any,
  keep_if, take, map, length, ltb, ◌==◌, if◌then◌else◌,
}
use mokibox.Shared.Platform.{Platform}
use mokibox.Store.Table.{Reply, row, no_rows, fault}
use mokibox.Gateway.Errors.{
  Error, wrapped, err_unauthorized, err_validation, err_internal, err_not_found, err_self_follow,
}
use mokibox.Gateway.Upload.{Response, refuse, done}
use mokibox.Gateway.Visibility.{Owner}
use mokibox.Gateway.Comments.Handlers.Request.{Author}
use mokibox.Gateway.Tokens.{Codec}
use mokibox.Gateway.Tokens.Cursor.{encode_cursor, decode_cursor}
use mokibox.Gateway.Follows.Statements.{
  Follow, is_following, get_follow, insert_follow, delete_follow, page_of,
}

-- The tables that the handlers write.
pub record Network : Type 0 where
  pub follows : List Follow
  pub notified : List (ℕ × ℕ)

-- followObject
pub record FollowObject : Type 0 where
  pub follower_id : ℕ
  pub followee_id : ℕ
  pub is_following : Bool
  pub created_at : Option ℕ

-- A request, and which statements fail; `limit` is the answer of parseLimit of user.go. `write_fails` says
-- whether c.JSON returns an error for the refusal of assertCanSeeFollowList.
pub record Following : Type 0 where
  pub configured : Bool
  pub user : Option ℕ
  pub id_param : String
  pub cursor_param : String
  pub limit : Option ℕ
  pub now : ℕ
  pub get_user_by_id : ℕ → Reply Owner
  pub author : ℕ → Author
  pub insert_fails : Bool
  pub load_fails : Bool
  pub notify_fails : Bool
  pub delete_fails : Bool
  pub check_fails : Bool
  pub list_fails : Bool
  pub write_fails : Bool

module _ (p : Platform) (c : Following) where
  -- After the checks of FollowUser: the row, its load, and a notification that may fail.
  unfoldable pub follow_target : ℕ → ℕ → Network → Network × Response FollowObject
  unfolding insert_follow get_follow
  follow_target user target n =
      if c.insert_fails
      then (n, refuse (wrapped err_internal))
      else (let follows = insert_follow c.now user target n.follows in
          let n' = record n { follows = follows } in
          if c.load_fails
          then (n', refuse (wrapped err_internal))
          else elim (get_follow user target follows) [
            | no_rows ↦ (n', refuse (wrapped err_internal))
            | fault ↦ (n', refuse (wrapped err_internal))
            | row f ↦ (
              (if c.notify_fails
                  then n'
                  else record n' { notified = n.notified ++ (target, user) ∷ [] }),
              done (record {
                follower_id = f.follower_id;
                followee_id = f.followee_id;
                is_following = true;
                created_at = some f.created_at;
              }),
            )
          ])

  -- The authenticated user and the id of the path.
  abbrev pub with_target :
      {A : Type 0} → (ℕ → ℕ → Network → Network × Response A) → Network → Network × Response A
  with_target k n =
      if c.configured
      then elim c.user [
        | none ↦ (n, refuse (wrapped err_unauthorized))
        | some user ↦ elim (p.parse_uuid c.id_param) [
          | none ↦ (n, refuse (wrapped err_validation))
          | some target ↦ k user target n
        ]
      ]
      else (n, refuse (wrapped err_internal))

  -- FollowUser, past the path parameter.
  unfoldable pub follow_checked : ℕ → ℕ → Network → Network × Response FollowObject
  unfolding follow_target
  follow_checked user target n =
      if user == target
      then (n, refuse (wrapped err_self_follow))
      else elim (c.get_user_by_id target) [
        | no_rows ↦ (n, refuse (wrapped err_not_found))
        | fault ↦ (n, refuse (wrapped err_internal))
        | row o ↦
            if o.is_active then follow_target user target n else (n, refuse (wrapped err_not_found))
      ]

  -- FollowUser
  unfoldable pub follow_user : Network → Network × Response FollowObject
  unfolding follow_checked
  follow_user n = with_target (λ user target m. follow_checked user target m) n

  -- UnfollowUser
  unfoldable pub unfollow_checked : ℕ → ℕ → Network → Network × Response FollowObject
  unfolding delete_follow
  unfollow_checked user target n = if c.delete_fails then (n, refuse (wrapped err_internal)) else (
    record n { follows = delete_follow user target n.follows },
    done (record {
      follower_id = user;
      followee_id = target;
      is_following = false;
      created_at = none;
    }),
  )

  unfoldable pub unfollow_user : Network → Network × Response FollowObject
  unfolding unfollow_checked
  unfollow_user n = with_target (λ user target m. unfollow_checked user target m) n

-- One entry of a page.
pub record FollowListItem : Type 0 where
  pub id : ℕ
  pub user : Author
  pub created_at : ℕ

-- What becomes of a response: a body is written, or c.JSON returns an error for the body of this refusal,
-- which the handler returns. echo's c.JSON returns nil for what it writes, and nothing takes that back.
pub data Written : Type 0 where
  error_body : Error → Written
  page_body : List FollowListItem → Option String → Written
  broken : Error → Written

module _ (p : Platform) (k : Codec) (c : Following) where
  -- assertCanSeeFollowList: the refusal that it gives to RespondError, none if there is none.
  unfoldable pub assert_can_see_follow_list : ℕ → ℕ → List Follow → Option Error
  assert_can_see_follow_list viewer target fs = elim (c.get_user_by_id target) [
    | no_rows ↦ some (wrapped err_not_found)
    | fault ↦ some (wrapped err_internal)
    | row o ↦
        if o.is_active
        then (if target == viewer || not o.is_private
            then none
            else if c.check_fails
            then some (wrapped err_internal)
            else if is_following viewer target fs
            then none
            else some (wrapped err_not_found))
        else some (wrapped err_not_found)
  ]

  -- What both handlers make of the check: they return if it returns an error, and what it returns is what
  -- RespondError returns, the nil or the error of c.JSON.
  abbrev pub after_check : Option Error → Written → List Written
  after_check none page = page ∷ []
  after_check (some e) page = if c.write_fails then broken e ∷ [] else error_body e ∷ page ∷ []

  abbrev pub last_key : (Follow → ℕ × ℕ) → List Follow → ℕ × ℕ
  last_key key [] = (0, 0)
  last_key key (f ∷ []) = key f
  last_key key (f ∷ g ∷ gs) = last_key key (g ∷ gs)

  -- The cursor of the next page, when this one is full.
  abbrev pub next_cursor : (Follow → ℕ × ℕ) → ℕ → List Follow → Option String
  next_cursor key limit rows =
      if length rows == limit
      then some (encode_cursor p k (last_key key rows).0 (last_key key rows).1)
      else none

  abbrev pub cursor_of : ℕ × ℕ → Option (ℕ × ℕ)
  cursor_of q = if q.0 == 0 then none else some q

  abbrev pub item : (Follow → ℕ) → Follow → FollowListItem
  item side f = record { id = side f; user = c.author (side f); created_at = f.created_at }

  -- What ListFollowers and ListFollowing write after the check: `side` is the user that a row shows.
  unfoldable pub page_written : (Follow → ℕ) → (Follow → Bool) → List Follow → Written
  unfolding page_of encode_cursor decode_cursor
  page_written side selected fs = elim c.limit [
    | none ↦ error_body (wrapped err_validation)
    | some limit ↦ elim (decode_cursor p k c.cursor_param) [
      | none ↦ error_body (wrapped err_validation)
      | some cursor ↦
          if c.list_fails
          then error_body (wrapped err_internal)
          else (let key : Follow → ℕ × ℕ = λ f. (f.created_at, side f) in
              let rows = page_of key selected (cursor_of cursor) limit fs in
              page_body (map (item side) rows) (next_cursor key limit rows))
    ]
  ]

  -- What both handlers do; `page` is what they write after the check.
  abbrev pub list_with : (ℕ → List Follow → Written) → List Follow → List Written
  list_with page fs =
      if c.configured
      then elim c.user [
        | none ↦ error_body (wrapped err_unauthorized) ∷ []
        | some viewer ↦ elim (p.parse_uuid c.id_param) [
          | none ↦ error_body (wrapped err_validation) ∷ []
          | some target ↦ after_check (assert_can_see_follow_list viewer target fs) (page target fs)
        ]
      ]
      else error_body (wrapped err_internal) ∷ []

  -- ListFollowers and ListFollowing
  unfoldable pub list_followers : List Follow → List Written
  unfolding assert_can_see_follow_list page_written
  list_followers =
      list_with (λ target fs. page_written (λ f. f.follower_id) (λ f. f.followee_id == target) fs)

  unfoldable pub list_following : List Follow → List Written
  unfolding assert_can_see_follow_list page_written
  list_following =
      list_with (λ target fs. page_written (λ f. f.followee_id) (λ f. f.follower_id == target) fs)
