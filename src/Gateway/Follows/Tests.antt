-- ===== src/Gateway/Follows/Tests.antt =====
-- User 8 follows user 1, and asks for the followers of user 1.
use mokibox.Shared.{◌≡◌, refl, true, false, none, some, [], ◌∷◌}
use mokibox.Store.Table.{row}
use mokibox.Worker.Tests.{host}
use mokibox.Gateway.Errors.{wrapped, err_not_found}
use mokibox.Gateway.Tokens.Tally.{tally_codec}
use mokibox.Gateway.Follows.{
  Following, Network, follow_user, unfollow_user, error_body, page_body, assert_can_see_follow_list,
  page_written, list_followers, list_following,
}
use mokibox.Gateway.Tokens.Cursor.{decode_cursor}
use mokibox.Gateway.Follows.Statements.{page_of}
use mokibox.Gateway.Follows.Edges.{
  OnSuccess, Followed, Unfollowed, follow_user-Followed, unfollow_user-Unfollowed,
}
use mokibox.Gateway.Follows.Leak.{Answered, list_followers-leaks}

abbrev following : Following
following = record {
  configured = true;
  user = some 8;
  id_param = "1";
  cursor_param = "";
  limit = some 20;
  now = 5;
  get_user_by_id = λ u. row (record { is_active = true; is_private = true });
  author =
      λ u. record { username = "u"; display_name = none; avatar_url = none; is_private = true };
  insert_fails = false;
  load_fails = false;
  notify_fails = false;
  delete_fails = false;
  check_fails = false;
  list_fails = false;
  write_fails = false;
}

-- User 7 follows user 1.
abbrev network : Network
network = record {
  follows = record { follower_id = 7; followee_id = 1; created_at = 3 } ∷ [];
  notified = [];
}

follow_user-Followed_example :
    OnSuccess host following network
      (Followed host following network)
      (follow_user host following network)
follow_user-Followed_example = follow_user-Followed host following network

unfollow_user-Unfollowed_example :
    OnSuccess host following network
      (Unfollowed host following network)
      (unfollow_user host following network)
unfollow_user-Unfollowed_example = unfollow_user-Unfollowed host following network

-- The refusal, and the list all the same.
leaked :
    list_followers host tally_codec following network.follows
    ≡ error_body (wrapped err_not_found)
      ∷ page_body (record { id = 7; user = following.author 7; created_at = 3 } ∷ []) none
      ∷ []
unfolding list_followers assert_can_see_follow_list page_written page_of decode_cursor
leaked = refl

list_followers-leaks_example :
    Answered host tally_codec following 8 1
      (λ f. f.follower_id)
      (λ f. f.followee_id)
      network.follows
      (list_followers host tally_codec following network.follows)
    × Answered host tally_codec following 8 1
        (λ f. f.followee_id)
        (λ f. f.follower_id)
        network.follows
        (list_following host tally_codec following network.follows)
list_followers-leaks_example =
    list_followers-leaks host tally_codec following 8 1 network.follows refl refl refl
