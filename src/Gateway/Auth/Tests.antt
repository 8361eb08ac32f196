-- ===== src/Gateway/Auth/Tests.antt =====
-- Requests of the user 8 that Account.Tests deletes, of a new one, and of nobody.
use mokibox.Shared.{◌≡◌, refl, false, none, some, arith, str_eq, if◌then◌else◌}
use mokibox.Gateway.Errors.{wrapped, err_unauthorized}
use mokibox.Gateway.Account.Tests.{accounts}
use mokibox.Gateway.Webhook.{get_user_by_zitadel_id}
use mokibox.Gateway.Auth.{
  Login, passed, create_user, extract_bearer, reselect, insert_user, get_or_create_user,
  resolve_user, new_user, authenticate, authenticate_optional,
}
use mokibox.Gateway.Auth.Passed.{HasOne, Passed, authenticate-Passed}

abbrev login : Login
login = record {
  authorization = "Bearer token";
  check_token = λ token. if str_eq token "token" then some "sub8" else none;
  select_fails = false;
  random = some "00ff";
  new_id = 9;
  winner = none;
  create_fails = false;
  reselect_fails = false;
  write_fails = false;
}

abbrev first_login : Login
first_login = record login { check_token = λ token. some "sub9" }

-- Another request of the same new user has inserted its row first.
abbrev raced : Login
raced = record first_login { winner = some (new_user (record login { new_id = 10 }) "sub9" "11") }

created :
    (authenticate first_login accounts.users).1
    ≡ passed none (some (new_user first_login "sub9" "00ff"))
unfolding authenticate resolve_user extract_bearer get_or_create_user get_user_by_zitadel_id
    insert_user create_user reselect
created = refl

won :
    (authenticate raced accounts.users).1
    ≡ passed none (some (new_user (record login { new_id = 10 }) "sub9" "11"))
unfolding authenticate resolve_user extract_bearer get_or_create_user get_user_by_zitadel_id
    insert_user create_user reselect
won = refl

-- A refused request is passed on.
malformed :
    (authenticate (record login { authorization = "Basic token" }) accounts.users).1
    ≡ passed (some (wrapped err_unauthorized)) none
unfolding authenticate resolve_user extract_bearer
malformed = refl

accounts-HasOne : HasOne accounts.users
accounts-HasOne sub = ground arith

authenticate-Passed_example :
    (HasOne (authenticate login accounts.users).0
      × Passed login (authenticate login accounts.users))
    × (HasOne (authenticate_optional login accounts.users).0
        × Passed login (authenticate_optional login accounts.users))
authenticate-Passed_example = authenticate-Passed login accounts.users accounts-HasOne
