-- ===== src/Gateway/Auth.antt =====
-- The authentication of a request: api-gateway/middleware/auth.go, with the statements that it sends
-- (shared/db/users.sql.go).
pub mod Passed
mod Tests
use Prim.Native.Char.{code}
use mokibox.Shared.{
  ℕ, String, Bool, true, false, Option, none, some, List, [], ◌∷◌, any, ◌==◌, ◌||◌, if◌then◌else◌,
  str_eq,
}
use mokibox.Shared.Platform.{◌<>◌}
use mokibox.Store.Table.{Reply, row, no_rows, fault}
use mokibox.Gateway.Errors.{Error, wrapped, err_internal, err_unauthorized}
use mokibox.Gateway.Account.{Member}
use mokibox.Gateway.Webhook.{get_user_by_zitadel_id}

-- CreateUser: ON CONFLICT (zitadel_id) DO NOTHING; an id or a username that is taken is an error.
unfoldable pub create_user : Member → List Member → List Member × Reply Member
create_user m us =
    if any (λ u. str_eq u.zitadel_id m.zitadel_id) us
    then (us, no_rows)
    else if any (λ u. u.id == m.id || str_eq u.username m.username) us
    then (us, fault)
    else (m ∷ us, row m)

-- A request. `check_token` is the verifier, none being an error; `random` is the text of the random bytes,
-- `winner` the row that another request inserts meanwhile; `write_fails` says whether c.JSON returns an
-- error.
pub record Login : Type 0 where
  pub authorization : String
  pub check_token : String → Option String
  pub select_fails : Bool
  pub random : Option String
  pub new_id : ℕ
  pub winner : Option Member
  pub create_fails : Bool
  pub reselect_fails : Bool
  pub write_fails : Bool

abbrev pub prefix : String
prefix = "Bearer "

abbrev pub strip_prefix : String → String → Option String
strip_prefix String.[] s = some s
strip_prefix (String.◌∷◌ c p) String.[] = none
strip_prefix (String.◌∷◌ c p) (String.◌∷◌ d s) =
    let rest = strip_prefix p s in if code c == code d then rest else none

-- extractBearer; none is an error.
unfoldable pub extract_bearer : String → Option String
extract_bearer header = elim (strip_prefix prefix header) [
  | none ↦ none
  | some token ↦ if str_eq token "" then none else some token
]

-- How a request leaves the middleware: with an error, or on to the next handler, then with the refusal that
-- was written before and with the user in the context.
pub data Passage : Type 0 where
  stopped : Error → Passage
  passed : Option Error → Option Member → Passage

-- resolveUser: a refusal, or the user that it puts into the context.
pub data Resolved : Type 0 where
  refused : Error → Resolved
  resolved : Member → Resolved

module _ (c : Login) where
  -- newUsername, and the row that CreateUser makes of it.
  abbrev pub new_user : String → String → Member
  new_user sub hex = record {
    id = c.new_id;
    zitadel_id = sub;
    username = "user_" <> hex;
    is_active = true;
    deleted_at = none;
    display_name = some ("user_" <> hex);
    bio = none;
    avatar_url = none;
  }

  abbrev pub others_insert : List Member → List Member
  others_insert us = elim c.winner [ none ↦ us | some m ↦ (create_user m us).0 ]

  -- getOrCreateUser, the second select.
  unfoldable pub reselect : String → List Member → List Member × Option Member
  unfolding get_user_by_zitadel_id
  reselect sub us = (us, if c.reselect_fails then none else get_user_by_zitadel_id sub us)

  -- getOrCreateUser, the insertion.
  unfoldable pub insert_user : String → String → List Member → List Member × Option Member
  unfolding create_user reselect
  insert_user sub hex us =
      if c.create_fails
      then (us, none)
      else (let (us', creation) = create_user (new_user sub hex) us in
          elim creation [
            | row u ↦ (us', some u)
            | no_rows ↦ reselect sub us'
            | fault ↦ (us', none)
          ])

  -- getOrCreateUser; none is an error.
  unfoldable pub get_or_create_user : String → List Member → List Member × Option Member
  unfolding get_user_by_zitadel_id create_user insert_user
  get_or_create_user sub us =
      if c.select_fails then (us, none) else elim (get_user_by_zitadel_id sub us) [
        | some u ↦ (us, some u)
        | none ↦ elim c.random [
          | none ↦ (us, none)
          | some hex ↦ insert_user sub hex (others_insert us)
        ]
      ]

  abbrev pub check_active : List Member × Option Member → List Member × Resolved
  check_active (us, none) = (us, refused (wrapped err_internal))
  check_active (us, some u) =
      (us, if u.is_active then resolved u else refused (wrapped err_unauthorized))

  -- resolveUser
  unfoldable pub resolve_user : List Member → List Member × Resolved
  unfolding extract_bearer get_or_create_user
  resolve_user us = elim (extract_bearer c.authorization) [
    | none ↦ (us, refused (wrapped err_unauthorized))
    | some token ↦ elim (c.check_token token) [
      | none ↦ (us, refused (wrapped err_unauthorized))
      | some sub ↦
          if str_eq sub ""
          then (us, refused (wrapped err_unauthorized))
          else check_active (get_or_create_user sub us)
    ]
  ]

  -- What the middlewares make of resolveUser: RespondError returns what c.JSON returns, nil once the refusal
  -- is written.
  abbrev pub pass_on : List Member × Resolved → List Member × Passage
  pass_on (us, resolved u) = (us, passed none (some u))
  pass_on (us, refused e) = (us, if c.write_fails then stopped e else passed (some e) none)

  -- Authenticate
  unfoldable pub authenticate : List Member → List Member × Passage
  unfolding resolve_user
  authenticate us = pass_on (resolve_user us)

  -- AuthenticateOptional
  unfoldable pub authenticate_optional : List Member → List Member × Passage
  unfolding resolve_user
  authenticate_optional us =
      if str_eq c.authorization "" then (us, passed none none) else pass_on (resolve_user us)
