-- ===== src/Gateway/Webhook.antt =====
-- The events of users that the identity provider sends: api-gateway/handlers/webhook.go, with DeleteUserData
-- of account.go and the statements that they send (shared/db/users.sql.go).
pub mod Acked
mod Tests
use mokibox.Shared.{
  ℕ, String, Bool, true, false, Option, none, some, List, [], ◌∷◌, any, map, ◌==◌, if◌then◌else◌,
  str_eq,
}
use mokibox.Store.Table.{Reply, row, no_rows, fault}
use mokibox.Gateway.Errors.{
  wrapped, err_internal, err_validation, err_webhook_signature, err_webhook_event,
}
use mokibox.Gateway.Upload.{Response, refuse, done}
use mokibox.Gateway.Account.{Accounts, Member, Deleting, delete_user_data}

-- What the handler reads of an event's payload.
pub record ActionEvent : Type 0 where
  pub aggregate_id : String
  pub event_type : String
  pub user_id : String

abbrev pub event_user_deactivated : String
event_user_deactivated = "user.deactivated"

abbrev pub event_user_removed : String
event_user_removed = "user.removed"

-- A request. `body` is none when reading it fails; `validate` is the check of the body against the header
-- of the request and a key, `unmarshal` is that of encoding/json.
pub record Webhook : Type 0 where
  pub signing_key : String
  pub queries : Bool
  pub wired : Bool
  pub body : Option String
  pub validate : String → String → Bool
  pub unmarshal : String → Option ActionEvent
  pub lookup_fails : Bool
  pub deactivate_fails : Bool
  pub deleting : Deleting

-- GetUserByZitadelID
unfoldable pub get_user_by_zitadel_id : String → List Member → Option Member
get_user_by_zitadel_id sub [] = none
get_user_by_zitadel_id sub (u ∷ us) =
    if str_eq u.zitadel_id sub then some u else get_user_by_zitadel_id sub us

-- DeactivateUser; the row that it returns is not read.
abbrev pub deactivated : ℕ → Member → Member
deactivated now u = record u {
  is_active = false;
  deleted_at = elim u.deleted_at [ none ↦ some now | some at ↦ some at ];
}

unfoldable pub deactivate_user : ℕ → ℕ → List Member → List Member × Reply Unit
deactivate_user now user us =
    if any (λ u. u.id == user) us
    then (map (λ u. if u.id == user then deactivated now u else u) us, row tt)
    else (us, no_rows)

-- The user that an event is about.
abbrev pub target_user : ActionEvent → String
target_user e = if str_eq e.aggregate_id "" then e.user_id else e.aggregate_id

module _ (c : Webhook) where
  -- lookupUserIDByZitadelID; no_rows is errUserNotFound.
  unfoldable pub lookup_user_id_by_zitadel_id : String → Accounts → Reply ℕ
  unfolding get_user_by_zitadel_id
  lookup_user_id_by_zitadel_id sub a =
      if c.lookup_fails
      then fault
      else elim (get_user_by_zitadel_id sub a.users) [ none ↦ no_rows | some u ↦ row u.id ]

  -- handleUserDeactivated, after the lookup.
  unfoldable pub deactivate : ℕ → Accounts → Accounts × Response Unit
  unfolding deactivate_user
  deactivate user a =
      if c.deactivate_fails
      then (a, refuse (wrapped err_internal))
      else (let (us, deactivation) = deactivate_user c.deleting.now user a.users in
          elim deactivation [
            | row u ↦ (record a { users = us }, done tt)
            | no_rows ↦ (a, refuse (wrapped err_internal))
            | fault ↦ (a, refuse (wrapped err_internal))
          ])

  -- handleUserDeactivated
  unfoldable pub handle_user_deactivated : String → Accounts → Accounts × Response Unit
  unfolding lookup_user_id_by_zitadel_id deactivate
  handle_user_deactivated sub a = elim (lookup_user_id_by_zitadel_id sub a) [
    | row user ↦ deactivate user a
    | no_rows ↦ (a, done tt)
    | fault ↦ (a, refuse (wrapped err_internal))
  ]

  -- DeleteUserData, the callable deleteUser.
  unfoldable pub checked_delete_user_data : ℕ → Accounts → Accounts × Response Unit
  unfolding delete_user_data
  checked_delete_user_data user a =
      if c.deleting.configured
      then delete_user_data c.deleting user a
      else (a, refuse (wrapped err_internal))

  -- handleUserRemoved
  unfoldable pub handle_user_removed : String → Accounts → Accounts × Response Unit
  unfolding lookup_user_id_by_zitadel_id checked_delete_user_data
  handle_user_removed sub a =
      if c.wired
      then elim (lookup_user_id_by_zitadel_id sub a) [
        | row user ↦ checked_delete_user_data user a
        | no_rows ↦ (a, done tt)
        | fault ↦ (a, refuse (wrapped err_internal))
      ]
      else (a, refuse (wrapped err_internal))

  -- Handle, its switch on the type of the event.
  unfoldable pub dispatch : ActionEvent → Accounts → Accounts × Response Unit
  unfolding handle_user_deactivated handle_user_removed
  dispatch e a =
      if str_eq e.event_type event_user_deactivated
      then handle_user_deactivated (target_user e) a
      else if str_eq e.event_type event_user_removed
      then handle_user_removed (target_user e) a
      else (a, refuse (wrapped err_webhook_event))

  -- Handle, with a body whose signature is right.
  unfoldable pub handle_signed : String → Accounts → Accounts × Response Unit
  unfolding dispatch
  handle_signed raw a = elim (c.unmarshal raw) [
    | none ↦ (a, refuse (wrapped err_validation))
    | some e ↦
        if str_eq e.event_type ""
        then (a, refuse (wrapped err_validation))
        else if str_eq (target_user e) ""
        then (a, refuse (wrapped err_validation))
        else dispatch e a
  ]

  -- Handle
  unfoldable pub handle : Accounts → Accounts × Response Unit
  unfolding handle_signed
  handle a =
      if str_eq c.signing_key ""
      then (a, refuse (wrapped err_internal))
      else if c.queries
      then elim c.body [
        | none ↦ (a, refuse (wrapped err_validation))
        | some raw ↦
            if c.validate raw c.signing_key
            then handle_signed raw a
            else (a, refuse (wrapped err_webhook_signature))
      ]
      else (a, refuse (wrapped err_internal))
