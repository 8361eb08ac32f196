-- ===== src/Gateway/Webhook/Tests.antt =====
-- A signed event about sub8, the user 8 that Account.Tests deletes.
use mathlib.Core.Option.{some-injective}
use mokibox.Shared.{◌≡◌, refl, ap, true, false, some, arith, ==_iff, str_eq, Bool-cases, inl, inr}
use mokibox.Gateway.Errors.{wrapped, err_webhook_signature}
use mokibox.Gateway.Upload.{refuse, done}
use mokibox.Gateway.Account.{Member}
use mokibox.Gateway.Account.Tests.{accounts, deleting}
use mokibox.Gateway.Webhook.{
  ActionEvent, Webhook, get_user_by_zitadel_id, deactivate_user, lookup_user_id_by_zitadel_id,
  deactivate, handle_user_deactivated, dispatch, handle_signed, handle,
}
use mokibox.Gateway.Webhook.Acked.{HasSubs, Handled, handle-Handled}

abbrev event : ActionEvent
event = record { aggregate_id = "sub8"; event_type = "user.deactivated"; user_id = "admin" }

abbrev posted : Webhook
posted = record {
  signing_key = "key";
  queries = true;
  wired = true;
  body = some "signed";
  validate = λ raw key. str_eq raw "signed";
  unmarshal = λ raw. some event;
  lookup_fails = false;
  deactivate_fails = false;
  deleting = deleting;
}

acked : (handle posted accounts).1 ≡ done tt
unfolding handle handle_signed dispatch handle_user_deactivated lookup_user_id_by_zitadel_id
    get_user_by_zitadel_id deactivate deactivate_user
acked = refl

unsigned :
    (handle (record posted { body = some "other" }) accounts).1
    ≡ refuse (wrapped err_webhook_signature)
unfolding handle
unsigned = refl

accounts-HasSubs : HasSubs accounts.users
unfolding get_user_by_zitadel_id
accounts-HasSubs sub u e = elim (Bool-cases (str_eq "sub8" sub)) [
  | inl k ↦
      let same : 8 ≡ u.id = ap (λ (x : Member). x.id) (some-injective _ u (rw k at e)) in
      ground (arith, ==_iff 8 u.id)
  | inr k ↦ absurd (ground arith)
]

handle-Handled_example : Handled posted accounts accounts-HasSubs (handle posted accounts)
handle-Handled_example = handle-Handled posted accounts accounts-HasSubs
