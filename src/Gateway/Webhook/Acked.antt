-- ===== src/Gateway/Webhook/Acked.antt =====
-- What an acknowledged event has done to the user that it names (api-gateway/handlers/webhook.go).
use mathlib.Core.Option.{some-injective}
use mokibox.Shared.{
  ℕ, ◌≡◌, refl, ap, sym, ◌∙◌, String, Bool, true, false, false≢true, not, ◌&&◌, none, some, List,
  [], ◌∷◌, arith, any, map, ◌==◌, ==_iff, if◌then◌else◌, str_eq, Bool-cases, inl, inr,
}
use mokibox.Store.Table.{Reply, row, no_rows, fault}
use mokibox.Worker.Transcode.Ends.{if-rule, Option-rule}
use mokibox.Gateway.Errors.{wrapped, err_internal}
use mokibox.Gateway.Upload.{Response, refuse, done}
use mokibox.Gateway.Account.{
  Accounts, Member, Collected, failed, no_local_user, keys, enqueue_keys, tombstone,
  delete_user_data, collect_user_r2_keys,
}
use mokibox.Gateway.Account.Erased.{Collects, collect_user_r2_keys-Collects}
use mokibox.Gateway.Webhook.{
  ActionEvent, Webhook, event_user_deactivated, event_user_removed, get_user_by_zitadel_id,
  deactivated, deactivate_user, target_user, lookup_user_id_by_zitadel_id, deactivate,
  handle_user_deactivated, checked_delete_user_data, handle_user_removed, dispatch, handle_signed,
  handle,
}

-- A user's row with this zitadel_id can still be used.
abbrev pub any_active : String → List Member → Bool
any_active sub us = any (λ u. str_eq u.zitadel_id sub && u.is_active) us

-- zitadel_id is UNIQUE.
abbrev pub HasSubs : List Member → Type 0
HasSubs us =
    (sub : String) (u : Member)
    → get_user_by_zitadel_id sub us ≡ some u
    → any (λ w. str_eq w.zitadel_id sub && not (w.id == u.id)) us ≡ false

any_active-none :
    (sub : String) (us : List Member)
    → get_user_by_zitadel_id sub us ≡ none
    → any_active sub us ≡ false
unfolding get_user_by_zitadel_id
any_active-none sub [] e = refl
any_active-none sub (u ∷ us) e = ground (arith, any_active-none sub us)

any-found :
    (sub : String) (us : List Member) (u : Member)
    → get_user_by_zitadel_id sub us ≡ some u
    → any (λ w. w.id == u.id) us ≡ true
unfolding get_user_by_zitadel_id
any-found sub [] u e = cc
any-found sub (w ∷ us) u e = elim (Bool-cases (str_eq w.zitadel_id sub)) [
  | inl k ↦
      let same = ap (λ (x : Member). x.id) (some-injective w u (rw k at e)) in
      ground (arith, ==_iff w.id u.id)
  | inr k ↦ ground (arith, any-found sub us u (rw k at e))
]

-- A change that keeps zitadel_id and makes the rows of `user` inactive leaves no active row of `sub`, if
-- all rows of `sub` are those of `user`.
any_active-map :
    (f : Member → Member) (sub : String) (user : ℕ)
    → ((u : Member) → (f u).zitadel_id ≡ u.zitadel_id)
    → ((u : Member) → (f u).is_active ≡ false)
    → (us : List Member) → any (λ w. str_eq w.zitadel_id sub && not (w.id == user)) us ≡ false
    → any_active sub (map (λ u. if u.id == user then f u else u) us) ≡ false
any_active-map f sub user keeps off [] e = refl
any_active-map f sub user keeps off (u ∷ us) e =
    ground (arith, any_active-map f sub user keeps off us, keeps u, off u)

module _ (c : Webhook) (a : Accounts) (keyed : HasSubs a.users) where
  -- A refusal changes nothing, an acknowledgement leaves no active row of `sub`.
  abbrev pub Settles : String → Accounts × Response Unit → Type 0
  Settles sub (b, refuse e) = b ≡ a
  Settles sub (b, done x) = any_active sub b.users ≡ false

  abbrev Found : String → Reply ℕ → Type 0
  Found sub (row user) =
      (any (λ w. str_eq w.zitadel_id sub && not (w.id == user)) a.users ≡ false)
      × (any (λ w. w.id == user) a.users ≡ true)
  Found sub no_rows = any_active sub a.users ≡ false
  Found sub fault = Unit

  lookup-Found : (sub : String) → Found sub (lookup_user_id_by_zitadel_id c sub a)
  unfolding lookup_user_id_by_zitadel_id
  lookup-Found sub =
      if-rule (Found sub) c.lookup_fails (λ e. tt)
        λ e.
          Option-rule (Found sub) (get_user_by_zitadel_id sub a.users)
            (λ e. any_active-none sub a.users e) (λ u e. (keyed sub u e, any-found sub a.users u e))

  -- What follows the lookup is right if what is done with a row is.
  after_lookup :
      (sub : String) (f : ℕ → Accounts × Response Unit)
      → ((user : ℕ) → Found sub (row user) → Settles sub (f user))
      → (r : Reply ℕ) → Found sub r
      → Settles sub (elim r [
        | row user ↦ f user
        | no_rows ↦ (a, done tt)
        | fault ↦ (a, refuse (wrapped err_internal))
      ])
  after_lookup sub f h (row user) found = h user found
  after_lookup sub f h no_rows found = found
  after_lookup sub f h fault found = refl

  deactivate-Settles :
      (sub : String) (user : ℕ) → Found sub (row user) → Settles sub (deactivate c user a)
  unfolding deactivate deactivate_user
  deactivate-Settles sub user (only, here) =
      if-rule (Settles sub) c.deactivate_fails (λ e. refl)
        λ e.
          if-rule
            (λ (q : List Member × Reply Unit). Settles sub (elim q.1 [
              | row x ↦ (record a { users = q.0 }, done tt)
              | no_rows ↦ (a, refuse (wrapped err_internal))
              | fault ↦ (a, refuse (wrapped err_internal))
            ]))
            (any (λ u. u.id == user) a.users)
            (λ e.
              any_active-map (deactivated c.deleting.now) sub user (λ u. refl) (λ u. refl) a.users
                only)
            (λ e. refl)

  deleted-Settles :
      (sub : String) (user : ℕ) (r : Accounts × Collected)
      → Collects c.deleting user a r
      → Found sub (row user)
      → Settles sub (enqueue_keys c.deleting r)
  deleted-Settles sub user (b, failed e) same found = same
  deleted-Settles sub user (b, no_local_user) (same, none_such) (only, here) =
      absurd (false≢true (sym none_such ∙ here))
  deleted-Settles sub user (b, keys ks) (made, listed) (only, here) =
      ap (λ (x : Accounts). any_active sub x.users) made
      ∙ any_active-map (tombstone c.deleting.uuid_string c.deleting.now) sub user (λ u. refl)
          (λ u. refl) a.users only

  removed-Settles :
      (sub : String) (user : ℕ)
      → Found sub (row user)
      → Settles sub (checked_delete_user_data c user a)
  unfolding checked_delete_user_data delete_user_data
  removed-Settles sub user found =
      if-rule (Settles sub) c.deleting.configured
        (λ e.
          deleted-Settles sub user (collect_user_r2_keys c.deleting user a)
            (collect_user_r2_keys-Collects c.deleting user a) found)
        (λ e. refl)

  -- An acknowledged request: its body is signed and names an event, and no row of the event's user is
  -- active.
  pub record Acked (b : Accounts) : Type 0 where
    pub raw : String
    pub event : ActionEvent
    pub read : c.body ≡ some raw
    pub signed : c.validate raw c.signing_key ≡ true
    pub filled : str_eq c.signing_key "" ≡ false
    pub parsed : c.unmarshal raw ≡ some event
    pub inactive : any_active (target_user event) b.users ≡ false

  abbrev pub Handled : Accounts × Response Unit → Type 0
  Handled (b, refuse e) = b ≡ a
  Handled (b, done x) = Acked b

  dispatch-Settles : (e : ActionEvent) → Settles (target_user e) (dispatch c e a)
  unfolding dispatch handle_user_deactivated handle_user_removed
  dispatch-Settles e =
      let sub = target_user e in
      if-rule (Settles sub) (str_eq e.event_type event_user_deactivated)
        (λ h.
          after_lookup sub (λ user. deactivate c user a) (deactivate-Settles sub) _
            (lookup-Found sub))
        λ h.
          if-rule (Settles sub) (str_eq e.event_type event_user_removed)
            (λ h.
              if-rule (Settles sub) c.wired
                (λ h.
                  after_lookup sub (λ user. checked_delete_user_data c user a) (removed-Settles sub)
                    _ (lookup-Found sub))
                (λ h. refl))
            (λ h. refl)

  settled :
      (raw : String) (e : ActionEvent)
      → c.body ≡ some raw
      → str_eq c.signing_key "" ≡ false
      → c.validate raw c.signing_key ≡ true
      → c.unmarshal raw ≡ some e
      → (r : Accounts × Response Unit) → Settles (target_user e) r
      → Handled r
  settled raw e read filled signed parsed (b, refuse x) same = same
  settled raw e read filled signed parsed (b, done x) off = record {
    raw = raw;
    read = read;
    event = e;
    signed = signed;
    filled = filled;
    parsed = parsed;
    inactive = off;
  }

  -- Suppose that zitadel_id is unique. A request of the webhook that is refused leaves all tables and the
  -- queue as they were; one that is acknowledged has a body whose signature is valid under a key that is
  -- not empty, and leaves no active row of the user that its event is about: of aggregateID, or of userID
  -- where that is empty.
  pub handle-Handled : Handled (handle c a)
  unfolding handle handle_signed
  handle-Handled =
      if-rule Handled (str_eq c.signing_key "") (λ e. refl)
        λ filled.
          if-rule Handled c.queries
            (λ e.
              Option-rule Handled c.body (λ e. refl)
                λ raw read.
                  if-rule Handled (c.validate raw c.signing_key)
                    (λ signed.
                      Option-rule Handled (c.unmarshal raw) (λ e. refl)
                        λ ev parsed.
                          if-rule Handled (str_eq ev.event_type "") (λ e. refl)
                            λ e.
                              if-rule Handled (str_eq (target_user ev) "") (λ e. refl)
                                (λ e.
                                  settled raw ev read filled signed parsed _ (dispatch-Settles ev)))
                    (λ e. refl))
            (λ e. refl)
