-- ===== src/Gateway/Auth/Passed.antt =====
-- Which requests the authentication passes on (api-gateway/middleware/auth.go).
use mokibox.Shared.{
  ◌≤◌, ◌≡◌, refl, subst, String, true, false, Option, none, some, List, ◌∷◌, arith, any, count_if,
  str_eq, ◌==◌, ◌||◌, eq_iff, Bool-cases, inl, inr,
}
use mokibox.Store.Table.{Reply, row, no_rows, fault}
use mokibox.Worker.Transcode.Ends.{if-rule, Option-rule}
use mokibox.Gateway.Account.{Member}
use mokibox.Gateway.Comments.Subtree.{count_if-none}
use mokibox.Gateway.Webhook.{get_user_by_zitadel_id}
use mokibox.Gateway.Auth.{
  create_user, Login, extract_bearer, Passage, stopped, passed, Resolved, refused, resolved,
  new_user, others_insert, reselect, insert_user, get_or_create_user, check_active, resolve_user,
  pass_on, authenticate, authenticate_optional,
}

-- No two rows have one zitadel_id.
abbrev pub HasOne : List Member → Type 0
HasOne us = (sub : String) → count_if (λ u. str_eq u.zitadel_id sub) us ≤ 1

HasOne-cons :
    (m : Member) (us : List Member)
    → any (λ u. str_eq u.zitadel_id m.zitadel_id) us ≡ false
    → HasOne us
    → HasOne (m ∷ us)
HasOne-cons m us free one sub = elim (Bool-cases (str_eq m.zitadel_id sub)) [
  | inl k ↦
      let none_such =
        count_if-none (λ (u : Member). str_eq u.zitadel_id sub) us
          (subst (λ s. any (λ u. str_eq u.zitadel_id s) us ≡ false) ((eq_iff m.zitadel_id sub).0 k)
            free) in
      ground (arith, none_such)
  | inr k ↦ ground (arith, one sub)
]

-- CreateUser keeps zitadel_id unique, and a row that it returns is the one of its zitadel_id.
abbrev Created : Member → List Member × Reply Member → Type 0
Created m (us, row u) = HasOne us × (get_user_by_zitadel_id m.zitadel_id us ≡ some u)
Created m (us, no_rows) = HasOne us
Created m (us, fault) = HasOne us

create_user-Created : (m : Member) (us : List Member) → HasOne us → Created m (create_user m us)
unfolding create_user get_user_by_zitadel_id
create_user-Created m us one =
    if-rule (Created m) (any (λ u. str_eq u.zitadel_id m.zitadel_id) us) (λ e. one)
      λ free.
        if-rule (Created m) (any (λ u. u.id == m.id || str_eq u.username m.username) us) (λ e. one)
          (λ e. (HasOne-cons m us free one, rw ((eq_iff m.zitadel_id m.zitadel_id).1 refl) refl))

Created-HasOne : (m : Member) (r : List Member × Reply Member) → Created m r → HasOne r.0
Created-HasOne m (us, row u) h = h.0
Created-HasOne m (us, no_rows) h = h
Created-HasOne m (us, fault) h = h

-- A user that getOrCreateUser returns is the one of its subject.
abbrev Got : String → List Member × Option Member → Type 0
Got sub (us, none) = HasOne us
Got sub (us, some u) = HasOne us × (get_user_by_zitadel_id sub us ≡ some u)

module _ (c : Login) where
  others_insert-HasOne : (us : List Member) → HasOne us → HasOne (others_insert c us)
  others_insert-HasOne us one =
      Option-rule HasOne c.winner (λ e. one)
        (λ m e. Created-HasOne m (create_user m us) (create_user-Created m us one))

  select-Got :
      (sub : String) (us : List Member) (o : Option Member)
      → HasOne us
      → get_user_by_zitadel_id sub us ≡ o
      → Got sub (us, o)
  select-Got sub us none one e = one
  select-Got sub us (some u) one e = (one, e)

  reselect-Got : (sub : String) (us : List Member) → HasOne us → Got sub (reselect c sub us)
  unfolding reselect
  reselect-Got sub us one =
      if-rule (λ o. Got sub (us, o)) c.reselect_fails (λ e. one)
        (λ e. select-Got sub us (get_user_by_zitadel_id sub us) one refl)

  insertion-Got :
      (sub hex : String) (r : List Member × Reply Member)
      → Created (new_user c sub hex) r
      → Got sub
          (elim r.1 [ row u ↦ (r.0, some u) | no_rows ↦ reselect c sub r.0 | fault ↦ (r.0, none) ])
  insertion-Got sub hex (us, row u) h = h
  insertion-Got sub hex (us, no_rows) h = reselect-Got sub us h
  insertion-Got sub hex (us, fault) h = h

  insert_user-Got :
      (sub hex : String) (us : List Member) → HasOne us → Got sub (insert_user c sub hex us)
  unfolding insert_user
  insert_user-Got sub hex us one =
      if-rule (Got sub) c.create_fails (λ e. one)
        (λ e.
          insertion-Got sub hex (create_user (new_user c sub hex) us)
            (create_user-Created (new_user c sub hex) us one))

  get_or_create_user-Got :
      (sub : String) (us : List Member) → HasOne us → Got sub (get_or_create_user c sub us)
  unfolding get_or_create_user
  get_or_create_user-Got sub us one =
      if-rule (Got sub) c.select_fails (λ e. one)
        λ e.
          Option-rule (Got sub) (get_user_by_zitadel_id sub us)
            (λ e.
              Option-rule (Got sub) c.random (λ e. one)
                (λ hex e.
                  insert_user-Got sub hex (others_insert c us) (others_insert-HasOne us one)))
            (λ u e. (one, e))

  -- The user is the active one of the subject that the verifier found in the bearer token.
  pub record Verified (us : List Member) (u : Member) : Type 0 where
    pub token : String
    pub sub : String
    pub bearer : extract_bearer c.authorization ≡ some token
    pub checked : c.check_token token ≡ some sub
    pub found : get_user_by_zitadel_id sub us ≡ some u
    pub active : u.is_active ≡ true

  abbrev Resolves : List Member × Resolved → Type 0
  Resolves (us, refused e) = HasOne us
  Resolves (us, resolved u) = HasOne us × Verified us u

  check_active-Resolves :
      (token sub : String)
      → extract_bearer c.authorization ≡ some token
      → c.check_token token ≡ some sub
      → (r : List Member × Option Member) → Got sub r
      → Resolves (check_active c r)
  check_active-Resolves token sub bearer checked (us, none) h = h
  check_active-Resolves token sub bearer checked (us, some u) (one, found) =
      if-rule (λ x. Resolves (us, x)) u.is_active
        (λ e. (
          one,
          record {
            token = token;
            sub = sub;
            bearer = bearer;
            checked = checked;
            found = found;
            active = e;
          },
        ))
        (λ e. one)

  resolve_user-Resolves : (us : List Member) → HasOne us → Resolves (resolve_user c us)
  unfolding resolve_user
  resolve_user-Resolves us one =
      Option-rule Resolves (extract_bearer c.authorization) (λ e. one)
        λ token bearer.
          Option-rule Resolves (c.check_token token) (λ e. one)
            λ sub checked.
              if-rule Resolves (str_eq sub "") (λ e. one)
                (λ e.
                  check_active-Resolves token sub bearer checked (get_or_create_user c sub us)
                    (get_or_create_user-Got sub us one))

  -- How a request with these rows of users has passed the middleware.
  abbrev pub Passed : List Member × Passage → Type 0
  Passed (us, stopped e) = c.write_fails ≡ true
  Passed (us, passed none none) = str_eq c.authorization "" ≡ true
  Passed (us, passed none (some u)) = Verified us u
  Passed (us, passed (some e) u) = u ≡ none

  pass_on-Passed :
      (r : List Member × Resolved) → Resolves r → HasOne (pass_on c r).0 × Passed (pass_on c r)
  pass_on-Passed (us, resolved u) h = h
  pass_on-Passed (us, refused e) one =
      (one, if-rule (λ x. Passed (us, x)) c.write_fails (λ k. k) (λ k. refl))

  -- If no two users have one zitadel_id, then this is so after Authenticate and AuthenticateOptional too,
  -- even when another request inserts a row between their statements. A request that they pass on with a
  -- user carries a bearer token that the verifier accepts, and the user is the active one of the token's
  -- subject; without a user and without a refusal, it has no Authorization header; and a refused request is
  -- stopped only if writing the refusal fails: otherwise it is passed on, without a user.
  pub authenticate-Passed :
      (us : List Member)
      → HasOne us
      → (HasOne (authenticate c us).0 × Passed (authenticate c us))
        × (HasOne (authenticate_optional c us).0 × Passed (authenticate_optional c us))
  unfolding authenticate authenticate_optional
  authenticate-Passed us one =
      let passing = pass_on-Passed (resolve_user c us) (resolve_user-Resolves us one) in
      (
        passing,
        if-rule (λ (r : List Member × Passage). HasOne r.0 × Passed r) (str_eq c.authorization "")
            (λ e. (one, e)) (λ e. passing),
      )
