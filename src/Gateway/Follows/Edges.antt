-- ===== src/Gateway/Follows/Edges.antt =====
-- What FollowUser and UnfollowUser make of the follows table
-- (api-gateway/handlers/user_follow.go).
use mokibox.Shared.{
  ℕ, ◌≡◌, refl, sym, ◌∙◌, Bool, true, false, ◌&&◌, some, List, [], ◌∷◌, ◌==◌, ==_iff, if◌then◌else◌,
  arith, Bool-cases, inl, inr,
}
use mokibox.Shared.Platform.{Platform}
use mokibox.Store.Table.{row}
use mokibox.Worker.Transcode.Ends.{if-rule, Option-rule, Reply-rule}
use mokibox.Gateway.Upload.{Response, refuse, done}
use mokibox.Gateway.Visibility.{Owner}
use mokibox.Gateway.Follows.{
  Network, FollowObject, Following, follow_target, with_target, follow_checked, follow_user,
  unfollow_checked, unfollow_user,
}
use mokibox.Gateway.Follows.Statements.{
  Follow, is_following, get_follow, insert_follow, delete_follow,
}

-- The edge between two users.
abbrev pub same_edge : ℕ → ℕ → ℕ → ℕ → Bool
same_edge user target a b = user == a && target == b

same_edge-found :
    (user target a b : ℕ) (fs : List Follow)
    → same_edge user target a b ≡ true
    → is_following user target fs ≡ is_following a b fs
same_edge-found user target a b [] e = refl
same_edge-found user target a b (f ∷ fs) e =
    ground (arith, same_edge-found user target a b fs, ==_iff user a, ==_iff target b)

is_following-insert_follow :
    (now user target a b : ℕ) (fs : List Follow)
    → is_following a b (insert_follow now user target fs)
      ≡ (if same_edge user target a b then true else is_following a b fs)
unfolding insert_follow
is_following-insert_follow now user target a b fs =
    elim (Bool-cases (is_following user target fs)) [
      | inl held ↦ rw held (elim (Bool-cases (same_edge user target a b)) [
        | inl same ↦ rw same (sym (same_edge-found user target a b fs same) ∙ held)
        | inr other ↦ rw other refl
      ])
      | inr new ↦ rw new (ground arith)
    ]

is_following-delete_follow :
    (user target a b : ℕ) (fs : List Follow)
    → is_following a b (delete_follow user target fs)
      ≡ (if same_edge user target a b then false else is_following a b fs)
unfolding delete_follow
is_following-delete_follow user target a b [] = ground arith
is_following-delete_follow user target a b (f ∷ fs) = ground (
  arith,
  is_following-delete_follow user target a b fs,
  ==_iff user a,
  ==_iff target b,
  ==_iff f.follower_id user,
  ==_iff f.followee_id target,
)

-- What a FollowUser that succeeds has done.
pub record Followed (p : Platform) (c : Following) (n m : Network) (o : FollowObject) : Type 0 where
  pub user : ℕ
  pub target : ℕ
  pub owner : Owner
  pub known : c.user ≡ some user
  pub parsed : p.parse_uuid c.id_param ≡ some target
  pub not_self : (user == target) ≡ false
  pub loaded : c.get_user_by_id target ≡ row owner
  pub active : owner.is_active ≡ true
  pub edges :
      (a b : ℕ)
      → is_following a b m.follows
        ≡ (if same_edge user target a b then true else is_following a b n.follows)
  pub says : o.is_following ≡ true

-- What an UnfollowUser that succeeds has done.
pub record Unfollowed (p : Platform) (c : Following) (n m : Network) (o : FollowObject)
    : Type 0 where
  pub user : ℕ
  pub target : ℕ
  pub known : c.user ≡ some user
  pub parsed : p.parse_uuid c.id_param ≡ some target
  pub edges :
      (a b : ℕ)
      → is_following a b m.follows
        ≡ (if same_edge user target a b then false else is_following a b n.follows)
  pub says : o.is_following ≡ false

module _ (p : Platform) (c : Following) (n : Network) where
  -- A success has the property.
  abbrev pub OnSuccess :
      (Network → FollowObject → Type 0) → Network × Response FollowObject → Type 0
  OnSuccess P (m, refuse e) = Unit
  OnSuccess P (m, done o) = P m o

  with_target-OnSuccess :
      (P : Network → FollowObject → Type 0) (k : ℕ → ℕ → Network → Network × Response FollowObject)
      → ((user target : ℕ)
          → c.user ≡ some user
          → p.parse_uuid c.id_param ≡ some target
          → OnSuccess P (k user target n))
      → OnSuccess P (with_target p c k n)
  with_target-OnSuccess P k h =
      if-rule (OnSuccess P) c.configured
        (λ e.
          Option-rule (OnSuccess P) c.user (λ e. tt)
            λ user known.
              Option-rule (OnSuccess P) (p.parse_uuid c.id_param) (λ e. tt)
                (λ target parsed. h user target known parsed))
        (λ e. tt)

  -- What the statements of FollowUser have done.
  abbrev Linked : ℕ → ℕ → Network → FollowObject → Type 0
  Linked user target m o =
      ((a b : ℕ)
        → is_following a b m.follows
          ≡ (if same_edge user target a b then true else is_following a b n.follows))
      × (o.is_following ≡ true)

  follow_target-Linked :
      (user target : ℕ) → OnSuccess (Linked user target) (follow_target p c user target n)
  unfolding follow_target
  follow_target-Linked user target =
      let R = OnSuccess (Linked user target) in
      let fs = insert_follow c.now user target n.follows in
      if-rule R c.insert_fails (λ e. tt)
        λ e.
          if-rule R c.load_fails (λ e. tt)
            λ e.
              Reply-rule R (get_follow user target fs)
                (λ f e. elim (Bool-cases c.notify_fails) [
                  | inl k ↦
                      rw k (λ a b. is_following-insert_follow c.now user target a b n.follows, refl)
                  | inr k ↦
                      rw k (λ a b. is_following-insert_follow c.now user target a b n.follows, refl)
                ])
                (λ e. tt) (λ e. tt)

  Linked-Followed :
      (user target : ℕ) (owner : Owner) (r : Network × Response FollowObject)
      → c.user ≡ some user
      → p.parse_uuid c.id_param ≡ some target
      → (user == target) ≡ false
      → c.get_user_by_id target ≡ row owner
      → owner.is_active ≡ true
      → OnSuccess (Linked user target) r
      → OnSuccess (Followed p c n) r
  Linked-Followed user target owner (m, refuse e) known parsed other loaded active h = tt
  Linked-Followed user target owner (m, done o) known parsed other loaded active (edges, says) =
      record {
        user = user;
        target = target;
        owner = owner;
        known = known;
        parsed = parsed;
        not_self = other;
        loaded = loaded;
        active = active;
        edges = edges;
        says = says;
      }

  -- A FollowUser that succeeds makes the caller a follower of the target, who is another, active user,
  -- and changes no other edge of the follows table.
  pub follow_user-Followed : OnSuccess (Followed p c n) (follow_user p c n)
  unfolding follow_user follow_checked
  follow_user-Followed =
      let R = OnSuccess (Followed p c n) in
      with_target-OnSuccess (Followed p c n) (λ user target m. follow_checked p c user target m)
        λ user target known parsed.
          if-rule R (user == target) (λ e. tt)
            λ other.
              Reply-rule R (c.get_user_by_id target)
                (λ o loaded.
                  if-rule R o.is_active
                    (λ active.
                      Linked-Followed user target o _ known parsed other loaded active
                        (follow_target-Linked user target))
                    (λ e. tt))
                (λ e. tt) (λ e. tt)

  -- An UnfollowUser that succeeds leaves the caller no follower of the target, and changes no other edge.
  pub unfollow_user-Unfollowed : OnSuccess (Unfollowed p c n) (unfollow_user p c n)
  unfolding unfollow_user unfollow_checked
  unfollow_user-Unfollowed =
      with_target-OnSuccess (Unfollowed p c n) (λ user target m. unfollow_checked p c user target m)
        λ user target known parsed.
          if-rule (OnSuccess (Unfollowed p c n)) c.delete_fails (λ e. tt)
            λ e. record {
              user = user;
              target = target;
              known = known;
              parsed = parsed;
              edges = λ a b. is_following-delete_follow user target a b n.follows;
              says = refl;
            }
