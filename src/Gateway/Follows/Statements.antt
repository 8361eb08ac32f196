-- ===== src/Gateway/Follows/Statements.antt =====
-- The follows table and the statements on it (shared/db/follows.sql.go).
use mokibox.Shared.{
  ℕ, Bool, true, not, ◌&&◌, ◌||◌, Option, none, some, List, [], ◌∷◌, any, keep_if, take, ltb, ◌==◌,
  if◌then◌else◌,
}
use mokibox.Store.Table.{Reply, row, no_rows}

-- A row of the follows table; (follower_id, followee_id) is its primary key.
pub record Follow : Type 0 where
  pub follower_id : ℕ
  pub followee_id : ℕ
  pub created_at : ℕ

abbrev pub is_edge : ℕ → ℕ → Follow → Bool
is_edge follower followee f = f.follower_id == follower && f.followee_id == followee

-- IsFollowing
abbrev pub is_following : ℕ → ℕ → List Follow → Bool
is_following follower followee fs = any (is_edge follower followee) fs

-- GetFollow
unfoldable pub get_follow : ℕ → ℕ → List Follow → Reply Follow
get_follow follower followee [] = no_rows
get_follow follower followee (f ∷ fs) =
    if is_edge follower followee f then row f else get_follow follower followee fs

-- FollowUser, with ON CONFLICT DO NOTHING. `now` is NOW().
unfoldable pub insert_follow : ℕ → ℕ → ℕ → List Follow → List Follow
insert_follow now follower followee fs =
    if is_following follower followee fs
    then fs
    else record { follower_id = follower; followee_id = followee; created_at = now } ∷ fs

-- DeleteFollow
unfoldable pub delete_follow : ℕ → ℕ → List Follow → List Follow
delete_follow follower followee = keep_if (λ f. not (is_edge follower followee f))

-- The order of a page: (created_at, id) descending. `earlier` compares the pairs.
abbrev pub earlier : ℕ × ℕ → ℕ × ℕ → Bool
earlier a b = ltb a.0 b.0 || (a.0 == b.0 && ltb a.1 b.1)

module _ (key : Follow → ℕ × ℕ) where
  abbrev pub insert_desc : Follow → List Follow → List Follow
  insert_desc f [] = f ∷ []
  insert_desc f (g ∷ gs) =
      let rest = insert_desc f gs in if earlier (key f) (key g) then g ∷ rest else f ∷ g ∷ gs

  abbrev pub sort_desc : List Follow → List Follow
  sort_desc [] = []
  sort_desc (f ∷ fs) = insert_desc f (sort_desc fs)

  -- WHERE … AND (no cursor OR key < cursor) ORDER BY key DESC LIMIT n
  unfoldable pub page_of : (Follow → Bool) → Option (ℕ × ℕ) → ℕ → List Follow → List Follow
  page_of selected cursor limit fs = take limit (
      sort_desc
        (keep_if (λ f. selected f && elim cursor [ none ↦ true | some c ↦ earlier (key f) c ]) fs))
