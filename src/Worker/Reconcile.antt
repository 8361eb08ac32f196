-- ===== src/Worker/Reconcile.antt =====
-- transcoder-worker/reconcile.go: the sweep over the tombstoned users' prefixes. The list of eligible
-- users and the pages of the listings are arguments.
pub mod Complete
use mokibox.Shared.{ℕ, String, Bool, Option, none, some, List, [], ◌∷◌, ◌++◌, if◌then◌else◌}
use mokibox.Shared.Platform.{Platform, ◌<>◌}
use mokibox.Worker.Objects.{Page, list_objects_by_prefix}
use mokibox.Worker.World.{Task, World, enqueue_cleanup_objects}

-- reconcilePrefixes
abbrev pub reconcile_prefixes : List String
reconcile_prefixes = "uploads" ∷ "thumbs" ∷ "hls" ∷ []

-- A tick whose budget of ten minutes ends before the n-th user has budget n.
pub record Sweep : Type 0 where
  pub has_queries : Bool
  pub has_r2 : Bool
  pub has_asynq : Bool
  pub has_logger : Bool
  pub list : String → List Page
  pub refused : Task → Bool
  pub out_of_budget : ℕ → Bool

pub data SweepEnd : Type 0 where
  retry_tick skipped_tick early_tick complete_tick : SweepEnd

module _ (p : Platform) (s : Sweep) where
  -- The loop of listUserOrphanKeys.
  unfoldable pub list_roots : ℕ → List String → List String → Option (List String)
  unfolding list_objects_by_prefix
  list_roots user [] keys = some keys
  list_roots user (root ∷ roots) keys =
      elim (list_objects_by_prefix p s.list (root <> "/" <> p.uuid_string user <> "/")) [
        | none ↦ none
        | some found ↦ list_roots user roots (keys ++ found)
      ]

  -- listUserOrphanKeys
  unfoldable pub list_user_orphan_keys : ℕ → Option (List String)
  unfolding list_roots
  list_user_orphan_keys user = list_roots user reconcile_prefixes []

  -- The keys of one user: nothing to do, a dry run, or a cleanup whose failure is only logged.
  unfoldable pub sweep_keys : Bool → List String → World → World
  unfolding enqueue_cleanup_objects
  sweep_keys dry_run [] w = w
  sweep_keys dry_run (k ∷ ks) w =
      if dry_run then w else (enqueue_cleanup_objects s.refused (k ∷ ks) w).0

  -- The body of the loop of HandleReconcileTick.
  unfoldable pub reconcile_user : Bool → ℕ → World → World
  unfolding list_user_orphan_keys sweep_keys
  reconcile_user dry_run user w = elim (list_user_orphan_keys user) [
    | none ↦ w
    | some keys ↦ sweep_keys dry_run keys w
  ]

  -- The loop of HandleReconcileTick.
  unfoldable pub reconcile_users : Bool → List ℕ → World → World × SweepEnd
  unfolding reconcile_user
  reconcile_users dry_run [] w = (w, complete_tick)
  reconcile_users dry_run (user ∷ users) w =
      if s.out_of_budget user
      then (w, early_tick)
      else reconcile_users dry_run users (reconcile_user dry_run user w)

  -- HandleReconcileTick; the arguments are the payload's dry_run, unless it is malformed, and the
  -- answer of ListUsersEligibleForReconcile.
  unfoldable pub handle_reconcile_tick : Option Bool → Option (List ℕ) → World → World × SweepEnd
  unfolding reconcile_users
  handle_reconcile_tick payload eligible w =
      if s.has_queries
      then (if s.has_r2
          then (if s.has_asynq
              then (if s.has_logger
                  then elim payload [
                    | none ↦ (w, skipped_tick)
                    | some dry_run ↦ elim eligible [
                      | none ↦ (w, retry_tick)
                      | some users ↦ reconcile_users dry_run users w
                    ]
                  ]
                  else (w, skipped_tick))
              else (w, skipped_tick))
          else (w, skipped_tick))
      else (w, skipped_tick)
