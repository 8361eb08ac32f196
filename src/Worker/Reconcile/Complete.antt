-- ===== src/Worker/Reconcile/Complete.antt =====
-- What a tick of the sweeper (transcoder-worker/reconcile.go) enqueues.
use mokibox.Shared.{
  ℕ, ◌≡◌, subst, ap, sym, ◌∙◌, String, true, false, false≢true, Option, none, some, List, [], ◌∷◌,
  ◌++◌, All,
}
use mathlib.Core.List.{append-nil, append_assoc}
use mokibox.Shared.Platform.{Platform, ◌<>◌}
use mokibox.Worker.Objects.{Page, named_keys, list_pages, prefix_allowed, list_objects_by_prefix}
use mokibox.Worker.Objects.Deletes.{listed, complete}
use mokibox.Worker.World.{Task, World, cleanup_keys}
use mokibox.Worker.World.Swept.{cleanup_keys-enqueue}
use mokibox.Worker.Transcode.Ends.{if-rule}
use mokibox.Worker.Reconcile.{
  Sweep, SweepEnd, list_roots, list_user_orphan_keys, sweep_keys, reconcile_user, reconcile_users,
  reconcile_prefixes, handle_reconcile_tick,
}

list_pages-listed :
    (keys : List String) (pages : List Page)
    → complete pages ≡ true
    → list_pages keys pages ≡ some (keys ++ listed pages)
unfolding list_pages
list_pages-listed keys [] e = ap some (sym (append-nil keys))
list_pages-listed keys (none ∷ pages) e = absurd (false≢true e)
list_pages-listed keys (some page ∷ pages) e =
    list_pages-listed (keys ++ named_keys page) pages e
    ∙ ap some (append_assoc keys (named_keys page) (listed pages))

module _ (p : Platform) (s : Sweep) where
  abbrev prefix_of : ℕ → String → String
  prefix_of user root = root <> "/" <> p.uuid_string user <> "/"

  -- What the bucket lists under a user's roots.
  abbrev pub under : ℕ → List String → List String
  under user [] = []
  under user (root ∷ roots) = listed (s.list (prefix_of user root)) ++ under user roots

  abbrev pub orphans : List ℕ → List String
  orphans [] = []
  orphans (user ∷ users) = under user reconcile_prefixes ++ orphans users

  module _ (whole : (prefix : String) → complete (s.list prefix) ≡ true)
      (allowed : (user : ℕ)
        → All (λ root. prefix_allowed p (prefix_of user root) ≡ true) reconcile_prefixes)
      (taken : (t : Task) → s.refused t ≡ false)
      (in_time : (user : ℕ) → s.out_of_budget user ≡ false) where
    list_objects_by_prefix-listed :
        (user : ℕ) (root : String)
        → prefix_allowed p (prefix_of user root) ≡ true
        → list_objects_by_prefix p s.list (prefix_of user root)
          ≡ some (listed (s.list (prefix_of user root)))
    unfolding list_objects_by_prefix
    list_objects_by_prefix-listed user root let_through =
        if-rule (λ (o : Option (List String)). o ≡ some (listed (s.list (prefix_of user root))))
          (prefix_allowed p (prefix_of user root))
          (λ e. list_pages-listed [] (s.list (prefix_of user root)) (whole _))
          (λ e. absurd (false≢true (sym e ∙ let_through)))

    list_roots-under :
        (user : ℕ) (roots keys : List String)
        → All (λ root. prefix_allowed p (prefix_of user root) ≡ true) roots
        → list_roots p s user roots keys ≡ some (keys ++ under user roots)
    unfolding list_roots
    list_roots-under user [] keys h = ap some (sym (append-nil keys))
    list_roots-under user (root ∷ roots) keys (g, h) =
        let here = listed (s.list (prefix_of user root)) in
        subst
          (λ (o : Option (List String)).
            elim o as (λ o. Option (List String)) [
              | none ↦ none
              | some found ↦ list_roots p s user roots (keys ++ found)
            ]
            ≡ some (keys ++ (here ++ under user roots)))
          (sym (list_objects_by_prefix-listed user root g))
          (list_roots-under user roots (keys ++ here) h
            ∙ ap some (append_assoc keys here (under user roots)))

    sweep_keys-keys :
        (keys : List String) (w : World)
        → cleanup_keys (sweep_keys p s false keys w).queue ≡ cleanup_keys w.queue ++ keys
    unfolding sweep_keys
    sweep_keys-keys [] w = sym (append-nil _)
    sweep_keys-keys (k ∷ ks) w = cleanup_keys-enqueue s.refused (k ∷ ks) w (taken _)

    reconcile_user-keys :
        (user : ℕ) (w : World)
        → cleanup_keys (reconcile_user p s false user w).queue
          ≡ cleanup_keys w.queue ++ under user reconcile_prefixes
    unfolding reconcile_user list_user_orphan_keys
    reconcile_user-keys user w =
        subst
          (λ (o : Option (List String)).
            cleanup_keys
              (elim o as (λ o. World) [ none ↦ w | some keys ↦ sweep_keys p s false keys w ]).queue
            ≡ cleanup_keys w.queue ++ under user reconcile_prefixes)
          (sym (list_roots-under user reconcile_prefixes [] (allowed user)))
          (sweep_keys-keys (under user reconcile_prefixes) w)

    reconcile_users-keys :
        (users : List ℕ) (w : World)
        → cleanup_keys (reconcile_users p s false users w).0.queue
          ≡ cleanup_keys w.queue ++ orphans users
    unfolding reconcile_users
    reconcile_users-keys [] w = sym (append-nil _)
    reconcile_users-keys (user ∷ users) w =
        if-rule
          (λ (r : World × SweepEnd).
            cleanup_keys r.0.queue ≡ cleanup_keys w.queue ++ orphans (user ∷ users))
          (s.out_of_budget user) (λ e. absurd (false≢true (sym (in_time user) ∙ e)))
          (λ e.
            reconcile_users-keys users (reconcile_user p s false user w)
            ∙ (ap (λ l. l ++ orphans users) (reconcile_user-keys user w)
                ∙ append_assoc (cleanup_keys w.queue) (under user reconcile_prefixes)
                    (orphans users)))

    -- A tick that is not a dry run, with its dependencies there, its listings complete, its prefixes
    -- let through by the guards, its tasks taken by Redis and its budget not used up, hands to
    -- cleanup:objects tasks exactly what the bucket lists under uploads/, thumbs/ and hls/ of each
    -- eligible user, user after user.
    pub handle_reconcile_tick-keys :
        s.has_queries ≡ true
        → s.has_r2 ≡ true
        → s.has_asynq ≡ true
        → s.has_logger ≡ true
        → (users : List ℕ) (w : World)
        → cleanup_keys (handle_reconcile_tick p s (some false) (some users) w).0.queue
          ≡ cleanup_keys w.queue ++ orphans users
    unfolding handle_reconcile_tick
    handle_reconcile_tick-keys a b c d users w =
        rw a (rw b (rw c (rw d (reconcile_users-keys users w))))
