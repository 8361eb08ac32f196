-- ===== src/Gateway/Account/Erased.antt =====
-- What the deletion of a user leaves of the user's data (api-gateway/handlers/account.go).
use mathlib.Core.Option.{some-injective}
use mokibox.Shared.{
  ℕ, suc, ◌≡◌, refl, ap, sym, ◌∙◌, subst, ◌⊎◌, inl, inr, String, Bool, true, false, not, ◌&&◌, ◌||◌,
  Option, some, List, [], ◌∷◌, arith, any, keep_if, ◌==◌,
}
use mokibox.Store.Table.{Table}
use mokibox.Store.Statements.{delete_videos_by_user}
use mokibox.Worker.World.{World, Task, enqueue, enqueue_cleanup_objects}
use mokibox.Worker.Transcode.Ends.{if-rule, Option-rule}
use mokibox.Gateway.Upload.{Response, refuse, done}
use mokibox.Gateway.Comments.{Comment}
use mokibox.Gateway.Account.{
  Accounts, Member, list_video_keys, delete_comments_by_user, statements, execute, tombstone_user,
  Deleting, Collected, failed, no_local_user, keys, tombstone_and_commit, collect_user_r2_keys,
  delete_user_data, enqueue_keys,
}

-- Nothing of the user is left but a tombstone.
pub record IsErased (user : ℕ) (a : Accounts) : Type 0 where
  pub videos : any (λ v. v.user_id == user) a.world.videos ≡ false
  pub likes : any (λ l. l.user_id == user) a.likes ≡ false
  pub comments : any (λ c. c.user_id == user) a.comments ≡ false
  pub follows : any (λ f. f.follower_id == user || f.followee_id == user) a.follows ≡ false
  pub inbox : any (λ i. i.user_id == user || i.actor_id == user) a.inbox ≡ false
  pub users : any (λ u. u.id == user && u.is_active) a.users ≡ false

not-true : (b : Bool) → not b ≡ true → b ≡ false
not-true b e = ground arith

any-keep_if :
    {A : Type 0} (p : A → Bool) (xs : List A) → any p (keep_if (λ x. not (p x)) xs) ≡ false
any-keep_if p [] = refl
any-keep_if p (x ∷ xs) = ground (arith, any-keep_if p xs)

any-keep_if_both :
    {A : Type 0} (p q : A → Bool) (xs : List A)
    → any (λ x. p x || q x) (keep_if (λ x. not (q x)) (keep_if (λ x. not (p x)) xs)) ≡ false
any-keep_if_both p q [] = refl
any-keep_if_both p q (x ∷ xs) = ground (arith, any-keep_if_both p q xs)

any-delete_comments :
    (user : ℕ) (cs : List Comment)
    → any (λ c. c.user_id == user) (delete_comments_by_user user cs) ≡ false
unfolding delete_comments_by_user
any-delete_comments user [] = refl
any-delete_comments user (c ∷ cs) = ground (arith, any-delete_comments user cs)

any-tombstone :
    (text : ℕ → String) (now user : ℕ) (us : List Member)
    → any (λ u. u.id == user && u.is_active) (tombstone_user text now user us) ≡ false
any-tombstone text now user [] = refl
any-tombstone text now user (u ∷ us) = ground (arith, any-tombstone text now user us)

any-delete_videos :
    (user : ℕ) (t : Table) → any (λ v. v.user_id == user) (delete_videos_by_user user t) ≡ false
unfolding delete_videos_by_user
any-delete_videos user t = any-keep_if (λ v. v.user_id == user) t

-- All statements of a list, one after the other.
abbrev pub perform : List (Accounts → Accounts) → Accounts → Accounts
perform [] a = a
perform (f ∷ fs) a = perform fs (f a)

execute-perform :
    (fails : ℕ → Bool) (n : ℕ) (fs : List (Accounts → Accounts)) (a b : Accounts)
    → execute fails n fs a ≡ some b
    → b ≡ perform fs a
execute-perform fails n [] a b e = sym (some-injective a b e)
execute-perform fails n (f ∷ fs) a b e =
    if-rule (λ (r : Option Accounts). r ≡ some b → b ≡ perform (f ∷ fs) a) (fails n) (λ k e. cc)
      (λ k. execute-perform fails (suc n) fs (f a) b) e

-- The tables after a deletion of the user that is committed.
abbrev pub erased : (ℕ → String) → ℕ → ℕ → Accounts → Accounts
erased text now user a =
    let b = perform (statements user) a in record b { users = tombstone_user text now user b.users }

erased-IsErased :
    (text : ℕ → String) (now user : ℕ) (a : Accounts) → IsErased user (erased text now user a)
erased-IsErased text now user a = record {
  videos = any-delete_videos user _;
  likes = any-keep_if (λ l. l.user_id == user) _;
  comments = any-delete_comments user _;
  follows = any-keep_if_both (λ f. f.follower_id == user) (λ f. f.followee_id == user) _;
  inbox = any-keep_if_both (λ i. i.user_id == user) (λ i. i.actor_id == user) _;
  users = any-tombstone text now user _;
}

pub enqueue-videos :
    (refused : Task → Bool) (ks : List String) (w : World)
    → (enqueue_cleanup_objects refused ks w).0.videos ≡ w.videos
unfolding enqueue_cleanup_objects enqueue
enqueue-videos refused [] w = refl
enqueue-videos refused (k ∷ ks) w = ground arith

enqueue-queue :
    (refused : Task → Bool) (ks : List String) (w w' : World)
    → w.queue ≡ w'.queue
    → (enqueue_cleanup_objects refused ks w).0.queue
      ≡ (enqueue_cleanup_objects refused ks w').0.queue
unfolding enqueue_cleanup_objects enqueue
enqueue-queue refused [] w w' e = e
enqueue-queue refused (k ∷ ks) w w' e = ground arith

module _ (c : Deleting) (user : ℕ) (a : Accounts) where
  -- How collectUserR2Keys ends.
  abbrev pub Collects : Accounts × Collected → Type 0
  Collects (b, failed e) = b ≡ a
  Collects (b, no_local_user) = (b ≡ a) × (any (λ u. u.id == user) a.users ≡ false)
  Collects (b, keys ks) =
      (b ≡ erased c.uuid_string c.now user a) × (ks ≡ list_video_keys user a.world.videos)

  tombstone_and_commit-Collects :
      (b : Accounts)
      → b ≡ perform (statements user) a
      → Collects (tombstone_and_commit c user (list_video_keys user a.world.videos) a b)
  unfolding tombstone_and_commit
  tombstone_and_commit-Collects b made =
      if-rule Collects (c.fails 10) (λ e. refl)
        λ e.
          if-rule Collects (not (any (λ u. u.id == user) b.users))
            (λ none_such. (
              refl,
              ap (λ (x : Accounts). any (λ u. u.id == user) x.users) (sym made)
                  ∙ not-true _ none_such,
            ))
            λ e.
              if-rule Collects c.commit_fails (λ e. refl)
                (λ e. (
                  ap
                      (λ (x : Accounts). record x {
                        users = tombstone_user c.uuid_string c.now user x.users;
                      })
                      made,
                  refl,
                ))

  pub collect_user_r2_keys-Collects : Collects (collect_user_r2_keys c user a)
  unfolding collect_user_r2_keys
  collect_user_r2_keys-Collects =
      if-rule Collects c.begin_fails (λ e. refl)
        λ e.
          if-rule Collects (c.fails 0) (λ e. refl)
            λ e.
              Option-rule Collects (execute c.fails 1 (statements user) a) (λ e. refl)
                λ b ran.
                  tombstone_and_commit-Collects b
                    (execute-perform c.fails 1 (statements user) a b ran)

  -- What a deletion of the user's data has done: nothing, or all of it.
  pub record Erasure (b : Accounts) : Type 0 where
    pub gone : IsErased user b
    pub queued :
        b.world.queue
        ≡ (enqueue_cleanup_objects c.refused (list_video_keys user a.world.videos) a.world).0.queue

  abbrev pub Deletes : Accounts × Response Unit → Type 0
  Deletes (b, refuse e) = b ≡ a
  Deletes (b, done x) = ((b ≡ a) × (any (λ u. u.id == user) a.users ≡ false)) ⊎ Erasure b

  erased-Erasure :
      (b : Accounts) (ks : List String)
      → b ≡ erased c.uuid_string c.now user a
      → ks ≡ list_video_keys user a.world.videos
      → Erasure (record b { world = (enqueue_cleanup_objects c.refused ks b.world).0 })
  erased-Erasure b ks made listed =
      let e = subst (IsErased user) (sym made) (erased-IsErased c.uuid_string c.now user a) in
      record {
        gone = record {
          videos =
              ap (λ (t : Table). any (λ v. v.user_id == user) t)
                (enqueue-videos c.refused ks b.world)
              ∙ e.videos;
          likes = e.likes;
          comments = e.comments;
          follows = e.follows;
          inbox = e.inbox;
          users = e.users;
        };
        queued =
            enqueue-queue c.refused ks b.world a.world (ap (λ (x : Accounts). x.world.queue) made)
            ∙ ap (λ (l : List String). (enqueue_cleanup_objects c.refused l a.world).0.queue)
                listed;
      }

  delete_from : (r : Accounts × Collected) → Collects r → Deletes (enqueue_keys c r)
  delete_from (b, failed e) h = h
  delete_from (b, no_local_user) h = inl h
  delete_from (b, keys ks) (made, listed) = inr (erased-Erasure b ks made listed)

  -- A deletion of a user's data that fails leaves every table and the queue as they were, and so does
  -- one of a user without a row. Any other leaves no video, like, comment, follow or notification of the
  -- user, and no active row of the user, and puts the keys of all the user's videos on the queue in one
  -- task, unless there are none or the queue refuses it.
  pub delete_user_data-Deletes : Deletes (delete_user_data c user a)
  unfolding delete_user_data
  delete_user_data-Deletes =
      delete_from (collect_user_r2_keys c user a) collect_user_r2_keys-Collects
