-- ===== src/Worker/World/Swept.antt =====
-- Which uploads the queue of Worker/World asks to delete.
use mokibox.Shared.{
  ℕ, String, ◌≡◌, subst, refl, inl, inr, ap, sym, ◌∙◌, Bool, true, false, List, [], ◌∷◌, ◌++◌,
  arith, if◌then◌else◌, Bool-cases, All, In, All-map, In-append_left, In-append_right, All-In,
}
use mathlib.Core.List.{append-nil, append_assoc}
use mokibox.Worker.World.{
  Task, transcode_video, cleanup_objects, cleanup_video, Entry, World, enqueue,
  enqueue_cleanup_objects, cleanup_keys,
}

pub cleanup_keys-append :
    (q r : List Entry) → cleanup_keys (q ++ r) ≡ cleanup_keys q ++ cleanup_keys r
cleanup_keys-append [] r = refl
cleanup_keys-append (e ∷ q) r = go e.task (cleanup_keys-append q r)
  where
    go :
        (t : Task)
        → cleanup_keys (q ++ r) ≡ cleanup_keys q ++ cleanup_keys r
        → cleanup_keys (record { task = t; delay = e.delay } ∷ q ++ r)
          ≡ cleanup_keys (record { task = t; delay = e.delay } ∷ q) ++ cleanup_keys r
    go (cleanup_objects ks) h = ap (λ l. ks ++ l) h ∙ sym (append_assoc ks _ _)
    go (transcode_video v) h = h
    go (cleanup_video v) h = h

grow :
    (k : String) (r q : List Entry)
    → In k (cleanup_keys q ++ cleanup_keys r)
    → In k (cleanup_keys (q ++ r))
grow k r q m = subst (In k) (sym (cleanup_keys-append q r)) m

-- Every one of the keys stands in some cleanup:objects task of the queue.
abbrev pub Swept : List String → World → Type 0
Swept keys w = All (λ k. In k (cleanup_keys w.queue)) keys

-- A task that is enqueued takes nothing away.
pub enqueue-Swept :
    (refused : Task → Bool) (t : Task) (delay : ℕ) (w : World) (keys : List String)
    → Swept keys w
    → Swept keys (enqueue refused t delay w).0
unfolding enqueue
enqueue-Swept refused t delay w keys h = elim (Bool-cases (refused t)) [
  | inl e ↦ rw e h
  | inr e ↦ rw e (All-map _ _ keys (λ k m. grow k _ w.queue (In-append_left k _ _ m)) h)
]

pub cleanup-keeps_Swept :
    (refused : Task → Bool) (ks : List String) (w : World) (keys : List String)
    → Swept keys w
    → Swept keys (enqueue_cleanup_objects refused ks w).0
unfolding enqueue_cleanup_objects
cleanup-keeps_Swept refused [] w keys h = h
cleanup-keeps_Swept refused (k ∷ ks) w keys h = enqueue-Swept refused _ _ w keys h

pub queue-enqueue :
    (refused : Task → Bool) (t : Task) (delay : ℕ) (w : World)
    → refused t ≡ false
    → (enqueue refused t delay w).0.queue ≡ w.queue ++ record { task = t; delay = delay } ∷ []
unfolding enqueue
queue-enqueue refused t delay w e = rw e

-- Keys given to EnqueueCleanupObjects are swept, if Redis takes the task.
pub cleanup-Swept :
    (refused : Task → Bool) (keys : List String) (w : World)
    → refused (cleanup_objects keys) ≡ false
    → Swept keys (enqueue_cleanup_objects refused keys w).0
unfolding enqueue_cleanup_objects enqueue
cleanup-Swept refused [] w e = tt
cleanup-Swept refused (k ∷ ks) w e =
    subst (λ (q : List Entry). All (λ x. In x (cleanup_keys q)) (k ∷ ks))
      (sym (queue-enqueue refused (cleanup_objects (k ∷ ks)) 0 w e))
      (All-map _ _ (k ∷ ks)
        (λ x m.
          grow x _ w.queue
            (In-append_right x (cleanup_keys w.queue) _ (In-append_left x (k ∷ ks) [] m)))
        (All-In (k ∷ ks)))

-- An enqueued task stores nothing.
pub stored-enqueue :
    (refused : Task → Bool) (t : Task) (delay : ℕ) (w : World)
    → (enqueue refused t delay w).0.stored ≡ w.stored
unfolding enqueue
stored-enqueue refused t delay w = ground arith

pub stored-enqueue_cleanup_objects :
    (refused : Task → Bool) (ks : List String) (w : World)
    → (enqueue_cleanup_objects refused ks w).0.stored ≡ w.stored
unfolding enqueue_cleanup_objects
stored-enqueue_cleanup_objects refused [] w = refl
stored-enqueue_cleanup_objects refused (k ∷ ks) w = stored-enqueue refused _ 0 w

-- Nor does it touch the table.
pub videos-enqueue :
    (refused : Task → Bool) (t : Task) (delay : ℕ) (w : World)
    → (enqueue refused t delay w).0.videos ≡ w.videos
unfolding enqueue
videos-enqueue refused t delay w = ground arith

pub videos-enqueue_cleanup_objects :
    (refused : Task → Bool) (ks : List String) (w : World)
    → (enqueue_cleanup_objects refused ks w).0.videos ≡ w.videos
unfolding enqueue_cleanup_objects
videos-enqueue_cleanup_objects refused [] w = refl
videos-enqueue_cleanup_objects refused (k ∷ ks) w = videos-enqueue refused _ 0 w

-- What Enqueue took is the last task of the queue.
pub enqueue-done :
    (refused : Task → Bool) (t : Task) (delay : ℕ) (w : World)
    → (enqueue refused t delay w).1 ≡ true
    → (enqueue refused t delay w).0.queue ≡ w.queue ++ record { task = t; delay = delay } ∷ []
unfolding enqueue
enqueue-done refused t delay w = ground arith

-- The queue after an Enqueue, taken or not.
pub queue-enqueue_if :
    (refused : Task → Bool) (t : Task) (delay : ℕ) (w : World)
    → (enqueue refused t delay w).0.queue
      ≡ w.queue ++ (if refused t then [] else record { task = t; delay = delay } ∷ [])
unfolding enqueue
queue-enqueue_if refused t delay w = elim (Bool-cases (refused t)) [
  | inl e ↦ rw e (sym (append-nil w.queue))
  | inr e ↦ rw e refl
]

-- The keys of a cleanup that was taken are the last of the queue's keys.
pub cleanup_keys-enqueue :
    (refused : Task → Bool) (keys : List String) (w : World)
    → refused (cleanup_objects keys) ≡ false
    → cleanup_keys (enqueue_cleanup_objects refused keys w).0.queue ≡ cleanup_keys w.queue ++ keys
unfolding enqueue_cleanup_objects
cleanup_keys-enqueue refused [] w e = sym (append-nil _)
cleanup_keys-enqueue refused (k ∷ ks) w e =
    ap cleanup_keys (queue-enqueue refused (cleanup_objects (k ∷ ks)) 0 w e)
    ∙ (cleanup_keys-append w.queue _ ∙ ap (λ l. cleanup_keys w.queue ++ l) (append-nil (k ∷ ks)))
