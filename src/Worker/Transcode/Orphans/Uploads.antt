-- ===== src/Worker/Transcode/Orphans/Uploads.antt =====
-- The keys that the uploads of HandleTranscode hand on (transcoder-worker/transcode.go).
use mokibox.Shared.{
  ℕ, String, ◌≡◌, ◌⊎◌, inl, inr, ap, sym, ◌∙◌, Bool, Option, none, some, List, [], ◌∷◌, ◌++◌, arith,
  Bool-cases, Option-cases,
}
use mathlib.Core.List.{append-nil, append_assoc}
use mokibox.Shared.Platform.{Platform, ◌<>◌}
use mokibox.Store.Row.{Video}
use mokibox.Store.Table.{Reply-cases}
use mokibox.Store.Statements.{get_video_by_id}
use mokibox.Worker.World.{World}
use mokibox.Worker.World.Swept.{Swept}
use mokibox.Worker.Transcode.Attempt.{
  DirEntry, Attempt, Outcome, published, Step, stop, next, after, others,
}
use mokibox.Worker.Transcode.Ends.{Ends, after-Ends}
use mokibox.Worker.Transcode.Keeps.{stored-give_up, stored-handle_transient}
use mokibox.Worker.Transcode.Fetch.{prepare, load, claim, inspect, fetch}
use mokibox.Worker.Transcode.Publish.{upload_entries, upload_variant, store}

-- The uploads of a run that began with `before` uploads stored: each was handed to a
-- cleanup:objects task, or the run published the video.
abbrev pub Accounted : List String → World × Outcome → Type 0
Accounted before r =
    (r.1 ≡ published) ⊎ ((new : List String) × (r.0.stored ≡ before ++ new) × Swept new r.0)

-- Before the first upload, a stage stores nothing.
abbrev pub world_of : {A : Type 0} → Step A → World
world_of (stop r) = r.0
world_of (next w x) = w

module _ (p : Platform) (a : Attempt) where
  claim-stored : (id : ℕ) (v : Video) (w : World) → (world_of (claim p a id v w)).stored ≡ w.stored
  unfolding claim
  claim-stored id v w = ground (arith, stored-give_up p a id v.r2_key w)

  load-stored : (id : ℕ) (w : World) → (world_of (load p a id w)).stored ≡ w.stored
  unfolding load
  load-stored id w = elim (Bool-cases a.load_fails) [
    | inl e ↦ rw e
    | inr e ↦ elim (Reply-cases (get_video_by_id id w.videos)) [
      | inl (v, k) ↦ rw (e, k) (claim-stored id v w)
      | inr k ↦ ground arith
    ]
  ]

  pub prepare-stored : (w : World) → (world_of (prepare p a w)).stored ≡ w.stored
  unfolding prepare
  prepare-stored w = grind (arith, load-stored)

  inspect-stored :
      (v : Video) (n : ℕ) (w : World) → (world_of (inspect p a v n w)).stored ≡ w.stored
  unfolding inspect
  inspect-stored v n w =
      ground (arith, stored-give_up p a v.id v.r2_key w, stored-handle_transient p a v w)

  pub fetch-stored : (v : Video) (w : World) → (world_of (fetch p a v w)).stored ≡ w.stored
  unfolding fetch
  fetch-stored v w = elim (Option-cases a.size) [
    | inl e ↦ ground (arith, stored-handle_transient p a v (others a.during w))
    | inr (n, e) ↦ ground (
      arith,
      stored-handle_transient p a v (others a.during w),
      inspect-stored v n (others a.during w),
    )
  ]

-- The loop of uploadVariant returns the keys that it stored, failed or not.
upload_entries-stored :
    (fails : String → Bool) (directory : String) (es : List DirEntry) (w : World)
    (keys before : List String)
    → w.stored ≡ before ++ keys
    → let u = upload_entries fails directory es w keys in u.world.stored ≡ before ++ u.keys
unfolding upload_entries
upload_entries-stored fails directory [] w keys before h = h
upload_entries-stored fails directory (e ∷ es) w keys before h =
    let key = directory <> ("/" <> e.name) in
    ground (
      arith,
      upload_entries-stored fails directory es w keys before h,
      upload_entries-stored fails directory es (store key w) (keys ++ key ∷ []) before
          (ap (λ l. l ++ key ∷ []) h ∙ append_assoc before keys (key ∷ [])),
    )

pub upload_variant-stored :
    (fails : String → Bool) (directory : String) (es : Option (List DirEntry)) (w : World)
    → let u = upload_variant fails directory es w in u.world.stored ≡ w.stored ++ u.keys
unfolding upload_variant
upload_variant-stored fails directory none w = sym (append-nil _)
upload_variant-stored fails directory (some es) w =
    upload_entries-stored fails directory es w [] w.stored (sym (append-nil _))

-- After a stage that uploads: a run that it ended is accounted for, and one that goes on knows in
-- `uploadedKeys` what it stored.
abbrev pub Tracked : List String → Step (List String) → Type 0
Tracked before s = Ends (Accounted before) (λ w keys. w.stored ≡ before ++ keys) s

pub after-Accounted :
    (before : List String) (s : Step (List String)) (f : World → List String → World × Outcome)
    → Tracked before s
    → ((w : World) (keys : List String) → w.stored ≡ before ++ keys → Accounted before (f w keys))
    → Accounted before (after s f)
after-Accounted before s f h k =
    after-Ends (Accounted before) (λ w keys. w.stored ≡ before ++ keys) s f h k
