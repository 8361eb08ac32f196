-- ===== src/Worker/Objects/Kept.antt =====
-- Deleting objects (shared/r2.go) leaves the videos and the queue alone.
use mokibox.Shared.{
  String, true, ◌≡◌, refl, ◌∙◌, none, some, List, [], ◌∷◌, Bool-cases, inl, inr, str_eq, leb,
  length, ◌++◌,
}
use mokibox.Shared.Platform.{Platform}
use mokibox.Worker.World.{World}
use mokibox.Worker.Objects.{
  Client, Page, named_keys, request, delete_objects, Batch, batch_size, flush, add_key, add_keys,
  delete_pages, prefix_allowed, delete_prefix,
}

pub record Kept (w w' : World) : Type 0 where
  pub same_videos : w'.videos ≡ w.videos
  pub same_queue : w'.queue ≡ w.queue

pub Kept-refl : (w : World) → Kept w w
Kept-refl w = record { same_videos = refl; same_queue = refl }

pub Kept-trans : (u v w : World) → Kept u v → Kept v w → Kept u w
Kept-trans u v w a b = record {
  same_videos = b.same_videos ∙ a.same_videos;
  same_queue = b.same_queue ∙ a.same_queue;
}

request-Kept : (send : Client) (keys : List String) (w : World) → Kept w (request send keys w).0
unfolding request
request-Kept send [] w = Kept-refl w
request-Kept send (k ∷ ks) w = record { same_videos = refl; same_queue = refl }

pub delete_objects-Kept :
    (send : Client) (keys : List String) (w : World) → Kept w (delete_objects send keys w).0
unfolding delete_objects
delete_objects-Kept send keys w = request-Kept send (named_keys keys) w

add_key-Kept : (send : Client) (k : String) (b : Batch) → Kept b.world (add_key send k b).world
unfolding add_key flush
add_key-Kept send k b = elim (Bool-cases (str_eq k "")) [
  | inl e ↦ rw e (Kept-refl b.world)
  | inr e ↦ elim (Bool-cases (leb batch_size (length (b.pending ++ k ∷ [])))) [
    | inl full ↦ rw e (rw full (delete_objects-Kept send (b.pending ++ k ∷ []) b.world))
    | inr room ↦ rw e (rw room (Kept-refl b.world))
  ]
]

add_keys-Kept :
    (send : Client) (ks : List String) (b : Batch) → Kept b.world (add_keys send ks b).world
unfolding add_keys
add_keys-Kept send [] b = Kept-refl b.world
add_keys-Kept send (k ∷ ks) b =
    Kept-trans _ _ _ (add_key-Kept send k b) (add_keys-Kept send ks (add_key send k b))

delete_pages-Kept :
    (send : Client) (pages : List Page) (b : Batch) → Kept b.world (delete_pages send pages b).0
unfolding delete_pages flush
delete_pages-Kept send [] b = delete_objects-Kept send b.pending b.world
delete_pages-Kept send (none ∷ pages) b = Kept-refl b.world
delete_pages-Kept send (some keys ∷ pages) b =
    Kept-trans _ _ _ (add_keys-Kept send keys b)
      (delete_pages-Kept send pages (add_keys send keys b))

pub delete_prefix-Kept :
    (p : Platform) (send : Client) (list : String → List Page) (prefix : String) (w : World)
    → Kept w (delete_prefix p send list prefix w).0
unfolding delete_prefix
delete_prefix-Kept p send list prefix w = elim (Bool-cases (prefix_allowed p prefix)) [
  | inl allowed ↦
      rw allowed
        (delete_pages-Kept send (list prefix) (record { world = w; pending = []; fine = true }))
  | inr refused ↦ rw refused (Kept-refl w)
]
