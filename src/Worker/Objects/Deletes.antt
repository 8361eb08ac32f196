-- ===== src/Worker/Objects/Deletes.antt =====
-- DeletePrefix (shared/r2.go) asks for the deletion of what the listing shows.
use mokibox.Shared.{
  String, ◌≡◌, inl, inr, refl, ap, sym, ◌∙◌, Bool, true, false, false≢true, none, some, List, [],
  ◌∷◌, ◌++◌, arith, Bool-cases, leb, length, if◌then◌else◌, str_eq,
}
use mathlib.Core.List.{append-nil, append_assoc}
use mokibox.Shared.Platform.{Platform}
use mokibox.Worker.World.{World}
use mokibox.Worker.Objects.{
  Client, Page, named_keys, request, delete_objects, Batch, batch_size, flush, add_key, add_keys,
  delete_pages, prefix_allowed, delete_prefix,
}

-- The keys of a listing, page after page.
abbrev pub listed : List Page → List String
listed [] = []
listed (none ∷ pages) = []
listed (some keys ∷ pages) = named_keys keys ++ listed pages

-- Every page arrived.
abbrev pub complete : List Page → Bool
complete [] = true
complete (none ∷ pages) = false
complete (some keys ∷ pages) = complete pages

-- What was requested so far, and what waits in the batch.
abbrev seen : Batch → List String
seen b = b.world.removed ++ b.pending

named_keys-named : (ks : List String) → named_keys (named_keys ks) ≡ named_keys ks
unfolding named_keys
named_keys-named [] = refl
named_keys-named (k ∷ ks) = ground (arith, named_keys-named ks)

request-removed :
    (send : Client) (ks : List String) (w : World) → (request send ks w).0.removed ≡ w.removed ++ ks
unfolding request
request-removed send [] w = sym (append-nil _)
request-removed send (k ∷ ks) w = refl

-- The batch never holds "" (it was skipped).
abbrev Clean : Batch → Type 0
Clean b = named_keys b.pending ≡ b.pending

flush-seen : (send : Client) (b : Batch) → Clean b → seen (flush send b) ≡ seen b
unfolding flush delete_objects
flush-seen send b c =
    append-nil _
    ∙ (request-removed send (named_keys b.pending) b.world ∙ ap (λ l. b.world.removed ++ l) c)

named_keys-append : (xs ys : List String) → named_keys (xs ++ ys) ≡ named_keys xs ++ named_keys ys
unfolding named_keys
named_keys-append [] ys = refl
named_keys-append (x ∷ xs) ys = ground (arith, named_keys-append xs ys)

record Filled (ks : List String) (b b' : Batch) : Type 0 where
  all_seen : seen b' ≡ seen b ++ named_keys ks
  clean : Clean b'

named_one : (k : String) → str_eq k "" ≡ false → named_keys (k ∷ []) ≡ k ∷ []
unfolding named_keys
named_one k e = rw e refl

named_none : (k : String) → str_eq k "" ≡ true → named_keys (k ∷ []) ≡ []
unfolding named_keys
named_none k e = rw e refl

add_key-Filled :
    (send : Client) (k : String) (b : Batch) → Clean b → Filled (k ∷ []) b (add_key send k b)
unfolding add_key
add_key-Filled send k b c = elim (Bool-cases (str_eq k "")) [
  | inl e ↦ rw e (record {
    all_seen = sym (append-nil _) ∙ ap (λ l. seen b ++ l) (sym (named_none k e));
    clean = c;
  })
  | inr e ↦
      let grown = record b { pending = b.pending ++ k ∷ [] } in
      let grown_clean : Clean grown =
        named_keys-append b.pending (k ∷ [])
        ∙ (ap (λ l. l ++ named_keys (k ∷ [])) c ∙ ap (λ l. b.pending ++ l) (named_one k e)) in
      let grown_seen : seen grown ≡ seen b ++ named_keys (k ∷ []) =
        sym (append_assoc b.world.removed b.pending (k ∷ []))
        ∙ ap (λ l. seen b ++ l) (sym (named_one k e)) in
      elim (Bool-cases (leb batch_size (length grown.pending))) [
        | inl full ↦ rw e (
            rw full
              (record { all_seen = flush-seen send grown grown_clean ∙ grown_seen; clean = refl }))
        | inr room ↦ rw e (rw room (record { all_seen = grown_seen; clean = grown_clean }))
      ]
]

add_keys-Filled :
    (send : Client) (ks : List String) (b : Batch) → Clean b → Filled ks b (add_keys send ks b)
unfolding add_keys named_keys
add_keys-Filled send [] b c = record { all_seen = sym (append-nil _); clean = c }
add_keys-Filled send (k ∷ ks) b c =
    let one = add_key-Filled send k b c in
    let rest = add_keys-Filled send ks (add_key send k b) one.clean in
    record {
      all_seen =
          rest.all_seen
          ∙ (ap (λ l. l ++ named_keys ks) one.all_seen
              ∙ (append_assoc (seen b) (named_keys (k ∷ [])) (named_keys ks)
                  ∙ ap (λ l. seen b ++ l) (sym (named_keys-append (k ∷ []) ks))));
      clean = rest.clean;
    }

-- The pages that all arrive are requested, key by key.
delete_pages-removed :
    (send : Client) (pages : List Page) (b : Batch)
    → Clean b
    → complete pages ≡ true
    → (delete_pages send pages b).0.removed ≡ seen b ++ listed pages
unfolding delete_pages
delete_pages-removed send [] b c e = sym (append-nil _) ∙ (flush-seen send b c ∙ sym (append-nil _))
delete_pages-removed send (none ∷ pages) b c e = absurd (false≢true e)
delete_pages-removed send (some keys ∷ pages) b c e =
    let filled = add_keys-Filled send keys b c in
    delete_pages-removed send pages (add_keys send keys b) filled.clean e
    ∙ (ap (λ l. l ++ listed pages) filled.all_seen
        ∙ append_assoc (seen b) (named_keys keys) (listed pages))

-- Where every page of the listing arrives, DeletePrefix asks R2 to delete exactly the keys that the
-- listing shows under the prefix, each once, in the listing's order and whatever R2 answers to the
-- requests; where the prefix is empty, does not end in "/" or is only slashes, it asks for nothing.
pub delete_prefix-removed :
    (p : Platform) (send : Client) (list : String → List Page) (prefix : String) (w : World)
    → complete (list prefix) ≡ true
    → (delete_prefix p send list prefix w).0.removed
      ≡ (if prefix_allowed p prefix then w.removed ++ listed (list prefix) else w.removed)
unfolding delete_prefix
delete_prefix-removed p send list prefix w e = elim (Bool-cases (prefix_allowed p prefix)) [
  | inl allowed ↦ rw allowed (
      delete_pages-removed send (list prefix) (record { world = w; pending = []; fine = true }) refl
        e
      ∙ ap (λ l. l ++ listed (list prefix)) (append-nil w.removed))
  | inr refused ↦ rw refused refl
]

delete_pages-complete :
    (send : Client) (pages : List Page) (b : Batch)
    → (delete_pages send pages b).1 ≡ true
    → complete pages ≡ true
unfolding delete_pages
delete_pages-complete send [] b e = refl
delete_pages-complete send (none ∷ pages) b e = absurd (false≢true e)
delete_pages-complete send (some keys ∷ pages) b e =
    delete_pages-complete send pages (add_keys send keys b) e

-- A DeletePrefix that returns nil asked for every key of a listing that arrived in full.
pub delete_prefix-listed :
    (p : Platform) (send : Client) (list : String → List Page) (prefix : String) (w : World)
    → (delete_prefix p send list prefix w).1 ≡ true
    → (delete_prefix p send list prefix w).0.removed ≡ w.removed ++ listed (list prefix)
unfolding delete_prefix
delete_prefix-listed p send list prefix w = elim (Bool-cases (prefix_allowed p prefix)) [
  | inl allowed ↦ rw allowed (λ e.
      let start : Batch = record { world = w; pending = []; fine = true } in
      delete_pages-removed send (list prefix) start refl
        (delete_pages-complete send (list prefix) start e)
      ∙ ap (λ l. l ++ listed (list prefix)) (append-nil w.removed))
  | inr refused ↦ rw refused (λ e. absurd (false≢true e))
]

pub delete_objects-removed :
    (send : Client) (keys : List String) (w : World)
    → (delete_objects send keys w).0.removed ≡ w.removed ++ named_keys keys
unfolding delete_objects
delete_objects-removed send keys w = request-removed send (named_keys keys) w
