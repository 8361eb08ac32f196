-- ===== src/Worker/Objects.antt =====
-- DeleteObjects, DeletePrefix and ListObjectsByPrefix of shared/r2.go. The S3 client that they call
-- is not part of the repository: what it answers to a DeleteObjects request, and the pages that a
-- listing gives, are arguments. World.removed holds the keys of the requests, in order.
pub mod Deletes
pub mod Kept
use mokibox.Shared.{
  ℕ, ◌+◌, ◌-◌, String, Bool, true, false, ◌&&◌, ◌||◌, Option, none, some, List, [], ◌∷◌, ◌++◌, leb,
  length, if◌then◌else◌, str_eq,
}
use mokibox.Shared.Platform.{Platform}
use mokibox.Worker.World.{World}

-- The answer to one DeleteObjects request: the call failed, or the error codes of single keys.
abbrev pub Client : Type 0
Client = List String → Option (List String)

-- A page of a listing, or a failure to get it.
abbrev pub Page : Type 0
Page = Option (List String)

-- isNotFoundErr
abbrev pub is_not_found_err : String → Bool
is_not_found_err code = str_eq code "NoSuchKey" || (str_eq code "NotFound" || str_eq code "404")

-- The loop over out.Errors.
unfoldable pub all_missing : List String → Bool
all_missing [] = true
all_missing (code ∷ codes) = is_not_found_err code && all_missing codes

-- The keys that are not "".
unfoldable pub named_keys : List String → List String
named_keys [] = []
named_keys (k ∷ ks) = let rest = named_keys ks in if str_eq k "" then rest else k ∷ rest

-- The request for a list of keys, and whether DeleteObjects returns nil.
unfoldable pub request : Client → List String → World → World × Bool
unfolding all_missing
request send [] w = (w, true)
request send (k ∷ ks) w = (
  record w { removed = w.removed ++ k ∷ ks },
  elim (send (k ∷ ks)) [ none ↦ false | some codes ↦ all_missing codes ],
)

-- DeleteObjects
unfoldable pub delete_objects : Client → List String → World → World × Bool
unfolding request named_keys
delete_objects send keys w = request send (named_keys keys) w

-- What the loop of DeletePrefix carries: the batch, whether firstErr is nil, and the world.
pub record Batch : Type 0 where
  pub world : World
  pub pending : List String
  pub fine : Bool

abbrev pub batch_size : ℕ
batch_size = 1000

-- flush
unfoldable pub flush : Client → Batch → Batch
unfolding delete_objects
flush send b =
    let (w, done) = delete_objects send b.pending b.world in
    record { world = w; pending = []; fine = b.fine && done }

-- One key of a page.
unfoldable pub add_key : Client → String → Batch → Batch
unfolding flush
add_key send k b =
    let grown = record b { pending = b.pending ++ k ∷ [] } in
    if str_eq k ""
    then b
    else if leb batch_size (length grown.pending)
    then flush send grown
    else grown

-- The inner loop, over the keys of a page.
unfoldable pub add_keys : Client → List String → Batch → Batch
unfolding add_key
add_keys send [] b = b
add_keys send (k ∷ ks) b = add_keys send ks (add_key send k b)

-- The outer loop. A page that fails ends it with an error.
unfoldable pub delete_pages : Client → List Page → Batch → World × Bool
unfolding add_keys flush
delete_pages send [] b = let b' = flush send b in (b'.world, b'.fine)
delete_pages send (none ∷ pages) b = (b.world, false)
delete_pages send (some keys ∷ pages) b = delete_pages send pages (add_keys send keys b)

module _ (p : Platform) where
  -- The three guards of DeletePrefix and of ListObjectsByPrefix.
  unfoldable pub prefix_allowed : String → Bool
  prefix_allowed prefix =
      if str_eq prefix ""
      then false
      else if p.has_suffix prefix "/"
      then (if str_eq (p.trim_slashes prefix) "" then false else true)
      else false

  -- DeletePrefix; `list` gives the pages under a prefix.
  unfoldable pub delete_prefix : Client → (String → List Page) → String → World → World × Bool
  unfolding prefix_allowed delete_pages
  delete_prefix send list prefix w =
      if prefix_allowed prefix
      then delete_pages send (list prefix) (record { world = w; pending = []; fine = true })
      else (w, false)

-- The loop of ListObjectsByPrefix, without its cap: both callers pass maxKeys = 0.
unfoldable pub list_pages : List String → List Page → Option (List String)
unfolding named_keys
list_pages keys [] = some keys
list_pages keys (none ∷ pages) = none
list_pages keys (some page ∷ pages) = list_pages (keys ++ named_keys page) pages

-- ListObjectsByPrefix
unfoldable pub list_objects_by_prefix :
    Platform → (String → List Page) → String → Option (List String)
unfolding prefix_allowed list_pages
list_objects_by_prefix p list prefix =
    if prefix_allowed p prefix then list_pages [] (list prefix) else none
