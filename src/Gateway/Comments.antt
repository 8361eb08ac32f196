-- ===== src/Gateway/Comments.antt =====
-- The comments of api-gateway/handlers/social.go, with the statements of shared/db/comments.sql.go.
-- The comments table is a list, the newest row first: the foreign key (parent_id, video_id) is
-- checked when a row is inserted, so the row of a parent stands after those of its replies.
pub mod Subtree
pub mod Rows
pub mod Handlers
pub mod Counter
pub mod Kept
pub mod Ends
pub mod Deleted
pub mod Fanout
mod Tests
use mokibox.Shared.{
  ℕ, zero, suc, ◌≡◌, String, Bool, false, ◌&&◌, ◌||◌, Option, none, some, List, [], ◌∷◌, ◌++◌, any,
  count_if, length, ◌==◌, if◌then◌else◌,
}
use mokibox.Store.Table.{Table, Reply, row, no_rows, fault}

pub record Comment : Type 0 where
  pub id : ℕ
  pub video_id : ℕ
  pub user_id : ℕ
  pub parent_id : Option ℕ
  pub content : String
  pub created_at : ℕ

-- The comment is a reply to the row with this id: c.parent_id = s.id.
abbrev pub replies_to : Comment → ℕ → Bool
replies_to c p = elim c.parent_id [ none ↦ false | some q ↦ q == p ]

-- GetCommentByID, without the columns of the author.
unfoldable pub get_comment_by_id : ℕ → List Comment → Reply Comment
get_comment_by_id id [] = no_rows
get_comment_by_id id (c ∷ cs) = if c.id == id then row c else get_comment_by_id id cs

-- Whether a row has this id, and whether one has this id and video.
abbrev pub has_id : ℕ → List Comment → Bool
has_id id cs = any (λ c. c.id == id) cs

abbrev pub has_row : ℕ → ℕ → List Comment → Bool
has_row id video cs = any (λ c. c.id == id && c.video_id == video) cs

-- InsertComment, with the foreign keys on the video and on the parent. `id` is the uuid that
-- gen_random_uuid() gives the row, and `now` its NOW().
abbrev pub has_parent : Option ℕ → ℕ → List Comment → Bool
has_parent none video cs = Bool.true
has_parent (some p) video cs = has_row p video cs

unfoldable pub insert_comment : Comment → Table → List Comment → List Comment × Reply Comment
insert_comment c t cs =
    if has_id c.id cs
    then (cs, fault)
    else if any (λ v. v.id == c.video_id) t && has_parent c.parent_id c.video_id cs
    then (c ∷ cs, row c)
    else (cs, fault)

-- CountCommentSubtree. The first rows of the recursive query: SELECT c.id … WHERE c.id = $1.
unfoldable pub roots : ℕ → List Comment → List ℕ
roots id [] = []
roots id (c ∷ cs) = let rest = roots id cs in if c.id == id then c.id ∷ rest else rest

abbrev pub repeat : ℕ → ℕ → List ℕ
repeat x zero = []
repeat x (suc n) = x ∷ repeat x n

-- Its next rows: comments c JOIN subtree s ON c.parent_id = s.id, one row per matching pair.
unfoldable pub join : List Comment → List ℕ → List ℕ
join [] level = []
join (c ∷ cs) level = repeat c.id (count_if (replies_to c) level) ++ join cs level

-- UNION ALL of the rows of `fuel` rounds.
unfoldable pub rounds : ℕ → List Comment → List ℕ → List ℕ
unfolding join
rounds zero cs level = []
rounds (suc fuel) cs level = level ++ rounds fuel cs (join cs level)

unfoldable pub count_comment_subtree : ℕ → ℕ → List Comment → ℕ
unfolding roots rounds
count_comment_subtree fuel id cs = length (rounds fuel cs (roots id cs))

-- DeleteCommentByID: the ids that ON DELETE CASCADE takes away with the row, and the rows left.
unfoldable pub cascade : ℕ → List Comment → List ℕ
cascade id [] = []
cascade id (c ∷ cs) =
    let below = cascade id cs in
    if c.id == id || any (replies_to c) below then c.id ∷ below else below

unfoldable pub delete_comment_by_id : ℕ → List Comment → List Comment
unfolding cascade
delete_comment_by_id id [] = []
delete_comment_by_id id (c ∷ cs) =
    let rest = delete_comment_by_id id cs in
    if c.id == id || any (replies_to c) (cascade id cs) then rest else c ∷ rest

-- What the constraints of the table say: ids are unique, and the parent of a reply stands among the
-- older rows, in the same video.
abbrev pub IsThreaded : List Comment → Type 0
IsThreaded [] = Unit
IsThreaded (c ∷ cs) =
    (has_id c.id cs ≡ false) × (has_parent c.parent_id c.video_id cs ≡ Bool.true) × IsThreaded cs
