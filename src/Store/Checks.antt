-- ===== src/Store/Checks.antt =====
-- The constraints of migrations/001_init.sql as an invariant of the videos table, and the life of a
-- row's status, under every statement of shared/db/videos.sql.go that writes the table.
use mokibox.Shared.{
  ℕ, ◌≤◌, String, ◌≡◌, refl, ap, [], ◌∷◌, map, inl, inr, Bool, true, false, not, ◌&&◌, Option,
  arith, ◌==◌, Bool-cases, count_if, keep_if, any, All, str_eq, count_if-keep_if,
  count_if_of_not_any, All-keep_if,
}
use mokibox.Store.Row.{Video, row_checks}
use mokibox.Store.Table.{Table, update_one, update_one-checked, count_if-update_one}
use mokibox.Store.Statements.{
  pending_of, collides, insert_video, pending_row, update_pending_video_r2_key,
  update_pending_video_metadata, confirm_video_processing, update_video_to_processing,
  mark_video_deleted, mark_video_failed, mark_video_ready, increment_video_retry, increment_views,
  increment_likes_count, decrement_likes_count, increment_comments_count, decrement_comments_count,
  decrement_comments_count_by, decrement_likes_in, decrement_comments_in, fewer_likes,
  fewer_comments, delete_video_row, delete_videos_by_user,
}

-- The statements that write the table; `unlike_all` and `uncomment_all` have the video ids that their
-- sub-selects give.
pub data Statement : Type 0 where
  insert : ℕ → ℕ → ℕ → String → Option String → Option String → Statement
  rotate_key : ℕ → String → Statement
  set_metadata : ℕ → Option String → Option String → Statement
  confirm : ℕ → ℕ → String → Statement
  reprocess : ℕ → Statement
  tombstone : ℕ → ℕ → ℕ → Statement
  fail : ℕ → Statement
  publish : ℕ → String → String → ℕ → Statement
  count_retry : ℕ → Statement
  view : ℕ → Statement
  like : ℕ → Statement
  unlike : ℕ → Statement
  comment : ℕ → Statement
  uncomment : ℕ → ℕ → Statement
  uncomment_one : ℕ → Statement
  unlike_all : (ℕ → Bool) → Statement
  uncomment_all : (ℕ → Bool) → Statement
  purge : ℕ → Statement
  purge_user : ℕ → Statement

unfoldable pub run : Statement → Table → Table
run (insert id now user key title description) t =
    (insert_video id now user key title description t).0
run (rotate_key id key) t = (update_pending_video_r2_key id key t).0
run (set_metadata id title description) t = (update_pending_video_metadata id title description t).0
run (confirm id user key) t = (confirm_video_processing id user key t).0
run (reprocess id) t = (update_video_to_processing id t).0
run (tombstone now id user) t = (mark_video_deleted now id user t).0
run (fail id) t = (mark_video_failed id t).0
run (publish id prefix thumbnail seconds) t = (mark_video_ready id prefix thumbnail seconds t).0
run (count_retry id) t = (increment_video_retry id t).0
run (view id) t = (increment_views id t).0
run (like id) t = (increment_likes_count id t).0
run (unlike id) t = (decrement_likes_count id t).0
run (comment id) t = (increment_comments_count id t).0
run (uncomment id n) t = (decrement_comments_count_by id n t).0
run (uncomment_one id) t = (decrement_comments_count id t).0
run (unlike_all selected) t = decrement_likes_in selected t
run (uncomment_all selected) t = decrement_comments_in selected t
run (purge id) t = delete_video_row id t
run (purge_user user) t = delete_videos_by_user user t

-- The constraints: each row passes its CHECKs, an id is not used twice, and no user has two rows
-- in PENDING_UPLOAD.
pub record IsConsistent (t : Table) : Type 0 where
  pub rows_checked : All (λ v. row_checks v ≡ true) t
  pub ids_unique : (id : ℕ) → count_if (λ v. v.id == id) t ≤ 1
  pub one_pending : (user : ℕ) → count_if (pending_of user) t ≤ 1

module _ (id : ℕ) (g : Video → Bool) (f : Video → Video) where
  update_one-IsConsistent :
      ((v : Video) → (f v).id ≡ v.id)
      → ((user : ℕ) (v : Video) → pending_of user (f v) ≡ true → pending_of user v ≡ true)
      → {t : Table} → IsConsistent t
      → IsConsistent (update_one id g f t).0
  update_one-IsConsistent keeps pend {t} c = record {
    rows_checked = update_one-checked id g f t c.rows_checked;
    ids_unique = λ j. omega (
      arith,
      c.ids_unique j,
      count_if-update_one id g f (λ v. v.id == j) (λ v h. rw (← keeps v) h) t,
    );
    one_pending = λ user.
        omega
          (arith, c.one_pending user, count_if-update_one id g f (pending_of user) (pend user) t);
  }

keep_if-IsConsistent : (q : Video → Bool) {t : Table} → IsConsistent t → IsConsistent (keep_if q t)
keep_if-IsConsistent q {t} c = record {
  rows_checked = All-keep_if _ q t c.rows_checked;
  ids_unique = λ j. omega (arith, c.ids_unique j, count_if-keep_if (λ v. v.id == j) q t);
  one_pending = λ user. omega (arith, c.one_pending user, count_if-keep_if (pending_of user) q t);
}

-- An update of many rows that keeps of each what the constraints read.
module _ (f : Video → Video)
    (checked : (v : Video) → row_checks v ≡ true → row_checks (f v) ≡ true) where
  map-checked :
      (t : Table) → All (λ v. row_checks v ≡ true) t → All (λ v. row_checks v ≡ true) (map f t)
  map-checked [] h = tt
  map-checked (v ∷ t) (h, hs) = (checked v h, map-checked t hs)

  count_if-map :
      (q : Video → Bool)
      → ((v : Video) → q (f v) ≡ q v)
      → (t : Table) → count_if q (map f t) ≡ count_if q t
  count_if-map q same [] = refl
  count_if-map q same (v ∷ t) = ground (arith, same v, count_if-map q same t)

  map-IsConsistent :
      ((v : Video) → (f v).id ≡ v.id)
      → ((user : ℕ) (v : Video) → pending_of user (f v) ≡ pending_of user v)
      → {t : Table} → IsConsistent t
      → IsConsistent (map f t)
  map-IsConsistent keeps pend {t} c = record {
    rows_checked = map-checked t c.rows_checked;
    ids_unique = λ j. omega (
      arith,
      c.ids_unique j,
      count_if-map (λ v. v.id == j) (λ v. ap (λ (n : ℕ). n == j) (keeps v)) t,
    );
    one_pending =
        λ user. omega (arith, c.one_pending user, count_if-map (pending_of user) (pend user) t);
  }

pub fewer_likes-checked :
    (selected : ℕ → Bool) (v : Video)
    → row_checks v ≡ true
    → row_checks (fewer_likes selected v) ≡ true
unfolding row_checks
fewer_likes-checked selected v h = ground arith

pub fewer_comments-checked :
    (selected : ℕ → Bool) (v : Video)
    → row_checks v ≡ true
    → row_checks (fewer_comments selected v) ≡ true
unfolding row_checks
fewer_comments-checked selected v h = ground arith

-- What an insertion's guard excludes: a row with the same key, and a pending row of the same user.
module _ (id user : ℕ) (key : String) (t : Table)
    (free : any (collides id user key) t ≡ false) where
  pub fresh_id : (j : ℕ) → (id == j) ≡ true → count_if (λ v. v.id == j) t ≡ 0
  fresh_id j e =
      count_if_of_not_any (λ v. v.id == j) (collides id user key) (λ v h. ground arith) t free

  fresh_pending : (u : ℕ) → (user == u) ≡ true → count_if (pending_of u) t ≡ 0
  fresh_pending u e =
      count_if_of_not_any (pending_of u) (collides id user key) (λ v h. ground arith) t free

insert_video-IsConsistent :
    (id now user : ℕ) (key : String) (title description : Option String) {t : Table}
    → IsConsistent t
    → IsConsistent (insert_video id now user key title description t).0
unfolding insert_video row_checks
insert_video-IsConsistent id now user key title description {t} c =
    elim (Bool-cases (any (collides id user key) t)) [
      | inl e ↦ rw e c
      | inr e ↦ rw e (record {
        rows_checked = (refl, c.rows_checked);
        ids_unique = λ j. ground (arith, fresh_id id user key t e j, c.ids_unique j);
        one_pending = λ u. ground (arith, fresh_pending id user key t e u, c.one_pending u);
      })
    ]

rotate_key-IsConsistent :
    (id : ℕ) (key : String) {t : Table}
    → IsConsistent t
    → IsConsistent (update_pending_video_r2_key id key t).0
unfolding update_pending_video_r2_key
rotate_key-IsConsistent id key {t} c =
    elim (Bool-cases (
      any (λ w. not (w.id == id) && str_eq w.r2_key key) t
      && any (λ w. w.id == id && pending_row w) t)) [
        | inl e ↦ rw e c
        | inr e ↦ rw e (update_one-IsConsistent id _ _ (λ v. refl) (λ u v h. h) c)
      ]

-- Every statement that writes the videos table keeps the table consistent: each row passes its
-- CHECK constraints, no id is used by two rows, and no user has two rows in PENDING_UPLOAD.
pub run-IsConsistent : (s : Statement) {t : Table} → IsConsistent t → IsConsistent (run s t)
unfolding run update_pending_video_metadata confirm_video_processing update_video_to_processing
    mark_video_deleted mark_video_failed mark_video_ready increment_video_retry increment_views
    increment_likes_count decrement_likes_count increment_comments_count decrement_comments_count
    decrement_comments_count_by decrement_likes_in decrement_comments_in delete_video_row
    delete_videos_by_user
run-IsConsistent (insert id now user key title description) c =
    insert_video-IsConsistent id now user key title description c
run-IsConsistent (rotate_key id key) c = rotate_key-IsConsistent id key c
run-IsConsistent (confirm id user key) c =
    update_one-IsConsistent id _ _ (λ v. refl) (λ u v h. ground arith) c
run-IsConsistent (reprocess id) c =
    update_one-IsConsistent id _ _ (λ v. refl) (λ u v h. ground arith) c
run-IsConsistent (tombstone now id user) c =
    update_one-IsConsistent id _ _ (λ v. refl) (λ u v h. ground arith) c
run-IsConsistent (fail id) c = update_one-IsConsistent id _ _ (λ v. refl) (λ u v h. ground arith) c
run-IsConsistent (publish id prefix thumbnail seconds) c =
    update_one-IsConsistent id _ _ (λ v. refl) (λ u v h. ground arith) c
run-IsConsistent (unlike_all selected) c =
    map-IsConsistent (fewer_likes selected) (fewer_likes-checked selected) (λ v. ground arith)
      (λ u v. ground arith) c
run-IsConsistent (uncomment_all selected) c =
    map-IsConsistent (fewer_comments selected) (fewer_comments-checked selected) (λ v. ground arith)
      (λ u v. ground arith) c
run-IsConsistent (purge id) c = keep_if-IsConsistent _ c
run-IsConsistent (purge_user user) c = keep_if-IsConsistent _ c
run-IsConsistent _ c = update_one-IsConsistent _ _ _ (λ v. refl) (λ u v h. h) c
