-- ===== src/Store/Life.antt =====
-- The life of a row's status under the statements of shared/db/videos.sql.go.
use mokibox.Shared.{
  ℕ, String, ◌≡◌, refl, ap, sym, subst, map, ◌⊎◌, inl, inr, Bool, true, false, not, ◌&&◌, Option,
  none, some, [], ◌∷◌, arith, ◌==◌, ==_iff, ◌≤◌, ◌∙◌, count_if, count_if-keep_if, Bool-cases,
  keep_if, any, All, str_eq,
}
use mathlib.Core.Option.{some-injective}
use mokibox.Store.Row.{
  Video, Status, pending_upload, processing, ready, failed, deleted, is_deleted, is_pending,
  is_processing, check_deleted_at, row_checks,
}
use mokibox.Store.Table.{Table, find, update_one, find-update_one, updated}
use mokibox.Store.Statements.{
  collides, insert_video, pending_row, update_pending_video_r2_key, update_pending_video_metadata,
  confirm_video_processing, update_video_to_processing, mark_video_deleted, mark_video_failed,
  mark_video_ready, increment_video_retry, increment_views, increment_likes_count,
  decrement_likes_count, increment_comments_count, decrement_comments_count,
  decrement_comments_count_by, decrement_likes_in, decrement_comments_in, fewer_likes,
  fewer_comments, delete_video_row, delete_videos_by_user,
}
use mokibox.Store.Checks.{
  Statement, insert, rotate_key, confirm, reprocess, tombstone, fail, publish, purge, purge_user,
  unlike_all, uncomment_all, run, IsConsistent, fresh_id,
}

-- The edges between the words of chk_videos_status. Nothing leaves DELETED, and READY is entered
-- from PROCESSING alone.
infix 40 ◌⟶◌
pub data ◌⟶◌ : Status → Status → Type 0 where
  stay : {s : Status} → s ⟶ s
  confirmed : pending_upload ⟶ processing
  transcoded : processing ⟶ ready
  tombstoned : {s : Status} → s ⟶ deleted
  given_up : {s : Status} → is_deleted s ≡ false → s ⟶ failed
  restarted : {s : Status} → is_deleted s ≡ false → s ⟶ processing

-- What became of a row: it is gone, or its status went along an edge.
abbrev pub Follows : Status → Option Video → Type 0
Follows s o = (o ≡ none) ⊎ ((w : Video) × (o ≡ some w) × (s ⟶ w.status))

find-checked :
    (id : ℕ) (t : Table) (v : Video)
    → All (λ w. row_checks w ≡ true) t
    → find id t ≡ some v
    → row_checks v ≡ true
unfolding find
find-checked id [] v c e = cc
find-checked id (w ∷ t) v (c, cs) e = ground (arith, find-checked id t v cs)

module _ (id : ℕ) (g : Video → Bool) (f : Video → Video) where
  -- An edge for each checked row that the update rewrites.
  abbrev Moves : Type 0
  Moves =
      (v : Video)
      → g v ≡ true
      → row_checks v ≡ true
      → row_checks (f v) ≡ true
      → v.status ⟶ (f v).status

  updated-⟶ : Moves → (v : Video) → row_checks v ≡ true → Follows v.status (updated g f (some v))
  updated-⟶ edge v c = elim (Bool-cases (g v)) [
    | inr e ↦ rw e (inr (v, refl, stay))
    | inl e ↦ rw e (elim (Bool-cases (row_checks (f v))) [
      | inl k ↦ rw k (inr (f v, refl, edge v e c k))
      | inr k ↦ rw k (inr (v, refl, stay))
    ])
  ]

  update_one-⟶ :
      ((v : Video) → (f v).id ≡ v.id)
      → Moves
      → (j : ℕ) (t : Table) {v : Video} → All (λ w. row_checks w ≡ true) t
      → find j t ≡ some v
      → Follows v.status (find j (update_one id g f t).0)
  update_one-⟶ keeps edge j t {v} c e =
      rw (find-update_one id g f keeps j t) (elim (Bool-cases (id == j)) [
        | inr k ↦ rw (k, e) (inr (v, refl, stay))
        | inl k ↦ rw k (rw ((==_iff id j).0 k, e) (updated-⟶ edge v (find-checked j t v c e)))
      ])

find-eq-none : (j : ℕ) (t : Table) → count_if (λ v. v.id == j) t ≡ 0 → find j t ≡ none
unfolding find
find-eq-none j [] e = refl
find-eq-none j (w ∷ t) e = ground (arith, find-eq-none j t)

-- A deletion takes the row that `find` gives, or leaves it: there is no second row of that id.
find-keep_if :
    (q : Video → Bool) (j : ℕ) (t : Table)
    → count_if (λ v. v.id == j) t ≤ 1
    → (find j (keep_if q t) ≡ none) ⊎ (find j (keep_if q t) ≡ find j t)
unfolding find
find-keep_if q j [] c = inl refl
find-keep_if q j (w ∷ t) c =
    ground (
      arith,
      find-keep_if q j t,
      find-eq-none j (keep_if q t),
      count_if-keep_if (λ v. v.id == j) q t,
    )

keep_if-⟶ :
    (q : Video → Bool) (j : ℕ) (t : Table) {v : Video}
    → IsConsistent t
    → find j t ≡ some v
    → Follows v.status (find j (keep_if q t))
keep_if-⟶ q j t {v} c e = elim (find-keep_if q j t (c.ids_unique j)) [
  | inl n ↦ inl n
  | inr k ↦ inr (v, k ∙ e, stay)
]

-- An update of many rows that keeps their ids and statuses.
map-⟶ :
    (f : Video → Video)
    → ((v : Video) → (f v).id ≡ v.id)
    → ((v : Video) → (f v).status ≡ v.status)
    → (j : ℕ) (t : Table) {v : Video} → find j t ≡ some v
    → Follows v.status (find j (map f t))
unfolding find
map-⟶ f keeps same j [] {v} e = cc
map-⟶ f keeps same j (w ∷ t) {v} e = elim (Bool-cases (w.id == j)) [
  | inl k ↦
      let here = some-injective w v (rw k at e) in
      inr (
        f w,
        rw (ap (λ (n : ℕ). n == j) (keeps w) ∙ k) refl,
        subst (λ (s : Status). v.status ⟶ s) (sym (same w ∙ ap (λ (x : Video). x.status) here))
            stay,
      )
  | inr k ↦ rw (ap (λ (n : ℕ). n == j) (keeps w) ∙ k) (map-⟶ f keeps same j t (rw k at e))
]

insert_video-⟶ :
    (id now user : ℕ) (key : String) (title description : Option String) (j : ℕ) (t : Table)
    {v : Video}
    → find j t ≡ some v
    → Follows v.status (find j (insert_video id now user key title description t).0)
unfolding insert_video find
insert_video-⟶ id now user key title description j t {v} e =
    elim (Bool-cases (any (collides id user key) t)) [
      | inl k ↦ rw k (inr (v, e, stay))
      | inr k ↦ rw k (inr (v, ground (arith, fresh_id id user key t k j, find-eq-none j t), stay))
    ]

update_pending_video_r2_key-⟶ :
    (id : ℕ) (key : String) (j : ℕ) (t : Table) {v : Video}
    → IsConsistent t
    → find j t ≡ some v
    → Follows v.status (find j (update_pending_video_r2_key id key t).0)
unfolding update_pending_video_r2_key
update_pending_video_r2_key-⟶ id key j t {v} c e =
    elim (Bool-cases (
      any (λ w. not (w.id == id) && str_eq w.r2_key key) t
      && any (λ w. w.id == id && pending_row w) t)) [
        | inl k ↦ rw k (inr (v, e, stay))
        | inr k ↦ rw k (update_one-⟶ id _ _ (λ v. refl) (λ v g c k. stay) j t c.rows_checked e)
      ]

-- A pending row may be confirmed, and a processing one published.
pending-⟶ : (s : Status) → is_pending s ≡ true → s ⟶ processing
pending-⟶ pending_upload e = confirmed
pending-⟶ processing e = cc
pending-⟶ ready e = cc
pending-⟶ failed e = cc
pending-⟶ deleted e = cc

processing-⟶ : (s : Status) → is_processing s ≡ true → s ⟶ ready
processing-⟶ processing e = transcoded
processing-⟶ pending_upload e = cc
processing-⟶ ready e = cc
processing-⟶ failed e = cc
processing-⟶ deleted e = cc

-- chk_videos_deleted_at refuses a statement that would take a row out of DELETED and leave its
-- deleted_at.
check-alive :
    (s s' : Status) (at : Option ℕ)
    → check_deleted_at s at ≡ true
    → check_deleted_at s' at ≡ true
    → is_deleted s' ≡ false
    → is_deleted s ≡ false
check-alive s s' at h k n = ground arith

alive :
    (v w : Video)
    → row_checks v ≡ true
    → row_checks w ≡ true
    → w.deleted_at ≡ v.deleted_at
    → is_deleted w.status ≡ false
    → is_deleted v.status ≡ false
unfolding row_checks
alive v w h k e n = ground (arith, check-alive v.status w.status v.deleted_at)

-- In a consistent table, whatever statement runs, the row of an id is gone afterwards or its status
-- is the same or went along an edge: to PROCESSING or FAILED from any status but DELETED, to READY
-- from PROCESSING, to DELETED from any.
pub run-⟶ :
    (s : Statement) (j : ℕ) (t : Table) {v : Video}
    → IsConsistent t
    → find j t ≡ some v
    → Follows v.status (find j (run s t))
unfolding run update_pending_video_metadata confirm_video_processing update_video_to_processing
    mark_video_deleted mark_video_failed mark_video_ready increment_video_retry increment_views
    increment_likes_count decrement_likes_count increment_comments_count decrement_comments_count
    decrement_comments_count_by decrement_likes_in decrement_comments_in delete_video_row
    delete_videos_by_user
run-⟶ (insert id now user key title description) j t c e =
    insert_video-⟶ id now user key title description j t e
run-⟶ (rotate_key id key) j t c e = update_pending_video_r2_key-⟶ id key j t c e
run-⟶ (confirm id user key) j t c e =
    update_one-⟶ id _ _ (λ v. refl) (λ v g c k. pending-⟶ v.status (ground arith)) j t
      c.rows_checked e
run-⟶ (reprocess id) j t c e =
    update_one-⟶ id _ _ (λ v. refl) (λ v g c k. restarted (alive v _ c k refl refl)) j t
      c.rows_checked e
run-⟶ (tombstone now id user) j t c e =
    update_one-⟶ id _ _ (λ v. refl) (λ v g c k. tombstoned) j t c.rows_checked e
run-⟶ (fail id) j t c e =
    update_one-⟶ id _ _ (λ v. refl) (λ v g c k. given_up (alive v _ c k refl refl)) j t
      c.rows_checked e
run-⟶ (publish id prefix thumbnail seconds) j t c e =
    update_one-⟶ id _ _ (λ v. refl) (λ v g c k. processing-⟶ v.status g) j t c.rows_checked e
run-⟶ (unlike_all selected) j t c e =
    map-⟶ (fewer_likes selected) (λ v. ground arith) (λ v. ground arith) j t e
run-⟶ (uncomment_all selected) j t c e =
    map-⟶ (fewer_comments selected) (λ v. ground arith) (λ v. ground arith) j t e
run-⟶ (purge id) j t c e = keep_if-⟶ _ j t c e
run-⟶ (purge_user user) j t c e = keep_if-⟶ _ j t c e
run-⟶ _ j t c e = update_one-⟶ _ _ _ (λ v. refl) (λ v g c k. stay) j t c.rows_checked e
