-- ===== src/Store/Replies.antt =====
-- What the callers of the statements of shared/db/videos.sql.go learn from the row they get back.
use mokibox.Shared.{
  ℕ, ◌≢◌, ◌⊎◌, Bool-cases, any, subst, Option, ◌∷◌, ==_iff, not, ◌&&◌, str_eq, ◌==◌, String, ◌≡◌,
  refl, ◌∙◌, ap, Bool, true, false, some, Option-cases, inl, inr, arith,
}
use mokibox.Store.Row.{Video, ready, is_pending, row_checks}
use mokibox.Store.Table.{
  Table, Reply, row, no_rows, fault, find, update_one, find-id, update_one-row, update_one-reply,
  update_reply, find-update_one,
}
use mokibox.Store.Statements.{
  get_video_by_id, insert_video, inserted_row, collides, update_pending_video_metadata,
  update_pending_video_r2_key, pending_row, confirmable, to_processing, confirm_video_processing,
  owned_by, to_deleted, mark_video_deleted, retriable, one_more_retry, increment_video_retry,
  processing_row, to_ready, mark_video_ready, sent,
}

-- A row came back, so the statement was delivered.
pub row-injective : {A : Type 0} (u v : A) → row u ≡ row v → u ≡ v
row-injective {A} u v e = ap (λ (r : Reply A). elim r [ row x ↦ x | no_rows ↦ u | fault ↦ u ]) e

pub sent-row :
    (lost : Bool) (t : Table) (q : Table × Reply Video) (u : Video)
    → (sent lost t q).1 ≡ row u
    → (q.1 ≡ row u) × ((sent lost t q).0 ≡ q.0)
sent-row true t q u e = cc
sent-row false t q u e = (e, refl)

pub increment_video_retry-row :
    (id : ℕ) (t : Table) (u : Video)
    → (increment_video_retry id t).1 ≡ row u
    → (v : Video) × (find id t ≡ some v)
      × (u ≡ one_more_retry v)
      × (u.id ≡ id)
      × (find id (increment_video_retry id t).0 ≡ some u)
unfolding increment_video_retry
increment_video_retry-row id t u e =
    let (v, found, matched, same, now) =
      update_one-row id retriable one_more_retry (λ v. refl) t u e in
    (v, found, same, ap (λ (x : Video). x.id) same ∙ find-id id t v found, now)

pub mark_video_ready-row :
    (id : ℕ) (prefix thumbnail : String) (seconds : ℕ) (t : Table) (u : Video)
    → (mark_video_ready id prefix thumbnail seconds t).1 ≡ row u
    → (find id (mark_video_ready id prefix thumbnail seconds t).0 ≡ some u)
      × (u.status ≡ ready)
      × (u.hls_prefix ≡ some prefix)
      × (u.thumbnail_key ≡ some thumbnail)
      × (u.duration_seconds ≡ some seconds)
unfolding mark_video_ready
mark_video_ready-row id prefix thumbnail seconds t u e =
    let (v, found, matched, same, now) =
      update_one-row id processing_row (to_ready prefix thumbnail seconds) (λ v. refl) t u e in
    (
      now,
      ap (λ (x : Video). x.status) same,
      ap (λ (x : Video). x.hls_prefix) same,
      ap (λ (x : Video). x.thumbnail_key) same,
      ap (λ (x : Video). x.duration_seconds) same,
    )

pub get_video_by_id-row :
    (id : ℕ) (t : Table) (v : Video) → get_video_by_id id t ≡ row v → find id t ≡ some v
unfolding get_video_by_id
get_video_by_id-row id t v e = elim (Option-cases (find id t)) [
  | inl n ↦ absurd (ground arith)
  | inr (u, k) ↦ ground arith
]

pub confirm_video_processing-row :
    (id user : ℕ) (key : String) (t : Table) (x : Video)
    → (confirm_video_processing id user key t).1 ≡ row x
    → (v : Video) × (find id t ≡ some v)
      × (x ≡ to_processing v)
      × (find id (confirm_video_processing id user key t).0 ≡ some x)
      × ((j : ℕ) → (id == j) ≡ false → find j (confirm_video_processing id user key t).0 ≡ find j t)
unfolding confirm_video_processing
confirm_video_processing-row id user key t x e =
    let (v, found, matched, same, now) =
      update_one-row id (confirmable user key) to_processing (λ v. refl) t x e in
    (
      v,
      found,
      same,
      now,
      λ j n. find-update_one id (confirmable user key) to_processing (λ v. refl) j t ∙ rw n refl,
    )

pub mark_video_deleted-row :
    (now id user : ℕ) (t : Table) (x : Video)
    → (mark_video_deleted now id user t).1 ≡ row x
    → (v : Video) × (find id t ≡ some v)
      × (x ≡ to_deleted now v)
      × (find id (mark_video_deleted now id user t).0 ≡ some x)
unfolding mark_video_deleted
mark_video_deleted-row now id user t x e =
    let (v, found, matched, same, after) =
      update_one-row id (owned_by user) (to_deleted now) (λ v. refl) t x e in
    (v, found, same, after)

-- A tombstone that matches nothing: the user has no row of that id.
pub mark_video_deleted-no_rows :
    (now id user : ℕ) (t : Table) (v : Video)
    → (mark_video_deleted now id user t).1 ≡ no_rows
    → find id t ≡ some v
    → (v.user_id == user) ≡ false
unfolding mark_video_deleted
mark_video_deleted-no_rows now id user t v e found =
    ground (arith, update_one-reply id (owned_by user) (to_deleted now) t)

-- A statement that found nothing was delivered.
pub sent-no_rows :
    (lost : Bool) (t : Table) (q : Table × Reply Video)
    → (sent lost t q).1 ≡ no_rows
    → q.1 ≡ no_rows
sent-no_rows true t q e = cc
sent-no_rows false t q e = e

-- A statement that did not fail was delivered.
pub sent-delivered :
    (lost : Bool) (t : Table) (q : Table × Reply Video)
    → (sent lost t q).1 ≢ fault
    → sent lost t q ≡ q
sent-delivered true t q h = absurd (h refl)
sent-delivered false t q h = refl

-- The row of an update's key after it, if the update did not fail.
pub update_one-cases :
    (id : ℕ) (g : Video → Bool) (f : Video → Video)
    → ((v : Video) → (f v).id ≡ v.id)
    → (t : Table) (u : Video) → (update_one id g f t).1 ≢ fault
    → find id (update_one id g f t).0 ≡ some u
    → (v : Video) × (find id t ≡ some v) × (((g v ≡ true) × (u ≡ f v)) ⊎ ((g v ≡ false) × (u ≡ v)))
update_one-cases id g f keeps t u h e = elim (Option-cases (find id t)) [
  | inl n ↦ absurd (ground (arith, find-update_one id g f keeps id t))
  | inr (v, k) ↦ (
    v,
    k,
    elim (Bool-cases (g v)) [
      | inl m ↦
          inl (m, ground (arith, find-update_one id g f keeps id t, update_one-reply id g f t))
      | inr m ↦ inr (m, ground (arith, find-update_one id g f keeps id t))
    ],
  )
]

find_head : (v : Video) (t : Table) → find v.id (v ∷ t) ≡ some v
unfolding find
find_head v t = ground (arith, ==_iff v.id v.id)

pub insert_video-row :
    (id now user : ℕ) (key : String) (title description : Option String) (t : Table) (x : Video)
    → (insert_video id now user key title description t).1 ≡ row x
    → (x ≡ inserted_row id now user key title description)
      × (find x.id (insert_video id now user key title description t).0 ≡ some x)
unfolding insert_video
insert_video-row id now user key title description t x e =
    elim (Bool-cases (any (collides id user key) t)) [
      | inl k ↦ absurd (ground arith)
      | inr k ↦
          let v = inserted_row id now user key title description in
          let shown : find v.id (insert_video id now user key title description t).0 ≡ some v =
            rw k (find_head v t) in
          subst
            (λ (z : Video).
              (z ≡ v) × (find z.id (insert_video id now user key title description t).0 ≡ some z))
            (row-injective v x (rw k at e)) (refl, shown)
    ]

pub update_pending_video_metadata-row :
    (id : ℕ) (title description : Option String) (t : Table) (x : Video)
    → (update_pending_video_metadata id title description t).1 ≡ row x
    → (find id (update_pending_video_metadata id title description t).0 ≡ some x)
      × (is_pending x.status ≡ true)
      × (x.title ≡ title)
      × (x.description ≡ description)
unfolding update_pending_video_metadata
update_pending_video_metadata-row id title description t x e =
    let (v, found, pending, same, now) =
      update_one-row id pending_row (λ v. record v { title = title; description = description })
        (λ v. refl) t x e in
    (
      now,
      ap (λ (z : Video). is_pending z.status) same ∙ pending,
      ap (λ (z : Video). z.title) same,
      ap (λ (z : Video). z.description) same,
    )

pub update_pending_video_r2_key-id :
    (id : ℕ) (key : String) (t : Table) (x : Video)
    → (update_pending_video_r2_key id key t).1 ≡ row x
    → x.id ≡ id
unfolding update_pending_video_r2_key
update_pending_video_r2_key-id id key t x e =
    elim (Bool-cases (
      any (λ w. not (w.id == id) && str_eq w.r2_key key) t
      && any (λ w. w.id == id && pending_row w) t)) [
        | inl k ↦ absurd (ground arith)
        | inr k ↦
            let (v, found, pending, same, now) =
              update_one-row id pending_row (λ v. record v { r2_key = key }) (λ v. refl) t x
                (rw k at e) in
            ap (λ (z : Video). z.id) same ∙ find-id id t v found
      ]

-- An update of a row that matches and stays within its checks gives the new row back.
pub update_one-gives :
    (id : ℕ) (g : Video → Bool) (f : Video → Video) (t : Table) (v : Video)
    → find id t ≡ some v
    → g v ≡ true
    → row_checks (f v) ≡ true
    → (update_one id g f t).1 ≡ row (f v)
update_one-gives id g f t v found matches checks =
    update_one-reply id g f t ∙ (ap (update_reply g f) found ∙ rw matches (rw checks refl))

pub confirm_video_processing-gives :
    (id user : ℕ) (key : String) (t : Table) (v : Video)
    → find id t ≡ some v
    → confirmable user key v ≡ true
    → row_checks (to_processing v) ≡ true
    → (confirm_video_processing id user key t).1 ≡ row (to_processing v)
unfolding confirm_video_processing
confirm_video_processing-gives id user key t v =
    update_one-gives id (confirmable user key) to_processing t v

pub increment_video_retry-gives :
    (id : ℕ) (t : Table) (v : Video)
    → find id t ≡ some v
    → retriable v ≡ true
    → row_checks (one_more_retry v) ≡ true
    → (increment_video_retry id t).1 ≡ row (one_more_retry v)
unfolding increment_video_retry
increment_video_retry-gives id t v = update_one-gives id retriable one_more_retry t v

pub mark_video_ready-gives :
    (id : ℕ) (prefix thumbnail : String) (seconds : ℕ) (t : Table) (v : Video)
    → find id t ≡ some v
    → processing_row v ≡ true
    → row_checks (to_ready prefix thumbnail seconds v) ≡ true
    → (mark_video_ready id prefix thumbnail seconds t).1 ≡ row (to_ready prefix thumbnail seconds v)
unfolding mark_video_ready
mark_video_ready-gives id prefix thumbnail seconds t v =
    update_one-gives id processing_row (to_ready prefix thumbnail seconds) t v
