-- ===== src/Gateway/Detail/Shown.antt =====
-- Who is shown a video's detail and status (api-gateway/handlers/video_detail.go), against the rule of
-- visibility.go.
use mokibox.Shared.{
  ℕ, ◌≡◌, refl, sym, ◌∙◌, inl, inr, arith, Bool, true, false, Bool-cases, Option, none, some,
  if◌then◌else◌, ◌==◌, ==_iff,
}
use mokibox.Shared.Platform.{Platform}
use mokibox.Store.Row.{Video, is_ready}
use mokibox.Store.Table.{Table, row, Reply-cases}
use mokibox.Store.Statements.{get_video_by_id}
use mokibox.Gateway.Errors.{Sentinel, wrapped, err_not_found}
use mokibox.Gateway.Upload.{Response, refuse, done}
use mokibox.Gateway.Visibility.{
  Owner, Verdict, visible, rejects, assert_owner_active_visible, assert_video_owner_or_visible,
}
use mokibox.Gateway.Tokens.{Codec}
use mokibox.Gateway.Detail.{
  Detailing, VideoObject, owns, video_object_from_detail, check_stranger, detail_row,
  get_video_detail,
}

-- The data of a success, and the video of a verdict.
abbrev pub data_of : {A : Type 0} → Response A → Option A
data_of (refuse e) = none
data_of (done a) = some a

module _ (p : Platform) (k : Codec) (c : Detailing) where
  -- What GetVideoDetail shows of a video that may be seen.
  abbrev pub detail_of : Verdict → Option VideoObject
  detail_of (visible v) = some (video_object_from_detail p k c v)
  detail_of (rejects e) = none

  abbrev if_none : {A : Type 0} → Option Sentinel → A → Option A
  if_none none a = some a
  if_none (some e) a = none

  -- The join and GetUserByID read the same row of the users table.
  abbrev pub Agrees : Type 0
  Agrees =
      (user : ℕ) (o : Owner)
      → c.viewing.get_user_by_id user ≡ row o
      → c.user_is_private user ≡ o.is_private

  -- GetVideoDetail asks in another order, for the same conditions.
  check_stranger-same :
      (viewer : ℕ) (v : Video) (o : VideoObject)
      → c.viewer ≡ some viewer
      → Agrees
      → if_none (check_stranger p k c v) o ≡ (
          if is_ready v.status
          then if_none (assert_owner_active_visible c.viewing v.user_id viewer) o
          else none)
  unfolding check_stranger assert_owner_active_visible
  check_stranger-same viewer v o known agrees =
      elim (Reply-cases (c.viewing.get_user_by_id v.user_id)) [
        | inl (u, e) ↦ ground (arith, agrees v.user_id u e)
        | inr (inl e) ↦ ground arith
        | inr (inr e) ↦ ground arith
      ]

  data_of-if_none :
      (r : Option Sentinel) (o : VideoObject)
      → data_of (elim r [ some e ↦ refuse (wrapped e) | none ↦ done o ]) ≡ if_none r o
  data_of-if_none none o = refl
  data_of-if_none (some e) o = refl

  detail_of-if_none :
      (r : Option Sentinel) (v : Video)
      → detail_of (elim r [ some e ↦ rejects e | none ↦ visible v ])
        ≡ if_none r (video_object_from_detail p k c v)
  detail_of-if_none none v = refl
  detail_of-if_none (some e) v = refl

  ready_same :
      (b : Bool) (r : Option Sentinel) (v : Video)
      → (if b then if_none r (video_object_from_detail p k c v) else none)
        ≡ detail_of
            (if b then elim r [ some e ↦ rejects e | none ↦ visible v ] else rejects err_not_found)
  ready_same true r v = sym (detail_of-if_none r v)
  ready_same false r v = refl

  owner_symmetric :
      (viewer : ℕ) (v : Video) {b : Bool}
      → c.viewer ≡ some viewer
      → (v.user_id == viewer) ≡ b
      → owns c.viewer v.user_id ≡ b
  owner_symmetric viewer v known e =
      ground (arith, ==_iff v.user_id viewer, ==_iff viewer v.user_id)

  -- The two sets of checks on a loaded row.
  detail_row-same :
      (viewer : ℕ) (v : Video)
      → c.viewer ≡ some viewer
      → Agrees
      → data_of (detail_row p k c v)
        ≡ detail_of (
            if v.user_id == viewer
            then visible v
            else if is_ready v.status
            then elim (assert_owner_active_visible c.viewing v.user_id viewer) [
              | some e ↦ rejects e
              | none ↦ visible v
            ]
            else rejects err_not_found)
  unfolding detail_row
  detail_row-same viewer v known agrees = elim (Bool-cases (v.user_id == viewer)) [
    | inl own ↦ rw own (rw (owner_symmetric viewer v known own) refl)
    | inr stranger ↦ rw stranger (
        rw (owner_symmetric viewer v known stranger) (
          data_of-if_none (check_stranger p k c v) (video_object_from_detail p k c v)
          ∙ check_stranger-same viewer v (video_object_from_detail p k c v) known agrees
          ∙ ready_same (is_ready v.status) (assert_owner_active_visible c.viewing v.user_id viewer)
              v))
  ]

  -- For an authenticated viewer GetVideoDetail, which has its own copy of the checks, shows a video
  -- exactly when assertVideoOwnerOrVisible lets the viewer see it, and then that video, if the is_private
  -- of the row that GetVideoDetail joins is that of the row that GetUserByID reads.
  pub get_video_detail-assert :
      (viewer id : ℕ) (t : Table)
      → c.configured ≡ true
      → c.viewer ≡ some viewer
      → p.parse_uuid c.id_param ≡ some id
      → Agrees
      → data_of (get_video_detail p k c t)
        ≡ detail_of (assert_video_owner_or_visible c.viewing viewer id t)
  unfolding get_video_detail assert_video_owner_or_visible
  get_video_detail-assert viewer id t configured known parsed agrees = rw configured (
      rw parsed (elim (Bool-cases c.viewing.load_fails) [
        | inl fails ↦ rw fails refl
        | inr loads ↦ elim (Reply-cases (get_video_by_id id t)) [
          | inl (v, e) ↦ rw loads (rw e (detail_row-same viewer v known agrees))
          | inr (inl e) ↦ rw loads (rw e refl)
          | inr (inr e) ↦ rw loads (rw e refl)
        ]
      ]))
