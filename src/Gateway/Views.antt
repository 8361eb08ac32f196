-- ===== src/Gateway/Views.antt =====
-- TrackView of api-gateway/handlers/social.go.
pub mod Viewed
use mokibox.Shared.{ℕ, String, Bool, true, false, Option, none, some, if◌then◌else◌}
use mokibox.Shared.Platform.{Platform}
use mokibox.Store.Row.{Video}
use mokibox.Store.Table.{Table, Reply, row, no_rows, fault}
use mokibox.Store.Statements.{get_video_by_id, increment_views, sent}
use mokibox.Gateway.Errors.{Error, wrapped, err_unauthorized, err_validation, err_internal}
use mokibox.Gateway.Upload.{Response, refuse, done}
use mokibox.Gateway.Visibility.{Viewing, visible, rejects, assert_video_owner_or_visible}

-- A request, and which of its statements fail.
pub record Tracking : Type 0 where
  pub configured : Bool
  pub user : Option ℕ
  pub id_param : String
  pub viewing : Viewing
  pub view_fails : Bool
  pub reload_fails : Bool

module _ (p : Platform) (c : Tracking) where
  -- GetVideoByID after the update; the data of a success is views_count.
  unfoldable pub reload_views : ℕ → Table → Table × Response ℕ
  reload_views id t =
      if c.reload_fails then (t, refuse (wrapped err_internal)) else elim (get_video_by_id id t) [
        | row v ↦ (t, done v.views_count)
        | no_rows ↦ (t, refuse (wrapped err_internal))
        | fault ↦ (t, refuse (wrapped err_internal))
      ]

  -- IncrementViews, for which a missing row is no error.
  unfoldable pub count_view : ℕ → Table → Table × Response ℕ
  unfolding reload_views
  count_view id t =
      let (t', reply) = sent c.view_fails t (increment_views id t) in
      elim reply [
        | row v ↦ reload_views id t'
        | no_rows ↦ reload_views id t'
        | fault ↦ (t', refuse (wrapped err_internal))
      ]

  -- TrackView
  unfoldable pub track_view : Table → Table × Response ℕ
  unfolding count_view
  track_view t =
      if c.configured
      then elim c.user [
        | none ↦ (t, refuse (wrapped err_unauthorized))
        | some user ↦ elim (p.parse_uuid c.id_param) [
          | none ↦ (t, refuse (wrapped err_validation))
          | some id ↦ elim (assert_video_owner_or_visible c.viewing user id t) [
            | rejects e ↦ (t, refuse (wrapped e))
            | visible v ↦ count_view id t
          ]
        ]
      ]
      else (t, refuse (wrapped err_internal))
