-- ===== src/Gateway/Detail.antt =====
-- GetVideoDetail and GetVideoStatus of api-gateway/handlers/video_detail.go, with the links of
-- video_object.go.
pub mod Shown
mod Tests
use mokibox.Shared.{
  ℕ, String, Bool, true, false, not, ◌&&◌, ◌||◌, Option, none, some, List, [], ◌∷◌, ◌==◌, any,
  if◌then◌else◌, str_eq, is_some,
}
use mokibox.Shared.Platform.{Platform, ◌<>◌, ℤ}
use mokibox.Store.Row.{Video, is_ready}
use mokibox.Store.Table.{Table, row, no_rows, fault}
use mokibox.Store.Statements.{get_video_by_id}
use mokibox.Gateway.Errors.{
  Error, Sentinel, wrapped, err_unauthorized, err_validation, err_internal, err_not_found,
}
use mokibox.Gateway.Upload.{Response, refuse, done}
use mokibox.Gateway.Visibility.{Viewing}
use mokibox.Gateway.Likes.{Like, is_like}
use mokibox.Gateway.Tokens.{Codec}
use mokibox.Gateway.Tokens.Media.{new_media_token}

-- A request to GetVideoDetail or GetVideoStatus; `user_is_private` is the column of GetVideoDetail's join
-- with the users table, by the owner's id.
pub record Detailing : Type 0 where
  pub configured : Bool
  pub api_base_url : String
  pub media_token_secret : String
  pub ttl : ℤ
  pub now : ℕ
  pub id_param : String
  pub viewer : Option ℕ
  pub viewing : Viewing
  pub user_is_private : ℕ → Bool
  pub likes : List Like
  pub presign_get : String → Option String

-- The parts of a VideoObject that are computed; the others are columns of the row.
pub record VideoObject : Type 0 where
  pub video : Video
  pub liked_by_me : Bool
  pub is_owner : Bool
  pub thumbnail_url : Option String
  pub hls_playlist_url : Option String

pub record StatusObject : Type 0 where
  pub id : String
  pub video : Video

-- Whether the user on the row is the viewer; uuid.Nil, without a viewer, is the id of no user.
abbrev pub owns : Option ℕ → ℕ → Bool
owns none owner = false
owns (some viewer) owner = viewer == owner

module _ (p : Platform) (k : Codec) (c : Detailing) where
  -- buildThumbnailURL
  unfoldable pub build_thumbnail_url : Video → Option String
  build_thumbnail_url v =
      if is_ready v.status
      then elim v.thumbnail_key [
        | none ↦ none
        | some key ↦ if str_eq key "" then none else elim (c.presign_get key) [
          | none ↦ none
          | some url ↦ if str_eq url "" then none else some url
        ]
      ]
      else none

  -- buildPlaylistURL
  unfoldable pub build_playlist_url : Video → Option String
  unfolding new_media_token
  build_playlist_url v =
      if is_ready v.status
      then (if str_eq c.api_base_url "" || str_eq c.media_token_secret ""
          then none
          else elim (new_media_token p k c.now (p.uuid_string v.id) c.media_token_secret c.ttl) [
            | none ↦ none
            | some made ↦
                if str_eq made.0 ""
                then none
                else some (
                    c.api_base_url
                    <> ("/api/videos/"
                        <> (p.uuid_string v.id <> ("/playlist.m3u8?token=" <> made.0))))
          ])
      else none

  -- The liked_by_me of GetVideoDetail's row.
  abbrev pub liked_by_me : ℕ → Bool
  liked_by_me id = elim c.viewer [ none ↦ false | some viewer ↦ any (is_like viewer id) c.likes ]

  -- videoObjectFromDetail
  abbrev pub video_object_from_detail : Video → VideoObject
  video_object_from_detail v = record {
    video = v;
    liked_by_me = liked_by_me v.id;
    is_owner = owns c.viewer v.user_id;
    thumbnail_url = build_thumbnail_url v;
    hls_playlist_url = build_playlist_url v;
  }

  -- What a private owner's video asks of a viewer.
  abbrev pub check_private : ℕ → Option Sentinel
  check_private owner =
      if c.user_is_private owner && is_some c.viewer
      then elim c.viewer [
        | none ↦ none
        | some viewer ↦ elim (c.viewing.is_following viewer owner) [
          | none ↦ some err_internal
          | some following ↦ if following then none else some err_not_found
        ]
      ]
      else none

  -- The checks on a viewer who is not the owner; none is no error.
  unfoldable pub check_stranger : Video → Option Sentinel
  check_stranger v = elim (c.viewing.get_user_by_id v.user_id) [
    | no_rows ↦ some err_not_found
    | fault ↦ some err_internal
    | row o ↦
        if o.is_active
        then (if is_ready v.status then check_private v.user_id else some err_not_found)
        else some err_not_found
  ]

  -- GetVideoDetail, past the load of the row.
  unfoldable pub detail_row : Video → Response VideoObject
  unfolding check_stranger build_thumbnail_url build_playlist_url
  detail_row v =
      if owns c.viewer v.user_id
      then done (video_object_from_detail v)
      else elim (check_stranger v) [
        | some e ↦ refuse (wrapped e)
        | none ↦ done (video_object_from_detail v)
      ]

  -- GetVideoDetail
  unfoldable pub get_video_detail : Table → Response VideoObject
  unfolding detail_row
  get_video_detail t =
      if c.configured
      then elim (p.parse_uuid c.id_param) [
        | none ↦ refuse (wrapped err_validation)
        | some id ↦
            if c.viewing.load_fails
            then refuse (wrapped err_internal)
            else elim (get_video_by_id id t) [
              | no_rows ↦ refuse (wrapped err_not_found)
              | fault ↦ refuse (wrapped err_internal)
              | row v ↦ detail_row v
            ]
      ]
      else refuse (wrapped err_internal)

  -- GetVideoStatus
  unfoldable pub get_video_status : Table → Response StatusObject
  get_video_status t =
      if c.configured
      then elim c.viewer [
        | none ↦ refuse (wrapped err_unauthorized)
        | some viewer ↦ elim (p.parse_uuid c.id_param) [
          | none ↦ refuse (wrapped err_validation)
          | some id ↦
              if c.viewing.load_fails
              then refuse (wrapped err_internal)
              else elim (get_video_by_id id t) [
                | no_rows ↦ refuse (wrapped err_not_found)
                | fault ↦ refuse (wrapped err_internal)
                | row v ↦
                    if v.user_id == viewer
                    then done (record { id = p.uuid_string v.id; video = v })
                    else refuse (wrapped err_not_found)
              ]
        ]
      ]
      else refuse (wrapped err_internal)
