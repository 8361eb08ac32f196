-- ===== src/Gateway/Playlist.antt =====
-- GetPlaylist of api-gateway/handlers/video_detail.go, with the rewriting of the playlists that it
-- serves. A playlist is the list of its lines.
pub mod Rewritten
pub mod Served
mod Tests
use Prim.Native.Nat.{Ordering}
use Prim.Native.String.{compare}
use mokibox.Shared.{
  ℕ, String, Bool, true, false, not, ◌&&◌, ◌||◌, Option, none, some, List, [], ◌∷◌, map,
  if◌then◌else◌, str_eq, any,
}
use mokibox.Shared.Platform.{Platform, ◌<>◌, ℤ}
use mokibox.Store.Row.{Video, is_ready}
use mokibox.Store.Table.{Table, row, no_rows, fault}
use mokibox.Store.Statements.{get_video_by_id}
use mokibox.Gateway.Errors.{
  Error, wrapped, new_api_error, err_unauthorized, err_validation, err_internal, err_not_found,
  code_validation_error,
}
use mokibox.Gateway.Upload.{Response, refuse, done}
use mokibox.Gateway.Visibility.{Viewing, assert_owner_active_visible}
use mokibox.Gateway.Tokens.{Codec}
use mokibox.Gateway.Tokens.Split.{split_all}
use mokibox.Gateway.Tokens.Media.{new_media_token, verify_media_token}

-- R2Client.GetObject: the body, ErrNotFound, or another error.
pub data Object : Type 0 where
  body : String → Object
  absent : Object
  broken : Object

-- A request, the configuration, and what R2, the scanner of bufio (the lines, and whether Err is not
-- nil) and strings.TrimSuffix(s, "/") answer.
pub record Playing : Type 0 where
  pub configured : Bool
  pub api_base_url : String
  pub media_token_secret : String
  pub ttl : ℤ
  pub now : ℕ
  pub id_param : String
  pub viewer : Option ℕ
  pub token : String
  pub variant : String
  pub load_fails : Bool
  pub viewing : Viewing
  pub get_object : String → Object
  pub presign_get : String → Option String
  pub scan_lines : String → List String × Bool
  pub trim_suffix_slash : String → String

-- s > t on strings.
abbrev pub str_gt : String → String → Bool
str_gt s t = elim (compare s t) [ Ordering.gt ↦ true | _ ↦ false ]

abbrev pub allowed_variants : List String
allowed_variants = "480p" ∷ "720p" ∷ []

abbrev pub hls_max_variant : String
hls_max_variant = "720p"

-- The segment before the last, or "" if there is none.
abbrev pub second_last : List String → String
second_last [] = ""
second_last (x ∷ []) = ""
second_last (x ∷ y ∷ []) = x
second_last (x ∷ y ∷ z ∷ zs) = second_last (y ∷ z ∷ zs)

module _ (p : Platform) (k : Codec) (c : Playing) where
  -- The lines that both rewriters pass through: blank lines, tags and absolute URLs.
  abbrev pub passes : String → Bool
  passes trimmed =
      (str_eq trimmed "" || p.has_prefix trimmed "#")
      || (p.has_prefix trimmed "http://" || p.has_prefix trimmed "https://")

  abbrev pub variant_of : String → String
  variant_of trimmed = second_last (split_all b'/' (c.trim_suffix_slash trimmed))

  abbrev pub variant_url : ℕ → String → String → String
  variant_url id variant token =
      c.api_base_url
      <> ("/api/videos/"
          <> (p.uuid_string id <> ("/playlist.m3u8?variant=" <> (variant <> ("&token=" <> token)))))

  -- One line of RewriteMasterPlaylist.
  unfoldable pub rewrite_master_line : ℕ → String → String → String
  unfolding split_all
  rewrite_master_line id token line =
      let trimmed = p.trim_space line in
      if passes trimmed
      then line
      else (let variant = variant_of trimmed in
          if str_eq variant "" then line else variant_url id variant token)

  -- RewriteMasterPlaylist
  unfoldable pub rewrite_master_playlist : String → ℕ → Option (List String)
  unfolding rewrite_master_line new_media_token
  rewrite_master_playlist text id =
      if str_eq c.api_base_url "" || str_eq c.media_token_secret ""
      then none
      else elim (new_media_token p k c.now (p.uuid_string id) c.media_token_secret c.ttl) [
        | none ↦ none
        | some made ↦
            let (lines, fails) = c.scan_lines text in
            if fails then none else some (map (rewrite_master_line id made.0) lines)
      ]

  -- The loop of RewriteVariantPlaylist: none if a presign fails.
  unfoldable pub rewrite_variant_lines : String → List String → Option (List String)
  rewrite_variant_lines base [] = some []
  rewrite_variant_lines base (line ∷ lines) =
      let rest = rewrite_variant_lines base lines in
      let trimmed = p.trim_space line in
      if passes trimmed
      then elim rest [ none ↦ none | some out ↦ some (line ∷ out) ]
      else elim (c.presign_get (base <> trimmed)) [
        | none ↦ none
        | some url ↦ elim rest [ none ↦ none | some out ↦ some (url ∷ out) ]
      ]

  abbrev pub segment_base : String → String → String
  segment_base prefix variant = prefix <> ("/" <> (variant <> "/"))

  -- RewriteVariantPlaylist
  unfoldable pub rewrite_variant_playlist : String → String → String → Option (List String)
  unfolding rewrite_variant_lines
  rewrite_variant_playlist text prefix variant =
      if not (p.has_suffix prefix "/") && not (p.has_prefix prefix "hls/")
      then none
      else (let (lines, fails) = c.scan_lines text in
          elim (rewrite_variant_lines (segment_base prefix variant) lines) [
            | none ↦ none
            | some out ↦ if fails then none else some out
          ])

  -- A playlist is fetched and rewritten.
  unfoldable pub serve_object : String → (String → Option (List String)) → Response (List String)
  serve_object key rewrite = elim (c.get_object key) [
    | absent ↦ refuse (wrapped err_not_found)
    | broken ↦ refuse (wrapped err_internal)
    | body text ↦ elim (rewrite text) [ none ↦ refuse (wrapped err_internal) | some out ↦ done out ]
  ]

  -- serveMasterPlaylist and serveVariantPlaylist
  unfoldable pub serve_master_playlist : String → ℕ → Response (List String)
  unfolding serve_object rewrite_master_playlist
  serve_master_playlist prefix id =
      serve_object (prefix <> "/master.m3u8") (λ text. rewrite_master_playlist text id)

  unfoldable pub serve_variant_playlist : String → String → Response (List String)
  unfolding serve_object rewrite_variant_playlist
  serve_variant_playlist prefix variant =
      serve_object (prefix <> ("/" <> (variant <> "/index.m3u8")))
        (λ text. rewrite_variant_playlist text prefix variant)

  -- The end of GetPlaylist: the dispatch on the variant.
  unfoldable pub serve_variant : String → ℕ → Response (List String)
  unfolding serve_master_playlist serve_variant_playlist
  serve_variant prefix id =
      let variant = p.trim_space c.variant in
      if str_eq variant ""
      then serve_master_playlist prefix id
      else if not (any (λ v. str_eq v variant) allowed_variants)
      then refuse (new_api_error code_validation_error)
      else if str_gt variant hls_max_variant
      then refuse (new_api_error code_validation_error)
      else serve_variant_playlist prefix variant

  -- The media token, which stands in for a user.
  abbrev pub check_token : ℕ → Option Error
  check_token id = elim c.viewer [
    | some viewer ↦ none
    | none ↦
        if str_eq c.token ""
        then some (wrapped err_unauthorized)
        else if verify_media_token p k c.now c.token (p.uuid_string id) c.media_token_secret
        then none
        else some (wrapped err_unauthorized)
  ]

  -- assertVideoReadyVisible, for a user only.
  abbrev pub check_viewer : ℕ → Option Error
  check_viewer owner = elim c.viewer [
    | none ↦ none
    | some viewer ↦ elim (assert_owner_active_visible c.viewing owner viewer) [
      | none ↦ none
      | some e ↦ some (wrapped e)
    ]
  ]

  -- GetPlaylist, past the load of the row.
  unfoldable pub play_row : ℕ → Video → Response (List String)
  unfolding serve_variant
  play_row id v =
      if is_ready v.status
      then elim v.hls_prefix [
        | none ↦ refuse (wrapped err_not_found)
        | some prefix ↦
            if str_eq prefix ""
            then refuse (wrapped err_not_found)
            else elim (check_viewer v.user_id) [
              | some e ↦ refuse e
              | none ↦ serve_variant prefix id
            ]
      ]
      else refuse (wrapped err_not_found)

  -- GetPlaylist
  unfoldable pub get_playlist : Table → Response (List String)
  unfolding play_row verify_media_token assert_owner_active_visible
  get_playlist t =
      if c.configured
      then elim (p.parse_uuid c.id_param) [
        | none ↦ refuse (wrapped err_validation)
        | some id ↦ elim (check_token id) [
          | some e ↦ refuse e
          | none ↦
              if c.load_fails then refuse (wrapped err_internal) else elim (get_video_by_id id t) [
                | no_rows ↦ refuse (wrapped err_not_found)
                | fault ↦ refuse (wrapped err_internal)
                | row v ↦ play_row id v
              ]
        ]
      ]
      else refuse (wrapped err_internal)
