-- ===== src/Gateway/Playlist/Served.antt =====
-- Whom GetPlaylist serves (api-gateway/handlers/video_detail.go).
use mokibox.Shared.{
  ℕ, ◌≡◌, ◌≢◌, sym, ◌∙◌, ◌⊎◌, inl, inr, arith, String, Bool, true, false, false≢true, not,
  Bool-cases, Option-cases, none, some, List, [], ◌∷◌, any, str_eq, eq_iff, In,
}
use mokibox.Shared.Platform.{Platform}
use mokibox.Store.Row.{Video, is_ready}
use mokibox.Store.Table.{Table, find}
use mokibox.Store.Statements.{get_video_by_id}
use mokibox.Store.Replies.{get_video_by_id-row}
use mokibox.Worker.Transcode.Ends.{if-rule, Option-rule, Reply-rule}
use mokibox.Gateway.Upload.{Response, done}
use mokibox.Gateway.Visibility.{Open, assert_owner_active_visible-Open}
use mokibox.Gateway.Tokens.{Codec}
use mokibox.Gateway.Tokens.Media.{verify_media_token}
use mokibox.Gateway.Playlist.{
  Playing, check_token, check_viewer, play_row, serve_variant, serve_master_playlist,
  serve_variant_playlist, get_playlist, allowed_variants, str_gt, hls_max_variant,
}

any-In : (x : String) (vs : List String) → any (λ v. str_eq v x) vs ≡ true → In x vs
any-In x [] e = absurd (false≢true e)
any-In x (v ∷ vs) e = elim (Bool-cases (str_eq v x)) [
  | inl k ↦ inl ((eq_iff v x).0 k)
  | inr k ↦ inr (any-In x vs (rw k at e))
]

not-false : (b : Bool) → not b ≡ false → b ≡ true
not-false b e = ground arith

module _ (p : Platform) (k : Codec) (c : Playing) where
  -- Who asks: without a user, a bearer of an accepted token for the video; or a user to whom the
  -- owner's page is open.
  abbrev pub MayPlay : ℕ → Video → Type 0
  MayPlay id v =
      ((c.viewer ≡ none)
        × (verify_media_token p k c.now c.token (p.uuid_string id) c.media_token_secret ≡ true))
      ⊎ ((viewer : ℕ) × (c.viewer ≡ some viewer) × Open c.viewing v.user_id viewer)

  -- What is played: the master playlist, or that of an allowed variant.
  abbrev pub Plays : String → ℕ → List String → Type 0
  Plays prefix id out =
      ((p.trim_space c.variant ≡ "") × (serve_master_playlist p k c prefix id ≡ done out))
      ⊎ (In (p.trim_space c.variant) allowed_variants
          × (serve_variant_playlist p k c prefix (p.trim_space c.variant) ≡ done out))

  pub record Played (t : Table) (out : List String) : Type 0 where
    pub id : ℕ
    pub video : Video
    pub prefix : String
    pub parsed : p.parse_uuid c.id_param ≡ some id
    pub found : find id t ≡ some video
    pub is_ready : is_ready video.status ≡ true
    pub stored : video.hls_prefix ≡ some prefix
    pub filled : prefix ≢ ""
    pub allowed : MayPlay id video
    pub plays : Plays prefix id out

  Plays-allowed :
      (prefix : String) (id : ℕ) (out : List String)
      → serve_variant p k c prefix id ≡ done out
      → Plays prefix id out
  unfolding serve_variant
  Plays-allowed prefix id out =
      let R = λ (r : Response (List String)). r ≡ done out → Plays prefix id out in
      let variant = p.trim_space c.variant in
      if-rule R (str_eq variant "") (λ e h. inl ((eq_iff variant "").0 e, h))
        λ e.
          if-rule R (not (any (λ v. str_eq v variant) allowed_variants)) (λ e h. cc)
            λ known.
              if-rule R (str_gt variant hls_max_variant) (λ e h. cc)
                (λ e h. inr (any-In variant allowed_variants (not-false _ known), h))

  MayPlay-checked :
      (id : ℕ) (v : Video)
      → check_token p k c id ≡ none
      → check_viewer p k c v.user_id ≡ none
      → MayPlay id v
  MayPlay-checked id v token viewer = elim (Option-cases c.viewer) [
    | inl n ↦ inl (n, ground arith)
    | inr (u, n) ↦ inr (u, n, assert_owner_active_visible-Open c.viewing v.user_id u (ground arith))
  ]

  play_row-Played :
      (t : Table) (id : ℕ) (v : Video) (out : List String)
      → p.parse_uuid c.id_param ≡ some id
      → find id t ≡ some v
      → check_token p k c id ≡ none
      → play_row p k c id v ≡ done out
      → Played t out
  unfolding play_row
  play_row-Played t id v out parsed found token =
      let R = λ (r : Response (List String)). r ≡ done out → Played t out in
      if-rule R (is_ready v.status)
        (λ ready.
          Option-rule R v.hls_prefix (λ e h. cc)
            λ prefix stored.
              if-rule R (str_eq prefix "") (λ e h. cc)
                λ e.
                  Option-rule R (check_viewer p k c v.user_id)
                    (λ seen h. record {
                      id = id;
                      video = v;
                      prefix = prefix;
                      parsed = parsed;
                      found = found;
                      is_ready = ready;
                      stored = stored;
                      filled = λ empty. false≢true (sym e ∙ (eq_iff prefix "").1 empty);
                      allowed = MayPlay-checked id v token seen;
                      plays = Plays-allowed prefix id out h;
                    })
                    (λ err e h. cc))
        (λ e h. cc)

  -- A playlist is served only for a READY row of the table with an HLS prefix, to a request without a
  -- user whose media token is accepted for that video, or to a user to whom the owner's page is open: an
  -- active owner, who is public or whom the user follows. It is the master playlist if no variant is
  -- asked for, and else that of an allowed variant.
  pub get_playlist-Played :
      (t : Table) (out : List String) → get_playlist p k c t ≡ done out → Played t out
  unfolding get_playlist
  get_playlist-Played t out =
      let R = λ (r : Response (List String)). r ≡ done out → Played t out in
      if-rule R c.configured
        (λ e.
          Option-rule R (p.parse_uuid c.id_param) (λ e h. cc)
            λ id parsed.
              Option-rule R (check_token p k c id)
                (λ token.
                  if-rule R c.load_fails (λ e h. cc)
                    λ e.
                      Reply-rule R (get_video_by_id id t)
                        (λ v loaded.
                          play_row-Played t id v out parsed (get_video_by_id-row id t v loaded)
                            token)
                        (λ e h. cc) (λ e h. cc))
                (λ err e h. cc))
        (λ e h. cc)
