-- ===== src/Gateway/Playlist/Rewritten.antt =====
-- The lines of a master playlist that RewriteMasterPlaylist writes
-- (api-gateway/handlers/video_detail.go).
use mathlib.Core.Option.{some-injective}
use mokibox.Shared.{
  ℕ, ◌+◌, ◌≡◌, ◌≢◌, refl, ap, sym, ◌∙◌, subst, ◌⊎◌, inl, inr, String, Bool, true, false, false≢true,
  ◌||◌, Option, some, List, [], ◌∷◌, ◌++◌, map, str_eq, eq_iff, arith,
}
use mokibox.Shared.Platform.{Platform, ◌<>◌, ℤ, pos}
use mokibox.Worker.Transcode.Ends.{if-rule, Option-rule}
use mokibox.Gateway.Tokens.{Codec, IsCodec}
use mokibox.Gateway.Tokens.Split.{split_all}
use mokibox.Gateway.Tokens.Media.{
  int_gt, new_media_token, verify_media_token, new_media_token-accepted, new_media_token-expiry,
}
use mokibox.Gateway.Playlist.{
  Playing, second_last, passes, rewrite_master_line, rewrite_master_playlist,
}

either : (a b : Bool) → (a || b) ≡ true → (a ≡ true) ⊎ (b ≡ true)
either true b h = inl refl
either false b h = inr h

second_last-append :
    (init : List String) (variant last : String)
    → second_last (init ++ variant ∷ last ∷ []) ≡ variant
second_last-append [] variant last = refl
second_last-append (x ∷ []) variant last = refl
second_last-append (x ∷ y ∷ []) variant last = refl
second_last-append (x ∷ y ∷ z ∷ zs) variant last = second_last-append (y ∷ z ∷ zs) variant last

second_last-cases :
    (ws : List String)
    → (second_last ws ≡ "")
      ⊎ ((init : List String) × (last : String) × (ws ≡ init ++ second_last ws ∷ last ∷ []))
second_last-cases [] = inl refl
second_last-cases (x ∷ []) = inl refl
second_last-cases (x ∷ y ∷ []) = inr ([], y, refl)
second_last-cases (x ∷ y ∷ z ∷ zs) = elim (second_last-cases (y ∷ z ∷ zs)) [
  | inl e ↦ inl e
  | inr (init, last, e) ↦ inr (x ∷ init, last, ap (λ (ws : List String). x ∷ ws) e)
]

module _ (p : Platform) (k : Codec) (c : Playing) where
  -- A blank line, a tag or comment, and an absolute URL.
  abbrev pub IsFixed : String → Type 0
  IsFixed line =
      (p.trim_space line ≡ "")
      ⊎ ((p.has_prefix (p.trim_space line) "#" ≡ true)
          ⊎ ((p.has_prefix (p.trim_space line) "http://" ≡ true)
              ⊎ (p.has_prefix (p.trim_space line) "https://" ≡ true)))

  -- The line is a path whose segment before the last is `variant`.
  abbrev pub Names : String → List String → String → String → Type 0
  Names line init variant last =
      split_all b'/' (c.trim_suffix_slash (p.trim_space line)) ≡ init ++ variant ∷ last ∷ []

  -- What a line of the master playlist becomes: itself, or a link to the variant that its path names.
  pub data Line (id : ℕ) (token line : String) : String → Type 0 where
    fixed : IsFixed line → Line id token line line
    unnamed :
        ((init : List String) (variant last : String) → Names line init variant last → variant ≡ "")
        → Line id token line line
    linked :
        (init : List String) (variant last : String)
        → ¬ IsFixed line
        → Names line init variant last
        → variant ≢ ""
        → Line id token line (
            c.api_base_url
            <> ("/api/videos/"
                <> (p.uuid_string id
                    <> ("/playlist.m3u8?variant=" <> (variant <> ("&token=" <> token))))))

  -- Line by line.
  abbrev pub Lines : ℕ → String → List String → List String → Type 0
  Lines id token [] [] = Unit
  Lines id token [] (o ∷ os) = ⊥
  Lines id token (l ∷ ls) [] = ⊥
  Lines id token (l ∷ ls) (o ∷ os) = Line id token l o × Lines id token ls os

  passes-IsFixed : (line : String) → passes p k c (p.trim_space line) ≡ true → IsFixed line
  passes-IsFixed line h =
      let t = p.trim_space line in
      elim (either (str_eq t "" || p.has_prefix t "#") _ h) [
        | inl e ↦ elim (either (str_eq t "") _ e) [
          | inl blank ↦ inl ((eq_iff t "").0 blank)
          | inr tag ↦ inr (inl tag)
        ]
        | inr e ↦ inr (inr (either (p.has_prefix t "http://") _ e))
      ]

  IsFixed-passes : (line : String) → IsFixed line → passes p k c (p.trim_space line) ≡ true
  IsFixed-passes line h = ground (arith, h, eq_iff (p.trim_space line) "")

  rewrite_master_line-Line :
      (id : ℕ) (token line : String) → Line id token line (rewrite_master_line p k c id token line)
  unfolding rewrite_master_line
  rewrite_master_line-Line id token line =
      let R = Line id token line in
      let ws = split_all b'/' (c.trim_suffix_slash (p.trim_space line)) in
      if-rule R (passes p k c (p.trim_space line)) (λ h. fixed (passes-IsFixed line h))
        λ other.
          if-rule R (str_eq (second_last ws) "")
            (λ h. unnamed (λ init variant last e.
              sym (second_last-append init variant last)
              ∙ (ap second_last (sym e) ∙ (eq_iff (second_last ws) "").0 h)))
            λ named. elim (second_last-cases ws) [
              | inl e ↦ absurd (false≢true (sym named ∙ (eq_iff (second_last ws) "").1 e))
              | inr (init, last, e) ↦
                  linked init (second_last ws) last
                    (λ h. false≢true (sym other ∙ IsFixed-passes line h)) e
                    (λ h. false≢true (sym named ∙ (eq_iff (second_last ws) "").1 h))
            ]

  map-Lines :
      (id : ℕ) (token : String) (ls : List String)
      → Lines id token ls (map (rewrite_master_line p k c id token) ls)
  map-Lines id token [] = tt
  map-Lines id token (l ∷ ls) = (rewrite_master_line-Line id token l, map-Lines id token ls)

  -- The lines of the playlist, rewritten with a token that is accepted for the video at the time
  -- `now`.
  pub record Links (now id : ℕ) (text : String) (out : List String) : Type 0 where
    pub token : String
    pub lines : Lines id token (c.scan_lines text).0 out
    pub accepted : verify_media_token p k now token (p.uuid_string id) c.media_token_secret ≡ true

  -- A master playlist that RewriteMasterPlaylist gives has as many lines: a blank line, a tag, an absolute
  -- URL and a path that names no variant are kept, and a path whose segment before the last is a variant
  -- becomes the link <base>/api/videos/<id>/playlist.m3u8?variant=<variant>&token=<token>. The token, one
  -- in all links, is accepted by VerifyMediaToken for the video, as long as the second in which the ttl of
  -- the rewriting ends has not passed.
  pub rewrite_master_playlist-Links :
      IsCodec p k
      → (ttl now id : ℕ) (text : String) (out : List String) → c.ttl ≡ pos ttl
      → int_gt (k.unix now) (k.unix (c.now + ttl)) ≡ false
      → rewrite_master_playlist p k c text id ≡ some out
      → Links now id text out
  unfolding rewrite_master_playlist
  rewrite_master_playlist-Links codec ttl now id text out lasts early =
      let R = λ (r : Option (List String)). r ≡ some out → Links now id text out in
      if-rule R (str_eq c.api_base_url "" || str_eq c.media_token_secret "") (λ e h. cc)
        λ e.
          Option-rule R (new_media_token p k c.now (p.uuid_string id) c.media_token_secret c.ttl)
            (λ e h. cc)
            λ made e.
              if-rule R (c.scan_lines text).1 (λ e h. cc)
                λ fine h.
                  let ends =
                    new_media_token-expiry p k c.now ttl (p.uuid_string id) c.media_token_secret
                      made
                      (subst
                        (λ (z : ℤ).
                          new_media_token p k c.now (p.uuid_string id) c.media_token_secret z
                          ≡ some made)
                        lasts e) in
                  record {
                    token = made.0;
                    lines =
                        subst (Lines id made.0 (c.scan_lines text).0) (some-injective _ out h)
                          (map-Lines id made.0 (c.scan_lines text).0);
                    accepted =
                        new_media_token-accepted p k codec c.now now made.1 (p.uuid_string id)
                          c.media_token_secret made.0 c.ttl e
                          (subst (λ (x : ℕ). int_gt (k.unix now) (k.unix x) ≡ false) (sym ends)
                            early);
                  }
