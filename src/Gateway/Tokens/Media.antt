-- ===== src/Gateway/Tokens/Media.antt =====
-- NewMediaToken, SignMediaToken and VerifyMediaToken of shared/mediatoken.go.

use text.Mathlib.TextLemmas.{
  nil-append, cons-append, append-ne-nil_of_right_ne-nil, append-eq-nil_iff,
}
use mathlib.Core.Option.{some-injective}
use mokibox.Shared.{
  ℕ, ◌+◌, ◌≡◌, ◌≢◌, refl, ap, sym, ◌∙◌, String, Bool, true, false, false≢true, ◌||◌, Option, none,
  some, ltb, ◌==◌, if◌then◌else◌, str_eq, eq_iff,
}
use mokibox.Shared.Platform.{Platform, ◌<>◌, ℤ, pos, negsuc}
use mokibox.Worker.Transcode.Ends.{if-rule}
use mokibox.Gateway.Tokens.{Codec, IsCodec}
use mokibox.Gateway.Tokens.Split.{split_first, split_first-head, split_first-append, str_eq-filled}

-- a > b on int64.
abbrev pub int_gt : ℤ → ℤ → Bool
int_gt (pos a) (pos b) = ltb b a
int_gt (pos a) (negsuc b) = true
int_gt (negsuc a) (pos b) = false
int_gt (negsuc a) (negsuc b) = ltb a b

-- The text that is signed.
abbrev pub payload : String → String → String
payload video expiry = "video_id:" <> (video <> (":" <> expiry))

module _ (p : Platform) (k : Codec) where
  -- SignMediaToken, whose error is that of a Write that never fails.
  unfoldable pub sign_media_token : String → String → ℕ → String
  sign_media_token video secret expiry =
      let expiry_unix = k.format_int (k.unix expiry) in
      let sig = k.hex_encode (k.hmac secret (payload video expiry_unix)) in
      k.base64_encode (expiry_unix <> ("." <> sig))

  -- NewMediaToken at the time `now`, with a ttl in nanoseconds; none is an error.
  unfoldable pub new_media_token : ℕ → String → String → ℤ → Option (String × ℕ)
  unfolding sign_media_token
  new_media_token now video secret ttl =
      if str_eq video "" || str_eq secret "" then none else elim ttl [
        | negsuc n ↦ none
        | pos n ↦ if n == 0 then none else some (sign_media_token video secret (now + n), now + n)
      ]

  -- VerifyMediaToken at the time `now`: whether it returns nil.
  unfoldable pub verify_media_token : ℕ → String → String → String → Bool
  unfolding split_first
  verify_media_token now token video secret =
      if str_eq token "" then false else elim (k.base64_decode token) [
        | none ↦ false
        | some raw ↦ elim (split_first b'.' raw) [
          | none ↦ false
          | some parts ↦ elim (p.parse_int parts.0) [
            | none ↦ false
            | some expiry_unix ↦
                if int_gt (k.unix now) expiry_unix then false else elim (k.hex_decode parts.1) [
                  | none ↦ false
                  | some got ↦ str_eq (k.hmac secret (payload video parts.0)) got
                ]
          ]
        ]
      ]

dot : (s : String) → "." <> s ≡ String.◌∷◌ "." s
dot s = cons-append "." "" s ∙ ap (λ (t : String). String.◌∷◌ "." t) (nil-append s)

dot_first : (s : String) → split_first b'.' ("." <> s) ≡ some ("", s)
dot_first s = ap (split_first b'.') (dot s) ∙ split_first-head b'.' "." s refl

dot_filled : (s : String) → "." <> s ≢ ""
dot_filled s h =
    absurd (false≢true ((eq_iff "." "").1 ((append-eq-nil_iff {p = "."} {q = s}).0 h).0))

module _ (p : Platform) (k : Codec) where
  -- Given what Go documents of its encoders, a token that was signed for a video, a secret and an expiry
  -- is accepted for a video and a secret exactly when the second of its expiry has not passed and the two
  -- signed texts have the same HMAC, as they do for the video and the secret of the token.
  pub verify_media_token-sign_media_token :
      IsCodec p k
      → (now expiry : ℕ) (video secret video' secret' : String)
      → verify_media_token p k now (sign_media_token p k video secret expiry) video' secret' ≡ (
          if int_gt (k.unix now) (k.unix expiry)
          then false
          else str_eq
              (k.hmac secret' (payload video' (k.format_int (k.unix expiry))))
              (k.hmac secret (payload video (k.format_int (k.unix expiry)))))
  unfolding verify_media_token sign_media_token
  verify_media_token-sign_media_token c now expiry video secret video' secret' =
      let e = k.format_int (k.unix expiry) in
      let mac = k.hmac secret (payload video e) in
      let raw = e <> ("." <> k.hex_encode mac) in
      let split =
        split_first-append b'.' e ("." <> k.hex_encode mac) (k.hex_encode mac)
          (c.ints_dotless (k.unix expiry)) (dot_first (k.hex_encode mac)) in
      let filled =
        c.base64_filled raw (append-ne-nil_of_right_ne-nil e (dot_filled (k.hex_encode mac))) in
      rw (str_eq-filled _ filled)
        (rw (c.base64 raw) (rw split (rw (c.ints (k.unix expiry)) (rw (c.hex mac) refl))))

  new_media_token-signed :
      (now expiry : ℕ) (video secret token : String) (ttl : ℤ)
      → new_media_token p k now video secret ttl ≡ some (token, expiry)
      → token ≡ sign_media_token p k video secret expiry
  unfolding new_media_token
  new_media_token-signed now expiry video secret token (negsuc n) =
      let R = λ (r : Option (String × ℕ)).
        r ≡ some (token, expiry) → token ≡ sign_media_token p k video secret expiry in
      if-rule R (str_eq video "" || str_eq secret "") (λ e h. cc) (λ e h. cc)
  new_media_token-signed now expiry video secret token (pos n) =
      let R = λ (r : Option (String × ℕ)).
        r ≡ some (token, expiry) → token ≡ sign_media_token p k video secret expiry in
      if-rule R (str_eq video "" || str_eq secret "") (λ e h. cc)
        λ e.
          if-rule R (n == 0) (λ e h. cc)
            λ e h.
              let same =
                some-injective (sign_media_token p k video secret (now + n), now + n)
                  (token, expiry) h in
              sym (ap (λ (q : String × ℕ). q.0) same)
              ∙ ap (λ (q : String × ℕ). sign_media_token p k video secret q.1) same

  pub new_media_token-expiry :
      (now n : ℕ) (video secret : String) (made : String × ℕ)
      → new_media_token p k now video secret (pos n) ≡ some made
      → made.1 ≡ now + n
  unfolding new_media_token
  new_media_token-expiry now n video secret made =
      let R = λ (r : Option (String × ℕ)). r ≡ some made → made.1 ≡ now + n in
      if-rule R (str_eq video "" || str_eq secret "") (λ e h. cc)
        λ e.
          if-rule R (n == 0) (λ e h. cc)
            λ e h. sym (
              ap (λ (q : String × ℕ). q.1)
                (some-injective (sign_media_token p k video secret (now + n), now + n) made h))

  -- NewMediaToken gives a token that is accepted for its video and secret as long as the second of the
  -- expiry that it answers has not passed.
  pub new_media_token-accepted :
      IsCodec p k
      → (now now' expiry : ℕ) (video secret token : String) (ttl : ℤ)
      → new_media_token p k now video secret ttl ≡ some (token, expiry)
      → int_gt (k.unix now') (k.unix expiry) ≡ false
      → verify_media_token p k now' token video secret ≡ true
  new_media_token-accepted c now now' expiry video secret token ttl made early =
      let mac = k.hmac secret (payload video (k.format_int (k.unix expiry))) in
      ap (λ (t : String). verify_media_token p k now' t video secret)
        (new_media_token-signed now expiry video secret token ttl made)
      ∙ verify_media_token-sign_media_token c now' expiry video secret video secret
      ∙ rw early ((eq_iff mac mac).1 refl)
