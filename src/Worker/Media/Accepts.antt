-- ===== src/Worker/Media/Accepts.antt =====
-- What ValidateMedia accepts (transcoder-worker/ffprobe.go), stated without its order of checks.
use mokibox.Shared.{
  ℕ, suc, ◌+◌, ◌*◌, ◌≤◌, ◌<◌, String, ◌≡◌, refl, ◌≢◌, ◌↔◌, ◌⊎◌, inl, inr, Bool, true, false, none,
  some, List, [], ◌∷◌, arith, eq_iff, false≢true, All, count_if, if◌then◌else◌, str_eq, Bool-cases,
  Option-cases,
}
use mokibox.Shared.Platform.{ℤ, pos, negsuc, nan, negative, micros, infinite, Platform, int_above}
use mokibox.Worker.Media.{
  FfprobeStream, FfprobeResult, InvalidMedia, high_bit_rate, video_codec_allowed,
  audio_codec_allowed, min_duration, max_duration, min_dimension, max_dimension, max_bit_rate,
  min_upload_bytes, max_upload_bytes, check_bit_rate, check_video, Counted, counted, failed,
  count_video, check_audio, check_duration, validate_media,
}

abbrev pub SmallBitRate : ℤ → Type 0
SmallBitRate (pos n) = n ≤ max_bit_rate
SmallBitRate (negsuc n) = Unit

-- A bit rate that is absent, or a number of at most max_bit_rate.
abbrev pub FineBitRate : Platform → String → Type 0
FineBitRate p s = (s ≡ "") ⊎ ((z : ℤ) × (p.parse_int s ≡ some z) × SmallBitRate z)

abbrev pub FineDimension : ℤ → Type 0
FineDimension (pos n) = (min_dimension ≤ n) × (n ≤ max_dimension)
FineDimension (negsuc n) = ⊥

pub record FineVideo (p : Platform) (s : FfprobeStream) : Type 0 where
  pub codec : video_codec_allowed s.codec_name ≡ true
  pub width : FineDimension s.width
  pub height : FineDimension s.height
  pub bit_rate : FineBitRate p s.bit_rate

abbrev pub is_video : FfprobeStream → Bool
is_video s = str_eq s.codec_type "video"

abbrev pub is_audio : FfprobeStream → Bool
is_audio s = str_eq s.codec_type "audio"

-- The file but for its duration: its size is in range, it has a video stream, and its video and audio
-- streams are fine.
pub record Screened (p : Platform) (r : FfprobeResult) (size : ℕ) : Type 0 where
  pub size_low : min_upload_bytes ≤ size
  pub size_high : size ≤ max_upload_bytes
  pub has_video : 0 < count_if is_video r.streams
  pub videos : All (λ s. is_video s ≡ true → FineVideo p s) r.streams
  pub audios : All (λ s. is_audio s ≡ true → audio_codec_allowed s.codec_name ≡ true) r.streams

-- The duration is a number from 1 to 180 seconds.
abbrev pub Timed : Platform → String → Type 0
Timed p s =
    (s ≢ "")
    × ((u : ℕ) × (p.parse_float s ≡ some (micros u))
        × (min_duration * 1000000 ≤ u)
        × (u ≤ max_duration * 1000000))

-- The duration is a text that ParseFloat reads as NaN.
abbrev pub Untimed : Platform → String → Type 0
Untimed p s = (s ≢ "") × (p.parse_float s ≡ some nan)

codec_nonempty : (s : String) → video_codec_allowed s ≡ true → str_eq s "" ≡ false
codec_nonempty s h = elim (Bool-cases (str_eq s "")) [
  | inr e ↦ e
  | inl e ↦ absurd (false≢true (rw ((eq_iff s "").0 e) at h))
]

module _ (p : Platform) where
  small :
      (z : ℤ)
      → (if int_above z max_bit_rate then some high_bit_rate else none) ≡ none
      → SmallBitRate z
  small (pos n) h = ground arith
  small (negsuc n) h = tt

  fine_bit_rate : (s : String) → check_bit_rate p s ≡ none → FineBitRate p s
  unfolding check_bit_rate
  fine_bit_rate s h = elim (Bool-cases (str_eq s "")) [
    | inl e ↦ inl ((eq_iff s "").0 e)
    | inr e ↦ elim (Option-cases (p.parse_int s)) [
      | inl n ↦ absurd (ground arith)
      | inr (z, k) ↦ inr (z, k, small z (ground arith))
    ]
  ]

  bit_rate_fine : (s : String) → FineBitRate p s → check_bit_rate p s ≡ none
  unfolding check_bit_rate
  bit_rate_fine s h = ground (arith, eq_iff s "")

  check_video-Fine : (s : FfprobeStream) → check_video p s ≡ none → FineVideo p s
  unfolding check_video
  check_video-Fine s h = record {
    codec = ground arith;
    width = ground arith;
    height = ground arith;
    bit_rate = fine_bit_rate s.bit_rate (ground arith);
  }

  Fine-check_video : (s : FfprobeStream) → FineVideo p s → check_video p s ≡ none
  unfolding check_video
  Fine-check_video s h =
      rw (codec_nonempty s.codec_name h.codec, h.codec)
        (ground (arith, h.width, h.height, bit_rate_fine s.bit_rate h.bit_rate))

  count_video-eq :
      (ss : List FfprobeStream) (n m : ℕ)
      → count_video p ss n ≡ counted m
      → All (λ s. is_video s ≡ true → FineVideo p s) ss × (m ≡ n + count_if is_video ss)
  unfolding count_video
  count_video-eq [] n m h = (tt, ground arith)
  count_video-eq (s ∷ ss) n m h = elim (Bool-cases (is_video s)) [
    | inr e ↦
        let (fine, count) = count_video-eq ss n m (rw e at h) in (((λ v. cc), fine), ground arith)
    | inl e ↦ elim (Option-cases (check_video p s)) [
      | inr (x, k) ↦ absurd (ground arith)
      | inl k ↦
          let (fine, count) = count_video-eq ss (suc n) m (ground arith) in
          (((λ v. check_video-Fine s k), fine), ground arith)
    ]
  ]

  count_video-counted :
      (ss : List FfprobeStream) (n : ℕ)
      → All (λ s. is_video s ≡ true → FineVideo p s) ss
      → count_video p ss n ≡ counted (n + count_if is_video ss)
  unfolding count_video
  count_video-counted [] n h = ground arith
  count_video-counted (s ∷ ss) n (f, h) = elim (Bool-cases (is_video s)) [
    | inr e ↦ rw e (count_video-counted ss n h)
    | inl e ↦
        rw e (rw (Fine-check_video s (f e)) (ground (arith, count_video-counted ss (suc n) h)))
  ]

  audio-Fine :
      (ss : List FfprobeStream)
      → check_audio ss ≡ none
      → All (λ s. is_audio s ≡ true → audio_codec_allowed s.codec_name ≡ true) ss
  unfolding check_audio
  audio-Fine [] h = tt
  audio-Fine (s ∷ ss) h = ((λ e. ground arith), audio-Fine ss (ground arith))

  Fine-audio :
      (ss : List FfprobeStream)
      → All (λ s. is_audio s ≡ true → audio_codec_allowed s.codec_name ≡ true) ss
      → check_audio ss ≡ none
  unfolding check_audio
  Fine-audio [] h = refl
  Fine-audio (s ∷ ss) (f, h) = ground (arith, Fine-audio ss h)

  duration-Fine : (s : String) → check_duration p s ≡ none → Timed p s ⊎ Untimed p s
  unfolding check_duration
  duration-Fine s h =
      let filled : s ≢ "" = λ e. ground (arith, eq_iff s "") in
      elim (Option-cases (p.parse_float s)) [
        | inl n ↦ absurd (ground arith)
        | inr (nan, k) ↦ inr (filled, k)
        | inr (negative, k) ↦ absurd (ground arith)
        | inr (micros u, k) ↦ inl (filled, (u, k, ground arith, ground arith))
        | inr (infinite, k) ↦ absurd (ground arith)
      ]

  Fine-duration : (s : String) → Timed p s ⊎ Untimed p s → check_duration p s ≡ none
  unfolding check_duration
  Fine-duration s (inl (filled, (u, k, low, high))) = ground (arith, eq_iff s "", filled)
  Fine-duration s (inr (filled, k)) = ground (arith, eq_iff s "", filled)

  Counted-cases :
      (c : Counted) → ((e : InvalidMedia) × (c ≡ failed e)) ⊎ ((n : ℕ) × (c ≡ counted n))
  Counted-cases (failed e) = inl (e, refl)
  Counted-cases (counted n) = inr (n, refl)

  -- What ValidateMedia lets pass.
  abbrev pub Passes : FfprobeResult → ℕ → Type 0
  Passes r size = Screened p r size × (Timed p r.format.duration ⊎ Untimed p r.format.duration)

  validate_media-Passes :
      (r : FfprobeResult) (size : ℕ) → validate_media p r size ≡ none → Passes r size
  unfolding validate_media
  validate_media-Passes r size h = elim (Counted-cases (count_video p r.streams 0)) [
    | inl (e, k) ↦ absurd (ground arith)
    | inr (n, k) ↦
        let (fine, count) = count_video-eq r.streams 0 n k in
        (
          record {
            size_low = ground arith;
            size_high = ground arith;
            has_video = ground arith;
            videos = fine;
            audios = audio-Fine r.streams (ground arith);
          },
          duration-Fine r.format.duration (ground arith),
        )
  ]

  Passes-validate_media :
      (r : FfprobeResult) (size : ℕ) → Passes r size → validate_media p r size ≡ none
  unfolding validate_media
  Passes-validate_media r size (a, timed) =
      rw (count_video-counted r.streams 0 a.videos, Fine-audio r.streams a.audios)
        (ground
          (arith, Fine-duration r.format.duration timed, a.size_low, a.size_high, a.has_video))

  -- ValidateMedia returns nil exactly when the size, the streams, their codecs, dimensions and bit rates
  -- are within the limits, and the duration is a number from 1 to 180 seconds or, against the documented
  -- limit, a text that parses as NaN.
  pub validate_media_iff :
      (r : FfprobeResult) (size : ℕ) → (validate_media p r size ≡ none) ↔ Passes r size
  validate_media_iff r size = (validate_media-Passes r size, Passes-validate_media r size)
