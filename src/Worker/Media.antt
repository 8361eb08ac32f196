-- ===== src/Worker/Media.antt =====
-- transcoder-worker/ffprobe.go: the parsed output of ffprobe, and ValidateMedia, the last check of
-- an upload before it is transcoded. The error that ValidateMedia returns always wraps
-- ErrInvalidMedia; its message is kept as a constructor.
pub mod Accepts
use mokibox.Shared.{
  ℕ, suc, ◌*◌, String, Bool, true, false, ◌||◌, Option, none, some, List, [], ◌∷◌, ltb, ◌==◌,
  if◌then◌else◌, str_eq,
}
use mokibox.Shared.Platform.{ℤ, int_below, int_above, float_below, float_above, Float64, Platform}

pub record FfprobeStream : Type 0 where
  pub codec_name : String
  pub codec_type : String
  pub width : ℤ
  pub height : ℤ
  pub bit_rate : String

-- The fields of ffprobeFormat that the worker reads.
pub record FfprobeFormat : Type 0 where
  pub duration : String

pub record FfprobeResult : Type 0 where
  pub streams : List FfprobeStream
  pub format : FfprobeFormat

pub data InvalidMedia : Type 0 where
  bad_size empty_codec bad_codec bad_width bad_height bad_bit_rate high_bit_rate : InvalidMedia
  no_video bad_audio no_duration bad_duration duration_range : InvalidMedia

abbrev pub video_codec_allowed : String → Bool
video_codec_allowed s = str_eq s "h264" || (str_eq s "hevc" || (str_eq s "vp9" || str_eq s "av1"))

abbrev pub audio_codec_allowed : String → Bool
audio_codec_allowed s = str_eq s "aac" || (str_eq s "opus" || str_eq s "mp3")

abbrev pub min_duration : ℕ
min_duration = 1

abbrev pub max_duration : ℕ
max_duration = 180

abbrev pub min_dimension : ℕ
min_dimension = 16

abbrev pub max_dimension : ℕ
max_dimension = 4096

abbrev pub max_bit_rate : ℕ
max_bit_rate = 25000000

abbrev pub min_upload_bytes : ℕ
min_upload_bytes = 1024

abbrev pub max_upload_bytes : ℕ
max_upload_bytes = 200 * 1024 * 1024

abbrev pub outside_dimension : ℤ → Bool
outside_dimension z = int_below z min_dimension || int_above z max_dimension

module _ (p : Platform) where
  -- The bit_rate part of the loop's body.
  unfoldable pub check_bit_rate : String → Option InvalidMedia
  check_bit_rate s = if str_eq s "" then none else elim (p.parse_int s) [
    | none ↦ some bad_bit_rate
    | some br ↦ if int_above br max_bit_rate then some high_bit_rate else none
  ]

  -- The body of the loop for one video stream.
  unfoldable pub check_video : FfprobeStream → Option InvalidMedia
  check_video s =
      if str_eq s.codec_name ""
      then some empty_codec
      else if video_codec_allowed s.codec_name
      then (if outside_dimension s.width
          then some bad_width
          else if outside_dimension s.height
          then some bad_height
          else check_bit_rate s.bit_rate)
      else some bad_codec

-- The first loop: the first error of a video stream, or the number of video streams.
pub data Counted : Type 0 where
  failed : InvalidMedia → Counted
  counted : ℕ → Counted

unfoldable pub count_video : Platform → List FfprobeStream → ℕ → Counted
count_video p [] n = counted n
count_video p (s ∷ rest) n =
    let later = count_video p rest (suc n) in
    let skipped = count_video p rest n in
    if str_eq s.codec_type "video"
    then elim (check_video p s) [ none ↦ later | some e ↦ failed e ]
    else skipped

-- The second loop.
unfoldable pub check_audio : List FfprobeStream → Option InvalidMedia
check_audio [] = none
check_audio (s ∷ rest) =
    let later = check_audio rest in
    if str_eq s.codec_type "audio"
    then (if audio_codec_allowed s.codec_name then later else some bad_audio)
    else later

unfoldable pub check_duration : Platform → String → Option InvalidMedia
check_duration p s = if str_eq s "" then some no_duration else elim (p.parse_float s) [
  | none ↦ some bad_duration
  | some dur ↦
      if float_below dur min_duration || float_above dur max_duration
      then some duration_range
      else none
]

abbrev pub after_audio : Option InvalidMedia → Option InvalidMedia → Option InvalidMedia
after_audio none next = next
after_audio (some e) next = some e

abbrev pub after_video : Counted → Option InvalidMedia → Option InvalidMedia
after_video (failed e) next = some e
after_video (counted n) next = if n == 0 then some no_video else next

-- ValidateMedia; `none` is the nil error.
unfoldable pub validate_media : Platform → FfprobeResult → ℕ → Option InvalidMedia
validate_media p r size =
    if ltb size min_upload_bytes || ltb max_upload_bytes size
    then some bad_size
    else after_video (count_video p r.streams 0)
        (after_audio (check_audio r.streams) (check_duration p r.format.duration))
