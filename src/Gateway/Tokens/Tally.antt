-- ===== src/Gateway/Tokens/Tally.antt =====
-- One concrete instance of Go's encoders, for the tests: numbers are written as so many strokes, and
-- the encoders of texts change nothing.
use Prim.Native.Char.{code}
use text.Mathlib.Text.{starts_with}
use mokibox.Shared.{
  ℕ, zero, suc, ◌/◌, ◌≡◌, refl, String, false, Option, none, some, ◌==◌, if◌then◌else◌,
}
use mokibox.Shared.Platform.{Platform, ℤ, pos, negsuc, ◌<>◌}
use mokibox.Gateway.Tokens.{Codec, IsCodec}
use mokibox.Gateway.Tokens.Split.{has_code}
use mokibox.Worker.Tests.{host}

abbrev tally : ℕ → String
tally zero = ""
tally (suc n) = String.◌∷◌ "I" (tally n)

abbrev untally : String → Option ℕ
untally String.[] = some 0
untally (String.◌∷◌ c s) = elim (untally s) [ none ↦ none | some n ↦ some (suc n) ]

untally-tally : (n : ℕ) → untally (tally n) ≡ some n
untally-tally zero = refl
untally-tally (suc n) = rw (untally-tally n) refl

has_code-tally : (k n : ℕ) → (code "I" == k) ≡ false → has_code k (tally n) ≡ false
has_code-tally k zero e = refl
has_code-tally k (suc n) e = rw e (has_code-tally k n e)

abbrev show_int : ℤ → String
show_int (pos n) = tally n
show_int (negsuc n) = String.◌∷◌ "-" (tally n)

abbrev read_int : String → Option ℤ
read_int String.[] = some (pos 0)
read_int (String.◌∷◌ c s) = elim (untally s) [
  | none ↦ none
  | some n ↦ if code c == b'-' then some (negsuc n) else some (pos (suc n))
]

read_int-show_int : (z : ℤ) → read_int (show_int z) ≡ some z
read_int-show_int (pos zero) = refl
read_int-show_int (pos (suc n)) = rw (untally-tally n, read_int) refl
read_int-show_int (negsuc n) = rw (untally-tally n, read_int) refl

dotless : (z : ℤ) → has_code b'.' (show_int z) ≡ false
dotless (pos n) = has_code-tally b'.' n refl
dotless (negsuc n) = has_code-tally b'.' n refl

abbrev pub tally_host : Platform
tally_host = record host {
  parse_uuid = untally;
  uuid_string = tally;
  parse_int = read_int;
  has_prefix = starts_with;
}

abbrev pub tally_codec : Codec
tally_codec = record {
  base64_encode = λ s. s;
  base64_decode = λ s. some s;
  hex_encode = λ s. s;
  hex_decode = λ s. some s;
  hmac = λ secret s. secret <> s;
  format_int = show_int;
  format_time = tally;
  parse_time = untally;
  unix = λ t. pos (t / 1000000000);
}

pub tally_codec-IsCodec : IsCodec tally_host tally_codec
tally_codec-IsCodec = record {
  base64 = λ s. refl;
  base64_filled = λ s h. h;
  hex = λ s. refl;
  ints = read_int-show_int;
  ints_dotless = dotless;
  times = untally-tally;
  times_barless = λ t. has_code-tally b'|' t refl;
  uuids = untally-tally;
}
