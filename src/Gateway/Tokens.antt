-- ===== src/Gateway/Tokens.antt =====
-- The opaque strings that the gateway hands out: media tokens (shared/mediatoken.go) and page cursors
-- (shared/cursor.go). base64, hex, HMAC-SHA256, strconv and the layout of times are Go's: a parameter.
-- A time is a number of nanoseconds since Go's zero time, its Unix seconds an integer, and a uuid a
-- number, 0 being uuid.Nil.
pub mod Split
pub mod Cursor
pub mod Media
pub mod Tally
mod Tests
use mokibox.Shared.{ℕ, ◌≡◌, ◌≢◌, String, Option, some, false}
use mokibox.Shared.Platform.{Platform, ℤ}
use mokibox.Gateway.Tokens.Split.{has_code}

pub record Codec : Type 0 where
  -- base64.RawURLEncoding and encoding/hex
  pub base64_encode : String → String
  pub base64_decode : String → Option String
  pub hex_encode : String → String
  pub hex_decode : String → Option String
  -- hmac.New(sha256.New, secret), with one Write
  pub hmac : String → String → String
  -- strconv.FormatInt(n, 10)
  pub format_int : ℤ → String
  -- t.UTC().Format(time.RFC3339Nano), and time.Parse of that layout
  pub format_time : ℕ → String
  pub parse_time : String → Option ℕ
  -- t.Unix()
  pub unix : ℕ → ℤ

-- What the documentation of those packages says of the functions together: a decoder undoes its
-- encoder, an encoded text is empty only if the text is, and the layouts of numbers and times hold
-- neither separator.
pub record IsCodec (p : Platform) (k : Codec) : Type 0 where
  pub base64 : (s : String) → k.base64_decode (k.base64_encode s) ≡ some s
  pub base64_filled : (s : String) → s ≢ "" → k.base64_encode s ≢ ""
  pub hex : (s : String) → k.hex_decode (k.hex_encode s) ≡ some s
  pub ints : (n : ℤ) → p.parse_int (k.format_int n) ≡ some n
  pub ints_dotless : (n : ℤ) → has_code b'.' (k.format_int n) ≡ false
  pub times : (t : ℕ) → k.parse_time (k.format_time t) ≡ some t
  pub times_barless : (t : ℕ) → has_code b'|' (k.format_time t) ≡ false
  pub uuids : (u : ℕ) → p.parse_uuid (p.uuid_string u) ≡ some u
