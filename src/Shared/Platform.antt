-- ===== src/Shared/Platform.antt =====
-- What the program takes from Go's standard library and from github.com/google/uuid: functions that
-- the repository calls and does not implement. They are a parameter of every definition that uses
-- them. An int64 is an integer, and a float64 one of the values below.
use Prim.Native.Nat.{ℕ, ◌*◌}
use Prim.Native.String
use Prim.Native.String.{String}
use mathlib.Core.Bool.{Bool, true, false}
use mathlib.Core.Option.{Option}
use mokibox.Shared.Tests.{ltb}

-- `negsuc n` is -(n + 1).
pub data ℤ : Type 0 where
  pos : ℕ → ℤ
  negsuc : ℕ → ℤ

-- z < n and z > n.
abbrev pub int_below : ℤ → ℕ → Bool
int_below (pos m) n = ltb m n
int_below (negsuc m) n = true

abbrev pub int_above : ℤ → ℕ → Bool
int_above (pos m) n = ltb n m
int_above (negsuc m) n = false

-- A float64 as the program sees it: `micros u` is the number u / 1000000, which holds what ffprobe
-- prints of a duration (six decimals), and `negative` any number below zero, -Inf among them.
pub data Float64 : Type 0 where
  nan : Float64
  negative : Float64
  micros : ℕ → Float64
  infinite : Float64

-- f < n, f > n and f <= 0. Comparisons with NaN are false.
abbrev pub float_below : Float64 → ℕ → Bool
float_below nan n = false
float_below negative n = true
float_below (micros u) n = ltb u (n * 1000000)
float_below infinite n = false

abbrev pub float_above : Float64 → ℕ → Bool
float_above nan n = false
float_above negative n = false
float_above (micros u) n = ltb (n * 1000000) u
float_above infinite n = true

abbrev pub float_le_zero : Float64 → Bool
float_le_zero nan = false
float_le_zero negative = true
float_le_zero (micros u) = ltb u 1
float_le_zero infinite = false

pub record Platform : Type 0 where
  -- uuid.Parse and uuid.UUID.String
  pub parse_uuid : String → Option ℕ
  pub uuid_string : ℕ → String
  -- strconv.ParseInt(s, 10, 64) and strconv.ParseFloat(s, 64)
  pub parse_int : String → Option ℤ
  pub parse_float : String → Option Float64
  -- int32(f) of a float that no int32 holds: the Go specification leaves the value open.
  pub int32_outside : Float64 → ℕ
  -- strings.TrimSpace, strings.HasPrefix, strings.HasSuffix, and strings.Trim(s, "/")
  pub trim_space : String → String
  pub has_prefix : String → String → Bool
  pub has_suffix : String → String → Bool
  pub trim_slashes : String → String

-- s + t on strings.
infixr 66 ◌<>◌
abbrev pub ◌<>◌ : String → String → String
s <> t = String.◌++◌ s t
