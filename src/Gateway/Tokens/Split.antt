-- ===== src/Gateway/Tokens/Split.antt =====
-- strings.SplitN(s, sep, 2) and strings.Split(s, sep) for a separator of one byte, as
-- shared/mediatoken.go, shared/cursor.go and api-gateway/handlers/video_detail.go use them.
use Prim.Native.Char.{Char, code}
use text.Mathlib.TextLemmas.{nil-append, cons-append}
use mokibox.Shared.{
  ℕ, ◌≡◌, refl, String, Bool, true, false, ◌||◌, Option, none, some, List, [], ◌∷◌, arith, ◌==◌,
  ◌≢◌, inl, inr, Bool-cases, if◌then◌else◌, str_eq, eq_iff,
}
use mokibox.Shared.Platform.{◌<>◌}

abbrev pub has_code : ℕ → String → Bool
has_code k String.[] = false
has_code k (String.◌∷◌ c s) = code c == k || has_code k s

-- The text before the first separator and the text after it; none if there is no separator.
unfoldable pub split_first : ℕ → String → Option (String × String)
split_first k String.[] = none
split_first k (String.◌∷◌ c s) =
    let rest = split_first k s in
    if code c == k
    then some ("", s)
    else elim rest [ none ↦ none | some q ↦ some (String.◌∷◌ c q.0, q.1) ]

-- strings.Split for a separator of one byte: the texts between the separators.
abbrev put_front : Char → List String → List String
put_front c [] = (String.◌∷◌ c "") ∷ []
put_front c (w ∷ ws) = String.◌∷◌ c w ∷ ws

unfoldable pub split_all : ℕ → String → List String
split_all k String.[] = "" ∷ []
split_all k (String.◌∷◌ c s) =
    let rest = split_all k s in if code c == k then "" ∷ rest else put_front c rest

-- A separator in front of a text.
pub split_first-head :
    (k : ℕ) (c : Char) (s : String)
    → (code c == k) ≡ true
    → split_first k (String.◌∷◌ c s) ≡ some ("", s)
unfolding split_first
split_first-head k c s e = rw e refl

-- A text that is not empty.
pub str_eq-filled : (s : String) → s ≢ "" → str_eq s "" ≡ false
str_eq-filled s h = elim (Bool-cases (str_eq s "")) [
  | inl e ↦ absurd (h ((eq_iff s "").0 e))
  | inr e ↦ e
]

pub split_first-append :
    (k : ℕ) (a m b : String)
    → has_code k a ≡ false
    → split_first k m ≡ some ("", b)
    → split_first k (a <> m) ≡ some (a, b)
unfolding split_first
split_first-append k String.[] m b e h = rw (nil-append m) h
split_first-append k (String.◌∷◌ c a) m b e h =
    rw (cons-append c a m) (ground (arith, split_first-append k a m b))
