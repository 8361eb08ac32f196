-- ===== src/Gateway/Tokens/Cursor.antt =====
-- EncodeCursor and DecodeCursor of shared/cursor.go.

use text.Mathlib.TextLemmas.{
  nil-append, cons-append, append-ne-nil_of_right_ne-nil, append-eq-nil_iff,
}
use mokibox.Shared.{
  ℕ, ◌≡◌, ◌≢◌, refl, ap, ◌∙◌, String, false≢true, ◌||◌, Option, none, some, ◌==◌, if◌then◌else◌,
  str_eq, eq_iff, inl, inr, Bool-cases,
}
use mokibox.Shared.Platform.{Platform, ◌<>◌}
use mokibox.Gateway.Tokens.{Codec, IsCodec}
use mokibox.Gateway.Tokens.Split.{split_first, split_first-head, split_first-append, str_eq-filled}

bar : (s : String) → "|" <> s ≡ String.◌∷◌ "|" s
bar s = cons-append "|" "" s ∙ ap (λ (t : String). String.◌∷◌ "|" t) (nil-append s)

bar_first : (s : String) → split_first b'|' ("|" <> s) ≡ some ("", s)
bar_first s = ap (split_first b'|') (bar s) ∙ split_first-head b'|' "|" s refl

bar_filled : (s : String) → "|" <> s ≢ ""
bar_filled s h =
    absurd (false≢true ((eq_iff "|" "").1 ((append-eq-nil_iff {p = "|"} {q = s}).0 h).0))

module _ (p : Platform) (k : Codec) where
  -- EncodeCursor
  unfoldable pub encode_cursor : ℕ → ℕ → String
  encode_cursor created_at id =
      if created_at == 0 || id == 0
      then ""
      else k.base64_encode (k.format_time created_at <> ("|" <> p.uuid_string id))

  -- DecodeCursor; none is ErrInvalidCursor.
  unfoldable pub decode_cursor : String → Option (ℕ × ℕ)
  unfolding split_first
  decode_cursor cursor = if str_eq cursor "" then some (0, 0) else elim (k.base64_decode cursor) [
    | none ↦ none
    | some raw ↦ elim (split_first b'|' raw) [
      | none ↦ none
      | some parts ↦ elim (k.parse_time parts.0) [
        | none ↦ none
        | some ts ↦ elim (p.parse_uuid parts.1) [ none ↦ none | some id ↦ some (ts, id) ]
      ]
    ]
  ]

  -- Given what Go documents of its encoders, DecodeCursor gives back the time and the id that
  -- EncodeCursor was given, or the zero values of the first page if one of them is zero.
  pub decode_cursor-encode_cursor :
      IsCodec p k
      → (created_at id : ℕ)
      → decode_cursor (encode_cursor created_at id)
        ≡ some (if created_at == 0 || id == 0 then (0, 0) else (created_at, id))
  unfolding decode_cursor encode_cursor
  decode_cursor-encode_cursor c created_at id = elim (Bool-cases (created_at == 0 || id == 0)) [
    | inl zero ↦ rw zero refl
    | inr set ↦
        let raw = k.format_time created_at <> ("|" <> p.uuid_string id) in
        let split =
          split_first-append b'|' (k.format_time created_at) ("|" <> p.uuid_string id)
            (p.uuid_string id) (c.times_barless created_at) (bar_first (p.uuid_string id)) in
        let filled = c.base64_filled raw (
          append-ne-nil_of_right_ne-nil (k.format_time created_at)
            (bar_filled (p.uuid_string id))) in
        rw set (
          rw (str_eq-filled _ filled)
            (rw (c.base64 raw) (rw split (rw (c.times created_at) (rw (c.uuids id) refl)))))
  ]
