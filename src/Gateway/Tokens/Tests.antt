-- ===== src/Gateway/Tokens/Tests.antt =====
-- Cursors and media tokens at work.
use mokibox.Shared.{◌≡◌, refl, true, false, some, ◌||◌, ◌==◌, if◌then◌else◌, str_eq}
use mokibox.Shared.Platform.{pos}
use mokibox.Gateway.Tokens.Cursor.{encode_cursor, decode_cursor, decode_cursor-encode_cursor}
use mokibox.Gateway.Tokens.Media.{
  int_gt, payload, sign_media_token, verify_media_token, new_media_token,
  verify_media_token-sign_media_token, new_media_token-accepted,
}
use mokibox.Gateway.Tokens.Tally.{tally_host, tally_codec, tally_codec-IsCodec}

decode_cursor-encode_cursor_example :
    decode_cursor tally_host tally_codec (encode_cursor tally_host tally_codec 4 7)
    ≡ some (if 4 == 0 || 7 == 0 then (0, 0) else (4, 7))
decode_cursor-encode_cursor_example =
    decode_cursor-encode_cursor tally_host tally_codec tally_codec-IsCodec 4 7

verify_media_token-sign_media_token_example :
    verify_media_token tally_host tally_codec 3
      (sign_media_token tally_host tally_codec "v" "key" 9)
      "w"
      "key"
    ≡ (if int_gt (tally_codec.unix 3) (tally_codec.unix 9)
        then false
        else str_eq
            (tally_codec.hmac "key" (payload "w" (tally_codec.format_int (tally_codec.unix 9))))
            (tally_codec.hmac "key" (payload "v" (tally_codec.format_int (tally_codec.unix 9)))))
verify_media_token-sign_media_token_example =
    verify_media_token-sign_media_token tally_host tally_codec tally_codec-IsCodec 3 9 "v" "key" "w"
      "key"

new_token :
    new_media_token tally_host tally_codec 3 "v" "key" (pos 6)
    ≡ some (sign_media_token tally_host tally_codec "v" "key" 9, 9)
unfolding new_media_token
new_token = refl

new_media_token-accepted_example :
    verify_media_token tally_host tally_codec 5
      (sign_media_token tally_host tally_codec "v" "key" 9)
      "v"
      "key"
    ≡ true
new_media_token-accepted_example =
    new_media_token-accepted tally_host tally_codec tally_codec-IsCodec 3 5 9 "v" "key"
      (sign_media_token tally_host tally_codec "v" "key" 9) (pos 6) new_token refl
