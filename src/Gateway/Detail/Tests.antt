-- ===== src/Gateway/Detail/Tests.antt =====
-- A video's detail at work.
use mokibox.Shared.{◌≡◌, refl, ap, true, some, []}
use mokibox.Shared.Platform.{pos}
use mokibox.Store.Replies.{row-injective}
use mokibox.Gateway.Tests.{viewing, shown}
use mokibox.Gateway.Visibility.{Owner, assert_video_owner_or_visible}
use mokibox.Gateway.Tokens.Tally.{tally_host, tally_codec}
use mokibox.Gateway.Detail.{Detailing, get_video_detail}
use mokibox.Gateway.Detail.Shown.{data_of, detail_of, get_video_detail-assert}

-- User 8, who follows the owner, opens row 1.
abbrev detailing : Detailing
detailing = record {
  configured = true;
  api_base_url = "https://api";
  media_token_secret = "key";
  ttl = pos 6;
  now = 3;
  id_param = "I";
  viewer = some 8;
  viewing = viewing;
  user_is_private = λ user. true;
  likes = [];
  presign_get = λ key. some key;
}

get_video_detail-assert_example :
    data_of (get_video_detail tally_host tally_codec detailing shown)
    ≡ detail_of tally_host tally_codec detailing (assert_video_owner_or_visible viewing 8 1 shown)
get_video_detail-assert_example =
    get_video_detail-assert tally_host tally_codec detailing 8 1 shown refl refl refl
      (λ user o e. ap (λ (x : Owner). x.is_private) (row-injective _ o e))
