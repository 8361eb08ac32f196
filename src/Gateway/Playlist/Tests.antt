-- ===== src/Gateway/Playlist/Tests.antt =====
-- Playlists at work.
use mokibox.Shared.{String, ◌≡◌, refl, true, false, some, List, [], ◌∷◌, map}
use mokibox.Shared.Platform.{pos}
use mokibox.Store.Row.{ready}
use mokibox.Store.Table.{Table, find}
use mokibox.Store.Tests.{sample}
use mokibox.Store.Statements.{get_video_by_id}
use mokibox.Gateway.Upload.{done}
use mokibox.Gateway.Tests.{viewing}
use mokibox.Gateway.Tokens.Media.{sign_media_token, new_media_token}
use mokibox.Gateway.Tokens.Tally.{tally_host, tally_codec, tally_codec-IsCodec}
use mokibox.Gateway.Playlist.{
  Playing, body, rewrite_master_line, rewrite_master_playlist, get_playlist,
}
use mokibox.Gateway.Playlist.Rewritten.{Links, rewrite_master_playlist-Links}
use mokibox.Gateway.Playlist.Served.{Played, get_playlist-Played}

-- User 8, who follows the owner, plays row 1.
abbrev playing : Playing
playing = record {
  configured = true;
  api_base_url = "https://api";
  media_token_secret = "key";
  ttl = pos 6;
  now = 3;
  id_param = "I";
  viewer = some 8;
  token = "";
  variant = "";
  load_fails = false;
  viewing = viewing;
  get_object = λ key. body "#EXTM3U";
  presign_get = λ key. some key;
  scan_lines = λ text. ("#EXTM3U" ∷ "hls/7/1/480p/index.m3u8" ∷ [], false);
  trim_suffix_slash = λ s. s;
}

abbrev streamed : Table
streamed = record (sample 1 ready) { hls_prefix = some "hls/7/1" } ∷ []

abbrev signed : List String
signed =
    map
      (rewrite_master_line tally_host tally_codec playing 1
        (sign_media_token tally_host tally_codec "I" "key" 9))
      ("#EXTM3U" ∷ "hls/7/1/480p/index.m3u8" ∷ [])

rewritten : rewrite_master_playlist tally_host tally_codec playing "#EXTM3U" 1 ≡ some signed
unfolding rewrite_master_playlist new_media_token
rewritten = refl

rewrite_master_playlist-Links_example : Links tally_host tally_codec playing 5 1 "#EXTM3U" signed
rewrite_master_playlist-Links_example =
    rewrite_master_playlist-Links tally_host tally_codec playing tally_codec-IsCodec 6 5 1 "#EXTM3U"
      signed refl refl rewritten

played : get_playlist tally_host tally_codec playing streamed ≡ done signed
unfolding get_playlist get_video_by_id find
played = refl

get_playlist-Played_example : Played tally_host tally_codec playing streamed signed
get_playlist-Played_example =
    get_playlist-Played tally_host tally_codec playing streamed signed played
