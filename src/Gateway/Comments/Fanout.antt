-- ===== src/Gateway/Comments/Fanout.antt =====
-- The recipients of a reply's notifications (ReplyComment of api-gateway/handlers/social.go).
use mokibox.Shared.{ℕ, ◌≡◌, Bool, true, false, ◌||◌, arith, count_if, ◌==◌, ==_iff, if◌then◌else◌}
use mokibox.Gateway.Comments.Handlers.Request.{recipients}

-- In whichever order the map of the recipients is walked, a reply notifies the video's owner and the
-- parent's author once each, once if they are the same user, never the replying user, and no one else.
pub recipients-once :
    (owner_last : Bool) (user owner author x : ℕ)
    → count_if (λ u. u == x) (recipients owner_last user owner author)
      ≡ (if x == user then 0 else if x == owner || x == author then 1 else 0)
unfolding recipients
recipients-once true user owner author x =
    ground (arith, ==_iff owner user, ==_iff author user, ==_iff owner author, ==_iff x user)
recipients-once false user owner author x =
    ground (arith, ==_iff owner user, ==_iff author user, ==_iff owner author, ==_iff x user)
