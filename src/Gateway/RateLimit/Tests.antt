-- ===== src/Gateway/RateLimit/Tests.antt =====
-- The limiter of the authenticated routes, in seconds: one token a second, sixty at most, and entries
-- that are forgotten after ten minutes.
use mokibox.Shared.{ℕ, ◌+◌, ◌-◌, ◌≡◌, none, some, List, [], ◌∷◌, arith, ltb, if◌then◌else◌}
use mokibox.Gateway.RateLimit.{Bucket, Event, request, tick, serve_events, ideal_events, Refills}
use mokibox.Gateway.RateLimit.Refines.{serve_events-ideal}

-- The tokens at the last use, and its time.
abbrev filled : ℕ → ℕ × ℕ → ℕ
filled now l = if ltb 60 (l.0 + (now - l.1)) then 60 else l.0 + (now - l.1)

abbrev token_bucket : Bucket (ℕ × ℕ)
token_bucket = record {
  fresh = (60, 0);
  allow_n = λ now l. ((filled now l - 1, now), ltb 0 (filled now l));
}

token_bucket-Refills : Refills token_bucket 600
token_bucket-Refills seen t l late = ground arith

abbrev events : List Event
events =
    request 1 (some "a")
    ∷ request 1 none
    ∷ tick 700
    ∷ request 701 (some "a")
    ∷ request 702 (some "b")
    ∷ []

serve_events-ideal_example :
    serve_events token_bucket 600 events (λ k. none)
    ≡ ideal_events token_bucket events (λ k. (60, 0))
serve_events-ideal_example =
    serve_events-ideal token_bucket 600 token_bucket-Refills events
      (omega arith, (omega arith, (omega arith, (omega arith, (omega arith, tt)))))
