-- ===== src/Gateway/RateLimit.antt =====
-- The rate limiters of api-gateway/middleware/ratelimit.go. The token bucket is that of
-- golang.org/x/time/rate: a parameter. A sync.Map is a function from keys to entries; the calls and
-- the janitor's sweeps are one sequence.
pub mod Refines
mod Tests
use mokibox.Shared.{
  ℕ, ◌+◌, ◌-◌, ◌≤◌, ◌<◌, ◌≡◌, String, Bool, true, false, Option, none, some, List, [], ◌∷◌, ltb,
  ◌==◌, if◌then◌else◌, str_eq,
}
use mokibox.Shared.Platform.{Platform, ℤ, pos, negsuc, Float64, float_le_zero}
use mokibox.Gateway.Errors.{Error, wrapped, err_unauthorized, err_rate_limited}

-- rate.NewLimiter(s.rate, s.burst), and AllowN(now, 1): the limiter afterwards, and the answer.
pub record Bucket (L : Type 0) : Type 0 where
  pub fresh : L
  pub allow_n : ℕ → L → L × Bool

-- rateLimiterEntry
pub record RateLimiterEntry (L : Type 0) : Type 0 where
  pub limiter : L
  pub last_seen : ℕ

-- The map of a rateLimiterStore.
abbrev pub Entries : Type 0 → Type 0
Entries L = String → Option (RateLimiterEntry L)

pub record RateLimitConfig : Type 0 where
  pub rate : Float64
  pub burst : ℤ
  pub ttl : ℤ
  pub sweep_interval : ℤ

pub data ConfigError : Type 0 where
  invalid_rate_limit invalid_burst invalid_ttl invalid_sweep : ConfigError

-- n <= 0
abbrev pub int_le_zero : ℤ → Bool
int_le_zero (pos n) = n == 0
int_le_zero (negsuc n) = true

-- RateLimitConfig.validate; none is nil.
unfoldable pub validate : RateLimitConfig → Option ConfigError
validate c =
    if float_le_zero c.rate
    then some invalid_rate_limit
    else if int_le_zero c.burst
    then some invalid_burst
    else if int_le_zero c.ttl
    then some invalid_ttl
    else if int_le_zero c.sweep_interval
    then some invalid_sweep
    else none

module _ {L : Type 0} (b : Bucket L) where
  abbrev pub stored : String → RateLimiterEntry L → Entries L → Entries L
  stored key e m = λ k. if str_eq key k then some e else m k

  -- The limiter of an entry, or a new one.
  abbrev pub limiter_of : Option (RateLimiterEntry L) → L
  limiter_of none = b.fresh
  limiter_of (some e) = e.limiter

  -- allow
  unfoldable pub allow : ℕ → String → Entries L → Entries L × Bool
  allow now identity m =
      let (limiter', allowed) = b.allow_n now (limiter_of (m identity)) in
      (stored identity (record { limiter = limiter'; last_seen = now }) m, allowed)

  -- sweep
  unfoldable pub sweep : ℕ → ℕ → Entries L → Entries L
  sweep ttl now m = λ k. elim (m k) [
    | none ↦ none
    | some e ↦ if ltb ttl (now - e.last_seen) then none else some e
  ]

  -- What both middlewares do with an identity; none is a call of the next handler.
  unfoldable pub limit : ℕ → Option String → Entries L → Entries L × Option Error
  unfolding allow
  limit now none m = (m, some (wrapped err_unauthorized))
  limit now (some identity) m =
      let (m', allowed) = allow now identity m in
      (m', if allowed then none else some (wrapped err_rate_limited))

  -- The identity of NewRateLimitAuth, for which uuid.Nil is no user, and of NewRateLimitWebhook.
  abbrev pub auth_identity : Platform → Option ℕ → Option String
  auth_identity p none = none
  auth_identity p (some user) = if user == 0 then none else some (p.uuid_string user)

  abbrev pub webhook_identity : String → Option String
  webhook_identity ip = if str_eq ip "" then none else some ip

  -- NewRateLimitAuth and NewRateLimitWebhook, at one request.
  abbrev pub rate_limit_auth : Platform → ℕ → Option ℕ → Entries L → Entries L × Option Error
  rate_limit_auth p now user = limit now (auth_identity p user)

  abbrev pub rate_limit_webhook : ℕ → String → Entries L → Entries L × Option Error
  rate_limit_webhook now ip = limit now (webhook_identity ip)

-- What happens to a store: a request, or a tick of its janitor, each at a time.
pub data Event : Type 0 where
  request : ℕ → Option String → Event
  tick : ℕ → Event

-- The answers of a store to the requests, one after the other.
unfoldable pub serve_events :
    {L : Type 0} → Bucket L → ℕ → List Event → Entries L → List (Option Error)
unfolding limit sweep
serve_events b ttl [] m = []
serve_events b ttl (request now identity ∷ es) m =
    let (m', answer) = limit b now identity m in answer ∷ serve_events b ttl es m'
serve_events b ttl (tick now ∷ es) m = serve_events b ttl es (sweep b ttl now m)

-- The specification: one bucket per identity, which is never forgotten.
abbrev pub Buckets : Type 0 → Type 0
Buckets L = String → L

unfoldable pub ideal_limit :
    {L : Type 0} → Bucket L → ℕ → Option String → Buckets L → Buckets L × Option Error
ideal_limit b now none m = (m, some (wrapped err_unauthorized))
ideal_limit b now (some identity) m =
    let (limiter, allowed) = b.allow_n now (m identity) in
    (
      λ k. if str_eq identity k then limiter else m k,
      if allowed then none else some (wrapped err_rate_limited),
    )

unfoldable pub ideal_events : {L : Type 0} → Bucket L → List Event → Buckets L → List (Option Error)
unfolding ideal_limit
ideal_events b [] m = []
ideal_events b (request now identity ∷ es) m =
    let (m', answer) = ideal_limit b now identity m in answer ∷ ideal_events b es m'
ideal_events b (tick now ∷ es) m = ideal_events b es m

-- The times of a sequence do not go back.
abbrev pub Ordered : ℕ → List Event → Type 0
Ordered t [] = Unit
Ordered t (request now identity ∷ es) = (t ≤ now) × Ordered now es
Ordered t (tick now ∷ es) = (t ≤ now) × Ordered now es

-- What a token bucket does that fills up within the ttl: once that has gone by since its last use,
-- it answers and goes on as a new one does.
abbrev pub Refills : {L : Type 0} → Bucket L → ℕ → Type 0
Refills {L} b ttl =
    (seen t : ℕ) (l : L) → seen + ttl < t → b.allow_n t (b.allow_n seen l).0 ≡ b.allow_n t b.fresh
