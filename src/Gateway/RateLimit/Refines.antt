-- ===== src/Gateway/RateLimit/Refines.antt =====
-- The store of api-gateway/middleware/ratelimit.go, which forgets idle identities, against one that
-- forgets none.
use mokibox.Shared.{
  ℕ, ◌+◌, ◌-◌, ◌≤◌, ◌<◌, ◌≡◌, refl, ap, sym, String, Bool, Bool-cases, inl, inr, Option, none, some,
  List, [], ◌∷◌, arith, ltb, if◌then◌else◌, str_eq,
}
use mokibox.Gateway.Errors.{wrapped, err_rate_limited}
use mokibox.Gateway.RateLimit.{
  Bucket, RateLimiterEntry, Entries, limiter_of, allow, sweep, limit, Event, request, tick,
  serve_events, Buckets, ideal_limit, ideal_events, Ordered, Refills,
}

same_cons :
    {A : Type 0} {x y : A} {xs ys : List A} → x ≡ y → xs ≡ ys → ◌≡◌ {A = List A} (x ∷ xs) (y ∷ ys)
same_cons e k = cc

module _ {L : Type 0} (b : Bucket L) (ttl : ℕ) where
  -- From the time `t` on, the limiter cannot be told from a new one.
  abbrev Idle : ℕ → L → Type 0
  Idle t l = (now : ℕ) → t ≤ now → b.allow_n now l ≡ b.allow_n now b.fresh

  -- An entry holds the ideal limiter, which is idle once the ttl has gone by; an identity without an
  -- entry has an idle one.
  abbrev Matches : ℕ → Option (RateLimiterEntry L) → L → Type 0
  Matches t none l = Idle t l
  Matches t (some e) l = (l ≡ e.limiter) × ((u : ℕ) → e.last_seen + ttl < u → Idle u l)

  abbrev Tracks : ℕ → Entries L → Buckets L → Type 0
  Tracks t m n = (k : String) → Matches t (m k) (n k)

  Matches-later :
      (t u : ℕ) (e : Option (RateLimiterEntry L)) (l : L) → t ≤ u → Matches t e l → Matches u e l
  Matches-later t u none l le h = λ now p. h now (omega arith)
  Matches-later t u (some e) l le h = h

  -- A sweep forgets idle limiters only.
  Matches-swept :
      (t now : ℕ) (e : Option (RateLimiterEntry L)) (l : L)
      → t ≤ now
      → Matches t e l
      → Matches now
          (elim e [ none ↦ none | some x ↦ if ltb ttl (now - x.last_seen) then none else some x ])
          l
  Matches-swept t now none l le h = Matches-later t now none l le h
  Matches-swept t now (some x) l le (same, idle) = elim (Bool-cases (ltb ttl (now - x.last_seen))) [
    | inl stale ↦ rw stale (idle now (ground arith))
    | inr live ↦ rw live (same, idle)
  ]

  -- The limiter that `allow` uses answers as the ideal one does.
  Matches-allow_n :
      (t now : ℕ) (e : Option (RateLimiterEntry L)) (l : L)
      → t ≤ now
      → Matches t e l
      → b.allow_n now (limiter_of b e) ≡ b.allow_n now l
  Matches-allow_n t now none l le h = sym (h now le)
  Matches-allow_n t now (some x) l le (same, idle) = ap (b.allow_n now) (sym same)

  Tracks-allow :
      (t now : ℕ) (identity : String) (m : Entries L) (n : Buckets L)
      → Refills b ttl
      → t ≤ now
      → Tracks t m n
      → Tracks now (allow b now identity m).0 (ideal_limit b now (some identity) n).0
  unfolding allow ideal_limit
  Tracks-allow t now identity m n refills le h k = elim (Bool-cases (str_eq identity k)) [
    | inr other ↦ rw other (Matches-later t now (m k) (n k) le (h k))
    | inl mine ↦ rw mine (
      ap (λ (q : L × Bool). q.0)
          (sym (Matches-allow_n t now (m identity) (n identity) le (h identity))),
      λ u late now' p. refills now now' (n identity) (omega arith),
    )
  ]

  same_answer :
      (t now : ℕ) (identity : String) (m : Entries L) (n : Buckets L)
      → t ≤ now
      → Tracks t m n
      → (limit b now (some identity) m).1 ≡ (ideal_limit b now (some identity) n).1
  unfolding limit ideal_limit allow
  same_answer t now identity m n le h =
      ap (λ (q : L × Bool). if q.1 then none else some (wrapped err_rate_limited))
        (Matches-allow_n t now (m identity) (n identity) le (h identity))

  Tracks-swept :
      (t now : ℕ) (m : Entries L) (n : Buckets L)
      → t ≤ now
      → Tracks t m n
      → Tracks now (sweep b ttl now m) n
  unfolding sweep
  Tracks-swept t now m n le h k = Matches-swept t now (m k) (n k) le (h k)

  Tracks-events :
      (t : ℕ) (es : List Event) (m : Entries L) (n : Buckets L)
      → Refills b ttl
      → Ordered t es
      → Tracks t m n
      → serve_events b ttl es m ≡ ideal_events b es n
  unfolding serve_events ideal_events
  Tracks-events t [] m n refills ordered h = refl
  Tracks-events t (tick now ∷ es) m n refills (le, ordered) h =
      Tracks-events now es (sweep b ttl now m) n refills ordered (Tracks-swept t now m n le h)
  Tracks-events t (request now none ∷ es) m n refills (le, ordered) h =
      same_cons refl
        (Tracks-events now es m n refills ordered (λ k. Matches-later t now (m k) (n k) le (h k)))
  Tracks-events t (request now (some identity) ∷ es) m n refills (le, ordered) h =
      same_cons (same_answer t now identity m n le h) (
        Tracks-events now es (allow b now identity m).0 (ideal_limit b now (some identity) n).0
          refills ordered (Tracks-allow t now identity m n refills le h))

  -- If a token bucket fills up within the ttl of the store, the store, which starts empty and whose
  -- sweeps forget idle identities, answers any sequence of requests and sweeps as if it had held one
  -- bucket for each identity from the start and never forgotten one.
  pub serve_events-ideal :
      Refills b ttl
      → (es : List Event) → Ordered 0 es
      → serve_events b ttl es (λ k. none) ≡ ideal_events b es (λ k. b.fresh)
  serve_events-ideal refills es ordered = Tracks-events 0 es _ _ refills ordered (λ k now le. refl)
