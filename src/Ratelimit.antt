-- ===== src/Ratelimit.antt =====
-- internal/ratelimit: a bucket of tokens for each client. The arithmetic of `float64` is an argument,
-- as is the time between two instants in minutes; instants are nanoseconds.
use dnsmon.Base.{
  ℕ, ◌+◌, ◌*◌, List, [], ◌∷◌, ◌++◌, none, some, Bool, true, false, not, Text, bytes, is_empty,
  split, trim_space, lookup, insert, keep, text_eq, ltb, if◌then◌else◌, decimal, ◌==◌, ◌/◌,
}
use mathlib.Core.List.{reverse}

-- `float64(n)`, `now.Sub(last).Minutes()`, `+`, `*`, `<` and `x - 1`.
pub record Float (F : Type 0) : Type 0 where
  of_int : ℕ → F
  minutes : ℕ → ℕ → F
  pub add : F → F → F
  multiply : F → F → F
  less : F → F → Bool
  minus_one : F → F

pub record Bucket (F : Type 0) : Type 0 where
  pub tokens : F
  last_refill : ℕ

pub record Limiter (F : Type 0) : Type 0 where
  buckets : List (Text × Bucket F)
  rate_per_min : ℕ
  burst : ℕ

-- `New`, without the goroutine of `cleanup`, whose ticks are `evict_stale`.
unfoldable pub new : {F : Type 0} → ℕ → ℕ → Limiter F
new rate_per_min burst = record { buckets = []; rate_per_min = rate_per_min; burst = burst }

-- The entries with other keys.
without : {F : Type 0} → Text → List (Text × Bucket F) → List (Text × Bucket F)
unfolding keep text_eq
without {F} key m = keep (λ (e : Text × Bucket F). not (text_eq e.0 key)) m

-- `Reset`
unfoldable reset : {F : Type 0} → Text → Limiter F → Limiter F
unfolding without
reset key l = record l { buckets = without key l.buckets }

five_minutes : ℕ
five_minutes = 5 * 60000000000

-- `evictStale`: the entries that were last used before `now` less five minutes go.
unfoldable evict_stale : {F : Type 0} → ℕ → Limiter F → Limiter F
unfolding keep five_minutes
evict_stale {F} now l = record l {
  buckets =
      keep (λ (e : Text × Bucket F). not (ltb (e.1.last_refill + five_minutes) now)) l.buckets;
}

module _ {F : Type 0} (float : Float F) where
  bucket_of : Text → ℕ → Limiter F → Bucket F
  unfolding lookup
  bucket_of key now l = elim (lookup key l.buckets) [
    | none ↦ record { tokens = float.of_int l.burst; last_refill = now }
    | some b ↦ b
  ]

  -- `if b.tokens > float64(l.burst)`
  at_most : ℕ → F → F
  at_most burst x = if float.less (float.of_int burst) x then float.of_int burst else x

  refilled : ℕ → Limiter F → Bucket F → F
  unfolding at_most
  refilled now l b = at_most l.burst (
      float.add b.tokens
        (float.multiply (float.minutes now b.last_refill) (float.of_int l.rate_per_min)))

  take_token : Text → ℕ → Limiter F → F → Bool × Limiter F
  unfolding insert
  take_token key now l x =
      if float.less x (float.of_int 1)
      then (
        false,
        record l { buckets = insert key (record { tokens = x; last_refill = now }) l.buckets },
      )
      else (
        true,
        record l {
          buckets = insert key (record { tokens = float.minus_one x; last_refill = now }) l.buckets;
        },
      )

  -- `Allow`
  allow : Text → ℕ → Limiter F → Bool × Limiter F
  unfolding take_token refilled bucket_of
  allow key now l = take_token key now l (refilled now l (bucket_of key now l))

-- The headers and the address of a request that `clientIP` reads.
pub record Origin : Type 0 where
  x_forwarded_for : Text
  x_real_ip : Text
  remote_addr : Text

first_or_empty : List Text → Text
first_or_empty [] = []
first_or_empty (p ∷ ps) = p

-- What stands in front of the last colon, or all where there is none.
after_colon : Text → Text → Text
after_colon whole [] = whole
after_colon whole (c ∷ s) = let rest = after_colon whole s in if c == b':' then reverse s else rest

-- `clientIP`
client_ip : Origin → Text
unfolding split trim_space first_or_empty after_colon
client_ip r =
    if not (is_empty r.x_forwarded_for)
    then trim_space (first_or_empty (split b',' r.x_forwarded_for))
    else if not (is_empty r.x_real_ip)
    then r.x_real_ip
    else after_colon r.remote_addr (reverse r.remote_addr)

-- What `Middleware` does with a request: whether it goes on, else it is refused with status 429, and
-- the headers that are set on the response.
pub record Passage : Type 0 where
  pub goes_on : Bool
  pub headers : List (Text × Text)

limit_headers : ℕ → ℕ → List (Text × Text)
unfolding bytes decimal
limit_headers rate now =
    (bytes "X-RateLimit-Limit", decimal rate)
    ∷ (bytes "X-RateLimit-Reset", decimal ((now + 60000000000) / 1000000000))
    ∷ []

refused_headers : List (Text × Text)
unfolding bytes
refused_headers =
    (bytes "X-RateLimit-Remaining", bytes "0") ∷ (bytes "Retry-After", bytes "60") ∷ []

passage : ℕ → ℕ → Bool → Bool → Passage
unfolding limit_headers refused_headers
passage rate now false allowed = record { goes_on = allowed; headers = [] }
passage rate now true true = record { goes_on = true; headers = limit_headers rate now }
passage rate now true false = record {
  goes_on = false;
  headers = limit_headers rate now ++ refused_headers;
}

-- `Middleware`, where the two readings of the clock are `reset_at` and `now`.
unfoldable middleware :
    {F : Type 0} → Float F → Bool → Origin → ℕ → ℕ → Limiter F → Passage × Limiter F
unfolding allow client_ip passage
middleware float headers r reset_at now l =
    let (allowed, l') = allow float (client_ip r) now l in
    (passage l.rate_per_min reset_at headers allowed, l')
